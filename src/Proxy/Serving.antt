-- ===== src/Proxy/Serving.antt =====
-- What one round of the proxy's thread does with each kind of message.
use shp.Base.{
  ℕ, ◌+◌, ◌<◌, ◌≤◌, ◌≡◌, ◌≢◌, ◌⊎◌, inl, inr, Bool-cases, ==_iff, true, false, some, [], ◌∷◌, ◌++◌,
  ◌==◌, length, done, arith,
}
use shp.Memory.{IsU32, u32_mod}
use shp.ErrorCodes.{ErrorCode, ok}
use shp.Message.{Message, MessageId, message_id_code, block}
use shp.Queue.{Queue}
use shp.Queue.Order.{IsValid}
use shp.Queue.Fifo.{contents}
use shp.Os.{Os}
use shp.Os.Laws.{RecvLaws, SendLaws, IsBytewise}
use shp.Socket.{is_settable}
use shp.SocketServer.{ServerSocket, send_message}
use shp.Transfer.Ends.{send_parts-Ends}
use shp.Configuration.{Config, proxy_configuration, process_message_configuration}
use shp.Proxy.{register_answer, process_message_command, process_message_register}
use shp.Proxy.Handling.{answer-Ends, process_message_event_lem}
use shp.Proxy.Version.{Directory, version_answer, process_message_version}
use shp.Proxy.Thread.{Served, leak, dispatch}

-- An answer that holds its whole payload.
pub record IsWhole (m : Message) : Type 0 where
  pub inside : m.payload_size ≤ length (block m.raw_payload)
  pub word : IsU32 m.payload_size

-- A message whose handler reads no undefined memory and makes its answer: the version is readable and
-- the update's file is there, or the configuration is readable, or the proxy holds a configuration to
-- answer with, or it is a message of which nothing is read.
pub data Answerable (d : Directory) (now : ℕ) (m : Message) (config : Config) : Type 0 where
  version_asked :
      {answer : Message}
      → m.message_id ≡ message_id_code MessageId.send_version
      → version_answer d m ≡ done answer
      → IsWhole answer
      → Answerable d now m config
  configures :
      {c : Config}
      → m.message_id ≡ message_id_code MessageId.send_config
      → proxy_configuration m config ≡ done c
      → Answerable d now m config
  registers :
      {answer : Message}
      → m.message_id ≡ message_id_code MessageId.send_register
      → register_answer now config ≡ done answer
      → IsWhole answer
      → Answerable d now m config
  unread :
      m.message_id ≢ message_id_code MessageId.send_version
      → m.message_id ≢ message_id_code MessageId.send_config
      → m.message_id ≢ message_id_code MessageId.send_register
      → Answerable d now m config

-- What is kept behind a message: a configuration is taken, an event goes behind all that wait, a
-- message of an unknown kind is never deleted, and the others change nothing.
pub data Handles (m : Message) (s : Served) : Served → Type 0 where
  only_answered :
      (m.message_id ≡ message_id_code MessageId.send_version)
        ⊎ ((m.message_id ≡ message_id_code MessageId.send_register)
            ⊎ (m.message_id ≡ message_id_code MessageId.send_command))
      → Handles m s s
  configured :
      {c : Config}
      → m.message_id ≡ message_id_code MessageId.send_config
      → proxy_configuration m s.config ≡ done c
      → Handles m s (record s { config = c })
  queued :
      {q : Queue Message}
      → m.message_id ≡ message_id_code MessageId.send_event
      → contents q ≡ contents s.queue ++ m ∷ []
      → Handles m s (record s { queue = q })
  lost :
      m.message_id ≢ message_id_code MessageId.send_version
      → m.message_id ≢ message_id_code MessageId.send_config
      → m.message_id ≢ message_id_code MessageId.send_event
      → m.message_id ≢ message_id_code MessageId.send_register
      → m.message_id ≢ message_id_code MessageId.send_command
      → Handles m s (leak (some m) s)

module _ (os : Os) (sends : SendLaws os) (d : Directory) (socket : ServerSocket)
    (open_fd : is_settable socket.accept_fd ≡ true) where
  send_message-Ends :
      (m : Message) (w : os.World)
      → IsWhole m
      → (r : ErrorCode) × (w' : os.World) × (send_message os m socket w ≡ done (r, w'))
  unfolding send_message
  send_message-Ends m w v =
      let (r, e) =
        send_parts-Ends os sends socket.accept_fd socket.write_timeout m open_fd v.inside v.word
          w in
      (r.0, r.1, e)

  process_message_version_answers :
      (m answer : Message) (w : os.World)
      → version_answer d m ≡ done answer
      → IsWhole answer
      → (r : ErrorCode) × (w' : os.World) × (process_message_version os d m socket w ≡ done (r, w'))
  unfolding process_message_version
  process_message_version_answers m answer w makes v =
      let (r, w', ends) = send_message-Ends answer w v in (r, w', rw (makes, ends))

  process_message_register_answers :
      (now : ℕ) (config : Config) (answer : Message) (w : os.World)
      → register_answer now config ≡ done answer
      → IsWhole answer
      → (r : ErrorCode) × (w' : os.World) × (process_message_register os now socket config w
          ≡ done (r, w'))
  unfolding process_message_register
  process_message_register_answers now config answer w makes v =
      let (r, w', ends) = send_message-Ends answer w v in (r, w', rw (makes, ends))

  process_message_configuration_takes :
      (m : Message) (config c : Config) (w : os.World)
      → proxy_configuration m config ≡ done c
      → (r : ErrorCode) × (w' : os.World) × (process_message_configuration os m socket config w
          ≡ done ((r, c), w'))
  unfolding process_message_configuration
  process_message_configuration_takes m config c w takes =
      let (r, ends) = answer-Ends os sends socket open_fd MessageId.send_config_result w in
      (r.0, r.1, rw (takes, ends))

  process_message_command_ends :
      (w : os.World) → (w' : os.World) × (process_message_command os socket w ≡ done (ok, w'))
  unfolding process_message_command
  process_message_command_ends w =
      let (r, ends) = answer-Ends os sends socket open_fd MessageId.send_command_result w in
      (r.1, rw ends)

hit : (m n : ℕ) → m ≡ n → (m == n) ≡ true
hit m n e = (==_iff m n).1 e

miss : (m n : ℕ) → m ≢ n → (m == n) ≡ false
miss m n h = ground arith

-- A number that is the code of one kind of message is not that of another.
config_ne_version :
    (n : ℕ)
    → n ≡ message_id_code MessageId.send_config
    → (n == message_id_code MessageId.send_version) ≡ false
unfolding message_id_code
config_ne_version n e = ground arith

register_ne :
    (n : ℕ)
    → n ≡ message_id_code MessageId.send_register
    → ((n == message_id_code MessageId.send_version) ≡ false)
      × ((n == message_id_code MessageId.send_config) ≡ false)
      × ((n == message_id_code MessageId.send_event) ≡ false)
unfolding message_id_code
register_ne n e = (ground arith, ground arith, ground arith)

module _ (os : Os) (sends : SendLaws os) (recvs : RecvLaws os) (bytewise : IsBytewise os recvs)
    (d : Directory) (now : ℕ) where
  unread-Handles :
      (m : Message) (s : Served) (w : os.World)
      → is_settable s.socket.accept_fd ≡ true
      → IsValid s.queue
      → s.queue.message_id + 1 < u32_mod
      → m.message_id ≢ message_id_code MessageId.send_version
      → m.message_id ≢ message_id_code MessageId.send_config
      → m.message_id ≢ message_id_code MessageId.send_register
      → (s' : Served) × (w' : os.World) × (dispatch os d now m s w ≡ done (s', w')) × Handles m s s'
  unfolding dispatch
  unread-Handles m s w open_fd valid room not_version not_config not_register =
      let v = miss m.message_id (message_id_code MessageId.send_version) not_version in
      let c = miss m.message_id (message_id_code MessageId.send_config) not_config in
      let r = miss m.message_id (message_id_code MessageId.send_register) not_register in
      elim (Bool-cases (m.message_id == message_id_code MessageId.send_event)) [
        | inl event ↦
            let (q', w', handles, at_end) =
              process_message_event_lem os sends s.socket open_fd m s.queue w valid room in
            (
              record s { queue = q' },
              w',
              rw (v, c, event, handles),
              queued ((==_iff m.message_id (message_id_code MessageId.send_event)).0 event) at_end,
            )
        | inr other ↦ elim (Bool-cases (m.message_id == message_id_code MessageId.send_command)) [
          | inl command ↦
              let (w', ends) = process_message_command_ends os sends d s.socket open_fd w in
              (
                s,
                w',
                rw (v, c, other, r, command, ends),
                only_answered (
                    inr (
                      inr (
                        (==_iff m.message_id (message_id_code MessageId.send_command)).0 command))),
              )
          | inr unknown ↦ (
            leak (some m) s,
            w,
            rw (v, c, other, r, unknown),
            lost not_version not_config (ne_of_== m.message_id _ other) not_register
                (ne_of_== m.message_id _ unknown),
          )
        ]
      ]
    where
      ne_of_== : (m n : ℕ) → (m == n) ≡ false → m ≢ n
      ne_of_== m n h e = ground arith

  pub dispatch-Handles :
      (m : Message) (s : Served) (w : os.World)
      → is_settable s.socket.accept_fd ≡ true
      → IsValid s.queue
      → s.queue.message_id + 1 < u32_mod
      → Answerable d now m s.config
      → (s' : Served) × (w' : os.World) × (dispatch os d now m s w ≡ done (s', w')) × Handles m s s'
  unfolding dispatch
  dispatch-Handles m s w open_fd valid room (version_asked {answer} same makes whole) =
      let (r, w', ends) =
        process_message_version_answers os sends d s.socket open_fd m answer w makes whole in
      (
        s,
        w',
        rw (hit m.message_id (message_id_code MessageId.send_version) same, ends),
        only_answered (inl same),
      )
  dispatch-Handles m s w open_fd valid room (configures {c} same takes) =
      let (r, w', ends) =
        process_message_configuration_takes os sends d s.socket open_fd m s.config c w takes in
      (
        record s { config = c },
        w',
        rw (
          config_ne_version m.message_id same,
          hit m.message_id (message_id_code MessageId.send_config) same,
          ends,
        ),
        configured same takes,
      )
  dispatch-Handles m s w open_fd valid room (registers {answer} same makes whole) =
      let (r, w', ends) =
        process_message_register_answers os sends d s.socket open_fd now s.config answer w makes
          whole in
      let (v, c, e) = register_ne m.message_id same in
      (
        s,
        w',
        rw (v, c, e, hit m.message_id (message_id_code MessageId.send_register) same, ends),
        only_answered (inr (inl same)),
      )
  dispatch-Handles m s w open_fd valid room (unread not_version not_config not_register) =
      unread-Handles m s w open_fd valid room not_version not_config not_register
