-- ===== src/Client/Event.antt =====
-- `process_event`: a message leaves the queue only when it has been answered.
use shp.Base.{
  ◌≡◌, ◌≤◌, ◌⊎◌, refl, sym, subst, pos, negsuc, ap, ◌∙◌, ℤ, true, false, is_negative, minus_one,
  Bool-cases, inl, inr, List, [], ◌∷◌, ◌==◌, length, none, some, done, fault, arith, Option,
}
use shp.Memory.{IsU32}
use shp.ErrorCodes.{ErrorCode, is_ok, ok}
use shp.Message.{Message, block}
use shp.Os.{Os}
use shp.Os.Ends.{Ends}
use shp.Os.Laws.{RecvLaws, SendLaws, IsBytewise}
use shp.Socket.{is_settable}
use shp.Socket.Ends.{close_socket-Ends}
use shp.Queue.{Queue, MessageMap, peek, remove, values}
use shp.Queue.Order.{IsValid}
use shp.Queue.Fifo.{contents, Serves, peek-Serves}
use shp.SocketClient.{ClientSocket, new_client_socket, close, send_and_receive}
use shp.SocketClient.Connecting.{connect_holds}
use shp.Transfer.Ends.{Answered, Answers, send_parts-Ends, recv_parts-Answers}
use shp.Client.{NetworkSettings, exchange, close_twice, process_event}

-- On an empty queue the client closes a descriptor that was never stored, which is undefined.
pub process_event_idle :
    (os : Os) (network : NetworkSettings) (q : Queue Message) (w : os.World)
    → contents q ≡ []
    → process_event os network q w ≡ fault
unfolding process_event close new_client_socket peek values
process_event_idle os network q w empty = idle q.message_map refl
  where
    idle : (m : MessageMap Message) → q.message_map ≡ m → process_event os network q w ≡ fault
    idle [] e = rw e
    idle ((k, v) ∷ m) e = let impossible : v ∷ values m ≡ [] = ap values (sym e) ∙ empty in cc

-- The oldest message has left the queue, or nothing has changed.
abbrev pub Consumes : ErrorCode → Queue Message → Queue Message → List Message → Type 0
Consumes result q q' waiting =
    (is_ok result ≡ true × contents q' ≡ waiting) ⊎ (is_ok result ≡ false × q' ≡ q)

pub peek_ok : (q : Queue Message) → (peek q).0 ≡ ok
unfolding peek
peek_ok q = on_map q.message_map
  where
    on_map : (m : MessageMap Message) → (peek (record q { message_map = m })).0 ≡ ok
    on_map [] = refl
    on_map ((k, v) ∷ m) = refl

-- What the sockets do for one exchange.
module _ (os : Os) (sends : SendLaws os) (recvs : RecvLaws os) (bytewise : IsBytewise os recvs)
    (network : NetworkSettings) (message : Message)
    (whole : message.payload_size ≤ length (block message.raw_payload))
    (word : IsU32 message.payload_size) where
  send_and_receive-Answers :
      (s : ClientSocket) (fd : ℤ)
      → s.socket_fd ≡ some fd
      → is_settable fd ≡ true
      → Answers (send_and_receive os message s)
  unfolding send_and_receive
  send_and_receive-Answers s fd held open_fd w =
      let ((sent, w1), sends_it) =
        send_parts-Ends os sends fd s.write_timeout message open_fd whole word w in
      elim (Bool-cases (is_ok sent)) [
        | inl going ↦
            let (r, answers, answered) =
              recv_parts-Answers os recvs bytewise fd s.read_timeout open_fd w1 in
            (r, rw (held, sends_it, going) answers, answered)
        | inr stopped ↦ (((sent, none), w1), rw (held, sends_it, stopped), inl stopped)
      ]

  pub close_twice-Ends :
      (s : ClientSocket) (fd : ℤ) → s.socket_fd ≡ some fd → Ends (close_twice os network s)
  unfolding close_twice close
  close_twice-Ends s fd held w =
      let ((t, w1), first) = close_socket-Ends os fd w in
      let ((t', w2), second) = close_socket-Ends os minus_one w1 in
      ((tt, w2), rw (held, first, second))

  pub exchange_holds :
      (w : os.World)
      → is_settable (os.socket w).0 ≡ true
      → (answered : ErrorCode × Option Message) × (fd : ℤ) × (w' : os.World) × (exchange os network
            message ok new_client_socket w
          ≡ done ((answered, record new_client_socket { socket_fd = some fd }), w'))
        × Answered answered
  unfolding exchange
  exchange_holds w open_fd =
      let (result, fd, w1, connects, which) =
        connect_holds os network.address network.port new_client_socket w
          (open_positive (os.socket w).0 open_fd) in
      elim which [
        | inl held ↦
            let ((answered, w2), exchanges, which_answer) =
              send_and_receive-Answers (record new_client_socket { socket_fd = some fd }) fd refl
                (ap is_settable held.1 ∙ open_fd) w1 in
            (answered, fd, w2, rw (connects, held.0, exchanges), which_answer)
        | inr closed ↦ ((result, none), fd, w1, rw (connects, closed.0), inl closed.0)
      ]
    where
      open_positive : (fd : ℤ) → is_settable fd ≡ true → is_negative fd ≡ false
      open_positive (pos n) h = refl
      open_positive (negsuc n) h = cc

  -- The queue that is left: without its oldest message after a success, and as it was after a failure.
  pub process_event_queue :
      (q : Queue Message) (waiting : List Message) (w : os.World)
      → IsValid q
      → contents q ≡ message ∷ waiting
      → is_settable (os.socket w).0 ≡ true
      → (result : ErrorCode) × (q' : Queue Message) × (w' : os.World) × (process_event os network q
            w
          ≡ done ((result, q'), w'))
        × ((is_ok result ≡ true × q' ≡ (remove (peek q).1.id q).1)
            ⊎ (is_ok result ≡ false × q' ≡ q))
  unfolding process_event
  process_event_queue q waiting w valid waits open_fd =
      let (numbered, oldest, removed, destroyed) = subst (Serves q) waits (peek-Serves q valid) in
      let nz : ((peek q).1.id == 0) ≡ false = ground arith in
      let ((sent, answer), fd, w1, exchanges, which_answer) = exchange_holds w open_fd in
      let ((t, w2), closes) =
        close_twice-Ends (record new_client_socket { socket_fd = some fd }) fd refl w1 in
      elim (Bool-cases (is_ok sent)) [
        | inl success ↦ (
          sent,
          (remove (peek q).1.id q).1,
          w2,
          rw (nz, oldest, peek_ok q, exchanges, success, closes),
          inl (success, refl),
        )
        | inr failure ↦ (
          sent,
          q,
          w2,
          rw (nz, oldest, peek_ok q, exchanges, failure, closes),
          inr (failure, refl),
        )
      ]

  -- Where a descriptor that fits into an fd_set can be made, and a message waits that holds its whole
  -- payload, `process_event` ends without undefined behaviour on every answer of the operating system
  -- and of the proxy. Either its result is `ok` and the oldest message, and no other, has left the
  -- queue, or it is a failure and the queue is as it was.
  pub process_event-Consumes :
      (q : Queue Message) (waiting : List Message) (w : os.World)
      → IsValid q
      → contents q ≡ message ∷ waiting
      → is_settable (os.socket w).0 ≡ true
      → (result : ErrorCode) × (q' : Queue Message) × (w' : os.World) × (process_event os network q
            w
          ≡ done ((result, q'), w'))
        × Consumes result q q' waiting
  process_event-Consumes q waiting w valid waits open_fd =
      let (numbered, oldest, removed, destroyed) = subst (Serves q) waits (peek-Serves q valid) in
      let (result, q', w', runs, which) = process_event_queue q waiting w valid waits open_fd in
      (
        result,
        q',
        w',
        runs,
        elim which [
          | inl (success, same) ↦ inl (success, ap contents same ∙ removed)
          | inr (failure, same) ↦ inr (failure, same)
        ],
      )
