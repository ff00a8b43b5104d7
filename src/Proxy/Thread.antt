-- ===== src/Proxy/Thread.antt =====
-- src/proxy_main.cpp: one round of the thread that serves clients, and one round of the loop that
-- passes messages on to the head. The waits and the log are left out.
use shp.Base.{ℕ, Option, none, some, List, [], ◌∷◌, ◌==◌, if◌then◌else◌, or_fault}
use shp.Memory.{Memory, cells}
use shp.ErrorCodes.{is_ok, ok}
use shp.Message.{Message, MessageId, message_id_code}
use shp.Queue.{Queue, peek, remove}
use shp.Os.{Os}
use shp.Os.Actions.{Io, pure, ◌>>=◌, ◌>>◌, lift}
use shp.SocketServer.{ServerSocket, accept_client, recv_message, close_client}
use shp.SocketClient.{new_client_socket, close}
use shp.Configuration.{Config, process_message_configuration}
use shp.Client.{NetworkSettings, exchange}
use shp.Proxy.{process_message_event, process_message_command, process_message_register}
use shp.Proxy.Version.{Directory, process_message_version}

-- What the thread keeps from one round to the next, and the messages to which no pointer is left.
pub record Served : Type 0 where
  pub socket : ServerSocket
  pub queue : Queue Message
  pub config : Config
  pub leaked : List Message

-- The pointer to a message that is neither deleted nor queued is lost.
abbrev pub leak : Option Message → Served → Served
leak none s = s
leak (some m) s = record s { leaked = m ∷ s.leaked }

-- The address in the call of `connect`.
abbrev pub head_address : Memory
head_address = cells (b'1' ∷ b'2' ∷ b'7' ∷ b'.' ∷ b'0' ∷ b'.' ∷ b'0' ∷ b'.' ∷ b'1' ∷ 0 ∷ [])

abbrev pub head_network : NetworkSettings
head_network = record {
  address = head_address;
  port = 3457;
  connect_retry_count = 3;
  connect_retry_sleep = 2;
  write_timeout = 10;
  read_timeout = 10;
  keep_alive_timeout = 0;
}

module _ (os : Os) (d : Directory) where
  open os use {World}

  -- The `switch`; `now` is what `time (NULL)` returns.
  unfoldable pub dispatch : ℕ → Message → Served → Io World Served
  unfolding message_id_code
  dispatch now m s =
      if m.message_id == message_id_code MessageId.send_version
      then (do process_message_version os d m s.socket; pure s)
      else if m.message_id == message_id_code MessageId.send_config
      then (do
        (result, config) ← process_message_configuration os m s.socket s.config
        pure (record s { config = config }))
      else if m.message_id == message_id_code MessageId.send_event
      then (do q ← process_message_event os m s.socket s.queue; pure (record s { queue = q }))
      else if m.message_id == message_id_code MessageId.send_register
      then (do process_message_register os now s.socket s.config; pure s)
      else if m.message_id == message_id_code MessageId.send_command
      then (do process_message_command os s.socket; pure s)
      else pure (leak (some m) s)

  -- One round of `working_thread`. A message of which the payload did not come is lost as well.
  unfoldable pub serve : ℕ → Served → Io World Served
  unfolding dispatch
  serve now s = do
    (accepted, socket) ← accept_client os s.socket
    let s1 = record s { socket = socket }
    (received, m) ← if is_ok accepted then recv_message os socket else pure (accepted, none)
    let handle = (do message ← lift (or_fault m); dispatch now message s1)
    s2 ← if is_ok received then handle else pure (leak m s1)
    closed ← close_client os s2.socket
    pure (record s2 { socket = closed })

module _ (os : Os) where
  open os use {World}

  -- One round of the loop in `main`; the last call on the socket is its destructor. The result of the
  -- exchange is not looked at: `result` is that of `peek`.
  unfoldable pub forward : Queue Message → Io World (Queue Message)
  unfolding exchange
  forward q = do
    let (result, peeked) = peek q
    if peeked.id == 0 then pure q else (do
      message ← lift (or_fault peeked.message)
      (answered, s) ← exchange os head_network message ok new_client_socket
      s' ← close os s
      pure (if is_ok result then (remove peeked.id q).1 else q))
