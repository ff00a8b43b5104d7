-- ===== src/Head/Thread.antt =====
-- src/head_main.cpp: one round of the thread that serves the proxy, the registration, and one
-- round of the loop that shows events. The screen, the waits and the log are left out.
use shp.Base.{ℕ, Option, none, some, List, [], ◌∷◌, ◌==◌, if◌then◌else◌, Exec, done, or_fault}
use shp.ErrorCodes.{is_ok, ok}
use shp.Message.{Message, MessageId, message_id_code, new_message}
use shp.Queue.{Queue, peek, remove}
use shp.Os.{Os}
use shp.Os.Actions.{Io, pure, ◌>>=◌, lift}
use shp.SocketServer.{ServerSocket, accept_client, recv_message, close_client}
use shp.SocketClient.{new_client_socket, close}
use shp.Client.{NetworkSettings, exchange}
use shp.Configuration.{Config, head_configuration}
use shp.Proxy.Thread.{head_address}
use shp.Proxy.{process_message_event}
use shp.Head.{Tm, show_message_event}

-- What the thread keeps from one round to the next, and the messages to which no pointer is left.
pub record Served : Type 0 where
  pub socket : ServerSocket
  pub queue : Queue Message
  pub leaked : List Message

-- The pointer to a message that is not queued is lost.
abbrev pub leak : Option Message → Served → Served
leak none s = s
leak (some m) s = record s { leaked = m ∷ s.leaked }

module _ (os : Os) where
  open os use {World}

  -- The `switch`; `process_message_event` of the head has the text of the proxy's.
  unfoldable pub dispatch : Message → Served → Io World Served
  unfolding message_id_code
  dispatch m s =
      if m.message_id == message_id_code MessageId.send_event
      then (do q ← process_message_event os m s.socket s.queue; pure (record s { queue = q }))
      else pure (leak (some m) s)

  -- One round of `working_thread`. A message of which the payload did not come is lost as well.
  unfoldable pub serve : Served → Io World Served
  unfolding dispatch
  serve s = do
    (accepted, socket) ← accept_client os s.socket
    let s1 = record s { socket = socket }
    (received, m) ← if is_ok accepted then recv_message os socket else pure (accepted, none)
    let handle = (do message ← lift (or_fault m); dispatch message s1)
    s2 ← if is_ok received then handle else pure (leak m s1)
    closed ← close_client os s2.socket
    pure (record s2 { socket = closed })

-- The address in the call of `connect`.
abbrev pub proxy_network : NetworkSettings
proxy_network = record {
  address = head_address;
  port = 3456;
  connect_retry_count = 3;
  connect_retry_sleep = 2;
  write_timeout = 10;
  read_timeout = 10;
  keep_alive_timeout = 0;
}

module _ (os : Os) where
  open os use {World}

  -- The registration at the start of `main`; the last call on the socket is its destructor.
  unfoldable pub register : Config → Io World Config
  unfolding exchange head_configuration
  register c = do
    ((result, answer), s) ←
        exchange os proxy_network (new_message MessageId.send_register) ok new_client_socket
    c' ←
        if is_ok result
        then (do message ← lift (or_fault answer); lift (head_configuration message c))
        else pure c
    s' ← close os s
    pure c'

-- One round of the loop in `main`, behind `show_screen`; `now` is what `time (NULL)` returns.
unfoldable pub show_next :
    (ℕ → Tm) → (ℕ → ℕ) → Queue Message → Config → Exec (Queue Message × Config)
unfolding show_message_event
show_next localtime now q c =
    let (result, peeked) = peek q in
    let shown = shp.Base.◌>>=◌ (or_fault peeked.message) (λ message.
      shp.Base.◌>>=◌ (show_message_event localtime now message c)
        (λ c'. done ((remove peeked.id q).1, c'))) in
    if peeked.id == 0 then done (q, c) else if is_ok result then shown else done (q, c)
