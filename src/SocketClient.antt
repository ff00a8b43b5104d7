-- ===== src/SocketClient.antt =====
-- src/socket_client.hpp and src/socket_client.cpp: the connection to a server.
pub mod Connecting
mod Tests
use shp.Base.{
  ℕ, zero, suc, ℤ, minus_one, Bool, true, false, Option, none, some, ◌==◌, if◌then◌else◌, or_fault,
}
use shp.Memory.{Memory}
use shp.ErrorCodes.{ErrorCode, is_ok, ok, socket_error}
use shp.Message.{Message}
use shp.Os.{Os}
use shp.Os.Actions.{Io, pure, ◌>>=◌, ◌>>◌, call, lift, when_ok}
use shp.Socket.{create_socket, connect_to_server, set_blocking, close_socket}
use shp.Transfer.{send_parts, recv_parts}

-- `client_socket_class`; the constructor leaves `socket_fd` without a value, which is `none`.
pub record ClientSocket : Type 0 where
  pub socket_fd : Option ℤ
  pub connect_retry_sleep : ℕ
  pub try_count_max : ℕ
  pub write_timeout : ℕ
  pub read_timeout : ℕ

unfoldable pub new_client_socket : ClientSocket
new_client_socket = record {
  socket_fd = none;
  connect_retry_sleep = 2;
  try_count_max = 3;
  write_timeout = 10;
  read_timeout = 60;
}

-- `create_socket (&socket_fd)` writes the field only if it succeeds.
abbrev pub created_fd : Option ℤ → Option ℤ → Option ℤ
created_fd none old = old
created_fd (some fd) old = some fd

module _ (os : Os) where
  open os use {World}

  -- The loop of `connect`, with the attempts that are left; no attempt leaves `socket_error`.
  unfoldable pub connect_loop : ℕ → ℤ → Memory → ℕ → ℕ → Io World ErrorCode
  connect_loop zero fd name port pause = pure socket_error
  connect_loop (suc left) fd name port pause = do
    result ← connect_to_server os fd name port
    let again = (λ (w : World). connect_loop left fd name port pause (os.sleep pause w))
    if is_ok result then pure result else if left == 0 then pure socket_error else again

  -- Reading a descriptor that was never stored is undefined.
  unfoldable pub close : ClientSocket → Io World ClientSocket
  close s = do
    fd ← lift (or_fault s.socket_fd)
    close_socket os fd
    pure (record s { socket_fd = some minus_one })

  unfoldable pub connect_created : Memory → ℕ → ClientSocket → Io World ErrorCode
  unfolding connect_loop
  connect_created name port s = do
    fd ← lift (or_fault s.socket_fd)
    result ← connect_loop s.try_count_max fd name port s.connect_retry_sleep
    when_ok result (set_blocking os fd true)

  unfoldable pub connect : Memory → ℕ → ClientSocket → Io World (ErrorCode × ClientSocket)
  unfolding connect_created close
  connect name port s = do
    (created, fd) ← create_socket os
    let s' = record s { socket_fd = created_fd fd s.socket_fd }
    result ← when_ok created (connect_created name port s')
    if is_ok result then pure (result, s') else do s'' ← close s'; pure (result, s'')

  -- The answer is stored as soon as its header has come.
  unfoldable pub send_and_receive : Message → ClientSocket → Io World (ErrorCode × Option Message)
  send_and_receive m s = do
    fd ← lift (or_fault s.socket_fd)
    sent ← send_parts os fd s.write_timeout m
    if is_ok sent then recv_parts os fd s.read_timeout else pure (sent, none)
