-- ===== src/SocketServer.antt =====
-- src/socket_server.hpp and src/socket_server.cpp: the listening socket of proxy and head.
pub mod Accepting
pub mod Reception
mod Tests
use shp.Base.{ℕ, ℤ, minus_one, is_negative, Bool, true, false, Option, none, some, if◌then◌else◌}
use shp.ErrorCodes.{ErrorCode, is_ok, ok, invalid_state}
use shp.Message.{Message}
use shp.Os.{Os}
use shp.Os.Actions.{Io, pure, ◌>>=◌, ◌>>◌, when_ok}
use shp.Socket.{create_socket, bind_on_server, set_blocking, accept, close_socket}
use shp.Transfer.{send_parts, recv_parts}

-- `server_socket_class`
pub record ServerSocket : Type 0 where
  pub socket_fd : ℤ
  pub accept_fd : ℤ
  pub write_timeout : ℕ
  pub read_timeout : ℕ

unfoldable pub new_server_socket : ServerSocket
new_server_socket = record {
  socket_fd = minus_one;
  accept_fd = minus_one;
  write_timeout = 10;
  read_timeout = 60;
}

-- `*fd` is written only if a descriptor is returned.
abbrev pub stored : Option ℤ → ℤ → ℤ
stored none old = old
stored (some fd) old = fd

module _ (os : Os) where
  open os use {World}

  unfoldable pub bind : ℕ → ServerSocket → Io World (ErrorCode × ServerSocket)
  bind port s = do
    (created, fd) ← create_socket os
    let socket_fd = stored fd s.socket_fd
    result ← when_ok created (bind_on_server os socket_fd port)
    if is_ok result
        then pure (result, record s { socket_fd = socket_fd })
        else (do close_socket os socket_fd; pure (result, record s { socket_fd = minus_one }))

  unfoldable pub accept_client : ServerSocket → Io World (ErrorCode × ServerSocket)
  accept_client s = if is_negative s.socket_fd then pure (invalid_state, s) else do
    ready ← set_blocking os s.socket_fd false
    if is_ok ready
        then (do
          (result, fd) ← accept os s.socket_fd
          let s' = record s { accept_fd = stored fd s.accept_fd }
          last ← when_ok result (set_blocking os s.socket_fd true)
          pure (last, s'))
        else pure (ready, s)

  unfoldable pub recv_message : ServerSocket → Io World (ErrorCode × Option Message)
  recv_message s = recv_parts os s.accept_fd s.read_timeout

  unfoldable pub send_message : Message → ServerSocket → Io World ErrorCode
  send_message m s = send_parts os s.accept_fd s.write_timeout m

  unfoldable pub close_client : ServerSocket → Io World ServerSocket
  close_client s = do close_socket os s.accept_fd; pure (record s { accept_fd = minus_one })

  -- Also what the destructor does.
  unfoldable pub close : ServerSocket → Io World ServerSocket
  unfolding close_client
  close s = do
    s' ← close_client s
    close_socket os s'.socket_fd
    pure (record s' { socket_fd = minus_one })
