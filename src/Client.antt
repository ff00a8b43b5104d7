-- ===== src/Client.antt =====
-- The client's exchanges with the proxy: src/client_process_event.cpp, and src/client_process_config.cpp
-- in Client/Configure.antt. Log lines are left out.
pub mod Event
pub mod Configure
pub mod Announcing
pub mod Announced
pub mod Concluding
pub mod Samples
mod Tests
use shp.Base.{
  ℕ, zero, suc, ◌+◌, ◌-◌, ◌*◌, ◌%◌, Bool, true, false, Option, none, some, List, [], ◌∷◌, ◌++◌, map,
  ltb, leb, ◌==◌, not, if◌then◌else◌, length, replicate, take, drop, Exec, done, fault, out_of_fuel,
  or_fault, ◌&&◌, ◌||◌,
}
use shp.Memory.{Memory, Cell, u32_mod, cells, read_at, write_at, le32, strlen}
use shp.ErrorCodes.{ErrorCode, is_ok, ok, invalid_state, system_error}
use shp.Message.{
  Message, MessageId, message_id_code, FieldId, Found, new_message, block, add_num_to_message,
  add_string_to_message, add_field_to_message, get_field_from_message,
}
use shp.Queue.{Queue, Peeked, peek, remove}
use shp.Os.{Os}
use shp.Os.Actions.{Io, pure, ◌>>=◌, ◌>>◌, call, lift, when_ok}
use shp.SocketClient.{ClientSocket, new_client_socket, connect, close, send_and_receive}

-- `network_settings_t`; no process reads more than the address and the port.
pub record NetworkSettings : Type 0 where
  pub address : Memory
  pub port : ℕ
  pub connect_retry_count : ℕ
  pub connect_retry_sleep : ℕ
  pub write_timeout : ℕ
  pub read_timeout : ℕ
  pub keep_alive_timeout : ℕ

module _ (os : Os) (network : NetworkSettings) where
  open os use {World}

  -- `socket.connect`, then `socket.send_and_receive`, with what they leave in the socket.
  unfoldable pub exchange :
      Message → ErrorCode → ClientSocket → Io World ((ErrorCode × Option Message) × ClientSocket)
  exchange message result socket = do
    (connected, s) ←
        if is_ok result
        then connect os network.address network.port socket
        else pure (result, socket)
    answered ← if is_ok connected then send_and_receive os message s else pure (connected, none)
    pure (answered, s)

  -- `socket.close ()`, and the destructor at the end of the function, which closes again.
  unfoldable pub close_twice : ClientSocket → Io World (Unit {0})
  close_twice socket = do s ← close os socket; s' ← close os s; pure tt

  -- On an empty queue, only the destructor of `socket` runs.
  unfoldable pub process_event : Queue Message → Io World (ErrorCode × Queue Message)
  unfolding exchange close_twice
  process_event q = do
    let (result, peeked) = peek q
    if peeked.id == 0 then (do close os new_client_socket; pure (result, q)) else (do
      message ← lift (or_fault peeked.message)
      ((sent, answer), s) ← exchange message result new_client_socket
      let q' = if is_ok sent then (remove peeked.id q).1 else q
      close_twice s
      pure (sent, q'))
