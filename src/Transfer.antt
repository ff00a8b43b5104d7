-- ===== src/Transfer.antt =====
-- How src/socket_client.cpp and src/socket_server.cpp put a message on a connection and take one
-- off it; the text of the two files is the same up to the descriptor and the timeouts.
pub mod Ends
pub mod Sending
mod Tests
mod Crossing
pub mod Receiving
pub mod Through
pub mod Trip
use shp.Base.{
  ℕ, ℤ, Bool, true, false, Option, none, some, List, [], ◌==◌, if◌then◌else◌, length, Exec,
  or_fault,
}
use shp.Memory.{Memory, cells, write_at}
use shp.ErrorCodes.{ErrorCode, is_ok, ok}
use shp.Message.{
  Message, Header, block, header_bytes, header_of_bytes, header_size, message_of_header,
}
use shp.Os.{Os}
use shp.Os.Actions.{Io, pure, ◌>>=◌, ◌>>◌, lift, when_ok}
use shp.Socket.{send_data, recv_data}

-- The bytes received, at the start of the payload's block; an empty payload has no block.
unfoldable pub fill_payload : List ℕ → Message → Exec Message
fill_payload bytes m =
    shp.Base.◌>>=◌ (or_fault (write_at (block m.raw_payload) 0 (cells bytes)))
      (λ filled. shp.Base.done (record m { raw_payload = some filled }))

module _ (os : Os) where
  open os use {World}

  -- The header, then the payload if there is one.
  unfoldable pub send_parts : ℤ → ℕ → Message → Io World ErrorCode
  send_parts fd timeout m = do
    result ← send_data os fd (cells (header_bytes m.header)) header_size timeout
    when_ok result (
        if m.payload_size == 0
        then pure ok
        else send_data os fd (block m.raw_payload) m.payload_size timeout)

  -- The payload of a message made from its header.
  unfoldable pub recv_payload : ℤ → ℕ → Message → Io World (ErrorCode × Option Message)
  recv_payload fd timeout m = if m.payload_size == 0 then pure (ok, some m) else do
    (result, bytes) ← recv_data os fd m.payload_size timeout
    filled ← lift (fill_payload bytes m)
    pure (result, some filled)

  -- The message is there, with what came of its payload, as soon as the header has come whole.
  unfoldable pub recv_parts : ℤ → ℕ → Io World (ErrorCode × Option Message)
  recv_parts fd timeout = do
    (result, bytes) ← recv_data os fd header_size timeout
    if is_ok result
        then (do
          header ← lift (or_fault (header_of_bytes (cells bytes)))
          recv_payload fd timeout (message_of_header header))
        else pure (result, none)
