-- ===== src/SocketServer/Reception.antt =====
-- What comes to a server in one round: the calls of `accept_client` and `recv_message`, with their
-- results.
use shp.Base.{◌≡◌, false, Option, some, done}
use shp.ErrorCodes.{ErrorCode, is_ok, ok}
use shp.Message.{Message}
use shp.Os.{Os}
use shp.SocketServer.{ServerSocket, accept_client, recv_message}

-- No client, or a failure in the middle of a message (with the message, if its header came), or a
-- message.
pub data Reception : Type 0 where
  nobody : Reception
  broken : Option Message → Reception
  came : Message → Reception

module _ (os : Os) where
  open os use {World}

  -- What the two calls return from a state of the operating system.
  pub data Receives (s : ServerSocket) (w : World) : Reception → Type 0 where
    refused :
        {result : ErrorCode} {socket : ServerSocket} {w1 : World}
        → accept_client os s w ≡ done ((result, socket), w1)
        → is_ok result ≡ false
        → Receives s w nobody
    broke_off :
        {result : ErrorCode} {m : Option Message} {socket : ServerSocket} {w1 w2 : World}
        → accept_client os s w ≡ done ((ok, socket), w1)
        → recv_message os socket w1 ≡ done ((result, m), w2)
        → is_ok result ≡ false
        → Receives s w (broken m)
    received :
        {m : Message} {socket : ServerSocket} {w1 w2 : World}
        → accept_client os s w ≡ done ((ok, socket), w1)
        → recv_message os socket w1 ≡ done ((ok, some m), w2)
        → Receives s w (came m)
