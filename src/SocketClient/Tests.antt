-- ===== src/SocketClient/Tests.antt =====
-- The theorems at concrete inputs.
use shp.Base.{ℤ, ◌≡◌, refl, [], ◌∷◌, minus_one, some, done, fault}
use shp.ErrorCodes.{ErrorCode}
use shp.Memory.{Memory, cells}
use shp.Os.{Os}
use shp.Os.Line.{Line, eight_at_a_time}
use shp.SocketServer.Accepting.{Holds}
use shp.SocketClient.{new_client_socket, connect}
use shp.SocketClient.Connecting.{connect-Holds, connect_uninitialised}

abbrev idle : Line
idle = record { outgoing = []; incoming = [] }

-- "::1" with its terminator.
abbrev name : Memory
name = cells (b':' ∷ b':' ∷ b'1' ∷ 0 ∷ [])

connect-Holds_example :
    (result : ErrorCode) × (fd : ℤ) × (w' : Line) × (connect eight_at_a_time name 4000
        new_client_socket idle
      ≡ done ((result, record new_client_socket { socket_fd = some fd }), w'))
    × Holds result fd
connect-Holds_example = connect-Holds eight_at_a_time name 4000 new_client_socket idle refl

-- No descriptor is left.
abbrev no_sockets : Os
no_sockets = record eight_at_a_time { socket = λ w. (minus_one, w) }

connect_uninitialised_example : connect no_sockets name 4000 new_client_socket idle ≡ fault
connect_uninitialised_example = connect_uninitialised no_sockets name 4000 idle refl
