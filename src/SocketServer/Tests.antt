-- ===== src/SocketServer/Tests.antt =====
-- The theorems at concrete inputs.
use shp.Base.{◌≡◌, [], pos, done}
use shp.ErrorCodes.{ErrorCode}
use shp.Os.Line.{Line, eight_at_a_time}
use shp.SocketServer.{ServerSocket, new_server_socket, bind, accept_client}
use shp.SocketServer.Accepting.{Holds, HoldsClient, bind-Holds, accept_client-HoldsClient}

abbrev idle : Line
idle = record { outgoing = []; incoming = [] }

bind-Holds_example :
    (result : ErrorCode) × (s' : ServerSocket) × (w' : Line) × (bind eight_at_a_time 4000
        new_server_socket idle
      ≡ done ((result, s'), w'))
    × Holds result s'.socket_fd
bind-Holds_example = bind-Holds eight_at_a_time 4000 new_server_socket idle

abbrev listening : ServerSocket
listening = record { socket_fd = pos 3; accept_fd = pos 4; write_timeout = 10; read_timeout = 60 }

accept_client-HoldsClient_example :
    (result : ErrorCode) × (s' : ServerSocket) × (w' : Line) × (accept_client eight_at_a_time
        listening idle
      ≡ done ((result, s'), w'))
    × HoldsClient result listening s'
accept_client-HoldsClient_example = accept_client-HoldsClient eight_at_a_time listening idle
