-- ===== src/Socket/Tests.antt =====
-- Concrete runs, and the theorems at concrete inputs.
use shp.Base.{ℕ, ◌≡◌, refl, List, [], ◌∷◌, ◌++◌, pos, done, arith}
use shp.Memory.{cells}
use shp.ErrorCodes.{ok}
use shp.Os.Line.{Line, eight_at_a_time, eight_at_a_time-RecvLaws, eight_at_a_time-IsPrompt}
use shp.Socket.{
  send_once, send_round, send_loop, send_data, recv_once, recv_round, recv_loop, recv_data,
}
use shp.Socket.Recv.{recv_data_arrived}

abbrev ten_bytes : List ℕ
ten_bytes = 1 ∷ 2 ∷ 3 ∷ 4 ∷ 5 ∷ 6 ∷ 7 ∷ 8 ∷ 9 ∷ 10 ∷ []

-- Ten bytes are on the way, and two behind them.
abbrev line : Line
line = record { outgoing = []; incoming = ten_bytes ++ 11 ∷ 12 ∷ [] }

send_two_rounds :
    send_data eight_at_a_time (pos 3) (cells ten_bytes) 10 60 line
    ≡ done (ok, record line { outgoing = cells ten_bytes })
unfolding send_data send_loop send_round send_once
send_two_rounds = refl

recv_two_rounds :
    recv_data eight_at_a_time (pos 3) 10 60 line
    ≡ done ((ok, ten_bytes), record line { incoming = 11 ∷ 12 ∷ [] })
unfolding recv_data recv_loop recv_round recv_once
recv_two_rounds = refl

recv_data_arrived_example :
    (w' : Line) × (recv_data eight_at_a_time (pos 3) 10 60 line ≡ done ((ok, ten_bytes), w'))
    × (eight_at_a_time-RecvLaws.incoming w' (pos 3) ≡ 11 ∷ 12 ∷ [])
recv_data_arrived_example =
    recv_data_arrived eight_at_a_time eight_at_a_time-RecvLaws (pos 3) 60 ten_bytes (11 ∷ 12 ∷ [])
      line eight_at_a_time-IsPrompt refl (omega arith) (omega arith) refl
