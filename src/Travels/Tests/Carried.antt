-- ===== src/Travels/Tests/Carried.antt =====
-- A trip over a line that carries eight bytes at a time.
use shp.Base.{ℕ, ◌≡◌, refl, some, List, map, [], ◌++◌, pos, done}
use shp.Memory.{Memory, cells}
use shp.Memory.Bytes.{byte}
use shp.Memory.Arrives.{Arrives}
use shp.ErrorCodes.{ok}
use shp.Message.{Message}
use shp.Os.Line.{
  eight_at_a_time, eight_at_a_time-SendLaws, eight_at_a_time-RecvLaws, eight_at_a_time-IsPrompt,
}
use shp.Transfer.{send_parts, recv_parts}
use shp.Transfer.Trip.{Trip}

-- What comes over a connection, and nothing behind it.
module _ (m m' : Message) (sent : Memory) (came : List ℕ)
    (runs : send_parts eight_at_a_time (pos 3) 60 m (record { outgoing = []; incoming = [] })
      ≡ done (ok, record { outgoing = sent; incoming = [] }))
    (comes : Arrives (sent ++ []) (cells (map byte came)))
    (received : recv_parts eight_at_a_time (pos 4) 60 (record { outgoing = []; incoming = came })
      ≡ done ((ok, some m'), record { outgoing = []; incoming = [] })) where
  pub trip : Trip m m'
  trip = record {
    sender = eight_at_a_time;
    sends = eight_at_a_time-SendLaws;
    receiver = eight_at_a_time;
    recvs = eight_at_a_time-RecvLaws;
    prompt = eight_at_a_time-IsPrompt;
    sender_fd = pos 3;
    receiver_fd = pos 4;
    write_timeout = 60;
    read_timeout = 60;
    before = record { outgoing = []; incoming = [] };
    after = record { outgoing = sent; incoming = [] };
    coming = record { outgoing = []; incoming = came };
    gone = record { outgoing = []; incoming = [] };
    bytes = sent;
    behind = [];
    sender_open = refl;
    receiver_open = refl;
    runs = runs;
    goes = refl;
    comes = comes;
    received = received;
  }
