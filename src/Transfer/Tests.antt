-- ===== src/Transfer/Tests.antt =====
-- Concrete runs, and the theorems at concrete inputs.
use shp.Base.{ℕ, refl, List, [], ◌∷◌, ◌++◌, pos, length, some, none, arith}
use shp.Memory.{cells}
use shp.Message.{Message, Header}
use shp.Os.Line.{Line, eight_at_a_time, eight_at_a_time-SendLaws}
use shp.Transfer.{send_parts}
use shp.Socket.Send.{SendsFront}
use shp.Transfer.Sending.{wire, send_parts-SendsFront}

abbrev version_header : Header
version_header = record {
  message_version = 1;
  message_id = 0;
  payload_size = 12;
  message_result = 0;
}

abbrev version_field : List ℕ
version_field = 1 ∷ 0 ∷ 0 ∷ 0 ∷ 4 ∷ 0 ∷ 0 ∷ 0 ∷ 7 ∷ 0 ∷ 0 ∷ 0 ∷ []

-- The block is larger than the payload, as `add_field_to_message` leaves it.
abbrev version_message : Message
version_message = record {
  header = version_header;
  raw_payload = some (cells version_field ++ none ∷ none ∷ []);
  alloc_size = 14;
}

abbrev idle : Line
idle = record { outgoing = []; incoming = [] }

send_parts-SendsFront_example :
    SendsFront eight_at_a_time eight_at_a_time-SendLaws
      (pos 3)
      (wire version_message)
      (length (wire version_message))
      idle
      (send_parts eight_at_a_time (pos 3) 60 version_message)
send_parts-SendsFront_example =
    send_parts-SendsFront eight_at_a_time eight_at_a_time-SendLaws (pos 3) 60 version_message idle
      refl (omega arith) (omega arith)
