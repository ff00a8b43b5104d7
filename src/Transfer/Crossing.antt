-- ===== src/Transfer/Crossing.antt =====
-- A version message from one end of a connection to the other, at a concrete input.
use shp.Base.{ℕ, ◌≡◌, refl, List, [], ◌∷◌, ◌++◌, pos, done, some, none, arith}
use shp.Memory.{cells, le32}
use shp.Memory.Arrives.{Arrives-refl}
use shp.ErrorCodes.{ok}
use shp.Message.{Message, header_bytes}
use shp.Message.Fields.{Field, Represents}
use shp.Os.Line.{
  Line, eight_at_a_time, eight_at_a_time-SendLaws, eight_at_a_time-RecvLaws,
  eight_at_a_time-IsPrompt,
}
use shp.Socket.{send_data, send_loop, send_round, send_once}
use shp.Transfer.{send_parts}
use shp.Transfer.Through.{Crossed, send_parts-recv_parts}

-- A message that carries the number 7 under the tag 1, in a block with two bytes to spare.
abbrev answer : Message
answer = record {
  header = record { message_version = 1; message_id = 1; payload_size = 12; message_result = 0 };
  raw_payload =
      some (cells (1 ∷ 0 ∷ 0 ∷ 0 ∷ 4 ∷ 0 ∷ 0 ∷ 0 ∷ 7 ∷ 0 ∷ 0 ∷ 0 ∷ []) ++ none ∷ none ∷ []);
  alloc_size = 14;
}

abbrev answer_fields : List Field
answer_fields = record { tag = 1; value = cells (7 ∷ 0 ∷ 0 ∷ 0 ∷ []) } ∷ []

answer-Represents : Represents answer answer_fields
unfolding le32
answer-Represents = record {
  spare = none ∷ none ∷ [];
  content = refl;
  used = refl;
  allocated = refl;
  in_range = omega arith;
}

abbrev answer_bytes : List ℕ
answer_bytes =
    1 ∷ 1 ∷ 0 ∷ 0 ∷ 0 ∷ 12 ∷ 0 ∷ 0 ∷ 0 ∷ 0 ∷ 0 ∷ 0 ∷ 0 ∷ 1 ∷ 0 ∷ 0 ∷ 0 ∷ 4 ∷ 0 ∷ 0 ∷ 0 ∷ 7 ∷ 0 ∷ 0
    ∷ 0 ∷ []

abbrev near : Line
near = record { outgoing = []; incoming = [] }

-- The other end, with one byte more behind the message.
abbrev far : Line
far = record { outgoing = []; incoming = answer_bytes ++ 9 ∷ [] }

answer_goes :
    send_parts eight_at_a_time (pos 3) 60 answer near
    ≡ done (ok, record near { outgoing = cells answer_bytes })
unfolding send_parts send_data send_loop send_round send_once header_bytes le32
answer_goes = refl

send_parts-recv_parts_example :
    Crossed eight_at_a_time eight_at_a_time-RecvLaws (pos 4) 60 answer answer_fields (9 ∷ []) far
send_parts-recv_parts_example =
    send_parts-recv_parts eight_at_a_time eight_at_a_time-SendLaws eight_at_a_time
      eight_at_a_time-RecvLaws eight_at_a_time-IsPrompt (pos 3) (pos 4) 60 60 answer answer_fields
      near (record near { outgoing = cells answer_bytes }) far (cells answer_bytes) (9 ∷ []) refl
      refl (omega arith) answer-Represents answer_goes refl
      (Arrives-refl (cells (answer_bytes ++ 9 ∷ [])))
