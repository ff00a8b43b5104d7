-- ===== src/Travels/Tests/Registration.antt =====
-- What the proxy has taken from a client, on its way to a head.
use shp.Base.{ℕ, ◌≡◌, refl, none, some, List, [], ◌∷◌, ◌++◌, pos, done, replicate, arith}
use shp.Memory.{cells, strlen, le32, le64, read_at, write_at, from_le32, from_le64}
use shp.Memory.Arrives.{Arrives-refl}
use shp.ErrorCodes.{ok}
use shp.Message.{
  Message, Header, header_bytes, header_of_bytes, message_of_header, new_message, message_id_code,
  field_code, add_field_to_message, add_time_to_message, add_num_to_message, add_string_to_message,
  reserve, append_field, move_payload, new_alloc_size,
}
use shp.Os.Line.{eight_at_a_time}
use shp.Socket.{
  send_data, send_loop, send_round, send_once, recv_data, recv_loop, recv_round, recv_once,
}
use shp.Transfer.{send_parts, recv_parts, recv_payload, fill_payload}
use shp.Transfer.Receiving.{arrived}
use shp.Transfer.Trip.{Trip}
use shp.Configuration.{head_configuration}
use shp.Configuration.Reading.{configured}
use shp.Configuration.Screen.{Entry}
use shp.Configuration.Arriving.{SameSensors}
use shp.Proxy.{register_answer}
use shp.Client.Announcing.{entries_of}
use shp.Client.Samples.{kitchen, general, button, one_button, button_valid, settings_valid, unset}
use shp.Travels.Announcement.{settings_travel}
use shp.Travels.Tests.Carried.{trip}
use shp.Travels.Tests.Announcement.{
  announcement, config_header, config_front, sensor_came, announcement_came, taken, takes_it,
  makes_announcement,
}

abbrev answer_header : Header
answer_header = record {
  message_version = 1;
  message_id = 5;
  payload_size = 118;
  message_result = 0;
}

abbrev answer_bytes : List ℕ
answer_bytes =
    (0 ∷ 0 ∷ 0 ∷ 0 ∷ 8 ∷ 0 ∷ 0 ∷ 0 ∷ 232 ∷ 3 ∷ 0 ∷ 0 ∷ 0 ∷ 0 ∷ 0 ∷ 0 ∷ [])
    ++ (config_front ++ sensor_came)

abbrev answer : Message
answer = record {
  header = answer_header;
  raw_payload = some (cells answer_bytes ++ replicate 138 none);
  alloc_size = 256;
}

abbrev answer_wire : List ℕ
answer_wire = (1 ∷ 5 ∷ 0 ∷ 0 ∷ 0 ∷ 118 ∷ 0 ∷ 0 ∷ 0 ∷ 0 ∷ 0 ∷ 0 ∷ 0 ∷ []) ++ answer_bytes

makes_answer : register_answer 1000 taken ≡ done answer
unfolding register_answer new_message message_id_code field_code add_time_to_message
    add_string_to_message add_num_to_message add_field_to_message reserve append_field move_payload
    new_alloc_size read_at write_at strlen le32 le64
makes_answer = refl

sends_answer :
    send_parts eight_at_a_time (pos 3) 60 answer (record { outgoing = []; incoming = [] })
    ≡ done (ok, record { outgoing = cells answer_wire; incoming = [] })
unfolding send_parts send_data send_loop send_round send_once header_bytes le32
sends_answer = refl

takes_answer :
    recv_parts eight_at_a_time (pos 4) 60 (record { outgoing = []; incoming = answer_wire })
    ≡ done
        ((ok, some (arrived answer_header answer_bytes)), record { outgoing = []; incoming = [] })
unfolding recv_parts recv_payload fill_payload message_of_header header_of_bytes recv_data recv_loop
    recv_round recv_once from_le32 write_at
takes_answer = refl

answer_came : Trip answer (arrived answer_header answer_bytes)
answer_came =
    trip answer (arrived answer_header answer_bytes) (cells answer_wire) answer_wire sends_answer
      (Arrives-refl (cells answer_wire)) takes_answer

settings_travel_example :
    (es : List Entry) × SameSensors (entries_of (button ∷ []) button_valid) es
    × (head_configuration (arrived answer_header answer_bytes) unset
        ≡ done (configured 1000 5 kitchen es unset))
unfolding from_le64 from_le32 settings_valid
settings_travel_example =
    settings_travel general one_button 7 1000 kitchen unset taken unset announcement
      (arrived config_header (config_front ++ sensor_came)) answer
      (arrived answer_header answer_bytes) settings_valid (omega arith) refl refl makes_announcement
      announcement_came takes_it makes_answer answer_came
