-- ===== src/Travels/Tests/Event.antt =====
-- An alarm from the door to the screen.
use shp.Base.{ℕ, ◌≡◌, refl, true, none, some, List, [], ◌∷◌, ◌++◌, pos, done, replicate, arith}
use shp.Memory.{Memory, cells, strlen, le32, le64, read_at, write_at, from_le32}
use shp.Memory.Arrives.{Arrives-refl}
use shp.ErrorCodes.{ok}
use shp.Message.{
  Message, Header, header_bytes, header_of_bytes, message_of_header, new_message, message_id_code,
  field_code, add_field_to_message, add_time_to_message, add_num_to_message, add_string_to_message,
  reserve, append_field, move_payload, new_alloc_size,
}
use shp.Os.Line.{eight_at_a_time}
use shp.Socket.{
  send_data, send_loop, send_round, send_once, recv_data, recv_loop, recv_round, recv_once,
}
use shp.Transfer.{send_parts, recv_parts, recv_payload, fill_payload}
use shp.Transfer.Receiving.{arrived}
use shp.Transfer.Trip.{Trip}
use shp.Configuration.{Config, SensorStatus}
use shp.Client.Samples.{unset}
use shp.Head.{Tm, show_message_event}
use shp.Head.Showing.{Shows, shown_text}
use shp.Sensor.{Sensor, event_message}
use shp.Sensor.Building.{IsSensor}
use shp.Travels.Event.{event_travels}
use shp.Travels.Tests.Carried.{trip}

abbrev pub pir_type : Memory
pir_type = cells (b'P' ∷ b'I' ∷ b'R' ∷ 0 ∷ [])

abbrev pub door_name : Memory
door_name = cells (b'd' ∷ 0 ∷ [])

abbrev pub door : Sensor
door = record {
  gpio_num = 7;
  name = door_name ++ cells (replicate 62 0);
  type_name = pir_type ++ cells (replicate 12 0);
  activated = true;
  has_callbacks = true;
}

pub door-IsSensor : IsSensor door pir_type door_name
unfolding strlen
door-IsSensor = record {
  type_extra = cells (replicate 12 0);
  type_length = 3;
  type_same = refl;
  type_ended = refl;
  type_whole = refl;
  type_short = omega arith;
  name_extra = cells (replicate 62 0);
  name_length = 1;
  name_same = refl;
  name_ended = refl;
  name_whole = refl;
  name_short = omega arith;
  pin = omega arith;
}

abbrev pub event_header : Header
event_header = record {
  message_version = 1;
  message_id = 100;
  payload_size = 60;
  message_result = 0;
}

abbrev pub event_bytes : List ℕ
event_bytes =
    (0 ∷ 0 ∷ 0 ∷ 0 ∷ 8 ∷ 0 ∷ 0 ∷ 0 ∷ 232 ∷ 3 ∷ 0 ∷ 0 ∷ 0 ∷ 0 ∷ 0 ∷ 0 ∷ [])
    ++ ((10 ∷ 0 ∷ 0 ∷ 0 ∷ 4 ∷ 0 ∷ 0 ∷ 0 ∷ b'P' ∷ b'I' ∷ b'R' ∷ 0 ∷ [])
        ++ ((8 ∷ 0 ∷ 0 ∷ 0 ∷ 2 ∷ 0 ∷ 0 ∷ 0 ∷ b'd' ∷ 0 ∷ [])
            ++ ((11 ∷ 0 ∷ 0 ∷ 0 ∷ 4 ∷ 0 ∷ 0 ∷ 0 ∷ 7 ∷ 0 ∷ 0 ∷ 0 ∷ [])
                ++ (9 ∷ 0 ∷ 0 ∷ 0 ∷ 2 ∷ 0 ∷ 0 ∷ 0 ∷ b'1' ∷ 0 ∷ []))))

-- The message of an alarm at the door, in a block with four bytes to spare.
abbrev pub alarm : Message
alarm = record {
  header = event_header;
  raw_payload = some (cells event_bytes ++ replicate 4 none);
  alloc_size = 64;
}

abbrev pub alarm_wire : List ℕ
alarm_wire = (1 ∷ 100 ∷ 0 ∷ 0 ∷ 0 ∷ 60 ∷ 0 ∷ 0 ∷ 0 ∷ 0 ∷ 0 ∷ 0 ∷ 0 ∷ []) ++ event_bytes

pub makes_alarm : event_message true 1000 door ≡ done alarm
unfolding event_message new_message message_id_code field_code add_time_to_message
    add_string_to_message add_num_to_message add_field_to_message reserve append_field move_payload
    new_alloc_size read_at write_at strlen le32 le64
makes_alarm = refl

sends_alarm :
    send_parts eight_at_a_time (pos 3) 60 alarm (record { outgoing = []; incoming = [] })
    ≡ done (ok, record { outgoing = cells alarm_wire; incoming = [] })
unfolding send_parts send_data send_loop send_round send_once header_bytes le32
sends_alarm = refl

takes_alarm :
    recv_parts eight_at_a_time (pos 4) 60 (record { outgoing = []; incoming = alarm_wire })
    ≡ done ((ok, some (arrived event_header event_bytes)), record { outgoing = []; incoming = [] })
unfolding recv_parts recv_payload fill_payload message_of_header header_of_bytes recv_data recv_loop
    recv_round recv_once from_le32 write_at
takes_alarm = refl

pub alarm_came : Trip alarm (arrived event_header event_bytes)
alarm_came =
    trip alarm (arrived event_header event_bytes) (cells alarm_wire) alarm_wire sends_alarm
      (Arrives-refl (cells alarm_wire)) takes_alarm

sends_on :
    send_parts eight_at_a_time
      (pos 3)
      60
      (arrived event_header event_bytes)
      (record { outgoing = []; incoming = [] })
    ≡ done (ok, record { outgoing = cells alarm_wire; incoming = [] })
unfolding send_parts send_data send_loop send_round send_once header_bytes le32
sends_on = refl

pub passed_on : Trip (arrived event_header event_bytes) (arrived event_header event_bytes)
passed_on =
    trip (arrived event_header event_bytes) (arrived event_header event_bytes) (cells alarm_wire)
      alarm_wire sends_on (Arrives-refl (cells alarm_wire)) takes_alarm

-- A head that knows the door, and the light.
abbrev pub screen : List SensorStatus
screen =
    record { gpio = 7; name = door_name; buffer = replicate 64 (some 0); last_message = 0 }
    ∷ record { gpio = 8; name = []; buffer = replicate 64 (some 0); last_message = 0 }
    ∷ []

abbrev pub head : Config
head = record unset { sensors_count = 2; screen = screen }

abbrev pub noon : ℕ → Tm
noon t = record { hour = 12; min = 0; sec = 0 }

event_travels_example :
    (screen' : List SensorStatus) × (show_message_event noon
        (λ i. 1001)
        (arrived event_header event_bytes)
        head
      ≡ done (record head { screen = screen' }))
    × Shows 7 (shown_text true (noon 1000)) (λ i. 1001) 0 screen screen'
event_travels_example =
    event_travels noon (λ i. 1001) head true 1000 door pir_type door_name alarm
      (arrived event_header event_bytes) (arrived event_header event_bytes) door-IsSensor
      (omega arith) refl (refl, (refl, tt)) makes_alarm alarm_came passed_on
