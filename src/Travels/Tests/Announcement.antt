-- ===== src/Travels/Tests/Announcement.antt =====
-- The announcement of a client with one sensor, on its way to the proxy.
use shp.Base.{
  ℕ, ◌≡◌, refl, none, some, inl, inr, List, map, [], ◌∷◌, ◌++◌, pos, length, done, replicate,
}
use shp.Memory.{Memory, Cell, cells, strlen, le32, read_at, write_at, from_le32, from_le64, load32}
use shp.Memory.Bytes.{byte}
use shp.Memory.Arrives.{Arrives, Arrives-refl}
use shp.ErrorCodes.{ok}
use shp.Message.{
  Message, MessageId, Header, header_bytes, header_of_bytes, message_of_header, new_message,
  message_id_code, field_code, add_field_to_message, add_num_to_message, add_string_to_message,
  reserve, append_field, move_payload, new_alloc_size, get_loop, get_field_from_message,
}
use shp.Os.Line.{eight_at_a_time}
use shp.Socket.{
  send_data, send_loop, send_round, send_once, recv_data, recv_loop, recv_round, recv_once,
}
use shp.Transfer.{send_parts, recv_parts, recv_payload, fill_payload}
use shp.Transfer.Receiving.{arrived}
use shp.Transfer.Trip.{Trip}
use shp.Configuration.{
  Config, string_at, proxy_configuration, look, load, load_num, load_time, copy_string,
  take_sensors, new_screen, new_status,
}
use shp.Client.Configure.{prepare_config_message, write_sensors, write_sensor, write_string}
use shp.Client.Samples.{kitchen, general, one_button, unset}
use shp.Travels.Tests.Carried.{trip}

abbrev pub config_header : Header
config_header = record {
  message_version = 1;
  message_id = 2;
  payload_size = 102;
  message_result = 0;
}

-- The fields in front of the sensors.
abbrev pub config_front : List ℕ
config_front =
    (3 ∷ 0 ∷ 0 ∷ 0 ∷ 4 ∷ 0 ∷ 0 ∷ 0 ∷ 5 ∷ 0 ∷ 0 ∷ 0 ∷ [])
    ++ ((4 ∷ 0 ∷ 0 ∷ 0 ∷ 8 ∷ 0 ∷ 0 ∷ 0 ∷ b'k' ∷ b'i' ∷ b't' ∷ b'c' ∷ b'h' ∷ b'e' ∷ b'n' ∷ 0 ∷ [])
        ++ ((6 ∷ 0 ∷ 0 ∷ 0 ∷ 4 ∷ 0 ∷ 0 ∷ 0 ∷ 1 ∷ 0 ∷ 0 ∷ 0 ∷ [])
            ++ (7 ∷ 0 ∷ 0 ∷ 0 ∷ 54 ∷ 0 ∷ 0 ∷ 0 ∷ [])))

abbrev pub door_text : List ℕ
door_text = b'd' ∷ b'o' ∷ b'o' ∷ b'r' ∷ 0 ∷ []

abbrev pub led_text : List ℕ
led_text = b'L' ∷ b'E' ∷ b'D' ∷ 0 ∷ []

abbrev pub pin : List ℕ
pin = 7 ∷ 0 ∷ 0 ∷ 0 ∷ []

-- The settings of the sensor, with one value for the bytes behind the texts.
abbrev pub sensor_data : Cell → Memory
sensor_data c =
    (cells door_text ++ replicate 28 c) ++ ((cells led_text ++ replicate 13 c) ++ cells pin)

abbrev pub announcement : Message
announcement = record {
  header = config_header;
  raw_payload = some (cells config_front ++ (sensor_data none ++ replicate 90 none));
  alloc_size = 192;
}

abbrev pub config_wire : List ℕ
config_wire = 1 ∷ 2 ∷ 0 ∷ 0 ∷ 0 ∷ 102 ∷ 0 ∷ 0 ∷ 0 ∷ 0 ∷ 0 ∷ 0 ∷ 0 ∷ []

-- Behind the texts, nines come.
abbrev pub sensor_came : List ℕ
sensor_came = (door_text ++ replicate 28 9) ++ ((led_text ++ replicate 13 9) ++ pin)

pub makes_announcement :
    prepare_config_message general one_button (new_message MessageId.send_config)
    ≡ done announcement
unfolding prepare_config_message write_sensors write_sensor write_string string_at new_message
    message_id_code field_code add_string_to_message add_num_to_message add_field_to_message reserve
    append_field move_payload new_alloc_size read_at write_at strlen le32
makes_announcement = refl

sends_announcement :
    send_parts eight_at_a_time (pos 3) 60 announcement (record { outgoing = []; incoming = [] })
    ≡ done (
      ok,
      record {
        outgoing = cells config_wire ++ (cells config_front ++ sensor_data none);
        incoming = [];
      },
    )
unfolding send_parts send_data send_loop send_round send_once header_bytes le32
sends_announcement = refl

takes_announcement :
    recv_parts eight_at_a_time
      (pos 4)
      60
      (record { outgoing = []; incoming = config_wire ++ (config_front ++ sensor_came) })
    ≡ done (
      (ok, some (arrived config_header (config_front ++ sensor_came))),
      record { outgoing = []; incoming = [] },
    )
unfolding recv_parts recv_payload fill_payload message_of_header header_of_bytes recv_data recv_loop
    recv_round recv_once from_le32 write_at
takes_announcement = refl

-- Written bytes, and as many that were not written, in front of what arrives.
keep :
    (bytes : List ℕ) (ys vs : Memory)
    → Arrives ys vs
    → Arrives (cells bytes ++ ys) (cells bytes ++ vs)
keep [] ys vs a = a
keep (b ∷ bytes) ys vs a = (inr refl, keep bytes ys vs a)

any_bytes :
    (bytes : List ℕ) (ys vs : Memory)
    → Arrives ys vs
    → Arrives (replicate (length bytes) none ++ ys) (cells bytes ++ vs)
any_bytes [] ys vs a = a
any_bytes (b ∷ bytes) ys vs a = (inl refl, any_bytes bytes ys vs a)

type-Arrives :
    Arrives
      (cells led_text ++ (replicate 13 none ++ cells pin))
      (cells led_text ++ (cells (replicate 13 9) ++ cells pin))
type-Arrives =
    keep led_text (replicate 13 none ++ cells pin) (cells (replicate 13 9) ++ cells pin)
      (any_bytes (replicate 13 9) (cells pin) (cells pin) (Arrives-refl (cells pin)))

announcement-Arrives :
    Arrives
      ((cells config_wire ++ (cells config_front ++ sensor_data none)) ++ [])
      (cells (map byte (config_wire ++ (config_front ++ sensor_came))))
announcement-Arrives =
    keep (config_wire ++ (config_front ++ door_text))
      (replicate 28 none ++ (cells led_text ++ (replicate 13 none ++ cells pin)))
      (cells (replicate 28 9) ++ (cells led_text ++ (cells (replicate 13 9) ++ cells pin)))
      (any_bytes (replicate 28 9) (cells led_text ++ (replicate 13 none ++ cells pin))
        (cells led_text ++ (cells (replicate 13 9) ++ cells pin)) type-Arrives)

pub announcement_came : Trip announcement (arrived config_header (config_front ++ sensor_came))
announcement_came =
    trip announcement (arrived config_header (config_front ++ sensor_came))
      (cells config_wire ++ (cells config_front ++ sensor_data none))
      (config_wire ++ (config_front ++ sensor_came)) sends_announcement announcement-Arrives
      takes_announcement

-- What the proxy has taken.
abbrev pub taken : Config
taken = record {
  client_id = 5;
  name = kitchen ++ cells (replicate 25 0);
  event_time = 31073746457749867;
  sensors_count = 1;
  sensors = some (sensor_data (some 9));
  screen =
      record {
        gpio = 7;
        name = cells door_text ++ replicate 28 none;
        buffer = replicate 64 (some 0);
        last_message = 0;
      }
      ∷ [];
}

pub takes_it :
    proxy_configuration (arrived config_header (config_front ++ sensor_came)) unset ≡ done taken
unfolding proxy_configuration get_field_from_message get_loop field_code look load load_num
    load_time copy_string take_sensors new_screen new_status read_at write_at load32 from_le32
    from_le64 string_at strlen
takes_it = refl
