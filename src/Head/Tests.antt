-- ===== src/Head/Tests.antt =====
-- The theorems at concrete inputs.
use shp.Base.{
  ℕ, ◌≡◌, ◌%◌, ◌/◌, refl, [], ◌∷◌, List, none, some, true, done, inr, pos, minus_one, replicate,
  arith,
}
use shp.Memory.{cells, le32, le64}
use shp.Message.{Message, FieldId}
use shp.Message.Fields.{Field, encode}
use shp.Message.Build.{field_of}
use shp.Configuration.{Config, SensorStatus}
use shp.Sensor.{event_value}
use shp.Os.Line.{
  Line, eight_at_a_time, eight_at_a_time-SendLaws, eight_at_a_time-RecvLaws,
  eight_at_a_time-IsBytewise,
}
use shp.SocketServer.Reception.{Reception, Receives}
use shp.Head.Thread.{Served, serve}
use shp.Head.Serving.{Takes, serve-Takes}
use shp.Head.{Tm}

abbrev fields : List Field
fields =
    field_of FieldId.message_time (cells (le64 61))
    ∷ field_of FieldId.sensor_gpio (cells (le32 7))
    ∷ field_of FieldId.sensor_data (event_value true)
    ∷ []

abbrev message : Message
message = record {
  header = record { message_version = 1; message_id = 100; payload_size = 38; message_result = 0 };
  raw_payload = some (encode fields);
  alloc_size = 38;
}

abbrev status : ℕ → SensorStatus
status gpio = record { gpio = gpio; name = []; buffer = replicate 64 (some 0); last_message = 0 }

abbrev two_sensors : Config
two_sensors = record {
  client_id = 0;
  name = [];
  event_time = 0;
  sensors_count = 2;
  sensors = none;
  screen = status 4 ∷ status 7 ∷ [];
}

abbrev of_day : ℕ → Tm
of_day t = record { hour = t / 3600 % 24; min = t / 60 % 60; sec = t % 60 }

abbrev idle : Line
idle = record { outgoing = []; incoming = 1 ∷ 100 ∷ 0 ∷ 0 ∷ 0 ∷ 0 ∷ 0 ∷ 0 ∷ 0 ∷ 0 ∷ 0 ∷ 0 ∷ 0 ∷ [] }

abbrev serving : Served
serving = record {
  socket = record {
    socket_fd = pos 3;
    accept_fd = minus_one;
    write_timeout = 10;
    read_timeout = 60;
  };
  queue = record { message_map = (3, message) ∷ []; message_id = 3 };
  leaked = [];
}

serve-Takes_example :
    (r : Reception) × (s' : Served) × (w' : Line) × Receives eight_at_a_time serving.socket idle r
    × (serve eight_at_a_time serving idle ≡ done (s', w'))
    × Takes r serving s'
serve-Takes_example =
    serve-Takes eight_at_a_time eight_at_a_time-SendLaws eight_at_a_time-RecvLaws
      eight_at_a_time-IsBytewise serving idle (λ fd w. inr refl)
      (record { rising = omega arith; numbered = omega arith; in_range = omega arith })
      (omega arith)
