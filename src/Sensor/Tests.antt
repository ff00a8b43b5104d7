-- ===== src/Sensor/Tests.antt =====
-- The theorems at concrete inputs.
use shp.Base.{
  ℕ, ◌≡◌, ◌%◌, ◌/◌, ◌++◌, refl, Bool, true, false, [], ◌∷◌, List, none, some, done, replicate,
  arith,
}
use shp.Memory.{Memory, cells, strlen}
use shp.Message.{Message}
use shp.Message.Fields.{Represents}
use shp.Queue.{Queue}
use shp.Queue.Fifo.{contents}
use shp.Configuration.{Config, SensorStatus}
use shp.Head.{Tm}
use shp.Sensor.{Sensor, Board, working_round}
use shp.Sensor.Building.{IsSensor, event_fields}
use shp.Sensor.Reporting.{Stands, working_round-reports}

abbrev button_name : Memory
button_name = cells (b'd' ∷ b'o' ∷ b'o' ∷ b'r' ∷ 0 ∷ [])

abbrev button_type : Memory
button_type = cells (b'P' ∷ b'I' ∷ b'R' ∷ 0 ∷ [])

abbrev button : Sensor
button = record {
  gpio_num = 7;
  name = button_name ++ cells (replicate 59 0);
  type_name = button_type ++ cells (replicate 12 0);
  activated = true;
  has_callbacks = true;
}

button-IsSensor : IsSensor button button_type button_name
unfolding strlen
button-IsSensor = record {
  type_extra = cells (replicate 12 0);
  type_length = 3;
  type_same = refl;
  type_ended = refl;
  type_whole = refl;
  type_short = omega arith;
  name_extra = cells (replicate 59 0);
  name_length = 4;
  name_same = refl;
  name_ended = refl;
  name_whole = refl;
  name_short = omega arith;
  pin = omega arith;
}

-- A board of which the world is the levels that the next reads find; then the pin is high.
abbrev next_level : List Bool → Bool × List Bool
next_level [] = (true, [])
next_level (level ∷ levels) = (level, levels)

abbrev pressed : Board
pressed = record {
  World = List Bool;
  pin_mode_input = λ gpio w. w;
  digital_read = λ gpio w. next_level w;
  delay = λ ms w. w;
  sleep = λ s w. w;
  time = λ w. (1000, w);
}

abbrev nothing_waits : Queue Message
nothing_waits = record { message_map = []; message_id = 0 }

working_round-reports_example :
    (on_message : Message) × (off_message : Message) × (q' : Queue Message) × (w' : List Bool)
    × (working_round pressed 10 true button (some nothing_waits) (true ∷ false ∷ true ∷ [])
        ≡ done ((button, some q'), w'))
    × (contents q' ≡ contents nothing_waits ++ on_message ∷ off_message ∷ [])
    × Represents on_message (event_fields 1000 button_type button_name 7 true)
    × Represents off_message (event_fields 1000 button_type button_name 7 false)
unfolding Stands
working_round-reports_example =
    working_round-reports pressed button button_type button_name button-IsSensor refl 10 1 0 true
      nothing_waits (true ∷ false ∷ true ∷ []) (true ∷ []) [] refl (_, refl, refl) refl
      (omega arith) (omega arith) (record { rising = tt; numbered = tt; in_range = omega arith })
      (omega arith)

abbrev status : ℕ → SensorStatus
status gpio = record { gpio = gpio; name = []; buffer = replicate 64 (some 0); last_message = 0 }

abbrev two_sensors : Config
two_sensors = record {
  client_id = 0;
  name = [];
  event_time = 0;
  sensors_count = 2;
  sensors = none;
  screen = status 4 ∷ status 7 ∷ [];
}

abbrev of_day : ℕ → Tm
of_day t = record { hour = t / 3600 % 24; min = t / 60 % 60; sec = t % 60 }
