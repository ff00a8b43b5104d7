-- ===== src/Dht/Tests.antt =====
-- Concrete runs, and the theorems at concrete inputs.
use shp.Base.{
  ◌≡◌, ◌≢◌, refl, Bool, true, false, not, done, negsuc, arith, some, [], ◌∷◌, ◌++◌, replicate,
}
use shp.Dht.{
  Board, Frame, Model, is_data_crc_valid, dht11_is_data_crc_valid, dht11_get_temperature,
  dht22_get_temperature, dht22_get_humidity, do_task,
}
use shp.Memory.{Memory, cells, strlen}
use shp.Message.{Message}
use shp.Message.Fields.{Represents}
use shp.Queue.{Queue, values}
use shp.Queue.Fifo.{contents}
use shp.Sensor.{Sensor}
use shp.Sensor.Building.{IsSensor, event_fields}
use shp.Dht.Values.{IsFrame, dht22_frame, dht22_round_trip, dht11_misses_digit}
use shp.Dht.Reading.{nth_read, IsAlive, Attempts, do_task_ends}

-- 65.2 % and -10.1 degrees.
abbrev cold : Frame
cold = dht22_frame 652 true 101

cold_bytes : cold ≡ record { byte_0 = 2; byte_1 = 140; byte_2 = 128; byte_3 = 101; byte_4 = 115 }
cold_bytes = refl

dht22_round_trip_example :
    (is_data_crc_valid Model.dht22 cold ≡ true)
    × (dht22_get_humidity cold ≡ 652)
    × (dht22_get_temperature cold ≡ negsuc 100)
dht22_round_trip_example = dht22_round_trip 652 101 true (omega arith) (omega arith)

abbrev bad : Frame
bad = record cold { byte_1 = 141 }

abbrev warm : Frame
warm = record { byte_0 = 40; byte_1 = 0; byte_2 = 23; byte_3 = 4; byte_4 = 63 }

dht11_misses_digit_example :
    (is_data_crc_valid Model.dht11 (record warm { byte_3 = 9 }) ≡ true)
    × (dht11_get_temperature (record warm { byte_3 = 9 }) ≢ dht11_get_temperature warm)
unfolding is_data_crc_valid dht11_is_data_crc_valid
dht11_misses_digit_example = dht11_misses_digit warm 9 refl (λ e. omega arith)

-- A bus that changes at every read.
abbrev ticking : Board
ticking = record {
  World = Bool;
  pin_mode_output = λ output w. w;
  digital_write = λ level w. w;
  digital_read = λ w. (w, not w);
  delay = λ n w. w;
  delay_microseconds = λ n w. w;
  sleep = λ n w. w;
  time = λ w. (1000, w);
}

ticking-IsAlive : IsAlive ticking 2
unfolding IsAlive nth_read
ticking-IsAlive true true = (1, omega arith, refl)
ticking-IsAlive true false = (0, omega arith, refl)
ticking-IsAlive false true = (0, omega arith, refl)
ticking-IsAlive false false = (1, omega arith, refl)

abbrev probe_name : Memory
probe_name = cells (b'h' ∷ b'a' ∷ b'l' ∷ b'l' ∷ 0 ∷ [])

abbrev probe_type : Memory
probe_type = cells (b'D' ∷ b'H' ∷ b'T' ∷ 0 ∷ [])

abbrev probe : Sensor
probe = record {
  gpio_num = 4;
  name = probe_name ++ cells (replicate 59 0);
  type_name = probe_type ++ cells (replicate 12 0);
  activated = true;
  has_callbacks = true;
}

probe-IsSensor : IsSensor probe probe_type probe_name
unfolding strlen
probe-IsSensor = record {
  type_extra = cells (replicate 12 0);
  type_length = 3;
  type_same = refl;
  type_ended = refl;
  type_whole = refl;
  type_short = omega arith;
  name_extra = cells (replicate 59 0);
  name_length = 4;
  name_same = refl;
  name_ended = refl;
  name_whole = refl;
  name_short = omega arith;
  pin = omega arith;
}

abbrev nothing_waits : Queue Message
nothing_waits = record { message_map = []; message_id = 0 }

do_task_ends_example :
    (d : Frame) × (m : Message) × (q' : Queue Message) × (w1 w' : Bool) × (do_task ticking 2
        Model.dht11 probe
        (some nothing_waits)
        true
      ≡ done ((d, probe, some q'), w'))
    × Attempts ticking 2 ticking-IsAlive Model.dht11 3 true d w1
    × IsFrame d
    × (is_data_crc_valid Model.dht11 d ≡ true)
    × (contents q' ≡ m ∷ [])
    × Represents m (event_fields 1000 probe_type probe_name 4 false)
unfolding values
do_task_ends_example =
    do_task_ends ticking 2 ticking-IsAlive Model.dht11 probe probe_type probe_name nothing_waits
      true probe-IsSensor refl
      (record { rising = omega arith; numbered = omega arith; in_range = omega arith })
      (omega arith)
