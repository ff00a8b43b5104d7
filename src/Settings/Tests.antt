-- ===== src/Settings/Tests.antt =====
-- The theorems at concrete inputs.
use shp.Base.{ℕ, ◌≡◌, refl, Option, [], ◌∷◌, none, some, done, fault, replicate, arith, ◌++◌}
use shp.Memory.{Memory, cells, strlen}
use shp.ErrorCodes.{ok}
use shp.Client.Configure.{SensorSettings, write_sensor}
use shp.Client.Announced.{AreSettings}
use shp.Settings.{
  File, Item, Param, general_name, general_client_id, network_address, Settings, read_config,
  read_sensor,
}
use shp.Settings.Reading.{IsItem, read_sensor_long}
use shp.Settings.Whole.{IsWhole, read_config-AreSettings}

abbrev led : Memory
led = cells (b'L' ∷ b'E' ∷ b'D' ∷ 0 ∷ [])

abbrev lamp : Item
lamp = record { name = some led; gpio = some 7; type_name = some led }

lamp-IsItem : IsItem lamp
unfolding strlen
lamp-IsItem = record {
  name = led;
  name_length = 3;
  gpio = 7;
  type_name = led;
  type_length = 3;
  named = refl;
  placed = refl;
  typed = refl;
  name_ended = refl;
  type_ended = refl;
  name_short = omega arith;
  type_short = omega arith;
  gpio_word = omega arith;
}

-- A file that says the name of the client, its id and its address, and has one sensor.
abbrev strings : Param → Option Memory
strings general_name = some led
strings network_address = some led
strings _ = none

abbrev numbers : Param → Option ℕ
numbers general_client_id = some 5
numbers _ = none

abbrev file : File
file = record { lookup_string = strings; lookup_int = numbers; sensors = some (lamp ∷ []) }

file-IsWhole : IsWhole file 3 (lamp ∷ [])
unfolding strlen
file-IsWhole = record {
  client_id = 5;
  name = led;
  address = led;
  address_length = 3;
  identified = refl;
  id_word = omega arith;
  named = refl;
  name_ended = refl;
  name_short = omega arith;
  addressed = refl;
  address_ended = refl;
  address_short = omega arith;
  listed = refl;
  items_valid = (lamp-IsItem, tt);
  some_sensor = omega arith;
  few = omega arith;
}

abbrev before : Settings
before = record {
  general = record { client_id = 1; name = cells (replicate 33 0) };
  network = record {
    address = cells (replicate 16 0);
    port = 3456;
    connect_retry_count = 3;
    connect_retry_sleep = 2;
    write_timeout = 10;
    read_timeout = 10;
    keep_alive_timeout = 0;
  };
  sensors = record { sensors_count = 0; sensors = [] };
}

read_config-AreSettings_example :
    (s' : Settings) × (name : Memory) × (read_config (some file) before ≡ done (ok, s'))
    × AreSettings s'.general s'.sensors 3 name
read_config-AreSettings_example =
    read_config-AreSettings file before 3 (lamp ∷ []) file-IsWhole refl refl

-- A name of 32 characters.
abbrev long_name : Memory
long_name = cells (replicate 32 b'x' ++ 0 ∷ [])

read_sensor_long_example :
    (s : SensorSettings) × (read_sensor
        (record { name = some long_name; gpio = some 7; type_name = some led })
      ≡ done s)
    × (write_sensor s 0 (replicate 54 none) ≡ fault)
unfolding strlen
read_sensor_long_example =
    read_sensor_long (record { name = some long_name; gpio = some 7; type_name = some led })
      long_name led 32 3 7 0 (replicate 54 none) refl refl refl refl (omega arith) refl
      (omega arith)
