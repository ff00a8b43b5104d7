-- ===== src/Client/Samples.antt =====
-- A client's settings for the tests, and a configuration that was not filled yet.
use shp.Base.{◌++◌, refl, [], ◌∷◌, none, arith, replicate}
use shp.Memory.{Memory, cells, strlen}
use shp.Configuration.{Config}
use shp.Client.Configure.{GeneralSettings, SensorSettings, SensorsSettings}
use shp.Client.Announcing.{AreSensors}
use shp.Client.Announced.{AreSettings}

abbrev pub kitchen : Memory
kitchen = cells (b'k' ∷ b'i' ∷ b't' ∷ b'c' ∷ b'h' ∷ b'e' ∷ b'n' ∷ 0 ∷ [])

abbrev pub general : GeneralSettings
general = record { client_id = 5; name = kitchen ++ cells (replicate 25 0) }

abbrev pub button : SensorSettings
button = record {
  is_initialized = 1;
  gpio = 7;
  name = cells (b'd' ∷ b'o' ∷ b'o' ∷ b'r' ∷ 0 ∷ []) ++ replicate 28 none;
  type_name = cells (b'L' ∷ b'E' ∷ b'D' ∷ 0 ∷ []) ++ replicate 13 none;
}

abbrev pub one_button : SensorsSettings
one_button = record { sensors_count = 1; sensors = button ∷ [] }

unfoldable pub button_valid : AreSensors (button ∷ [])
unfolding strlen
button_valid = (
  record {
    name_length = 4;
    type_length = 3;
    named = refl;
    typed = refl;
    name_size = refl;
    type_size = refl;
    name_fits = omega arith;
    type_fits = omega arith;
    gpio_word = omega arith;
  },
  tt,
)

unfoldable pub settings_valid : AreSettings general one_button 7 kitchen
unfolding strlen
settings_valid = record {
  extra = cells (replicate 25 0);
  id_word = omega arith;
  named = refl;
  terminated = refl;
  whole = refl;
  short = omega arith;
  counted = refl;
  sensors_valid = button_valid;
  some_sensor = omega arith;
  few = omega arith;
}

-- A configuration before anything was received.
abbrev pub unset : Config
unset = record {
  client_id = 0;
  name = cells (replicate 33 0);
  event_time = 0;
  sensors_count = 0;
  sensors = none;
  screen = [];
}
