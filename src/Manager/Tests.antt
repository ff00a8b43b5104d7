-- ===== src/Manager/Tests.antt =====
-- The theorem at a concrete input.
use shp.Base.{ℕ, ◌≡◌, ◌++◌, refl, true, List, [], ◌∷◌, none, done, replicate, arith}
use shp.Memory.{cells, strlen}
use shp.Message
use shp.Queue.{Queue}
use shp.ErrorCodes.{ok}
use shp.Client.Configure.{SensorSettings, SensorsSettings}
use shp.Client.Announcing.{AreSensors}
use shp.Sensor.{Board}
use shp.Manager.{Managed, Manager, Outputs, has_event, new_manager, setup_sensors, activate_sensors}
use shp.Manager.Making.{Makes}
use shp.Manager.Activating.{setup_sensors-activate_sensors}

-- A board of which the world is the pins written.
abbrev writing : Board
writing = record {
  World = List ℕ;
  pin_mode_input = λ gpio w. gpio ∷ w;
  digital_read = λ gpio w. (true, w);
  delay = λ ms w. w;
  sleep = λ s w. w;
  time = λ w. (1000, w);
}

abbrev pins : Outputs (List ℕ)
pins = record { pin_mode_output = λ gpio w. gpio ∷ w; digital_write = λ gpio level w. gpio ∷ w }

abbrev lamp : SensorSettings
lamp = record {
  is_initialized = 1;
  gpio = 7;
  name = cells (b'd' ∷ b'o' ∷ b'o' ∷ b'r' ∷ 0 ∷ []) ++ replicate 28 none;
  type_name = cells (b'L' ∷ b'E' ∷ b'D' ∷ 0 ∷ []) ++ replicate 13 none;
}

abbrev bell : SensorSettings
bell = record {
  is_initialized = 1;
  gpio = 4;
  name = cells (b'b' ∷ 0 ∷ []) ++ replicate 31 none;
  type_name = cells (b'P' ∷ b'I' ∷ b'R' ∷ 0 ∷ []) ++ replicate 13 none;
}

both-AreSensors : AreSensors (lamp ∷ bell ∷ [])
unfolding strlen
both-AreSensors = (
  record {
    name_length = 4;
    type_length = 3;
    named = refl;
    typed = refl;
    name_size = refl;
    type_size = refl;
    name_fits = omega arith;
    type_fits = omega arith;
    gpio_word = omega arith;
  },
  (
    record {
      name_length = 1;
      type_length = 3;
      named = refl;
      typed = refl;
      name_size = refl;
      type_size = refl;
      name_fits = omega arith;
      type_fits = omega arith;
      gpio_word = omega arith;
    },
    tt,
  ),
)

abbrev both : SensorsSettings
both = record { sensors_count = 2; sensors = lamp ∷ bell ∷ [] }

abbrev empty : Queue Message.Message
empty = record { message_map = []; message_id = 0 }

setup_sensors-activate_sensors_example :
    (m : Manager) × (xs : List Managed) × (w' : List ℕ) × (setup_sensors empty both new_manager
      ≡ done (ok, m))
    × (activate_sensors writing pins m [] ≡ done ((ok, record m { sensors = xs }), w'))
    × Makes has_event (lamp ∷ bell ∷ []) xs
setup_sensors-activate_sensors_example =
    setup_sensors-activate_sensors writing pins empty both [] refl both-AreSensors
