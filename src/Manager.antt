-- ===== src/Manager.antt =====
-- src/client_sensor_manager.cpp: the sensors of the client, made from its settings, and
-- src/sensors/sensor_led.cpp. The mutex and the log are left out.
pub mod Making
pub mod Activating
mod Tests
use shp.Base.{
  ℕ, zero, suc, ◌+◌, ℤ, Bool, true, false, Option, none, some, List, [], ◌∷◌, ◌++◌, ◌==◌,
  if◌then◌else◌, Exec, done, fault, or_fault, ◌>>=◌,
}
use shp.Memory.{Memory, cells, write_at}
use shp.Configuration.{string_at}
use shp.Message
use shp.ErrorCodes.{ErrorCode, is_ok, ok, invalid_state, system_error}
use shp.Queue.{Queue}
use shp.Os.Actions
use shp.Os.Actions.{Io}
use shp.Client.Configure.{SensorSettings, SensorsSettings}
use shp.Sensor.{Sensor, Board, new_sensor, str_equal, activate}

-- The classes of the objects that `add_sensor` makes.
pub data Kind : Type 0 where
  button dht11 flame pir led : Kind

pub record Managed : Type 0 where
  pub kind : Kind
  pub sensor : Sensor

-- `sensor_manager_class`, with the queue that `p_queue` points to.
pub record Manager : Type 0 where
  pub is_initialized : Bool
  pub queue : Option (Queue Message.Message)
  pub sensors : List Managed

unfoldable pub new_manager : Manager
new_manager = record { is_initialized = false; queue = none; sensors = [] }

-- `setup_board`; the inputs are what `geteuid` returns and whether `wiringPiSetup` returns -1.
unfoldable pub setup_board : ℕ → Bool → Manager → ErrorCode × Manager
setup_board euid failed m =
    if m.is_initialized
    then (ok, m)
    else if euid == 0
    then (if failed then (system_error, m) else (ok, record m { is_initialized = true }))
    else (invalid_state, m)

abbrev pub button_text : List ℕ
button_text = b'B' ∷ b'U' ∷ b'T' ∷ b'T' ∷ b'O' ∷ b'N' ∷ []

abbrev pub dht11_text : List ℕ
dht11_text = b'D' ∷ b'H' ∷ b'T' ∷ b'1' ∷ b'1' ∷ []

abbrev pub flame_text : List ℕ
flame_text = b'F' ∷ b'L' ∷ b'A' ∷ b'M' ∷ b'E' ∷ []

abbrev pub pir_text : List ℕ
pir_text = b'P' ∷ b'I' ∷ b'R' ∷ []

abbrev pub led_text : List ℕ
led_text = b'L' ∷ b'E' ∷ b'D' ∷ []

-- The type that the constructor of a class passes on.
abbrev pub type_of : Kind → Memory
type_of button = cells (button_text ++ 0 ∷ [])
type_of dht11 = cells (b'D' ∷ b'H' ∷ b'T' ∷ 0 ∷ [])
type_of flame = cells (flame_text ++ 0 ∷ [])
type_of pir = cells (pir_text ++ 0 ∷ [])
type_of led = cells (led_text ++ 0 ∷ [])

abbrev pub has_event : Kind → Bool
has_event led = false
has_event _ = true

-- The comparisons of `add_sensor`, in their order; a type that equals one text is ended, so that the
-- comparisons behind it change nothing.
unfoldable pub kind_of : Memory → Exec (Option Kind)
unfolding str_equal
kind_of type_name = do
  is_button ← or_fault (str_equal type_name button_text)
  is_dht11 ← or_fault (str_equal type_name dht11_text)
  is_flame ← or_fault (str_equal type_name flame_text)
  is_pir ← or_fault (str_equal type_name pir_text)
  is_led ← or_fault (str_equal type_name led_text)
  done (
      if is_button
      then some button
      else if is_dht11
      then some dht11
      else if is_flame
      then some flame
      else if is_pir
      then some pir
      else if is_led
      then some led
      else none)

-- The constructor of a LED copies the name once more, with `strcpy`; undefined where the array of 64
-- bytes is too small.
unfoldable pub second_copy : Kind → Memory → Memory → Exec Memory
unfolding string_at write_at
second_copy led target name = do
  text ← or_fault (string_at name 0)
  or_fault (write_at target 0 text)
second_copy button target name = done target
second_copy dht11 target name = done target
second_copy flame target name = done target
second_copy pir target name = done target

-- The object, its callbacks for all but a LED, and `push_back`.
unfoldable pub make_sensor : Kind → Memory → ℕ → Manager → Exec Manager
unfolding new_sensor second_copy
make_sensor kind name gpio m = do
  s ← new_sensor gpio name (type_of kind)
  copied ← second_copy kind s.name name
  done (record m {
    sensors =
        m.sensors
        ++ record {
          kind = kind;
          sensor = record s { name = copied; has_callbacks = has_event kind };
        }
          ∷ [];
  })

-- An unknown type is skipped.
unfoldable pub add_sensor : Memory → ℕ → Memory → Manager → Exec (ErrorCode × Manager)
unfolding kind_of make_sensor
add_sensor name gpio type_name m = do
  kind ← kind_of type_name
  elim kind [ none ↦ done (ok, m) | some k ↦ do m' ← make_sensor k name gpio m; done (ok, m') ]

-- The rounds that are left of the loop in `setup_sensors`.
unfoldable pub add_sensors : ℕ → List SensorSettings → Manager → Exec (ErrorCode × Manager)
unfolding add_sensor
add_sensors zero ss m = done (ok, m)
add_sensors (suc left) [] m = fault
add_sensors (suc left) (s ∷ ss) m = do
  (result, m') ← add_sensor s.name s.gpio s.type_name m
  let rest = add_sensors left ss m'
  if is_ok result then rest else done (result, m')

-- `is_initialized` is not looked at.
unfoldable pub setup_sensors :
    Queue Message.Message → SensorsSettings → Manager → Exec (ErrorCode × Manager)
unfolding add_sensors
setup_sensors q settings m =
    add_sensors settings.sensors_count settings.sensors (record m { queue = some q })

-- What wiringPi does on an output pin.
pub record Outputs (World : Type 0) : Type 0 where
  pub pin_mode_output : ℕ → World → World
  pub digital_write : ℕ → Bool → World → World

module _ (board : Board) (outputs : Outputs board.World) where
  open board use {World}

  -- `activate` of each class; the setup of a DHT sensor makes its pin an output and pulls it high.
  unfoldable pub activate_managed : Managed → Io World Managed
  unfolding activate
  activate_managed s w = elim s.kind [
    | led ↦ done (
      s,
      outputs.digital_write s.sensor.gpio_num false (outputs.pin_mode_output s.sensor.gpio_num w),
    )
    | dht11 ↦
        if s.sensor.activated
        then done (s, w)
        else done (
          record s { sensor = record (s.sensor) { activated = true } },
          outputs.digital_write s.sensor.gpio_num true
              (outputs.pin_mode_output s.sensor.gpio_num w),
        )
    | button ↦
        Actions.◌>>=◌ (activate board s.sensor) (λ t. Actions.pure (record s { sensor = t })) w
    | flame ↦
        Actions.◌>>=◌ (activate board s.sensor) (λ t. Actions.pure (record s { sensor = t })) w
    | pir ↦ Actions.◌>>=◌ (activate board s.sensor) (λ t. Actions.pure (record s { sensor = t })) w
  ]

  unfoldable pub activate_all : List Managed → Io World (List Managed)
  unfolding activate_managed
  activate_all [] = Actions.pure []
  activate_all (s ∷ ss) =
      Actions.◌>>=◌ (activate_managed s)
        (λ s'. Actions.◌>>=◌ (activate_all ss) (λ ss'. Actions.pure (s' ∷ ss')))

  unfoldable pub activate_sensors : Manager → Io World (ErrorCode × Manager)
  unfolding activate_all
  activate_sensors m =
      Actions.◌>>=◌ (activate_all m.sensors) (λ ss. Actions.pure (ok, record m { sensors = ss }))
