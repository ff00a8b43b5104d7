-- ===== src/Sensor.antt =====
-- src/sensors/sensor.hpp, src/sensors/sensor_event.cpp and the callbacks of
-- src/client_sensor_manager.cpp: a sensor that reports events. Lines printed are left out.
pub mod Text
pub mod Building
pub mod Reporting
pub mod Shown
mod Tests
use shp.Base.{
  ℕ, zero, suc, ◌+◌, ◌/◌, ◌%◌, Bool, true, false, not, Option, none, some, List, [], ◌∷◌, ◌++◌,
  if◌then◌else◌, ◌==◌, replicate, Exec, done, out_of_fuel, or_fault,
}
use shp.Memory.{Memory, cells}
use shp.Message.{
  Message, MessageId, FieldId, new_message, add_time_to_message, add_string_to_message,
  add_num_to_message,
}
use shp.Queue.{Queue, add}
use shp.Os.Actions.{Io, pure, ◌>>=◌, ◌>>◌, call, lift}

-- `sensor_class`, and whether `sensor_event_class` has its callbacks.
pub record Sensor : Type 0 where
  pub gpio_num : ℕ
  pub name : Memory
  pub type_name : Memory
  pub activated : Bool
  pub has_callbacks : Bool

-- `strncpy` to an array of n bytes: no more than n characters, and zeros behind a shorter text.
unfoldable pub strncpy : ℕ → Memory → Option Memory
strncpy zero src = some []
strncpy (suc n) [] = none
strncpy (suc n) (none ∷ src) = none
strncpy (suc n) (some zero ∷ src) = some (replicate (suc n) (some 0))
strncpy (suc n) (some (suc c) ∷ src) = elim (strncpy n src) [
  | none ↦ none
  | some rest ↦ some (some (suc c) ∷ rest)
]

-- `strcmp (text, xs) == 0` for a text without zeros; undefined where the comparison runs into the end of
-- the block.
unfoldable pub str_equal : Memory → List ℕ → Option Bool
str_equal [] xs = none
str_equal (none ∷ m) xs = none
str_equal (some zero ∷ m) [] = some true
str_equal (some zero ∷ m) (x ∷ xs) = some false
str_equal (some (suc c) ∷ m) [] = some false
str_equal (some (suc c) ∷ m) (x ∷ xs) = if suc c == x then str_equal m xs else some false

-- The constructor; the pin's number becomes an unsigned char.
unfoldable pub new_sensor : ℕ → Memory → Memory → Exec Sensor
unfolding strncpy
new_sensor gpio name type_name = shp.Base.◌>>=◌ (or_fault (strncpy 64 name)) (λ n.
    shp.Base.◌>>=◌ (or_fault (strncpy 16 type_name)) (λ t. done (record {
      gpio_num = gpio % 256;
      name = n;
      type_name = t;
      activated = false;
      has_callbacks = false;
    })))

-- `EVENT_ON` and `EVENT_OFF`
abbrev pub event_value : Bool → Memory
event_value true = cells (b'1' ∷ 0 ∷ [])
event_value false = cells (b'0' ∷ 0 ∷ [])

-- The message of both callbacks. No result of the calls that add a field is looked at.
unfoldable pub event_message : Bool → ℕ → Sensor → Exec Message
event_message value now s =
    shp.Base.◌>>=◌ (add_time_to_message now (new_message MessageId.send_event)) (λ timed.
      shp.Base.◌>>=◌ (add_string_to_message FieldId.sensor_type s.type_name timed.1) (λ typed.
        shp.Base.◌>>=◌ (add_string_to_message FieldId.sensor_name s.name typed.1) (λ named.
          shp.Base.◌>>=◌ (add_num_to_message FieldId.sensor_gpio s.gpio_num named.1) (λ placed.
            shp.Base.◌>>=◌ (add_string_to_message FieldId.sensor_data (event_value value) placed.1)
              (λ full. done full.1)))))

-- `add_to_queue`; a manager without a queue drops the message.
unfoldable pub add_to_queue : Message → Option (Queue Message) → Option (Queue Message)
add_to_queue m none = none
add_to_queue m (some q) = some (add m q).1

-- What wiringPi does on a pin, the waits, and `time (NULL)`.
pub record Board : Type 1 where
  pub World : Type 0
  pub pin_mode_input : ℕ → World → World
  pub digital_read : ℕ → World → Bool × World
  pub delay : ℕ → World → World
  pub sleep : ℕ → World → World
  pub time : World → ℕ × World

module _ (board : Board) where
  open board use {World}

  -- `sensor_event_class::activate`
  unfoldable pub activate : Sensor → Io World Sensor
  activate s = if s.activated then pure s else do
    (λ (w : World). shp.Base.done (tt {0}, board.pin_mode_input s.gpio_num w))
    pure (record s { activated = true })

  unfoldable pub event_on : Sensor → Option (Queue Message) → Io World (Option (Queue Message))
  unfolding event_message add_to_queue
  event_on s q =
      if s.has_callbacks
      then (do now ← call board.time; m ← lift (event_message true now s); pure (add_to_queue m q))
      else pure q

  unfoldable pub event_off :
      Sensor → Option (Queue Message) → Io World (Sensor × Option (Queue Message))
  unfolding event_message add_to_queue activate
  event_off s q =
      if s.has_callbacks
      then (do
        now ← call board.time
        m ← lift (event_message false now s)
        let q' = add_to_queue m q
        s' ← activate s
        pure (s', q'))
      else pure (s, q)

  -- `while (digitalRead (sensor_gpio_num) == level) delay (100)`
  unfoldable pub wait_while : ℕ → Bool → ℕ → Io World (Unit {0})
  wait_while zero level gpio = λ w. out_of_fuel
  wait_while (suc fuel) level gpio = do
    now ← call (board.digital_read gpio)
    let again = (λ (w : World). wait_while fuel level gpio (board.delay 100 w))
    if now then (if level then again else pure tt) else (if level then pure tt else again)

  -- `do_task` of the buttons, and of the sensors that do not override it: the level at rest is high.
  -- The opto interrupter has the same text with the two levels exchanged.
  unfoldable pub do_task :
      ℕ → Bool → Sensor → Option (Queue Message) → Io World (Sensor × Option (Queue Message))
  unfolding event_on event_off wait_while
  do_task fuel rest s q = do
    let s' = record s { activated = false }
    wait_while fuel rest s'.gpio_num
    q' ← event_on s' q
    wait_while fuel (not rest) s'.gpio_num
    event_off s' q'

  -- `sensor_pir_class::do_task`: a wait of as many seconds as the pin's number, and one of half of it.
  unfoldable pub pir_do_task :
      Sensor → Option (Queue Message) → Io World (Sensor × Option (Queue Message))
  unfolding event_on event_off
  pir_do_task s q = do
    let s' = record s { activated = false }
    (λ (w : World). shp.Base.done (tt {0}, board.sleep s'.gpio_num w))
    q' ← event_on s' q
    (λ (w : World). shp.Base.done (tt {0}, board.sleep (s'.gpio_num / 2) w))
    event_off s' q'

  -- One round of `working_thread`, without its wait.
  unfoldable pub working_round :
      ℕ → Bool → Sensor → Option (Queue Message) → Io World (Sensor × Option (Queue Message))
  unfolding do_task
  working_round fuel rest s q = if s.activated then do_task fuel rest s q else pure (s, q)
