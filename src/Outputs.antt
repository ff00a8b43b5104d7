-- ===== src/Outputs.antt =====
-- src/sensors/sensor_led.cpp, src/sensors/sensor_relay.cpp and src/sensors/sensor_servo.cpp: the
-- sensors that are outputs, with what wiringPi does on their pins as a parameter.
pub mod Angles
pub mod Relay
pub mod Levels
use shp.Base.{
  ℕ, zero, suc, ◌+◌, ◌-◌, ◌*◌, ◌/◌, ◌%◌, Bool, true, false, Option, none, some, List, [], ◌∷◌, ◌++◌,
}
use shp.Memory.{u32_mod}

-- What happens on a pin: its mode, a level, and a wait in microseconds.
pub data Action : Type 0 where
  pin_mode_output : Action
  digital_write : Bool → Action
  delay_microseconds : ℕ → Action

-- The object of an LED: `active` is not written by the constructor, and nothing reads it.
pub record Led : Type 0 where
  pub active : Option ℕ

abbrev pub new_led : Led
new_led = record { active = none }

-- `sensor_led_class::switch_on` and `switch_off`.
abbrev pub switch_on : List Action
switch_on = digital_write true ∷ []

abbrev pub switch_off : List Action
switch_off = digital_write false ∷ []

-- `sensor_led_class::flash_on`, with a time that is not looked at, and `flash_off`; no thread flashes.
abbrev pub flash_on : ℕ → Led → Led
flash_on ms s = record s { active = some 1 }

abbrev pub flash_off : Led → Led
flash_off s = record s { active = some 0 }

-- `sensor_led_class::activate`
abbrev pub activate_output : List Action
activate_output = pin_mode_output ∷ switch_off

-- `sensor_servo_class`
pub record Servo : Type 0 where
  pub wait_time : ℕ
  pub b : ℕ
  pub k : ℕ

-- All three are whole numbers, since the divisions are of unsigned ones.
unfoldable pub set_params : ℕ → ℕ → ℕ → Servo
set_params min_time max_time frequence = record {
  wait_time = 1_000_000 / frequence;
  b = min_time;
  k = (max_time + u32_mod - min_time) % u32_mod / 180;
}

-- The constructor.
unfoldable pub new_servo : Servo
unfolding set_params
new_servo = set_params 500 2500 50

unfoldable pub pulse_time : Servo → ℕ → ℕ
pulse_time s angle = angle * s.k + s.b

-- The rounds of the loop in `set_angle` that are left.
unfoldable pub pulses : ℕ → Servo → ℕ → List Action
unfolding pulse_time
pulses zero s angle = []
pulses (suc left) s angle =
    digital_write true
    ∷ delay_microseconds (pulse_time s angle)
    ∷ digital_write false
    ∷ delay_microseconds (s.wait_time - pulse_time s angle)
    ∷ pulses left s angle

unfoldable pub set_angle : Servo → ℕ → List Action
unfolding pulses
set_angle s angle = pulses 25 s angle

-- `sensor_servo_class::activate`
abbrev pub activate_servo : List Action
activate_servo = digital_write false ∷ pin_mode_output ∷ []
