-- ===== src/Manager/Making.antt =====
-- The sensors made from valid settings.
use shp.Base.{
  ℕ, zero, suc, ◌+◌, ◌%◌, ◌<◌, ◌≤◌, ◌≡◌, refl, sym, ap, ◌∙◌, subst, true, false, Option, none, some,
  List, [], ◌∷◌, ◌++◌, length, append_assoc, append-nil, done, arith, ◌>>=◌, or_fault,
  if◌then◌else◌, Option-cases, inl, inr, length-take, take, drop,
}
use shp.Memory.{Memory, strlen}
use shp.Memory.Copy.{write_at-append}
use shp.Configuration.{string_at}
use shp.ErrorCodes.{ok}
use shp.Client.Configure.{SensorSettings}
use shp.Client.Announcing.{AreSensors}
use shp.Sensor.{new_sensor}
use shp.Sensor.Text.{strncpy_short, str_equal-some}
use shp.Manager.{
  Kind, Managed, Manager, button, dht11, flame, pir, led, has_event, type_of, button_text,
  dht11_text, flame_text, pir_text, led_text, kind_of, second_copy, make_sensor, add_sensor,
  add_sensors,
}

-- A sensor for each of the settings with a known type, on their pins taken as unsigned characters,
-- and none for the others; active or not as told.
pub data Makes (active : Kind → shp.Base.Bool) : List SensorSettings → List Managed → Type 0 where
  nothing : Makes active [] []
  made :
      (s : SensorSettings) (ss : List SensorSettings) (x : Managed) (xs : List Managed)
      → kind_of s.type_name ≡ done (some x.kind)
      → x.sensor.gpio_num ≡ s.gpio % 256
      → x.sensor.has_callbacks ≡ has_event x.kind
      → x.sensor.activated ≡ active x.kind
      → Makes active ss xs
      → Makes active (s ∷ ss) (x ∷ xs)
  skipped :
      (s : SensorSettings) (ss : List SensorSettings) (xs : List Managed)
      → kind_of s.type_name ≡ done none
      → Makes active ss xs
      → Makes active (s ∷ ss) xs

abbrev pub inactive : Kind → shp.Base.Bool
inactive kind = false

kind_of-done : (t : Memory) (n : ℕ) → strlen t ≡ some n → (k : Option Kind) × (kind_of t ≡ done k)
unfolding kind_of
kind_of-done t n ended =
    let (b1, e1) = str_equal-some t button_text n ended in
    let (b2, e2) = str_equal-some t dht11_text n ended in
    let (b3, e3) = str_equal-some t flame_text n ended in
    let (b4, e4) = str_equal-some t pir_text n ended in
    let (b5, e5) = str_equal-some t led_text n ended in
    (
      if b1
          then some button
          else if b2
          then some dht11
          else if b3
          then some flame
          else if b4
          then some pir
          else if b5
          then some led
          else none,
      rw (e1, e2, e3, e4, e5),
    )

type_of-ended : (k : Kind) → (n : ℕ) × (strlen (type_of k) ≡ some n) × (n < 16)
unfolding strlen
type_of-ended button = (6, refl, omega arith)
type_of-ended dht11 = (3, refl, omega arith)
type_of-ended flame = (5, refl, omega arith)
type_of-ended pir = (3, refl, omega arith)
type_of-ended led = (3, refl, omega arith)

second_copy-done :
    (k : Kind) (target name : Memory) (n : ℕ)
    → strlen name ≡ some n
    → n < length target
    → (text : Memory) × (second_copy k target name ≡ done text)
unfolding second_copy
second_copy-done led target name n ended fits =
    let text = take (n + 1) name in
    let copies : string_at name 0 ≡ some text = rw (string_at, ended) in
    let room : length text ≤ length target = omega (arith, length-take (n + 1) name) in
    (text ++ drop (length text) target, rw (copies, write_at-append [] text target 0 refl room))
second_copy-done button target name n ended fits = (target, refl)
second_copy-done dht11 target name n ended fits = (target, refl)
second_copy-done flame target name n ended fits = (target, refl)
second_copy-done pir target name n ended fits = (target, refl)

make_sensor-done :
    (k : Kind) (name : Memory) (gpio n : ℕ) (m : Manager)
    → strlen name ≡ some n
    → n < 64
    → (x : Managed) × (make_sensor k name gpio m
        ≡ done (record m { sensors = m.sensors ++ x ∷ [] }))
      × (x.kind ≡ k)
      × (x.sensor.gpio_num ≡ gpio % 256)
      × (x.sensor.has_callbacks ≡ has_event k)
      × (x.sensor.activated ≡ false)
unfolding make_sensor new_sensor
make_sensor-done k name gpio n m ended short =
    let (text, copies, text_ended, size) = strncpy_short 64 n name ended short in
    let (j, type_ended, type_short) = type_of-ended k in
    let (type_text, type_copies, type_text_ended, type_size) =
      strncpy_short 16 j (type_of k) type_ended type_short in
    let (copied, copies_again) = second_copy-done k text name n ended (omega arith) in
    (
      record {
        kind = k;
        sensor = record {
          gpio_num = gpio % 256;
          name = copied;
          type_name = type_text;
          activated = false;
          has_callbacks = has_event k;
        };
      },
      rw (copies, type_copies, copies_again),
      refl,
      refl,
      refl,
      refl,
    )

-- The rounds that are left add the sensors behind those that are there.
pub add_sensors-Makes :
    (ss : List SensorSettings) (m : Manager)
    → AreSensors ss
    → (xs : List Managed) × (add_sensors (length ss) ss m
        ≡ done (ok, record m { sensors = m.sensors ++ xs }))
      × Makes inactive ss xs
unfolding add_sensors add_sensor
add_sensors-Makes [] m v = (
  [],
  ap (λ (l : List Managed). done (ok, record m { sensors = l })) (sym (append-nil m.sensors)),
  nothing,
)
add_sensors-Makes (s ∷ ss) m v =
    let (k, knows) = kind_of-done s.type_name v.0.type_length v.0.typed in
    elim (Option-cases k) [
      | inl unknown ↦
          let (xs, adds, makes) = add_sensors-Makes ss m v.1 in
          (xs, rw (knows, unknown, adds), skipped s ss xs (knows ∙ ap done unknown) makes)
      | inr (kind, known) ↦
          let (x, x_made, same, pin, called, asleep) =
            make_sensor-done kind s.name s.gpio v.0.name_length m v.0.named
              (omega (arith, v.0.name_fits)) in
          let (xs, adds, makes) =
            add_sensors-Makes ss (record m { sensors = m.sensors ++ x ∷ [] }) v.1 in
          (
            x ∷ xs,
            rw (knows, known, x_made, adds)
                (ap (λ (l : List Managed). done (ok, record m { sensors = l }))
                  (append_assoc m.sensors (x ∷ []) xs)),
            made s ss x xs (knows ∙ ap done (known ∙ ap some (sym same))) pin
                (called ∙ ap has_event (sym same)) asleep makes,
          )
    ]
