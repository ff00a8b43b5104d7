-- ===== src/Settings/Reading.antt =====
-- What the list of sensors in the file makes of the settings.
use shp.Base.{
  ℕ, suc, ◌<◌, ◌≤◌, ◌≡◌, refl, ap, none, some, List, [], ◌∷◌, ◌++◌, length, drop, length-append,
  length-drop, done, fault, arith,
}
use shp.Memory.{Memory, IsU32, strlen}
use shp.Memory.Copy.{write_at-append}
use shp.Configuration.{string_at}
use shp.Configuration.Pointers.{strlen-append}
use shp.Sensor.Text.{strncpy_short, strncpy_long}
use shp.Client.Configure.{SensorSettings, write_string, write_sensor}
use shp.Client.Announcing.{IsSensor, AreSensors}
use shp.Settings.{Item, unwritten, read_sensor, read_entries}

-- An item with all that it needs; its texts are shorter than what `strncpy` may copy.
pub record IsItem (item : Item) : Type 0 where
  pub name : Memory
  pub name_length : ℕ
  pub gpio : ℕ
  pub type_name : Memory
  pub type_length : ℕ
  pub named : item.name ≡ some name
  pub placed : item.gpio ≡ some gpio
  pub typed : item.type_name ≡ some type_name
  pub name_ended : strlen name ≡ some name_length
  pub type_ended : strlen type_name ≡ some type_length
  pub name_short : name_length < 32
  pub type_short : type_length < 16
  pub gpio_word : IsU32 gpio

abbrev pub AreItems : List Item → Type 0
AreItems [] = Unit {0}
AreItems (item ∷ items) = IsItem item × AreItems items

read_sensor-IsSensor :
    (item : Item) → IsItem item → (s : SensorSettings) × (read_sensor item ≡ done s) × IsSensor s
unfolding read_sensor
read_sensor-IsSensor item v =
    let (n, copies_name, n_ended, n_size) =
      strncpy_short 32 v.name_length v.name v.name_ended v.name_short in
    let (t, copies_type, t_ended, t_size) =
      strncpy_short 16 v.type_length v.type_name v.type_ended v.type_short in
    (
      record {
        is_initialized = 1;
        gpio = v.gpio;
        name = n ++ drop (length n) unwritten.name;
        type_name = t ++ drop (length t) unwritten.type_name;
      },
      rw (
        v.named,
        v.placed,
        v.typed,
        copies_name,
        write_at-append [] n unwritten.name 0 refl (omega arith),
        copies_type,
        write_at-append [] t unwritten.type_name 0 refl (omega arith),
      ),
      record {
        name_length = v.name_length;
        type_length = v.type_length;
        named = strlen-append n (drop (length n) unwritten.name) v.name_length n_ended;
        typed = strlen-append t (drop (length t) unwritten.type_name) v.type_length t_ended;
        name_size = omega (
          arith,
          length-append n (drop (length n) unwritten.name),
          length-drop (length n) unwritten.name,
          n_size,
        );
        type_size = omega (
          arith,
          length-append t (drop (length t) unwritten.type_name),
          length-drop (length t) unwritten.type_name,
          t_size,
        );
        name_fits = omega (arith, v.name_short);
        type_fits = omega (arith, v.type_short);
        gpio_word = v.gpio_word;
      },
    )

-- Items with a name of fewer than 32 characters, a type of fewer than 16, and a pin are read as
-- settings from which an announcement can be made: as many, in the same order, with ended texts.
pub read_entries-AreSensors :
    (items : List Item)
    → AreItems items
    → (ss : List SensorSettings) × (read_entries items ≡ done ss)
      × (length ss ≡ length items)
      × AreSensors ss
unfolding read_entries
read_entries-AreSensors [] v = ([], refl, refl, tt)
read_entries-AreSensors (item ∷ items) v =
    let (s, reads, valid) = read_sensor-IsSensor item v.0 in
    let (ss, rest, size, all) = read_entries-AreSensors items v.1 in
    (s ∷ ss, rw (reads, rest), ap suc size, (valid, all))

-- A name of 32 characters or more, which the file may have, leaves the array without a terminator:
-- the last of its 33 bytes is never written, and making the announcement runs over it.
pub read_sensor_long :
    (item : Item) (name type_name : Memory) (k j gpio : ℕ) (i : ℕ) (m : Memory)
    → item.name ≡ some name
    → item.gpio ≡ some gpio
    → item.type_name ≡ some type_name
    → strlen name ≡ some k
    → 32 ≤ k
    → strlen type_name ≡ some j
    → j < 16
    → (s : SensorSettings) × (read_sensor item ≡ done s) × (write_sensor s i m ≡ fault)
unfolding read_sensor write_sensor write_string string_at
read_sensor_long item name type_name k j gpio i m named placed typed name_ended long type_ended
      short =
    let (n, copies_name, n_size, unended) = strncpy_long 32 k name [] name_ended long in
    let (t, copies_type, t_ended, t_size) = strncpy_short 16 j type_name type_ended short in
    (
      record {
        is_initialized = 1;
        gpio = gpio;
        name = n ++ none ∷ [];
        type_name = t ++ drop (length t) unwritten.type_name;
      },
      rw
          (
            named,
            placed,
            typed,
            copies_name,
            write_at-append [] n unwritten.name 0 refl (omega arith),
            copies_type,
            write_at-append [] t unwritten.type_name 0 refl (omega arith),
          )
          (ap
            (λ (r : ℕ). done (record {
              is_initialized = 1;
              gpio = gpio;
              name = n ++ drop r unwritten.name;
              type_name = t ++ drop (length t) unwritten.type_name;
            }))
            n_size),
      rw (string_at, unended),
    )
