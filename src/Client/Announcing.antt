-- ===== src/Client/Announcing.antt =====
-- The fields of the client's announcement.
use shp.Base.{
  ℕ, zero, suc, ◌+◌, ◌-◌, ◌*◌, ◌≤◌, ◌<◌, ◌≡◌, refl, sym, ap, subst, ◌∙◌, none, some, List, [], ◌∷◌,
  ◌++◌, length, take, replicate, done, arith, length-append, length-replicate, drop-replicate,
  replicate-append, append_assoc, append-nil, length-take,
}
use shp.Memory.{Memory, Cell, IsU32, cells, le32, strlen, write_at}
use shp.Memory.Copy.{write_at-append}
use shp.Memory.Words.{length-le32}
use shp.Configuration.{string_at}
use shp.Configuration.Pointers.{string_at_behind, strlen-append, strlen-take}
use shp.Configuration.Screen.{Entry, IsEntry, AreEntries, packed, packed_all, length-packed}
use shp.Client.Configure.{SensorSettings, write_string, write_sensor, write_sensors}

-- A field of n bytes at the start of what is not written yet.
field_written :
    (pre text : Memory) (offset j n k : ℕ)
    → offset ≡ length pre
    → j ≡ n + k
    → length text ≤ n
    → write_at (pre ++ replicate j none) offset text
      ≡ some ((pre ++ (text ++ replicate (n - length text) none)) ++ replicate k none)
field_written pre text offset j n k e split h =
    let left : j - length text ≡ (n - length text) + k = omega arith in
    write_at-append pre text (replicate j none) offset e
      (omega (arith, length-replicate {0} {A = Cell} j none))
    ∙ ap (λ r. some (pre ++ (text ++ r)))
        (drop-replicate (length text) j none
          ∙ ap (λ i. replicate i none) left
          ∙ replicate-append (n - length text) k none)
    ∙ simp append_assoc

-- Settings of which the texts have their terminators within their arrays.
pub record IsSensor (s : SensorSettings) : Type 0 where
  pub name_length : ℕ
  pub type_length : ℕ
  pub named : strlen s.name ≡ some name_length
  pub typed : strlen s.type_name ≡ some type_length
  pub name_size : length s.name ≡ 33
  pub type_size : length s.type_name ≡ 17
  pub name_fits : name_length < 33
  pub type_fits : type_length < 17
  pub gpio_word : IsU32 s.gpio

-- The texts up to their terminators; the bytes behind them are not written.
abbrev pub entry_of : (s : SensorSettings) → IsSensor s → Entry
entry_of s v = record {
  name = take (v.name_length + 1) s.name ++ replicate (33 - (v.name_length + 1)) none;
  type_name = take (v.type_length + 1) s.type_name ++ replicate (17 - (v.type_length + 1)) none;
  gpio = s.gpio;
  name_length = v.name_length;
}

text_of :
    (array : Memory) (n : ℕ)
    → strlen array ≡ some n
    → n + 1 ≤ length array
    → string_at array 0 ≡ some (take (n + 1) array)
text_of array n e h = string_at_behind array 0 array [] n (sym (append-nil array)) e h

write_string-replicate :
    (array pre : Memory) (offset j n k len : ℕ)
    → strlen array ≡ some len
    → len + 1 ≤ n
    → n ≡ length array
    → offset ≡ length pre
    → j ≡ n + k
    → write_string (pre ++ replicate j none) offset array
      ≡ done ((pre ++ (take (len + 1) array ++ replicate (n - (len + 1)) none)) ++ replicate k none)
unfolding write_string
write_string-replicate array pre offset j n k len ended fits size here split =
    let taken : length (take (len + 1) array) ≡ len + 1 =
      omega (arith, length-take (len + 1) array) in
    rw
      (
        text_of array len ended (omega arith),
        field_written pre (take (len + 1) array) offset j n k here split (omega arith),
      )
      (ap
        (λ t. done ((pre ++ (take (len + 1) array ++ replicate (n - t) none)) ++ replicate k none))
        taken)

module _ (s : SensorSettings) (v : IsSensor s) where
  entry_name_size : length (entry_of s v).name ≡ 33
  entry_name_size = omega (
    arith,
    length-append (take (v.name_length + 1) s.name) (replicate (33 - (v.name_length + 1)) none),
    length-take (v.name_length + 1) s.name,
    length-replicate {0} {A = Cell} (33 - (v.name_length + 1)) none,
    v.name_size,
    v.name_fits,
  )

  entry_type_size : length (entry_of s v).type_name ≡ 17
  entry_type_size = omega (
    arith,
    length-append (take (v.type_length + 1) s.type_name)
        (replicate (17 - (v.type_length + 1)) none),
    length-take (v.type_length + 1) s.type_name,
    length-replicate {0} {A = Cell} (17 - (v.type_length + 1)) none,
    v.type_size,
    v.type_fits,
  )

  -- One round fills the next entry.
  write_sensor-packed :
      (pre : Memory) (i k : ℕ)
      → length pre ≡ i * 54
      → write_sensor s i (pre ++ replicate (54 + k) none)
        ≡ done ((pre ++ packed (entry_of s v)) ++ replicate k none)
  unfolding write_sensor
  write_sensor-packed pre i k size =
      let e = entry_of s v in
      let gpio_whole : replicate {A = Cell} (4 - length (cells (le32 s.gpio))) none ≡ [] =
        ap (λ t. replicate (4 - t) none) (length-le32 s.gpio) in
      rw
        (
          write_string-replicate s.name pre (i * 54) (54 + k) 33 (21 + k) v.name_length v.named
              (omega (arith, v.name_fits)) (sym v.name_size) (sym size) (omega arith),
          write_string-replicate s.type_name (pre ++ e.name) (i * 54 + 33) (21 + k) 17 (4 + k)
              v.type_length v.typed (omega (arith, v.type_fits)) (sym v.type_size)
              (omega (arith, length-append pre e.name, entry_name_size)) (omega arith),
          field_written ((pre ++ e.name) ++ e.type_name) (cells (le32 s.gpio)) (i * 54 + 50) (4 + k)
              4 k
              (omega (
                arith,
                length-append (pre ++ e.name) e.type_name,
                length-append pre e.name,
                entry_name_size,
                entry_type_size,
              ))
              refl (omega (arith, length-le32 s.gpio)),
          gpio_whole,
        )
        (simp (append_assoc, append-nil))

  pub entry_of-IsEntry : IsEntry (entry_of s v)
  entry_of-IsEntry = record {
    name_size = entry_name_size;
    type_size = entry_type_size;
    gpio_word = v.gpio_word;
    terminated =
        strlen-append (take (v.name_length + 1) s.name) _ v.name_length
          (strlen-take s.name v.name_length v.named);
    fits = v.name_fits;
  }

abbrev pub AreSensors : List SensorSettings → Type 0
AreSensors [] = Unit {0}
AreSensors (s ∷ ss) = IsSensor s × AreSensors ss

abbrev pub entries_of : (ss : List SensorSettings) → AreSensors ss → List Entry
entries_of [] v = []
entries_of (s ∷ ss) v = entry_of s v.0 ∷ entries_of ss v.1

pub length-entries_of :
    (ss : List SensorSettings) (v : AreSensors ss) → length (entries_of ss v) ≡ length ss
length-entries_of [] v = refl
length-entries_of (s ∷ ss) v = ap suc (length-entries_of ss v.1)

pub entries_of-AreEntries :
    (ss : List SensorSettings) (v : AreSensors ss) → AreEntries (entries_of ss v)
entries_of-AreEntries [] v = tt
entries_of-AreEntries (s ∷ ss) v = (entry_of-IsEntry s v.0, entries_of-AreEntries ss v.1)

-- The rounds that are left fill the rest of the block.
pub write_sensors-packed_all :
    (ss : List SensorSettings) (v : AreSensors ss) (pre : Memory) (i j : ℕ)
    → length pre ≡ i * 54
    → j ≡ length ss * 54
    → write_sensors (length ss) i ss (pre ++ replicate j none)
      ≡ done (pre ++ packed_all (entries_of ss v))
unfolding write_sensors
write_sensors-packed_all [] v pre i zero size room = refl
write_sensors-packed_all [] v pre i (suc j) size room = absurd (omega arith)
write_sensors-packed_all (s ∷ ss) v pre i j size room =
    let split : j ≡ 54 + length ss * 54 = omega arith in
    subst
      (λ t.
        write_sensors (suc (length ss)) i (s ∷ ss) (pre ++ replicate t none)
        ≡ done (pre ++ packed_all (entries_of (s ∷ ss) v)))
      (sym split)
      (rw
        (
          write_sensor-packed s v.0 pre i (length ss * 54) size,
          write_sensors-packed_all ss v.1 (pre ++ packed (entry_of s v.0)) (i + 1) (length ss * 54)
              (omega (
                arith,
                length-append pre (packed (entry_of s v.0)),
                length-packed (entry_of s v.0) (entry_of-IsEntry s v.0),
                size,
              ))
              refl,
        )
        (ap done (append_assoc pre (packed (entry_of s v.0)) (packed_all (entries_of ss v.1)))))
