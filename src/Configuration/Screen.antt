-- ===== src/Configuration/Screen.antt =====
-- The table of sensor states, made from the settings of the sensors.
use shp.Base.{
  ℕ, ◌+◌, ◌-◌, ◌*◌, ◌≤◌, ◌<◌, ◌≡◌, refl, sym, ap, ◌∙◌, none, some, List, [], ◌∷◌, ◌++◌, map, length,
  take, drop, replicate, done, arith, length-append, append_assoc, drop_left, length-take,
  length-replicate, drop-replicate,
}
use shp.Memory.{Memory, Cell, IsU32, cells, le32, load32, strlen, write_at}
use shp.Memory.Copy.{write_at-append}
use shp.Memory.Words.{load32-append, length-le32}
use shp.Configuration.{SensorStatus, new_status, new_screen, string_at}
use shp.Configuration.Pointers.{string_at_behind}

-- The settings of one sensor: a name and a type in their arrays, with terminators, and the pin.
pub record Entry : Type 0 where
  pub name : Memory
  pub type_name : Memory
  pub gpio : ℕ
  pub name_length : ℕ

pub record IsEntry (e : Entry) : Type 0 where
  pub name_size : length e.name ≡ 33
  pub type_size : length e.type_name ≡ 17
  pub gpio_word : IsU32 e.gpio
  pub terminated : strlen e.name ≡ some e.name_length
  pub fits : e.name_length < 33

abbrev pub AreEntries : List Entry → Type 0
AreEntries [] = Unit {0}
AreEntries (e ∷ es) = IsEntry e × AreEntries es

-- `sensor_config_t`, and an array of it.
abbrev pub packed : Entry → Memory
packed e = e.name ++ (e.type_name ++ cells (le32 e.gpio))

abbrev pub packed_all : List Entry → Memory
packed_all [] = []
packed_all (e ∷ es) = packed e ++ packed_all es

-- The state in which a sensor starts: its pin, its name up to the terminator, no text and no message.
abbrev pub initial : Entry → SensorStatus
initial e = record {
  gpio = e.gpio;
  name = take (e.name_length + 1) e.name ++ replicate (33 - (e.name_length + 1)) none;
  buffer = replicate 64 (some 0);
  last_message = 0;
}

-- A text copied to the start of a new block.
text_written :
    (n : ℕ) (text : Memory)
    → length text ≤ n
    → write_at (replicate n none) 0 text ≡ some (text ++ replicate (n - length text) none)
text_written n text h =
    write_at-append [] text (replicate n none) 0 refl
      (omega (arith, length-replicate {0} {A = Cell} n none))
    ∙ ap (λ r. some (text ++ r)) (drop-replicate (length text) n none)

pub length-packed : (e : Entry) → IsEntry e → length (packed e) ≡ 54
length-packed e v = omega (
  arith,
  length-append e.name (e.type_name ++ cells (le32 e.gpio)),
  length-append e.type_name (cells (le32 e.gpio)),
  length-le32 e.gpio,
  v.name_size,
  v.type_size,
)

pub length-packed_all : (es : List Entry) → AreEntries es → length (packed_all es) ≡ length es * 54
length-packed_all [] v = refl
length-packed_all (e ∷ es) v =
    omega (
      arith,
      length-append (packed e) (packed_all es),
      length-packed e v.0,
      length-packed_all es v.1,
    )

module _ (e : Entry) (v : IsEntry e) (pre rest sensors : Memory) (i : ℕ)
    (here : sensors ≡ pre ++ (packed e ++ rest)) (size : length pre ≡ i * 54) where
  gpio_there : load32 sensors (i * 54 + 50) ≡ some e.gpio
  gpio_there =
      ap (λ m. load32 m (i * 54 + 50)) (here ∙ shape)
      ∙ load32-append (pre ++ (e.name ++ e.type_name)) rest (i * 54 + 50) e.gpio
          (omega (
            arith,
            length-append pre (e.name ++ e.type_name),
            length-append e.name e.type_name,
            v.name_size,
            v.type_size,
          ))
          v.gpio_word
    where
      shape :
          pre ++ (packed e ++ rest)
          ≡ (pre ++ (e.name ++ e.type_name)) ++ (cells (le32 e.gpio) ++ rest)
      shape = simp append_assoc

  name_there : string_at sensors (i * 54) ≡ some (take (e.name_length + 1) e.name)
  name_there =
      string_at_behind sensors (i * 54) e.name ((e.type_name ++ cells (le32 e.gpio)) ++ rest)
        e.name_length
        (ap (drop (i * 54)) here
          ∙ drop_left pre (packed e ++ rest) (i * 54) (sym size)
          ∙ append_assoc e.name (e.type_name ++ cells (le32 e.gpio)) rest)
        v.terminated (omega (arith, v.fits, v.name_size))

  name_written :
      write_at (replicate 33 none) 0 (take (e.name_length + 1) e.name) ≡ some (initial e).name
  name_written =
      let size : length (take (e.name_length + 1) e.name) ≡ e.name_length + 1 =
        omega (arith, length-take (e.name_length + 1) e.name, v.name_size, v.fits) in
      text_written 33 (take (e.name_length + 1) e.name) (omega (arith, v.fits))
      ∙ ap (λ k. some (take (e.name_length + 1) e.name ++ replicate (33 - k) none)) size

  new_status-initial : new_status sensors i ≡ done (initial e)
  unfolding new_status
  new_status-initial = rw (gpio_there, name_there, name_written)

-- From a number on, the table of the sensors that are left.
pub new_screen-initial :
    (es : List Entry) (pre sensors : Memory) (i : ℕ)
    → AreEntries es
    → sensors ≡ pre ++ packed_all es
    → length pre ≡ i * 54
    → new_screen sensors (length es) i ≡ done (map initial es)
unfolding new_screen
new_screen-initial [] pre sensors i v here size = refl
new_screen-initial (e ∷ es) pre sensors i v here size = rw (
  new_status-initial e v.0 pre (packed_all es) sensors i here size,
  new_screen-initial es (pre ++ packed e) sensors (i + 1) v.1
      (here ∙ sym (append_assoc pre (packed e) (packed_all es)))
      (omega (arith, length-append pre (packed e), length-packed e v.0)),
)
