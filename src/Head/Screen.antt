-- ===== src/Head/Screen.antt =====
-- `show_screen` of src/head_main.cpp: what it prints, one call of `printf` after the other.
use shp.Base.{
  ℕ, zero, suc, ◌+◌, ◌-◌, ◌*◌, ◌%◌, ◌==◌, Option, none, some, List, [], ◌∷◌, ◌++◌, if◌then◌else◌,
  replicate, Exec, done, fault, or_fault, ◌>>=◌,
}
use shp.Memory.{Memory, u32_mod}
use shp.Configuration.{Config, SensorStatus, string_at}

-- The names of the columns; a sensor's name and text with their terminators, and the seconds since its
-- last event, or "never"; and the move of the cursor by one line.
pub data Printed : Type 0 where
  heading : Printed
  row : Memory → Memory → Option ℕ → Printed
  cursor_up : Printed

-- `now - last_message`, printed as an unsigned number of 64 bits.
abbrev pub elapsed : ℕ → ℕ → Option ℕ
elapsed now last =
    if last == 0 then none else some ((now + u32_mod * u32_mod - last) % (u32_mod * u32_mod))

-- One round of the loop over `p_screen`; undefined where a text has no terminator.
unfoldable pub show_row : ℕ → SensorStatus → Exec Printed
unfolding string_at
show_row now s = do
  name ← or_fault (string_at s.name 0)
  text ← or_fault (string_at s.buffer 0)
  done (row name text (elapsed now s.last_message))

-- The rounds that are left; undefined past the end of the array.
unfoldable pub show_rows : ℕ → ℕ → List SensorStatus → Exec (List Printed)
unfolding show_row
show_rows now zero screen = done []
show_rows now (suc left) [] = fault
show_rows now (suc left) (s ∷ screen) = do
  printed ← show_row now s
  rest ← show_rows now left screen
  done (printed ∷ rest)

-- `now` is what `time` stores.
unfoldable pub show_screen : ℕ → Config → Exec (List Printed)
unfolding show_rows
show_screen now c =
    let shown = do
      rows ← show_rows now c.sensors_count c.screen
      done (heading ∷ (rows ++ replicate ((c.sensors_count + 1) % u32_mod) cursor_up))
    in if c.sensors_count == 0 then done [] else shown
