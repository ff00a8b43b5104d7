-- ===== src/Head.antt =====
-- src/head_main.cpp: the head shows the events that it receives. `localtime` is a parameter.
pub mod Showing
pub mod Screen
pub mod Table
pub mod History
pub mod Thread
pub mod Serving
mod Tests
mod HistoryTests
use shp.Base.{
  ℕ, zero, suc, ◌+◌, ◌/◌, ◌%◌, Bool, true, false, Option, none, some, List, [], ◌∷◌, ◌++◌, ◌==◌,
  if◌then◌else◌, replicate, drop, Exec, done, fault, or_fault, ◌>>=◌,
}
use shp.Memory.{Memory, cells, write_at}
use shp.Message.{Message, FieldId, block}
use shp.Configuration.{Config, SensorStatus, look, load_num, load_time, string_at}

-- The fields of a `struct tm` that are printed.
pub record Tm : Type 0 where
  pub hour : ℕ
  pub min : ℕ
  pub sec : ℕ

-- `%.2i` of a number below 100.
abbrev pub two_digits : ℕ → List ℕ
two_digits n = (48 + n / 10) ∷ (48 + n % 10) ∷ []

-- `%-10s` of "alarm" or of the empty text.
abbrev pub event_word : Bool → List ℕ
event_word true = b'a' ∷ b'l' ∷ b'a' ∷ b'r' ∷ b'm' ∷ 32 ∷ 32 ∷ 32 ∷ 32 ∷ 32 ∷ []
event_word false = 32 ∷ 32 ∷ 32 ∷ 32 ∷ 32 ∷ 32 ∷ 32 ∷ 32 ∷ 32 ∷ 32 ∷ []

-- What `sprintf` writes to `p_buffer`, without the terminator.
abbrev pub event_text : Bool → Tm → List ℕ
event_text alarm tm =
    event_word alarm
    ++ (32 ∷ (two_digits tm.hour ++ (b':' ∷ (two_digits tm.min ++ (b':' ∷ two_digits tm.sec)))))

-- `!strcmp (p_event, "1")`; undefined where the comparison runs into the end of the block.
unfoldable pub is_one : Memory → Option Bool
is_one [] = none
is_one (none ∷ m) = none
is_one (some c ∷ []) = if c == b'1' then none else some false
is_one (some c ∷ none ∷ m) = if c == b'1' then none else some false
is_one (some c ∷ some d ∷ m) = if c == b'1' then some (d == 0) else some false

-- One round of the loop over `p_screen`; `now` is what `time (NULL)` returns.
unfoldable pub show_one : ℕ → Memory → ℕ → SensorStatus → Exec SensorStatus
unfolding string_at write_at
show_one gpio p_buffer now s =
    let shown = do
      text ← or_fault (string_at p_buffer 0)
      buffer ← or_fault (write_at s.buffer 0 text)
      done (record s { buffer = buffer; last_message = now })
    in if gpio == s.gpio then shown else done s

-- The rounds that are left, from a number on; undefined past the end of the array.
unfoldable pub show_rounds :
    ℕ → Memory → (ℕ → ℕ) → ℕ → ℕ → List SensorStatus → Exec (List SensorStatus)
unfolding show_one
show_rounds gpio p_buffer now zero i screen = done screen
show_rounds gpio p_buffer now (suc left) i [] = fault
show_rounds gpio p_buffer now (suc left) i (s ∷ screen) = do
  s' ← show_one gpio p_buffer (now i) s
  rest ← show_rounds gpio p_buffer now left (i + 1) screen
  done (s' ∷ rest)

module _ (localtime : ℕ → Tm) where
  -- `now` is what `time (NULL)` returns in each round.
  unfoldable pub show_message_event : (ℕ → ℕ) → Message → Config → Exec Config
  unfolding look load_num load_time show_rounds
  show_message_event now m c = do
    (size1, event) ← look FieldId.sensor_data m 0 none
    (size2, timed) ← look FieldId.message_time m size1 event
    event_time ← load_time m timed
    (size3, pin) ← look FieldId.sensor_gpio m size2 timed
    gpio ← load_num m pin
    alarm ← elim event [
      | none ↦ fault
      | some offset ↦ or_fault (is_one (drop offset (block m.raw_payload)))
    ]
    p_buffer ← or_fault (
        write_at (replicate 64 (some 0)) 0
          (cells (event_text alarm (localtime event_time) ++ 0 ∷ [])))
    screen ← show_rounds gpio p_buffer now c.sensors_count 0 c.screen
    done (record c { screen = screen })
