-- ===== src/Debug/Level.antt =====
-- The indentation stays within its buffer while traced functions are not nested too deep.
use shp.Base.{
  ℕ, zero, suc, ◌-◌, ◌*◌, ◌<◌, ◌≤◌, ◌≡◌, ap, pos, true, false, List, [], ◌∷◌, done, arith, ltb, leb,
}
use shp.Debug.{Log, Event, message, begin_trace, end_trace, debug_log_print, log_event, log_run}

-- Events from a depth of traced functions to another, of which none is logged deeper than ten.
abbrev pub Nested : ℕ → List Event → ℕ → Type 0
Nested depth [] last = depth ≡ last
Nested depth (message ∷ es) last = (depth ≤ 10) × Nested depth es last
Nested depth (begin_trace ∷ es) last = (depth ≤ 10) × Nested (suc depth) es last
Nested zero (end_trace ∷ es) last = ⊥
Nested (suc depth) (end_trace ∷ es) last = (depth ≤ 10) × Nested depth es last

abbrev pub AreWithin : List ℕ → Type 0
AreWithin [] = Unit {0}
AreWithin (start ∷ starts) = (start < 41) × AreWithin starts

abbrev pub at_level : ℕ → Log
at_level depth = record { debug_level = pos depth; is_initialized = true }

print_at_level :
    (depth : ℕ)
    → depth ≤ 10
    → debug_log_print (at_level depth) ≡ done (at_level depth, 40 - depth * 4)
unfolding debug_log_print
print_at_level depth h =
    let shallow : ltb 10 depth ≡ false = ground arith in
    let fits : leb (depth * 4) 40 ≡ true = ground arith in rw (shallow, fits)

-- While no line is logged at a depth of more than ten, the level follows the depth of the traced
-- functions, and every indentation starts inside the buffer of 41 bytes.
pub log_run-Nested :
    (es : List Event) (depth last : ℕ)
    → Nested depth es last
    → (starts : List ℕ) × (log_run es (at_level depth) ≡ done (at_level last, starts))
      × AreWithin starts
unfolding log_run log_event
log_run-Nested [] depth last n = ([], ap (λ d. done (at_level d, [])) n, tt)
log_run-Nested (message ∷ es) depth last n =
    let (starts, runs, within) = log_run-Nested es depth last n.1 in
    ((40 - depth * 4) ∷ starts, rw (print_at_level depth n.0, runs), (omega arith, within))
log_run-Nested (begin_trace ∷ es) depth last n =
    let (starts, runs, within) = log_run-Nested es (suc depth) last n.1 in
    ((40 - depth * 4) ∷ starts, rw (print_at_level depth n.0, runs), (omega arith, within))
log_run-Nested (end_trace ∷ es) zero last n = absurd n
log_run-Nested (end_trace ∷ es) (suc depth) last n =
    let (starts, runs, within) = log_run-Nested es depth last n.1 in
    ((40 - depth * 4) ∷ starts, rw (print_at_level depth n.0, runs), (omega arith, within))
