-- ===== src/Head/Table.antt =====
-- The head's table of sensors from the registration on: as many entries as are counted, each with a
-- name and a text that can be printed.
use shp.Base.{
  ℕ, suc, ◌+◌, ◌-◌, ◌%◌, ◌≤◌, ◌≡◌, inl, inr, refl, sym, ap, ◌∙◌, subst, true, false, none, some,
  List, [], ◌∷◌, ◌++◌, ◌==◌, map, length, take, take_all, drop, replicate, done, arith,
  length-append, length-drop, length-take, if◌then◌else◌,
}
use shp.Memory.{Memory, u32_mod, strlen}
use shp.Configuration.{Config, SensorStatus, string_at}
use shp.Configuration.Pointers.{string_at_behind, strlen-take}
use shp.Configuration.Screen.{Entry, IsEntry, AreEntries, initial}
use shp.Head.Screen.{Printed, heading, row, cursor_up, elapsed, show_row, show_rows, show_screen}
use shp.Head.Showing.{Shows, ShowsOne}

-- A name and a text that start a sensor's two arrays.
pub record IsPrintable (s : SensorStatus) (name text : Memory) : Type 0 where
  pub name_length : ℕ
  pub text_length : ℕ
  pub name_behind : Memory
  pub text_behind : Memory
  pub named : s.name ≡ name ++ name_behind
  pub held : s.buffer ≡ text ++ text_behind
  pub name_ended : strlen name ≡ some name_length
  pub text_ended : strlen text ≡ some text_length
  pub name_whole : length name ≡ name_length + 1
  pub text_whole : length text ≡ text_length + 1
  pub size : length s.buffer ≡ 64

-- What is known of each sensor of a table: its pin, its name and text, and when it was shown.
pub record Seen : Type 0 where
  pub gpio : ℕ
  pub name : Memory
  pub text : Memory
  pub last : ℕ

abbrev pub StandsOne : SensorStatus → Seen → Type 0
StandsOne s v = IsPrintable s v.name v.text × (v.gpio ≡ s.gpio) × (v.last ≡ s.last_message)

abbrev pub Stands : List SensorStatus → List Seen → Type 0
Stands [] [] = Unit {0}
Stands [] (v ∷ seen) = ⊥
Stands (s ∷ screen) [] = ⊥
Stands (s ∷ screen) (v ∷ seen) = StandsOne s v × Stands screen seen

-- A table that stands for what is seen.
pub record IsTable (c : Config) (seen : List Seen) : Type 0 where
  pub stands : Stands c.screen seen
  pub counted : c.sensors_count ≡ length seen

-- What is printed of it.
abbrev pub rows_of : ℕ → List Seen → List Printed
rows_of now = map (λ v. row v.name v.text (elapsed now v.last))

abbrev pub printed : ℕ → List Seen → List Printed
printed now [] = []
printed now (v ∷ seen) =
    heading ∷ (rows_of now (v ∷ seen) ++ replicate ((length (v ∷ seen) + 1) % u32_mod) cursor_up)

text_at_start :
    (array text behind : Memory) (n : ℕ)
    → array ≡ text ++ behind
    → strlen text ≡ some n
    → length text ≡ n + 1
    → string_at array 0 ≡ some text
text_at_start array text behind n e ended whole =
    string_at_behind array 0 text behind n e ended (omega arith)
    ∙ ap some (take_all text (n + 1) (omega arith))

show_row-printed :
    (now : ℕ) (s : SensorStatus) (name text : Memory)
    → IsPrintable s name text
    → show_row now s ≡ done (row name text (elapsed now s.last_message))
unfolding show_row
show_row-printed now s name text v = rw (
  text_at_start s.name name v.name_behind v.name_length v.named v.name_ended v.name_whole,
  text_at_start s.buffer text v.text_behind v.text_length v.held v.text_ended v.text_whole,
)

show_rows-rows_of :
    (now : ℕ) (screen : List SensorStatus) (seen : List Seen)
    → Stands screen seen
    → show_rows now (length seen) screen ≡ done (rows_of now seen)
unfolding show_rows
show_rows-rows_of now [] [] v = refl
show_rows-rows_of now [] (x ∷ seen) v = absurd v
show_rows-rows_of now (s ∷ screen) [] v = absurd v
show_rows-rows_of now (s ∷ screen) (x ∷ seen) ((printable, same_pin, same_time), v) = rw (
  show_row-printed now s x.name x.text printable,
  show_rows-rows_of now screen seen v,
  ← same_time,
)

-- A table is printed without undefined behaviour: a line with the sensor's name, its text and the time
-- since its last event for each sensor, in their order, and nothing where there is none.
pub show_screen-printed :
    (now : ℕ) (c : Config) (seen : List Seen)
    → IsTable c seen
    → show_screen now c ≡ done (printed now seen)
unfolding show_screen
show_screen-printed now c [] t =
    let z : (c.sensors_count == 0) ≡ true = ground (arith, t.counted) in rw z
show_screen-printed now c (x ∷ seen) t =
    let nz : (c.sensors_count == 0) ≡ false = ground (arith, t.counted) in
    rw (nz, t.counted, show_rows-rows_of now c.screen (x ∷ seen) t.stands)

-- The same text behind a sensor's terminator: none was shown yet.
abbrev pub no_text : Memory
no_text = some 0 ∷ []

-- What is seen of sensors that have just been registered.
abbrev pub registered : List Entry → List Seen
registered = map (λ e. record {
  gpio = e.gpio;
  name = take (e.name_length + 1) e.name;
  text = no_text;
  last = 0;
})

initial-IsPrintable :
    (e : Entry) → IsEntry e → IsPrintable (initial e) (take (e.name_length + 1) e.name) no_text
unfolding strlen
initial-IsPrintable e v = record {
  name_length = e.name_length;
  text_length = 0;
  name_behind = replicate (33 - (e.name_length + 1)) none;
  text_behind = replicate 63 (some 0);
  named = refl;
  held = refl;
  name_ended = strlen-take e.name e.name_length v.terminated;
  text_ended = refl;
  name_whole = omega (arith, length-take (e.name_length + 1) e.name, v.name_size, v.fits);
  text_whole = refl;
  size = refl;
}

pub initial-Stands : (es : List Entry) → AreEntries es → Stands (map initial es) (registered es)
initial-Stands [] v = tt
initial-Stands (e ∷ es) (v, vs) = ((initial-IsPrintable e v, refl, refl), initial-Stands es vs)

-- An event changes what is seen of the sensors on its pin.
abbrev pub noticed : ℕ → Memory → ℕ → Seen → Seen
noticed gpio text t v = if gpio == v.gpio then record v { text = text; last = t } else v

abbrev pub notice : ℕ → Memory → (ℕ → ℕ) → ℕ → List Seen → List Seen
notice gpio text now i [] = []
notice gpio text now i (v ∷ seen) = noticed gpio text (now i) v ∷ notice gpio text now (i + 1) seen

pub length-notice :
    (gpio : ℕ) (text : Memory) (now : ℕ → ℕ) (i : ℕ) (seen : List Seen)
    → length (notice gpio text now i seen) ≡ length seen
length-notice gpio text now i [] = refl
length-notice gpio text now i (v ∷ seen) = ap suc (length-notice gpio text now (i + 1) seen)

-- The text of an event, and what becomes of the table.
module _ (gpio : ℕ) (text : Memory) (n : ℕ) (ended : strlen text ≡ some n)
    (whole : length text ≡ n + 1) (fits : length text ≤ 64) (now : ℕ → ℕ) where
  shown-IsPrintable :
      (s : SensorStatus) (name old : Memory) (t : ℕ)
      → IsPrintable s name old
      → IsPrintable
          (record s { buffer = text ++ drop (length text) s.buffer; last_message = t })
          name
          text
  shown-IsPrintable s name old t v = record {
    name_length = v.name_length;
    text_length = n;
    name_behind = v.name_behind;
    text_behind = drop (length text) s.buffer;
    named = v.named;
    held = refl;
    name_ended = v.name_ended;
    text_ended = ended;
    name_whole = v.name_whole;
    text_whole = whole;
    size = omega (
      arith,
      length-append text (drop (length text) s.buffer),
      length-drop (length text) s.buffer,
      v.size,
    );
  }

  ShowsOne-StandsOne :
      (i : ℕ) (s s' : SensorStatus) (v : Seen)
      → ShowsOne gpio text (now i) s s'
      → StandsOne s v
      → StandsOne s' (noticed gpio text (now i) v)
  ShowsOne-StandsOne i s s' v shows (printable, same_pin, same_time) = elim shows [
    | inl (other, same) ↦
        let no : (gpio == v.gpio) ≡ false = ground arith in
        rw no (subst (λ x. StandsOne x v) (sym same) (printable, same_pin, same_time))
    | inr (this, changed) ↦
        let hit : (gpio == v.gpio) ≡ true = ground arith in
        rw hit (
          subst (λ x. StandsOne x (record v { text = text; last = now i })) (sym changed)
            (shown-IsPrintable s v.name v.text (now i) printable, same_pin, refl))
  ]

  pub Shows-Stands :
      (i : ℕ) (screen screen' : List SensorStatus) (seen : List Seen)
      → Shows gpio text now i screen screen'
      → Stands screen seen
      → Stands screen' (notice gpio text now i seen)
  Shows-Stands i [] [] [] shows v = tt
  Shows-Stands i [] (s' ∷ screen') seen shows v = absurd shows
  Shows-Stands i (s ∷ screen) [] seen shows v = absurd shows
  Shows-Stands i (s ∷ screen) (s' ∷ screen') [] shows v = absurd v
  Shows-Stands i [] [] (x ∷ seen) shows v = absurd v
  Shows-Stands i (s ∷ screen) (s' ∷ screen') (x ∷ seen) (one, shows) (stands, v) =
      (ShowsOne-StandsOne i s s' x one stands, Shows-Stands (i + 1) screen screen' seen shows v)
