-- ===== src/Head/Showing.antt =====
-- What an event changes on the head's table of sensors.
use shp.Base.{
  ℕ, zero, suc, ◌+◌, ◌*◌, ◌<◌, ◌≤◌, ◌≡◌, ◌≢◌, ◌⊎◌, inl, inr, refl, ap, ◌∙◌, Bool, true, false,
  Bool-cases, ==_iff, ◌==◌, none, some, List, [], ◌∷◌, ◌++◌, length, drop, replicate, done, arith,
  length-replicate, take_all,
}
use shp.Memory.{Memory, Cell, IsU32, u32_mod, cells, le32, le64, strlen}
use shp.Memory.Copy.{write_at-append}
use shp.Message.{Message, FieldId, field_code, block}
use shp.Message.Fields.{Field, Represents}
use shp.Message.Get.{AreFields, value_of}
use shp.Configuration.{Config, SensorStatus, string_at}
use shp.Configuration.Pointers.{look-PointsTo, load_num-le32, load_time-le64, string_at_behind}
use shp.Sensor.{event_value}
use shp.Head.{Tm, event_text, is_one, show_one, show_rounds, show_message_event}

-- What is printed, with its terminator.
abbrev pub shown_text : Bool → Tm → Memory
shown_text alarm tm = cells (event_text alarm tm ++ 0 ∷ [])

-- A sensor on another pin keeps its state; one on this pin gets the text and the time.
abbrev pub ShowsOne : ℕ → Memory → ℕ → SensorStatus → SensorStatus → Type 0
ShowsOne gpio text now s s' =
    (gpio ≢ s.gpio × s' ≡ s)
    ⊎ (gpio ≡ s.gpio
        × s' ≡ record s { buffer = text ++ drop (length text) s.buffer; last_message = now })

abbrev pub Shows : ℕ → Memory → (ℕ → ℕ) → ℕ → List SensorStatus → List SensorStatus → Type 0
Shows gpio text now i [] [] = Unit {0}
Shows gpio text now i [] (s' ∷ screen') = ⊥
Shows gpio text now i (s ∷ screen) [] = ⊥
Shows gpio text now i (s ∷ screen) (s' ∷ screen') =
    ShowsOne gpio text (now i) s s' × Shows gpio text now (i + 1) screen screen'

-- The buffers have their 64 bytes.
abbrev pub IsScreen : List SensorStatus → Type 0
IsScreen [] = Unit {0}
IsScreen (s ∷ screen) = (length s.buffer ≡ 64) × IsScreen screen

NonZero : List ℕ → Type 0
NonZero [] = Unit {0}
NonZero (x ∷ xs) = (0 < x) × NonZero xs

strlen-cells : (xs : List ℕ) → NonZero xs → strlen (cells (xs ++ 0 ∷ [])) ≡ some (length xs)
unfolding strlen NonZero
strlen-cells [] v = refl
strlen-cells (zero ∷ xs) v = absurd (omega (arith, v.0))
strlen-cells (suc c ∷ xs) v = rw (strlen-cells xs v.1) (ap some (omega arith))

event_text-NonZero : (alarm : Bool) (tm : Tm) → NonZero (event_text alarm tm)
unfolding NonZero
event_text-NonZero true tm = ground arith
event_text-NonZero false tm = ground arith

length-event_text : (alarm : Bool) (tm : Tm) → length (event_text alarm tm) ≡ 19
length-event_text true tm = refl
length-event_text false tm = refl

pub length-shown_text : (alarm : Bool) (tm : Tm) → length (shown_text alarm tm) ≡ 20
length-shown_text true tm = refl
length-shown_text false tm = refl

pub strlen-shown_text : (alarm : Bool) (tm : Tm) → strlen (shown_text alarm tm) ≡ some 19
strlen-shown_text alarm tm =
    strlen-cells (event_text alarm tm) (event_text-NonZero alarm tm)
    ∙ ap some (length-event_text alarm tm)

p_buffer_text :
    (alarm : Bool) (tm : Tm) (rest : Memory)
    → string_at (shown_text alarm tm ++ rest) 0 ≡ some (shown_text alarm tm)
p_buffer_text alarm tm rest =
    string_at_behind (shown_text alarm tm ++ rest) 0 (shown_text alarm tm) rest 19 refl
      (strlen-shown_text alarm tm) (omega (arith, length-shown_text alarm tm))
    ∙ ap some (take_all (shown_text alarm tm) 20 (omega (arith, length-shown_text alarm tm)))

module _ (gpio : ℕ) (p_buffer text : Memory) (held : string_at p_buffer 0 ≡ some text)
    (fits : length text ≤ 64) (now : ℕ → ℕ) where
  show_one-ShowsOne :
      (t : ℕ) (s : SensorStatus)
      → length s.buffer ≡ 64
      → (s' : SensorStatus) × (show_one gpio p_buffer t s ≡ done s') × ShowsOne gpio text t s s'
  unfolding show_one
  show_one-ShowsOne t s size = elim (Bool-cases (gpio == s.gpio)) [
    | inl same ↦ (
      record s { buffer = text ++ drop (length text) s.buffer; last_message = t },
      rw (same, held, write_at-append [] text s.buffer 0 refl (omega arith)),
      inr ((==_iff gpio s.gpio).0 same, refl),
    )
    | inr other ↦ (s, rw other, inl (ne_of_== gpio s.gpio other, refl))
  ]
    where
      ne_of_== : (m n : ℕ) → (m == n) ≡ false → m ≢ n
      ne_of_== m n h e = ground arith

  show_rounds-Shows :
      (screen : List SensorStatus) (i : ℕ)
      → IsScreen screen
      → (screen' : List SensorStatus) × (show_rounds gpio p_buffer now (length screen) i screen
          ≡ done screen')
        × Shows gpio text now i screen screen'
  unfolding show_rounds
  show_rounds-Shows [] i v = ([], refl, tt)
  show_rounds-Shows (s ∷ screen) i v =
      let (s', one, shows_one) = show_one-ShowsOne (now i) s v.0 in
      let (screen', rounds, shows) = show_rounds-Shows screen (i + 1) v.1 in
      (s' ∷ screen', rw (one, rounds), (shows_one, shows))

is_one-event_value :
    (alarm : Bool) (rest : Memory) → is_one (event_value alarm ++ rest) ≡ some alarm
unfolding is_one
is_one-event_value true rest = refl
is_one-event_value false rest = refl

-- What the message gives for the rounds over the table, of whatever length.
show_message_event_rounds :
    (localtime : ℕ → Tm) (now : ℕ → ℕ) (m : Message) (fs : List Field) (c : Config) (alarm : Bool)
    (gpio t : ℕ) (screen' : List SensorStatus)
    → Represents m fs
    → AreFields fs
    → value_of (field_code FieldId.sensor_data) fs ≡ some (event_value alarm)
    → value_of (field_code FieldId.message_time) fs ≡ some (cells (le64 t))
    → value_of (field_code FieldId.sensor_gpio) fs ≡ some (cells (le32 gpio))
    → IsU32 gpio
    → t < u32_mod * u32_mod
    → show_rounds gpio
        (shown_text alarm (localtime t)
          ++ drop (length (shown_text alarm (localtime t))) (replicate 64 (some 0)))
        now
        c.sensors_count
        0
        c.screen
      ≡ done screen'
    → show_message_event localtime now m c ≡ done (record c { screen = screen' })
unfolding show_message_event
show_message_event_rounds localtime now m fs c alarm gpio t screen' r wf data_there time_there
      pin_there word early rounds =
    let tm = localtime t in
    let (o1, e1, p1) =
      look-PointsTo m fs FieldId.sensor_data 0 none (event_value alarm) r wf data_there in
    let (o2, e2, p2) =
      look-PointsTo m fs FieldId.message_time (length (event_value alarm)) (some o1)
        (cells (le64 t)) r wf time_there in
    let (o3, e3, p3) =
      look-PointsTo m fs FieldId.sensor_gpio (length (cells (le64 t))) (some o2) (cells (le32 gpio))
        r wf pin_there in
    let word_read : is_one (drop o1 (block m.raw_payload)) ≡ some alarm =
      ap is_one p1.behind ∙ is_one-event_value alarm p1.after in
    let written =
      write_at-append [] (shown_text alarm tm) (replicate 64 (some 0)) 0 refl
        (omega (arith, length-shown_text alarm tm, length-replicate {0} {A = Cell} 64 (some 0))) in
    rw (
      e1,
      e2,
      load_time-le64 m o2 t early p2,
      e3,
      load_num-le32 m o3 gpio word p3,
      word_read,
      written,
      rounds,
    )

-- A head that counts no sensors looks at none.
pub show_message_event_none :
    (localtime : ℕ → Tm) (now : ℕ → ℕ) (m : Message) (fs : List Field) (c : Config) (alarm : Bool)
    (gpio t : ℕ)
    → Represents m fs
    → AreFields fs
    → value_of (field_code FieldId.sensor_data) fs ≡ some (event_value alarm)
    → value_of (field_code FieldId.message_time) fs ≡ some (cells (le64 t))
    → value_of (field_code FieldId.sensor_gpio) fs ≡ some (cells (le32 gpio))
    → IsU32 gpio
    → t < u32_mod * u32_mod
    → c.sensors_count ≡ 0
    → show_message_event localtime now m c ≡ done c
unfolding show_rounds
show_message_event_none localtime now m fs c alarm gpio t r wf data_there time_there pin_there word
      early none_counted =
    show_message_event_rounds localtime now m fs c alarm gpio t c.screen r wf data_there time_there
      pin_there word early (rw none_counted)

-- On a message with the time, the pin and one of the two texts, and a table of as many sensors as the
-- configuration counts, with buffers of 64 bytes: the event is shown without undefined behaviour. The
-- sensors on that pin get the text with the word for an alarm or without, and the time of day, which
-- fits into the buffer, and the time at which they are shown; all others keep their state.
pub show_message_event-Shows :
    (localtime : ℕ → Tm) (now : ℕ → ℕ) (m : Message) (fs : List Field) (c : Config) (alarm : Bool)
    (gpio t : ℕ)
    → Represents m fs
    → AreFields fs
    → value_of (field_code FieldId.sensor_data) fs ≡ some (event_value alarm)
    → value_of (field_code FieldId.message_time) fs ≡ some (cells (le64 t))
    → value_of (field_code FieldId.sensor_gpio) fs ≡ some (cells (le32 gpio))
    → IsU32 gpio
    → t < u32_mod * u32_mod
    → c.sensors_count ≡ length c.screen
    → IsScreen c.screen
    → (screen' : List SensorStatus) × (show_message_event localtime now m c
        ≡ done (record c { screen = screen' }))
      × Shows gpio (shown_text alarm (localtime t)) now 0 c.screen screen'
show_message_event-Shows localtime now m fs c alarm gpio t r wf data_there time_there pin_there word
      early counted v =
    let tm = localtime t in
    let (screen', rounds, shows) =
      show_rounds-Shows gpio
        (shown_text alarm tm ++ drop (length (shown_text alarm tm)) (replicate 64 (some 0)))
        (shown_text alarm tm) (p_buffer_text alarm tm _) (omega (arith, length-shown_text alarm tm))
        now c.screen 0 v in
    (
      screen',
      show_message_event_rounds localtime now m fs c alarm gpio t screen' r wf data_there time_there
          pin_there word early (rw (counted, rounds)),
      shows,
    )
