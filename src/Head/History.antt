-- ===== src/Head/History.antt =====
-- The head from its start on: it registers and is shown events, in whatever order, and prints its table.
use shp.Base.{
  ℕ, suc, ◌*◌, ◌<◌, ◌≡◌, ◌⊎◌, inl, inr, ◌==◌, true, refl, sym, ap, ◌∙◌, subst, Bool, some, List, [],
  ◌∷◌, length, done, arith,
}
use shp.Memory.{Memory, IsU32, u32_mod, cells, le32, le64}
use shp.Message.{Message, FieldId, field_code}
use shp.Message.Fields.{Field, Represents}
use shp.Message.Get.{AreFields, value_of}
use shp.Configuration.{Config, SensorStatus, head_configuration}
use shp.Configuration.Screen.{Entry, AreEntries}
use shp.Configuration.Reading.{Describes, configured, head_configuration_lem}
use shp.Sensor.{event_value}
use shp.Head.{Tm, show_message_event}
use shp.Head.Screen.{show_screen}
use shp.Head.Showing.{
  IsScreen, shown_text, strlen-shown_text, length-shown_text, show_message_event-Shows,
  show_message_event_none,
}
use shp.Head.Table.{
  Seen, Stands, IsTable, printed, registered, notice, length-notice, initial-Stands, Shows-Stands,
  show_screen-printed,
}
use shp.Transfer.Through.{done_injective}

-- A message that carries a client's settings, with any number of sensors and the time.
pub record Registers (m : Message) (c : Config) (now client_id : ℕ) (name : Memory)
    (es : List Entry) : Type 0 where
  pub fields : List Field
  pub name_length : ℕ
  pub represents : Represents m fields
  pub describes : Describes fields client_id name_length name es c
  pub early : now < u32_mod * u32_mod
  pub timed : value_of (field_code FieldId.message_time) fields ≡ some (cells (le64 now))

-- A message that carries an event's time, its pin and one of the two texts.
pub record Reports (m : Message) (alarm : Bool) (gpio t : ℕ) : Type 0 where
  pub fields : List Field
  pub represents : Represents m fields
  pub valid : AreFields fields
  pub data_there : value_of (field_code FieldId.sensor_data) fields ≡ some (event_value alarm)
  pub time_there : value_of (field_code FieldId.message_time) fields ≡ some (cells (le64 t))
  pub pin_there : value_of (field_code FieldId.sensor_gpio) fields ≡ some (cells (le32 gpio))
  pub pin_word : IsU32 gpio
  pub early : t < u32_mod * u32_mod

module _ (localtime : ℕ → Tm) where
  -- What happens to the head, and what is then to be seen: it takes a configuration, or is shown an event.
  pub data Step (c : Config) (seen : List Seen) : Config → List Seen → Type 0 where
    registers :
        {m : Message} {now client_id : ℕ} {name : Memory} {es : List Entry} {c' : Config}
        → Registers m c now client_id name es
        → head_configuration m c ≡ done c'
        → Step c seen c' (registered es)
    shows :
        {m : Message} {alarm : Bool} {gpio t : ℕ} {c' : Config}
        → (now : ℕ → ℕ) → Reports m alarm gpio t
        → show_message_event localtime now m c ≡ done c'
        → Step c seen c' (notice gpio (shown_text alarm (localtime t)) now 0 seen)

  -- Any number of steps, the last one outermost.
  pub data Runs (c : Config) (seen : List Seen) : Config → List Seen → Type 0 where
    start : Runs c seen c seen
    next :
        {c1 c2 : Config} {seen1 seen2 : List Seen}
        → Runs c seen c1 seen1
        → Step c1 seen1 c2 seen2
        → Runs c seen c2 seen2

  -- The head counts no sensors, and shows none, whatever its array still holds.
  abbrev ShowsNone : Config → List Seen → Type 0
  ShowsNone c seen = (c.sensors_count ≡ 0) × (seen ≡ [])

  -- What a head is in, from its start on.
  abbrev IsShown : Config → List Seen → Type 0
  IsShown c seen = IsTable c seen ⊎ ShowsNone c seen

  length-registered : (es : List Entry) → length (registered es) ≡ length es
  length-registered [] = refl
  length-registered (e ∷ es) = ap suc (length-registered es)

  configured-IsShown :
      (t client_id : ℕ) (name : Memory) (es : List Entry) (c : Config)
      → AreEntries es
      → IsShown (configured t client_id name es c) (registered es)
  configured-IsShown t client_id name [] c v = inr (refl, refl)
  configured-IsShown t client_id name (e ∷ es) c v =
      inl (record {
        stands = initial-Stands (e ∷ es) v;
        counted = omega (arith, length-registered es);
      })

  Stands-IsScreen :
      (screen : List SensorStatus) (seen : List Seen) → Stands screen seen → IsScreen screen
  Stands-IsScreen [] seen v = tt
  Stands-IsScreen (s ∷ screen) [] v = absurd v
  Stands-IsScreen (s ∷ screen) (x ∷ seen) (one, v) = (one.0.size, Stands-IsScreen screen seen v)

  length-Stands :
      (screen : List SensorStatus) (seen : List Seen)
      → Stands screen seen
      → length seen ≡ length screen
  length-Stands [] [] v = refl
  length-Stands [] (x ∷ seen) v = absurd v
  length-Stands (s ∷ screen) [] v = absurd v
  length-Stands (s ∷ screen) (x ∷ seen) (one, v) = omega (arith, length-Stands screen seen v)

  -- On a table the event is shown, and the table stands for what is then to be seen.
  pub Reports-IsTable :
      (m : Message) (alarm : Bool) (gpio t : ℕ) (now : ℕ → ℕ) (c : Config) (seen : List Seen)
      → Reports m alarm gpio t
      → IsTable c seen
      → (c' : Config) × (show_message_event localtime now m c ≡ done c')
        × IsTable c' (notice gpio (shown_text alarm (localtime t)) now 0 seen)
  Reports-IsTable m alarm gpio t now c seen r table =
      let counted : c.sensors_count ≡ length c.screen =
        table.counted ∙ length-Stands c.screen seen table.stands in
      let (screen', runs, which) =
        show_message_event-Shows localtime now m r.fields c alarm gpio t r.represents r.valid
          r.data_there r.time_there r.pin_there r.pin_word r.early counted
          (Stands-IsScreen c.screen seen table.stands) in
      (
        record c { screen = screen' },
        runs,
        record {
          stands =
              Shows-Stands gpio (shown_text alarm (localtime t)) 19
                (strlen-shown_text alarm (localtime t)) (length-shown_text alarm (localtime t))
                (omega (arith, length-shown_text alarm (localtime t))) now 0 c.screen screen' seen
                which table.stands;
          counted =
              table.counted ∙ sym (length-notice gpio (shown_text alarm (localtime t)) now 0 seen);
        },
      )

  -- Without sensors to go through, an event changes nothing.
  shows_none :
      (m : Message) (alarm : Bool) (gpio t : ℕ) (now : ℕ → ℕ) (c : Config)
      → Reports m alarm gpio t
      → c.sensors_count ≡ 0
      → show_message_event localtime now m c ≡ done c
  shows_none m alarm gpio t now c r none_counted =
      show_message_event_none localtime now m r.fields c alarm gpio t r.represents r.valid
        r.data_there r.time_there r.pin_there r.pin_word r.early none_counted

  -- The configuration is taken, and what is shown are the sensors that were registered.
  pub Registers-IsShown :
      (m : Message) (c : Config) (now client_id : ℕ) (name : Memory) (es : List Entry)
      → Registers m c now client_id name es
      → (c' : Config) × (head_configuration m c ≡ done c') × IsShown c' (registered es)
  Registers-IsShown m c now client_id name es r = (
    configured now client_id name es c,
    head_configuration_lem m r.fields client_id r.name_length name c r.represents es now r.describes
        r.early r.timed,
    configured-IsShown now client_id name es c r.describes.entries,
  )

  Reports-IsShown :
      (m : Message) (alarm : Bool) (gpio t : ℕ) (now : ℕ → ℕ) (c : Config) (seen : List Seen)
      → Reports m alarm gpio t
      → IsShown c seen
      → (c' : Config) × (show_message_event localtime now m c ≡ done c')
        × IsShown c' (notice gpio (shown_text alarm (localtime t)) now 0 seen)
  Reports-IsShown m alarm gpio t now c seen r (inl table) =
      let (c', runs, table') = Reports-IsTable m alarm gpio t now c seen r table in
      (c', runs, inl table')
  Reports-IsShown m alarm gpio t now c seen r (inr (none_counted, empty)) = (
    c,
    shows_none m alarm gpio t now c r none_counted,
    inr (none_counted, ap (notice gpio (shown_text alarm (localtime t)) now 0) empty),
  )

  Step-IsShown :
      (c c' : Config) (seen seen' : List Seen)
      → IsShown c seen
      → Step c seen c' seen'
      → IsShown c' seen'
  Step-IsShown c c' seen _ t (registers {m} {now} {client_id} {name} {es} r takes) =
      let (c1, takes', shown) = Registers-IsShown m c now client_id name es r in
      subst (λ x. IsShown x (registered es)) (done_injective c1 c' (sym takes' ∙ takes)) shown
  Step-IsShown c c' seen _ before (shows {m} {alarm} {gpio} {t} now r runs) =
      let (c1, runs', shown) = Reports-IsShown m alarm gpio t now c seen r before in
      subst (λ x. IsShown x (notice gpio (shown_text alarm (localtime t)) now 0 seen))
        (done_injective c1 c' (sym runs' ∙ runs)) shown

  Runs-IsShown :
      (c : Config) (seen : List Seen) (c' : Config) (seen' : List Seen)
      → IsShown c seen
      → Runs c seen c' seen'
      → IsShown c' seen'
  Runs-IsShown c seen _ _ t start = t
  Runs-IsShown c seen c' seen' t (next {c1} {seen1} runs step) =
      Step-IsShown c1 c' seen1 seen' (Runs-IsShown c seen c1 seen1 t runs) step

  IsShown-printed :
      (now : ℕ) (c : Config) (seen : List Seen)
      → IsShown c seen
      → show_screen now c ≡ done (printed now seen)
  unfolding show_screen
  IsShown-printed now c seen (inl table) = show_screen-printed now c seen table
  IsShown-printed now c seen (inr (none_counted, empty)) =
      let z : (c.sensors_count == 0) ≡ true = ground (arith, none_counted) in rw (z, empty)

  -- Whatever registrations and events a head has gone through since it started and counted no
  -- sensors, in whatever order, the messages with the fields that the client, the proxy and the sensors
  -- give them: it prints without undefined behaviour, for each sensor that was registered last, its name,
  -- the text of the last event on its pin since then, and the time since it was shown. After a
  -- registration without sensors it prints nothing.
  pub Runs-show_screen :
      (c c' : Config) (seen : List Seen) (now : ℕ)
      → c.sensors_count ≡ 0
      → Runs c [] c' seen
      → show_screen now c' ≡ done (printed now seen)
  Runs-show_screen c c' seen now none_counted runs =
      IsShown-printed now c' seen (Runs-IsShown c [] c' seen (inr (none_counted, refl)) runs)
