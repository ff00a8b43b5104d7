-- ===== src/Sensor/Building.antt =====
-- The message of an event.
use shp.Base.{
  ℕ, ◌+◌, ◌<◌, ◌≡◌, refl, sym, subst, ◌∙◌, Bool, true, false, some, List, [], ◌∷◌, ◌++◌, length,
  done, arith, append-nil,
}
use shp.Memory.{Memory, cells, le32, le64, strlen}
use shp.ErrorCodes.{ok}
use shp.Message.{Message, MessageId, FieldId, field_code, new_message, add_string_to_message}
use shp.Message.Fields.{Field, Represents, new_message-Represents}
use shp.Message.Get.{AreFields}
use shp.Message.Build.{
  stamp, stamp_of, field_of, sizes, add_num_known, add_time_known, add_string_known,
  new_message-stamp,
}
use shp.Configuration.Pointers.{strlen-append}
use shp.Sensor.{Sensor, event_value, event_message}

-- The fields of an event.
abbrev pub event_fields : ℕ → Memory → Memory → ℕ → Bool → List Field
event_fields now type_name name gpio value =
    field_of FieldId.message_time (cells (le64 now))
    ∷ field_of FieldId.sensor_type type_name
    ∷ field_of FieldId.sensor_name name
    ∷ field_of FieldId.sensor_gpio (cells (le32 gpio))
    ∷ field_of FieldId.sensor_data (event_value value)
    ∷ []

-- A sensor of which the texts have their terminators within their arrays.
pub record IsSensor (s : Sensor) (type_name name : Memory) : Type 0 where
  pub type_extra : Memory
  pub type_length : ℕ
  pub type_same : s.type_name ≡ type_name ++ type_extra
  pub type_ended : strlen type_name ≡ some type_length
  pub type_whole : length type_name ≡ type_length + 1
  pub type_short : type_length < 16
  pub name_extra : Memory
  pub name_length : ℕ
  pub name_same : s.name ≡ name ++ name_extra
  pub name_ended : strlen name ≡ some name_length
  pub name_whole : length name ≡ name_length + 1
  pub name_short : name_length < 64
  pub pin : s.gpio_num < 256

pub event_value-ended :
    (value : Bool) → (strlen (event_value value ++ []) ≡ some 1) × (length (event_value value) ≡ 2)
unfolding strlen
event_value-ended true = (refl, refl)
event_value-ended false = (refl, refl)

-- The message of an event is made; it has the id of an event and stands for the time, the type, the
-- name, the pin and the value.
pub event_message-Represents :
    (value : Bool) (now : ℕ) (s : Sensor) (type_name name : Memory)
    → IsSensor s type_name name
    → (m : Message) × (event_message value now s ≡ done m)
      × (stamp m ≡ stamp_of MessageId.send_event)
      × Represents m (event_fields now type_name name s.gpio_num value)
unfolding event_message sizes le64 le32
event_message-Represents value now s type_name name v =
    let (m1, e1, r1, s1) =
      add_time_known (new_message MessageId.send_event) [] now
        (new_message-Represents MessageId.send_event) (omega arith) in
    let (m2, e2, r2, s2) =
      add_string_known m1 _ FieldId.sensor_type type_name v.type_extra v.type_length
        (strlen-append type_name v.type_extra v.type_length v.type_ended) v.type_whole r1
        (omega (arith, v.type_whole, v.type_short)) in
    let (m3, e3, r3, s3) =
      add_string_known m2 _ FieldId.sensor_name name v.name_extra v.name_length
        (strlen-append name v.name_extra v.name_length v.name_ended) v.name_whole r2
        (omega (arith, v.type_whole, v.type_short, v.name_whole, v.name_short)) in
    let (m4, e4, r4, s4) =
      add_num_known m3 _ FieldId.sensor_gpio s.gpio_num r3
        (omega (arith, v.type_whole, v.type_short, v.name_whole, v.name_short)) in
    let (m5, e5, r5, s5) =
      add_string_known m4 _ FieldId.sensor_data (event_value value) [] 1 (event_value-ended value).0
        (event_value-ended value).1 r4
        (omega (
          arith,
          (event_value-ended value).1,
          v.type_whole,
          v.type_short,
          v.name_whole,
          v.name_short,
        )) in
    let e2' =
      subst (λ t. add_string_to_message FieldId.sensor_type t m1 ≡ done (ok, m2)) (sym v.type_same)
        e2 in
    let e3' =
      subst (λ t. add_string_to_message FieldId.sensor_name t m2 ≡ done (ok, m3)) (sym v.name_same)
        e3 in
    let e5' =
      subst (λ t. add_string_to_message FieldId.sensor_data t m4 ≡ done (ok, m5))
        (append-nil (event_value value)) e5 in
    (
      m5,
      rw (e1, e2', e3', e4, e5'),
      s5 ∙ s4 ∙ s3 ∙ s2 ∙ s1 ∙ new_message-stamp MessageId.send_event,
      r5,
    )

pub event_fields-AreFields :
    (now : ℕ) (s : Sensor) (type_name name : Memory) (value : Bool)
    → IsSensor s type_name name
    → AreFields (event_fields now type_name name s.gpio_num value)
unfolding field_code le64 le32
event_fields-AreFields now s type_name name value v = (
  (omega arith, omega arith),
  (
    (omega arith, omega (arith, v.type_whole, v.type_short)),
    (
      (omega arith, omega (arith, v.name_whole, v.name_short)),
      ((omega arith, omega arith), ((omega arith, omega (arith, (event_value-ended value).1)), tt)),
    ),
  ),
)
