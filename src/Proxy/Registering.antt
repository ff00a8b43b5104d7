-- ===== src/Proxy/Registering.antt =====
-- The answer to a registration.
use shp.Base.{
  ℕ, ◌+◌, ◌*◌, ◌%◌, ◌<◌, ◌≡◌, sym, ap, ap₂, ◌∙◌, subst, some, true, ltb, List, [], ◌∷◌, ◌++◌,
  length, done, arith, append-nil,
}
use shp.Memory.{Memory, u32_mod, cells, le32, le64, strlen}
use shp.ErrorCodes.{ok}
use shp.Message.{
  Message, MessageId, FieldId, new_message, block, add_string_to_message, add_field_to_message,
}
use shp.Message.Fields.{Field, Represents, new_message-Represents}
use shp.Message.Build.{
  stamp, stamp_of, field_of, sizes, add_known, add_num_known, add_time_known, add_string_known,
  new_message-stamp,
}
use shp.Configuration.{Config}
use shp.Proxy.{register_answer}

-- The fields that the proxy sends a head that registers.
abbrev pub register_fields : ℕ → ℕ → Memory → ℕ → Memory → List Field
register_fields now client_id name count sensors =
    field_of FieldId.message_time (cells (le64 now))
    ∷ field_of FieldId.config_client_id (cells (le32 client_id))
    ∷ field_of FieldId.config_name name
    ∷ field_of FieldId.config_sensor_count (cells (le32 count))
    ∷ field_of FieldId.config_sensor_data sensors
    ∷ []

sensors_added :
    (config : Config) (m m' : Message) (sensors : Memory)
    → config.sensors ≡ some sensors
    → length sensors ≡ config.sensors_count * 54
    → config.sensors_count < 1000000
    → add_field_to_message FieldId.config_sensor_data (sensors ++ []) (length sensors) m
      ≡ done (ok, m')
    → add_field_to_message FieldId.config_sensor_data
        (block config.sensors)
        (config.sensors_count * 54 % u32_mod)
        m
      ≡ done (ok, m')
sensors_added config m m' sensors held whole few e =
    let size : length sensors ≡ config.sensors_count * 54 % u32_mod = omega arith in
    ap₂ (λ memory n. add_field_to_message FieldId.config_sensor_data memory n m)
      (ap block held ∙ sym (append-nil sensors)) (sym size)
    ∙ e

-- Where the name has its terminator, there is a sensor, and the settings of the sensors are there, the
-- answer to a registration is made: it has the id of such an answer and stands for the time, the
-- client's id, its name up to the terminator, the number of sensors and their settings.
pub register_answer-Represents :
    (now : ℕ) (config : Config) (name extra : Memory) (n : ℕ) (sensors : Memory)
    → config.name ≡ name ++ extra
    → strlen config.name ≡ some n
    → length name ≡ n + 1
    → n < 33
    → config.sensors ≡ some sensors
    → length sensors ≡ config.sensors_count * 54
    → 0 < config.sensors_count
    → config.sensors_count < 1000000
    → (m : Message) × (register_answer now config ≡ done m)
      × (stamp m ≡ stamp_of MessageId.send_register_result)
      × Represents m (register_fields now config.client_id name config.sensors_count sensors)
unfolding register_answer sizes le64 le32
register_answer-Represents now config name extra n sensors named terminated size short held whole
      some_sensor few =
    let (m1, e1, r1, s1) =
      add_time_known (new_message MessageId.send_register_result) [] now
        (new_message-Represents MessageId.send_register_result) (omega arith) in
    let (m2, e2, r2, s2) =
      add_num_known m1 _ FieldId.config_client_id config.client_id r1 (omega arith) in
    let (m3, e3, r3, s3) =
      add_string_known m2 _ FieldId.config_name name extra n (ap strlen (sym named) ∙ terminated)
        size r2 (omega arith) in
    let (m4, e4, r4, s4) =
      add_num_known m3 _ FieldId.config_sensor_count config.sensors_count r3 (omega arith) in
    let (m5, e5, r5, s5) = add_known m4 _ FieldId.config_sensor_data sensors [] r4 (omega arith) in
    let e3' =
      subst (λ t. add_string_to_message FieldId.config_name t m2 ≡ done (ok, m3)) (sym named) e3 in
    let e5' = sensors_added config m4 m5 sensors held whole few e5 in
    let positive : ltb 0 config.sensors_count ≡ true = ground arith in
    (
      m5,
      rw (e1, e2, e3', e4, positive, e5'),
      s5 ∙ s4 ∙ s3 ∙ s2 ∙ s1 ∙ new_message-stamp MessageId.send_register_result,
      r5,
    )
