-- ===== src/Client/Announced.antt =====
-- The announcement as a message, and what the proxy and a head that registers make of it.
use shp.Base.{
  ℕ, ◌+◌, ◌*◌, ◌%◌, ◌≤◌, ◌<◌, ◌≡◌, refl, sym, ap₂, subst, ◌∙◌, true, none, some, inr, List, [], ◌∷◌,
  ◌++◌, length, take, drop, replicate, done, ltb, arith, append-nil,
}
use shp.Memory.{Memory, IsU32, u32_mod, cells, le32, from_le64, strlen}
use shp.ErrorCodes.{ok}
use shp.Message.{
  Message, MessageId, FieldId, field_code, new_message, add_string_to_message, add_field_to_message,
}
use shp.Message.Fields.{Field, Represents, new_message-Represents}
use shp.Message.Build.{
  stamp, stamp_of, field_of, sizes, add_known, add_num_known, add_string_known, new_message-stamp,
}
use shp.Configuration.{Config, head_configuration, proxy_configuration}
use shp.Configuration.Pointers.{strlen-append}
use shp.Configuration.Screen.{Entry, AreEntries, packed_all, length-packed_all}
use shp.Configuration.Reading.{
  Describes, configured, proxy_configuration_untimed, proxy_configuration_taken,
}
use shp.Proxy.{register_answer}
use shp.Proxy.Registered.{Holds, register_answer-head_configuration}
use shp.Client.Configure.{GeneralSettings, SensorsSettings, prepare_config_message, write_sensors}
use shp.Client.Announcing.{
  AreSensors, entries_of, length-entries_of, entries_of-AreEntries, write_sensors-packed_all,
}

-- The fields that the client sends.
abbrev pub config_fields : ℕ → Memory → ℕ → Memory → List Field
config_fields client_id name count sensors =
    field_of FieldId.config_client_id (cells (le32 client_id))
    ∷ field_of FieldId.config_name name
    ∷ field_of FieldId.config_sensor_count (cells (le32 count))
    ∷ field_of FieldId.config_sensor_data sensors
    ∷ []

-- Settings with a name of fewer than 33 characters and at least one sensor, each with its texts ended.
pub record AreSettings (general : GeneralSettings) (settings : SensorsSettings) (n : ℕ)
    (name : Memory) : Type 0 where
  pub extra : Memory
  pub id_word : IsU32 general.client_id
  pub named : general.name ≡ name ++ extra
  pub terminated : strlen name ≡ some n
  pub whole : length name ≡ n + 1
  pub short : n < 33
  pub counted : settings.sensors_count ≡ length settings.sensors
  pub sensors_valid : AreSensors settings.sensors
  pub some_sensor : 0 < length settings.sensors
  pub few : length settings.sensors < 1000000

-- The fields of the announcement of such settings.
abbrev pub sensors_fields :
    (general : GeneralSettings) (settings : SensorsSettings) {n : ℕ} (name : Memory)
    → AreSettings general settings n name
    → List Field
sensors_fields general settings name k =
    let es = entries_of settings.sensors k.sensors_valid in
    config_fields general.client_id name (length es) (packed_all es)

-- What a configuration becomes that takes them.
abbrev pub taken_by :
    (c : Config) (t : ℕ) (general : GeneralSettings) (settings : SensorsSettings) {n : ℕ}
    (name : Memory)
    → AreSettings general settings n name
    → Config
taken_by c t general settings name k =
    configured t general.client_id name (entries_of settings.sensors k.sensors_valid) c

-- On such settings the message is made: it stands for the client's id, its name up to the terminator,
-- the number of sensors, and for each sensor its texts up to their terminators and its pin.
pub prepare_config_message-Represents :
    (general : GeneralSettings) (settings : SensorsSettings) (n : ℕ) (name : Memory)
    → (k : AreSettings general settings n name)
    → (m : Message) × (prepare_config_message general settings (new_message MessageId.send_config)
        ≡ done m)
      × (stamp m ≡ stamp_of MessageId.send_config)
      × Represents m (
          config_fields general.client_id name
            (length settings.sensors)
            (packed_all (entries_of settings.sensors k.sensors_valid)))
unfolding prepare_config_message sizes le32
prepare_config_message-Represents general settings n name k =
    let es = entries_of settings.sensors k.sensors_valid in
    let size : length (packed_all es) ≡ settings.sensors_count * 54 =
      length-packed_all es (entries_of-AreEntries settings.sensors k.sensors_valid)
      ∙ omega (arith, length-entries_of settings.sensors k.sensors_valid, k.counted) in
    let (m1, e1, r1, s1) =
      add_num_known (new_message MessageId.send_config) [] FieldId.config_client_id
        general.client_id (new_message-Represents MessageId.send_config) (omega arith) in
    let (m2, e2, r2, s2) =
      add_string_known m1 _ FieldId.config_name name k.extra n
        (strlen-append name k.extra n k.terminated) k.whole r1 (omega (arith, k.whole, k.short)) in
    let (m3, e3, r3, s3) =
      add_num_known m2 _ FieldId.config_sensor_count settings.sensors_count r2
        (omega (arith, k.whole, k.short)) in
    let (m4, e4, r4, s4) =
      add_known m3 _ FieldId.config_sensor_data (packed_all es) [] r3
        (omega (arith, k.whole, k.short, k.few, k.counted)) in
    let e2' =
      subst (λ t. add_string_to_message FieldId.config_name t m1 ≡ done (ok, m2)) (sym k.named)
        e2 in
    let e4' : add_field_to_message FieldId.config_sensor_data (packed_all es)
          (settings.sensors_count * 54 % u32_mod) m3
        ≡ done (ok, m4) =
      ap₂ (λ t i. add_field_to_message FieldId.config_sensor_data t i m3)
        (sym (append-nil (packed_all es))) (omega (arith, k.few, k.counted))
      ∙ e4 in
    let positive : ltb 0 settings.sensors_count ≡ true = ground (arith, k.counted, k.some_sensor) in
    let filled : write_sensors settings.sensors_count 0 settings.sensors
          (replicate (settings.sensors_count * 54) none)
        ≡ done (packed_all es) =
      subst
        (λ t.
          write_sensors t 0 settings.sensors (replicate (settings.sensors_count * 54) none)
          ≡ done (packed_all es))
        (sym k.counted)
        (write_sensors-packed_all settings.sensors k.sensors_valid [] 0
          (settings.sensors_count * 54) refl (omega (arith, k.counted))) in
    (
      m4,
      rw (e1, e2', e3, positive, filled, e4'),
      s4 ∙ s3 ∙ s2 ∙ s1 ∙ new_message-stamp MessageId.send_config,
      subst (λ t. Represents m4 (config_fields general.client_id name t (packed_all es))) k.counted
          r4,
    )

config_fields-Describes :
    (c : Config) (client_id n : ℕ) (name : Memory) (es : List Entry)
    → IsU32 client_id
    → strlen name ≡ some n
    → length name ≡ n + 1
    → length name ≤ length c.name
    → length name < 1000
    → AreEntries es
    → length es < 1000000
    → Describes (config_fields client_id name (length es) (packed_all es)) client_id n name es c
unfolding field_code le32
config_fields-Describes c client_id n name es word terminated whole room short v few = record {
  fields = (
    (omega arith, omega arith),
    (
      (omega arith, omega (arith, short)),
      ((omega arith, omega arith), ((omega arith, omega (arith, length-packed_all es v, few)), tt)),
    ),
  );
  id_word = word;
  terminated = terminated;
  whole = whole;
  room = room;
  entries = v;
  few = omega (arith, few);
  identified = refl;
  named = refl;
  counted = refl;
  listed = inr refl;
}

pub configured-Holds :
    (c : Config) (t client_id n : ℕ) (name : Memory) (es : List Entry)
    → IsU32 client_id
    → strlen name ≡ some n
    → length name ≡ n + 1
    → n < 33
    → AreEntries es
    → 0 < length es
    → length es < 1000000
    → Holds (configured t client_id name es c) client_id n name es
configured-Holds c t client_id n name [] word terminated whole short v some_sensor few =
    absurd (omega arith)
configured-Holds c t client_id n name (e ∷ es) word terminated whole short v some_sensor few =
    record {
      extra = drop (length name) c.name;
      id_same = refl;
      id_word = word;
      named = refl;
      terminated = terminated;
      whole = whole;
      short = short;
      counted = refl;
      listed = refl;
      entries = v;
      some_sensor = some_sensor;
      few = few;
    }

-- The message stands for the settings as the proxy reads them.
pub prepare_config_message-stands :
    (general : GeneralSettings) (settings : SensorsSettings) (n : ℕ) (name : Memory)
    → (k : AreSettings general settings n name)
    → (m : Message) × (prepare_config_message general settings (new_message MessageId.send_config)
        ≡ done m)
      × (stamp m ≡ stamp_of MessageId.send_config)
      × Represents m (sensors_fields general settings name k)
prepare_config_message-stands general settings n name k =
    let (m, prepares, stamped, stands) =
      prepare_config_message-Represents general settings n name k in
    (
      m,
      prepares,
      stamped,
      subst
          (λ i. Represents m (
            config_fields general.client_id name i
              (packed_all (entries_of settings.sensors k.sensors_valid))))
          (sym (length-entries_of settings.sensors k.sensors_valid)) stands,
    )

-- A proxy takes these fields from any message that stands for them.
pub config_fields-proxy_configuration :
    (client_id n t : ℕ) (name : Memory) (es : List Entry) (p : Config) (m : Message)
    → IsU32 client_id
    → strlen name ≡ some n
    → length name ≡ n + 1
    → n < 33
    → AreEntries es
    → length es < 1000000
    → 8 ≤ length name
    → from_le64 (take 8 name) ≡ some t
    → length p.name ≡ 33
    → Represents m (config_fields client_id name (length es) (packed_all es))
    → proxy_configuration m p ≡ done (configured t client_id name es p)
unfolding field_code
config_fields-proxy_configuration client_id n t name es p m word terminated whole short v few long
      bytes p_size stands =
    proxy_configuration_untimed m _ client_id n name p stands es t
      (config_fields-Describes p client_id n name es word terminated whole
        (omega (arith, p_size, whole, short)) (omega (arith, whole, short)) v few)
      refl long bytes

-- Where it ends without undefined behaviour, it has taken them, whatever the length of the name.
pub config_fields-taken :
    (client_id n : ℕ) (name : Memory) (es : List Entry) (p p' : Config) (m : Message)
    → IsU32 client_id
    → strlen name ≡ some n
    → length name ≡ n + 1
    → n < 33
    → AreEntries es
    → length es < 1000000
    → length p.name ≡ 33
    → Represents m (config_fields client_id name (length es) (packed_all es))
    → proxy_configuration m p ≡ done p'
    → (t : ℕ) × (p' ≡ configured t client_id name es p)
unfolding field_code
config_fields-taken client_id n name es p p' m word terminated whole short v few p_size stands
      takes =
    proxy_configuration_taken m _ client_id n name p stands es p'
      (config_fields-Describes p client_id n name es word terminated whole
        (omega (arith, p_size, whole, short)) (omega (arith, whole, short)) v few)
      refl takes

-- So it takes an announcement.
sensors_fields-proxy_configuration :
    (general : GeneralSettings) (settings : SensorsSettings) (n t : ℕ) (name : Memory) (p : Config)
    (m : Message)
    → (k : AreSettings general settings n name) → 8 ≤ length name
    → from_le64 (take 8 name) ≡ some t
    → length p.name ≡ 33
    → Represents m (sensors_fields general settings name k)
    → proxy_configuration m p ≡ done (taken_by p t general settings name k)
sensors_fields-proxy_configuration general settings n t name p m k long bytes p_size stands =
    let es = entries_of settings.sensors k.sensors_valid in
    let count : length es ≡ length settings.sensors =
      length-entries_of settings.sensors k.sensors_valid in
    config_fields-proxy_configuration general.client_id n t name es p m k.id_word k.terminated
      k.whole k.short (entries_of-AreEntries settings.sensors k.sensors_valid)
      (omega (arith, count, k.few)) long bytes p_size stands

taken_by-Holds :
    (general : GeneralSettings) (settings : SensorsSettings) (n t : ℕ) (name : Memory) (p : Config)
    → (k : AreSettings general settings n name)
    → Holds
        (taken_by p t general settings name k)
        general.client_id
        n
        name
        (entries_of settings.sensors k.sensors_valid)
taken_by-Holds general settings n t name p k =
    let es = entries_of settings.sensors k.sensors_valid in
    let count : length es ≡ length settings.sensors =
      length-entries_of settings.sensors k.sensors_valid in
    configured-Holds p t general.client_id n name es k.id_word k.terminated k.whole k.short
      (entries_of-AreEntries settings.sensors k.sensors_valid) (omega (arith, count, k.some_sensor))
      (omega (arith, count, k.few))

-- From the client by way of the proxy to the head. Where the client's name with its terminator takes
-- eight bytes or more, its announcement is made and the proxy takes from it the client's id, the name
-- and the sensors, with the first eight bytes of the name for a time, since the announcement has none;
-- a head that registers afterwards takes the same id, name and sensors, with the time of the answer.
pub announcement_arrives :
    (general : GeneralSettings) (settings : SensorsSettings) (n t now : ℕ) (name : Memory)
    (p h : Config)
    → (k : AreSettings general settings n name) → 8 ≤ length name
    → from_le64 (take 8 name) ≡ some t
    → now < u32_mod * u32_mod
    → length p.name ≡ 33
    → length h.name ≡ 33
    → (m : Message) × (answer : Message) × (prepare_config_message general settings
          (new_message MessageId.send_config)
        ≡ done m)
      × (proxy_configuration m p
          ≡ done
              (configured t general.client_id name (entries_of settings.sensors k.sensors_valid) p))
      × (register_answer now
            (configured t general.client_id name (entries_of settings.sensors k.sensors_valid) p)
          ≡ done answer)
      × (head_configuration answer h
          ≡ done (
              configured now general.client_id name
                (entries_of settings.sensors k.sensors_valid)
                h))
unfolding field_code
announcement_arrives general settings n t now name p h k long bytes early p_size h_size =
    let es = entries_of settings.sensors k.sensors_valid in
    let (m, prepares, stamped, stands) = prepare_config_message-stands general settings n name k in
    let (answer, answers, takes) =
      register_answer-head_configuration (taken_by p t general settings name k) h now
        general.client_id n name es (taken_by-Holds general settings n t name p k) h_size early in
    (
      m,
      answer,
      prepares,
      sensors_fields-proxy_configuration general settings n t name p m k long bytes p_size stands,
      answers,
      takes,
    )
