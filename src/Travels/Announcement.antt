-- ===== src/Travels/Announcement.antt =====
-- The announcement of src/client_process_config.cpp on its way to the proxy, and what the proxy keeps
-- of it on its way to a head.
use shp.Base.{
  ℕ, ◌+◌, ◌<◌, ◌*◌, ◌≡◌, refl, sym, subst, ◌∙◌, some, List, [], ◌∷◌, length, done, arith,
}
use shp.Memory.{Memory, u32_mod, strlen, le32, le64, cells}
use shp.Memory.Arrives.{strlen-written}
use shp.Message.{Message, MessageId, FieldId, new_message}
use shp.Message.Fields.{Represents}
use shp.Message.Build.{stamp, stamp_of, field_of}
use shp.Configuration.{Config, proxy_configuration, head_configuration}
use shp.Configuration.Reading.{configured}
use shp.Configuration.Screen.{Entry, AreEntries, packed_all}
use shp.Configuration.Arriving.{SameSensors, sensors_field-FieldsArrive}
use shp.Transfer.Trip.{Trip, Trip-built}
use shp.Transfer.Through.{done_injective}
use shp.Proxy.{register_answer}
use shp.Proxy.Registering.{register_fields}
use shp.Proxy.Registered.{Holds, register_answer-stands, register_fields-head_configuration}
use shp.Client.Configure.{GeneralSettings, SensorsSettings, prepare_config_message}
use shp.Client.Announcing.{entries_of, length-entries_of, entries_of-AreEntries}
use shp.Client.Announced.{
  AreSettings, config_fields, prepare_config_message-stands, config_fields-taken, configured-Holds,
}

-- The fields of an announcement that came over a connection.
config_fields-Trip :
    (m m' : Message) (client_id n : ℕ) (name : Memory) (es : List Entry)
    → strlen name ≡ some n
    → length name ≡ n + 1
    → AreEntries es
    → Trip m m'
    → stamp m ≡ stamp_of MessageId.send_config
    → Represents m (config_fields client_id name (length es) (packed_all es))
    → (es' : List Entry) × SameSensors es es'
      × Represents m' (config_fields client_id name (length es') (packed_all es'))
config_fields-Trip m m' client_id n name es terminated whole v t stamped r =
    let (stamped', gs, arrive, r') = Trip-built m m' _ MessageId.send_config t stamped r in
    let (es', same, s) =
      sensors_field-FieldsArrive
        (field_of FieldId.config_client_id (cells (le32 client_id))
          ∷ field_of FieldId.config_name name
          ∷ field_of FieldId.config_sensor_count (cells (le32 (length es)))
          ∷ [])
        _ es gs ((_, refl), (strlen-written name n terminated whole, ((_, refl), tt))) v arrive in
    (
      es',
      s,
      subst (λ i. Represents m' (config_fields client_id name i (packed_all es')))
          (sym s.same_count) (subst (Represents m') same r'),
    )

-- The fields of the answer to a registration that came over a connection.
register_fields-Trip :
    (m m' : Message) (now client_id n : ℕ) (name : Memory) (es : List Entry)
    → strlen name ≡ some n
    → length name ≡ n + 1
    → AreEntries es
    → Trip m m'
    → stamp m ≡ stamp_of MessageId.send_register_result
    → Represents m (register_fields now client_id name (length es) (packed_all es))
    → (es' : List Entry) × SameSensors es es'
      × Represents m' (register_fields now client_id name (length es') (packed_all es'))
register_fields-Trip m m' now client_id n name es terminated whole v t stamped r =
    let (stamped', gs, arrive, r') = Trip-built m m' _ MessageId.send_register_result t stamped r in
    let (es', same, s) =
      sensors_field-FieldsArrive
        (field_of FieldId.message_time (cells (le64 now))
          ∷ field_of FieldId.config_client_id (cells (le32 client_id))
          ∷ field_of FieldId.config_name name
          ∷ field_of FieldId.config_sensor_count (cells (le32 (length es)))
          ∷ [])
        _ es gs ((_, refl), ((_, refl), (strlen-written name n terminated whole, ((_, refl), tt))))
        v arrive in
    (
      es',
      s,
      subst (λ i. Represents m' (register_fields now client_id name i (packed_all es')))
          (sym s.same_count) (subst (Represents m') same r'),
    )

-- What the proxy has taken of an announcement of valid settings, sent by the client and received by the
-- proxy, are the client's id, the name, and as many sensors, each with its pin and its name; the bytes
-- behind the texts, which the client never wrote, make no difference. The time is what stands behind
-- the stale pointer.
pub announcement_travels :
    (general : GeneralSettings) (settings : SensorsSettings) (n : ℕ) (name : Memory) (p p' : Config)
    (m at_proxy : Message)
    → (k : AreSettings general settings n name) → length p.name ≡ 33
    → prepare_config_message general settings (new_message MessageId.send_config) ≡ done m
    → Trip m at_proxy
    → proxy_configuration at_proxy p ≡ done p'
    → (es : List Entry) × (t : ℕ) × SameSensors (entries_of settings.sensors k.sensors_valid) es
      × (p' ≡ configured t general.client_id name es p)
announcement_travels general settings n name p p' m at_proxy k p_size prepares trip takes =
    let (made, prepares', stamped, r) = prepare_config_message-stands general settings n name k in
    let same : made ≡ m = done_injective made m (sym prepares' ∙ prepares) in
    let (es, s, stands) =
      config_fields-Trip made at_proxy general.client_id n name _ k.terminated k.whole
        (entries_of-AreEntries settings.sensors k.sensors_valid)
        (subst (λ x. Trip x at_proxy) (sym same) trip) stamped r in
    let (t, taken) =
      config_fields-taken general.client_id n name es p p' at_proxy k.id_word k.terminated k.whole
        k.short s.valid
        (omega (arith, s.same_count, length-entries_of settings.sensors k.sensors_valid, k.few))
        p_size stands takes in
    (es, t, s, taken)

-- What a proxy that holds a configuration answers a head that registers, sent by the proxy and
-- received by the head, gives the head the client's id, the name, as many sensors, each with its pin
-- and its name, and the time of the answer.
pub registration_travels :
    (p h : Config) (now client_id n : ℕ) (name : Memory) (es : List Entry)
    (answer at_head : Message)
    → Holds p client_id n name es
    → length h.name ≡ 33
    → now < u32_mod * u32_mod
    → register_answer now p ≡ done answer
    → Trip answer at_head
    → (es' : List Entry) × SameSensors es es'
      × (head_configuration at_head h ≡ done (configured now client_id name es' h))
registration_travels p h now client_id n name es answer at_head k h_size early answers trip =
    let (made, answers', stamped, r) = register_answer-stands p now client_id n name es k in
    let same : made ≡ answer = done_injective made answer (sym answers' ∙ answers) in
    let (es', s, stands) =
      register_fields-Trip made at_head now client_id n name es k.terminated k.whole k.entries
        (subst (λ x. Trip x at_head) (sym same) trip) stamped r in
    (
      es',
      s,
      register_fields-head_configuration now client_id n name es' at_head h k.id_word k.terminated
          k.whole k.short s.valid (omega (arith, s.same_count, k.few)) h_size early stands,
    )

SameSensors-trans :
    (es es' es'' : List Entry) → SameSensors es es' → SameSensors es' es'' → SameSensors es es''
SameSensors-trans es es' es'' s s' = record {
  valid = s'.valid;
  same_count = s'.same_count ∙ s.same_count;
  same_screen = s'.same_screen ∙ s.same_screen;
}

-- From the client's settings to the head's table of sensors over both connections, for valid settings
-- of at least one sensor and fewer than a million, with a name of any length that has room: where the
-- proxy has taken the announcement without undefined behaviour, and a head has received the answer that
-- is made from it, the head takes from it the client's id, the name, and the client's sensors, each with
-- its pin, its name and an empty state.
pub settings_travel :
    (general : GeneralSettings) (settings : SensorsSettings) (n now : ℕ) (name : Memory)
    (p p' h : Config) (m at_proxy answer at_head : Message)
    → (k : AreSettings general settings n name) → now < u32_mod * u32_mod
    → length p.name ≡ 33
    → length h.name ≡ 33
    → prepare_config_message general settings (new_message MessageId.send_config) ≡ done m
    → Trip m at_proxy
    → proxy_configuration at_proxy p ≡ done p'
    → register_answer now p' ≡ done answer
    → Trip answer at_head
    → (es : List Entry) × SameSensors (entries_of settings.sensors k.sensors_valid) es
      × (head_configuration at_head h ≡ done (configured now general.client_id name es h))
settings_travel general settings n now name p p' h m at_proxy answer at_head k early p_size h_size
      prepares first takes answers second =
    let (es, t, s, taken) =
      announcement_travels general settings n name p p' m at_proxy k p_size prepares first takes in
    let count : length es ≡ length settings.sensors =
      s.same_count ∙ length-entries_of settings.sensors k.sensors_valid in
    let holds =
      configured-Holds p t general.client_id n name es k.id_word k.terminated k.whole k.short
        s.valid (omega (arith, count, k.some_sensor)) (omega (arith, count, k.few)) in
    let (es', s', heads) =
      registration_travels p' h now general.client_id n name es answer at_head
        (subst (λ c. Holds c general.client_id n name es) (sym taken) holds) h_size early answers
        second in
    (es', SameSensors-trans (entries_of settings.sensors k.sensors_valid) es es' s s', heads)
