-- ===== src/Configuration/Reading.antt =====
-- What proxy and head make of a message that carries a configuration.
use shp.Base.{
  ℕ, ◌*◌, ◌≤◌, ◌<◌, ◌+◌, ◌≡◌, ◌⊎◌, inl, inr, refl, none, some, List, [], ◌∷◌, ◌++◌, map, true,
  length, drop, take, done, arith, ltb, Option, Exec-cases, fault, out_of_fuel, sym, ◌∙◌,
}
use shp.Memory.{Memory, IsU32, u32_mod, cells, le32, le64, strlen, from_le64}
use shp.Message.{Message, FieldId, field_code}
use shp.Message.Fields.{Field, Represents}
use shp.Message.Get.{AreFields, value_of}
use shp.Configuration.{Config, load_time, take_sensors, head_configuration, proxy_configuration}
use shp.Configuration.Pointers.{
  look-PointsTo, look_missing, load_whole, load_num-le32, load_time-le64, load_time-other,
  copy_string-text,
}
use shp.Transfer.Through.{done_injective}
use shp.Configuration.Screen.{Entry, AreEntries, packed_all, initial, new_screen-initial}

-- A client's id, a name of n characters with its terminator that a configuration has room for, and a
-- number of sensors, as the fields of a message.
pub record Describes (fs : List Field) (client_id n : ℕ) (name : Memory) (es : List Entry)
    (c : Config) : Type 0 where
  pub fields : AreFields fs
  pub id_word : IsU32 client_id
  pub terminated : strlen name ≡ some n
  pub whole : length name ≡ n + 1
  pub room : length name ≤ length c.name
  pub entries : AreEntries es
  pub few : IsU32 (length es)
  pub identified : value_of (field_code FieldId.config_client_id) fs ≡ some (cells (le32 client_id))
  pub named : value_of (field_code FieldId.config_name) fs ≡ some name
  pub counted :
      value_of (field_code FieldId.config_sensor_count) fs ≡ some (cells (le32 (length es)))
  pub listed :
      (es ≡ []) ⊎ (value_of (field_code FieldId.config_sensor_data) fs ≡ some (packed_all es))

-- The configuration with these values; the rest of the array of the name stays, and so do the sensors
-- where there are none to take.
abbrev pub with_sensors : List Entry → Config → Config
with_sensors [] c = record c { sensors_count = 0 }
with_sensors (e ∷ es) c = record c {
  sensors_count = length (e ∷ es);
  sensors = some (packed_all (e ∷ es));
  screen = map initial (e ∷ es);
}

abbrev pub configured : ℕ → ℕ → Memory → List Entry → Config → Config
configured event_time client_id name es c = with_sensors es (record c {
  event_time = event_time;
  client_id = client_id;
  name = name ++ drop (length name) c.name;
})

module _ (m : Message) (fs : List Field) (client_id n : ℕ) (name : Memory) (c : Config)
    (r : Represents m fs) where
  take_sensors_lem :
      (es : List Entry) (size : ℕ) (place : Option ℕ) (c' : Config)
      → Describes fs client_id n name es c
      → take_sensors m size place c' ≡ done (with_sensors es c')
  unfolding take_sensors
  take_sensors_lem [] size place c' d =
      let (o1, e1, p1) =
        look-PointsTo m fs FieldId.config_sensor_count size none (cells (le32 0)) r d.fields
          d.counted in
      rw (e1, load_num-le32 m o1 0 d.few p1)
  take_sensors_lem (e ∷ es) size place c' d = elim d.listed [
    | inl empty ↦ cc
    | inr there ↦
        let positive : ltb 0 (length (e ∷ es)) ≡ true = ground arith in
        let (o1, e1, p1) =
          look-PointsTo m fs FieldId.config_sensor_count size none (cells (le32 (length (e ∷ es))))
            r d.fields d.counted in
        let (o2, e2, p2) =
          look-PointsTo m fs FieldId.config_sensor_data (length (cells (le32 (length (e ∷ es)))))
            place (packed_all (e ∷ es)) r d.fields there in
        rw (
          e1,
          load_num-le32 m o1 (length (e ∷ es)) d.few p1,
          e2,
          load_whole m o2 (packed_all (e ∷ es)) p2,
          new_screen-initial (e ∷ es) [] (packed_all (e ∷ es)) 0 d.entries refl refl,
          positive,
        )
  ]

  -- The head takes the time, the client's id, its name, the number of sensors, their settings and an
  -- empty state for each of them from any message that carries them, in whatever order.
  pub head_configuration_lem :
      (es : List Entry) (now : ℕ)
      → Describes fs client_id n name es c
      → now < u32_mod * u32_mod
      → value_of (field_code FieldId.message_time) fs ≡ some (cells (le64 now))
      → head_configuration m c ≡ done (configured now client_id name es c)
  unfolding head_configuration
  head_configuration_lem es now d early timed =
      let (o1, e1, p1) =
        look-PointsTo m fs FieldId.message_time 0 none (cells (le64 now)) r d.fields timed in
      let (o2, e2, p2) =
        look-PointsTo m fs FieldId.config_client_id (length (cells (le64 now))) none
          (cells (le32 client_id)) r d.fields d.identified in
      let (o3, e3, p3) =
        look-PointsTo m fs FieldId.config_name (length (cells (le32 client_id))) (some o1) name r
          d.fields d.named in
      rw
        (
          e1,
          load_time-le64 m o1 now early p1,
          e2,
          load_num-le32 m o2 client_id d.id_word p2,
          e3,
          copy_string-text m o3 name p3 c.name n d.terminated d.whole d.room,
        )
        (take_sensors_lem es _ _ _ d)

  -- The same on the proxy, which reads the fields in another order.
  pub proxy_configuration_lem :
      (es : List Entry) (now : ℕ)
      → Describes fs client_id n name es c
      → now < u32_mod * u32_mod
      → value_of (field_code FieldId.message_time) fs ≡ some (cells (le64 now))
      → proxy_configuration m c ≡ done (configured now client_id name es c)
  unfolding proxy_configuration
  proxy_configuration_lem es now d early timed =
      let (o1, e1, p1) =
        look-PointsTo m fs FieldId.config_client_id 0 none (cells (le32 client_id)) r d.fields
          d.identified in
      let (o2, e2, p2) =
        look-PointsTo m fs FieldId.config_name (length (cells (le32 client_id))) none name r
          d.fields d.named in
      let (o3, e3, p3) =
        look-PointsTo m fs FieldId.message_time (length name) (some o2) (cells (le64 now)) r
          d.fields timed in
      rw
        (
          e1,
          load_num-le32 m o1 client_id d.id_word p1,
          e2,
          copy_string-text m o2 name p2 c.name n d.terminated d.whole d.room,
          e3,
          load_time-le64 m o3 now early p3,
        )
        (take_sensors_lem es _ _ _ d)

  -- Where the message has no time, the pointer still points to the name: the proxy takes the first
  -- eight bytes of a name of that length for the time, and everything else as before.
  pub proxy_configuration_untimed :
      (es : List Entry) (t : ℕ)
      → Describes fs client_id n name es c
      → value_of (field_code FieldId.message_time) fs ≡ none
      → 8 ≤ length name
      → from_le64 (take 8 name) ≡ some t
      → proxy_configuration m c ≡ done (configured t client_id name es c)
  unfolding proxy_configuration
  proxy_configuration_untimed es t d untimed long bytes =
      let (o1, e1, p1) =
        look-PointsTo m fs FieldId.config_client_id 0 none (cells (le32 client_id)) r d.fields
          d.identified in
      let (o2, e2, p2) =
        look-PointsTo m fs FieldId.config_name (length (cells (le32 client_id))) none name r
          d.fields d.named in
      rw
        (
          e1,
          load_num-le32 m o1 client_id d.id_word p1,
          e2,
          copy_string-text m o2 name p2 c.name n d.terminated d.whole d.room,
          look_missing m fs FieldId.message_time (length name) (some o2) r d.fields untimed,
          load_time-other m o2 t name long bytes p2,
        )
        (take_sensors_lem es _ _ _ d)

  -- Whatever bytes are there: where the proxy ends without undefined behaviour, it has taken some time,
  -- and everything else as before.
  pub proxy_configuration_taken :
      (es : List Entry) (c' : Config)
      → Describes fs client_id n name es c
      → value_of (field_code FieldId.message_time) fs ≡ none
      → proxy_configuration m c ≡ done c'
      → (t : ℕ) × (c' ≡ configured t client_id name es c)
  unfolding proxy_configuration
  proxy_configuration_taken es c' d untimed takes =
      let (o1, e1, p1) =
        look-PointsTo m fs FieldId.config_client_id 0 none (cells (le32 client_id)) r d.fields
          d.identified in
      let (o2, e2, p2) =
        look-PointsTo m fs FieldId.config_name (length (cells (le32 client_id))) none name r
          d.fields d.named in
      let id_read = load_num-le32 m o1 client_id d.id_word p1 in
      let name_read = copy_string-text m o2 name p2 c.name n d.terminated d.whole d.room in
      let missing =
        look_missing m fs FieldId.message_time (length name) (some o2) r d.fields untimed in
      elim (Exec-cases (load_time m (some o2))) [
        | inl (t, timed) ↦
            let runs : proxy_configuration m c ≡ done (configured t client_id name es c) =
              rw (e1, id_read, e2, name_read, missing, timed) (take_sensors_lem es _ _ _ d) in
            (t, done_injective c' (configured t client_id name es c) (sym takes ∙ runs))
        | inr unread ↦
            let stops : (proxy_configuration m c ≡ fault)
                ⊎ (proxy_configuration m c ≡ out_of_fuel) =
              elim unread [
                | inl faults ↦ inl (rw (e1, id_read, e2, name_read, missing, faults))
                | inr lasts ↦ inr (rw (e1, id_read, e2, name_read, missing, lasts))
              ] in
            elim stops [ inl e ↦ cc | inr e ↦ cc ]
      ]
