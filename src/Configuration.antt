-- ===== src/Configuration.antt =====
-- src/proxy_main.hpp, src/head_main.hpp, src/proxy_config.cpp and src/head_config.cpp: the
-- configuration that proxy and head keep, and how they take it from a message.
pub mod Pointers
pub mod Screen
pub mod Arriving
pub mod Reading
use shp.Base.{
  ℕ, zero, suc, ◌+◌, ◌*◌, Option, none, some, List, [], ◌∷◌, ltb, if◌then◌else◌, replicate, drop,
  take, Exec, done, or_fault, fault, ◌>>=◌,
}
use shp.Memory.{Memory, read_at, write_at, load32, from_le32, from_le64, strlen}
use shp.ErrorCodes.{ErrorCode}
use shp.Message.{Message, MessageId, FieldId, new_message, block, get_field_from_message}
use shp.Os.{Os}
use shp.Os.Actions
use shp.Os.Actions.{Io}
use shp.SocketServer.{ServerSocket, send_message}

-- `sizeof (sensor_config_t)`: a name of 33 bytes, a type of 17 and a number, packed.
abbrev pub sensor_config_size : ℕ
sensor_config_size = 54

-- `sensor_status_t`
pub record SensorStatus : Type 0 where
  pub gpio : ℕ
  pub name : Memory
  pub buffer : Memory
  pub last_message : ℕ

-- `config_t`; `p_sensors` is the memory behind the pointer, `p_screen` the array.
pub record Config : Type 0 where
  pub client_id : ℕ
  pub name : Memory
  pub event_time : ℕ
  pub sensors_count : ℕ
  pub sensors : Option Memory
  pub screen : List SensorStatus

-- `get_field_from_message` with a result that is not looked at: the size and the pointer (an offset
-- into the payload, or none for a null or uninitialised one) keep their values where the field is
-- missing.
unfoldable pub look : FieldId → Message → ℕ → Option ℕ → Exec (ℕ × Option ℕ)
look field m size place = do
  (result, found) ← get_field_from_message field m
  done (elim found [ none ↦ (size, place) | some d ↦ (d.size, some d.offset) ])

-- Some bytes behind a pointer; undefined for a null pointer and past the block's end.
unfoldable pub load : Message → Option ℕ → ℕ → Exec Memory
unfolding read_at
load m place n = elim place [
  | none ↦ fault
  | some offset ↦ or_fault (read_at (block m.raw_payload) offset n)
]

unfoldable pub load_num : Message → Option ℕ → Exec ℕ
unfolding load from_le32
load_num m place = do bytes ← load m place 4; or_fault (from_le32 bytes)

unfoldable pub load_time : Message → Option ℕ → Exec ℕ
unfolding load from_le64
load_time m place = do bytes ← load m place 8; or_fault (from_le64 bytes)

-- The characters from an offset on, with their terminator; undefined where there is none.
unfoldable pub string_at : Memory → ℕ → Option Memory
unfolding strlen
string_at m offset = elim (strlen (drop offset m)) [
  | none ↦ none
  | some n ↦ some (take (n + 1) (drop offset m))
]

-- `strcpy` to an array from behind a pointer; undefined where the array is too small.
unfoldable pub copy_string : Memory → Message → Option ℕ → Exec Memory
unfolding string_at write_at
copy_string target m place = elim place [
  | none ↦ fault
  | some offset ↦ do
    text ← or_fault (string_at (block m.raw_payload) offset)
    or_fault (write_at target 0 text)
]

-- One round of the loop over `p_screen`.
unfoldable pub new_status : Memory → ℕ → Exec SensorStatus
unfolding load32 string_at write_at
new_status sensors i = do
  gpio ← or_fault (load32 sensors (i * sensor_config_size + 50))
  text ← or_fault (string_at sensors (i * sensor_config_size))
  name ← or_fault (write_at (replicate 33 none) 0 text)
  done (record { gpio = gpio; name = name; buffer = replicate 64 (some 0); last_message = 0 })

-- The rounds that are left, from a number on.
unfoldable pub new_screen : Memory → ℕ → ℕ → Exec (List SensorStatus)
new_screen sensors zero i = done []
new_screen sensors (suc left) i = do
  status ← new_status sensors i
  rest ← new_screen sensors left (i + 1)
  done (status ∷ rest)

-- The end of both functions: the number of sensors, and their settings if there are any.
unfoldable pub take_sensors : Message → ℕ → Option ℕ → Config → Exec Config
unfolding look load_num new_screen
take_sensors m size place c = do
  (size1, counted) ← look FieldId.config_sensor_count m size none
  count ← load_num m counted
  let c' = record c { sensors_count = count }
  let rest = (do
    (size2, place2) ← look FieldId.config_sensor_data m size1 place
    sensors ← load m place2 size2
    screen ← new_screen sensors count 0
    done (record c' { sensors = some sensors; screen = screen }))
  if ltb 0 count then rest else done c'

-- `process_message_configuration` of the head.
unfoldable pub head_configuration : Message → Config → Exec Config
unfolding load_time copy_string take_sensors
head_configuration m c = do
  (size1, place1) ← look FieldId.message_time m 0 none
  event_time ← load_time m place1
  (size2, identified) ← look FieldId.config_client_id m size1 none
  client_id ← load_num m identified
  (size3, place3) ← look FieldId.config_name m size2 place1
  name ← copy_string c.name m place3
  take_sensors m size3 place3
      (record c { event_time = event_time; client_id = client_id; name = name })

-- `process_message_configuration` of the proxy, without the answer: another order of the fields.
unfoldable pub proxy_configuration : Message → Config → Exec Config
unfolding load_time copy_string take_sensors
proxy_configuration m c = do
  (size1, identified) ← look FieldId.config_client_id m 0 none
  client_id ← load_num m identified
  (size2, place2) ← look FieldId.config_name m size1 none
  name ← copy_string c.name m place2
  (size3, place3) ← look FieldId.message_time m size2 place2
  event_time ← load_time m place3
  take_sensors m size3 place3
      (record c { event_time = event_time; client_id = client_id; name = name })

module _ (os : Os) where
  open os use {World}

  unfoldable pub process_message_configuration :
      Message → ServerSocket → Config → Io World (ErrorCode × Config)
  unfolding proxy_configuration
  process_message_configuration m socket c =
      Actions.◌>>=◌ (Actions.lift (proxy_configuration m c)) (λ c'.
        Actions.◌>>=◌ (send_message os (new_message MessageId.send_config_result) socket)
          (λ result. Actions.pure (result, c')))
