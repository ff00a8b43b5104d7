-- ===== src/Client/Configure.antt =====
-- src/client_process_config.cpp: the client's announcement of its name and its sensors.
use shp.Base.{
  ℕ, zero, suc, ◌+◌, ◌*◌, ◌%◌, Option, none, some, List, [], ◌∷◌, Exec, done, fault, or_fault,
  ◌>>=◌, ltb, ◌==◌, if◌then◌else◌, replicate,
}
use shp.Memory.{Memory, u32_mod, cells, le32, write_at}
use shp.ErrorCodes.{ErrorCode, is_ok, ok, invalid_state}
use shp.Message.{
  Message, MessageId, message_id_code, FieldId, new_message, add_num_to_message,
  add_string_to_message, add_field_to_message,
}
use shp.Os.{Os}
use shp.Os.Actions
use shp.Os.Actions.{Io}
use shp.SocketClient.{new_client_socket, close}
use shp.Configuration.{sensor_config_size, string_at}
use shp.Client.{NetworkSettings, exchange}

-- `general_settings_t`
pub record GeneralSettings : Type 0 where
  pub client_id : ℕ
  pub name : Memory

-- `sensor_settings_t`
pub record SensorSettings : Type 0 where
  pub is_initialized : ℕ
  pub gpio : ℕ
  pub name : Memory
  pub type_name : Memory

-- `sensors_settings_t`, with the array behind its pointer.
pub record SensorsSettings : Type 0 where
  pub sensors_count : ℕ
  pub sensors : List SensorSettings

-- `strcpy` from an array to a place in a block.
unfoldable pub write_string : Memory → ℕ → Memory → Exec Memory
unfolding string_at write_at
write_string m offset array = do
  text ← or_fault (string_at array 0)
  or_fault (write_at m offset text)

-- One round of the loop over the sensors.
unfoldable pub write_sensor : SensorSettings → ℕ → Memory → Exec Memory
unfolding write_string le32 write_at
write_sensor s i m = do
  named ← write_string m (i * sensor_config_size) s.name
  typed ← write_string named (i * sensor_config_size + 33) s.type_name
  or_fault (write_at typed (i * sensor_config_size + 50) (cells (le32 s.gpio)))

-- The rounds that are left, from a number on; undefined past the end of the array.
unfoldable pub write_sensors : ℕ → ℕ → List SensorSettings → Memory → Exec Memory
write_sensors zero i ss m = done m
write_sensors (suc left) i [] m = fault
write_sensors (suc left) i (s ∷ ss) m = do m' ← write_sensor s i m; write_sensors left (i + 1) ss m'

-- `prepare_config_message`. No result of the calls that add a field is looked at, and the block of
-- the sensors is not cleared: what the copies leave is sent as it is.
unfoldable pub prepare_config_message : GeneralSettings → SensorsSettings → Message → Exec Message
unfolding write_sensors
prepare_config_message general settings m = do
  (result1, with_id) ← add_num_to_message FieldId.config_client_id general.client_id m
  (result2, named) ← add_string_to_message FieldId.config_name general.name with_id
  (result3, counted) ← add_num_to_message FieldId.config_sensor_count settings.sensors_count named
  let rest = (do
    sensor_data ←
        write_sensors settings.sensors_count 0 settings.sensors
          (replicate (settings.sensors_count * sensor_config_size) none)
    (result4, full) ←
        add_field_to_message FieldId.config_sensor_data sensor_data
          (settings.sensors_count * sensor_config_size % u32_mod) counted
    done full)
  if ltb 0 settings.sensors_count then rest else done counted

-- The check of the answer; its pointer is looked at only after a success.
unfoldable pub check_result : ErrorCode → Option Message → Exec ErrorCode
unfolding message_id_code
check_result result answer =
    if is_ok result
    then elim answer [
      | none ↦ fault
      | some m ↦
          if message_id_code MessageId.send_config_result == m.message_id
          then done ok
          else done invalid_state
    ]
    else done result

module _ (os : Os) (network : NetworkSettings) where
  open os use {World}

  -- The last call is the destructor of `socket`.
  unfoldable pub process_configuration : GeneralSettings → SensorsSettings → Io World ErrorCode
  unfolding prepare_config_message exchange check_result
  process_configuration general settings =
      Actions.◌>>=◌
        (Actions.lift (prepare_config_message general settings (new_message MessageId.send_config)))
        (λ message. Actions.◌>>=◌ (exchange os network message ok new_client_socket) (λ answered.
          Actions.◌>>=◌ (close os answered.1) (λ s.
            Actions.◌>>=◌ (Actions.lift (check_result answered.0.0 answered.0.1))
              (λ result. Actions.◌>>=◌ (close os s) (λ _. Actions.pure result)))))
