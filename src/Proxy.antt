-- ===== src/Proxy.antt =====
-- src/proxy_event.cpp, src/proxy_command.cpp and src/proxy_register.cpp: what the proxy does with
-- three of the messages that it receives.
pub mod Handling
pub mod Registering
pub mod Registered
pub mod Version
pub mod Updating
pub mod Thread
pub mod Serving
pub mod Rounds
pub mod Forwarding
mod Tests
mod RoundTests
use shp.Base.{ℕ, ◌*◌, ◌%◌, ltb, if◌then◌else◌}
use shp.Memory.{u32_mod}
use shp.ErrorCodes.{ErrorCode, ok}
use shp.Message.{
  Message, MessageId, FieldId, new_message, block, add_time_to_message, add_num_to_message,
  add_string_to_message, add_field_to_message,
}
use shp.Configuration.{Config, sensor_config_size}
use shp.Queue.{Queue, add}
use shp.Os.{Os}
use shp.Os.Actions.{Io, pure, ◌>>=◌, ◌>>◌, lift}
use shp.SocketServer.{ServerSocket, send_message}

-- No result of the calls that add a field is looked at; `now` is what `time (NULL)` returns.
unfoldable pub register_answer : ℕ → Config → shp.Base.Exec Message
register_answer now config =
    shp.Base.◌>>=◌ (add_time_to_message now (new_message MessageId.send_register_result)) (λ timed.
      shp.Base.◌>>=◌ (add_num_to_message FieldId.config_client_id config.client_id timed.1)
        (λ with_id.
          shp.Base.◌>>=◌ (add_string_to_message FieldId.config_name config.name with_id.1) (λ named.
            shp.Base.◌>>=◌
              (add_num_to_message FieldId.config_sensor_count config.sensors_count named.1)
              (λ counted.
                if ltb 0 config.sensors_count
                then shp.Base.◌>>=◌
                    (add_field_to_message FieldId.config_sensor_data (block config.sensors)
                      (config.sensors_count * sensor_config_size % u32_mod) counted.1)
                    (λ full. shp.Base.done full.1)
                else shp.Base.done counted.1))))

module _ (os : Os) where
  open os use {World}

  -- The message is queued before it is answered, and the answer's result is not looked at.
  unfoldable pub process_message_event :
      Message → ServerSocket → Queue Message → Io World (Queue Message)
  process_message_event message socket q = do
    let q' = (add message q).1
    send_message os (new_message MessageId.send_event_result) socket
    pure q'

  unfoldable pub process_message_command : ServerSocket → Io World ErrorCode
  process_message_command socket = do
    send_message os (new_message MessageId.send_command_result) socket
    pure ok

  unfoldable pub process_message_register : ℕ → ServerSocket → Config → Io World ErrorCode
  unfolding register_answer
  process_message_register now socket config = do
    message ← lift (register_answer now config)
    send_message os message socket
