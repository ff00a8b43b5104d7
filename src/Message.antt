-- ===== src/Message.antt =====
-- src/message.hpp and src/message.cpp: the TLV messages that client, proxy and head exchange.
pub mod Fields
pub mod Add
pub mod Build
pub mod Get
pub mod Wire
pub mod Bounds
pub mod Arriving
mod Tests
use shp.Base.{
  ℕ, zero, suc, ◌+◌, ◌-◌, ◌*◌, ◌%◌, ◌≡◌, Bool, true, false, Option, none, some, List, [], ◌∷◌, ◌++◌,
  ltb, ◌==◌, if◌then◌else◌, length, Exec, done, fault, out_of_fuel, or_fault, ◌>>=◌,
}
use shp.Memory.{
  Cell, Memory, u32_mod, new_block, cells, read_at, write_at, le32, le64, from_le32, load32, strlen,
}
use shp.ErrorCodes.{ErrorCode, is_ok, ok, invalid_param, not_enough_memory}

pub data MessageId : Type 0 where
  send_version send_version_result send_config send_config_result : MessageId
  send_register send_register_result : MessageId
  send_event send_event_result send_command send_command_result : MessageId

-- The numbers of `message_id_t`.
unfoldable pub message_id_code : MessageId → ℕ
message_id_code send_version = 0
message_id_code send_version_result = 1
message_id_code send_config = 2
message_id_code send_config_result = 3
message_id_code send_register = 4
message_id_code send_register_result = 5
message_id_code send_event = 100
message_id_code send_event_result = 101
message_id_code send_command = 102
message_id_code send_command_result = 103

pub data FieldId : Type 0 where
  message_time version update_data : FieldId
  config_client_id config_name config_ip config_sensor_count config_sensor_data : FieldId
  sensor_name sensor_data sensor_type sensor_gpio : FieldId

-- The numbers of `field_id_t`.
unfoldable pub field_code : FieldId → ℕ
field_code message_time = 0
field_code version = 1
field_code update_data = 2
field_code config_client_id = 3
field_code config_name = 4
field_code config_ip = 5
field_code config_sensor_count = 6
field_code config_sensor_data = 7
field_code sensor_name = 8
field_code sensor_data = 9
field_code sensor_type = 10
field_code sensor_gpio = 11

-- `message_header_t`. The two enums are numbers here, since a received header can hold any.
pub record Header : Type 0 where
  pub message_version : ℕ
  pub message_id : ℕ
  pub payload_size : ℕ
  pub message_result : ℕ

-- `message_class`; a null `p_raw_payload` is `none`.
pub record Message : Type 0 where
  pub header : Header
  pub open header use *
  pub raw_payload : Option Memory
  pub alloc_size : ℕ

abbrev pub current_message_version : ℕ
current_message_version = 1

-- `sizeof (field_id_t)`, `sizeof (unsigned int)`, `sizeof (time_t)`, `sizeof (message_header_t)`
abbrev pub tag_size : ℕ
tag_size = 4

abbrev pub int_size : ℕ
int_size = 4

abbrev pub time_size : ℕ
time_size = 8

abbrev pub header_size : ℕ
header_size = 13

-- The constructor from a message id.
unfoldable pub new_message : MessageId → Message
unfolding message_id_code
new_message type = record {
  header = record {
    message_version = current_message_version;
    message_id = message_id_code type;
    payload_size = 0;
    message_result = 0;
  };
  raw_payload = none;
  alloc_size = 0;
}

-- The constructor from a received header: the payload is allocated and not filled yet.
unfoldable pub message_of_header : Header → Message
message_of_header h =
    if h.payload_size == 0
    then record { header = h; raw_payload = none; alloc_size = 0 }
    else record { header = h; raw_payload = new_block h.payload_size; alloc_size = h.payload_size }

-- The bytes behind a pointer; there are none behind a null pointer.
abbrev pub block : Option Memory → Memory
block none = []
block (some m) = m

-- `memcpy (p_new_payload, p_raw_payload, header.payload_size)`, unless there is no old payload.
unfoldable pub move_payload : Option Memory → ℕ → Memory → Exec Memory
unfolding read_at write_at
move_payload none size fresh = done fresh
move_payload (some old) size fresh = do
  used ← or_fault (read_at old 0 size)
  or_fault (write_at fresh 0 used)

-- `new_message_alloc_size`: four times the old size, or what is needed if that is more.
unfoldable pub new_alloc_size : ℕ → Message → ℕ
new_alloc_size full_size m =
    let needed = (m.payload_size + full_size) % u32_mod in
    let quadruple = m.alloc_size * 4 % u32_mod in if ltb needed quadruple then quadruple else needed

-- The first part of `add_field_to_message`: a larger block where the field does not fit.
unfoldable pub reserve : ℕ → Message → Exec (ErrorCode × Message)
unfolding move_payload new_alloc_size
reserve full_size m =
    let new_size = new_alloc_size full_size m in
    if ltb m.alloc_size ((m.payload_size + full_size) % u32_mod)
    then elim (new_block new_size) [
      | none ↦ done (not_enough_memory, m)
      | some fresh ↦ do
        moved ← move_payload m.raw_payload m.payload_size fresh
        done (ok, record m { raw_payload = some moved; alloc_size = new_size })
    ]
    else done (ok, m)

-- The second part: tag, length and value behind the payload so far.
unfoldable pub append_field : FieldId → Memory → ℕ → ℕ → Message → Exec Message
unfolding field_code read_at write_at le32
append_field field payload size full_size m = do
  tagged ←
      or_fault (write_at (block m.raw_payload) m.payload_size (cells (le32 (field_code field))))
  sized ← or_fault (write_at tagged (m.payload_size + tag_size) (cells (le32 size)))
  value ← or_fault (read_at payload 0 size)
  filled ← or_fault (write_at sized (m.payload_size + tag_size + int_size) value)
  done (record m {
    header = record (m.header) { payload_size = (m.payload_size + full_size) % u32_mod };
    raw_payload = some filled;
  })

-- `add_field_to_message`: `payload` is the memory behind `p_payload`, `size` is `payload_size`.
unfoldable pub add_field_to_message : FieldId → Memory → ℕ → Message → Exec (ErrorCode × Message)
unfolding reserve append_field
add_field_to_message field payload size m = do
  let full_size = (tag_size + int_size + size) % u32_mod
  (result, reserved) ← reserve full_size m
  if is_ok result
      then (do filled ← append_field field payload size full_size reserved; done (ok, filled))
      else done (result, reserved)

-- `add_time_to_message`; `now` is what `time (NULL)` returns, in eight bytes.
unfoldable pub add_time_to_message : ℕ → Message → Exec (ErrorCode × Message)
unfolding add_field_to_message le64
add_time_to_message now m = add_field_to_message message_time (cells (le64 now)) time_size m

-- `add_string_to_message`: the characters and their terminator.
unfoldable pub add_string_to_message : FieldId → Memory → Message → Exec (ErrorCode × Message)
unfolding add_field_to_message strlen
add_string_to_message field text m = do
  n ← or_fault (strlen text)
  add_field_to_message field text (n + 1) m

unfoldable pub add_num_to_message : FieldId → ℕ → Message → Exec (ErrorCode × Message)
unfolding add_field_to_message le32
add_num_to_message field number m = add_field_to_message field (cells (le32 number)) int_size m

-- What `get_field_from_message` stores through its two pointers: the size, and where in the payload
-- the value starts.
pub record Found : Type 0 where
  pub size : ℕ
  pub offset : ℕ

-- `size_to_parse -= sizeof (field_id_t) + sizeof (unsigned int) + current_payload_size`, as an
-- unsigned int.
abbrev pub step_size : ℕ → ℕ → ℕ
step_size size_to_parse size =
    (size_to_parse + 2 * u32_mod - (tag_size + int_size + size)) % u32_mod

-- The loop of `get_field_from_message`, from `p_message_pointer` at an offset on.
unfoldable pub get_loop : ℕ → FieldId → Memory → ℕ → ℕ → Exec (ErrorCode × Option Found)
get_loop zero field m offset size_to_parse = out_of_fuel
get_loop (suc fuel) field m offset size_to_parse =
    let round = do
      tag ← or_fault (load32 m offset)
      size ← or_fault (load32 m (offset + tag_size))
      let found : Found = record { size = size; offset = offset + tag_size + int_size }
      let rest =
          get_loop fuel field m (offset + tag_size + int_size + size) (step_size size_to_parse size)
      if field_code field == tag then done (ok, some found) else rest
    in if size_to_parse == 0 then done (invalid_param, none) else round

-- `get_field_from_message`. Each round passes eight bytes of the block, so that the fuel lasts.
unfoldable pub get_field_from_message : FieldId → Message → Exec (ErrorCode × Option Found)
get_field_from_message field m =
    get_loop (suc (length (block m.raw_payload))) field (block m.raw_payload) 0 m.payload_size

-- The bytes of the packed `header`, which `get_header` points to.
unfoldable pub header_bytes : Header → List ℕ
unfolding le32
header_bytes h =
    (h.message_version % 256)
    ∷ (le32 h.message_id ++ (le32 h.payload_size ++ le32 h.message_result))

-- The header that thirteen received bytes make up; none if the bytes are fewer or more.
unfoldable pub header_of_bytes : Memory → Option Header
unfolding from_le32
header_of_bytes (some v ∷ a ∷ b ∷ c ∷ d ∷ e ∷ f ∷ g ∷ h ∷ i ∷ j ∷ k ∷ l ∷ []) =
    elim (from_le32 (a ∷ b ∷ c ∷ d ∷ [])) [
      | none ↦ none
      | some id ↦ elim (from_le32 (e ∷ f ∷ g ∷ h ∷ [])) [
        | none ↦ none
        | some size ↦ elim (from_le32 (i ∷ j ∷ k ∷ l ∷ [])) [
          | none ↦ none
          | some result ↦ some (record {
            message_version = v;
            message_id = id;
            payload_size = size;
            message_result = result;
          })
        ]
      ]
    ]
header_of_bytes _ = none

-- `get_payload`: the first `payload_size` bytes behind the pointer.
unfoldable pub payload : Message → Exec Memory
unfolding read_at
payload m = or_fault (read_at (block m.raw_payload) 0 m.payload_size)
