-- ===== src/Message/Tests.antt =====
-- Concrete runs, and the theorems at concrete inputs.
use shp.Base.{fault, ◌≢◌, ◌⊎◌, ◌≡◌, refl, none, some, List, [], ◌∷◌, ◌++◌, done, arith}
use shp.Memory.{Memory, cells, read_at, le32, load32}
use shp.ErrorCodes.{ok, invalid_param}
use shp.Message.{
  Message, MessageId, FieldId, field_code, new_message, add_field_to_message, add_num_to_message,
  get_loop, get_field_from_message,
}
use shp.Message.Fields.{Field, Represents}
use shp.Message.Add.{Added, add_field_to_message-Added}
use shp.Message.Get.{Finds, get_field_from_message-value_of}
use shp.Message.Bounds.{get_field_from_message_truncated, get_field_from_message_overrun}

abbrev event : Message
event = record {
  header = record { message_version = 1; message_id = 100; payload_size = 0; message_result = 0 };
  raw_payload = none;
  alloc_size = 0;
}

abbrev gpio_value : Memory
gpio_value = cells (3 ∷ 0 ∷ 0 ∷ 0 ∷ [])

-- The event with a gpio number and a text "1".
abbrev event_fields : List Field
event_fields =
    record { tag = 11; value = gpio_value } ∷ record { tag = 9; value = cells (b'1' ∷ 0 ∷ []) } ∷ []

abbrev sent : Message
sent = record {
  header = record { message_version = 1; message_id = 100; payload_size = 22; message_result = 0 };
  raw_payload = some (
      cells (
        11 ∷ 0 ∷ 0 ∷ 0 ∷ 4 ∷ 0 ∷ 0 ∷ 0 ∷ 3 ∷ 0 ∷ 0 ∷ 0 ∷ 9 ∷ 0 ∷ 0 ∷ 0 ∷ 2 ∷ 0 ∷ 0 ∷ 0 ∷ b'1' ∷ 0
        ∷ [])
      ++ none ∷ none ∷ []);
  alloc_size = 24;
}

sent-Represents : Represents sent event_fields
unfolding le32
sent-Represents = record {
  spare = none ∷ none ∷ [];
  content = refl;
  used = refl;
  allocated = refl;
  in_range = omega arith;
}

built : new_message MessageId.send_event ≡ event
unfolding new_message
built = refl

add_num_runs :
    add_num_to_message FieldId.sensor_gpio 3 event
    ≡ done (
      ok,
      record {
        header = record {
          message_version = 1;
          message_id = 100;
          payload_size = 12;
          message_result = 0;
        };
        raw_payload = some (cells (11 ∷ 0 ∷ 0 ∷ 0 ∷ 4 ∷ 0 ∷ 0 ∷ 0 ∷ 3 ∷ 0 ∷ 0 ∷ 0 ∷ []));
        alloc_size = 12;
      },
    )
unfolding add_num_to_message le32
add_num_runs = refl

get_runs :
    get_field_from_message FieldId.sensor_data sent
    ≡ done (ok, some (record { size = 2; offset = 20 }))
unfolding get_field_from_message get_loop load32 field_code
get_runs = refl

get_missing : get_field_from_message FieldId.config_ip sent ≡ done (invalid_param, none)
unfolding get_field_from_message get_loop load32 field_code
get_missing = refl

add_field_to_message-Added_example :
    (m' : Message) × (add_field_to_message FieldId.sensor_gpio (gpio_value ++ (some 9 ∷ [])) 4 event
      ≡ done (ok, m'))
    × Added event m' [] (record { tag = field_code FieldId.sensor_gpio; value = gpio_value })
add_field_to_message-Added_example =
    add_field_to_message-Added event [] FieldId.sensor_gpio gpio_value (some 9 ∷ [])
      (record { spare = []; content = refl; used = refl; allocated = refl; in_range = omega arith })
      (omega arith)

get_field_from_message-value_of_example :
    Finds sent FieldId.sensor_data (some (cells (b'1' ∷ 0 ∷ [])))
unfolding field_code
get_field_from_message-value_of_example =
    get_field_from_message-value_of sent event_fields FieldId.sensor_data sent-Represents
      (omega arith)

-- Three bytes of payload.
abbrev cut_short : Message
cut_short = record {
  header = record { message_version = 1; message_id = 100; payload_size = 3; message_result = 0 };
  raw_payload = some (cells (11 ∷ 0 ∷ 0 ∷ []));
  alloc_size = 3;
}

get_field_from_message_truncated_example :
    get_field_from_message FieldId.sensor_gpio cut_short ≡ fault
get_field_from_message_truncated_example =
    get_field_from_message_truncated FieldId.sensor_gpio cut_short (cells (11 ∷ 0 ∷ 0 ∷ []))
      (record { content = refl; whole = refl; in_range = omega arith }) (omega arith) (omega arith)

-- A gpio number that claims a thousand bytes and has one.
abbrev liar_body : Memory
liar_body = cells (11 ∷ 0 ∷ 0 ∷ 0 ∷ 232 ∷ 3 ∷ 0 ∷ 0 ∷ 3 ∷ [])

abbrev liar : Message
liar = record {
  header = record { message_version = 1; message_id = 100; payload_size = 9; message_result = 0 };
  raw_payload = some liar_body;
  alloc_size = 9;
}

get_field_from_message_overrun_example :
    ((field_code FieldId.sensor_data ≡ 11)
      × (get_field_from_message FieldId.sensor_data liar
          ≡ done (ok, some (record { size = 1000; offset = 8 })))
      × (read_at liar_body 8 1000 ≡ none))
    ⊎ ((field_code FieldId.sensor_data ≢ 11)
        × (get_field_from_message FieldId.sensor_data liar ≡ fault))
unfolding load32
get_field_from_message_overrun_example =
    get_field_from_message_overrun FieldId.sensor_data liar liar_body 11 1000
      (record { content = refl; whole = refl; in_range = omega arith }) refl refl (omega arith)
      (omega arith)
