-- ===== src/Head/HistoryTests.antt =====
-- A head that registers and is shown an alarm.
use shp.Base.{
  ℕ, ◌≡◌, inr, ◌++◌, ◌/◌, ◌%◌, refl, true, none, some, List, [], ◌∷◌, replicate, done, arith,
}
use shp.Memory.{Memory, cells, le32, le64, strlen, from_le32, from_le64, read_at, write_at, load32}
use shp.Message.{Message, FieldId, field_code, get_loop, get_field_from_message}
use shp.Message.Fields.{Field, encode}
use shp.Message.Build.{field_of}
use shp.Configuration.{
  Config, head_configuration, look, load, load_num, load_time, copy_string, take_sensors,
  new_screen, new_status, string_at,
}
use shp.Configuration.Screen.{Entry, initial}
use shp.Configuration.Reading.{configured}
use shp.Client.Samples.{unset}
use shp.Sensor.{event_value}
use shp.Head.{Tm, show_message_event, show_rounds, show_one, is_one}
use shp.Head.Screen.{show_screen}
use shp.Head.Showing.{shown_text}
use shp.Head.Table.{IsTable, initial-Stands, Seen, printed, registered, notice}
use shp.Head.History.{
  Registers, Reports, start, next, shows, registers, Reports-IsTable, Runs-show_screen,
}

abbrev of_day : ℕ → Tm
of_day t = record { hour = t / 3600 % 24; min = t / 60 % 60; sec = t % 60 }

abbrev door : Entry
door = record {
  name = cells (b'd' ∷ 0 ∷ []) ++ replicate 31 none;
  type_name = cells (b'P' ∷ 0 ∷ []) ++ replicate 15 none;
  gpio = 7;
  name_length = 1;
}

abbrev hall : Memory
hall = cells (b'h' ∷ 0 ∷ [])

abbrev answer_fields : List Field
answer_fields =
    field_of FieldId.message_time (cells (le64 1000))
    ∷ field_of FieldId.config_client_id (cells (le32 5))
    ∷ field_of FieldId.config_name hall
    ∷ field_of FieldId.config_sensor_count (cells (le32 1))
    ∷ field_of FieldId.config_sensor_data (door.name ++ (door.type_name ++ cells (le32 7)))
    ∷ []

abbrev answer : Message
answer = record {
  header = record { message_version = 1; message_id = 5; payload_size = 112; message_result = 0 };
  raw_payload = some (encode answer_fields);
  alloc_size = 112;
}

answer-Registers : Registers answer unset 1000 5 hall (door ∷ [])
unfolding field_code le32 le64 strlen
answer-Registers = record {
  fields = answer_fields;
  name_length = 1;
  represents = record {
    spare = [];
    content = refl;
    used = refl;
    allocated = refl;
    in_range = omega arith;
  };
  describes = record {
    fields = (
      (omega arith, omega arith),
      (
        (omega arith, omega arith),
        (
          (omega arith, omega arith),
          ((omega arith, omega arith), ((omega arith, omega arith), tt)),
        ),
      ),
    );
    id_word = omega arith;
    terminated = refl;
    whole = refl;
    room = omega arith;
    entries = (
      record {
        name_size = refl;
        type_size = refl;
        gpio_word = omega arith;
        terminated = refl;
        fits = omega arith;
      },
      tt,
    );
    few = omega arith;
    identified = refl;
    named = refl;
    counted = refl;
    listed = inr refl;
  };
  early = omega arith;
  timed = refl;
}

abbrev event_fields : List Field
event_fields =
    field_of FieldId.message_time (cells (le64 61))
    ∷ field_of FieldId.sensor_gpio (cells (le32 7))
    ∷ field_of FieldId.sensor_data (event_value true)
    ∷ []

abbrev event : Message
event = record {
  header = record { message_version = 1; message_id = 100; payload_size = 38; message_result = 0 };
  raw_payload = some (encode event_fields);
  alloc_size = 38;
}

event-Reports : Reports event true 7 61
unfolding field_code le32 le64
event-Reports = record {
  fields = event_fields;
  represents = record {
    spare = [];
    content = refl;
    used = refl;
    allocated = refl;
    in_range = omega arith;
  };
  valid =
      ((omega arith, omega arith), ((omega arith, omega arith), ((omega arith, omega arith), tt)));
  data_there = refl;
  time_there = refl;
  pin_there = refl;
  pin_word = omega arith;
  early = omega arith;
}

-- The head after its registration.
abbrev known : Config
known = configured 1000 5 hall (door ∷ []) unset

takes_answer : head_configuration answer unset ≡ done known
unfolding head_configuration get_field_from_message get_loop field_code look load load_num load_time
    copy_string take_sensors new_screen new_status read_at write_at load32 from_le32 from_le64
    string_at strlen le32 le64
takes_answer = refl

known-IsTable : IsTable known (registered (door ∷ []))
known-IsTable = record {
  stands = initial-Stands (door ∷ []) answer-Registers.describes.entries;
  counted = refl;
}

abbrev alarmed : List Seen
alarmed = notice 7 (shown_text true (of_day 61)) (λ i. 70) 0 (registered (door ∷ []))

-- The head after the alarm.
abbrev warned : Config
warned = record known {
  screen =
      record (initial door) {
        buffer = shown_text true (of_day 61) ++ replicate 44 (some 0);
        last_message = 70;
      }
      ∷ [];
}

shows_event : show_message_event of_day (λ i. 70) event known ≡ done warned
unfolding show_message_event show_rounds show_one is_one get_field_from_message get_loop field_code
    look load load_num load_time read_at write_at load32 from_le32 from_le64 string_at strlen le32
    le64
shows_event = refl

Runs-show_screen_example : show_screen 75 warned ≡ done (printed 75 alarmed)
Runs-show_screen_example = Runs-show_screen of_day unset warned alarmed 75 refl (
    next (next start (registers answer-Registers takes_answer))
      (shows (λ i. 70) event-Reports shows_event))

Reports-IsTable_example :
    (c' : Config) × (show_message_event of_day (λ i. 70) event known ≡ done c') × IsTable c' alarmed
Reports-IsTable_example =
    Reports-IsTable of_day event true 7 61 (λ i. 70) known (registered (door ∷ [])) event-Reports
      known-IsTable
