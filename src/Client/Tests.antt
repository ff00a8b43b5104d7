-- ===== src/Client/Tests.antt =====
-- The theorems at concrete inputs.
use shp.Base.{◌≡◌, ◌++◌, refl, [], ◌∷◌, none, some, done, fault, arith, Option, ℤ}
use shp.Memory.{cells}
use shp.ErrorCodes.{ErrorCode, ok}
use shp.Message.{Message}
use shp.SocketClient.{new_client_socket}
use shp.Os.Line.{
  Line, eight_at_a_time, eight_at_a_time-SendLaws, eight_at_a_time-RecvLaws,
  eight_at_a_time-IsBytewise,
}
use shp.Queue.{Queue, values}
use shp.Client.{NetworkSettings, process_event, exchange}
use shp.Client.Configure.{process_configuration}
use shp.Client.Samples.{kitchen, general, one_button, settings_valid}
use shp.Client.Concluding.{Concludes, process_configuration-Concludes}
use shp.Client.Event.{Consumes, process_event_idle, process_event-Consumes}

abbrev idle : Line
idle = record { outgoing = []; incoming = [] }

-- The answer is a header alone.
abbrev answering : Line
answering = record {
  outgoing = [];
  incoming = 1 ∷ 101 ∷ 0 ∷ 0 ∷ 0 ∷ 0 ∷ 0 ∷ 0 ∷ 0 ∷ 0 ∷ 0 ∷ 0 ∷ 0 ∷ [];
}

abbrev network : NetworkSettings
network = record {
  address = cells (b'1' ∷ b'.' ∷ b'1' ∷ 0 ∷ []);
  port = 3456;
  connect_retry_count = 3;
  connect_retry_sleep = 2;
  write_timeout = 10;
  read_timeout = 10;
  keep_alive_timeout = 0;
}

abbrev event : Message
event = record {
  header = record { message_version = 1; message_id = 100; payload_size = 12; message_result = 0 };
  raw_payload = some (cells (11 ∷ 0 ∷ 0 ∷ 0 ∷ 4 ∷ 0 ∷ 0 ∷ 0 ∷ 7 ∷ 0 ∷ 0 ∷ 0 ∷ []) ++ none ∷ []);
  alloc_size = 13;
}

abbrev nothing_waits : Queue Message
nothing_waits = record { message_map = []; message_id = 4 }

abbrev two_wait : Queue Message
two_wait = record { message_map = (3, event) ∷ (4, event) ∷ []; message_id = 4 }

process_event_idle_example : process_event eight_at_a_time network nothing_waits idle ≡ fault
unfolding values
process_event_idle_example = process_event_idle eight_at_a_time network nothing_waits idle refl

process_event-Consumes_example :
    (result : ErrorCode) × (q' : Queue Message) × (w' : Line) × (process_event eight_at_a_time
        network two_wait answering
      ≡ done ((result, q'), w'))
    × Consumes result two_wait q' (event ∷ [])
unfolding values
process_event-Consumes_example =
    process_event-Consumes eight_at_a_time eight_at_a_time-SendLaws eight_at_a_time-RecvLaws
      eight_at_a_time-IsBytewise network event (omega arith) (omega arith) two_wait (event ∷ [])
      answering (record { rising = omega arith; numbered = omega arith; in_range = omega arith })
      refl refl

process_configuration-Concludes_example :
    (message : Message) × (answered : ErrorCode × Option Message) × (fd : ℤ) × (w1 : Line)
    × (exchange eight_at_a_time network message ok new_client_socket answering
        ≡ done ((answered, record new_client_socket { socket_fd = some fd }), w1))
    × (result : ErrorCode) × (w' : Line) × (process_configuration eight_at_a_time network general
          one_button answering
        ≡ done (result, w'))
    × Concludes answered result
process_configuration-Concludes_example =
    process_configuration-Concludes eight_at_a_time eight_at_a_time-SendLaws
      eight_at_a_time-RecvLaws eight_at_a_time-IsBytewise network general one_button 7 kitchen
      answering settings_valid refl
