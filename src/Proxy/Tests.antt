-- ===== src/Proxy/Tests.antt =====
-- The theorems at concrete inputs.
use shp.Base.{◌≡◌, ◌++◌, refl, [], ◌∷◌, pos, none, some, done, arith, Option, List, ℤ}
use shp.Memory.{cells, le32}
use shp.Message.{Message, FieldId, field_code}
use shp.Message.Fields.{Field, Represents, encode}
use shp.Message.Get.{AreFields}
use shp.Message.Build.{field_of}
use shp.Os.Line.{
  Line, eight_at_a_time, eight_at_a_time-SendLaws, eight_at_a_time-RecvLaws,
  eight_at_a_time-IsBytewise,
}
use shp.ErrorCodes.{ErrorCode, ok}
use shp.Client.{exchange}
use shp.SocketClient.{new_client_socket}
use shp.Proxy.Thread.{head_network, forward}
use shp.Proxy.Forwarding.{forward_drops}
use shp.Proxy.Version.{Directory, get_update_file, version_answer}
use shp.Proxy.Updating.{
  IsHighest, names_of, Answers, get_update_file-IsHighest, version_answer-Answers,
}
use shp.Queue.{Queue, values}
use shp.Queue.Fifo.{contents}
use shp.SocketServer.{ServerSocket}

abbrev idle : Line
idle = record { outgoing = []; incoming = [] }

abbrev connected : ServerSocket
connected = record { socket_fd = pos 3; accept_fd = pos 4; write_timeout = 10; read_timeout = 60 }

abbrev event : Message
event = record {
  header = record { message_version = 1; message_id = 100; payload_size = 0; message_result = 0 };
  raw_payload = none;
  alloc_size = 0;
}

abbrev one_waits : Queue Message
one_waits = record { message_map = (3, event) ∷ []; message_id = 3 }

abbrev full_event : Message
full_event = record {
  header = record { message_version = 1; message_id = 100; payload_size = 12; message_result = 0 };
  raw_payload = some (cells (11 ∷ 0 ∷ 0 ∷ 0 ∷ 4 ∷ 0 ∷ 0 ∷ 0 ∷ 7 ∷ 0 ∷ 0 ∷ 0 ∷ []) ++ none ∷ []);
  alloc_size = 13;
}

abbrev two_wait : Queue Message
two_wait = record { message_map = (3, full_event) ∷ (4, event) ∷ []; message_id = 4 }

forward_drops_example :
    (answered : ErrorCode × Option Message) × (fd : ℤ) × (w1 : Line) × (exchange eight_at_a_time
        head_network full_event ok new_client_socket idle
      ≡ done ((answered, record new_client_socket { socket_fd = some fd }), w1))
    × (q' : Queue Message) × (w' : Line) × (forward eight_at_a_time two_wait idle ≡ done (q', w'))
    × (contents q' ≡ event ∷ [])
unfolding values
forward_drops_example =
    forward_drops eight_at_a_time eight_at_a_time-SendLaws eight_at_a_time-RecvLaws
      eight_at_a_time-IsBytewise two_wait full_event (event ∷ []) idle (omega arith) (omega arith)
      (record { rising = omega arith; numbered = omega arith; in_range = omega arith }) refl refl

-- A directory with the versions 7 and 12, and another file.
abbrev two_versions : Directory
two_versions = record {
  entries = some (
      (b'7' ∷ b'.' ∷ b'g' ∷ b'z' ∷ [])
      ∷ (b'a' ∷ b'.' ∷ b'c' ∷ [])
      ∷ (b'1' ∷ b'2' ∷ b'.' ∷ b'g' ∷ b'z' ∷ [])
      ∷ []);
  file = λ version. some (2, 31 ∷ 139 ∷ []);
}

abbrev version_fields : List Field
version_fields = field_of FieldId.version (cells (le32 9)) ∷ []

abbrev asking : Message
asking = record {
  header = record { message_version = 1; message_id = 0; payload_size = 12; message_result = 0 };
  raw_payload = some (encode version_fields);
  alloc_size = 12;
}

asking-Represents : Represents asking version_fields
unfolding field_code le32
asking-Represents = record {
  spare = [];
  content = refl;
  used = refl;
  allocated = refl;
  in_range = omega arith;
}

version_fields-AreFields : AreFields version_fields
unfolding field_code le32
version_fields-AreFields = ((omega arith, omega arith), tt)

get_update_file-IsHighest_example :
    IsHighest 9 (names_of two_versions.entries) (get_update_file two_versions 9)
get_update_file-IsHighest_example = get_update_file-IsHighest two_versions 9

version_answer-Answers_example :
    (answer : Message) × (version_answer two_versions asking ≡ done answer)
    × Answers two_versions 9 (31 ∷ 139 ∷ []) answer
unfolding field_code le32
version_answer-Answers_example =
    version_answer-Answers two_versions asking version_fields asking-Represents
      version_fields-AreFields 9 (31 ∷ 139 ∷ []) (omega arith) refl refl (omega arith)
