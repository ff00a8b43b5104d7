-- ===== src/Proxy/RoundTests.antt =====
-- A round in which an event comes, at a concrete input.
use shp.Base.{
  ◌≡◌, inr, refl, sym, ap, subst, ◌∙◌, [], ◌∷◌, pos, minus_one, none, some, done, arith, Option,
}
use shp.ErrorCodes.{ErrorCode, ok}
use shp.Message.{Message, message_id_code, header_of_bytes, message_of_header}
use shp.Os.Line.{
  Line, eight_at_a_time, eight_at_a_time-SendLaws, eight_at_a_time-RecvLaws,
  eight_at_a_time-IsBytewise,
}
use shp.Memory.{from_le32, write_at}
use shp.Socket.{recv_data, recv_loop, recv_round, recv_once, accept, set_blocking}
use shp.Transfer.{recv_parts, recv_payload, fill_payload}
use shp.Transfer.Through.{done_injective}
use shp.Transfer.Trip.{some_injective}
use shp.SocketServer.Reception.{Reception, Receives}
use shp.SocketServer.{ServerSocket, accept_client, recv_message}
use shp.Client.Samples.{unset}
use shp.Proxy.Version.{Directory}
use shp.Proxy.Thread.{Served, serve}
use shp.Proxy.Serving.{Answerable, unread}
use shp.Proxy.Rounds.{Serves, serve-Handles}

abbrev event : Message
event = record {
  header = record { message_version = 1; message_id = 100; payload_size = 0; message_result = 0 };
  raw_payload = none;
  alloc_size = 0;
}

abbrev calling : Line
calling = record {
  outgoing = [];
  incoming = 1 ∷ 100 ∷ 0 ∷ 0 ∷ 0 ∷ 0 ∷ 0 ∷ 0 ∷ 0 ∷ 0 ∷ 0 ∷ 0 ∷ 0 ∷ [];
}

abbrev listening : ServerSocket
listening = record {
  socket_fd = pos 3;
  accept_fd = minus_one;
  write_timeout = 10;
  read_timeout = 60;
}

abbrev serving : Served
serving = record {
  socket = listening;
  queue = record { message_map = (3, event) ∷ []; message_id = 3 };
  config = unset;
  leaked = [];
}

abbrev no_files : Directory
no_files = record { entries = none; file = λ version. none }

abbrev accepted : ServerSocket
accepted = record listening { accept_fd = pos 4 }

accepts : accept_client eight_at_a_time listening calling ≡ done ((ok, accepted), calling)
unfolding accept_client set_blocking accept
accepts = refl

receives :
    recv_message eight_at_a_time accepted calling
    ≡ done ((ok, some event), record { outgoing = []; incoming = [] })
unfolding recv_message recv_parts recv_payload fill_payload message_of_header header_of_bytes
    recv_data recv_loop recv_round recv_once from_le32 write_at
receives = refl

-- Whatever is received in this round is the event.
received_event :
    (socket : ServerSocket) (m : Message) (w1 w2 : Line)
    → accept_client eight_at_a_time listening calling ≡ done ((ok, socket), w1)
    → recv_message eight_at_a_time socket w1 ≡ done ((ok, some m), w2)
    → event ≡ m
received_event socket m w1 w2 a r =
    let same : ◌≡◌ {A = (ErrorCode × ServerSocket) × Line} ((ok, accepted), calling)
        ((ok, socket), w1) =
      done_injective ((ok, accepted), calling) ((ok, socket), w1) (sym accepts ∙ a) in
    let there : recv_message eight_at_a_time socket w1
        ≡ done ((ok, some event), record { outgoing = []; incoming = [] }) =
      subst
        (λ p.
          recv_message eight_at_a_time p.0.1 p.1
          ≡ done ((ok, some event), record { outgoing = []; incoming = [] }))
        same receives in
    let ends : ◌≡◌ {A = (ErrorCode × Option Message) × Line}
        ((ok, some event), record { outgoing = []; incoming = [] }) ((ok, some m), w2) =
      done_injective ((ok, some event), record { outgoing = []; incoming = [] }) ((ok, some m), w2)
        (sym there ∙ r) in
    some_injective event m (ap (λ p. p.0.1) ends)

event-Answerable : Answerable no_files 1000 event unset
unfolding message_id_code
event-Answerable = unread (omega arith) (omega arith) (omega arith)

serve-Handles_example :
    (r : Reception) × (s' : Served) × (w' : Line) × Receives eight_at_a_time serving.socket calling
      r
    × (serve eight_at_a_time no_files 1000 serving calling ≡ done (s', w'))
    × Serves r serving s'
serve-Handles_example =
    serve-Handles eight_at_a_time eight_at_a_time-SendLaws eight_at_a_time-RecvLaws
      eight_at_a_time-IsBytewise no_files 1000 serving calling (λ fd w. inr refl)
      (record { rising = omega arith; numbered = omega arith; in_range = omega arith })
      (omega arith)
      (λ socket m w1 w2 a r.
        subst (λ x. Answerable no_files 1000 x unset) (received_event socket m w1 w2 a r)
          event-Answerable)
