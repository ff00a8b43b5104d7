-- ===== src/Travels/Tests/Order.antt =====
-- An event on its way from the client's queue to the screen.
use shp.Base.{ℕ, ◌≡◌, refl, true, List, [], ◌∷◌, done, arith}
use shp.Memory.{cells, le32, read_at, write_at, from_le32}
use shp.ErrorCodes.{ok}
use shp.Message.{Message, header_bytes, header_of_bytes, message_of_header}
use shp.Os.Line.{
  Line, eight_at_a_time, eight_at_a_time-SendLaws, eight_at_a_time-RecvLaws,
  eight_at_a_time-IsBytewise,
}
use shp.Socket.{
  send_data, send_loop, send_round, send_once, recv_data, recv_loop, recv_round, recv_once,
  create_socket, connect_to_server, set_blocking, close_socket, clear_nonblock, set_nonblock,
}
use shp.SocketClient.{
  new_client_socket, connect, connect_loop, connect_created, send_and_receive, close,
}
use shp.Transfer.{send_parts, recv_parts, recv_payload, fill_payload}
use shp.Queue.{Queue, new_queue, add, peek, remove, map_erase, map_find}
use shp.Client.{process_event, exchange, close_twice}
use shp.Travels.InOrder.{InOrder}
use shp.Travels.Pipeline.{
  Step, line, is_lossless, still, flows_on, System, Waits, IsSendable, start, next, happens,
  delivered, passes, displayed, nothing_yet,
}
use shp.Travels.Rounds.{show_next_oldest}
use shp.Travels.Lossless.{Flows-line}
use shp.Travels.Ordered.{Runs-InOrder}
use shp.Proxy.Thread.{head_network, forward}
use shp.Travels.Tests.Event.{
  alarm, alarm_wire, event_header, event_bytes, noon, head, screen, door, pir_type, door_name,
  door-IsSensor, makes_alarm, alarm_came, passed_on,
}
use shp.Travels.Event.{event_travels}
use shp.Transfer.Receiving.{arrived}
use shp.Head.{show_message_event}
use shp.Head.Showing.{Shows, shown_text}
use shp.Configuration.{SensorStatus}
use shp.Queue.{values, map_insert}
use shp.Queue.Order.{IsValid}

abbrev answering : Line
answering = record {
  outgoing = [];
  incoming = 1 ∷ 101 ∷ 0 ∷ 0 ∷ 0 ∷ 0 ∷ 0 ∷ 0 ∷ 0 ∷ 0 ∷ 0 ∷ 0 ∷ 0 ∷ [];
}

abbrev emptied : Queue Message
emptied = record { message_map = []; message_id = 1 }

abbrev one : Queue Message
one = record { message_map = (1, alarm) ∷ []; message_id = 1 }

abbrev one_came : Queue Message
one_came = record { message_map = (1, arrived event_header event_bytes) ∷ []; message_id = 1 }

client_sends :
    process_event eight_at_a_time head_network one answering
    ≡ done (
      (ok, record { message_map = []; message_id = 1 }),
      record { outgoing = cells alarm_wire; incoming = [] },
    )
unfolding process_event exchange close_twice peek remove connect connect_loop connect_created
    new_client_socket send_and_receive close send_parts send_data send_loop send_round send_once
    header_bytes le32 recv_parts recv_payload fill_payload message_of_header header_of_bytes
    recv_data recv_loop recv_round recv_once from_le32 write_at create_socket connect_to_server
    set_blocking close_socket read_at map_erase map_find clear_nonblock set_nonblock
client_sends = refl

proxy_passes_on :
    forward eight_at_a_time one_came answering
    ≡ done (
      record { message_map = []; message_id = 1 },
      record { outgoing = cells alarm_wire; incoming = [] },
    )
unfolding forward exchange close_twice peek remove connect connect_loop connect_created
    new_client_socket send_and_receive close send_parts send_data send_loop send_round send_once
    header_bytes le32 recv_parts recv_payload fill_payload message_of_header header_of_bytes
    recv_data recv_loop recv_round recv_once from_le32 write_at create_socket connect_to_server
    set_blocking close_socket read_at map_erase map_find clear_nonblock set_nonblock
proxy_passes_on = refl

alarm_on_screen :
    (screen' : List SensorStatus) × (show_message_event noon
        (λ i. 1001)
        (arrived event_header event_bytes)
        head
      ≡ done (record head { screen = screen' }))
    × Shows 7 (shown_text true (noon 1000)) (λ i. 1001) 0 screen screen'
alarm_on_screen =
    event_travels noon (λ i. 1001) head true 1000 door pir_type door_name alarm
      (arrived event_header event_bytes) (arrived event_header event_bytes) door-IsSensor
      (omega arith) refl (refl, (refl, tt)) makes_alarm alarm_came passed_on

one_valid : IsValid one
one_valid = record { rising = omega arith; numbered = omega arith; in_range = omega arith }

came_valid : IsValid one_came
came_valid = record { rising = omega arith; numbered = omega arith; in_range = omega arith }

one_waits : Waits one alarm []
unfolding values
one_waits = (one_valid, refl)

came_waits : Waits one_came (arrived event_header event_bytes) []
unfolding values
came_waits = (came_valid, refl)

abbrev shown_alarm : System ℕ
shown_alarm = record {
  client = emptied;
  proxy = emptied;
  head = emptied;
  happened = 60 ∷ [];
  shown = 60 ∷ [];
}

abbrev happened_once : System ℕ
happened_once = record nothing_yet { client = one; happened = 60 ∷ [] }

abbrev came_to_proxy : System ℕ
came_to_proxy = record happened_once { client = emptied; proxy = one_came }

abbrev came_to_head : System ℕ
came_to_head = record came_to_proxy { proxy = emptied; head = one_came }

abbrev Round : System ℕ → System ℕ → Type 0
Round = Step eight_at_a_time head_network noon (λ m. m.payload_size)

abbrev alarm_happens : Round nothing_yet happened_once
unfolding add new_queue map_insert
alarm_happens = happens alarm (omega arith)

abbrev alarm_delivered : Round happened_once came_to_proxy
unfolding add new_queue map_insert
alarm_delivered =
    let can : IsSendable eight_at_a_time alarm answering = record {
      inside = omega arith;
      word = omega arith;
      open_fd = refl;
    } in
    delivered {came = arrived event_header event_bytes} one_waits can client_sends refl refl
      (omega arith)

abbrev alarm_passes : Round came_to_proxy came_to_head
unfolding add new_queue map_insert
alarm_passes =
    let can : IsSendable eight_at_a_time (arrived event_header event_bytes) answering = record {
      inside = omega arith;
      word = omega arith;
      open_fd = refl;
    } in
    passes {came = arrived event_header event_bytes} came_waits can proxy_passes_on refl
      (omega arith)

abbrev alarm_displayed : Round came_to_head shown_alarm
unfolding peek remove map_erase map_find
alarm_displayed =
    displayed (λ i. 1001) head came_waits alarm_on_screen.1
      (show_next_oldest noon (λ i. 1001) one_came (arrived event_header event_bytes) [] head
        (record head { screen = alarm_on_screen.0 }) came_valid came_waits.1 alarm_on_screen.1)

Runs-InOrder_example : InOrder {A = ℕ} (60 ∷ []) (60 ∷ [])
Runs-InOrder_example =
    Runs-InOrder eight_at_a_time head_network noon (λ m. m.payload_size) eight_at_a_time-SendLaws
      eight_at_a_time-RecvLaws eight_at_a_time-IsBytewise shown_alarm
      (next (next (next (next start alarm_happens) alarm_delivered) alarm_passes) alarm_displayed)

-- The alarm still waits in the head.
Flows-line_example :
    line eight_at_a_time head_network noon (λ m. m.payload_size) came_to_head ≡ 60 ∷ []
unfolding is_lossless alarm_happens alarm_delivered alarm_passes
Flows-line_example =
    Flows-line eight_at_a_time head_network noon (λ m. m.payload_size) eight_at_a_time-SendLaws
      eight_at_a_time-RecvLaws eight_at_a_time-IsBytewise came_to_head
      (flows_on (flows_on (flows_on still alarm_happens refl) alarm_delivered refl) alarm_passes
        refl)
