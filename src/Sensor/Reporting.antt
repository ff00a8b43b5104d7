-- ===== src/Sensor/Reporting.antt =====
-- What one task of a sensor puts into the queue.
use shp.Base.{
  ℕ, zero, suc, ◌+◌, ◌<◌, ◌≡◌, refl, ◌∙◌, ap, Bool, true, false, not, some, [], ◌∷◌, ◌++◌,
  append_assoc, done, arith,
}
use shp.Memory.{Memory, u32_mod}
use shp.Message.{Message}
use shp.Message.Fields.{Represents}
use shp.Queue.{Queue, add}
use shp.Queue.Order.{IsValid, add-IsValid}
use shp.Queue.Fifo.{contents, add-contents}
use shp.Sensor.{
  Sensor, Board, event_message, activate, event_on, event_off, wait_while, do_task, working_round,
}
use shp.Sensor.Building.{IsSensor, event_fields, event_message-Represents}

pub IsSensor-inactive :
    (s : Sensor) (type_name name : Memory)
    → IsSensor s type_name name
    → IsSensor (record s { activated = false }) type_name name
IsSensor-inactive s type_name name v = record {
  type_extra = v.type_extra;
  type_length = v.type_length;
  type_same = v.type_same;
  type_ended = v.type_ended;
  type_whole = v.type_whole;
  type_short = v.type_short;
  name_extra = v.name_extra;
  name_length = v.name_length;
  name_same = v.name_same;
  name_ended = v.name_ended;
  name_whole = v.name_whole;
  name_short = v.name_short;
  pin = v.pin;
}

two_added :
    (x y : Message) (q : Queue Message)
    → IsValid q
    → q.message_id + 2 < u32_mod
    → contents (add y (add x q).1).1 ≡ contents q ++ x ∷ y ∷ []
unfolding add
two_added x y q valid room =
    let once : q.message_id + 1 < u32_mod = omega arith in
    add-contents y (add x q).1 (add-IsValid x q valid once) (omega arith)
    ∙ ap (λ t. t ++ y ∷ []) (add-contents x q valid once)
    ∙ append_assoc (contents q) (x ∷ []) (y ∷ [])

module _ (board : Board) where
  open board use {World}

  -- The pin stands at a level for a number of reads, and the next read finds the other.
  unfoldable pub Stands : ℕ → ℕ → Bool → World → World → Type 0
  Stands gpio zero level w w' = board.digital_read gpio w ≡ (not level, w')
  Stands gpio (suc k) level w w' =
      (w1 : World) × (board.digital_read gpio w ≡ (level, w1))
      × Stands gpio k level (board.delay 100 w1) w'

  wait_while_lem :
      (fuel k gpio : ℕ) (level : Bool) (w w' : World)
      → Stands gpio k level w w'
      → k < fuel
      → wait_while board fuel level gpio w ≡ done (tt, w')
  unfolding wait_while Stands
  wait_while_lem zero k gpio level w w' stands enough = absurd (omega arith)
  wait_while_lem (suc fuel) zero gpio true w w' stands enough = rw stands
  wait_while_lem (suc fuel) zero gpio false w w' stands enough = rw stands
  wait_while_lem (suc fuel) (suc k) gpio true w w' (w1, reads, stands) enough =
      rw reads (wait_while_lem fuel k gpio true (board.delay 100 w1) w' stands (omega arith))
  wait_while_lem (suc fuel) (suc k) gpio false w w' (w1, reads, stands) enough =
      rw reads (wait_while_lem fuel k gpio false (board.delay 100 w1) w' stands (omega arith))

  event_on_called :
      (s : Sensor) (q : Queue Message) (m : Message) (w : World)
      → s.has_callbacks ≡ true
      → event_message true (board.time w).0 s ≡ done m
      → event_on board s (some q) w ≡ done (some (add m q).1, (board.time w).1)
  unfolding event_on
  event_on_called s q m w called makes = rw (called, makes)

  event_off_called :
      (s : Sensor) (q : Queue Message) (m : Message) (w : World)
      → s.has_callbacks ≡ true
      → s.activated ≡ false
      → event_message false (board.time w).0 s ≡ done m
      → event_off board s (some q) w
        ≡ done (
          (record s { activated = true }, some (add m q).1),
          board.pin_mode_input s.gpio_num (board.time w).1,
        )
  unfolding event_off activate
  event_off_called s q m w called inactive makes = rw (called, makes, inactive)

  module _ (s : Sensor) (type_name name : Memory) (v : IsSensor s type_name name)
      (called : s.has_callbacks ≡ true) where
    -- Where the pin leaves its level at rest after k reads and comes back to it after j more, and the
    -- ids do not run out, one task of an active sensor ends; the queue has two more messages behind all
    -- that waited, first one of the event and then one of its end, with the times at which they came;
    -- and the sensor is active again, so that the next task follows.
    pub working_round-reports :
        (fuel k j : ℕ) (rest : Bool) (q : Queue Message) (w w1 w2 : World)
        → s.activated ≡ true
        → Stands s.gpio_num k rest w w1
        → Stands s.gpio_num j (not rest) (board.time w1).1 w2
        → k < fuel
        → j < fuel
        → IsValid q
        → q.message_id + 2 < u32_mod
        → (on_message : Message) × (off_message : Message) × (q' : Queue Message) × (w' : World)
          × (working_round board fuel rest s (some q) w
              ≡ done ((record s { activated = true }, some q'), w'))
          × (contents q' ≡ contents q ++ on_message ∷ off_message ∷ [])
          × Represents on_message (event_fields (board.time w1).0 type_name name s.gpio_num true)
          × Represents off_message (event_fields (board.time w2).0 type_name name s.gpio_num false)
    unfolding working_round do_task
    working_round-reports fuel k j rest q w w1 w2 active leaves returns enough enough' valid room =
        let s' = record s { activated = false } in
        let v' = IsSensor-inactive s type_name name v in
        let (m1, e1, id1, r1) =
          event_message-Represents true (board.time w1).0 s' type_name name v' in
        let (m2, e2, id2, r2) =
          event_message-Represents false (board.time w2).0 s' type_name name v' in
        (
          m1,
          m2,
          (add m2 (add m1 q).1).1,
          board.pin_mode_input s.gpio_num (board.time w2).1,
          rw (
            active,
            wait_while_lem fuel k s.gpio_num rest w w1 leaves enough,
            event_on_called s' q m1 w1 called e1,
            wait_while_lem fuel j s.gpio_num (not rest) (board.time w1).1 w2 returns enough',
            event_off_called s' (add m1 q).1 m2 w2 called refl e2,
          ),
          two_added m1 m2 q valid room,
          r1,
          r2,
        )
