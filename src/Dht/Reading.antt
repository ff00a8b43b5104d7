-- ===== src/Dht/Reading.antt =====
-- `do_task`: the retries end, and leave data with a valid check sum; one message is queued, and the
-- sensor is active again.
use shp.Base.{
  ℕ, zero, suc, ◌+◌, ◌*◌, ◌^◌, ◌≤◌, ◌<◌, ◌≡◌, refl, Bool, true, false, not, Bool-cases, inl, inr,
  if◌then◌else◌, done, arith, some, [], ◌∷◌, ◌++◌,
}
use native.Mathlib.Numerals.{unary_clauses}
use shp.Memory.{Memory, u32_mod}
use shp.Message.{Message}
use shp.Message.Fields.{Represents}
use shp.Queue.{Queue, add}
use shp.Queue.Order.{IsValid}
use shp.Queue.Fifo.{contents, add-contents}
use shp.Sensor.{Sensor, event_message, add_to_queue}
use shp.Sensor.Building.{IsSensor, event_fields, event_message-Represents}
use shp.Sensor.Reporting.{IsSensor-inactive}
use shp.Os.Ends.{Ends}
use shp.Dht.{
  Board, Frame, Model, zeros, is_data_crc_valid, dht11_is_data_crc_valid, dht22_is_data_crc_valid,
  wait_while, read_bit, read_bits, read_byte, start, read_data, retry_loop, do_task, sensor_setup,
  activate, event_off,
}
use shp.Dht.Values.{IsFrame}

module _ (board : Board) where
  open board use {World}

  -- What the pin shows after some reads in a row.
  unfoldable pub nth_read : ℕ → World → Bool
  nth_read zero w = (board.digital_read w).0
  nth_read (suc k) w = nth_read k (board.digital_read w).1

  -- The bus does not keep a level for longer than some reads.
  unfoldable pub IsAlive : ℕ → Type 0
  IsAlive fuel = (level : Bool) (w : World) → (k : ℕ) × (k < fuel) × (nth_read k w ≡ not level)

  pow_suc : (n : ℕ) → 2 ^ suc n ≡ 2 ^ n * 2
  pow_suc n = simp unary_clauses

  wait_while_ends :
      (fuel : ℕ) (level : Bool) (w : World) (k : ℕ)
      → k < fuel
      → nth_read k w ≡ not level
      → (w' : World) × (wait_while board fuel level w ≡ done (tt, w'))
  unfolding wait_while nth_read
  wait_while_ends zero level w k lt e = absurd (omega arith)
  wait_while_ends (suc fuel) true w zero lt e = ((board.digital_read w).1, rw e)
  wait_while_ends (suc fuel) false w zero lt e = ((board.digital_read w).1, rw e)
  wait_while_ends (suc fuel) level w (suc k) lt e =
      let (high, w1) = board.digital_read w in
      elim (Bool-cases (if level then high else not high)) [
        | inr other ↦ (w1, rw other)
        | inl same ↦
            let (w', ends) = wait_while_ends fuel level w1 k (omega arith) e in (w', rw same ends)
      ]

  module _ (fuel : ℕ) (alive : IsAlive fuel) where
    wait_while-Ends : (level : Bool) → Ends (wait_while board fuel level)
    unfolding IsAlive
    wait_while-Ends level w =
        let (k, lt, e) = alive level w in
        let (w', ends) = wait_while_ends fuel level w k lt e in ((tt, w'), ends)

    start-Ends : Ends (start board fuel)
    unfolding start
    start-Ends w =
        let released =
          board.delay_microseconds 30
            (board.digital_write true (board.delay 30 (board.digital_write false w))) in
        let ((t, w1), low) = wait_while-Ends true (board.pin_mode_output false released) in
        let ((t', w2), high) = wait_while-Ends false (board.delay_microseconds 80 w1) in
        ((tt, board.delay_microseconds 80 w2), rw (low, high))

    -- A bit adds its weight or nothing.
    read_bit_ends :
        (weight byte : ℕ) (w : World)
        → (byte' : ℕ) × (w' : World) × (read_bit board fuel weight byte w ≡ done (byte', w'))
          × (byte' ≤ byte + weight)
    unfolding read_bit
    read_bit_ends weight byte w =
        let ((t, w1), low) = wait_while-Ends true w in
        let ((t', w2), high) = wait_while-Ends false w1 in
        let (level, w3) = board.digital_read (board.delay_microseconds 30 w2) in
        (if level then byte + weight else byte, w3, rw (low, high), ground arith)

    read_bits_ends :
        (left byte : ℕ) (w : World)
        → byte + 2 ^ left ≤ 256
        → (byte' : ℕ) × (w' : World) × (read_bits board fuel left byte w ≡ done (byte', w'))
          × (byte' < 256)
    unfolding read_bits
    read_bits_ends zero byte w h = (byte, w, refl, omega arith)
    read_bits_ends (suc left) byte w h =
        let (byte1, w1, reads, bound) = read_bit_ends (2 ^ left) byte w in
        let (byte', w', rest, small) = read_bits_ends left byte1 w1 (omega (arith, pow_suc left)) in
        (byte', w', rw reads rest, small)

    read_byte_ends :
        (w : World)
        → (byte : ℕ) × (w' : World) × (read_byte board fuel w ≡ done (byte, w')) × (byte < 256)
    unfolding read_byte
    read_byte_ends w = read_bits_ends 8 0 w (omega arith)

    read_data_ends :
        (w : World)
        → (d : Frame) × (w' : World) × (read_data board fuel w ≡ done (d, w')) × IsFrame d
    unfolding read_data
    read_data_ends w =
        let ((t, w0), starts) = start-Ends w in
        let (b0, w1, e0, l0) = read_byte_ends w0 in
        let (b1, w2, e1, l1) = read_byte_ends w1 in
        let (b2, w3, e2, l2) = read_byte_ends w2 in
        let (b3, w4, e3, l3) = read_byte_ends w3 in
        let (b4, w5, e4, l4) = read_byte_ends w4 in
        (
          record { byte_0 = b0; byte_1 = b1; byte_2 = b2; byte_3 = b3; byte_4 = b4 },
          board.digital_write true (board.pin_mode_output true w5),
          rw (starts, e0, e1, e2, e3, e4),
          record { byte_0 = l0; byte_1 = l1; byte_2 = l2; byte_3 = l3; byte_4 = l4 },
        )

    zeros_valid : (model : Model) → is_data_crc_valid model zeros ≡ true
    unfolding is_data_crc_valid dht11_is_data_crc_valid dht22_is_data_crc_valid
    zeros_valid Model.dht11 = refl
    zeros_valid Model.dht22 = refl

    zeros-IsFrame : IsFrame zeros
    zeros-IsFrame = record {
      byte_0 = omega arith;
      byte_1 = omega arith;
      byte_2 = omega arith;
      byte_3 = omega arith;
      byte_4 = omega arith;
    }

    -- What the retries read and keep: the first frame with a valid check sum, or zeros where none of
    -- them is valid, with a wait between one attempt and the next.
    pub data Attempts (model : Model) : ℕ → World → Frame → World → Type 0 where
      reads :
          {left : ℕ} {w w' : World} {d : Frame}
          → read_data board fuel w ≡ done (d, w')
          → is_data_crc_valid model d ≡ true
          → Attempts model left w d w'
      gives_up :
          {w w' : World} {d : Frame}
          → read_data board fuel w ≡ done (d, w')
          → is_data_crc_valid model d ≡ false
          → Attempts model 0 w zeros w'
      tries_again :
          {left : ℕ} {w w1 w' : World} {d kept : Frame}
          → read_data board fuel w ≡ done (d, w1)
          → is_data_crc_valid model d ≡ false
          → Attempts model left (board.sleep 1 w1) kept w'
          → Attempts model (suc left) w kept w'

    retry_loop_ends :
        (model : Model) (retry_count : ℕ) (w : World)
        → (d : Frame) × (w' : World) × (retry_loop board fuel model retry_count w ≡ done (d, w'))
          × IsFrame d
          × (is_data_crc_valid model d ≡ true)
          × Attempts model retry_count w d w'
    unfolding retry_loop
    retry_loop_ends model zero w =
        let (d, w1, ends, frame) = read_data_ends w in
        elim (Bool-cases (is_data_crc_valid model d)) [
          | inl valid ↦ (d, w1, rw (ends, valid), frame, valid, reads ends valid)
          | inr wrong ↦
              (zeros, w1, rw (ends, wrong), zeros-IsFrame, zeros_valid model, gives_up ends wrong)
        ]
    retry_loop_ends model (suc retry_count) w =
        let (d, w1, ends, frame) = read_data_ends w in
        elim (Bool-cases (is_data_crc_valid model d)) [
          | inl valid ↦ (d, w1, rw (ends, valid), frame, valid, reads ends valid)
          | inr wrong ↦
              let (d', w', again, frame', valid', attempts) =
                retry_loop_ends model retry_count (board.sleep 1 w1) in
              (d', w', rw (ends, wrong) again, frame', valid', tries_again ends wrong attempts)
        ]

    event_off_called :
        (s : Sensor) (q : Queue Message) (m : Message) (w : World)
        → s.has_callbacks ≡ true
        → s.activated ≡ false
        → event_message false (board.time w).0 s ≡ done m
        → (w' : World) × (event_off board s (some q) w
            ≡ done ((record s { activated = true }, some (add m q).1), w'))
    unfolding event_off activate sensor_setup add_to_queue
    event_off_called s q m w called inactive makes = (
      board.digital_write true (board.pin_mode_output true (board.time w).1),
      rw (called, makes, inactive),
    )

    -- Where the bus does not keep a level for longer than the reads given, and the ids do not run out,
    -- `do_task` ends for a sensor of either kind that has its callbacks, and a name and a type with their
    -- terminators. It keeps the first of at most four frames read, a second apart, of which the check sum
    -- is valid, or zeros where none is, in each case five bytes with a valid check sum. Then one message
    -- of an event's end is in the queue, behind all that waited, with the time at which the reading ended;
    -- and the sensor is active again.
    pub do_task_ends :
        (model : Model) (s : Sensor) (type_name name : Memory) (q : Queue Message) (w : World)
        → IsSensor s type_name name
        → s.has_callbacks ≡ true
        → IsValid q
        → q.message_id + 1 < u32_mod
        → (d : Frame) × (m : Message) × (q' : Queue Message) × (w1 w' : World) × (do_task board fuel
              model s
              (some q)
              w
            ≡ done ((d, record s { activated = true }, some q'), w'))
          × Attempts model 3 w d w1
          × IsFrame d
          × (is_data_crc_valid model d ≡ true)
          × (contents q' ≡ contents q ++ m ∷ [])
          × Represents m (event_fields (board.time w1).0 type_name name s.gpio_num false)
    unfolding do_task
    do_task_ends model s type_name name q w v called valid_queue room =
        let (d, w1, ends, frame, valid, attempts) = retry_loop_ends model 3 w in
        let s' = record s { activated = false } in
        let (m, makes, id, represents) =
          event_message-Represents false (board.time w1).0 s' type_name name
            (IsSensor-inactive s type_name name v) in
        let (w', calls) = event_off_called s' q m w1 called refl makes in
        (
          d,
          m,
          (add m q).1,
          w1,
          w',
          rw (ends, calls),
          attempts,
          frame,
          valid,
          add-contents m q valid_queue room,
          represents,
        )
