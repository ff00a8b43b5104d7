-- ===== src/Transfer/Sending.antt =====
-- A message on the wire: its header, then its payload, in one piece.
use shp.Base.{
  ℕ, ◌+◌, ◌≤◌, ◌≡◌, sym, ap, ◌∙◌, ℤ, true, false, Bool-cases, inl, inr, ◌++◌, ◌==◌, length, take,
  length-append, length-take, append_assoc, arith, take-take, take_all, take-append_past,
  take-append_within, append-nil,
}
use shp.Memory.{Memory, IsU32, cells}
use shp.ErrorCodes.{is_ok, ok, eq_of_is_ok}
use shp.Message.{Message, block, header_bytes, header_size}
use shp.Message.Wire.{length-header_cells}
use shp.Os.{Os}
use shp.Os.Laws.{SendLaws}
use shp.Socket.{send_data, is_settable}
use shp.Socket.Send.{Delivers, send_data-Delivers, SendsFront, Delivers-SendsFront}
use shp.Transfer.{send_parts}

-- What a message is on the wire.
abbrev pub wire : Message → Memory
wire m = cells (header_bytes m.header) ++ take m.payload_size (block m.raw_payload)

module _ (os : Os) (laws : SendLaws os) (fd : ℤ) (timeout : ℕ) (m : Message) (w : os.World)
    (open_fd : is_settable fd ≡ true) (whole : m.payload_size ≤ length (block m.raw_payload))
    (word : IsU32 m.payload_size) where
  open laws use {outgoing}

  head :
      Delivers os laws fd
        (cells (header_bytes m.header))
        header_size
        w
        (send_data os fd (cells (header_bytes m.header)) header_size timeout)
  head =
      send_data-Delivers os laws fd (cells (header_bytes m.header)) header_size timeout w open_fd
        (omega (arith, length-header_cells m.header)) (omega arith)

  length-wire : length (wire m) ≡ header_size + m.payload_size
  length-wire = omega (
    arith,
    length-append (cells (header_bytes m.header)) (take m.payload_size (block m.raw_payload)),
    length-header_cells m.header,
    length-take m.payload_size (block m.raw_payload),
  )

  whole_header : is_ok head.result ≡ true → head.count ≡ header_size
  whole_header going = head.complete (eq_of_is_ok head.result going)

  -- All of the header, and some of the payload.
  two_pieces :
      (k : ℕ)
      → is_ok head.result ≡ true
      → outgoing head.after fd ++ take k (take m.payload_size (block m.raw_payload))
        ≡ outgoing w fd ++ take (header_size + k) (wire m)
  two_pieces k going =
      let H : Memory = cells (header_bytes m.header) in
      let P : Memory = take m.payload_size (block m.raw_payload) in
      ap (λ o. o ++ take k P)
        (head.appended
          ∙ ap (λ n. outgoing w fd ++ take n H) (whole_header going)
          ∙ ap (◌++◌ (outgoing w fd))
              (take_all H header_size (omega (arith, length-header_cells m.header))))
      ∙ append_assoc (outgoing w fd) H (take k P)
      ∙ ap (◌++◌ (outgoing w fd))
          (sym (take-append_past H P header_size k (sym (length-header_cells m.header))))

  sent_header :
      is_ok head.result ≡ true
      → (m.payload_size == 0) ≡ true
      → Delivers os laws fd (wire m) (length (wire m)) w (send_parts os fd timeout m)
  unfolding send_parts
  sent_header going empty = record {
    result = ok;
    after = head.after;
    count = header_size + 0;
    runs = rw (head.runs, going, empty);
    bounded = omega (arith, length-wire);
    appended = sym (append-nil _) ∙ two_pieces 0 going;
    complete = λ e. ground (arith, length-wire, empty);
  }

  sent_payload :
      is_ok head.result ≡ true
      → (m.payload_size == 0) ≡ false
      → Delivers os laws fd (wire m) (length (wire m)) w (send_parts os fd timeout m)
  unfolding send_parts
  sent_payload going more =
      let d =
        send_data-Delivers os laws fd (block m.raw_payload) m.payload_size timeout head.after
          open_fd whole word in
      record {
        result = d.result;
        after = d.after;
        count = header_size + d.count;
        runs = rw (head.runs, going, more) d.runs;
        bounded = omega (arith, length-wire, d.bounded);
        appended =
            d.appended
            ∙ ap (◌++◌ (outgoing head.after fd))
                (sym (take-take d.count m.payload_size (block m.raw_payload) d.bounded))
            ∙ two_pieces d.count going;
        complete = λ e. omega (arith, length-wire, d.complete e);
      }

  -- Sending a message ends, and it is sent whole if the result is `ok`.
  pub send_parts-Delivers :
      Delivers os laws fd (wire m) (length (wire m)) w (send_parts os fd timeout m)
  unfolding send_parts
  send_parts-Delivers = elim (Bool-cases (is_ok head.result)) [
    | inr stopped ↦ record {
      result = head.result;
      after = head.after;
      count = head.count;
      runs = rw (head.runs, stopped);
      bounded = omega (arith, head.bounded, length-wire);
      appended =
          head.appended
          ∙ ap (◌++◌ (outgoing w fd)) (
              sym (
                take-append_within (cells (header_bytes m.header))
                  (take m.payload_size (block m.raw_payload)) head.count
                  (omega (arith, head.bounded, length-header_cells m.header))));
      complete = λ e. ground (arith, e, stopped);
    }
    | inl going ↦ elim (Bool-cases (m.payload_size == 0)) [
      | inl empty ↦ sent_header going empty
      | inr more ↦ sent_payload going more
    ]
  ]

  -- On an open descriptor, sending a message that holds its whole payload ends. Whatever the result,
  -- the connection carries a first part of the header and the payload behind what was sent before;
  -- the result is a failure, or this is the whole message.
  pub send_parts-SendsFront :
      SendsFront os laws fd (wire m) (length (wire m)) w (send_parts os fd timeout m)
  send_parts-SendsFront =
      Delivers-SendsFront os laws fd (wire m) (length (wire m)) w (send_parts os fd timeout m)
        send_parts-Delivers
