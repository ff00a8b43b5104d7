-- ===== src/Message/Add.antt =====
-- `add_field_to_message` appends a field to the list that the message stands for.
use shp.Base.{
  ℕ, ◌+◌, ◌%◌, ◌≤◌, ◌<◌, ◌≡◌, refl, ap, append_assoc, append-nil, sym, Option, none, some, List, [],
  ◌∷◌, ◌++◌, length, length-append, length-drop, length-replicate, drop, replicate, ltb, Bool-cases,
  inl, inr, true, done, arith,
}
use shp.Memory.{Memory, Cell, u32_mod, cells, le32}
use shp.Memory.Copy.{read_at-append, write_at-append, write_at-append_next}
use shp.ErrorCodes.{ok}
use shp.Message.{
  Message, Header, block, new_alloc_size, move_payload, reserve, append_field, add_field_to_message,
  FieldId, field_code, tag_size, int_size,
}
use shp.Message.Fields.{Field, encode, Represents, encode-append, length-encode}

-- Moving to a block that is large enough keeps the bytes in use.
move_payload_lem :
    (raw : Option Memory) (size : ℕ) (used spare fresh : Memory)
    → block raw ≡ used ++ spare
    → size ≡ length used
    → length used ≤ length fresh
    → move_payload raw size fresh ≡ done (used ++ drop (length used) fresh)
unfolding move_payload
move_payload_lem none size [] spare fresh e s h = refl
move_payload_lem none size (x ∷ used) spare fresh e s h = cc
move_payload_lem (some old) size used spare fresh e s h =
    rw (e, read_at-append [] used spare 0 size refl s, write_at-append [] used fresh 0 refl h)

-- Room for `full_size` more bytes is made, and nothing else changes.
pub record Reserved (full_size : ℕ) (m m' : Message) (fs : List Field) : Type 0 where
  pub represents : Represents m' fs
  pub room : m.payload_size + full_size ≤ m'.alloc_size
  pub same_header : m'.header ≡ m.header

new_alloc_size_bounds :
    (full_size : ℕ) (m : Message)
    → m.payload_size + full_size < u32_mod
    → (m.payload_size + full_size ≤ new_alloc_size full_size m)
      × (new_alloc_size full_size m < u32_mod)
unfolding new_alloc_size
new_alloc_size_bounds full_size m h = ground arith

-- What `reserve` makes of a message that has to grow.
abbrev moved : Message → ℕ → Memory → Message
moved m new_size used = record m {
  raw_payload = some (used ++ drop (length used) (replicate new_size none));
  alloc_size = new_size;
}

grow-Reserved :
    (full_size : ℕ) (m : Message) (fs : List Field)
    → Represents m fs
    → m.payload_size + full_size < u32_mod
    → Reserved full_size m (moved m (new_alloc_size full_size m) (encode fs)) fs
grow-Reserved full_size m fs r h =
    let (enough, small) = new_alloc_size_bounds full_size m h in
    record {
      represents = record {
        spare = drop (length (encode fs)) (replicate (new_alloc_size full_size m) none);
        content = refl;
        used = r.used;
        allocated = omega (
          arith,
          length-append {0} (encode fs)
              (drop (length (encode fs)) (replicate (new_alloc_size full_size m) none)),
          length-drop {0} {A = Cell} (length (encode fs))
              (replicate (new_alloc_size full_size m) none),
          length-replicate {0} {A = Cell} (new_alloc_size full_size m) none,
          r.used,
        );
        in_range = small;
      };
      room = enough;
      same_header = refl;
    }

reserve_grows :
    (full_size : ℕ) (m : Message) (fs : List Field)
    → Represents m fs
    → m.payload_size + full_size < u32_mod
    → ltb m.alloc_size ((m.payload_size + full_size) % u32_mod) ≡ true
    → reserve full_size m ≡ done (ok, moved m (new_alloc_size full_size m) (encode fs))
unfolding reserve
reserve_grows full_size m fs r h small = rw (
  small,
  move_payload_lem m.raw_payload m.payload_size (encode fs) r.spare _ r.content r.used enough,
)
  where
    enough : length (encode fs) ≤ length (replicate {A = Cell} (new_alloc_size full_size m) none)
    enough = omega (
      arith,
      length-replicate {0} {A = Cell} (new_alloc_size full_size m) none,
      new_alloc_size_bounds full_size m h,
      r.used,
    )

reserve-Reserved :
    (full_size : ℕ) (m : Message) (fs : List Field)
    → Represents m fs
    → m.payload_size + full_size < u32_mod
    → (m' : Message) × (reserve full_size m ≡ done (ok, m')) × Reserved full_size m m' fs
unfolding reserve
reserve-Reserved full_size m fs r h =
    elim (Bool-cases (ltb m.alloc_size ((m.payload_size + full_size) % u32_mod))) [
      | inl small ↦ (_, reserve_grows full_size m fs r h small, grow-Reserved full_size m fs r h)
      | inr fits ↦ (m, rw fits, record { represents = r; room = ground arith; same_header = refl })
    ]

-- The block after the three copies.
abbrev extended : Memory → Field → Memory → Memory
extended used f spare =
    used
    ++ (((cells (le32 f.tag) ++ cells (le32 (length f.value))) ++ f.value)
        ++ drop (length f.value) (drop 4 (drop 4 spare)))

abbrev with_payload : Message → ℕ → Memory → Message
with_payload m size filled = record m {
  header = record (m.header) { payload_size = size };
  raw_payload = some filled;
}

module _ (m : Message) (fs : List Field) (r : Represents m fs) (field : FieldId)
    (value extra : Memory) where
  abbrev added : Field
  added = record { tag = field_code field; value = value }

  spare_room : m.payload_size + length r.spare ≡ m.alloc_size
  spare_room =
      omega (arith, length-append (encode fs) r.spare, ap length r.content, r.used, r.allocated)

  append_field_lem :
      (full_size : ℕ)
      → m.payload_size + 8 + length value ≤ m.alloc_size
      → append_field field (value ++ extra) (length value) full_size m
        ≡ done (
            with_payload m
              ((m.payload_size + full_size) % u32_mod)
              (extended (encode fs) added r.spare))
  unfolding append_field
  append_field_lem full_size room = rw (
    r.content,
    write_at-append (encode fs) (cells (le32 (field_code field))) r.spare m.payload_size r.used
        (omega (arith, spare_room)),
    write_at-append_next (encode fs) (cells (le32 (field_code field))) (cells (le32 (length value)))
        (drop 4 r.spare) (m.payload_size + 4) (omega (arith, r.used))
        (omega (arith, spare_room, length-drop 4 r.spare)),
    read_at-append [] value extra 0 (length value) refl refl,
    write_at-append_next (encode fs)
        (cells (le32 (field_code field)) ++ cells (le32 (length value))) value
        (drop 4 (drop 4 r.spare)) (m.payload_size + 4 + 4) (omega (arith, r.used))
        (omega (arith, spare_room, length-drop 4 r.spare, length-drop 4 (drop 4 r.spare))),
  )

  extended-encode :
      extended (encode fs) added r.spare
      ≡ encode (fs ++ (added ∷ [])) ++ drop (length value) (drop 4 (drop 4 r.spare))
  extended-encode = rw (encode-append fs (added ∷ [])) (simp (append_assoc, append-nil))

  length-encode-added : length (encode (fs ++ (added ∷ []))) ≡ m.payload_size + 8 + length value
  length-encode-added = omega (
    arith,
    ap length (encode-append fs (added ∷ [])),
    length-append (encode fs) (encode (added ∷ [])),
    length-encode added [],
    r.used,
  )

  length-extended :
      m.payload_size + 8 + length value ≤ m.alloc_size
      → length (extended (encode fs) added r.spare) ≡ m.alloc_size
  length-extended room = omega (
    arith,
    ap length extended-encode,
    length-append (encode (fs ++ (added ∷ []))) (drop (length value) (drop 4 (drop 4 r.spare))),
    length-drop (length value) (drop 4 (drop 4 r.spare)),
    length-drop 4 (drop 4 r.spare),
    length-drop 4 r.spare,
    length-encode-added,
    spare_room,
  )

  append_field-Represents :
      m.payload_size + 8 + length value ≤ m.alloc_size
      → Represents
          (with_payload m (m.payload_size + 8 + length value) (extended (encode fs) added r.spare))
          (fs ++ (added ∷ []))
  append_field-Represents room = record {
    spare = drop (length value) (drop 4 (drop 4 r.spare));
    content = extended-encode;
    used = sym length-encode-added;
    allocated = sym (length-extended room);
    in_range = r.in_range;
  }

-- The new field is there, and the rest of the header is as it was.
pub record Added (m m' : Message) (fs : List Field) (f : Field) : Type 0 where
  pub represents : Represents m' (fs ++ (f ∷ []))
  pub same_id : m'.message_id ≡ m.message_id
  pub same_result : m'.message_result ≡ m.message_result
  pub same_version : m'.message_version ≡ m.message_version

abbrev full_size_of : Memory → ℕ
full_size_of value = (tag_size + int_size + length value) % u32_mod

module _ (m m1 : Message) (fs : List Field) (field : FieldId) (value extra : Memory)
    (e : reserve (full_size_of value) m ≡ done (ok, m1)) (s : Reserved (full_size_of value) m m1 fs)
    (h : m.payload_size + 8 + length value < u32_mod) where
  same_size : m1.payload_size ≡ m.payload_size
  same_size = ap (λ (x : Header). x.payload_size) s.same_header

  room_left : m1.payload_size + 8 + length value ≤ m1.alloc_size
  room_left = omega (arith, same_size, s.room)

  abbrev result : Message
  result =
      with_payload m1 (m1.payload_size + 8 + length value)
        (extended (encode fs) (added m1 fs s.represents field value extra) s.represents.spare)

  add_reserved : add_field_to_message field (value ++ extra) (length value) m ≡ done (ok, result)
  unfolding add_field_to_message
  add_reserved =
      let size : (m1.payload_size + full_size_of value) % u32_mod
          ≡ m1.payload_size + 8 + length value =
        omega (arith, same_size) in
      rw (e, append_field_lem m1 fs s.represents field value extra (full_size_of value) room_left)
        (ap
          (λ n. done (
            ok,
            with_payload m1 n (
                extended (encode fs) (added m1 fs s.represents field value extra)
                  s.represents.spare),
          ))
          size)

  add_reserved-Added : Added m result fs (record { tag = field_code field; value = value })
  add_reserved-Added = record {
    represents = append_field-Represents m1 fs s.represents field value extra room_left;
    same_id = ap (λ (x : Header). x.message_id) s.same_header;
    same_result = ap (λ (x : Header). x.message_result) s.same_header;
    same_version = ap (λ (x : Header). x.message_version) s.same_header;
  }

-- `add_field_to_message` succeeds whenever the payload with the new field stays within 32 bits. The
-- message then stands for its old fields and the new one, and the rest of its header is unchanged.
-- What `payload` holds behind its first `size` bytes does not matter.
pub add_field_to_message-Added :
    (m : Message) (fs : List Field) (field : FieldId) (value extra : Memory)
    → Represents m fs
    → m.payload_size + 8 + length value < u32_mod
    → (m' : Message) × (add_field_to_message field (value ++ extra) (length value) m
        ≡ done (ok, m'))
      × Added m m' fs (record { tag = field_code field; value = value })
add_field_to_message-Added m fs field value extra r h =
    let (m1, e, s) = reserve-Reserved (full_size_of value) m fs r (omega arith) in
    (
      _,
      add_reserved m m1 fs field value extra e s h,
      add_reserved-Added m m1 fs field value extra e s h,
    )
