-- ===== src/Message/Bounds.antt =====
-- `get_field_from_message` on any payload, well formed or not.
use shp.Base.{
  ℕ, zero, suc, ◌+◌, ◌-◌, ◌≤◌, ◌<◌, ◌≡◌, ◌≢◌, ◌⊎◌, Bool-cases, inl, inr, refl, none, some, done,
  fault, out_of_fuel, arith, length, Option-cases, ==_iff, ◌==◌, false, if◌then◌else◌, ◌∙◌,
}
use shp.Memory.{Memory, u32_mod, IsU32, load32, read_at}
use shp.ErrorCodes.{ok}
use shp.Message.{Message, FieldId, field_code, block, get_loop, get_field_from_message, step_size}
use shp.Message.Get.{get_loop_round}

load32_past : (m : Memory) (offset : ℕ) → length m < offset + 4 → load32 m offset ≡ none
unfolding load32
load32_past m offset h = ground arith

load32_inside : (m : Memory) (offset v : ℕ) → load32 m offset ≡ some v → offset + 4 ≤ length m
unfolding load32
load32_inside m offset v h = ground arith

-- A round whose tag or length lies outside the block is undefined.
get_loop_past :
    (fuel : ℕ) (field : FieldId) (m : Memory) (offset n : ℕ)
    → n ≢ 0
    → length m < offset + 8
    → get_loop (suc fuel) field m offset n ≡ fault
unfolding get_loop
get_loop_past fuel field m offset n h short = elim (Option-cases (load32 m offset)) [
  | inl e ↦ ground (arith, e)
  | inr (t, e) ↦ ground (arith, e, load32_past m (offset + 4) (omega arith))
]

get_loop-ne-out_of_fuel :
    (fuel : ℕ) (field : FieldId) (m : Memory) (offset n : ℕ)
    → length m - offset < fuel
    → get_loop fuel field m offset n ≢ out_of_fuel
unfolding get_loop
get_loop-ne-out_of_fuel zero field m offset n h = absurd (omega arith)
get_loop-ne-out_of_fuel (suc fuel) field m offset n h =
    elim (Option-cases (load32 m (offset + 4))) [
      | inl e ↦ ground (arith, e)
      | inr (size, e) ↦ ground (
        arith,
        e,
        load32_inside m (offset + 4) size e,
        get_loop-ne-out_of_fuel fuel field m (offset + 4 + 4 + size) (step_size n size),
      )
    ]

-- The rounds that the length of the block gives are never used up: before that the search has found its
-- field, come to the end of the payload, or read outside the block, which is undefined.
pub get_field_from_message-ne-out_of_fuel :
    (field : FieldId) (m : Message) → get_field_from_message field m ≢ out_of_fuel
unfolding get_field_from_message
get_field_from_message-ne-out_of_fuel field m =
    get_loop-ne-out_of_fuel (suc (length (block m.raw_payload))) field (block m.raw_payload) 0
      m.payload_size (omega arith)

-- A payload that was received whole, as it stands in its block.
pub record IsReceived (m : Message) (body : Memory) : Type 0 where
  pub content : m.raw_payload ≡ some body
  pub whole : m.payload_size ≡ length body
  pub in_range : length body < u32_mod

-- No length is checked: on a received payload of one to seven bytes every search reads past the end
-- of the block.
pub get_field_from_message_truncated :
    (field : FieldId) (m : Message) (body : Memory)
    → IsReceived m body
    → 0 < length body
    → length body < 8
    → get_field_from_message field m ≡ fault
unfolding get_field_from_message
get_field_from_message_truncated field m body r h short = rw r.content (
    get_loop_past (length body) field body 0 (m.payload_size) (omega (arith, r.whole))
      (omega arith))

-- Nor is a length compared with what is left of the payload: where the first field of a received
-- message declares more bytes than follow it, a search for its tag returns a size that reaches past
-- the end of the block, and a search for any other tag reads there.
pub get_field_from_message_overrun :
    (field : FieldId) (m : Message) (body : Memory) (tag size : ℕ)
    → IsReceived m body
    → load32 body 0 ≡ some tag
    → load32 body 4 ≡ some size
    → IsU32 size
    → length body < 8 + size
    → ((field_code field ≡ tag)
        × (get_field_from_message field m ≡ done (ok, some (record { size = size; offset = 8 })))
        × (read_at body 8 size ≡ none))
      ⊎ ((field_code field ≢ tag) × (get_field_from_message field m ≡ fault))
unfolding get_field_from_message read_at
get_field_from_message_overrun field m body tag size r t s word over =
    elim (Bool-cases (field_code field == tag)) [
      | inl same ↦
          inl
            ((==_iff (field_code field) tag).0 same, rw (r.content) (first ∙ rw same), ground arith)
      | inr other ↦
          inr (ne_of_== other, rw (r.content) (first ∙ rw other (past (length body) refl)))
    ]
  where
    ne_of_== : (field_code field == tag) ≡ false → field_code field ≢ tag
    ne_of_== h e = ground arith

    first : get_loop (suc (length body)) field body 0 m.payload_size ≡ (
        if field_code field == tag
        then done (ok, some (record { size = size; offset = 8 }))
        else get_loop (length body) field body (8 + size) (step_size m.payload_size size))
    first =
        get_loop_round (length body) field body 0 m.payload_size tag size
          (omega (arith, load32_inside body 4 size s, r.whole)) t s

    past :
        (k : ℕ)
        → k ≡ length body
        → get_loop k field body (8 + size) (step_size m.payload_size size) ≡ fault
    past zero e = absurd (omega (arith, load32_inside body 4 size s))
    past (suc k) e =
        get_loop_past k field body (8 + size) (step_size m.payload_size size)
          (omega (arith, r.whole, r.in_range, load32_inside body 4 size s)) (omega arith)
