-- ===== src/Message/Get.antt =====
-- `get_field_from_message` finds the first field with a tag, and answers `invalid_param` if there
-- is none.
use shp.Base.{
  ℕ, zero, suc, ◌+◌, ◌<◌, ◌≡◌, refl, ap, ◌∙◌, Option, none, some, List, [], ◌∷◌, ◌++◌, length,
  length-append, ◌≢◌, append_assoc, ◌==◌, if◌then◌else◌, Bool-cases, inl, inr, true, false, done,
  arith,
}
use shp.Memory.{Memory, u32_mod, IsU32, cells, le32, load32, read_at}
use shp.Memory.Copy.{read_at-append}
use shp.Memory.Words.{length-le32, load32-append}
use shp.ErrorCodes.{ErrorCode, ok, invalid_param}
use shp.Message.{
  Message, FieldId, field_code, block, Found, get_loop, get_field_from_message, step_size,
}
use shp.Message.Fields.{Field, encode, Represents, length-encode}

-- Tags and lengths are 32-bit numbers.
abbrev pub IsField : Field → Type 0
IsField f = IsU32 f.tag × IsU32 (length f.value)

abbrev pub AreFields : List Field → Type 0
AreFields [] = Unit {0}
AreFields (f ∷ fs) = IsField f × AreFields fs

-- Where the first field with a tag has its value, counted from the start of the payload.
abbrev pub locate : ℕ → ℕ → List Field → ErrorCode × Option Found
locate tag offset [] = (invalid_param, none)
locate tag offset (f ∷ fs) =
    if tag == f.tag
    then (ok, some (record { size = length f.value; offset = offset + 8 }))
    else locate tag (offset + 8 + length f.value) fs

-- One round, on whatever the block holds there.
pub get_loop_round :
    (fuel : ℕ) (field : FieldId) (m : Memory) (offset n tag size : ℕ)
    → n ≢ 0
    → load32 m offset ≡ some tag
    → load32 m (offset + 4) ≡ some size
    → get_loop (suc fuel) field m offset n ≡ (
        if field_code field == tag
        then done (ok, some (record { size = size; offset = offset + 4 + 4 }))
        else get_loop fuel field m (offset + 4 + 4 + size) (step_size n size))
unfolding get_loop
get_loop_round fuel field m offset n tag size h t s =
    let nz : (n == 0) ≡ false = ground arith in rw (nz, t, s)

-- The block seen from its first field.
module _ (pre rest m : Memory) (f : Field) (fs : List Field)
    (e : m ≡ pre ++ (encode (f ∷ fs) ++ rest)) where
  abbrev before : Memory
  before = pre ++ (cells (le32 f.tag) ++ (cells (le32 (length f.value)) ++ f.value))

  next_block : m ≡ before ++ (encode fs ++ rest)
  next_block = e ∙ simp append_assoc

  length-before : length before ≡ length pre + 4 + 4 + length f.value
  length-before = omega (
    arith,
    length-append pre (cells (le32 f.tag) ++ (cells (le32 (length f.value)) ++ f.value)),
    length-append (cells (le32 f.tag)) (cells (le32 (length f.value)) ++ f.value),
    length-append (cells (le32 (length f.value))) f.value,
    length-le32 f.tag,
    length-le32 (length f.value),
  )

  tag_there : (offset : ℕ) → offset ≡ length pre → IsU32 f.tag → load32 m offset ≡ some f.tag
  tag_there offset o t =
      rw (e ∙ ap (◌++◌ pre) (append_assoc (cells (le32 f.tag)) _ rest))
        (load32-append pre _ offset f.tag o t)

  size_there :
      (offset : ℕ)
      → offset ≡ length pre
      → IsU32 (length f.value)
      → load32 m (offset + 4) ≡ some (length f.value)
  size_there offset o l = rw (e ∙ regroup) (
      load32-append (pre ++ cells (le32 f.tag)) (f.value ++ (encode fs ++ rest)) (offset + 4)
        (length f.value) (omega (arith, length-append pre (cells (le32 f.tag)), length-le32 f.tag))
        l)
    where
      regroup :
          pre ++ (encode (f ∷ fs) ++ rest)
          ≡ (pre ++ cells (le32 f.tag))
            ++ (cells (le32 (length f.value)) ++ (f.value ++ (encode fs ++ rest)))
      regroup = simp append_assoc

  value_there :
      (offset : ℕ) → offset ≡ length pre → read_at m (offset + 8) (length f.value) ≡ some f.value
  value_there offset o = rw (e ∙ regroup) (
      read_at-append (pre ++ (cells (le32 f.tag) ++ cells (le32 (length f.value)))) f.value
        (encode fs ++ rest) (offset + 8) (length f.value) front refl)
    where
      regroup :
          pre ++ (encode (f ∷ fs) ++ rest)
          ≡ (pre ++ (cells (le32 f.tag) ++ cells (le32 (length f.value))))
            ++ (f.value ++ (encode fs ++ rest))
      regroup = simp append_assoc

      front : offset + 8 ≡ length (pre ++ (cells (le32 f.tag) ++ cells (le32 (length f.value))))
      front = omega (
        arith,
        length-append pre (cells (le32 f.tag) ++ cells (le32 (length f.value))),
        length-append (cells (le32 f.tag)) (cells (le32 (length f.value))),
        length-le32 f.tag,
        length-le32 (length f.value),
      )

-- A block that holds fields from an offset on.
get_loop-locate :
    (fuel : ℕ) (field : FieldId) (pre rest m : Memory) (fs : List Field) (offset n : ℕ)
    → m ≡ pre ++ (encode fs ++ rest)
    → offset ≡ length pre
    → n ≡ length (encode fs)
    → AreFields fs
    → n < u32_mod
    → n < fuel
    → get_loop fuel field m offset n ≡ done (locate (field_code field) offset fs)
unfolding get_loop
get_loop-locate zero field pre rest m fs offset n em eo en wf h enough = absurd (omega arith)
get_loop-locate (suc fuel) field pre rest m [] offset n em eo en wf h enough =
    let nz : (n == 0) ≡ true = ground arith in rw nz
get_loop-locate (suc fuel) field pre rest m (f ∷ fs) offset n em eo en ((t, l), wf) h enough =
    get_loop_round fuel field m offset n f.tag (length f.value)
      (omega (arith, en, length-encode f fs)) (tag_there pre rest m f fs em offset eo t)
      (size_there pre rest m f fs em offset eo l)
    ∙ elim (Bool-cases (field_code field == f.tag)) [
      | inl hit ↦ rw hit (
          ap (λ (o : ℕ). done (ok, some (record { size = length f.value; offset = o })))
            (omega arith))
      | inr miss ↦ rw miss (
          get_loop-locate fuel field (before pre rest m f fs em) rest m fs
            (offset + 4 + 4 + length f.value) (step_size n (length f.value))
            (next_block pre rest m f fs em) (omega (arith, length-before pre rest m f fs em))
            (omega (arith, length-encode f fs)) wf (omega arith) (omega (arith, length-encode f fs))
          ∙ ap (λ o. done (locate (field_code field) o fs)) (omega arith))
    ]

-- The value of the first field with a tag.
abbrev pub value_of : ℕ → List Field → Option Memory
value_of tag [] = none
value_of tag (f ∷ fs) = if tag == f.tag then some f.value else value_of tag fs

locate-none :
    (tag offset : ℕ) (fs : List Field)
    → value_of tag fs ≡ none
    → locate tag offset fs ≡ (invalid_param, none)
locate-none tag offset [] e = refl
locate-none tag offset (f ∷ fs) e = ground (arith, locate-none tag (offset + 8 + length f.value) fs)

locate-some :
    (tag offset : ℕ) (pre rest m : Memory) (fs : List Field) (v : Memory)
    → m ≡ pre ++ (encode fs ++ rest)
    → offset ≡ length pre
    → value_of tag fs ≡ some v
    → (d : Found) × (locate tag offset fs ≡ (ok, some d))
      × (read_at m d.offset d.size ≡ some v)
      × (d.size ≡ length v)
locate-some tag offset pre rest m [] v em eo e = cc
locate-some tag offset pre rest m (f ∷ fs) v em eo e = elim (Bool-cases (tag == f.tag)) [
  | inl hit ↦
      let same : f.value ≡ v = ground arith in
      (
        record { size = length f.value; offset = offset + 8 },
        rw hit,
        value_there pre rest m f fs em offset eo ∙ ground arith,
        ap length same,
      )
  | inr miss ↦
      let (d, found, value, size) =
        locate-some tag (offset + 8 + length f.value) (before pre rest m f fs em) rest m fs v
          (next_block pre rest m f fs em) (omega (arith, length-before pre rest m f fs em))
          (ground arith) in
      (d, rw miss found, value, size)
]

-- What a search comes to: `invalid_param` where there is no value, and otherwise `ok` with the value's
-- size and position.
abbrev pub Finds : Message → FieldId → Option Memory → Type 0
Finds m field none = get_field_from_message field m ≡ done (invalid_param, none)
Finds m field (some v) =
    (d : Found) × (get_field_from_message field m ≡ done (ok, some d))
    × (read_at (block m.raw_payload) d.offset d.size ≡ some v)
    × (d.size ≡ length v)

-- On a message that stands for a list of fields, `get_field_from_message` ends. If no field has the
-- tag it answers `invalid_param`; otherwise it answers `ok`, and the size and position that it
-- returns are those of the first such field's value.
pub get_field_from_message-value_of :
    (m : Message) (fs : List Field) (field : FieldId)
    → Represents m fs
    → AreFields fs
    → Finds m field (value_of (field_code field) fs)
unfolding get_field_from_message
get_field_from_message-value_of m fs field r wf = finds (value_of (field_code field) fs) refl
  where
    found : get_field_from_message field m ≡ done (locate (field_code field) 0 fs)
    found =
        get_loop-locate (suc (length (block m.raw_payload))) field [] r.spare (block m.raw_payload)
          fs 0 m.payload_size r.content refl r.used wf
          (omega (
            arith,
            r.in_range,
            r.allocated,
            ap length r.content,
            length-append (encode fs) r.spare,
            r.used,
          ))
          (omega (arith, ap length r.content, length-append (encode fs) r.spare, r.used))

    finds : (v : Option Memory) → value_of (field_code field) fs ≡ v → Finds m field v
    finds none absent = found ∙ ap done (locate-none (field_code field) 0 fs absent)
    finds (some v) present =
        let (d, e, value, size) =
          locate-some (field_code field) 0 [] r.spare (block m.raw_payload) fs v r.content refl
            present in
        (d, found ∙ ap done e, value, size)
