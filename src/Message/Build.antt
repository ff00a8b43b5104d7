-- ===== src/Message/Build.antt =====
-- A message that is built by adding fields one after the other.
use shp.Base.{
  ℕ, ◌+◌, ◌<◌, ◌≡◌, refl, ap₂, subst, some, List, [], ◌∷◌, ◌++◌, length, done, arith, append-nil,
}
use shp.Memory.{Memory, u32_mod, cells, le32, le64, strlen}
use shp.Memory.Words.{length-le32}
use shp.ErrorCodes.{ok}
use shp.Message.{
  Message, MessageId, FieldId, field_code, new_message, add_time_to_message, add_num_to_message,
  add_string_to_message, add_field_to_message, message_id_code, current_message_version,
}
use shp.Message.Fields.{Field, Represents, encode, length-encode}
use shp.Message.Add.{add_field_to_message-Added}

abbrev pub field_of : FieldId → Memory → Field
field_of id value = record { tag = field_code id; value = value }

-- The part of the header that adding a field keeps: the id, the version and the result.
abbrev pub stamp : Message → ℕ × (ℕ × ℕ)
stamp m = (m.message_id, (m.message_version, m.message_result))

abbrev pub stamp_of : MessageId → ℕ × (ℕ × ℕ)
stamp_of id = (message_id_code id, (current_message_version, 0))

-- The bytes of the fields so far.
unfoldable pub sizes : List Field → ℕ
sizes [] = 0
sizes (f ∷ fs) = length f.value + 8 + sizes fs

pub length-sizes : (fs : List Field) → length (encode fs) ≡ sizes fs
unfolding sizes
length-sizes [] = refl
length-sizes (f ∷ fs) = omega (arith, length-encode f fs, length-sizes fs)

-- A field is added to a message of which the size is known.
pub add_known :
    (m : Message) (fs : List Field) (field : FieldId) (value extra : Memory)
    → Represents m fs
    → sizes fs + 8 + length value < u32_mod
    → (m' : Message) × (add_field_to_message field (value ++ extra) (length value) m
        ≡ done (ok, m'))
      × Represents m' (fs ++ (field_of field value ∷ []))
      × (stamp m' ≡ stamp m)
add_known m fs field value extra r h =
    let (m', adds, added) =
      add_field_to_message-Added m fs field value extra r
        (omega (arith, r.used, length-sizes fs)) in
    (
      m',
      adds,
      added.represents,
      ap₂ (λ id rest. (id, rest)) added.same_id
          (ap₂ (λ version result. (version, result)) added.same_version added.same_result),
    )

pub add_num_known :
    (m : Message) (fs : List Field) (field : FieldId) (n : ℕ)
    → Represents m fs
    → sizes fs + 12 < u32_mod
    → (m' : Message) × (add_num_to_message field n m ≡ done (ok, m'))
      × Represents m' (fs ++ (field_of field (cells (le32 n)) ∷ []))
      × (stamp m' ≡ stamp m)
unfolding add_num_to_message
add_num_known m fs field n r h =
    let (m', adds, represents, same) =
      add_known m fs field (cells (le32 n)) [] r (omega (arith, length-le32 n)) in
    (
      m',
      subst (λ v. add_field_to_message field v 4 m ≡ done (ok, m')) (append-nil (cells (le32 n)))
          (subst (λ k. add_field_to_message field (cells (le32 n) ++ []) k m ≡ done (ok, m'))
            (length-le32 n) adds),
      represents,
      same,
    )

pub add_time_known :
    (m : Message) (fs : List Field) (now : ℕ)
    → Represents m fs
    → sizes fs + 16 < u32_mod
    → (m' : Message) × (add_time_to_message now m ≡ done (ok, m'))
      × Represents m' (fs ++ (field_of FieldId.message_time (cells (le64 now)) ∷ []))
      × (stamp m' ≡ stamp m)
unfolding add_time_to_message le64 le32
add_time_known m fs now r h =
    add_known m fs FieldId.message_time (cells (le64 now)) [] r (omega arith)

pub add_string_known :
    (m : Message) (fs : List Field) (field : FieldId) (name extra : Memory) (n : ℕ)
    → strlen (name ++ extra) ≡ some n
    → length name ≡ n + 1
    → Represents m fs
    → sizes fs + 8 + length name < u32_mod
    → (m' : Message) × (add_string_to_message field (name ++ extra) m ≡ done (ok, m'))
      × Represents m' (fs ++ (field_of field name ∷ []))
      × (stamp m' ≡ stamp m)
unfolding add_string_to_message
add_string_known m fs field name extra n terminated size r h =
    let (m', adds, represents, same) = add_known m fs field name extra r h in
    (
      m',
      rw terminated
          (subst (λ k. add_field_to_message field (name ++ extra) k m ≡ done (ok, m')) size adds),
      represents,
      same,
    )

-- What the constructor writes.
pub new_message-stamp : (id : MessageId) → stamp (new_message id) ≡ stamp_of id
unfolding new_message
new_message-stamp id = refl
