-- ===== src/Configuration/Pointers.antt =====
-- What the pointers that a search leaves point to, in a message that stands for a list of fields.
use shp.Base.{
  ℕ, zero, suc, ◌+◌, ◌≤◌, ◌≡◌, refl, sym, ap, ◌∙◌, Option, none, some, List, [], ◌∷◌, ◌++◌, length,
  take, drop, done, leb, arith, subst, take_all, Bool-cases, true, inl, inr, Option-cases, ◌*◌, ◌<◌,
  take-append_within, take-append-drop, le→leb,
}
use shp.Memory.{Memory, IsU32, u32_mod, read_at, cells, le32, le64, from_le64, strlen}
use shp.Memory.Copy.{write_at-append}
use shp.Memory.Words.{from_le32-le32, length-le32}
use shp.Message.{Message, FieldId, field_code, block}
use shp.Message.Fields.{Field, Represents}
use shp.Message.Get.{AreFields, Finds, value_of, get_field_from_message-value_of}
use shp.Configuration.{look, load, load_num, load_time, string_at, copy_string}

-- A place in the payload with a value behind it.
pub record PointsTo (m : Message) (offset : ℕ) (v : Memory) : Type 0 where
  pub after : Memory
  pub behind : drop offset (block m.raw_payload) ≡ v ++ after
  pub inside : offset + length v ≤ length (block m.raw_payload)

read_at-PointsTo :
    (m : Message) (offset n : ℕ) (v : Memory)
    → n ≡ length v
    → read_at (block m.raw_payload) offset n ≡ some v
    → PointsTo m offset v
unfolding read_at
read_at-PointsTo m offset n v size e =
    elim (Bool-cases (leb (offset + n) (length (block m.raw_payload)))) [
      | inr outside ↦ cc
      | inl fits ↦
          let same : take n (drop offset (block m.raw_payload)) ≡ v = ground arith in
          record {
            after = drop n (drop offset (block m.raw_payload));
            behind =
                sym (take-append-drop n (drop offset (block m.raw_payload)))
                ∙ ap (λ t. t ++ drop n (drop offset (block m.raw_payload))) same;
            inside = ground arith;
          }
    ]

-- A search for a field that is there.
pub look-PointsTo :
    (m : Message) (fs : List Field) (field : FieldId) (size : ℕ) (place : Option ℕ) (v : Memory)
    → Represents m fs
    → AreFields fs
    → value_of (field_code field) fs ≡ some v
    → (offset : ℕ) × (look field m size place ≡ done (length v, some offset)) × PointsTo m offset v
unfolding look
look-PointsTo m fs field size place v r wf e =
    let (d, found, value, same) : Finds m field (some v) =
      subst (Finds m field) e (get_field_from_message-value_of m fs field r wf) in
    (d.offset, rw (found, same), read_at-PointsTo m d.offset d.size v same value)

-- A search for a field that is not there.
pub look_missing :
    (m : Message) (fs : List Field) (field : FieldId) (size : ℕ) (place : Option ℕ)
    → Represents m fs
    → AreFields fs
    → value_of (field_code field) fs ≡ none
    → look field m size place ≡ done (size, place)
unfolding look
look_missing m fs field size place r wf e =
    let missing : Finds m field none =
      subst (Finds m field) e (get_field_from_message-value_of m fs field r wf) in
    rw missing

pub strlen-append : (v rest : Memory) (n : ℕ) → strlen v ≡ some n → strlen (v ++ rest) ≡ some n
unfolding strlen
strlen-append [] rest n e = cc
strlen-append (none ∷ v) rest n e = cc
strlen-append (some zero ∷ v) rest n e = e
strlen-append (some (suc c) ∷ v) rest n e = elim (Option-cases (strlen v)) [
  | inl unended ↦ ground arith
  | inr (k, ended) ↦ rw (strlen-append v rest k ended) (rw ended at e)
]

pub strlen-take : (v : Memory) (n : ℕ) → strlen v ≡ some n → strlen (take (n + 1) v) ≡ some n
unfolding strlen
strlen-take [] n e = cc
strlen-take (none ∷ v) n e = cc
strlen-take (some zero ∷ v) n e = let s : n + 1 ≡ suc n = omega arith in rw s e
strlen-take (some (suc c) ∷ v) n e = elim (Option-cases (strlen v)) [
  | inl unended ↦ ground arith
  | inr (k, ended) ↦
      let same : n ≡ k + 1 = ground arith in
      let s : n + 1 ≡ suc (k + 1) = omega arith in
      rw s (rw (strlen, strlen-take v k ended) (ap some (sym same)))
]

-- A text with its terminator, with anything behind it.
pub string_at_behind :
    (m : Memory) (offset : ℕ) (v after : Memory) (n : ℕ)
    → drop offset m ≡ v ++ after
    → strlen v ≡ some n
    → n + 1 ≤ length v
    → string_at m offset ≡ some (take (n + 1) v)
unfolding string_at
string_at_behind m offset v after n behind ended size =
    rw (string_at, behind, strlen-append v after n ended)
      (ap (λ t. some (take (n + 1) t)) behind ∙ ap some (take-append_within v after (n + 1) size))

from_le64-le64 : (t : ℕ) → t < u32_mod * u32_mod → from_le64 (cells (le64 t)) ≡ some t
unfolding from_le64 le64 le32
from_le64-le64 t h = ap some (omega arith)

module _ (m : Message) (offset : ℕ) (v : Memory) (p : PointsTo m offset v) where
  pub load_prefix : (n : ℕ) → n ≤ length v → load m (some offset) n ≡ done (take n v)
  unfolding load read_at
  load_prefix n h =
      let fits : leb (offset + n) (length (block m.raw_payload)) ≡ true =
        le→leb (offset + n) (length (block m.raw_payload)) (omega (arith, p.inside)) in
      rw (fits, p.behind) (ap done (take-append_within v p.after n h))

  pub load_whole : load m (some offset) (length v) ≡ done v
  load_whole = load_prefix (length v) (omega arith) ∙ ap done (take_all v (length v) (omega arith))

  pub copy_string-text :
      (target : Memory) (n : ℕ)
      → strlen v ≡ some n
      → length v ≡ n + 1
      → length v ≤ length target
      → copy_string target m (some offset) ≡ done (v ++ drop (length v) target)
  unfolding copy_string
  copy_string-text target n ended size room =
      let text : string_at (block m.raw_payload) offset ≡ some v =
        string_at_behind (block m.raw_payload) offset v p.after n p.behind ended (omega arith)
        ∙ ap some (take_all v (n + 1) (omega arith)) in
      rw (text, write_at-append [] v target 0 refl room)

pub load_num-le32 :
    (m : Message) (offset n : ℕ)
    → IsU32 n
    → PointsTo m offset (cells (le32 n))
    → load_num m (some offset) ≡ done n
unfolding load_num
load_num-le32 m offset n word p =
    let bytes =
      subst (λ k. load m (some offset) k ≡ done (cells (le32 n))) (length-le32 n)
        (load_whole m offset (cells (le32 n)) p) in
    rw (bytes, from_le32-le32 n word)

pub load_time-le64 :
    (m : Message) (offset t : ℕ)
    → t < u32_mod * u32_mod
    → PointsTo m offset (cells (le64 t))
    → load_time m (some offset) ≡ done t
unfolding load_time
load_time-le64 m offset t word p =
    let eight : length (cells (le64 t)) ≡ 8 = unfold le64 le32 in refl in
    let bytes =
      subst (λ k. load m (some offset) k ≡ done (cells (le64 t))) eight
        (load_whole m offset (cells (le64 t)) p) in
    rw (bytes, from_le64-le64 t word)

-- Of a field with another content, the first eight bytes.
pub load_time-other :
    (m : Message) (offset t : ℕ) (v : Memory)
    → 8 ≤ length v
    → from_le64 (take 8 v) ≡ some t
    → PointsTo m offset v
    → load_time m (some offset) ≡ done t
unfolding load_time
load_time-other m offset t v long e p = rw (load_prefix m offset v p 8 long, e)
