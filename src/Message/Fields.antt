-- ===== src/Message/Fields.antt =====
-- What a message stands for: the list of its fields, in the order in which they were added.
use shp.Base.{
  ℕ, ◌+◌, ◌≡◌, ◌<◌, ◌≤◌, ap, List, [], ◌∷◌, ◌++◌, length, length-append, append_assoc, arith, refl,
}
use shp.Memory.{Memory, IsU32, u32_mod, cells, le32}
use shp.Memory.Words.{length-le32}
use shp.Message.{Message, MessageId, block, new_message}

pub record Field : Type 0 where
  pub tag : ℕ
  pub value : Memory

-- Tag, length and value of each field.
abbrev pub encode : List Field → Memory
encode [] = []
encode (f ∷ fs) = cells (le32 f.tag) ++ (cells (le32 (length f.value)) ++ (f.value ++ encode fs))

-- The payload of the message is the encoding of the fields; the rest of its block is spare.
pub record Represents (m : Message) (fs : List Field) : Type 0 where
  pub spare : Memory
  pub content : block m.raw_payload ≡ encode fs ++ spare
  pub used : m.payload_size ≡ length (encode fs)
  pub allocated : m.alloc_size ≡ length (block m.raw_payload)
  pub in_range : m.alloc_size < u32_mod

pub encode-append : (fs gs : List Field) → encode (fs ++ gs) ≡ encode fs ++ encode gs
encode-append [] gs = refl
encode-append (f ∷ fs) gs = simp (encode-append fs gs, append_assoc)

pub length-encode :
    (f : Field) (fs : List Field)
    → length (encode (f ∷ fs)) ≡ length f.value + 8 + length (encode fs)
length-encode f fs = omega (
  arith,
  length-append (cells (le32 f.tag)) (cells (le32 (length f.value)) ++ (f.value ++ encode fs)),
  length-append (cells (le32 (length f.value))) (f.value ++ encode fs),
  length-append f.value (encode fs),
  length-le32 f.tag,
  length-le32 (length f.value),
)

pub new_message-Represents : (type : MessageId) → Represents (new_message type) []
unfolding new_message
new_message-Represents type = record {
  spare = [];
  content = refl;
  used = refl;
  allocated = refl;
  in_range = omega arith;
}

pub Represents-bounded :
    (m : Message) (fs : List Field)
    → Represents m fs
    → (m.payload_size ≤ length (block m.raw_payload)) × IsU32 m.payload_size
Represents-bounded m fs r = (
  omega (arith, r.used, length-append (encode fs) r.spare, ap length r.content),
  omega (
    arith,
    r.used,
    length-append (encode fs) r.spare,
    ap length r.content,
    r.in_range,
    r.allocated,
  ),
)
