-- ===== src/Transfer/Through.antt =====
-- A message that one program sends and another receives.
use shp.Base.{
  ℕ, ◌≡◌, refl, sym, ap, ap₂, ◌∙◌, subst, ℤ, true, some, List, [], ◌∷◌, ◌++◌, length, take,
  take_left, take_all, append_split, append_assoc, append-nil, length-map, done, arith,
}
use shp.Memory.{Memory, Cell, IsU32, cells}
use shp.ErrorCodes.{ErrorCode, ok}
use shp.Message.{Message, Header, block, header_bytes}
use shp.Message.Fields.{Field, encode, Represents, Represents-bounded, length-encode}
use shp.Message.Arriving.{FieldsArrive, encode-FieldsArrive}
use shp.Memory.Arrives.{Arrives, Arrives-append, Arrives-cells, length-Arrives}
use shp.Message.Wire.{IsHeader}
use shp.Os.{Os}
use shp.Os.Laws.{RecvLaws, SendLaws, IsPrompt}
use shp.Socket.{is_settable}
use shp.Transfer.{send_parts, recv_parts}
use shp.Transfer.Receiving.{arrived, recv_parts-arrived}
use shp.Transfer.Sending.{wire, send_parts-Delivers}

some_tail : (a b : ℕ) (xs ys : Memory) → some a ∷ xs ≡ some b ∷ ys → (a ≡ b) × (xs ≡ ys)
some_tail a b xs ys e = (cc, cc)

cells_injective : (xs ys : List ℕ) → cells xs ≡ cells ys → xs ≡ ys
cells_injective [] [] e = refl
cells_injective [] (y ∷ ys) e = cc
cells_injective (x ∷ xs) [] e = cc
cells_injective (x ∷ xs) (y ∷ ys) e =
    let (same, rest) = some_tail x y (cells xs) (cells ys) e in
    ap₂ ◌∷◌ same (cells_injective xs ys rest)

-- Bytes of which a last part is known.
split_last :
    (bytes : List ℕ) (front : Memory) (rest : List ℕ)
    → cells bytes ≡ front ++ cells rest
    → (body : List ℕ) × (cells body ≡ front) × (bytes ≡ body ++ rest)
split_last bytes [] rest e = ([], refl, cells_injective bytes rest e)
split_last [] (c ∷ front) rest e = cc
split_last (b ∷ bytes) (c ∷ front) rest e =
    let parts : (some b ≡ c) × (cells bytes ≡ front ++ cells rest) = (cc, cc) in
    let (body, same, split) = split_last bytes front rest parts.1 in
    (b ∷ body, ap₂ ◌∷◌ parts.0 same, ap (◌∷◌ b) split)

-- Bytes of which a first part is known.
split_first :
    (bytes front : List ℕ) (back : Memory)
    → cells bytes ≡ cells front ++ back
    → (rest : List ℕ) × (bytes ≡ front ++ rest) × (cells rest ≡ back)
split_first bytes [] back e = (bytes, refl, e)
split_first [] (f ∷ front) back e = cc
split_first (b ∷ bytes) (f ∷ front) back e =
    let (same, tail) = some_tail b f (cells bytes) (cells front ++ back) e in
    let (rest, split, other) = split_first bytes front back tail in
    (rest, ap₂ ◌∷◌ same split, other)

-- The used part of the block is the encoding of the fields.
used_part :
    (m : Message) (fs : List Field)
    → Represents m fs
    → take m.payload_size (block m.raw_payload) ≡ encode fs
used_part m fs r =
    ap (take m.payload_size) r.content ∙ take_left (encode fs) r.spare m.payload_size r.used

-- A received message stands for the fields of which its payload is the encoding.
arrived-Represents :
    (h : Header) (body : List ℕ) (fs : List Field)
    → cells body ≡ encode fs
    → h.payload_size ≡ length body
    → IsU32 h.payload_size
    → Represents (arrived h body) fs
arrived-Represents h [] fs e size word = record {
  spare = [];
  content = sym (append-nil (encode fs) ∙ sym e);
  used = size ∙ ap length e;
  allocated = refl;
  in_range = omega arith;
}
arrived-Represents h (b ∷ body) fs e size word = record {
  spare = [];
  content = e ∙ sym (append-nil (encode fs));
  used = omega (arith, size, ap length e, length-map {0, 0} {B = Cell} some body);
  allocated = omega (arith, length-map {0, 0} {B = Cell} some body);
  in_range = omega (arith, size);
}

arrived-header : (h : Header) (body : List ℕ) → (arrived h body).header ≡ h
arrived-header h [] = refl
arrived-header h (b ∷ body) = refl

-- Received whole: the header is the one sent, the message stands for fields that arrive of those
-- sent, and what follows stays on the connection.
pub record Crossed (receiver : Os) (laws : RecvLaws receiver) (fd : ℤ) (timeout : ℕ) (m : Message)
    (fs : List Field) (rest : List ℕ) (w : receiver.World) : Type 0 where
  pub message : Message
  pub fields : List Field
  pub after : receiver.World
  pub runs : recv_parts receiver fd timeout w ≡ done ((ok, some message), after)
  pub same_header : message.header ≡ m.header
  pub arrive : FieldsArrive fs fields
  pub represents : Represents message fields
  pub left : laws.incoming after fd ≡ rest

pub done_injective : {A : Type 0} (x y : A) → done x ≡ done y → x ≡ y
done_injective x y e = cc

-- What has been sent of a message whose transfer succeeded is the header and the fields.
sent_whole :
    (os : Os) (laws : SendLaws os) (fd : ℤ) (timeout : ℕ) (m : Message) (fs : List Field)
    (w w' : os.World) (sent : Memory)
    → is_settable fd ≡ true
    → Represents m fs
    → send_parts os fd timeout m w ≡ done (ok, w')
    → laws.outgoing w' fd ≡ laws.outgoing w fd ++ sent
    → sent ≡ cells (header_bytes m.header) ++ encode fs
sent_whole os laws fd timeout m fs w w' sent open_fd r runs e =
    let (inside, word) = Represents-bounded m fs r in
    let d = send_parts-Delivers os laws fd timeout m w open_fd inside word in
    let same_end : ◌≡◌ {A = ErrorCode × os.World} (d.result, d.after) (ok, w') =
      done_injective (d.result, d.after) (ok, w') (sym d.runs ∙ runs) in
    let ends : d.result ≡ ok = ap (λ p. p.0) same_end in
    let stays : d.after ≡ w' = ap (λ p. p.1) same_end in
    let all : take d.count (wire m) ≡ wire m =
      take_all (wire m) d.count (omega (arith, d.complete ends)) in
    let (same, new) =
      append_split (laws.outgoing w fd) sent (laws.outgoing w fd) (take d.count (wire m))
        (sym e ∙ ap (λ x. laws.outgoing x fd) (sym stays) ∙ d.appended) refl in
    new ∙ all ∙ ap (◌++◌ (cells (header_bytes m.header))) (used_part m fs r)

-- The bytes on the other end are a header, fields that arrive of those sent, and what is behind.
came :
    (h : Header) (fs : List Field) (bytes rest : List ℕ)
    → Arrives ((cells (header_bytes h) ++ encode fs) ++ cells rest) (cells bytes)
    → (body : List ℕ) × (gs : List Field) × (bytes ≡ header_bytes h ++ (body ++ rest))
      × FieldsArrive fs gs
      × (cells body ≡ encode gs)
came h fs bytes rest a =
    let (front, back, e1, a1, b1) =
      Arrives-append (cells (header_bytes h) ++ encode fs) (cells rest) (cells bytes) a in
    let (head, fields, e2, a2, b2) = Arrives-append (cells (header_bytes h)) (encode fs) front a1 in
    let (gs, arrive, e3) = encode-FieldsArrive fs fields b2 in
    let whole : cells bytes ≡ cells (header_bytes h) ++ (encode gs ++ cells rest) =
      e1
      ∙ ap₂ (λ x y. x ++ y)
          (e2 ∙ ap₂ (λ x y. x ++ y) (sym (Arrives-cells (header_bytes h) head a2)) e3)
          (sym (Arrives-cells rest back b1))
      ∙ append_assoc (cells (header_bytes h)) (encode gs) (cells rest) in
    let (tail, split, tail_cells) =
      split_first bytes (header_bytes h) (encode gs ++ cells rest) whole in
    let (body, body_cells, tail_split) = split_last tail (encode gs) rest tail_cells in
    (body, gs, split ∙ ap (◌++◌ (header_bytes h)) tail_split, arrive, body_cells)

length-encode-FieldsArrive :
    (fs gs : List Field) → FieldsArrive fs gs → length (encode fs) ≡ length (encode gs)
length-encode-FieldsArrive [] [] a = refl
length-encode-FieldsArrive [] (g ∷ gs) a = absurd a
length-encode-FieldsArrive (f ∷ fs) [] a = absurd a
length-encode-FieldsArrive (f ∷ fs) (g ∷ gs) ((tag, value), a) = omega (
  arith,
  length-encode f fs,
  length-encode g gs,
  length-Arrives f.value g.value value,
  length-encode-FieldsArrive fs gs a,
)

module _ (sender : Os) (sends : SendLaws sender) (receiver : Os) (recvs : RecvLaws receiver)
    (prompt : IsPrompt receiver recvs) where
  -- A message that stands for some fields and is sent with the result `ok` is received by a prompt
  -- connection to which what was sent has come: the received message has the same header and stands for
  -- fields with the same tags and, wherever a byte of a value was written, the same byte; and what
  -- comes behind it stays on the connection.
  pub send_parts-recv_parts :
      (fd fd' : ℤ) (timeout timeout' : ℕ) (m : Message) (fs : List Field) (w w' : sender.World)
      (v : receiver.World) (sent : Memory) (rest : List ℕ)
      → is_settable fd ≡ true
      → is_settable fd' ≡ true
      → IsHeader m.header
      → Represents m fs
      → send_parts sender fd timeout m w ≡ done (ok, w')
      → sends.outgoing w' fd ≡ sends.outgoing w fd ++ sent
      → Arrives (sent ++ cells rest) (cells (recvs.incoming v fd'))
      → Crossed receiver recvs fd' timeout' m fs rest v
  send_parts-recv_parts fd fd' timeout timeout' m fs w w' v sent rest open_fd open_fd' valid r runs
        goes comes =
      let whole = sent_whole sender sends fd timeout m fs w w' sent open_fd r runs goes in
      let (body, gs, split, arrive, body_cells) =
        came m.header fs (recvs.incoming v fd') rest
          (subst (λ b. Arrives (b ++ cells rest) (cells (recvs.incoming v fd'))) whole comes) in
      let size : m.payload_size ≡ length body = omega (
        arith,
        r.used,
        ap length body_cells,
        length-encode-FieldsArrive fs gs arrive,
        length-map {0, 0} {B = Cell} some body,
      ) in
      let (v', receives, left) =
        recv_parts-arrived receiver recvs prompt fd' timeout' open_fd' rest m.header body v valid
          size split in
      record {
        message = arrived m.header body;
        fields = gs;
        after = v';
        runs = receives;
        same_header = arrived-header m.header body;
        arrive = arrive;
        represents = arrived-Represents m.header body gs body_cells size valid.size_word;
        left = left;
      }
