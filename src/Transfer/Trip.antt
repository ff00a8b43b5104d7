-- ===== src/Transfer/Trip.antt =====
-- A message's way over one connection, as a relation between what was sent and what was received.
use shp.Base.{◌≡◌, ◌<◌, ℕ, ℤ, sym, ap, ◌∙◌, subst, true, some, Option, List, ◌++◌, done, arith}
use shp.Memory.{Memory, cells}
use shp.ErrorCodes.{ErrorCode, ok}
use shp.Message.{Message, Header, MessageId, message_id_code}
use shp.Message.Fields.{Field, Represents, Represents-bounded}
use shp.Memory.Arrives.{Arrives}
use shp.Message.Arriving.{FieldsArrive, AreWritten, FieldsArrive-AreWritten}
use shp.Message.Wire.{IsHeader}
use shp.Message.Build.{stamp, stamp_of}
use shp.Os.{Os}
use shp.Os.Laws.{RecvLaws, SendLaws, IsPrompt}
use shp.Socket.{is_settable}
use shp.Transfer.{send_parts, recv_parts}
use shp.Transfer.Through.{send_parts-recv_parts, done_injective}

-- One program sends the message with the result `ok`, its bytes come to the other, which receives a
-- message with the result `ok`.
pub record Trip (m m' : Message) : Type 1 where
  pub sender : Os
  pub sends : SendLaws sender
  pub receiver : Os
  pub recvs : RecvLaws receiver
  pub prompt : IsPrompt receiver recvs
  pub sender_fd : ℤ
  pub receiver_fd : ℤ
  pub write_timeout : ℕ
  pub read_timeout : ℕ
  pub before : sender.World
  pub after : sender.World
  pub coming : receiver.World
  pub gone : receiver.World
  pub bytes : Memory
  pub behind : List ℕ
  pub sender_open : is_settable sender_fd ≡ true
  pub receiver_open : is_settable receiver_fd ≡ true
  pub runs : send_parts sender sender_fd write_timeout m before ≡ done (ok, after)
  pub goes : sends.outgoing after sender_fd ≡ sends.outgoing before sender_fd ++ bytes
  pub comes : Arrives (bytes ++ cells behind) (cells (recvs.incoming coming receiver_fd))
  pub received : recv_parts receiver receiver_fd read_timeout coming ≡ done ((ok, some m'), gone)

pub some_injective : (x y : Message) → some x ≡ some y → x ≡ y
some_injective x y e = cc

-- What is received has the header of what was sent, and stands for fields that arrive of its fields.
pub Trip-Represents :
    (m m' : Message) (fs : List Field)
    → Trip m m'
    → IsHeader m.header
    → Represents m fs
    → (m'.header ≡ m.header) × (gs : List Field) × FieldsArrive fs gs × Represents m' gs
Trip-Represents m m' fs t valid r =
    let c =
      send_parts-recv_parts t.sender t.sends t.receiver t.recvs t.prompt t.sender_fd t.receiver_fd
        t.write_timeout t.read_timeout m fs t.before t.after t.coming t.bytes t.behind t.sender_open
        t.receiver_open valid r t.runs t.goes t.comes in
    let ends : ◌≡◌ {A = (ErrorCode × Option Message) × t.receiver.World}
        ((ok, some c.message), c.after) ((ok, some m'), t.gone) =
      done_injective ((ok, some c.message), c.after) ((ok, some m'), t.gone)
        (sym c.runs ∙ t.received) in
    let same : c.message ≡ m' = some_injective c.message m' (ap (λ p. p.0.1) ends) in
    (
      ap (λ (x : Message). x.header) (sym same) ∙ c.same_header,
      c.fields,
      c.arrive,
      subst (λ (x : Message). Represents x c.fields) same c.represents,
    )

message_id_code_word : (id : MessageId) → message_id_code id < 256
unfolding message_id_code
message_id_code_word id = grind arith

-- A message that was built field by field has a header that fits on the wire.
pub stamp-IsHeader :
    (m : Message) (fs : List Field) (id : MessageId)
    → stamp m ≡ stamp_of id
    → Represents m fs
    → IsHeader m.header
stamp-IsHeader m fs id e r =
    let same_id : m.message_id ≡ message_id_code id = ap (λ p. p.0) e in
    let same_version : m.message_version ≡ 1 = ap (λ p. p.1.0) e in
    let same_result : m.message_result ≡ 0 = ap (λ p. p.1.1) e in
    record {
      version_byte = omega arith;
      id_word = omega (arith, message_id_code_word id);
      size_word = (Represents-bounded m fs r).1;
      result_word = omega arith;
    }

-- So it arrives with the same id.
pub Trip-built :
    (m m' : Message) (fs : List Field) (id : MessageId)
    → Trip m m'
    → stamp m ≡ stamp_of id
    → Represents m fs
    → (stamp m' ≡ stamp_of id) × (gs : List Field) × FieldsArrive fs gs × Represents m' gs
Trip-built m m' fs id t e r =
    let (same, gs, arrive, represents) = Trip-Represents m m' fs t (stamp-IsHeader m fs id e r) r in
    (
      ap (λ (h : Header). (h.message_id, (h.message_version, h.message_result))) same ∙ e,
      gs,
      arrive,
      represents,
    )

-- And where all of its fields are written, it arrives with the same fields.
pub Trip-AreWritten :
    (m m' : Message) (fs : List Field) (id : MessageId)
    → Trip m m'
    → stamp m ≡ stamp_of id
    → Represents m fs
    → AreWritten fs
    → (stamp m' ≡ stamp_of id) × Represents m' fs
Trip-AreWritten m m' fs id t e r w =
    let (stamped, gs, arrive, represents) = Trip-built m m' fs id t e r in
    (stamped, subst (Represents m') (sym (FieldsArrive-AreWritten fs gs w arrive)) represents)
