-- ===== src/Transfer/Ends.antt =====
-- Sending and receiving a message end without undefined behaviour, whatever the peer sends.
use shp.Base.{
  ℕ, ◌≤◌, ◌≡◌, ◌⊎◌, Option, refl, sym, ap, ◌∙◌, subst, ℤ, true, false, Bool-cases, inl, inr, List,
  [], ◌∷◌, ◌++◌, ◌==◌, length, drop, replicate, length-map, length-replicate, some, none, done,
  arith,
}
use shp.Memory.{Cell, IsU32, cells, from_le32}
use shp.Memory.Bytes.{IsBytes, IsBytes-append}
use shp.Memory.Copy.{write_at-append}
use shp.ErrorCodes.{ErrorCode, is_ok, ok, eq_of_is_ok}
use shp.Message.{Message, Header, block, header_of_bytes, header_size, message_of_header}
use shp.Os.{Os}
use shp.Os.Actions.{Io}
use shp.Os.Ends.{Ends}
use shp.Os.Laws.{RecvLaws, SendLaws, IsBytewise}
use shp.Socket.{recv_data, is_settable}
use shp.Socket.Recv.{recv_data-Receives}
use shp.Transfer.{fill_payload, recv_payload, recv_parts, send_parts}
use shp.Transfer.Sending.{send_parts-SendsFront}
use shp.Transfer.Receiving.{same_size}

header_of_bytes-some :
    (bytes : List ℕ)
    → length bytes ≡ header_size
    → IsBytes bytes
    → (h : Header) × (header_of_bytes (cells bytes) ≡ some h) × IsU32 h.payload_size
unfolding header_of_bytes from_le32
header_of_bytes-some (v ∷ a ∷ b ∷ c ∷ d ∷ e ∷ f ∷ g ∷ h ∷ i ∷ j ∷ k ∷ l ∷ []) size bytes =
    (_, refl, omega arith)
header_of_bytes-some [] size bytes = absurd (omega arith)
header_of_bytes-some (v ∷ []) size bytes = absurd (omega arith)
header_of_bytes-some (v ∷ a ∷ []) size bytes = absurd (omega arith)
header_of_bytes-some (v ∷ a ∷ b ∷ []) size bytes = absurd (omega arith)
header_of_bytes-some (v ∷ a ∷ b ∷ c ∷ []) size bytes = absurd (omega arith)
header_of_bytes-some (v ∷ a ∷ b ∷ c ∷ d ∷ []) size bytes = absurd (omega arith)
header_of_bytes-some (v ∷ a ∷ b ∷ c ∷ d ∷ e ∷ []) size bytes = absurd (omega arith)
header_of_bytes-some (v ∷ a ∷ b ∷ c ∷ d ∷ e ∷ f ∷ []) size bytes = absurd (omega arith)
header_of_bytes-some (v ∷ a ∷ b ∷ c ∷ d ∷ e ∷ f ∷ g ∷ []) size bytes = absurd (omega arith)
header_of_bytes-some (v ∷ a ∷ b ∷ c ∷ d ∷ e ∷ f ∷ g ∷ h ∷ []) size bytes = absurd (omega arith)
header_of_bytes-some (v ∷ a ∷ b ∷ c ∷ d ∷ e ∷ f ∷ g ∷ h ∷ i ∷ []) size bytes = absurd (omega arith)
header_of_bytes-some (v ∷ a ∷ b ∷ c ∷ d ∷ e ∷ f ∷ g ∷ h ∷ i ∷ j ∷ []) size bytes =
    absurd (omega arith)
header_of_bytes-some (v ∷ a ∷ b ∷ c ∷ d ∷ e ∷ f ∷ g ∷ h ∷ i ∷ j ∷ k ∷ []) size bytes =
    absurd (omega arith)
header_of_bytes-some (v ∷ a ∷ b ∷ c ∷ d ∷ e ∷ f ∷ g ∷ h ∷ i ∷ j ∷ k ∷ l ∷ m ∷ ns) size bytes =
    absurd (omega arith)

-- Bytes that fit into the block of a new message are copied into it.
fill_payload_fits :
    (h : Header) (bytes : List ℕ)
    → (h.payload_size == 0) ≡ false
    → length bytes ≤ h.payload_size
    → (filled : Message) × (fill_payload bytes (message_of_header h) ≡ done filled)
unfolding fill_payload message_of_header
fill_payload_fits h bytes nz fits = (
  record (message_of_header h) {
    raw_payload = some (cells bytes ++ drop (length (cells bytes)) (replicate h.payload_size none));
  },
  rw (
    nz,
    write_at-append [] (cells bytes) (replicate h.payload_size none) 0 refl (
        omega (
          arith,
          length-map {0, 0} {B = Cell} some bytes,
          length-replicate {0} {A = Cell} h.payload_size none,
        )),
  ),
)

-- A failure, or a message.
abbrev pub Answered : ErrorCode × Option Message → Type 0
Answered r = (is_ok r.0 ≡ false) ⊎ ((m : Message) × (r.1 ≡ some m))

-- Code that comes to an end with a failure or a message.
abbrev pub Answers : {W : Type 0} → Io W (ErrorCode × Option Message) → Type 0
Answers {W} m = (w : W) → (r : (ErrorCode × Option Message) × W) × (m w ≡ done r) × Answered r.0

module _ (os : Os) (laws : RecvLaws os) (bytewise : IsBytewise os laws) (fd : ℤ) (timeout : ℕ)
    (open_fd : is_settable fd ≡ true) where
  open laws use {incoming}

  recv_payload_stored :
      (m filled : Message) (result : ErrorCode) (bytes : List ℕ) (w w' : os.World)
      → (m.payload_size == 0) ≡ false
      → recv_data os fd m.payload_size timeout w ≡ done ((result, bytes), w')
      → fill_payload bytes m ≡ done filled
      → recv_payload os fd timeout m w ≡ done ((result, some filled), w')
  unfolding recv_payload
  recv_payload_stored m filled result bytes w w' more runs fills = rw (more, runs, fills)

  recv_payload_empty :
      (m : Message) (w : os.World)
      → (m.payload_size == 0) ≡ true
      → recv_payload os fd timeout m w ≡ done ((ok, some m), w)
  unfolding recv_payload
  recv_payload_empty m w empty = rw empty

  recv_payload-Answers :
      (h : Header)
      → IsU32 h.payload_size
      → Answers (recv_payload os fd timeout (message_of_header h))
  recv_payload-Answers h word w =
      let same : (message_of_header h).payload_size ≡ h.payload_size = same_size h in
      elim (Bool-cases (h.payload_size == 0)) [
        | inl empty ↦ (
          ((ok, some (message_of_header h)), w),
          recv_payload_empty (message_of_header h) w (ap (λ n. n == 0) same ∙ empty),
          inr (message_of_header h, refl),
        )
        | inr more ↦
            let d = recv_data-Receives os laws fd h.payload_size timeout w open_fd word in
            let (filled, fills) = fill_payload_fits h d.bytes more (omega (arith, d.bounded)) in
            let runs =
              subst (λ n. recv_data os fd n timeout w ≡ done ((d.result, d.bytes), d.after))
                (sym same) d.runs in
            (
              ((d.result, some filled), d.after),
              recv_payload_stored (message_of_header h) filled d.result d.bytes w d.after
                  (ap (λ n. n == 0) same ∙ more) runs fills,
              inr (filled, refl),
            )
      ]

  -- Whatever comes, if anything does.
  pub recv_parts-Answers : Answers (recv_parts os fd timeout)
  unfolding recv_parts
  recv_parts-Answers w =
      let d = recv_data-Receives os laws fd header_size timeout w open_fd (omega arith) in
      elim (Bool-cases (is_ok d.result)) [
        | inr failure ↦ (((d.result, none), d.after), rw (d.runs, failure), inl failure)
        | inl success ↦
            let size : length d.bytes ≡ header_size =
              omega (arith, d.complete (eq_of_is_ok d.result success)) in
            let (h, reads, word) = header_of_bytes-some d.bytes size (
              IsBytes-append d.bytes (incoming d.after fd)
                (subst IsBytes d.taken (bytewise.incoming_bytes fd w))) in
            let (r, ends, answered) = recv_payload-Answers h word d.after in
            (r, rw (d.runs, success, reads) ends, answered)
      ]

  pub recv_parts-Ends : Ends (recv_parts os fd timeout)
  recv_parts-Ends w = let (r, ends, answered) = recv_parts-Answers w in (r, ends)

pub send_parts-Ends :
    (os : Os) (laws : SendLaws os) (fd : ℤ) (timeout : ℕ) (m : Message)
    → is_settable fd ≡ true
    → m.payload_size ≤ length (block m.raw_payload)
    → IsU32 m.payload_size
    → Ends (send_parts os fd timeout m)
send_parts-Ends os laws fd timeout m open_fd whole word w =
    let d = send_parts-SendsFront os laws fd timeout m w open_fd whole word in
    ((d.result, d.after), d.runs)
