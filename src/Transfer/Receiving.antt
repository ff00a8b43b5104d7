-- ===== src/Transfer/Receiving.antt =====
-- A message that has arrived is taken off the wire whole.
use shp.Base.{
  ℕ, ◌≤◌, ◌<◌, ◌≡◌, refl, sym, ap, ◌∙◌, subst, ℤ, true, false, List, [], ◌∷◌, ◌++◌, ◌==◌, length,
  drop, drop_all, replicate, length-map, length-replicate, some, none, done, arith, append-nil,
}
use shp.Memory.{Cell, IsU32, cells}
use shp.Memory.Copy.{write_at-append}
use shp.ErrorCodes.{ok}
use shp.Message.{Message, Header, header_bytes, message_of_header}
use shp.Message.Wire.{IsHeader, length-header_bytes, header_of_bytes-header_bytes}
use shp.Os.{Os}
use shp.Os.Laws.{RecvLaws, IsPrompt}
use shp.Socket.{recv_data, is_settable}
use shp.Socket.Recv.{recv_data_arrived}
use shp.Transfer.{fill_payload, recv_payload, recv_parts}

-- The message with a header and a payload, in a block of exactly its size.
abbrev pub arrived : Header → List ℕ → Message
arrived h [] = record { header = h; raw_payload = none; alloc_size = 0 }
arrived h (b ∷ body) = record {
  header = h;
  raw_payload = some (cells (b ∷ body));
  alloc_size = length (b ∷ body);
}

pub same_size : (h : Header) → (message_of_header h).payload_size ≡ h.payload_size
unfolding message_of_header
same_size h = ground arith

message_of_header-empty : (h : Header) → h.payload_size ≡ 0 → message_of_header h ≡ arrived h []
unfolding message_of_header
message_of_header-empty h e = let z : (h.payload_size == 0) ≡ true = ground arith in rw z

fill_payload_lem :
    (h : Header) (b : ℕ) (body : List ℕ)
    → h.payload_size ≡ length (b ∷ body)
    → fill_payload (b ∷ body) (message_of_header h) ≡ done (arrived h (b ∷ body))
unfolding fill_payload message_of_header
fill_payload_lem h b body e =
    let nz : (h.payload_size == 0) ≡ false = ground arith in
    rw
      (
        nz,
        write_at-append [] (cells (b ∷ body)) (replicate h.payload_size none) 0 refl room,
        nothing_left,
        append-nil,
      )
      (ap (λ n. done (record { header = h; raw_payload = some (cells (b ∷ body)); alloc_size = n }))
        e)
  where
    room : length (cells (b ∷ body)) ≤ length (replicate {A = Cell} h.payload_size none)
    room = omega (
      arith,
      length-map {0, 0} {B = Cell} some body,
      length-replicate {0} {A = Cell} h.payload_size none,
    )

    nothing_left : drop (length (cells (b ∷ body))) (replicate {A = Cell} h.payload_size none) ≡ []
    nothing_left = drop_all (replicate {A = Cell} h.payload_size none) (length (cells (b ∷ body))) (
        omega (
          arith,
          length-map {0, 0} {B = Cell} some body,
          length-replicate {0} {A = Cell} h.payload_size none,
        ))

module _ (os : Os) (laws : RecvLaws os) (prompt : IsPrompt os laws) (fd : ℤ) (timeout : ℕ)
    (open_fd : is_settable fd ≡ true) (rest : List ℕ) where
  open laws use {incoming}

  recv_payload_more :
      (m filled : Message) (body : List ℕ) (w : os.World)
      → m.payload_size ≡ length body
      → 0 < length body
      → IsU32 (length body)
      → fill_payload body m ≡ done filled
      → incoming w fd ≡ body ++ rest
      → (w' : os.World) × (recv_payload os fd timeout m w ≡ done ((ok, some filled), w'))
        × (incoming w' fd ≡ rest)
  unfolding recv_payload
  recv_payload_more m filled body w size some_body word fills e =
      let nz : (m.payload_size == 0) ≡ false = ground arith in
      let (w', runs, after) =
        recv_data_arrived os laws fd timeout body rest w prompt open_fd some_body word e in
      let runs' =
        subst (λ n. recv_data os fd n timeout w ≡ done ((ok, body), w')) (sym size) runs in
      (w', rw (nz, runs', fills), after)

  recv_payload_none :
      (m : Message) (w : os.World)
      → m.payload_size ≡ 0
      → recv_payload os fd timeout m w ≡ done ((ok, some m), w)
  unfolding recv_payload
  recv_payload_none m w e = let z : (m.payload_size == 0) ≡ true = ground arith in rw z

  -- What follows the header.
  recv_payload-arrived :
      (h : Header) (body : List ℕ) (w : os.World)
      → h.payload_size ≡ length body
      → IsU32 h.payload_size
      → incoming w fd ≡ body ++ rest
      → (w' : os.World) × (recv_payload os fd timeout (message_of_header h) w
          ≡ done ((ok, some (arrived h body)), w'))
        × (incoming w' fd ≡ rest)
  recv_payload-arrived h [] w size word e = (
    w,
    recv_payload_none (message_of_header h) w (same_size h ∙ size)
        ∙ ap (λ m. done ((ok, some m), w)) (message_of_header-empty h size),
    e,
  )
  recv_payload-arrived h (b ∷ body) w size word e =
      recv_payload_more (message_of_header h) (arrived h (b ∷ body)) (b ∷ body) w
        (same_size h ∙ size) (omega arith) (rw (← size) word) (fill_payload_lem h b body size) e

  -- On an open descriptor of a prompt connection, a whole message that has arrived is received: its header is the one sent, its payload is
  -- the one sent, in a block of exactly its size, and what follows it stays on the connection.
  pub recv_parts-arrived :
      (h : Header) (body : List ℕ) (w : os.World)
      → IsHeader h
      → h.payload_size ≡ length body
      → incoming w fd ≡ header_bytes h ++ (body ++ rest)
      → (w' : os.World) × (recv_parts os fd timeout w ≡ done ((ok, some (arrived h body)), w'))
        × (incoming w' fd ≡ rest)
  unfolding recv_parts
  recv_parts-arrived h body w valid size e =
      let (w1, head, after) =
        recv_data_arrived os laws fd timeout (header_bytes h) (body ++ rest) w prompt open_fd
          (omega (arith, length-header_bytes h)) (omega (arith, length-header_bytes h)) e in
      let (w2, tail, left) = recv_payload-arrived h body w1 size valid.size_word after in
      let head' =
        subst (λ n. recv_data os fd n timeout w ≡ done ((ok, header_bytes h), w1))
          (length-header_bytes h) head in
      (w2, rw (head', header_of_bytes-header_bytes h valid) tail, left)
