-- ===== src/Travels/Rounds.antt =====
-- What a round of each program does to its queue, seen through the labels of the messages.
use mathlib.Core.List.{map-append}
use shp.Base.{
  ◌⊎◌, ℕ, ◌+◌, ◌<◌, ◌≡◌, sym, ap, ◌∙◌, subst, true, false, inl, inr, List, [], ◌∷◌, ◌++◌, ◌==◌, map,
  done, arith,
}
use shp.Memory.{u32_mod}
use shp.ErrorCodes.{ErrorCode, is_ok}
use shp.Message.{Message}
use shp.Queue.{Queue, add, peek, remove}
use shp.Queue.Order.{IsValid, add-IsValid, remove-IsValid}
use shp.Queue.Fifo.{contents, Serves, peek-Serves, add-contents}
use shp.Os.{Os}
use shp.Os.Laws.{RecvLaws, SendLaws, IsBytewise}
use shp.Configuration.{Config}
use shp.Client.{NetworkSettings, process_event}
use shp.Client.Event.{process_event_queue, peek_ok}
use shp.Proxy.Thread.{forward}
use shp.Proxy.Forwarding.{forward_queue}
use shp.Head.{Tm, show_message_event}
use shp.Head.Thread.{show_next}
use shp.Transfer.Through.{done_injective}
use shp.Travels.Pipeline.{IsSendable, Waits}

pub show_next_oldest :
    (localtime : ℕ → Tm) (now : ℕ → ℕ) (q : Queue Message) (m : Message) (behind : List Message)
    (c c' : Config)
    → IsValid q
    → contents q ≡ m ∷ behind
    → show_message_event localtime now m c ≡ done c'
    → show_next localtime now q c ≡ done ((remove (peek q).1.id q).1, c')
unfolding show_next
show_next_oldest localtime now q m behind c c' valid waits shows =
    let (numbered, oldest, rest, destroyed) = subst (Serves q) waits (peek-Serves q valid) in
    let nz : ((peek q).1.id == 0) ≡ false = ground arith in rw (nz, peek_ok q, oldest, shows)

module _ {E : Type 0} (label : Message → E) where
  -- A message has left a queue at its front.
  abbrev pub Leaves : Message → Queue Message → Queue Message → Type 0
  Leaves m q q' = IsValid q' × (map label (contents q) ≡ label m ∷ map label (contents q'))

  remove-Leaves :
      (q : Queue Message) (m : Message) (behind : List Message)
      → Waits q m behind
      → Leaves m q (remove (peek q).1.id q).1
  remove-Leaves q m behind (valid, waits) =
      let (numbered, oldest, rest, destroyed) = subst (Serves q) waits (peek-Serves q valid) in
      (remove-IsValid (peek q).1.id q valid, ap (map label) (waits ∙ ap (λ l. m ∷ l) (sym rest)))

  -- A message is put behind those that wait.
  pub received :
      (q : Queue Message) (m came : Message)
      → IsValid q
      → label came ≡ label m
      → q.message_id + 1 < u32_mod
      → IsValid (add came q).1
        × (map label (contents (add came q).1) ≡ map label (contents q) ++ label m ∷ [])
  received q m came valid same room = (
    add-IsValid came q valid room,
    ap (map label) (add-contents came q valid room)
        ∙ map-append label (contents q) (came ∷ [])
        ∙ ap (λ e. map label (contents q) ++ e ∷ []) same,
  )

  module _ (os : Os) (sends : SendLaws os) (recvs : RecvLaws os)
      (bytewise : IsBytewise os recvs) where
    open os use {World}

    pub process_event_after :
        (network : NetworkSettings) (q q' : Queue Message) (m : Message) (behind : List Message)
        (w w' : World) (result : ErrorCode)
        → Waits q m behind
        → IsSendable os m w
        → process_event os network q w ≡ done ((result, q'), w')
        → (is_ok result ≡ true × Leaves m q q') ⊎ (is_ok result ≡ false × q' ≡ q)
    process_event_after network q q' m behind w w' result (valid, waits) can runs =
        let (result1, q1, w1, runs1, which) =
          process_event_queue os sends recvs bytewise network m can.inside can.word q behind w valid
            waits can.open_fd in
        let same : ◌≡◌ {A = (ErrorCode × Queue Message) × World} ((result1, q1), w1)
            ((result, q'), w') =
          done_injective ((result1, q1), w1) ((result, q'), w') (sym runs1 ∙ runs) in
        subst (λ p. (is_ok p.0.0 ≡ true × Leaves m q p.0.1) ⊎ (is_ok p.0.0 ≡ false × p.0.1 ≡ q))
          same
          (elim which [
            | inl (success, left) ↦
                inl
                  (success, subst (Leaves m q) (sym left) (remove-Leaves q m behind (valid, waits)))
            | inr failure ↦ inr failure
          ])

    pub forward-Leaves :
        (q q' : Queue Message) (m : Message) (behind : List Message) (w w' : World)
        → Waits q m behind
        → IsSendable os m w
        → forward os q w ≡ done (q', w')
        → Leaves m q q'
    forward-Leaves q q' m behind w w' (valid, waits) can runs =
        let (answered, fd, w1, exchanges, w2, runs1) =
          forward_queue os sends recvs bytewise q m behind w can.inside can.word valid waits
            can.open_fd in
        let same : ◌≡◌ {A = Queue Message × World} ((remove (peek q).1.id q).1, w2) (q', w') =
          done_injective ((remove (peek q).1.id q).1, w2) (q', w') (sym runs1 ∙ runs) in
        subst (λ p. Leaves m q p.0) same (remove-Leaves q m behind (valid, waits))

  pub show_next-Leaves :
      (localtime : ℕ → Tm) (now : ℕ → ℕ) (q q' : Queue Message) (m : Message)
      (behind : List Message) (c shown_on c' : Config)
      → Waits q m behind
      → show_message_event localtime now m c ≡ done shown_on
      → show_next localtime now q c ≡ done (q', c')
      → Leaves m q q'
  show_next-Leaves localtime now q q' m behind c shown_on c' (valid, waits) shows runs =
      let same : ◌≡◌ {A = Queue Message × Config} ((remove (peek q).1.id q).1, shown_on) (q', c') =
        done_injective ((remove (peek q).1.id q).1, shown_on) (q', c')
          (sym (show_next_oldest localtime now q m behind c shown_on valid waits shows) ∙ runs) in
      subst (λ p. Leaves m q p.0) same (remove-Leaves q m behind (valid, waits))
