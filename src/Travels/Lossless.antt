-- ===== src/Travels/Lossless.antt =====
-- Runs in which no round fails: nothing is lost and nothing is repeated.
use shp.Base.{ℕ, ◌≡◌, refl, sym, ap, ◌∙◌, true, inl, inr, List, [], ◌∷◌, ◌++◌, map}
use shp.Message.{Message}
use shp.Queue.{Queue, add}
use shp.Queue.Fifo.{contents, contents-new_queue}
use shp.Os.{Os}
use shp.Os.Laws.{RecvLaws, SendLaws, IsBytewise}
use shp.Client.{NetworkSettings}
use shp.Head.{Tm}
use shp.Travels.Lines.{at_end_line, to_proxy_line, to_head_line, to_screen_line}
use shp.Travels.Rounds.{received, process_event_after, forward-Leaves, show_next-Leaves}
use shp.Travels.Ordered.{Step-IsOrdered, nothing_yet-IsOrdered}
use shp.Travels.Pipeline.{
  nothing_yet, System, Step, happens, delivered, unanswered, undelivered, passes, dropped,
  displayed, line, IsOrdered, is_lossless, Flows, still, flows_on,
}

module _ (os : Os) (network : NetworkSettings) (localtime : ℕ → Tm) {E : Type 0}
    (label : Message → E) (sends : SendLaws os) (recvs : RecvLaws os)
    (bytewise : IsBytewise os recvs) where
  abbrev labels : Queue Message → List E
  labels q = map label (contents q)

  abbrev whole_line : System E → List E
  whole_line = line os network localtime label

  Step-line :
      (s s' : System E)
      → IsOrdered os network localtime label s
      → (step : Step os network localtime label s s')
      → is_lossless os network localtime label step ≡ true
      → whole_line s ≡ s.happened
      → whole_line s' ≡ s'.happened
  unfolding is_lossless
  Step-line s _ o (happens m room) lossless e =
      let (valid, ends) = received label s.client m m o.client_valid refl room in
      sym (
        at_end_line s.shown (labels s.head) (labels s.proxy) (labels s.client)
          (labels (add m s.client).1) (label m) ends)
      ∙ ap (λ l. l ++ label m ∷ []) e
  Step-line s _ o
        (delivered {m} {came} {behind} {w} {w'} {result} {q} waits can runs success same room)
        lossless e =
      elim (process_event_after label os sends recvs bytewise network s.client q m behind w w'
        result waits can runs) [
          | inr failure ↦ cc
          | inl (again, (valid, rest)) ↦
              let (proxy_valid, ends) = received label s.proxy m came o.proxy_valid same room in
              sym (
                to_proxy_line s.shown (labels s.head) (labels s.proxy) (labels (add came s.proxy).1)
                  (labels s.client) (labels q) (label m) rest ends)
              ∙ e
        ]
  Step-line s _ o (unanswered waits can runs failed same room) lossless e = cc
  Step-line s _ o (undelivered waits can runs failed) lossless e = cc
  Step-line s _ o (passes {m} {came} {behind} {w} {w'} {q} waits can runs same room) lossless e =
      let (valid, rest) =
        forward-Leaves label os sends recvs bytewise s.proxy q m behind w w' waits can runs in
      let (head_valid, ends) = received label s.head m came o.head_valid same room in
      sym (
        to_head_line s.shown (labels s.head) (labels (add came s.head).1) (labels s.proxy)
          (labels q) (labels s.client) (label m) rest ends)
      ∙ e
  Step-line s _ o (dropped waits can runs) lossless e = cc
  Step-line s _ o (displayed {m} {behind} {shown_on} {c'} {q} now c waits shows runs) lossless e =
      let (valid, rest) =
        show_next-Leaves label localtime now s.head q m behind c shown_on c' waits shows runs in
      sym (
        to_screen_line s.shown (labels s.head) (labels q) (labels s.proxy) (labels s.client)
          (label m) rest)
      ∙ e

  Flows-IsOrdered :
      (s' : System E)
      → Flows os network localtime label nothing_yet s'
      → IsOrdered os network localtime label s' × (whole_line s' ≡ s'.happened)
  Flows-IsOrdered _ still = (
    nothing_yet-IsOrdered os network localtime label sends recvs bytewise,
    rw (contents-new_queue {A = Message}),
  )
  Flows-IsOrdered s' (flows_on {s1} flows step lossless) =
      let (ordered, e) = Flows-IsOrdered s1 flows in
      (
        Step-IsOrdered os network localtime label sends recvs bytewise s1 s' ordered step,
        Step-line s1 s' ordered step lossless e,
      )

  -- As long as no round fails and the ids of no queue run out, from empty queues on, with messages that
  -- hold their whole payloads, descriptors that fit into an fd_set, and labels that survive the
  -- connections: what was shown, followed by what waits in the head, in the proxy and in the client,
  -- is what happened, each event once and in its order. So where the queues are empty, everything that
  -- happened was shown.
  pub Flows-line :
      (s' : System E)
      → Flows os network localtime label nothing_yet s'
      → line os network localtime label s' ≡ s'.happened
  Flows-line s' flows = (Flows-IsOrdered s' flows).1
