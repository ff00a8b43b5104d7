-- ===== src/Travels/Ordered.antt =====
-- A step keeps the labels of the three queues in order, and so the screen shows the events in the order
-- in which they happened.
use shp.Base.{ℕ, ◌+◌, ◌<◌, ◌≡◌, refl, sym, ap, subst, inl, inr, List, [], ◌++◌, map}
use shp.Memory.{u32_mod}
use shp.Message.{Message}
use shp.Queue.{Queue, add}
use shp.Queue.Order.{new_queue-IsValid}
use shp.Queue.Fifo.{contents, contents-new_queue}
use shp.Os.{Os}
use shp.Os.Laws.{RecvLaws, SendLaws, IsBytewise}
use shp.Client.{NetworkSettings}
use shp.Head.{Tm}
use shp.Travels.InOrder.{InOrder, nothing, InOrder_prefix}
use shp.Travels.Lines.{at_end, to_proxy_line, doubled, to_head_line, lost, to_screen_line}
use shp.Travels.Rounds.{received, process_event_after, forward-Leaves, show_next-Leaves}
use shp.Travels.Pipeline.{
  nothing_yet, System, Waits, Step, happens, delivered, unanswered, undelivered, passes, dropped,
  displayed, Runs, start, next, line, IsOrdered,
}

module _ (os : Os) (network : NetworkSettings) (localtime : ℕ → Tm) {E : Type 0}
    (label : Message → E) where
  open os use {World}

  -- The labels of a queue.
  abbrev labels : Queue Message → List E
  labels q = map label (contents q)

  module _ (sends : SendLaws os) (recvs : RecvLaws os) (bytewise : IsBytewise os recvs) where
    -- A round of the client that fails, after the proxy received the message.
    unanswered_in_order :
        (s : System E) (m came : Message) (q : Queue Message) (behind : List Message)
        → IsOrdered os network localtime label s
        → Waits s.client m behind
        → q ≡ s.client
        → label came ≡ label m
        → s.proxy.message_id + 1 < u32_mod
        → IsOrdered os network localtime label
            (record s { client = q; proxy = (add came s.proxy).1 })
    unanswered_in_order s m came q behind o waits same_queue same room =
        let (proxy_valid, ends) = received label s.proxy m came o.proxy_valid same room in
        subst
          (λ x.
            IsOrdered os network localtime label
              (record s { client = x; proxy = (add came s.proxy).1 }))
          (sym same_queue)
          (record {
            client_valid = o.client_valid;
            proxy_valid = proxy_valid;
            head_valid = o.head_valid;
            order =
                doubled s.shown (labels s.head) (labels s.proxy) (labels (add came s.proxy).1)
                  (labels s.client) (map label behind) s.happened (label m) o.order
                  (ap (map label) waits.1) ends;
          })

    pub Step-IsOrdered :
        (s s' : System E)
        → IsOrdered os network localtime label s
        → Step os network localtime label s s'
        → IsOrdered os network localtime label s'
    Step-IsOrdered s _ o (happens m room) =
        let (valid, ends) = received label s.client m m o.client_valid refl room in
        record {
          client_valid = valid;
          proxy_valid = o.proxy_valid;
          head_valid = o.head_valid;
          order =
              at_end s.shown (labels s.head) (labels s.proxy) (labels s.client)
                (labels (add m s.client).1) s.happened (label m) o.order ends;
        }
    Step-IsOrdered s _ o
          (delivered {m} {came} {behind} {w} {w'} {result} {q} waits can runs success same room) =
        elim (process_event_after label os sends recvs bytewise network s.client q m behind w w'
          result waits can runs) [
            | inr failure ↦ cc
            | inl (again, (valid, rest)) ↦
                let (proxy_valid, ends) = received label s.proxy m came o.proxy_valid same room in
                record {
                  client_valid = valid;
                  proxy_valid = proxy_valid;
                  head_valid = o.head_valid;
                  order =
                      subst (λ l. InOrder l s.happened)
                        (to_proxy_line s.shown (labels s.head) (labels s.proxy)
                          (labels (add came s.proxy).1) (labels s.client) (labels q) (label m) rest
                          ends)
                        o.order;
                }
          ]
    Step-IsOrdered s _ o
          (unanswered {m} {came} {behind} {w} {w'} {result} {q} waits can runs failed same room) =
        elim (process_event_after label os sends recvs bytewise network s.client q m behind w w'
          result waits can runs) [
            | inl success ↦ cc
            | inr (again, left) ↦ unanswered_in_order s m came q behind o waits left same room
          ]
    Step-IsOrdered s _ o (undelivered {m} {behind} {w} {w'} {result} {q} waits can runs failed) =
        elim (process_event_after label os sends recvs bytewise network s.client q m behind w w'
          result waits can runs) [
            | inl success ↦ cc
            | inr (again, left) ↦
                subst (λ x. IsOrdered os network localtime label (record s { client = x }))
                  (sym left) o
          ]
    Step-IsOrdered s _ o (passes {m} {came} {behind} {w} {w'} {q} waits can runs same room) =
        let (valid, rest) =
          forward-Leaves label os sends recvs bytewise s.proxy q m behind w w' waits can runs in
        let (head_valid, ends) = received label s.head m came o.head_valid same room in
        record {
          client_valid = o.client_valid;
          proxy_valid = valid;
          head_valid = head_valid;
          order =
              subst (λ l. InOrder l s.happened)
                (to_head_line s.shown (labels s.head) (labels (add came s.head).1) (labels s.proxy)
                  (labels q) (labels s.client) (label m) rest ends)
                o.order;
        }
    Step-IsOrdered s _ o (dropped {m} {behind} {w} {w'} {q} waits can runs) =
        let (valid, rest) =
          forward-Leaves label os sends recvs bytewise s.proxy q m behind w w' waits can runs in
        record {
          client_valid = o.client_valid;
          proxy_valid = valid;
          head_valid = o.head_valid;
          order =
              lost s.shown (labels s.head) (labels s.proxy) (labels q) (labels s.client) s.happened
                (label m) o.order rest;
        }
    Step-IsOrdered s _ o (displayed {m} {behind} {shown_on} {c'} {q} now c waits shows runs) =
        let (valid, rest) =
          show_next-Leaves label localtime now s.head q m behind c shown_on c' waits shows runs in
        record {
          client_valid = o.client_valid;
          proxy_valid = o.proxy_valid;
          head_valid = valid;
          order =
              subst (λ l. InOrder l s.happened)
                (to_screen_line s.shown (labels s.head) (labels q) (labels s.proxy)
                  (labels s.client) (label m) rest)
                o.order;
        }

    Runs-IsOrdered :
        (s s' : System E)
        → IsOrdered os network localtime label s
        → Runs os network localtime label s s'
        → IsOrdered os network localtime label s'
    Runs-IsOrdered s _ o start = o
    Runs-IsOrdered s s' o (next {s1} runs step) =
        Step-IsOrdered s1 s' (Runs-IsOrdered s s1 o runs) step

    empty_in_order : InOrder (line os network localtime label nothing_yet) []
    empty_in_order = rw (contents-new_queue {A = Message}) nothing

    pub nothing_yet-IsOrdered : IsOrdered os network localtime label nothing_yet
    nothing_yet-IsOrdered = record {
      client_valid = new_queue-IsValid;
      proxy_valid = new_queue-IsValid;
      head_valid = new_queue-IsValid;
      order = empty_in_order;
    }

    -- The three queues, from empty ones on, through their rounds in any order: an event of a sensor is
    -- queued; a round of `process_event` succeeds, or fails before or after the proxy received the
    -- message; a round of the proxy's loop delivers the message or loses it; a round of the head's
    -- loop shows it. As long as the ids of no queue run out, every message that is sent holds its whole
    -- payload, every connection gets a descriptor that fits into an fd_set, and a message that arrives
    -- has the label of the one that was sent, the events are shown in the order in which they
    -- happened: an event may be missing or be shown several times in a row, and none is shown before an
    -- earlier one.
    pub Runs-InOrder :
        (s' : System E)
        → Runs os network localtime label nothing_yet s'
        → InOrder s'.shown s'.happened
    Runs-InOrder s' runs =
        InOrder_prefix s'.shown
          ((map label (contents s'.head))
            ++ ((map label (contents s'.proxy)) ++ (map label (contents s'.client))))
          s'.happened (Runs-IsOrdered nothing_yet s' nothing_yet-IsOrdered runs).order
