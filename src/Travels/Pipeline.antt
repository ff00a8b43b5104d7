-- ===== src/Travels/Pipeline.antt =====
-- The three queues as one system: that of the client (src/client_process_event.cpp), of the proxy
-- (src/proxy_main.cpp) and of the head (src/head_main.cpp), with the rounds of the code as steps, in
-- whatever order they come.
use shp.Base.{Bool, ℕ, ◌+◌, ◌<◌, ◌≤◌, ◌≡◌, true, false, List, [], ◌∷◌, ◌++◌, map, length, done}
use shp.Memory.{IsU32, u32_mod}
use shp.ErrorCodes.{ErrorCode, is_ok}
use shp.Message.{Message, block}
use shp.Queue.{Queue, new_queue, add}
use shp.Queue.Order.{IsValid}
use shp.Queue.Fifo.{contents}
use shp.Os.{Os}
use shp.Socket.{is_settable}
use shp.Configuration.{Config}
use shp.Client.{NetworkSettings, process_event}
use shp.Proxy.Thread.{forward}
use shp.Head.{Tm, show_message_event}
use shp.Head.Thread.{show_next}
use shp.Travels.InOrder.{InOrder}

-- What happened and what was shown are lists of labels, the oldest first.
pub record System (E : Type 0) : Type 0 where
  pub client : Queue Message
  pub proxy : Queue Message
  pub head : Queue Message
  pub happened : List E
  pub shown : List E

-- A message that a program can send from a state of its operating system.
pub record IsSendable (os : Os) (m : Message) (w : os.World) : Type 0 where
  pub inside : m.payload_size ≤ length (block m.raw_payload)
  pub word : IsU32 m.payload_size
  pub open_fd : is_settable (os.socket w).0 ≡ true

-- The oldest message of a queue, and those behind it.
abbrev pub Waits : Queue Message → Message → List Message → Type 0
Waits q m behind = IsValid q × (contents q ≡ m ∷ behind)

-- Empty queues, and nothing happened.
abbrev pub nothing_yet : {E : Type 0} → System E
nothing_yet = record {
  client = new_queue;
  proxy = new_queue;
  head = new_queue;
  happened = [];
  shown = [];
}

module _ (os : Os) (network : NetworkSettings) (localtime : ℕ → Tm) {E : Type 0}
    (label : Message → E) where
  open os use {World}

  -- A message that arrives has the label of the one that was sent. A failed exchange may have failed
  -- before the other program received the message, or after.
  pub data Step (s : System E) : System E → Type 0 where
    happens :
        (m : Message)
        → s.client.message_id + 1 < u32_mod
        → Step s (record s { client = (add m s.client).1; happened = s.happened ++ label m ∷ [] })
    delivered :
        {m came : Message} {behind : List Message} {w w' : World} {result : ErrorCode}
        {q : Queue Message}
        → Waits s.client m behind
        → IsSendable os m w
        → process_event os network s.client w ≡ done ((result, q), w')
        → is_ok result ≡ true
        → label came ≡ label m
        → s.proxy.message_id + 1 < u32_mod
        → Step s (record s { client = q; proxy = (add came s.proxy).1 })
    unanswered :
        {m came : Message} {behind : List Message} {w w' : World} {result : ErrorCode}
        {q : Queue Message}
        → Waits s.client m behind
        → IsSendable os m w
        → process_event os network s.client w ≡ done ((result, q), w')
        → is_ok result ≡ false
        → label came ≡ label m
        → s.proxy.message_id + 1 < u32_mod
        → Step s (record s { client = q; proxy = (add came s.proxy).1 })
    undelivered :
        {m : Message} {behind : List Message} {w w' : World} {result : ErrorCode}
        {q : Queue Message}
        → Waits s.client m behind
        → IsSendable os m w
        → process_event os network s.client w ≡ done ((result, q), w')
        → is_ok result ≡ false
        → Step s (record s { client = q })
    passes :
        {m came : Message} {behind : List Message} {w w' : World} {q : Queue Message}
        → Waits s.proxy m behind
        → IsSendable os m w
        → forward os s.proxy w ≡ done (q, w')
        → label came ≡ label m
        → s.head.message_id + 1 < u32_mod
        → Step s (record s { proxy = q; head = (add came s.head).1 })
    dropped :
        {m : Message} {behind : List Message} {w w' : World} {q : Queue Message}
        → Waits s.proxy m behind
        → IsSendable os m w
        → forward os s.proxy w ≡ done (q, w')
        → Step s (record s { proxy = q })
    displayed :
        {m : Message} {behind : List Message} {shown_on c' : Config} {q : Queue Message}
        → (now : ℕ → ℕ) (c : Config) → Waits s.head m behind
        → show_message_event localtime now m c ≡ done shown_on
        → show_next localtime now s.head c ≡ done (q, c')
        → Step s (record s { head = q; shown = s.shown ++ label m ∷ [] })

  pub data Runs (s : System E) : System E → Type 0 where
    start : Runs s s
    next : {s1 s2 : System E} → Runs s s1 → Step s1 s2 → Runs s s2

  -- Not a round that fails.
  unfoldable pub is_lossless : {s s' : System E} → Step s s' → Bool
  is_lossless (happens m room) = true
  is_lossless (delivered waits can runs success same room) = true
  is_lossless (unanswered waits can runs failed same room) = false
  is_lossless (undelivered waits can runs failed) = false
  is_lossless (passes waits can runs same room) = true
  is_lossless (dropped waits can runs) = false
  is_lossless (displayed now c waits shows runs) = true

  pub data Flows (s : System E) : System E → Type 0 where
    still : Flows s s
    flows_on :
        {s1 s2 : System E} → Flows s s1 → (step : Step s1 s2) → is_lossless step ≡ true → Flows s s2

  -- What was shown, and behind it what waits in the head, in the proxy and in the client.
  abbrev pub line : System E → List E
  line s =
      s.shown
      ++ (map label (contents s.head)
          ++ (map label (contents s.proxy) ++ map label (contents s.client)))

  pub record IsOrdered (s : System E) : Type 0 where
    pub client_valid : IsValid s.client
    pub proxy_valid : IsValid s.proxy
    pub head_valid : IsValid s.head
    pub order : InOrder (line s) s.happened
