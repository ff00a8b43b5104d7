-- ===== src/Queue/Threads.antt =====
-- The queue between its two threads: one adds messages, the other peeks, delivers, and then removes
-- what it has peeked. The operations of the two come in any order.
use shp.Base.{
  ℕ, ◌+◌, ◌-◌, ◌<◌, ◌≤◌, ◌%◌, ◌≡◌, ◌≢◌, refl, sym, ap, ◌∙◌, List, [], ◌∷◌, ◌++◌, arith, ◌==◌,
  if◌then◌else◌, length, Bool-cases, append_assoc, append-nil, inl, inr,
}
use shp.Memory.{u32_mod}
use shp.Queue.{MessageMap, Queue, map_find, map_erase, values, add, peek, remove}
use shp.Queue.Order.{
  IsValid, Above, AtMost, map_find_below, add-IsValid, remove-IsValid, Above-mono, map_insert-Above,
  map_erase-Above,
}
use shp.Queue.Fifo.{contents, add-contents}

pub data Op {ℓ} (A : Type ℓ) : Type ℓ where
  adds : A → Op A
  peeks : Op A
  removes : Op A

-- The queue, the id that the consumer holds (0 if it found the queue empty), and the messages
-- removed so far, in order.
pub record Shared {ℓ} (A : Type ℓ) : Type ℓ where
  pub queue : Queue A
  pub held : ℕ
  pub removed : List A

module _ {ℓ} {A : Type ℓ} where
  unfoldable pub step : Op A → Shared A → Shared A
  step (adds x) s = record s { queue = (add x s.queue).1 }
  step peeks s = record s { held = (peek s.queue).1.id }
  step removes s =
      let r = remove s.held s.queue in
      if s.held == 0 then s else record s { queue = r.1; removed = s.removed ++ r.2 }

  unfoldable pub run : List (Op A) → Shared A → Shared A
  run [] s = s
  run (o ∷ os) s = run os (step o s)

  abbrev pub added : List (Op A) → List A
  added [] = []
  added (adds x ∷ os) = x ∷ added os
  added (peeks ∷ os) = added os
  added (removes ∷ os) = added os

  -- No id in the queue is below the one that the consumer holds.
  pub record IsShared (s : Shared A) : Type 0 where
    pub valid : IsValid s.queue
    pub issued : s.held ≤ s.queue.message_id
    pub held_first : Above (s.held - 1) s.queue.message_map

  abbrev pub ids_left : Shared A → ℕ
  ids_left s = u32_mod - 1 - s.queue.message_id

  -- What is removed by an id that is below all others, or is the first.
  remove_first :
      (id n : ℕ) (m : MessageMap A)
      → id ≢ 0
      → Above (id - 1) m
      → let r = remove id (record { message_map = m; message_id = n }) in
        r.2 ++ contents r.1 ≡ values m
  unfolding remove map_find map_erase values
  remove_first id n [] nz l = refl
  remove_first id n ((k, v) ∷ m) nz l =
      ground (arith, map_find_below id m, Above-mono m {a = id} {b = k})

  adds-IsShared : (x : A) (s : Shared A) → IsShared s → 0 < ids_left s → IsShared (step (adds x) s)
  unfolding step add
  adds-IsShared x s v h =
      let id : (s.queue.message_id + 1) % u32_mod ≡ s.queue.message_id + 1 = omega arith in
      record {
        valid = add-IsValid x s.queue v.valid (omega arith);
        issued = omega (arith, v.issued);
        held_first = rw id (
            map_insert-Above (s.queue.message_id + 1) x s.queue.message_map (s.held - 1)
              (omega (arith, v.issued)) v.held_first);
      }

  peek_first :
      (m : MessageMap A) (n k : ℕ)
      → Above 0 m
      → AtMost n m
      → let id = (peek (record { message_map = m; message_id = k })).1.id in
        (id ≤ n) × Above (id - 1) m
  unfolding peek
  peek_first [] n k l h = omega arith
  peek_first ((j, v) ∷ m) n k l h = (h.0, (omega arith, l.1))

  peeks-IsShared : (s : Shared A) → IsShared s → IsShared (step peeks s)
  unfolding step
  peeks-IsShared s v =
      let (a, b) =
        peek_first s.queue.message_map s.queue.message_id s.queue.message_id v.valid.rising
          v.valid.numbered in
      record { valid = v.valid; issued = a; held_first = b }

  same_id : (id : ℕ) (q : Queue A) → (remove id q).1.message_id ≡ q.message_id
  unfolding remove
  same_id id q = ground arith

  remove-Above :
      (id low : ℕ) (q : Queue A) → Above low q.message_map → Above low (remove id q).1.message_map
  unfolding remove
  remove-Above id low q l = ground (arith, map_erase-Above id q.message_map low l)

  removes-IsShared : (s : Shared A) → IsShared s → IsShared (step removes s)
  unfolding step
  removes-IsShared s v = ground (
    arith,
    remove-IsValid s.held s.queue v.valid,
    same_id s.held s.queue,
    remove-Above s.held (s.held - 1) s.queue v.held_first,
  )

  abbrev flow : Shared A → List A
  flow s = s.removed ++ contents s.queue

  removes-flow : (s : Shared A) → IsShared s → flow (step removes s) ≡ flow s
  unfolding step
  removes-flow s v = elim (Bool-cases (s.held == 0)) [
    | inl none_held ↦ rw none_held
    | inr some_held ↦ rw some_held (
        append_assoc s.removed (remove s.held s.queue).2 (contents (remove s.held s.queue).1)
        ∙ ap (◌++◌ s.removed) (
            remove_first s.held s.queue.message_id s.queue.message_map (ground arith) v.held_first))
  ]

  adds-flow :
      (x : A) (s : Shared A)
      → IsShared s
      → 0 < ids_left s
      → flow (step (adds x) s) ≡ flow s ++ x ∷ []
  unfolding step
  adds-flow x s v h =
      ap (◌++◌ s.removed) (add-contents x s.queue v.valid (omega arith))
      ∙ sym (append_assoc s.removed (contents s.queue) (x ∷ []))

  adds-message_id :
      (x : A) (s : Shared A)
      → 0 < ids_left s
      → (step (adds x) s).queue.message_id ≡ s.queue.message_id + 1
  unfolding step add
  adds-message_id x s h = omega arith

  removes-ids_left : (s : Shared A) → ids_left (step removes s) ≡ ids_left s
  unfolding step
  removes-ids_left s = elim (Bool-cases (s.held == 0)) [
    | inl none_held ↦ rw none_held
    | inr some_held ↦ rw some_held (omega (arith, same_id s.held s.queue))
  ]

  peeks-flow : (s : Shared A) → flow (step peeks s) ≡ flow s
  unfolding step
  peeks-flow s = refl

  peeks-ids_left : (s : Shared A) → ids_left (step peeks s) ≡ ids_left s
  unfolding step
  peeks-ids_left s = refl

  -- In every interleaving of the two threads in which the ids do not run out, the messages removed,
  -- followed by those still queued, are the messages queued at the start, followed by those added:
  -- none is lost, duplicated or reordered, whatever is added between a `peek` and its `remove`.
  pub run-flow :
      (os : List (Op A)) (s : Shared A)
      → IsShared s
      → length (added os) ≤ ids_left s
      → (run os s).removed ++ contents (run os s).queue
        ≡ (s.removed ++ contents s.queue) ++ added os
  unfolding run
  run-flow [] s v h = sym (append-nil _)
  run-flow (adds x ∷ os) s v h =
      run-flow os (step (adds x) s) (adds-IsShared x s v (omega arith))
        (omega (arith, adds-message_id x s (omega arith)))
      ∙ ap (λ r. r ++ added os) (adds-flow x s v (omega arith))
      ∙ append_assoc (flow s) (x ∷ []) (added os)
  run-flow (peeks ∷ os) s v h =
      run-flow os (step peeks s) (peeks-IsShared s v) (omega (arith, peeks-ids_left s))
      ∙ ap (λ r. r ++ added os) (peeks-flow s)
  run-flow (removes ∷ os) s v h =
      run-flow os (step removes s) (removes-IsShared s v) (omega (arith, removes-ids_left s))
      ∙ ap (λ r. r ++ added os) (removes-flow s v)
