-- ===== src/Queue/Fifo.antt =====
-- The queue as a list of messages, oldest first.
use shp.Base.{ℕ, ◌+◌, ◌%◌, ◌<◌, ◌≡◌, ◌≢◌, refl, none, some, List, [], ◌∷◌, ◌++◌, arith}
use shp.Memory.{u32_mod}
use shp.Queue.{MessageMap, Queue, new_queue, values, add, peek, remove}
use shp.Queue.Order.{IsValid, Above, values-map_insert}

module _ {ℓ} {A : Type ℓ} where
  abbrev pub contents : Queue A → List A
  contents q = values q.message_map

  pub contents-new_queue : contents new_queue ≡ []
  unfolding new_queue values
  contents-new_queue = refl

  -- Until the ids wrap, a message goes behind all that wait.
  pub add-contents :
      (x : A) (q : Queue A)
      → IsValid q
      → q.message_id + 1 < u32_mod
      → contents (add x q).1 ≡ contents q ++ x ∷ []
  unfolding add
  add-contents x q v h =
      let id : (q.message_id + 1) % u32_mod ≡ q.message_id + 1 = omega arith in
      rw id
        (values-map_insert (q.message_id + 1) x q.message_map q.message_id v.numbered (omega arith))

  -- `peek` answers 0 exactly on the empty queue, and otherwise the id of the oldest message, which
  -- `remove` then destroys, and no other.
  abbrev pub Serves : Queue A → List A → Type ℓ
  Serves q [] = ((peek q).1.id ≡ 0) × ((peek q).1.message ≡ none)
  Serves q (x ∷ rest) =
      ((peek q).1.id ≢ 0)
      × ((peek q).1.message ≡ some x)
      × (contents (remove (peek q).1.id q).1 ≡ rest)
      × ((remove (peek q).1.id q).2 ≡ x ∷ [])

  Serves-map :
      (m : MessageMap A) (n : ℕ)
      → Above 0 m
      → Serves (record { message_map = m; message_id = n }) (values m)
  unfolding peek remove values
  Serves-map [] n l = (refl, refl)
  Serves-map ((k, v) ∷ m) n l = (ground arith, ground arith, ground arith, ground arith)

  pub peek-Serves : (q : Queue A) → IsValid q → Serves q (contents q)
  peek-Serves q v = Serves-map q.message_map q.message_id v.rising
