-- ===== src/Queue.antt =====
-- src/queue.hpp and src/queue.cpp: the queue of messages between two threads. Each operation holds
-- the mutex from start to end, so that a run is a sequence of operations. The queue is generic in
-- what stands for a message; `delete` is a list of what is destroyed.
pub mod Order
pub mod Fifo
pub mod Threads
pub mod Wrapped
mod Tests
use shp.Base.{ℕ, ◌+◌, ◌%◌, Option, none, some, List, [], ◌∷◌, ltb, ◌==◌, if◌then◌else◌, length}
use shp.Memory.{u32_mod}
use shp.ErrorCodes.{ErrorCode, ok}

-- `std::map <unsigned int, A>`, by ascending key.
abbrev pub MessageMap {ℓ} : Type ℓ → Type ℓ
MessageMap A = List (ℕ × A)

pub record Queue {ℓ} (A : Type ℓ) : Type ℓ where
  pub message_map : MessageMap A
  pub message_id : ℕ

-- What `peek` stores through its two pointers; `p_message` is not written if the queue is empty.
pub record Peeked {ℓ} (A : Type ℓ) : Type ℓ where
  pub id : ℕ
  pub message : Option A

module _ {ℓ} {A : Type ℓ} where
  -- `std::map::insert`: a key that is there already keeps its value.
  unfoldable pub map_insert : ℕ → A → MessageMap A → MessageMap A
  map_insert k v [] = (k, v) ∷ []
  map_insert k v ((j, w) ∷ m) =
      if k == j
      then (j, w) ∷ m
      else if ltb k j
      then (k, v) ∷ (j, w) ∷ m
      else (j, w) ∷ map_insert k v m

  -- `std::map::find`
  unfoldable pub map_find : ℕ → MessageMap A → Option A
  map_find k [] = none
  map_find k ((j, w) ∷ m) = if k == j then some w else map_find k m

  -- `std::map::erase` of what `find` returned
  unfoldable pub map_erase : ℕ → MessageMap A → MessageMap A
  map_erase k [] = []
  map_erase k ((j, w) ∷ m) = if k == j then m else (j, w) ∷ map_erase k m

  unfoldable pub new_queue : Queue A
  new_queue = record { message_map = []; message_id = 0 }

  -- `++ message_id` wraps.
  unfoldable pub add : A → Queue A → ErrorCode × Queue A
  unfolding map_insert
  add message q =
      let id = (q.message_id + 1) % u32_mod in
      (ok, record q { message_map = map_insert id message q.message_map; message_id = id })

  peek_map : MessageMap A → ErrorCode × Peeked A
  peek_map [] = (ok, record { id = 0; message = none })
  peek_map ((k, v) ∷ m) = (ok, record { id = k; message = some v })

  unfoldable pub peek : Queue A → ErrorCode × Peeked A
  unfolding peek_map
  peek q = peek_map q.message_map

  -- The result, the queue, and the messages destroyed.
  unfoldable pub remove : ℕ → Queue A → ErrorCode × Queue A × List A
  unfolding map_find map_erase
  remove id q = elim (map_find id q.message_map) [
    | none ↦ (ok, q, [])
    | some message ↦ (ok, record q { message_map = map_erase id q.message_map }, message ∷ [])
  ]

  unfoldable pub values : MessageMap A → List A
  values [] = []
  values ((k, v) ∷ m) = v ∷ values m

  -- The destructor: every message is destroyed, and the map is empty.
  unfoldable pub destroy_queue : Queue A → Queue A × List A
  unfolding values
  destroy_queue q = (record q { message_map = [] }, values q.message_map)
