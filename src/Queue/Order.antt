-- ===== src/Queue/Order.antt =====
-- The keys of the map, and what the operations do to them.
use shp.Base.{ℕ, ◌+◌, ◌%◌, ◌≤◌, ◌<◌, ◌≡◌, refl, none, [], ◌∷◌, ◌++◌, arith}
use shp.Memory.{u32_mod}
use shp.Queue.{MessageMap, Queue, map_insert, map_find, map_erase, values, new_queue, add, remove}

module _ {ℓ} {A : Type ℓ} where
  -- The keys rise, from above a bound on.
  abbrev pub Above : ℕ → MessageMap A → Type 0
  Above low [] = Unit {0}
  Above low ((k, v) ∷ m) = (low < k) × Above k m

  abbrev pub AtMost : ℕ → MessageMap A → Type 0
  AtMost high [] = Unit {0}
  AtMost high ((k, v) ∷ m) = (k ≤ high) × AtMost high m

  -- Ids are numbered from 1, and none is used twice.
  pub record IsValid (q : Queue A) : Type 0 where
    pub rising : Above 0 q.message_map
    pub numbered : AtMost q.message_id q.message_map
    pub in_range : q.message_id < u32_mod

  pub AtMost-mono : (m : MessageMap A) {a b : ℕ} → a ≤ b → AtMost a m → AtMost b m
  AtMost-mono [] h l = tt
  AtMost-mono ((k, v) ∷ m) h l = (omega arith, AtMost-mono m h l.1)

  pub Above-mono : (m : MessageMap A) {a b : ℕ} → a ≤ b → Above b m → Above a m
  Above-mono [] h l = tt
  Above-mono ((k, v) ∷ m) h l = (omega arith, l.1)

  -- A key above all others goes to the end.
  pub values-map_insert :
      (k : ℕ) (v : A) (m : MessageMap A) (high : ℕ)
      → AtMost high m
      → high < k
      → values (map_insert k v m) ≡ values m ++ v ∷ []
  unfolding values map_insert
  values-map_insert k v [] high l h = refl
  values-map_insert k v ((j, w) ∷ m) high l h = ground (arith, values-map_insert k v m high l.1)

  pub map_insert-AtMost :
      (k : ℕ) (v : A) (m : MessageMap A) → AtMost k m → AtMost k (map_insert k v m)
  unfolding map_insert
  map_insert-AtMost k v [] l = omega arith
  map_insert-AtMost k v ((j, w) ∷ m) l = ground (arith, map_insert-AtMost k v m l.1)

  pub map_insert-Above :
      (k : ℕ) (v : A) (m : MessageMap A) (low : ℕ)
      → low < k
      → Above low m
      → Above low (map_insert k v m)
  unfolding map_insert
  map_insert-Above k v [] low h l = omega arith
  map_insert-Above k v ((j, w) ∷ m) low h l = ground (arith, map_insert-Above k v m j)

  -- A key below all others is not there.
  pub map_find_below : (k : ℕ) (m : MessageMap A) → Above k m → map_find k m ≡ none
  unfolding map_find
  map_find_below k [] l = refl
  map_find_below k ((j, w) ∷ m) l = ground (arith, map_find_below k m, Above-mono m {a = k} {b = j})

  pub map_erase-AtMost :
      (k : ℕ) (m : MessageMap A) (high : ℕ) → AtMost high m → AtMost high (map_erase k m)
  unfolding map_erase
  map_erase-AtMost k [] high l = tt
  map_erase-AtMost k ((j, w) ∷ m) high l = ground (arith, map_erase-AtMost k m high l.1)

  pub map_erase-Above :
      (k : ℕ) (m : MessageMap A) (low : ℕ) → Above low m → Above low (map_erase k m)
  unfolding map_erase
  map_erase-Above k [] low l = tt
  map_erase-Above k ((j, w) ∷ m) low l =
      ground (arith, map_erase-Above k m j l.1, Above-mono m {a = low} {b = j})

  pub new_queue-IsValid : IsValid new_queue
  unfolding new_queue
  new_queue-IsValid = record { rising = tt; numbered = tt; in_range = omega arith }

  -- Until the ids wrap, every operation keeps the map in order.
  pub add-IsValid :
      (x : A) (q : Queue A) → IsValid q → q.message_id + 1 < u32_mod → IsValid (add x q).1
  unfolding add
  add-IsValid x q v h =
      let id : (q.message_id + 1) % u32_mod ≡ q.message_id + 1 = omega arith in
      rw id (record {
        rising = map_insert-Above (q.message_id + 1) x q.message_map 0 (omega arith) v.rising;
        numbered =
            map_insert-AtMost (q.message_id + 1) x q.message_map
              (AtMost-mono q.message_map (omega arith) v.numbered);
        in_range = h;
      })

  pub remove-IsValid : (id : ℕ) (q : Queue A) → IsValid q → IsValid (remove id q).1
  unfolding remove
  remove-IsValid id q v = ground (
    arith,
    map_erase-Above id q.message_map 0 v.rising,
    map_erase-AtMost id q.message_map q.message_id v.numbered,
  )
