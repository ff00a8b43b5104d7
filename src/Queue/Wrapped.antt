-- ===== src/Queue/Wrapped.antt =====
-- The queue after its ids have wrapped: what its two threads do from then on.
use shp.Base.{
  ℕ, ◌+◌, ◌%◌, ◌≡◌, refl, sym, ap, ◌∙◌, subst, true, false, List, [], ◌∷◌, ◌==◌, ltb, arith,
  Bool-cases, inl, inr,
}
use shp.Memory.{u32_mod}
use shp.Queue.{MessageMap, map_insert, values, add, peek}
use shp.Queue.Order.{IsValid, Above}
use shp.Queue.Fifo.{contents}
use shp.Queue.Threads.{Op, adds, peeks, removes, Shared, step, run}

module _ {ℓ} {A : Type ℓ} where
  -- All items of a list, in their order, with others in between.
  pub data Within : List A → List A → Type ℓ where
    nothing : Within [] []
    both : {x : A} {xs ys : List A} → Within xs ys → Within (x ∷ xs) (x ∷ ys)
    between : {y : A} {xs ys : List A} → Within xs ys → Within xs (y ∷ ys)

  Within-refl : (xs : List A) → Within xs xs
  Within-refl [] = nothing
  Within-refl (x ∷ xs) = both (Within-refl xs)

  Within-trans : (xs ys zs : List A) → Within xs ys → Within ys zs → Within xs zs
  Within-trans xs _ _ v nothing = v
  Within-trans xs ys _ v (between {ys = zs} w) = between (Within-trans xs ys zs v w)
  Within-trans _ _ _ (both {xs} {ys} v) (both {ys = zs} w) = both (Within-trans xs ys zs v w)
  Within-trans xs _ _ (between {ys} v) (both {ys = zs} w) = between (Within-trans xs ys zs v w)

  map_insert-Within :
      (k : ℕ) (v : A) (m : MessageMap A) → Within (values m) (values (map_insert k v m))
  unfolding values map_insert
  map_insert-Within k v [] = between nothing
  map_insert-Within k v ((j, w) ∷ m) = elim (Bool-cases (k == j)) [
    | inl same ↦ rw same (both (Within-refl (values m)))
    | inr other ↦ elim (Bool-cases (ltb k j)) [
      | inl before ↦ rw (other, before) (between (both (Within-refl (values m))))
      | inr behind ↦ rw (other, behind) (both (map_insert-Within k v m))
    ]
  ]

  -- A message has the id 0, and the consumer holds none.
  record IsStuck (x : A) (waiting : List A) (s : Shared A) : Type ℓ where
    rest : MessageMap A
    first : s.queue.message_map ≡ (0, x) ∷ rest
    still : Within waiting (values rest)
    none_held : s.held ≡ 0

  add_behind :
      (k : ℕ) (x y : A) (m : MessageMap A)
      → (rest : MessageMap A) × (map_insert k y ((0, x) ∷ m) ≡ (0, x) ∷ rest)
        × Within (values m) (values rest)
  unfolding map_insert
  add_behind k x y m = elim (Bool-cases (k == 0)) [
    | inl zero_id ↦ (m, rw zero_id, Within-refl (values m))
    | inr other ↦ (
      map_insert k y m,
      (let behind : ltb k 0 ≡ false = ground arith in rw (other, behind)),
      map_insert-Within k y m,
    )
  ]

  step-IsStuck :
      (x : A) (waiting : List A) (o : Op A) (s : Shared A)
      → IsStuck x waiting s
      → IsStuck x waiting (step o s) × ((step o s).removed ≡ s.removed)
  unfolding step add peek
  step-IsStuck x waiting (adds y) s v =
      let (rest, shape, more) = add_behind ((s.queue.message_id + 1) % u32_mod) x y v.rest in
      (
        record {
          rest = rest;
          first = ap (map_insert ((s.queue.message_id + 1) % u32_mod) y) v.first ∙ shape;
          still = Within-trans waiting (values v.rest) (values rest) v.still more;
          none_held = v.none_held;
        },
        refl,
      )
  step-IsStuck x waiting peeks s v =
      (record { rest = v.rest; first = v.first; still = v.still; none_held = rw v.first }, refl)
  step-IsStuck x waiting removes s v =
      let idle : (s.held == 0) ≡ true = ground (arith, v.none_held) in
      let same : step removes s ≡ s = rw idle in
      (subst (IsStuck x waiting) (sym same) v, ap (λ t. t.removed) same)

  run-IsStuck :
      (x : A) (waiting : List A) (os : List (Op A)) (s : Shared A)
      → IsStuck x waiting s
      → IsStuck x waiting (run os s) × ((run os s).removed ≡ s.removed)
  unfolding run
  run-IsStuck x waiting [] s v = (v, refl)
  run-IsStuck x waiting (o ∷ os) s v =
      let (v1, e1) = step-IsStuck x waiting o s v in
      let (v2, e2) = run-IsStuck x waiting os (step o s) v1 in (v2, e2 ∙ e1)

  in_front :
      (x : A) (m : MessageMap A)
      → Above 0 m
      → (rest : MessageMap A) × (map_insert 0 x m ≡ (0, x) ∷ rest) × Within (values m) (values rest)
  unfolding map_insert values
  in_front x [] l = ([], refl, nothing)
  in_front x ((k, w) ∷ m) l =
      let other : (0 == k) ≡ false = ground arith in
      let before : ltb 0 k ≡ true = ground arith in
      ((k, w) ∷ m, rw (other, before), Within-refl (values ((k, w) ∷ m)))

  -- Where the id wraps, the new message has id 0, by which `peek` means an empty queue. From then on,
  -- whatever messages are added and however often a consumer that holds no id peeks and removes what it
  -- has peeked: `peek` answers 0, nothing is ever removed, and the new message and all that waited
  -- behind it stay in the queue.
  pub run-add_wrapped :
      (x : A) (s : Shared A) (os : List (Op A))
      → IsValid s.queue
      → s.queue.message_id + 1 ≡ u32_mod
      → s.held ≡ 0
      → let s' = run os (step (adds x) s) in
        ((peek s'.queue).1.id ≡ 0)
        × (s'.removed ≡ s.removed)
        × ((others : List A) × (contents s'.queue ≡ x ∷ others) × Within (contents s.queue) others)
  unfolding step add peek values
  run-add_wrapped x s os v wraps none_held =
      let wrapped : (s.queue.message_id + 1) % u32_mod ≡ 0 = omega arith in
      let (rest, shape, same) = in_front x s.queue.message_map v.rising in
      let stuck : IsStuck x (contents s.queue) (step (adds x) s) = record {
        rest = rest;
        first = ap (λ k. map_insert k x s.queue.message_map) wrapped ∙ shape;
        still = same;
        none_held = none_held;
      } in
      let (v', kept) = run-IsStuck x (contents s.queue) os (step (adds x) s) stuck in
      (rw v'.first, kept, (values v'.rest, ap values v'.first, v'.still))
