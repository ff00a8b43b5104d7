-- ===== src/Memory/Arrives.antt =====
-- What becomes of memory that is sent: a written byte arrives as it is, and for one that was never
-- written any byte may arrive.
use shp.Base.{
  ℕ, zero, suc, ◌+◌, ◌≡◌, ◌⊎◌, inl, inr, refl, ap, ap₂, Option-cases, none, some, List, [], ◌∷◌,
  ◌++◌, length, take, arith,
}
use shp.Memory.{Memory, Cell, cells, strlen}

abbrev pub ArrivesAs : Cell → Cell → Type 0
ArrivesAs sent came = (sent ≡ none) ⊎ (sent ≡ came)

abbrev pub Arrives : Memory → Memory → Type 0
Arrives [] [] = Unit {0}
Arrives [] (y ∷ ys) = ⊥
Arrives (x ∷ xs) [] = ⊥
Arrives (x ∷ xs) (y ∷ ys) = ArrivesAs x y × Arrives xs ys

pub Arrives-refl : (xs : Memory) → Arrives xs xs
Arrives-refl [] = tt
Arrives-refl (x ∷ xs) = (inr refl, Arrives-refl xs)

pub length-Arrives : (xs ys : Memory) → Arrives xs ys → length xs ≡ length ys
length-Arrives [] [] a = refl
length-Arrives [] (y ∷ ys) a = absurd a
length-Arrives (x ∷ xs) [] a = absurd a
length-Arrives (x ∷ xs) (y ∷ ys) a = ap suc (length-Arrives xs ys a.1)

-- The parts of what arrives are what arrives of the parts.
pub Arrives-append :
    (xs ys zs : Memory)
    → Arrives (xs ++ ys) zs
    → (us : Memory) × (vs : Memory) × (zs ≡ us ++ vs) × Arrives xs us × Arrives ys vs
Arrives-append [] ys zs a = ([], zs, refl, tt, a)
Arrives-append (x ∷ xs) ys [] a = absurd a
Arrives-append (x ∷ xs) ys (z ∷ zs) (head, tail) =
    let (us, vs, split, front, back) = Arrives-append xs ys zs tail in
    (z ∷ us, vs, ap (◌∷◌ z) split, (head, front), back)

arrived_cell : (b : ℕ) (y : Cell) → ArrivesAs (some b) y → some b ≡ y
arrived_cell b y a = elim a [ inl e ↦ cc | inr e ↦ e ]

-- Written memory arrives as it is.
pub Arrives-cells : (bytes : List ℕ) (ys : Memory) → Arrives (cells bytes) ys → cells bytes ≡ ys
Arrives-cells [] [] a = refl
Arrives-cells [] (y ∷ ys) a = absurd a
Arrives-cells (b ∷ bytes) [] a = absurd a
Arrives-cells (b ∷ bytes) (y ∷ ys) (head, tail) =
    ap₂ ◌∷◌ (arrived_cell b y head) (Arrives-cells bytes ys tail)

-- A text with its terminator arrives, whatever stands behind it.
pub strlen-Arrives :
    (xs ys : Memory) (n : ℕ) → strlen xs ≡ some n → Arrives xs ys → strlen ys ≡ some n
unfolding strlen
strlen-Arrives [] ys n e a = cc
strlen-Arrives (none ∷ xs) ys n e a = cc
strlen-Arrives (some c ∷ xs) [] n e a = absurd a
strlen-Arrives (some zero ∷ xs) (y ∷ ys) n e (head, tail) = rw (← arrived_cell 0 y head) e
strlen-Arrives (some (suc c) ∷ xs) (y ∷ ys) n e (head, tail) = elim (Option-cases (strlen xs)) [
  | inl unended ↦ cc
  | inr (k, ended) ↦
      rw (← arrived_cell (suc c) y head, strlen-Arrives xs ys k ended tail) (rw ended at e)
]

pub take-Arrives :
    (xs ys : Memory) (n : ℕ)
    → strlen xs ≡ some n
    → Arrives xs ys
    → take (n + 1) xs ≡ take (n + 1) ys
unfolding strlen
take-Arrives [] ys n e a = cc
take-Arrives (none ∷ xs) ys n e a = cc
take-Arrives (some c ∷ xs) [] n e a = absurd a
take-Arrives (some zero ∷ xs) (y ∷ ys) n e (head, tail) =
    let s : n + 1 ≡ 1 = ground arith in rw s (ap (λ c. c ∷ []) (arrived_cell 0 y head))
take-Arrives (some (suc c) ∷ xs) (y ∷ ys) n e (head, tail) = elim (Option-cases (strlen xs)) [
  | inl unended ↦ cc
  | inr (k, ended) ↦
      let same : n ≡ k + 1 = ground arith in
      let s : n + 1 ≡ suc (k + 1) = omega arith in
      rw s (ap₂ ◌∷◌ (arrived_cell (suc c) y head) (take-Arrives xs ys k ended tail))
]

-- A text that ends where its memory ends is written whole.
pub strlen-written :
    (xs : Memory) (n : ℕ)
    → strlen xs ≡ some n
    → length xs ≡ n + 1
    → (bytes : List ℕ) × (xs ≡ cells bytes)
unfolding strlen
strlen-written [] n e l = cc
strlen-written (none ∷ xs) n e l = cc
strlen-written (some zero ∷ []) n e l = (0 ∷ [], refl)
strlen-written (some zero ∷ x ∷ xs) n e l = let z : n ≡ 0 = ground arith in absurd (omega arith)
strlen-written (some (suc c) ∷ xs) n e l = elim (Option-cases (strlen xs)) [
  | inl unended ↦ cc
  | inr (k, ended) ↦
      let same : n ≡ k + 1 = ground arith in
      let (bytes, same) = strlen-written xs k ended (omega arith) in
      (suc c ∷ bytes, ap (◌∷◌ (some (suc c))) same)
]
