-- ===== src/Base/Lists.antt =====
-- Lists measured and cut by native numbers, under the library's names.
use Prim.Native.Nat.{ℕ, zero, suc, ◌+◌, ◌-◌, ◌≤◌, ◌<◌, min}
use mathlib.Core.Path.{◌≡◌, refl, ap, sym, ◌∙◌}
use mathlib.Core.List.{List, [], ◌∷◌, ◌++◌, map}
use native.Mathlib.Omega.{arith}

module _ {ℓ} {A : Type ℓ} where
  abbrev pub length : List A → ℕ
  length [] = 0
  length (x ∷ xs) = suc (length xs)

  abbrev pub take : ℕ → List A → List A
  take zero xs = []
  take (suc n) [] = []
  take (suc n) (x ∷ xs) = x ∷ take n xs

  abbrev pub drop : ℕ → List A → List A
  drop zero xs = xs
  drop (suc n) [] = []
  drop (suc n) (x ∷ xs) = drop n xs

  abbrev pub replicate : ℕ → A → List A
  replicate zero a = []
  replicate (suc n) a = a ∷ replicate n a

  pub length-append : (xs ys : List A) → length (xs ++ ys) ≡ length xs + length ys
  length-append [] ys = omega arith
  length-append (x ∷ xs) ys = omega (arith, length-append xs ys)

  pub length-take : (n : ℕ) (xs : List A) → length (take n xs) ≡ min n (length xs)
  length-take zero xs = omega arith
  length-take (suc n) [] = omega arith
  length-take (suc n) (x ∷ xs) = omega (arith, length-take n xs)

  pub length-drop : (n : ℕ) (xs : List A) → length (drop n xs) ≡ length xs - n
  length-drop zero xs = omega arith
  length-drop (suc n) [] = omega arith
  length-drop (suc n) (x ∷ xs) = omega (arith, length-drop n xs)

  pub length-replicate : (n : ℕ) (a : A) → length (replicate n a) ≡ n
  length-replicate zero a = refl
  length-replicate (suc n) a = ap suc (length-replicate n a)

  pub drop-replicate : (k n : ℕ) (a : A) → drop k (replicate n a) ≡ replicate (n - k) a
  drop-replicate zero n a = let e : n - zero ≡ n = omega arith in rw e
  drop-replicate (suc k) zero a = let e : zero - suc k ≡ zero = omega arith in rw e
  drop-replicate (suc k) (suc n) a =
      let e : suc n - suc k ≡ n - k = omega arith in rw e (drop-replicate k n a)

  pub replicate-append : (m n : ℕ) (a : A) → replicate (m + n) a ≡ replicate m a ++ replicate n a
  replicate-append zero n a = let e : zero + n ≡ n = omega arith in rw e
  replicate-append (suc m) n a =
      let e : suc m + n ≡ suc (m + n) = omega arith in rw e (ap (◌∷◌ a) (replicate-append m n a))

  pub take-append-drop : (n : ℕ) (xs : List A) → take n xs ++ drop n xs ≡ xs
  take-append-drop zero xs = refl
  take-append-drop (suc n) [] = refl
  take-append-drop (suc n) (x ∷ xs) = ap (◌∷◌ x) (take-append-drop n xs)

  pub take_left : (xs ys : List A) (n : ℕ) → n ≡ length xs → take n (xs ++ ys) ≡ xs
  take_left [] ys zero e = refl
  take_left [] ys (suc n) e = absurd (omega arith)
  take_left (x ∷ xs) ys zero e = absurd (omega arith)
  take_left (x ∷ xs) ys (suc n) e = ap (◌∷◌ x) (take_left xs ys n (omega arith))

  pub drop_left : (xs ys : List A) (n : ℕ) → n ≡ length xs → drop n (xs ++ ys) ≡ ys
  drop_left [] ys zero e = refl
  drop_left [] ys (suc n) e = absurd (omega arith)
  drop_left (x ∷ xs) ys zero e = absurd (omega arith)
  drop_left (x ∷ xs) ys (suc n) e = drop_left xs ys n (omega arith)

  pub drop_past : (xs ys : List A) (n k : ℕ) → n ≡ length xs → drop (n + k) (xs ++ ys) ≡ drop k ys
  drop_past [] ys n k e = let z : n + k ≡ k = omega arith in rw z
  drop_past (x ∷ xs) ys zero k e = absurd (omega arith)
  drop_past (x ∷ xs) ys (suc n) k e =
      let s : suc n + k ≡ suc (n + k) = omega arith in rw s (drop_past xs ys n k (omega arith))

  pub take-append_past :
      (xs ys : List A) (n k : ℕ) → n ≡ length xs → take (n + k) (xs ++ ys) ≡ xs ++ take k ys
  take-append_past [] ys n k e = let z : n + k ≡ k = omega arith in rw z
  take-append_past (x ∷ xs) ys zero k e = absurd (omega arith)
  take-append_past (x ∷ xs) ys (suc n) k e =
      let s : suc n + k ≡ suc (n + k) = omega arith in
      rw s (ap (◌∷◌ x) (take-append_past xs ys n k (omega arith)))

  pub take-append_within : (xs ys : List A) (n : ℕ) → n ≤ length xs → take n (xs ++ ys) ≡ take n xs
  take-append_within [] ys zero h = refl
  take-append_within [] ys (suc n) h = absurd (omega arith)
  take-append_within (x ∷ xs) ys zero h = refl
  take-append_within (x ∷ xs) ys (suc n) h = ap (◌∷◌ x) (take-append_within xs ys n (omega arith))

  -- Two ways to split one list at one place.
  pub append_split :
      (xs ys us vs : List A) → xs ++ ys ≡ us ++ vs → length xs ≡ length us → (xs ≡ us) × (ys ≡ vs)
  append_split xs ys us vs e l = (
    sym (take_left xs ys (length xs) refl)
        ∙ ap (take (length xs)) e
        ∙ take_left us vs (length xs) l,
    sym (drop_left xs ys (length xs) refl)
        ∙ ap (drop (length xs)) e
        ∙ drop_left us vs (length xs) l,
  )

  pub drop_all : (xs : List A) (n : ℕ) → length xs ≤ n → drop n xs ≡ []
  drop_all [] zero h = refl
  drop_all [] (suc n) h = refl
  drop_all (x ∷ xs) zero h = absurd (omega arith)
  drop_all (x ∷ xs) (suc n) h = drop_all xs n (omega arith)

  pub take-take : (k n : ℕ) (xs : List A) → k ≤ n → take k (take n xs) ≡ take k xs
  take-take zero n xs h = refl
  take-take (suc k) zero xs h = absurd (omega arith)
  take-take (suc k) (suc n) [] h = refl
  take-take (suc k) (suc n) (x ∷ xs) h = ap (◌∷◌ x) (take-take k n xs (omega arith))

  -- Two pieces taken one after the other are one piece.
  pub take-append-take-drop :
      (k n : ℕ) (xs : List A) → take k xs ++ take n (drop k xs) ≡ take (k + n) xs
  take-append-take-drop zero n xs = let z : zero + n ≡ n = omega arith in rw z
  take-append-take-drop (suc k) n [] =
      let s : suc k + n ≡ suc (k + n) = omega arith in rw s (nothing n)
    where
      nothing : (j : ℕ) → take j [] ≡ []
      nothing zero = refl
      nothing (suc j) = refl
  take-append-take-drop (suc k) n (x ∷ xs) =
      let s : suc k + n ≡ suc (k + n) = omega arith in
      rw s (ap (◌∷◌ x) (take-append-take-drop k n xs))

  pub take_all : (xs : List A) (n : ℕ) → length xs ≤ n → take n xs ≡ xs
  take_all [] zero h = refl
  take_all [] (suc n) h = refl
  take_all (x ∷ xs) zero h = absurd (omega arith)
  take_all (x ∷ xs) (suc n) h = ap (◌∷◌ x) (take_all xs n (omega arith))

module _ {ℓ} {A : Type ℓ} where
  pub length-map {κ} : {B : Type κ} (f : A → B) (xs : List A) → length (map f xs) ≡ length xs
  length-map f [] = refl
  length-map f (x ∷ xs) = ap suc (length-map f xs)

  pub nil_of_length : (xs : List A) → length xs ≡ 0 → xs ≡ []
  nil_of_length [] e = refl
  nil_of_length (x ∷ xs) e = absurd (omega arith)

  pub take_some :
      (n : ℕ) (xs : List A) → 0 < n → 0 < length xs → (y : A) × (ys : List A) × (take n xs ≡ y ∷ ys)
  take_some n [] h more = absurd (omega arith)
  take_some zero (x ∷ xs) h more = absurd (omega arith)
  take_some (suc n) (x ∷ xs) h more = (x, take n xs, refl)

-- The smaller of two numbers.
abbrev pub least : ℕ → ℕ → ℕ
least zero n = zero
least (suc m) zero = zero
least (suc m) (suc n) = suc (least m n)

pub least_bounded : (m n : ℕ) → least m n ≤ n
least_bounded zero n = omega arith
least_bounded (suc m) zero = omega arith
least_bounded (suc m) (suc n) = omega (arith, least_bounded m n)

pub least_pos : (n : ℕ) → 0 < n → 0 < least 8 n
least_pos zero h = h
least_pos (suc n) h = omega arith
