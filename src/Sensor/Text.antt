-- ===== src/Sensor/Text.antt =====
-- Copies and comparisons of texts with a terminator.
use shp.Base.{
  ℕ, zero, suc, ◌+◌, ◌<◌, ◌≤◌, ◌≡◌, refl, sym, ap, Bool, false, Bool-cases, none, some, List, [],
  ◌∷◌, ◌++◌, length, length-replicate, Option-cases, inl, inr, arith, ◌==◌,
}
use shp.Memory.{Memory, strlen}
use shp.Sensor.{strncpy, str_equal}

-- A text that is shorter than the array is copied whole, and filled up with zeros.
pub strncpy_short :
    (n k : ℕ) (src : Memory)
    → strlen src ≡ some k
    → k < n
    → (text : Memory) × (strncpy n src ≡ some text) × (strlen text ≡ some k) × (length text ≡ n)
unfolding strncpy strlen
strncpy_short zero k src ended h = absurd (omega arith)
strncpy_short (suc n) k [] ended h = cc
strncpy_short (suc n) k (none ∷ src) ended h = cc
strncpy_short (suc n) k (some zero ∷ src) ended h =
    (_, refl, ended, ap suc (length-replicate n (some 0)))
strncpy_short (suc n) k (some (suc c) ∷ src) ended h = elim (Option-cases (strlen src)) [
  | inl unended ↦ ground arith
  | inr (j, rest_ended) ↦
      let same : k ≡ j + 1 = ground arith in
      let (text, copies, text_ended, size) = strncpy_short n j src rest_ended (omega arith) in
      (some (suc c) ∷ text, rw copies, rw text_ended (ap some (sym same)), ap suc size)
]

-- Of a text that is not, only the first characters are copied, and no terminator.
pub strncpy_long :
    (n k : ℕ) (src rest : Memory)
    → strlen src ≡ some k
    → n ≤ k
    → (text : Memory) × (strncpy n src ≡ some text)
      × (length text ≡ n)
      × (strlen (text ++ none ∷ rest) ≡ none)
unfolding strncpy strlen
strncpy_long zero k src rest ended h = ([], refl, refl, refl)
strncpy_long (suc n) k [] rest ended h = cc
strncpy_long (suc n) k (none ∷ src) rest ended h = cc
strncpy_long (suc n) k (some zero ∷ src) rest ended h =
    let z : k ≡ 0 = ground arith in absurd (omega arith)
strncpy_long (suc n) k (some (suc c) ∷ src) rest ended h = elim (Option-cases (strlen src)) [
  | inl unended ↦ ground arith
  | inr (j, rest_ended) ↦
      let same : k ≡ j + 1 = ground arith in
      let (text, copies, size, unended) = strncpy_long n j src rest rest_ended (omega arith) in
      (some (suc c) ∷ text, rw copies, ap suc size, rw unended)
]

-- A text with a terminator can be compared with any other.
pub str_equal-some :
    (m : Memory) (xs : List ℕ) (n : ℕ) → strlen m ≡ some n → (b : Bool) × (str_equal m xs ≡ some b)
unfolding str_equal strlen
str_equal-some [] xs n ended = cc
str_equal-some (none ∷ m) xs n ended = cc
str_equal-some (some zero ∷ m) [] n ended = (_, refl)
str_equal-some (some (suc c) ∷ m) [] n ended = (_, refl)
str_equal-some (some zero ∷ m) (x ∷ xs) n ended = (false, refl)
str_equal-some (some (suc c) ∷ m) (x ∷ xs) n ended = elim (Bool-cases (suc c == x)) [
  | inr other ↦ (false, rw other)
  | inl same ↦ elim (Option-cases (strlen m)) [
    | inl unended ↦ ground arith
    | inr (k, rest_ended) ↦ let (b, e) = str_equal-some m xs k rest_ended in (b, rw same e)
  ]
]
