-- ===== src/Travels/InOrder.antt =====
-- A list that repeats or leaves out items of another, and keeps their order.
use shp.Base.{◌≡◌, refl, subst, append-nil, List, [], ◌∷◌, ◌++◌}

module _ {ℓ} {A : Type ℓ} where
  pub data InOrder : List A → List A → Type ℓ where
    nothing : InOrder [] []
    keeps : {x : A} {xs ys : List A} → InOrder xs ys → InOrder (x ∷ xs) (x ∷ ys)
    leaves_out : {y : A} {xs ys : List A} → InOrder xs ys → InOrder xs (y ∷ ys)
    repeats : {x : A} {xs ys : List A} → InOrder (x ∷ xs) ys → InOrder (x ∷ x ∷ xs) ys

  -- One item more at both ends.
  pub InOrder-append_one :
      (e : A) (xs ys : List A) → InOrder xs ys → InOrder (xs ++ e ∷ []) (ys ++ e ∷ [])
  InOrder-append_one e _ _ nothing = keeps nothing
  InOrder-append_one e _ _ (keeps {xs} {ys} o) = keeps (InOrder-append_one e xs ys o)
  InOrder-append_one e xs _ (leaves_out {ys} o) = leaves_out (InOrder-append_one e xs ys o)
  InOrder-append_one e _ ys (repeats {x} {xs} o) = repeats (InOrder-append_one e (x ∷ xs) ys o)

  head_tail : (x y : A) (xs ys : List A) → x ∷ xs ≡ y ∷ ys → (x ≡ y) × (xs ≡ ys)
  head_tail x y xs ys e = (cc, cc)

  -- An item may be repeated wherever it stands.
  twice :
      (front : List A) (m : A) (back zs ys : List A)
      → InOrder zs ys
      → zs ≡ front ++ m ∷ back
      → InOrder (front ++ m ∷ m ∷ back) ys
  twice [] m back zs ys o e = repeats (subst (λ l. InOrder l ys) e o)
  twice (z ∷ front) m back _ _ nothing e = cc
  twice (z ∷ front) m back _ _ (keeps {x} {xs} {ys} o) e =
      let (same, rest) = head_tail x z xs (front ++ m ∷ back) e in
      subst (λ w. InOrder (w ∷ front ++ m ∷ m ∷ back) (x ∷ ys)) same
        (keeps (twice front m back xs ys o rest))
  twice (z ∷ front) m back zs _ (leaves_out {ys} o) e =
      leaves_out (twice (z ∷ front) m back zs ys o e)
  twice (z ∷ []) m back _ ys (repeats {x} {xs} o) e =
      let (same, rest) = head_tail x z (x ∷ xs) (m ∷ back) e in
      let (again, end) = head_tail x m xs back rest in
      let shape : x ∷ x ∷ x ∷ xs ≡ z ∷ m ∷ m ∷ back = cc in
      subst (λ l. InOrder l ys) shape (repeats (repeats o))
  twice (z ∷ w ∷ front) m back _ ys (repeats {x} {xs} o) e =
      let (same, rest) = head_tail x z (x ∷ xs) (w ∷ front ++ m ∷ back) e in
      let (again, end) = head_tail x w xs (front ++ m ∷ back) rest in
      let shape : x ∷ xs ≡ z ∷ front ++ m ∷ back = cc in
      let equal : z ≡ w = cc in
      subst (λ v. InOrder (z ∷ v ∷ front ++ m ∷ m ∷ back) ys) equal
        (repeats (twice (z ∷ front) m back (x ∷ xs) ys o shape))

  -- And left out.
  without :
      (front : List A) (m : A) (back zs ys : List A)
      → InOrder zs ys
      → zs ≡ front ++ m ∷ back
      → InOrder (front ++ back) ys
  without [] m back _ _ nothing e = cc
  without (z ∷ front) m back _ _ nothing e = cc
  without [] m back _ _ (keeps {x} {xs} {ys} o) e =
      let (same, rest) = head_tail x m xs back e in leaves_out (subst (λ l. InOrder l ys) rest o)
  without (z ∷ front) m back _ _ (keeps {x} {xs} {ys} o) e =
      let (same, rest) = head_tail x z xs (front ++ m ∷ back) e in
      subst (λ w. InOrder (w ∷ front ++ back) (x ∷ ys)) same
        (keeps (without front m back xs ys o rest))
  without front m back zs _ (leaves_out {ys} o) e = leaves_out (without front m back zs ys o e)
  without [] m back _ ys (repeats {x} {xs} o) e =
      let (same, rest) = head_tail x m (x ∷ xs) back e in subst (λ l. InOrder l ys) rest o
  without (z ∷ []) m back _ ys (repeats {x} {xs} o) e =
      let (same, rest) = head_tail x z (x ∷ xs) (m ∷ back) e in
      let (again, end) = head_tail x m xs back rest in
      let shape : x ∷ xs ≡ z ∷ back = cc in subst (λ l. InOrder l ys) shape o
  without (z ∷ w ∷ front) m back _ ys (repeats {x} {xs} o) e =
      let (same, rest) = head_tail x z (x ∷ xs) (w ∷ front ++ m ∷ back) e in
      let (again, end) = head_tail x w xs (front ++ m ∷ back) rest in
      let shape : x ∷ xs ≡ z ∷ front ++ m ∷ back = cc in
      let equal : z ≡ w = cc in
      subst (λ v. InOrder (z ∷ v ∷ front ++ back) ys) equal
        (repeats (without (z ∷ front) m back (x ∷ xs) ys o shape))

  pub InOrder-twice :
      (front : List A) (m : A) (back ys : List A)
      → InOrder (front ++ m ∷ back) ys
      → InOrder (front ++ m ∷ m ∷ back) ys
  InOrder-twice front m back ys o = twice front m back _ ys o refl

  pub InOrder-without :
      (front : List A) (m : A) (back ys : List A)
      → InOrder (front ++ m ∷ back) ys
      → InOrder (front ++ back) ys
  InOrder-without front m back ys o = without front m back _ ys o refl

  -- What comes last may be left out altogether.
  pub InOrder_prefix : (xs back ys : List A) → InOrder (xs ++ back) ys → InOrder xs ys
  InOrder_prefix xs [] ys o = subst (λ l. InOrder l ys) (append-nil xs) o
  InOrder_prefix xs (m ∷ back) ys o = InOrder_prefix xs back ys (InOrder-without xs m back ys o)
