-- ===== src/Travels/Lines.antt =====
-- What moves along the queues, as lists: what was shown, what waits in the head, in the proxy and in
-- the client, and what happened.
use shp.Base.{◌≡◌, sym, subst, ap, ◌∙◌, List, [], ◌∷◌, ◌++◌, append_assoc}
use shp.Travels.InOrder.{InOrder, InOrder-append_one, InOrder-twice, InOrder-without}

module _ {E : Type 0} where
  abbrev pub all : List E → List E → List E → List E → List E
  all a h p c = a ++ (h ++ (p ++ c))

  -- A move leaves the line as it is.
  pub at_end_line :
      (a h p c c' : List E) (e : E) → c' ≡ c ++ e ∷ [] → all a h p c ++ e ∷ [] ≡ all a h p c'
  at_end_line a h p c c' e ends =
      let shape : all a h p c ++ e ∷ [] ≡ all a h p (c ++ e ∷ []) = simp append_assoc in
      shape ∙ ap (all a h p) (sym ends)

  pub to_proxy_line :
      (a h p p' c c' : List E) (e : E) → c ≡ e ∷ c' → p' ≡ p ++ e ∷ [] → all a h p c ≡ all a h p' c'
  to_proxy_line a h p p' c c' e first ends =
      let shape : all a h p (e ∷ c') ≡ all a h (p ++ e ∷ []) c' = simp append_assoc in
      ap (all a h p) first ∙ shape ∙ ap (λ x. all a h x c') (sym ends)

  pub to_head_line :
      (a h h' p p' c : List E) (e : E) → p ≡ e ∷ p' → h' ≡ h ++ e ∷ [] → all a h p c ≡ all a h' p' c
  to_head_line a h h' p p' c e first ends =
      let shape : all a h (e ∷ p') c ≡ all a (h ++ e ∷ []) p' c = simp append_assoc in
      ap (λ x. all a h x c) first ∙ shape ∙ ap (λ x. all a x p' c) (sym ends)

  pub to_screen_line :
      (a h h' p c : List E) (e : E) → h ≡ e ∷ h' → all a h p c ≡ all (a ++ e ∷ []) h' p c
  to_screen_line a h h' p c e first =
      let shape : all a (e ∷ h') p c ≡ all (a ++ e ∷ []) h' p c = simp append_assoc in
      ap (λ x. all a x p c) first ∙ shape

  pub at_end :
      (a h p c c' ys : List E) (e : E)
      → InOrder (all a h p c) ys
      → c' ≡ c ++ e ∷ []
      → InOrder (all a h p c') (ys ++ e ∷ [])
  at_end a h p c c' ys e o ends =
      subst (λ l. InOrder l (ys ++ e ∷ [])) (at_end_line a h p c c' e ends)
        (InOrder-append_one e (all a h p c) ys o)

  -- The message is received and also kept.
  pub doubled :
      (a h p p' c c' ys : List E) (e : E)
      → InOrder (all a h p c) ys
      → c ≡ e ∷ c'
      → p' ≡ p ++ e ∷ []
      → InOrder (all a h p' c) ys
  doubled a h p p' c c' ys e o first ends =
      let before : all a h p (e ∷ c') ≡ (a ++ (h ++ p)) ++ e ∷ c' = simp append_assoc in
      let after : (a ++ (h ++ p)) ++ e ∷ e ∷ c' ≡ all a h (p ++ e ∷ []) (e ∷ c') =
        simp append_assoc in
      let same : all a h (p ++ e ∷ []) (e ∷ c') ≡ all a h p' c =
        ap (λ x. all a h x (e ∷ c')) (sym ends) ∙ ap (all a h p') (sym first) in
      subst (λ l. InOrder l ys) (after ∙ same)
        (InOrder-twice (a ++ (h ++ p)) e c' ys
          (subst (λ l. InOrder l ys) (ap (all a h p) first ∙ before) o))

  pub lost :
      (a h p p' c ys : List E) (e : E)
      → InOrder (all a h p c) ys
      → p ≡ e ∷ p'
      → InOrder (all a h p' c) ys
  lost a h p p' c ys e o first =
      let before : all a h (e ∷ p') c ≡ (a ++ h) ++ e ∷ (p' ++ c) = simp append_assoc in
      let after : (a ++ h) ++ (p' ++ c) ≡ all a h p' c = simp append_assoc in
      subst (λ l. InOrder l ys) after
        (InOrder-without (a ++ h) e (p' ++ c) ys
          (subst (λ l. InOrder l ys) (ap (λ x. all a h x c) first ∙ before) o))
