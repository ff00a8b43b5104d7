-- ===== src/Message/Arriving.antt =====
-- What becomes of the fields of a message that is sent.
use shp.Base.{ℕ, ◌≡◌, refl, sym, ap, ap₂, ◌∙◌, subst, List, [], ◌∷◌, ◌++◌, length}
use shp.Memory.{Memory, cells, le32}
use shp.Memory.Arrives.{Arrives, Arrives-append, Arrives-cells, length-Arrives}
use shp.Message.Fields.{Field, encode}

-- The same tags, and values that may differ where nothing was written.
abbrev pub FieldsArrive : List Field → List Field → Type 0
FieldsArrive [] [] = Unit {0}
FieldsArrive [] (g ∷ gs) = ⊥
FieldsArrive (f ∷ fs) [] = ⊥
FieldsArrive (f ∷ fs) (g ∷ gs) = ((f.tag ≡ g.tag) × Arrives f.value g.value) × FieldsArrive fs gs

-- Every byte of the values is written.
abbrev pub AreWritten : List Field → Type 0
AreWritten [] = Unit {0}
AreWritten (f ∷ fs) = ((bytes : List ℕ) × (f.value ≡ cells bytes)) × AreWritten fs

-- What arrives of the fields' encoding is the encoding of fields that arrive.
pub encode-FieldsArrive :
    (fs : List Field) (came : Memory)
    → Arrives (encode fs) came
    → (gs : List Field) × FieldsArrive fs gs × (came ≡ encode gs)
encode-FieldsArrive [] [] a = ([], tt, refl)
encode-FieldsArrive [] (c ∷ came) a = absurd a
encode-FieldsArrive (f ∷ fs) came a =
    let (tag, behind_tag, e1, a1, b1) =
      Arrives-append (cells (le32 f.tag)) (cells (le32 (length f.value)) ++ (f.value ++ encode fs))
        came a in
    let (size, behind_size, e2, a2, b2) =
      Arrives-append (cells (le32 (length f.value))) (f.value ++ encode fs) behind_tag b1 in
    let (value, others, e3, a3, b3) = Arrives-append f.value (encode fs) behind_size b2 in
    let (gs, arrive, e4) = encode-FieldsArrive fs others b3 in
    (
      record { tag = f.tag; value = value } ∷ gs,
      ((refl, a3), arrive),
      e1
          ∙ ap₂ ◌++◌ (sym (Arrives-cells (le32 f.tag) tag a1)) (
              e2
              ∙ ap₂ ◌++◌
                  (sym (Arrives-cells (le32 (length f.value)) size a2)
                    ∙ ap (λ n. cells (le32 n)) (length-Arrives f.value value a3))
                  (e3 ∙ ap (◌++◌ value) e4)),
    )

-- A written field arrives as it is.
pub field-FieldArrives :
    (f g : Field)
    → (bytes : List ℕ) × (f.value ≡ cells bytes)
    → (f.tag ≡ g.tag) × Arrives f.value g.value
    → f ≡ g
field-FieldArrives f g (bytes, written) (tag, value) =
    ap₂ (λ t v. record { tag = t; value = v }) tag
      (written ∙ Arrives-cells bytes g.value (subst (λ v. Arrives v g.value) written value))

-- So do written fields.
pub FieldsArrive-AreWritten : (fs gs : List Field) → AreWritten fs → FieldsArrive fs gs → fs ≡ gs
FieldsArrive-AreWritten [] [] w a = refl
FieldsArrive-AreWritten [] (g ∷ gs) w a = absurd a
FieldsArrive-AreWritten (f ∷ fs) [] w a = absurd a
FieldsArrive-AreWritten (f ∷ fs) (g ∷ gs) (w, ws) (a, others) =
    ap₂ ◌∷◌ (field-FieldArrives f g w a) (FieldsArrive-AreWritten fs gs ws others)
