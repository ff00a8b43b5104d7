-- ===== src/Debug/Rows.antt =====
-- The lines in which an array is logged.
use shp.Base.{
  ℕ, ◌-◌, ◌*◌, ◌<◌, ◌≤◌, ◌≡◌, refl, sym, ap, ap₂, subst, ◌∙◌, false, Bool-cases, inl, inr, List, [],
  ◌∷◌, ◌++◌, map, length, replicate, append_assoc, append-nil, length-append, leb, ◌==◌, arith,
}
use shp.Debug.{Line, hex_of, ascii_of, array_lines, debug_log_print_array}

-- The digits of all bytes of a line.
abbrev pub hex_row : List ℕ → List ℕ
hex_row [] = []
hex_row (b ∷ bs) = hex_of b ++ hex_row bs

-- A line of some bytes, filled up to thirty characters.
abbrev pub render : List ℕ → Line
render row = record {
  hex = hex_row row ++ replicate (30 - length (hex_row row)) b' ';
  ascii = map ascii_of row;
}

-- The lines of an array: each stands for ten bytes, and the last for one to ten.
pub data Rows : List ℕ → List Line → Type 0 where
  no_row : Rows [] []
  last_row : (row : List ℕ) → 0 < length row → length row ≤ 10 → Rows row (render row ∷ [])
  full_row :
      (row rest : List ℕ) (lines : List Line)
      → length row ≡ 10
      → 0 < length rest
      → Rows rest lines
      → Rows (row ++ rest) (render row ∷ lines)

length-hex_row : (row : List ℕ) → length (hex_row row) ≡ length row * 3
length-hex_row [] = refl
length-hex_row (b ∷ row) = omega (arith, length-hex_row row)

hex_row-append : (row : List ℕ) (b : ℕ) → hex_row (row ++ b ∷ []) ≡ hex_row row ++ hex_of b
hex_row-append [] b = append-nil (hex_of b)
hex_row-append (c ∷ row) b =
    ap (λ t. hex_of c ++ t) (hex_row-append row b)
    ∙ sym (append_assoc (hex_of c) (hex_row row) (hex_of b))

ascii-append :
    (row : List ℕ) (b : ℕ) → map ascii_of (row ++ b ∷ []) ≡ map ascii_of row ++ ascii_of b ∷ []
ascii-append [] b = refl
ascii-append (c ∷ row) b = ap (◌∷◌ (ascii_of c)) (ascii-append row b)

full_line :
    (row : List ℕ)
    → length row ≡ 10
    → record { hex = hex_row row; ascii = map ascii_of row } ≡ render row
full_line row size =
    let none_left : 30 - length (hex_row row) ≡ 0 = omega (arith, length-hex_row row) in
    ap (λ (t : List ℕ). record { hex = t; ascii = map ascii_of row })
      (sym (append-nil (hex_row row)) ∙ ap (λ n. hex_row row ++ replicate n b' ') (sym none_left))

array_lines-Rows :
    (bytes row : List ℕ)
    → length row ≤ 10
    → Rows (row ++ bytes) (array_lines bytes (hex_row row) (map ascii_of row))
unfolding array_lines
array_lines-Rows [] [] small = no_row
array_lines-Rows [] (c ∷ row) small =
    let nonzero : (length (hex_row (c ∷ row)) == 0) ≡ false = ground arith in
    let same : array_lines [] (hex_row (c ∷ row)) (map ascii_of (c ∷ row)) ≡ render (c ∷ row) ∷ [] =
      rw nonzero in
    subst (Rows ((c ∷ row) ++ [])) (sym same) (
      subst (λ t. Rows t (render (c ∷ row) ∷ [])) (sym (append-nil (c ∷ row)))
        (last_row (c ∷ row) (omega arith) small))
array_lines-Rows (b ∷ bytes) row small = elim (Bool-cases (leb 30 (length (hex_row row)))) [
  | inl full ↦
      let ten : length row ≡ 10 = ground (arith, length-hex_row row) in
      let next = array_lines-Rows bytes (b ∷ []) (omega arith) in
      let same : array_lines (b ∷ bytes) (hex_row row) (map ascii_of row)
          ≡ record { hex = hex_row row; ascii = map ascii_of row }
            ∷ array_lines bytes (hex_row (b ∷ [])) (map ascii_of (b ∷ [])) =
        rw full in
      subst (Rows (row ++ b ∷ bytes))
        (sym (
          same
          ∙ ap (λ (l : Line). l ∷ array_lines bytes (hex_row (b ∷ [])) (map ascii_of (b ∷ [])))
              (full_line row ten)))
        (full_row row (b ∷ bytes) _ ten (omega arith) next)
  | inr more ↦
      let fewer : length row < 10 = ground (arith, length-hex_row row) in
      let next =
        array_lines-Rows bytes (row ++ b ∷ []) (omega (arith, length-append row (b ∷ []))) in
      let same : array_lines (b ∷ bytes) (hex_row row) (map ascii_of row)
          ≡ array_lines bytes (hex_row row ++ hex_of b) (map ascii_of row ++ ascii_of b ∷ []) =
        rw more in
      subst (Rows (row ++ b ∷ bytes))
        (ap₂ (array_lines bytes) (hex_row-append row b) (ascii-append row b) ∙ sym same)
        (subst
          (λ t. Rows t (array_lines bytes (hex_row (row ++ b ∷ [])) (map ascii_of (row ++ b ∷ []))))
          (append_assoc row (b ∷ []) bytes) next)
]

-- An array of any length is logged in lines of ten bytes and a last line of one to ten, filled up to
-- the same width, and an empty array in no line.
pub debug_log_print_array-Rows : (bytes : List ℕ) → Rows bytes (debug_log_print_array bytes)
unfolding debug_log_print_array
debug_log_print_array-Rows bytes = array_lines-Rows bytes [] (omega arith)
