-- ===== src/Version.antt =====
-- src/version.cpp: the numbers of the build, which are the files src/VERSION and src/REVISION, and the
-- text that is printed of them. How `printf` writes the version, a floating number, is a parameter.
use shp.Base.{
  ℕ, refl, zero, suc, ◌+◌, ◌-◌, ◌/◌, ◌%◌, ◌≡◌, List, [], ◌∷◌, ◌++◌, ltb, if◌then◌else◌, take,
  length, replicate, arith, length-append, length-take, length-replicate,
}

abbrev pub revision : ℕ
revision = 441

-- `%d` of a number with at most as many digits as there is fuel.
unfoldable pub decimal : ℕ → ℕ → List ℕ
decimal zero n = []
decimal (suc fuel) n =
    let rest = decimal fuel (n / 10) in
    if ltb n 10 then (48 + n) ∷ [] else rest ++ ((48 + n % 10) ∷ [])

-- `snprintf` to a buffer of 16 bytes that was all zero: at most 15 characters are written.
unfoldable pub get_full_version : List ℕ → List ℕ
unfolding decimal
get_full_version version_text =
    let text = take 15 (version_text ++ (46 ∷ decimal 10 revision)) in
    text ++ replicate (16 - length text) 0

abbrev pub get_revision : ℕ
get_revision = revision

-- Whatever the text of the version is, the buffer keeps its size.
pub length-get_full_version : (version_text : List ℕ) → length (get_full_version version_text) ≡ 16
unfolding get_full_version
length-get_full_version version_text =
    let text = take 15 (version_text ++ (46 ∷ decimal 10 revision)) in
    omega (
      arith,
      length-append text (replicate (16 - length text) 0),
      length-replicate {0} {A = ℕ} (16 - length text) 0,
      length-take 15 (version_text ++ (46 ∷ decimal 10 revision)),
    )

first_version :
    get_full_version (48 ∷ 46 ∷ 48 ∷ 49 ∷ [])
    ≡ 48 ∷ 46 ∷ 48 ∷ 49 ∷ 46 ∷ 52 ∷ 52 ∷ 49 ∷ 0 ∷ 0 ∷ 0 ∷ 0 ∷ 0 ∷ 0 ∷ 0 ∷ 0 ∷ []
unfolding get_full_version
first_version = refl
