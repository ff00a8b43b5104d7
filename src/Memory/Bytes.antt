-- ===== src/Memory/Bytes.antt =====
-- Lists of bytes.
use shp.Base.{ℕ, ◌%◌, ◌<◌, List, [], ◌∷◌, ◌++◌, map, arith}

abbrev pub IsBytes : List ℕ → Type 0
IsBytes [] = Unit
IsBytes (b ∷ bs) = (b < 256) × IsBytes bs

abbrev pub byte : ℕ → ℕ
byte n = n % 256

pub map-byte-IsBytes : (ns : List ℕ) → IsBytes (map byte ns)
map-byte-IsBytes [] = tt
map-byte-IsBytes (n ∷ ns) = (omega arith, map-byte-IsBytes ns)

pub IsBytes-append : (bs cs : List ℕ) → IsBytes (bs ++ cs) → IsBytes bs
IsBytes-append [] cs h = tt
IsBytes-append (b ∷ bs) cs h = (h.0, IsBytes-append bs cs h.1)
