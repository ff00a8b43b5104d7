-- ===== src/Memory.antt =====
-- C memory as the program uses it: blocks of bytes, `memcpy` with its bounds, and the little-endian
-- layout of a 32-bit number. A cell that was allocated and not written yet is `none`.
pub mod Bytes
pub mod Copy
pub mod Words
pub mod Arrives
use shp.Base.{
  ℕ, zero, suc, ◌+◌, ◌*◌, ◌/◌, ◌%◌, ◌^◌, ◌<◌, Option, none, some, List, [], ◌∷◌, ◌++◌, map, leb,
  if◌then◌else◌, length, take, drop, replicate,
}

abbrev pub Cell : Type 0
Cell = Option ℕ

abbrev pub Memory : Type 0
Memory = List Cell

-- The values of `unsigned int` are the numbers below this one.
abbrev pub u32_mod : ℕ
u32_mod = 2 ^ 32

abbrev pub IsU32 : ℕ → Type 0
IsU32 n = n < u32_mod

-- `new unsigned char [n]`. It throws where there is no memory, and never returns a null pointer.
abbrev pub new_block : ℕ → Option Memory
new_block n = some (replicate n none)

-- Bytes that have been written.
abbrev pub cells : List ℕ → Memory
cells = map some

-- The `n` bytes from an offset on; undefined past the end of the block.
unfoldable pub read_at : Memory → ℕ → ℕ → Option Memory
read_at m offset n = if leb (offset + n) (length m) then some (take n (drop offset m)) else none

-- `memcpy` to an offset of a block; undefined past its end.
unfoldable pub write_at : Memory → ℕ → Memory → Option Memory
write_at m offset src =
    if leb (offset + length src) (length m)
    then some (take offset m ++ (src ++ drop (offset + length src) m))
    else none

-- The four bytes of a number as x86 and ARM store it.
unfoldable pub le32 : ℕ → List ℕ
le32 n = (n % 256) ∷ (n / 256 % 256) ∷ (n / 65536 % 256) ∷ (n / 16777216 % 256) ∷ []

unfoldable pub from_le32 : Memory → Option ℕ
from_le32 (some a ∷ some b ∷ some c ∷ some d ∷ []) = some (a + 256 * b + 65536 * c + 16777216 * d)
from_le32 _ = none

-- `memcpy (&x, p + offset, 4)`
unfoldable pub load32 : Memory → ℕ → Option ℕ
unfolding read_at from_le32
load32 m offset = elim (read_at m offset 4) [ none ↦ none | some bytes ↦ from_le32 bytes ]

-- A 64-bit number, such as a `time_t`.
unfoldable pub le64 : ℕ → List ℕ
unfolding le32
le64 n = le32 (n % u32_mod) ++ le32 (n / u32_mod)

unfoldable pub from_le64 : Memory → Option ℕ
unfolding from_le32
from_le64 m = elim (from_le32 (take 4 m)) [
  | none ↦ none
  | some low ↦ elim (from_le32 (drop 4 m)) [ none ↦ none | some high ↦ some (low + u32_mod * high) ]
]

-- `strlen`; undefined where the block has no terminator.
unfoldable pub strlen : Memory → Option ℕ
strlen [] = none
strlen (none ∷ m) = none
strlen (some zero ∷ m) = some 0
strlen (some (suc c) ∷ m) = elim (strlen m) [ none ↦ none | some n ↦ some (n + 1) ]
