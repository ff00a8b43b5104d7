-- ===== src/Memory/Words.antt =====
-- The layout of 32-bit numbers: what is stored is read back.
use shp.Base.{ℕ, ◌≡◌, refl, ap, some, ◌++◌, arith, length}
use shp.Memory.{Memory, IsU32, cells, le32, from_le32, load32}
use shp.Memory.Copy.{read_at-append}

pub length-le32 : (n : ℕ) → length (cells (le32 n)) ≡ 4
unfolding le32
length-le32 n = refl

pub from_le32-le32 : (n : ℕ) → IsU32 n → from_le32 (cells (le32 n)) ≡ some n
unfolding from_le32 le32
from_le32-le32 n h = ap some (omega arith)

-- A number that stands in the middle of a block is read back from there.
pub load32-append :
    (pre rest : Memory) (offset n : ℕ)
    → offset ≡ length pre
    → IsU32 n
    → load32 (pre ++ (cells (le32 n) ++ rest)) offset ≡ some n
unfolding load32
load32-append pre rest offset n e h =
    rw (read_at-append pre (cells (le32 n)) rest offset 4 e (unfold le32 in refl), load32)
      (from_le32-le32 n h)
