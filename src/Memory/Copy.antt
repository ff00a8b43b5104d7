-- ===== src/Memory/Copy.antt =====
-- Reads and writes of a block that is known in pieces.
use shp.Base.{
  ℕ, ◌+◌, ◌≤◌, ◌≡◌, ap, some, ◌++◌, arith, le→leb, length, take, drop, ◌∙◌, append_assoc,
  length-append, take_left, drop_left, drop_past,
}
use shp.Memory.{Memory, read_at, write_at}

-- A read of exactly the middle piece.
pub read_at-append :
    (pre src rest : Memory) (offset n : ℕ)
    → offset ≡ length pre
    → n ≡ length src
    → read_at (pre ++ (src ++ rest)) offset n ≡ some src
unfolding read_at
read_at-append pre src rest offset n e f =
    rw (le→leb (offset + n) (length (pre ++ (src ++ rest))) fits)
      (rw (drop_left pre (src ++ rest) offset e) (ap some (take_left src rest n f)))
  where
    fits : offset + n ≤ length (pre ++ (src ++ rest))
    fits = omega (arith, length-append pre (src ++ rest), length-append src rest)

-- A write behind a known piece keeps that piece, and what follows the bytes written.
pub write_at-append :
    (pre src rest : Memory) (offset : ℕ)
    → offset ≡ length pre
    → length src ≤ length rest
    → write_at (pre ++ rest) offset src ≡ some (pre ++ (src ++ drop (length src) rest))
unfolding write_at
write_at-append pre src rest offset e h =
    rw (le→leb (offset + length src) (length (pre ++ rest)) fits) (
      rw (take_left pre rest offset e)
        (ap (λ r. some (pre ++ (src ++ r))) (drop_past pre rest offset (length src) e)))
  where
    fits : offset + length src ≤ length (pre ++ rest)
    fits = omega (arith, length-append pre rest)

-- The same, behind a known piece and what was written there before.
pub write_at-append_next :
    (pre old src rest : Memory) (offset : ℕ)
    → offset ≡ length pre + length old
    → length src ≤ length rest
    → write_at (pre ++ (old ++ rest)) offset src
      ≡ some (pre ++ ((old ++ src) ++ drop (length src) rest))
write_at-append_next pre old src rest offset e h = rw (← append_assoc pre old rest) (
    write_at-append (pre ++ old) src rest offset (omega (arith, length-append pre old)) h
    ∙ simp append_assoc)

-- A read from the start.
pub read_at-front : (m : Memory) (n : ℕ) → n ≤ length m → read_at m 0 n ≡ some (take n m)
unfolding read_at
read_at-front m n h =
    let fits : 0 + n ≤ length m = omega arith in rw (le→leb (0 + n) (length m) fits)
