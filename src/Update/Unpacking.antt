-- ===== src/Update/Unpacking.antt =====
-- `decompress` writes what zlib unpacks, in pieces of any number.
use shp.Base.{
  ℕ, zero, suc, ◌*◌, ◌<◌, ◌≤◌, ◌≡◌, ◌≢◌, ==_iff, sym, ap, ap₂, ◌∙◌, true, false, Bool-cases, inl,
  inr, List, [], ◌++◌, ◌==◌, length, length-take, length-drop, take, drop, take_all,
  take-append-drop, append_assoc, done, some, arith,
}
use shp.Memory.{Memory}
use shp.ErrorCodes.{ok}
use shp.Update.{
  Files, Zlib, Ended, chunk, is_good, write_to_file, decompress_loop, decompress, process_update,
}

-- What zlib documents of a stream whose compressed data is complete and undamaged, where there is room
-- for output: a call writes as much of what is left as there is room for, returns `Z_OK` or
-- `Z_STREAM_END`, and leaves such a stream. Nothing is said of other streams, nor of a call without
-- room, which may return `Z_BUF_ERROR`.
pub record Unpacks (zlib : Zlib) : Type 1 where
  pub IsComplete : zlib.Stream → Type 0
  pub output : zlib.Stream → List ℕ
  pub writes :
      (n : ℕ) (s : zlib.Stream) → IsComplete s → 0 < n → (zlib.inflate n s).0.1 ≡ take n (output s)
  pub leaves :
      (n : ℕ) (s : zlib.Stream)
      → IsComplete s
      → 0 < n
      → output (zlib.inflate n s).1 ≡ drop n (output s)
  pub stays : (n : ℕ) (s : zlib.Stream) → IsComplete s → 0 < n → IsComplete (zlib.inflate n s).1
  pub succeeds :
      (n : ℕ) (s : zlib.Stream) → IsComplete s → 0 < n → is_good (zlib.inflate n s).0.0 ≡ true

-- A disk with room for what is written, and the binary's content on it.
pub record IsRoomy {World : Type 0} (files : Files World) : Type 0 where
  pub content : World → List ℕ
  pub writes_all : (buffer : List ℕ) (w : World) → (files.write buffer w).0 ≡ length buffer
  pub appends :
      (buffer : List ℕ) (w : World) → content (files.write buffer w).1 ≡ content w ++ buffer
  pub opens : (w : World) → ((files.open_new w).0 ≡ true) × (content (files.open_new w).1 ≡ [])
  pub closes : (w : World) → content (files.close_new w) ≡ content w

short_output : (xs : List ℕ) → (length (take chunk xs) == chunk) ≡ false → length xs ≤ chunk
short_output xs e =
    let other : length (take chunk xs) ≢ chunk =
      λ same. false_ne_true (sym e ∙ (==_iff (length (take chunk xs)) chunk).1 same) in
    omega (arith, length-take chunk xs, other)
  where
    false_ne_true : false ≢ true
    false_ne_true e = cc

one_less :
    (fuel : ℕ) (xs ys : List ℕ)
    → (length (take chunk xs) == chunk) ≡ true
    → ys ≡ drop chunk xs
    → length xs < suc fuel * 16384
    → length ys < fuel * 16384
one_less fuel xs ys full rest h =
    let same : length (take chunk xs) ≡ chunk = (==_iff (length (take chunk xs)) chunk).0 full in
    omega (arith, length-take chunk xs, same, ap length rest, length-drop chunk xs)

module _ {World : Type 0} (files : Files World) (zlib : Zlib) (roomy : IsRoomy files)
    (unpacks : Unpacks zlib) where
  open roomy use {content}
  open unpacks use {output}

  decompress_loop_writes :
      (fuel : ℕ) (s : zlib.Stream) (w : World)
      → unpacks.IsComplete s
      → length (output s) < fuel * 16384
      → (w' : World) × (decompress_loop files zlib fuel s w ≡ done (ok, w'))
        × (content w' ≡ content w ++ output s)
  unfolding decompress_loop write_to_file
  decompress_loop_writes zero s w complete h = absurd (omega arith)
  decompress_loop_writes (suc fuel) s w complete h =
      let room : 0 < 16384 = omega arith in
      let ((ret, buffer), s1) = zlib.inflate chunk s in
      let w1 = (files.write buffer w).1 in
      let good : is_good ret ≡ true = unpacks.succeeds chunk s complete room in
      let all : ((files.write buffer w).0 == length buffer) ≡ true =
        ground (arith, roomy.writes_all buffer w) in
      let size : length buffer ≡ length (take chunk (output s)) =
        ap length (unpacks.writes chunk s complete room) in
      elim (Bool-cases (length buffer == chunk)) [
        | inr last ↦ (
          w1,
          rw (good, all, last),
          roomy.appends buffer w
              ∙ ap (◌++◌ (content w)) (
                  unpacks.writes chunk s complete room
                  ∙ take_all (output s) chunk
                      (short_output (output s) (ap (λ n. n == chunk) (sym size) ∙ last))),
        )
        | inl full ↦
            let (w', ends, written) =
              decompress_loop_writes fuel s1 w1 (unpacks.stays chunk s complete room) (
                one_less fuel (output s) (output s1) (ap (λ n. n == chunk) (sym size) ∙ full)
                  (unpacks.leaves chunk s complete room) h) in
            (
              w',
              rw (good, all, full) ends,
              written
                  ∙ ap (λ c. c ++ output s1) (roomy.appends buffer w)
                  ∙ append_assoc (content w) buffer (output s1)
                  ∙ ap (◌++◌ (content w)) (
                      ap₂ (◌++◌) (unpacks.writes chunk s complete room)
                        (unpacks.leaves chunk s complete room)
                      ∙ take-append-drop chunk (output s)),
            )
      ]

  -- Where the data is a complete and undamaged stream of zlib, and the disk has room, the update ends for
  -- any number of pieces: the new binary holds exactly what zlib unpacks, and the program exits to be
  -- started again.
  pub process_update_unpacks :
      (fuel : ℕ) (source : Memory) (s : zlib.Stream) (w : World)
      → zlib.inflate_init source ≡ some s
      → unpacks.IsComplete s
      → length (output s) < fuel * 16384
      → (w' : World) × (process_update files zlib fuel source w ≡ done (Ended.exited, w'))
        × (content w' ≡ output s)
  unfolding process_update decompress
  process_update_unpacks fuel source s w init complete h =
      let (opened, empty) = roomy.opens w in
      let (w1, ends, written) = decompress_loop_writes fuel s (files.open_new w).1 complete h in
      (
        files.close_new w1,
        rw (opened, decompress, init, ends),
        roomy.closes w1 ∙ written ∙ ap (λ c. c ++ output s) empty,
      )
