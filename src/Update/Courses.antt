-- ===== src/Update/Courses.antt =====
-- `process_update` on every course of the calls of `inflate`, also of a stream that is cut off or damaged.
use shp.Base.{ℕ, ◌<◌, ◌≡◌, Bool, true, false, List, [], ◌++◌, length, ℤ, if◌then◌else◌}
use shp.Memory.{Memory}
use shp.ErrorCodes.{ErrorCode, ok, system_error}
use shp.Update.{Zlib, chunk, is_good}

-- The calls of `inflate` on a stream, until one fails or writes less than there is room for; the bytes
-- that the others write, and whether the last one succeeds.
pub data Course (zlib : Zlib) : zlib.Stream → List ℕ → Bool → Type 0 where
  ends :
      {s s' : zlib.Stream} {ret : ℤ} {buffer : List ℕ}
      → zlib.inflate chunk s ≡ ((ret, buffer), s')
      → is_good ret ≡ true
      → length buffer < chunk
      → Course zlib s buffer true
  fails :
      {s s' : zlib.Stream} {ret : ℤ} {buffer : List ℕ}
      → zlib.inflate chunk s ≡ ((ret, buffer), s')
      → is_good ret ≡ false
      → Course zlib s [] false
  goes_on :
      {s s' : zlib.Stream} {ret : ℤ} {buffer rest : List ℕ} {success : Bool}
      → zlib.inflate chunk s ≡ ((ret, buffer), s')
      → is_good ret ≡ true
      → length buffer ≡ chunk
      → Course zlib s' rest success
      → Course zlib s (buffer ++ rest) success

-- The result of `decompress` after a course.
abbrev pub result_of : Bool → ErrorCode
result_of success = if success then ok else system_error
