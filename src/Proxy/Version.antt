-- ===== src/Proxy/Version.antt =====
-- src/proxy_version.cpp: the proxy looks for a newer program among the files of its directory. The
-- directory and the files are parameters.
use shp.Base.{
  ℕ, ◌+◌, ◌-◌, ◌*◌, ◌%◌, Bool, true, false, ◌&&◌, Option, none, some, List, [], ◌∷◌, ◌++◌, length,
  take, replicate, ltb, leb, ◌==◌, if◌then◌else◌, Exec, done, or_fault, ◌>>=◌,
}
use shp.Memory.{u32_mod, cells, read_at, from_le32}
use shp.ErrorCodes.{ErrorCode, is_ok}
use shp.Message.{
  Message, MessageId, FieldId, new_message, block, get_field_from_message, add_field_to_message,
}
use shp.Os.{Os}
use shp.Os.Actions
use shp.Os.Actions.{Io}
use shp.SocketServer.{ServerSocket, send_message}

-- A text starts with another.
abbrev pub starts_with : List ℕ → List ℕ → Bool
starts_with [] name = true
starts_with (x ∷ xs) [] = false
starts_with (x ∷ xs) (y ∷ ys) = (x == y) && starts_with xs ys

-- `strstr (text, part) != NULL`
unfoldable pub strstr : List ℕ → List ℕ → Bool
strstr [] part = starts_with part []
strstr (x ∷ xs) part = if starts_with part (x ∷ xs) then true else strstr xs part

abbrev pub is_digit : ℕ → Bool
is_digit c = leb b'0' c && leb c b'9'

-- The digits at the start of a text, behind those read so far.
unfoldable pub atoi_digits : ℕ → List ℕ → ℕ
atoi_digits acc [] = acc
atoi_digits acc (c ∷ cs) = if is_digit c then atoi_digits (acc * 10 + (c - b'0')) cs else acc

abbrev long_half : ℕ
long_half = 9_223_372_036_854_775_808

-- `strtol`, which `atoi` calls: a `long` of 64 bits saturates, as in glibc; C leaves what `atoi` returns
-- then undefined. The result becomes an `int`, and then unsigned.
abbrev pub of_positive : ℕ → ℕ
of_positive n = if leb long_half n then u32_mod - 1 else n % u32_mod

abbrev pub of_negative : ℕ → ℕ
of_negative n = if leb long_half n then 0 else (u32_mod - n % u32_mod) % u32_mod

-- `(unsigned int) atoi (text)`: white space, a sign, and digits.
unfoldable pub atoi : List ℕ → ℕ
unfolding atoi_digits
atoi [] = 0
atoi (c ∷ cs) =
    if (c == b' ')
    then atoi cs
    else if leb 9 c && leb c 13
    then atoi cs
    else if c == b'-'
    then of_negative (atoi_digits 0 cs)
    else if c == b'+'
    then of_positive (atoi_digits 0 cs)
    else of_positive (atoi_digits 0 (c ∷ cs))

-- The version of a file: its name without the last three characters, as a number.
unfoldable pub file_version : List ℕ → ℕ
unfolding atoi
file_version name = atoi (take (length name - 3) name)

abbrev pub gz : List ℕ
gz = b'.' ∷ b'g' ∷ b'z' ∷ []

-- The loop over the entries of the directory.
unfoldable pub highest : ℕ → List (List ℕ) → ℕ
unfolding strstr file_version
highest found [] = found
highest found (name ∷ names) =
    if strstr name gz
    then highest (if ltb found (file_version name) then file_version name else found) names
    else highest found names

-- `opendir (".")` with the names that `readdir` returns, none where it fails; a file's size as `ftell`
-- returns it and the bytes that `fread` stores, none where `fopen` of a version's file fails.
pub record Directory : Type 0 where
  pub entries : Option (List (List ℕ))
  pub file : ℕ → Option (ℕ × List ℕ)

unfoldable pub get_update_file : Directory → ℕ → ℕ
unfolding highest
get_update_file d version = elim d.entries [ none ↦ version | some names ↦ highest version names ]

-- The version in a message; zero where there is none.
unfoldable pub version_of : Message → Exec ℕ
unfolding read_at from_le32
version_of m = do
  (result, found) ← get_field_from_message FieldId.version m
  let stored = do
    place ← or_fault found
    bytes ← or_fault (read_at (block m.raw_payload) place.offset 4)
    or_fault (from_le32 bytes)
  if is_ok result then stored else done 0

-- The answer, with the file of a higher version. A file that is not there goes to `fseek` as a null
-- pointer, and what `fread` does not store stays unwritten.
unfoldable pub version_answer : Directory → Message → Exec Message
unfolding version_of get_update_file
version_answer d m = do
  version ← version_of m
  let update_version = get_update_file d version
  let update = do
    (size, bytes) ← or_fault (d.file update_version)
    (result, full) ←
        add_field_to_message FieldId.update_data
          (cells bytes ++ replicate (size - length bytes) none) (size % u32_mod)
          (new_message MessageId.send_version_result)
    done full
  if ltb version update_version then update else done (new_message MessageId.send_version_result)

module _ (os : Os) (d : Directory) where
  open os use {World}

  unfoldable pub process_message_version : Message → ServerSocket → Io World ErrorCode
  unfolding version_answer
  process_message_version m socket =
      Actions.◌>>=◌ (Actions.lift (version_answer d m)) (λ message. send_message os message socket)
