-- ===== src/Update.antt =====
-- src/client_process_version.cpp: the client asks the proxy for a newer program, unpacks it and
-- restarts. zlib and the file system are parameters.
pub mod Unpacking
pub mod Courses
mod Tests
use shp.Base.{
  ℕ, zero, suc, ℤ, pos, negsuc, Bool, true, false, Option, none, some, List, [], ◌==◌, ◌&&◌,
  if◌then◌else◌, length, fault, out_of_fuel, or_fault,
}
use shp.Memory.{Memory, read_at}
use shp.ErrorCodes.{ErrorCode, is_ok, ok, invalid_state, system_error}
use shp.Message.{
  Message, MessageId, message_id_code, FieldId, new_message, block, add_num_to_message,
  get_field_from_message,
}
use shp.Os.{Os}
use shp.Os.Actions.{Io, pure, ◌>>=◌, ◌>>◌, call, lift}
use shp.SocketClient.{new_client_socket, close}
use shp.Client.{NetworkSettings, exchange}

abbrev pub chunk : ℕ
chunk = 16384

-- `z_stream`: `inflateInit` of some input, none where it fails, and one call of `inflate` with some
-- room for output: what it returns, and the bytes written.
pub record Zlib : Type 1 where
  pub Stream : Type 0
  pub inflate_init : Memory → Option Stream
  pub inflate : ℕ → Stream → (ℤ × List ℕ) × Stream

-- The new binary: whether `fopen` succeeds, what `fwrite` returns, and `fclose`.
pub record Files (World : Type 0) : Type 0 where
  pub open_new : World → Bool × World
  pub write : List ℕ → World → ℕ × World
  pub close_new : World → World

-- `Z_OK` or `Z_STREAM_END`
abbrev pub is_good : ℤ → Bool
is_good (pos zero) = true
is_good (pos (suc zero)) = true
is_good (pos (suc (suc n))) = false
is_good (negsuc n) = false

-- The end of a function that may call `exit (1)`.
pub data Ended : Type 0 where
  returned : ErrorCode → Ended
  exited : Ended

module _ {World : Type 0} (files : Files World) (zlib : Zlib) where
  open zlib use {Stream}

  unfoldable pub write_to_file : List ℕ → Io World ErrorCode
  write_to_file buffer = do
    written ← call (files.write buffer)
    pure (if written == length buffer then ok else system_error)

  -- The loop goes on while the room for output was used up.
  unfoldable pub decompress_loop : ℕ → Stream → Io World ErrorCode
  unfolding write_to_file
  decompress_loop zero strm = λ w. out_of_fuel
  decompress_loop (suc fuel) strm = do
    let ((ret, buffer), strm') = zlib.inflate chunk strm
    result ← if is_good ret then write_to_file buffer else pure system_error
    let rest = decompress_loop fuel strm'
    if (length buffer == chunk) && is_ok result then rest else pure result

  unfoldable pub decompress : ℕ → Memory → Io World ErrorCode
  decompress fuel source = elim (zlib.inflate_init source) [
    | none ↦ pure system_error
    | some strm ↦ decompress_loop fuel strm
  ]

  -- A null pointer from `fopen` goes to `fwrite` and `fclose`, which is undefined.
  unfoldable pub process_update : ℕ → Memory → Io World Ended
  unfolding decompress
  process_update fuel data_received = do
    opened ← call files.open_new
    if opened
        then (do
          result ← decompress fuel data_received
          (λ (w : World). shp.Base.done (tt {0}, files.close_new w))
          pure (if is_ok result then Ended.exited else Ended.returned result))
        else (λ w. fault)

module _ (os : Os) (files : Files os.World) (zlib : Zlib) (network : NetworkSettings) where
  open os use {World}

  -- A message without `update_data` asks for nothing.
  unfoldable pub update_from : ℕ → Message → Io World Ended
  unfolding process_update
  update_from fuel message = do
    (result, found) ← lift (get_field_from_message FieldId.update_data message)
    if is_ok result
        then (do
          place ← lift (or_fault found)
          bytes ← lift (or_fault (read_at (block message.raw_payload) place.offset place.size))
          process_update files zlib fuel bytes)
        else pure (Ended.returned ok)

  -- The message id is checked before the data is looked for.
  unfoldable pub check_answer : ℕ → ErrorCode → Option Message → Io World Ended
  unfolding update_from
  check_answer fuel result answer =
      if is_ok result
      then (do
        message ← lift (or_fault answer)
        if message.message_id == message_id_code MessageId.send_version_result
            then update_from fuel message
            else pure (Ended.returned invalid_state))
      else pure (Ended.returned result)

  -- `exit (1)` does not run the destructor of `socket`.
  unfoldable pub process_version : ℕ → ℕ → Io World Ended
  unfolding check_answer
  process_version fuel revision = do
    (result, message) ←
        lift (add_num_to_message FieldId.version revision (new_message MessageId.send_version))
    ((sent, answer), s) ← exchange os network message result new_client_socket
    s' ← close os s
    ended ← check_answer fuel sent answer
    elim ended [
      | exited ↦ pure Ended.exited
      | returned final ↦ do s'' ← close os s'; pure (Ended.returned final)
    ]
