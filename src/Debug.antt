-- ===== src/Debug.antt =====
-- src/debug.hpp and src/debug.cpp: the level of indentation, the lines of an array, and the texts of
-- the log. The output itself and the time of day are left out.
pub mod Level
pub mod Rows
mod Tests
use shp.Base.{
  ℕ, zero, suc, ◌+◌, ◌-◌, ◌*◌, ◌/◌, ◌%◌, ℤ, pos, negsuc, Bool, true, false, Option, none, some,
  List, [], ◌∷◌, ◌++◌, length, replicate, ltb, leb, ◌==◌, if◌then◌else◌, Exec, done, fault, ◌>>=◌,
}
use shp.ErrorCodes.{ErrorCode, error_code}

-- `debug_level` and `is_initialized`.
pub record Log : Type 0 where
  pub debug_level : ℤ
  pub is_initialized : Bool

-- `INTEND_DEPTH` and `INTEND_SIZE`
abbrev pub intend_depth : ℕ
intend_depth = 10

abbrev pub intend_size : ℕ
intend_size = 4

-- `level_debug_init`, as far as the level goes.
abbrev pub level_debug_init : Log
level_debug_init = record { debug_level = pos 0; is_initialized = true }

-- `debug_level > INTEND_DEPTH` and the assignment below it.
abbrev pub clamp : ℤ → ℤ
clamp (pos n) = if ltb intend_depth n then pos intend_depth else pos n
clamp (negsuc n) = negsuc n

-- Where in the buffer of 41 bytes the indentation starts; undefined past its end.
unfoldable pub indentation : ℤ → Exec ℕ
indentation (pos n) = if leb (n * intend_size) 40 then done (40 - n * intend_size) else fault
indentation (negsuc n) = fault

-- `debug_log_print`, with the start of the indentation that it prints.
unfoldable pub debug_log_print : Log → Exec (Log × ℕ)
unfolding indentation
debug_log_print l =
    let l1 = if l.is_initialized then l else level_debug_init in
    let level = clamp l1.debug_level in
    do start ← indentation level; done (record l1 { debug_level = level }, start)

abbrev pub raised : ℤ → ℤ
raised (pos n) = pos (suc n)
raised (negsuc zero) = pos 0
raised (negsuc (suc n)) = negsuc n

abbrev pub lowered : ℤ → ℤ
lowered (pos zero) = negsuc 0
lowered (pos (suc n)) = pos n
lowered (negsuc n) = negsuc (suc n)

-- A line of the log, and the begin and the end of a traced function.
pub data Event : Type 0 where
  message begin_trace end_trace : Event

-- `DEBUG_LOG_MESSAGE`, `DEBUG_LOG_TRACE_BEGIN` and `DEBUG_LOG_TRACE_END`.
unfoldable pub log_event : Event → Log → Exec (Log × ℕ)
unfolding debug_log_print
log_event message l = debug_log_print l
log_event begin_trace l = do
  (l', start) ← debug_log_print l
  done (record l' { debug_level = raised l'.debug_level }, start)
log_event end_trace l = debug_log_print (record l { debug_level = lowered l.debug_level })

-- A run of the program, with the starts of all indentations.
unfoldable pub log_run : List Event → Log → Exec (Log × List ℕ)
unfolding log_event
log_run [] l = done (l, [])
log_run (e ∷ es) l = do
  (l', start) ← log_event e l
  (last, starts) ← log_run es l'
  done (last, start ∷ starts)

-- `secd_errors_arr`; each text stands for the characters of its name.
pub data ErrorMsg : Type 0 where
  msg_result_ok msg_system_error msg_invalid_param msg_invalid_state : ErrorMsg
  msg_security_error msg_not_enough_memory msg_socket_error msg_transport_error : ErrorMsg

abbrev pub secd_errors_arr : List (ErrorCode × ErrorMsg)
secd_errors_arr =
    (ErrorCode.ok, msg_result_ok)
    ∷ (ErrorCode.system_error, msg_system_error)
    ∷ (ErrorCode.invalid_param, msg_invalid_param)
    ∷ (ErrorCode.invalid_state, msg_invalid_state)
    ∷ (ErrorCode.security_error, msg_security_error)
    ∷ (ErrorCode.not_enough_memory, msg_not_enough_memory)
    ∷ (ErrorCode.socket_error, msg_socket_error)
    ∷ (ErrorCode.transport_error, msg_transport_error)
    ∷ []

-- The loop of `get_error_msg` over the rest of the table; a null pointer is none.
unfoldable pub find_error : ErrorCode → List (ErrorCode × ErrorMsg) → Option ErrorMsg
unfolding error_code
find_error result [] = none
find_error result ((code, msg) ∷ rest) =
    if error_code result == error_code code then some msg else find_error result rest

unfoldable pub get_error_msg : ErrorCode → Option ErrorMsg
unfolding find_error
get_error_msg result = find_error result secd_errors_arr

-- `strrchr (p_filename, '/')`, and what follows the character.
unfoldable pub strrchr_next : List ℕ → Option (List ℕ)
strrchr_next [] = none
strrchr_next (c ∷ cs) = elim (strrchr_next cs) [
  | none ↦ if c == b'/' then some cs else none
  | some rest ↦ some rest
]

unfoldable pub get_filename : List ℕ → List ℕ
unfolding strrchr_next
get_filename name = elim (strrchr_next name) [ none ↦ name | some rest ↦ rest ]

-- A line of `debug_log_print_array`, without its tag.
pub record Line : Type 0 where
  pub hex : List ℕ
  pub ascii : List ℕ

-- `p_hex_arr`
abbrev pub hex_digit : ℕ → ℕ
hex_digit n = if ltb n 10 then b'0' + n else b'a' + (n - 10)

abbrev pub hex_of : ℕ → List ℕ
hex_of b = hex_digit (b / 16 % 16) ∷ hex_digit (b % 16) ∷ b' ' ∷ []

abbrev pub ascii_of : ℕ → ℕ
ascii_of b = if leb 32 b then b else b'.'

-- The loop over the bytes, with the two strings so far, and what follows it.
unfoldable pub array_lines : List ℕ → List ℕ → List ℕ → List Line
array_lines [] hex ascii =
    if length hex == 0
    then []
    else record { hex = hex ++ replicate (30 - length hex) b' '; ascii = ascii } ∷ []
array_lines (b ∷ bs) hex ascii =
    if leb 30 (length hex)
    then record { hex = hex; ascii = ascii } ∷ array_lines bs (hex_of b) (ascii_of b ∷ [])
    else array_lines bs (hex ++ hex_of b) (ascii ++ ascii_of b ∷ [])

unfoldable pub debug_log_print_array : List ℕ → List Line
unfolding array_lines
debug_log_print_array bytes = array_lines bytes [] []
