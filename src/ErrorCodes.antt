-- ===== src/ErrorCodes.antt =====
-- src/error_codes.hpp: the result codes of every operation.
use shp.Base.{ℕ, ◌≡◌, Bool, true, false, arith}

pub data ErrorCode : Type 0 where
  ok system_error invalid_param invalid_state : ErrorCode
  security_error not_enough_memory socket_error transport_error : ErrorCode

-- The numbers of `error_code_t`.
unfoldable pub error_code : ErrorCode → ℕ
error_code ok = 0
error_code system_error = 1
error_code invalid_param = 2
error_code invalid_state = 3
error_code security_error = 4
error_code not_enough_memory = 5
error_code socket_error = 6
error_code transport_error = 7

-- The test `result == RESULT_OK`.
abbrev pub is_ok : ErrorCode → Bool
is_ok ok = true
is_ok _ = false

pub eq_of_is_ok : (r : ErrorCode) → is_ok r ≡ true → r ≡ ok
eq_of_is_ok r h = ground arith
