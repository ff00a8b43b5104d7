-- ===== src/ClientMain.antt =====
-- src/client_main.cpp: the states of the client. What the functions that it calls return is an input
-- of each round; the log is left out.
pub mod Running
mod Tests
use shp.Base.{ℕ, Bool, true, false, List, [], ◌∷◌, ◌++◌, if◌then◌else◌}
use shp.ErrorCodes.{ErrorCode, is_ok, ok}
use shp.Update.{Ended, returned, exited}

-- `current_state`
pub data State : Type 0 where
  reset version config ready process idle : State

-- The calls with an effect of their own.
pub data Call : Type 0 where
  read_config process_version setup_sensors process_configuration activate_sensors : Call
  process_event usleep : Call

-- What the functions return in one round of the loop.
pub record Results : Type 0 where
  pub read : ErrorCode
  pub updated : Ended
  pub configured : ErrorCode
  pub event : ErrorCode

-- The loop goes on in a state, or ends with a result, or the process has ended for an update.
pub data Status : Type 0 where
  running : State → Status
  stopped : ErrorCode → Status
  restarted : Status

-- The end of a round: `while (result == RESULT_OK)`.
abbrev pub ended_with : ErrorCode → State → Status
ended_with result state = if is_ok result then running state else stopped result

-- The cases fall through from one state to the next, except after a failure.
unfoldable pub from_idle : ErrorCode → State → List Call × Status
from_idle result state = (usleep ∷ [], ended_with result state)

unfoldable pub from_process : Results → State → List Call × Status
unfolding from_idle
from_process r state =
    let (calls, status) = from_idle r.event state in (process_event ∷ calls, status)

unfoldable pub from_ready : Results → List Call × Status
unfolding from_process
from_ready r = let (calls, status) = from_process r process in (activate_sensors ∷ calls, status)

unfoldable pub from_config : Results → List Call × Status
unfolding from_ready
from_config r =
    let (calls, status) = from_ready r in
    if is_ok r.configured
    then (setup_sensors ∷ process_configuration ∷ calls, status)
    else (setup_sensors ∷ process_configuration ∷ [], stopped r.configured)

unfoldable pub from_version : Results → List Call × Status
unfolding from_config
from_version r =
    let (calls, status) = from_config r in
    elim r.updated [
      | exited ↦ (process_version ∷ [], restarted)
      | returned result ↦
          if is_ok result
          then (process_version ∷ calls, status)
          else (process_version ∷ [], stopped result)
    ]

unfoldable pub from_reset : Results → List Call × Status
unfolding from_version
from_reset r =
    let (calls, status) = from_version r in
    if is_ok r.read then (read_config ∷ calls, status) else (read_config ∷ [], stopped r.read)

-- One round of the loop.
unfoldable pub round : State → Results → List Call × Status
unfolding from_reset from_version from_config from_ready from_process from_idle
round reset r = from_reset r
round version r = from_version r
round config r = from_config r
round ready r = from_ready r
round process r = from_process r process
round idle r = from_idle ok idle

-- The rounds of the loop, with all calls, as long as it goes on.
unfoldable pub run : State → List Results → List Call × Status
unfolding round
run state [] = ([], running state)
run state (r ∷ rs) =
    let next = round state r in
    elim next.1 [
      | running state' ↦ let rest = run state' rs in (next.0 ++ rest.0, rest.1)
      | stopped result ↦ (next.0, stopped result)
      | restarted ↦ (next.0, restarted)
    ]
