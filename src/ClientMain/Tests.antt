-- ===== src/ClientMain/Tests.antt =====
-- The theorem at a concrete input.
use shp.Base.{List, [], ◌∷◌}
use shp.ErrorCodes.{ok, socket_error}
use shp.Update.{returned}
use shp.ClientMain.{Results, reset, run}
use shp.ClientMain.Running.{Runs, run-Runs}

-- The second event fails.
abbrev two_rounds : List Results
two_rounds =
    record { read = ok; updated = returned ok; configured = ok; event = ok }
    ∷ record { read = ok; updated = returned ok; configured = ok; event = socket_error }
    ∷ []

run-Runs_example : Runs two_rounds (run reset two_rounds)
run-Runs_example = run-Runs two_rounds
