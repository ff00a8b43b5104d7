-- ===== src/Debug/Tests.antt =====
-- The theorems at concrete inputs.
use shp.Base.{[], ◌∷◌}
use shp.Debug.{debug_log_print_array}
use shp.Debug.Rows.{Rows, debug_log_print_array-Rows}

debug_log_print_array-Rows_example : Rows (1 ∷ 200 ∷ []) (debug_log_print_array (1 ∷ 200 ∷ []))
debug_log_print_array-Rows_example = debug_log_print_array-Rows (1 ∷ 200 ∷ [])
