-- ===== src/Queue/Tests.antt =====
-- Concrete runs, and the theorems at concrete inputs.
use shp.Base.{ℕ, ◌≡◌, refl, List, [], ◌∷◌, ◌++◌, arith}
use shp.Queue.{Queue, peek}
use shp.Queue.Order.{IsValid}
use shp.Queue.Fifo.{contents, Serves, peek-Serves}
use shp.Queue.Wrapped.{Within, run-add_wrapped}
use shp.Queue.Threads.{Op, Shared, step, run, added, run-flow}

abbrev two_waiting : Queue ℕ
two_waiting = record { message_map = (3, 30) ∷ (4, 40) ∷ []; message_id = 4 }

two_waiting-IsValid : IsValid two_waiting
two_waiting-IsValid = omega arith

peek-Serves_example : Serves two_waiting (contents two_waiting)
peek-Serves_example = peek-Serves two_waiting two_waiting-IsValid

abbrev last_id : Queue ℕ
last_id = record { message_map = (4_294_967_295, 40) ∷ []; message_id = 4_294_967_295 }

abbrev shared : Shared ℕ
shared = record { queue = two_waiting; held = 0; removed = [] }

abbrev interleaving : List (Op ℕ)
interleaving = Op.peeks ∷ Op.adds 50 ∷ Op.removes ∷ Op.removes ∷ Op.peeks ∷ Op.removes ∷ []

run-flow_example :
    (run interleaving shared).removed ++ contents (run interleaving shared).queue
    ≡ ([] ++ contents two_waiting) ++ added interleaving
run-flow_example =
    run-flow interleaving shared
      (record { valid = two_waiting-IsValid; issued = omega arith; held_first = omega arith })
      (omega arith)

-- One message more after the wrap, and two rounds of the consumer.
abbrev after_wrap : List (Op ℕ)
after_wrap = Op.peeks ∷ Op.removes ∷ Op.adds 60 ∷ Op.peeks ∷ Op.removes ∷ []

abbrev full_ids : Shared ℕ
full_ids = record { queue = last_id; held = 0; removed = [] }

run-add_wrapped_example :
    let s' = run after_wrap (step (Op.adds 50) full_ids) in
    ((peek s'.queue).1.id ≡ 0)
    × (s'.removed ≡ [])
    × ((others : List ℕ) × (contents s'.queue ≡ 50 ∷ others) × Within (contents last_id) others)
run-add_wrapped_example = run-add_wrapped 50 full_ids after_wrap (omega arith) (omega arith) refl
