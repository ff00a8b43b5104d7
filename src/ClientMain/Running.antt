-- ===== src/ClientMain/Running.antt =====
-- The order of the calls in every run of the client.
use shp.Base.{
  ℕ, zero, suc, ◌≡◌, inl, inr, refl, sym, subst, ap, ◌∙◌, Bool-cases, true, false, List, [], ◌∷◌,
  ◌++◌, length,
}
use shp.ErrorCodes.{ErrorCode, is_ok}
use shp.Update.{Ended, returned, exited}
use shp.ClientMain.{
  State, reset, process, Call, read_config, process_version, setup_sensors, process_configuration,
  activate_sensors, process_event, usleep, Results, Status, running, stopped, restarted, round, run,
}

-- An exchange of an event and a wait, some number of times.
abbrev pub events : ℕ → List Call
events zero = []
events (suc n) = process_event ∷ usleep ∷ events n

-- The calls before the first event.
abbrev pub start : List Call
start =
    read_config ∷ process_version ∷ setup_sensors ∷ process_configuration ∷ activate_sensors ∷ []

-- The events of all these rounds were sent.
abbrev pub AreSent : List Results → Type 0
AreSent [] = Unit {0}
AreSent (r ∷ rs) = (is_ok r.event ≡ true) × AreSent rs

-- The rounds with an event each: all events were sent and the loop still runs; or the events of some
-- first rounds were sent, that of the next was not, and the loop has ended there with its result.
pub data Processes (rs : List Results) : List Call × Status → Type 0 where
  all_sent : AreSent rs → Processes rs (events (length rs), running process)
  one_failed :
      (sent : List Results) (r : Results) (later : List Results)
      → rs ≡ sent ++ r ∷ later
      → AreSent sent
      → is_ok r.event ≡ false
      → Processes rs (events (suc (length sent)), stopped r.event)

Processes-next :
    (r : Results) (rs : List Results) (result : List Call × Status)
    → is_ok r.event ≡ true
    → Processes rs result
    → Processes (r ∷ rs) (process_event ∷ usleep ∷ result.0, result.1)
Processes-next r rs _ success (all_sent sent) = all_sent (success, sent)
Processes-next r rs _ success (one_failed front last later e sent failed) =
    one_failed (r ∷ front) last later (ap (λ l. r ∷ l) e) (success, sent) failed

run_process : (rs : List Results) → Processes rs (run process rs)
unfolding run round
run_process [] = all_sent tt
run_process (r ∷ rs) = elim (Bool-cases (is_ok r.event)) [
  | inl success ↦
      let same : run process (r ∷ rs)
          ≡ (process_event ∷ usleep ∷ (run process rs).0, (run process rs).1) =
        rw (run, success) in
      subst (Processes (r ∷ rs)) (sym same)
        (Processes-next r rs (run process rs) success (run_process rs))
  | inr failure ↦
      let same : run process (r ∷ rs) ≡ (process_event ∷ usleep ∷ [], stopped r.event) =
        rw (run, failure) in
      subst (Processes (r ∷ rs)) (sym same) (one_failed [] r rs refl tt failure)
]

-- How a run ends, by what the functions return in its first round: at the first of the calls that
-- fails, or at an update, or with the events.
pub data Runs : List Results → List Call × Status → Type 0 where
  not_begun : Runs [] ([], running reset)
  unread :
      {r : Results} {rs : List Results}
      → is_ok r.read ≡ false
      → Runs (r ∷ rs) (read_config ∷ [], stopped r.read)
  updated :
      {r : Results} {rs : List Results}
      → is_ok r.read ≡ true
      → r.updated ≡ exited
      → Runs (r ∷ rs) (read_config ∷ process_version ∷ [], restarted)
  not_updated :
      {r : Results} {rs : List Results}
      → (code : ErrorCode) → is_ok r.read ≡ true
      → r.updated ≡ returned code
      → is_ok code ≡ false
      → Runs (r ∷ rs) (read_config ∷ process_version ∷ [], stopped code)
  not_announced :
      {r : Results} {rs : List Results}
      → (code : ErrorCode) → is_ok r.read ≡ true
      → r.updated ≡ returned code
      → is_ok code ≡ true
      → is_ok r.configured ≡ false
      → Runs (r ∷ rs) (
        read_config ∷ process_version ∷ setup_sensors ∷ process_configuration ∷ [],
        stopped r.configured,
      )
  started :
      {r : Results} {rs : List Results}
      → (code : ErrorCode) (result : List Call × Status) → is_ok r.read ≡ true
      → r.updated ≡ returned code
      → is_ok code ≡ true
      → is_ok r.configured ≡ true
      → Processes (r ∷ rs) result
      → Runs (r ∷ rs) (start ++ result.0, result.1)

run_stopped :
    (state : State) (r : Results) (rs : List Results) (calls : List Call) (code : ErrorCode)
    → round state r ≡ (calls, stopped code)
    → run state (r ∷ rs) ≡ (calls, stopped code)
unfolding run
run_stopped state r rs calls code e =
    rw (run, e) (ap (λ (t : List Call × Status). (t.0, stopped code)) e)

run_restarted :
    (state : State) (r : Results) (rs : List Results) (calls : List Call)
    → round state r ≡ (calls, restarted)
    → run state (r ∷ rs) ≡ (calls, restarted)
unfolding run
run_restarted state r rs calls e = rw (run, e) (ap (λ (t : List Call × Status). (t.0, restarted)) e)

run_running :
    (state next : State) (r : Results) (rs : List Results) (calls : List Call)
    → round state r ≡ (calls, running next)
    → run state (r ∷ rs) ≡ (calls ++ (run next rs).0, (run next rs).1)
unfolding run
run_running state next r rs calls e =
    rw (run, e) (ap (λ (t : List Call × Status). (t.0 ++ (run next rs).0, (run next rs).1)) e)

-- The first round with success up to the first event is a round in the last state behind the first
-- calls.
module _ (r : Results) (code : ErrorCode) (reads : is_ok r.read ≡ true)
    (updates : r.updated ≡ returned code) (good : is_ok code ≡ true) where
  first_event :
      (result : Status)
      → is_ok r.configured ≡ true
      → (round process r).1 ≡ result
      → round reset r ≡ (start ++ events 1, result)
  unfolding round
  first_event result configures e = rw (reads, updates, good, configures, e)

  first_configuration :
      is_ok r.configured ≡ false
      → round reset r ≡ (
        read_config ∷ process_version ∷ setup_sensors ∷ process_configuration ∷ [],
        stopped r.configured,
      )
  unfolding round
  first_configuration bad = rw (reads, updates, good, bad)

  first_round :
      (rs : List Results)
      → is_ok r.configured ≡ true
      → run reset (r ∷ rs) ≡ (start ++ (run process (r ∷ rs)).0, (run process (r ∷ rs)).1)
  unfolding round
  first_round rs configures = elim (Bool-cases (is_ok r.event)) [
    | inl success ↦
        run_running reset process r rs (start ++ events 1)
          (first_event (running process) configures (rw success))
        ∙ ap (λ (t : List Call × Status). (start ++ t.0, t.1))
            (sym (run_running process process r rs (events 1) (rw success)))
    | inr failure ↦
        run_stopped reset r rs (start ++ events 1) r.event
          (first_event (stopped r.event) configures (rw failure))
        ∙ ap (λ (t : List Call × Status). (start ++ t.0, t.1))
            (sym (run_stopped process r rs (events 1) r.event (rw failure)))
  ]

-- Every run of the client reads its settings, asks for a version, makes its sensors, announces them
-- and activates them, each once and in this order, and then only exchanges one event and waits, again
-- and again. It ends with the result of the first of these calls that fails, and there: where the
-- settings are not read, the version is not answered, the announcement fails, or one event is not
-- sent; an update ends it before the sensors are made; and otherwise it goes on.
pub run-Runs : (rs : List Results) → Runs rs (run reset rs)
unfolding run round
run-Runs [] = not_begun
run-Runs (r ∷ rs) = elim (Bool-cases (is_ok r.read)) [
  | inr bad ↦
      subst (Runs (r ∷ rs)) (sym (run_stopped reset r rs (read_config ∷ []) r.read (rw bad)))
        (unread bad)
  | inl reads ↦ on_update r.updated refl reads
]
  where
    on_update :
        (ended : Ended)
        → r.updated ≡ ended
        → is_ok r.read ≡ true
        → Runs (r ∷ rs) (run reset (r ∷ rs))
    on_update exited e reads =
        subst (Runs (r ∷ rs))
          (sym (run_restarted reset r rs (read_config ∷ process_version ∷ []) (rw (reads, e))))
          (updated reads e)
    on_update (returned code) e reads = elim (Bool-cases (is_ok code)) [
      | inr bad ↦
          subst (Runs (r ∷ rs))
            (sym (
              run_stopped reset r rs (read_config ∷ process_version ∷ []) code
                (rw (reads, e, bad))))
            (not_updated code reads e bad)
      | inl good ↦ elim (Bool-cases (is_ok r.configured)) [
        | inr bad ↦
            subst (Runs (r ∷ rs))
              (sym (
                run_stopped reset r rs
                  (read_config ∷ process_version ∷ setup_sensors ∷ process_configuration ∷ [])
                  r.configured (first_configuration r code reads e good bad)))
              (not_announced code reads e good bad)
        | inl configures ↦
            subst (Runs (r ∷ rs)) (sym (first_round r code reads e good rs configures))
              (started code (run process (r ∷ rs)) reads e good configures (run_process (r ∷ rs)))
      ]
    ]
