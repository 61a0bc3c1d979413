-- ===== src/Run/Worker/Settling.antt =====
-- apps/server/src/run/worker.ts: the state in which `processNext` leaves a run.
use formation_chat_core.Prelude.{
  ℕ, ◌≡◌, Bool, true, false, ◌||◌, Option, none, some, List, [], ◌∷◌, arith, ok, err, Option-cases,
  Result-cases, Bool-cases, inl, inr, ◌==◌, All, All-update_anew, find_first, update_where,
  count_where,
}
use formation_chat_core.Database.{Db}
use formation_chat_core.Database.Rows.{
  EventBody, contact_requested, run_completed, run_failed, Run, RunErrorCode,
}
use formation_chat_core.Event.Service.{World, append_event}
use formation_chat_core.Run.{
  WorkerOptions, WorkerError, has_id, claim, cancel, cancel_run, fail, fail_run, complete,
  complete_run, wait_for_input, wait_run, is_running_run, is_cancellation_requested,
}
use formation_chat_core.Run.Context.{ConnectorRunRequest, RunContext, load_context}
use formation_chat_core.Run.Materialize.{materialize}
use formation_chat_core.Run.Worker.{
  Yield, End, Script, Outcome, settled, rejected, recover, conclude, advance, consume, execute,
  process_next, with_db, fits, take_event,
}

abbrev pub IsAtRest : ℕ → Db → Type 0
IsAtRest run_id db = All (λ row. is_running_run run_id row ≡ false) db.agent_runs

-- The run is not running any more; or the call has thrown, which it does for a run with no row only.
abbrev pub IsEnded : ℕ → Outcome → Type 0
IsEnded run_id (settled world) = IsAtRest run_id world.db
IsEnded run_id (rejected world) = find_first (has_id run_id) world.db.agent_runs ≡ none

cancel-IsAtRest : (run : Run) (now : ℕ) (db : Db) → IsAtRest run.run_id (cancel run now db)
unfolding cancel cancel_run
cancel-IsAtRest run now db =
    All-update_anew _ (has_id run.run_id) (cancel_run now) db.agent_runs
      (λ row e. ground (arith, e)) (λ row e. ground (arith, e))

fail-IsAtRest :
    (run_id : ℕ) (code : RunErrorCode) (now : ℕ) (db : Db)
    → IsAtRest run_id (fail run_id code now db)
unfolding fail fail_run
fail-IsAtRest run_id code now db =
    All-update_anew _ (has_id run_id) (fail_run code now) db.agent_runs (λ row e. ground (arith, e))
      (λ row e. ground (arith, e))

complete-IsAtRest : (run_id now : ℕ) (db : Db) → IsAtRest run_id (complete run_id now db)
unfolding complete complete_run
complete-IsAtRest run_id now db =
    All-update_anew _ (has_id run_id) (complete_run now) db.agent_runs (λ row e. ground (arith, e))
      (λ row e. ground (arith, e))

wait_for_input-IsAtRest :
    (run_id now : ℕ) (db after : Db)
    → wait_for_input run_id now db ≡ ok after
    → IsAtRest run_id after
unfolding wait_for_input wait_run
wait_for_input-IsAtRest run_id now db after h =
    elim (Bool-cases (count_where (is_running_run run_id) db.agent_runs == 1)) [
      | inl e ↦
          let waiting : IsAtRest run_id (record db {
            agent_runs = update_where (is_running_run run_id) (wait_run now) db.agent_runs;
          }) =
            All-update_anew _ (is_running_run run_id) (wait_run now) db.agent_runs
              (λ row e. ground (arith, e)) (λ row e. e) in
          let same : (record db {
            agent_runs = update_where (is_running_run run_id) (wait_run now) db.agent_runs;
          })
              ≡ after =
            ground (arith, h) in
          rw (← same) waiting
      | inr e ↦ ground (arith, h)
    ]

missing_run :
    (run_id : ℕ) (db : Db) (e : WorkerError)
    → is_cancellation_requested run_id db ≡ err e
    → find_first (has_id run_id) db.agent_runs ≡ none
unfolding is_cancellation_requested
missing_run run_id db e h = elim (Option-cases (find_first (has_id run_id) db.agent_runs)) [
  | inl missing ↦ missing
  | inr (row, found) ↦ ground (arith, found, h)
]

module _ (retention_max_events : ℕ) (run : Run) (now : ℕ) where
  recover-IsEnded :
      (aborted : Bool) (world : World)
      → IsEnded run.run_id (recover retention_max_events run now aborted world)
  unfolding recover
  recover-IsEnded true world = cancel-IsAtRest run now world.db
  recover-IsEnded false world =
      elim (Result-cases (is_cancellation_requested run.run_id world.db)) [
        | inr (e, h) ↦ rw (h, recover) (missing_run run.run_id world.db e h)
        | inl (true, h) ↦ rw (h, recover) (cancel-IsAtRest run now world.db)
        | inl (false, h) ↦
            rw (h, recover)
              (fail-IsAtRest run.run_id RunErrorCode.connector_execution_failed now world.db)
      ]

  conclude-IsEnded :
      (ending : End) (world : World)
      → IsEnded run.run_id (conclude retention_max_events run now ending world)
  unfolding conclude
  conclude-IsEnded ending world =
      let later = with_db world (ending.end_meanwhile world.db) in
      elim (Bool-cases ending.throws) [
        | inl e ↦ rw (e, conclude) (recover-IsEnded ending.end_aborted later)
        | inr e ↦ elim (Bool-cases ending.end_aborted) [
          | inl a ↦ rw (e, conclude, a) (cancel-IsAtRest run now later.db)
          | inr a ↦ elim (Result-cases (is_cancellation_requested run.run_id later.db)) [
            | inr (x, h) ↦ rw (e, conclude, a, h) (recover-IsEnded ending.end_aborted later)
            | inl (true, h) ↦ rw (e, conclude, a, h) (cancel-IsAtRest run now later.db)
            | inl (false, h) ↦
                rw (e, conclude, a, h)
                  (fail-IsAtRest run.run_id RunErrorCode.connector_incomplete now later.db)
          ]
        ]
      ]

  advance-IsEnded :
      (body : EventBody) (aborted : Bool) (world : World) (rest : Outcome)
      → IsEnded run.run_id rest
      → IsEnded run.run_id (advance retention_max_events run now body aborted world rest)
  unfolding advance
  advance-IsEnded (contact_requested request) aborted world rest h =
      elim (Result-cases (wait_for_input run.run_id now world.db)) [
        | inr (e, x) ↦ rw (x, advance) (recover-IsEnded aborted world)
        | inl (db, x) ↦ rw (x, advance) (wait_for_input-IsAtRest run.run_id now world.db db x)
      ]
  advance-IsEnded run_completed aborted world rest h = complete-IsAtRest run.run_id now world.db
  advance-IsEnded (run_failed code) aborted world rest h = fail-IsAtRest run.run_id _ now world.db
  advance-IsEnded _ aborted world rest h = h

  take_event-IsEnded :
      (context : RunContext) (y : Yield) (later : World) (rest : World → Outcome)
      → ((world : World) → IsEnded run.run_id (rest world))
      → IsEnded run.run_id (take_event retention_max_events run now context y later rest)
  unfolding take_event
  take_event-IsEnded context y later rest h =
      elim (Option-cases (fits retention_max_events run now y.event)) [
        | inl x ↦ rw (x, take_event) (fail-IsAtRest run.run_id _ now later.db)
        | inr (event, x) ↦
            elim (Result-cases
              (materialize run context.assistant_participant_id event.body now later.db)) [
                | inr (e, m) ↦ rw (x, take_event, m) (recover-IsEnded y.aborted_later later)
                | inl (db, m) ↦
                    elim (Result-cases (
                      append_event retention_max_events context.scope event y.event_id y.occurred_at
                        (with_db later db))) [
                          | inr (e, st) ↦
                              rw (x, take_event, m, st)
                                (recover-IsEnded y.aborted_later (with_db later db))
                          | inl (stored, st) ↦
                              rw (x, take_event, m, st)
                                (advance-IsEnded event.body y.aborted_later stored.0 (rest stored.0)
                                  (h stored.0))
                        ]
              ]
      ]

  consume-IsEnded :
      (context : RunContext) (yields : List Yield) (ending : End) (world : World)
      → IsEnded run.run_id (consume retention_max_events run now context yields ending world)
  unfolding consume
  consume-IsEnded context [] ending world = conclude-IsEnded ending world
  consume-IsEnded context (y ∷ ys) ending world =
      let later = with_db world (y.meanwhile world.db) in
      elim (Result-cases (is_cancellation_requested run.run_id later.db)) [
        | inr (e, x) ↦ rw (x, consume) (recover-IsEnded y.aborted_later later)
        | inl (requested, x) ↦ elim (Bool-cases (y.aborted || requested)) [
          | inl a ↦ rw (x, consume, a) (cancel-IsAtRest run now later.db)
          | inr a ↦
              rw (x, consume, a)
                (take_event-IsEnded context y later _ (consume-IsEnded context ys ending))
        ]
      ]

  execute-IsEnded :
      (connector : ConnectorRunRequest → Script) (aborted : Bool) (world : World)
      → IsEnded run.run_id (execute retention_max_events run now connector aborted world)
  unfolding execute
  execute-IsEnded connector aborted world = elim (Result-cases (load_context run world.db)) [
    | inr (e, x) ↦ rw (x, execute) (recover-IsEnded aborted world)
    | inl (context, x) ↦ rw (x, execute) (consume-IsEnded context _ _ world)
  ]

-- When a worker has processed a run, whatever its connector yields or throws, whatever others write
-- meanwhile and whenever the signal is aborted, the run is not left running: the call returns and no
-- row of the run is `running`, or the call throws, and then the run has no row.
pub process_next-IsEnded :
    (options : WorkerOptions) (retention_max_events : ℕ) (locked : ℕ → Bool)
    (resolve_connector : ℕ → Option (ConnectorRunRequest → Script)) (aborted : Bool) (now : ℕ)
    (world : World) (run : Run) (outcome : Outcome)
    → process_next options retention_max_events locked resolve_connector aborted now world
      ≡ ok (some (run, outcome))
    → IsEnded run.run_id outcome
unfolding process_next
process_next-IsEnded options retention_max_events locked resolve_connector aborted now world run
      outcome h =
    elim (Result-cases (claim options locked now world.db)) [
      | inr (e, x) ↦ ground (arith, x, h)
      | inl (none, x) ↦ ground (arith, x, h)
      | inl (some (db, r), x) ↦ elim (Option-cases (resolve_connector r.agent_ref)) [
        | inl m ↦
            let given : ok (
                  some (
                    r,
                    settled (with_db world (fail r.run_id RunErrorCode.connector_not_found now db)),
                  ))
                ≡ ok (some (run, outcome)) =
              rw (x, process_next, m) at h in
            let same : r ≡ run = cc in
            let ends : settled
                  (with_db world (fail r.run_id RunErrorCode.connector_not_found now db))
                ≡ outcome =
              cc in
            rw (← same, ← ends) (fail-IsAtRest r.run_id RunErrorCode.connector_not_found now db)
        | inr (connector, m) ↦
            let given : ok (
                  some (r, execute retention_max_events r now connector aborted (with_db world db)))
                ≡ ok (some (run, outcome)) =
              rw (x, process_next, m) at h in
            let same : r ≡ run = cc in
            let ends : execute retention_max_events r now connector aborted (with_db world db)
                ≡ outcome =
              cc in
            rw (← same, ← ends)
              (execute-IsEnded retention_max_events r now connector aborted (with_db world db))
      ]
    ]
