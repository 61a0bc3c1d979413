-- ===== src/Run/Worker.antt =====
-- apps/server/src/run/worker.ts, `processNext`: the run that a worker claims, the events of its
-- connector one by one, and the way in which the run ends.
-- What others do to the database before an event is taken up, the heartbeat of the lease among them,
-- is a function that comes with the event, as does the state of the abort signal. A stream of events
-- is finite; on one that never ends the code waits for ever.
pub mod Settling
use formation_chat_core.Prelude.{
  ℕ, Bool, true, false, not, ◌||◌, Option, none, some, List, [], ◌∷◌, Result, ok, err,
  if◌then◌else◌,
}
use formation_chat_core.Database.{Db}
use formation_chat_core.Database.Rows.{
  EventBody, contact_requested, run_completed, run_failed, Run, RunErrorCode, reported,
}
use formation_chat_core.Event.{ConnectorEvent}
use formation_chat_core.Event.Service.{World, append_event}
use formation_chat_core.Run.{
  WorkerOptions, WorkerError, claim, cancel, fail, complete, wait_for_input,
  is_cancellation_requested,
}
use formation_chat_core.Run.Context.{ConnectorRunRequest, RunContext, load_context, validate_event}
use formation_chat_core.Run.Materialize.{materialize}

-- What the connector yields: an event, or a value that the schema refuses.
pub record Yield : Type 0 where
  pub event : Option ConnectorEvent
  pub event_id : ℕ
  pub occurred_at : ℕ
  pub meanwhile : Db → Db
  -- The abort signal when the event is taken up, and when its handling has thrown.
  pub aborted : Bool
  pub aborted_later : Bool

-- The end of the stream: it is done, or it throws.
pub record End : Type 0 where
  pub throws : Bool
  pub end_meanwhile : Db → Db
  pub end_aborted : Bool

pub record Script : Type 0 where
  pub yields : List Yield
  pub ending : End

-- `processNext` has returned, or it has thrown.
pub data Outcome : Type 0 where
  settled : World → Outcome
  rejected : World → Outcome

abbrev pub with_db : World → Db → World
with_db world db = record world { db = db }

module _ (retention_max_events : ℕ) (run : Run) (now : ℕ) where
  -- The `catch` clause.
  unfoldable pub recover : (aborted : Bool) → World → Outcome
  recover true world = settled (with_db world (cancel run now world.db))
  recover false world = elim (is_cancellation_requested run.run_id world.db) [
    | err _ ↦ rejected world
    | ok true ↦ settled (with_db world (cancel run now world.db))
    | ok false ↦
        settled
          (with_db world (fail run.run_id RunErrorCode.connector_execution_failed now world.db))
  ]

  -- Behind the loop. A read that throws here throws again in the `catch` clause.
  unfoldable pub conclude : End → World → Outcome
  conclude ending world =
      let later = with_db world (ending.end_meanwhile world.db) in
      if ending.throws
      then recover ending.end_aborted later
      else if ending.end_aborted
      then settled (with_db later (cancel run now later.db))
      else elim (is_cancellation_requested run.run_id later.db) [
        | err _ ↦ recover ending.end_aborted later
        | ok true ↦ settled (with_db later (cancel run now later.db))
        | ok false ↦
            settled (with_db later (fail run.run_id RunErrorCode.connector_incomplete now later.db))
      ]

  -- What an event does once it is stored: the run ends here, or the loop goes on with `rest`.
  unfoldable pub advance : EventBody → (aborted : Bool) → World → Outcome → Outcome
  advance (contact_requested _) aborted world rest = elim (wait_for_input run.run_id now world.db) [
    | err _ ↦ recover aborted world
    | ok db ↦ settled (with_db world db)
  ]
  advance run_completed aborted world rest =
      settled (with_db world (complete run.run_id now world.db))
  advance (run_failed code) aborted world rest =
      settled (with_db world (fail run.run_id (reported code) now world.db))
  advance _ aborted world rest = rest

  abbrev fits : Option ConnectorEvent → Option ConnectorEvent
  fits none = none
  fits (some event) = if validate_event event run then some event else none

  -- The handling of an event that no cancellation stops; `rest` is the loop behind it.
  unfoldable pub take_event :
      (context : RunContext) → Yield → World → (rest : World → Outcome) → Outcome
  take_event context y later rest = elim (fits y.event) [
    | none ↦
        settled (with_db later (fail run.run_id RunErrorCode.invalid_connector_event now later.db))
    | some event ↦ elim (materialize run context.assistant_participant_id event.body now later.db) [
      | err _ ↦ recover y.aborted_later later
      | ok db ↦
          elim (append_event retention_max_events context.scope event y.event_id y.occurred_at
            (with_db later db)) [
              | err _ ↦ recover y.aborted_later (with_db later db)
              | ok stored ↦ advance event.body y.aborted_later stored.0 (rest stored.0)
            ]
    ]
  ]

  -- The loop. `connector.cancel`, which a requested cancellation calls, changes no table, and when it
  -- throws the `catch` clause cancels the run, for the signal is aborted.
  unfoldable pub consume : (context : RunContext) → List Yield → End → World → Outcome
  consume context [] ending world = conclude ending world
  consume context (y ∷ ys) ending world =
      let later = with_db world (y.meanwhile world.db) in
      elim (is_cancellation_requested run.run_id later.db) [
        | err _ ↦ recover y.aborted_later later
        | ok requested ↦
            if y.aborted || requested
            then settled (with_db later (cancel run now later.db))
            else take_event context y later (λ world'. consume context ys ending world')
      ]

  -- The run under its connector, from the claim on.
  unfoldable pub execute :
      (connector : ConnectorRunRequest → Script) (aborted : Bool) → World → Outcome
  execute connector aborted world = elim (load_context run world.db) [
    | err _ ↦ recover aborted world
    | ok context ↦
        let script = connector context.request in consume context script.yields script.ending world
  ]

-- The answer of `processNext`: nothing was due, or the outcome of the run that was.
unfoldable pub process_next :
    WorkerOptions
    → (retention_max_events : ℕ) → (locked : ℕ → Bool)
    → (resolve_connector : ℕ → Option (ConnectorRunRequest → Script)) → (aborted : Bool) → (now : ℕ)
    → World
    → Result WorkerError (Option (Run × Outcome))
process_next options retention_max_events locked resolve_connector aborted now world =
    elim (claim options locked now world.db) [
      | err e ↦ err e
      | ok none ↦ ok none
      | ok (some (db, run)) ↦ elim (resolve_connector run.agent_ref) [
        | none ↦ ok (
            some (
              run,
              settled (with_db world (fail run.run_id RunErrorCode.connector_not_found now db)),
            ))
        | some connector ↦
            ok (
              some (run, execute retention_max_events run now connector aborted (with_db world db)))
      ]
    ]
