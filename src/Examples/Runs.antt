-- ===== src/Examples/Runs.antt =====
-- The theorems on runs at concrete inputs.
use formation_chat_core.Prelude.{
  ℕ, ◌≡◌, ◌≢◌, refl, Bool, true, false, ◌&&◌, Option, none, some, [], ◌∷◌, ok, arith, All,
  find_first, first_by, update_where, select, order_by, insert_row, head?, any,
}
use formation_chat_core.Database.{Db}
use formation_chat_core.Database.Rows.{
  Run, RunStatus, TriggerType, CancellationStatus, handoff_requested, contact_requested,
  ContactRequest,
}
use formation_chat_core.Database.Statements.{owns, is_in, find_command, is_command, command}
use formation_chat_core.Run.{WorkerOptions, has_id, is_claimable, by_availability, claim_run, claim}
use formation_chat_core.Run.Claim.{RunsKeyed, claim_exclusive}
use formation_chat_core.Run.Cancel.{
  CancelRunResponse, cancel_run_of, cancel_new, cancel_transaction, is_run_of, mark_run,
  store_cancel, cancellation_of,
}
use formation_chat_core.Run.Cancel.Requests.{cancel_new-claimable, is_stopping}
use formation_chat_core.Run.Materialize.{
  materialize, request_handoff, request_contact, insert_input, requested_handoff, pending_input,
}
use formation_chat_core.Run.Repetition.{materialize-again, retimed}
use formation_chat_core.Examples.Data.{value_of, some_or, scope, empty_db}

abbrev queued : Run
queued = record {
  run_id = 31;
  tenant_id = 1;
  site_id = 2;
  conversation_id = 7;
  trigger_message_id = 30;
  trigger_type = TriggerType.message;
  assistant_message_id = 32;
  agent_ref = 9;
  status = RunStatus.queued;
  attempt = 0;
  available_at = 1000;
  claimed_at = none;
  lease_expires_at = none;
  cancel_requested_at = none;
  error_code = none;
  created_at = 1000;
  updated_at = 1000;
  completed_at = none;
}

-- A run that was claimed for the last time, whose lease is over.
abbrev used : Run
used = record queued {
  run_id = 41;
  assistant_message_id = 42;
  status = RunStatus.running;
  attempt = 3;
  lease_expires_at = some 900;
}

abbrev next_queued : Run
next_queued = record queued { run_id = 51; assistant_message_id = 52; available_at = 1001 }

abbrev runs_db : Db
runs_db = record empty_db { agent_runs = next_queued ∷ used ∷ queued ∷ [] }

abbrev options : WorkerOptions
options = record { lease_ms = 500; max_attempts = 3 }

abbrev unlocked : ℕ → Bool
unlocked id = false

runs_keyed : RunsKeyed runs_db
runs_keyed = (ground arith, (ground arith, (tt, tt)))

abbrev claimed : Db × Run
claimed = some_or (value_of (claim options unlocked 2000 runs_db) none) (runs_db, queued)

claimed_ok : claim options unlocked 2000 runs_db ≡ ok (some (claimed.0, claimed.1))
unfolding claim first_by head? is_claimable select order_by insert_row by_availability update_where
    find_first claim_run
claimed_ok = refl

abbrev claimed_next : Db × Run
claimed_next = some_or (value_of (claim options unlocked 2100 claimed.0) none) (runs_db, queued)

claimed_next_ok : claim options unlocked 2100 claimed.0 ≡ ok (some (claimed_next.0, claimed_next.1))
unfolding claim first_by head? is_claimable select order_by insert_row by_availability update_where
    find_first claim_run
claimed_next_ok = refl

claim_exclusive_example : claimed_next.1.run_id ≢ claimed.1.run_id
claim_exclusive_example =
    claim_exclusive options unlocked unlocked 2000 2100 runs_db claimed.0 claimed_next.0 claimed.1
      claimed_next.1 runs_keyed claimed_ok (omega arith) claimed_next_ok

abbrev running_db : Db
running_db = record empty_db { agent_runs = record queued { status = RunStatus.running } ∷ [] }

abbrev no_answer : CancelRunResponse
no_answer = record {
  conversation_id = 0;
  run_id = 0;
  cancellation_status = CancellationStatus.already_finished;
}

abbrev stopped : Db × CancelRunResponse × Option ℕ
stopped = value_of (cancel_run_of scope 7 5 1 2000 running_db) (running_db, no_answer, none)

stopped_ok : cancel_run_of scope 7 5 1 2000 running_db ≡ ok (stopped.0, stopped.1, stopped.2)
unfolding cancel_run_of cancel_transaction cancel_new find_command find_first is_command owns
    first_by head? is_run_of is_in select order_by insert_row store_cancel update_where mark_run
    cancellation_of command
stopped_ok = refl

abbrev answered : Db × CancelRunResponse
answered = value_of (cancel_new scope 7 5 1 2000 running_db) (running_db, no_answer)

answered_ok : cancel_new scope 7 5 1 2000 running_db ≡ ok (answered.0, answered.1)
unfolding cancel_new find_first owns first_by head? is_run_of is_in select order_by insert_row
    store_cancel update_where mark_run cancellation_of command
answered_ok = refl

answered_stops : is_stopping answered.1.cancellation_status ≡ true
unfolding cancel_new find_first owns first_by head? is_run_of is_in select order_by insert_row
    cancellation_of is_stopping
answered_stops = refl

cancel_new-claimable_example :
    All
      (λ row. (has_id answered.1.run_id row && is_claimable options unlocked 9000 row) ≡ false)
      answered.0.agent_runs
cancel_new-claimable_example =
    cancel_new-claimable scope 7 5 1 2000 running_db answered.0 answered.1 options unlocked 9000
      answered_ok answered_stops

abbrev requested_db : Db
requested_db = value_of (materialize queued 21 (handoff_requested 60) 2000 running_db) running_db

requested_ok : materialize queued 21 (handoff_requested 60) 2000 running_db ≡ ok requested_db
unfolding materialize request_handoff find_first any
requested_ok = refl

abbrev contact : ContactRequest
contact = record { request_id = 61; prompt = []; required = true }

abbrev contact_db : Db
contact_db =
    value_of (materialize queued 21 (contact_requested contact) 2000 requested_db) requested_db

contact_ok : materialize queued 21 (contact_requested contact) 2000 requested_db ≡ ok contact_db
unfolding materialize request_handoff request_contact insert_input find_first any requested_handoff
    pending_input
contact_ok = refl

materialize-again_example :
    materialize queued 21 (contact_requested contact) 3000 contact_db
    ≡ ok (retimed queued (contact_requested contact) 3000 contact_db)
materialize-again_example =
    materialize-again queued 21 (contact_requested contact) 2000 3000 requested_db contact_db
      contact_ok
