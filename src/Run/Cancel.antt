-- ===== src/Run/Cancel.antt =====
-- apps/server/src/run/service.ts: the visitor's request to cancel the latest run of a conversation.
pub mod Requests
use formation_chat_core.Prelude.{
  ℕ, Bool, true, false, Option, none, some, List, [], ◌∷◌, ◌++◌, Result, ok, err, ◌>>=◌, or_throw,
  leb, find_first, update_where, first_by,
}
use formation_chat_core.Database.{Db}
use formation_chat_core.Database.Rows.{
  Run, RunStatus, CancellationStatus, Resource, resource, outcome, run_cancel,
}
use formation_chat_core.Database.Statements.{Scope, owns, is_in, find_command, command}
use formation_chat_core.Run.{has_id}

pub data RunApiError : Type 0 where
  conversation_not_found run_not_found : RunApiError
  invalid_outcome : RunApiError

pub record CancelRunResponse : Type 0 where
  pub conversation_id : ℕ
  pub run_id : ℕ
  pub cancellation_status : CancellationStatus

unfoldable pub is_run_of : Scope → ℕ → Run → Bool
is_run_of scope conversation_id row =
    is_in scope.tenant_id scope.site_id conversation_id row.tenant_id row.site_id
      row.conversation_id

-- `order by created_at desc`.
abbrev pub by_latest : Run → Run → Bool
by_latest a b = leb b.created_at a.created_at

-- What the request comes to for a run in each status.
unfoldable pub cancellation_of : RunStatus → CancellationStatus
cancellation_of RunStatus.queued = CancellationStatus.cancelled
cancellation_of RunStatus.running = CancellationStatus.cancel_requested
cancellation_of RunStatus.cancel_requested = CancellationStatus.cancel_requested
cancellation_of RunStatus.waiting_for_input = CancellationStatus.already_finished
cancellation_of RunStatus.completed = CancellationStatus.already_finished
cancellation_of RunStatus.failed = CancellationStatus.already_finished
cancellation_of RunStatus.cancelled = CancellationStatus.already_finished

unfoldable pub mark_run : ℕ → CancellationStatus → Run → Run
mark_run now CancellationStatus.cancelled row = record row {
  status = RunStatus.cancelled;
  cancel_requested_at = some now;
  completed_at = some now;
  updated_at = now;
}
mark_run now CancellationStatus.cancel_requested row = record row {
  status = RunStatus.cancel_requested;
  cancel_requested_at = some now;
  updated_at = now;
}
mark_run now CancellationStatus.already_finished row = row

abbrev decode : ℕ → Resource → Result RunApiError CancelRunResponse
decode conversation_id (resource id) = err invalid_outcome
decode conversation_id (outcome run_id status) =
    ok (record { conversation_id = conversation_id; run_id = run_id; cancellation_status = status })

unfoldable pub store_cancel : Scope → ℕ → ℕ → ℕ → ℕ → Run → Db → Db
store_cancel scope conversation_id idempotency_key request_hash now run db = record db {
  agent_runs =
      update_where (has_id run.run_id) (mark_run now (cancellation_of run.status)) db.agent_runs;
  command_idempotency =
      db.command_idempotency
      ++ command scope (run_cancel conversation_id) idempotency_key request_hash
          (outcome run.run_id (cancellation_of run.status)) now
        ∷ [];
}

unfoldable pub cancel_new : Scope → ℕ → ℕ → ℕ → ℕ → Db → Result RunApiError (Db × CancelRunResponse)
cancel_new scope conversation_id idempotency_key request_hash now db = do
  _ ← or_throw (find_first (owns scope conversation_id) db.conversations) conversation_not_found
  run ← or_throw (first_by by_latest (is_run_of scope conversation_id) db.agent_runs) run_not_found
  ok (
    store_cancel scope conversation_id idempotency_key request_hash now run db,
    record {
      conversation_id = conversation_id;
      run_id = run.run_id;
      cancellation_status = cancellation_of run.status;
    },
  )

unfoldable pub cancel_transaction :
    Scope → ℕ → ℕ → ℕ → ℕ → Db → Result RunApiError (Db × CancelRunResponse)
cancel_transaction scope conversation_id idempotency_key request_hash now db =
    elim (find_command scope (run_cancel conversation_id) idempotency_key db.command_idempotency) [
      | some previous ↦ decode conversation_id previous.resource_id >>= λ r. ok (db, r)
      | none ↦ cancel_new scope conversation_id idempotency_key request_hash now db
    ]

abbrev requested_run : CancelRunResponse → Option ℕ
requested_run r = elim r.cancellation_status [
  | CancellationStatus.cancel_requested ↦ some r.run_id
  | _ ↦ none
]

-- `cancel`: the response, and the run whose registration the coordinator is asked to abort.
unfoldable pub cancel_run_of :
    Scope → ℕ → ℕ → ℕ → ℕ → Db → Result RunApiError (Db × CancelRunResponse × Option ℕ)
cancel_run_of scope conversation_id idempotency_key request_hash now db = do
  done ← cancel_transaction scope conversation_id idempotency_key request_hash now db
  ok (done.0, done.1, requested_run done.1)
