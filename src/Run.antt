-- ===== src/Run.antt =====
-- apps/server/src/run/worker.ts, the statements on `agent_runs`: the claim of a run under a lease,
-- the renewal of the lease, and the ways in which a run ends.
pub mod Claim
pub mod Cancellation
pub mod Cancel
pub mod Context
pub mod Materialize
pub mod Worker
pub mod Repetition
use formation_chat_core.Prelude.{
  ℕ, ◌+◌, Bool, true, false, not, ◌&&◌, ◌||◌, Option, none, some, List, Result, ok, err, ◌>>=◌,
  or_throw, leb, ltb, ◌==◌, holds, if◌then◌else◌, find_first, update_where, count_where, first_by,
}
use formation_chat_core.Database.{Db}
use formation_chat_core.Database.Rows.{
  Run, RunStatus, RunErrorCode, Message, MessageStatus, Handoff, HandoffStatus,
}
use formation_chat_core.Database.Statements.{
  is_queued, is_running, is_cancelling, is_open_handoff, is_unfinished,
}

pub record WorkerOptions : Type 0 where
  pub lease_ms : ℕ
  pub max_attempts : ℕ

pub data WorkerError : Type 0 where
  -- `executeTakeFirstOrThrow` found no row.
  no_result : WorkerError
  run_cannot_wait : WorkerError
  message_not_started handoff_of_another_run input_of_another_run handoff_not_requested :
      WorkerError
  participants_missing inconsistent_context : WorkerError
  consent_missing consent_inconsistent unique_violation : WorkerError
  -- What the connector's iterator or the event store throws.
  connector_failed event_not_stored : WorkerError

abbrev pub has_id : ℕ → Run → Bool
has_id run_id row = row.run_id == run_id

-- The test of `claim`. A row that another transaction has locked is skipped, and a run with no
-- lease is no expired one.
unfoldable pub is_claimable : WorkerOptions → (ℕ → Bool) → ℕ → Run → Bool
is_claimable options locked now row =
    not (locked row.run_id)
    && leb row.available_at now
    && ltb row.attempt options.max_attempts
    && (is_queued row.status
        || (is_running row.status && holds (λ lease. leb lease now) row.lease_expires_at))

-- `order by available_at, created_at`.
unfoldable pub by_availability : Run → Run → Bool
by_availability a b =
    ltb a.available_at b.available_at
    || (a.available_at == b.available_at && leb a.created_at b.created_at)

unfoldable pub claim_run : WorkerOptions → ℕ → Run → Run
claim_run options now row = record row {
  status = RunStatus.running;
  attempt = row.attempt + 1;
  claimed_at = some now;
  lease_expires_at = some (now + options.lease_ms);
  updated_at = now;
}

unfoldable pub claim : WorkerOptions → (ℕ → Bool) → ℕ → Db → Result WorkerError (Option (Db × Run))
claim options locked now db =
    elim (first_by by_availability (is_claimable options locked now) db.agent_runs) [
      | none ↦ ok none
      | some candidate ↦
          let runs = update_where (has_id candidate.run_id) (claim_run options now) db.agent_runs in
          or_throw (find_first (has_id candidate.run_id) runs) no_result >>= λ claimed.
          ok (some (record db { agent_runs = runs }, claimed))
    ]

-- `renewLease`, with the clock's time: the lease of the attempt that was claimed, while it runs.
unfoldable pub is_attempt : Run → Run → Bool
is_attempt run row = has_id run.run_id row && is_running row.status && row.attempt == run.attempt

unfoldable pub renew_lease : WorkerOptions → Run → ℕ → Db → Db × Bool
renew_lease options run clock db = (
  record db {
    agent_runs =
        update_where (is_attempt run)
          (λ row. record row {
            lease_expires_at = some (clock + options.lease_ms);
            updated_at = clock;
          })
          db.agent_runs;
  },
  count_where (is_attempt run) db.agent_runs == 1,
)

unfoldable pub complete_run : ℕ → Run → Run
complete_run now row = record row {
  status = RunStatus.completed;
  completed_at = some now;
  lease_expires_at = none;
  updated_at = now;
}

unfoldable pub complete : ℕ → ℕ → Db → Db
complete run_id now db = record db {
  agent_runs = update_where (has_id run_id) (complete_run now) db.agent_runs;
}

unfoldable pub wait_run : ℕ → Run → Run
wait_run now row = record row {
  status = RunStatus.waiting_for_input;
  claimed_at = none;
  lease_expires_at = none;
  updated_at = now;
}

abbrev pub is_running_run : ℕ → Run → Bool
is_running_run run_id row = has_id run_id row && is_running row.status

unfoldable pub wait_for_input : ℕ → ℕ → Db → Result WorkerError Db
wait_for_input run_id now db =
    if count_where (is_running_run run_id) db.agent_runs == 1
    then ok (record db {
      agent_runs = update_where (is_running_run run_id) (wait_run now) db.agent_runs;
    })
    else err run_cannot_wait

unfoldable pub is_cancellation_requested : ℕ → Db → Result WorkerError Bool
is_cancellation_requested run_id db = do
  run ← or_throw (find_first (has_id run_id) db.agent_runs) no_result
  ok (is_cancelling run.status)

unfoldable pub cancel_run : ℕ → Run → Run
cancel_run now row = record row {
  status = RunStatus.cancelled;
  completed_at = some now;
  lease_expires_at = none;
  updated_at = now;
}

unfoldable pub cancel : Run → ℕ → Db → Db
cancel run now db = record db {
  agent_runs = update_where (has_id run.run_id) (cancel_run now) db.agent_runs;
  messages =
      update_where (λ row. row.message_id == run.assistant_message_id && is_unfinished row.status)
        (λ row. record row { status = MessageStatus.cancelled; completed_at = some now })
        db.messages;
}

unfoldable pub fail_run : RunErrorCode → ℕ → Run → Run
fail_run code now row = record row {
  status = RunStatus.failed;
  error_code = some code;
  completed_at = some now;
  lease_expires_at = none;
  updated_at = now;
}

unfoldable pub is_open_handoff_of : ℕ → Handoff → Bool
is_open_handoff_of run_id row = row.run_id == run_id && is_open_handoff row.status

unfoldable pub fail : ℕ → RunErrorCode → ℕ → Db → Db
fail run_id code now db = record db {
  agent_runs = update_where (has_id run_id) (fail_run code now) db.agent_runs;
  handoffs =
      update_where (is_open_handoff_of run_id)
        (λ row. record row { status = HandoffStatus.failed; updated_at = now }) db.handoffs;
}
