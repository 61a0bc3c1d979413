-- ===== src/Run/Cancel/Requests.antt =====
-- apps/server/src/run/service.ts: what a request to cancel does to the run, and a repeated request.
use formation_chat_core.Prelude.{
  ℕ, ◌≡◌, refl, sym, ap, ◌∙◌, subst, Bool, true, false, ◌&&◌, Option, none, some, arith, ok, ◌>>=◌,
  >>=-eq-ok, or_throw, or_throw-eq-ok, Option-cases, inl, inr, find_first, first_by, All,
  All-update_anew,
}
use formation_chat_core.Database.{Db}
use formation_chat_core.Database.Rows.{Conversation, Run, CancellationStatus, outcome, run_cancel}
use formation_chat_core.Database.Statements.{
  Scope, owns, find_command, command, find_command-append,
}
use formation_chat_core.Run.{WorkerOptions, has_id, is_claimable}
use formation_chat_core.Run.Cancel.{
  CancelRunResponse, is_run_of, by_latest, cancellation_of, mark_run, decode, store_cancel,
  cancel_new, cancel_transaction, cancel_run_of, requested_run,
}

module _ (scope : Scope) (conversation_id key hash now : ℕ) (db after : Db)
    (response : CancelRunResponse) where
  -- A new request has found the conversation and its latest run.
  pub record IsCancelled : Type 0 where
    pub conversation : Conversation
    pub owned : find_first (owns scope conversation_id) db.conversations ≡ some conversation
    pub run : Run
    pub latest : first_by by_latest (is_run_of scope conversation_id) db.agent_runs ≡ some run
    pub stored : store_cancel scope conversation_id key hash now run db ≡ after
    pub answer : response ≡ record {
      conversation_id = conversation_id;
      run_id = run.run_id;
      cancellation_status = cancellation_of run.status;
    }

  pub cancel_new-IsCancelled :
      cancel_new scope conversation_id key hash now db ≡ ok (after, response) → IsCancelled
  unfolding cancel_new
  cancel_new-IsCancelled h =
      let (c, owned, h1) = >>=-eq-ok (or_throw _ _) _ h in
      let (r, latest, h2) = >>=-eq-ok (or_throw _ _) _ h1 in
      record {
        conversation = c;
        owned = or_throw-eq-ok _ _ owned;
        run = r;
        latest = or_throw-eq-ok _ _ latest;
        stored = cc;
        answer = cc;
      }

  cancel_new-retry :
      (later : ℕ)
      → find_command scope (run_cancel conversation_id) key db.command_idempotency ≡ none
      → cancel_new scope conversation_id key hash now db ≡ ok (after, response)
      → cancel_transaction scope conversation_id key hash later after ≡ ok (after, response)
  unfolding cancel_transaction command
  cancel_new-retry later missing h =
      let c = cancel_new-IsCancelled h in
      let recorded =
        find_command-append scope (run_cancel conversation_id) key hash
          (outcome c.run.run_id (cancellation_of c.run.status)) now db.command_idempotency
          missing in
      let there : find_command scope (run_cancel conversation_id) key after.command_idempotency
          ≡ some (
              command scope (run_cancel conversation_id) key hash
                (outcome c.run.run_id (cancellation_of c.run.status)) now) =
        rw (← c.stored) (unfold store_cancel in recorded) in
      rw (there, cancel_transaction) (ap (λ (x : CancelRunResponse). ok (after, x)) (sym c.answer))

  -- A request whose key is recorded changes nothing.
  cancel_transaction-retry :
      (later : ℕ)
      → cancel_transaction scope conversation_id key hash now db ≡ ok (after, response)
      → cancel_transaction scope conversation_id key hash later after ≡ ok (after, response)
  unfolding cancel_transaction
  cancel_transaction-retry later h =
      elim (Option-cases
        (find_command scope (run_cancel conversation_id) key db.command_idempotency)) [
          | inl missing ↦ cancel_new-retry later missing (rw (missing, cancel_transaction) at h)
          | inr (row, found) ↦
              let decoded : ◌>>=◌ {B = Db × CancelRunResponse}
                    (decode conversation_id row.resource_id) (λ r. ok (db, r))
                  ≡ ok (after, response) =
                rw (found, cancel_transaction) at h in
              let (r, read, e) = >>=-eq-ok (decode conversation_id row.resource_id) _ decoded in
              let kept : db ≡ after = cc in
              let same : r ≡ response = cc in
              let h' : cancel_transaction scope conversation_id key hash later db
                  ≡ ok (db, response) =
                rw (found, cancel_transaction, read, same) refl in
              subst
                (λ (d : Db).
                  cancel_transaction scope conversation_id key hash later d ≡ ok (d, response))
                kept h'
        ]

-- A request to cancel that is sent again with its key to the database that the first one left gets the
-- same answer and changes nothing; it is passed on to the run's registration again.
pub cancel_retry :
    (scope : Scope) (conversation_id key hash now later : ℕ) (db after : Db)
    (response : CancelRunResponse) (signal : Option ℕ)
    → cancel_run_of scope conversation_id key hash now db ≡ ok (after, response, signal)
    → cancel_run_of scope conversation_id key hash later after ≡ ok (after, response, signal)
unfolding cancel_run_of
cancel_retry scope conversation_id key hash now later db after response signal h =
    let (m, done, e) = >>=-eq-ok (cancel_transaction scope conversation_id key hash now db) _ h in
    let kept : m.0 ≡ after = cc in
    let same : m.1 ≡ response = cc in
    let passed : requested_run m.1 ≡ signal = cc in
    let first : cancel_transaction scope conversation_id key hash now db ≡ ok (after, response) =
      done ∙ cc in
    let again =
      cancel_transaction-retry scope conversation_id key hash now db after response later first in
    rw (again, ← passed, ← same) refl

-- Whether the answer promises that the run stops.
unfoldable pub is_stopping : CancellationStatus → Bool
is_stopping CancellationStatus.already_finished = false
is_stopping _ = true

marked-claimable :
    (options : WorkerOptions) (locked : ℕ → Bool) (later now : ℕ) (status : CancellationStatus)
    (row : Run)
    → is_stopping status ≡ true
    → is_claimable options locked later (mark_run now status row) ≡ false
unfolding mark_run is_claimable is_stopping
marked-claimable options locked later now CancellationStatus.cancelled row h = ground arith
marked-claimable options locked later now CancellationStatus.cancel_requested row h = ground arith
marked-claimable options locked later now CancellationStatus.already_finished row h = ground arith

-- A first request to cancel whose answer is not that the run has finished leaves every row of the
-- run such that no worker claims it as it is, at any later time.
pub cancel_new-claimable :
    (scope : Scope) (conversation_id key hash now : ℕ) (db after : Db)
    (response : CancelRunResponse) (options : WorkerOptions) (locked : ℕ → Bool) (later : ℕ)
    → cancel_new scope conversation_id key hash now db ≡ ok (after, response)
    → is_stopping response.cancellation_status ≡ true
    → All
        (λ row. (has_id response.run_id row && is_claimable options locked later row) ≡ false)
        after.agent_runs
unfolding store_cancel
cancel_new-claimable scope conversation_id key hash now db after response options locked later h
      stops =
    let c = cancel_new-IsCancelled scope conversation_id key hash now db after response h in
    let id : response.run_id ≡ c.run.run_id = ap (λ (r : CancelRunResponse). r.run_id) c.answer in
    let status : response.cancellation_status ≡ cancellation_of c.run.status =
      ap (λ (r : CancelRunResponse). r.cancellation_status) c.answer in
    let stops' : is_stopping (cancellation_of c.run.status) ≡ true = rw status at stops in
    rw (← c.stored, id)
      (All-update_anew _ (has_id c.run.run_id) (mark_run now (cancellation_of c.run.status))
        db.agent_runs
        (λ row e.
          let m =
            marked-claimable options locked later now (cancellation_of c.run.status) row stops' in
          ground (arith, m))
        (λ row e. ground arith))
