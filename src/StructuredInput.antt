-- ===== src/StructuredInput.antt =====
-- apps/server/src/structured-input/service.ts: the visitor's answer to a request of the agent, which
-- resumes the run that waits for it.
pub mod Answers
use formation_chat_core.Prelude.{
  ℕ, Bool, true, false, ◌&&◌, Option, none, some, List, [], ◌∷◌, ◌++◌, Result, ok, err, ◌>>=◌, ◌>>◌,
  or_throw, guard, ◌==◌, if◌then◌else◌, find_first, update_where, count_where, any,
}
use formation_chat_core.Database.{Db}
use formation_chat_core.Database.Rows.{
  Text, Run, RunStatus, Handoff, HandoffStatus, InputRequest, InputStatus, ConsentStatus, Purpose,
  Conversation, Resource, resource, input_submit,
}
use formation_chat_core.Database.Statements.{Scope, owns, is_in, find_command, command, is_waiting}
use formation_chat_core.Run.{has_id}

pub data StructuredInputApiError : Type 0 where
  conversation_not_found input_not_found input_already_resolved : StructuredInputApiError
  idempotency_conflict not_public : StructuredInputApiError

-- The request's body: a value, or the refusal to give one.
pub data SubmitRequest : Type 0 where
  submitted : Text → SubmitRequest
  declined : SubmitRequest

pub record InputView : Type 0 where
  pub request_id : ℕ
  pub conversation_id : ℕ
  pub run_id : ℕ
  pub purpose : Purpose
  pub prompt : Text
  pub required : Bool
  pub status : InputStatus
  pub created_at : ℕ
  pub updated_at : ℕ

unfoldable pub map_input : InputRequest → Result StructuredInputApiError InputView
map_input row = elim row.purpose [
  | Purpose.handoff_email_delivery ↦ ok (record {
    request_id = row.request_id;
    conversation_id = row.conversation_id;
    run_id = row.run_id;
    purpose = row.purpose;
    prompt = row.prompt;
    required = row.required;
    status = row.status;
    created_at = row.created_at;
    updated_at = row.updated_at;
  })
  | Purpose.agent_email_handoff ↦ err not_public
]

unfoldable pub is_input : Scope → ℕ → ℕ → InputRequest → Bool
is_input scope conversation_id request_id row =
    is_in scope.tenant_id scope.site_id conversation_id row.tenant_id row.site_id
      row.conversation_id
    && row.request_id == request_id

abbrev pub has_request_id : ℕ → InputRequest → Bool
has_request_id request_id row = row.request_id == request_id

abbrev pub is_pending : InputStatus → Bool
is_pending InputStatus.pending = true
is_pending _ = false

-- The columns that an answer writes.
unfoldable pub resolve : SubmitRequest → ℕ → InputRequest → InputRequest
resolve (submitted value) now row = record row {
  status = InputStatus.submitted;
  value = some value;
  consent_status = some ConsentStatus.granted;
  consent_recorded_at = some now;
  updated_at = now;
}
resolve declined now row = record row {
  status = InputStatus.declined;
  value = none;
  consent_status = some ConsentStatus.declined;
  consent_recorded_at = some now;
  updated_at = now;
}

abbrev pub is_waiting_run : ℕ → Run → Bool
is_waiting_run run_id row = has_id run_id row && is_waiting row.status

unfoldable pub requeue : ℕ → Run → Run
requeue now row = record row {
  status = RunStatus.queued;
  available_at = now;
  claimed_at = none;
  lease_expires_at = none;
  error_code = none;
  completed_at = none;
  updated_at = now;
}

-- The handoffs of the run, whose email is delivered once the address is there.
unfoldable pub deliver : SubmitRequest → ℕ → ℕ → List Handoff → List Handoff
deliver (submitted _) run_id now rows =
    update_where (λ row. row.run_id == run_id)
      (λ row. record row { status = HandoffStatus.delivering; updated_at = now }) rows
deliver declined _ _ rows = rows

-- The writes of an answer.
unfoldable pub store_answer : Scope → ℕ → SubmitRequest → ℕ → ℕ → ℕ → InputRequest → Db → Db
store_answer scope conversation_id request idempotency_key request_hash now input db = record db {
  structured_input_requests =
      update_where (has_request_id input.request_id) (resolve request now)
        db.structured_input_requests;
  agent_runs = update_where (is_waiting_run input.run_id) (requeue now) db.agent_runs;
  handoffs = deliver request input.run_id now db.handoffs;
  command_idempotency =
      db.command_idempotency
      ++ command scope (input_submit conversation_id input.request_id) idempotency_key request_hash
          (resource input.request_id) now
        ∷ [];
}

unfoldable pub submit_new :
    Scope → ℕ → ℕ → SubmitRequest → ℕ → ℕ → ℕ → Db → Result StructuredInputApiError Db
submit_new scope conversation_id request_id request idempotency_key request_hash now db = do
  _ ← or_throw (find_first (owns scope conversation_id) db.conversations) conversation_not_found
  input ←
      or_throw (find_first (is_input scope conversation_id request_id) db.structured_input_requests)
        input_not_found
  guard (is_pending input.status) input_already_resolved
  guard (count_where (has_request_id input.request_id) db.structured_input_requests == 1)
      input_already_resolved
  guard (count_where (is_waiting_run input.run_id) db.agent_runs == 1) input_already_resolved
  ok (store_answer scope conversation_id request idempotency_key request_hash now input db)

unfoldable pub submit_transaction :
    Scope → ℕ → ℕ → SubmitRequest → ℕ → ℕ → ℕ → Db → Result StructuredInputApiError Db
submit_transaction scope conversation_id request_id request idempotency_key request_hash now db =
    elim (find_command scope (input_submit conversation_id request_id) idempotency_key
      db.command_idempotency) [
        | some previous ↦
            if previous.request_hash == request_hash then ok db else err idempotency_conflict
        | none ↦
            submit_new scope conversation_id request_id request idempotency_key request_hash now db
      ]

-- The join of `get` with the conversations of the principal.
unfoldable pub is_own_input : Scope → ℕ → ℕ → List Conversation → InputRequest → Bool
is_own_input scope conversation_id request_id conversations row =
    is_input scope conversation_id request_id row
    && any
        (λ c.
          is_in row.tenant_id row.site_id row.conversation_id c.tenant_id c.site_id
            c.conversation_id
          && c.principal_id == scope.principal_id)
        conversations

unfoldable pub get : Scope → ℕ → ℕ → Db → Result StructuredInputApiError InputView
get scope conversation_id request_id db = do
  row ←
      or_throw
        (find_first (is_own_input scope conversation_id request_id db.conversations)
          db.structured_input_requests)
        input_not_found
  map_input row

unfoldable pub submit :
    (hash : SubmitRequest → ℕ)
    → Scope
    → ℕ
    → ℕ
    → SubmitRequest
    → ℕ
    → ℕ
    → Db
    → Result StructuredInputApiError (Db × InputView)
submit hash scope conversation_id request_id request idempotency_key now db = do
  after ←
      submit_transaction scope conversation_id request_id request idempotency_key (hash request) now
        db
  input ← get scope conversation_id request_id after
  ok (after, input)
