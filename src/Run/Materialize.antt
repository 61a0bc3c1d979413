-- ===== src/Run/Materialize.antt =====
-- apps/server/src/run/worker.ts, `materialize`: the rows that an event of a connector writes before
-- it is stored. A write that finds another number of rows than one leaves the tables as they were:
-- its test fixes a primary key.
use formation_chat_core.Prelude.{
  ℕ, ◌-◌, Bool, ◌&&◌, none, some, List, [], ◌∷◌, ◌++◌, Result, ok, err, ◌>>=◌, ◌>>◌, or_throw,
  guard, ◌==◌, if◌then◌else◌, find_first, update_where, count_where, any,
}
use formation_chat_core.Database.{Db}
use formation_chat_core.Database.Rows.{
  ContentPart, ContactRequest, Conversation, EventBody, message_started, message_completed,
  handoff_requested, contact_requested, handoff_completed, Handoff, HandoffKind, HandoffStatus,
  InputRequest, InputStatus, Purpose, Message, MessageStatus, Role, Run,
}
use formation_chat_core.Run.{
  WorkerError, no_result, unique_violation, message_not_started, handoff_of_another_run,
  input_of_another_run, handoff_not_requested,
}
use formation_chat_core.Run.Context.{is_of_run}
use formation_chat_core.Message.{take_sequence}

abbrev pub is_message_id : ℕ → Message → Bool
is_message_id message_id row = row.message_id == message_id

unfoldable pub is_conversation_of : Run → Conversation → Bool
is_conversation_of run row = is_of_run run row.tenant_id row.site_id row.conversation_id

-- `insertAssistant`.
unfoldable pub assistant_message : Run → (participant_id sequence now : ℕ) → Message
assistant_message run participant_id sequence now = record {
  message_id = run.assistant_message_id;
  tenant_id = run.tenant_id;
  site_id = run.site_id;
  conversation_id = run.conversation_id;
  sequence = sequence;
  participant_id = participant_id;
  role = Role.assistant;
  status = MessageStatus.streaming;
  parts = [];
  created_at = now;
  completed_at = none;
}

unfoldable pub start_message : Run → (participant_id now : ℕ) → Db → Result WorkerError Db
start_message run participant_id now db =
    if any (is_message_id run.assistant_message_id) db.messages
    then ok db
    else (let conversations =
          update_where (is_conversation_of run) (take_sequence now) db.conversations in
        or_throw (find_first (is_conversation_of run) conversations) no_result >>= λ allocation.
        ok (record db {
          conversations = conversations;
          messages =
              db.messages
              ++ assistant_message run participant_id (allocation.next_message_sequence - 1) now
                ∷ [];
        }))

unfoldable pub is_assistant_message : Run → Message → Bool
is_assistant_message run row =
    is_of_run run row.tenant_id row.site_id row.conversation_id
    && row.message_id == run.assistant_message_id

unfoldable pub complete_message : Run → List ContentPart → ℕ → Db → Result WorkerError Db
complete_message run parts now db =
    guard (count_where (is_assistant_message run) db.messages == 1) message_not_started
    >> ok (record db {
      messages =
          update_where (is_assistant_message run)
            (λ row. record row {
              status = MessageStatus.completed;
              parts = parts;
              completed_at = some now;
            })
            db.messages;
    })

abbrev pub has_handoff_id : ℕ → Handoff → Bool
has_handoff_id handoff_id row = row.handoff_id == handoff_id

unfoldable pub requested_handoff : Run → (handoff_id now : ℕ) → Handoff
requested_handoff run handoff_id now = record {
  handoff_id = handoff_id;
  tenant_id = run.tenant_id;
  site_id = run.site_id;
  conversation_id = run.conversation_id;
  run_id = run.run_id;
  kind = HandoffKind.human;
  status = HandoffStatus.requested;
  created_at = now;
  updated_at = now;
}

-- The identifier that is there already does nothing; a run with a handoff of another identifier
-- violates the constraint on `run_id`.
unfoldable pub request_handoff : Run → (handoff_id now : ℕ) → Db → Result WorkerError Db
request_handoff run handoff_id now db = elim (find_first (has_handoff_id handoff_id) db.handoffs) [
  | some row ↦ if row.run_id == run.run_id then ok db else err handoff_of_another_run
  | none ↦
      if any (λ (row : Handoff). row.run_id == run.run_id) db.handoffs
      then err unique_violation
      else ok (record db { handoffs = db.handoffs ++ requested_handoff run handoff_id now ∷ [] })
]

unfoldable pub pending_input : Run → ContactRequest → ℕ → InputRequest
pending_input run request now = record {
  request_id = request.request_id;
  tenant_id = run.tenant_id;
  site_id = run.site_id;
  conversation_id = run.conversation_id;
  run_id = run.run_id;
  purpose = Purpose.handoff_email_delivery;
  prompt = request.prompt;
  required = request.required;
  status = InputStatus.pending;
  value = none;
  consent_status = none;
  consent_recorded_at = none;
  created_at = now;
  updated_at = now;
}

-- The insertion that does nothing where the identifier is there.
unfoldable pub insert_input : Run → ContactRequest → ℕ → List InputRequest → List InputRequest
insert_input run request now rows =
    if any (λ (row : InputRequest). row.request_id == request.request_id) rows
    then rows
    else rows ++ pending_input run request now ∷ []

unfoldable pub request_contact : Run → ContactRequest → ℕ → Db → Result WorkerError Db
request_contact run request now db = do
  handoff ←
      or_throw (find_first (λ (row : Handoff). row.run_id == run.run_id) db.handoffs) no_result
  let inputs = insert_input run request now db.structured_input_requests
  input ←
      or_throw (find_first (λ (row : InputRequest). row.request_id == request.request_id) inputs)
        no_result
  guard (input.run_id == run.run_id) input_of_another_run
  ok (record db {
    structured_input_requests = inputs;
    handoffs =
        update_where (has_handoff_id handoff.handoff_id)
          (λ row. record row { status = HandoffStatus.awaiting_contact; updated_at = now })
          db.handoffs;
  })

unfoldable pub is_handoff_of : Run → ℕ → Handoff → Bool
is_handoff_of run handoff_id row =
    is_of_run run row.tenant_id row.site_id row.conversation_id
    && row.run_id == run.run_id
    && row.handoff_id == handoff_id

unfoldable pub complete_handoff : Run → (handoff_id now : ℕ) → Db → Result WorkerError Db
complete_handoff run handoff_id now db =
    guard (count_where (is_handoff_of run handoff_id) db.handoffs == 1) handoff_not_requested
    >> ok (record db {
      handoffs =
          update_where (is_handoff_of run handoff_id)
            (λ row. record row { status = HandoffStatus.completed; updated_at = now }) db.handoffs;
    })

unfoldable pub materialize : Run → (participant_id : ℕ) → EventBody → ℕ → Db → Result WorkerError Db
materialize run participant_id message_started now db = start_message run participant_id now db
materialize run participant_id (message_completed parts) now db = complete_message run parts now db
materialize run participant_id (handoff_requested id) now db = request_handoff run id now db
materialize run participant_id (contact_requested request) now db =
    request_contact run request now db
materialize run participant_id (handoff_completed id) now db = complete_handoff run id now db
materialize run participant_id _ now db = ok db
