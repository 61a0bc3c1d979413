-- ===== src/EmailHandoff.antt =====
-- apps/server/src/email-handoff/service.ts: the visitor asks for the conversation by email, which
-- queues a run of its own.
-- `trim` and `toLowerCase`, on all of Unicode, are the parameter `normalize`.
pub mod Creation
use formation_chat_core.Prelude.{
  ℕ, Bool, true, false, ◌&&◌, Option, none, some, List, [], ◌∷◌, ◌++◌, Result, ok, err, ◌>>=◌,
  or_throw, leb, ◌==◌, if◌then◌else◌, find_first, first_by,
}
use formation_chat_core.Database.{Db}
use formation_chat_core.Database.Rows.{
  Text, Message, MessageStatus, Role, Run, RunStatus, TriggerType, Handoff, HandoffKind,
  HandoffStatus, InputRequest, InputStatus, ConsentStatus, Purpose, Conversation, Resource,
  resource, email_handoff_create,
}
use formation_chat_core.Database.Statements.{Scope, owns, is_in, find_command, command}
use formation_chat_core.Message.{Fresh, queued_run, resource_of}

pub data EmailHandoffApiError : Type 0 where
  conversation_not_found empty_conversation idempotency_conflict : EmailHandoffApiError
  -- `executeTakeFirstOrThrow` found no row.
  no_result : EmailHandoffApiError

pub record HandoffView : Type 0 where
  pub handoff_id : ℕ
  pub conversation_id : ℕ
  pub run_id : ℕ
  pub status : HandoffStatus
  pub created_at : ℕ
  pub updated_at : ℕ

-- The identifiers that the service makes.
pub record HandoffIds : Type 0 where
  pub run_id : ℕ
  pub id : ℕ
  pub assistant_message_id : ℕ

abbrev is_user : Role → Bool
is_user Role.user = true
is_user _ = false

abbrev is_completed : MessageStatus → Bool
is_completed MessageStatus.completed = true
is_completed _ = false

unfoldable pub is_trigger : Scope → ℕ → Message → Bool
is_trigger scope conversation_id row =
    is_in scope.tenant_id scope.site_id conversation_id row.tenant_id row.site_id
      row.conversation_id
    && is_user row.role
    && is_completed row.status

abbrev pub by_last : Message → Message → Bool
by_last a b = leb b.sequence a.sequence

-- `Email me this conversation`.
abbrev prompt_text : Text
prompt_text =
    69 ∷ 109 ∷ 97 ∷ 105 ∷ 108 ∷ 32 ∷ 109 ∷ 101 ∷ 32 ∷ 116 ∷ 104 ∷ 105 ∷ 115 ∷ 32 ∷ 99 ∷ 111 ∷ 110
    ∷ 118 ∷ 101 ∷ 114 ∷ 115 ∷ 97 ∷ 116 ∷ 105 ∷ 111 ∷ 110 ∷ []

unfoldable pub delivering_handoff : Scope → ℕ → HandoffIds → ℕ → Handoff
delivering_handoff scope conversation_id ids now = record {
  handoff_id = ids.id;
  tenant_id = scope.tenant_id;
  site_id = scope.site_id;
  conversation_id = conversation_id;
  run_id = ids.run_id;
  kind = HandoffKind.agent_email;
  status = HandoffStatus.delivering;
  created_at = now;
  updated_at = now;
}

unfoldable pub email_input : Scope → ℕ → HandoffIds → Text → ℕ → InputRequest
email_input scope conversation_id ids email now = record {
  request_id = ids.id;
  tenant_id = scope.tenant_id;
  site_id = scope.site_id;
  conversation_id = conversation_id;
  run_id = ids.run_id;
  purpose = Purpose.agent_email_handoff;
  prompt = prompt_text;
  required = true;
  status = InputStatus.submitted;
  value = some email;
  consent_status = some ConsentStatus.granted;
  consent_recorded_at = some now;
  created_at = now;
  updated_at = now;
}

-- The row of the run: the one of a message but for its trigger.
unfoldable pub email_run : Scope → ℕ → HandoffIds → (trigger_message_id agent_ref now : ℕ) → Run
email_run scope conversation_id ids trigger_message_id agent_ref now =
    queued_run scope conversation_id
      (record {
        message_id = trigger_message_id;
        run_id = ids.run_id;
        assistant_message_id = ids.assistant_message_id;
      })
      TriggerType.agent_email_handoff agent_ref now

unfoldable pub store_handoff :
    Scope → ℕ → Text → ℕ → ℕ → ℕ → HandoffIds → Conversation → Message → Db → Db
store_handoff scope conversation_id email idempotency_key request_hash now ids conversation trigger
      db =
    record db {
      agent_runs =
          db.agent_runs
          ++ email_run scope conversation_id ids trigger.message_id conversation.agent_ref now ∷ [];
      handoffs = db.handoffs ++ delivering_handoff scope conversation_id ids now ∷ [];
      structured_input_requests =
          db.structured_input_requests ++ email_input scope conversation_id ids email now ∷ [];
      command_idempotency =
          db.command_idempotency
          ++ command scope (email_handoff_create conversation_id) idempotency_key request_hash
              (resource ids.id) now
            ∷ [];
    }

unfoldable pub create_new :
    Scope → ℕ → Text → ℕ → ℕ → ℕ → HandoffIds → Db → Result EmailHandoffApiError (Db × ℕ)
create_new scope conversation_id email idempotency_key request_hash now ids db = do
  conversation ←
      or_throw (find_first (owns scope conversation_id) db.conversations) conversation_not_found
  trigger ←
      or_throw (first_by by_last (is_trigger scope conversation_id) db.messages) empty_conversation
  ok (
    store_handoff scope conversation_id email idempotency_key request_hash now ids conversation
        trigger db,
    ids.id,
  )

unfoldable pub create_transaction :
    Scope → ℕ → Text → ℕ → ℕ → ℕ → HandoffIds → Db → Result EmailHandoffApiError (Db × ℕ)
create_transaction scope conversation_id email idempotency_key request_hash now ids db =
    elim (find_command scope (email_handoff_create conversation_id) idempotency_key
      db.command_idempotency) [
        | some previous ↦
            if previous.request_hash == request_hash
            then ok (db, resource_of previous.resource_id)
            else err idempotency_conflict
        | none ↦ create_new scope conversation_id email idempotency_key request_hash now ids db
      ]

abbrev is_agent_email : HandoffKind → Bool
is_agent_email HandoffKind.agent_email = true
is_agent_email HandoffKind.human = false

unfoldable pub is_email_handoff : Scope → ℕ → ℕ → Handoff → Bool
is_email_handoff scope conversation_id handoff_id row =
    is_in scope.tenant_id scope.site_id conversation_id row.tenant_id row.site_id
      row.conversation_id
    && row.handoff_id == handoff_id
    && is_agent_email row.kind

abbrev pub shown_status : HandoffStatus → HandoffStatus
shown_status HandoffStatus.completed = HandoffStatus.completed
shown_status HandoffStatus.failed = HandoffStatus.failed
shown_status _ = HandoffStatus.delivering

unfoldable pub get : Scope → ℕ → ℕ → Db → Result EmailHandoffApiError HandoffView
get scope conversation_id handoff_id db = do
  row ←
      or_throw (find_first (is_email_handoff scope conversation_id handoff_id) db.handoffs)
        no_result
  ok (record {
    handoff_id = row.handoff_id;
    conversation_id = row.conversation_id;
    run_id = row.run_id;
    status = shown_status row.status;
    created_at = row.created_at;
    updated_at = row.updated_at;
  })

-- `create`: `hash` is the digest of the normalized address with the consent, which the schema fixes.
unfoldable pub create :
    (normalize : Text → Text) (hash : Text → ℕ)
    → Scope
    → ℕ
    → Text
    → ℕ
    → ℕ
    → HandoffIds
    → Db
    → Result EmailHandoffApiError (Db × HandoffView)
create normalize hash scope conversation_id address idempotency_key now ids db = do
  let email = normalize address
  done ← create_transaction scope conversation_id email idempotency_key (hash email) now ids db
  handoff ← get scope conversation_id done.1 done.0
  ok (done.0, handoff)
