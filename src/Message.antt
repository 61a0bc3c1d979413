-- ===== src/Message.antt =====
-- apps/server/src/message/service.ts: submitting the messages of a conversation, and listing them.
-- A transaction is one function of the database; what it throws leaves the database as it was.
-- The identifiers that `randomUUID` makes and the hash of a request are arguments.
pub mod Cursor
pub mod Idempotency
pub mod Sequences
pub mod Listing
pub mod Paging
use formation_chat_core.Prelude.{
  ℕ, ◌+◌, ◌-◌, Bool, true, false, ◌&&◌, Option, none, some, List, [], ◌∷◌, ◌++◌, map, Result, ok,
  err, ◌>>=◌, ◌>>◌, or_throw, guard, ltb, leb, ◌==◌, if◌then◌else◌, length, find_first, select,
  update_where, take, last?, order_by, holds,
}
use formation_chat_core.Database.{Db}
use formation_chat_core.Database.Rows.{
  Text, ContentPart, Conversation, Participant, ParticipantKind, Message, MessageStatus, Role, Run,
  RunStatus, TriggerType, Command, message_create, Resource, resource, outcome,
}
use formation_chat_core.Database.Statements.{Scope, owns, is_in, find_command, command}
use Cursor.{Base64, encode_cursor, decode_cursor}

pub data MessageApiError : Type 0 where
  conversation_not_found message_not_found invalid_cursor idempotency_conflict : MessageApiError
  -- `executeTakeFirstOrThrow` found no row.
  no_result : MessageApiError

-- The message of the API: the row without its tenant and site.
pub record MessageView : Type 0 where
  pub message_id : ℕ
  pub conversation_id : ℕ
  pub sequence : ℕ
  pub participant_id : ℕ
  pub role : Role
  pub status : MessageStatus
  pub parts : List ContentPart
  pub created_at : ℕ
  pub completed_at : Option ℕ

unfoldable pub map_message : Message → MessageView
map_message row = record {
  message_id = row.message_id;
  conversation_id = row.conversation_id;
  sequence = row.sequence;
  participant_id = row.participant_id;
  role = row.role;
  status = row.status;
  parts = row.parts;
  created_at = row.created_at;
  completed_at = row.completed_at;
}

-- The three identifiers that a submission makes.
pub record Fresh : Type 0 where
  pub message_id : ℕ
  pub run_id : ℕ
  pub assistant_message_id : ℕ

abbrev is_user : ParticipantKind → Bool
is_user ParticipantKind.user = true
is_user _ = false

unfoldable pub is_user_participant : Scope → ℕ → Participant → Bool
is_user_participant scope conversation_id row =
    is_in scope.tenant_id scope.site_id conversation_id row.tenant_id row.site_id
      row.conversation_id
    && is_user row.kind
    && holds (λ p. p == scope.principal_id) row.principal_id

-- `set next_message_sequence = next_message_sequence + 1, updated_at = now`.
unfoldable pub take_sequence : ℕ → Conversation → Conversation
take_sequence now row = record row {
  next_message_sequence = row.next_message_sequence + 1;
  updated_at = now;
}

unfoldable pub user_message : Scope → ℕ → ℕ → ℕ → List ContentPart → ℕ → ℕ → Message
user_message scope conversation_id id sequence parts participant_id now = record {
  message_id = id;
  tenant_id = scope.tenant_id;
  site_id = scope.site_id;
  conversation_id = conversation_id;
  sequence = sequence;
  participant_id = participant_id;
  role = Role.user;
  status = MessageStatus.completed;
  parts = parts;
  created_at = now;
  completed_at = some now;
}

unfoldable pub queued_run : Scope → ℕ → Fresh → TriggerType → ℕ → ℕ → Run
queued_run scope conversation_id fresh trigger_type agent_ref now = record {
  run_id = fresh.run_id;
  tenant_id = scope.tenant_id;
  site_id = scope.site_id;
  conversation_id = conversation_id;
  trigger_message_id = fresh.message_id;
  trigger_type = trigger_type;
  assistant_message_id = fresh.assistant_message_id;
  agent_ref = agent_ref;
  status = RunStatus.queued;
  attempt = 0;
  available_at = now;
  claimed_at = none;
  lease_expires_at = none;
  cancel_requested_at = none;
  error_code = none;
  created_at = now;
  updated_at = now;
  completed_at = none;
}

-- The writes of a submission: the counter, the message, the run that it queues, and the command.
unfoldable pub store :
    Scope
    → ℕ
    → List ContentPart
    → ℕ
    → ℕ
    → ℕ
    → Fresh
    → Conversation
    → Participant
    → Conversation
    → Db
    → Db
store scope conversation_id parts idempotency_key request_hash now fresh conversation participant
      updated db =
    record db {
      conversations =
          update_where (owns scope conversation_id) (take_sequence now) db.conversations;
      messages =
          db.messages
          ++ user_message scope conversation_id fresh.message_id (updated.next_message_sequence - 1)
              parts participant.participant_id now
            ∷ [];
      agent_runs =
          db.agent_runs
          ++ queued_run scope conversation_id fresh TriggerType.message conversation.agent_ref now
            ∷ [];
      command_idempotency =
          db.command_idempotency
          ++ command scope (message_create conversation_id) idempotency_key request_hash
              (resource fresh.message_id) now
            ∷ [];
    }

-- The part of the transaction that runs for a key that is not recorded yet.
unfoldable pub submit_new :
    Scope → ℕ → List ContentPart → ℕ → ℕ → ℕ → Fresh → Db → Result MessageApiError (Db × ℕ)
unfolding store
submit_new scope conversation_id parts idempotency_key request_hash now fresh db = do
  conversation ←
      or_throw (find_first (owns scope conversation_id) db.conversations) conversation_not_found
  participant ←
      or_throw (find_first (is_user_participant scope conversation_id) db.conversation_participants)
        no_result
  updated ←
      or_throw
        (find_first (owns scope conversation_id)
          (update_where (owns scope conversation_id) (take_sequence now) db.conversations))
        no_result
  ok (
    store scope conversation_id parts idempotency_key request_hash now fresh conversation
        participant updated db,
    fresh.message_id,
  )

-- `resource_id` where it is the identifier of a resource; a command of this kind records no other.
abbrev pub resource_of : Resource → ℕ
resource_of (resource id) = id
resource_of (outcome run_id _) = run_id

unfoldable pub submit_transaction :
    Scope → ℕ → List ContentPart → ℕ → ℕ → ℕ → Fresh → Db → Result MessageApiError (Db × ℕ)
submit_transaction scope conversation_id parts idempotency_key request_hash now fresh db =
    elim (find_command scope (message_create conversation_id) idempotency_key
      db.command_idempotency) [
        | some previous ↦
            if previous.request_hash == request_hash
            then ok (db, resource_of previous.resource_id)
            else err idempotency_conflict
        | none ↦ submit_new scope conversation_id parts idempotency_key request_hash now fresh db
      ]

unfoldable pub require_conversation : Scope → ℕ → Db → Result MessageApiError (Unit {0})
require_conversation scope conversation_id db = do
  _ ← or_throw (find_first (owns scope conversation_id) db.conversations) conversation_not_found
  ok tt

unfoldable pub is_message : Scope → ℕ → ℕ → Message → Bool
is_message scope conversation_id message_id row =
    is_in scope.tenant_id scope.site_id conversation_id row.tenant_id row.site_id
      row.conversation_id
    && row.message_id == message_id

unfoldable pub get : Scope → ℕ → ℕ → Db → Result MessageApiError MessageView
get scope conversation_id message_id db = do
  require_conversation scope conversation_id db
  row ←
      or_throw (find_first (is_message scope conversation_id message_id) db.messages)
        message_not_found
  ok (map_message row)

-- `submit`: the transaction, and then the message as it is stored. `hash` is the digest of the
-- parts.
unfoldable pub submit :
    (hash : List ContentPart → ℕ)
    → Scope
    → ℕ
    → List ContentPart
    → ℕ
    → ℕ
    → Fresh
    → Db
    → Result MessageApiError (Db × MessageView)
submit hash scope conversation_id parts idempotency_key now fresh db = do
  done ← submit_transaction scope conversation_id parts idempotency_key (hash parts) now fresh db
  message ← get scope conversation_id done.1 done.0
  ok (done.0, message)
