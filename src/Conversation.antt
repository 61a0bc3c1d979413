-- ===== src/Conversation.antt =====
-- apps/server/src/conversation/service.ts: creating a conversation with its two participants, and
-- reading one. The check of its participants is that of packages/protocol/src/chat/policy.ts.
pub mod Creation
pub mod Cursor
pub mod Listing
use formation_chat_core.Prelude.{
  ℕ, Bool, true, false, not, ◌&&◌, ◌||◌, Option, none, some, List, [], ◌∷◌, ◌++◌, map, Result, ok,
  err, ◌>>=◌, or_throw, ◌==◌, if◌then◌else◌, find_first, select, order_by, any, holds,
}
use formation_chat_core.Database.{Db}
use formation_chat_core.Database.Rows.{
  Conversation, ConversationStatus, Participant, ParticipantKind, Command, resource,
  conversation_create,
}
use formation_chat_core.Database.Statements.{Scope, owns, is_in, find_command, command}
use formation_chat_core.Message.{resource_of}

pub data ConversationApiError : Type 0 where
  conversation_not_found idempotency_conflict invalid_cursor : ConversationApiError

-- A participant of the API: the user with a principal, or the agent with its reference. The column
-- that the code casts to a text may be absent.
pub data ParticipantView : Type 0 where
  user_participant : (participant_id : ℕ) (principal_id : Option ℕ) → ParticipantView
  agent_participant : (participant_id : ℕ) (agent_ref : Option ℕ) → ParticipantView

pub record ConversationView : Type 0 where
  pub conversation_id : ℕ
  pub tenant_id : ℕ
  pub site_id : ℕ
  pub principal_id : ℕ
  pub agent_ref : ℕ
  pub status : ConversationStatus
  pub participants : List ParticipantView
  pub created_at : ℕ
  pub updated_at : ℕ

-- The identifiers that the service makes.
pub record ConversationIds : Type 0 where
  pub id : ℕ
  pub user_participant_id : ℕ
  pub agent_participant_id : ℕ

abbrev pub is_user_kind : Participant → Bool
is_user_kind row = elim row.kind [ ParticipantKind.user ↦ true | ParticipantKind.agent ↦ false ]

-- The user before the agent.
abbrev pub user_first : Participant → Participant → Bool
user_first a b = is_user_kind a || not (is_user_kind b)

abbrev pub view_participant : Participant → ParticipantView
view_participant row =
    if is_user_kind row
    then user_participant row.participant_id row.principal_id
    else agent_participant row.participant_id row.agent_ref

abbrev pub is_participant_of : Scope → ℕ → Participant → Bool
is_participant_of scope conversation_id row =
    is_in scope.tenant_id scope.site_id conversation_id row.tenant_id row.site_id
      row.conversation_id

unfoldable pub get : Scope → ℕ → Db → Result ConversationApiError ConversationView
get scope conversation_id db = do
  conversation ←
      or_throw (find_first (owns scope conversation_id) db.conversations) conversation_not_found
  let participants =
      order_by user_first
        (select (is_participant_of scope conversation_id) db.conversation_participants)
  ok (record {
    conversation_id = conversation.conversation_id;
    tenant_id = conversation.tenant_id;
    site_id = conversation.site_id;
    principal_id = conversation.principal_id;
    agent_ref = conversation.agent_ref;
    status = conversation.status;
    participants = map view_participant participants;
    created_at = conversation.created_at;
    updated_at = conversation.updated_at;
  })

-- The counters and times are the defaults of the columns.
unfoldable pub new_conversation : Scope → (agent_ref id now : ℕ) → Conversation
new_conversation scope agent_ref id now = record {
  conversation_id = id;
  tenant_id = scope.tenant_id;
  site_id = scope.site_id;
  principal_id = scope.principal_id;
  agent_ref = agent_ref;
  status = ConversationStatus.active;
  next_message_sequence = 1;
  next_event_sequence = 1;
  created_at = now;
  updated_at = now;
}

unfoldable pub new_user : Scope → ConversationIds → Participant
new_user scope ids = record {
  participant_id = ids.user_participant_id;
  tenant_id = scope.tenant_id;
  site_id = scope.site_id;
  conversation_id = ids.id;
  kind = ParticipantKind.user;
  principal_id = some scope.principal_id;
  agent_ref = none;
}

unfoldable pub new_agent : Scope → (agent_ref : ℕ) → ConversationIds → Participant
new_agent scope agent_ref ids = record {
  participant_id = ids.agent_participant_id;
  tenant_id = scope.tenant_id;
  site_id = scope.site_id;
  conversation_id = ids.id;
  kind = ParticipantKind.agent;
  principal_id = none;
  agent_ref = some agent_ref;
}

unfoldable pub store_conversation :
    Scope → (agent_ref idempotency_key request_hash now : ℕ) → ConversationIds → Db → Db
store_conversation scope agent_ref idempotency_key request_hash now ids db = record db {
  conversations = db.conversations ++ new_conversation scope agent_ref ids.id now ∷ [];
  conversation_participants =
      db.conversation_participants ++ new_user scope ids ∷ new_agent scope agent_ref ids ∷ [];
  command_idempotency =
      db.command_idempotency
      ++ command scope conversation_create idempotency_key request_hash (resource ids.id) now ∷ [];
}

unfoldable pub create_transaction :
    Scope
    → (agent_ref idempotency_key request_hash now : ℕ) → ConversationIds
    → Db
    → Result ConversationApiError (Db × ℕ)
create_transaction scope agent_ref idempotency_key request_hash now ids db =
    elim (find_command scope conversation_create idempotency_key db.command_idempotency) [
      | some previous ↦
          if previous.request_hash == request_hash
          then ok (db, resource_of previous.resource_id)
          else err idempotency_conflict
      | none ↦
          ok (store_conversation scope agent_ref idempotency_key request_hash now ids db, ids.id)
    ]

-- `create`: `request_hash` is the digest of the text `{}`.
unfoldable pub create :
    (request_hash : ℕ)
    → Scope
    → (agent_ref idempotency_key now : ℕ) → ConversationIds
    → Db
    → Result ConversationApiError (Db × ConversationView)
create request_hash scope agent_ref idempotency_key now ids db = do
  done ← create_transaction scope agent_ref idempotency_key request_hash now ids db
  conversation ← get scope done.1 done.0
  ok (done.0, conversation)

-- `validateConversationParticipantContext`.
abbrev pub participant_id_of : ParticipantView → ℕ
participant_id_of (user_participant id _) = id
participant_id_of (agent_participant id _) = id

unfoldable pub are_distinct : List ℕ → Bool
are_distinct [] = true
are_distinct (x ∷ xs) = not (any (λ y. y == x) xs) && are_distinct xs

unfoldable pub first_principal : List ParticipantView → Option ℕ
first_principal [] = none
first_principal (user_participant _ principal_id ∷ _) = principal_id
first_principal (agent_participant _ _ ∷ ps) = first_principal ps

unfoldable pub first_agent_ref : List ParticipantView → Option ℕ
first_agent_ref [] = none
first_agent_ref (agent_participant _ agent_ref ∷ _) = agent_ref
first_agent_ref (user_participant _ _ ∷ ps) = first_agent_ref ps

unfoldable pub validate_participants : ConversationView → Bool
validate_participants c =
    are_distinct (map participant_id_of c.participants)
    && holds (λ p. p == c.principal_id) (first_principal c.participants)
    && holds (λ a. a == c.agent_ref) (first_agent_ref c.participants)
