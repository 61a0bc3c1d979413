-- ===== src/Examples/Data.antt =====
-- The data of the examples: a conversation with its participants, and the calls made on it.
use formation_chat_core.Prelude.{
  ℕ, refl, Option, none, some, List, [], ◌∷◌, Result, ok, err, length,
}
use formation_chat_core.Database.{Db}
use formation_chat_core.Database.Rows.{
  ContentPart, text, Conversation, ConversationStatus, Participant, ParticipantKind, Principal,
}
use formation_chat_core.Database.Statements.{Scope}
use formation_chat_core.Message.{Fresh}
use formation_chat_core.Message.Cursor.{Base64}

abbrev pub value_of {ℓ} : {E : Type 0} {A : Type ℓ} → Result E A → A → A
value_of (ok a) b = a
value_of (err e) b = b

abbrev pub some_or {ℓ} : {A : Type ℓ} → Option A → A → A
some_or none b = b
some_or (some a) b = a

abbrev pub scope : Scope
scope = record { tenant_id = 1; site_id = 2; principal_id = 3 }

abbrev pub chat : Conversation
chat = record {
  conversation_id = 7;
  tenant_id = 1;
  site_id = 2;
  principal_id = 3;
  agent_ref = 9;
  status = ConversationStatus.active;
  next_message_sequence = 1;
  next_event_sequence = 1;
  created_at = 100;
  updated_at = 100;
}

abbrev pub visitor : Participant
visitor = record {
  participant_id = 20;
  tenant_id = 1;
  site_id = 2;
  conversation_id = 7;
  kind = ParticipantKind.user;
  principal_id = some 3;
  agent_ref = none;
}

abbrev pub agent : Participant
agent = record {
  participant_id = 21;
  tenant_id = 1;
  site_id = 2;
  conversation_id = 7;
  kind = ParticipantKind.agent;
  principal_id = none;
  agent_ref = some 9;
}

abbrev pub person : Principal
person = record {
  principal_id = 3;
  tenant_id = 1;
  site_id = 2;
  browser_identity = 4;
  created_at = 90;
}

abbrev pub empty_db : Db
empty_db = record {
  principals = person ∷ [];
  browser_sessions = [];
  session_bootstrap_idempotency = [];
  conversations = chat ∷ [];
  conversation_participants = visitor ∷ agent ∷ [];
  messages = [];
  command_idempotency = [];
  conversation_events = [];
  agent_runs = [];
  handoffs = [];
  structured_input_requests = [];
}

abbrev pub hello : List ContentPart
hello = text (104 ∷ 105 ∷ []) ∷ []

abbrev pub digest : List ContentPart → ℕ
digest parts = length parts

abbrev pub fresh : Fresh
fresh = record { message_id = 30; run_id = 31; assistant_message_id = 32 }

abbrev pub refreshed : Fresh
refreshed = record { message_id = 40; run_id = 41; assistant_message_id = 42 }

abbrev pub plain : Base64
plain = record { encode = λ t. t; decode = λ t. t; decode_encode = λ t h. refl; decode_nil = refl }
