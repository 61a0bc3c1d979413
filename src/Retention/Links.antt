-- ===== src/Retention/Links.antt =====
-- apps/server/src/privacy/retention.ts: the foreign keys behind a pass of the retention.
use formation_chat_core.Prelude.{
  ℕ, ◌≡◌, refl, false, not, ◌&&◌, Bool, List, [], ◌∷◌, arith, All, All-update_where, All-map,
  Bool-cases, inl, inr, any, select, All-select, select-All,
}
use formation_chat_core.Database.{Db}
use formation_chat_core.Database.Rows.{
  Conversation, Participant, Message, Event, Run, Handoff, InputRequest, Principal,
}
use formation_chat_core.Database.Statements.{is_in}
use formation_chat_core.Retention.{
  RetentionPolicy, is_stale_value, redact, is_principal_of, is_inside, delete_conversation,
  delete_conversations, delete_commands, is_same_principal, has_conversation, delete_principals,
  delete_principal, delete_runs, delete_messages, delete_requests, delete_events, delete_members,
  is_run_id, is_trigger_of, is_owner_of, run_once,
}
use formation_chat_core.Retention.References.{
  Refer, IsLinked, is_conversation, is_author_of, kept-Refer, cascade-Refer,
}

delete_requests-IsLinked :
    (c : Conversation) (db : Db) → IsLinked db → IsLinked (delete_requests c db)
unfolding delete_requests
delete_requests-IsLinked c db h = record {
  sessions = h.sessions;
  conversations = h.conversations;
  participants = h.participants;
  authors = h.authors;
  events = h.events;
  runs = h.runs;
  triggers = h.triggers;
  handoffs = All-select _ _ db.handoffs h.handoffs;
  inputs = All-select _ _ db.structured_input_requests h.inputs;
}

delete_runs-IsLinked : (test : Run → Bool) (db : Db) → IsLinked db → IsLinked (delete_runs test db)
unfolding delete_runs
delete_runs-IsLinked test db h = record {
  sessions = h.sessions;
  conversations = h.conversations;
  participants = h.participants;
  authors = h.authors;
  events = h.events;
  runs = All-select _ _ db.agent_runs h.runs;
  triggers = All-select _ _ db.agent_runs h.triggers;
  handoffs =
      cascade-Refer (λ (r : Handoff). is_run_id r.run_id) test db.handoffs db.agent_runs h.handoffs;
  inputs =
      cascade-Refer (λ (r : InputRequest). is_run_id r.run_id) test db.structured_input_requests
        db.agent_runs h.inputs;
}

delete_events-IsLinked : (c : Conversation) (db : Db) → IsLinked db → IsLinked (delete_events c db)
unfolding delete_events
delete_events-IsLinked c db h = record {
  sessions = h.sessions;
  conversations = h.conversations;
  participants = h.participants;
  authors = h.authors;
  events = All-select _ _ db.conversation_events h.events;
  runs = h.runs;
  triggers = h.triggers;
  handoffs = h.handoffs;
  inputs = h.inputs;
}

delete_messages-IsLinked :
    (test : Message → Bool) (db : Db) → IsLinked db → IsLinked (delete_messages test db)
unfolding delete_messages delete_runs
delete_messages-IsLinked test db h =
    let gone = λ (r : Run). any (λ m. test m && is_trigger_of r m) db.messages in
    record {
      sessions = h.sessions;
      conversations = h.conversations;
      participants = h.participants;
      authors = All-select _ _ db.messages h.authors;
      events = h.events;
      runs = All-select _ _ db.agent_runs h.runs;
      triggers = cascade-Refer is_trigger_of test db.agent_runs db.messages h.triggers;
      handoffs =
          cascade-Refer (λ (r : Handoff). is_run_id r.run_id) gone db.handoffs db.agent_runs
            h.handoffs;
      inputs =
          cascade-Refer (λ (r : InputRequest). is_run_id r.run_id) gone db.structured_input_requests
            db.agent_runs h.inputs;
    }

-- The rows of a conversation that the statements before its last two have deleted.
abbrev Outside : {A : Type 0} → Conversation → (tenant site id : A → ℕ) → List A → Type 0
Outside c tenant site id rows = All (λ r. is_inside c (tenant r) (site r) (id r) ≡ false) rows

record IsEmptied (c : Conversation) (db : Db) : Type 0 where
  messages :
      Outside c (λ (r : Message). r.tenant_id) (λ r. r.site_id) (λ r. r.conversation_id) db.messages
  events :
      Outside c
        (λ (r : Event). r.tenant_id)
        (λ r. r.site_id)
        (λ r. r.conversation_id)
        db.conversation_events
  runs :
      Outside c (λ (r : Run). r.tenant_id) (λ r. r.site_id) (λ r. r.conversation_id) db.agent_runs

outside-conversation :
    (c : Conversation) (tenant site id : ℕ) (cs : List Conversation)
    → is_inside c tenant site id ≡ false
    → any
        (λ (d : Conversation).
          is_inside c d.tenant_id d.site_id d.conversation_id && is_conversation tenant site id d)
        cs
      ≡ false
unfolding any is_in
outside-conversation c tenant site id [] h = refl
outside-conversation c tenant site id (d ∷ ds) h =
    ground (arith, outside-conversation c tenant site id ds h)

outside-author :
    (c : Conversation) (m : Message) (rows : List Participant)
    → is_inside c m.tenant_id m.site_id m.conversation_id ≡ false
    → any
        (λ (p : Participant).
          is_inside c p.tenant_id p.site_id p.conversation_id && is_author_of m p)
        rows
      ≡ false
unfolding any is_in
outside-author c m [] h = refl
outside-author c m (p ∷ ps) h = ground (arith, outside-author c m ps h)

-- The rows outside a conversation still name the conversations that they named.
module _ {A : Type 0} (tenant site id : A → ℕ) where
  Outside-Refer :
      (c : Conversation) (rows : List A) (cs : List Conversation)
      → Refer (λ r. is_conversation (tenant r) (site r) (id r)) rows cs
      → Outside c tenant site id rows
      → Refer
          (λ r. is_conversation (tenant r) (site r) (id r))
          rows
          (select
            (λ (d : Conversation). not (is_inside c d.tenant_id d.site_id d.conversation_id))
            cs)
  Outside-Refer c rows cs h k =
      kept-Refer (λ r. is_conversation (tenant r) (site r) (id r)) _ rows cs h
        (All-map (λ r out. outside-conversation c (tenant r) (site r) (id r) cs out) rows k)

delete_members-IsLinked :
    (c : Conversation) (db : Db) → IsLinked db → IsEmptied c db → IsLinked (delete_members c db)
unfolding delete_members
delete_members-IsLinked c db h e = record {
  sessions = h.sessions;
  conversations = All-select _ _ db.conversations h.conversations;
  participants =
      Outside-Refer (λ r. r.tenant_id) (λ r. r.site_id) (λ r. r.conversation_id) c _
        db.conversations (All-select _ _ db.conversation_participants h.participants)
        (select-All _ db.conversation_participants (λ r k. ground arith));
  authors = kept-Refer is_author_of _ db.messages db.conversation_participants h.authors (
      All-map (λ m out. outside-author c m db.conversation_participants out) db.messages
        e.messages);
  events =
      Outside-Refer (λ r. r.tenant_id) (λ r. r.site_id) (λ r. r.conversation_id) c
        db.conversation_events db.conversations h.events e.events;
  runs =
      Outside-Refer (λ r. r.tenant_id) (λ r. r.site_id) (λ r. r.conversation_id) c db.agent_runs
        db.conversations h.runs e.runs;
  triggers = h.triggers;
  handoffs = h.handoffs;
  inputs = h.inputs;
}

-- The statements before the last two leave no message, event or run of the conversation.
emptied :
    (c : Conversation) (db : Db)
    → IsEmptied c (
        delete_messages
          (λ (row : Message). is_inside c row.tenant_id row.site_id row.conversation_id)
          (delete_events c (
            delete_runs
              (λ (row : Run). is_inside c row.tenant_id row.site_id row.conversation_id)
              db)))
unfolding delete_messages delete_runs delete_events
emptied c db = record {
  messages = select-All _ db.messages (λ r k. ground arith);
  events = select-All _ db.conversation_events (λ r k. ground arith);
  runs = All-select _ _ _ (select-All _ db.agent_runs (λ r k. ground arith));
}

delete_conversation-IsLinked :
    (c : Conversation) (db : Db) → IsLinked db → IsLinked (delete_conversation c db)
unfolding delete_conversation
delete_conversation-IsLinked c db h =
    let requests = delete_requests-IsLinked c db h in
    let runs = delete_runs-IsLinked _ (delete_requests c db) requests in
    let events = delete_events-IsLinked c _ runs in
    delete_members-IsLinked c _ (delete_messages-IsLinked _ _ events)
      (emptied c (delete_requests c db))

delete_conversations-IsLinked :
    (cs : List Conversation) (db : Db) → IsLinked db → IsLinked (delete_conversations cs db)
unfolding delete_conversations
delete_conversations-IsLinked [] db h = h
delete_conversations-IsLinked (c ∷ cs) db h =
    delete_conversations-IsLinked cs (delete_conversation c db)
      (delete_conversation-IsLinked c db h)

redact-IsLinked :
    (policy : RetentionPolicy) (now : ℕ) (db : Db) → IsLinked db → IsLinked (redact policy now db)
unfolding redact
redact-IsLinked policy now db h = record {
  sessions = h.sessions;
  conversations = h.conversations;
  participants = h.participants;
  authors = h.authors;
  events = h.events;
  runs = h.runs;
  triggers = h.triggers;
  handoffs = h.handoffs;
  inputs =
      All-update_where _ (is_stale_value policy now) _ db.structured_input_requests (λ r e g. g)
        h.inputs;
}

delete_commands-IsLinked :
    (policy : RetentionPolicy) (now : ℕ) (db : Db)
    → IsLinked db
    → IsLinked (delete_commands policy now db)
unfolding delete_commands
delete_commands-IsLinked policy now db h = record {
  sessions = All-select _ _ db.browser_sessions h.sessions;
  conversations = h.conversations;
  participants = h.participants;
  authors = h.authors;
  events = h.events;
  runs = h.runs;
  triggers = h.triggers;
  handoffs = h.handoffs;
  inputs = h.inputs;
}

-- A principal without a conversation is nobody's.
free-conversation :
    (p : Principal) (c : Conversation) (ps : List Principal)
    → is_principal_of c p ≡ false
    → any (λ q. is_same_principal p q && is_principal_of c q) ps ≡ false
unfolding any
free-conversation p c [] h = refl
free-conversation p c (q ∷ qs) h = ground (arith, free-conversation p c qs h)

free-conversations :
    (p : Principal) (cs : List Conversation) (ps : List Principal)
    → has_conversation p cs ≡ false
    → All (λ c. any (λ q. is_same_principal p q && is_principal_of c q) ps ≡ false) cs
unfolding any
free-conversations p [] ps h = tt
free-conversations p (c ∷ cs) ps h =
    (free-conversation p c ps (ground arith), free-conversations p cs ps (ground arith))

delete_principal-IsLinked :
    (p : Principal) (db : Db)
    → has_conversation p db.conversations ≡ false
    → IsLinked db
    → IsLinked (delete_principal p db)
unfolding delete_principal
delete_principal-IsLinked p db free h = record {
  sessions =
      cascade-Refer is_owner_of (is_same_principal p) db.browser_sessions db.principals h.sessions;
  conversations =
      kept-Refer is_principal_of (is_same_principal p) db.conversations db.principals
        h.conversations (free-conversations p db.conversations db.principals free);
  participants = h.participants;
  authors = h.authors;
  events = h.events;
  runs = h.runs;
  triggers = h.triggers;
  handoffs = h.handoffs;
  inputs = h.inputs;
}

delete_principals-IsLinked :
    (ps : List Principal) (db : Db) → IsLinked db → IsLinked (delete_principals ps db).0
unfolding delete_principals
delete_principals-IsLinked [] db h = h
delete_principals-IsLinked (p ∷ ps) db h = elim (Bool-cases (has_conversation p db.conversations)) [
  | inl e ↦ rw (e, delete_principals) (delete_principals-IsLinked ps db h)
  | inr e ↦
      rw (e, delete_principals)
        (delete_principals-IsLinked ps (delete_principal p db) (delete_principal-IsLinked p db e h))
]

-- A pass of the retention keeps every foreign key between the tables of the chat core: of the
-- sessions and conversations on principals, of the participants, events and runs on conversations,
-- of the messages on participants, of the runs on the messages that triggered them, and of the
-- handoffs and inputs on runs.
pub run_once-IsLinked :
    (policy : RetentionPolicy) (now : ℕ) (db : Db)
    → IsLinked db
    → IsLinked (run_once policy now db).0
unfolding run_once
run_once-IsLinked policy now db h = delete_principals-IsLinked _ _ (
    delete_commands-IsLinked policy now _
      (delete_conversations-IsLinked _ _ (redact-IsLinked policy now db h)))
