-- ===== src/Retention.antt =====
-- apps/server/src/privacy/retention.ts: old contact values are blanked, and the old conversations of
-- visitors deleted with all that hangs on them. Every principal is an anonymous one, the only kind
-- there is. A query with a limit takes the rows in the order of the table, since it names none.
pub mod References
pub mod Links
pub mod Redaction
pub mod Principals
use formation_chat_core.Prelude.{
  ℕ, ◌+◌, ◌*◌, Bool, true, false, not, ◌&&◌, Option, none, some, List, [], ◌∷◌, length, ltb, ◌==◌,
  if◌then◌else◌, is_some, select, update_where, count_where, any, take,
}
use formation_chat_core.Database.{Db}
use formation_chat_core.Database.Rows.{
  Conversation, Participant, Message, Event, Run, Handoff, InputRequest, InputStatus, Principal,
  BrowserSession, Bootstrap, Command,
}
use formation_chat_core.Database.Statements.{is_in}

pub record RetentionPolicy : Type 0 where
  pub anonymous_days : ℕ
  -- No statement reads it.
  pub authenticated_days : ℕ
  pub contact_value_hours : ℕ

pub record RetentionResult : Type 0 where
  pub conversations_deleted : ℕ
  pub principals_deleted : ℕ
  pub contact_values_redacted : ℕ

-- Whether a time is before the cutoff, so many milliseconds before now.
abbrev pub is_before : (time span now : ℕ) → Bool
is_before time span now = ltb (time + span) now

abbrev pub anonymous_span : RetentionPolicy → ℕ
anonymous_span policy = policy.anonymous_days * 86400000

abbrev pub contact_span : RetentionPolicy → ℕ
contact_span policy = policy.contact_value_hours * 3600000

unfoldable pub is_stale_value : RetentionPolicy → ℕ → InputRequest → Bool
is_stale_value policy now row =
    is_some row.value && is_before row.updated_at (contact_span policy) now

unfoldable pub redact : RetentionPolicy → ℕ → Db → Db
redact policy now db = record db {
  structured_input_requests =
      update_where (is_stale_value policy now)
        (λ row. record row { value = none; status = InputStatus.expired })
        db.structured_input_requests;
}

abbrev pub is_principal_of : Conversation → Principal → Bool
is_principal_of c row =
    row.tenant_id == c.tenant_id && row.site_id == c.site_id && row.principal_id == c.principal_id

unfoldable pub is_expired : RetentionPolicy → ℕ → List Principal → Conversation → Bool
is_expired policy now principals row =
    any (is_principal_of row) principals && is_before row.updated_at (anonymous_span policy) now

-- Whether three columns are those of the conversation.
abbrev pub is_inside : Conversation → (tenant_id site_id conversation_id : ℕ) → Bool
is_inside c tenant_id site_id conversation_id =
    is_in c.tenant_id c.site_id c.conversation_id tenant_id site_id conversation_id

-- The references between rows: the columns of the foreign keys of
-- apps/server/src/database/migrations.
abbrev pub is_run_id : (run_id : ℕ) → Run → Bool
is_run_id run_id row = row.run_id == run_id

abbrev pub is_trigger_of : Run → Message → Bool
is_trigger_of run row = row.message_id == run.trigger_message_id

abbrev pub is_owner_of : BrowserSession → Principal → Bool
is_owner_of session row =
    row.tenant_id == session.tenant_id
    && row.site_id == session.site_id
    && row.principal_id == session.principal_id

-- `delete from agent_runs where …`, with the handoffs and inputs of the deleted runs: their keys on
-- `run_id` cascade.
unfoldable pub delete_runs : (Run → Bool) → Db → Db
delete_runs test db = record db {
  agent_runs = select (λ row. not (test row)) db.agent_runs;
  handoffs =
      select
        (λ (row : Handoff). not (any (λ run. test run && is_run_id row.run_id run) db.agent_runs))
        db.handoffs;
  structured_input_requests =
      select
        (λ (row : InputRequest).
          not (any (λ run. test run && is_run_id row.run_id run) db.agent_runs))
        db.structured_input_requests;
}

-- `delete from messages where …`, with the runs that the deleted messages triggered.
unfoldable pub delete_messages : (Message → Bool) → Db → Db
delete_messages test db =
    delete_runs (λ run. any (λ message. test message && is_trigger_of run message) db.messages)
      (record db { messages = select (λ row. not (test row)) db.messages })

-- The statements in their order. The keys of the participants' and the conversations' own children
-- have nothing left to cascade to or to refuse: those rows are gone by the same three columns.
unfoldable pub delete_requests : Conversation → Db → Db
delete_requests c db = record db {
  structured_input_requests =
      select
        (λ (row : InputRequest). not (is_inside c row.tenant_id row.site_id row.conversation_id))
        db.structured_input_requests;
  handoffs =
      select (λ (row : Handoff). not (is_inside c row.tenant_id row.site_id row.conversation_id))
        db.handoffs;
}

unfoldable pub delete_events : Conversation → Db → Db
delete_events c db = record db {
  conversation_events =
      select (λ (row : Event). not (is_inside c row.tenant_id row.site_id row.conversation_id))
        db.conversation_events;
}

unfoldable pub delete_members : Conversation → Db → Db
delete_members c db = record db {
  conversation_participants =
      select
        (λ (row : Participant). not (is_inside c row.tenant_id row.site_id row.conversation_id))
        db.conversation_participants;
  conversations =
      select
        (λ (row : Conversation). not (is_inside c row.tenant_id row.site_id row.conversation_id))
        db.conversations;
}

unfoldable pub delete_conversation : Conversation → Db → Db
delete_conversation c db = delete_members c (
    delete_messages (λ (row : Message). is_inside c row.tenant_id row.site_id row.conversation_id)
      (delete_events c (
        delete_runs (λ (row : Run). is_inside c row.tenant_id row.site_id row.conversation_id)
          (delete_requests c db))))

unfoldable pub delete_conversations : List Conversation → Db → Db
delete_conversations [] db = db
delete_conversations (c ∷ cs) db = delete_conversations cs (delete_conversation c db)

-- The old commands, bootstraps and sessions.
unfoldable pub delete_commands : RetentionPolicy → ℕ → Db → Db
delete_commands policy now db = record db {
  command_idempotency =
      select (λ (row : Command). not (is_before row.created_at (anonymous_span policy) now))
        db.command_idempotency;
  session_bootstrap_idempotency =
      select (λ (row : Bootstrap). not (is_before row.created_at (anonymous_span policy) now))
        db.session_bootstrap_idempotency;
  browser_sessions =
      select (λ (row : BrowserSession). not (ltb row.expires_at now)) db.browser_sessions;
}

abbrev pub is_same_principal : Principal → Principal → Bool
is_same_principal p row =
    row.tenant_id == p.tenant_id && row.site_id == p.site_id && row.principal_id == p.principal_id

abbrev pub has_conversation : Principal → List Conversation → Bool
has_conversation p conversations = any (λ c. is_principal_of c p) conversations

-- `delete from principals where …`, with the principal's sessions: their key cascades.
unfoldable pub delete_principal : Principal → Db → Db
delete_principal p db = record db {
  principals = select (λ row. not (is_same_principal p row)) db.principals;
  browser_sessions =
      select
        (λ (row : BrowserSession).
          not (any (λ q. is_same_principal p q && is_owner_of row q) db.principals))
        db.browser_sessions;
}

-- A principal that has a conversation is passed over. The count is of the deleted rows.
unfoldable pub delete_principals : List Principal → Db → Db × ℕ
delete_principals [] db = (db, 0)
delete_principals (p ∷ ps) db =
    let deleted = delete_principals ps (delete_principal p db) in
    let passed = delete_principals ps db in
    if has_conversation p db.conversations
    then passed
    else (deleted.0, count_where (is_same_principal p) db.principals + deleted.1)

unfoldable pub run_once : RetentionPolicy → ℕ → Db → Db × RetentionResult
run_once policy now db =
    let redacted = redact policy now db in
    let expired =
      take 100 (select (is_expired policy now redacted.principals) redacted.conversations) in
    let kept = delete_commands policy now (delete_conversations expired redacted) in
    let candidates = take 100 (
      select (λ (row : Principal). is_before row.created_at (anonymous_span policy) now)
        kept.principals) in
    let (after, principals_deleted) = delete_principals candidates kept in
    (
      after,
      record {
        conversations_deleted = length expired;
        principals_deleted = principals_deleted;
        contact_values_redacted =
            count_where (is_stale_value policy now) db.structured_input_requests;
      },
    )
