-- ===== src/Database/Statements.antt =====
-- The `where` tests that the services share, and the rows of `command_idempotency` that make a
-- command idempotent (apps/server/src/*/service.ts).
use formation_chat_core.Prelude.{
  ℕ, ◌≡◌, refl, Bool, true, false, ◌&&◌, Option, none, some, List, ◌∷◌, [], ◌++◌, arith, ◌==◌,
  find_first, ==_refl, find_first-append,
}
use formation_chat_core.Database.Rows.{
  Conversation, Command, RunStatus, HandoffStatus, MessageStatus, Operation, Resource,
  conversation_create, message_create, run_cancel, email_handoff_create, input_submit,
}

-- The part of the claims of a session token that the services use.
pub record Scope : Type 0 where
  pub tenant_id : ℕ
  pub site_id : ℕ
  pub principal_id : ℕ

unfoldable pub owns : Scope → ℕ → Conversation → Bool
owns scope conversation_id row =
    row.tenant_id == scope.tenant_id
    && row.site_id == scope.site_id
    && row.principal_id == scope.principal_id
    && row.conversation_id == conversation_id

-- Three columns against the tenant, the site and the conversation.
unfoldable pub is_in : (tenant_id site_id conversation_id tenant site conversation : ℕ) → Bool
is_in tenant_id site_id conversation_id tenant site conversation =
    tenant == tenant_id && site == site_id && conversation == conversation_id

abbrev pub operation_eq : Operation → Operation → Bool
operation_eq conversation_create conversation_create = true
operation_eq (message_create c) (message_create d) = c == d
operation_eq (run_cancel c) (run_cancel d) = c == d
operation_eq (email_handoff_create c) (email_handoff_create d) = c == d
operation_eq (input_submit c r) (input_submit d s) = c == d && r == s
operation_eq _ _ = false

unfoldable pub is_command : Scope → Operation → ℕ → Command → Bool
is_command scope operation idempotency_key row =
    row.tenant_id == scope.tenant_id
    && row.site_id == scope.site_id
    && row.principal_id == scope.principal_id
    && operation_eq row.operation operation
    && row.idempotency_key == idempotency_key

unfoldable pub find_command : Scope → Operation → ℕ → List Command → Option Command
find_command scope operation idempotency_key rows =
    find_first (is_command scope operation idempotency_key) rows

unfoldable pub command : Scope → Operation → ℕ → ℕ → Resource → ℕ → Command
command scope operation idempotency_key request_hash resource_id now = record {
  tenant_id = scope.tenant_id;
  site_id = scope.site_id;
  principal_id = scope.principal_id;
  operation = operation;
  idempotency_key = idempotency_key;
  request_hash = request_hash;
  resource_id = resource_id;
  created_at = now;
}

operation_eq_refl : (o : Operation) → operation_eq o o ≡ true
operation_eq_refl conversation_create = refl
operation_eq_refl (message_create c) = ==_refl c
operation_eq_refl (run_cancel c) = ==_refl c
operation_eq_refl (email_handoff_create c) = ==_refl c
operation_eq_refl (input_submit c r) = ground arith

pub is_command-command :
    (s : Scope) (o : Operation) (key hash : ℕ) (r : Resource) (now : ℕ)
    → is_command s o key (command s o key hash r now) ≡ true
unfolding is_command command
is_command-command s o key hash r now = ground (arith, operation_eq_refl o)

-- A command that was not there is found once it is recorded.
pub find_command-append :
    (s : Scope) (o : Operation) (key hash : ℕ) (r : Resource) (now : ℕ) (rows : List Command)
    → find_command s o key rows ≡ none
    → find_command s o key (rows ++ command s o key hash r now ∷ [])
      ≡ some (command s o key hash r now)
unfolding find_command
find_command-append s o key hash r now rows h =
    find_first-append (is_command s o key) rows (command s o key hash r now) h
      (is_command-command s o key hash r now)

-- The column tests on a status.
abbrev pub is_queued : RunStatus → Bool
is_queued RunStatus.queued = true
is_queued _ = false

abbrev pub is_running : RunStatus → Bool
is_running RunStatus.running = true
is_running _ = false

abbrev pub is_waiting : RunStatus → Bool
is_waiting RunStatus.waiting_for_input = true
is_waiting _ = false

-- `status in ('cancel_requested', 'cancelled')`.
abbrev pub is_cancelling : RunStatus → Bool
is_cancelling RunStatus.cancel_requested = true
is_cancelling RunStatus.cancelled = true
is_cancelling _ = false

-- `status not in ('completed', 'failed')`.
abbrev pub is_open_handoff : HandoffStatus → Bool
is_open_handoff HandoffStatus.completed = false
is_open_handoff HandoffStatus.failed = false
is_open_handoff _ = true

-- `status in ('pending', 'streaming')`.
abbrev pub is_unfinished : MessageStatus → Bool
is_unfinished MessageStatus.pending = true
is_unfinished MessageStatus.streaming = true
is_unfinished _ = false
