-- ===== src/Client/Types.antt =====
-- packages/browser-client/src/types.ts: the state of the client and the actions on it.
-- A session and a conversation are opaque to the state: numbers stand for them.
use formation_chat_core.Prelude.{ℕ, Bool, Option, List}
use formation_chat_core.Database.Rows.{Text, ContentPart, ContactRequest}
use formation_chat_core.Message.{MessageView}
use formation_chat_core.Event.{EventView}

pub data Phase : Type 0 where
  idle bootstrapping ready streaming reconnecting error : Phase

pub data ErrorMessage : Type 0 where
  agent_run_failed : ErrorMessage
  other : ℕ → ErrorMessage

pub record ChatClientError : Type 0 where
  pub code : ℕ
  pub message : ErrorMessage
  pub retryable : Bool

pub data LiveStatus : Type 0 where
  streaming completed failed cancelled : LiveStatus

pub record LiveMessage : Type 0 where
  pub message_id : ℕ
  pub status : LiveStatus
  pub text : Text
  pub parts : List ContentPart

pub data ClientRunStatus : Type 0 where
  queued running completed failed cancel_requested cancelled : ClientRunStatus

pub record RunState : Type 0 where
  pub run_id : Option ℕ
  pub status : ClientRunStatus
  pub failure_code : Option ℕ

pub record HandoffState : Type 0 where
  pub handoff_id : ℕ
  -- The status `completed`, and not `requested`.
  pub is_completed : Bool

pub record ChatState : Type 0 where
  pub phase : Phase
  pub session : Option ℕ
  pub conversation : Option ℕ
  pub messages : List MessageView
  pub live_messages : List (ℕ × LiveMessage)
  pub run : Option RunState
  pub contact_request : Option ContactRequest
  pub handoff : Option HandoffState
  pub last_event_id : Option ℕ
  pub last_event_sequence : ℕ
  pub recent_event_ids : List ℕ
  pub error : Option ChatClientError

pub data Action : Type 0 where
  phase_changed : Phase → Action
  session_loaded : ℕ → Action
  snapshot_loaded : (conversation : ℕ) → List MessageView → Action
  conversation_cleared live_cleared : Action
  message_submitted : MessageView → Action
  run_cancelled : (run_id : ℕ) (requested : Bool) → Action
  run_retrying : Action
  structured_input_submitted : (request_id : ℕ) → Action
  event_received : EventView → Action
  cursor_restored : (event_id sequence : ℕ) → Action
  cursor_cleared : Action
  connection_failed error_raised : ChatClientError → Action
