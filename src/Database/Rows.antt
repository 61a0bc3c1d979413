-- ===== src/Database/Rows.antt =====
-- apps/server/src/database/types.ts: one record for each table, and the values of its columns.
-- The parts and events come from packages/protocol/src/chat/content.ts and events.ts.
use formation_chat_core.Prelude.{ℕ, Bool, true, false, Option, List}

-- A text as its code units.
abbrev pub Text : Type 0
Text = List ℕ

pub record Citation : Type 0 where
  pub citation_id : ℕ
  pub source_id : ℕ
  pub title : Option Text
  pub url : Option Text
  pub excerpt : Option Text

pub data ToolStatus : Type 0 where
  started completed failed : ToolStatus

pub record FileReference : Type 0 where
  pub file_id : ℕ
  pub name : Text
  pub media_type : Option Text
  pub url : Option Text

pub data PartStatus : Type 0 where
  pending submitted declined : PartStatus

pub data ContentPart : Type 0 where
  text : Text → ContentPart
  tool_status : (tool_call_id : ℕ) (label : Text) (status : ToolStatus) → ContentPart
  citation : Citation → ContentPart
  file_reference : FileReference → ContentPart
  structured_input :
      (request_id : ℕ) (label : Text) (required : Bool) (status : PartStatus) → ContentPart

pub data Visibility : Type 0 where
  public operator internal : Visibility

abbrev pub is_public : Visibility → Bool
is_public Visibility.public = true
is_public _ = false

pub record ContactRequest : Type 0 where
  pub request_id : ℕ
  pub prompt : Text
  pub required : Bool

-- The type of an event with its data.
pub data EventBody : Type 0 where
  run_started : (agent_ref : ℕ) → EventBody
  run_completed : EventBody
  run_failed : (code : ℕ) → EventBody
  message_started : EventBody
  message_delta : (delta : Text) → EventBody
  message_completed : (parts : List ContentPart) → EventBody
  tool_started : (tool_call_id : ℕ) (label : Text) → EventBody
  tool_completed : (tool_call_id : ℕ) → EventBody
  tool_failed : (tool_call_id : ℕ) → EventBody
  citation_added : Citation → EventBody
  contact_requested : ContactRequest → EventBody
  handoff_requested : (handoff_id : ℕ) → EventBody
  handoff_completed : (handoff_id : ℕ) → EventBody
  sync_required : EventBody

pub data ConversationStatus : Type 0 where
  active completed cancelled : ConversationStatus

pub data ParticipantKind : Type 0 where
  user agent : ParticipantKind

pub data Role : Type 0 where
  user assistant system : Role

pub data MessageStatus : Type 0 where
  pending streaming completed failed cancelled : MessageStatus

pub data TriggerType : Type 0 where
  message agent_email_handoff : TriggerType

pub data RunStatus : Type 0 where
  queued running waiting_for_input completed failed cancel_requested cancelled : RunStatus

-- Why a run has failed: a code of the worker, or the code that the connector reports.
pub data RunErrorCode : Type 0 where
  connector_not_found invalid_connector_event connector_incomplete : RunErrorCode
  connector_execution_failed : RunErrorCode
  reported : (code : ℕ) → RunErrorCode

pub data HandoffKind : Type 0 where
  human agent_email : HandoffKind

pub data HandoffStatus : Type 0 where
  requested awaiting_contact delivering completed failed : HandoffStatus

pub data Purpose : Type 0 where
  handoff_email_delivery agent_email_handoff : Purpose

pub data InputStatus : Type 0 where
  pending submitted declined expired : InputStatus

pub data ConsentStatus : Type 0 where
  granted declined : ConsentStatus

pub data CancellationStatus : Type 0 where
  cancel_requested cancelled already_finished : CancellationStatus

-- The operation of a command, which the code spells as a text with the identifiers in it.
pub data Operation : Type 0 where
  conversation_create : Operation
  message_create run_cancel email_handoff_create : (conversation_id : ℕ) → Operation
  input_submit : (conversation_id request_id : ℕ) → Operation

-- What a command has made: the identifier of a resource, or a run with what its cancellation came
-- to, `<run>|<status>`.
pub data Resource : Type 0 where
  resource : ℕ → Resource
  outcome : (run_id : ℕ) → CancellationStatus → Resource

pub record Principal : Type 0 where
  pub principal_id : ℕ
  pub tenant_id : ℕ
  pub site_id : ℕ
  pub browser_identity : ℕ
  pub created_at : ℕ

pub record BrowserSession : Type 0 where
  pub session_id : ℕ
  pub tenant_id : ℕ
  pub site_id : ℕ
  pub principal_id : ℕ
  pub expires_at : ℕ

pub record Bootstrap : Type 0 where
  pub site_id : ℕ
  pub idempotency_key : ℕ
  pub request_hash : ℕ
  pub browser_identity : ℕ
  pub created_at : ℕ

pub record Conversation : Type 0 where
  pub conversation_id : ℕ
  pub tenant_id : ℕ
  pub site_id : ℕ
  pub principal_id : ℕ
  pub agent_ref : ℕ
  pub status : ConversationStatus
  pub next_message_sequence : ℕ
  pub next_event_sequence : ℕ
  pub created_at : ℕ
  pub updated_at : ℕ

pub record Participant : Type 0 where
  pub participant_id : ℕ
  pub tenant_id : ℕ
  pub site_id : ℕ
  pub conversation_id : ℕ
  pub kind : ParticipantKind
  pub principal_id : Option ℕ
  pub agent_ref : Option ℕ

pub record Message : Type 0 where
  pub message_id : ℕ
  pub tenant_id : ℕ
  pub site_id : ℕ
  pub conversation_id : ℕ
  pub sequence : ℕ
  pub participant_id : ℕ
  pub role : Role
  pub status : MessageStatus
  pub parts : List ContentPart
  pub created_at : ℕ
  pub completed_at : Option ℕ

pub record Command : Type 0 where
  pub tenant_id : ℕ
  pub site_id : ℕ
  pub principal_id : ℕ
  pub operation : Operation
  pub idempotency_key : ℕ
  pub request_hash : ℕ
  pub resource_id : Resource
  pub created_at : ℕ

pub record Event : Type 0 where
  pub event_id : ℕ
  pub tenant_id : ℕ
  pub site_id : ℕ
  pub conversation_id : ℕ
  pub sequence : ℕ
  pub visibility : Visibility
  pub run_id : Option ℕ
  pub message_id : Option ℕ
  pub body : EventBody
  pub occurred_at : ℕ

pub record Run : Type 0 where
  pub run_id : ℕ
  pub tenant_id : ℕ
  pub site_id : ℕ
  pub conversation_id : ℕ
  pub trigger_message_id : ℕ
  pub trigger_type : TriggerType
  pub assistant_message_id : ℕ
  pub agent_ref : ℕ
  pub status : RunStatus
  pub attempt : ℕ
  pub available_at : ℕ
  pub claimed_at : Option ℕ
  pub lease_expires_at : Option ℕ
  pub cancel_requested_at : Option ℕ
  pub error_code : Option RunErrorCode
  pub created_at : ℕ
  pub updated_at : ℕ
  pub completed_at : Option ℕ

pub record Handoff : Type 0 where
  pub handoff_id : ℕ
  pub tenant_id : ℕ
  pub site_id : ℕ
  pub conversation_id : ℕ
  pub run_id : ℕ
  pub kind : HandoffKind
  pub status : HandoffStatus
  pub created_at : ℕ
  pub updated_at : ℕ

pub record InputRequest : Type 0 where
  pub request_id : ℕ
  pub tenant_id : ℕ
  pub site_id : ℕ
  pub conversation_id : ℕ
  pub run_id : ℕ
  pub purpose : Purpose
  pub prompt : Text
  pub required : Bool
  pub status : InputStatus
  pub value : Option Text
  pub consent_status : Option ConsentStatus
  pub consent_recorded_at : Option ℕ
  pub created_at : ℕ
  pub updated_at : ℕ
