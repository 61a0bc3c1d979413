-- ===== src/Run/Context.antt =====
-- apps/server/src/run/worker.ts, `loadContext`: the request that a connector gets, and the checks of
-- packages/protocol/src/chat/policy.ts on requests and events.
use formation_chat_core.Prelude.{
  ℕ, Bool, true, false, ◌&&◌, Option, none, some, List, [], ◌∷◌, map, Result, ok, ◌>>=◌, ◌>>◌,
  or_throw, guard, leb, ◌==◌, find_first, select, any, every, take, order_by,
}
use formation_chat_core.Database.{Db}
use formation_chat_core.Database.Rows.{
  Text, Conversation, Participant, ParticipantKind, Principal, InputRequest, InputStatus, Purpose,
  ConsentStatus, TriggerType, Run, Message,
}
use formation_chat_core.Database.Statements.{Scope, is_in}
use formation_chat_core.Message.{MessageView, map_message}
use formation_chat_core.Event.{ConnectorEvent}
use formation_chat_core.Run.{
  WorkerError, participants_missing, inconsistent_context, consent_missing, consent_inconsistent,
  no_result,
}

-- An input that was resolved: the value of one that was submitted, none for one that was declined.
pub record ResolvedInput : Type 0 where
  pub request_id : ℕ
  pub purpose : Purpose
  pub value : Option Text
  pub recorded_at : ℕ

pub record ConnectorRunRequest : Type 0 where
  pub run_id : ℕ
  pub conversation_id : ℕ
  pub agent_ref : ℕ
  pub trigger_type : TriggerType
  pub current_message : MessageView
  pub user_participant_id : ℕ
  pub history : List MessageView
  pub principal_id : ℕ
  pub resolved_inputs : List ResolvedInput

pub record RunContext : Type 0 where
  pub request : ConnectorRunRequest
  pub assistant_participant_id : ℕ
  pub scope : Scope

unfoldable pub is_of_run : Run → (tenant_id site_id conversation_id : ℕ) → Bool
is_of_run run tenant_id site_id conversation_id =
    is_in run.tenant_id run.site_id run.conversation_id tenant_id site_id conversation_id

abbrev by_sequence_desc : Message → Message → Bool
by_sequence_desc a b = leb b.sequence a.sequence

abbrev pub by_creation : InputRequest → InputRequest → Bool
by_creation a b = leb a.created_at b.created_at

abbrev is_resolved : InputStatus → Bool
is_resolved InputStatus.submitted = true
is_resolved InputStatus.declined = true
is_resolved _ = false

abbrev is_user_kind : Participant → Bool
is_user_kind row = elim row.kind [ ParticipantKind.user ↦ true | ParticipantKind.agent ↦ false ]

abbrev is_agent_kind : Participant → Bool
is_agent_kind row = elim row.kind [ ParticipantKind.user ↦ false | ParticipantKind.agent ↦ true ]

-- `reverse`.
unfoldable pub reverse_onto {ℓ} : {A : Type ℓ} → List A → List A → List A
reverse_onto acc [] = acc
reverse_onto acc (x ∷ xs) = reverse_onto (x ∷ acc) xs

-- The decision that the row of an input records. An empty value counts as none.
abbrev decide : InputStatus → Option Text → ConsentStatus → Option (Option Text)
decide InputStatus.submitted (some (c ∷ cs)) ConsentStatus.granted = some (some (c ∷ cs))
decide InputStatus.declined _ ConsentStatus.declined = some none
decide _ _ _ = none

unfoldable pub resolved_input : InputRequest → Result WorkerError ResolvedInput
resolved_input row = do
  recorded_at ← or_throw row.consent_recorded_at consent_missing
  consent ← or_throw row.consent_status consent_missing
  value ← or_throw (decide row.status row.value consent) consent_inconsistent
  ok (record {
    request_id = row.request_id;
    purpose = row.purpose;
    value = value;
    recorded_at = recorded_at;
  })

unfoldable pub resolved_inputs : List InputRequest → Result WorkerError (List ResolvedInput)
resolved_inputs [] = ok []
resolved_inputs (row ∷ rows) =
    resolved_input row >>= λ r. resolved_inputs rows >>= λ rs. ok (r ∷ rs)

-- The checks of the policy, against the columns of the run.
unfoldable pub validate_run_request : ConnectorRunRequest → Run → (user_participant_id : ℕ) → Bool
validate_run_request request run user_participant_id =
    request.conversation_id == run.conversation_id
    && request.run_id == run.run_id
    && request.agent_ref == run.agent_ref
    && request.user_participant_id == user_participant_id
    && request.current_message.message_id == run.trigger_message_id
    && request.current_message.conversation_id == run.conversation_id
    && request.current_message.participant_id == user_participant_id
    && any (λ (m : MessageView). m.message_id == run.trigger_message_id) request.history
    && every (λ (m : MessageView). m.conversation_id == run.conversation_id) request.history

-- An event that names no message fits any.
unfoldable pub validate_event : ConnectorEvent → Run → Bool
validate_event event run =
    event.conversation_id == run.conversation_id
    && event.run_id == run.run_id
    && elim event.message_id [ none ↦ true | some id ↦ id == run.assistant_message_id ]

unfoldable pub is_resolved_input : Run → InputRequest → Bool
is_resolved_input run row =
    is_of_run run row.tenant_id row.site_id row.conversation_id
    && row.run_id == run.run_id
    && is_resolved row.status

-- The query of the resolved inputs of a run.
unfoldable pub input_rows : Run → Db → List InputRequest
input_rows run db =
    order_by by_creation (select (is_resolved_input run) db.structured_input_requests)

unfoldable pub load_context : Run → Db → Result WorkerError RunContext
load_context run db = do
  current ←
      or_throw
        (find_first
          (λ (row : Message).
            is_of_run run row.tenant_id row.site_id row.conversation_id
            && row.message_id == run.trigger_message_id)
          db.messages)
        no_result
  conversation ←
      or_throw
        (find_first
          (λ (row : Conversation). is_of_run run row.tenant_id row.site_id row.conversation_id)
          db.conversations)
        no_result
  let history_descending = take 1000 (
      order_by by_sequence_desc (
        select (λ (row : Message). is_of_run run row.tenant_id row.site_id row.conversation_id)
          db.messages))
  let participants =
      select (λ (row : Participant). is_of_run run row.tenant_id row.site_id row.conversation_id)
        db.conversation_participants
  principal ←
      or_throw
        (find_first
          (λ (row : Principal).
            row.tenant_id == run.tenant_id
            && row.site_id == run.site_id
            && row.principal_id == conversation.principal_id)
          db.principals)
        no_result
  user ← or_throw (find_first is_user_kind participants) participants_missing
  assistant ← or_throw (find_first is_agent_kind participants) participants_missing
  inputs ← resolved_inputs (input_rows run db)
  let request : ConnectorRunRequest = record {
    run_id = run.run_id;
    conversation_id = run.conversation_id;
    agent_ref = conversation.agent_ref;
    trigger_type = run.trigger_type;
    current_message = map_message current;
    user_participant_id = user.participant_id;
    history = map map_message (reverse_onto [] history_descending);
    principal_id = principal.principal_id;
    resolved_inputs = inputs;
  }
  guard (validate_run_request request run user.participant_id) inconsistent_context
  ok (record {
    request = request;
    assistant_participant_id = assistant.participant_id;
    scope = record {
      tenant_id = run.tenant_id;
      site_id = run.site_id;
      principal_id = conversation.principal_id;
    };
  })
