-- ===== src/Client.antt =====
-- packages/browser-client/src/state.ts: the state of the browser's client and its reducer.
-- The record `liveMessages` is a map from message identifiers. `localeCompare` on the identifiers is
-- the parameter `locale_le`, which says if the left one is not behind the right one.
pub mod Types
pub mod Parts
pub mod Receiving
pub mod Live
pub mod Streaming
use formation_chat_core.Prelude.{
  ℕ, ◌≡◌, Bool, true, false, not, ◌&&◌, ◌||◌, Option, none, some, List, [], ◌∷◌, ◌++◌, map, max,
  ltb, leb, ◌==◌, if◌then◌else◌, holds, select, any, lookup, insert, order_by, take_last,
}
use formation_chat_core.Database.Rows.{
  Text, ContentPart, text, tool_status, citation, ToolStatus, EventBody, ContactRequest,
  run_started, run_completed, run_failed, message_started, message_delta, message_completed,
  tool_started, tool_completed, tool_failed, citation_added, contact_requested, handoff_requested,
  handoff_completed, sync_required,
}
use formation_chat_core.Message.{MessageView}
use formation_chat_core.Event.{EventView}
use Types.{
  ChatState, Phase, LiveMessage, LiveStatus, RunState, ClientRunStatus, HandoffState,
  ChatClientError, ErrorMessage, Action, phase_changed, session_loaded, snapshot_loaded,
  conversation_cleared, live_cleared, message_submitted, run_cancelled, run_retrying,
  structured_input_submitted, event_received, cursor_restored, cursor_cleared, connection_failed,
  error_raised,
}
use Parts.{live_message, update_live}

unfoldable pub initial_chat_state : ChatState
initial_chat_state = record {
  phase = Phase.idle;
  session = none;
  conversation = none;
  messages = [];
  live_messages = [];
  run = none;
  contact_request = none;
  handoff = none;
  last_event_id = none;
  last_event_sequence = 0;
  recent_event_ids = [];
  error = none;
}

unfoldable pub without_error : ChatState → ChatState
without_error state = record state { error = none }

-- `new Map(messages.map((message) => [message.messageId, message]))`, from the left.
unfoldable pub by_id : List MessageView → List (ℕ × MessageView) → List (ℕ × MessageView)
by_id [] m = m
by_id (x ∷ xs) m = by_id xs (insert x.message_id x m)

unfoldable pub by_place : (locale_le : ℕ → ℕ → Bool) → MessageView → MessageView → Bool
by_place locale_le a b =
    ltb a.sequence b.sequence || (a.sequence == b.sequence && locale_le a.message_id b.message_id)

unfoldable pub canonical_messages : (ℕ → ℕ → Bool) → List MessageView → List MessageView
canonical_messages locale_le messages =
    order_by (by_place locale_le) (map (λ (e : ℕ × MessageView). e.1) (by_id messages []))

abbrev pub has_message_id : ℕ → MessageView → Bool
has_message_id message_id m = m.message_id == message_id

-- What an event does to the phase, the run, the request for contact and the handoff.
unfoldable pub note_event : EventBody → (run_id : Option ℕ) → ChatState → ChatState
note_event (run_started _) run_id next = record (without_error next) {
  run = some (record { run_id = run_id; status = ClientRunStatus.running; failure_code = none });
}
note_event run_completed run_id next = record (without_error next) {
  phase = Phase.ready;
  run = some (record { run_id = run_id; status = ClientRunStatus.completed; failure_code = none });
}
note_event (run_failed code) run_id next = record next {
  phase = Phase.error;
  run =
      some (record { run_id = run_id; status = ClientRunStatus.failed; failure_code = some code });
  error = some (record { code = code; message = ErrorMessage.agent_run_failed; retryable = true });
}
note_event (contact_requested request) _ next = record (without_error next) {
  phase = Phase.ready;
  contact_request = some request;
}
note_event (handoff_requested id) _ next = record next {
  handoff = some (record { handoff_id = id; is_completed = false });
}
note_event (handoff_completed id) _ next = record next {
  handoff = some (record { handoff_id = id; is_completed = true });
}
note_event _ _ next = next

abbrev pub current_live : ChatState → ℕ → LiveMessage
current_live state id = elim (lookup id state.live_messages) [ none ↦ live_message id | some m ↦ m ]

abbrev pub is_sync : EventBody → Bool
is_sync sync_required = true
is_sync _ = false

-- The state with the event among the recent ones and the cursor behind it.
unfoldable pub seen_event : EventView → ChatState → ChatState
seen_event event state = record state {
  phase = Phase.streaming;
  last_event_id = some event.event_id;
  last_event_sequence = max state.last_event_sequence event.sequence;
  recent_event_ids = take_last 100 (state.recent_event_ids ++ event.event_id ∷ []);
}

unfoldable pub apply_event : ChatState → EventView → ChatState
apply_event state event =
    let next = note_event event.body event.run_id (seen_event event state) in
    elim event.message_id [
      | none ↦ next
      | some id ↦ if any (has_message_id id) state.messages then next else record next {
        live_messages =
            insert id (update_live event.body (current_live state id)) state.live_messages;
      }
    ]

unfoldable pub receive_event : ChatState → EventView → ChatState
receive_event state event =
    if any (λ id. id == event.event_id) state.recent_event_ids || is_sync event.body
    then state
    else apply_event state event

abbrev pub is_failed_run : Option RunState → Bool
is_failed_run none = false
is_failed_run (some r) = elim r.status [ ClientRunStatus.failed ↦ true | _ ↦ false ]

unfoldable pub load_snapshot : (ℕ → ℕ → Bool) → ℕ → List MessageView → ChatState → ChatState
load_snapshot locale_le conversation loaded state =
    let messages = canonical_messages locale_le loaded in
    let snapshot = record state {
      conversation = some conversation;
      messages = messages;
      live_messages = select (λ e. not (any (has_message_id e.0) messages)) state.live_messages;
      phase = if is_failed_run state.run then Phase.error else Phase.ready;
    } in
    if is_failed_run state.run then snapshot else without_error snapshot

unfoldable pub clear_conversation : ChatState → ChatState
clear_conversation state = without_error (record state {
  conversation = none;
  last_event_id = none;
  run = none;
  contact_request = none;
  handoff = none;
  messages = [];
  live_messages = [];
  last_event_sequence = 0;
  recent_event_ids = [];
  phase = Phase.ready;
})

abbrev is_contact : ℕ → ContactRequest → Bool
is_contact request_id r = r.request_id == request_id

unfoldable pub reduce_chat_state : (locale_le : ℕ → ℕ → Bool) → ChatState → Action → ChatState
reduce_chat_state _ state (phase_changed phase) = without_error (record state { phase = phase })
reduce_chat_state _ state (session_loaded session) =
    without_error (record state { session = some session; phase = Phase.ready })
reduce_chat_state locale_le state (snapshot_loaded conversation messages) =
    load_snapshot locale_le conversation messages state
reduce_chat_state _ state conversation_cleared = clear_conversation state
reduce_chat_state _ state live_cleared = record state { live_messages = [] }
reduce_chat_state locale_le state (message_submitted message) = record state {
  messages = canonical_messages locale_le (state.messages ++ message ∷ []);
  run = some (record { run_id = none; status = ClientRunStatus.queued; failure_code = none });
}
reduce_chat_state _ state (run_cancelled run_id requested) = record state {
  run = some (record {
    run_id = some run_id;
    status = if requested then ClientRunStatus.cancel_requested else ClientRunStatus.cancelled;
    failure_code = none;
  });
}
reduce_chat_state _ state run_retrying = without_error (record state {
  phase = Phase.streaming;
  run = some (record { run_id = none; status = ClientRunStatus.queued; failure_code = none });
})
reduce_chat_state _ state (structured_input_submitted request_id) =
    if holds (is_contact request_id) state.contact_request
    then without_error (record state { contact_request = none; phase = Phase.streaming })
    else state
reduce_chat_state _ state cursor_cleared = record state {
  last_event_id = none;
  last_event_sequence = 0;
  recent_event_ids = [];
}
reduce_chat_state _ state (cursor_restored event_id sequence) = record state {
  last_event_id = some event_id;
  last_event_sequence = sequence;
}
reduce_chat_state _ state (connection_failed error) = record state {
  phase = Phase.reconnecting;
  error = some error;
}
reduce_chat_state _ state (error_raised error) = record state {
  phase = Phase.error;
  error = some error;
}
reduce_chat_state _ state (event_received event) = receive_event state event
