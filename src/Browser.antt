-- ===== src/Browser.antt =====
-- packages/browser-client/src/client.ts: the client as a machine. An asynchronous function is cut at
-- its awaits: each definition below is what the code runs between two of them, and takes what the
-- await before it yielded. The save of the persisted state is taken as one with what is around it;
-- Browser/Steps has the steps that this leaves out. A connection is an `AbortController` with the
-- request it was made for.
pub mod State
pub mod Steps
pub mod Effects
pub mod Streams
pub mod Cursor
pub mod Storage
use Prim.Native.Nat.{◌^◌}
use formation_chat_core.Prelude.{
  ℕ, ◌+◌, ◌-◌, ◌*◌, Bool, true, false, not, ◌&&◌, ◌||◌, Option, none, some, List, [], ◌∷◌, ◌++◌,
  min, ◌==◌, if◌then◌else◌, holds, is_some, find_first, update_where, select, length,
}
use formation_chat_core.Database.Rows.{EventBody, message_completed, run_failed, sync_required}
use formation_chat_core.Message.{MessageView}
use formation_chat_core.Event.{EventView}
use formation_chat_core.Client.{initial_chat_state, reduce_chat_state}
use formation_chat_core.Client.Types.{
  ChatState, Phase, ChatClientError, Action, phase_changed, session_loaded, snapshot_loaded,
  conversation_cleared, live_cleared, message_submitted, run_cancelled, run_retrying,
  structured_input_submitted, event_received, cursor_restored, cursor_cleared, connection_failed,
  error_raised,
}
unfoldable pub use State.*

module _ (locale_le : ℕ → ℕ → Bool) where
  unfoldable pub dispatch : Action → Machine → Machine
  dispatch action m = record m { state = reduce_chat_state locale_le m.state action }

  -- `openStream`, from the conversation of the state on. The new connection's number is new.
  unfoldable pub connect : Option ℕ → Machine → Machine
  connect none m = m
  connect (some conversation) m = if m.destroyed then m else record m {
    connections =
        abort_at m.stream m.connections
        ++ record {
          connection_id = length m.connections;
          aborted = false;
          conversation_id = conversation;
          last_event_id = m.state.last_event_id;
        }
          ∷ [];
    stream = some (length m.connections);
    reconnect_timer = none;
  }

  unfoldable pub open_stream : Machine → Machine
  open_stream m = connect m.state.conversation m

  abbrev pub note_cause : Option ChatClientError → Machine → Machine
  note_cause none m = dispatch (phase_changed Phase.reconnecting) m
  note_cause (some cause) m = dispatch (connection_failed cause) m

  unfoldable pub schedule_reconnect : Option ChatClientError → Machine → Machine
  schedule_reconnect cause m = if m.destroyed then m else record (note_cause cause m) {
    reconnect_timer = some (reconnect_delay m.reconnect_attempt);
    reconnect_attempt = m.reconnect_attempt + 1;
  }

  -- The end of a connection's stream, with its failure if there is one.
  unfoldable pub stream_ended : ℕ → Option ChatClientError → Machine → Machine
  stream_ended id cause m = if is_aborted id m then m else schedule_reconnect cause m

  -- The reconnection's timer runs out.
  unfoldable pub reconnect : Machine → Machine
  reconnect m = open_stream (record m { reconnect_timer = none })

  abbrev pub is_sync : EventBody → Bool
  is_sync sync_required = true
  is_sync _ = false

  -- `handleEvent` up to its first await.
  unfoldable pub event_begin : EventView → Machine → Machine
  event_begin event m =
      if is_sync event.body
      then dispatch live_cleared
          (dispatch cursor_cleared (record m { persisted = without_cursor m.persisted }))
      else record (dispatch (event_received event) m) {
        persisted = record m.persisted {
          last_event_id = some event.event_id;
          last_event_sequence = some event.sequence;
        };
      }

  -- `synchronize` behind its requests.
  unfoldable pub synchronized : (conversation : ℕ) → List MessageView → Machine → Machine
  synchronized conversation messages m = dispatch (snapshot_loaded conversation messages) m

  -- `handleEvent` behind its synchronization, if it has one.
  unfoldable pub event_end : EventView → Machine → Machine
  event_end event m =
      if is_sync event.body
      then open_stream (abort_stream (persist m))
      else record (persist m) { reconnect_attempt = 0 }

  -- `synchronize`, where there is a conversation to ask for.
  abbrev pub synchronize_with : Option (ℕ × List MessageView) → Machine → Machine
  synchronize_with none m = m
  synchronize_with (some (conversation, messages)) m = synchronized conversation messages m

  -- The events behind which `handleEvent` synchronizes.
  abbrev pub ends_message : EventBody → Bool
  ends_message (message_completed _) = true
  ends_message (run_failed _) = true
  ends_message _ = false

  abbrev pub synchronizes : EventBody → Bool
  synchronizes body = is_sync body || ends_message body

  -- `handleEvent` without anything in between; the snapshot is what its requests yield.
  unfoldable pub handle_event : EventView → Option (ℕ × List MessageView) → Machine → Machine
  handle_event event snapshot m =
      let begun = event_begin event m in
      event_end event (if synchronizes event.body then synchronize_with snapshot begun else begun)

  -- A new conversation, behind its request.
  unfoldable pub conversation_created : (conversation : ℕ) → Machine → Machine
  conversation_created conversation m =
      let cleared =
        if holds (λ c. c == conversation) m.state.conversation
        then m
        else dispatch conversation_cleared m in
      let moved : Machine = record cleared {
        persisted = record (without_cursor cleared.persisted) {
          conversation_id = some conversation;
        };
      } in
      open_stream
        (persist (dispatch (snapshot_loaded conversation []) (dispatch cursor_cleared moved)))

  -- `selectConversation` up to its requests.
  unfoldable pub conversation_selected : (conversation : ℕ) → Machine → Machine
  conversation_selected conversation m =
      if holds (λ c. c == conversation) m.persisted.conversation_id
      then m
      else dispatch cursor_cleared (record m {
        persisted = record (without_cursor m.persisted) { conversation_id = some conversation };
      })

  -- `loadConversation` behind its requests.
  unfoldable pub conversation_loaded : (conversation : ℕ) → List MessageView → Machine → Machine
  conversation_loaded conversation messages m =
      let cleared =
        if is_some m.state.conversation && not (holds (λ c. c == conversation) m.state.conversation)
        then dispatch conversation_cleared m
        else m in
      let moved : Machine = record cleared {
        persisted = record cleared.persisted { conversation_id = some conversation };
      } in
      open_stream (persist (dispatch (snapshot_loaded conversation messages) moved))

  -- The commands behind their requests.
  unfoldable pub message_sent : MessageView → Machine → Machine
  message_sent message m = open_stream (dispatch (message_submitted message) m)

  unfoldable pub handoff_created : Machine → Machine
  handoff_created m = open_stream m

  unfoldable pub cancelled : (run_id : ℕ) → (requested : Bool) → Machine → Machine
  cancelled run_id requested m = dispatch (run_cancelled run_id requested) m

  unfoldable pub input_submitted : (request_id : ℕ) → Machine → Machine
  input_submitted request_id m = open_stream (dispatch (structured_input_submitted request_id) m)

  unfoldable pub run_retried : Machine → Machine
  run_retried m = open_stream (dispatch run_retrying m)

  -- `retry` up to the renewal.
  unfoldable pub retry_begin : Machine → Machine
  retry_begin m = dispatch (phase_changed Phase.bootstrapping) (abort_stream m)

  unfoldable pub raise_error : ChatClientError → Machine → Machine
  raise_error error m = dispatch (error_raised error) m

  -- `scheduleRenewal`: a session that ends within the lead is renewed at once.
  unfoldable pub schedule_renewal : (renewal_lead expires_at now : ℕ) → Machine → Machine
  schedule_renewal renewal_lead expires_at now m = record m {
    renewal_timer = some (expires_at - now - renewal_lead);
  }

  abbrev pub identity_or : Option ℕ → Option ℕ → Option ℕ
  identity_or (some identity) old = some identity
  identity_or none old = old

  -- `bootstrapSession` behind its request.
  unfoldable pub session_bootstrapped :
      (renewal_lead session : ℕ)
      → (browser_identity : Option ℕ) → (expires_at now : ℕ) → Machine
      → Machine
  session_bootstrapped renewal_lead session browser_identity expires_at now m =
      schedule_renewal renewal_lead expires_at now (
        persist (
          dispatch (session_loaded session) (record m {
            persisted = record m.persisted {
              browser_identity = identity_or browser_identity m.persisted.browser_identity;
            };
          })))

  -- `start` up to its request, and behind the bootstrap of its session.
  abbrev pub or_nothing : Option PersistedChatState → PersistedChatState
  or_nothing (some p) = p
  or_nothing none = nothing_persisted

  unfoldable pub start_begin : Option PersistedChatState → Machine → Machine
  start_begin loaded m =
      if m.started then m else record (dispatch (phase_changed Phase.bootstrapping) m) {
        started = true;
        persisted = or_nothing loaded;
      }

  abbrev pub sequence_or : Option ℕ → ℕ → ℕ
  sequence_or (some n) m = n
  sequence_or none m = m

  abbrev pub restore_cursor : PersistedChatState → (otherwise : ℕ) → Machine → Machine
  restore_cursor p otherwise m = elim p.last_event_id [
    | none ↦ m
    | some id ↦ dispatch (cursor_restored id (sequence_or p.last_event_sequence otherwise)) m
  ]

  unfoldable pub start_end : Machine → Machine
  start_end m = persist (restore_cursor m.persisted 0 m)

  -- `applyExternalState` where its conversation is gone, and behind the synchronization that a moved
  -- cursor causes.
  unfoldable pub external_cleared : PersistedChatState → Machine → Machine
  external_cleared next m =
      dispatch conversation_cleared (abort_stream (record m { persisted = next }))

  unfoldable pub external_moved : PersistedChatState → Machine → Machine
  external_moved next m = restore_cursor next m.state.last_event_sequence m

unfoldable pub destroy : Machine → Machine
destroy m = record (abort_stream m) {
  destroyed = true;
  reconnect_timer = none;
  renewal_timer = none;
}
