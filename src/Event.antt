-- ===== src/Event.antt =====
-- apps/server/src/event/store.ts: the events of a conversation, appended under its counter, kept
-- within the retention limit, and replayed behind a cursor.
pub mod Retention
pub mod Replay
pub mod Broker
pub mod Service
pub mod Stream
pub mod Frame
use formation_chat_core.Prelude.{
  ℕ, ◌+◌, ◌-◌, Bool, true, false, not, ◌&&◌, Option, none, some, List, [], ◌∷◌, ◌++◌, map, max,
  Result, ok, err, ◌>>=◌, or_throw, leb, ltb, ◌==◌, if◌then◌else◌, find_first, select, update_where,
  order_by,
}
use formation_chat_core.Database.{Db}
use formation_chat_core.Database.Rows.{
  Conversation, Event, EventBody, Visibility, is_public, sync_required,
}
use formation_chat_core.Database.Statements.{Scope, owns, is_in}

pub data EventApiError : Type 0 where
  conversation_not_found : EventApiError

-- An event of a connector.
pub record ConnectorEvent : Type 0 where
  pub visibility : Visibility
  pub conversation_id : ℕ
  pub run_id : ℕ
  pub message_id : Option ℕ
  pub body : EventBody

-- An event as the API shows it: the row without its tenant and site.
pub record EventView : Type 0 where
  pub event_id : ℕ
  pub sequence : ℕ
  pub occurred_at : ℕ
  pub visibility : Visibility
  pub conversation_id : ℕ
  pub run_id : Option ℕ
  pub message_id : Option ℕ
  pub body : EventBody

unfoldable pub to_conversation_event : Event → EventView
to_conversation_event row = record {
  event_id = row.event_id;
  sequence = row.sequence;
  occurred_at = row.occurred_at;
  visibility = Visibility.public;
  conversation_id = row.conversation_id;
  run_id = row.run_id;
  message_id = row.message_id;
  body = row.body;
}

-- `set next_event_sequence = next_event_sequence + 1`.
unfoldable pub take_event_sequence : Conversation → Conversation
take_event_sequence row = record row { next_event_sequence = row.next_event_sequence + 1 }

unfoldable pub stored_event : Scope → ConnectorEvent → ℕ → ℕ → ℕ → Event
stored_event scope event event_id sequence occurred_at = record {
  event_id = event_id;
  tenant_id = scope.tenant_id;
  site_id = scope.site_id;
  conversation_id = event.conversation_id;
  sequence = sequence;
  visibility = event.visibility;
  run_id = some event.run_id;
  message_id = event.message_id;
  body = event.body;
  occurred_at = occurred_at;
}

unfoldable pub is_event_of : Scope → ℕ → Event → Bool
is_event_of scope conversation_id row =
    is_in scope.tenant_id scope.site_id conversation_id row.tenant_id row.site_id
      row.conversation_id

-- The rows that the retention deletes: `sequence <= new - max`, which holds of no row while the new
-- sequence is at most `max`.
unfoldable pub is_out_of_window : ℕ → Scope → ℕ → ℕ → Event → Bool
is_out_of_window retention_max_events scope conversation_id sequence row =
    is_event_of scope conversation_id row && leb (row.sequence + retention_max_events) sequence

-- The event that `append` returns: the connector's, with its identifier, sequence and time.
unfoldable pub persisted : ConnectorEvent → ℕ → ℕ → ℕ → EventView
persisted event event_id sequence occurred_at = record {
  event_id = event_id;
  sequence = sequence;
  occurred_at = occurred_at;
  visibility = event.visibility;
  conversation_id = event.conversation_id;
  run_id = some event.run_id;
  message_id = event.message_id;
  body = event.body;
}

unfoldable pub append :
    (retention_max_events : ℕ)
    → Scope
    → ConnectorEvent
    → (event_id occurred_at : ℕ) → Db
    → Result EventApiError (Db × EventView)
append retention_max_events scope event event_id occurred_at db = do
  let conversations =
      update_where (owns scope event.conversation_id) take_event_sequence db.conversations
  allocation ←
      or_throw (find_first (owns scope event.conversation_id) conversations) conversation_not_found
  let sequence = allocation.next_event_sequence - 1
  ok (
    record db {
      conversations = conversations;
      conversation_events =
          select
            (λ row.
              not (is_out_of_window retention_max_events scope event.conversation_id sequence row))
            (db.conversation_events ++ stored_event scope event event_id sequence occurred_at ∷ []);
    },
    persisted event event_id sequence occurred_at,
  )

pub data EventReplay : Type 0 where
  events : List EventView → EventReplay
  sync : EventView → EventReplay

unfoldable pub is_cursor : Scope → ℕ → ℕ → Event → Bool
is_cursor scope conversation_id event_id row =
    is_event_of scope conversation_id row && is_public row.visibility && row.event_id == event_id

unfoldable pub is_replayed : Scope → ℕ → ℕ → Event → Bool
is_replayed scope conversation_id after_sequence row =
    is_event_of scope conversation_id row
    && is_public row.visibility
    && ltb after_sequence row.sequence

abbrev pub by_event_sequence : Event → Event → Bool
by_event_sequence a b = leb a.sequence b.sequence

unfoldable pub sync_event : ℕ → ℕ → ℕ → Conversation → EventView
sync_event conversation_id event_id now conversation = record {
  event_id = event_id;
  sequence = max 1 (conversation.next_event_sequence - 1);
  occurred_at = now;
  visibility = Visibility.public;
  conversation_id = conversation_id;
  run_id = none;
  message_id = none;
  body = sync_required;
}

unfoldable pub replay_rows : Scope → ℕ → ℕ → Db → EventReplay
replay_rows scope conversation_id after_sequence db = events (
    map to_conversation_event (
      order_by by_event_sequence
        (select (is_replayed scope conversation_id after_sequence) db.conversation_events)))

-- The cursor is the identifier of the last event that the client has, if it has one.
unfoldable pub replay :
    Scope → ℕ → Option ℕ → (fresh_id now : ℕ) → Db → Result EventApiError EventReplay
replay scope conversation_id after_event_id fresh_id now db =
    or_throw (find_first (owns scope conversation_id) db.conversations) conversation_not_found
    >>= λ conversation. elim after_event_id [
      | none ↦ ok (replay_rows scope conversation_id 0 db)
      | some event_id ↦
          elim (find_first (is_cursor scope conversation_id event_id) db.conversation_events) [
            | none ↦ ok (sync (sync_event conversation_id fresh_id now conversation))
            | some cursor ↦ ok (replay_rows scope conversation_id cursor.sequence db)
          ]
    ]
