-- ===== src/Examples/Machine.antt =====
-- The theorems on the browser's client as a machine at concrete inputs.
use formation_chat_core.Prelude.{◌≡◌, refl, none, some, [], ◌∷◌, leb, same_text, if◌then◌else◌}
use formation_chat_core.Database.Rows.{Visibility, sync_required}
use formation_chat_core.Event.{EventView}
use formation_chat_core.Client.{
  reduce_chat_state, load_snapshot, without_error, initial_chat_state, clear_conversation,
}
use formation_chat_core.Browser.{
  Machine, Connection, created, start_begin, conversation_created, handoff_created, destroy,
  open_stream, handle_event, without_cursor, connect, persist, dispatch,
}
use formation_chat_core.Browser.Steps.{Step, Reach}
use formation_chat_core.Browser.Streams.{
  IsTidy, IsQuiet, open_connections, Reach-IsTidy, destroy-IsQuiet,
}
use formation_chat_core.Browser.Cursor.{handle_event-sync}
use formation_chat_core.Browser.Storage.{StoredChatState, loaded_back, load, save, load-save}
use formation_chat_core.Examples.Codec.{plain_json}

-- A client that has opened a second stream for its conversation.
abbrev talking : Machine
talking = handoff_created leb (conversation_created leb 7 (start_begin leb none created))

talking-Reach : Reach leb created talking
talking-Reach =
    Reach.next
      (Reach.next (Reach.next Reach.here (Step.starting created none))
        (Step.creating (start_begin leb none created) 7))
      (Step.handing_off (conversation_created leb 7 (start_begin leb none created)))

Reach-IsTidy_example : IsTidy talking
Reach-IsTidy_example = Reach-IsTidy leb talking-Reach

destroy-IsQuiet_example : IsQuiet (open_stream leb (destroy talking))
destroy-IsQuiet_example =
    destroy-IsQuiet leb talking-Reach (Reach.next Reach.here (Step.recovering (destroy talking)))

abbrev behind : EventView
behind = record {
  event_id = 70;
  sequence = 0;
  occurred_at = 2000;
  visibility = Visibility.public;
  conversation_id = 7;
  run_id = none;
  message_id = none;
  body = sync_required;
}

handle_event-sync_example :
    ((handle_event leb behind (some (7, [])) talking).saved
      ≡ some (without_cursor talking.persisted))
    × ((c : Connection) × (open_connections (handle_event leb behind (some (7, [])) talking)
          ≡ c ∷ [])
        × (c.conversation_id ≡ 7)
        × (c.last_event_id ≡ none))
handle_event-sync_example =
    handle_event-sync leb behind 7 [] talking refl
      (unfold handoff_created conversation_created start_begin created open_stream connect persist
          dispatch reduce_chat_state load_snapshot without_error initial_chat_state
          clear_conversation in
        refl)
      (Reach-IsTidy leb talking-Reach)

abbrev state : StoredChatState
state = record {
  browser_identity = some (b'i' ∷ []);
  conversation_id = some (b'c' ∷ []);
  last_event_id = none;
  last_event_sequence = some 3;
}

load-save_example :
    load plain_json (b'k' ∷ []) (b's' ∷ []) (save plain_json (b'k' ∷ []) (b's' ∷ []) state []) ≡ (
      if same_text (b's' ∷ []) (b's' ∷ [])
      then loaded_back state
      else load plain_json (b'k' ∷ []) (b's' ∷ []) [])
load-save_example = load-save plain_json (b'k' ∷ []) (b's' ∷ []) (b's' ∷ []) state []
