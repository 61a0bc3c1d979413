-- ===== src/Examples/Events.antt =====
-- The theorems on events at concrete inputs.
use formation_chat_core.Prelude.{
  ℕ, ◌≤◌, ◌≡◌, refl, none, some, List, [], ◌∷◌, ok, arith, map, take, drop, length, select,
  find_first, update_where, order_by, insert_row, last?,
}
use formation_chat_core.Database.{Db}
use formation_chat_core.Database.Rows.{
  message_started, run_completed, EventBody, Visibility, sync_required, Conversation,
}
use formation_chat_core.Database.Statements.{owns, is_in}
use formation_chat_core.Event.{
  ConnectorEvent, EventView, append, replay, events, to_conversation_event, is_event_of,
  take_event_sequence, stored_event, is_out_of_window, persisted,
}
use formation_chat_core.Event.Broker.{event, open_subscription}
use formation_chat_core.Event.Broker.Delivery.{
  IsValid, run, run-IsValid, read_all, push_all, read_all-push_all, pushes, reads, closes,
}
use formation_chat_core.Event.Retention.{append_bounded, append-EventsSequenced, EventsSequenced}
use formation_chat_core.Event.Replay.{replay_behind, public_events, EventsKeyed}
use formation_chat_core.Event.Stream.{stream, stream_once}
use formation_chat_core.Examples.Data.{value_of, some_or, scope, chat, empty_db}

abbrev started : ConnectorEvent
started = record {
  visibility = Visibility.public;
  conversation_id = 7;
  run_id = 31;
  message_id = some 32;
  body = message_started;
}

abbrev finished : ConnectorEvent
finished = record started { message_id = none; body = run_completed }

abbrev no_view : EventView
no_view = record {
  event_id = 0;
  sequence = 0;
  occurred_at = 0;
  visibility = Visibility.public;
  conversation_id = 0;
  run_id = none;
  message_id = none;
  body = sync_required;
}

abbrev first : Db × EventView
first = value_of (append 2 scope started 70 2000 empty_db) (empty_db, no_view)

first_ok : append 2 scope started 70 2000 empty_db ≡ ok (first.0, first.1)
unfolding append find_first owns update_where take_event_sequence select is_out_of_window
    is_event_of is_in stored_event persisted
first_ok = refl

abbrev second : Db × EventView
second = value_of (append 2 scope finished 71 2001 first.0) (empty_db, no_view)

second_ok : append 2 scope finished 71 2001 first.0 ≡ ok (second.0, second.1)
unfolding append find_first owns update_where take_event_sequence select is_out_of_window
    is_event_of is_in stored_event persisted
second_ok = refl

empty_sequenced : EventsSequenced empty_db
empty_sequenced = record { keyed = (tt, tt); below = tt; distinct = tt }

append-EventsSequenced_example : EventsSequenced first.0
append-EventsSequenced_example =
    append-EventsSequenced 2 scope started 70 2000 empty_db first.0 first.1 first_ok empty_sequenced

first_sequenced : EventsSequenced first.0
first_sequenced =
    append-EventsSequenced 2 scope started 70 2000 empty_db first.0 first.1 first_ok empty_sequenced

second_sequenced : EventsSequenced second.0
second_sequenced =
    append-EventsSequenced 2 scope finished 71 2001 first.0 second.0 second.1 second_ok
      first_sequenced

append_bounded_example :
    length (select (is_event_of scope finished.conversation_id) second.0.conversation_events) ≤ 2
append_bounded_example =
    append_bounded 2 scope finished 71 2001 first.0 second.0 second.1 first_sequenced second_ok

abbrev kept_chat : Conversation
kept_chat = some_or (find_first (owns scope 7) second.0.conversations) chat

kept_chat_found : find_first (owns scope 7) second.0.conversations ≡ some kept_chat
unfolding append find_first owns update_where take_event_sequence select is_out_of_window
    is_event_of is_in stored_event persisted
kept_chat_found = refl

second_keyed : EventsKeyed second.0
unfolding append find_first owns update_where take_event_sequence select is_out_of_window
    is_event_of is_in stored_event persisted
second_keyed = ((λ e. ground (arith, e), tt), (tt, tt))

abbrev cursor : formation_chat_core.Database.Rows.Event
cursor = stored_event scope started 70 1 2000

cursor_last : last? (take 1 (public_events scope 7 second.0)) ≡ some cursor
unfolding append find_first owns update_where take_event_sequence select is_out_of_window
    is_event_of is_in stored_event persisted public_events last? take order_by insert_row
cursor_last = refl

replay_behind_example :
    replay scope 7 (some cursor.event_id) 90 2002 second.0
    ≡ ok (events (map to_conversation_event (drop 1 (public_events scope 7 second.0))))
replay_behind_example =
    replay_behind scope 7 second.0 1 cursor kept_chat 90 2002 second_sequenced second_keyed
      kept_chat_found cursor_last

abbrev view : (event_id sequence : ℕ) → EventView
view event_id sequence = record no_view { event_id = event_id; sequence = sequence }

abbrev three : List EventView
three = view 70 1 ∷ view 71 2 ∷ view 72 3 ∷ []

stream_once_example : stream (events (take 2 three)) no_view (map event (drop 1 three)) ≡ three
stream_once_example =
    stream_once 1 2 three no_view (omega arith)
      ((omega arith, (omega arith, tt)), ((omega arith, tt), (tt, tt)))
      (omega arith, (omega arith, (omega arith, tt)))

run-IsValid_example :
    IsValid
      (run (reads ∷ pushes (view 70 1) ∷ pushes (view 71 2) ∷ closes ∷ []) (open_subscription 2))
run-IsValid_example =
    run-IsValid 2 (reads ∷ pushes (view 70 1) ∷ pushes (view 71 2) ∷ closes ∷ []) (omega arith)

read_all-push_all_example : read_all 3 (push_all three (open_subscription 3)) ≡ map event three
read_all-push_all_example = read_all-push_all 3 3 three (omega arith) (omega arith)
