-- ===== src/Examples/Network.antt =====
-- The theorems on the browser's transport at concrete inputs.
use formation_chat_core.Prelude.{
  ℕ, suc, err, ◌∙◌, ◌≡◌, refl, Option, none, some, List, [], ◌∷◌, ◌++◌, map, arith, Result, ok,
  take, drop, break_at, Json, string, All,
}
use formation_chat_core.Database.Rows.{Text, Visibility, message_delta}
use formation_chat_core.Event.{EventView, events}
use formation_chat_core.Event.Broker.{event}
use formation_chat_core.Event.Stream.{stream, stream_from, last_sequence}
use formation_chat_core.Event.Frame.{EventWriter, write_events, frame}
use formation_chat_core.Message.{MessageApiError, map_message}
use formation_chat_core.Message.Listing
use formation_chat_core.Message.Listing.{MessageList}
use formation_chat_core.Message.Paging.{thread}
use formation_chat_core.Transport.{
  Route, message_page, request_json, read_response, read_json, authorization_header, Page,
  list_messages, Fetch,
}
use formation_chat_core.Transport.EventStream.{
  drop_return, Decoder, EventCodec, Handler, Parser, opened, drain, drain_buffer,
  parse_event_stream,
}
use formation_chat_core.Transport.EventStream.Chunks.{joined, parse_text, parse_event_stream-joined}
use formation_chat_core.Transport.EventStream.Lines.{drain_buffer-ends}
use formation_chat_core.Transport.EventStream.Frames.{
  IsFramed, IsLine, handle_all, parse_event_stream-write_events,
}
use formation_chat_core.Transport.Delivery.{stream-parse_event_stream}
use formation_chat_core.Transport.Pages.{list_messages-thread, served_page}
use formation_chat_core.Examples.Data.{scope, plain}
use formation_chat_core.Examples.Messages.{
  sent_twice, sent_twice_sequenced, kept_chat, kept_chat_found, thread_range, thread_distinct,
  thread_short,
}

abbrev view : ℕ → EventView
view n = record {
  event_id = n;
  sequence = n;
  occurred_at = 2000;
  visibility = Visibility.public;
  conversation_id = 7;
  run_id = some 31;
  message_id = some 32;
  body = message_delta (104 ∷ 105 ∷ []);
}

abbrev writer : EventWriter EventView
writer = record {
  event_id = λ e. e.event_id ∷ [];
  event_type = λ _. b'm' ∷ [];
  stringify = λ e. e.event_id ∷ [];
}

abbrev read_view : Text → Option EventView
read_view (n ∷ []) = some (view n)
read_view _ = none

abbrev codec : EventCodec Text EventView
codec = record {
  parse_json = λ t. some t;
  check_event = read_view;
  event_id = λ e. e.event_id ∷ [];
  event_type = λ _. b'm' ∷ [];
}

abbrev note_id : Handler EventView (List ℕ)
note_id seen e = (seen ++ e.event_id ∷ [], none)

-- One unit of text for each byte.
abbrev bytewise : Decoder ℕ
bytewise = record {
  start = 0;
  decode = λ d chunk. (d, chunk);
  flush = λ _. [];
  remaining = λ _ bytes. bytes;
  remaining_nil = λ _. refl;
  remaining_append = λ _ _ _. refl;
  flush_line = λ _. unfold break_at in refl;
}

abbrev two : List EventView
two = view 70 ∷ view 71 ∷ []

abbrev sent : Text
sent = write_events writer (stream (events (take 1 two)) (view 99) (map event (drop 0 two)))

abbrev cut : List (List ℕ)
cut = take 9 sent ∷ drop 9 sent ∷ []

view-IsFramed : (n : ℕ) → IsLine (n ∷ []) → IsFramed writer codec (view n)
view-IsFramed n line = record {
  id_line = line;
  type_line = record {
    no_newline = unfold break_at in refl;
    no_return = unfold drop_return in refl;
  };
  json_line = line;
  same_id = refl;
  same_type = refl;
  has_id = refl;
  has_type = refl;
  value = n ∷ [];
  parses = refl;
  checks = refl;
}

two-IsFramed : All (IsFramed writer codec) two
unfolding break_at drop_return
two-IsFramed = (
  view-IsFramed 70 (record { no_newline = refl; no_return = refl }),
  (view-IsFramed 71 (record { no_newline = refl; no_return = refl }), tt),
)

sent_in_cuts : joined cut ≡ sent
unfolding joined take drop write_events frame stream stream_from last_sequence
sent_in_cuts = refl

sent_whole : sent ≡ write_events writer two
unfolding take drop write_events stream stream_from last_sequence
sent_whole = refl

stream-parse_event_stream_example :
    parse_event_stream codec note_id bytewise 200 cut [] ≡ handle_all note_id two []
unfolding joined take drop write_events frame stream stream_from last_sequence
stream-parse_event_stream_example =
    stream-parse_event_stream writer codec note_id bytewise 200 0 1 two (view 99) cut []
      (omega arith) (omega arith) (omega arith) two-IsFramed sent_in_cuts (omega arith)

parse_event_stream-write_events_example :
    parse_event_stream codec note_id bytewise 200 cut [] ≡ handle_all note_id two []
unfolding joined take drop write_events frame stream stream_from last_sequence
parse_event_stream-write_events_example =
    parse_event_stream-write_events writer codec note_id bytewise 200 two cut [] two-IsFramed
      (sent_in_cuts ∙ sent_whole) (omega arith)

parse_event_stream-joined_example :
    parse_event_stream codec note_id bytewise 200 cut [] ≡ parse_text codec note_id (joined cut) []
unfolding joined take drop write_events frame stream stream_from last_sequence
parse_event_stream-joined_example =
    parse_event_stream-joined codec note_id bytewise 200 cut [] (omega arith)

-- Both events have been handled, in order.
handled_in_order : handle_all note_id two [] ≡ ok (70 ∷ 71 ∷ [])
unfolding handle_all
handled_in_order = refl

abbrev line_text : Text
line_text = b'i' ∷ b'd' ∷ b':' ∷ b'7' ∷ b'\n' ∷ b'x' ∷ []

drain_buffer-ends_example :
    (drain codec note_id 9 line_text (opened []) ≡ drain_buffer codec note_id line_text (opened []))
    × ((left : Text) (q : Parser (List ℕ))
        → drain_buffer codec note_id line_text (opened []) ≡ ok (left, q)
        → break_at b'\n' left ≡ none)
drain_buffer-ends_example = drain_buffer-ends codec note_id 9 line_text (opened []) (omega arith)

-- A server whose answer to a page's request names the cursor, and the page that this stands for.
abbrev page_body : Route → Text
page_body (message_page _ (some t)) = 1 ∷ t
page_body _ = 0 ∷ []

abbrev server : ℕ → Fetch
server _ request = record { status = 200; body = page_body request.route }

abbrev to_page : Result MessageApiError MessageList → Option Page
to_page (ok list) = some (served_page list)
to_page (err _) = none

abbrev check_page : Option Json → Option Page
check_page (some (string (suc _ ∷ t))) =
    to_page (Listing.list_messages plain scope 7 (some t) 100 sent_twice.0)
check_page _ = to_page (Listing.list_messages plain scope 7 none 100 sent_twice.0)

abbrev read_string : Text → Option Json
read_string t = some (string t)

page_served :
    (page_number : ℕ) (cursor : Option Text) (list : MessageList)
    → Listing.list_messages plain scope 7 cursor 100 sent_twice.0 ≡ ok list
    → request_json read_string
        (server page_number)
        (some (1 ∷ []))
        check_page
        (message_page 7 cursor)
        none
        none
      ≡ ok (served_page list)
unfolding request_json read_response read_json authorization_header
page_served i none list h = rw (h, to_page) refl
page_served i (some t) list h = rw (h, to_page) refl

list_messages-thread_example :
    list_messages read_string server (some (1 ∷ [])) check_page 1000 7
    ≡ ok (map map_message (thread scope 7 sent_twice.0))
list_messages-thread_example =
    list_messages-thread plain scope 7 sent_twice.0 kept_chat read_string server (some (1 ∷ []))
      check_page 1000 sent_twice_sequenced kept_chat_found thread_range thread_distinct page_served
      (omega arith) thread_short
