-- ===== src/Transport/Delivery.antt =====
-- A connection from apps/server/src/event/route.ts to the handler of
-- packages/browser-client/src/http-transport.ts.
use formation_chat_core.Prelude.{
  ℕ, ◌≤◌, ◌<◌, ◌≡◌, ◌∙◌, ap, List, take, drop, map, length, All, IsAscending,
}
use formation_chat_core.Event.{EventView, events}
use formation_chat_core.Event.Broker.{event}
use formation_chat_core.Event.Stream.{stream, stream_once, seq}
use formation_chat_core.Event.Frame.{EventWriter, write_events}
use formation_chat_core.Transport.EventStream.{Decoder, EventCodec, Handler, parse_event_stream}
use formation_chat_core.Transport.EventStream.Chunks.{joined}
use formation_chat_core.Transport.EventStream.Frames.{
  IsFramed, handle_all, parse_event_stream-write_events,
}

-- From the server's events to the browser's handler: the connection subscribes before it reads the
-- replay, so that the replay holds the first k events and the subscription those from the j-th on,
-- with j at most k. However the network cuts the frames into chunks, the handler is called with
-- every event once and in order, up to a call that throws, where the bytes are within the limit.
pub stream-parse_event_stream :
    {J S D : Type 0} (writer : EventWriter EventView) (codec : EventCodec J EventView)
    (on_event : Handler EventView S) (decoder : Decoder D) (max_frame_bytes j k : ℕ)
    (all : List EventView) (sync_event : EventView) (chunks : List (List ℕ)) (client : S)
    → j ≤ k
    → IsAscending seq all
    → All (λ e. 0 < e.sequence) all
    → All (IsFramed writer codec) all
    → decoder.remaining decoder.start (joined chunks)
      ≡ write_events writer (stream (events (take k all)) sync_event (map event (drop j all)))
    → length (joined chunks) ≤ max_frame_bytes
    → parse_event_stream codec on_event decoder max_frame_bytes chunks client
      ≡ handle_all on_event all client
stream-parse_event_stream writer codec on_event decoder limit j k all sync_event chunks client le up
      pos framed sent small =
    parse_event_stream-write_events writer codec on_event decoder limit all chunks client framed
      (sent ∙ ap (write_events writer) (stream_once j k all sync_event le up pos)) small
