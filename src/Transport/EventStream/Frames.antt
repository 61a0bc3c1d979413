-- ===== src/Transport/EventStream/Frames.antt =====
-- packages/browser-client/src/http-transport.ts, `parseEventStream`, on the frames that
-- apps/server/src/event/route.ts writes.
use mathlib.Core.List.{append_assoc}
use formation_chat_core.Prelude.{
  ℕ, ◌≤◌, ◌≡◌, refl, ◌∙◌, ap, true, false, Option, none, some, List, [], ◌∷◌, ◌++◌, arith, Result,
  ok, err, ◌>>=◌, length, break_at, All, same_text, same_text_refl, ◌==◌,
}
use formation_chat_core.Database.Rows.{Text}
use formation_chat_core.Event.Frame.{
  EventWriter, frame, write_events, id_prefix, event_prefix, data_prefix,
}
use formation_chat_core.Transport.EventStream.{
  Decoder, EventCodec, Failure, Handler, Parser, reset, take_field, split_field, handled,
  fits_envelope, dispatch, dispatch_event, dispatch_json, consume_line, drain, drain_buffer, finish,
  is_empty, parse_event_stream, opened, drop_return, handler_failed, drop_space, join_lines,
}
use formation_chat_core.Transport.EventStream.Chunks.{
  parse_from, parse_text, parse_from-line, joined, parse_event_stream-joined,
}

-- A text that stands in one line of a stream as it is.
pub record IsLine (t : Text) : Type 0 where
  pub no_newline : break_at b'\n' t ≡ none
  pub no_return : drop_return t ≡ t

module _ {J E : Type 0} (writer : EventWriter E) (codec : EventCodec J E) where
  -- An event whose frame the client reads back: its names and its JSON stand in lines of their own,
  -- the names are there, and the parsed JSON passes the check as the same event.
  pub record IsFramed (event : E) : Type 0 where
    pub id_line : IsLine (writer.event_id event)
    pub type_line : IsLine (writer.event_type event)
    pub json_line : IsLine (writer.stringify event)
    pub same_id : codec.event_id event ≡ writer.event_id event
    pub same_type : codec.event_type event ≡ writer.event_type event
    pub has_id : is_empty (writer.event_id event) ≡ false
    pub has_type : is_empty (writer.event_type event) ≡ false
    pub value : J
    pub parses : codec.parse_json (writer.stringify event) ≡ some value
    pub checks : codec.check_event value ≡ some event

abbrev outcome_of : {S : Type 0} → S × Option ℕ → Result (Failure S) S
outcome_of (client, none) = ok client
outcome_of (client, some thrown) = err (record { thrown = handler_failed thrown; client = client })

-- The handler called with the events in order, up to the first call that throws.
unfoldable pub handle_all : {E S : Type 0} → Handler E S → List E → S → Result (Failure S) S
handle_all on_event [] client = ok client
handle_all on_event (event ∷ events) client =
    outcome_of (on_event client event) >>= handle_all on_event events

drop_return-cons :
    (c : ℕ) (t : Text) → (c == b'\r') ≡ false → drop_return t ≡ t → drop_return (c ∷ t) ≡ c ∷ t
unfolding drop_return
drop_return-cons c [] h k = ground arith
drop_return-cons c (d ∷ t) h k = ap (◌∷◌ c) k

module _ {J E S : Type 0} (writer : EventWriter E) (codec : EventCodec J E)
    (on_event : Handler E S) where
  parse_from-field :
      (line rest : Text) (p q : Parser S)
      → IsLine line
      → consume_line codec on_event line p ≡ ok q
      → parse_from codec on_event (line ++ b'\n' ∷ rest) p ≡ parse_from codec on_event rest q
  parse_from-field line rest p q h consumed =
      rw (parse_from-line codec on_event line rest p h.no_newline)
        (rw h.no_return (rw consumed refl))

  parse_from-id :
      (value rest : Text) (p : Parser S)
      → IsLine value
      → parse_from codec on_event (id_prefix ++ (value ++ b'\n' ∷ rest)) p
        ≡ parse_from codec on_event rest (record p { event_id = value })
  unfolding consume_line split_field take_field break_at drop_space same_text drop_return
  parse_from-id value rest p h =
      parse_from-field (id_prefix ++ value) rest p _
        (record {
          no_newline = rw (h.no_newline) refl;
          no_return =
              ap (λ (t : Text). b'i' ∷ b'd' ∷ b':' ∷ t)
                (drop_return-cons b' ' value refl h.no_return);
        })
        refl

  parse_from-type :
      (value rest : Text) (p : Parser S)
      → IsLine value
      → parse_from codec on_event (event_prefix ++ (value ++ b'\n' ∷ rest)) p
        ≡ parse_from codec on_event rest (record p { event_type = value })
  unfolding consume_line split_field take_field break_at drop_space same_text drop_return
  parse_from-type value rest p h =
      parse_from-field (event_prefix ++ value) rest p _
        (record {
          no_newline = rw (h.no_newline) refl;
          no_return =
              ap (λ (t : Text). b'e' ∷ b'v' ∷ b'e' ∷ b'n' ∷ b't' ∷ b':' ∷ t)
                (drop_return-cons b' ' value refl h.no_return);
        })
        refl

  parse_from-data :
      (value rest : Text) (p : Parser S)
      → IsLine value
      → parse_from codec on_event (data_prefix ++ (value ++ b'\n' ∷ rest)) p
        ≡ parse_from codec on_event rest (record p { data_lines = p.data_lines ++ value ∷ [] })
  unfolding consume_line split_field take_field break_at drop_space same_text drop_return
  parse_from-data value rest p h =
      parse_from-field (data_prefix ++ value) rest p _
        (record {
          no_newline = rw (h.no_newline) refl;
          no_return =
              ap (λ (t : Text). b'd' ∷ b'a' ∷ b't' ∷ b'a' ∷ b':' ∷ t)
                (drop_return-cons b' ' value refl h.no_return);
        })
        refl

  read_frame : E → S → Parser S
  read_frame event client = record (opened client) {
    event_id = writer.event_id event;
    event_type = writer.event_type event;
    data_lines = writer.stringify event ∷ [];
  }

  dispatch-frame :
      (event : E) (client : S)
      → IsFramed writer codec event
      → dispatch codec on_event (read_frame event client)
        ≡ handled (on_event client event) (opened client)
  unfolding read_frame dispatch dispatch_event reset join_lines
  dispatch-frame event client h =
      let fits : fits_envelope codec on_event (read_frame event client) event ≡ true =
        rw (h.same_id, h.same_type, same_text_refl, same_text_refl, h.has_id, h.has_type) refl in
      rw (h.parses, dispatch_json) (rw (h.checks, dispatch_json) (rw (fits, dispatch_event) refl))

  parse_from-frame :
      (event : E) (rest : Text) (client : S)
      → IsFramed writer codec event
      → parse_from codec on_event (frame writer event ++ rest) (opened client)
        ≡ (handled (on_event client event) (opened client) >>= parse_from codec on_event rest)
  unfolding read_frame
  parse_from-frame event rest client h =
      let id = writer.event_id event in
      let type = writer.event_type event in
      let json = writer.stringify event in
      let behind_data : Text = data_prefix ++ (json ++ b'\n' ∷ b'\n' ∷ rest) in
      let behind_type : Text = event_prefix ++ (type ++ b'\n' ∷ behind_data) in
      let whole : frame writer event ++ rest ≡ id_prefix ++ (id ++ b'\n' ∷ behind_type) =
        unfold frame in simp append_assoc in
      let opened_id : Parser S = record (opened client) { event_id = id } in
      let opened_type : Parser S = record opened_id { event_type = type } in
      ap (λ (t : Text). parse_from codec on_event t (opened client)) whole
      ∙ parse_from-id id behind_type (opened client) h.id_line
      ∙ parse_from-type type behind_data opened_id h.type_line
      ∙ parse_from-data json (b'\n' ∷ rest) opened_type h.json_line
      ∙ parse_from-line codec on_event [] rest (read_frame event client) (unfold break_at in refl)
      ∙ (unfold drop_return consume_line in rw (dispatch-frame event client h) refl)

  -- The frames of events, parsed at once, give the handler the events in order.
  parse_text-write_events :
      (events : List E) (client : S)
      → All (IsFramed writer codec) events
      → parse_text codec on_event (write_events writer events) client
        ≡ handle_all on_event events client
  unfolding write_events handle_all
  parse_text-write_events [] client h = unfold parse_from drain_buffer drain break_at finish in refl
  parse_text-write_events (event ∷ events) client (h, hs) =
      parse_from-frame event (write_events writer events) client h
      ∙ go (on_event client event) (λ next. parse_text-write_events events next hs)
    where
      go :
          (outcome : S × Option ℕ)
          → ((next : S)
              → parse_text codec on_event (write_events writer events) next
                ≡ handle_all on_event events next)
          → (handled outcome (opened client)
              >>= parse_from codec on_event (write_events writer events))
            ≡ (outcome_of outcome >>= handle_all on_event events)
      go (next, none) later = later next
      go (next, some thrown) later = refl

  -- The bytes of a connection that was sent events, however they are cut into chunks, give the
  -- handler these events once and in order, up to a call of the handler that throws, where they
  -- decode to the frames of the events and are within the limit of a frame.
  pub parse_event_stream-write_events :
      {D : Type 0} (decoder : Decoder D) (max_frame_bytes : ℕ) (events : List E)
      (chunks : List (List ℕ)) (client : S)
      → All (IsFramed writer codec) events
      → decoder.remaining decoder.start (joined chunks) ≡ write_events writer events
      → length (joined chunks) ≤ max_frame_bytes
      → parse_event_stream codec on_event decoder max_frame_bytes chunks client
        ≡ handle_all on_event events client
  parse_event_stream-write_events decoder max_frame_bytes events chunks client framed sent small =
      parse_event_stream-joined codec on_event decoder max_frame_bytes chunks client small
      ∙ ap (λ (t : Text). parse_text codec on_event t client) sent
      ∙ parse_text-write_events events client framed
