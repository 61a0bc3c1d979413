-- ===== src/Transport/EventStream.antt =====
-- packages/browser-client/src/http-transport.ts, `parseEventStream`: from the chunks of a response's
-- body to the events that the handler is given. `TextDecoder`, `JSON.parse` and the check against
-- the protocol's schema are parameters.
pub mod Lines
pub mod Counting
pub mod Chunks
pub mod Frames
use formation_chat_core.Prelude.{
  ℕ, zero, suc, ◌+◌, ◌≡◌, Bool, true, false, not, ◌&&◌, ◌||◌, Option, none, some, List, [], ◌∷◌,
  ◌++◌, arith, Result, ok, err, ◌>>=◌, ltb, ◌==◌, if◌then◌else◌, length, last?, same_text, break_at,
}
use formation_chat_core.Database.Rows.{Text}

-- A streaming decoder. Its law: the text of a stream does not depend on how the bytes are cut, and
-- what is left at the end (a replacement character, or nothing) holds no newline.
pub record Decoder (D : Type 0) : Type 0 where
  pub start : D
  pub decode : D → List ℕ → D × Text
  pub flush : D → Text
  pub remaining : D → List ℕ → Text
  pub remaining_nil : (d : D) → remaining d [] ≡ flush d
  pub remaining_append :
      (d : D) (chunk bytes : List ℕ)
      → remaining d (chunk ++ bytes) ≡ (decode d chunk).1 ++ remaining ((decode d chunk).0) bytes
  pub flush_line : (d : D) → break_at b'\n' (flush d) ≡ none

-- An event as the frames carry it: its JSON, the schema's check, and its two names.
pub record EventCodec (J E : Type 0) : Type 0 where
  pub parse_json : Text → Option J
  pub check_event : J → Option E
  pub event_id : E → Text
  pub event_type : E → Text

pub data StreamError : Type 0 where
  frame_too_large invalid_json invalid_event framing_mismatch : StreamError
  handler_failed : ℕ → StreamError

-- What was thrown, and the client as the handler had left it.
pub record Failure (S : Type 0) : Type 0 where
  pub thrown : StreamError
  pub client : S

-- The handler of the events: the client behind an event, and what the handler throws, if it does.
abbrev pub Handler : Type 0 → Type 0 → Type 0
Handler E S = S → E → S × Option ℕ

pub record Parser (S : Type 0) : Type 0 where
  pub frame_bytes : ℕ
  pub event_id : Text
  pub event_type : Text
  pub data_lines : List Text
  pub client : S

abbrev pub id_field : Text
id_field = b'i' ∷ b'd' ∷ []

abbrev pub event_field : Text
event_field = b'e' ∷ b'v' ∷ b'e' ∷ b'n' ∷ b't' ∷ []

abbrev pub data_field : Text
data_field = b'd' ∷ b'a' ∷ b't' ∷ b'a' ∷ []

-- `join('\n')`.
unfoldable pub join_lines : List Text → Text
join_lines [] = []
join_lines (line ∷ []) = line
join_lines (line ∷ next ∷ lines) = line ++ b'\n' ∷ join_lines (next ∷ lines)

-- `if (value.startsWith(' ')) value = value.slice(1)`.
unfoldable pub drop_space : Text → Text
drop_space [] = []
drop_space (c ∷ cs) = if c == b' ' then cs else c ∷ cs

-- `if (line.endsWith('\r')) line = line.slice(0, -1)`.
unfoldable pub drop_return : Text → Text
drop_return [] = []
drop_return (c ∷ []) = if c == b'\r' then [] else c ∷ []
drop_return (c ∷ d ∷ cs) = c ∷ drop_return (d ∷ cs)

unfoldable pub split_field : Text → Text × Text
split_field line = elim (break_at b':' line) [
  | none ↦ (line, [])
  | some (field, value) ↦ (field, drop_space value)
]

abbrev pub is_empty : Text → Bool
is_empty [] = true
is_empty (c ∷ cs) = false

module _ {S : Type 0} where
  unfoldable pub reset : Parser S → Parser S
  reset p = record p { frame_bytes = 0; event_id = []; event_type = []; data_lines = [] }

  unfoldable pub take_field : Text → Text → Parser S → Parser S
  take_field field value p =
      if same_text field id_field
      then record p { event_id = value }
      else if same_text field event_field
      then record p { event_type = value }
      else if same_text field data_field
      then record p { data_lines = p.data_lines ++ value ∷ [] }
      else p

  abbrev pub fail {ℓ} : {A : Type ℓ} → StreamError → Parser S → Result (Failure S) A
  fail thrown p = err (record { thrown = thrown; client = p.client })

  -- The end of the handler's call: it has changed the client, and may have thrown.
  abbrev pub handled : S × Option ℕ → Parser S → Result (Failure S) (Parser S)
  handled (client, none) p = ok (record p { client = client })
  handled (client, some thrown) p = err (record { thrown = handler_failed thrown; client = client })

  abbrev pub opened : S → Parser S
  opened client = record {
    frame_bytes = 0;
    event_id = [];
    event_type = [];
    data_lines = [];
    client = client;
  }

module _ {J E S : Type 0} (codec : EventCodec J E) (on_event : Handler E S) where
  abbrev pub fits_envelope : Parser S → E → Bool
  fits_envelope p event =
      not (is_empty p.event_id)
      && not (is_empty p.event_type)
      && same_text (codec.event_id event) p.event_id
      && same_text (codec.event_type event) p.event_type

  unfoldable pub dispatch_event : Parser S → E → Result (Failure S) (Parser S)
  dispatch_event p event =
      if fits_envelope p event
      then handled (on_event p.client event) (reset p)
      else fail framing_mismatch p

  abbrev pub dispatch_json : Parser S → Option J → Result (Failure S) (Parser S)
  dispatch_json p none = fail invalid_json p
  dispatch_json p (some value) = elim (codec.check_event value) [
    | none ↦ fail invalid_event p
    | some event ↦ dispatch_event p event
  ]

  abbrev pub dispatch_lines : List Text → Parser S → Result (Failure S) (Parser S)
  dispatch_lines [] p = ok (reset p)
  dispatch_lines (line ∷ lines) p = dispatch_json p (codec.parse_json (join_lines (line ∷ lines)))

  unfoldable pub dispatch : Parser S → Result (Failure S) (Parser S)
  dispatch p = dispatch_lines p.data_lines p

  unfoldable pub consume_line : Text → Parser S → Result (Failure S) (Parser S)
  consume_line [] p = dispatch p
  consume_line (c ∷ cs) p =
      let (field, value) = split_field (c ∷ cs) in
      if c == b':' then ok p else ok (take_field field value p)

  -- The loop over the lines of the buffer. Each round shortens the buffer, so its length is fuel.
  unfoldable pub drain : ℕ → Text → Parser S → Result (Failure S) (Text × Parser S)
  drain zero buffer p = ok (buffer, p)
  drain (suc fuel) buffer p = elim (break_at b'\n' buffer) [
    | none ↦ ok (buffer, p)
    | some (line, rest) ↦ consume_line (drop_return line) p >>= drain fuel rest
  ]

  unfoldable pub drain_buffer : Text → Parser S → Result (Failure S) (Text × Parser S)
  drain_buffer buffer p = drain (length buffer) buffer p

  -- `if (dataLines.length > 0) await dispatch()`.
  abbrev pub dispatch_rest : List Text → Parser S → Result (Failure S) (Parser S)
  dispatch_rest [] p = ok p
  dispatch_rest (line ∷ lines) p = dispatch p

  abbrev pub close : Parser S → Result (Failure S) S
  close p = dispatch_rest p.data_lines p >>= λ (q : Parser S). ok q.client

  -- Behind the last chunk: the line that no newline ends, and the frame that no empty line ends.
  unfoldable pub finish : Text → Parser S → Result (Failure S) S
  finish [] p = close p
  finish (c ∷ cs) p = consume_line (drop_return (c ∷ cs)) p >>= close

  module _ {D : Type 0} (decoder : Decoder D) (max_frame_bytes : ℕ) where
    -- The chunks that the reader yields until it is done.
    unfoldable pub read_chunks : List (List ℕ) → D → Text → Parser S → Result (Failure S) S
    read_chunks [] d buffer p = finish (buffer ++ decoder.flush d) p
    read_chunks (chunk ∷ chunks) d buffer p =
        let counted : Parser S = record p { frame_bytes = p.frame_bytes + length chunk } in
        let decoded = decoder.decode d chunk in
        if ltb max_frame_bytes counted.frame_bytes
        then fail frame_too_large counted
        else drain_buffer (buffer ++ decoded.1) counted >>= λ (left, q).
            read_chunks chunks (decoded.0) left q

    unfoldable pub parse_event_stream : List (List ℕ) → S → Result (Failure S) S
    parse_event_stream chunks client = read_chunks chunks decoder.start [] (opened client)
