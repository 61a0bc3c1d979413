-- ===== src/Transport/EventStream/Chunks.antt =====
-- packages/browser-client/src/http-transport.ts, `parseEventStream`: how the bytes are cut into chunks.
use mathlib.Core.List.{append_assoc}
use formation_chat_core.Prelude.{
  ℕ, suc, ◌+◌, ◌≤◌, ◌≡◌, refl, sym, ◌∙◌, ap, false, none, List, [], ◌∷◌, ◌++◌, arith, Result, ok,
  err, ◌>>=◌, ltb, length, length-append, break_at, break_at-here, break_at-none-append,
  length-break_at, Result-cases, inl, inr,
}
use formation_chat_core.Database.Rows.{Text}
use formation_chat_core.Transport.EventStream.{
  Decoder, EventCodec, Failure, Handler, Parser, consume_line, drain, drain_buffer, finish,
  read_chunks, parse_event_stream, opened, drop_return,
}
use formation_chat_core.Transport.EventStream.Lines.{
  drain-step, drain_done, drain_fuel, drain-append, drained,
}
use formation_chat_core.Transport.EventStream.Counting.{
  quiet, drain-quiet, finish-quiet, then_rest-quiet,
}

-- All bytes of a body.
unfoldable pub joined : List (List ℕ) → List ℕ
joined [] = []
joined (chunk ∷ chunks) = chunk ++ joined chunks

module _ {J E S : Type 0} (codec : EventCodec J E) (on_event : Handler E S) where
  -- The whole text at once, without a limit.
  unfoldable pub parse_from : Text → Parser S → Result (Failure S) S
  parse_from text p = drain_buffer codec on_event text p >>= λ (done : Text × Parser S).
      finish codec on_event done.0 done.1

  abbrev pub parse_text : Text → S → Result (Failure S) S
  parse_text text client = parse_from text (opened client)

  parse_from-quiet : (t : Text) (p : Parser S) → parse_from t p ≡ parse_from t (quiet p)
  unfolding parse_from drain_buffer
  parse_from-quiet t p =
      then_rest-quiet codec on_event
        (λ (done : Text × Parser S). finish codec on_event done.0 done.1) _ _
        (finish-quiet codec on_event) (drain-quiet codec on_event (length t) t p)

  parse_from-append :
      (x y : Text) (p : Parser S)
      → parse_from (x ++ y) p ≡ (
          drain_buffer codec on_event x p >>= λ (done : Text × Parser S).
          parse_from (done.0 ++ y) done.1)
  unfolding parse_from drain_buffer
  parse_from-append x y p =
      rw
        (drain-append codec on_event (length (x ++ y)) (length x) x y p (omega arith) (omega arith))
        (regroup (drain codec on_event (length x) x p))
    where
      regroup :
          (r : Result (Failure S) (Text × Parser S))
          → ((r >>= λ (done : Text × Parser S). drain_buffer codec on_event (done.0 ++ y) done.1)
              >>= λ (done : Text × Parser S). finish codec on_event done.0 done.1)
            ≡ (r >>= λ (done : Text × Parser S). parse_from (done.0 ++ y) done.1)
      regroup (err e) = refl
      regroup (ok done) = refl

  -- A line that a newline ends is consumed, and parsing goes on behind it.
  pub parse_from-line :
      (line rest : Text) (p : Parser S)
      → break_at b'\n' line ≡ none
      → parse_from (line ++ b'\n' ∷ rest) p
        ≡ (consume_line codec on_event (drop_return line) p >>= parse_from rest)
  unfolding parse_from drain_buffer
  parse_from-line line rest p plain =
      let whole = line ++ b'\n' ∷ rest in
      let found = break_at-here b'\n' line rest plain in
      let shorter = length-break_at b'\n' whole line rest found in
      rw
        (drain_fuel codec on_event (length whole) (suc (length whole)) whole p (omega arith)
            (omega arith)
          ∙ drain-step codec on_event (length whole) whole line rest p found)
        (regroup (consume_line codec on_event (drop_return line) p) (omega (arith, shorter)))
    where
      regroup :
          (r : Result (Failure S) (Parser S))
          → length rest ≤ length (line ++ b'\n' ∷ rest)
          → ((r >>= drain codec on_event (length (line ++ b'\n' ∷ rest)) rest)
              >>= λ (done : Text × Parser S). finish codec on_event done.0 done.1)
            ≡ (r >>= parse_from rest)
      regroup (err e) le = refl
      regroup (ok q) le =
          rw
            (drain_fuel codec on_event (length (line ++ b'\n' ∷ rest)) (length rest) rest q le
              (omega arith))
            refl

  module _ {D : Type 0} (decoder : Decoder D) (max_frame_bytes : ℕ) where
    -- From any point on, the chunks to come are parsed as the text of their bytes is at once.
    read_chunks-joined :
        (chunks : List (List ℕ)) (d : D) (buffer : Text) (p : Parser S)
        → break_at b'\n' buffer ≡ none
        → p.frame_bytes + length (joined chunks) ≤ max_frame_bytes
        → read_chunks codec on_event decoder max_frame_bytes chunks d buffer p
          ≡ parse_from (buffer ++ decoder.remaining d (joined chunks)) p
    unfolding joined drain_buffer read_chunks parse_from
    read_chunks-joined [] d buffer p plain small =
        let last =
          break_at-none-append b'\n' buffer (decoder.flush d) plain (decoder.flush_line d) in
        rw (decoder.remaining_nil d) (
          rw
            (drain_done codec on_event (length (buffer ++ decoder.flush d))
              (buffer ++ decoder.flush d) p last)
            refl)
    read_chunks-joined (chunk ∷ chunks) d buffer p plain small =
        let counted : Parser S = record p { frame_bytes = p.frame_bytes + length chunk } in
        let d' : D = (decoder.decode d chunk).0 in
        let t : Text = (decoder.decode d chunk).1 in
        let rest : Text = decoder.remaining d' (joined chunks) in
        let sizes = length-append chunk (joined chunks) in
        let within : ltb max_frame_bytes (p.frame_bytes + length chunk) ≡ false =
          ground (arith, sizes) in
        let whole : parse_from (buffer ++ decoder.remaining d (chunk ++ joined chunks)) p ≡ (
            drain_buffer codec on_event (buffer ++ t) counted >>= λ (done : Text × Parser S).
            parse_from (done.0 ++ rest) done.1) =
          ap (λ (x : Text). parse_from (buffer ++ x) p)
            (decoder.remaining_append d chunk (joined chunks))
          ∙ ap (λ (x : Text). parse_from x p) (sym (append_assoc buffer t rest))
          ∙ parse_from-quiet ((buffer ++ t) ++ rest) p
          ∙ sym (parse_from-quiet ((buffer ++ t) ++ rest) counted)
          ∙ parse_from-append (buffer ++ t) rest counted in
        rw (within, read_chunks)
          (rw whole
            (elim (Result-cases
              (drain codec on_event (length (buffer ++ t)) (buffer ++ t) counted)) [
                | inr (thrown, e) ↦ rw e refl
                | inl ((left, q), e) ↦
                    let (plain_left, le) =
                      drained codec on_event (length (buffer ++ t)) (buffer ++ t) left counted q
                        (omega arith) e in
                    rw e (read_chunks-joined chunks d' left q plain_left (omega (arith, sizes, le)))
              ]))

    -- The outcome depends on the bytes of a body and not on how they are cut into chunks, where the
    -- body is within the limit of a frame: the body's text, parsed at once, has the same outcome.
    pub parse_event_stream-joined :
        (chunks : List (List ℕ)) (client : S)
        → length (joined chunks) ≤ max_frame_bytes
        → parse_event_stream codec on_event decoder max_frame_bytes chunks client
          ≡ parse_text (decoder.remaining decoder.start (joined chunks)) client
    unfolding parse_event_stream
    parse_event_stream-joined chunks client small =
        read_chunks-joined chunks decoder.start [] (opened client) (unfold break_at in refl)
          (omega arith)
