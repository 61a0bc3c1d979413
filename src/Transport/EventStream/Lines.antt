-- ===== src/Transport/EventStream/Lines.antt =====
-- packages/browser-client/src/http-transport.ts, `parseEventStream`: the loop over the lines of the
-- buffer.
use formation_chat_core.Prelude.{
  Option, ℕ, zero, suc, ◌≤◌, ◌≡◌, refl, sym, ◌∙◌, ap, subst, none, some, List, [], ◌∷◌, ◌++◌, arith,
  Result, ok, ◌>>=◌, >>=-eq-ok, length, break_at, break_at-append, length-break_at, Option-cases,
  Result-cases, inl, inr,
}
use formation_chat_core.Database.Rows.{Text}
use formation_chat_core.Transport.EventStream.{
  EventCodec, Failure, Handler, Parser, reset, take_field, handled, dispatch, dispatch_event,
  dispatch_json, dispatch_lines, consume_line, drain, drain_buffer, drop_return,
}

module _ {J E S : Type 0} (codec : EventCodec J E) (on_event : Handler E S) where
  pub drain-step :
      (f : ℕ) (b line rest : Text) (p : Parser S)
      → break_at b'\n' b ≡ some (line, rest)
      → drain codec on_event (suc f) b p
        ≡ (consume_line codec on_event (drop_return line) p >>= drain codec on_event f rest)
  unfolding drain
  drain-step f b line rest p found = rw (found, drain)

  pub drain_done :
      (f : ℕ) (b : Text) (p : Parser S)
      → break_at b'\n' b ≡ none
      → drain codec on_event f b p ≡ ok (b, p)
  unfolding drain
  drain_done zero b p missing = refl
  drain_done (suc f) b p missing = rw (missing, drain)

  pub drain_fuel :
      (f g : ℕ) (b : Text) (p : Parser S)
      → length b ≤ f
      → length b ≤ g
      → drain codec on_event f b p ≡ drain codec on_event g b p
  drain_fuel zero g [] p hf hg =
      drain_done 0 [] p (unfold break_at in refl)
      ∙ sym (drain_done g [] p (unfold break_at in refl))
  drain_fuel zero g (c ∷ cs) p hf hg = absurd (omega arith)
  drain_fuel (suc f) zero [] p hf hg =
      drain_done (suc f) [] p (unfold break_at in refl)
      ∙ sym (drain_done 0 [] p (unfold break_at in refl))
  drain_fuel (suc f) zero (c ∷ cs) p hf hg = absurd (omega arith)
  drain_fuel (suc f) (suc g) b p hf hg = elim (Option-cases (break_at b'\n' b)) [
    | inl missing ↦ drain_done (suc f) b p missing ∙ sym (drain_done (suc g) b p missing)
    | inr ((line, rest), found) ↦
        let shorter = length-break_at b'\n' b line rest found in
        rw (drain-step f b line rest p found, drain-step g b line rest p found)
          (elim (Result-cases (consume_line codec on_event (drop_return line) p)) [
            | inl (q, e) ↦
                rw e (drain_fuel f g rest q (omega (arith, shorter)) (omega (arith, shorter)))
            | inr (thrown, e) ↦ rw e
          ])
  ]

  pub drain-append :
      (f g : ℕ) (x y : Text) (p : Parser S)
      → length (x ++ y) ≤ f
      → length x ≤ g
      → drain codec on_event f (x ++ y) p ≡ (
          drain codec on_event g x p >>= λ (done : Text × Parser S).
          drain_buffer codec on_event (done.0 ++ y) done.1)
  unfolding drain_buffer
  drain-append zero g [] [] p hf hg = rw (drain_done g [] p (unfold break_at in refl)) refl
  drain-append zero g [] (c ∷ cs) p hf hg = absurd (omega arith)
  drain-append zero g (c ∷ cs) y p hf hg = absurd (omega arith)
  drain-append (suc f) zero [] y p hf hg =
      rw (drain_done 0 [] p (unfold break_at in refl))
        (drain_fuel (suc f) (length y) y p hf (omega arith))
  drain-append (suc f) zero (c ∷ cs) y p hf hg = absurd (omega arith)
  drain-append (suc f) (suc g) x y p hf hg = elim (Option-cases (break_at b'\n' x)) [
    | inl missing ↦
        rw (drain_done (suc g) x p missing)
          (drain_fuel (suc f) (length (x ++ y)) (x ++ y) p hf (omega arith))
    | inr ((line, rest), found) ↦
        let shorter = length-break_at b'\n' x line rest found in
        let more = break_at-append b'\n' x line rest y found in
        let shorter' = length-break_at b'\n' (x ++ y) line (rest ++ y) more in
        rw (drain-step f (x ++ y) line (rest ++ y) p more, drain-step g x line rest p found)
          (elim (Result-cases (consume_line codec on_event (drop_return line) p)) [
            | inl (q, e) ↦
                rw e (drain-append f g rest y q (omega (arith, shorter')) (omega (arith, shorter)))
            | inr (thrown, e) ↦ rw e
          ])
  ]

  handled-frame_bytes :
      (outcome : S × Option ℕ) (p q : Parser S)
      → handled outcome p ≡ ok q
      → q.frame_bytes ≡ p.frame_bytes
  handled-frame_bytes (client, none) p q h = ground arith
  handled-frame_bytes (client, some thrown) p q h = ground arith

  dispatch_json-frame_bytes-le :
      (value : Option J) (p q : Parser S)
      → dispatch_json codec on_event p value ≡ ok q
      → q.frame_bytes ≤ p.frame_bytes
  unfolding dispatch_event reset
  dispatch_json-frame_bytes-le none p q h = ground arith
  dispatch_json-frame_bytes-le (some value) p q h = elim (Option-cases (codec.check_event value)) [
    | inl refused ↦ ground (arith, refused)
    | inr (event, checked) ↦
        ground (arith, checked, handled-frame_bytes (on_event p.client event) (reset p) q)
  ]

  dispatch_lines-frame_bytes-le :
      (lines : List Text) (p q : Parser S)
      → dispatch_lines codec on_event lines p ≡ ok q
      → q.frame_bytes ≤ p.frame_bytes
  unfolding reset
  dispatch_lines-frame_bytes-le [] p q h = ground arith
  dispatch_lines-frame_bytes-le (line ∷ lines) p q h = dispatch_json-frame_bytes-le _ p q h

  consume_line-frame_bytes-le :
      (line : Text) (p q : Parser S)
      → consume_line codec on_event line p ≡ ok q
      → q.frame_bytes ≤ p.frame_bytes
  unfolding consume_line take_field dispatch
  consume_line-frame_bytes-le [] p q h = dispatch_lines-frame_bytes-le p.data_lines p q h
  consume_line-frame_bytes-le (c ∷ cs) p q h = ground arith

  drained_here :
      (b left : Text) (p q : Parser S)
      → break_at b'\n' b ≡ none
      → ◌≡◌ {A = Result (Failure S) (Text × Parser S)} (ok (b, p)) (ok (left, q))
      → (break_at b'\n' left ≡ none) × (q.frame_bytes ≤ p.frame_bytes)
  drained_here b left p q missing h =
      let same : ◌≡◌ {A = Text × Parser S} (b, p) (left, q) = cc in
      (
        subst (λ (x : Text × Parser S). break_at b'\n' x.0 ≡ none) same missing,
        omega (arith, ap (λ (x : Text × Parser S). x.1.frame_bytes) same),
      )

  -- What is left of the buffer holds no newline, and the count of bytes has not grown.
  pub drained :
      (f : ℕ) (b left : Text) (p q : Parser S)
      → length b ≤ f
      → drain codec on_event f b p ≡ ok (left, q)
      → (break_at b'\n' left ≡ none) × (q.frame_bytes ≤ p.frame_bytes)
  unfolding drain
  drained zero [] left p q hf h = drained_here [] left p q (unfold break_at in refl) h
  drained zero (c ∷ cs) left p q hf h = absurd (omega arith)
  drained (suc f) b left p q hf h = elim (Option-cases (break_at b'\n' b)) [
    | inl missing ↦ drained_here b left p q missing (sym (drain_done (suc f) b p missing) ∙ h)
    | inr ((line, rest), found) ↦
        let shorter = length-break_at b'\n' b line rest found in
        let (r, e, ended) =
          >>=-eq-ok (consume_line codec on_event (drop_return line) p) (drain codec on_event f rest)
            (sym (drain-step f b line rest p found) ∙ h) in
        let (plain, le) = drained f rest left r q (omega (arith, shorter)) ended in
        (plain, omega (arith, le, consume_line-frame_bytes-le (drop_return line) p r e))
  ]

  -- The loop over the lines ends: the buffer's length is rounds enough, more rounds change nothing,
  -- and where no line fails, no newline is left in the buffer.
  pub drain_buffer-ends :
      (rounds : ℕ) (buffer : Text) (p : Parser S)
      → length buffer ≤ rounds
      → (drain codec on_event rounds buffer p ≡ drain_buffer codec on_event buffer p)
        × ((left : Text) (q : Parser S)
            → drain_buffer codec on_event buffer p ≡ ok (left, q)
            → break_at b'\n' left ≡ none)
  unfolding drain_buffer
  drain_buffer-ends rounds buffer p enough = (
    drain_fuel rounds (length buffer) buffer p enough (omega arith),
    λ left q h. (drained (length buffer) buffer left p q (omega arith) h).0,
  )
