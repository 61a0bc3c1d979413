-- ===== src/Transport/EventStream/Counting.antt =====
-- packages/browser-client/src/http-transport.ts, `parseEventStream`: the count of bytes changes nothing
-- else.
use formation_chat_core.Prelude.{
  Option, ℕ, zero, suc, ◌≡◌, refl, sym, ◌∙◌, ap, none, some, List, [], ◌∷◌, arith, Result, ok, err,
  ◌>>=◌, break_at, Option-cases, Result-cases, Bool-cases, inl, inr,
}
use formation_chat_core.Database.Rows.{Text}
use formation_chat_core.Transport.EventStream.{
  EventCodec, Failure, Handler, Parser, reset, take_field, handled, fits_envelope, dispatch,
  dispatch_event, dispatch_json, dispatch_lines, consume_line, drain, finish, drop_return, close,
  dispatch_rest,
}
use formation_chat_core.Transport.EventStream.Lines.{drain-step, drain_done}

module _ {S : Type 0} where
  abbrev pub quiet : Parser S → Parser S
  quiet p = record p { frame_bytes = 0 }

  abbrev pub quieted : Result (Failure S) (Parser S) → Result (Failure S) (Parser S)
  quieted (err e) = err e
  quieted (ok p) = ok (quiet p)

  abbrev pub quieted_rest :
      Result (Failure S) (Text × Parser S) → Result (Failure S) (Text × Parser S)
  quieted_rest (err e) = err e
  quieted_rest (ok (b, p)) = ok (b, quiet p)

module _ {J E S : Type 0} (codec : EventCodec J E) (on_event : Handler E S) where
  handled-quiet :
      (outcome : S × Option ℕ) (p : Parser S)
      → quieted (handled outcome p) ≡ quieted (handled outcome (quiet p))
  handled-quiet (client, none) p = refl
  handled-quiet (client, some thrown) p = refl

  dispatch_json-quiet :
      (value : Option J) (p : Parser S)
      → quieted (dispatch_json codec on_event p value)
        ≡ quieted (dispatch_json codec on_event (quiet p) value)
  unfolding dispatch_event reset
  dispatch_json-quiet none p = refl
  dispatch_json-quiet (some value) p = elim (Option-cases (codec.check_event value)) [
    | inl refused ↦ rw (refused, dispatch_json) refl
    | inr (event, checked) ↦
        rw (checked, dispatch_json)
          (elim (Bool-cases (fits_envelope codec on_event p event)) [
            | inl fits ↦ ground (arith, fits, handled-quiet (on_event p.client event) (reset p))
            | inr not_fits ↦ ground (arith, not_fits)
          ])
  ]

  dispatch_lines-quiet :
      (lines : List Text) (p : Parser S)
      → quieted (dispatch_lines codec on_event lines p)
        ≡ quieted (dispatch_lines codec on_event lines (quiet p))
  unfolding reset
  dispatch_lines-quiet [] p = refl
  dispatch_lines-quiet (line ∷ lines) p = dispatch_json-quiet _ p

  consume_line-quiet :
      (line : Text) (p : Parser S)
      → quieted (consume_line codec on_event line p)
        ≡ quieted (consume_line codec on_event line (quiet p))
  unfolding consume_line dispatch take_field
  consume_line-quiet [] p = dispatch_lines-quiet p.data_lines p
  consume_line-quiet (c ∷ cs) p = ground arith

  pub drain-quiet :
      (f : ℕ) (b : Text) (p : Parser S)
      → quieted_rest (drain codec on_event f b p)
        ≡ quieted_rest (drain codec on_event f b (quiet p))
  drain-quiet zero b p = unfold drain in refl
  drain-quiet (suc f) b p = elim (Option-cases (break_at b'\n' b)) [
    | inl missing ↦
        rw
          (
            drain_done codec on_event (suc f) b p missing,
            drain_done codec on_event (suc f) b (quiet p) missing,
          )
          refl
    | inr ((line, rest), found) ↦
        let same = consume_line-quiet (drop_return line) p in
        rw
          (
            drain-step codec on_event f b line rest p found,
            drain-step codec on_event f b line rest (quiet p) found,
          )
          (elim (Result-cases (consume_line codec on_event (drop_return line) p)) [
            | inl (q, e) ↦
                elim (Result-cases (consume_line codec on_event (drop_return line) (quiet p))) [
                  | inl (r, k) ↦
                      let alike : quiet q ≡ quiet r = ground (arith, e, k, same) in
                      rw (e, k)
                        (drain-quiet f rest q
                          ∙ ap (λ (x : Parser S). quieted_rest (drain codec on_event f rest x))
                              alike
                          ∙ sym (drain-quiet f rest r))
                  | inr (thrown, k) ↦ ground (arith, e, k, same)
                ]
            | inr (thrown, e) ↦
                elim (Result-cases (consume_line codec on_event (drop_return line) (quiet p))) [
                  | inl (r, k) ↦ ground (arith, e, k, same)
                  | inr (t, k) ↦ ground (arith, e, k, same)
                ]
          ])
  ]

  then-quiet {ℓ} :
      {A : Type ℓ} (next : Parser S → Result (Failure S) A) (r s : Result (Failure S) (Parser S))
      → ((p : Parser S) → next p ≡ next (quiet p))
      → quieted r ≡ quieted s
      → (r >>= next) ≡ (s >>= next)
  then-quiet {A} next r s blind same =
      along r ∙ ap (λ (x : Result (Failure S) (Parser S)). x >>= next) same ∙ sym (along s)
    where
      along : (x : Result (Failure S) (Parser S)) → (x >>= next) ≡ (quieted x >>= next)
      along (err e) = refl
      along (ok p) = blind p

  close-quiet : (p : Parser S) → close codec on_event p ≡ close codec on_event (quiet p)
  close-quiet p = split p.data_lines
    where
      split :
          (lines : List Text)
          → (dispatch_rest codec on_event lines p >>= λ (q : Parser S). ok q.client)
            ≡ (dispatch_rest codec on_event lines (quiet p) >>= λ (q : Parser S). ok q.client)
      split [] = refl
      split (line ∷ lines) =
          then-quiet (λ (q : Parser S). ok q.client) _ _ (λ q. refl)
            (unfold dispatch in dispatch_lines-quiet p.data_lines p)

  pub finish-quiet :
      (b : Text) (p : Parser S) → finish codec on_event b p ≡ finish codec on_event b (quiet p)
  unfolding finish
  finish-quiet [] p = close-quiet p
  finish-quiet (c ∷ cs) p =
      then-quiet (close codec on_event) _ _ close-quiet
        (consume_line-quiet (drop_return (c ∷ cs)) p)

  pub then_rest-quiet {ℓ} :
      {A : Type ℓ} (next : Text × Parser S → Result (Failure S) A)
      (r s : Result (Failure S) (Text × Parser S))
      → ((b : Text) (p : Parser S) → next (b, p) ≡ next (b, quiet p))
      → quieted_rest r ≡ quieted_rest s
      → (r >>= next) ≡ (s >>= next)
  then_rest-quiet {A} next r s blind same =
      along r ∙ ap (λ (x : Result (Failure S) (Text × Parser S)). x >>= next) same ∙ sym (along s)
    where
      along : (x : Result (Failure S) (Text × Parser S)) → (x >>= next) ≡ (quieted_rest x >>= next)
      along (err e) = refl
      along (ok (b, p)) = blind b p
