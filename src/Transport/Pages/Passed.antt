-- ===== src/Transport/Pages/Passed.antt =====
-- packages/browser-client/src/http-transport.ts, `listMessages`: the cursors that were seen.
use formation_chat_core.Prelude.{
  ℕ, ◌≤◌, ◌<◌, ◌≡◌, refl, sym, ◌∙◌, ap, subst, false, Option, some, List, [], ◌∷◌, arith, ltb, any,
  take, drop, last?, All, IsAscending, select-drop, All-select_hit, same_text, same_text_sound,
  Bool-cases, inl, inr, All-last-take,
}
use formation_chat_core.Database.Rows.{Text, Message}
use formation_chat_core.Message.Cursor.{
  Base64, encode_cursor, decode_cursor, decode-encode_cursor, max_safe,
}

-- The rows behind a page are above the last of the page.
pub All-behind :
    (k : ℕ) (xs : List Message) (m : Message)
    → IsAscending (λ (x : Message). x.sequence) xs
    → last? (take k xs) ≡ some m
    → All (λ (y : Message). m.sequence < y.sequence) (drop k xs)
All-behind k xs m h e =
    subst (All (λ (y : Message). m.sequence < y.sequence))
      (select-drop (λ (x : Message). x.sequence) k xs m h e)
      (All-select_hit (λ (y : Message). ltb m.sequence y.sequence) xs (λ y hit _. ground arith)
        (All-any xs))
  where
    All-any : (ys : List Message) → All (λ (y : Message). Unit {0}) ys
    All-any [] = tt
    All-any (y ∷ ys) = (tt, All-any ys)

module _ (codec : Base64) where
  -- The cursors of sequences that the loop has passed.
  abbrev pub ArePassed : List Text → List Message → Type 0
  ArePassed seen ahead =
      All
        (λ (t : Text).
          (n : ℕ) × (t ≡ encode_cursor codec n)
          × (0 < n)
          × (n ≤ max_safe)
          × All (λ (m : Message). n < m.sequence) ahead)
        seen

  encode_cursor-injective :
      (m n : ℕ)
      → 0 < m
      → m ≤ max_safe
      → 0 < n
      → n ≤ max_safe
      → encode_cursor codec m ≡ encode_cursor codec n
      → m ≡ n
  encode_cursor-injective m n pm sm pn sn e =
      let read = decode-encode_cursor codec m pm sm in
      let read' = decode-encode_cursor codec n pn sn in
      let same : ◌≡◌ {A = Option ℕ} (some m) (some n) =
        sym read ∙ ap (decode_cursor codec) e ∙ read' in
      ground arith

  -- The cursor of a message ahead is none of those passed.
  pub any-seen :
      (seen : List Text) (ahead : List Message) (m : Message) (k : ℕ)
      → ArePassed seen ahead
      → last? (take k ahead) ≡ some m
      → 0 < m.sequence
      → m.sequence ≤ max_safe
      → any (same_text (encode_cursor codec m.sequence)) seen ≡ false
  unfolding any
  any-seen [] ahead m k h last pos safe = refl
  any-seen (t ∷ ts) ahead m k ((n, same, pn, sn, below), hs) last pos safe =
      elim (Bool-cases (same_text (encode_cursor codec m.sequence) t)) [
        | inr differs ↦ rw differs (any-seen ts ahead m k hs last pos safe)
        | inl equal ↦
            let e = same_text_sound (encode_cursor codec m.sequence) t equal ∙ same in
            let lt : n < m.sequence =
              All-last-take (λ (x : Message). x.sequence) (λ (x : Message). n < x.sequence) k ahead
                m below last in
            absurd (omega (arith, lt, encode_cursor-injective m.sequence n pos safe pn sn e))
      ]
