-- ===== src/Transport/Pages/Rows.antt =====
-- packages/browser-client/src/http-transport.ts, `listMessages`: the rows of one page of the service.
use native.Mathlib.Nat.{zero-add, suc-add}
use native.Mathlib.Numerals.{add-one}
use formation_chat_core.Prelude.{
  ℕ, zero, suc, ◌+◌, ◌≤◌, ◌<◌, ◌≡◌, refl, sym, ◌∙◌, ap, none, some, List, [], ◌∷◌, ◌++◌, map, arith,
  ltb, take, drop, last?, length, Option-cases, Bool-cases, inl, inr, length-take-suc,
  take-take-suc, take-nil, last?-none,
}
use formation_chat_core.Database.Rows.{Text, Message}
use formation_chat_core.Message.{map_message}
use formation_chat_core.Message.Cursor.{Base64}
use formation_chat_core.Message.Listing.{page_of}

pub take-append-take :
    {A : Type 0} (k n : ℕ) (xs : List A) → take k xs ++ take n (drop k xs) ≡ take (k + n) xs
unfolding take drop
take-append-take zero n xs = rw zero-add
take-append-take (suc k) n [] = take-nil n ∙ sym (take-nil (suc k + n))
take-append-take (suc k) n (x ∷ xs) = rw suc-add (ap (◌∷◌ x) (take-append-take k n xs))

length-take-full : {A : Type 0} (n : ℕ) (xs : List A) → n ≤ length xs → length (take n xs) ≡ n
unfolding take
length-take-full zero xs h = refl
length-take-full (suc n) [] h = absurd (omega arith)
length-take-full (suc n) (x ∷ xs) h = ap suc (length-take-full n xs (omega arith))

module _ (codec : Base64) (limit : ℕ) where
  pub page_of-data_rows :
      (rows : List Message)
      → (page_of codec limit rows).data_rows ≡ map map_message (take limit rows)
  unfolding page_of
  page_of-data_rows rows = rw (add-one, take-take-suc limit rows) refl

  pub page_of-last :
      (rows : List Message)
      → 0 < limit
      → (page_of codec limit rows).next_cursor ≡ none
      → length rows ≤ limit
  unfolding page_of
  page_of-last rows pos h = elim (Bool-cases (ltb limit (length rows))) [
    | inr small ↦ ground (arith, small)
    | inl large ↦
        let read = length-take-full (limit + 1) rows (ground (arith, large)) in
        let page : take limit (take (limit + 1) rows) ≡ take limit rows =
          rw add-one (take-take-suc limit rows) in
        let full = length-take-full limit rows (ground (arith, large)) in
        elim (Option-cases (last? (take limit rows))) [
          | inl missing ↦ absurd (
              omega (
                arith,
                pos,
                full,
                ap (λ (x : List Message). length x) (last?-none (take limit rows) missing),
              ))
          | inr (m, there) ↦ ground (arith, page, read, there)
        ]
  ]

  pub page_of-more :
      (rows : List Message) (t : Text)
      → (page_of codec limit rows).next_cursor ≡ some t
      → limit < length rows
  unfolding page_of
  page_of-more rows t h = elim (Bool-cases (ltb limit (length (take (limit + 1) rows)))) [
    | inl large ↦
        let lt : limit < length (take (limit + 1) rows) = ground (arith, large) in
        length-take-suc limit rows (rw add-one at lt)
    | inr small ↦ ground (arith, small)
  ]
