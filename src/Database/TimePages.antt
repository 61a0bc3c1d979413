-- ===== src/Database/TimePages.antt =====
-- The pages of rows in the order of a time and then of the identifier, the newest first: the queries
-- of apps/server/src/conversation/service.ts and apps/server/src/admin/service.ts have this form.
use formation_chat_core.Prelude.{
  ℕ, suc, ◌+◌, ◌≡◌, refl, ◌∙◌, ap, Bool, true, false, not, ◌&&◌, ◌||◌, Option, none, some, List, [],
  ◌∷◌, arith, ltb, leb, ◌==◌, if◌then◌else◌, length, select, take, drop, last?, order_by, All,
  All-map, HaveDistinctKeys, select-order_by, select_page, order-IsStrict, order_by-IsInOrder,
  IsStrict, AreApart, last?-take-drop, take-take-suc, ltb-length-take-suc, last?-take-none,
  length-drop, ◌⊎◌, ◌<◌, ◌≤◌, Bool-cases, All-last-take, Option-cases, inl, inr,
}

pub record TimeCursor : Type 0 where
  pub timestamp : ℕ
  pub id : ℕ

pub record TimePage {ℓ} (A : Type ℓ) : Type ℓ where
  pub rows : List A
  pub next_cursor : Option TimeCursor

module _ {ℓ} {A : Type ℓ} (time id : A → ℕ) where
  -- `order by time desc, id desc`.
  abbrev pub newest_first : A → A → Bool
  newest_first a b = ltb (time b) (time a) || (time a == time b && leb (id b) (id a))

  -- `time < timestamp or (time = timestamp and id < cursor's)`.
  unfoldable pub is_behind : TimeCursor → A → Bool
  is_behind cursor row =
      ltb (time row) cursor.timestamp || (time row == cursor.timestamp && ltb (id row) cursor.id)

  abbrev pub is_listed : (A → Bool) → Option TimeCursor → A → Bool
  is_listed admits none row = admits row
  is_listed admits (some cursor) row = admits row && is_behind cursor row

  abbrev pub cursor_of : (kept : ℕ → ℕ) → A → TimeCursor
  cursor_of kept row = record { timestamp = kept (time row); id = id row }

  -- The page of rows that were read with one more than the limit.
  unfoldable pub page_of : (kept : ℕ → ℕ) → (limit : ℕ) → List A → TimePage A
  page_of kept limit ordered =
      let rows = take (suc limit) ordered in
      let page = take limit rows in
      record {
        rows = page;
        next_cursor =
            if ltb limit (length rows)
            then elim (last? page) [ none ↦ none | some tail ↦ some (cursor_of kept tail) ]
            else none;
      }

  unfoldable pub time_page :
      (kept : ℕ → ℕ)
      → (admits : A → Bool) → (cursor : Option TimeCursor) → (limit : ℕ) → List A
      → TimePage A
  time_page kept admits cursor limit table =
      page_of kept limit (order_by newest_first (select (is_listed admits cursor) table))

  total : (a b : A) → newest_first a b ≡ false → newest_first b a ≡ true
  total a b h = ground arith

  trans : (a b c : A) → newest_first a b ≡ true → newest_first b c ≡ true → newest_first a c ≡ true
  trans a b c h k = ground arith

  is_behind-newest :
      (t row : A)
      → is_behind (record { timestamp = time t; id = id t }) row ≡ not (newest_first row t)
  unfolding is_behind
  is_behind-newest t row = ground arith

  apart : (rows : List A) → HaveDistinctKeys id rows → AreApart newest_first total trans rows
  apart [] h = tt
  apart (r ∷ rs) (h, hs) = (All-map (λ y ne le. ground arith) rs h, apart rs hs)

  -- All rows that a query admits, in its order.
  unfoldable pub listing : (A → Bool) → List A → List A
  listing admits table = order_by newest_first (select admits table)

  select-is_listed :
      (admits : A → Bool) (cursor : TimeCursor) (table : List A)
      → select (is_listed admits (some cursor)) table
        ≡ select (is_behind cursor) (select admits table)
  unfolding select
  select-is_listed admits cursor [] = refl
  select-is_listed admits cursor (r ∷ rs) = ground (arith, select-is_listed admits cursor rs)

  select-same :
      (p q : A → Bool) (rows : List A) → ((r : A) → p r ≡ q r) → select p rows ≡ select q rows
  unfolding select
  select-same p q [] same = refl
  select-same p q (r ∷ rs) same = ground (arith, same r, select-same p q rs same)

  listing-IsStrict :
      (admits : A → Bool) (table : List A)
      → HaveDistinctKeys id (listing admits table)
      → IsStrict newest_first total trans (listing admits table)
  unfolding listing
  listing-IsStrict admits table d =
      order-IsStrict newest_first total trans (listing admits table)
        (order_by-IsInOrder newest_first total trans (select admits table))
        (apart (listing admits table) d)

  -- The cursor of a page that starts behind the first k rows: none at the newest row, and else that
  -- of the k-th row.
  pub data StartsAt (kept : ℕ → ℕ) (all : List A) : ℕ → Option TimeCursor → Type ℓ where
    newest : StartsAt kept all 0 none
    behind :
        (k : ℕ) (t : A)
        → last? (take k all) ≡ some t
        → StartsAt kept all k (some (cursor_of kept t))

  pub StartsAt-whole :
      (kept : ℕ → ℕ) (all : List A) (k : ℕ) (c : TimeCursor)
      → All (λ r. kept (time r) ≡ time r) all
      → StartsAt kept all k (some c)
      → kept c.timestamp ≡ c.timestamp
  StartsAt-whole kept all _ _ whole (StartsAt.behind k t last) =
      ap kept (All-last-take time (λ (r : A). kept (time r) ≡ time r) k all t whole last)

  -- The query with a cursor reads the rows behind it: none is skipped and none comes twice, where the
  -- identifiers differ and the cursors keep the times of the rows whole.
  pub time_page-at :
      (kept : ℕ → ℕ) (admits : A → Bool) (limit k : ℕ) (table : List A) (cursor : Option TimeCursor)
      → HaveDistinctKeys id (listing admits table)
      → All (λ r. kept (time r) ≡ time r) (listing admits table)
      → StartsAt kept (listing admits table) k cursor
      → time_page kept admits cursor limit table
        ≡ page_of kept limit (drop k (listing admits table))
  time_page-at kept admits limit _ table _ d whole StartsAt.newest =
      unfold time_page listing drop in refl
  time_page-at kept admits limit _ table _ d whole (StartsAt.behind k t last) =
      let all : List A = listing admits table in
      let c : TimeCursor = cursor_of kept t in
      let exact = All-last-take time (λ (r : A). kept (time r) ≡ time r) k all t whole last in
      let own : c ≡ record { timestamp = time t; id = id t } =
        ap (λ (n : ℕ). record { timestamp = n; id = id t }) exact in
      let later =
        select-same (is_behind c) (λ (y : A). not (newest_first y t)) all
          (λ r. ap (λ (x : TimeCursor). is_behind x r) own ∙ is_behind-newest t r) in
      unfold time_page listing in
      ap (λ (rows : List A). page_of kept limit (order_by newest_first rows))
        (select-is_listed admits c table)
      ∙ ap (page_of kept limit) (
          select-order_by newest_first total trans (is_behind c) (select admits table)
          ∙ later
          ∙ select_page newest_first total trans k all t (listing-IsStrict admits table d) last)

  -- What a page that starts behind the first k rows names: nothing where no row is left behind it,
  -- and else the cursor that the next page starts at.
  abbrev pub NamesNext : (kept : ℕ → ℕ) → (all : List A) → (end : ℕ) → Option TimeCursor → Type ℓ
  NamesNext kept all end next =
      ((length all ≤ end) × (next ≡ none))
      ⊎ ((end < length all) × ((c : TimeCursor) × (next ≡ some c) × StartsAt kept all end (some c)))

  pub page_of-rows :
      (kept : ℕ → ℕ) (limit : ℕ) (rows : List A) → (page_of kept limit rows).rows ≡ take limit rows
  unfolding page_of
  page_of-rows kept limit rows = take-take-suc limit rows

  pub page_of-next :
      (kept : ℕ → ℕ) (limit k : ℕ) (all : List A)
      → 0 < limit
      → NamesNext kept all (k + limit) (page_of kept limit (drop k all)).next_cursor
  unfolding page_of
  page_of-next kept limit k all some_rows =
      let page = take-take-suc limit (drop k all) in
      let more = ltb-length-take-suc limit (drop k all) in
      let size = length-drop k all in
      elim (Option-cases (last? (take limit (drop k all)))) [
        | inl missing ↦
            let none_left = last?-take-none limit (drop k all) some_rows missing in
            inl (omega (arith, none_left, size), ground (arith, page, missing))
        | inr (t, there) ↦ elim (Bool-cases (ltb limit (length (drop k all)))) [
          | inl left ↦ inr (
            ground (arith, left, size),
            (
              cursor_of kept t,
              ground (arith, page, there, more, left),
              StartsAt.behind (k + limit) t (last?-take-drop k limit all t there),
            ),
          )
          | inr over ↦ inl (ground (arith, over, size), ground (arith, more, over))
        ]
      ]
