-- ===== src/Prelude/KeyOrder.antt =====
-- Rows in the order of a key that no two of them share, and the pages of such an order.
use Prim.Native.Nat.{ℕ, zero, suc, ◌<◌, ◌≤◌, ◌+◌, ◌-◌}
use mathlib.Core.Path.{◌≡◌, refl, ap, sym, subst, ◌∙◌}
use mathlib.Core.Logic.{inl, inr, ◌≢◌}
use mathlib.Core.Bool.{Bool, true, false}
use mathlib.Core.Option.{some}
use mathlib.Core.List.{List, [], ◌∷◌}
use native.Mathlib.Omega.{arith}
use formation_chat_core.Prelude.Tests.{if◌then◌else◌, leb, ltb, ◌==◌, Bool-cases}
use formation_chat_core.Prelude.Lists.{
  length, All, select, All-map, All-select, All-zip, find_first, update_where, All-update_split,
}
use formation_chat_core.Prelude.Sorting.{
  take, drop, last?, insert_row, order_by, All-insert_row, All-order_by, length-order_by, drop-nil,
}

module _ {ℓ} {A : Type ℓ} (key : A → ℕ) where
  abbrev pub by_key : A → A → Bool
  by_key a b = leb (key a) (key b)

  abbrev pub HaveDistinctKeys : List A → Type 0
  HaveDistinctKeys [] = Unit
  HaveDistinctKeys (x ∷ xs) = All (λ y. key y ≢ key x) xs × HaveDistinctKeys xs

  abbrev pub IsAscending : List A → Type 0
  IsAscending [] = Unit
  IsAscending (x ∷ xs) = All (λ y. key x < key y) xs × IsAscending xs

  insert_row-IsAscending :
      (x : A) (ys : List A)
      → All (λ y. key y ≢ key x) ys
      → IsAscending ys
      → IsAscending (insert_row by_key x ys)
  unfolding insert_row
  insert_row-IsAscending x [] ne h = (tt, tt)
  insert_row-IsAscending x (y ∷ ys) (ne, nes) (h, hs) = elim (Bool-cases (by_key x y)) [
    | inl e ↦
        let lt : key x < key y = ground arith in
        rw e ((lt, All-map (λ z g. omega (arith, g, lt)) ys h), (h, hs))
    | inr e ↦ rw e (
      All-insert_row by_key (λ z. key y < key z) x ys (ground arith) h,
      insert_row-IsAscending x ys nes hs,
    )
  ]

  pub order_by-IsAscending : (xs : List A) → HaveDistinctKeys xs → IsAscending (order_by by_key xs)
  unfolding order_by
  order_by-IsAscending [] h = tt
  order_by-IsAscending (x ∷ xs) (h, hs) =
      insert_row-IsAscending x (order_by by_key xs) (All-order_by by_key (λ y. key y ≢ key x) xs h)
        (order_by-IsAscending xs hs)

  pub insert_row_front :
      (x : A) (ys : List A) → All (λ y. key x < key y) ys → insert_row by_key x ys ≡ x ∷ ys
  unfolding insert_row
  insert_row_front x [] h = refl
  insert_row_front x (y ∷ ys) (h, hs) = ground arith

  select-insert_row_miss :
      (q : A → Bool) (x : A) (ys : List A)
      → q x ≡ false
      → select q (insert_row by_key x ys) ≡ select q ys
  unfolding insert_row select
  select-insert_row_miss q x [] e = ground arith
  select-insert_row_miss q x (y ∷ ys) e = ground (arith, select-insert_row_miss q x ys e)

  select-insert_row_hit :
      (q : A → Bool) (x : A) (ys : List A)
      → q x ≡ true
      → All (λ y. key y ≢ key x) ys
      → IsAscending ys
      → select q (insert_row by_key x ys) ≡ insert_row by_key x (select q ys)
  unfolding insert_row select
  select-insert_row_hit q x [] e ne h = ground arith
  select-insert_row_hit q x (y ∷ ys) e (ne, nes) (h, hs) = elim (Bool-cases (by_key x y)) [
    | inl le ↦
        let lt : key x < key y = ground arith in
        ground (
          arith,
          insert_row_front x (select q ys)
              (All-select (λ z. key x < key z) q ys (All-map (λ z g. omega (arith, g, lt)) ys h)),
        )
    | inr gt ↦ ground (arith, select-insert_row_hit q x ys e nes hs)
  ]

  pub order_by-select :
      (q : A → Bool) (xs : List A)
      → HaveDistinctKeys xs
      → order_by by_key (select q xs) ≡ select q (order_by by_key xs)
  unfolding order_by select
  order_by-select q [] d = refl
  order_by-select q (x ∷ xs) (d, ds) = elim (Bool-cases (q x)) [
    | inl e ↦
        rw (e, order_by-select q xs ds)
          (sym (
            select-insert_row_hit q x (order_by by_key xs) e
              (All-order_by by_key (λ y. key y ≢ key x) xs d) (order_by-IsAscending xs ds)))
    | inr e ↦
        rw (e, order_by-select q xs ds) (sym (select-insert_row_miss q x (order_by by_key xs) e))
  ]

  pub select_above :
      (n : ℕ) (xs : List A) → All (λ y. n < key y) xs → select (λ y. ltb n (key y)) xs ≡ xs
  unfolding select
  select_above n [] h = refl
  select_above n (x ∷ xs) (h, hs) = ground (arith, select_above n xs hs)

  pub All-last-take {κ} :
      (P : A → Type κ) (k : ℕ) (xs : List A) (t : A) → All P xs → last? (take k xs) ≡ some t → P t
  unfolding take last?
  All-last-take P zero xs t h e = ground arith
  All-last-take P (suc k) [] t h e = ground arith
  All-last-take P (suc zero) (x ∷ xs) t (h, hs) e =
      let same : x ≡ t = ground arith in subst P same h
  All-last-take P (suc (suc k)) (x ∷ []) t (h, hs) e =
      let same : x ≡ t = ground arith in subst P same h
  All-last-take P (suc (suc k)) (x ∷ y ∷ ys) t (h, hs) e = All-last-take P (suc k) (y ∷ ys) t hs e

  -- The rows above the last key of a page are those behind the page.
  pub select-drop :
      (k : ℕ) (xs : List A) (t : A)
      → IsAscending xs
      → last? (take k xs) ≡ some t
      → select (λ y. ltb (key t) (key y)) xs ≡ drop k xs
  unfolding take drop last? select
  select-drop zero xs t h e = ground arith
  select-drop (suc k) [] t h e = ground arith
  select-drop (suc zero) (x ∷ xs) t (h, hs) e =
      let same : x ≡ t = ground arith in
      ground (
        arith,
        ap key same,
        select_above (key t) xs (subst (λ z. All (λ y. key z < key y) xs) same h),
      )
  select-drop (suc (suc k)) (x ∷ []) t (h, hs) e =
      let same : x ≡ t = ground arith in ground (arith, ap key same)
  select-drop (suc (suc k)) (x ∷ y ∷ ys) t (h, hs) e =
      let above = All-last-take (λ z. key x < key z) (suc k) (y ∷ ys) t h e in
      ground (arith, above, select-drop (suc k) (y ∷ ys) t hs e)

  -- Where the key is unique, a search for a row's key finds that row.
  pub find_own :
      (xs : List A)
      → HaveDistinctKeys xs
      → All (λ d. find_first (λ r. key r == key d) xs ≡ some d) xs
  unfolding find_first
  find_own [] h = tt
  find_own (x ∷ xs) (ne, nes) = (
    ground arith,
    All-map (λ d (own, other). ground (arith, own, other)) xs (All-zip _ _ xs (find_own xs nes) ne),
  )

  -- An update that keeps the key keeps it unique.
  pub update-HaveDistinctKeys :
      (p : A → Bool) (f : A → A) (xs : List A)
      → ((a : A) → key (f a) ≡ key a)
      → HaveDistinctKeys xs
      → HaveDistinctKeys (update_where p f xs)
  unfolding update_where
  update-HaveDistinctKeys p f [] same h = tt
  update-HaveDistinctKeys p f (x ∷ xs) same (h, hs) = (
    All-update_split p f xs (λ a _ ne e. ne (sym (same a) ∙ e ∙ kept)) (λ a _ ne e. ne (e ∙ kept))
        h,
    update-HaveDistinctKeys p f xs same hs,
  )
    where
      kept : key (if p x then f x else x) ≡ key x
      kept = ground (arith, same x)

  length-ascending :
      (lo hi : ℕ) (xs : List A)
      → IsAscending xs
      → All (λ y. (lo ≤ key y) × (key y ≤ hi)) xs
      → length xs ≤ hi + 1 - lo
  length-ascending lo hi [] h b = omega arith
  length-ascending lo hi (x ∷ xs) (h, hs) (b, bs) = omega (
    arith,
    b,
    length-ascending (key x + 1) hi xs hs (
        All-map (λ y (lt, (_, le)). (omega (arith, lt), le)) xs
          (All-zip (λ y. key x < key y) (λ y. (lo ≤ key y) × (key y ≤ hi)) xs h bs)),
  )

  -- Rows of distinct keys within a window of w keys are at most w.
  pub length-window :
      (hi w : ℕ) (xs : List A)
      → HaveDistinctKeys xs
      → All (λ y. (hi < key y + w) × (key y ≤ hi)) xs
      → length xs ≤ w
  length-window hi w xs d b = omega (
    arith,
    length-order_by by_key xs,
    length-ascending (hi + 1 - w) hi (order_by by_key xs) (order_by-IsAscending xs d) (
        All-order_by by_key (λ y. (hi + 1 - w ≤ key y) × (key y ≤ hi)) xs
          (All-map (λ y (a, le). (omega (arith, a), le)) xs b)),
  )

  -- A list that overlaps with the page before it, less what is not above the page's last key.
  pub select-drop_overlap :
      (j k : ℕ) (xs : List A) (t : A)
      → IsAscending xs
      → j ≤ k
      → last? (take k xs) ≡ some t
      → select (λ y. ltb (key t) (key y)) (drop j xs) ≡ drop k xs
  unfolding take drop last?
  select-drop_overlap zero k xs t h le e = select-drop k xs t h e
  select-drop_overlap (suc j) zero xs t h le e = absurd (omega arith)
  select-drop_overlap (suc j) (suc k) [] t h le e = ground arith
  select-drop_overlap (suc zero) (suc zero) (x ∷ xs) t (h, hs) le e =
      let same : x ≡ t = ground arith in
      select_above (key t) xs (subst (λ z. All (λ y. key z < key y) xs) same h)
  select-drop_overlap (suc (suc j)) (suc zero) (x ∷ xs) t h le e = absurd (omega arith)
  select-drop_overlap (suc j) (suc (suc k)) (x ∷ []) t h le e = rw drop-nil (unfold select in refl)
  select-drop_overlap (suc j) (suc (suc k)) (x ∷ y ∷ ys) t (h, hs) le e =
      select-drop_overlap j (suc k) (y ∷ ys) t hs (omega arith) e

  pub All-take {κ} : (P : A → Type κ) (k : ℕ) (xs : List A) → All P xs → All P (take k xs)
  unfolding take
  All-take P zero xs h = tt
  All-take P (suc k) [] h = tt
  All-take P (suc k) (x ∷ xs) (h, hs) = (h, All-take P k xs hs)

  pub All-drop {κ} : (P : A → Type κ) (k : ℕ) (xs : List A) → All P xs → All P (drop k xs)
  unfolding drop
  All-drop P zero xs h = h
  All-drop P (suc k) [] h = tt
  All-drop P (suc k) (x ∷ xs) (h, hs) = All-drop P k xs hs

  pub drop-IsAscending : (k : ℕ) (xs : List A) → IsAscending xs → IsAscending (drop k xs)
  unfolding drop
  drop-IsAscending zero xs h = h
  drop-IsAscending (suc k) [] h = tt
  drop-IsAscending (suc k) (x ∷ xs) (h, hs) = drop-IsAscending k xs hs
