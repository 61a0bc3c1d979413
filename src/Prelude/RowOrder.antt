-- ===== src/Prelude/RowOrder.antt =====
-- Rows in the order of several columns, given by its comparison, and the pages of such an order.
use Prim.Native.Nat.{ℕ, zero, suc}
use mathlib.Core.Path.{◌≡◌, refl, sym, subst}
use mathlib.Core.Logic.{inl, inr}
use mathlib.Core.Bool.{Bool, true, false, not}
use mathlib.Core.Option.{some}
use mathlib.Core.List.{List, [], ◌∷◌}
use native.Mathlib.Omega.{arith}
use formation_chat_core.Prelude.Tests.{Bool-cases}
use formation_chat_core.Prelude.Lists.{All, select, All-map, All-select, All-zip}
use formation_chat_core.Prelude.Sorting.{take, drop, last?, insert_row, order_by, All-insert_row}

module _ {ℓ} {A : Type ℓ} (le : A → A → Bool) (total : (a b : A) → le a b ≡ false → le b a ≡ true)
    (trans : (a b c : A) → le a b ≡ true → le b c ≡ true → le a c ≡ true) where
  abbrev pub IsInOrder : List A → Type 0
  IsInOrder [] = Unit
  IsInOrder (x ∷ xs) = All (λ y. le x y ≡ true) xs × IsInOrder xs

  -- No two rows are equal in the order.
  abbrev pub AreApart : List A → Type 0
  AreApart [] = Unit
  AreApart (x ∷ xs) = All (λ y. le x y ≡ true → le y x ≡ false) xs × AreApart xs

  -- Each row is strictly before those behind it.
  abbrev pub IsStrict : List A → Type 0
  IsStrict [] = Unit
  IsStrict (x ∷ xs) = All (λ y. le y x ≡ false) xs × IsStrict xs

  reflexive : (a : A) → le a a ≡ true
  reflexive a = elim (Bool-cases (le a a)) [ inl e ↦ e | inr e ↦ total a a e ]

  insert-IsInOrder : (x : A) (ys : List A) → IsInOrder ys → IsInOrder (insert_row le x ys)
  unfolding insert_row
  insert-IsInOrder x [] h = (tt, tt)
  insert-IsInOrder x (y ∷ ys) (h, hs) = elim (Bool-cases (le x y)) [
    | inl e ↦ rw e ((e, All-map (λ z g. trans x y z e g) ys h), (h, hs))
    | inr e ↦
        rw e (All-insert_row le (λ z. le y z ≡ true) x ys (total x y e) h, insert-IsInOrder x ys hs)
  ]

  pub order_by-IsInOrder : (xs : List A) → IsInOrder (order_by le xs)
  unfolding order_by
  order_by-IsInOrder [] = tt
  order_by-IsInOrder (x ∷ xs) = insert-IsInOrder x (order_by le xs) (order_by-IsInOrder xs)

  front : (x : A) (ys : List A) → All (λ y. le x y ≡ true) ys → insert_row le x ys ≡ x ∷ ys
  unfolding insert_row
  front x [] h = refl
  front x (y ∷ ys) (h, hs) = ground (arith, h)

  select-insert_miss :
      (q : A → Bool) (x : A) (ys : List A)
      → q x ≡ false
      → select q (insert_row le x ys) ≡ select q ys
  unfolding insert_row select
  select-insert_miss q x [] e = ground arith
  select-insert_miss q x (y ∷ ys) e = ground (arith, select-insert_miss q x ys e)

  select-insert_hit :
      (q : A → Bool) (x : A) (ys : List A)
      → q x ≡ true
      → IsInOrder ys
      → select q (insert_row le x ys) ≡ insert_row le x (select q ys)
  unfolding insert_row select
  select-insert_hit q x [] e h = ground arith
  select-insert_hit q x (y ∷ ys) e (h, hs) = elim (Bool-cases (le x y)) [
    | inl here ↦
        let behind =
          All-select (λ z. le x z ≡ true) q ys (All-map (λ z g. trans x y z here g) ys h) in
        ground (arith, here, e, front x (select q ys) behind)
    | inr later ↦ ground (arith, later, e, select-insert_hit q x ys e hs)
  ]

  -- Choosing rows before or after the ordering is the same.
  pub select-order_by :
      (q : A → Bool) (xs : List A) → order_by le (select q xs) ≡ select q (order_by le xs)
  unfolding order_by select
  select-order_by q [] = refl
  select-order_by q (x ∷ xs) = elim (Bool-cases (q x)) [
    | inl e ↦
        rw (e, select-order_by q xs)
          (sym (select-insert_hit q x (order_by le xs) e (order_by-IsInOrder xs)))
    | inr e ↦ rw (e, select-order_by q xs) (sym (select-insert_miss q x (order_by le xs) e))
  ]

  pub order-IsStrict : (xs : List A) → IsInOrder xs → AreApart xs → IsStrict xs
  order-IsStrict [] h d = tt
  order-IsStrict (x ∷ xs) (h, hs) (d, ds) =
      (All-map (λ y (le_y, apart). apart le_y) xs (All-zip _ _ xs h d), order-IsStrict xs hs ds)

  select_behind :
      (t : A) (xs : List A) → All (λ y. le y t ≡ false) xs → select (λ y. not (le y t)) xs ≡ xs
  unfolding select
  select_behind t [] h = refl
  select_behind t (x ∷ xs) (h, hs) = ground (arith, h, select_behind t xs hs)

  last-before :
      (k : ℕ) (x : A) (xs : List A) (t : A)
      → All (λ y. le y x ≡ false) xs
      → last? (take k xs) ≡ some t
      → le t x ≡ false
  unfolding take last?
  last-before zero x xs t h e = ground arith
  last-before (suc k) x [] t h e = ground arith
  last-before (suc zero) x (y ∷ ys) t (h, hs) e =
      let same : y ≡ t = ground arith in subst (λ z. le z x ≡ false) same h
  last-before (suc (suc k)) x (y ∷ []) t (h, hs) e =
      let same : y ≡ t = ground arith in subst (λ z. le z x ≡ false) same h
  last-before (suc (suc k)) x (y ∷ z ∷ zs) t (h, hs) e = last-before (suc k) x (z ∷ zs) t hs e

  -- The rows strictly behind the last row of a page are those behind the page.
  pub select_page :
      (k : ℕ) (xs : List A) (t : A)
      → IsStrict xs
      → last? (take k xs) ≡ some t
      → select (λ y. not (le y t)) xs ≡ drop k xs
  unfolding take drop last? select
  select_page zero xs t h e = ground arith
  select_page (suc k) [] t h e = ground arith
  select_page (suc zero) (x ∷ xs) t (h, hs) e =
      let same : x ≡ t = ground arith in
      let here : le x t ≡ true = subst (λ z. le x z ≡ true) same (reflexive x) in
      ground (arith, here, select_behind t xs (subst (λ z. All (λ y. le y z ≡ false) xs) same h))
  select_page (suc (suc k)) (x ∷ []) t (h, hs) e =
      let same : x ≡ t = ground arith in
      let here : le x t ≡ true = subst (λ z. le x z ≡ true) same (reflexive x) in
      ground (arith, here)
  select_page (suc (suc k)) (x ∷ y ∷ ys) t (h, hs) e =
      let later = last-before (suc k) x (y ∷ ys) t h e in
      ground (arith, total t x later, select_page (suc k) (y ∷ ys) t hs e)
