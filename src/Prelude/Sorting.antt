-- ===== src/Prelude/Sorting.antt =====
-- `order by`, `limit` and the first row of an ordered query.
use Prim.Native.Nat.{ℕ, zero, suc, ◌+◌, ◌-◌, ◌≤◌, ◌<◌}
use native.Mathlib.Nat.{zero-add, suc-add}
use mathlib.Core.Path.{◌≡◌, refl, ap, subst}
use mathlib.Core.Logic.{inl, inr, ◌≢◌}
use mathlib.Core.Bool.{Bool, true, false}
use mathlib.Core.Option.{Option, none, some}
use mathlib.Core.List.{List, [], ◌∷◌, ◌++◌}
use native.Mathlib.Omega.{arith}
use formation_chat_core.Prelude.Tests.{ltb, if◌then◌else◌, Bool-cases}
use formation_chat_core.Prelude.Lists.{length, All, select, All-map}

module _ {ℓ} {A : Type ℓ} where
  unfoldable pub take : ℕ → List A → List A
  take zero xs = []
  take (suc n) [] = []
  take (suc n) (x ∷ xs) = x ∷ take n xs

  unfoldable pub drop : ℕ → List A → List A
  drop zero xs = xs
  drop (suc n) [] = []
  drop (suc n) (x ∷ xs) = drop n xs

  unfoldable pub head? : List A → Option A
  head? [] = none
  head? (x ∷ xs) = some x

  -- `at(-1)`.
  unfoldable pub last? : List A → Option A
  last? [] = none
  last? (x ∷ []) = some x
  last? (x ∷ y ∷ xs) = last? (y ∷ xs)

  -- `slice(-n)`: the last n elements.
  unfoldable pub take_last : ℕ → List A → List A
  take_last n xs = drop (length xs - n) xs

  pub length-take-le : (n : ℕ) (xs : List A) → length (take n xs) ≤ n
  unfolding take
  length-take-le zero xs = omega arith
  length-take-le (suc n) [] = omega arith
  length-take-le (suc n) (x ∷ xs) = omega (arith, length-take-le n xs)

  pub length-drop : (n : ℕ) (xs : List A) → length (drop n xs) ≡ length xs - n
  unfolding drop
  length-drop zero xs = omega arith
  length-drop (suc n) [] = omega arith
  length-drop (suc n) (x ∷ xs) = omega (arith, length-drop n xs)

  pub length-take_last-le : (n : ℕ) (xs : List A) → length (take_last n xs) ≤ n
  unfolding take_last
  length-take_last-le n xs = omega (arith, length-drop (length xs - n) xs)

  pub take-append-drop : (n : ℕ) (xs : List A) → take n xs ++ drop n xs ≡ xs
  unfolding take drop
  take-append-drop zero xs = refl
  take-append-drop (suc n) [] = refl
  take-append-drop (suc n) (x ∷ xs) = ap (◌∷◌ x) (take-append-drop n xs)

  pub take_all : (n : ℕ) (xs : List A) → length xs ≤ n → take n xs ≡ xs
  unfolding take
  take_all zero [] h = refl
  take_all zero (x ∷ xs) h = absurd (omega arith)
  take_all (suc n) [] h = refl
  take_all (suc n) (x ∷ xs) h = ap (◌∷◌ x) (take_all n xs (omega arith))

  pub take-take-suc : (n : ℕ) (xs : List A) → take n (take (suc n) xs) ≡ take n xs
  unfolding take
  take-take-suc zero [] = refl
  take-take-suc zero (x ∷ xs) = refl
  take-take-suc (suc n) [] = refl
  take-take-suc (suc n) (x ∷ xs) = ap (◌∷◌ x) (take-take-suc n xs)

  pub length-take-suc : (n : ℕ) (xs : List A) → n < length (take (suc n) xs) → n < length xs
  unfolding take
  length-take-suc n [] h = h
  length-take-suc zero (x ∷ xs) h = omega arith
  length-take-suc (suc n) (x ∷ xs) h = omega (arith, length-take-suc n xs)

  pub ltb-length-take-suc :
      (n : ℕ) (xs : List A) → ltb n (length (take (suc n) xs)) ≡ ltb n (length xs)
  unfolding take
  ltb-length-take-suc n [] = refl
  ltb-length-take-suc zero (x ∷ xs) = ground arith
  ltb-length-take-suc (suc n) (x ∷ xs) = ground (arith, ltb-length-take-suc n xs)

  pub last?-take-none : (n : ℕ) (xs : List A) → 0 < n → last? (take n xs) ≡ none → length xs ≡ 0
  unfolding take last?
  last?-take-none zero xs h e = absurd (omega arith)
  last?-take-none (suc n) [] h e = refl
  last?-take-none (suc zero) (x ∷ xs) h e = ground arith
  last?-take-none (suc (suc n)) (x ∷ []) h e = ground arith
  last?-take-none (suc (suc n)) (x ∷ y ∷ ys) h e =
      ground (arith, last?-take-none (suc n) (y ∷ ys) (omega arith) e)

  last?-cons : (x : A) (ys : List A) (t : A) → last? ys ≡ some t → last? (x ∷ ys) ≡ some t
  unfolding last?
  last?-cons x [] t h = ground arith
  last?-cons x (y ∷ ys) t h = h

  pub take-nil : (n : ℕ) → take n [] ≡ []
  unfolding take
  take-nil zero = refl
  take-nil (suc n) = refl

  pub drop-nil : (n : ℕ) → drop n [] ≡ []
  unfolding drop
  drop-nil zero = refl
  drop-nil (suc n) = refl

  -- The last row of a page is the last of all the rows up to its end.
  pub last?-take-drop :
      (k n : ℕ) (xs : List A) (t : A)
      → last? (take n (drop k xs)) ≡ some t
      → last? (take (k + n) xs) ≡ some t
  unfolding take drop last?
  last?-take-drop zero n xs t h = rw zero-add h
  last?-take-drop (suc k) n [] t h = rw take-nil (rw take-nil at h)
  last?-take-drop (suc k) n (x ∷ xs) t h =
      rw suc-add (last?-cons x (take (k + n) xs) t (last?-take-drop k n xs t h))

  pub drop-drop : (k n : ℕ) (xs : List A) → drop n (drop k xs) ≡ drop (k + n) xs
  unfolding drop
  drop-drop zero n xs = rw zero-add
  drop-drop (suc k) n [] = rw (drop-nil, drop-nil)
  drop-drop (suc k) n (x ∷ xs) = rw suc-add (drop-drop k n xs)

-- `le a b`: the row a may stand before b.
module _ {ℓ} {A : Type ℓ} (le : A → A → Bool) where
  unfoldable pub insert_row : A → List A → List A
  insert_row x [] = x ∷ []
  insert_row x (y ∷ ys) = if le x y then x ∷ y ∷ ys else y ∷ insert_row x ys

  unfoldable pub order_by : List A → List A
  order_by [] = []
  order_by (x ∷ xs) = insert_row x (order_by xs)

  -- `where p … order by … executeTakeFirst`.
  unfoldable pub first_by : (A → Bool) → List A → Option A
  first_by p xs = head? (order_by (select p xs))

  -- Every row of an ordered list may stand before those after it.
  abbrev pub IsOrdered : List A → Type ℓ
  IsOrdered [] = Unit
  IsOrdered (x ∷ xs) = All (λ y. le x y ≡ true) xs × IsOrdered xs

  module _ {κ} (P : A → Type κ) where
    pub All-insert_row : (x : A) (xs : List A) → P x → All P xs → All P (insert_row x xs)
    unfolding insert_row
    All-insert_row x [] h hs = (h, tt)
    All-insert_row x (y ∷ ys) h (k, ks) = ground (arith, All-insert_row x ys h ks)

    pub All-order_by : (xs : List A) → All P xs → All P (order_by xs)
    unfolding order_by
    All-order_by [] h = tt
    All-order_by (x ∷ xs) (h, hs) = All-insert_row x (order_by xs) h (All-order_by xs hs)

  module _ (total : (a b : A) → le a b ≡ false → le b a ≡ true)
      (trans : (a b c : A) → le a b ≡ true → le b c ≡ true → le a c ≡ true) where
    insert_row-IsOrdered : (x : A) (xs : List A) → IsOrdered xs → IsOrdered (insert_row x xs)
    unfolding insert_row
    insert_row-IsOrdered x [] h = (tt, tt)
    insert_row-IsOrdered x (y ∷ ys) (k, ks) = elim (Bool-cases (le x y)) [
      | inl e ↦ rw e ((e, All-map (λ z g. trans x y z e g) ys k), (k, ks))
      | inr e ↦
          rw e
            (All-insert_row (λ z. le y z ≡ true) x ys (total x y e) k, insert_row-IsOrdered x ys ks)
    ]

    pub order_by-IsOrdered : (xs : List A) → IsOrdered (order_by xs)
    unfolding order_by
    order_by-IsOrdered [] = tt
    order_by-IsOrdered (x ∷ xs) = insert_row-IsOrdered x (order_by xs) (order_by-IsOrdered xs)

  module _ {κ} (P : A → Type κ) where
    All-head? : (xs : List A) (r : A) → All P xs → head? xs ≡ some r → P r
    unfolding head?
    All-head? [] r h e = ground arith
    All-head? (x ∷ xs) r (h, hs) e = let same : x ≡ r = ground arith in subst P same h

    -- What holds of every selected row holds of the first.
    pub first_by-All :
        (p : A → Bool) (xs : List A) (r : A) → All P (select p xs) → first_by p xs ≡ some r → P r
    unfolding first_by
    first_by-All p xs r h e = All-head? (order_by (select p xs)) r (All-order_by P _ h) e

    All-of-insert_row : (x : A) (xs : List A) → All P (insert_row x xs) → P x × All P xs
    unfolding insert_row
    All-of-insert_row x [] (h, hs) = (h, tt)
    All-of-insert_row x (y ∷ ys) h = elim (Bool-cases (le x y)) [
      | inl e ↦ rw e at h
      | inr e ↦
          let (k, ks) : P y × All P (insert_row x ys) = rw e at h in
          let (g, gs) = All-of-insert_row x ys ks in (g, (k, gs))
    ]

    All-of-order_by : (xs : List A) → All P (order_by xs) → All P xs
    unfolding order_by
    All-of-order_by [] h = tt
    All-of-order_by (x ∷ xs) h =
        let (g, gs) = All-of-insert_row x (order_by xs) h in (g, All-of-order_by xs gs)

  head?-insert_row : (x : A) (xs : List A) → head? (insert_row x xs) ≢ none
  unfolding insert_row head?
  head?-insert_row x [] = ground arith
  head?-insert_row x (y ∷ ys) = ground arith

  -- A query that finds no first row has no row that passes its test.
  pub first_by-none :
      (p : A → Bool) (xs : List A) → first_by p xs ≡ none → All (λ a. p a ≡ false) xs
  unfolding first_by select order_by
  first_by-none p [] h = tt
  first_by-none p (x ∷ xs) h = elim (Bool-cases (p x)) [
    | inl e ↦ absurd (head?-insert_row x (order_by (select p xs)) (rw e at h))
    | inr e ↦ (e, first_by-none p xs (rw e at h))
  ]

  module _ (total : (a b : A) → le a b ≡ false → le b a ≡ true)
      (trans : (a b c : A) → le a b ≡ true → le b c ≡ true → le a c ≡ true) where
    head?-least :
        (xs : List A) (r : A) → IsOrdered xs → head? xs ≡ some r → All (λ y. le r y ≡ true) xs
    unfolding head?
    head?-least [] r h e = tt
    head?-least (x ∷ xs) r (h, hs) e =
        let same : x ≡ r = ground arith in
        subst (λ z. All (λ y. le z y ≡ true) (x ∷ xs)) same (reflexive x, h)
      where
        reflexive : (a : A) → le a a ≡ true
        reflexive a = elim (Bool-cases (le a a)) [ inl e ↦ e | inr e ↦ total a a e ]

    -- The first row may stand before every row that passes the test.
    pub first_by_least :
        (p : A → Bool) (xs : List A) (r : A)
        → first_by p xs ≡ some r
        → All (λ y. le r y ≡ true) (select p xs)
    unfolding first_by
    first_by_least p xs r e =
        All-of-order_by (λ y. le r y ≡ true) (select p xs)
          (head?-least (order_by (select p xs)) r (order_by-IsOrdered total trans (select p xs)) e)

  length-insert_row : (x : A) (xs : List A) → length (insert_row x xs) ≡ suc (length xs)
  unfolding insert_row
  length-insert_row x [] = refl
  length-insert_row x (y ∷ ys) = ground (arith, length-insert_row x ys)

  pub length-order_by : (xs : List A) → length (order_by xs) ≡ length xs
  unfolding order_by
  length-order_by [] = refl
  length-order_by (x ∷ xs) = omega (arith, length-insert_row x (order_by xs), length-order_by xs)

last?-cons-ne {ℓ} : {A : Type ℓ} (x : A) (xs : List A) → last? (x ∷ xs) ≢ none
unfolding last?
last?-cons-ne x [] h = ground arith
last?-cons-ne x (y ∷ ys) h = last?-cons-ne y ys h

pub last?-none {ℓ} : {A : Type ℓ} (xs : List A) → last? xs ≡ none → xs ≡ []
last?-none [] h = refl
last?-none (x ∷ xs) h = absurd (last?-cons-ne x xs h)
