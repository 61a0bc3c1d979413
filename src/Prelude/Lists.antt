-- ===== src/Prelude/Lists.antt =====
-- Lists measured by native numbers, and a table's statements as operations on its list of rows.
use Prim.Native.Nat.{ℕ, suc, ◌+◌, ◌≤◌}
use mathlib.Core.Path.{◌≡◌, refl, ap, subst}
use mathlib.Core.Bool.{Bool, true, false, ◌&&◌, ◌||◌}
use mathlib.Core.Option
use mathlib.Core.Option.{Option, none, some}
use mathlib.Core.Logic.{inl, inr}
use mathlib.Core.List.{List, [], ◌∷◌, ◌++◌}
use native.Mathlib.Omega.{arith}
use formation_chat_core.Prelude.Tests.{if◌then◌else◌, Bool-cases, Option-cases}

module _ {ℓ} {A : Type ℓ} where
  abbrev pub length : List A → ℕ
  length [] = 0
  length (x ∷ xs) = suc (length xs)

  pub length-append : (xs ys : List A) → length (xs ++ ys) ≡ length xs + length ys
  length-append [] ys = omega arith
  length-append (x ∷ xs) ys = omega (arith, length-append xs ys)

  abbrev pub All {κ} : (A → Type κ) → List A → Type κ
  All P [] = Unit
  All P (x ∷ xs) = P x × All P xs

  -- `select … where`, first row: `executeTakeFirst`, and `find` on an array.
  unfoldable pub find_first : (A → Bool) → List A → Option A
  find_first p [] = none
  find_first p (x ∷ xs) = if p x then some x else find_first p xs

  -- `select … where`, all rows; `delete` keeps the rows that its test fails.
  unfoldable pub select : (A → Bool) → List A → List A
  select p [] = []
  select p (x ∷ xs) = if p x then x ∷ select p xs else select p xs

  -- `update … set … where`.
  unfoldable pub update_where : (A → Bool) → (A → A) → List A → List A
  update_where p f [] = []
  update_where p f (x ∷ xs) = (if p x then f x else x) ∷ update_where p f xs

  -- `numUpdatedRows`.
  unfoldable pub count_where : (A → Bool) → List A → ℕ
  count_where p [] = 0
  count_where p (x ∷ xs) = (if p x then 1 else 0) + count_where p xs

  -- `some` and `every` of an array.
  unfoldable pub any : (A → Bool) → List A → Bool
  any p [] = false
  any p (x ∷ xs) = p x || any p xs

  unfoldable pub every : (A → Bool) → List A → Bool
  every p [] = true
  every p (x ∷ xs) = p x && every p xs

module _ {ℓ} {A : Type ℓ} (p : A → Bool) where
  pub find_first_sound : (xs : List A) (a : A) → find_first p xs ≡ some a → p a ≡ true
  unfolding find_first
  find_first_sound [] a h = ground arith
  find_first_sound (x ∷ xs) a h = ground (arith, find_first_sound xs a)

  pub find_first-append :
      (xs : List A) (x : A)
      → find_first p xs ≡ none
      → p x ≡ true
      → find_first p (xs ++ x ∷ []) ≡ some x
  unfolding find_first
  find_first-append [] x h k = ground arith
  find_first-append (y ∷ ys) x h k = ground (arith, find_first-append ys x)

  pub find_first-append_some :
      (xs ys : List A) (a : A) → find_first p xs ≡ some a → find_first p (xs ++ ys) ≡ some a
  unfolding find_first
  find_first-append_some [] ys a h = ground arith
  find_first-append_some (x ∷ xs) ys a h = ground (arith, find_first-append_some xs ys a)

  pub length-update_where : (f : A → A) (xs : List A) → length (update_where p f xs) ≡ length xs
  unfolding update_where
  length-update_where f [] = refl
  length-update_where f (x ∷ xs) = ap suc (length-update_where f xs)

  pub length-select-le : (xs : List A) → length (select p xs) ≤ length xs
  unfolding select
  length-select-le [] = omega arith
  length-select-le (x ∷ xs) = ground (arith, length-select-le xs)

module _ {ℓ κ} {A : Type ℓ} (P : A → Type κ) where
  pub All-append : (xs ys : List A) → All P xs → All P ys → All P (xs ++ ys)
  All-append [] ys h k = k
  All-append (x ∷ xs) ys (h, hs) k = (h, All-append xs ys hs k)

  pub All-select : (p : A → Bool) (xs : List A) → All P xs → All P (select p xs)
  unfolding select
  All-select p [] h = tt
  All-select p (x ∷ xs) (h, hs) = ground (arith, All-select p xs hs)

  pub All-update_where :
      (p : A → Bool) (f : A → A) (xs : List A)
      → ((a : A) → p a ≡ true → P a → P (f a))
      → All P xs
      → All P (update_where p f xs)
  unfolding update_where
  All-update_where p f [] keep h = tt
  All-update_where p f (x ∷ xs) keep (h, hs) =
      (ground (arith, keep x), All-update_where p f xs keep hs)

  pub All-find_first :
      (p : A → Bool) (xs : List A) (a : A) → All P xs → find_first p xs ≡ some a → P a
  unfolding find_first
  All-find_first p [] a h e = ground arith
  All-find_first p (x ∷ xs) a (h, hs) e = elim (Bool-cases (p x)) [
    | inl here ↦ let same : x ≡ a = ground arith in subst P same h
    | inr later ↦ All-find_first p xs a hs (rw later at e)
  ]

module _ {ℓ} {A : Type ℓ} where
  -- A search for a row that an update leaves recognisable finds the updated row.
  pub find_first-update_where :
      (q p : A → Bool) (f : A → A) (xs : List A)
      → ((a : A) → q (f a) ≡ q a)
      → find_first q (update_where p f xs)
        ≡ Option.map (λ a. if p a then f a else a) (find_first q xs)
  unfolding find_first update_where
  find_first-update_where q p f [] same = refl
  find_first-update_where q p f (x ∷ xs) same =
      ground (arith, same x, find_first-update_where q p f xs same)

  -- A row that an update leaves recognisable is counted, and updated a second time, as before.
  pub count_where-update_where :
      (p : A → Bool) (f : A → A) (xs : List A)
      → ((a : A) → p (f a) ≡ p a)
      → count_where p (update_where p f xs) ≡ count_where p xs
  unfolding count_where update_where
  count_where-update_where p f [] same = refl
  count_where-update_where p f (x ∷ xs) same =
      ground (arith, same x, count_where-update_where p f xs same)

  pub update_where-update_where :
      (p : A → Bool) (f g : A → A) (xs : List A)
      → ((a : A) → p (f a) ≡ p a)
      → update_where p g (update_where p f xs) ≡ update_where p (λ a. g (f a)) xs
  unfolding update_where
  update_where-update_where p f g [] same = refl
  update_where-update_where p f g (x ∷ xs) same =
      ground (arith, same x, update_where-update_where p f g xs same)

  pub any-find_first :
      (p : A → Bool) (xs : List A) (a : A) → find_first p xs ≡ some a → any p xs ≡ true
  unfolding any find_first
  any-find_first p [] a h = ground arith
  any-find_first p (x ∷ xs) a h = ground (arith, any-find_first p xs a)

  pub find_first-none-All :
      (p : A → Bool) (xs : List A) → find_first p xs ≡ none → All (λ a. p a ≡ false) xs
  unfolding find_first
  find_first-none-All p [] h = tt
  find_first-none-All p (x ∷ xs) h = (ground arith, find_first-none-All p xs (ground arith))

  pub find_first-none :
      (p : A → Bool) (xs : List A) → All (λ a. p a ≡ false) xs → find_first p xs ≡ none
  unfolding find_first
  find_first-none p [] h = refl
  find_first-none p (x ∷ xs) (h, hs) = ground (arith, find_first-none p xs hs)

  pub All-map {κ κ'} :
      {P : A → Type κ} {Q : A → Type κ'} (f : (a : A) → P a → Q a) (xs : List A)
      → All P xs
      → All Q xs
  All-map f [] h = tt
  All-map f (x ∷ xs) (h, hs) = (f x h, All-map f xs hs)

-- An update that takes one property of the rows to another.
pub All-update_split {ℓ κ μ} :
    {A : Type ℓ} {P : A → Type κ} {Q : A → Type μ} (p : A → Bool) (f : A → A) (xs : List A)
    → ((a : A) → p a ≡ true → P a → Q (f a))
    → ((a : A) → p a ≡ false → P a → Q a)
    → All P xs
    → All Q (update_where p f xs)
unfolding update_where
All-update_split p f [] hit miss h = tt
All-update_split p f (x ∷ xs) hit miss (h, hs) = elim (Bool-cases (p x)) [
  | inl e ↦ rw e (hit x e h, All-update_split p f xs hit miss hs)
  | inr e ↦ rw e (miss x e h, All-update_split p f xs hit miss hs)
]

-- What the rows of a selection satisfy, by the test that selects them.
pub select-All {ℓ κ} :
    {A : Type ℓ} {Q : A → Type κ} (q : A → Bool) (xs : List A)
    → ((a : A) → q a ≡ true → Q a)
    → All Q (select q xs)
unfolding select
select-All q [] hit = tt
select-All q (x ∷ xs) hit = elim (Bool-cases (q x)) [
  | inl e ↦ rw e (hit x e, select-All q xs hit)
  | inr e ↦ rw e (select-All q xs hit)
]

pub All-select_hit {ℓ κ μ} :
    {A : Type ℓ} {P : A → Type κ} {Q : A → Type μ} (q : A → Bool) (xs : List A)
    → ((a : A) → q a ≡ true → P a → Q a)
    → All P xs
    → All Q (select q xs)
unfolding select
All-select_hit q [] hit h = tt
All-select_hit q (x ∷ xs) hit (h, hs) = elim (Bool-cases (q x)) [
  | inl e ↦ rw e (hit x e h, All-select_hit q xs hit hs)
  | inr e ↦ rw e (All-select_hit q xs hit hs)
]

pub All-zip {ℓ κ μ} :
    {A : Type ℓ} (P : A → Type κ) (Q : A → Type μ) (xs : List A)
    → All P xs
    → All Q xs
    → All (λ a. P a × Q a) xs
All-zip P Q [] h k = tt
All-zip P Q (x ∷ xs) (h, hs) (k, ks) = ((h, k), All-zip P Q xs hs ks)

-- A property of the rows of an updated table that holds whatever the rows were.
pub All-update_anew {ℓ κ} :
    {A : Type ℓ} (Q : A → Type κ) (p : A → Bool) (f : A → A) (xs : List A)
    → ((a : A) → p a ≡ true → Q (f a))
    → ((a : A) → p a ≡ false → Q a)
    → All Q (update_where p f xs)
unfolding update_where
All-update_anew Q p f [] hit miss = tt
All-update_anew Q p f (x ∷ xs) hit miss = elim (Bool-cases (p x)) [
  | inl e ↦ rw e (hit x e, All-update_anew Q p f xs hit miss)
  | inr e ↦ rw e (miss x e, All-update_anew Q p f xs hit miss)
]

-- The row that an update returns is the row that its test found, updated.
pub find_updated {ℓ} :
    {A : Type ℓ} (p : A → Bool) (f : A → A) (xs : List A) (u : A)
    → ((a : A) → p (f a) ≡ p a)
    → find_first p (update_where p f xs) ≡ some u
    → (a : A) × (find_first p xs ≡ some a) × (f a ≡ u)
find_updated p f xs u same h = elim (Option-cases (find_first p xs)) [
  | inl missing ↦ ground (arith, missing, find_first-update_where p p f xs same)
  | inr (a, found) ↦ (
    a,
    found,
    ground (arith, found, find_first-update_where p p f xs same, find_first_sound p xs a found),
  )
]

-- A narrower test that the first row passes finds the same row.
pub find_first_narrow {ℓ} :
    {A : Type ℓ} (p q : A → Bool) (xs : List A) (a : A)
    → ((x : A) → q x ≡ true → p x ≡ true)
    → find_first p xs ≡ some a
    → q a ≡ true
    → find_first q xs ≡ some a
unfolding find_first
find_first_narrow p q [] a sub h e = ground arith
find_first_narrow p q (x ∷ xs) a sub h e = elim (Bool-cases (p x)) [
  | inl hit ↦ let same : x ≡ a = ground arith in rw (ap q same) (rw e (ap some same))
  | inr miss ↦ ground (arith, sub x, find_first_narrow p q xs a sub)
]
