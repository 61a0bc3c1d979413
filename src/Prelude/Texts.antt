-- ===== src/Prelude/Texts.antt =====
-- Texts as lists of code units: equality, and `indexOf` with the two `slice`s around a mark.
use Prim.Native.Nat.{ℕ, ◌<◌}
use mathlib.Core.Path.{◌≡◌, refl}
use mathlib.Core.Logic.{inl, inr}
use mathlib.Core.Bool.{Bool, true, false, ◌&&◌}
use mathlib.Core.Option
use mathlib.Core.Option.{Option, none, some}
use mathlib.Core.List.{List, [], ◌∷◌, ◌++◌}
use native.Mathlib.Omega.{arith}
use formation_chat_core.Prelude.Tests.{if◌then◌else◌, ◌==◌, Option-cases, Bool-cases}
use formation_chat_core.Prelude.Lists.{length}

-- `===` on texts.
unfoldable pub same_text : List ℕ → List ℕ → Bool
same_text [] [] = true
same_text [] (d ∷ ds) = false
same_text (c ∷ cs) [] = false
same_text (c ∷ cs) (d ∷ ds) = c == d && same_text cs ds

-- What stands before the first mark and what behind it.
unfoldable pub break_at : ℕ → List ℕ → Option (List ℕ × List ℕ)
break_at mark [] = none
break_at mark (c ∷ cs) =
    if c == mark
    then some ([], cs)
    else Option.map (λ (parts : List ℕ × List ℕ). (c ∷ parts.0, parts.1)) (break_at mark cs)

pub same_text_refl : (t : List ℕ) → same_text t t ≡ true
unfolding same_text
same_text_refl [] = refl
same_text_refl (c ∷ cs) = ground (arith, same_text_refl cs)

pub same_text_sound : (s t : List ℕ) → same_text s t ≡ true → s ≡ t
unfolding same_text
same_text_sound [] [] h = refl
same_text_sound [] (d ∷ ds) h = ground arith
same_text_sound (c ∷ cs) [] h = ground arith
same_text_sound (c ∷ cs) (d ∷ ds) h = ground (arith, same_text_sound cs ds)

pub break_at-here :
    (mark : ℕ) (t rest : List ℕ)
    → break_at mark t ≡ none
    → break_at mark (t ++ mark ∷ rest) ≡ some (t, rest)
unfolding break_at
break_at-here mark [] rest h = ground arith
break_at-here mark (c ∷ cs) rest h = elim (Option-cases (break_at mark cs)) [
  | inl missing ↦ ground (arith, missing, break_at-here mark cs rest missing)
  | inr (parts, found) ↦ ground (arith, found)
]

pub break_at-append :
    (mark : ℕ) (t front back more : List ℕ)
    → break_at mark t ≡ some (front, back)
    → break_at mark (t ++ more) ≡ some (front, back ++ more)
unfolding break_at
break_at-append mark [] front back more h = ground arith
break_at-append mark (c ∷ cs) front back more h = elim (Bool-cases (c == mark)) [
  | inl hit ↦ ground (arith, hit)
  | inr miss ↦ elim (Option-cases (break_at mark cs)) [
    | inl missing ↦ ground (arith, missing, miss)
    | inr (parts, found) ↦
        ground (arith, found, miss, break_at-append mark cs parts.0 parts.1 more found)
  ]
]

pub break_at-none-append :
    (mark : ℕ) (s t : List ℕ)
    → break_at mark s ≡ none
    → break_at mark t ≡ none
    → break_at mark (s ++ t) ≡ none
unfolding break_at
break_at-none-append mark [] t h k = k
break_at-none-append mark (c ∷ cs) t h k = elim (Option-cases (break_at mark cs)) [
  | inl missing ↦ ground (arith, missing, break_at-none-append mark cs t missing k)
  | inr (parts, found) ↦ ground (arith, found)
]

pub length-break_at :
    (mark : ℕ) (t front back : List ℕ)
    → break_at mark t ≡ some (front, back)
    → length back < length t
unfolding break_at
length-break_at mark [] front back h = ground arith
length-break_at mark (c ∷ cs) front back h = elim (Bool-cases (c == mark)) [
  | inl hit ↦ ground (arith, hit)
  | inr miss ↦ elim (Option-cases (break_at mark cs)) [
    | inl missing ↦ ground (arith, missing, miss)
    | inr (parts, found) ↦
        ground (arith, found, miss, length-break_at mark cs parts.0 parts.1 found)
  ]
]
