-- ===== src/Prelude/Maps.antt =====
-- A JavaScript `Map` as the list of its entries in insertion order. Keys are opaque and only compared.
use Prim.Native.Nat.{ℕ, suc, ◌≤◌, ◌<◌}
use mathlib.Core.Path.{◌≡◌, refl}
use mathlib.Core.Bool.{not}
use mathlib.Core.Option.{Option, none, some}
use mathlib.Core.List.{List, [], ◌∷◌}
use native.Mathlib.Omega.{arith}
use formation_chat_core.Prelude.Tests.{◌==◌, if◌then◌else◌}
use formation_chat_core.Prelude.Lists.{length, select, length-select-le}

module _ {ℓ} {V : Type ℓ} where
  unfoldable pub lookup : ℕ → List (ℕ × V) → Option V
  lookup key [] = none
  lookup key ((entry_key, value) ∷ rest) = if entry_key == key then some value else lookup key rest

  -- `delete`.
  unfoldable pub remove : ℕ → List (ℕ × V) → List (ℕ × V)
  remove key entries = select (λ e. not (e.0 == key)) entries

  -- `set`: an entry that is there keeps its place, a new one goes to the end.
  unfoldable pub insert : ℕ → V → List (ℕ × V) → List (ℕ × V)
  insert key value [] = (key, value) ∷ []
  insert key value ((entry_key, old) ∷ rest) =
      if entry_key == key
      then (entry_key, value) ∷ rest
      else (entry_key, old) ∷ insert key value rest

  pub lookup-insert :
      (stored wanted : ℕ) (value : V) (entries : List (ℕ × V))
      → lookup wanted (insert stored value entries)
        ≡ (if stored == wanted then some value else lookup wanted entries)
  unfolding lookup insert
  lookup-insert stored wanted value [] = refl
  lookup-insert stored wanted value ((i, w) ∷ rest) =
      ground (arith, lookup-insert stored wanted value rest)

  pub lookup-remove :
      (k j : ℕ) (m : List (ℕ × V)) → lookup j (remove k m) ≡ (if k == j then none else lookup j m)
  unfolding lookup remove select
  lookup-remove k j [] = ground arith
  lookup-remove k j ((i, w) ∷ m) = ground (arith, lookup-remove k j m)

  pub length-insert_new :
      (k : ℕ) (v : V) (m : List (ℕ × V)) → length (insert k v m) ≤ suc (length m)
  unfolding insert
  length-insert_new k v [] = omega arith
  length-insert_new k v ((j, w) ∷ m) = ground (arith, length-insert_new k v m)

  pub length-insert_old :
      (k : ℕ) (v w : V) (m : List (ℕ × V)) → lookup k m ≡ some w → length (insert k v m) ≡ length m
  unfolding insert lookup
  length-insert_old k v w [] h = ground arith
  length-insert_old k v w ((j, u) ∷ m) h = ground (arith, length-insert_old k v w m)

  pub length-remove-le : (k : ℕ) (m : List (ℕ × V)) → length (remove k m) ≤ length m
  unfolding remove
  length-remove-le k m = length-select-le (λ e. not (e.0 == k)) m

  pub length-remove-lt :
      (k : ℕ) (w : V) (m : List (ℕ × V)) → lookup k m ≡ some w → length (remove k m) < length m
  unfolding remove lookup select
  length-remove-lt k w [] h = ground arith
  length-remove-lt k w ((j, u) ∷ m) h =
      ground (arith, length-remove-lt k w m, length-select-le (λ (e : ℕ × V). not (e.0 == k)) m)
