-- ===== src/Prelude/Results.antt =====
-- Results of fallible code: a value, or the error that the code throws.
use mathlib.Core.Path.{◌≡◌, refl}
use mathlib.Core.Logic.{◌⊎◌, inl, inr}
use mathlib.Core.Bool.{Bool, true, false}
use mathlib.Core.Option.{Option, none, some}

pub data Result {ℓ} (E : Type 0) (A : Type ℓ) : Type ℓ where
  err : (thrown : E) → Result E A
  ok : (value : A) → Result E A

-- `if (!row) throw error`, and `executeTakeFirstOrThrow`.
abbrev pub or_throw {ℓ} : {E : Type 0} {A : Type ℓ} → Option A → E → Result E A
or_throw (some row) thrown = ok row
or_throw none thrown = err thrown

-- `if (!test) throw error`.
abbrev pub guard : {E : Type 0} → Bool → E → Result E (Unit {0})
guard false thrown = err thrown
guard true thrown = ok tt

infixl 5 ◌>>=◌
abbrev pub ◌>>=◌ {ℓ κ} :
    {E : Type 0} {A : Type ℓ} {B : Type κ} → Result E A → (A → Result E B) → Result E B
err thrown >>= next = err thrown
ok value >>= next = next value

infixl 5 ◌>>◌
abbrev pub ◌>>◌ {ℓ} : {E : Type 0} {B : Type ℓ} → Result E (Unit {0}) → Result E B → Result E B
checked >> rest = checked >>= λ _. rest

pub Result-cases {ℓ} :
    {E : Type 0} {A : Type ℓ} (r : Result E A) → ((a : A) × (r ≡ ok a)) ⊎ ((e : E) × (r ≡ err e))
Result-cases (ok a) = inl (a, refl)
Result-cases (err e) = inr (e, refl)

pub ok_injective {ℓ} :
    {E : Type 0} {A : Type ℓ} (a b : A) → ◌≡◌ {A = Result E A} (ok a) (ok b) → a ≡ b
ok_injective a b h = cc

pub or_throw-eq-ok {ℓ} :
    {E : Type 0} {A : Type ℓ} (o : Option A) (e : E) {a : A} → or_throw o e ≡ ok a → o ≡ some a
or_throw-eq-ok none e h = cc
or_throw-eq-ok (some a) e h = cc

pub guard-eq-ok : {E : Type 0} (b : Bool) (e : E) {u : Unit {0}} → guard b e ≡ ok u → b ≡ true
guard-eq-ok true e h = refl
guard-eq-ok false e h = cc

-- Where a chain has succeeded, so have its first step and, on that step's value, the others.
pub >>=-eq-ok {ℓ κ} :
    {E : Type 0} {A : Type ℓ} {B : Type κ} (first : Result E A) (next : A → Result E B) {last : B}
    → (first >>= next) ≡ ok last
    → (a : A) × (first ≡ ok a) × (next a ≡ ok last)
>>=-eq-ok (err thrown) next done = cc
>>=-eq-ok (ok value) next done = (value, refl, done)

-- Inversion of a command: a transaction from a state to a state and a key, and then a read of what
-- the key names.
pub then_read-eq-ok {ℓ κ μ} :
    {E : Type 0} {S : Type ℓ} {I : Type κ} {V : Type μ} (m : Result E (S × I))
    (read : S → I → Result E V) {s : S} {v : V}
    → ◌>>=◌ {B = S × V} m (λ done. ◌>>=◌ {B = S × V} (read done.0 done.1) (λ w. ok (done.0, w)))
      ≡ ok (s, v)
    → (i : I) × (m ≡ ok (s, i)) × (read s i ≡ ok v)
then_read-eq-ok (err e) read h = cc
then_read-eq-ok {S} {V} (ok (a, i)) read h =
    let (w, got, e) = >>=-eq-ok {B = S × V} (read a i) (λ w. ok (a, w)) h in (i, cc, cc)
