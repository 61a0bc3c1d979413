-- ===== src/Message/Cursor.antt =====
-- The cursors of apps/server/src/message/service.ts: a sequence as a decimal text, in base64url.
-- base64url is Node's `Buffer`: a parameter, of which only the round trip of an ASCII text is used.
use formation_chat_core.Prelude.{
  ℕ, zero, suc, ◌+◌, ◌-◌, ◌*◌, ◌/◌, ◌%◌, ◌≤◌, ◌<◌, ◌≡◌, ◌≢◌, refl, Bool, true, false, ◌&&◌, Option,
  none, some, [], ◌∷◌, ◌++◌, arith, ltb, leb, if◌then◌else◌, All, All-append, every, inl, inr,
  Bool-cases,
}
use formation_chat_core.Database.Rows.{Text}

abbrev pub IsAscii : Text → Type 0
IsAscii t = All (λ c. c < 128) t

pub record Base64 : Type 0 where
  pub encode : Text → Text
  pub decode : Text → Text
  pub decode_encode : (t : Text) → IsAscii t → decode (encode t) ≡ t
  pub decode_nil : decode [] ≡ []

-- `String(n)`: the decimal digits, with one unit of fuel for each.
unfoldable pub digits : ℕ → ℕ → Text
digits zero n = []
digits (suc fuel) n =
    let front = digits fuel (n / 10) in
    if ltb n 10 then (48 + n) ∷ [] else front ++ (48 + n % 10) ∷ []

unfoldable pub decimal : ℕ → Text
decimal n = digits (suc n) n

abbrev pub is_digit : ℕ → Bool
is_digit c = leb b'0' c && leb c b'9'

-- The test `/^[1-9]\d*$/`.
unfoldable pub is_positive_decimal : Text → Bool
is_positive_decimal [] = false
is_positive_decimal (c ∷ cs) = leb b'1' c && leb c b'9' && every is_digit cs

-- `Number` of a text of digits.
unfoldable pub number_from : ℕ → Text → ℕ
number_from acc [] = acc
number_from acc (c ∷ cs) = number_from (acc * 10 + (c - 48)) cs

-- `Number.MAX_SAFE_INTEGER`. A text above it reads as a number that is not safe.
abbrev pub max_safe : ℕ
max_safe = 9007199254740991

unfoldable pub encode_cursor : Base64 → ℕ → Text
encode_cursor codec sequence = codec.encode (decimal sequence)

unfoldable pub decode_cursor : Base64 → Text → Option ℕ
decode_cursor codec cursor =
    let value = codec.decode cursor in
    if is_positive_decimal value && leb (number_from 0 value) max_safe
    then some (number_from 0 value)
    else none

number_from-append :
    (acc : ℕ) (s : Text) (c : ℕ) → number_from acc (s ++ c ∷ []) ≡ number_from acc s * 10 + (c - 48)
unfolding number_from
number_from-append acc [] c = refl
number_from-append acc (d ∷ s) c = number_from-append (acc * 10 + (d - 48)) s c

number_from-digits : (fuel n : ℕ) → n < fuel → number_from 0 (digits fuel n) ≡ n
unfolding digits
number_from-digits zero n h = absurd (omega arith)
number_from-digits (suc fuel) n h = elim (Bool-cases (ltb n 10)) [
  | inl one ↦ rw one (unfold number_from in omega arith)
  | inr more ↦
      rw (more, number_from-append 0 (digits fuel (n / 10)) (48 + n % 10))
        (omega (arith, number_from-digits fuel (n / 10) (ground arith)))
]

every-append :
    (s : Text) (c : ℕ)
    → every is_digit s ≡ true
    → is_digit c ≡ true
    → every is_digit (s ++ c ∷ []) ≡ true
unfolding every
every-append [] c h k = ground arith
every-append (d ∷ s) c h k = ground (arith, every-append s c)

positive-append :
    (s : Text) (c : ℕ)
    → is_positive_decimal s ≡ true
    → is_digit c ≡ true
    → is_positive_decimal (s ++ c ∷ []) ≡ true
unfolding is_positive_decimal
positive-append [] c h k = ground arith
positive-append (d ∷ s) c h k = ground (arith, every-append s c)

positive-digits : (fuel n : ℕ) → n < fuel → 0 < n → is_positive_decimal (digits fuel n) ≡ true
unfolding digits
positive-digits zero n h pos = absurd (omega arith)
positive-digits (suc fuel) n h pos = elim (Bool-cases (ltb n 10)) [
  | inl one ↦ rw one (unfold is_positive_decimal every in ground arith)
  | inr more ↦ rw more (
      positive-append (digits fuel (n / 10)) (48 + n % 10)
        (positive-digits fuel (n / 10) (ground arith) (ground arith)) (ground arith))
]

digits-IsAscii : (fuel n : ℕ) → IsAscii (digits fuel n)
unfolding digits
digits-IsAscii zero n = tt
digits-IsAscii (suc fuel) n = elim (Bool-cases (ltb n 10)) [
  | inl one ↦ rw one (ground arith, tt)
  | inr more ↦ rw more (
      All-append (λ c. c < 128) (digits fuel (n / 10)) _ (digits-IsAscii fuel (n / 10))
        (omega arith, tt))
]

-- Decoding the cursor of a sequence gives the sequence back, for every positive safe integer.
pub decode-encode_cursor :
    (codec : Base64) (n : ℕ)
    → 0 < n
    → n ≤ max_safe
    → decode_cursor codec (encode_cursor codec n) ≡ some n
unfolding decode_cursor encode_cursor decimal
decode-encode_cursor codec n pos safe =
    rw (codec.decode_encode (digits (suc n) n) (digits-IsAscii (suc n) n)) (
      rw (number_from-digits (suc n) n (omega arith), positive-digits (suc n) n (omega arith) pos)
        (ground arith))

-- So the cursor of a sequence is no empty text, which the services take for no cursor.
pub encode_cursor-ne-nil :
    (codec : Base64) (n : ℕ) → 0 < n → n ≤ max_safe → encode_cursor codec n ≢ []
unfolding decode_cursor
encode_cursor-ne-nil codec n pos safe e =
    let there : decode_cursor codec [] ≡ some n = rw e at (decode-encode_cursor codec n pos safe) in
    let gone : decode_cursor codec [] ≡ none =
      rw codec.decode_nil (unfold is_positive_decimal in refl) in
    ground arith
