-- ===== src/Prelude/Values.antt =====
-- JSON values as the program reads them: `JSON.parse` itself is a parameter where it is used.
use Prim.Native.Nat.{ℕ}
use mathlib.Core.Bool.{Bool}
use mathlib.Core.Option.{Option, none, some}
use mathlib.Core.Path.{◌≡◌, ap, sym, ◌∙◌}
use mathlib.Core.Logic.{◌≢◌}
use native.Mathlib.Omega.{arith}
use mathlib.Core.List.{List, []}
use formation_chat_core.Prelude.Tests.{if◌then◌else◌}
use formation_chat_core.Prelude.Texts.{same_text}

-- A number is an integer that is not negative, or any other number.
mutual
  pub data Json : Type 0 where
    null : Json
    boolean : Bool → Json
    natural : ℕ → Json
    other_number : ℕ → Json
    string : List ℕ → Json
    array : Items → Json
    object : Fields → Json

  pub data Items : Type 0 where
    no_items : Items
    item : Json → Items → Items

  pub data Fields : Type 0 where
    no_fields : Fields
    field : (name : List ℕ) → Json → Fields → Fields

-- `candidate[name]` of an object's own fields: `undefined` is `none`.
unfoldable pub get_field : List ℕ → Fields → Option Json
get_field name no_fields = none
get_field name (field other value fields) =
    if same_text other name then some value else get_field name fields

-- A text, if the value is one.
abbrev pub as_text : Option Json → Option (List ℕ)
as_text (some (string text)) = some text
as_text _ = none

-- A JSON value as a text in base64url, and back: `JSON` and Node's `Buffer` together. What is read
-- of another text is a value or nothing.
pub record Sealing : Type 0 where
  pub seal : Json → List ℕ
  pub unseal : List ℕ → Option Json
  pub unseal_seal : (value : Json) → unseal (seal value) ≡ some value
  pub unseal_nil : unseal [] ≡ none

pub seal-ne-nil : (s : Sealing) (value : Json) → s.seal value ≢ []
seal-ne-nil s value e =
    let read : s.unseal [] ≡ some value = ap s.unseal (sym e) ∙ s.unseal_seal value in
    ground (arith, read, s.unseal_nil)

-- Times and identifiers as texts. A column's time may be finer than a `Date`, which keeps whole
-- milliseconds: `kept` is what is left of it.
pub record TimeTexts : Type 0 where
  pub to_iso : ℕ → List ℕ
  pub parse_date : List ℕ → Option ℕ
  pub kept : ℕ → ℕ
  pub parse_date_iso : (time : ℕ) → parse_date (to_iso time) ≡ some (kept time)
  pub id_text : ℕ → List ℕ
  pub text_id : List ℕ → ℕ
  pub text_id_text : (id : ℕ) → text_id (id_text id) ≡ id
