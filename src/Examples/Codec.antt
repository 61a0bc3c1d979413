-- ===== src/Examples/Codec.antt =====
-- A concrete JSON text for the theorems that take `JSON` or `Buffer` as a parameter: the value's
-- parts in the order in which a stack builds them, two numbers for each.
use formation_chat_core.Prelude.{
  ℕ, ◌≡◌, refl, ◌∙◌, Bool, true, false, Option, none, some, List, [], ◌∷◌, ◌==◌, if◌then◌else◌,
  Json, Items, Fields, null, boolean, natural, other_number, string, array, object, no_items, item,
  no_fields, field, Sealing, TimeTexts,
}
use formation_chat_core.Database.Rows.{Text}
use formation_chat_core.Browser.Storage.{JsonCodec}

pub data Entry : Type 0 where
  value : Json → Entry
  text : Text → Entry
  items : Items → Entry
  fields : Fields → Entry

abbrev pub bit : Bool → ℕ
bit false = 0
bit true = 1

unfoldable pub write_text : Text → Text → Text
write_text [] rest = 4 ∷ 0 ∷ rest
write_text (c ∷ cs) rest = write_text cs (5 ∷ c ∷ rest)

unfoldable mutual
  pub write : Json → Text → Text
  write null rest = 0 ∷ 0 ∷ rest
  write (boolean b) rest = 1 ∷ bit b ∷ rest
  write (natural n) rest = 2 ∷ n ∷ rest
  write (other_number n) rest = 3 ∷ n ∷ rest
  write (string t) rest = write_text t (6 ∷ 0 ∷ rest)
  write (array is) rest = write_items is (9 ∷ 0 ∷ rest)
  write (object fs) rest = write_fields fs (12 ∷ 0 ∷ rest)

  pub write_items : Items → Text → Text
  write_items no_items rest = 7 ∷ 0 ∷ rest
  write_items (item v is) rest = write_items is (write v (8 ∷ 0 ∷ rest))

  pub write_fields : Fields → Text → Text
  write_fields no_fields rest = 10 ∷ 0 ∷ rest
  write_fields (field name v fs) rest = write_fields fs (write v (write_text name (11 ∷ 0 ∷ rest)))

abbrev pub put_letter : ℕ → List Entry → Option (List Entry)
put_letter c (text t ∷ st) = some (text (c ∷ t) ∷ st)
put_letter c _ = none

abbrev pub end_text : List Entry → Option (List Entry)
end_text (text t ∷ st) = some (value (string t) ∷ st)
end_text _ = none

abbrev pub put_item : List Entry → Option (List Entry)
put_item (value v ∷ items is ∷ st) = some (items (item v is) ∷ st)
put_item _ = none

abbrev pub end_items : List Entry → Option (List Entry)
end_items (items is ∷ st) = some (value (array is) ∷ st)
end_items _ = none

abbrev pub put_field : List Entry → Option (List Entry)
put_field (text t ∷ value v ∷ fields fs ∷ st) = some (fields (field t v fs) ∷ st)
put_field _ = none

abbrev pub end_fields : List Entry → Option (List Entry)
end_fields (fields fs ∷ st) = some (value (object fs) ∷ st)
end_fields _ = none

abbrev pub step : ℕ → ℕ → List Entry → Option (List Entry)
step tag a st =
    if tag == 0
    then some (value null ∷ st)
    else if tag == 1
    then some (value (boolean (a == 1)) ∷ st)
    else if tag == 2
    then some (value (natural a) ∷ st)
    else if tag == 3
    then some (value (other_number a) ∷ st)
    else if tag == 4
    then some (text [] ∷ st)
    else if tag == 5
    then put_letter a st
    else if tag == 6
    then end_text st
    else if tag == 7
    then some (items no_items ∷ st)
    else if tag == 8
    then put_item st
    else if tag == 9
    then end_items st
    else if tag == 10
    then some (fields no_fields ∷ st)
    else if tag == 11
    then put_field st
    else end_fields st

abbrev pub finish : List Entry → Option Json
finish (value v ∷ []) = some v
finish _ = none

abbrev pub run : Text → List Entry → Option Json
run [] st = finish st
run (tag ∷ []) st = none
run (tag ∷ a ∷ ts) st = elim (step tag a st) [ none ↦ none | some next ↦ run ts next ]

pub run-write_text :
    (t rest : Text) (st : List Entry) → run (write_text t rest) st ≡ run rest (text t ∷ st)
unfolding write_text
run-write_text [] rest st = refl
run-write_text (c ∷ cs) rest st = run-write_text cs (5 ∷ c ∷ rest) st

mutual
  unfolding write write_items write_fields

  pub run-write :
      (v : Json) (rest : Text) (st : List Entry) → run (write v rest) st ≡ run rest (value v ∷ st)
  run-write null rest st = refl
  run-write (boolean true) rest st = refl
  run-write (boolean false) rest st = refl
  run-write (natural n) rest st = refl
  run-write (other_number n) rest st = refl
  run-write (string t) rest st = run-write_text t (6 ∷ 0 ∷ rest) st
  run-write (array is) rest st = run-write_items is (9 ∷ 0 ∷ rest) st
  run-write (object fs) rest st = run-write_fields fs (12 ∷ 0 ∷ rest) st

  pub run-write_items :
      (is : Items) (rest : Text) (st : List Entry)
      → run (write_items is rest) st ≡ run rest (items is ∷ st)
  run-write_items no_items rest st = refl
  run-write_items (item v is) rest st =
      run-write_items is (write v (8 ∷ 0 ∷ rest)) st ∙ run-write v (8 ∷ 0 ∷ rest) (items is ∷ st)

  pub run-write_fields :
      (fs : Fields) (rest : Text) (st : List Entry)
      → run (write_fields fs rest) st ≡ run rest (fields fs ∷ st)
  run-write_fields no_fields rest st = refl
  run-write_fields (field name v fs) rest st =
      run-write_fields fs (write v (write_text name (11 ∷ 0 ∷ rest))) st
      ∙ run-write v (write_text name (11 ∷ 0 ∷ rest)) (fields fs ∷ st)
      ∙ run-write_text name (11 ∷ 0 ∷ rest) (value v ∷ fields fs ∷ st)

abbrev pub plain_json : JsonCodec
plain_json = record {
  parse = λ t. run t [];
  stringify = λ v. write v [];
  parse_stringify = λ v. run-write v [] [];
  parse_nil = refl;
}

abbrev pub plain_sealing : Sealing
plain_sealing = record {
  seal = λ v. write v [];
  unseal = λ t. run t [];
  unseal_seal = λ v. run-write v [] [];
  unseal_nil = refl;
}

abbrev pub number_of : Text → Option ℕ
number_of [] = none
number_of (n ∷ ns) = some n

abbrev pub first_of : Text → ℕ
first_of [] = 0
first_of (n ∷ ns) = n

abbrev pub plain_texts : TimeTexts
plain_texts = record {
  to_iso = λ n. n ∷ [];
  parse_date = number_of;
  kept = λ n. n;
  parse_date_iso = λ n. refl;
  id_text = λ n. n ∷ [];
  text_id = first_of;
  text_id_text = λ n. refl;
}
