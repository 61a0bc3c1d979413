-- ===== src/Browser/Storage.antt =====
-- packages/browser-client/src/storage.ts: the persisted state of a site in the browser's storage.
-- `JSON` is a parameter; the storage is the list of its entries.
use formation_chat_core.Prelude.{
  ℕ, ◌≡◌, refl, sym, ◌∙◌, ap, Bool, true, false, ◌&&◌, Option, none, some, List, [], ◌∷◌, ◌++◌,
  arith, ◌==◌, if◌then◌else◌, leb, same_text, same_text_refl, same_text_sound, Json, Fields,
  no_fields, field, get_field, as_text, natural, string, object, Bool-cases, inl, inr,
}
use formation_chat_core.Database.Rows.{Text}
use formation_chat_core.Message.Cursor.{max_safe}

-- The persisted state with its identifiers as texts.
pub record StoredChatState : Type 0 where
  pub browser_identity : Option Text
  pub conversation_id : Option Text
  pub last_event_id : Option Text
  pub last_event_sequence : Option ℕ

pub record JsonCodec : Type 0 where
  pub parse : Text → Option Json
  pub stringify : Json → Text
  pub parse_stringify : (value : Json) → parse (stringify value) ≡ some value
  pub parse_nil : parse [] ≡ none

abbrev pub version_name : Text
version_name = b'v' ∷ b'e' ∷ b'r' ∷ b's' ∷ b'i' ∷ b'o' ∷ b'n' ∷ []

abbrev pub identity_name : Text
identity_name =
    b'b' ∷ b'r' ∷ b'o' ∷ b'w' ∷ b's' ∷ b'e' ∷ b'r' ∷ b'I' ∷ b'd' ∷ b'e' ∷ b'n' ∷ b't' ∷ b'i' ∷ b't'
    ∷ b'y' ∷ []

abbrev pub conversation_name : Text
conversation_name =
    b'c' ∷ b'o' ∷ b'n' ∷ b'v' ∷ b'e' ∷ b'r' ∷ b's' ∷ b'a' ∷ b't' ∷ b'i' ∷ b'o' ∷ b'n' ∷ b'I' ∷ b'd'
    ∷ []

abbrev pub event_id_name : Text
event_id_name = b'l' ∷ b'a' ∷ b's' ∷ b't' ∷ b'E' ∷ b'v' ∷ b'e' ∷ b'n' ∷ b't' ∷ b'I' ∷ b'd' ∷ []

abbrev pub sequence_name : Text
sequence_name =
    b'l' ∷ b'a' ∷ b's' ∷ b't' ∷ b'E' ∷ b'v' ∷ b'e' ∷ b'n' ∷ b't' ∷ b'S' ∷ b'e' ∷ b'q' ∷ b'u' ∷ b'e'
    ∷ b'n' ∷ b'c' ∷ b'e' ∷ []

-- `version !== 1`.
abbrev pub is_version : Option Json → Bool
is_version (some (natural n)) = n == 1
is_version _ = false

-- `undefined` or a text.
abbrev pub is_optional_text : Option Json → Bool
is_optional_text none = true
is_optional_text (some (string t)) = true
is_optional_text (some _) = false

-- `undefined` or a safe integer that is not negative.
abbrev pub is_optional_sequence : Option Json → Bool
is_optional_sequence none = true
is_optional_sequence (some (natural n)) = leb n max_safe
is_optional_sequence (some _) = false

abbrev pub as_sequence : Option Json → Option ℕ
as_sequence (some (natural n)) = some n
as_sequence _ = none

unfoldable pub read_persisted : Fields → Option StoredChatState
read_persisted fields =
    if is_version (get_field version_name fields)
      && is_optional_text (get_field identity_name fields)
      && is_optional_text (get_field conversation_name fields)
      && is_optional_text (get_field event_id_name fields)
      && is_optional_sequence (get_field sequence_name fields)
    then some (record {
      browser_identity = as_text (get_field identity_name fields);
      conversation_id = as_text (get_field conversation_name fields);
      last_event_id = as_text (get_field event_id_name fields);
      last_event_sequence = as_sequence (get_field sequence_name fields);
    })
    else none

abbrev pub read_value : Option Json → Option StoredChatState
read_value (some (object fields)) = read_persisted fields
read_value _ = none

-- `parsePersisted`: a missing item, and one that is no persisted state, are `undefined`.
unfoldable pub parse_persisted : JsonCodec → Option Text → Option StoredChatState
parse_persisted json none = none
parse_persisted json (some []) = none
parse_persisted json (some (c ∷ cs)) = read_value (json.parse (c ∷ cs))

-- The object of a persisted state: a key that has no value is not there.
abbrev pub put_text : Text → Option Text → Fields → Fields
put_text name none fields = fields
put_text name (some t) fields = field name (string t) fields

abbrev pub put_sequence : Text → Option ℕ → Fields → Fields
put_sequence name none fields = fields
put_sequence name (some n) fields = field name (natural n) fields

unfoldable pub persisted_fields : StoredChatState → Fields
persisted_fields s = field version_name (natural 1) (
    put_text identity_name s.browser_identity (
      put_text conversation_name s.conversation_id (
        put_text event_id_name s.last_event_id
          (put_sequence sequence_name s.last_event_sequence no_fields))))

-- `getItem` and `setItem`.
unfoldable pub get_item : Text → List (Text × Text) → Option Text
get_item key [] = none
get_item key ((other, value) ∷ items) =
    if same_text other key then some value else get_item key items

unfoldable pub set_item : Text → Text → List (Text × Text) → List (Text × Text)
set_item key value [] = (key, value) ∷ []
set_item key value ((other, old) ∷ items) =
    if same_text other key then (other, value) ∷ items else (other, old) ∷ set_item key value items

module _ (json : JsonCodec) (key_prefix : Text) where
  unfoldable pub load : (site_key : Text) → List (Text × Text) → Option StoredChatState
  load site_key items = parse_persisted json (get_item (key_prefix ++ site_key) items)

  unfoldable pub save :
      (site_key : Text) → StoredChatState → List (Text × Text) → List (Text × Text)
  save site_key state items =
      set_item (key_prefix ++ site_key) (json.stringify (object (persisted_fields state))) items

  -- What the storage's event tells a listener of a site: nothing where the key is another's.
  unfoldable pub on_storage :
      (site_key key : Text) → (new_value : Option Text) → Option (Option StoredChatState)
  on_storage site_key key new_value =
      if same_text key (key_prefix ++ site_key) then some (parse_persisted json new_value) else none

-- Whether a sequence is a safe integer, or not there.
abbrev pub has_safe_sequence : StoredChatState → Bool
has_safe_sequence s = elim s.last_event_sequence [ none ↦ true | some n ↦ leb n 9007199254740991 ]

-- What is loaded of a state that was saved.
abbrev pub loaded_back : StoredChatState → Option StoredChatState
loaded_back s = if has_safe_sequence s then some s else none

read_persisted-persisted_fields :
    (s : StoredChatState) → read_persisted (persisted_fields s) ≡ loaded_back s
unfolding read_persisted persisted_fields get_field same_text
read_persisted-persisted_fields s =
    go s.browser_identity s.conversation_id s.last_event_id s.last_event_sequence
  where
    go :
        (a b c : Option Text) (n : Option ℕ)
        → read_persisted (
            persisted_fields (record {
              browser_identity = a;
              conversation_id = b;
              last_event_id = c;
              last_event_sequence = n;
            }))
          ≡ loaded_back (record {
            browser_identity = a;
            conversation_id = b;
            last_event_id = c;
            last_event_sequence = n;
          })
    go none none none none = refl
    go none none none (some _) = refl
    go none none (some _) none = refl
    go none none (some _) (some _) = refl
    go none (some _) none none = refl
    go none (some _) none (some _) = refl
    go none (some _) (some _) none = refl
    go none (some _) (some _) (some _) = refl
    go (some _) none none none = refl
    go (some _) none none (some _) = refl
    go (some _) none (some _) none = refl
    go (some _) none (some _) (some _) = refl
    go (some _) (some _) none none = refl
    go (some _) (some _) none (some _) = refl
    go (some _) (some _) (some _) none = refl
    go (some _) (some _) (some _) (some _) = refl

parse_persisted-stringify :
    (json : JsonCodec) (s : StoredChatState)
    → parse_persisted json (some (json.stringify (object (persisted_fields s)))) ≡ loaded_back s
unfolding parse_persisted
parse_persisted-stringify json s = go (json.stringify (object (persisted_fields s))) refl
  where
    go :
        (t : Text)
        → json.stringify (object (persisted_fields s)) ≡ t
        → parse_persisted json (some t) ≡ loaded_back s
    go [] e =
        let read : json.parse [] ≡ some (object (persisted_fields s)) =
          ap json.parse (sym e) ∙ json.parse_stringify (object (persisted_fields s)) in
        ground (arith, read, json.parse_nil)
    go (c ∷ cs) e =
        let read : json.parse (c ∷ cs) ≡ some (object (persisted_fields s)) =
          ap json.parse (sym e) ∙ json.parse_stringify (object (persisted_fields s)) in
        rw (read, read_value) (read_persisted-persisted_fields s)

same_text-append : (p s t : Text) → same_text (p ++ s) (p ++ t) ≡ same_text s t
unfolding same_text
same_text-append [] s t = refl
same_text-append (c ∷ p) s t = ground (arith, same_text-append p s t)

same_text_joined :
    (s t u : Text) → same_text s u ≡ true → same_text t u ≡ true → same_text s t ≡ true
same_text_joined s t u h k =
    ap (λ (x : Text). same_text x t) (same_text_sound s u h)
    ∙ ap (same_text u) (same_text_sound t u k)
    ∙ same_text_refl u

get_item-set_item :
    (key wanted value : Text) (items : List (Text × Text))
    → get_item wanted (set_item key value items)
      ≡ (if same_text key wanted then some value else get_item wanted items)
unfolding get_item set_item
get_item-set_item key wanted value [] = refl
get_item-set_item key wanted value ((other, old) ∷ items) =
    elim (Bool-cases (same_text other key)) [
      | inl same ↦
          let alike : same_text other wanted ≡ same_text key wanted =
            ap (λ (t : Text). same_text t wanted) (same_text_sound other key same) in
          rw same (rw (alike, get_item) (ground arith))
      | inr differs ↦ ground (
        arith,
        differs,
        same_text_joined other key wanted,
        get_item-set_item key wanted value items,
      )
    ]

-- A site whose state was saved loads that state, every field of it, where its sequence is a safe
-- integer or not there, and nothing where it is not safe; every other site loads what it loaded
-- before, although all share one storage.
pub load-save :
    (json : JsonCodec) (key_prefix site_key other : Text) (state : StoredChatState)
    (items : List (Text × Text))
    → load json key_prefix other (save json key_prefix site_key state items)
      ≡ (if same_text site_key other then loaded_back state else load json key_prefix other items)
unfolding load save
load-save json key_prefix site_key other state items =
    let text = json.stringify (object (persisted_fields state)) in
    rw (get_item-set_item (key_prefix ++ site_key) (key_prefix ++ other) text items) (
      rw (same_text-append key_prefix site_key other)
        (elim (Bool-cases (same_text site_key other)) [
          | inl same ↦ rw same (parse_persisted-stringify json state)
          | inr differs ↦ rw differs refl
        ]))
