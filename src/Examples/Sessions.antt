-- ===== src/Examples/Sessions.antt =====
-- The theorems on sessions at concrete inputs.
use formation_chat_core.Prelude.{
  ℕ, zero, suc, ◌+◌, ◌*◌, ◌/◌, ◌≡◌, ◌↔◌, refl, ap, true, false, ◌&&◌, Option, none, some, List, [],
  ◌∷◌, ◌++◌, map, arith, Result, ok, err, ltb, ◌==◌, if◌then◌else◌, any, find_first, same_text,
  update_where,
}
use formation_chat_core.Database.{Db}
use formation_chat_core.Database.Rows.{Text}
use formation_chat_core.Database.Sites.{Site, Widget, SiteTables}
use formation_chat_core.Session.{
  Url, Protocol, Digest, BootstrapRequest, FreshSession, BootstrapResponse, Identity,
  bootstrap_anonymous, respond, bootstrap_transaction, find_site, allows_origin, normalize_origin,
  resolve_agent_ref, is_widget, bootstrap_behind, store_identity, ensure_principal, is_principal,
  insert_unless, ensure_session, upsert, is_previous, is_session, is_session_of,
}
use formation_chat_core.Session.Bootstrap.{bootstrap_anonymous-again}
use formation_chat_core.Session.Transaction.{prolonged}
use formation_chat_core.Session.Token.{
  AccessScope, conversations_read, conversations_write, events_read, inputs_write, Payload, Claims,
  Jwt, TokenSubject, verify, issue, holds_key, verify-issue, InvalidToken, invalid_token,
  is_expected,
}
use formation_chat_core.Session.Authentication.{
  authenticate, authenticate_iff, actor_of, bearer, forbidden, same_scope,
}
use formation_chat_core.Session.Access.{IsFor, bootstrap_anonymous-authenticate}
use formation_chat_core.Examples.Data.{value_of, empty_db}

-- A token as the list of its key and of the numbers of its payload.
abbrev put : Option ℕ → ℕ
put none = 0
put (some n) = suc n

abbrev take_out : ℕ → Option ℕ
take_out zero = none
take_out (suc n) = some n

take_out-put : (o : Option ℕ) → take_out (put o) ≡ o
take_out-put none = refl
take_out-put (some n) = refl

abbrev scope_code : AccessScope → ℕ
scope_code conversations_read = 0
scope_code conversations_write = 1
scope_code events_read = 2
scope_code inputs_write = 3

abbrev code_scope : ℕ → AccessScope
code_scope zero = conversations_read
code_scope (suc zero) = conversations_write
code_scope (suc (suc zero)) = events_read
code_scope (suc (suc (suc n))) = inputs_write

abbrev put_scopes : Option (List AccessScope) → Text
put_scopes none = []
put_scopes (some scopes) = 1 ∷ map scope_code scopes

abbrev take_scopes : Text → Option (List AccessScope)
take_scopes [] = none
take_scopes (c ∷ cs) = some (map code_scope cs)

code_scope-scope_code : (s : AccessScope) → code_scope (scope_code s) ≡ s
code_scope-scope_code conversations_read = refl
code_scope-scope_code conversations_write = refl
code_scope-scope_code events_read = refl
code_scope-scope_code inputs_write = refl

map_codes : (scopes : List AccessScope) → map code_scope (map scope_code scopes) ≡ scopes
map_codes [] = refl
map_codes (s ∷ ss) = cc (code_scope-scope_code s, map_codes ss)

take_scopes-put_scopes : (o : Option (List AccessScope)) → take_scopes (put_scopes o) ≡ o
take_scopes-put_scopes none = refl
take_scopes-put_scopes (some scopes) = ap (λ (x : List AccessScope). some x) (map_codes scopes)

abbrev write_token : ℕ → Payload → Text
write_token key p =
    key
    ∷ put p.tenant_id
    ∷ put p.site_id
    ∷ put p.agent_ref
    ∷ put p.principal_id
    ∷ put p.session_id
    ∷ p.issued_at
    ∷ p.expires_at
    ∷ p.subject
    ∷ p.issued_at_seconds
    ∷ p.expiration_seconds
    ∷ put_scopes p.scopes

abbrev read_token : ℕ → ℕ → Text → Option Payload
read_token key now (k ∷ t ∷ s ∷ a ∷ p ∷ x ∷ i ∷ e ∷ u ∷ f ∷ l ∷ scopes) =
    if k == key && ltb now l
    then some (record {
      tenant_id = take_out t;
      site_id = take_out s;
      agent_ref = take_out a;
      principal_id = take_out p;
      session_id = take_out x;
      scopes = take_scopes scopes;
      issued_at = i;
      expires_at = e;
      subject = u;
      issued_at_seconds = f;
      expiration_seconds = l;
    })
    else none
read_token key now _ = none

read_token-write_token :
    (key signer now : ℕ) (p : Payload)
    → read_token key now (write_token signer p)
      ≡ (if signer == key && ltb now p.expiration_seconds then some p else none)
read_token-write_token key signer now p = rw (take_out-put p.tenant_id) (
    rw (take_out-put p.site_id) (
      rw (take_out-put p.agent_ref) (
        rw (take_out-put p.principal_id)
          (rw (take_out-put p.session_id) (rw (take_scopes-put_scopes p.scopes) refl)))))

abbrev plain_jwt : Jwt ℕ
plain_jwt = record {
  sign = write_token;
  verify = read_token;
  same_key = λ key signer. signer == key;
  verify_sign = read_token-write_token;
}

abbrev home : Site
home = record {
  site_id = 2;
  tenant_id = 1;
  site_key = 50;
  allowed_origins = (b'a' ∷ []) ∷ [];
  agent_ref = 9;
}

abbrev panel : Widget
panel = record {
  widget_id = 51;
  tenant_id = 1;
  site_id = 2;
  widget_key = 52;
  default_agent_alias = 53;
  agent_aliases = record { alias = 53; agent_ref = 10; email_handoff = true } ∷ [];
}

abbrev tables : SiteTables
tables = record { sites = home ∷ []; site_widgets = panel ∷ [] }

abbrev address : Text → Option Url
address t = some (record { protocol = Protocol.https_protocol; origin = t })

abbrev request_sum : Digest
request_sum a b c d = a + put b + put c + put d

abbrev asked : BootstrapRequest
asked = record { site_key = 50; widget_key = some 52; agent_alias = none; browser_identity = none }

abbrev first_ids : FreshSession
first_ids = record { browser_identity = 60; principal_id = 61; session_id = 62 }

abbrev second_ids : FreshSession
second_ids = record { browser_identity = 70; principal_id = 71; session_id = 72 }

abbrev nobody : BootstrapResponse
nobody = record {
  access_token = [];
  expires_at = 0;
  tenant_id = 0;
  site_id = 0;
  agent_ref = 0;
  identity = record { principal_id = 0; session_id = 0; browser_identity = 0 };
}

abbrev opened : Db × BootstrapResponse
opened =
    value_of
      (bootstrap_anonymous plain_jwt 5 3600 address request_sum tables asked (b'a' ∷ []) 80 1000
        1000 first_ids empty_db)
      (empty_db, nobody)

opened_ok :
    bootstrap_anonymous plain_jwt 5 3600 address request_sum tables asked
      (b'a' ∷ [])
      80
      1000
      1000
      first_ids
      empty_db
    ≡ ok (opened.0, opened.1)
unfolding bootstrap_anonymous find_site find_first allows_origin normalize_origin any same_text
    resolve_agent_ref is_widget bootstrap_transaction bootstrap_behind store_identity
    ensure_principal is_principal insert_unless ensure_session upsert update_where issue is_previous
    is_session is_session_of respond
opened_ok = refl

bootstrap_anonymous-again_example :
    (response' : BootstrapResponse) × (bootstrap_anonymous plain_jwt 5 3600 address request_sum
        tables asked
        (b'a' ∷ [])
        80
        9000
        9000
        second_ids
        opened.0
      ≡ ok (
        prolonged opened.1.tenant_id opened.1.site_id opened.1.identity
            (9000 + 3600 * 1000)
            opened.0,
        response',
      ))
    × (response'.identity ≡ opened.1.identity)
    × (response'.agent_ref ≡ opened.1.agent_ref)
bootstrap_anonymous-again_example =
    bootstrap_anonymous-again plain_jwt 5 3600 address request_sum tables asked (b'a' ∷ []) 80 1000
      1000 9000 9000 first_ids second_ids empty_db opened.0 opened.1 opened_ok

held : holds_key plain_jwt (6 ∷ 5 ∷ []) 5 ≡ true
unfolding holds_key
held = refl

bootstrap_anonymous-authenticate_example :
    (claims : Claims) × (authenticate
        (λ token. verify plain_jwt (6 ∷ 5 ∷ []) 90000 token none)
        events_read
        (some (bearer ++ opened.1.access_token))
      ≡ ok (claims, actor_of claims))
    × IsFor opened.1 claims
bootstrap_anonymous-authenticate_example =
    bootstrap_anonymous-authenticate plain_jwt 5 3600 address request_sum tables asked (b'a' ∷ [])
      80 1000 1000 first_ids empty_db opened.0 opened.1 (6 ∷ 5 ∷ []) 90000 events_read opened_ok
      held (omega arith)

abbrev stored : Db × Identity
stored =
    value_of (bootstrap_transaction 1 2 80 55 none 5000 1000 first_ids empty_db)
      (empty_db, nobody.identity)

stored_ok :
    bootstrap_transaction 1 2 80 55 none 5000 1000 first_ids empty_db ≡ ok (stored.0, stored.1)
unfolding bootstrap_transaction bootstrap_behind find_first store_identity ensure_principal
    is_principal insert_unless any ensure_session upsert is_session_of
stored_ok = refl

abbrev visitor_subject : TokenSubject
visitor_subject = record {
  tenant_id = 1;
  site_id = 2;
  agent_ref = 9;
  principal_id = 3;
  session_id = 62;
}

verify-issue_example :
    verify plain_jwt
      (6 ∷ 5 ∷ [])
      90000
      (issue plain_jwt 5 3600 visitor_subject 1000).0
      (some (1, 2))
    ≡ (if holds_key plain_jwt (6 ∷ 5 ∷ []) 5
          && ltb (90000 / 1000) (1000 / 1000 + 3600)
          && is_expected (some (1, 2)) (issue plain_jwt 5 3600 visitor_subject 1000).1
        then ok (issue plain_jwt 5 3600 visitor_subject 1000).1
        else err invalid_token)
verify-issue_example =
    verify-issue plain_jwt (6 ∷ 5 ∷ []) 5 3600 1000 90000 visitor_subject (some (1, 2))

abbrev refuse_all : Text → Result InvalidToken Claims
refuse_all token = err invalid_token

authenticate_iff_example :
    ((claims : Claims)
      → (authenticate refuse_all events_read (some bearer) ≡ ok (claims, actor_of claims)) ↔ (
          (token : Text) × (◌≡◌ {A = Option Text} (some bearer) (some (bearer ++ token)))
          × (refuse_all token ≡ ok claims)
          × (any (same_scope events_read) claims.scopes ≡ true)))
    × ((authenticate refuse_all events_read (some bearer) ≡ err forbidden) ↔ (
        (token : Text) × (claims : Claims) × (◌≡◌ {A = Option Text}
          (some bearer)
          (some (bearer ++ token)))
        × (refuse_all token ≡ ok claims)
        × (any (same_scope events_read) claims.scopes ≡ false)))
authenticate_iff_example = authenticate_iff refuse_all events_read (some bearer)
