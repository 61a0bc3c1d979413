-- ===== src/Session/Authentication.antt =====
-- apps/server/src/auth/session-auth.ts: the check of a request's token and of its scope.
use formation_chat_core.Prelude.{
  ℕ, ◌+◌, ◌/◌, ◌≡◌, ◌↔◌, refl, sym, ◌∙◌, ap, Bool, true, false, ◌&&◌, Option, none, some, List, [],
  ◌∷◌, ◌++◌, Result, ok, err, ltb, ◌==◌, if◌then◌else◌, any, arith, Bool-cases, Option-cases, inl,
  inr,
}
use formation_chat_core.Database.Rows.{Text}
use formation_chat_core.Session.Token.{
  AccessScope, conversations_read, conversations_write, events_read, inputs_write, Claims,
  TokenSubject, Jwt, InvalidToken, issue, verify, verify-issue, holds_key, all_scopes,
  invalid_token,
}

pub data AuthorizationError : Type 0 where
  unauthorized forbidden : AuthorizationError

abbrev pub status_code : AuthorizationError → ℕ
status_code unauthorized = 401
status_code forbidden = 403

-- The actor that the audit of a request is given.
pub record AuditActor : Type 0 where
  pub actor_id : ℕ
  pub tenant_id : ℕ
  pub site_id : ℕ

abbrev pub actor_of : Claims → AuditActor
actor_of claims = record {
  actor_id = claims.principal_id;
  tenant_id = claims.tenant_id;
  site_id = claims.site_id;
}

abbrev pub same_scope : AccessScope → AccessScope → Bool
same_scope conversations_read conversations_read = true
same_scope conversations_write conversations_write = true
same_scope events_read events_read = true
same_scope inputs_write inputs_write = true
same_scope _ _ = false

abbrev pub bearer : Text
bearer = b'B' ∷ b'e' ∷ b'a' ∷ b'r' ∷ b'e' ∷ b'r' ∷ b' ' ∷ []

-- `startsWith(prefix)` and the `slice` behind it.
unfoldable pub strip_prefix : Text → Text → Option Text
strip_prefix [] t = some t
strip_prefix (p ∷ ps) [] = none
strip_prefix (p ∷ ps) (c ∷ cs) = if p == c then strip_prefix ps cs else none

unfoldable pub bearer_token : Option Text → Option Text
bearer_token none = none
bearer_token (some authorization) = strip_prefix bearer authorization

abbrev pub check_scope :
    AccessScope → Result InvalidToken Claims → Result AuthorizationError (Claims × AuditActor)
check_scope scope (err _) = err unauthorized
check_scope scope (ok claims) =
    if any (same_scope scope) claims.scopes then ok (claims, actor_of claims) else err forbidden

-- The claims, and the actor that the request's audit gets.
unfoldable pub authenticate :
    (verify : Text → Result InvalidToken Claims)
    → AccessScope
    → (authorization : Option Text) → Result AuthorizationError (Claims × AuditActor)
authenticate verify scope authorization = elim (bearer_token authorization) [
  | none ↦ err unauthorized
  | some token ↦ check_scope scope (verify token)
]

strip_prefix-append : (p t : Text) → strip_prefix p (p ++ t) ≡ some t
unfolding strip_prefix
strip_prefix-append [] t = refl
strip_prefix-append (c ∷ p) t = ground (arith, strip_prefix-append p t)

strip_prefix_sound : (p s t : Text) → strip_prefix p s ≡ some t → s ≡ p ++ t
unfolding strip_prefix
strip_prefix_sound [] s t h = cc
strip_prefix_sound (p ∷ ps) [] t h = ground arith
strip_prefix_sound (p ∷ ps) (c ∷ cs) t h = ground (arith, strip_prefix_sound ps cs t)

bearer_token_sound :
    (authorization : Option Text) (t : Text)
    → bearer_token authorization ≡ some t
    → authorization ≡ some (bearer ++ t)
unfolding bearer_token
bearer_token_sound none t h = ground arith
bearer_token_sound (some a) t h = ap (λ (x : Text). some x) (strip_prefix_sound bearer a t h)

bearer_token-append : (t : Text) → bearer_token (some (bearer ++ t)) ≡ some t
unfolding bearer_token
bearer_token-append t = strip_prefix-append bearer t

check_scope-eq-ok :
    (scope : AccessScope) (checked : Result InvalidToken Claims) (claims : Claims)
    → check_scope scope checked ≡ ok (claims, actor_of claims)
    → (checked ≡ ok claims) × (any (same_scope scope) claims.scopes ≡ true)
check_scope-eq-ok scope (err e) claims h = ground arith
check_scope-eq-ok scope (ok found) claims h =
    elim (Bool-cases (any (same_scope scope) found.scopes)) [
      | inl has ↦
          let same : found ≡ claims = ground (arith, has, h) in
          (
            ap (λ (c : Claims). ok c) same,
            sym (ap (λ (c : Claims). any (same_scope scope) c.scopes) same) ∙ has,
          )
      | inr lacks ↦ ground (arith, lacks, h)
    ]

check_scope-eq-forbidden :
    (scope : AccessScope) (checked : Result InvalidToken Claims)
    → check_scope scope checked ≡ err forbidden
    → (claims : Claims) × (checked ≡ ok claims) × (any (same_scope scope) claims.scopes ≡ false)
check_scope-eq-forbidden scope (err e) h = ground arith
check_scope-eq-forbidden scope (ok found) h =
    elim (Bool-cases (any (same_scope scope) found.scopes)) [
      | inl has ↦ ground (arith, has, h)
      | inr lacks ↦ (found, refl, lacks)
    ]

module _ (check : Text → Result InvalidToken Claims) (scope : AccessScope)
    (authorization : Option Text) where
  authenticate-eq-ok :
      (claims : Claims)
      → authenticate check scope authorization ≡ ok (claims, actor_of claims)
      → (token : Text) × (authorization ≡ some (bearer ++ token))
        × (check token ≡ ok claims)
        × (any (same_scope scope) claims.scopes ≡ true)
  unfolding authenticate
  authenticate-eq-ok claims h = elim (Option-cases (bearer_token authorization)) [
    | inl missing ↦ ground (arith, missing)
    | inr (t, there) ↦
        let (checked, has) =
          check_scope-eq-ok scope (check t) claims (rw (there, authenticate) at h) in
        (t, bearer_token_sound authorization t there, checked, has)
  ]

  authenticate-eq-forbidden :
      authenticate check scope authorization ≡ err forbidden
      → (token : Text) × (claims : Claims) × (authorization ≡ some (bearer ++ token))
        × (check token ≡ ok claims)
        × (any (same_scope scope) claims.scopes ≡ false)
  unfolding authenticate
  authenticate-eq-forbidden h = elim (Option-cases (bearer_token authorization)) [
    | inl missing ↦ ground (arith, missing)
    | inr (t, there) ↦
        let (claims, checked, lacks) =
          check_scope-eq-forbidden scope (check t) (rw (there, authenticate) at h) in
        (t, claims, bearer_token_sound authorization t there, checked, lacks)
  ]

  authenticate-bearer :
      (token : Text)
      → authorization ≡ some (bearer ++ token)
      → authenticate check scope authorization ≡ check_scope scope (check token)
  unfolding authenticate
  authenticate-bearer token e =
      let there : bearer_token authorization ≡ some token =
        ap bearer_token e ∙ bearer_token-append token in
      rw (there, authenticate) refl

-- A request is let in exactly when its header is `Bearer ` and a token that verifies with claims
-- that hold the scope. It is refused as forbidden exactly when the token verifies and its claims
-- lack the scope; any other is refused as unauthorized.
pub authenticate_iff :
    (check : Text → Result InvalidToken Claims) (scope : AccessScope) (authorization : Option Text)
    → ((claims : Claims)
        → (authenticate check scope authorization ≡ ok (claims, actor_of claims)) ↔ (
            (token : Text) × (authorization ≡ some (bearer ++ token))
            × (check token ≡ ok claims)
            × (any (same_scope scope) claims.scopes ≡ true)))
      × ((authenticate check scope authorization ≡ err forbidden) ↔ (
          (token : Text) × (claims : Claims) × (authorization ≡ some (bearer ++ token))
          × (check token ≡ ok claims)
          × (any (same_scope scope) claims.scopes ≡ false)))
authenticate_iff check scope authorization = (
  λ claims. (
    authenticate-eq-ok check scope authorization claims,
    λ (token, e, checked, has).
        authenticate-bearer check scope authorization token e ∙ (rw checked (rw has refl)),
  ),
  (
    authenticate-eq-forbidden check scope authorization,
    λ (token, claims, e, checked, lacks).
        authenticate-bearer check scope authorization token e ∙ (rw checked (rw lacks refl)),
  ),
)

any-all_scopes : (scope : AccessScope) → any (same_scope scope) all_scopes ≡ true
unfolding any
any-all_scopes conversations_read = refl
any-all_scopes conversations_write = refl
any-all_scopes events_read = refl
any-all_scopes inputs_write = refl

-- A request with a token that the service issued is let in, whatever the scope, exactly as long as
-- the token has not expired and the ring of keys holds the key that signed it.
pub authenticate-issue :
    {K : Type 0} (jwt : Jwt K) (keys : List K) (signer : K) (ttl_seconds now later : ℕ)
    (subject : TokenSubject) (scope : AccessScope)
    → authenticate
        (λ token. verify jwt keys later token none)
        scope
        (some (bearer ++ (issue jwt signer ttl_seconds subject now).0))
      ≡ (if holds_key jwt keys signer && ltb (later / 1000) (now / 1000 + ttl_seconds)
          then ok (
            (issue jwt signer ttl_seconds subject now).1,
            actor_of (issue jwt signer ttl_seconds subject now).1,
          )
          else err unauthorized)
unfolding issue
authenticate-issue jwt keys signer ttl_seconds now later subject scope =
    authenticate-bearer (λ token. verify jwt keys later token none) scope _
      (issue jwt signer ttl_seconds subject now).0 refl
    ∙ ap (check_scope scope) (verify-issue jwt keys signer ttl_seconds now later subject none)
    ∙ checked (holds_key jwt keys signer) (ltb (later / 1000) (now / 1000 + ttl_seconds))
  where
    checked :
        (held fresh : Bool)
        → check_scope scope (
            if held && fresh && true
            then ok (issue jwt signer ttl_seconds subject now).1
            else err invalid_token)
          ≡ (if held && fresh
              then ok (
                (issue jwt signer ttl_seconds subject now).1,
                actor_of (issue jwt signer ttl_seconds subject now).1,
              )
              else err unauthorized)
    checked true true = rw (any-all_scopes scope) refl
    checked true false = refl
    checked false fresh = refl
