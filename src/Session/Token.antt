-- ===== src/Session/Token.antt =====
-- apps/server/src/session/token.ts: the tokens of sessions. The JSON web tokens of the library `jose`
-- are a parameter.
use formation_chat_core.Prelude.{
  ℕ, ◌+◌, ◌*◌, ◌/◌, ◌≡◌, Bool, true, false, ◌&&◌, ◌||◌, Option, none, some, List, [], ◌∷◌, ltb,
  ◌==◌, if◌then◌else◌, any, length, Result, ok, err, ◌>>=◌, ◌>>◌, guard, or_throw, Bool-cases, inl,
  inr, refl, arith,
}
use formation_chat_core.Database.Rows.{Text}

pub data AccessScope : Type 0 where
  conversations_read conversations_write events_read inputs_write : AccessScope

pub record TokenSubject : Type 0 where
  pub tenant_id : ℕ
  pub site_id : ℕ
  pub agent_ref : ℕ
  pub principal_id : ℕ
  pub session_id : ℕ

pub record Claims : Type 0 where
  pub tenant_id : ℕ
  pub site_id : ℕ
  pub agent_ref : ℕ
  pub principal_id : ℕ
  pub session_id : ℕ
  pub scopes : List AccessScope
  pub issued_at : ℕ
  pub expires_at : ℕ

-- The payload that a token carries: a claim of another type than the code takes is none.
pub record Payload : Type 0 where
  pub tenant_id : Option ℕ
  pub site_id : Option ℕ
  pub agent_ref : Option ℕ
  pub principal_id : Option ℕ
  pub session_id : Option ℕ
  pub scopes : Option (List AccessScope)
  pub issued_at : ℕ
  pub expires_at : ℕ
  -- The registered claims `sub`, `iat` and `exp`; the issuer and the audience are constants.
  pub subject : ℕ
  pub issued_at_seconds : ℕ
  pub expiration_seconds : ℕ

pub data InvalidToken : Type 0 where
  invalid_token : InvalidToken

-- HS256 with the code's issuer and audience. A token is accepted by the key that signed it until it
-- expires, and by no other key.
pub record Jwt (K : Type 0) : Type 0 where
  pub sign : K → Payload → Text
  pub verify : K → (now_seconds : ℕ) → Text → Option Payload
  pub same_key : K → K → Bool
  pub verify_sign :
      (key signer : K) (now_seconds : ℕ) (payload : Payload)
      → verify key now_seconds (sign signer payload) ≡ (
          if same_key key signer && ltb now_seconds payload.expiration_seconds
          then some payload
          else none)

abbrev pub all_scopes : List AccessScope
all_scopes = conversations_read ∷ conversations_write ∷ events_read ∷ inputs_write ∷ []

-- The constructor: the secrets as bytes, of which none may be short. `none` is the error.
unfoldable pub token_keys : List Text → Option (List Text)
token_keys secrets = if any (λ secret. ltb (length secret) 32) secrets then none else some secrets

abbrev pub payload_of : (ttl_seconds : ℕ) → TokenSubject → (now : ℕ) → Payload
payload_of ttl_seconds subject now = record {
  tenant_id = some subject.tenant_id;
  site_id = some subject.site_id;
  agent_ref = some subject.agent_ref;
  principal_id = some subject.principal_id;
  session_id = some subject.session_id;
  scopes = some all_scopes;
  issued_at = now / 1000 * 1000;
  expires_at = (now / 1000 + ttl_seconds) * 1000;
  subject = subject.principal_id;
  issued_at_seconds = now / 1000;
  expiration_seconds = now / 1000 + ttl_seconds;
}

-- The tenant and the site that a caller expects.
abbrev pub is_expected : Option (ℕ × ℕ) → Claims → Bool
is_expected none claims = true
is_expected (some (tenant_id, site_id)) claims =
    claims.tenant_id == tenant_id && claims.site_id == site_id

module _ {K : Type 0} (jwt : Jwt K) where
  unfoldable pub issue : K → (ttl_seconds : ℕ) → TokenSubject → (now : ℕ) → Text × Claims
  issue key ttl_seconds subject now = (
    jwt.sign key (payload_of ttl_seconds subject now),
    record {
      tenant_id = subject.tenant_id;
      site_id = subject.site_id;
      agent_ref = subject.agent_ref;
      principal_id = subject.principal_id;
      session_id = subject.session_id;
      scopes = all_scopes;
      issued_at = now / 1000 * 1000;
      expires_at = (now / 1000 + ttl_seconds) * 1000;
    },
  )

  -- The loop over the keys, up to the first that accepts the token.
  unfoldable pub read_payload : List K → (now_seconds : ℕ) → Text → Option Payload
  read_payload [] now_seconds token = none
  read_payload (key ∷ keys) now_seconds token = elim (jwt.verify key now_seconds token) [
    | some payload ↦ some payload
    | none ↦ read_payload keys now_seconds token
  ]

  -- The claims of a payload, each of which must have its type.
  unfoldable pub claims_of : Payload → Result InvalidToken Claims
  claims_of p = do
    tenant_id ← or_throw p.tenant_id invalid_token
    site_id ← or_throw p.site_id invalid_token
    agent_ref ← or_throw p.agent_ref invalid_token
    principal_id ← or_throw p.principal_id invalid_token
    session_id ← or_throw p.session_id invalid_token
    scopes ← or_throw p.scopes invalid_token
    ok (record {
      tenant_id = tenant_id;
      site_id = site_id;
      agent_ref = agent_ref;
      principal_id = principal_id;
      session_id = session_id;
      scopes = scopes;
      issued_at = p.issued_at;
      expires_at = p.expires_at;
    })

  unfoldable pub verify :
      List K → (now : ℕ) → Text → (expected : Option (ℕ × ℕ)) → Result InvalidToken Claims
  verify keys now token expected = do
    payload ← or_throw (read_payload keys (now / 1000) token) invalid_token
    claims ← claims_of payload
    guard (is_expected expected claims) invalid_token
    ok claims

  -- Whether a ring of keys holds the signer's.
  unfoldable pub holds_key : List K → K → Bool
  holds_key [] signer = false
  holds_key (key ∷ keys) signer = jwt.same_key key signer || holds_key keys signer

  read_payload-sign :
      (keys : List K) (signer : K) (now_seconds : ℕ) (payload : Payload)
      → read_payload keys now_seconds (jwt.sign signer payload) ≡ (
          if holds_key keys signer && ltb now_seconds payload.expiration_seconds
          then some payload
          else none)
  unfolding read_payload holds_key
  read_payload-sign [] signer now_seconds payload = refl
  read_payload-sign (key ∷ keys) signer now_seconds payload = ground (
    arith,
    jwt.verify_sign key signer now_seconds payload,
    read_payload-sign keys signer now_seconds payload,
  )

  -- A token is accepted as its claims exactly as long as it has not expired and the ring of keys
  -- holds the key that signed it, at whatever place, and the caller expects its tenant and site.
  -- Otherwise it is refused.
  pub verify-issue :
      (keys : List K) (signer : K) (ttl_seconds now later : ℕ) (subject : TokenSubject)
      (expected : Option (ℕ × ℕ))
      → verify keys later (issue signer ttl_seconds subject now).0 expected ≡ (
          if holds_key keys signer
            && ltb (later / 1000) (now / 1000 + ttl_seconds)
            && is_expected expected (issue signer ttl_seconds subject now).1
          then ok (issue signer ttl_seconds subject now).1
          else err invalid_token)
  unfolding verify issue claims_of
  verify-issue keys signer ttl_seconds now later subject expected =
      let claims : Claims = (issue signer ttl_seconds subject now).1 in
      rw (read_payload-sign keys signer (later / 1000) (payload_of ttl_seconds subject now), verify)
        (elim (Bool-cases
          (holds_key keys signer && ltb (later / 1000) (now / 1000 + ttl_seconds))) [
            | inr refused ↦ ground (arith, refused)
            | inl accepted ↦ ground (arith, accepted)
          ])
