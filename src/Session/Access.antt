-- ===== src/Session/Access.antt =====
-- From apps/server/src/session/service.ts to apps/server/src/auth/session-auth.ts: the token of a
-- bootstrap in a later request.
use formation_chat_core.Prelude.{
  ℕ, ◌+◌, ◌/◌, ◌<◌, ◌≡◌, refl, ◌∙◌, subst, true, Option, none, some, List, ◌++◌, ok, arith, ltb,
}
use formation_chat_core.Database.{Db}
use formation_chat_core.Database.Rows.{Text}
use formation_chat_core.Database.Sites.{Site, SiteTables}
use formation_chat_core.Session.{
  Identity, Url, Digest, BootstrapRequest, FreshSession, BootstrapResponse, bootstrap_anonymous,
  respond,
}
use formation_chat_core.Session.Bootstrap.{bootstrap_anonymous-respond}
use formation_chat_core.Session.Token.{
  TokenSubject, AccessScope, Claims, Jwt, verify, issue, holds_key,
}
use formation_chat_core.Session.Authentication.{authenticate, authenticate-issue, actor_of, bearer}

-- The claims say who a response was for.
abbrev pub IsFor : BootstrapResponse → Claims → Type 0
IsFor response claims =
    (claims.tenant_id ≡ response.tenant_id)
    × (claims.site_id ≡ response.site_id)
    × (claims.agent_ref ≡ response.agent_ref)
    × (claims.principal_id ≡ response.identity.principal_id)
    × (claims.session_id ≡ response.identity.session_id)

respond-authenticate :
    {K : Type 0} (jwt : Jwt K) (signer : K) (ttl_seconds : ℕ) (site : Site) (agent_ref : ℕ)
    (identity : Identity) (now : ℕ) (keys : List K) (later : ℕ) (scope : AccessScope)
    → holds_key jwt keys signer ≡ true
    → later / 1000 < now / 1000 + ttl_seconds
    → (claims : Claims) × (authenticate
          (λ token. verify jwt keys later token none)
          scope
          (some
            (bearer ++ (respond jwt signer ttl_seconds site agent_ref identity now).access_token))
        ≡ ok (claims, actor_of claims))
      × IsFor (respond jwt signer ttl_seconds site agent_ref identity now) claims
unfolding respond
respond-authenticate jwt signer ttl site agent_ref identity now keys later scope held live =
    let subject : TokenSubject = record {
      tenant_id = site.tenant_id;
      site_id = site.site_id;
      agent_ref = agent_ref;
      principal_id = identity.principal_id;
      session_id = identity.session_id;
    } in
    let fresh : ltb (later / 1000) (now / 1000 + ttl) ≡ true = ground arith in
    (
      (issue jwt signer ttl subject now).1,
      authenticate-issue jwt keys signer ttl now later subject scope ∙ (rw held (rw fresh refl)),
      unfold issue in (refl, refl, refl, refl, refl),
    )

-- A browser that has bootstrapped is let in with the token of the response, for every scope and as
-- exactly the principal, session, agent, site and tenant of the response, until the lifetime of the
-- token is over, by every server whose ring of keys holds the key that signed it.
pub bootstrap_anonymous-authenticate :
    {K : Type 0} (jwt : Jwt K) (signer : K) (ttl_seconds : ℕ) (parse_url : Text → Option Url)
    (digest : Digest) (tables : SiteTables) (request : BootstrapRequest) (origin : Text)
    (key now created_at : ℕ) (fresh : FreshSession) (db db' : Db) (response : BootstrapResponse)
    (keys : List K) (later : ℕ) (scope : AccessScope)
    → bootstrap_anonymous jwt signer ttl_seconds parse_url digest tables request origin key now
        created_at fresh db
      ≡ ok (db', response)
    → holds_key jwt keys signer ≡ true
    → later / 1000 < now / 1000 + ttl_seconds
    → (claims : Claims) × (authenticate
          (λ token. verify jwt keys later token none)
          scope
          (some (bearer ++ response.access_token))
        ≡ ok (claims, actor_of claims))
      × IsFor response claims
bootstrap_anonymous-authenticate jwt signer ttl parse_url digest tables request origin key now
      created_at fresh db db' response keys later scope h held live =
    let (site, agent_ref, identity, same) =
      bootstrap_anonymous-respond jwt signer ttl parse_url digest tables request origin key now
        created_at fresh db db' response h in
    subst
      (λ (r : BootstrapResponse).
        (claims : Claims) × (authenticate (λ token. verify jwt keys later token none) scope
            (some (bearer ++ r.access_token))
          ≡ ok (claims, actor_of claims))
        × IsFor r claims)
      same
      (respond-authenticate jwt signer ttl site agent_ref identity now keys later scope held live)
