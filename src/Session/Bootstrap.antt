-- ===== src/Session/Bootstrap.antt =====
-- apps/server/src/session/service.ts, `bootstrapAnonymous`: a bootstrap and its repetition.
use formation_chat_core.Prelude.{
  ℕ, ◌+◌, ◌*◌, ◌≡◌, refl, ap, subst, true, Option, some, ok, >>=-eq-ok, guard, or_throw,
  or_throw-eq-ok, ok_injective, guard-eq-ok,
}
use formation_chat_core.Database.{Db}
use formation_chat_core.Database.Rows.{Text}
use formation_chat_core.Database.Sites.{Site, SiteTables}
use formation_chat_core.Session.Token.{Jwt}
use formation_chat_core.Session.{
  FreshSession, Identity, bootstrap_transaction, bootstrap_anonymous, Digest, Url, BootstrapRequest,
  BootstrapResponse, find_site, site_not_found, origin_not_allowed, allows_origin,
  resolve_agent_ref, request_digest, respond,
}
use formation_chat_core.Session.Transaction.{
  prolonged, bootstrap_transaction-IsBootstrapped, bootstrap_transaction_again,
}

bootstrap_anonymous-through :
    {K : Type 0} (jwt : Jwt K) (signer : K) (ttl_seconds : ℕ) (parse_url : Text → Option Url)
    (digest : Digest) (tables : SiteTables) (request : BootstrapRequest) (origin : Text)
    (key now created_at : ℕ) (fresh : FreshSession) (db : Db) (done : Db × Identity) (site : Site)
    (agent_ref : ℕ)
    → find_site request.site_key tables ≡ some site
    → allows_origin parse_url origin site ≡ true
    → resolve_agent_ref tables site.tenant_id site.site_id site.agent_ref request.widget_key
        request.agent_alias
      ≡ ok agent_ref
    → bootstrap_transaction site.tenant_id site.site_id key
        (request_digest digest request)
        request.browser_identity
        (now + ttl_seconds * 1000)
        created_at
        fresh
        db
      ≡ ok done
    → bootstrap_anonymous jwt signer ttl_seconds parse_url digest tables request origin key now
        created_at fresh db
      ≡ ok (done.0, respond jwt signer ttl_seconds site agent_ref done.1 now)
unfolding bootstrap_anonymous
bootstrap_anonymous-through jwt signer ttl_seconds parse_url digest tables request origin key now
      created_at fresh db done site agent_ref found allowed resolved stored =
    rw found (rw allowed (rw resolved (rw stored refl)))

-- The parts of a bootstrap that answers: its site, its agent and what the transaction gave.
bootstrap_anonymous_inv :
    {K : Type 0} (jwt : Jwt K) (signer : K) (ttl_seconds : ℕ) (parse_url : Text → Option Url)
    (digest : Digest) (tables : SiteTables) (request : BootstrapRequest) (origin : Text)
    (key now created_at : ℕ) (fresh : FreshSession) (db : Db) (result : Db × BootstrapResponse)
    → bootstrap_anonymous jwt signer ttl_seconds parse_url digest tables request origin key now
        created_at fresh db
      ≡ ok result
    → (site : Site) × (agent_ref : ℕ) × (done : Db × Identity) × (find_site request.site_key tables
        ≡ some site)
      × (allows_origin parse_url origin site ≡ true)
      × (resolve_agent_ref tables site.tenant_id site.site_id site.agent_ref request.widget_key
            request.agent_alias
          ≡ ok agent_ref)
      × (bootstrap_transaction site.tenant_id site.site_id key
            (request_digest digest request)
            request.browser_identity
            (now + ttl_seconds * 1000)
            created_at
            fresh
            db
          ≡ ok done)
      × ((done.0, respond jwt signer ttl_seconds site agent_ref done.1 now) ≡ result)
unfolding bootstrap_anonymous
bootstrap_anonymous_inv jwt signer ttl parse_url digest tables request origin key now created_at
      fresh db result h =
    let (site, found, h1) =
      >>=-eq-ok (or_throw (find_site request.site_key tables) site_not_found) _ h in
    let (_, allowed, h2) =
      >>=-eq-ok (guard (allows_origin parse_url origin site) origin_not_allowed) _ h1 in
    let (agent_ref, resolved, h3) =
      >>=-eq-ok
        (resolve_agent_ref tables site.tenant_id site.site_id site.agent_ref request.widget_key
          request.agent_alias)
        _ h2 in
    let (done, stored, last) =
      >>=-eq-ok
        (bootstrap_transaction site.tenant_id site.site_id key (request_digest digest request)
          request.browser_identity (now + ttl * 1000) created_at fresh db)
        _ h3 in
    (
      site,
      agent_ref,
      done,
      or_throw-eq-ok _ site_not_found found,
      guard-eq-ok _ origin_not_allowed allowed,
      resolved,
      stored,
      ok_injective _ result last,
    )

-- What a bootstrap answers with is made of its site, its agent and its identity.
pub bootstrap_anonymous-respond :
    {K : Type 0} (jwt : Jwt K) (signer : K) (ttl_seconds : ℕ) (parse_url : Text → Option Url)
    (digest : Digest) (tables : SiteTables) (request : BootstrapRequest) (origin : Text)
    (key now created_at : ℕ) (fresh : FreshSession) (db db' : Db) (response : BootstrapResponse)
    → bootstrap_anonymous jwt signer ttl_seconds parse_url digest tables request origin key now
        created_at fresh db
      ≡ ok (db', response)
    → (site : Site) × (agent_ref : ℕ) × (identity : Identity) × (respond jwt signer ttl_seconds site
          agent_ref identity now
        ≡ response)
bootstrap_anonymous-respond jwt signer ttl parse_url digest tables request origin key now created_at
      fresh db db' response h =
    let (site, agent_ref, done, _, _, _, _, last) =
      bootstrap_anonymous_inv jwt signer ttl parse_url digest tables request origin key now
        created_at fresh db (db', response) h in
    (site, agent_ref, done.1, ap (λ (x : Db × BootstrapResponse). x.1) last)

-- A bootstrap that is repeated with its key on the database that the first left, at any later time,
-- gives the same browser the same principal, session and agent. It stores nothing: only the end of
-- the session moves to the new one.
pub bootstrap_anonymous-again :
    {K : Type 0} (jwt : Jwt K) (signer : K) (ttl_seconds : ℕ) (parse_url : Text → Option Url)
    (digest : Digest) (tables : SiteTables) (request : BootstrapRequest) (origin : Text)
    (key now created_at later later_created : ℕ) (fresh refreshed : FreshSession) (db db' : Db)
    (response : BootstrapResponse)
    → bootstrap_anonymous jwt signer ttl_seconds parse_url digest tables request origin key now
        created_at fresh db
      ≡ ok (db', response)
    → (response' : BootstrapResponse) × (bootstrap_anonymous jwt signer ttl_seconds parse_url digest
          tables request origin key later later_created refreshed db'
        ≡ ok (
          prolonged response.tenant_id response.site_id response.identity
              (later + ttl_seconds * 1000)
              db',
          response',
        ))
      × (response'.identity ≡ response.identity)
      × (response'.agent_ref ≡ response.agent_ref)
unfolding respond
bootstrap_anonymous-again jwt signer ttl parse_url digest tables request origin key now created_at
      later later_created fresh refreshed db db' response h =
    let (site, agent_ref, done, found, allowed, resolved, stored, last) =
      bootstrap_anonymous_inv jwt signer ttl parse_url digest tables request origin key now
        created_at fresh db (db', response) h in
    let h4 =
      bootstrap_transaction-IsBootstrapped site.tenant_id site.site_id key
        (request_digest digest request) request.browser_identity (now + ttl * 1000) created_at fresh
        db done stored in
    let repeated =
      bootstrap_transaction_again site.tenant_id site.site_id key (request_digest digest request)
        request.browser_identity (later + ttl * 1000) later_created refreshed done.0 done.1 h4 in
    subst
      (λ (x : Db × BootstrapResponse).
        (response' : BootstrapResponse) × (bootstrap_anonymous jwt signer ttl parse_url digest
            tables request origin key later later_created refreshed x.0
          ≡ ok (
            prolonged x.1.tenant_id x.1.site_id x.1.identity (later + ttl * 1000) x.0,
            response',
          ))
        × (response'.identity ≡ x.1.identity)
        × (response'.agent_ref ≡ x.1.agent_ref))
      last
      (
        respond jwt signer ttl site agent_ref done.1 later,
        bootstrap_anonymous-through jwt signer ttl parse_url digest tables request origin key later
            later_created refreshed done.0 _ site agent_ref found allowed resolved repeated,
        refl,
        refl,
      )
