-- ===== src/Session.antt =====
-- apps/server/src/session/service.ts: the bootstrap of an anonymous session. `URL` and the digest of
-- a request are parameters; the identifiers that `randomUUID` makes and the clock are arguments.
pub mod Origin
pub mod Identities
pub mod Transaction
pub mod Bootstrap
pub mod Token
pub mod Authentication
pub mod Access
use formation_chat_core.Prelude.{
  ℕ, ◌+◌, ◌*◌, Bool, true, false, not, ◌&&◌, Option, none, some, List, [], ◌∷◌, ◌++◌, Result, ok,
  err, ◌>>=◌, ◌>>◌, guard, or_throw, ◌==◌, if◌then◌else◌, any, find_first, update_where, same_text,
}
use formation_chat_core.Database.{Db}
use formation_chat_core.Database.Rows.{Text, Principal, BrowserSession}
use formation_chat_core.Database.Rows
use formation_chat_core.Database.Sites.{Site, Widget, AgentAlias, SiteTables}
use formation_chat_core.Session.Token.{TokenSubject, Claims, Jwt, issue}
unfoldable pub use Origin.*

pub record BootstrapRequest : Type 0 where
  pub site_key : ℕ
  pub widget_key : Option ℕ
  pub agent_alias : Option ℕ
  pub browser_identity : Option ℕ

-- The request's texts that are hashed.
abbrev pub Digest : Type 0
Digest = ℕ → Option ℕ → Option ℕ → Option ℕ → ℕ

unfoldable pub is_previous : (site_id idempotency_key : ℕ) → Rows.Bootstrap → Bool
is_previous site_id idempotency_key row =
    row.site_id == site_id && row.idempotency_key == idempotency_key

unfoldable pub is_principal : (tenant_id site_id browser_identity : ℕ) → Principal → Bool
is_principal tenant_id site_id browser_identity row =
    row.tenant_id == tenant_id && row.site_id == site_id && row.browser_identity == browser_identity

unfoldable pub is_session_of : (tenant_id site_id principal_id : ℕ) → BrowserSession → Bool
is_session_of tenant_id site_id principal_id row =
    row.tenant_id == tenant_id && row.site_id == site_id && row.principal_id == principal_id

unfoldable pub is_session : (tenant_id site_id session_id : ℕ) → BrowserSession → Bool
is_session tenant_id site_id session_id row =
    row.tenant_id == tenant_id && row.site_id == site_id && row.session_id == session_id

-- `insert … on conflict do nothing`, on the columns of the test.
unfoldable pub insert_unless {ℓ} : {A : Type ℓ} → (A → Bool) → A → List A → List A
insert_unless test row rows = if any test rows then rows else rows ++ row ∷ []

-- `insert … on conflict do update`, on the columns of the test.
unfoldable pub upsert {ℓ} : {A : Type ℓ} → (A → Bool) → (A → A) → A → List A → List A
upsert test set row rows = if any test rows then update_where test set rows else rows ++ row ∷ []

abbrev pub expire_at : ℕ → BrowserSession → BrowserSession
expire_at expires_at row = record row { expires_at = expires_at }

-- The identifiers that a bootstrap makes where it needs them.
pub record FreshSession : Type 0 where
  pub browser_identity : ℕ
  pub principal_id : ℕ
  pub session_id : ℕ

pub record Identity : Type 0 where
  pub principal_id : ℕ
  pub session_id : ℕ
  pub browser_identity : ℕ

module _ (tenant_id site_id : ℕ) where
  -- The principal of a browser: the one found, or a new one and the search again.
  unfoldable pub ensure_principal :
      (fresh_id browser_identity created_at : ℕ)
      → Option Principal
      → Db
      → Result BootstrapError (Db × ℕ)
  ensure_principal fresh_id browser_identity created_at (some found) db =
      ok (db, found.principal_id)
  ensure_principal fresh_id browser_identity created_at none db =
      let principals =
        insert_unless (is_principal tenant_id site_id browser_identity)
          (record {
            principal_id = fresh_id;
            tenant_id = tenant_id;
            site_id = site_id;
            browser_identity = browser_identity;
            created_at = created_at;
          })
          db.principals in
      or_throw (find_first (is_principal tenant_id site_id browser_identity) principals) no_result
      >>= λ p. ok (record db { principals = principals }, p.principal_id)

  -- The session of a principal: the one found, with the new end, or a new one.
  unfoldable pub ensure_session :
      (fresh_id principal_id expires_at : ℕ)
      → Option BrowserSession
      → Db
      → Result BootstrapError (Db × ℕ)
  ensure_session fresh_id principal_id expires_at (some found) db = ok (
    record db {
      browser_sessions =
          update_where (is_session tenant_id site_id found.session_id) (expire_at expires_at)
            db.browser_sessions;
    },
    found.session_id,
  )
  ensure_session fresh_id principal_id expires_at none db =
      let sessions =
        upsert (is_session_of tenant_id site_id principal_id) (expire_at expires_at)
          (record {
            session_id = fresh_id;
            tenant_id = tenant_id;
            site_id = site_id;
            principal_id = principal_id;
            expires_at = expires_at;
          })
          db.browser_sessions in
      or_throw (find_first (is_session_of tenant_id site_id principal_id) sessions) no_result
      >>= λ s. ok (record db { browser_sessions = sessions }, s.session_id)

  abbrev pub chosen_identity : Option Rows.Bootstrap → (requested : Option ℕ) → (fresh : ℕ) → ℕ
  chosen_identity (some previous) requested fresh = previous.browser_identity
  chosen_identity none (some identity) fresh = identity
  chosen_identity none none fresh = fresh

  abbrev pub same_request : Option Rows.Bootstrap → ℕ → Bool
  same_request none request_hash = true
  same_request (some previous) request_hash = previous.request_hash == request_hash

  abbrev pub record_bootstrap : Option Rows.Bootstrap → Rows.Bootstrap → Db → Db
  record_bootstrap (some previous) row db = db
  record_bootstrap none row db = record db {
    session_bootstrap_idempotency = db.session_bootstrap_idempotency ++ row ∷ [];
  }

  -- The principal of a browser and its session, stored or found.
  unfoldable pub store_identity :
      (browser_identity expires_at created_at : ℕ)
      → FreshSession
      → Db
      → Result BootstrapError (Db × Identity)
  store_identity browser_identity expires_at created_at fresh db = do
    with_principal ←
        ensure_principal fresh.principal_id browser_identity created_at
          (find_first (is_principal tenant_id site_id browser_identity) db.principals) db
    with_session ←
        ensure_session fresh.session_id with_principal.1 expires_at
          (find_first (is_session_of tenant_id site_id with_principal.1)
            (with_principal.0).browser_sessions)
          with_principal.0
    ok (
      with_session.0,
      record {
        principal_id = with_principal.1;
        session_id = with_session.1;
        browser_identity = browser_identity;
      },
    )

  -- The transaction, behind the lock of its key and on the key's earlier request, if there is one.
  unfoldable pub bootstrap_behind :
      Option Rows.Bootstrap
      → (idempotency_key request_hash : ℕ) → (requested : Option ℕ) → (expires_at created_at : ℕ)
      → FreshSession
      → Db
      → Result BootstrapError (Db × Identity)
  bootstrap_behind previous idempotency_key request_hash requested expires_at created_at fresh db =
      let identity = chosen_identity previous requested fresh.browser_identity in
      guard (same_request previous request_hash) idempotency_conflict
      >> (store_identity identity expires_at created_at fresh db >>= λ done. ok (
        record_bootstrap previous
            (record {
              site_id = site_id;
              idempotency_key = idempotency_key;
              request_hash = request_hash;
              browser_identity = identity;
              created_at = created_at;
            })
            done.0,
        done.1,
      ))

  unfoldable pub bootstrap_transaction :
      (idempotency_key request_hash : ℕ)
      → (requested : Option ℕ) → (expires_at created_at : ℕ) → FreshSession
      → Db
      → Result BootstrapError (Db × Identity)
  bootstrap_transaction idempotency_key request_hash requested expires_at created_at fresh db =
      bootstrap_behind
        (find_first (is_previous site_id idempotency_key) db.session_bootstrap_idempotency)
        idempotency_key request_hash requested expires_at created_at fresh db

pub record BootstrapResponse : Type 0 where
  pub access_token : Text
  pub expires_at : ℕ
  pub tenant_id : ℕ
  pub site_id : ℕ
  pub agent_ref : ℕ
  pub identity : Identity

abbrev pub request_digest : Digest → BootstrapRequest → ℕ
request_digest digest r = digest r.site_key r.widget_key r.agent_alias r.browser_identity

-- The response, with a new token.
unfoldable pub respond :
    {K : Type 0}
    → Jwt K
    → (key : K) → (ttl_seconds : ℕ) → Site
    → (agent_ref : ℕ) → Identity
    → (now : ℕ) → BootstrapResponse
respond jwt key ttl_seconds site agent_ref identity now =
    let issued =
      issue jwt key ttl_seconds
        (record {
          tenant_id = site.tenant_id;
          site_id = site.site_id;
          agent_ref = agent_ref;
          principal_id = identity.principal_id;
          session_id = identity.session_id;
        })
        now in
    record {
      access_token = issued.0;
      expires_at = issued.1.expires_at;
      tenant_id = site.tenant_id;
      site_id = site.site_id;
      agent_ref = agent_ref;
      identity = identity;
    }

unfoldable pub bootstrap_anonymous :
    {K : Type 0}
    → Jwt K
    → (key : K) → (ttl_seconds : ℕ) → (Text → Option Url)
    → Digest
    → SiteTables
    → BootstrapRequest
    → (origin : Text) → (idempotency_key now created_at : ℕ) → FreshSession
    → Db
    → Result BootstrapError (Db × BootstrapResponse)
bootstrap_anonymous jwt key ttl_seconds parse_url digest tables request origin idempotency_key now
      created_at fresh db =
    do
      site ← or_throw (find_site request.site_key tables) site_not_found
      guard (allows_origin parse_url origin site) origin_not_allowed
      agent_ref ←
          resolve_agent_ref tables site.tenant_id site.site_id site.agent_ref request.widget_key
            request.agent_alias
      done ←
          bootstrap_transaction site.tenant_id site.site_id idempotency_key
            (request_digest digest request) request.browser_identity (now + ttl_seconds * 1000)
            created_at fresh db
      ok (done.0, respond jwt key ttl_seconds site agent_ref done.1 now)
