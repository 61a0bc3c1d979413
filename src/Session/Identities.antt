-- ===== src/Session/Identities.antt =====
-- apps/server/src/session/service.ts, `bootstrapAnonymous`: the principal and the session of a browser.
use formation_chat_core.Prelude.{
  ℕ, ◌≡◌, refl, sym, ◌∙◌, subst, Option, none, some, List, ok, >>=-eq-ok, or_throw, or_throw-eq-ok,
  ok_injective, if◌then◌else◌, find_first, update_where, find_first-update_where, arith,
}
use formation_chat_core.Database.{Db}
use formation_chat_core.Database.Rows.{Principal, BrowserSession}
use formation_chat_core.Session.{
  no_result, FreshSession, Identity, ensure_principal, ensure_session, is_principal, is_session_of,
  is_session, expire_at, store_identity,
}

module _ (tenant_id site_id : ℕ) where
  -- The principal of a browser stands in the database, of which nothing else has changed.
  abbrev PrincipalStored : (identity : ℕ) → Db → Db × ℕ → Type 0
  PrincipalStored identity before after =
      (p : Principal) × (find_first (is_principal tenant_id site_id identity) (after.0).principals
        ≡ some p)
      × (p.principal_id ≡ after.1)
      × ((after.0).browser_sessions ≡ before.browser_sessions)
      × ((after.0).session_bootstrap_idempotency ≡ before.session_bootstrap_idempotency)

  ensure_principal_inv :
      (fresh_id identity created_at : ℕ) (db : Db) (done : Db × ℕ) (found : Option Principal)
      → find_first (is_principal tenant_id site_id identity) db.principals ≡ found
      → ensure_principal tenant_id site_id fresh_id identity created_at found db ≡ ok done
      → PrincipalStored identity db done
  unfolding ensure_principal
  ensure_principal_inv fresh_id identity created_at db done (some p) there h =
      subst (PrincipalStored identity db) (ok_injective _ done h) (p, there, refl, refl, refl)
  ensure_principal_inv fresh_id identity created_at db done none missing h =
      let (p, got, e) = >>=-eq-ok (or_throw _ no_result) _ h in
      subst (PrincipalStored identity db) (ok_injective _ done e)
        (p, or_throw-eq-ok _ no_result got, refl, refl, refl)

  -- The session of a principal stands in the database, of which nothing else has changed.
  abbrev SessionStored : (principal_id : ℕ) → Db → Db × ℕ → Type 0
  SessionStored principal_id before after =
      (s : BrowserSession) × (find_first (is_session_of tenant_id site_id principal_id)
          (after.0).browser_sessions
        ≡ some s)
      × (s.session_id ≡ after.1)
      × ((after.0).principals ≡ before.principals)
      × ((after.0).session_bootstrap_idempotency ≡ before.session_bootstrap_idempotency)

  expire_at-session_of :
      (principal_id expires_at : ℕ) (s : BrowserSession)
      → is_session_of tenant_id site_id principal_id (expire_at expires_at s)
        ≡ is_session_of tenant_id site_id principal_id s
  unfolding is_session_of
  expire_at-session_of principal_id expires_at s = refl

  -- A search by the principal finds the session that the update of its end leaves.
  prolonged_found :
      (principal_id session_id expires_at : ℕ) (rows : List BrowserSession) (s : BrowserSession)
      → find_first (is_session_of tenant_id site_id principal_id) rows ≡ some s
      → (u : BrowserSession) × (find_first
            (is_session_of tenant_id site_id principal_id)
            (update_where (is_session tenant_id site_id session_id) (expire_at expires_at) rows)
          ≡ some u)
        × (u.session_id ≡ s.session_id)
  prolonged_found principal_id session_id expires_at rows s found = (
    (if is_session tenant_id site_id session_id s then expire_at expires_at s else s),
    ground (
      arith,
      found,
      find_first-update_where (is_session_of tenant_id site_id principal_id)
          (is_session tenant_id site_id session_id) (expire_at expires_at) rows
          (expire_at-session_of principal_id expires_at),
    ),
    ground arith,
  )

  ensure_session_inv :
      (fresh_id principal_id expires_at : ℕ) (db : Db) (done : Db × ℕ)
      (found : Option BrowserSession)
      → find_first (is_session_of tenant_id site_id principal_id) db.browser_sessions ≡ found
      → ensure_session tenant_id site_id fresh_id principal_id expires_at found db ≡ ok done
      → SessionStored principal_id db done
  unfolding ensure_session
  ensure_session_inv fresh_id principal_id expires_at db done (some s) there h =
      let (u, again, same) =
        prolonged_found principal_id s.session_id expires_at db.browser_sessions s there in
      subst (SessionStored principal_id db) (ok_injective _ done h) (u, again, same, refl, refl)
  ensure_session_inv fresh_id principal_id expires_at db done none missing h =
      let (s, got, e) = >>=-eq-ok (or_throw _ no_result) _ h in
      subst (SessionStored principal_id db) (ok_injective _ done e)
        (s, or_throw-eq-ok _ no_result got, refl, refl, refl)

  -- What a stored identity leaves: its principal and its session, found by its names.
  pub record IsStored (before after : Db) (identity : Identity) : Type 0 where
    pub principal : Principal
    pub principal_found :
        find_first (is_principal tenant_id site_id identity.browser_identity) after.principals
        ≡ some principal
    pub principal_same : principal.principal_id ≡ identity.principal_id
    pub session : BrowserSession
    pub session_found :
        find_first (is_session_of tenant_id site_id identity.principal_id) after.browser_sessions
        ≡ some session
    pub session_same : session.session_id ≡ identity.session_id
    pub same_rows : after.session_bootstrap_idempotency ≡ before.session_bootstrap_idempotency

  pub store_identity-IsStored :
      (browser_identity expires_at created_at : ℕ) (fresh : FreshSession) (db : Db)
      (done : Db × Identity)
      → store_identity tenant_id site_id browser_identity expires_at created_at fresh db ≡ ok done
      → IsStored db done.0 done.1 × (done.1.browser_identity ≡ browser_identity)
  unfolding store_identity
  store_identity-IsStored browser_identity expires_at created_at fresh db done h =
      let found = find_first (is_principal tenant_id site_id browser_identity) db.principals in
      let (first, start, rest) =
        >>=-eq-ok
          (ensure_principal tenant_id site_id fresh.principal_id browser_identity created_at found
            db)
          _ h in
      let (p, p_found, p_same, p_sessions, p_rows) =
        ensure_principal_inv fresh.principal_id browser_identity created_at db first found refl
          start in
      let owned = find_first (is_session_of tenant_id site_id first.1) (first.0).browser_sessions in
      let (second, next, last) =
        >>=-eq-ok
          (ensure_session tenant_id site_id fresh.session_id first.1 expires_at owned first.0) _
          rest in
      let (s, s_found, s_same, s_principals, s_rows) =
        ensure_session_inv fresh.session_id first.1 expires_at first.0 second owned refl next in
      subst (λ (x : Db × Identity). IsStored db x.0 x.1 × (x.1.browser_identity ≡ browser_identity))
        (ok_injective _ done last)
        (
          record {
            principal = p;
            principal_found =
                subst
                  (λ (ps : List Principal).
                    find_first (is_principal tenant_id site_id browser_identity) ps ≡ some p)
                  (sym s_principals) p_found;
            principal_same = p_same;
            session = s;
            session_found = s_found;
            session_same = s_same;
            same_rows = s_rows ∙ p_rows;
          },
          refl,
        )
