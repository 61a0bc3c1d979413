-- ===== src/Session/Transaction.antt =====
-- apps/server/src/session/service.ts, `bootstrapAnonymous`: what the transaction leaves, and a repeated
-- one.
use formation_chat_core.Prelude.{
  ℕ, ◌≡◌, ◌≢◌, refl, sym, ◌∙◌, ap, subst, true, false, Option, none, some, ok, err, >>=-eq-ok,
  guard, ok_injective, ◌==◌, find_first, update_where, find_first-append, arith,
}
use formation_chat_core.Database.{Db}
use formation_chat_core.Database.Rows
use formation_chat_core.Database.Rows.{Text, Principal, BrowserSession}
use formation_chat_core.Session.{
  idempotency_conflict, FreshSession, Identity, bootstrap_transaction, ensure_principal,
  ensure_session, is_previous, is_principal, is_session_of, is_session, expire_at, chosen_identity,
  store_identity, bootstrap_behind,
}
use formation_chat_core.Session.Identities.{store_identity-IsStored}

module _ (tenant_id site_id : ℕ) where
  -- A bootstrap of a key and a digest that stands in the database with its identity.
  pub record IsBootstrapped (key request_hash : ℕ) (db : Db) (identity : Identity) : Type 0 where
    pub row : Rows.Bootstrap
    pub row_found : find_first (is_previous site_id key) db.session_bootstrap_idempotency ≡ some row
    pub row_hash : row.request_hash ≡ request_hash
    pub row_identity : row.browser_identity ≡ identity.browser_identity
    pub principal : Principal
    pub principal_found :
        find_first (is_principal tenant_id site_id identity.browser_identity) db.principals
        ≡ some principal
    pub principal_same : principal.principal_id ≡ identity.principal_id
    pub session : BrowserSession
    pub session_found :
        find_first (is_session_of tenant_id site_id identity.principal_id) db.browser_sessions
        ≡ some session
    pub session_same : session.session_id ≡ identity.session_id

  -- The database of a bootstrap that stands, with the session's new end.
  abbrev pub prolonged : Identity → (expires_at : ℕ) → Db → Db
  prolonged identity expires_at db = record db {
    browser_sessions =
        update_where (is_session tenant_id site_id identity.session_id) (expire_at expires_at)
          db.browser_sessions;
  }

  is_previous-own :
      (key request_hash identity created_at : ℕ)
      → is_previous site_id key (record {
        site_id = site_id;
        idempotency_key = key;
        request_hash = request_hash;
        browser_identity = identity;
        created_at = created_at;
      })
        ≡ true
  unfolding is_previous
  is_previous-own key request_hash identity created_at = ground arith

  bootstrap_behind-IsBootstrapped :
      (previous : Option Rows.Bootstrap) (key request_hash : ℕ) (requested : Option ℕ)
      (expires_at created_at : ℕ) (fresh : FreshSession) (db : Db) (done : Db × Identity)
      → find_first (is_previous site_id key) db.session_bootstrap_idempotency ≡ previous
      → bootstrap_behind tenant_id site_id previous key request_hash requested expires_at created_at
          fresh db
        ≡ ok done
      → IsBootstrapped key request_hash done.0 done.1
  unfolding bootstrap_behind
  bootstrap_behind-IsBootstrapped (some row) key request_hash requested expires_at created_at fresh
        db done there h =
      let (_, same, rest) =
        >>=-eq-ok (guard (row.request_hash == request_hash) idempotency_conflict) _ h in
      let (stored, begun, last) =
        >>=-eq-ok
          (store_identity tenant_id site_id row.browser_identity expires_at created_at fresh db) _
          rest in
      let (f, e) =
        store_identity-IsStored tenant_id site_id row.browser_identity expires_at created_at fresh
          db stored begun in
      subst (λ (x : Db × Identity). IsBootstrapped key request_hash x.0 x.1)
        (ok_injective _ done last)
        (record {
          row = row;
          row_found = ap (find_first (is_previous site_id key)) f.same_rows ∙ there;
          row_hash = ground (arith, same);
          row_identity = sym e;
          principal = f.principal;
          principal_found = f.principal_found;
          principal_same = f.principal_same;
          session = f.session;
          session_found = f.session_found;
          session_same = f.session_same;
        })
  bootstrap_behind-IsBootstrapped none key request_hash requested expires_at created_at fresh db
        done missing h =
      let identity = chosen_identity tenant_id site_id none requested fresh.browser_identity in
      let (stored, begun, last) =
        >>=-eq-ok (store_identity tenant_id site_id identity expires_at created_at fresh db) _ h in
      let (f, e) =
        store_identity-IsStored tenant_id site_id identity expires_at created_at fresh db stored
          begun in
      subst (λ (x : Db × Identity). IsBootstrapped key request_hash x.0 x.1)
        (ok_injective _ done last)
        (record {
          row = record {
            site_id = site_id;
            idempotency_key = key;
            request_hash = request_hash;
            browser_identity = identity;
            created_at = created_at;
          };
          row_found =
              find_first-append (is_previous site_id key) _ _
                (ap (find_first (is_previous site_id key)) f.same_rows ∙ missing)
                (is_previous-own key request_hash identity created_at);
          row_hash = refl;
          row_identity = sym e;
          principal = f.principal;
          principal_found = f.principal_found;
          principal_same = f.principal_same;
          session = f.session;
          session_found = f.session_found;
          session_same = f.session_same;
        })

  pub bootstrap_transaction-IsBootstrapped :
      (key request_hash : ℕ) (requested : Option ℕ) (expires_at created_at : ℕ)
      (fresh : FreshSession) (db : Db) (done : Db × Identity)
      → bootstrap_transaction tenant_id site_id key request_hash requested expires_at created_at
          fresh db
        ≡ ok done
      → IsBootstrapped key request_hash done.0 done.1
  unfolding bootstrap_transaction
  bootstrap_transaction-IsBootstrapped key request_hash requested expires_at created_at fresh db
        done h =
      bootstrap_behind-IsBootstrapped _ key request_hash requested expires_at created_at fresh db
        done refl h

  store_identity-again :
      (key request_hash expires_at created_at : ℕ) (fresh : FreshSession) (db : Db)
      (identity : Identity)
      → IsBootstrapped key request_hash db identity
      → store_identity tenant_id site_id identity.browser_identity expires_at created_at fresh db
        ≡ ok (prolonged identity expires_at db, identity)
  unfolding store_identity ensure_principal ensure_session
  store_identity-again key request_hash expires_at created_at fresh db identity h =
      rw (h.principal_found, store_identity)
        (rw h.principal_same (rw (h.session_found, store_identity) (rw h.session_same refl)))

  -- A bootstrap that stands is answered with its identity, whatever it asks for and the fresh
  -- identifiers are, and only the end of its session moves.
  pub bootstrap_transaction_again :
      (key request_hash : ℕ) (requested : Option ℕ) (expires_at created_at : ℕ)
      (fresh : FreshSession) (db : Db) (identity : Identity)
      → IsBootstrapped key request_hash db identity
      → bootstrap_transaction tenant_id site_id key request_hash requested expires_at created_at
          fresh db
        ≡ ok (prolonged identity expires_at db, identity)
  unfolding bootstrap_transaction bootstrap_behind
  bootstrap_transaction_again key request_hash requested expires_at created_at fresh db identity h =
      let same : (h.row.request_hash == request_hash) ≡ true = ground (arith, h.row_hash) in
      rw h.row_found (
        rw same (
          rw h.row_identity (
            rw (store_identity-again key request_hash expires_at created_at fresh db identity h)
              refl)))

  -- On the database that a bootstrap left, its key with another digest is refused.
  pub bootstrap_transaction-conflict :
      (key request_hash other_hash : ℕ) (requested other_requested : Option ℕ)
      (expires_at created_at later later_created : ℕ) (fresh refreshed : FreshSession) (db db' : Db)
      (identity : Identity)
      → bootstrap_transaction tenant_id site_id key request_hash requested expires_at created_at
          fresh db
        ≡ ok (db', identity)
      → request_hash ≢ other_hash
      → bootstrap_transaction tenant_id site_id key other_hash other_requested later later_created
          refreshed db'
        ≡ err idempotency_conflict
  unfolding bootstrap_transaction bootstrap_behind
  bootstrap_transaction-conflict key request_hash other_hash requested other_requested expires_at
        created_at later later_created fresh refreshed db db' identity done other =
      let h =
        bootstrap_behind-IsBootstrapped _ key request_hash requested expires_at created_at fresh db
          (db', identity) refl done in
      let differs : (h.row.request_hash == other_hash) ≡ false =
        ground (arith, h.row_hash, other) in
      rw h.row_found (rw differs refl)
