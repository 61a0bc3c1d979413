-- ===== src/Retention/Principals.antt =====
-- apps/server/src/privacy/retention.ts: which principals a pass of the retention deletes.
use formation_chat_core.Prelude.{
  ℕ, ◌≡◌, refl, ap, subst, Bool, true, false, not, ◌||◌, List, [], ◌∷◌, arith, All, Bool-cases, inl,
  inr, any, select,
}
use formation_chat_core.Database.{Db}
use formation_chat_core.Database.Rows.{Principal, Conversation}
use formation_chat_core.Retention.{
  is_same_principal, has_conversation, delete_principals, delete_principal,
}

any-select_none :
    (p q : Principal → Bool) (rows : List Principal)
    → any p rows ≡ false
    → any p (select q rows) ≡ false
unfolding any select
any-select_none p q [] h = h
any-select_none p q (r ∷ rs) h = ground (arith, any-select_none p q rs)

any-select-not :
    (p : Principal → Bool) (rows : List Principal) → any p (select (λ r. not (p r)) rows) ≡ false
unfolding any select
any-select-not p [] = refl
any-select-not p (r ∷ rs) = ground (arith, any-select-not p rs)

-- A row that is not there does not come back.
delete_principals-gone :
    (q : Principal → Bool) (ps : List Principal) (db : Db)
    → any q db.principals ≡ false
    → any q (delete_principals ps db).0.principals ≡ false
unfolding delete_principals delete_principal
delete_principals-gone q [] db h = h
delete_principals-gone q (p ∷ ps) db h = elim (Bool-cases (has_conversation p db.conversations)) [
  | inl e ↦ rw (e, delete_principals) (delete_principals-gone q ps db h)
  | inr e ↦
      rw (e, delete_principals)
        (delete_principals-gone q ps (delete_principal p db)
          (any-select_none q (λ row. not (is_same_principal p row)) db.principals h))
]

delete_principals-cons_busy :
    (p : Principal) (ps : List Principal) (db : Db)
    → has_conversation p db.conversations ≡ true
    → delete_principals ps db ≡ delete_principals (p ∷ ps) db
unfolding delete_principals
delete_principals-cons_busy p ps db e = rw (e, delete_principals) refl

delete_principals-cons_free :
    (p : Principal) (ps : List Principal) (db : Db)
    → has_conversation p db.conversations ≡ false
    → (delete_principals ps (delete_principal p db)).0 ≡ (delete_principals (p ∷ ps) db).0
unfolding delete_principals
delete_principals-cons_free p ps db e = rw (e, delete_principals) refl

-- Every candidate has one of the conversations, or no row is left of it.
abbrev pub AreSettled : List Conversation → List Principal → Db → Type 0
AreSettled conversations ps after =
    All
      (λ p.
        (has_conversation p conversations || not (any (is_same_principal p) after.principals))
        ≡ true)
      ps

-- Behind the loop every candidate either has a conversation or is gone.
pub delete_principals-AreSettled :
    (ps : List Principal) (db : Db) → AreSettled db.conversations ps (delete_principals ps db).0
unfolding delete_principal select
delete_principals-AreSettled [] db = tt
delete_principals-AreSettled (p ∷ ps) db = elim (Bool-cases (has_conversation p db.conversations)) [
  | inl e ↦
      let same = ap (λ (r : Db × ℕ). r.0) (delete_principals-cons_busy p ps db e) in
      subst (λ (d : Db). AreSettled db.conversations (p ∷ ps) d) same
        (rw e refl, delete_principals-AreSettled ps db)
  | inr e ↦
      let gone =
        delete_principals-gone (is_same_principal p) ps (delete_principal p db)
          (any-select-not (is_same_principal p) db.principals) in
      subst (λ (d : Db). AreSettled db.conversations (p ∷ ps) d)
        (delete_principals-cons_free p ps db e)
        (rw (e, gone) refl, delete_principals-AreSettled ps (delete_principal p db))
]

-- Candidates that all have conversations leave every principal in place: none beyond them is deleted.
pub delete_principals_busy :
    (ps : List Principal) (db : Db)
    → All (λ p. has_conversation p db.conversations ≡ true) ps
    → delete_principals ps db ≡ (db, 0)
unfolding delete_principals
delete_principals_busy [] db h = refl
delete_principals_busy (p ∷ ps) db (h, hs) =
    rw (h, delete_principals) (delete_principals_busy ps db hs)
