-- ===== src/Retention/References.antt =====
-- The foreign keys of apps/server/src/database/migrations between the tables of the chat core, and what
-- a deletion leaves of them.
use formation_chat_core.Prelude.{
  ℕ, ◌≡◌, ◌==◌, true, false, not, ◌&&◌, Bool, List, [], ◌∷◌, arith, All, any, select, All-select,
  select-All,
}
use formation_chat_core.Database.{Db}
use formation_chat_core.Database.Rows.{
  Conversation, Participant, Message, Event, Run, Handoff, InputRequest,
}
use formation_chat_core.Retention.{
  is_principal_of, is_inside, is_run_id, is_trigger_of, is_owner_of,
}

-- Every row names a row that is there.
abbrev pub Refer : {A B : Type 0} → (A → B → Bool) → List A → List B → Type 0
Refer names rows parents = All (λ a. any (names a) parents ≡ true) rows

abbrev pub is_conversation : (tenant_id site_id conversation_id : ℕ) → Conversation → Bool
is_conversation tenant_id site_id conversation_id c = is_inside c tenant_id site_id conversation_id

-- The participant of the message's own conversation that wrote it.
abbrev pub is_author_of : Message → Participant → Bool
is_author_of m row =
    row.tenant_id == m.tenant_id
    && row.site_id == m.site_id
    && row.conversation_id == m.conversation_id
    && row.participant_id == m.participant_id

-- The foreign keys of the migrations between the tables of the chat core.
pub record IsLinked (db : Db) : Type 0 where
  pub sessions : Refer is_owner_of db.browser_sessions db.principals
  pub conversations : Refer is_principal_of db.conversations db.principals
  pub participants :
      Refer
        (λ (r : Participant). is_conversation r.tenant_id r.site_id r.conversation_id)
        db.conversation_participants
        db.conversations
  pub authors : Refer is_author_of db.messages db.conversation_participants
  pub events :
      Refer
        (λ (r : Event). is_conversation r.tenant_id r.site_id r.conversation_id)
        db.conversation_events
        db.conversations
  pub runs :
      Refer
        (λ (r : Run). is_conversation r.tenant_id r.site_id r.conversation_id)
        db.agent_runs
        db.conversations
  pub triggers : Refer is_trigger_of db.agent_runs db.messages
  pub handoffs : Refer (λ (r : Handoff). is_run_id r.run_id) db.handoffs db.agent_runs
  pub inputs :
      Refer (λ (r : InputRequest). is_run_id r.run_id) db.structured_input_requests db.agent_runs

-- A parent that is kept, and one of the kept children that names no deleted parent.
any-select_kept :
    {B : Type 0} (gone names : B → Bool) (bs : List B)
    → any names bs ≡ true
    → any (λ b. gone b && names b) bs ≡ false
    → any names (select (λ b. not (gone b)) bs) ≡ true
unfolding any select
any-select_kept gone names [] h k = h
any-select_kept gone names (b ∷ bs) h k = ground (arith, any-select_kept gone names bs)

module _ {A B : Type 0} (names : A → B → Bool) (gone : B → Bool) where
  -- Whether a deleted parent is named.
  abbrev pub names_gone : List B → A → Bool
  names_gone bs a = any (λ b. gone b && names a b) bs

  pub kept-Refer :
      (rows : List A) (bs : List B)
      → Refer names rows bs
      → All (λ a. names_gone bs a ≡ false) rows
      → Refer names rows (select (λ b. not (gone b)) bs)
  kept-Refer [] bs h k = tt
  kept-Refer (a ∷ rows) bs (h, hs) (k, ks) =
      (any-select_kept gone (names a) bs h k, kept-Refer rows bs hs ks)

  -- A key that cascades: the children of the deleted parents go with them.
  pub cascade-Refer :
      (rows : List A) (bs : List B)
      → Refer names rows bs
      → Refer names (select (λ a. not (names_gone bs a)) rows) (select (λ b. not (gone b)) bs)
  cascade-Refer rows bs h =
      kept-Refer (select (λ a. not (names_gone bs a)) rows) bs
        (All-select (λ a. any (names a) bs ≡ true) _ rows h)
        (select-All (λ a. not (names_gone bs a)) rows (λ a k. ground arith))
