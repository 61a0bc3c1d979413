-- ===== src/Conversation/Creation.antt =====
-- apps/server/src/conversation/service.ts: what creating a conversation gives, and a repeated request.
use formation_chat_core.Prelude.{
  ℕ, ◌≡◌, refl, Bool, true, false, none, some, List, [], ◌∷◌, ◌++◌, arith, ok, then_read-eq-ok,
  Option-cases, Bool-cases, inl, inr, ◌==◌, ==_refl, find_first, find_first-append, All, select,
  order_by, insert_row, any,
}
use formation_chat_core.Database.{Db}
use formation_chat_core.Database.Rows.{ConversationStatus, resource, conversation_create}
use formation_chat_core.Database.Statements.{
  Scope, owns, is_in, find_command, command, find_command-append,
}
use formation_chat_core.Message.{resource_of}
use formation_chat_core.Conversation.{
  ConversationView, ConversationIds, user_participant, agent_participant, is_participant_of, get,
  new_conversation, new_user, new_agent, store_conversation, create_transaction, create,
  are_distinct, first_principal, first_agent_ref, validate_participants,
}

create_transaction-retry :
    (scope : Scope) (agent_ref key hash now later : ℕ) (ids again : ConversationIds) (db after : Db)
    (id : ℕ)
    → create_transaction scope agent_ref key hash now ids db ≡ ok (after, id)
    → create_transaction scope agent_ref key hash later again after ≡ ok (after, id)
unfolding create_transaction
create_transaction-retry scope agent_ref key hash now later ids again db after id h =
    elim (Option-cases (find_command scope conversation_create key db.command_idempotency)) [
      | inl missing ↦
          let given : ok (store_conversation scope agent_ref key hash now ids db, ids.id)
              ≡ ok (after, id) =
            rw (missing, create_transaction) at h in
          let stored : store_conversation scope agent_ref key hash now ids db ≡ after = cc in
          let named : ids.id ≡ id = cc in
          let row =
            find_command-append scope conversation_create key hash (resource ids.id) now
              db.command_idempotency missing in
          let there : find_command scope conversation_create key after.command_idempotency
              ≡ some (command scope conversation_create key hash (resource ids.id) now) =
            rw (← stored) (unfold store_conversation in row) in
          rw (there, create_transaction) (unfold command in rw (==_refl hash, named) refl)
      | inr (row, found) ↦ elim (Bool-cases (row.request_hash == hash)) [
        | inl same ↦
            let kept : db ≡ after = ground (arith, h, found) in
            let named : resource_of row.resource_id ≡ id = ground (arith, h, found) in
            let there : find_command scope conversation_create key after.command_idempotency
                ≡ some row =
              rw kept at found in
            rw (there, create_transaction, same, named) refl
        | inr other ↦ ground (arith, h, found)
      ]
    ]

-- A request that is sent again with its key to the database that the first one left gets the same
-- conversation and changes nothing.
pub create_again :
    (hash : ℕ) (scope : Scope) (agent_ref key now later : ℕ) (ids again : ConversationIds)
    (db after : Db) (view : ConversationView)
    → create hash scope agent_ref key now ids db ≡ ok (after, view)
    → create hash scope agent_ref key later again after ≡ ok (after, view)
unfolding create
create_again hash scope agent_ref key now later ids again db after view h =
    let (id, done, got) =
      then_read-eq-ok (create_transaction scope agent_ref key hash now ids db)
        (λ d i. get scope i d) h in
    let same =
      create_transaction-retry scope agent_ref key hash now later ids again db after id done in
    rw same (rw got refl)

select-append_two :
    {A : Type 0} (p : A → Bool) (xs : List A) (x y : A)
    → All (λ a. p a ≡ false) xs
    → p x ≡ true
    → p y ≡ true
    → select p (xs ++ x ∷ y ∷ []) ≡ x ∷ y ∷ []
unfolding select
select-append_two p [] x y h e f = ground (arith, e, f)
select-append_two p (z ∷ zs) x y (h, hs) e f = ground (arith, h, select-append_two p zs x y hs e f)

-- An active conversation of the principal with the agent, and its two participants.
abbrev pub created_view : Scope → (agent_ref now : ℕ) → ConversationIds → ConversationView
created_view scope agent_ref now ids = record {
  conversation_id = ids.id;
  tenant_id = scope.tenant_id;
  site_id = scope.site_id;
  principal_id = scope.principal_id;
  agent_ref = agent_ref;
  status = ConversationStatus.active;
  participants =
      user_participant ids.user_participant_id (some scope.principal_id)
      ∷ agent_participant ids.agent_participant_id (some agent_ref)
      ∷ [];
  created_at = now;
  updated_at = now;
}

-- A first request, whose new identifiers no row has and are not the same, makes an active
-- conversation of the principal with the agent, with the user and the agent as its participants in
-- this order, and the conversation passes the check of the protocol.
pub create_first :
    (hash : ℕ) (scope : Scope) (agent_ref key now : ℕ) (ids : ConversationIds) (db : Db)
    → find_command scope conversation_create key db.command_idempotency ≡ none
    → find_first (owns scope ids.id) db.conversations ≡ none
    → All (λ row. is_participant_of scope ids.id row ≡ false) db.conversation_participants
    → (ids.agent_participant_id == ids.user_participant_id) ≡ false
    → (create hash scope agent_ref key now ids db
        ≡ ok (
          store_conversation scope agent_ref key hash now ids db,
          created_view scope agent_ref now ids,
        ))
      × (validate_participants (created_view scope agent_ref now ids) ≡ true)
unfolding create get create_transaction store_conversation
create_first hash scope agent_ref key now ids db missing free alone distinct =
    let after = store_conversation scope agent_ref key hash now ids db in
    let owned : find_first (owns scope ids.id) after.conversations
        ≡ some (new_conversation scope agent_ref ids.id now) =
      unfold store_conversation in
      find_first-append (owns scope ids.id) db.conversations
        (new_conversation scope agent_ref ids.id now) free
        (unfold owns new_conversation in ground arith) in
    let joined : select (is_participant_of scope ids.id) after.conversation_participants
        ≡ new_user scope ids ∷ new_agent scope agent_ref ids ∷ [] =
      unfold store_conversation in
      select-append_two (is_participant_of scope ids.id) db.conversation_participants
        (new_user scope ids) (new_agent scope agent_ref ids) alone
        (unfold new_user is_in in ground arith) (unfold new_agent is_in in ground arith) in
    let view = created_view scope agent_ref now ids in
    let got : get scope ids.id after ≡ ok view =
      rw (get, owned, joined)
        (unfold order_by insert_row new_user new_agent new_conversation in refl) in
    let done : create_transaction scope agent_ref key hash now ids db ≡ ok (after, ids.id) =
      rw (create_transaction, missing) refl in
    (
      rw (done, got) refl,
      unfold validate_participants are_distinct first_principal first_agent_ref any in
          ground (arith, distinct),
    )
