-- ===== src/EmailHandoff/Creation.antt =====
-- apps/server/src/email-handoff/service.ts: a request that is repeated, and the input that the queued
-- run finds.
use formation_chat_core.Prelude.{
  ℕ, ◌≡◌, refl, Bool, true, false, some, List, [], ◌∷◌, ◌++◌, arith, ok, >>=-eq-ok, then_read-eq-ok,
  or_throw, or_throw-eq-ok, Option-cases, Bool-cases, inl, inr, ◌==◌, ==_refl, find_first, first_by,
  All, All-map, select, order_by, insert_row,
}
use formation_chat_core.Database.{Db}
use formation_chat_core.Database.Rows.{
  Text, Message, Conversation, InputRequest, resource, email_handoff_create, Purpose,
}
use formation_chat_core.Database.Statements.{
  Scope, owns, is_in, find_command, command, find_command-append,
}
use formation_chat_core.Message.{resource_of, queued_run}
use formation_chat_core.Run.Context.{
  ResolvedInput, resolved_input, resolved_inputs, input_rows, is_resolved_input, is_of_run,
}
use formation_chat_core.EmailHandoff.{
  HandoffView, HandoffIds, is_trigger, by_last, store_handoff, email_input, email_run, create_new,
  create_transaction, get, create,
}

module _ (scope : Scope) (conversation_id : ℕ) (email : Text) (key hash now : ℕ) (ids : HandoffIds)
    (db after : Db) (id : ℕ) where
  -- What a first request has found, and the writes that it has done.
  pub record IsCreated : Type 0 where
    pub conversation : Conversation
    pub owned : find_first (owns scope conversation_id) db.conversations ≡ some conversation
    pub trigger : Message
    pub latest : first_by by_last (is_trigger scope conversation_id) db.messages ≡ some trigger
    pub stored :
        store_handoff scope conversation_id email key hash now ids conversation trigger db ≡ after
    pub new_id : ids.id ≡ id

  pub create_new-IsCreated :
      create_new scope conversation_id email key hash now ids db ≡ ok (after, id) → IsCreated
  unfolding create_new
  create_new-IsCreated h =
      let (c, owned, h1) = >>=-eq-ok (or_throw _ _) _ h in
      let (m, latest, h2) = >>=-eq-ok (or_throw _ _) _ h1 in
      record {
        conversation = c;
        owned = or_throw-eq-ok _ _ owned;
        trigger = m;
        latest = or_throw-eq-ok _ _ latest;
        stored = cc;
        new_id = cc;
      }

  -- The same digest under the key finds the handoff and changes nothing.
  create_transaction-retry :
      (later : ℕ) (again : HandoffIds)
      → create_transaction scope conversation_id email key hash now ids db ≡ ok (after, id)
      → create_transaction scope conversation_id email key hash later again after ≡ ok (after, id)
  unfolding create_transaction
  create_transaction-retry later again h =
      elim (Option-cases
        (find_command scope (email_handoff_create conversation_id) key db.command_idempotency)) [
          | inl missing ↦
              let c = create_new-IsCreated (rw (missing, create_transaction) at h) in
              let row =
                find_command-append scope (email_handoff_create conversation_id) key hash
                  (resource ids.id) now db.command_idempotency missing in
              let there : find_command scope (email_handoff_create conversation_id) key
                    after.command_idempotency
                  ≡ some (
                      command scope (email_handoff_create conversation_id) key hash
                        (resource ids.id) now) =
                rw (← c.stored) (unfold store_handoff in row) in
              rw (there, create_transaction) (unfold command in rw (==_refl hash, c.new_id) refl)
          | inr (row, found) ↦ elim (Bool-cases (row.request_hash == hash)) [
            | inl same ↦
                let kept : db ≡ after = ground (arith, h, found) in
                let named : resource_of row.resource_id ≡ id = ground (arith, h, found) in
                let there : find_command scope (email_handoff_create conversation_id) key
                      after.command_idempotency
                    ≡ some row =
                  rw kept at found in
                rw (there, create_transaction, same, named) refl
            | inr other ↦ ground (arith, h, found)
          ]
        ]

-- A request that is sent again with its key to the database that the first one left gets the same
-- handoff and changes nothing, whatever identifiers the repetition would have made.
pub create_retry :
    (normalize : Text → Text) (hash : Text → ℕ) (scope : Scope) (conversation_id : ℕ)
    (address : Text) (key now later : ℕ) (ids again : HandoffIds) (db after : Db)
    (view : HandoffView)
    → create normalize hash scope conversation_id address key now ids db ≡ ok (after, view)
    → create normalize hash scope conversation_id address key later again after ≡ ok (after, view)
unfolding create
create_retry normalize hash scope conversation_id address key now later ids again db after view h =
    let email = normalize address in
    let (id, done, got) =
      then_read-eq-ok (create_transaction scope conversation_id email key (hash email) now ids db)
        (λ d i. get scope conversation_id i d) h in
    let same =
      create_transaction-retry scope conversation_id email key (hash email) now ids db after id
        later again done in
    rw (same) (rw got refl)

select-append_hit :
    {A : Type 0} (p : A → Bool) (xs : List A) (x : A)
    → All (λ a. p a ≡ false) xs
    → p x ≡ true
    → select p (xs ++ x ∷ []) ≡ x ∷ []
unfolding select
select-append_hit p [] x h e = ground (arith, e)
select-append_hit p (y ∷ ys) x (h, hs) e = ground (arith, h, select-append_hit p ys x hs e)

email_input-hit :
    (scope : Scope) (conversation_id : ℕ) (ids : HandoffIds) (email : Text)
    (now trigger agent_ref : ℕ)
    → is_resolved_input
        (email_run scope conversation_id ids trigger agent_ref now)
        (email_input scope conversation_id ids email now)
      ≡ true
unfolding is_resolved_input email_run queued_run email_input is_of_run is_in
email_input-hit scope conversation_id ids email now trigger agent_ref = ground arith

other_input :
    (scope : Scope) (conversation_id : ℕ) (ids : HandoffIds) (now trigger agent_ref : ℕ)
    (row : InputRequest)
    → (row.run_id == ids.run_id) ≡ false
    → is_resolved_input (email_run scope conversation_id ids trigger agent_ref now) row ≡ false
unfolding is_resolved_input email_run queued_run
other_input scope conversation_id ids now trigger agent_ref row h = ground (arith, h)

-- The input of an address that was given at a time.
abbrev pub emailed : ℕ → Text → ℕ → ResolvedInput
emailed id email now = record {
  request_id = id;
  purpose = Purpose.agent_email_handoff;
  value = some email;
  recorded_at = now;
}

-- The run that a first request queues gets from the context exactly one resolved input, the address
-- as it was normalized, where no input was stored for the run's new identifier before.
pub create_new-resolved :
    (scope : Scope) (conversation_id c : ℕ) (cs : Text) (key hash now : ℕ) (ids : HandoffIds)
    (db after : Db) (id : ℕ) (trigger_message_id agent_ref : ℕ)
    → All (λ (row : InputRequest). (row.run_id == ids.run_id) ≡ false) db.structured_input_requests
    → create_new scope conversation_id (c ∷ cs) key hash now ids db ≡ ok (after, id)
    → resolved_inputs
        (input_rows (email_run scope conversation_id ids trigger_message_id agent_ref now) after)
      ≡ ok (emailed id (c ∷ cs) now ∷ [])
unfolding input_rows
create_new-resolved scope conversation_id c cs key hash now ids db after id trigger agent_ref fresh
      h =
    let made = create_new-IsCreated scope conversation_id (c ∷ cs) key hash now ids db after id h in
    let run = email_run scope conversation_id ids trigger agent_ref now in
    let row = email_input scope conversation_id ids (c ∷ cs) now in
    let rows : select (is_resolved_input run) after.structured_input_requests ≡ row ∷ [] =
      rw (← made.stored) (
        unfold store_handoff in
        select-append_hit (is_resolved_input run) db.structured_input_requests row
          (All-map {P = λ (a : InputRequest). (a.run_id == ids.run_id) ≡ false}
            {Q = λ (a : InputRequest). is_resolved_input run a ≡ false}
            (λ a g. other_input scope conversation_id ids now trigger agent_ref a g)
            db.structured_input_requests fresh)
          (email_input-hit scope conversation_id ids (c ∷ cs) now trigger agent_ref)) in
    rw rows
      (unfold order_by insert_row resolved_inputs resolved_input email_input in rw made.new_id refl)
