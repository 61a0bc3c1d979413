-- ===== src/StructuredInput/Answers.antt =====
-- apps/server/src/structured-input/service.ts: an answer that is repeated, and a second answer.
use formation_chat_core.Prelude.{
  ℕ, ◌≡◌, refl, ◌∙◌, subst, true, false, none, some, arith, ok, err, >>=-eq-ok, or_throw,
  or_throw-eq-ok, Option-cases, Bool-cases, inl, inr, find_first, count_where, ◌==◌, ==_refl,
  find_first-update_where, find_first_sound, if◌then◌else◌,
}
use formation_chat_core.Database.{Db}
use formation_chat_core.Database.Rows.{Conversation, InputRequest, resource, input_submit}
use formation_chat_core.Database.Statements.{
  Scope, owns, find_command, command, find_command-append,
}
use formation_chat_core.StructuredInput.{
  SubmitRequest, submitted, declined, InputView, is_input, has_request_id, is_pending, resolve,
  is_waiting_run, store_answer, submit_new, submit_transaction, get, submit, input_already_resolved,
  idempotency_conflict,
}

is_input-same :
    (scope : Scope) (conversation_id request_id : ℕ) (row : InputRequest)
    → is_input scope conversation_id request_id row ≡ true
    → row.request_id ≡ request_id
unfolding is_input
is_input-same scope conversation_id request_id row h = ground arith

is_input-resolve :
    (scope : Scope) (conversation_id request_id : ℕ) (request : SubmitRequest) (now : ℕ)
    (row : InputRequest)
    → is_input scope conversation_id request_id (resolve request now row)
      ≡ is_input scope conversation_id request_id row
unfolding is_input resolve
is_input-resolve scope conversation_id request_id (submitted value) now row = refl
is_input-resolve scope conversation_id request_id declined now row = refl

resolve-pending :
    (request : SubmitRequest) (now : ℕ) (row : InputRequest)
    → is_pending (resolve request now row).status ≡ false
unfolding resolve
resolve-pending (submitted value) now row = refl
resolve-pending declined now row = refl

module _ (scope : Scope) (conversation_id request_id : ℕ) (request : SubmitRequest)
    (key hash now : ℕ) (db after : Db) where
  -- What a first answer has found, and the writes that it has done.
  pub record IsAnswered : Type 0 where
    pub conversation : Conversation
    pub owned : find_first (owns scope conversation_id) db.conversations ≡ some conversation
    pub input : InputRequest
    pub found :
        find_first (is_input scope conversation_id request_id) db.structured_input_requests
        ≡ some input
    pub pending : is_pending input.status ≡ true
    pub waiting : (count_where (is_waiting_run input.run_id) db.agent_runs == 1) ≡ true
    pub stored : store_answer scope conversation_id request key hash now input db ≡ after

  pub submit_new-IsAnswered :
      submit_new scope conversation_id request_id request key hash now db ≡ ok after → IsAnswered
  unfolding submit_new
  submit_new-IsAnswered h =
      let (c, owned, h1) = >>=-eq-ok (or_throw _ _) _ h in
      let (i, found, h2) = >>=-eq-ok (or_throw _ _) _ h1 in
      record {
        conversation = c;
        owned = or_throw-eq-ok _ _ owned;
        input = i;
        found = or_throw-eq-ok _ _ found;
        pending = ground (arith, h2);
        waiting = ground (arith, h2);
        stored = ground (arith, h2);
      }

  answered-id : (a : IsAnswered) → a.input.request_id ≡ request_id
  answered-id a =
      is_input-same scope conversation_id request_id a.input
        (find_first_sound _ db.structured_input_requests a.input a.found)

  recorded :
      find_command scope (input_submit conversation_id request_id) key db.command_idempotency ≡ none
      → (a : IsAnswered)
      → find_command scope (input_submit conversation_id request_id) key after.command_idempotency
        ≡ some (
            command scope
              (input_submit conversation_id request_id)
              key
              hash
              (resource request_id)
              now)
  recorded missing a =
      let row =
        find_command-append scope (input_submit conversation_id request_id) key hash
          (resource request_id) now db.command_idempotency missing in
      rw (← a.stored) (unfold store_answer in rw (answered-id a) row)

  -- An answer whose key is recorded with its hash changes nothing.
  pub submit_transaction-retry :
      (later : ℕ)
      → submit_transaction scope conversation_id request_id request key hash now db ≡ ok after
      → submit_transaction scope conversation_id request_id request key hash later after ≡ ok after
  unfolding submit_transaction
  submit_transaction-retry later h =
      elim (Option-cases
        (find_command scope (input_submit conversation_id request_id) key db.command_idempotency)) [
          | inl missing ↦
              let new : submit_new scope conversation_id request_id request key hash now db
                  ≡ ok after =
                rw (missing, submit_transaction) at h in
              let there = recorded missing (submit_new-IsAnswered new) in
              rw (there, submit_transaction) (unfold command in (rw (==_refl hash) refl))
          | inr (row, found) ↦
              let same : (if row.request_hash == hash then ok db else err idempotency_conflict)
                  ≡ ok after =
                rw (found, submit_transaction) at h in
              elim (Bool-cases (row.request_hash == hash)) [
                | inl e ↦
                    let kept : db ≡ after = ground arith in
                    let again : submit_transaction scope conversation_id request_id request key hash
                          later db
                        ≡ ok db =
                      rw (found, submit_transaction, e) refl in
                    subst
                      (λ (d : Db).
                        submit_transaction scope conversation_id request_id request key hash later d
                        ≡ ok d)
                      kept again
                | inr e ↦ ground (arith, found)
              ]
        ]

-- An answer that is sent again with its key to the database that the first one left gets the same
-- reply and changes nothing.
pub input_retry :
    (hash : SubmitRequest → ℕ) (scope : Scope) (conversation_id request_id : ℕ)
    (request : SubmitRequest) (key now later : ℕ) (db after : Db) (view : InputView)
    → submit hash scope conversation_id request_id request key now db ≡ ok (after, view)
    → submit hash scope conversation_id request_id request key later after ≡ ok (after, view)
unfolding submit
input_retry hash scope conversation_id request_id request key now later db after view h =
    let (m, done, e) =
      >>=-eq-ok
        (submit_transaction scope conversation_id request_id request key (hash request) now db) _
        h in
    let (v, read, e') = >>=-eq-ok (get scope conversation_id request_id m) _ e in
    let kept : m ≡ after = cc in
    let same : v ≡ view = cc in
    let first : submit_transaction scope conversation_id request_id request key (hash request) now
          db
        ≡ ok after =
      done ∙ cc in
    let again =
      submit_transaction-retry scope conversation_id request_id request key (hash request) now db
        after later first in
    let shown : get scope conversation_id request_id after ≡ ok view = rw (← kept, ← same) read in
    rw (again, shown) refl

-- A request is answered once: on the database that a first answer left, one with any key that is not
-- recorded, whatever it says, is refused.
pub submit-once :
    (scope : Scope) (conversation_id request_id : ℕ) (request other : SubmitRequest)
    (key hash now key' hash' later : ℕ) (db after : Db)
    → submit_new scope conversation_id request_id request key hash now db ≡ ok after
    → find_command scope (input_submit conversation_id request_id) key' after.command_idempotency
      ≡ none
    → submit_transaction scope conversation_id request_id other key' hash' later after
      ≡ err input_already_resolved
unfolding submit_transaction submit_new
submit-once scope conversation_id request_id request other key hash now key' hash' later db after h
      missing =
    let a =
      submit_new-IsAnswered scope conversation_id request_id request key hash now db after h in
    let owned : find_first (owns scope conversation_id) after.conversations ≡ some a.conversation =
      rw (← a.stored) (unfold store_answer in a.owned) in
    let resolved : find_first (is_input scope conversation_id request_id)
          after.structured_input_requests
        ≡ some (resolve request now a.input) =
      let updated =
        find_first-update_where (is_input scope conversation_id request_id)
          (has_request_id a.input.request_id) (resolve request now) db.structured_input_requests
          (is_input-resolve scope conversation_id request_id request now) in
      let own : has_request_id a.input.request_id a.input ≡ true = ==_refl a.input.request_id in
      rw (← a.stored) (unfold store_answer in (updated ∙ rw (a.found, own) refl)) in
    rw (missing, submit_transaction, owned, resolved, resolve-pending request now a.input) refl
