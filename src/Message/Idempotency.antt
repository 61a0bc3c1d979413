-- ===== src/Message/Idempotency.antt =====
-- apps/server/src/message/service.ts: a submission that is repeated with its idempotency key.
use formation_chat_core.Prelude.{
  ℕ, ◌≡◌, ◌≢◌, refl, none, some, List, [], ◌∷◌, ◌++◌, arith, ok, err, >>=-eq-ok, then_read-eq-ok,
  or_throw-eq-ok, Option-cases, Bool-cases, ◌==◌, ◌-◌, or_throw, inl, inr, find_first, update_where,
}
use formation_chat_core.Database.{Db}
use formation_chat_core.Database.Rows.{
  ContentPart, Command, Conversation, Participant, TriggerType, message_create, resource,
}
use formation_chat_core.Database.Statements.{
  Scope, find_command, command, find_command-append, owns,
}
use formation_chat_core.Message.{
  user_message, queued_run, Fresh, MessageView, idempotency_conflict, submit_new,
  submit_transaction, submit, get, resource_of, is_user_participant, take_sequence,
}

-- What a successful submission leaves under its key.
pub record IsRecorded (scope : Scope) (conversation_id key hash id : ℕ) (db : Db) : Type 0 where
  pub row : Command
  pub found :
      find_command scope (message_create conversation_id) key db.command_idempotency ≡ some row
  pub same_hash : row.request_hash ≡ hash
  pub same_id : resource_of row.resource_id ≡ id

module _ (scope : Scope) (conversation_id : ℕ) (parts : List ContentPart) (key hash now : ℕ)
    (fresh : Fresh) (db after : Db) (id : ℕ) where
  -- The rows that a new submission has found, and the tables that it changes.
  pub record IsSubmitted : Type 0 where
    pub conversation : Conversation
    pub owned : find_first (owns scope conversation_id) db.conversations ≡ some conversation
    pub participant : Participant
    pub joined :
        find_first (is_user_participant scope conversation_id) db.conversation_participants
        ≡ some participant
    pub bumped : Conversation
    pub updated :
        find_first
          (owns scope conversation_id)
          (update_where (owns scope conversation_id) (take_sequence now) db.conversations)
        ≡ some bumped
    pub new_id : fresh.message_id ≡ id
    pub conversations :
        update_where (owns scope conversation_id) (take_sequence now) db.conversations
        ≡ after.conversations
    pub messages :
        db.messages
          ++ user_message scope conversation_id fresh.message_id
              (bumped.next_message_sequence - 1)
              parts
              participant.participant_id
              now
            ∷ []
        ≡ after.messages
    pub runs :
        db.agent_runs
          ++ queued_run scope conversation_id fresh TriggerType.message conversation.agent_ref now
            ∷ []
        ≡ after.agent_runs
    pub commands :
        db.command_idempotency
          ++ command scope (message_create conversation_id) key hash (resource fresh.message_id) now
            ∷ []
        ≡ after.command_idempotency

  pub submit_new-IsSubmitted :
      submit_new scope conversation_id parts key hash now fresh db ≡ ok (after, id) → IsSubmitted
  unfolding submit_new
  submit_new-IsSubmitted h =
      let (c, found, h1) = >>=-eq-ok (or_throw _ _) _ h in
      let (p, joined, h2) = >>=-eq-ok (or_throw _ _) _ h1 in
      let (u, updated, h3) = >>=-eq-ok (or_throw _ _) _ h2 in
      record {
        conversation = c;
        owned = or_throw-eq-ok _ _ found;
        participant = p;
        joined = or_throw-eq-ok _ _ joined;
        bumped = u;
        updated = or_throw-eq-ok _ _ updated;
        new_id = cc;
        conversations = cc;
        messages = cc;
        runs = cc;
        commands = cc;
      }

  submit_new-IsRecorded :
      find_command scope (message_create conversation_id) key db.command_idempotency ≡ none
      → submit_new scope conversation_id parts key hash now fresh db ≡ ok (after, id)
      → IsRecorded scope conversation_id key hash id after
  unfolding command
  submit_new-IsRecorded missing h =
      let s = submit_new-IsSubmitted h in
      let row =
        command scope (message_create conversation_id) key hash (resource fresh.message_id) now in
      let found =
        find_command-append scope (message_create conversation_id) key hash
          (resource fresh.message_id) now db.command_idempotency missing in
      record { row = row; found = rw s.commands at found; same_hash = refl; same_id = s.new_id }

  pub submit_transaction-IsRecorded :
      submit_transaction scope conversation_id parts key hash now fresh db ≡ ok (after, id)
      → IsRecorded scope conversation_id key hash id after
  unfolding submit_transaction
  submit_transaction-IsRecorded h =
      elim (Option-cases
        (find_command scope (message_create conversation_id) key db.command_idempotency)) [
          | inl missing ↦ submit_new-IsRecorded missing (rw (missing, submit_transaction) at h)
          | inr (row, found) ↦ elim (Bool-cases (row.request_hash == hash)) [
            | inl same ↦
                let kept : db ≡ after = ground arith in
                record {
                  row = row;
                  found = rw kept at found;
                  same_hash = ground arith;
                  same_id = ground arith;
                }
            | inr other ↦ ground (arith, found)
          ]
        ]

module _ (hash : List ContentPart → ℕ) (scope : Scope) (conversation_id : ℕ) where
  -- A submission that succeeds is its transaction, then the message read from what that left.
  pub submit_inv :
      (parts : List ContentPart) (key now : ℕ) (fresh : Fresh) (db after : Db)
      (message : MessageView)
      → submit hash scope conversation_id parts key now fresh db ≡ ok (after, message)
      → (id : ℕ) × (submit_transaction scope conversation_id parts key (hash parts) now fresh db
          ≡ ok (after, id))
        × (get scope conversation_id id after ≡ ok message)
  unfolding submit
  submit_inv parts key now fresh db after message h =
      then_read-eq-ok (submit_transaction scope conversation_id parts key (hash parts) now fresh db)
        (λ d id. get scope conversation_id id d) h

  -- The retry of a submission that has an `IsRecorded` row under its key.
  submit-recorded :
      (parts : List ContentPart) (key now id : ℕ) (fresh : Fresh) (db : Db)
      → IsRecorded scope conversation_id key (hash parts) id db
      → submit_transaction scope conversation_id parts key (hash parts) now fresh db ≡ ok (db, id)
  unfolding submit_transaction
  submit-recorded parts key now id fresh db r =
      rw (r.found, submit_transaction) (ground (arith, r.same_hash, r.same_id))

  -- A submission that is sent again with its key to the database that the first one left, whenever and
  -- whatever identifiers the retry would have made, returns the message of the first one and changes
  -- nothing.
  pub submit_retry :
      (parts : List ContentPart) (key now later : ℕ) (fresh again : Fresh) (db after : Db)
      (message : MessageView)
      → submit hash scope conversation_id parts key now fresh db ≡ ok (after, message)
      → submit hash scope conversation_id parts key later again after ≡ ok (after, message)
  unfolding submit
  submit_retry parts key now later fresh again db after message h =
      let (id, done, got) = submit_inv parts key now fresh db after message h in
      let recorded =
        submit_transaction-IsRecorded scope conversation_id parts key (hash parts) now fresh db
          after id done in
      rw (submit-recorded parts key later id again after recorded) (rw got)

  -- On the database that a submission left, its key sent with other parts, of another digest, is
  -- refused.
  pub submit_conflict :
      (parts others : List ContentPart) (key now later : ℕ) (fresh again : Fresh) (db after : Db)
      (message : MessageView)
      → submit hash scope conversation_id parts key now fresh db ≡ ok (after, message)
      → hash others ≢ hash parts
      → submit hash scope conversation_id others key later again after ≡ err idempotency_conflict
  unfolding submit submit_transaction
  submit_conflict parts others key now later fresh again db after message h other =
      let (id, done, got) = submit_inv parts key now fresh db after message h in
      let r =
        submit_transaction-IsRecorded scope conversation_id parts key (hash parts) now fresh db
          after id done in
      rw (r.found, submit_transaction) (ground (arith, r.same_hash, other))
