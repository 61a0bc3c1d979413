-- ===== src/Message/Sequences.antt =====
-- apps/server/src/message/service.ts: the sequences of messages, and what a new submission makes.
use formation_chat_core.Prelude.{
  ℕ, ◌-◌, ◌≡◌, refl, ap, true, none, some, List, [], ◌∷◌, ◌++◌, arith, ok, Option-cases, inl, inr,
  find_first, update_where, find_first-update_where, find_first_sound, find_first-append,
}
use formation_chat_core.Database.{Db}
use formation_chat_core.Database.Rows.{
  ContentPart, Conversation, Message, Participant, Run, message_create, Role, MessageStatus,
  TriggerType, RunStatus,
}
use formation_chat_core.Database.Statements.{Scope, owns, find_command, is_in}
use formation_chat_core.Database.Sequences.{IsSequenced, append-IsSequenced}
use formation_chat_core.Message.{
  Fresh, store, MessageView, submit_new, submit_transaction, submit, get, is_user_participant,
  take_sequence, user_message, queued_run, is_message, map_message, require_conversation,
}
use formation_chat_core.Message.Idempotency.{submit_new-IsSubmitted, submit_inv}

-- Every message of the database is below the counter of its conversation, and no two messages of a
-- conversation have one sequence.
abbrev pub MessagesSequenced : Db → Type 0
MessagesSequenced db =
    IsSequenced (λ (m : Message). m.conversation_id) (λ m. m.sequence)
      (λ c. c.next_message_sequence) db.conversations db.messages

owns-keyed :
    (scope : Scope) (id : ℕ) (c : Conversation) → owns scope id c ≡ true → c.conversation_id ≡ id
unfolding owns
owns-keyed scope id c h = ground arith

owns-take_sequence :
    (scope : Scope) (id now : ℕ) (c : Conversation)
    → owns scope id (take_sequence now c) ≡ owns scope id c
unfolding owns take_sequence
owns-take_sequence scope id now c = refl

-- The row that the counter's update returns is the row that was found, moved on.
pub updated-take_sequence :
    (scope : Scope) (id now : ℕ) (c u : Conversation) (cs : List Conversation)
    → find_first (owns scope id) cs ≡ some c
    → find_first (owns scope id) (update_where (owns scope id) (take_sequence now) cs) ≡ some u
    → take_sequence now c ≡ u
updated-take_sequence scope id now c u cs found updated =
    let e =
      find_first-update_where (owns scope id) (owns scope id) (take_sequence now) cs
        (owns-take_sequence scope id now) in
    let hit = find_first_sound (owns scope id) cs c found in ground (arith, e, found, updated, hit)

-- A message with the sequence that its conversation's counter gives keeps the messages in sequence.
pub append-MessagesSequenced :
    (scope : Scope) (id now : ℕ) (c u : Conversation) (m : Message) (db : Db)
    → find_first (owns scope id) db.conversations ≡ some c
    → find_first (owns scope id) (update_where (owns scope id) (take_sequence now) db.conversations)
      ≡ some u
    → m.conversation_id ≡ id
    → m.sequence ≡ u.next_message_sequence - 1
    → MessagesSequenced db
    → IsSequenced
        (λ (x : Message). x.conversation_id)
        (λ x. x.sequence)
        (λ x. x.next_message_sequence)
        (update_where (owns scope id) (take_sequence now) db.conversations)
        (db.messages ++ m ∷ [])
unfolding take_sequence
append-MessagesSequenced scope id now c u m db found updated conv seq s =
    let bump = updated-take_sequence scope id now c u db.conversations found updated in
    append-IsSequenced (λ (x : Message). x.conversation_id) (λ x. x.sequence)
      (λ x. x.next_message_sequence) (owns scope id) (take_sequence now) id (owns-keyed scope id)
      (λ x. refl) (λ x. refl) c m db.conversations db.messages found conv
      (omega (arith, seq, ap (λ (x : Conversation). x.next_message_sequence) bump)) s

module _ (hash : List ContentPart → ℕ) (scope : Scope) (conversation_id : ℕ)
    (parts : List ContentPart) (key now : ℕ) (fresh : Fresh) (db after : Db) where
  submit_new-MessagesSequenced :
      (id : ℕ)
      → submit_new scope conversation_id parts key (hash parts) now fresh db ≡ ok (after, id)
      → MessagesSequenced db
      → MessagesSequenced after
  unfolding user_message
  submit_new-MessagesSequenced id h s =
      let t =
        submit_new-IsSubmitted scope conversation_id parts key (hash parts) now fresh db after id
          h in
      let m =
        user_message scope conversation_id fresh.message_id (t.bumped.next_message_sequence - 1)
          parts t.participant.participant_id now in
      let sequenced =
        append-MessagesSequenced scope conversation_id now t.conversation t.bumped m db t.owned
          t.updated refl refl s in
      rw (t.conversations, t.messages) at sequenced

  submit_transaction-MessagesSequenced :
      (id : ℕ)
      → submit_transaction scope conversation_id parts key (hash parts) now fresh db
        ≡ ok (after, id)
      → MessagesSequenced db
      → MessagesSequenced after
  unfolding submit_transaction
  submit_transaction-MessagesSequenced id h s =
      elim (Option-cases
        (find_command scope (message_create conversation_id) key db.command_idempotency)) [
          | inl missing ↦ submit_new-MessagesSequenced id (rw (missing, submit_transaction) at h) s
          | inr (row, found) ↦ let kept : db ≡ after = ground (arith, found) in rw (← kept) s
        ]

  -- Submitting keeps the messages of every conversation in sequence: below the counter, all different.
  pub submit-MessagesSequenced :
      (message : MessageView)
      → submit hash scope conversation_id parts key now fresh db ≡ ok (after, message)
      → MessagesSequenced db
      → MessagesSequenced after
  submit-MessagesSequenced message h s =
      let (id, done, got) =
        submit_inv hash scope conversation_id parts key now fresh db after message h in
      submit_transaction-MessagesSequenced id done s

-- What a first submission returns and leaves: the message, and the run that it queues.
pub record IsFirst (scope : Scope) (conversation_id : ℕ) (parts : List ContentPart) (fresh : Fresh)
    (c : Conversation) (p : Participant) (db after : Db) (message : MessageView) : Type 0 where
  pub message_id : message.message_id ≡ fresh.message_id
  pub sequence : message.sequence ≡ c.next_message_sequence
  pub same_parts : message.parts ≡ parts
  pub sender : message.participant_id ≡ p.participant_id
  pub by_user : message.role ≡ Role.user
  pub completed : message.status ≡ MessageStatus.completed
  pub run : Run
  pub runs : after.agent_runs ≡ db.agent_runs ++ run ∷ []
  pub queued : run.status ≡ RunStatus.queued
  pub triggered : run.trigger_message_id ≡ fresh.message_id
  pub agent : run.agent_ref ≡ c.agent_ref
  pub never_claimed : run.attempt ≡ 0

module _ (hash : List ContentPart → ℕ) (scope : Scope) (conversation_id : ℕ)
    (parts : List ContentPart) (key now : ℕ) (fresh : Fresh) (db : Db) (c : Conversation)
    (p : Participant) where
  -- A first submission to a conversation of the caller succeeds: it stores the message under the
  -- conversation's next sequence, and queues a run for it.
  pub submit-IsFirst :
      find_command scope (message_create conversation_id) key db.command_idempotency ≡ none
      → find_first (owns scope conversation_id) db.conversations ≡ some c
      → find_first (is_user_participant scope conversation_id) db.conversation_participants ≡ some p
      → find_first (is_message scope conversation_id fresh.message_id) db.messages ≡ none
      → (after : Db) × (message : MessageView) × (submit hash scope conversation_id parts key now
            fresh db
          ≡ ok (after, message))
        × IsFirst scope conversation_id parts fresh c p db after message
  unfolding submit submit_transaction submit_new get require_conversation
  submit-IsFirst unseen owned joined unused =
      let u = take_sequence now c in
      let conversations =
        update_where (owns scope conversation_id) (take_sequence now) db.conversations in
      let updated : find_first (owns scope conversation_id) conversations ≡ some u = ground (
        arith,
        find_first-update_where (owns scope conversation_id) (owns scope conversation_id)
            (take_sequence now) db.conversations (owns-take_sequence scope conversation_id now),
        owned,
        find_first_sound (owns scope conversation_id) db.conversations c owned,
      ) in
      let m =
        user_message scope conversation_id fresh.message_id (u.next_message_sequence - 1) parts
          p.participant_id now in
      let stored : find_first (is_message scope conversation_id fresh.message_id)
            (db.messages ++ m ∷ [])
          ≡ some m =
        find_first-append (is_message scope conversation_id fresh.message_id) db.messages m unused
          (unfold is_message user_message is_in in ground arith) in
      let after = store scope conversation_id parts key (hash parts) now fresh c p u db in
      (
        after,
        map_message m,
        unfold store in ground (arith, unseen, owned, joined, updated, stored),
        unfold store map_message user_message queued_run take_sequence in
            record {
              message_id = refl;
              sequence = omega arith;
              same_parts = refl;
              sender = refl;
              by_user = refl;
              completed = refl;
              run = queued_run scope conversation_id fresh TriggerType.message c.agent_ref now;
              runs = refl;
              queued = refl;
              triggered = refl;
              agent = refl;
              never_claimed = refl;
            },
      )
