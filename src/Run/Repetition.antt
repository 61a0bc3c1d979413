-- ===== src/Run/Repetition.antt =====
-- apps/server/src/run/worker.ts, `materialize`: the events that another attempt of a run repeats.
use formation_chat_core.Prelude.{
  ℕ, ◌-◌, ◌≡◌, refl, sym, ap, ◌∙◌, ◌>>◌, subst, Bool, true, false, some, List, [], ◌∷◌, ◌++◌, arith,
  Result, ok, >>=-eq-ok, or_throw, Option-cases, Bool-cases, inl, inr, any, ◌==◌, ==_refl,
  find_first, find_first-append, update_where, guard, ok_injective, count_where,
  count_where-update_where, update_where-update_where, any-find_first, find_first-update_where,
  Option, none, guard-eq-ok, or_throw-eq-ok,
}
use formation_chat_core.Database.{Db}
use formation_chat_core.Database.Rows.{
  EventBody, message_started, message_completed, contact_requested, handoff_requested,
  handoff_completed, Handoff, HandoffStatus, Run, Message, MessageStatus, ContentPart,
  ContactRequest, InputRequest,
}
use formation_chat_core.Message.{take_sequence}
use formation_chat_core.Run.{
  WorkerError, no_result, message_not_started, handoff_not_requested, input_of_another_run,
}
use formation_chat_core.Run.Materialize.{
  materialize, start_message, request_handoff, is_message_id, has_handoff_id, requested_handoff,
  is_conversation_of, assistant_message, is_assistant_message, complete_message, is_handoff_of,
  complete_handoff, request_contact, insert_input,
}

any-append_hit :
    {A : Type 0} (p : A → Bool) (xs : List A) (x : A) → p x ≡ true → any p (xs ++ x ∷ []) ≡ true
unfolding any
any-append_hit p [] x h = ground (arith, h)
any-append_hit p (y ∷ ys) x h = ground (arith, any-append_hit p ys x h)

-- The state with the time of the row that an event changes moved on: an event that only inserts, and
-- one that writes nothing, moves none.
abbrev pub retime_handoff : Option Handoff → ℕ → Db → Db
retime_handoff none now db = db
retime_handoff (some handoff) now db = record db {
  handoffs =
      update_where (has_handoff_id handoff.handoff_id) (λ row. record row { updated_at = now })
        db.handoffs;
}

abbrev pub retimed : Run → EventBody → ℕ → Db → Db
retimed run (message_completed _) now db = record db {
  messages =
      update_where (is_assistant_message run) (λ row. record row { completed_at = some now })
        db.messages;
}
retimed run (contact_requested _) now db =
    retime_handoff (find_first (λ (row : Handoff). row.run_id == run.run_id) db.handoffs) now db
retimed run (handoff_completed id) now db = record db {
  handoffs =
      update_where (is_handoff_of run id) (λ row. record row { updated_at = now }) db.handoffs;
}
retimed run _ now db = db

update_where_same :
    {A : Type 0} (p : A → Bool) (f g : A → A)
    → ((a : A) → f a ≡ g a)
    → (rows : List A) → update_where p f rows ≡ update_where p g rows
unfolding update_where
update_where_same p f g same [] = refl
update_where_same p f g same (r ∷ rows) = ground (arith, same r, update_where_same p f g same rows)

guarded :
    {A : Type 0} (b : Bool) (e : WorkerError) (next : Result WorkerError A)
    → b ≡ true
    → (guard b e >> next) ≡ next
guarded true e next h = refl
guarded false e next h = cc

-- An update whose test it leaves alone, made twice.
module _ {A : Type 0} (p : A → Bool) (set : A → A) where
  again-guarded :
      (rows : List A)
      → ((a : A) → p (set a) ≡ p a)
      → (count_where p rows == 1) ≡ true
      → (count_where p (update_where p set rows) == 1) ≡ true
  again-guarded rows same once =
      ap (λ (n : ℕ). n == 1) (count_where-update_where p set rows same) ∙ once

  again-updated :
      (set_later move : A → A) (rows : List A)
      → ((a : A) → p (set a) ≡ p a)
      → ((a : A) → set_later (set a) ≡ move (set a))
      → update_where p set_later (update_where p set rows)
        ≡ update_where p move (update_where p set rows)
  again-updated set_later move rows same moved =
      update_where-update_where p set set_later rows same
      ∙ update_where_same p (λ a. set_later (set a)) (λ a. move (set a)) moved rows
      ∙ sym (update_where-update_where p set move rows same)

module _ (run : Run) (participant_id : ℕ) (now later : ℕ) (db after : Db) where
  start_message-again :
      start_message run participant_id now db ≡ ok after
      → start_message run participant_id later after ≡ ok after
  unfolding start_message
  start_message-again h =
      elim (Bool-cases (any (is_message_id run.assistant_message_id) db.messages)) [
        | inl there ↦
            let kept : db ≡ after = ground (arith, h) in
            subst (λ (d : Db). start_message run participant_id later d ≡ ok d) kept
              (rw (there, start_message) refl)
        | inr missing ↦
            let conversations =
              update_where (is_conversation_of run) (take_sequence now) db.conversations in
            let (c, found, e) =
              >>=-eq-ok (or_throw (find_first (is_conversation_of run) conversations) no_result) _
                (rw (missing, start_message) at h) in
            let messages : db.messages
                  ++ assistant_message run participant_id (c.next_message_sequence - 1) now ∷ []
                ≡ after.messages =
              cc in
            let there : any (is_message_id run.assistant_message_id) after.messages ≡ true =
              rw (← messages) (
                any-append_hit _ db.messages _
                  (unfold assistant_message in ==_refl run.assistant_message_id)) in
            rw (there, start_message) refl
      ]

  request_handoff-again :
      (id : ℕ)
      → request_handoff run id now db ≡ ok after
      → request_handoff run id later after ≡ ok after
  unfolding request_handoff
  request_handoff-again id h = elim (Option-cases (find_first (has_handoff_id id) db.handoffs)) [
    | inr (row, found) ↦ elim (Bool-cases (row.run_id == run.run_id)) [
      | inl own ↦
          let kept : db ≡ after = ground (arith, h, found) in
          subst (λ (d : Db). request_handoff run id later d ≡ ok d) kept
            (rw (found, request_handoff, own) refl)
      | inr other ↦ ground (arith, h, found)
    ]
    | inl missing ↦
        elim (Bool-cases (any (λ (row : Handoff). row.run_id == run.run_id) db.handoffs)) [
          | inl e ↦ ground (arith, h, missing)
          | inr e ↦
              let given : ◌≡◌ {A = Result WorkerError Db}
                  (ok (record db { handoffs = db.handoffs ++ requested_handoff run id now ∷ [] }))
                  (ok after) =
                rw (missing, request_handoff, e) at h in
              let handoffs : db.handoffs ++ requested_handoff run id now ∷ [] ≡ after.handoffs =
                cc in
              let there : find_first (has_handoff_id id) after.handoffs
                  ≡ some (requested_handoff run id now) =
                rw (← handoffs) (
                  find_first-append (has_handoff_id id) db.handoffs (requested_handoff run id now)
                    missing (unfold requested_handoff in ==_refl id)) in
              rw (there, request_handoff) (unfold requested_handoff in rw (==_refl run.run_id) refl)
        ]
  ]

  complete_message-again :
      (parts : List ContentPart)
      → complete_message run parts now db ≡ ok after
      → complete_message run parts later after
        ≡ ok (retimed run (message_completed parts) later after)
  unfolding complete_message is_assistant_message
  complete_message-again parts h =
      let (_, once, e) =
        >>=-eq-ok
          (guard (count_where (is_assistant_message run) db.messages == 1) message_not_started) _
          h in
      let counted =
        again-guarded (is_assistant_message run)
          (λ (row : Message). record row {
            status = MessageStatus.completed;
            parts = parts;
            completed_at = some now;
          })
          db.messages (λ row. refl) (guard-eq-ok _ message_not_started once) in
      let twice =
        again-updated (is_assistant_message run)
          (λ (row : Message). record row {
            status = MessageStatus.completed;
            parts = parts;
            completed_at = some now;
          })
          (λ (row : Message). record row {
            status = MessageStatus.completed;
            parts = parts;
            completed_at = some later;
          })
          (λ (row : Message). record row { completed_at = some later }) db.messages (λ row. refl)
          (λ row. refl) in
      subst
        (λ (d : Db).
          complete_message run parts later d ≡ ok (retimed run (message_completed parts) later d))
        (ok_injective _ after e)
        (guarded _ message_not_started _ counted
          ∙ ap (λ (ms : List Message). ok (record db { messages = ms })) twice)

  complete_handoff-again :
      (id : ℕ)
      → complete_handoff run id now db ≡ ok after
      → complete_handoff run id later after ≡ ok (retimed run (handoff_completed id) later after)
  unfolding complete_handoff is_handoff_of
  complete_handoff-again id h =
      let (_, once, e) =
        >>=-eq-ok
          (guard (count_where (is_handoff_of run id) db.handoffs == 1) handoff_not_requested) _ h in
      let counted =
        again-guarded (is_handoff_of run id)
          (λ (row : Handoff). record row { status = HandoffStatus.completed; updated_at = now })
          db.handoffs (λ row. refl) (guard-eq-ok _ handoff_not_requested once) in
      let twice =
        again-updated (is_handoff_of run id)
          (λ (row : Handoff). record row { status = HandoffStatus.completed; updated_at = now })
          (λ (row : Handoff). record row { status = HandoffStatus.completed; updated_at = later })
          (λ (row : Handoff). record row { updated_at = later }) db.handoffs (λ row. refl)
          (λ row. refl) in
      subst
        (λ (d : Db).
          complete_handoff run id later d ≡ ok (retimed run (handoff_completed id) later d))
        (ok_injective _ after e)
        (guarded _ handoff_not_requested _ counted
          ∙ ap (λ (hs : List Handoff). ok (record db { handoffs = hs })) twice)

module _ (run : Run) (request : ContactRequest) where
  abbrev is_own : Handoff → Bool
  is_own row = row.run_id == run.run_id

  abbrev is_asked : InputRequest → Bool
  is_asked row = row.request_id == request.request_id

  abbrev awaiting : ℕ → Handoff → Handoff
  awaiting now row = record row { status = HandoffStatus.awaiting_contact; updated_at = now }

  abbrev asked_for : ℕ → List InputRequest → Handoff → Db → Db
  asked_for now inputs handoff db = record db {
    structured_input_requests = inputs;
    handoffs = update_where (has_handoff_id handoff.handoff_id) (awaiting now) db.handoffs;
  }

  request_contact-found :
      (now : ℕ) (db : Db) (inputs : List InputRequest) (handoff : Handoff) (input : InputRequest)
      → find_first is_own db.handoffs ≡ some handoff
      → insert_input run request now db.structured_input_requests ≡ inputs
      → find_first is_asked inputs ≡ some input
      → (input.run_id == run.run_id) ≡ true
      → request_contact run request now db ≡ ok (asked_for now inputs handoff db)
  unfolding request_contact
  request_contact-found now db inputs handoff input found same there ours =
      rw (found, request_contact) (rw same (rw there (rw ours refl)))

  insert_input-again :
      (now : ℕ) (inputs : List InputRequest) (input : InputRequest)
      → find_first is_asked inputs ≡ some input
      → insert_input run request now inputs ≡ inputs
  unfolding insert_input
  insert_input-again now inputs input there = rw (any-find_first is_asked inputs input there) refl

  request_contact-again :
      (now later : ℕ) (db after : Db)
      → request_contact run request now db ≡ ok after
      → request_contact run request later after
        ≡ ok (retimed run (contact_requested request) later after)
  unfolding request_contact
  request_contact-again now later db after h =
      let (handoff, got, h1) = >>=-eq-ok (or_throw (find_first is_own db.handoffs) no_result) _ h in
      let inputs = insert_input run request now db.structured_input_requests in
      let (input, read, h2) = >>=-eq-ok (or_throw (find_first is_asked inputs) no_result) _ h1 in
      let (_, ours, e) = >>=-eq-ok (guard (input.run_id == run.run_id) input_of_another_run) _ h2 in
      let there = or_throw-eq-ok _ no_result read in
      let own = has_handoff_id handoff.handoff_id in
      let found : find_first is_own (update_where own (awaiting now) db.handoffs)
          ≡ some (awaiting now handoff) =
        find_first-update_where is_own own (awaiting now) db.handoffs (λ row. refl)
        ∙ (rw (or_throw-eq-ok _ no_result got) (rw (==_refl handoff.handoff_id) refl)) in
      let twice =
        again-updated own (awaiting now) (awaiting later)
          (λ (row : Handoff). record row { updated_at = later }) db.handoffs (λ row. refl)
          (λ row. refl) in
      let first : Db = asked_for now inputs handoff db in
      subst
        (λ (d : Db).
          request_contact run request later d
          ≡ ok (retimed run (contact_requested request) later d))
        (ok_injective first after e)
        (request_contact-found later first inputs (awaiting now handoff) input found
            (insert_input-again later inputs input there) there
            (guard-eq-ok _ input_of_another_run ours)
          ∙ ap (λ (hs : List Handoff). ok (record first { handoffs = hs })) twice
          ∙ sym (ap (λ (o : Option Handoff). ok (retime_handoff o later first)) found))

-- Another attempt of a run that repeats an event, whichever it is and at any later time, succeeds and
-- inserts no row a second time: it leaves every table as the first left it, but for the time of the
-- row that a completed message, a request for contact or a completed handoff changes.
pub materialize-again :
    (run : Run) (participant_id : ℕ) (body : EventBody) (now later : ℕ) (db after : Db)
    → materialize run participant_id body now db ≡ ok after
    → materialize run participant_id body later after ≡ ok (retimed run body later after)
unfolding materialize
materialize-again run p message_started now later db after h =
    start_message-again run p now later db after h
materialize-again run p (handoff_requested id) now later db after h =
    request_handoff-again run p now later db after id h
materialize-again run p (message_completed parts) now later db after h =
    complete_message-again run p now later db after parts h
materialize-again run p (contact_requested request) now later db after h =
    request_contact-again run request now later db after h
materialize-again run p (handoff_completed id) now later db after h =
    complete_handoff-again run p now later db after id h
materialize-again run p _ now later db after h = refl
