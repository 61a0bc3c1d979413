-- ===== src/Event/Retention.antt =====
-- apps/server/src/event/store.ts: the sequences of events, and how many of them the store keeps.
use formation_chat_core.Prelude.{
  ℕ, ◌+◌, ◌-◌, ◌≤◌, ◌<◌, ◌≡◌, refl, sym, ap, ◌∙◌, true, not, some, List, [], ◌∷◌, ◌++◌, arith, ok,
  >>=-eq-ok, or_throw, or_throw-eq-ok, Bool-cases, inl, inr, length, select, find_first,
  update_where, All, All-map, All-select_hit, find_first_sound, find_updated, HaveDistinctKeys,
  All-find_first, length-window, All-append,
}
use formation_chat_core.Database.{Db}
use formation_chat_core.Database.Rows.{Conversation, Event}
use formation_chat_core.Database.Statements.{Scope, owns, is_in}
use formation_chat_core.Database.Sequences.{
  IsSequenced, append-IsSequenced, select-IsSequenced, HaveDistinctSequences,
}
use formation_chat_core.Event.{
  ConnectorEvent, EventView, append, take_event_sequence, stored_event, is_event_of,
  is_out_of_window, persisted,
}

-- Every stored event is below the counter of its conversation, and no two events of a conversation
-- have one sequence.
abbrev pub EventsSequenced : Db → Type 0
EventsSequenced db =
    IsSequenced (λ (e : Event). e.conversation_id) (λ e. e.sequence) (λ c. c.next_event_sequence)
      db.conversations db.conversation_events

owns-keyed :
    (scope : Scope) (id : ℕ) (c : Conversation) → owns scope id c ≡ true → c.conversation_id ≡ id
unfolding owns
owns-keyed scope id c h = ground arith

-- What an append has found and written.
pub record IsAppended (max_events : ℕ) (scope : Scope) (event : ConnectorEvent) (event_id at : ℕ)
    (db after : Db) (view : EventView) : Type 0 where
  pub conversation : Conversation
  pub owned : find_first (owns scope event.conversation_id) db.conversations ≡ some conversation
  pub viewed : view ≡ persisted event event_id conversation.next_event_sequence at
  pub conversations :
      after.conversations
      ≡ update_where (owns scope event.conversation_id) take_event_sequence db.conversations
  pub events :
      after.conversation_events
      ≡ select
          (λ row. not (
            is_out_of_window max_events scope event.conversation_id conversation.next_event_sequence
              row))
          (db.conversation_events
            ++ stored_event scope event event_id conversation.next_event_sequence at ∷ [])

module _ (max_events : ℕ) (scope : Scope) (event : ConnectorEvent) (event_id at : ℕ) (db after : Db)
    (view : EventView) where
  pub append-IsAppended :
      append max_events scope event event_id at db ≡ ok (after, view)
      → IsAppended max_events scope event event_id at db after view
  unfolding append
  append-IsAppended h =
      let (u, found, h1) = >>=-eq-ok (or_throw _ _) _ h in
      let (c, owned, moved) =
        find_updated (owns scope event.conversation_id) take_event_sequence db.conversations u
          (λ a. unfold owns take_event_sequence in refl) (or_throw-eq-ok _ _ found) in
      let seq : u.next_event_sequence - 1 ≡ c.next_event_sequence =
        unfold take_event_sequence in
        omega (arith, ap (λ (x : Conversation). x.next_event_sequence) moved) in
      record {
        conversation = c;
        owned = owned;
        viewed = rw (← seq) (cc);
        conversations = cc;
        events = rw (← seq) (cc);
      }

  -- Appending keeps the events of every conversation in sequence: below the counter, all different.
  pub append-EventsSequenced :
      append max_events scope event event_id at db ≡ ok (after, view)
      → EventsSequenced db
      → EventsSequenced after
  append-EventsSequenced h s =
      let a = append-IsAppended h in
      let new = stored_event scope event event_id a.conversation.next_event_sequence at in
      let sequenced =
        append-IsSequenced (λ (e : Event). e.conversation_id) (λ e. e.sequence)
          (λ c. c.next_event_sequence) (owns scope event.conversation_id) take_event_sequence
          event.conversation_id (owns-keyed scope event.conversation_id)
          (λ x. unfold take_event_sequence in refl) (λ x. unfold take_event_sequence in refl)
          a.conversation new db.conversations db.conversation_events a.owned
          (unfold stored_event in refl) (unfold stored_event in refl) s in
      let kept =
        select-IsSequenced (λ (e : Event). e.conversation_id) (λ e. e.sequence)
          (λ c. c.next_event_sequence)
          (λ row. not (
            is_out_of_window max_events scope event.conversation_id
              a.conversation.next_event_sequence row))
          _ _ sequenced in
      rw (a.conversations, a.events) kept

is_event_of-in :
    (scope : Scope) (id : ℕ) (e : Event) → is_event_of scope id e ≡ true → e.conversation_id ≡ id
unfolding is_event_of is_in
is_event_of-in scope id e h = ground arith

-- The events of one conversation have distinct sequences.
pub events-HaveDistinctKeys :
    (scope : Scope) (id : ℕ) (es : List Event)
    → HaveDistinctSequences
        (λ (e : Event). e.conversation_id)
        (λ e. e.sequence)
        (λ c. c.next_event_sequence)
        es
    → HaveDistinctKeys (λ (e : Event). e.sequence) (select (is_event_of scope id) es)
unfolding select
events-HaveDistinctKeys scope id [] d = tt
events-HaveDistinctKeys scope id (e ∷ es) (d, ds) = elim (Bool-cases (is_event_of scope id e)) [
  | inl hit ↦ rw hit (
    All-select_hit (is_event_of scope id) es
        (λ y there ne. ne (is_event_of-in scope id y there ∙ sym (is_event_of-in scope id e hit)))
        d,
    events-HaveDistinctKeys scope id es ds,
  )
  | inr miss ↦ rw miss (events-HaveDistinctKeys scope id es ds)
]

-- After an append the store keeps at most `retention_max_events` events of the conversation.
pub append_bounded :
    (max_events : ℕ) (scope : Scope) (event : ConnectorEvent) (event_id at : ℕ) (db after : Db)
    (view : EventView)
    → EventsSequenced db
    → append max_events scope event event_id at db ≡ ok (after, view)
    → length (select (is_event_of scope event.conversation_id) after.conversation_events)
      ≤ max_events
append_bounded max_events scope event event_id at db after view s h =
    let id = event.conversation_id in
    let a = append-IsAppended max_events scope event event_id at db after view h in
    let new = a.conversation.next_event_sequence in
    let t = append-EventsSequenced max_events scope event event_id at db after view h s in
    let conv =
      owns-keyed scope id a.conversation
        (find_first_sound (owns scope id) _ a.conversation a.owned) in
    let old : All (λ (e : Event). e.conversation_id ≡ id → e.sequence ≤ new)
        db.conversation_events =
      All-map {Q = λ (e : Event). e.conversation_id ≡ id → e.sequence ≤ new}
        (λ e below same. omega (
          arith,
          All-find_first
              (λ (c : Conversation).
                c.conversation_id ≡ e.conversation_id → e.sequence < c.next_event_sequence)
              (owns scope id) db.conversations a.conversation below a.owned (conv ∙ sym same),
        ))
        db.conversation_events s.below in
    let row = stored_event scope event event_id new at in
    let all : All (λ (e : Event). e.conversation_id ≡ id → e.sequence ≤ new)
        (db.conversation_events ++ row ∷ []) =
      All-append _ db.conversation_events (row ∷ []) old
        (λ _. unfold stored_event in omega arith, tt) in
    let window : All
        (λ (e : Event).
          (e.conversation_id ≡ id → e.sequence ≤ new)
          × (is_event_of scope id e ≡ true → new < e.sequence + max_events))
        after.conversation_events =
      rw a.events (
        All-select_hit _ (db.conversation_events ++ row ∷ [])
          (λ e kept le. (le, λ here. unfold is_out_of_window in ground arith)) all) in
    length-window (λ (e : Event). e.sequence) new max_events
      (select (is_event_of scope id) after.conversation_events)
      (events-HaveDistinctKeys scope id after.conversation_events t.distinct)
      (All-select_hit (is_event_of scope id) after.conversation_events
        (λ e here (le, lt). (lt here, le (is_event_of-in scope id e here))) window)
