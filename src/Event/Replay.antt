-- ===== src/Event/Replay.antt =====
-- apps/server/src/event/store.ts, `replay`: what it returns behind a cursor.
use formation_chat_core.Prelude.{
  ℕ, ◌≡◌, refl, ap, ◌∙◌, Bool, true, some, List, [], ◌∷◌, map, arith, ok, ltb, ◌==◌, Bool-cases,
  inl, inr, select, find_first, take, drop, last?, order_by, All, All-select_hit, All-order_by,
  All-last-take, HaveDistinctKeys, IsAscending, order_by-IsAscending, order_by-select, select-drop,
  find_own, find_first_narrow, All-select,
}
use formation_chat_core.Database.{Db}
use formation_chat_core.Database.Rows.{Conversation, Event, is_public}
use formation_chat_core.Database.Statements.{Scope, owns}
use formation_chat_core.Event.{
  events, to_conversation_event, is_event_of, is_cursor, is_replayed, replay_rows, replay,
  by_event_sequence,
}
use formation_chat_core.Event.Retention.{EventsSequenced, events-HaveDistinctKeys}

-- The public events of a conversation that are retained, in the order of their sequences.
unfoldable pub public_events : Scope → ℕ → Db → List Event
public_events scope conversation_id db = order_by by_event_sequence (
    select (λ e. is_public e.visibility)
      (select (is_event_of scope conversation_id) db.conversation_events))

select-HaveDistinctKeys :
    (q : Event → Bool) (es : List Event)
    → HaveDistinctKeys (λ (e : Event). e.sequence) es
    → HaveDistinctKeys (λ (e : Event). e.sequence) (select q es)
unfolding select
select-HaveDistinctKeys q [] d = tt
select-HaveDistinctKeys q (e ∷ es) (d, ds) = elim (Bool-cases (q e)) [
  | inl hit ↦ rw hit (All-select _ q es d, select-HaveDistinctKeys q es ds)
  | inr miss ↦ rw miss (select-HaveDistinctKeys q es ds)
]

replayed-select :
    (scope : Scope) (id n : ℕ) (es : List Event)
    → select (is_replayed scope id n) es
      ≡ select
          (λ e. ltb n e.sequence)
          (select (λ e. is_public e.visibility) (select (is_event_of scope id) es))
unfolding select is_replayed
replayed-select scope id n [] = refl
replayed-select scope id n (e ∷ es) = ground (arith, replayed-select scope id n es)

-- `event_id` is the primary key of `conversation_events`.
abbrev pub EventsKeyed : Db → Type 0
EventsKeyed db = HaveDistinctKeys (λ (e : Event). e.event_id) db.conversation_events

module _ (scope : Scope) (id : ℕ) (db : Db) where
  public_events-IsAscending :
      EventsSequenced db → IsAscending (λ (e : Event). e.sequence) (public_events scope id db)
  unfolding public_events
  public_events-IsAscending s =
      order_by-IsAscending (λ (e : Event). e.sequence) _
        (select-HaveDistinctKeys (λ e. is_public e.visibility) _
          (events-HaveDistinctKeys scope id db.conversation_events s.distinct))

  replay_rows-select :
      EventsSequenced db
      → (n : ℕ)
      → replay_rows scope id n db
        ≡ events
            (map to_conversation_event (select (λ e. ltb n e.sequence) (public_events scope id db)))
  unfolding replay_rows public_events
  replay_rows-select s n =
      ap (λ r. events (map to_conversation_event r))
        (ap (order_by by_event_sequence) (replayed-select scope id n db.conversation_events)
          ∙ order_by-select (λ (e : Event). e.sequence) (λ e. ltb n e.sequence) _
              (select-HaveDistinctKeys (λ e. is_public e.visibility) _
                (events-HaveDistinctKeys scope id db.conversation_events s.distinct)))

  -- Each public event of the conversation is found as the cursor of its identifier.
  public_events-cursor :
      EventsKeyed db
      → All
          (λ e. find_first (is_cursor scope id e.event_id) db.conversation_events ≡ some e)
          (public_events scope id db)
  unfolding public_events
  public_events-cursor k = All-order_by by_event_sequence _ _ (
      All-select_hit (λ e. is_public e.visibility) _
        (λ e visible (here, own).
          find_first_narrow (λ r. r.event_id == e.event_id) (is_cursor scope id e.event_id)
            db.conversation_events e (λ r hit. unfold is_cursor in ground arith) own
            (unfold is_cursor in ground (arith, here, visible)))
        (All-select_hit
          {Q = λ e.
            (is_event_of scope id e ≡ true)
            × (find_first (λ r. r.event_id == e.event_id) db.conversation_events ≡ some e)}
          (is_event_of scope id) db.conversation_events (λ e here own. (here, own))
          (find_own (λ (e : Event). e.event_id) db.conversation_events k)))

  -- A replay behind the k-th retained public event of the conversation returns exactly the public
  -- events behind it, in order.
  pub replay_behind :
      (k : ℕ) (e : Event) (c : Conversation) (fresh_id now : ℕ)
      → EventsSequenced db
      → EventsKeyed db
      → find_first (owns scope id) db.conversations ≡ some c
      → last? (take k (public_events scope id db)) ≡ some e
      → replay scope id (some e.event_id) fresh_id now db
        ≡ ok (events (map to_conversation_event (drop k (public_events scope id db))))
  unfolding replay
  replay_behind k e c fresh_id now s keyed owned last =
      let cursor =
        All-last-take (λ (x : Event). x.sequence)
          (λ x. find_first (is_cursor scope id x.event_id) db.conversation_events ≡ some x) k
          (public_events scope id db) e (public_events-cursor keyed) last in
      let behind =
        select-drop (λ (x : Event). x.sequence) k (public_events scope id db) e
          (public_events-IsAscending s) last in
      rw owned (rw cursor (rw (replay_rows-select s e.sequence) (rw behind)))
