-- ===== src/Client/Live.antt =====
-- packages/browser-client/src/state.ts: the live messages beside those of the snapshot.
use formation_chat_core.Prelude.{
  ℕ, ◌≡◌, Bool, true, false, not, ◌||◌, List, [], ◌∷◌, arith, All, All-map, Bool-cases,
  Option-cases, inl, inr, any, ◌==◌, insert, select,
}
use formation_chat_core.Event.{EventView}
use formation_chat_core.Message.{MessageView}
use formation_chat_core.Client.{
  seen_event, apply_event, receive_event, has_message_id, without_error, is_sync, current_live,
  canonical_messages, load_snapshot, is_failed_run,
}
use formation_chat_core.Client.Parts.{update_live}
use formation_chat_core.Client.Types.{ChatState, LiveMessage}
use formation_chat_core.Client.Receiving.{note_event-IsKept}

-- No live message is one of the messages of the snapshot.
abbrev pub IsDisjoint : ChatState → Type 0
IsDisjoint state =
    All (λ (e : ℕ × LiveMessage). any (has_message_id e.0) state.messages ≡ false)
      state.live_messages

All-insert :
    (P : ℕ × LiveMessage → Type 0) (k : ℕ) (v : LiveMessage) (m : List (ℕ × LiveMessage))
    → ((u : LiveMessage) → P (k, u))
    → All P m
    → All P (insert k v m)
unfolding insert
All-insert P k v [] new h = (new v, tt)
All-insert P k v ((j, w) ∷ m) new (h, hs) = elim (Bool-cases (j == k)) [
  | inl e ↦ let same : j ≡ k = ground arith in rw e (rw same (new v), hs)
  | inr e ↦ rw e (h, All-insert P k v m new hs)
]

All-select_where :
    (p : ℕ × LiveMessage → Bool) (m : List (ℕ × LiveMessage)) → All (λ e. p e ≡ true) (select p m)
unfolding select
All-select_where p [] = tt
All-select_where p (e ∷ m) = elim (Bool-cases (p e)) [
  | inl h ↦ rw h (h, All-select_where p m)
  | inr h ↦ rw h (All-select_where p m)
]

-- A snapshot leaves no live message beside its stored one, whatever the state was.
pub load_snapshot-IsDisjoint :
    (locale_le : ℕ → ℕ → Bool) (conversation : ℕ) (loaded : List MessageView) (state : ChatState)
    → IsDisjoint (load_snapshot locale_le conversation loaded state)
unfolding load_snapshot without_error
load_snapshot-IsDisjoint locale_le conversation loaded state =
    let kept =
      All-map {Q = λ e. any (has_message_id e.0) (canonical_messages locale_le loaded) ≡ false}
        (λ e h. ground (arith, h)) _
        (All-select_where
          (λ (e : ℕ × LiveMessage).
            not (any (has_message_id e.0) (canonical_messages locale_le loaded)))
          state.live_messages) in
    elim (Bool-cases (is_failed_run state.run)) [
      | inl e ↦ rw (e, load_snapshot) kept
      | inr e ↦ rw (e, load_snapshot) kept
    ]

-- No event brings a live message beside its stored one.
pub receive_event-IsDisjoint :
    (state : ChatState) (event : EventView)
    → IsDisjoint state
    → IsDisjoint (receive_event state event)
unfolding receive_event apply_event seen_event
receive_event-IsDisjoint state event h =
    elim (Bool-cases
      (any (λ id. id == event.event_id) state.recent_event_ids || is_sync event.body)) [
        | inl seen ↦ rw (seen, receive_event) h
        | inr new ↦
            let (_, _, messages, live) =
              note_event-IsKept event.body event.run_id (seen_event event state) in
            elim (Option-cases event.message_id) [
              | inl e ↦ rw (new, receive_event, e) (rw (messages, live) h)
              | inr (id, e) ↦ elim (Bool-cases (any (has_message_id id) state.messages)) [
                | inl there ↦ rw (new, receive_event, e, there) (rw (messages, live) h)
                | inr missing ↦
                    rw (new, receive_event, e, missing)
                      (rw messages (
                        All-insert _ id (update_live event.body (current_live state id))
                          state.live_messages (λ u. missing) h))
              ]
            ]
      ]
