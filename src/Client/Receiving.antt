-- ===== src/Client/Receiving.antt =====
-- packages/browser-client/src/state.ts: what the reducer does with an event that arrives, and with
-- one that arrives again.
use formation_chat_core.Prelude.{
  ℕ, zero, suc, ◌+◌, ◌-◌, ◌≤◌, max, ◌≡◌, refl, Bool, true, ◌||◌, Option, List, [], ◌∷◌, ◌++◌, arith,
  length, Bool-cases, Option-cases, inl, inr, any, ◌==◌, ==_refl, take_last, length-take_last-le,
  drop,
}
use formation_chat_core.Database.Rows.{
  EventBody, run_started, run_completed, run_failed, contact_requested, handoff_requested,
  handoff_completed,
}
use formation_chat_core.Event.{EventView}
use formation_chat_core.Client.{
  note_event, seen_event, apply_event, receive_event, has_message_id, without_error, is_sync,
}
use formation_chat_core.Client.Types.{ChatState}

-- The parts of the state that the note of an event leaves alone.
abbrev IsKept : ChatState → ChatState → Type 0
IsKept before after =
    (after.recent_event_ids ≡ before.recent_event_ids)
    × (after.last_event_sequence ≡ before.last_event_sequence)
    × (after.messages ≡ before.messages)
    × (after.live_messages ≡ before.live_messages)

pub note_event-IsKept :
    (body : EventBody) (run_id : Option ℕ) (next : ChatState)
    → IsKept next (note_event body run_id next)
unfolding note_event without_error
note_event-IsKept (run_started _) run_id next = (refl, refl, refl, refl)
note_event-IsKept run_completed run_id next = (refl, refl, refl, refl)
note_event-IsKept (run_failed _) run_id next = (refl, refl, refl, refl)
note_event-IsKept (contact_requested _) run_id next = (refl, refl, refl, refl)
note_event-IsKept (handoff_requested _) run_id next = (refl, refl, refl, refl)
note_event-IsKept (handoff_completed _) run_id next = (refl, refl, refl, refl)
note_event-IsKept _ run_id next = (refl, refl, refl, refl)

-- What becomes of the events seen, and of the cursor.
pub apply_event-seen :
    (state : ChatState) (event : EventView)
    → ((apply_event state event).recent_event_ids
        ≡ take_last 100 (state.recent_event_ids ++ event.event_id ∷ []))
      × ((apply_event state event).last_event_sequence
          ≡ max state.last_event_sequence event.sequence)
unfolding apply_event seen_event
apply_event-seen state event =
    let (recent, sequence, _, _) =
      note_event-IsKept event.body event.run_id (seen_event event state) in
    elim (Option-cases event.message_id) [
      | inl e ↦ rw (e, apply_event) (recent, sequence)
      | inr (id, e) ↦ elim (Bool-cases (any (has_message_id id) state.messages)) [
        | inl there ↦ rw (e, apply_event, there) (recent, sequence)
        | inr new ↦ rw (e, apply_event, new) (recent, sequence)
      ]
    ]

any-drop_last :
    {A : Type 0} (p : A → Bool) (n : ℕ) (xs : List A) (x : A)
    → n ≤ length xs
    → p x ≡ true
    → any p (drop n (xs ++ x ∷ [])) ≡ true
unfolding any drop
any-drop_last p zero [] x h e = ground (arith, e)
any-drop_last p zero (y ∷ ys) x h e = ground (arith, any-drop_last p 0 ys x (omega arith) e)
any-drop_last p (suc n) [] x h e = ground arith
any-drop_last p (suc n) (y ∷ ys) x h e = any-drop_last p n ys x (omega (arith, h)) e

length-append_one : {A : Type 0} (xs : List A) (x : A) → length (xs ++ x ∷ []) ≡ length xs + 1
length-append_one [] x = refl
length-append_one (y ∷ ys) x = omega (arith, length-append_one ys x)

any-take_last :
    {A : Type 0} (p : A → Bool) (n : ℕ) (xs : List A) (x : A)
    → p x ≡ true
    → any p (take_last (suc n) (xs ++ x ∷ [])) ≡ true
unfolding take_last
any-take_last p n xs x e =
    any-drop_last p (length (xs ++ x ∷ []) - suc n) xs x (omega (arith, length-append_one xs x)) e

-- An event that has just arrived and arrives again changes nothing.
pub receive_event-twice :
    (state : ChatState) (event : EventView)
    → receive_event (receive_event state event) event ≡ receive_event state event
unfolding receive_event
receive_event-twice state event =
    elim (Bool-cases
      (any (λ id. id == event.event_id) state.recent_event_ids || is_sync event.body)) [
        | inl e ↦ rw (e, receive_event) (rw (e, receive_event) refl)
        | inr e ↦
            let (recent, _) = apply_event-seen state event in
            let there : any (λ id. id == event.event_id) (apply_event state event).recent_event_ids
                ≡ true =
              rw recent (
                any-take_last (λ id. id == event.event_id) 99 state.recent_event_ids event.event_id
                  (==_refl event.event_id)) in
            rw (e, receive_event) (rw (there, receive_event) refl)
      ]

-- The window of seen events holds at most a hundred, and no event moves the cursor's sequence back.
pub receive_event-bounds :
    (state : ChatState) (event : EventView)
    → length state.recent_event_ids ≤ 100
    → (length (receive_event state event).recent_event_ids ≤ 100)
      × (state.last_event_sequence ≤ (receive_event state event).last_event_sequence)
unfolding receive_event
receive_event-bounds state event h =
    elim (Bool-cases
      (any (λ id. id == event.event_id) state.recent_event_ids || is_sync event.body)) [
        | inl e ↦ rw (e, receive_event) (h, omega arith)
        | inr e ↦
            let (recent, sequence) = apply_event-seen state event in
            rw (e, receive_event)
              (
                rw recent (length-take_last-le 100 (state.recent_event_ids ++ event.event_id ∷ [])),
                rw sequence (ground arith),
              )
      ]
