-- ===== src/Client/Streaming.antt =====
-- packages/browser-client/src/state.ts: the text of a live message while its deltas arrive.
use formation_chat_core.Prelude.{
  ℕ, zero, suc, ◌≡◌, ◌≢◌, refl, sym, ◌∙◌, Bool, false, some, List, [], ◌∷◌, ◌++◌, arith, map, any,
  ◌==◌, ==_refl, take_last, drop, lookup, lookup-insert, All, All-map, All-zip, HaveDistinctKeys,
}
use mathlib.Core.List.{append-nil, append_assoc}
use formation_chat_core.Database.Rows.{Text, message_delta}
use formation_chat_core.Event.{EventView}
use formation_chat_core.Client.{
  seen_event, apply_event, receive_event, has_message_id, current_live, note_event,
}
use formation_chat_core.Client.Parts.{update_live}
use formation_chat_core.Client.Types.{ChatState}
use formation_chat_core.Client.Receiving.{apply_event-seen}

-- The event of a delta, by its identifier and text; the other fields are those of `base`.
abbrev pub delta_event : EventView → ℕ → ℕ × Text → EventView
delta_event base id (event_id, delta) = record base {
  event_id = event_id;
  message_id = some id;
  body = message_delta delta;
}

-- The reducer over the events that arrive, in order.
unfoldable pub receive_all : ChatState → List EventView → ChatState
receive_all state [] = state
receive_all state (e ∷ es) = receive_all (receive_event state e) es

-- The deltas joined.
unfoldable pub joined : List (ℕ × Text) → Text
joined [] = []
joined ((_, delta) ∷ ds) = delta ++ joined ds

abbrev pub IsUnseen : ChatState → ℕ × Text → Type 0
IsUnseen state d = any (λ id. id == d.0) state.recent_event_ids ≡ false

any-drop :
    {A : Type 0} (p : A → Bool) (n : ℕ) (xs : List A) → any p xs ≡ false → any p (drop n xs) ≡ false
unfolding any drop
any-drop p zero xs h = h
any-drop p (suc n) [] h = h
any-drop p (suc n) (x ∷ xs) h = any-drop p n xs (ground arith)

any-append_one :
    {A : Type 0} (p : A → Bool) (xs : List A) (x : A)
    → any p xs ≡ false
    → p x ≡ false
    → any p (xs ++ x ∷ []) ≡ false
unfolding any
any-append_one p [] x h e = ground (arith, e)
any-append_one p (y ∷ ys) x h e = ground (arith, any-append_one p ys x (ground arith) e)

module _ (base : EventView) (id : ℕ) (state : ChatState) (d : ℕ × Text) (unseen : IsUnseen state d)
    (live : any (has_message_id id) state.messages ≡ false) where
  received : receive_event state (delta_event base id d) ≡ apply_event state (delta_event base id d)
  unfolding receive_event
  received = rw (unseen, receive_event) refl

  received-live :
      lookup id (receive_event state (delta_event base id d)).live_messages
      ≡ some (update_live (message_delta d.1) (current_live state id))
  unfolding apply_event note_event seen_event
  received-live = rw received (
      rw (apply_event, live)
        (rw
          (lookup-insert id id (update_live (message_delta d.1) (current_live state id))
            state.live_messages)
          (rw (==_refl id) refl)))

  received-text :
      (current_live (receive_event state (delta_event base id d)) id).text
      ≡ (current_live state id).text ++ d.1
  unfolding update_live
  received-text = rw (received-live, current_live) refl

  received-messages : (receive_event state (delta_event base id d)).messages ≡ state.messages
  unfolding apply_event note_event seen_event
  received-messages = rw received (rw (apply_event, live) refl)

  received-IsUnseen :
      (other : ℕ × Text)
      → other.0 ≢ d.0
      → IsUnseen state other
      → IsUnseen (receive_event state (delta_event base id d)) other
  unfolding take_last
  received-IsUnseen other ne fresh =
      let (recent, _) = apply_event-seen state (delta_event base id d) in
      rw received (
        rw recent (
          any-drop (λ i. i == other.0) _ _
            (any-append_one (λ i. i == other.0) state.recent_event_ids d.0 fresh (ground arith))))

-- The deltas of a live message, which the state has not seen and which are all different events, add
-- their texts to the message's text in the order in which they arrive.
pub receive_all-joined :
    (base : EventView) (id : ℕ) (state : ChatState) (ds : List (ℕ × Text))
    → any (has_message_id id) state.messages ≡ false
    → All (IsUnseen state) ds
    → HaveDistinctKeys (λ (d : ℕ × Text). d.0) ds
    → (current_live (receive_all state (map (delta_event base id) ds)) id).text
      ≡ (current_live state id).text ++ joined ds
unfolding receive_all joined
receive_all-joined base id state [] live unseen distinct = sym (append-nil _)
receive_all-joined base id state (d ∷ ds) live (u, us) (ne, nes) =
    let next = receive_event state (delta_event base id d) in
    let live' : any (has_message_id id) next.messages ≡ false =
      rw (received-messages base id state d u live) live in
    let us' : All (IsUnseen next) ds =
      All-map {P = λ o. IsUnseen state o × (o.0 ≢ d.0)} {Q = λ o. IsUnseen next o}
        (λ o (fresh, other). received-IsUnseen base id state d u live o other fresh) ds
        (All-zip (IsUnseen state) (λ o. o.0 ≢ d.0) ds us ne) in
    receive_all-joined base id next ds live' us' nes
    ∙ rw (received-text base id state d u live)
        (append_assoc (current_live state id).text d.1 (joined ds))
