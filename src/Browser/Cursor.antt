-- ===== src/Browser/Cursor.antt =====
-- packages/browser-client/src/client.ts, `handleEvent`: the cursor that a client goes on from.
use formation_chat_core.Prelude.{
  ℕ, ◌≡◌, refl, sym, ◌∙◌, subst, Bool, true, false, Option, none, some, List, [], ◌∷◌, Bool-cases,
  inl, inr,
}
use formation_chat_core.Message.{MessageView}
use formation_chat_core.Event.{EventView}
use formation_chat_core.Client.{reduce_chat_state, load_snapshot, is_failed_run, without_error}
use formation_chat_core.Client.Types.{live_cleared, cursor_cleared}
use formation_chat_core.Browser.{
  Machine, Connection, without_cursor, handle_event, event_begin, event_end, synchronized, is_sync,
  ends_message, dispatch, persist, abort_stream, open_stream,
}
use formation_chat_core.Browser.Streams.{
  IsTidy, open_connections, abort_stream-IsTidy, open_stream-opens,
}

module _ (locale_le : ℕ → ℕ → Bool) where
  -- An event that is handled leaves the persisted cursor saved: the event's own, with the count of
  -- failed connections back at 0, where it is no request to synchronise.
  pub handle_event-saved :
      (event : EventView) (snapshot : Option (ℕ × List MessageView)) (m : Machine)
      → is_sync locale_le event.body ≡ false
      → ((handle_event locale_le event snapshot m).saved
          ≡ some (record m.persisted {
            last_event_id = some event.event_id;
            last_event_sequence = some event.sequence;
          }))
        × ((handle_event locale_le event snapshot m).reconnect_attempt ≡ 0)
  unfolding handle_event event_end event_begin persist
  handle_event-saved event none m other = elim (Bool-cases (ends_message locale_le event.body)) [
    | inl ends ↦ rw (other, ends) (unfold dispatch in (refl, refl))
    | inr goes_on ↦ rw (other, goes_on) (unfold dispatch in (refl, refl))
  ]
  handle_event-saved event (some (conversation, messages)) m other =
      elim (Bool-cases (ends_message locale_le event.body)) [
        | inl ends ↦ rw (other, ends) (unfold synchronized dispatch in (refl, refl))
        | inr goes_on ↦ rw (other, goes_on) (unfold synchronized dispatch in (refl, refl))
      ]

  snapshot_conversation :
      (conversation : ℕ) (messages : List MessageView) (m : Machine)
      → (((synchronized locale_le conversation messages m).state).conversation ≡ some conversation)
        × (((synchronized locale_le conversation messages m).state).last_event_id
            ≡ m.state.last_event_id)
  unfolding synchronized dispatch reduce_chat_state load_snapshot without_error
  snapshot_conversation conversation messages m = elim (Bool-cases (is_failed_run m.state.run)) [
    | inl failed ↦ rw failed (refl, refl)
    | inr well ↦ rw well (refl, refl)
  ]

  -- The client of a request to synchronise, before it opens its new stream.
  synchronised : (conversation : ℕ) → List MessageView → Machine → Machine
  synchronised conversation messages m = abort_stream (
      persist (
        synchronized locale_le conversation messages (
          dispatch locale_le live_cleared (
            dispatch locale_le cursor_cleared
              (record m { persisted = without_cursor m.persisted })))))

  handle_event-synchronised :
      (event : EventView) (conversation : ℕ) (messages : List MessageView) (m : Machine)
      → is_sync locale_le event.body ≡ true
      → handle_event locale_le event (some (conversation, messages)) m
        ≡ open_stream locale_le (synchronised conversation messages m)
  unfolding handle_event event_begin event_end synchronised
  handle_event-synchronised event conversation messages m sync = rw sync refl

  -- A request to synchronise takes the cursor away, from the storage too, and leaves one open
  -- stream: a new one for the snapshot's conversation, which asks for no event to go on from.
  pub handle_event-sync :
      (event : EventView) (conversation : ℕ) (messages : List MessageView) (m : Machine)
      → is_sync locale_le event.body ≡ true
      → m.destroyed ≡ false
      → IsTidy m
      → ((handle_event locale_le event (some (conversation, messages)) m).saved
          ≡ some (without_cursor m.persisted))
        × ((c : Connection) × (open_connections
                (handle_event locale_le event (some (conversation, messages)) m)
              ≡ c ∷ [])
            × (c.conversation_id ≡ conversation)
            × (c.last_event_id ≡ none))
  handle_event-sync event conversation messages m sync alive tidy =
      let cleared : Machine =
        dispatch locale_le live_cleared (
          dispatch locale_le cursor_cleared
            (record m { persisted = without_cursor m.persisted })) in
      let (held, kept) = snapshot_conversation conversation messages cleared in
      let (c, one, same, cursor, saved) =
        open_stream-opens locale_le conversation (synchronised conversation messages m)
          (unfold synchronised abort_stream persist synchronized dispatch in alive)
          (unfold synchronised abort_stream persist in held)
          (unfold synchronised persist synchronized dispatch in
            abort_stream-IsTidy locale_le
              (persist (synchronized locale_le conversation messages cleared)) tidy) in
      let stored : (synchronised conversation messages m).saved
          ≡ some (without_cursor m.persisted) =
        unfold synchronised abort_stream persist synchronized dispatch in refl in
      let same_cursor : (synchronised conversation messages m).state.last_event_id
          ≡ cleared.state.last_event_id =
        unfold synchronised abort_stream persist in kept in
      let no_cursor : cleared.state.last_event_id ≡ none =
        unfold dispatch reduce_chat_state in refl in
      subst
        (λ (n : Machine).
          (n.saved ≡ some (without_cursor m.persisted))
          × ((d : Connection) × (open_connections n ≡ d ∷ [])
              × (d.conversation_id ≡ conversation)
              × (d.last_event_id ≡ none)))
        (sym (handle_event-synchronised event conversation messages m sync))
        (saved ∙ stored, (c, one, same, cursor ∙ same_cursor ∙ no_cursor))
