-- ===== src/Examples/Browser.antt =====
-- The theorems on the browser's client and on the limiter at concrete inputs.
use formation_chat_core.Prelude.{any, map, ◌++◌, ◌≡◌, refl, some, [], ◌∷◌, arith}
use formation_chat_core.Database.Rows.{Visibility, message_delta}
use formation_chat_core.Event.{EventView}
use formation_chat_core.Client.{current_live, initial_chat_state, receive_event}
use formation_chat_core.Client.Receiving.{receive_event-twice}
use formation_chat_core.Client.Live.{IsDisjoint, receive_event-IsDisjoint}
use formation_chat_core.Client.Streaming.{receive_all, receive_all-joined, delta_event, joined}
use formation_chat_core.RateLimit.{Options, WindowState, consume}
use formation_chat_core.RateLimit.Bounds.{IsBounded, consume-IsBounded}

abbrev delta : EventView
delta = record {
  event_id = 70;
  sequence = 1;
  occurred_at = 2000;
  visibility = Visibility.public;
  conversation_id = 7;
  run_id = some 31;
  message_id = some 32;
  body = message_delta (104 ∷ 105 ∷ []);
}

receive_event-twice_example :
    receive_event (receive_event initial_chat_state delta) delta
    ≡ receive_event initial_chat_state delta
receive_event-twice_example = receive_event-twice initial_chat_state delta

receive_event-IsDisjoint_example : IsDisjoint (receive_event initial_chat_state delta)
receive_event-IsDisjoint_example =
    receive_event-IsDisjoint initial_chat_state delta (unfold initial_chat_state in tt)

receive_all-joined_example :
    (current_live
      (receive_all initial_chat_state
        (map (delta_event delta 32) ((70, 104 ∷ []) ∷ (71, 105 ∷ []) ∷ [])))
      32).text
    ≡ (current_live initial_chat_state 32).text ++ joined ((70, 104 ∷ []) ∷ (71, 105 ∷ []) ∷ [])
receive_all-joined_example =
    receive_all-joined delta 32 initial_chat_state ((70, 104 ∷ []) ∷ (71, 105 ∷ []) ∷ [])
      (unfold initial_chat_state any in refl) (unfold initial_chat_state any in (refl, (refl, tt)))
      ((λ e. ground (arith, e), tt), (tt, tt))

abbrev options : Options
options = record { window_ms = 1000; max = 3; max_keys = 2 }

abbrev counted : WindowState
counted = record { count = 1; started_at = 2000; last_seen = 2000 }

consume-IsBounded_example : IsBounded options (consume options ((4, counted) ∷ []) 5 2100).0
consume-IsBounded_example =
    consume-IsBounded options ((4, counted) ∷ []) 5 2100 (omega arith)
      (record { size = omega arith; counts = (omega arith, tt) })
