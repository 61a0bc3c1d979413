-- ===== src/Browser/Effects.antt =====
-- packages/browser-client/src/client.ts: what a step does to the connections and their timer.
use formation_chat_core.Prelude.{
  ℕ, ◌≡◌, refl, Bool, true, false, Option, none, List, if◌then◌else◌, Bool-cases, Option-cases, inl,
  inr,
}
use formation_chat_core.Client.Types.{ChatClientError}
use formation_chat_core.Event.{EventView}
use formation_chat_core.Browser.{
  Machine, Connection, PersistedChatState, abort_stream, open_stream, schedule_reconnect,
  start_begin, start_end, session_bootstrapped, conversation_created, conversation_selected,
  conversation_loaded, message_sent, handoff_created, cancelled, input_submitted, run_retried,
  retry_begin, raise_error, synchronized, event_begin, event_end, stream_ended, reconnect,
  external_cleared, external_moved, destroy, dispatch, persist, restore_cursor, is_sync,
  schedule_renewal, is_aborted,
}
use formation_chat_core.Browser.Steps.{Step}

-- The part of the client that its streams are kept in.
pub record Wire : Type 0 where
  pub connections : List Connection
  pub stream : Option ℕ
  pub reconnect_timer : Option ℕ
  pub destroyed : Bool

abbrev pub wire : Machine → Wire
wire m = record {
  connections = m.connections;
  stream = m.stream;
  reconnect_timer = m.reconnect_timer;
  destroyed = m.destroyed;
}

-- Each step leaves the connections as they are, opens a stream, aborts the stream, does both,
-- schedules a reconnection or destroys the client.
pub data Effect (locale_le : ℕ → ℕ → Bool) (m n : Machine) : Type 0 where
  kept : wire n ≡ wire m → Effect locale_le m n
  opened : (k : Machine) → wire k ≡ wire m → n ≡ open_stream locale_le k → Effect locale_le m n
  opened_late :
      (k : Machine)
      → wire k ≡ wire (record m { reconnect_timer = none })
      → n ≡ open_stream locale_le k
      → Effect locale_le m n
  aborted : wire n ≡ wire (abort_stream m) → Effect locale_le m n
  reopened :
      (k : Machine)
      → wire k ≡ wire (abort_stream m)
      → n ≡ open_stream locale_le k
      → Effect locale_le m n
  scheduled :
      (cause : Option ChatClientError)
      → n ≡ schedule_reconnect locale_le cause m
      → Effect locale_le m n
  ended : n ≡ destroy m → Effect locale_le m n

wire-if :
    (b : Bool) (m n o : Machine)
    → wire n ≡ wire m
    → wire o ≡ wire m
    → wire (if b then n else o) ≡ wire m
wire-if true m n o e f = e
wire-if false m n o e f = f

module _ (locale_le : ℕ → ℕ → Bool) where
  wire-restore_cursor :
      (p : PersistedChatState) (otherwise : ℕ) (m : Machine)
      → wire (restore_cursor locale_le p otherwise m) ≡ wire m
  unfolding dispatch
  wire-restore_cursor p otherwise m = elim (Option-cases p.last_event_id) [
    | inl missing ↦ rw (missing, restore_cursor) refl
    | inr (id, there) ↦ rw (there, restore_cursor) refl
  ]

  event_end-effect :
      (event : EventView) (m : Machine) → Effect locale_le m (event_end locale_le event m)
  unfolding event_end persist
  event_end-effect event m = elim (Bool-cases (is_sync locale_le event.body)) [
    | inl sync ↦ rw sync (reopened (abort_stream (persist m)) (unfold abort_stream in refl) refl)
    | inr other ↦ rw other (kept refl)
  ]

  stream_ended-effect :
      (id : ℕ) (cause : Option ChatClientError) (m : Machine)
      → Effect locale_le m (stream_ended locale_le id cause m)
  unfolding stream_ended
  stream_ended-effect id cause m = elim (Bool-cases (is_aborted id m)) [
    | inl gone ↦ rw gone (kept refl)
    | inr there ↦ rw there (scheduled cause refl)
  ]

  pub Step-effect : {m n : Machine} → Step locale_le m n → Effect locale_le m n
  unfolding dispatch persist start_begin start_end session_bootstrapped schedule_renewal
      conversation_created conversation_selected conversation_loaded message_sent handoff_created
      cancelled input_submitted run_retried retry_begin raise_error synchronized event_begin
      reconnect external_cleared external_moved abort_stream
  Step-effect (Step.starting m loaded) = kept (wire-if m.started m m _ refl refl)
  Step-effect (Step.started m) = kept (wire-restore_cursor m.persisted 0 m)
  Step-effect (Step.bootstrapped m lead session identity expires now) = kept refl
  Step-effect (Step.creating m conversation) = opened _ (wire-if _ m m _ refl refl) refl
  Step-effect (Step.selecting m conversation) = kept (wire-if _ m m _ refl refl)
  Step-effect (Step.loading m conversation messages) = opened _ (wire-if _ m _ m refl refl) refl
  Step-effect (Step.sending m message) = opened _ refl refl
  Step-effect (Step.handing_off m) = opened m refl refl
  Step-effect (Step.cancelling m run_id requested) = kept refl
  Step-effect (Step.submitting m request_id) = opened _ refl refl
  Step-effect (Step.retrying_run m) = opened _ refl refl
  Step-effect (Step.retrying m) = aborted refl
  Step-effect (Step.raising m error) = kept refl
  Step-effect (Step.synchronizing m conversation messages) = kept refl
  Step-effect (Step.receiving m event) = kept (wire-if _ m _ _ refl refl)
  Step-effect (Step.received m event) = event_end-effect event m
  Step-effect (Step.ending m id cause) = stream_ended-effect id cause m
  Step-effect (Step.reconnecting m) = opened_late _ refl refl
  Step-effect (Step.recovering m) = opened m refl refl
  Step-effect (Step.clearing m next) = aborted refl
  Step-effect (Step.moving m next) = kept (wire-restore_cursor next m.state.last_event_sequence m)
  Step-effect (Step.destroying m) = ended refl
  Step-effect (Step.updating m state persisted saved attempt) = kept refl
  Step-effect (Step.reopening m) = reopened (abort_stream m) refl refl
