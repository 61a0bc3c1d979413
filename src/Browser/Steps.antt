-- ===== src/Browser/Steps.antt =====
-- packages/browser-client/src/client.ts: what can happen to a client, in any order: its calls, the
-- answers to its requests, its timers, the events and ends of its streams, and other tabs.
use formation_chat_core.Prelude.{ℕ, Bool, Option, List}
use formation_chat_core.Message.{MessageView}
use formation_chat_core.Event.{EventView}
use formation_chat_core.Client.Types.{ChatClientError, ChatState}
use formation_chat_core.Browser.{
  Machine, PersistedChatState, start_begin, start_end, session_bootstrapped, conversation_created,
  conversation_selected, conversation_loaded, message_sent, handoff_created, cancelled,
  input_submitted, run_retried, retry_begin, raise_error, synchronized, event_begin, event_end,
  stream_ended, reconnect, open_stream, external_cleared, external_moved, destroy, abort_stream,
}

module _ (locale_le : ℕ → ℕ → Bool) where
  -- The atomic steps. A step that the client's state rules out changes less than one that it does
  -- not, so that none is left out.
  pub data Step : Machine → Machine → Type 0 where
    starting :
        (m : Machine) (loaded : Option PersistedChatState) → Step m (start_begin locale_le loaded m)
    started : (m : Machine) → Step m (start_end locale_le m)
    bootstrapped :
        (m : Machine) (renewal_lead session : ℕ) (browser_identity : Option ℕ) (expires_at now : ℕ)
        → Step m
            (session_bootstrapped locale_le renewal_lead session browser_identity expires_at now m)
    creating :
        (m : Machine) (conversation : ℕ) → Step m (conversation_created locale_le conversation m)
    selecting :
        (m : Machine) (conversation : ℕ) → Step m (conversation_selected locale_le conversation m)
    loading :
        (m : Machine) (conversation : ℕ) (messages : List MessageView)
        → Step m (conversation_loaded locale_le conversation messages m)
    sending : (m : Machine) (message : MessageView) → Step m (message_sent locale_le message m)
    handing_off : (m : Machine) → Step m (handoff_created locale_le m)
    cancelling :
        (m : Machine) (run_id : ℕ) (requested : Bool)
        → Step m (cancelled locale_le run_id requested m)
    submitting : (m : Machine) (request_id : ℕ) → Step m (input_submitted locale_le request_id m)
    retrying_run : (m : Machine) → Step m (run_retried locale_le m)
    retrying : (m : Machine) → Step m (retry_begin locale_le m)
    raising : (m : Machine) (error : ChatClientError) → Step m (raise_error locale_le error m)
    synchronizing :
        (m : Machine) (conversation : ℕ) (messages : List MessageView)
        → Step m (synchronized locale_le conversation messages m)
    receiving : (m : Machine) (event : EventView) → Step m (event_begin locale_le event m)
    received : (m : Machine) (event : EventView) → Step m (event_end locale_le event m)
    ending :
        (m : Machine) (connection_id : ℕ) (cause : Option ChatClientError)
        → Step m (stream_ended locale_le connection_id cause m)
    reconnecting : (m : Machine) → Step m (reconnect locale_le m)
    -- The window gains focus, the browser is online again, or a refused token has been renewed.
    recovering : (m : Machine) → Step m (open_stream locale_le m)
    clearing :
        (m : Machine) (next : PersistedChatState) → Step m (external_cleared locale_le next m)
    moving : (m : Machine) (next : PersistedChatState) → Step m (external_moved locale_le next m)
    destroying : (m : Machine) → Step m (destroy m)
    -- The steps above take the save of the persisted state as one with what follows it. The code awaits
    -- it: what is done before it changes no more than these parts, and what is done behind it opens a
    -- stream as `recovering` does, or aborts the one that is open and opens a new one.
    updating :
        (m : Machine) (state : ChatState) (persisted : PersistedChatState)
        (saved : Option PersistedChatState) (attempt : ℕ)
        → Step m (record m {
          state = state;
          persisted = persisted;
          saved = saved;
          reconnect_attempt = attempt;
        })
    reopening : (m : Machine) → Step m (open_stream locale_le (abort_stream m))

  -- The machines that steps lead to from one.
  pub data Reach (m : Machine) : Machine → Type 0 where
    here : Reach m m
    next : {n o : Machine} → Reach m n → Step n o → Reach m o
