-- ===== src/Browser/State.antt =====
-- packages/browser-client/src/client.ts: the state of a client, with its connections and timers.
use Prim.Native.Nat.{◌^◌}
use formation_chat_core.Prelude.{
  ℕ, ◌*◌, Bool, true, false, not, Option, none, some, List, [], min, ◌==◌, holds, find_first,
  update_where,
}
use formation_chat_core.Client.{initial_chat_state}
use formation_chat_core.Client.Types.{ChatState}

pub record PersistedChatState : Type 0 where
  pub browser_identity : Option ℕ
  pub conversation_id : Option ℕ
  pub last_event_id : Option ℕ
  pub last_event_sequence : Option ℕ

pub record Connection : Type 0 where
  pub connection_id : ℕ
  pub aborted : Bool
  pub conversation_id : ℕ
  pub last_event_id : Option ℕ

pub record Machine : Type 0 where
  pub state : ChatState
  pub persisted : PersistedChatState
  -- What the storage was last given.
  pub saved : Option PersistedChatState
  pub started : Bool
  pub destroyed : Bool
  pub connections : List Connection
  -- `streamAbort`.
  pub stream : Option ℕ
  -- The timers that are set, with their delays.
  pub reconnect_timer : Option ℕ
  pub renewal_timer : Option ℕ
  pub reconnect_attempt : ℕ

abbrev pub nothing_persisted : PersistedChatState
nothing_persisted = record {
  browser_identity = none;
  conversation_id = none;
  last_event_id = none;
  last_event_sequence = none;
}

unfoldable pub created : Machine
created = record {
  state = initial_chat_state;
  persisted = nothing_persisted;
  saved = none;
  started = false;
  destroyed = false;
  connections = [];
  stream = none;
  reconnect_timer = none;
  renewal_timer = none;
  reconnect_attempt = 0;
}

abbrev pub without_cursor : PersistedChatState → PersistedChatState
without_cursor p = record p { last_event_id = none; last_event_sequence = none }

abbrev pub has_connection_id : ℕ → Connection → Bool
has_connection_id id c = c.connection_id == id

abbrev pub abort : Connection → Connection
abort c = record c { aborted = true }

-- `streamAbort?.abort()`.
abbrev pub abort_at : Option ℕ → List Connection → List Connection
abort_at none connections = connections
abort_at (some id) connections = update_where (has_connection_id id) abort connections

unfoldable pub abort_stream : Machine → Machine
abort_stream m = record m { connections = abort_at m.stream m.connections }

-- A connection that is not there counts as aborted.
unfoldable pub is_aborted : ℕ → Machine → Bool
is_aborted id m =
    not
      (holds (λ (c : Connection). not c.aborted) (find_first (has_connection_id id) m.connections))

-- The default of `reconnectDelay`.
unfoldable pub reconnect_delay : ℕ → ℕ
reconnect_delay attempt = min (1000 * 2 ^ attempt) 30000

unfoldable pub persist : Machine → Machine
persist m = record m { saved = some m.persisted }
