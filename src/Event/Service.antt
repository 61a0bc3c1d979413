-- ===== src/Event/Service.antt =====
-- apps/server/src/event/service.ts: an event is stored, and then published if it is public.
use formation_chat_core.Prelude.{ℕ, some, Result, ok, err, ◌>>=◌, if◌then◌else◌}
use formation_chat_core.Database.{Db}
use formation_chat_core.Database.Rows.{is_public}
use formation_chat_core.Database.Statements.{Scope}
use formation_chat_core.Event.{
  ConnectorEvent, EventView, EventApiError, EventReplay, events, sync, append, replay,
}
use formation_chat_core.Event.Broker.{Broker, publish}

-- The database and the broker of the process.
pub record World : Type 0 where
  pub db : Db
  pub broker : Broker

unfoldable pub append_event :
    (retention_max_events : ℕ)
    → Scope
    → ConnectorEvent
    → (event_id occurred_at : ℕ) → World
    → Result EventApiError (World × EventView)
append_event retention_max_events scope event event_id occurred_at world = do
  stored ← append retention_max_events scope event event_id occurred_at world.db
  ok (
    record {
      db = stored.0;
      broker =
          if is_public stored.1.visibility then publish stored.1 world.broker else world.broker;
    },
    stored.1,
  )

pub data SyncError : Type 0 where
  not_found expected_sync : SyncError

abbrev expect_sync : Result EventApiError EventReplay → Result SyncError EventView
expect_sync (ok (sync e)) = ok e
expect_sync (ok (events _)) = err expected_sync
expect_sync (err _) = err not_found

-- `syncRequired`: the replay behind an identifier that was made up for it.
unfoldable pub sync_required :
    Scope → ℕ → (made_up fresh_id now : ℕ) → Db → Result SyncError EventView
sync_required scope conversation_id made_up fresh_id now db =
    expect_sync (replay scope conversation_id (some made_up) fresh_id now db)
