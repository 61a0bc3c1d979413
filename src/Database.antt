-- ===== src/Database.antt =====
-- apps/server/src/database/types.ts: the rows of the tables, and the database as the lists of them.
-- Identifiers are opaque texts that the code only compares: numbers stand for them. Times are whole
-- milliseconds. A column of type JSON holds the value that it encodes.
pub mod Rows
pub mod Sites
pub mod Sequences
pub mod Statements
pub mod TimePages
use formation_chat_core.Prelude.{List}
use Rows.{
  Conversation, Participant, Message, Command, Event, Run, Handoff, InputRequest, Principal,
  BrowserSession, Bootstrap,
}

pub record Db : Type 0 where
  pub principals : List Principal
  pub browser_sessions : List BrowserSession
  pub session_bootstrap_idempotency : List Bootstrap
  pub conversations : List Conversation
  pub conversation_participants : List Participant
  pub messages : List Message
  pub command_idempotency : List Command
  pub conversation_events : List Event
  pub agent_runs : List Run
  pub handoffs : List Handoff
  pub structured_input_requests : List InputRequest
