-- ===== src/Database/Sites.antt =====
-- apps/server/src/database/types.ts: the rows of the sites and their widgets, which the sessions read.
use formation_chat_core.Prelude.{ℕ, Bool, List}
use formation_chat_core.Database.Rows.{Text}

pub record Site : Type 0 where
  pub site_id : ℕ
  pub tenant_id : ℕ
  pub site_key : ℕ
  pub allowed_origins : List Text
  pub agent_ref : ℕ

pub record AgentAlias : Type 0 where
  pub alias : ℕ
  pub agent_ref : ℕ
  pub email_handoff : Bool

pub record Widget : Type 0 where
  pub widget_id : ℕ
  pub tenant_id : ℕ
  pub site_id : ℕ
  pub widget_key : ℕ
  pub default_agent_alias : ℕ
  pub agent_aliases : List AgentAlias

pub record SiteTables : Type 0 where
  pub sites : List Site
  pub site_widgets : List Widget
