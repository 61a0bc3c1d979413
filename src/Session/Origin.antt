-- ===== src/Session/Origin.antt =====
-- apps/server/src/session/service.ts: the errors of a bootstrap, and the site, the origin and the agent
-- that one is for. `URL` is a parameter.
use formation_chat_core.Prelude.{
  ℕ, Bool, true, false, ◌&&◌, Option, none, some, [], ◌∷◌, Result, ok, err, ◌>>=◌, or_throw, ◌==◌,
  any, find_first, same_text,
}
use formation_chat_core.Database.Rows.{Text}
use formation_chat_core.Database.Sites.{Site, Widget, AgentAlias, SiteTables}

pub data BootstrapError : Type 0 where
  site_not_found origin_not_allowed widget_not_found agent_alias_not_allowed : BootstrapError
  idempotency_conflict no_result : BootstrapError

-- `none` is a failure that no status code is given for.
abbrev pub status_code : BootstrapError → Option ℕ
status_code site_not_found = some 404
status_code widget_not_found = some 404
status_code origin_not_allowed = some 403
status_code agent_alias_not_allowed = some 403
status_code idempotency_conflict = some 409
status_code no_result = none

pub data Protocol : Type 0 where
  http_protocol https_protocol other_protocol : Protocol

pub record Url : Type 0 where
  pub protocol : Protocol
  pub origin : Text

abbrev pub http_origin : Url → Option Text
http_origin url = elim url.protocol [ other_protocol ↦ none | _ ↦ some url.origin ]

-- `none` is `undefined`: a text that is no address, or none of HTTP.
unfoldable pub normalize_origin : (Text → Option Url) → Text → Option Text
normalize_origin parse_url value = elim (parse_url value) [
  | none ↦ none
  | some url ↦ http_origin url
]

abbrev pub same_origin : Option Text → Option Text → Bool
same_origin none none = true
same_origin (some a) (some b) = same_text a b
same_origin _ _ = false

unfoldable pub find_site : ℕ → SiteTables → Option Site
find_site site_key tables = find_first (λ (s : Site). s.site_key == site_key) tables.sites

-- `!origin || !allowed`: an empty origin is none.
abbrev pub is_origin : Option Text → Bool
is_origin none = false
is_origin (some []) = false
is_origin (some (c ∷ cs)) = true

unfoldable pub allows_origin : (Text → Option Url) → Text → Site → Bool
allows_origin parse_url origin site =
    is_origin (normalize_origin parse_url origin)
    && any
        (λ candidate.
          same_origin (normalize_origin parse_url candidate) (normalize_origin parse_url origin))
        site.allowed_origins

abbrev pub or_default : Option ℕ → ℕ → ℕ
or_default (some a) b = a
or_default none b = b

unfoldable pub is_widget : (tenant_id site_id widget_key : ℕ) → Widget → Bool
is_widget tenant_id site_id widget_key row =
    row.tenant_id == tenant_id && row.site_id == site_id && row.widget_key == widget_key

unfoldable pub resolve_agent_ref :
    SiteTables
    → (tenant_id site_id default_agent_ref : ℕ) → (widget_key agent_alias : Option ℕ)
    → Result BootstrapError ℕ
resolve_agent_ref tables tenant_id site_id default_agent_ref none none = ok default_agent_ref
resolve_agent_ref tables tenant_id site_id default_agent_ref none (some alias) =
    err agent_alias_not_allowed
resolve_agent_ref tables tenant_id site_id default_agent_ref (some widget_key) agent_alias = do
  widget ←
      or_throw (find_first (is_widget tenant_id site_id widget_key) tables.site_widgets)
        widget_not_found
  let selected = or_default agent_alias widget.default_agent_alias
  match ←
      or_throw (find_first (λ (a : AgentAlias). a.alias == selected) widget.agent_aliases)
        agent_alias_not_allowed
  ok match.agent_ref
