-- ===== src/Admin.antt =====
-- apps/server/src/admin/service.ts: the lists of the administration. The participants and previews
-- of listed conversations and the overview are left out.
pub mod Cursor
pub mod Scoping
use formation_chat_core.Prelude.{
  ℕ, suc, ◌+◌, Bool, true, false, not, ◌&&◌, ◌||◌, Option, none, some, List, [], ◌∷◌, map, Result,
  ok, err, ◌>>=◌, ◌>>◌, guard, or_throw, ltb, leb, ◌==◌, if◌then◌else◌, holds, length, select, take,
  last?, order_by, find_first, any, Sealing, TimeTexts, by_key,
}
use formation_chat_core.Database.{Db}
use formation_chat_core.Database.Rows.{
  Text, Conversation, ConversationStatus, Message, Event, Run, RunStatus, RunErrorCode, Handoff,
  HandoffStatus, Visibility,
}
use formation_chat_core.Database.TimePages.{TimeCursor, TimePage, time_page}
use formation_chat_core.Message.{MessageView, map_message}
use Cursor.{
  CursorKind, encode_time_cursor, decode_time_cursor, encode_sequence_cursor,
  decode_sequence_cursor,
}

pub data AdminApiError : Type 0 where
  forbidden_site invalid_cursor invalid_date_range not_found : AdminApiError

abbrev pub status_code : AdminApiError → ℕ
status_code forbidden_site = 403
status_code invalid_cursor = 400
status_code invalid_date_range = 400
status_code not_found = 404

-- The tenant of a token, and whether its scopes hold `admin:internal`.
pub record AdminScope : Type 0 where
  pub tenant_id : ℕ
  pub internal : Bool

-- A filter whose dates are parsed. Its status is a test, which is absent where none is asked for.
pub record AdminFilter (A : Type 0) : Type 0 where
  pub site_id : Option ℕ
  pub agent_ref : Option ℕ
  pub has_status : Option (A → Bool)
  pub created_after : Option ℕ
  pub created_before : Option ℕ
  pub cursor : Option Text
  pub limit : ℕ

pub record AdminPage (A : Type 0) : Type 0 where
  pub rows : List A
  pub next_cursor : Option Text

abbrev pub passes {ℓ} : {A : Type ℓ} → (A → Bool) → Option A → Bool
passes test none = true
passes test (some a) = test a

abbrev pub is_range : Option ℕ → Option ℕ → Bool
is_range (some after) (some before) = ltb after before
is_range _ _ = true

-- `validateFilter`.
unfoldable pub validate_filter : {A : Type 0} → AdminFilter A → Result AdminApiError (Unit {0})
validate_filter filter =
    guard (is_range filter.created_after filter.created_before) invalid_date_range

-- The conditions that a filter adds to a query, on the columns of a row.
unfoldable pub matches :
    {A : Type 0} → AdminFilter A → (site_id agent_ref created_at : A → ℕ) → A → Bool
matches filter site_id agent_ref created_at row =
    passes (λ s. site_id row == s) filter.site_id
    && passes (λ a. agent_ref row == a) filter.agent_ref
    && passes (λ test. test row) filter.has_status
    && passes (λ t. leb t (created_at row)) filter.created_after
    && passes (λ t. ltb (created_at row) t) filter.created_before

-- The pages of `conversations`, `runs`, `failures` and `handoffs`.
module _ (sealing : Sealing) (texts : TimeTexts) where
  abbrev pub or_invalid {ℓ} : {A : Type ℓ} → Option A → Result AdminApiError (Option A)
  or_invalid none = err invalid_cursor
  or_invalid (some cursor) = ok (some cursor)

  unfoldable pub time_cursor : CursorKind → Option Text → Result AdminApiError (Option TimeCursor)
  time_cursor kind none = ok none
  time_cursor kind (some []) = ok none
  time_cursor kind (some (c ∷ cs)) = or_invalid (decode_time_cursor sealing texts kind (c ∷ cs))

  abbrev pub encode_next : CursorKind → Option TimeCursor → Option Text
  encode_next kind none = none
  encode_next kind (some cursor) = some (encode_time_cursor sealing texts kind cursor)

  abbrev pub serve : {A : Type 0} → CursorKind → TimePage A → AdminPage A
  serve kind page = record { rows = page.rows; next_cursor = encode_next kind page.next_cursor }

  -- A list: its kind of cursor, the columns of its order and the rows that it admits.
  unfoldable pub list_rows :
      {A : Type 0}
      → CursorKind
      → (time id : A → ℕ) → (admits : A → Bool) → AdminFilter A
      → List A
      → Result AdminApiError (AdminPage A)
  list_rows kind time id admits filter table = do
    validate_filter filter
    after ← time_cursor kind filter.cursor
    ok (serve kind (time_page time id texts.kept admits after filter.limit table))

  unfoldable pub admits_conversation : AdminScope → AdminFilter Conversation → Conversation → Bool
  admits_conversation scope filter row =
      row.tenant_id == scope.tenant_id
      && matches filter (λ (c : Conversation). c.site_id) (λ c. c.agent_ref) (λ c. c.created_at) row

  unfoldable pub list_conversations :
      AdminScope → AdminFilter Conversation → Db → Result AdminApiError (AdminPage Conversation)
  list_conversations scope filter db =
      list_rows CursorKind.conversation (λ (c : Conversation). c.updated_at)
        (λ c. c.conversation_id) (admits_conversation scope filter) filter db.conversations

  unfoldable pub admits_run : AdminScope → AdminFilter Run → Run → Bool
  admits_run scope filter row =
      row.tenant_id == scope.tenant_id
      && matches filter (λ (r : Run). r.site_id) (λ r. r.agent_ref) (λ r. r.created_at) row

  unfoldable pub list_runs :
      AdminScope → AdminFilter Run → Db → Result AdminApiError (AdminPage Run)
  list_runs scope filter db =
      list_rows CursorKind.run (λ (r : Run). r.created_at) (λ r. r.run_id) (admits_run scope filter)
        filter db.agent_runs

  abbrev pub is_failed : Run → Bool
  is_failed row = elim row.status [ RunStatus.failed ↦ true | _ ↦ false ]

  -- Failed runs: their filter has no status.
  unfoldable pub list_failures :
      AdminScope → AdminFilter Run → Db → Result AdminApiError (AdminPage Run)
  list_failures scope filter db =
      list_rows CursorKind.failure (λ (r : Run). r.created_at) (λ r. r.run_id)
        (λ row. is_failed row && admits_run scope filter row) filter db.agent_runs

  -- The join of a handoff with its run: a handoff without one is not listed.
  unfoldable pub admits_handoff : AdminScope → AdminFilter Handoff → List Run → Handoff → Bool
  admits_handoff scope filter runs row =
      row.tenant_id == scope.tenant_id
      && holds
          (λ (run : Run).
            matches filter (λ (h : Handoff). h.site_id) (λ _. run.agent_ref) (λ h. h.created_at)
              row)
          (find_first (λ (r : Run). r.run_id == row.run_id) runs)

  unfoldable pub list_handoffs :
      AdminScope → AdminFilter Handoff → Db → Result AdminApiError (AdminPage Handoff)
  list_handoffs scope filter db =
      list_rows CursorKind.handoff (λ (h : Handoff). h.created_at) (λ h. h.handoff_id)
        (admits_handoff scope filter db.agent_runs) filter db.handoffs

  -- The pages of a conversation's messages and events, in the order of their sequences.
  unfoldable pub scoped_conversation : AdminScope → ℕ → Db → Result AdminApiError Conversation
  scoped_conversation scope conversation_id db =
      or_throw
        (find_first
          (λ (c : Conversation).
            c.tenant_id == scope.tenant_id && c.conversation_id == conversation_id)
          db.conversations)
        not_found

  unfoldable pub sequence_cursor : CursorKind → Option Text → Result AdminApiError (Option ℕ)
  sequence_cursor kind none = ok none
  sequence_cursor kind (some []) = ok none
  sequence_cursor kind (some (c ∷ cs)) = or_invalid (decode_sequence_cursor sealing kind (c ∷ cs))

  abbrev pub is_after : Option ℕ → ℕ → Bool
  is_after none sequence = true
  is_after (some cursor) sequence = ltb cursor sequence

  unfoldable pub sequence_page :
      {A : Type 0} → CursorKind → (sequence : A → ℕ) → (limit : ℕ) → List A → AdminPage A
  sequence_page kind sequence limit rows =
      let read = take (suc limit) (order_by (by_key sequence) rows) in
      let page = take limit read in
      record {
        rows = page;
        next_cursor =
            if ltb limit (length read)
            then elim (last? page) [
              | none ↦ none
              | some tail ↦ some (encode_sequence_cursor sealing kind (sequence tail))
            ]
            else none;
      }

  unfoldable pub list_messages :
      AdminScope
      → (conversation_id : ℕ) → (cursor : Option Text) → (limit : ℕ) → Db
      → Result AdminApiError (AdminPage Message)
  list_messages scope conversation_id cursor limit db = do
    _ ← scoped_conversation scope conversation_id db
    after ← sequence_cursor CursorKind.message cursor
    ok (
        sequence_page CursorKind.message (λ (m : Message). m.sequence) limit
          (select
            (λ (m : Message).
              m.tenant_id == scope.tenant_id
              && m.conversation_id == conversation_id
              && is_after after m.sequence)
            db.messages))

  abbrev pub is_internal : Visibility → Bool
  is_internal Visibility.internal = true
  is_internal _ = false

  -- Internal events only with the scope for them.
  unfoldable pub admits_event : AdminScope → (conversation_id : ℕ) → Option ℕ → Event → Bool
  admits_event scope conversation_id after row =
      row.tenant_id == scope.tenant_id
      && row.conversation_id == conversation_id
      && (scope.internal || not (is_internal row.visibility))
      && is_after after row.sequence

  unfoldable pub list_events :
      AdminScope
      → (conversation_id : ℕ) → (cursor : Option Text) → (limit : ℕ) → Db
      → Result AdminApiError (AdminPage Event)
  list_events scope conversation_id cursor limit db = do
    _ ← scoped_conversation scope conversation_id db
    after ← sequence_cursor CursorKind.event cursor
    ok (
        sequence_page CursorKind.event (λ (e : Event). e.sequence) limit
          (select (admits_event scope conversation_id after) db.conversation_events))
