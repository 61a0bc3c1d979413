-- ===== src/Admin/Scoping.antt =====
-- apps/server/src/admin/service.ts: what a token's tenant and scopes keep from it.
use formation_chat_core.Prelude.{
  ℕ, suc, ◌≤◌, ◌≡◌, subst, true, not, ◌||◌, Option, List, arith, ok, ok_injective, >>=-eq-ok,
  length, length-take-le, take, All, All-take, All-order_by, select-All, order_by, by_key, Sealing,
  TimeTexts,
}
use formation_chat_core.Database.{Db}
use formation_chat_core.Database.Rows.{Text, Event}
use formation_chat_core.Admin.{
  AdminScope, AdminPage, CursorKind, list_events, admits_event, is_internal, sequence_page,
  sequence_cursor, scoped_conversation,
}

-- An event that a token may read in a list of a conversation.
abbrev pub MayRead : Sealing → TimeTexts → AdminScope → ℕ → Event → Type 0
MayRead sealing texts scope conversation_id e =
    (e.tenant_id ≡ scope.tenant_id)
    × (e.conversation_id ≡ conversation_id)
    × ((scope.internal || not (is_internal sealing texts e.visibility)) ≡ true)

module _ (sealing : Sealing) (texts : TimeTexts) where
  sequence_page-rows :
      {A : Type 0} (P : A → Type 0) (kind : CursorKind) (sequence : A → ℕ) (limit : ℕ)
      (rows : List A)
      → All P rows
      → All P (sequence_page sealing texts kind sequence limit rows).rows
        × (length (sequence_page sealing texts kind sequence limit rows).rows ≤ limit)
  unfolding sequence_page
  sequence_page-rows P kind sequence limit rows h = (
    All-take sequence P limit _
        (All-take sequence P (suc limit) _ (All-order_by (by_key sequence) P rows h)),
    length-take-le limit (take (suc limit) (order_by (by_key sequence) rows)),
  )

  admits_event-MayRead :
      (scope : AdminScope) (conversation_id : ℕ) (after : Option ℕ) (e : Event)
      → admits_event sealing texts scope conversation_id after e ≡ true
      → MayRead sealing texts scope conversation_id e
  unfolding admits_event
  admits_event-MayRead scope conversation_id after e h = ground arith

  -- A page of a conversation's events is at most as long as was asked for. Every event of it is of
  -- the token's tenant and of the conversation, and an internal one is there only for a token whose
  -- scopes hold it.
  pub list_events-MayRead :
      (scope : AdminScope) (conversation_id : ℕ) (cursor : Option Text) (limit : ℕ) (db : Db)
      (page : AdminPage Event)
      → list_events sealing texts scope conversation_id cursor limit db ≡ ok page
      → All (MayRead sealing texts scope conversation_id) page.rows × (length page.rows ≤ limit)
  unfolding list_events
  list_events-MayRead scope conversation_id cursor limit db page done =
      let (c, found, rest) =
        >>=-eq-ok (scoped_conversation sealing texts scope conversation_id db) _ done in
      let (after, read, served) =
        >>=-eq-ok (sequence_cursor sealing texts CursorKind.event cursor) _ rest in
      subst
        (λ (p : AdminPage Event).
          All (MayRead sealing texts scope conversation_id) p.rows × (length p.rows ≤ limit))
        (ok_injective _ page served)
        (sequence_page-rows (MayRead sealing texts scope conversation_id) CursorKind.event
          (λ (e : Event). e.sequence) limit _
          (select-All (admits_event sealing texts scope conversation_id after)
            db.conversation_events (admits_event-MayRead scope conversation_id after)))
