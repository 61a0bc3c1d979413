-- ===== src/Retention/Redaction.antt =====
-- apps/server/src/privacy/retention.ts: the contact values behind a pass of the retention.
use formation_chat_core.Prelude.{
  ℕ, ◌+◌, ◌*◌, ◌≤◌, ◌<◌, ◌≡◌, refl, ◌∙◌, ◌⊎◌, inl, inr, Bool, true, false, none, some, List, [],
  ◌∷◌, arith, All, All-map, All-select, Bool-cases, Option-cases, update_where, if◌then◌else◌,
}
use formation_chat_core.Database.{Db}
use formation_chat_core.Database.Rows.{Conversation, Principal, InputRequest, InputStatus, Text}
use formation_chat_core.Retention.{
  RetentionPolicy, is_stale_value, redact, delete_conversation, delete_conversations,
  delete_requests, delete_runs, delete_messages, delete_events, delete_members, delete_commands,
  has_conversation, delete_principal, delete_principals, run_once,
}

-- A row of a table.
abbrev pub IsRow : InputRequest → List InputRequest → Type 0
IsRow r [] = true ≡ false
IsRow r (x ∷ xs) = (r ≡ x) ⊎ IsRow r xs

-- The end of the time that a contact value may be kept, in milliseconds.
abbrev pub kept_until : RetentionPolicy → InputRequest → ℕ
kept_until policy r = r.updated_at + policy.contact_value_hours * (60 * 60 * 1000)

-- What a pass makes of the rows before it: a row stays as it is where it has no value or its time is
-- not over, and is blanked and expired where it has one whose time is over.
pub data IsTreated (policy : RetentionPolicy) (now : ℕ) (before : List InputRequest)
    (row : InputRequest) : Type 0 where
  empty : IsRow row before → row.value ≡ none → IsTreated policy now before row
  young : IsRow row before → now ≤ kept_until policy row → IsTreated policy now before row
  blanked :
      (r : InputRequest) (value : Text)
      → IsRow r before
      → r.value ≡ some value
      → kept_until policy r < now
      → row ≡ record r { value = none; status = InputStatus.expired }
      → IsTreated policy now before row

abbrev pub AreTreated : RetentionPolicy → ℕ → List InputRequest → List InputRequest → Type 0
AreTreated policy now before after = All (IsTreated policy now before) after

delete_principals-inputs :
    (ps : List Principal) (db : Db)
    → (delete_principals ps db).0.structured_input_requests ≡ db.structured_input_requests
unfolding delete_principals
delete_principals-inputs [] db = refl
delete_principals-inputs (p ∷ ps) db = elim (Bool-cases (has_conversation p db.conversations)) [
  | inl e ↦ rw (e, delete_principals) (delete_principals-inputs ps db)
  | inr e ↦
      rw (e, delete_principals)
        (delete_principals-inputs ps (delete_principal p db) ∙ unfold delete_principal in refl)
]

module _ (policy : RetentionPolicy) (now : ℕ) where
  more-IsTreated :
      (x : InputRequest) (before : List InputRequest) (row : InputRequest)
      → IsTreated policy now before row
      → IsTreated policy now (x ∷ before) row
  more-IsTreated x before row (IsTreated.empty there none_left) =
      IsTreated.empty (inr there) none_left
  more-IsTreated x before row (IsTreated.young there time) = IsTreated.young (inr there) time
  more-IsTreated x before row (IsTreated.blanked r value there had time same) =
      IsTreated.blanked r value (inr there) had time same

  abbrev blank : InputRequest → InputRequest
  blank r = record r { value = none; status = InputStatus.expired }

  row-IsTreated :
      (r : InputRequest) (before : List InputRequest) (stale : Bool)
      → is_stale_value policy now r ≡ stale
      → IsTreated policy now (r ∷ before) (if stale then blank r else r)
  unfolding is_stale_value
  row-IsTreated r before true e = elim (Option-cases r.value) [
    | inl missing ↦ ground (arith, e, missing)
    | inr (value, had) ↦ IsTreated.blanked r value (inl refl) had (ground (arith, e)) refl
  ]
  row-IsTreated r before false e = elim (Option-cases r.value) [
    | inl missing ↦ IsTreated.empty (inl refl) missing
    | inr (value, had) ↦ IsTreated.young (inl refl) (ground (arith, e, had))
  ]

  redact-AreTreated :
      (rows : List InputRequest)
      → AreTreated policy now rows (update_where (is_stale_value policy now) blank rows)
  unfolding update_where
  redact-AreTreated [] = tt
  redact-AreTreated (r ∷ rows) =
      (row-IsTreated r rows _ refl, All-map (more-IsTreated r rows) _ (redact-AreTreated rows))

  -- The deletions behind it leave some of the rows as they are.
  delete_conversations-AreTreated :
      (cs : List Conversation) (before : List InputRequest) (db : Db)
      → AreTreated policy now before db.structured_input_requests
      → AreTreated policy now before (delete_conversations cs db).structured_input_requests
  unfolding delete_conversations delete_conversation delete_members delete_messages delete_events
      delete_runs delete_requests
  delete_conversations-AreTreated [] before db h = h
  delete_conversations-AreTreated (c ∷ cs) before db h =
      delete_conversations-AreTreated cs before (delete_conversation c db)
        (All-select _ _ _ (All-select _ _ _ (All-select _ _ db.structured_input_requests h)))

  -- Behind a pass every contact value whose time is over is blanked and its input expired, and every
  -- other input that is left is as it was before.
  pub run_once-AreTreated :
      (db : Db)
      → AreTreated policy now db.structured_input_requests
          (run_once policy now db).0.structured_input_requests
  unfolding run_once delete_commands redact
  run_once-AreTreated db = rw (delete_principals-inputs _ _) (
      delete_conversations-AreTreated _ db.structured_input_requests _
        (redact-AreTreated db.structured_input_requests))
