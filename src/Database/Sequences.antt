-- ===== src/Database/Sequences.antt =====
-- Sequence numbers taken from a counter of the conversation row, as `messages` takes them from
-- `next_message_sequence` and `conversation_events` from `next_event_sequence`.
use formation_chat_core.Prelude.{
  ℕ, ◌+◌, ◌<◌, ◌≡◌, ◌≢◌, sym, ◌∙◌, ap, Bool, true, false, some, List, [], ◌∷◌, ◌++◌, arith,
  find_first, update_where, select, All, All-map, All-append, All-find_first, All-select,
  All-update_where, All-update_split, find_first_sound, Bool-cases, inl, inr,
}
use formation_chat_core.Database.Rows.{Conversation}

-- `conversation_id` is the primary key of `conversations`.
abbrev pub IsKeyed : List Conversation → Type 0
IsKeyed [] = Unit
IsKeyed (c ∷ cs) = All (λ d. d.conversation_id ≢ c.conversation_id) cs × IsKeyed cs

-- An update of conversation rows that keeps their identifier.
module _ (p : Conversation → Bool) (f : Conversation → Conversation)
    (same : (c : Conversation) → (f c).conversation_id ≡ c.conversation_id) where
  All-ne-update :
      (id : ℕ) (cs : List Conversation)
      → All (λ d. d.conversation_id ≢ id) cs
      → All (λ d. d.conversation_id ≢ id) (update_where p f cs)
  All-ne-update id cs h =
      All-update_where (λ d. d.conversation_id ≢ id) p f cs (λ d _ ne e. ne (sym (same d) ∙ e)) h

  pub update-IsKeyed : (cs : List Conversation) → IsKeyed cs → IsKeyed (update_where p f cs)
  unfolding update_where
  update-IsKeyed [] h = tt
  update-IsKeyed (c ∷ cs) (h, hs) = elim (Bool-cases (p c)) [
    | inl e ↦ rw e (rw (same c) (All-ne-update c.conversation_id cs h), update-IsKeyed cs hs)
    | inr e ↦ rw e (All-ne-update c.conversation_id cs h, update-IsKeyed cs hs)
  ]

-- Where the identifier is a key, the row that a test of it finds is the only one of its identifier.
pub find_first_only :
    (p : Conversation → Bool) (id : ℕ) (c : Conversation) (cs : List Conversation)
    → ((d : Conversation) → p d ≡ true → d.conversation_id ≡ id)
    → IsKeyed cs
    → find_first p cs ≡ some c
    → All (λ d. d.conversation_id ≡ id → d ≡ c) cs
unfolding find_first
find_first_only p id c [] keyed k h = tt
find_first_only p id c (d ∷ ds) keyed (k, ks) h = elim (Bool-cases (p d)) [
  | inl e ↦ (λ _. ground arith, All-map (λ x ne i. absurd (ne (i ∙ sym (keyed d e)))) ds k)
  | inr e ↦
      let later : find_first p ds ≡ some c = rw e at h in
      (
        λ i. absurd (
            All-find_first (λ x. x.conversation_id ≢ d.conversation_id) p ds c k later
              (keyed c (find_first_sound p ds c later) ∙ sym i)),
        find_first_only p id c ds keyed ks later,
      )
]

module _ {Row : Type 0} (conversation_of sequence_of : Row → ℕ) (next : Conversation → ℕ) where
  -- The counter of its conversation is above the sequence of the row.
  abbrev pub IsBelow : List Conversation → Row → Type 0
  IsBelow cs r = All (λ c. c.conversation_id ≡ conversation_of r → sequence_of r < next c) cs

  -- No two rows of a conversation have one sequence.
  abbrev pub HaveDistinctSequences : List Row → Type 0
  HaveDistinctSequences [] = Unit
  HaveDistinctSequences (r ∷ rs) =
      All (λ q. conversation_of q ≡ conversation_of r → sequence_of q ≢ sequence_of r) rs
      × HaveDistinctSequences rs

  pub record IsSequenced (cs : List Conversation) (rs : List Row) : Type 0 where
    pub keyed : IsKeyed cs
    pub below : All (IsBelow cs) rs
    pub distinct : HaveDistinctSequences rs

  -- A new row whose sequence no row of its conversation has.
  distinct-append :
      (rs : List Row) (r : Row)
      → All (λ q. conversation_of q ≡ conversation_of r → sequence_of q ≢ sequence_of r) rs
      → HaveDistinctSequences rs
      → HaveDistinctSequences (rs ++ r ∷ [])
  distinct-append [] r h d = (tt, tt)
  distinct-append (q ∷ qs) r (h, hs) (d, ds) =
      (All-append _ qs (r ∷ []) d (λ e same. h (sym e) (sym same), tt), distinct-append qs r hs ds)

  distinct-select :
      (p : Row → Bool) (rs : List Row)
      → HaveDistinctSequences rs
      → HaveDistinctSequences (select p rs)
  unfolding select
  distinct-select p [] d = tt
  distinct-select p (r ∷ rs) (d, ds) = elim (Bool-cases (p r)) [
    | inl e ↦ rw e (All-select _ p rs d, distinct-select p rs ds)
    | inr e ↦ rw e (distinct-select p rs ds)
  ]

  -- Deleting rows keeps the rest in sequence.
  pub select-IsSequenced :
      (p : Row → Bool) (cs : List Conversation) (rs : List Row)
      → IsSequenced cs rs
      → IsSequenced cs (select p rs)
  select-IsSequenced p cs rs s = record {
    keyed = s.keyed;
    below = All-select (IsBelow cs) p rs s.below;
    distinct = distinct-select p rs s.distinct;
  }

  module _ (p : Conversation → Bool) (f : Conversation → Conversation) (id : ℕ)
      (keyed : (d : Conversation) → p d ≡ true → d.conversation_id ≡ id)
      (same : (c : Conversation) → (f c).conversation_id ≡ c.conversation_id)
      (step : (c : Conversation) → next (f c) ≡ next c + 1) where
    update-IsBelow :
        (r : Row) (cs : List Conversation) → IsBelow cs r → IsBelow (update_where p f cs) r
    update-IsBelow r cs h =
        All-update_where (λ c. c.conversation_id ≡ conversation_of r → sequence_of r < next c) p f
          cs (λ c _ lt e. omega (arith, lt (sym (same c) ∙ e), step c)) h

    new-IsBelow :
        (c : Conversation) (r : Row) (cs : List Conversation)
        → IsKeyed cs
        → find_first p cs ≡ some c
        → conversation_of r ≡ id
        → sequence_of r ≡ next c
        → IsBelow (update_where p f cs) r
    new-IsBelow c r cs k found conv seq =
        All-update_split {P = λ d. d.conversation_id ≡ id → d ≡ c} p f cs
          (λ d _ only e.
            let one : d ≡ c = only (sym (same d) ∙ e ∙ conv) in
            omega (arith, ap next one, step d, seq))
          (λ d miss only e.
            let one : d ≡ c = only (e ∙ conv) in
            let hit : p d ≡ true = ap p one ∙ find_first_sound p cs c found in
            let no_way : true ≡ false = sym hit ∙ miss in cc)
          (find_first_only p id c cs keyed k found)

    -- A row that takes the counter's value, with the counter moved on.
    pub append-IsSequenced :
        (c : Conversation) (r : Row) (cs : List Conversation) (rs : List Row)
        → find_first p cs ≡ some c
        → conversation_of r ≡ id
        → sequence_of r ≡ next c
        → IsSequenced cs rs
        → IsSequenced (update_where p f cs) (rs ++ r ∷ [])
    append-IsSequenced c r cs rs found conv seq s = record {
      keyed = update-IsKeyed p f same cs s.keyed;
      below =
          All-append (IsBelow (update_where p f cs)) rs (r ∷ [])
            (All-map (λ q. update-IsBelow q cs) rs s.below)
            (new-IsBelow c r cs s.keyed found conv seq, tt);
      distinct =
          distinct-append rs r
            (All-map
              (λ q b e eq.
                let lt : sequence_of q < next c =
                  All-find_first
                    (λ d. d.conversation_id ≡ conversation_of q → sequence_of q < next d) p cs c b
                    found (keyed c (find_first_sound p cs c found) ∙ sym conv ∙ sym e) in
                omega (arith, lt, eq, seq))
              rs s.below)
            s.distinct;
    }
