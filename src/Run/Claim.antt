-- ===== src/Run/Claim.antt =====
-- apps/server/src/run/worker.ts, `claim`: which run it takes, for how long, and how often.
pub mod Order
use formation_chat_core.Prelude.{
  ℕ, ◌+◌, ◌≤◌, ◌<◌, ◌≡◌, ◌≢◌, refl, sym, ◌∙◌, ap, Bool, true, false, ◌⊎◌, inl, inr, Option, none,
  some, List, arith, ok, Option-cases, Bool-cases, find_first, select, update_where, first_by, All,
  All-map, All-select_hit, first_by-All, HaveDistinctKeys, find_own, find_first-update_where,
  All-update_anew, update-HaveDistinctKeys, subst, first_by_least, first_by-none, ◌↔◌,
}
use formation_chat_core.Database.{Db}
use formation_chat_core.Database.Rows.{Run, RunStatus}
use formation_chat_core.Database.Statements.{is_queued}
use formation_chat_core.Run.{WorkerOptions, has_id, is_claimable, by_availability, claim_run, claim}

-- `run_id` is the primary key of `agent_runs`.
abbrev pub RunsKeyed : Db → Type 0
RunsKeyed db = HaveDistinctKeys (λ (r : Run). r.run_id) db.agent_runs

module _ (options : WorkerOptions) (locked : ℕ → Bool) (now : ℕ) (db : Db) where
  -- A claim of `run` from the row `candidate`.
  pub record IsClaim (after : Db) (run : Run) : Type 0 where
    pub candidate : Run
    pub first :
        first_by by_availability (is_claimable options locked now) db.agent_runs ≡ some candidate
    pub claimable : is_claimable options locked now candidate ≡ true
    pub claimed : run ≡ claim_run options now candidate
    pub written : after ≡ record db {
      agent_runs = update_where (has_id candidate.run_id) (claim_run options now) db.agent_runs;
    }

  pub candidate-own :
      (candidate : Run)
      → RunsKeyed db
      → first_by by_availability (is_claimable options locked now) db.agent_runs ≡ some candidate
      → (is_claimable options locked now candidate ≡ true)
        × (find_first (has_id candidate.run_id) db.agent_runs ≡ some candidate)
  candidate-own candidate keyed e =
      first_by-All by_availability
        (λ c.
          (is_claimable options locked now c ≡ true)
          × (find_first (has_id c.run_id) db.agent_runs ≡ some c))
        (is_claimable options locked now) db.agent_runs candidate
        (All-select_hit (is_claimable options locked now) db.agent_runs (λ c hit own. (hit, own))
          (find_own (λ (r : Run). r.run_id) db.agent_runs keyed))
        e

  pub has_id-claim_run : (id : ℕ) (r : Run) → has_id id (claim_run options now r) ≡ has_id id r
  unfolding claim_run
  has_id-claim_run id r = refl

  pub claim-IsClaim :
      (after : Db) (run : Run)
      → RunsKeyed db
      → claim options locked now db ≡ ok (some (after, run))
      → IsClaim after run
  unfolding claim
  claim-IsClaim after run keyed h =
      go (first_by by_availability (is_claimable options locked now) db.agent_runs) refl
    where
      go :
          (found : Option Run)
          → first_by by_availability (is_claimable options locked now) db.agent_runs ≡ found
          → IsClaim after run
      go none e = ground (arith, e)
      go (some c) e =
          let (claimable, own) = candidate-own c keyed e in
          let moved =
            find_first-update_where (has_id c.run_id) (has_id c.run_id) (claim_run options now)
              db.agent_runs (has_id-claim_run c.run_id) in
          record {
            candidate = c;
            first = e;
            claimable = claimable;
            claimed = ground (arith, e, own, moved);
            written = ground (arith, e, own, moved);
          }

-- What the row was that a claim may take: due, with attempts left, and queued or with its lease over.
pub record WasDue (options : WorkerOptions) (now : ℕ) (candidate : Run) : Type 0 where
  pub available : candidate.available_at ≤ now
  pub attempts_left : candidate.attempt < options.max_attempts
  pub state :
      (candidate.status ≡ RunStatus.queued)
      ⊎ ((candidate.status ≡ RunStatus.running)
          × (lease : ℕ) × (candidate.lease_expires_at ≡ some lease)
          × (lease ≤ now))

is_queued-eq : (s : RunStatus) → is_queued s ≡ true → s ≡ RunStatus.queued
is_queued-eq s h = ground arith

pub is_claimable-WasDue :
    (options : WorkerOptions) (locked : ℕ → Bool) (now : ℕ) (c : Run)
    → is_claimable options locked now c ≡ true
    → WasDue options now c
unfolding is_claimable
is_claimable-WasDue options locked now c h = record {
  available = ground arith;
  attempts_left = ground arith;
  state = elim (Option-cases c.lease_expires_at) [
    | inl no_lease ↦ inl (ground (arith, no_lease))
    | inr (t, lease) ↦ elim (Bool-cases (is_queued c.status)) [
      | inl q ↦ inl (is_queued-eq c.status q)
      | inr other ↦ inr (ground (arith, lease), t, lease, ground (arith, lease))
    ]
  ];
}

-- A claim takes a run that is due, with one attempt more that is still within the limit, and gives it
-- a lease of `lease_ms`. The run was queued, or running under a lease that is over.
pub claim-WasDue :
    (options : WorkerOptions) (locked : ℕ → Bool) (now : ℕ) (db after : Db) (run : Run)
    → RunsKeyed db
    → claim options locked now db ≡ ok (some (after, run))
    → (candidate : Run) × WasDue options now candidate
      × (run.run_id ≡ candidate.run_id)
      × (run.status ≡ RunStatus.running)
      × (run.attempt ≡ candidate.attempt + 1)
      × (run.attempt ≤ options.max_attempts)
      × (run.lease_expires_at ≡ some (now + options.lease_ms))
unfolding claim_run
claim-WasDue options locked now db after run keyed h =
    let c = claim-IsClaim options locked now db after run keyed h in
    let due = is_claimable-WasDue options locked now c.candidate c.claimable in
    (
      c.candidate,
      due,
      ap (λ (r : Run). r.run_id) c.claimed,
      ap (λ (r : Run). r.status) c.claimed,
      ap (λ (r : Run). r.attempt) c.claimed,
      omega (arith, ap (λ (r : Run). r.attempt) c.claimed, due.attempts_left),
      ap (λ (r : Run). r.lease_expires_at) c.claimed,
    )

claim_run-leased :
    (options : WorkerOptions) (locked : ℕ → Bool) (now later : ℕ) (r : Run)
    → later < now + options.lease_ms
    → is_claimable options locked later (claim_run options now r) ≡ false
unfolding is_claimable claim_run
claim_run-leased options locked now later r h = ground arith

claimed-leased :
    (options : WorkerOptions) (others : ℕ → Bool) (now later id : ℕ) (rs : List Run)
    → later < now + options.lease_ms
    → All
        (λ (r : Run). r.run_id ≡ id → is_claimable options others later r ≡ false)
        (update_where (has_id id) (claim_run options now) rs)
claimed-leased options others now later id rs lease =
    All-update_anew (λ (r : Run). r.run_id ≡ id → is_claimable options others later r ≡ false)
      (has_id id) (claim_run options now) rs
      (λ r _ _. claim_run-leased options others now later r lease)
      (λ r miss same. ground (arith, miss, same))

-- A claim keeps the identifiers of the runs unique.
pub claim-RunsKeyed :
    (options : WorkerOptions) (locked : ℕ → Bool) (now : ℕ) (db after : Db) (run : Run)
    → RunsKeyed db
    → claim options locked now db ≡ ok (some (after, run))
    → RunsKeyed after
claim-RunsKeyed options locked now db after run keyed h =
    let c = claim-IsClaim options locked now db after run keyed h in
    let kept =
      update-HaveDistinctKeys (λ (r : Run). r.run_id) (has_id c.candidate.run_id)
        (claim_run options now) db.agent_runs (λ r. unfold claim_run in refl) keyed in
    subst (λ (d : Db). RunsKeyed d) (sym c.written) kept

-- On the database that a claim leaves, no worker's claim takes the same run before the lease is over.
pub claim_exclusive :
    (options : WorkerOptions) (locked others : ℕ → Bool) (now later : ℕ) (db after final : Db)
    (run next : Run)
    → RunsKeyed db
    → claim options locked now db ≡ ok (some (after, run))
    → later < now + options.lease_ms
    → claim options others later after ≡ ok (some (final, next))
    → next.run_id ≢ run.run_id
unfolding claim_run
claim_exclusive options locked others now later db after final run next keyed h lease again same =
    let c = claim-IsClaim options locked now db after run keyed h in
    let d =
      claim-IsClaim options others later after final next
        (claim-RunsKeyed options locked now db after run keyed h) again in
    let leased : All
        (λ (r : Run). r.run_id ≡ c.candidate.run_id → is_claimable options others later r ≡ false)
        after.agent_runs =
      subst
        (λ (x : Db).
          All
            (λ (r : Run).
              r.run_id ≡ c.candidate.run_id → is_claimable options others later r ≡ false)
            x.agent_runs)
        (sym c.written)
        (claimed-leased options others now later c.candidate.run_id db.agent_runs lease) in
    let barred =
      first_by-All by_availability (λ (r : Run). r.run_id ≡ c.candidate.run_id → true ≡ false)
        (is_claimable options others later) after.agent_runs d.candidate
        (All-select_hit (is_claimable options others later) after.agent_runs
          (λ r hit no_way e. sym hit ∙ no_way e) leased)
        d.first in
    let ids = ap (λ (r : Run). r.run_id) d.claimed in
    let taken = ap (λ (r : Run). r.run_id) c.claimed in
    let never : true ≡ false = barred (sym ids ∙ same ∙ taken) in cc
