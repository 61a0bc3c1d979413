-- ===== src/Run/Claim/Order.antt =====
-- apps/server/src/run/worker.ts, `claim`: the order in which runs are taken, and those that never are.
use formation_chat_core.Prelude.{
  ℕ, ◌≤◌, ◌<◌, ◌≡◌, ◌≢◌, sym, ◌∙◌, ap, Bool, true, false, ◌⊎◌, inl, inr, none, some, arith, ok,
  Option-cases, find_first, select, first_by, All, All-map, All-select_hit, first_by-All,
  find_first-update_where, first_by_least, first_by-none, ◌↔◌,
}
use formation_chat_core.Database.{Db}
use formation_chat_core.Database.Rows.{Run}
use formation_chat_core.Run.{WorkerOptions, has_id, is_claimable, by_availability, claim_run, claim}
use formation_chat_core.Run.Claim.{
  candidate-own, has_id-claim_run, is_claimable-WasDue, RunsKeyed, claim-IsClaim,
}

by_availability_total : (a b : Run) → by_availability a b ≡ false → by_availability b a ≡ true
unfolding by_availability
by_availability_total a b h = ground arith

by_availability_trans :
    (a b c : Run)
    → by_availability a b ≡ true
    → by_availability b c ≡ true
    → by_availability a c ≡ true
unfolding by_availability
by_availability_trans a b c h k = ground arith

-- A claim takes the run that is available longest, and of those the oldest: no claimable run stands
-- before it.
pub claim_earliest :
    (options : WorkerOptions) (locked : ℕ → Bool) (now : ℕ) (db after : Db) (run : Run)
    → RunsKeyed db
    → claim options locked now db ≡ ok (some (after, run))
    → (candidate : Run) × (run ≡ claim_run options now candidate)
      × All
          (λ other.
            (candidate.available_at < other.available_at)
            ⊎ ((candidate.available_at ≡ other.available_at)
                × (candidate.created_at ≤ other.created_at)))
          (select (is_claimable options locked now) db.agent_runs)
unfolding by_availability
claim_earliest options locked now db after run keyed h =
    let c = claim-IsClaim options locked now db after run keyed h in
    (
      c.candidate,
      c.claimed,
      All-map (λ r le. ground (arith, le)) _
          (first_by_least by_availability by_availability_total by_availability_trans
            (is_claimable options locked now) db.agent_runs c.candidate c.first),
    )

-- A claim finds nothing exactly when no run is claimable.
pub claim-none_iff :
    (options : WorkerOptions) (locked : ℕ → Bool) (now : ℕ) (db : Db)
    → RunsKeyed db
    → (claim options locked now db ≡ ok none)
      ↔ All (λ r. is_claimable options locked now r ≡ false) db.agent_runs
unfolding claim
claim-none_iff options locked now db keyed = (to, from)
  where
    to :
        claim options locked now db ≡ ok none
        → All (λ r. is_claimable options locked now r ≡ false) db.agent_runs
    to h =
        elim (Option-cases
          (first_by by_availability (is_claimable options locked now) db.agent_runs)) [
            | inl e ↦
                first_by-none by_availability (is_claimable options locked now) db.agent_runs e
            | inr (c, e) ↦
                let (claimable, own) = candidate-own options locked now db c keyed e in
                ground (
                  arith,
                  e,
                  own,
                  find_first-update_where (has_id c.run_id) (has_id c.run_id)
                      (claim_run options now) db.agent_runs
                      (has_id-claim_run options locked now db c.run_id),
                )
          ]

    from :
        All (λ r. is_claimable options locked now r ≡ false) db.agent_runs
        → claim options locked now db ≡ ok none
    from h =
        elim (Option-cases
          (first_by by_availability (is_claimable options locked now) db.agent_runs)) [
            | inl e ↦ ground (arith, e)
            | inr (c, e) ↦
                let no_way : true ≡ false =
                  first_by-All by_availability (λ _. true ≡ false) (is_claimable options locked now)
                    db.agent_runs c
                    (All-select_hit (is_claimable options locked now) db.agent_runs
                      (λ r hit miss. sym hit ∙ miss) h)
                    e in
                cc
          ]

-- A claim never takes a run that has used up its attempts, whatever its state and lease.
pub claim-exhausted :
    (options : WorkerOptions) (locked : ℕ → Bool) (now : ℕ) (db after : Db) (run used : Run)
    → RunsKeyed db
    → find_first (has_id used.run_id) db.agent_runs ≡ some used
    → options.max_attempts ≤ used.attempt
    → claim options locked now db ≡ ok (some (after, run))
    → run.run_id ≢ used.run_id
unfolding claim_run
claim-exhausted options locked now db after run used keyed there spent h same =
    let c = claim-IsClaim options locked now db after run keyed h in
    let due = is_claimable-WasDue options locked now c.candidate c.claimable in
    let (_, own) = candidate-own options locked now db c.candidate keyed c.first in
    let id : c.candidate.run_id ≡ used.run_id = sym (ap (λ (r : Run). r.run_id) c.claimed) ∙ same in
    let one : some c.candidate ≡ some used =
      sym own ∙ ap (λ k. find_first (has_id k) db.agent_runs) id ∙ there in
    let attempts : c.candidate.attempt ≡ used.attempt = ground (arith, one) in
    omega (arith, attempts, due.attempts_left, spent)
