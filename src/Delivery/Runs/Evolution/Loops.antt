-- ===== src/Delivery/Runs/Evolution/Loops.antt =====
-- The loops over references to the runs, as moves of the runs that they reach.
use maxtag.Base.{
  ℕ, suc, zero, ◌+◌, ◌≡◌, refl, sym, ◌∙◌, subst, inl, inr, true, Text, text, List, [], ◌∷◌, Option,
  none, some, or_else, leb, any, find, filter, update_at, Bool-cases, Option-cases, arith, All,
  References, References-update_at, References-sort_by, tag-References, tag, sort_by, clamp,
  Reaches,
}
use maxtag.Delivery.Runs.Types.{
  AgentRunStatus, queued, running, AgentRun, CreateRunInput, RunState, run_status_eq, RunEventType,
}
use maxtag.Delivery.Runs.Threads.{is_active_run_status, with_status, ThreadScope, run_thread}
use maxtag.Delivery.Runs.Inbound.{append_event}
use maxtag.Delivery.Runs.Create.{with_run_id, new_run, create_run_in}
use maxtag.Delivery.Runs.Continue.{
  finish_inbound_in, finish_continuation_in, is_active_in, is_waiting, first_of, continuation_input,
  schedule_next_in,
}
use maxtag.Delivery.Runs.Endings.{release_run, finalize_cancel, RecoverRunsOptions}
use maxtag.Delivery.Runs.Lifecycle.{
  close_run, recovered_in, recover_each_run, recover_stale_agent_runs,
}
use maxtag.Delivery.Runs.Moves.{
  Moves, starts, releases, fails, is_cancelled, done, Evolves-trans, Evolves-at,
}
use maxtag.Delivery.Runs.Evolution.{
  Goes, finish_inbound-runs, finish_continuation-runs, close_run-Goes,
}
use maxtag.Delivery.Runs.Evolution.Changes.{with_status-eq}
use maxtag.Delivery.Runs.Moves.{get_elem?-append_one}
use maxtag.Delivery.Runs.Claim.{
  claim_run, fail_payload, is_claimable, has_payload, claimed_in, failed_in, claim_each_run,
  claim_queued_agent_runs, by_creation,
}

abbrev pub Reached : RunState → List (ℕ × AgentRun) → Type 0
Reached s ps = References s.runs ps

-- After a write to one place, the references to the others still reach.
pub Reached-next :
    (p : ℕ × AgentRun) (ps : List (ℕ × AgentRun)) (write : AgentRun → AgentRun) (s : RunState)
    → Reached s (p ∷ ps)
    → References (update_at p.0 write s.runs) ps
Reached-next p ps write s ((here, there), (apart, differ)) =
    (References-update_at s.runs p ps write apart there, differ)

pub Reached-rest :
    (p : ℕ × AgentRun) (ps : List (ℕ × AgentRun)) (s : RunState) → Reached s (p ∷ ps) → Reached s ps
Reached-rest p ps s ((here, there), (apart, differ)) = (there, differ)

module _ (at : ℕ) (ids : ℕ → Text) where
  pub claim_each_run-Goes :
      (worker : Option Text) (time left : ℕ) (ps : List (ℕ × AgentRun)) (s : RunState)
      → Reached s ps
      → Goes s (claim_each_run at ids worker time left ps s).0
  unfolding claim_each_run append_event
  claim_each_run-Goes worker time left [] s refs = done
  claim_each_run-Goes worker time zero (p ∷ ps) s refs = done
  claim_each_run-Goes worker time (suc left) (p ∷ ps) s refs =
      elim (Bool-cases (is_claimable s.runs p.1)) [
        | inr skip ↦
            rw skip (claim_each_run-Goes worker time (suc left) ps s (Reached-rest p ps s refs))
        | inl may ↦
            let waits : run_status_eq p.1.status queued ≡ true = ground (arith, may) in
            let same = with_status-eq p.1.status queued waits in
            let active : is_active_run_status p.1.status ≡ true = ground (arith, waits) in
            elim (Bool-cases (has_payload p.1)) [
              | inl whole ↦
                  let t = claimed_in at ids worker time p s in
                  rw (may, whole)
                    (Evolves-trans
                      (Evolves-at p.0 (claim_run worker time) s.runs p.1 refs.0.0
                        (refl, starts active))
                      (claim_each_run-Goes worker time left ps t
                        (Reached-next p ps (claim_run worker time) s refs)))
              | inr broken ↦
                  let t = failed_in at ids time p s in
                  rw (may, broken)
                    (Evolves-trans
                      (Evolves-at p.0 (fail_payload time) s.runs p.1 refs.0.0 (refl, fails active))
                      (claim_each_run-Goes worker time (suc left) ps t
                        (Reached-next p ps (fail_payload time) s refs)))
            ]
      ]

  pub claim_queued-Goes :
      (limit : Option ℕ) (worker : Option Text) (time : ℕ) (s : RunState)
      → Goes s (claim_queued_agent_runs at ids limit worker time s).0
  unfolding claim_queued_agent_runs
  claim_queued-Goes limit worker time s =
      claim_each_run-Goes worker time (clamp 1 20 (or_else limit 1))
        (sort_by by_creation (tag 0 s.runs)) s (References-sort_by by_creation s.runs)

  -- What is scheduled is added behind the runs, so that references still reach.
  create_run-Reaches :
      (input : CreateRunInput) (time : ℕ) (s : RunState) (p : ℕ × AgentRun)
      → Reaches s.runs p
      → Reaches (create_run_in at ids input time s).0.runs p
  unfolding create_run_in append_event
  create_run-Reaches input time s p here =
      elim (Option-cases (find (with_run_id input.run_id) s.runs)) [
        | inr (r, found) ↦ rw (found, create_run_in) here
        | inl absent ↦
            rw (absent, create_run_in)
              (get_elem?-append_one s.runs p.0 p.1 (new_run input time) here)
      ]

  schedule_next-Reaches :
      (scope : ThreadScope) (time : ℕ) (s : RunState) (p : ℕ × AgentRun)
      → Reaches s.runs p
      → Reaches (schedule_next_in at ids scope time s).runs p
  unfolding schedule_next_in append_event
  schedule_next-Reaches scope time s p here =
      let waiting =
        sort_by (λ a b. leb a.1.sequence b.1.sequence)
          (filter (λ q. is_waiting scope s.runs q.1) (tag 0 s.steering)) in
      elim (Bool-cases (any (is_active_in scope) s.runs)) [
        | inl busy ↦ rw busy here
        | inr free ↦ elim (Option-cases (first_of waiting)) [
          | inl nobody ↦ rw (free, schedule_next_in, nobody) here
          | inr (q, first) ↦
              rw (free, schedule_next_in, first)
                (create_run-Reaches (continuation_input q.1) time s p here)
        ]
      ]

  close_run-Reaches :
      (r : AgentRun) (time : ℕ) (s : RunState) (ps : List (ℕ × AgentRun))
      → All (Reaches s.runs) ps
      → All (Reaches (close_run at ids r time s).runs) ps
  close_run-Reaches r time s [] h = tt
  close_run-Reaches r time s (p ∷ ps) h =
      let t = finish_inbound_in r time s in
      let u = finish_continuation_in at ids r time t in
      let same = finish_continuation-runs at ids r time t ∙ finish_inbound-runs r time s in
      (
        schedule_next-Reaches (run_thread r) time u p (subst (λ xs. Reaches xs p) (sym same) h.0),
        close_run-Reaches r time s ps h.1,
      )

  recover_each_run-Goes :
      (options : RecoverRunsOptions) (time left : ℕ) (ps : List (ℕ × AgentRun)) (s : RunState)
      → Reached s ps
      → Goes s (recover_each_run at ids options time left ps s).0
  unfolding recover_each_run append_event
  recover_each_run-Goes options time left [] s refs = done
  recover_each_run-Goes options time zero (p ∷ ps) s refs = done
  recover_each_run-Goes options time (suc left) (p ∷ ps) s refs =
      let lost = or_else options.reason (text "stale_running_recovered") in
      let over = or_else options.reason (text "stale_cancel_request_finalized") in
      let skipped = recover_each_run-Goes options time (suc left) ps s (Reached-rest p ps s refs) in
      elim (Bool-cases (leb (p.1.updated_at + or_else options.older_than_ms 120_000) time)) [
        | inr late ↦ rw late skipped
        | inl stale ↦ elim (Bool-cases (with_status running p.1)) [
          | inl runs ↦
              let same = with_status-eq p.1.status running runs in
              let t = recovered_in at ids lost time p s in
              rw (stale, runs)
                (Evolves-trans
                  (Evolves-at p.0 (release_run lost time) s.runs p.1 refs.0.0
                    (refl, subst (λ z. Moves z queued) (sym same) releases))
                  (recover_each_run-Goes options time left ps t
                    (Reached-next p ps (release_run lost time) s refs)))
          | inr other ↦ elim (Bool-cases (with_status AgentRunStatus.cancel_requested p.1)) [
            | inr rest ↦ rw (stale, other, rest) skipped
            | inl asked ↦
                let active : is_active_run_status p.1.status ≡ true = ground (arith, asked) in
                let written =
                  append_event at ids p.1.id RunEventType.cancelled (some over) none
                    (record s { runs = update_at p.0 (finalize_cancel over time) s.runs }) in
                let ended_run = finalize_cancel over time p.1 in
                let (reach, differ) = Reached-next p ps (finalize_cancel over time) s refs in
                let t = close_run at ids ended_run time written in
                rw (stale, other, asked)
                  (Evolves-trans
                    (Evolves-at p.0 (finalize_cancel over time) s.runs p.1 refs.0.0
                      (refl, is_cancelled active))
                    (Evolves-trans (close_run-Goes at ids ended_run time written) (
                      recover_each_run-Goes options time left ps t
                        (close_run-Reaches ended_run time written ps reach, differ))))
          ]
        ]
      ]

  pub recover_stale-Goes :
      (options : RecoverRunsOptions) (s : RunState)
      → Goes s (recover_stale_agent_runs at ids options s).0
  unfolding recover_stale_agent_runs
  recover_stale-Goes options s =
      recover_each_run-Goes options (or_else options.now at)
        (clamp 1 500 (or_else options.limit 100)) (tag 0 s.runs) s (tag-References s.runs)
