-- ===== src/Delivery/Runs/Claim.antt =====
-- packages/delivery/src/file-delivery-store.ts: workers claim queued runs, one at a time of each runtime.
use maxtag.Base.{
  ℕ, suc, zero, Bool, ◌&&◌, ◌||◌, not, Text, text, text_eq, List, [], ◌∷◌, Option, none, some,
  is_some, or_else, or_option, if◌then◌else◌, leb, clamp, any, sort_by, tag, update_at,
}
use maxtag.Delivery.Fields.{str_or_undefined, end, field}
use maxtag.Delivery.Runs.Types.{
  AgentRunStatus, queued, running, RunEventType, started, AgentRun, RunState,
}
use maxtag.Delivery.Runs.Threads.{with_status, same_thread, same_runtime, is_control_executor}
use maxtag.Delivery.Runs.Inbound.{append_event}

abbrev pub claim_run : Option Text → ℕ → AgentRun → AgentRun
claim_run worker time r = record r {
  status = running;
  started_at = or_option r.started_at (some time);
  claimed_at = some time;
  worker_id = worker;
  last_error = none;
  updated_at = time;
}

abbrev pub fail_payload : ℕ → AgentRun → AgentRun
fail_payload time r = record r {
  status = AgentRunStatus.failed;
  failed_at = some time;
  last_error = some (text "missing_saved_run_payload");
  updated_at = time;
}

abbrev pub is_busy : AgentRun → Bool
is_busy r = with_status running r || with_status AgentRunStatus.cancel_requested r

-- Another run holds the runtime of this one.
abbrev pub is_held : List AgentRun → AgentRun → Bool
is_held runs r =
    any (λ other. not (text_eq other.id r.id) && same_runtime other r && is_busy other) runs

abbrev pub has_payload : AgentRun → Bool
has_payload r = is_some r.thread && is_some r.message

-- Whether a claim may take the run or has to fail it.
abbrev pub is_claimable : List AgentRun → AgentRun → Bool
is_claimable runs r =
    with_status queued r && (not (is_held runs r) || is_control_executor r.executor_id)

abbrev pub by_creation : ℕ × AgentRun → ℕ × AgentRun → Bool
by_creation p q = leb p.1.created_at q.1.created_at

-- The changes below read the clock as `at` and take the random ids of the events from `ids`; where the
-- source lets the caller give the time of the write, it is `time`.
module _ (at : ℕ) (ids : ℕ → Text) where
  abbrev pub claimed_in : Option Text → ℕ → ℕ × AgentRun → RunState → RunState
  claimed_in worker time (i, r) s =
      append_event at ids r.id started (some (text "Agent run claimed by worker"))
        (some (field (text "workerId") (str_or_undefined worker) end))
        (record s { runs = update_at i (claim_run worker time) s.runs })

  abbrev pub failed_in : ℕ → ℕ × AgentRun → RunState → RunState
  failed_in time (i, r) s =
      append_event at ids r.id RunEventType.failed (some (text "missing_saved_run_payload")) none
        (record s { runs = update_at i (fail_payload time) s.runs })

  -- The loop of the claim over references to the runs, in the order of their creation.
  unfoldable pub claim_each_run :
      Option Text → ℕ → ℕ → List (ℕ × AgentRun) → RunState → RunState × List AgentRun
  unfolding append_event same_runtime same_thread
  claim_each_run worker time left [] s = (s, [])
  claim_each_run worker time zero (p ∷ ps) s = (s, [])
  claim_each_run worker time (suc left) (p ∷ ps) s =
      let taken = claim_each_run worker time left ps (claimed_in worker time p s) in
      let broken = claim_each_run worker time (suc left) ps (failed_in time p s) in
      let skipped = claim_each_run worker time (suc left) ps s in
      if not (is_claimable s.runs p.1)
      then skipped
      else if has_payload p.1
      then (taken.0, claim_run worker time p.1 ∷ taken.1)
      else broken

  unfoldable pub claim_queued_agent_runs :
      Option ℕ → Option Text → ℕ → RunState → RunState × List AgentRun
  unfolding claim_each_run
  claim_queued_agent_runs limit worker time s =
      claim_each_run worker time (clamp 1 20 (or_else limit 1)) (sort_by by_creation (tag 0 s.runs))
        s
