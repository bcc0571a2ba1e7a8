-- ===== src/Delivery/Runs/Requests.antt =====
-- The runs under any sequence of requests.
use maxtag.Base.{
  ℕ, ◌≡◌, refl, inl, inr, Bool, false, arith, any, Option-cases, find, true, Text, List, [], ◌∷◌,
  Option, some, get_elem?,
}
use maxtag.Delivery.Fields.{Fields}
use maxtag.Delivery.Runs.Types.{
  AgentRunStatus, running, InboundStatus, RunEventType, SteeringMode, AgentRun, CreateRunInput,
  SteeringInput, RunState,
}
use maxtag.Delivery.Runs.Threads.{is_terminal_run_status, ThreadScope}
use maxtag.Delivery.Runs.Inbound.{
  append_event, InboundUpdate, RecordInput, record_inbound_event, mark_inbound_event, repeats,
}
use maxtag.Delivery.Runs.Steer.{
  SteerOptions, create_agent_run, create_agent_run_or_steer, enqueue_agent_run_steering,
}
use maxtag.Delivery.Runs.Live.{
  set_agent_run_steering_mode, claim_next_agent_run_steering, mark_agent_run_steering_applied,
}
use maxtag.Delivery.Runs.Claim.{claim_queued_agent_runs}
use maxtag.Delivery.Runs.Endings.{
  started_change, completed_change, failed_change, cancelled_change, RecoverRunsOptions,
}
use maxtag.Delivery.Runs.Lifecycle.{
  mark_agent_run_running, mark_agent_run_completed, mark_agent_run_failed, mark_agent_run_cancelled,
  request_agent_run_cancel, requeue_agent_run, renew_agent_run_lease, recover_stale_agent_runs,
}
use maxtag.Delivery.Runs.Cancel.{HumanTakeover, cancel_active_agent_runs_for_thread}
use maxtag.Delivery.Runs.Moves.{done, Evolves-trans, Evolves-same, Evolves-terminal, Runs}
use maxtag.Delivery.Runs.Passes.{Passes}
use maxtag.Delivery.Sessions.{
  Digest, SessionQuery, Session, record_agent_thread_session, invalidate_agent_thread_session,
}
use maxtag.Delivery.Redaction.{Summary, purge_thread_context_raw}
use maxtag.Delivery.Runs.Evolution.Writes.{record_session-Goes, end_session-Goes, purge-Goes}
use maxtag.Delivery.Pruning.{DeliveryState, PruneOptions, prune_workspace_data}
use maxtag.Delivery.Runs.Evolution.{Goes, update_inbound-runs}
use maxtag.Delivery.Runs.Evolution.Changes.{
  update_agent_run-Goes, request_cancel-Goes, requeue-Goes, renew-Goes,
}
use maxtag.Delivery.Runs.Evolution.Loops.{claim_queued-Goes, recover_stale-Goes}
use maxtag.Delivery.Runs.Evolution.Cancels.{cancel_active-Goes}
use maxtag.Delivery.Runs.Evolution.Messages.{
  after, create_agent_run-Goes, create_or_steer-Goes, enqueue_steering-Goes, set_mode-Goes,
  claim_steering-runs, apply_steering-runs,
}

-- The calls that change the runs, the messages or the events. A call that also reads other lists of the
-- delivery state comes with them, as they are at the time.
pub data Request : Type 0 where
  creates : CreateRunInput → Request
  steers : CreateRunInput → SteerOptions → (uuid : Text) → Request
  enqueues : (id : Text) → SteeringInput → (uuid : Text) → Request
  claims : (limit : Option ℕ) → (worker : Option Text) → (time : ℕ) → Request
  sets_mode : (id : Text) → SteeringMode → Request
  claims_steering : (id worker : Text) → (time : ℕ) → Request
  applies_steering : (id : Text) → (detail expected : Option Text) → Request
  starts : (id : Text) → (worker : Option Text) → (time : ℕ) → Request
  completes : (id : Text) → (summary : Option Text) → Request
  fails : (id error : Text) → Request
  cancels : (id : Text) → (reason : Option Text) → Request
  asks_cancel : (id : Text) → (reason : Option Text) → Request
  requeues : (id : Text) → (worker reason : Option Text) → (time : ℕ) → Request
  renews : (id worker : Text) → (time : ℕ) → Request
  recovers : RecoverRunsOptions → Request
  cancels_thread : ThreadScope → (reason : Text) → Option Text → Option HumanTakeover → Request
  appends : (id : Text) → RunEventType → Option Text → Option Fields → Request
  records : RecordInput → Request
  marks_inbound : (id : Text) → InboundStatus → InboundUpdate → Request
  records_session : Digest → SessionQuery → (session id : Text) → List Session → Request
  ends_session : Digest → SessionQuery → Option Text → (reason : Text) → List Session → Request
  purges : (time : ℕ) → (limit : Option ℕ) → List Summary → Request
  prunes : PruneOptions → DeliveryState → Request

abbrev pub is_pruning : ℕ × (ℕ → Text) × Request → Bool
is_pruning (at, ids, prunes options d) = true
is_pruning _ = false

-- A request meets a time and the random ids of the events.
unfoldable pub step : RunState → ℕ × (ℕ → Text) × Request → RunState
unfolding mark_agent_run_running mark_agent_run_completed mark_agent_run_failed
    mark_agent_run_cancelled append_event record_inbound_event mark_inbound_event
step s (at, ids, creates input) = (create_agent_run at ids input s).0
step s (at, ids, steers input options uuid) =
    after s (create_agent_run_or_steer at ids input options uuid s)
step s (at, ids, enqueues id input uuid) = (enqueue_agent_run_steering at ids id input uuid s).0
step s (at, ids, claims limit worker time) = (claim_queued_agent_runs at ids limit worker time s).0
step s (at, ids, sets_mode id mode) = (set_agent_run_steering_mode at ids id mode s).0
step s (at, ids, claims_steering id worker time) =
    (claim_next_agent_run_steering at ids id worker time s).0
step s (at, ids, applies_steering id detail expected) =
    (mark_agent_run_steering_applied at ids id detail expected s).0
step s (at, ids, starts id worker time) = (mark_agent_run_running at ids id worker time s).0
step s (at, ids, completes id summary) = (mark_agent_run_completed at ids id summary s).0
step s (at, ids, fails id error) = (mark_agent_run_failed at ids id error s).0
step s (at, ids, cancels id reason) = (mark_agent_run_cancelled at ids id reason s).0
step s (at, ids, asks_cancel id reason) = (request_agent_run_cancel at ids id reason s).0
step s (at, ids, requeues id worker reason time) =
    (requeue_agent_run at ids id worker reason time s).0
step s (at, ids, renews id worker time) = (renew_agent_run_lease id worker time s).0
step s (at, ids, recovers options) = (recover_stale_agent_runs at ids options s).0
step s (at, ids, cancels_thread scope reason wanted takeover) =
    (cancel_active_agent_runs_for_thread at ids scope reason wanted takeover s).0
step s (at, ids, appends id type message metadata) = append_event at ids id type message metadata s
step s (at, ids, records input) = (record_inbound_event input at s).0
step s (at, ids, marks_inbound id status input) = mark_inbound_event id status input at s
step s (at, ids, records_session digest q session id sessions) =
    (record_agent_thread_session digest q session id at ids (sessions, s)).1
step s (at, ids, ends_session digest q id reason sessions) =
    (invalidate_agent_thread_session digest q id reason at ids (sessions, s)).1
step s (at, ids, purges time limit summaries) = purge_thread_context_raw time limit summaries s
step s (at, ids, prunes options d) = (prune_workspace_data options at (record d { runs = s })).runs

unfoldable pub run : RunState → List (ℕ × (ℕ → Text) × Request) → RunState
unfolding step
run s [] = s
run s (r ∷ rs) = run (step s r) rs

record_inbound-runs :
    (input : RecordInput) (at : ℕ) (s : RunState)
    → (record_inbound_event input at s).0.runs ≡ s.runs
unfolding record_inbound_event
record_inbound-runs input at s = elim (Option-cases (find (repeats input) s.inbound)) [
  | inl first ↦ rw (first, record_inbound_event) refl
  | inr (e, again) ↦ rw (again, record_inbound_event) refl
]

step-Goes : (s : RunState) (r : ℕ × (ℕ → Text) × Request) → is_pruning r ≡ false → Goes s (step s r)
unfolding step mark_agent_run_running mark_agent_run_completed mark_agent_run_failed
    mark_agent_run_cancelled append_event mark_inbound_event
step-Goes s (at, ids, creates input) kept = create_agent_run-Goes at ids input s
step-Goes s (at, ids, steers input options uuid) kept =
    create_or_steer-Goes at ids input options uuid s
step-Goes s (at, ids, enqueues id input uuid) kept =
    Evolves-same (enqueue_steering-Goes at ids id input uuid s)
step-Goes s (at, ids, claims limit worker time) kept = claim_queued-Goes at ids limit worker time s
step-Goes s (at, ids, sets_mode id mode) kept = set_mode-Goes at ids id mode s
step-Goes s (at, ids, claims_steering id worker time) kept =
    Evolves-same (claim_steering-runs at ids id worker time s)
step-Goes s (at, ids, applies_steering id detail expected) kept =
    Evolves-same (apply_steering-runs at ids id detail expected s)
step-Goes s (at, ids, starts id worker time) kept =
    update_agent_run-Goes at ids id running (started_change worker time) s refl
step-Goes s (at, ids, completes id summary) kept =
    update_agent_run-Goes at ids id AgentRunStatus.completed (completed_change summary at) s refl
step-Goes s (at, ids, fails id error) kept =
    update_agent_run-Goes at ids id AgentRunStatus.failed (failed_change error at) s refl
step-Goes s (at, ids, cancels id reason) kept =
    update_agent_run-Goes at ids id AgentRunStatus.cancelled (cancelled_change reason at) s refl
step-Goes s (at, ids, asks_cancel id reason) kept = request_cancel-Goes at ids id reason s
step-Goes s (at, ids, requeues id worker reason time) kept =
    requeue-Goes at ids id worker reason time s
step-Goes s (at, ids, renews id worker time) kept = renew-Goes id worker time s
step-Goes s (at, ids, recovers options) kept = recover_stale-Goes at ids options s
step-Goes s (at, ids, cancels_thread scope reason wanted takeover) kept =
    cancel_active-Goes at ids scope reason wanted takeover s
step-Goes s (at, ids, appends id type message metadata) kept = done
step-Goes s (at, ids, records input) kept = Evolves-same (record_inbound-runs input at s)
step-Goes s (at, ids, marks_inbound id status input) kept =
    Evolves-same (update_inbound-runs (some id) status input at s)
step-Goes s (at, ids, records_session digest q session id sessions) kept =
    record_session-Goes digest q session id at ids sessions s
step-Goes s (at, ids, ends_session digest q id reason sessions) kept =
    end_session-Goes digest q id reason at ids sessions s
step-Goes s (at, ids, purges time limit summaries) kept = purge-Goes time limit summaries s
step-Goes s (at, ids, prunes options d) kept = cc

run-Goes :
    (s : RunState) (rs : List (ℕ × (ℕ → Text) × Request))
    → any is_pruning rs ≡ false
    → Goes s (run s rs)
unfolding run
run-Goes s [] kept = done
run-Goes s (r ∷ rs) kept =
    Evolves-trans (step-Goes s r (ground (arith, kept)))
      (run-Goes (step s r) rs (ground (arith, kept)))

-- A run that has ended keeps its place, its id and its status under any requests that do not prune the
-- data of a workspace.
pub run-ended :
    (s : RunState) (rs : List (ℕ × (ℕ → Text) × Request)) (i : ℕ) (r : AgentRun)
    → any is_pruning rs ≡ false
    → get_elem? s.runs i ≡ some r
    → is_terminal_run_status r.status ≡ true
    → (q : AgentRun) × (get_elem? (run s rs).runs i ≡ some q)
      × (q.id ≡ r.id)
      × (q.status ≡ r.status)
run-ended s rs i r kept here ended =
    Evolves-terminal i r r ended here refl refl (run-Goes s rs kept)
