-- ===== src/Delivery/Runs/Lifecycle.antt =====
-- packages/delivery/src/file-delivery-store.ts: how a run goes on and how it ends; runs whose worker is gone
-- wait again, and a cancellation wins over a completion that comes later.
use maxtag.Base.{
  ℕ, suc, zero, ◌+◌, Bool, true, false, ◌||◌, not, Text, text, option_eq, List, [], ◌∷◌, Option,
  none, some, or_else, if◌then◌else◌, leb, clamp, find, tag, update_first, update_at,
}
use maxtag.Delivery.Fields.{str, str_or_undefined, end, field}
use maxtag.Delivery.Runs.Types.{
  AgentRunStatus, queued, running, RunEventType, log, AgentRun, RunState,
}
use maxtag.Delivery.Runs.Threads.{with_status, is_terminal_run_status, run_thread}
use maxtag.Delivery.Runs.Inbound.{append_event}
use maxtag.Delivery.Runs.Create.{with_run_id}
use maxtag.Delivery.Runs.Continue.{finish_continuation_in, finish_inbound_in, schedule_next_in}
use maxtag.Delivery.Runs.Endings.{
  release_run, RunChange, started_change, completed_change, failed_change, cancelled_change,
  cancellation_wins, change_run, won_message, is_final, cancel_queued, request_cancel,
  finalize_cancel, RecoverRunsResult, RecoverRunsOptions, add_requeued, add_cancelled, no_records,
  release_all, is_of_other, renew,
}

unfoldable pub renew_agent_run_lease : Text → Text → ℕ → RunState → RunState × Bool
renew_agent_run_lease id worker time s = elim (find (with_run_id id) s.runs) [
  | none ↦ (s, false)
  | some r ↦
      if not (with_status running r) || not (option_eq r.worker_id (some worker))
      then (s, false)
      else (record s { runs = update_first (with_run_id id) (renew time) s.runs }, true)
]

-- The changes below read the clock as `at` and take the random ids of the events from `ids`; where the
-- source lets the caller give the time of the write, it is `time`.
module _ (at : ℕ) (ids : ℕ → Text) where
  -- What follows when a run has ended.
  abbrev pub close_run : AgentRun → ℕ → RunState → RunState
  close_run r time s =
      schedule_next_in at ids (run_thread r) time
        (finish_continuation_in at ids r time (finish_inbound_in r time s))

  abbrev pub changed_in : Text → AgentRunStatus → RunChange → AgentRun → RunState → RunState
  changed_in id status input r s =
      let written = record s {
        runs = update_first (with_run_id id) (change_run status input at) s.runs;
      } in
      let changed = change_run status input at r in
      let logged =
        if cancellation_wins r.status status
        then append_event at ids id RunEventType.cancelled (some (won_message changed)) none written
        else append_event at ids id input.event (some input.message) none written in
      if is_terminal_run_status changed.status then close_run changed at logged else logged

  unfoldable pub update_agent_run :
      Text → AgentRunStatus → RunChange → RunState → RunState × Option AgentRun
  unfolding append_event finish_continuation_in finish_inbound_in schedule_next_in
  update_agent_run id status input s = elim (find (with_run_id id) s.runs) [
    | none ↦ (s, none)
    | some r ↦
        if is_final r status
        then (s, some r)
        else (changed_in id status input r s, some (change_run status input at r))
  ]

  unfoldable pub mark_agent_run_running :
      Text → Option Text → ℕ → RunState → RunState × Option AgentRun
  unfolding update_agent_run
  mark_agent_run_running id worker time s =
      update_agent_run id running (started_change worker time) s

  unfoldable pub mark_agent_run_completed :
      Text → Option Text → RunState → RunState × Option AgentRun
  unfolding update_agent_run
  mark_agent_run_completed id summary s =
      update_agent_run id AgentRunStatus.completed (completed_change summary at) s

  unfoldable pub mark_agent_run_failed : Text → Text → RunState → RunState × Option AgentRun
  unfolding update_agent_run
  mark_agent_run_failed id error s =
      update_agent_run id AgentRunStatus.failed (failed_change error at) s

  unfoldable pub mark_agent_run_cancelled :
      Text → Option Text → RunState → RunState × Option AgentRun
  unfolding update_agent_run
  mark_agent_run_cancelled id reason s =
      update_agent_run id AgentRunStatus.cancelled (cancelled_change reason at) s

  abbrev pub cancelled_in : Text → Option Text → AgentRun → RunState → RunState
  cancelled_in id reason r s = close_run (cancel_queued reason at r) at (
      append_event at ids id RunEventType.cancelled
        (some (or_else reason (text "Queued run cancelled"))) none
        (append_event at ids id RunEventType.cancel_requested
          (some (or_else reason (text "Cancel requested"))) none
          (record s { runs = update_first (with_run_id id) (cancel_queued reason at) s.runs })))

  abbrev pub requested_in : Text → Option Text → RunState → RunState
  requested_in id reason s =
      append_event at ids id RunEventType.cancel_requested
        (some (or_else reason (text "Cancel requested"))) none
        (record s { runs = update_first (with_run_id id) (request_cancel reason at) s.runs })

  unfoldable pub request_agent_run_cancel :
      Text → Option Text → RunState → RunState × Option AgentRun
  unfolding append_event finish_continuation_in finish_inbound_in schedule_next_in
  request_agent_run_cancel id reason s = elim (find (with_run_id id) s.runs) [
    | none ↦ (s, none)
    | some r ↦
        if is_terminal_run_status r.status
        then (s, some r)
        else if with_status queued r
        then (cancelled_in id reason r s, some (cancel_queued reason at r))
        else (requested_in id reason s, some (request_cancel reason at r))
  ]

  abbrev pub released_in : Text → Text → Option Text → ℕ → RunState → RunState
  released_in id reason worker time s =
      let t =
        append_event at ids id log (some reason)
          (some (
            field (text "requeuedFrom") (str (text "running"))
              (field (text "releasedBy") (str_or_undefined worker) end)))
          (record s { runs = update_first (with_run_id id) (release_run reason time) s.runs }) in
      record t { steering = release_all id time t.steering }

  unfoldable pub requeue_agent_run :
      Text → Option Text → Option Text → ℕ → RunState → RunState × Option AgentRun
  unfolding append_event
  requeue_agent_run id worker reason time s = elim (find (with_run_id id) s.runs) [
    | none ↦ (s, none)
    | some r ↦
        if not (with_status running r) || is_of_other worker r
        then (s, some r)
        else let why = or_else reason (text "worker_released_run") in
          (released_in id why worker time s, some (release_run why time r))
  ]

  abbrev pub recovered_in : Text → ℕ → ℕ × AgentRun → RunState → RunState
  recovered_in reason time (i, r) s =
      let t =
        append_event at ids r.id log (some reason)
          (some (field (text "recoveredFrom") (str (text "running")) end))
          (record s { runs = update_at i (release_run reason time) s.runs }) in
      record t { steering = release_all r.id time t.steering }

  abbrev pub finalized_in : Text → ℕ → ℕ × AgentRun → RunState → RunState
  finalized_in reason time (i, r) s = close_run (finalize_cancel reason time r) time (
      append_event at ids r.id RunEventType.cancelled (some reason) none
        (record s { runs = update_at i (finalize_cancel reason time) s.runs }))

  -- The loop of the recovery over references to the runs; a run that it adds is queued, which the loop
  -- passes over.
  unfoldable pub recover_each_run :
      RecoverRunsOptions → ℕ → ℕ → List (ℕ × AgentRun) → RunState → RunState × RecoverRunsResult
  unfolding append_event finish_continuation_in finish_inbound_in schedule_next_in
  recover_each_run options time left [] s = (s, no_records)
  recover_each_run options time zero (p ∷ ps) s = (s, no_records)
  recover_each_run options time (suc left) (p ∷ ps) s =
      let lost = or_else options.reason (text "stale_running_recovered") in
      let over = or_else options.reason (text "stale_cancel_request_finalized") in
      let requeued = recover_each_run options time left ps (recovered_in lost time p s) in
      let cancelled = recover_each_run options time left ps (finalized_in over time p s) in
      let skipped = recover_each_run options time (suc left) ps s in
      if not (leb (p.1.updated_at + or_else options.older_than_ms 120_000) time)
      then skipped
      else if with_status running p.1
      then (requeued.0, add_requeued (release_run lost time p.1) requeued.1)
      else if with_status AgentRunStatus.cancel_requested p.1
      then (cancelled.0, add_cancelled (finalize_cancel over time p.1) cancelled.1)
      else skipped

  unfoldable pub recover_stale_agent_runs :
      RecoverRunsOptions → RunState → RunState × RecoverRunsResult
  unfolding recover_each_run
  recover_stale_agent_runs options s =
      recover_each_run options (or_else options.now at) (clamp 1 500 (or_else options.limit 100))
        (tag 0 s.runs) s
