-- ===== src/Routine/Claims.antt =====
-- packages/routines/src/file-routine-store.ts: executions are claimed by a scheduler for a lease, and
-- follow the run that they were queued as.
use maxtag.Base.{
  ℕ, ◌+◌, Bool, false, ◌&&◌, ◌||◌, Text, text_eq, option_eq, List, map, Option, none, some, leb,
  clamp, if◌then◌else◌, take, filter, find, tag, update_first, update_indices, sort_by,
}
use maxtag.Routine.Types.{Routine, Execution, ExecutionStatus, RoutineState, execution_status_eq}
use maxtag.Routine.Schedule.{Host}
use maxtag.Routine.Incident.{maybe_create_notification, terminal_execution}

-- `claimedAt <= at - staleAfterMs`, which is as well when the difference lies before 1970.
abbrev pub is_stale : ℕ → ℕ → Option ℕ → Bool
is_stale at stale_after none = false
is_stale at stale_after (some claimed_at) = leb (claimed_at + stale_after) at

abbrev pub claimable : ℕ → ℕ → Execution → Bool
claimable at stale_after e =
    execution_status_eq e.status ExecutionStatus.pending
    || execution_status_eq e.status ExecutionStatus.claimed && is_stale at stale_after e.claimed_at

-- What a scheduler takes: the oldest claimable executions, with the references to them.
unfoldable pub claim_selection : ℕ → ℕ → ℕ → List Execution → List (ℕ × Execution)
claim_selection at stale_after limit executions = take (clamp 1 100 limit) (
    sort_by (λ p q. leb p.1.created_at q.1.created_at)
      (filter (λ p. claimable at stale_after p.1) (tag 0 executions)))

abbrev pub claimed_execution : Text → ℕ → Execution → Execution
claimed_execution claimer at e = record e {
  status = ExecutionStatus.claimed;
  claimer_id = some claimer;
  claimed_at = some at;
  attempts = e.attempts + 1;
  updated_at = at;
}

unfoldable pub claim_executions :
    Text → ℕ → ℕ → ℕ → RoutineState → RoutineState × List (Routine × Execution)
unfolding claim_selection
claim_executions claimer limit stale_after at state =
    let eligible = claim_selection at stale_after limit state.executions in
    (
      record state {
        executions =
            update_indices (map (λ p. p.0) eligible) (claimed_execution claimer at) 0
              state.executions;
      },
      map (λ p. (p.1.routine, claimed_execution claimer at p.1)) eligible,
    )

-- `updateExecution`: the write goes to the execution with the id, if there is one.
unfoldable pub update_execution :
    Text → (Execution → Execution) → ℕ → RoutineState → RoutineState × Option Execution
update_execution id update at state =
    let write = λ (e : Execution). record (update e) { updated_at = at } in
    (
      record state { executions = update_first (λ e. text_eq e.id id) write state.executions },
      elim (find (λ e. text_eq e.id id) state.executions) [ none ↦ none | some e ↦ some (write e) ],
    )

unfoldable pub mark_execution_queued :
    Text → Text → ℕ → RoutineState → RoutineState × Option Execution
unfolding update_execution
mark_execution_queued id run at state =
    update_execution id
      (λ e. record e { status = ExecutionStatus.queued; run_id = some run; error = none }) at state

abbrev pub failed_execution : Text → ℕ → Execution → Execution
failed_execution error at e = record e {
  status = ExecutionStatus.failed;
  error = some (take 2_000 error);
  completed_at = some at;
  updated_at = at;
}

-- The states of a run that a worker reports.
pub data RunStatus : Type 0 where
  queued running completed failed cancelled : RunStatus

abbrev pub to_execution_status : RunStatus → ExecutionStatus
to_execution_status RunStatus.queued = ExecutionStatus.queued
to_execution_status RunStatus.running = ExecutionStatus.running
to_execution_status RunStatus.completed = ExecutionStatus.completed
to_execution_status RunStatus.failed = ExecutionStatus.failed
to_execution_status RunStatus.cancelled = ExecutionStatus.cancelled

pub record RunReport : Type 0 where
  pub run_id : Text
  pub status : RunStatus
  pub summary : Option Text
  pub error : Option Text

abbrev bounded : Option Text → Option Text
bounded none = none
bounded (some t) = some (take 2_000 t)

abbrev pub reconciled : RunReport → ℕ → Execution → Execution
reconciled report at e =
    let status = to_execution_status report.status in
    let e' = record e {
      status = status;
      summary = bounded report.summary;
      error = bounded report.error;
      updated_at = at;
    } in
    if terminal_execution e' then record e' { completed_at = some at } else e'

module _ (host : Host) where
  -- An execution is found and rewritten; a finished one may raise an alert.
  unfoldable pub finish :
      (Execution → Bool)
      → (Execution → Execution)
      → ℕ
      → RoutineState
      → RoutineState × Option Execution
  finish p write at state = elim (find p state.executions) [
    | none ↦ (state, none)
    | some e ↦
        let state' = record state { executions = update_first p write state.executions } in
        (
          if terminal_execution (write e)
              then maybe_create_notification host state' (write e) at
              else state',
          some (write e),
        )
  ]

  unfoldable pub mark_execution_failed :
      Text → Text → ℕ → RoutineState → RoutineState × Option Execution
  unfolding finish
  mark_execution_failed id error at state =
      finish (λ e. text_eq e.id id) (failed_execution error at) at state

  unfoldable pub reconcile_run : RunReport → ℕ → RoutineState → RoutineState × Option Execution
  unfolding finish
  reconcile_run report at state =
      finish (λ e. option_eq e.run_id (some report.run_id)) (reconciled report at) at state
