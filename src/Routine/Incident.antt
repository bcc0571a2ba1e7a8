-- ===== src/Routine/Incident.antt =====
-- packages/routines/src/file-routine-store.ts, the alerts: how many runs of a routine have failed in
-- a row, and the notification that a finished run gives rise to.
use maxtag.Base.{
  ℕ, suc, ◌+◌, Bool, ◌&&◌, ◌||◌, Text, text, text_eq, List, [], ◌∷◌, ◌++◌, reverse, Option, none,
  some, leb, ◌==◌, if◌then◌else◌, take, filter, any, before_first, decimal, join_lines,
}
use maxtag.Routine.Types.{
  Execution, ExecutionStatus, completed, Notification, NotificationKind, NotificationStatus,
  failure, recovery, RoutineState, failures_only, mode_eq, execution_status_eq,
}
use maxtag.Routine.Policy.{same_incident_policy, bounded_execution_text}
use maxtag.Routine.Schedule.{Host}

abbrev pub terminal_execution : Execution → Bool
terminal_execution execution =
    execution_status_eq execution.status completed
    || execution_status_eq execution.status ExecutionStatus.failed
    || execution_status_eq execution.status ExecutionStatus.cancelled

abbrev pub is_failed : Execution → Bool
is_failed execution = execution_status_eq execution.status ExecutionStatus.failed

-- The loop with its `break`.
unfoldable pub leading_failures : List Execution → ℕ
leading_failures [] = 0
leading_failures (e ∷ es) = if is_failed e then suc (leading_failures es) else 0

-- Whether a run belongs to the series in which `execution` stands.
unfoldable pub same_series : Execution → Execution → Bool
unfolding same_incident_policy
same_series execution candidate =
    text_eq candidate.routine_id execution.routine_id
    && terminal_execution candidate
    && same_incident_policy candidate.routine execution.routine

unfoldable pub consecutive_failures_before : List Execution → Execution → ℕ
unfolding leading_failures same_series
consecutive_failures_before executions execution = leading_failures (
    reverse
      (filter (same_series execution) (before_first (λ c. text_eq c.id execution.id) executions)))

plural : ℕ → Text
plural n = if n == 1 then [] else text "s"

module _ (host : Host) where
  open host use {iso}

  notification_message : Execution → NotificationKind → ℕ → Text
  unfolding plural bounded_execution_text
  notification_message execution kind failures = join_lines (
      heading kind
      ∷ detail kind
      ∷ latest (shown kind) (
          (text "Scheduled: " ++ iso execution.scheduled_for)
          ∷ (text "Routine ID: " ++ take 8 execution.routine_id)
          ∷ []))
    where
      heading : NotificationKind → Text
      heading failure = text "Standing work alert: " ++ execution.routine.name
      heading recovery = text "Standing work recovered: " ++ execution.routine.name

      detail : NotificationKind → Text
      detail failure =
          text "Failed "
          ++ decimal failures
          ++ text " consecutive run"
          ++ plural failures
          ++ text "."
      detail recovery =
          text "Recovered after "
          ++ decimal failures
          ++ text " consecutive failure"
          ++ plural failures
          ++ text "."

      shown : NotificationKind → Option Text
      shown failure = bounded_execution_text execution.error
      shown recovery = bounded_execution_text execution.summary

      latest : Option Text → List Text → List Text
      latest none rest = rest
      latest (some t) rest = (text "Latest: " ++ t) ∷ rest

  -- The kind of alert that a finished run asks for, and the number of failures that it reports.
  unfoldable pub alert_for : Execution → ℕ → Option (NotificationKind × ℕ)
  alert_for execution previous =
      if is_failed execution && previous + 1 == policy.failure_threshold
      then some (failure, previous + 1)
      else if execution_status_eq execution.status completed
          && policy.recovery
          && leb policy.failure_threshold previous
      then some (recovery, previous)
      else none
    where
      open execution.routine use {notifications as policy}

  pub notification_id : NotificationKind → Text → Text
  notification_id failure id = text "failure:" ++ id
  notification_id recovery id = text "recovery:" ++ id

  unfoldable pub push_notification :
      RoutineState → Execution → ℕ → Option (NotificationKind × ℕ) → RoutineState
  unfolding notification_message notification_id
  push_notification state execution at none = state
  push_notification state execution at (some (kind, failures)) =
      if any (λ n. text_eq n.id (notification_id kind execution.id)) state.notifications
      then state
      else record state { notifications = state.notifications ++ alert ∷ [] }
    where
      alert : Notification
      alert = record {
        id = notification_id kind execution.id;
        routine_id = execution.routine_id;
        execution_id = execution.id;
        routine = execution.routine;
        run_id = execution.run_id;
        kind = kind;
        status = NotificationStatus.pending;
        consecutive_failures = failures;
        message = notification_message execution kind failures;
        attempts = 0;
        next_attempt_at = at;
        claimer_id = none;
        claimed_at = none;
        last_error = none;
        created_at = at;
        updated_at = at;
        delivered_at = none;
      }

  unfoldable pub maybe_create_notification : RoutineState → Execution → ℕ → RoutineState
  unfolding push_notification alert_for consecutive_failures_before
  maybe_create_notification state execution at =
      let previous = consecutive_failures_before state.executions execution in
      if mode_eq execution.routine.notifications.mode failures_only
      then push_notification state execution at (alert_for execution previous)
      else state
