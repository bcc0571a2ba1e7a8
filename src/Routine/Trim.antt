-- ===== src/Routine/Trim.antt =====
-- packages/routines/src/file-routine-store.ts: what every change of the state ends with, the
-- cancellation of a routine's pending work, and the serialised change of the stored state.
use maxtag.Base.{
  ℕ, ◌-◌, Bool, ◌&&◌, ◌||◌, Text, text_eq, List, map, Option, none, some, ltb, leb, if◌then◌else◌,
  length, take, filter, tag, update_all, remove_indices, keep_last, sort_by, Result, ok, err,
}
use maxtag.Routine.Types.{
  Execution, ExecutionStatus, Notification, NotificationStatus, delivered, RoutineState,
  RoutineError, execution_status_eq, notification_status_eq,
}
use maxtag.Routine.Policy.{as_input, StoredState, normalize_state, create_empty_state}

abbrev pub removable : Notification → Bool
removable n =
    notification_status_eq n.status delivered
    || notification_status_eq n.status NotificationStatus.failed

-- The indices of the oldest removable notifications, as many as there are too many.
unfoldable pub trim_indices : List Notification → List ℕ
trim_indices ns =
    map (λ p. p.0)
      (take (length ns - 1_000) (
        sort_by (λ p q. leb p.1.created_at q.1.created_at)
          (filter (λ p. removable p.1) (tag 0 ns))))

unfoldable pub trim_state : RoutineState → RoutineState
unfolding trim_indices
trim_state state = record state {
  executions =
      if ltb 2_000 (length state.executions)
      then keep_last 2_000 state.executions
      else state.executions;
  audit = if ltb 500 (length state.audit) then keep_last 500 state.audit else state.audit;
  notifications =
      if ltb 1_000 (length state.notifications)
      then remove_indices (trim_indices state.notifications) 0 state.notifications
      else state.notifications;
}

abbrev pub pending_execution_of : Text → Execution → Bool
pending_execution_of id e =
    text_eq e.routine_id id
    && (execution_status_eq e.status ExecutionStatus.pending
        || execution_status_eq e.status ExecutionStatus.claimed)

abbrev pub pending_notification_of : Text → Notification → Bool
pending_notification_of id n =
    text_eq n.routine_id id
    && (notification_status_eq n.status NotificationStatus.pending
        || notification_status_eq n.status NotificationStatus.claimed)

abbrev pub cancel_execution : Text → ℕ → Execution → Execution
cancel_execution reason at e = record e {
  status = ExecutionStatus.cancelled;
  error = some reason;
  completed_at = some at;
  updated_at = at;
}

abbrev pub cancel_notification : Text → ℕ → Notification → Notification
cancel_notification reason at n = record n {
  status = NotificationStatus.cancelled;
  last_error = some reason;
  updated_at = at;
}

unfoldable pub cancel_pending_executions : RoutineState → Text → Text → ℕ → RoutineState
cancel_pending_executions state id reason at = record state {
  executions = update_all (pending_execution_of id) (cancel_execution reason at) state.executions;
}

unfoldable pub cancel_pending_notifications : RoutineState → Text → Text → ℕ → RoutineState
cancel_pending_notifications state id reason at = record state {
  notifications =
      update_all (pending_notification_of id) (cancel_notification reason at) state.notifications;
}

-- `load`: none when there is no file.
unfoldable pub load : Option StoredState → RoutineState
unfolding normalize_state create_empty_state
load none = create_empty_state
load (some stored) = normalize_state stored

-- What is written to the file carries whole policies.
abbrev pub to_stored : RoutineState → StoredState
to_stored s = record {
  routines = some (map (λ r. (r, some (as_input r.notifications))) s.routines);
  executions = some (map (λ e. (e, some (as_input e.routine.notifications))) s.executions);
  notifications = some (map (λ n. (n, some (as_input n.routine.notifications))) s.notifications);
  audit = some s.audit;
}

abbrev Change : Type 0 → Type 0
Change A = RoutineState → Result RoutineError (RoutineState × A)

-- `mutate`: the file after the change, and what the caller gets. The queue runs one change at a
-- time; one that throws saves nothing.
unfoldable pub mutate :
    {A : Type 0} → Change A → Option StoredState → Option StoredState × Result RoutineError A
unfolding load trim_state
mutate operation file = elim (operation (load file)) [
  | err e ↦ (file, err e)
  | ok (state, a) ↦ (some (to_stored (trim_state state)), ok a)
]
