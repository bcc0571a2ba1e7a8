-- ===== src/Routine/Once.antt =====
-- No routine is staged twice for one instant.
pub mod Keeps
pub mod Runs
use maxtag.Base.{
  ℕ, suc, ◌-◌, ◌≡◌, refl, sym, ap, ◌∙◌, subst, inl, inr, Bool, true, false, if◌then◌else◌, Text,
  text, text_eq, text_eq_iff, option_eq, List, [], ◌∷◌, ◌++◌, map, Option, none, some, or_else, any,
  find, length, ltb, drop, update_first, update_at, All, Pairwise, Pairwise-append_one,
  Pairwise-drop, map-append, map-drop, map-update_first, map-update_all, map-update_indices,
  Bool-cases, Option-cases, Result, ok, err, Result-cases, >>=-eq-ok, arith,
}
use maxtag.Routine.Types.{
  Routine, RoutineSchedule, Execution, ExecutionTrigger, scheduled, manual, RoutineState,
  RoutineError, UpsertInput, NotificationKind, mode_eq, failures_only, bool_eq,
}
use maxtag.Routine.Schedule.{Host, normalize_schedule}
use maxtag.Routine.Policy.{create_empty_state, same_incident_policy}
use maxtag.Routine.Trim.{
  trim_state, cancel_pending_executions, cancel_pending_notifications, cancel_execution,
  pending_execution_of,
}
use maxtag.Routine.Incident.{
  maybe_create_notification, push_notification, notification_id, alert_for,
  consecutive_failures_before, terminal_execution,
}
use maxtag.Routine.Upsert.{
  upsert_routine, upsert_change, live_with_id, cancel_disabled, store_routine, existing_routine,
  or_enabled, next_run_for, built,
}
use maxtag.Routine.Lifecycle.{
  set_routine_enabled, set_enabled_found, enabled_next, write_routine, delete_routine, delete_found,
}
use maxtag.Routine.Executions.{
  new_execution, with_key, scheduled_key, next_at, staged_by, advanced, stage_loop, stage_due,
  due_routines, trigger_routine,
}
use maxtag.Routine.Claims.{
  claim_executions, claim_selection, claimed_execution, mark_execution_queued, finish,
  mark_execution_failed, failed_execution, RunReport, reconciled, reconcile_run,
}
use maxtag.Routine.Notifications.{
  claim_notifications, mark_notification_delivered, retry_notification,
}

-- The trigger, the dedup key, the routine and the instant of an execution.
abbrev pub RunKey : Type 0
RunKey = ExecutionTrigger × Text × Text × ℕ

abbrev pub run_key : Execution → RunKey
run_key e = (e.trigger, e.dedup_key, e.routine_id, e.scheduled_for)

abbrev pub Separate : RunKey → RunKey → Type 0
Separate a b = a.0 ≡ scheduled → b.0 ≡ scheduled → text_eq a.1 b.1 ≡ false

-- The key is made of the routine and the instant; that of a run by hand is another.
abbrev pub IsKeyed : Host → RunKey → Type 0
IsKeyed host k =
    (k.0 ≡ scheduled → k.1 ≡ text "scheduled:" ++ k.2 ++ text ":" ++ host.iso k.3)
    × (k.0 ≡ manual → (rest : Text) × (k.1 ≡ text "manual:" ++ rest))

-- No two scheduled executions have one dedup key, and each has the key of its run.
abbrev pub AreKeyed : Host → List Execution → Type 0
AreKeyed host es = Pairwise Separate (map run_key es) × All (IsKeyed host) (map run_key es)

-- No two scheduled executions are of one routine for one instant.
abbrev pub HasDistinctRuns : List Execution → Type 0
HasDistinctRuns es =
    Pairwise
      (λ a b.
        a.trigger ≡ scheduled
        → b.trigger ≡ scheduled
        → ¬ ((a.routine_id ≡ b.routine_id) × (a.scheduled_for ≡ b.scheduled_for)))
      es

abbrev pub Keeps : RoutineState → RoutineState → Type 0
Keeps s t = map run_key t.executions ≡ map run_key s.executions
