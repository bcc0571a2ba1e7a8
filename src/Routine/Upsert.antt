-- ===== src/Routine/Upsert.antt =====
-- packages/routines/src/file-routine-store.ts, `upsertRoutine`: a routine is created, or the one with
-- the given id is replaced.
use maxtag.Base.{
  ℕ, Bool, true, false, ◌&&◌, ◌||◌, not, Text, text, text_eq, is_empty, List, [], ◌∷◌, ◌++◌, Option,
  none, some, is_some, or_else, is_truthy, leb, ◌==◌, if◌then◌else◌, find, update_first, trim,
  optional_text, text_or, Result, ok, ◌>>=◌, ◌>>◌, guard,
}
use maxtag.Routine.Types.{
  Routine, RoutineSchedule, once, interval, daily, RoutineDestination, AuditAction, AuditRecord,
  routine_created, routine_updated, RoutineState, UpsertInput, RoutineError,
  routine_workspace_required, routine_name_required, routine_instructions_required,
  routine_destination_required, routine_not_found, routine_once_at_must_be_in_future,
}
use maxtag.Routine.Schedule.{Host, normalize_schedule, next_routine_run_at}
use maxtag.Routine.Policy.{normalize_policy, as_input, no_input, same_incident_policy}
use maxtag.Routine.Trim.{cancel_pending_executions, cancel_pending_notifications}

-- Equality of the JSON texts of two schedules.
unfoldable pub schedule_eq : RoutineSchedule → RoutineSchedule → Bool
schedule_eq (once s) (once t) = text_eq s t
schedule_eq (interval m) (interval n) = m == n
schedule_eq (daily s z) (daily t w) = text_eq s t && text_eq z w
schedule_eq _ _ = false

-- `item.id === id && !item.deletedAt`
abbrev pub live_with_id : Text → Routine → Bool
live_with_id id item = text_eq item.id id && not (is_some item.deleted_at)

abbrev pub audit_of : Text → AuditAction → Text → ℕ → Routine → AuditRecord
audit_of id action actor at routine = record {
  id = id;
  action = action;
  routine_id = routine.id;
  workspace_id = routine.workspace_id;
  project_id = routine.project_id;
  actor = actor;
  at = at;
  snapshot = routine;
}

-- What becomes of the pending work of a routine that is switched off.
abbrev pub cancel_disabled : Bool → Text → ℕ → RoutineState → RoutineState
cancel_disabled enabled id at state =
    if enabled
    then state
    else cancel_pending_notifications
        (cancel_pending_executions state id (text "routine_disabled") at) id
        (text "routine_disabled") at

abbrev pub push_audit : AuditRecord → RoutineState → RoutineState
push_audit entry state = record state { audit = state.audit ++ entry ∷ [] }

module _ (host : Host) where
  open host use {parse}

  -- Whether a schedule names an instant that is not after `at`.
  abbrev pub has_elapsed : RoutineSchedule → ℕ → Bool
  has_elapsed (once t) at = elim (parse t) [ none ↦ false | some t ↦ leb t at ]
  has_elapsed (interval n) at = false
  has_elapsed (daily t z) at = false

  normalize_destination : RoutineDestination → RoutineDestination
  normalize_destination d = record {
    platform = d.platform;
    external_id = trim d.external_id;
    channel_id = optional_text d.channel_id;
    thread_id = optional_text d.thread_id;
    root_message_id = optional_text d.root_message_id;
    topic_id = optional_text d.topic_id;
    visibility = d.visibility;
    title = optional_text d.title;
  }

  -- The instant that an unchanged schedule of an enabled routine has already been given.
  unfoldable pub kept_next_run : Option Routine → RoutineSchedule → Option ℕ
  unfolding schedule_eq
  kept_next_run none schedule = none
  kept_next_run (some existing) schedule =
      if existing.enabled && schedule_eq existing.schedule schedule
      then existing.next_run_at
      else none

  unfoldable pub next_run_for :
      Bool → Option Routine → RoutineSchedule → ℕ → Result RoutineError (Option ℕ)
  unfolding kept_next_run
  next_run_for false existing schedule at = ok none
  next_run_for true existing schedule at = elim (kept_next_run existing schedule) [
    | some t ↦ ok (some t)
    | none ↦ next_routine_run_at host schedule at >>= λ t. ok (some t)
  ]

  -- The record that is stored. `created` is the id of a new routine that is given none.
  unfoldable pub built :
      UpsertInput → Option Routine → RoutineSchedule → Bool → Option ℕ → Text → ℕ → Routine
  unfolding normalize_destination
  built input none schedule enabled next created at = record {
    id = or_else input.id created;
    workspace_id = trim input.workspace_id;
    project_id = optional_text input.project_id;
    name = trim input.name;
    instructions = trim input.instructions;
    enabled = enabled;
    schedule = schedule;
    notifications = normalize_policy (or_else input.notifications no_input);
    destination = normalize_destination input.destination;
    next_run_at = next;
    last_scheduled_at = none;
    created_at = at;
    updated_at = at;
    created_by = some (text_or input.actor (text "admin"));
    updated_by = some (text_or input.actor (text "admin"));
    deleted_at = none;
  }
  built input (some existing) schedule enabled next created at = record {
    id = existing.id;
    workspace_id = trim input.workspace_id;
    project_id = optional_text input.project_id;
    name = trim input.name;
    instructions = trim input.instructions;
    enabled = enabled;
    schedule = schedule;
    notifications =
        normalize_policy (or_else input.notifications (as_input existing.notifications));
    destination = normalize_destination input.destination;
    next_run_at = next;
    last_scheduled_at = existing.last_scheduled_at;
    created_at = existing.created_at;
    updated_at = at;
    created_by = some (or_else existing.created_by (text_or input.actor (text "admin")));
    updated_by = some (text_or input.actor (text "admin"));
    deleted_at = none;
  }

  -- Replace the existing record, or push the new one; a changed route or policy cancels the alerts
  -- that still wait.
  unfoldable pub store_routine : Option Routine → Routine → ℕ → RoutineState → RoutineState
  store_routine none routine at state = record state { routines = state.routines ++ routine ∷ [] }
  store_routine (some existing) routine at state =
      let replaced = record state {
        routines = update_first (live_with_id existing.id) (λ _. routine) state.routines;
      } in
      if same_incident_policy existing routine
      then replaced
      else cancel_pending_notifications replaced routine.id
          (text "routine_route_or_notification_policy_changed") at

  abbrev pub existing_routine : Option Text → List Routine → Option Routine
  existing_routine none routines = none
  existing_routine (some id) routines =
      if is_empty id then none else find (live_with_id id) routines

  abbrev pub or_enabled : Option Routine → Bool
  or_enabled none = true
  or_enabled (some existing) = existing.enabled

  -- The callback of `mutate`, after the checks of the input.
  unfoldable pub upsert_change :
      UpsertInput
      → RoutineSchedule
      → ℕ
      → (ℕ → Text)
      → RoutineState
      → Result RoutineError (RoutineState × Routine)
  unfolding next_run_for built store_routine
  upsert_change input schedule at uuid state = do
    let existing = existing_routine input.id state.routines
    guard (not (is_truthy input.id) || is_some existing) routine_not_found
    let enabled = or_else input.enabled (or_enabled existing)
    guard (not (enabled && has_elapsed schedule at)) routine_once_at_must_be_in_future
    next ← next_run_for enabled existing schedule at
    let routine = built input existing schedule enabled next (uuid 0) at
    let stored = cancel_disabled enabled routine.id at (store_routine existing routine at state)
    let action = if is_some existing then routine_updated else routine_created
    ok (
      push_audit (audit_of (uuid 1) action (text_or input.actor (text "admin")) at routine) stored,
      routine,
    )

  -- `uuid i` is what `randomUUID` returns where the code calls it for the i-th time.
  unfoldable pub upsert_routine :
      UpsertInput → ℕ → (ℕ → Text) → RoutineState → Result RoutineError (RoutineState × Routine)
  unfolding upsert_change
  upsert_routine input at uuid state = do
    schedule ← normalize_schedule host input.schedule
    guard (not (is_empty (trim input.workspace_id))) routine_workspace_required
    guard (not (is_empty (trim input.name))) routine_name_required
    guard (not (is_empty (trim input.instructions))) routine_instructions_required
    guard (not (is_empty (trim input.destination.external_id))) routine_destination_required
    upsert_change input schedule at uuid state
