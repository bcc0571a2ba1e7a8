-- ===== src/Routine/Policy.antt =====
-- packages/routines/src/file-routine-store.ts, the normalisation of a stored state, and when two
-- routines report to one place under one policy.
use maxtag.Base.{
  Bool, true, ◌&&◌, Text, text_eq, option_eq, is_empty, List, [], map, Option, none, some, or_else,
  ◌==◌, clamp, if◌then◌else◌, take, trim, collapse_spaces,
}
use maxtag.Routine.Types.{
  NotificationPolicy, PolicyInput, Routine, RoutineState, Execution, ExecutionDigest, Notification,
  AuditRecord, every_result, visibility_eq, mode_eq, bool_eq,
}

unfoldable pub create_empty_state : RoutineState
create_empty_state = record { routines = []; executions = []; notifications = []; audit = [] }

-- `normalizeRoutineNotificationPolicy(undefined)` is its value at the input with no field.
unfoldable pub normalize_policy : PolicyInput → NotificationPolicy
normalize_policy input = record {
  mode = or_else input.mode every_result;
  failure_threshold = clamp 1 10 (or_else input.failure_threshold 1);
  recovery = or_else input.recovery true;
}

abbrev pub as_input : NotificationPolicy → PolicyInput
as_input p = record {
  mode = some p.mode;
  failure_threshold = some p.failure_threshold;
  recovery = some p.recovery;
}

abbrev pub no_input : PolicyInput
no_input = record { mode = none; failure_threshold = none; recovery = none }

-- A routine of the file with its policy, which older files do not have, or not whole; a mode that is none
-- of the three counts as missing. The policy in the record itself is not read.
unfoldable pub normalize_routine : Routine → Option PolicyInput → Routine
unfolding normalize_policy
normalize_routine routine policy = record routine {
  notifications = normalize_policy (or_else policy no_input);
}

-- What the file holds of a record that has or is a routine.
abbrev pub Stored : Type 0 → Type 0
Stored A = A × Option PolicyInput

-- The state as it lies in the file, where an array may be missing.
pub record StoredState : Type 0 where
  pub routines : Option (List (Stored Routine))
  pub executions : Option (List (Stored Execution))
  pub notifications : Option (List (Stored Notification))
  pub audit : Option (List AuditRecord)

unfoldable pub normalize_execution : Stored Execution → Execution
normalize_execution (e, policy) = record e { routine = normalize_routine e.routine policy }

unfoldable pub normalize_notification : Stored Notification → Notification
normalize_notification (n, policy) = record n { routine = normalize_routine n.routine policy }

unfoldable pub normalize_state : StoredState → RoutineState
unfolding normalize_routine normalize_execution normalize_notification
normalize_state input = record {
  routines = map (λ p. normalize_routine p.0 p.1) (or_else input.routines []);
  executions = map normalize_execution (or_else input.executions []);
  notifications = map normalize_notification (or_else input.notifications []);
  audit = or_else input.audit [];
}

unfoldable pub same_routine_route : Routine → Routine → Bool
same_routine_route left right =
    text_eq left.workspace_id right.workspace_id
    && option_eq left.project_id right.project_id
    && text_eq left.destination.platform right.destination.platform
    && text_eq left.destination.external_id right.destination.external_id
    && option_eq left.destination.channel_id right.destination.channel_id
    && option_eq left.destination.thread_id right.destination.thread_id
    && option_eq left.destination.root_message_id right.destination.root_message_id
    && option_eq left.destination.topic_id right.destination.topic_id
    && visibility_eq left.destination.visibility right.destination.visibility

unfoldable pub same_execution_route : Execution → Routine → Bool
unfolding same_routine_route
same_execution_route execution routine = same_routine_route execution.routine routine

unfoldable pub same_incident_policy : Routine → Routine → Bool
unfolding same_routine_route
same_incident_policy left right =
    same_routine_route left right
    && mode_eq left.notifications.mode right.notifications.mode
    && left.notifications.failure_threshold == right.notifications.failure_threshold
    && bool_eq left.notifications.recovery right.notifications.recovery

unfoldable pub bounded_execution_text : Option Text → Option Text
unfolding trim collapse_spaces
bounded_execution_text none = none
bounded_execution_text (some value) =
    let normalized = trim (collapse_spaces value) in
    if is_empty value
    then none
    else if is_empty normalized
    then none
    else some (take 300 normalized)

unfoldable pub execution_digest : Execution → ExecutionDigest
unfolding bounded_execution_text
execution_digest execution = record {
  id = execution.id;
  status = execution.status;
  trigger = execution.trigger;
  scheduled_for = execution.scheduled_for;
  attempts = execution.attempts;
  run_id = execution.run_id;
  summary = bounded_execution_text execution.summary;
  error = bounded_execution_text execution.error;
  updated_at = execution.updated_at;
  completed_at = execution.completed_at;
}
