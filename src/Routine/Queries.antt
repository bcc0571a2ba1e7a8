-- ===== src/Routine/Queries.antt =====
-- packages/routines/src/file-routine-store.ts: what the store answers without changing anything.
-- `localeCompare` on names is a parameter.
use maxtag.Base.{
  ℕ, Bool, true, false, ◌&&◌, ◌||◌, not, Text, text_eq, option_eq, is_empty, List, [], ◌∷◌, map,
  reverse, Option, none, some, is_some, is_truthy, or_else, ltb, leb, clamp, if◌then◌else◌, length,
  take, filter, any, find, sort_by, Result, ok, err,
}
use maxtag.Routine.Types.{
  Routine, Execution, ExecutionStatus, ExecutionDigest, Notification, NotificationStatus,
  AuditRecord, RoutineState, RoutineError, routine_execution_digest_maximum_is_50_routines,
  execution_status_eq, notification_status_eq,
}
use maxtag.Routine.Policy.{same_routine_route, same_execution_route, execution_digest}

-- `!filter || value === filter`
abbrev pub admits : Option Text → Option Text → Bool
admits wanted value = not (is_truthy wanted) || option_eq value wanted

pub record RoutineFilter : Type 0 where
  pub workspace_id : Option Text
  pub project_id : Option Text
  pub include_deleted : Bool

unfoldable pub list_routines : (Text → Text → Bool) → RoutineFilter → RoutineState → List Routine
list_routines locale_le wanted state =
    sort_by (λ l r. locale_le l.name r.name)
      (filter
        (λ r.
          admits wanted.workspace_id (some r.workspace_id)
          && admits wanted.project_id r.project_id
          && (wanted.include_deleted || not (is_some r.deleted_at)))
        state.routines)

unfoldable pub get_routine : Text → RoutineState → Option Routine
get_routine id state = find (λ r. text_eq r.id id) state.routines

pub record ExecutionFilter : Type 0 where
  pub routine_id : Option Text
  pub workspace_id : Option Text
  pub project_id : Option Text
  pub status : Option ExecutionStatus
  pub limit : Option ℕ

abbrev admits_execution_status : Option ExecutionStatus → ExecutionStatus → Bool
admits_execution_status none s = true
admits_execution_status (some wanted) s = execution_status_eq s wanted

-- Newest first.
unfoldable pub list_executions : ExecutionFilter → RoutineState → List Execution
list_executions wanted state = take (clamp 1 500 (or_else wanted.limit 100)) (
    sort_by (λ l r. leb r.created_at l.created_at)
      (filter
        (λ e.
          admits wanted.routine_id (some e.routine_id)
          && admits wanted.workspace_id (some e.routine.workspace_id)
          && admits wanted.project_id e.routine.project_id
          && admits_execution_status wanted.status e.status)
        state.executions))

-- `[...new Set(texts)]`: the first occurrence of each.
distinct_from : List Text → List Text → List Text
distinct_from seen [] = []
distinct_from seen (t ∷ ts) =
    if any (λ s. text_eq s t) seen then distinct_from seen ts else t ∷ distinct_from (t ∷ seen) ts

run_ids : List Execution → List Text
run_ids [] = []
run_ids (e ∷ es) = elim e.run_id [
  | none ↦ run_ids es
  | some run ↦ if is_empty run then run_ids es else run ∷ run_ids es
]

unfoldable pub referenced_run_ids : Text → RoutineState → List Text
unfolding distinct_from run_ids
referenced_run_ids workspace_id state =
    distinct_from []
      (run_ids (filter (λ e. text_eq e.routine.workspace_id workspace_id) state.executions))

-- A `Map` keyed by id: of two routines with one id, the later.
abbrev by_id : List Routine → Text → Option Routine
by_id routines id = find (λ r. text_eq r.id id) (reverse routines)

-- The digests of one routine, newest first, of the executions that took its present route.
unfoldable pub digests_of : List Routine → ℕ → List Execution → Text → List ExecutionDigest
digests_of routines limit executions id = elim (by_id routines id) [
  | none ↦ []
  | some routine ↦ map execution_digest (
      take limit (
        filter (λ e. text_eq e.routine_id id && same_execution_route e routine)
          (sort_by (λ l r. leb r.created_at l.created_at) executions)))
]

-- The record is a list of its entries, in the order of its keys.
unfoldable pub list_recent_execution_digests :
    List Routine
    → Option ℕ
    → RoutineState
    → Result RoutineError (List (Text × List ExecutionDigest))
unfolding digests_of distinct_from
list_recent_execution_digests routines limit state =
    let ids = distinct_from [] (map (λ r. r.id) routines) in
    if ltb 50 (length ids)
    then err routine_execution_digest_maximum_is_50_routines
    else ok (
        map (λ id. (id, digests_of routines (clamp 1 3 (or_else limit 3)) state.executions id)) ids)

pub record NotificationFilter : Type 0 where
  pub routine_id : Option Text
  pub workspace_id : Option Text
  pub project_id : Option Text
  pub status : Option NotificationStatus
  pub limit : Option ℕ

abbrev admits_notification_status : Option NotificationStatus → NotificationStatus → Bool
admits_notification_status none s = true
admits_notification_status (some wanted) s = notification_status_eq s wanted

unfoldable pub list_notifications : NotificationFilter → RoutineState → List Notification
list_notifications wanted state = take (clamp 1 500 (or_else wanted.limit 100)) (
    sort_by (λ l r. leb r.created_at l.created_at)
      (filter
        (λ n.
          admits wanted.routine_id (some n.routine_id)
          && admits wanted.workspace_id (some n.routine.workspace_id)
          && admits wanted.project_id n.routine.project_id
          && admits_notification_status wanted.status n.status)
        state.notifications))

unfoldable pub get_notification : Text → RoutineState → Option Notification
get_notification id state = find (λ n. text_eq n.id id) state.notifications

unfoldable pub list_audit : Option Text → Option Text → Option ℕ → RoutineState → List AuditRecord
list_audit workspace_id project_id limit state = take (clamp 1 200 (or_else limit 50)) (
    sort_by (λ l r. leb r.at l.at)
      (filter (λ a. admits workspace_id (some a.workspace_id) && admits project_id a.project_id)
        state.audit))

-- `{ ...counts, [status]: counts[status] + 1 }`, of counts that are a function of the status
count_executions : List Execution → ExecutionStatus → ℕ
count_executions es status = length (filter (λ e. execution_status_eq e.status status) es)

count_notifications : List Notification → NotificationStatus → ℕ
count_notifications ns status = length (filter (λ n. notification_status_eq n.status status) ns)

abbrev is_earlier : ℕ → Option ℕ → Bool
is_earlier t none = true
is_earlier t (some u) = ltb t u

-- `recordOldestExecution` over the executions, for one status
oldest_execution : Option ℕ → List Execution → ExecutionStatus → Option ℕ
oldest_execution current [] status = current
oldest_execution current (e ∷ es) status =
    oldest_execution
      (if execution_status_eq e.status status && is_earlier e.updated_at current
        then some e.updated_at
        else current)
      es status

next_runs : List Routine → List ℕ
next_runs [] = []
next_runs (r ∷ rs) = elim r.next_run_at [
  | none ↦ next_runs rs
  | some t ↦ if r.enabled then t ∷ next_runs rs else next_runs rs
]

first : List ℕ → Option ℕ
first [] = none
first (t ∷ ts) = some t

pub record RoutineSummary : Type 0 where
  pub enabled : ℕ
  pub disabled : ℕ
  pub executions : ExecutionStatus → ℕ
  pub notifications : NotificationStatus → ℕ
  pub oldest_execution_updated_at : ExecutionStatus → Option ℕ
  pub next_run_at : Option ℕ

-- Whether an alert belongs to one of the routines, and goes where that reports now.
abbrev on_route : List Routine → Notification → Bool
on_route routines n = elim (by_id routines n.routine_id) [
  | none ↦ false
  | some routine ↦ same_routine_route n.routine routine
]

unfoldable pub summarize : Option Text → Option Text → RoutineState → RoutineSummary
unfolding count_executions count_notifications oldest_execution next_runs first
summarize workspace_id project_id state =
    let routines =
      filter
        (λ r.
          not (is_some r.deleted_at)
          && admits workspace_id (some r.workspace_id)
          && admits project_id r.project_id)
        state.routines in
    let executions = filter (λ e. any (λ r. text_eq r.id e.routine_id) routines) state.executions in
    record {
      enabled = length (filter (λ r. r.enabled) routines);
      disabled = length (filter (λ r. not r.enabled) routines);
      executions = count_executions executions;
      notifications = count_notifications (filter (on_route routines) state.notifications);
      oldest_execution_updated_at = oldest_execution none executions;
      next_run_at = first (sort_by leb (next_runs routines));
    }
