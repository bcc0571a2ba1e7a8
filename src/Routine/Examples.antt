-- ===== src/Routine/Examples.antt =====
-- Runs of the routine store on one routine, and its theorems at them.
use maxtag.Base.{
  References, ap, drop, take, ◌++◌, ℕ, ◌+◌, ◌≡◌, ◌≤◌, ◌↔◌, refl, not, true, false, Text, text,
  text_eq, option_eq, text_or, List, [], ◌∷◌, Option, none, some, or_else, get_elem?, ok, err,
  arith, Memᴰ, All, any, filter, map, min, clamp, contains, length, trim, optional_text,
  collapse_spaces, decimal, join_lines, sort_by, if◌then◌else◌,
}
use maxtag.Routine.Types.{
  once, interval, private, RoutineDestination, failures_only, Routine, Execution, ExecutionStatus,
  manual, Notification, NotificationStatus, failure, RoutineState, UpsertInput, PolicyInput,
}
use maxtag.Routine.Schedule.{LocalDateTime, Host, normalize_schedule, next_of, next_routine_run_at}
use maxtag.Routine.Policy.{
  StoredState, create_empty_state, normalize_policy, same_routine_route, same_incident_policy,
  bounded_execution_text,
}
use maxtag.Routine.Incident.{
  leading_failures, same_series, is_failed, consecutive_failures_before, alert_for,
  push_notification, maybe_create_notification,
}
use maxtag.Routine.Trim.{
  removable, trim_indices, trim_state, cancel_pending_executions, cancel_pending_notifications,
  to_stored, load,
}
use maxtag.Routine.Upsert.{
  schedule_eq, kept_next_run, next_run_for, built, store_routine, upsert_change, upsert_routine,
  live_with_id,
}
use maxtag.Routine.Lifecycle.{
  enabled_next, set_enabled_found, set_routine_enabled, delete_found, delete_routine,
}
use maxtag.Routine.Executions.{
  due_routines, scheduled_key, advanced, staged_by, stage_loop, stage_due, trigger_routine, is_due,
  new_execution,
}
use maxtag.Routine.Claims.{
  claimed_execution, claimable, claim_selection, claim_executions, update_execution,
  mark_execution_queued, finish, RunReport, RunStatus, reconcile_run,
}
use maxtag.Routine.Notifications.{is_current, claim_loop, claim_notifications, retry_delay}
use maxtag.Routine.Sound.{IsConsistent, HasDistinctIds}
use maxtag.Routine.Run.{
  Request, step, run, run_routine-IsConsistent, run_execution-IsServed,
  run_notifications-HasDistinctIds,
}
use maxtag.Routine.Leases.{claim_selection-claim_executions, claim_executions-hands_out}
use maxtag.Routine.Bounds.{IsBounded, run-IsBounded, trim_state-notifications}
use maxtag.Routine.Once.{HasDistinctRuns}
use maxtag.Routine.Once.Runs.{run-HasDistinctRuns}
use maxtag.Routine.Due.{is_run_of, stage_due-IsStaged, advanced-rests}
use maxtag.Routine.Cancelled.{
  IsQuiet, Replaces, delete_routine-IsQuiet, set_routine_enabled-IsQuiet,
}
use maxtag.Routine.Alerts.{consecutive_failures_before-step, retry_delay-bounds}
use maxtag.Routine.Normal.{
  incident_policy, same_incident_policy_iff, load-to_stored, normalize_schedule-normal,
}

-- A host whose instants are texts of one unit, and whose only local time is the start of 1970.
abbrev read_instant : Text → Option ℕ
read_instant (t ∷ []) = some t
read_instant _ = none

abbrev epoch : LocalDateTime
epoch = record { year = 1970; month = 1; day = 1; hour = 0; minute = 0 }

abbrev host : Host
host = record {
  parse = read_instant;
  iso = λ t. t ∷ [];
  is_time_zone = λ z. true;
  local_parts = λ t z. epoch;
  utc = λ p. 0;
  next_date = λ p. (1970, 1, 2);
}

abbrev ids : Text → ℕ → Text
ids prefix i = (48 + i) ∷ prefix

abbrev room : RoutineDestination
room = record {
  platform = text "lark";
  external_id = text " room ";
  channel_id = none;
  thread_id = none;
  root_message_id = none;
  topic_id = none;
  visibility = private;
  title = none;
}

abbrev on_failure : PolicyInput
on_failure = record { mode = some failures_only; failure_threshold = some 0; recovery = none }

abbrev report_daily : UpsertInput
report_daily = record {
  id = none;
  workspace_id = text "w";
  project_id = none;
  name = text "Report";
  instructions = text "Write";
  enabled = none;
  schedule = interval 5;
  notifications = some on_failure;
  destination = room;
  actor = none;
}

abbrev fails : RunReport
fails = record {
  run_id = text "run";
  status = RunStatus.failed;
  summary = none;
  error = some (text "no");
}

-- Set up, run when due, failed, and the alert handed out; then run by hand.
abbrev history : List (ℕ × (ℕ → Text) × Request)
history =
    (1, ids (text "a"), Request.upserts report_daily)
    ∷ (300_001, ids (text "b"), Request.stages 10)
    ∷ (300_002, ids (text "c"), Request.claims_executions (text "s") 5 1_000)
    ∷ (300_003, ids (text "d"), Request.marks_queued (text "0b") (text "run"))
    ∷ (300_004, ids (text "e"), Request.reconciles fails)
    ∷ (300_005, ids (text "f"), Request.claims_notifications (text "n") 5 1_000)
    ∷ (300_006, ids (text "g"), Request.triggers (text "0a") (text "me"))
    ∷ []

abbrev final : RoutineState
final = run host create_empty_state history

-- The functions that a run computes with.
calls : Unit {0}
unfolding run step upsert_routine upsert_change next_run_for kept_next_run schedule_eq built
    store_routine cancel_pending_executions cancel_pending_notifications normalize_policy
    normalize_schedule next_routine_run_at next_of stage_due stage_loop due_routines staged_by
    scheduled_key advanced claim_executions claim_selection mark_execution_queued update_execution
    reconcile_run finish maybe_create_notification push_notification alert_for
    consecutive_failures_before leading_failures same_series same_incident_policy same_routine_route
    bounded_execution_text claim_notifications claim_loop is_current trigger_routine trim_state
    trim_indices create_empty_state text text_eq option_eq text_or trim optional_text
    collapse_spaces decimal join_lines sort_by delete_routine delete_found set_routine_enabled
    set_enabled_found enabled_next
calls = tt

-- One failed run that has raised an alert, and one run by hand that waits.
outcome :
    (map (λ e. e.status) final.executions ≡ ExecutionStatus.failed ∷ ExecutionStatus.pending ∷ [])
    × (map (λ n. n.attempts) final.notifications ≡ 1 ∷ [])
    × (map (λ r. r.next_run_at) final.routines ≡ some 600_001 ∷ [])
unfolding calls
outcome = (refl, refl, refl)

abbrev blank : Routine
blank = built host report_daily none (interval 5) true (some 300_001) (text "x") 1

abbrev stored_routine : Routine
stored_routine = or_else (get_elem? final.routines 0) blank

abbrev by_hand : Execution
by_hand =
    or_else (get_elem? final.executions 1) (new_execution (text "x") blank manual (text "k") 1 1)

run_routine-IsConsistent_example : IsConsistent stored_routine
unfolding calls
run_routine-IsConsistent_example =
    run_routine-IsConsistent host history stored_routine (Memᴰ.head refl)

run_execution-IsServed_example : any (live_with_id by_hand.routine_id) final.routines ≡ true
unfolding calls
run_execution-IsServed_example =
    run_execution-IsServed host history by_hand (Memᴰ.tail (Memᴰ.head refl)) refl

run_notifications-HasDistinctIds_example : HasDistinctIds final.notifications
run_notifications-HasDistinctIds_example = run_notifications-HasDistinctIds host history

run-HasDistinctRuns_example : HasDistinctRuns final.executions
run-HasDistinctRuns_example = run-HasDistinctRuns host history

run-IsBounded_example : IsBounded final
run-IsBounded_example = run-IsBounded host history

trim_state-notifications_example :
    filter (λ n. not (removable n)) (trim_state final).notifications
    ≡ filter (λ n. not (removable n)) final.notifications
trim_state-notifications_example = trim_state-notifications final

claim_selection-claim_executions_example :
    All
      (λ p.
        contains (map (λ q. q.0) (claim_selection 300_010 1_000 5 final.executions)) p.0 ≡ false)
      (claim_selection 301_009 1_000 5
        (claim_executions (text "s") 5 1_000 300_010 final).0.executions)
claim_selection-claim_executions_example =
    claim_selection-claim_executions (text "s") 5 1_000 300_010 final 5 301_009 (omega arith)

claim_executions-hands_out_example :
    let (t, out) = claim_executions (text "s") 5 1_000 300_010 final in
    (ps : List (ℕ × Execution)) × References final.executions ps
    × All
        (λ p.
          (claimable 300_010 1_000 p.1 ≡ true)
          × (get_elem? t.executions p.0 ≡ some (claimed_execution (text "s") 300_010 p.1)))
        ps
    × (out ≡ map (λ p. (p.1.routine, claimed_execution (text "s") 300_010 p.1)) ps)
    × (length out
        ≡ min (clamp 1 100 5) (length (filter (claimable 300_010 1_000) final.executions)))
claim_executions-hands_out_example = claim_executions-hands_out (text "s") 5 1_000 300_010 final

-- What staging gives when the routine is due again.
abbrev staged_state : RoutineState
staged_state = elim (stage_due host 600_001 5 (ids (text "h")) final) [
  | ok (s, out) ↦ s
  | err e ↦ final
]

abbrev staged_now : List Execution
staged_now = elim (stage_due host 600_001 5 (ids (text "h")) final) [
  | ok (s, out) ↦ out
  | err e ↦ []
]

snoc-inj : (a b : Text) (x y : ℕ) → a ++ x ∷ [] ≡ b ++ y ∷ [] → (a ≡ b) × (x ≡ y)
snoc-inj [] [] x y h = (refl, ground (arith, h))
snoc-inj [] (c ∷ []) x y h = cc
snoc-inj [] (c ∷ d ∷ b) x y h = cc
snoc-inj (c ∷ []) [] x y h = cc
snoc-inj (c ∷ d ∷ a) [] x y h = cc
snoc-inj (c ∷ a) (d ∷ b) x y h =
    let (same, last) = snoc-inj a b x y (ap (drop 1) h) in
    let first : c ≡ d = ground (arith, ap (take 1) h) in ((λ i. first i ∷ same i), last)

prints :
    (a b : Text) (t u : ℕ)
    → a ++ text ":" ++ host.iso t ≡ b ++ text ":" ++ host.iso u
    → (a ≡ b) × (t ≡ u)
unfolding text
prints a b t u h =
    let (front, same) = snoc-inj (a ++ text ":") (b ++ text ":") t u h in
    ((snoc-inj a b b':' b':' front).0, same)

stage_due-IsStaged_example :
    All
      (λ p. any (is_run_of p.1) staged_state.executions ≡ true)
      (due_routines 600_001 5 final.routines)
unfolding calls
stage_due-IsStaged_example =
    stage_due-IsStaged host history 600_001 5 (ids (text "h")) staged_state staged_now prints refl

abbrev moved_on : Routine
moved_on = elim (advanced host (interval 5) stored_routine 600_001) [ ok r ↦ r | err e ↦ blank ]

advanced-rests_example : is_due 600_001 moved_on ≡ false
unfolding calls
advanced-rests_example = advanced-rests host (interval 5) stored_routine moved_on 600_001 refl refl

delete_routine-IsQuiet_example :
    (s : RoutineState) × (r : Routine) × (delete_routine
        (text "0a")
        (text "me")
        400_000
        (ids (text "i"))
        final
      ≡ ok (s, some r))
    × Replaces stored_routine r final s
    × (r.enabled ≡ false)
    × (r.deleted_at ≡ some 400_000)
    × IsQuiet r.id s
unfolding calls
delete_routine-IsQuiet_example =
    delete_routine-IsQuiet (text "0a") (text "me") 400_000 (ids (text "i")) final stored_routine
      refl

set_routine_enabled-IsQuiet_example :
    (s : RoutineState) × (r : Routine) × (set_routine_enabled host
        (text "0a")
        false
        (text "me")
        400_000
        (ids (text "i"))
        final
      ≡ ok (s, some r))
    × Replaces stored_routine r final s
    × (r.enabled ≡ false)
    × (r.next_run_at ≡ none)
    × IsQuiet r.id s
unfolding calls
set_routine_enabled-IsQuiet_example =
    set_routine_enabled-IsQuiet host (text "0a") (text "me") 400_000 (ids (text "i")) final
      stored_routine refl refl

abbrev failed_before : Execution
failed_before = or_else (get_elem? final.executions 0) by_hand

consecutive_failures_before-step_example :
    consecutive_failures_before (failed_before ∷ by_hand ∷ []) by_hand ≡ (
      if same_series by_hand failed_before
      then if is_failed failed_before
        then 1 + consecutive_failures_before (by_hand ∷ []) by_hand
        else 0
      else consecutive_failures_before (by_hand ∷ []) by_hand)
unfolding calls
consecutive_failures_before-step_example =
    consecutive_failures_before-step [] [] failed_before by_hand refl

retry_delay-bounds_example :
    (1_000 ≤ retry_delay 5_000 3)
    × (retry_delay 5_000 3 ≤ 1_800_000)
    × (retry_delay 5_000 3 ≤ retry_delay 5_000 4)
retry_delay-bounds_example = retry_delay-bounds 5_000 3

abbrev alert : Notification
alert = record {
  id = text "failure:0b";
  routine_id = text "0a";
  execution_id = text "0b";
  routine = blank;
  run_id = none;
  kind = failure;
  status = NotificationStatus.claimed;
  consecutive_failures = 1;
  message = text "no";
  attempts = 1;
  next_attempt_at = 300_004;
  claimer_id = some (text "n");
  claimed_at = some 300_005;
  last_error = none;
  created_at = 300_004;
  updated_at = 300_005;
  delivered_at = none;
}

same_incident_policy_iff_example :
    (same_incident_policy blank stored_routine ≡ true)
    ↔ (incident_policy blank ≡ incident_policy stored_routine)
same_incident_policy_iff_example = same_incident_policy_iff blank stored_routine

-- A file from before the policies.
abbrev old_file : StoredState
old_file = record {
  routines = some ((stored_routine, none) ∷ []);
  executions = none;
  notifications = none;
  audit = none;
}

load-to_stored_example : load (some (to_stored (load (some old_file)))) ≡ load (some old_file)
load-to_stored_example = load-to_stored (some old_file)

normalize_schedule-normal_example : normalize_schedule host (once (7 ∷ [])) ≡ ok (once (7 ∷ []))
unfolding calls
normalize_schedule-normal_example =
    normalize_schedule-normal host (once (7 ∷ [])) (once (7 ∷ [])) (λ t. refl) (λ t. refl) refl
