-- ===== src/Routine/Once/Keeps.antt =====
-- The operations that stage nothing leave the dedup keys as they are.
use maxtag.Base.{
  ℕ, ◌≡◌, refl, ap, ◌∙◌, subst, inl, inr, Bool, true, false, Text, text, text_eq, option_eq, map,
  Option, none, some, or_else, any, find, update_first, map-update_first, map-update_all,
  map-update_indices, Bool-cases, Option-cases, ok, Result-cases, >>=-eq-ok, arith,
}
use maxtag.Routine.Types.{
  Routine, RoutineSchedule, Execution, RoutineState, UpsertInput, NotificationKind, mode_eq,
  failures_only, bool_eq,
}
use maxtag.Routine.Schedule.{Host, normalize_schedule}
use maxtag.Routine.Trim.{
  cancel_pending_executions, cancel_pending_notifications, cancel_execution, pending_execution_of,
}
use maxtag.Routine.Incident.{
  maybe_create_notification, push_notification, notification_id, alert_for,
  consecutive_failures_before, terminal_execution,
}
use maxtag.Routine.Upsert.{
  upsert_routine, upsert_change, live_with_id, cancel_disabled, store_routine, existing_routine,
  or_enabled, next_run_for, built,
}
use maxtag.Routine.Lifecycle.{
  set_routine_enabled, set_enabled_found, enabled_next, delete_routine, delete_found,
}
use maxtag.Routine.Claims.{
  claim_executions, claim_selection, claimed_execution, mark_execution_queued, finish,
  mark_execution_failed, failed_execution, RunReport, reconciled, reconcile_run,
}
use maxtag.Routine.Once.{run_key, Keeps}

cancel_pending_executions-Keeps :
    (s : RoutineState) (id reason : Text) (at : ℕ)
    → Keeps s (cancel_pending_executions s id reason at)
unfolding cancel_pending_executions
cancel_pending_executions-Keeps s id reason at =
    map-update_all run_key (cancel_execution reason at) (λ e. refl) (pending_execution_of id)
      s.executions

cancel_disabled-Keeps :
    (enabled : Bool) (id : Text) (at : ℕ) (s : RoutineState)
    → Keeps s (cancel_disabled enabled id at s)
unfolding cancel_pending_notifications
cancel_disabled-Keeps true id at s = refl
cancel_disabled-Keeps false id at s =
    cancel_pending_executions-Keeps s id (text "routine_disabled") at

module _ (host : Host) where
  store_routine-executions :
      (existing : Option Routine) (r : Routine) (at : ℕ) (s : RoutineState)
      → (store_routine host existing r at s).executions ≡ s.executions
  unfolding store_routine cancel_pending_notifications
  store_routine-executions none r at s = refl
  store_routine-executions (some e) r at s = ground arith

  upsert_change-Keeps :
      (input : UpsertInput) (schedule : RoutineSchedule) (at : ℕ) (uuid : ℕ → Text)
      (s s' : RoutineState) (r : Routine)
      → upsert_change host input schedule at uuid s ≡ ok (s', r)
      → Keeps s s'
  unfolding upsert_change
  upsert_change-Keeps input schedule at uuid s s' r h =
      let existing = existing_routine host input.id s.routines in
      let enabled = or_else input.enabled (or_enabled host existing) in
      elim (Result-cases (next_run_for host enabled existing schedule at)) [
        | inr (e, bad) ↦ absurd (ground (arith, bad))
        | inl (next, good) ↦
            let b = built host input existing schedule enabled next (uuid 0) at in
            let t = store_routine host existing b at s in
            let same : s'.executions ≡ (cancel_disabled enabled b.id at t).executions =
              ground (arith, good) in
            ap (map run_key) same
            ∙ cancel_disabled-Keeps enabled b.id at t
            ∙ ap (map run_key) (store_routine-executions existing b at s)
      ]

  pub upsert_routine-Keeps :
      (input : UpsertInput) (at : ℕ) (uuid : ℕ → Text) (s s' : RoutineState) (r : Routine)
      → upsert_routine host input at uuid s ≡ ok (s', r)
      → Keeps s s'
  unfolding upsert_routine
  upsert_routine-Keeps input at uuid s s' r h =
      let (schedule, good, h') = >>=-eq-ok (normalize_schedule host input.schedule) _ h in
      upsert_change-Keeps input schedule at uuid s s' r (ground (arith, h'))

  set_enabled_found-Keeps :
      (found : Routine) (enabled : Bool) (actor : Text) (at : ℕ) (uuid : ℕ → Text)
      (s s' : RoutineState) (o : Option Routine)
      → set_enabled_found host found enabled actor at uuid s ≡ ok (s', o)
      → Keeps s s'
  unfolding set_enabled_found
  set_enabled_found-Keeps found enabled actor at uuid s s' o h =
      elim (Result-cases (enabled_next host enabled found at)) [
        | inr (e, bad) ↦ absurd (ground (arith, bad))
        | inl (next, good) ↦
            let same : s'.executions ≡ (cancel_disabled enabled found.id at s).executions =
              unfold cancel_pending_executions cancel_pending_notifications in
              ground (arith, good) in
            ap (map run_key) same ∙ cancel_disabled-Keeps enabled found.id at s
      ]

  pub set_routine_enabled-Keeps :
      (id : Text) (enabled : Bool) (actor : Text) (at : ℕ) (uuid : ℕ → Text) (s s' : RoutineState)
      (o : Option Routine)
      → set_routine_enabled host id enabled actor at uuid s ≡ ok (s', o)
      → Keeps s s'
  unfolding set_routine_enabled
  set_routine_enabled-Keeps id enabled actor at uuid s s' o h =
      elim (Option-cases (find (live_with_id id) s.routines)) [
        | inl missing ↦ ground (arith, missing)
        | inr (found, e) ↦ elim (Bool-cases (bool_eq found.enabled enabled)) [
          | inl already ↦ ground (arith, e, already)
          | inr differs ↦
              set_enabled_found-Keeps found enabled actor at uuid s s' o
                (ground (arith, e, differs))
        ]
      ]

delete_found-Keeps :
    (found : Routine) (actor : Text) (at : ℕ) (uuid : ℕ → Text) (s : RoutineState)
    → Keeps s (delete_found found actor at uuid s).0
unfolding delete_found cancel_pending_notifications cancel_pending_executions
delete_found-Keeps found actor at uuid s =
    map-update_all run_key (cancel_execution (text "routine_deleted") at) (λ e. refl)
      (pending_execution_of found.id) s.executions

pub delete_routine-Keeps :
    (id actor : Text) (at : ℕ) (uuid : ℕ → Text) (s s' : RoutineState) (o : Option Routine)
    → delete_routine id actor at uuid s ≡ ok (s', o)
    → Keeps s s'
unfolding delete_routine
delete_routine-Keeps id actor at uuid s s' o h =
    elim (Option-cases (find (live_with_id id) s.routines)) [
      | inl missing ↦ ground (arith, missing)
      | inr (found, e) ↦
          let shape : (delete_found found actor at uuid s).0 ≡ s' = ground (arith, e) in
          subst (Keeps s) shape (delete_found-Keeps found actor at uuid s)
    ]

pub claim_executions-Keeps :
    (claimer : Text) (limit stale at : ℕ) (s : RoutineState)
    → Keeps s (claim_executions claimer limit stale at s).0
unfolding claim_executions
claim_executions-Keeps claimer limit stale at s =
    map-update_indices run_key (claimed_execution claimer at) (λ e. refl)
      (map (λ p. p.0) (claim_selection at stale limit s.executions)) 0 s.executions

pub mark_execution_queued-Keeps :
    (id r : Text) (at : ℕ) (s : RoutineState) → Keeps s (mark_execution_queued id r at s).0
unfolding mark_execution_queued
mark_execution_queued-Keeps id r at s = map-update_first run_key _ (λ e. refl) _ s.executions

module _ (host : Host) where
  push_notification-executions :
      (s : RoutineState) (e : Execution) (at : ℕ) (alert : Option (NotificationKind × ℕ))
      → (push_notification host s e at alert).executions ≡ s.executions
  unfolding push_notification
  push_notification-executions s e at none = refl
  push_notification-executions s e at (some (kind, failures)) =
      elim (Bool-cases (any (λ n. text_eq n.id (notification_id host kind e.id)) s.notifications)) [
        | inl there ↦ rw there refl
        | inr new ↦ rw new refl
      ]

  maybe_create_notification-executions :
      (s : RoutineState) (e : Execution) (at : ℕ)
      → (maybe_create_notification host s e at).executions ≡ s.executions
  unfolding maybe_create_notification
  maybe_create_notification-executions s e at =
      let alert = alert_for host e (consecutive_failures_before s.executions e) in
      elim (Bool-cases (mode_eq e.routine.notifications.mode failures_only)) [
        | inl loud ↦ rw loud (push_notification-executions s e at alert)
        | inr other ↦ rw other refl
      ]

  finish-Keeps :
      (p : Execution → Bool) (f : Execution → Execution) (at : ℕ) (s : RoutineState)
      → ((e : Execution) → run_key (f e) ≡ run_key e)
      → Keeps s (finish host p f at s).0
  unfolding finish
  finish-Keeps p f at s same = elim (Option-cases (find p s.executions)) [
    | inl missing ↦ rw (missing, finish) refl
    | inr (e, found) ↦
        let t : RoutineState = record s { executions = update_first p f s.executions } in
        let kept = map-update_first run_key f same p s.executions in
        rw (found, finish)
          (elim (Bool-cases (terminal_execution (f e))) [
            | inl ended ↦
                rw ended (ap (map run_key) (maybe_create_notification-executions t (f e) at) ∙ kept)
            | inr going ↦ rw going kept
          ])
  ]

  pub mark_execution_failed-Keeps :
      (id error : Text) (at : ℕ) (s : RoutineState)
      → Keeps s (mark_execution_failed host id error at s).0
  unfolding mark_execution_failed
  mark_execution_failed-Keeps id error at s =
      finish-Keeps (λ e. text_eq e.id id) (failed_execution error at) at s (λ e. refl)

  reconciled-key :
      (report : RunReport) (at : ℕ) (e : Execution) → run_key (reconciled report at e) ≡ run_key e
  reconciled-key report at e = ground arith

  pub reconcile_run-Keeps :
      (report : RunReport) (at : ℕ) (s : RoutineState) → Keeps s (reconcile_run host report at s).0
  unfolding reconcile_run
  reconcile_run-Keeps report at s =
      finish-Keeps (λ e. option_eq e.run_id (some report.run_id)) (reconciled report at) at s
        (reconciled-key report at)
