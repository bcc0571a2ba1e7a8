-- ===== src/Routine/Sound/Progress.antt =====
-- Claims, results and the outbox of alerts keep a state sound.
use maxtag.Base.{
  ℕ, ◌≡◌, refl, inl, inr, leb, clamp, Bool, true, false, Text, text, text_eq, List, [], ◌∷◌, ◌++◌,
  Option, none, some, any, find, length, update_first, tag, option_eq, All, All-update_first,
  All-take, All-sort_by, arith, Bool-cases, Option-cases, References-selection, All-filter_self,
  All-contains, All-update_indices_at, Reaches,
}
use maxtag.Routine.Types.{
  Routine, Execution, Notification, NotificationKind, RoutineState, mode_eq, failures_only,
}
use maxtag.Routine.Schedule.{Host}
use maxtag.Routine.Trim.{cancel_notification}
use maxtag.Routine.Incident.{
  maybe_create_notification, push_notification, notification_id, alert_for,
  consecutive_failures_before, terminal_execution,
}
use maxtag.Routine.Claims.{
  claimable, claim_selection, claimed_execution, claim_executions, mark_execution_queued, finish,
  mark_execution_failed, failed_execution, RunReport, reconciled, reconcile_run,
}
use maxtag.Routine.Notifications.{
  claim_loop, claim_notifications, claimed_notification, is_current, mark_notification_delivered,
  delivered_notification, retry_notification, retried_notification,
}
use maxtag.Routine.Sound.{is_open, IsServed, IsSound, HasDistinctIds}
use maxtag.Routine.Sound.Pieces.{
  update_first-HasDistinctIds, update_at-HasDistinctIds, append-HasDistinctIds,
}

abbrev pub IsClaimable : ℕ → ℕ → Execution → Type 0
IsClaimable at stale e = claimable at stale e ≡ true

-- What a scheduler takes are references to claimable executions.
pub claim_selection-IsClaimable :
    (at stale limit : ℕ) (es : List Execution)
    → All (Reaches es) (claim_selection at stale limit es)
      × All (λ p. IsClaimable at stale p.1) (claim_selection at stale limit es)
unfolding claim_selection
claim_selection-IsClaimable at stale limit es = (
  (References-selection (clamp 1 100 limit) _ _ es).0,
  All-take (λ p. IsClaimable at stale p.1) (clamp 1 100 limit) _
      (All-sort_by _ (λ p. IsClaimable at stale p.1) _
        (All-filter_self (λ p. claimable at stale p.1) (tag 0 es))),
)

pub claim_executions-IsSound :
    (claimer : Text) (limit stale at : ℕ) (s : RoutineState)
    → IsSound s
    → IsSound (claim_executions claimer limit stale at s).0
unfolding claim_executions
claim_executions-IsSound claimer limit stale at s v =
    let (reach, passes) = claim_selection-IsClaimable at stale limit s.executions in
    record {
      consistent = v.consistent;
      served =
          All-update_indices_at (IsServed s.routines) _ (claimed_execution claimer at) s.executions
            (λ j e listed here served waits.
              let was =
                All-contains (IsClaimable at stale) s.executions _ j e passes reach listed here in
              served (ground (arith, was)))
            v.served;
      distinct = v.distinct;
    }

-- A write that leaves no execution open keeps the executions served.
closing-IsServed :
    (p : Execution → Bool) (f : Execution → Execution) (s : RoutineState)
    → ((e : Execution) → is_open (f e) ≡ false)
    → IsSound s
    → All (IsServed s.routines) (update_first p f s.executions)
closing-IsServed p f s closed v =
    All-update_first (IsServed s.routines) p f s.executions (λ e _ _ waits. cc (closed e)) v.served

pub mark_execution_queued-IsSound :
    (id run : Text) (at : ℕ) (s : RoutineState)
    → IsSound s
    → IsSound (mark_execution_queued id run at s).0
unfolding mark_execution_queued
mark_execution_queued-IsSound id run at s v = record {
  consistent = v.consistent;
  served = closing-IsServed _ _ s (λ e. refl) v;
  distinct = v.distinct;
}

module _ (host : Host) where
  -- An alert is raised only under an id that is not there.
  push_notification-IsSound :
      (s : RoutineState) (e : Execution) (at : ℕ) (alert : Option (NotificationKind × ℕ))
      → IsSound s
      → IsSound (push_notification host s e at alert)
  unfolding push_notification
  push_notification-IsSound s e at none v = v
  push_notification-IsSound s e at (some (kind, failures)) v =
      elim (Bool-cases (any (λ n. text_eq n.id (notification_id host kind e.id)) s.notifications)) [
        | inl there ↦ rw there v
        | inr new ↦ rw new (record {
          consistent = v.consistent;
          served = v.served;
          distinct = append-HasDistinctIds s.notifications _ new v.distinct;
        })
      ]

  maybe_create_notification-IsSound :
      (s : RoutineState) (e : Execution) (at : ℕ)
      → IsSound s
      → IsSound (maybe_create_notification host s e at)
  unfolding maybe_create_notification
  maybe_create_notification-IsSound s e at v =
      let raised =
        push_notification-IsSound s e at
          (alert_for host e (consecutive_failures_before s.executions e)) v in
      elim (Bool-cases (mode_eq e.routine.notifications.mode failures_only)) [
        | inl loud ↦ rw loud raised
        | inr other ↦ rw other v
      ]

  finish-IsSound :
      (p : Execution → Bool) (f : Execution → Execution) (at : ℕ) (s : RoutineState)
      → ((e : Execution) → is_open (f e) ≡ false)
      → IsSound s
      → IsSound (finish host p f at s).0
  unfolding finish
  finish-IsSound p f at s closed v = elim (Option-cases (find p s.executions)) [
    | inl missing ↦ rw (missing, finish) v
    | inr (e, found) ↦
        let t : RoutineState = record s { executions = update_first p f s.executions } in
        let w : IsSound t = record {
          consistent = v.consistent;
          served = closing-IsServed p f s closed v;
          distinct = v.distinct;
        } in
        rw (found, finish)
          (elim (Bool-cases (terminal_execution (f e))) [
            | inl ended ↦ rw ended (maybe_create_notification-IsSound t (f e) at w)
            | inr going ↦ rw going w
          ])
  ]

  pub mark_execution_failed-IsSound :
      (id error : Text) (at : ℕ) (s : RoutineState)
      → IsSound s
      → IsSound (mark_execution_failed host id error at s).0
  unfolding mark_execution_failed
  mark_execution_failed-IsSound id error at s v =
      finish-IsSound (λ e. text_eq e.id id) (failed_execution error at) at s (λ e. refl) v

  reconciled-closed :
      (report : RunReport) (at : ℕ) (e : Execution) → is_open (reconciled report at e) ≡ false
  reconciled-closed report at e = ground arith

  pub reconcile_run-IsSound :
      (report : RunReport) (at : ℕ) (s : RoutineState)
      → IsSound s
      → IsSound (reconcile_run host report at s).0
  unfolding reconcile_run
  reconcile_run-IsSound report at s v =
      finish-IsSound (λ e. option_eq e.run_id (some report.run_id)) (reconciled report at) at s
        (reconciled-closed report at) v

claim_loop-HasDistinctIds :
    (routines : List Routine) (claimer : Text) (limit at : ℕ) (eligible : List (ℕ × Notification))
    (ns claims : List Notification)
    → HasDistinctIds ns
    → HasDistinctIds (claim_loop routines claimer limit at eligible ns claims).0
unfolding claim_loop
claim_loop-HasDistinctIds routines claimer limit at [] ns claims h = h
claim_loop-HasDistinctIds routines claimer limit at ((i, n) ∷ eligible) ns claims h =
    let skipped = claim_loop-HasDistinctIds routines claimer limit at eligible _ claims (
      update_at-HasDistinctIds
        (cancel_notification (text "routine_route_or_notification_policy_changed") at) (λ x. refl) i
        ns h) in
    let taken =
      claim_loop-HasDistinctIds routines claimer limit at eligible _
        (claims ++ claimed_notification claimer at n ∷ [])
        (update_at-HasDistinctIds (claimed_notification claimer at) (λ x. refl) i ns h) in
    elim (Bool-cases (is_current routines n)) [
      | inr old ↦ rw old skipped
      | inl current ↦ elim (Bool-cases (leb limit (length claims))) [
        | inl full ↦ rw (current, full) h
        | inr room ↦ rw (current, room) taken
      ]
    ]

pub claim_notifications-IsSound :
    (claimer : Text) (limit stale at : ℕ) (s : RoutineState)
    → IsSound s
    → IsSound (claim_notifications claimer limit stale at s).0
unfolding claim_notifications
claim_notifications-IsSound claimer limit stale at s v = record {
  consistent = v.consistent;
  served = v.served;
  distinct =
      claim_loop-HasDistinctIds s.routines claimer (clamp 1 100 limit) at _ s.notifications []
        v.distinct;
}

pub mark_notification_delivered-IsSound :
    (id : Text) (at : ℕ) (s : RoutineState)
    → IsSound s
    → IsSound (mark_notification_delivered id at s).0
unfolding mark_notification_delivered
mark_notification_delivered-IsSound id at s v = record {
  consistent = v.consistent;
  served = v.served;
  distinct =
      update_first-HasDistinctIds (delivered_notification at) (λ n. refl) _ s.notifications
        v.distinct;
}

pub retry_notification-IsSound :
    (id error : Text) (at most base : ℕ) (s : RoutineState)
    → IsSound s
    → IsSound (retry_notification id error at most base s).0
unfolding retry_notification
retry_notification-IsSound id error at most base s v = record {
  consistent = v.consistent;
  served = v.served;
  distinct =
      update_first-HasDistinctIds (retried_notification error at most base) (λ n. refl) _
        s.notifications v.distinct;
}
