-- ===== src/Routine/Notifications.antt =====
-- packages/routines/src/file-routine-store.ts: the outbox of alerts. A worker claims the alerts whose
-- time has come, and reports each as delivered or to be tried again.
use maxtag.Base.{
  ℕ, ◌+◌, ◌-◌, ◌*◌, ◌^◌, min, max, Bool, false, ◌&&◌, ◌||◌, not, Text, text, text_eq, List, [], ◌∷◌,
  ◌++◌, Option, none, some, leb, clamp, if◌then◌else◌, take, filter, find, length, tag,
  update_first, update_at, sort_by,
}
use maxtag.Routine.Types.{
  Routine, Notification, NotificationStatus, delivered, RoutineState, notification_status_eq,
}
use maxtag.Routine.Policy.{same_incident_policy}
use maxtag.Routine.Trim.{cancel_notification}
use maxtag.Routine.Upsert.{live_with_id}
use maxtag.Routine.Claims.{is_stale}

abbrev pub claimable_notification : ℕ → ℕ → Notification → Bool
claimable_notification at stale_after n =
    notification_status_eq n.status NotificationStatus.pending && leb n.next_attempt_at at
    || notification_status_eq n.status NotificationStatus.claimed
      && is_stale at stale_after n.claimed_at

-- Whether the routine is still there, and still reports to the same place under the same policy.
unfoldable pub is_current : List Routine → Notification → Bool
is_current routines n = elim (find (live_with_id n.routine_id) routines) [
  | none ↦ false
  | some current ↦ same_incident_policy n.routine current
]

abbrev pub claimed_notification : Text → ℕ → Notification → Notification
claimed_notification claimer at n = record n {
  status = NotificationStatus.claimed;
  claimer_id = some claimer;
  claimed_at = some at;
  attempts = n.attempts + 1;
  updated_at = at;
}

-- The loop: an alert that is out of date is cancelled, and the first one past the limit ends it.
unfoldable pub claim_loop :
    List Routine
    → Text
    → ℕ
    → ℕ
    → List (ℕ × Notification)
    → List Notification
    → List Notification
    → List Notification × List Notification
claim_loop routines claimer limit at [] notifications claims = (notifications, claims)
claim_loop routines claimer limit at ((i, n) ∷ eligible) notifications claims =
    let changed = text "routine_route_or_notification_policy_changed" in
    let skipped =
      claim_loop routines claimer limit at eligible
        (update_at i (cancel_notification changed at) notifications) claims in
    let taken =
      claim_loop routines claimer limit at eligible
        (update_at i (claimed_notification claimer at) notifications)
        (claims ++ claimed_notification claimer at n ∷ []) in
    if not (is_current routines n)
    then skipped
    else if leb limit (length claims)
    then (notifications, claims)
    else taken

unfoldable pub claim_notifications :
    Text → ℕ → ℕ → ℕ → RoutineState → RoutineState × List Notification
unfolding claim_loop is_current
claim_notifications claimer limit stale_after at state =
    let eligible =
      sort_by (λ p q. leb p.1.created_at q.1.created_at)
        (filter (λ p. claimable_notification at stale_after p.1) (tag 0 state.notifications)) in
    let (notifications, claims) =
      claim_loop state.routines claimer (clamp 1 100 limit) at eligible state.notifications [] in
    (record state { notifications = notifications }, claims)

-- `find` by id, a write through the reference, and the clone that is returned.
abbrev write_notification :
    Text → (Notification → Notification) → RoutineState → RoutineState × Option Notification
write_notification id write state = (
  record state { notifications = update_first (λ n. text_eq n.id id) write state.notifications },
  elim (find (λ n. text_eq n.id id) state.notifications) [ none ↦ none | some n ↦ some (write n) ],
)

abbrev pub delivered_notification : ℕ → Notification → Notification
delivered_notification at n = record n {
  status = delivered;
  last_error = none;
  delivered_at = some at;
  updated_at = at;
}

unfoldable pub mark_notification_delivered :
    Text → ℕ → RoutineState → RoutineState × Option Notification
mark_notification_delivered id at state = write_notification id (delivered_notification at) state

-- The wait before the next attempt, in milliseconds.
unfoldable pub retry_delay : ℕ → ℕ → ℕ
retry_delay retry_base_ms attempts =
    min (max 1_000 retry_base_ms * 2 ^ (attempts - 1)) (30 * 60_000)

abbrev pub retried_notification : Text → ℕ → ℕ → ℕ → Notification → Notification
retried_notification error at max_attempts retry_base_ms n = record n {
  status =
      if leb (clamp 1 20 max_attempts) n.attempts
      then NotificationStatus.failed
      else NotificationStatus.pending;
  last_error = some (take 2_000 error);
  next_attempt_at = at + retry_delay retry_base_ms n.attempts;
  updated_at = at;
}

unfoldable pub retry_notification :
    Text → Text → ℕ → ℕ → ℕ → RoutineState → RoutineState × Option Notification
retry_notification id error at max_attempts retry_base_ms state =
    write_notification id (retried_notification error at max_attempts retry_base_ms) state
