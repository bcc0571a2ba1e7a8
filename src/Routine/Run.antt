-- ===== src/Routine/Run.antt =====
-- The routine store under any sequence of requests: what the server, the scheduler and the worker ask
-- of it, one after the other as the queue of `mutate` runs them. A request that throws saves nothing,
-- and what any other saves has been trimmed.
use maxtag.Base.{ℕ, ◌≡◌, refl, Bool, true, Text, List, [], ◌∷◌, Result, ok, err, any, All-mem, Memᴰ}
use maxtag.Routine.Types.{Routine, Execution, RoutineState, UpsertInput, RoutineError}
use maxtag.Routine.Schedule.{Host}
use maxtag.Routine.Policy.{create_empty_state}
use maxtag.Routine.Trim.{trim_state}
use maxtag.Routine.Upsert.{upsert_routine, live_with_id}
use maxtag.Routine.Lifecycle.{set_routine_enabled, delete_routine}
use maxtag.Routine.Executions.{stage_due, trigger_routine}
use maxtag.Routine.Claims.{
  claim_executions, mark_execution_queued, mark_execution_failed, RunReport, reconcile_run,
}
use maxtag.Routine.Notifications.{
  claim_notifications, mark_notification_delivered, retry_notification,
}
use maxtag.Routine.Sound.{IsConsistent, is_open, IsServed, HasDistinctIds, IsSound}
use maxtag.Routine.Sound.Pieces.{trim_state-IsSound}
use maxtag.Routine.Sound.Changes.{upsert_routine-IsSound, set_routine_enabled-IsSound}
use maxtag.Routine.Sound.Deletion.{delete_routine-IsSound}
use maxtag.Routine.Sound.Staging.{stage_due-IsSound, trigger_routine-IsSound}
use maxtag.Routine.Sound.Progress.{
  claim_executions-IsSound, mark_execution_queued-IsSound, mark_execution_failed-IsSound,
  reconcile_run-IsSound, claim_notifications-IsSound, mark_notification_delivered-IsSound,
  retry_notification-IsSound,
}

-- The calls of the store that change its state.
pub data Request : Type 0 where
  upserts : UpsertInput → Request
  sets_enabled : (id : Text) → Bool → (actor : Text) → Request
  deletes : (id actor : Text) → Request
  stages : (limit : ℕ) → Request
  triggers : (id actor : Text) → Request
  claims_executions : (claimer : Text) → (limit stale_after : ℕ) → Request
  marks_queued : (id run : Text) → Request
  marks_failed : (id error : Text) → Request
  reconciles : RunReport → Request
  claims_notifications : (claimer : Text) → (limit stale_after : ℕ) → Request
  marks_delivered : (id : Text) → Request
  retries : (id error : Text) → (max_attempts retry_base_ms : ℕ) → Request

-- What the file holds after a change.
abbrev pub after :
    {A : Type 0} → RoutineState → Result RoutineError (RoutineState × A) → RoutineState
after s (ok (s', a)) = trim_state s'
after s (err e) = s

module _ (host : Host) where
  -- A request meets a time and the random ids.
  unfoldable pub step : RoutineState → ℕ × (ℕ → Text) × Request → RoutineState
  step s (at, uuid, upserts input) = after s (upsert_routine host input at uuid s)
  step s (at, uuid, sets_enabled id enabled actor) =
      after s (set_routine_enabled host id enabled actor at uuid s)
  step s (at, uuid, deletes id actor) = after s (delete_routine id actor at uuid s)
  step s (at, uuid, stages limit) = after s (stage_due host at limit uuid s)
  step s (at, uuid, triggers id actor) = after s (trigger_routine id actor at uuid s)
  step s (at, uuid, claims_executions claimer limit stale) =
      after s (ok (claim_executions claimer limit stale at s))
  step s (at, uuid, marks_queued id r) = after s (ok (mark_execution_queued id r at s))
  step s (at, uuid, marks_failed id error) = after s (ok (mark_execution_failed host id error at s))
  step s (at, uuid, reconciles report) = after s (ok (reconcile_run host report at s))
  step s (at, uuid, claims_notifications claimer limit stale) =
      after s (ok (claim_notifications claimer limit stale at s))
  step s (at, uuid, marks_delivered id) = after s (ok (mark_notification_delivered id at s))
  step s (at, uuid, retries id error most base) =
      after s (ok (retry_notification id error at most base s))

  unfoldable pub run : RoutineState → List (ℕ × (ℕ → Text) × Request) → RoutineState
  unfolding step
  run s [] = s
  run s (r ∷ rs) = run (step s r) rs

after-IsSound :
    {A : Type 0} (s : RoutineState) (r : Result RoutineError (RoutineState × A))
    → IsSound s
    → ((s' : RoutineState) (a : A) → r ≡ ok (s', a) → IsSound s')
    → IsSound (after s r)
after-IsSound s (ok (s', a)) v keep = trim_state-IsSound s' (keep s' a refl)
after-IsSound s (err e) v keep = v

module _ (host : Host) where
  step-IsSound :
      (s : RoutineState) (r : ℕ × (ℕ → Text) × Request) → IsSound s → IsSound (step host s r)
  unfolding step
  step-IsSound s (at, uuid, upserts input) v =
      after-IsSound s _ v (λ s' a h. upsert_routine-IsSound host input at uuid s s' a h v)
  step-IsSound s (at, uuid, sets_enabled id enabled actor) v =
      after-IsSound s _ v
        (λ s' a h. set_routine_enabled-IsSound host id enabled actor at uuid s s' a h v)
  step-IsSound s (at, uuid, deletes id actor) v =
      after-IsSound s _ v (λ s' a h. delete_routine-IsSound id actor at uuid s s' a h v)
  step-IsSound s (at, uuid, stages limit) v =
      after-IsSound s _ v (λ s' a h. stage_due-IsSound host at limit uuid s s' a h v)
  step-IsSound s (at, uuid, triggers id actor) v =
      after-IsSound s _ v (λ s' a h. trigger_routine-IsSound id actor at uuid s s' a h v)
  step-IsSound s (at, uuid, claims_executions claimer limit stale) v =
      trim_state-IsSound _ (claim_executions-IsSound claimer limit stale at s v)
  step-IsSound s (at, uuid, marks_queued id r) v =
      trim_state-IsSound _ (mark_execution_queued-IsSound id r at s v)
  step-IsSound s (at, uuid, marks_failed id error) v =
      trim_state-IsSound _ (mark_execution_failed-IsSound host id error at s v)
  step-IsSound s (at, uuid, reconciles report) v =
      trim_state-IsSound _ (reconcile_run-IsSound host report at s v)
  step-IsSound s (at, uuid, claims_notifications claimer limit stale) v =
      trim_state-IsSound _ (claim_notifications-IsSound claimer limit stale at s v)
  step-IsSound s (at, uuid, marks_delivered id) v =
      trim_state-IsSound _ (mark_notification_delivered-IsSound id at s v)
  step-IsSound s (at, uuid, retries id error most base) v =
      trim_state-IsSound _ (retry_notification-IsSound id error at most base s v)

  run-IsSound :
      (s : RoutineState) (rs : List (ℕ × (ℕ → Text) × Request))
      → IsSound s
      → IsSound (run host s rs)
  unfolding run
  run-IsSound s [] v = v
  run-IsSound s (r ∷ rs) v = run-IsSound (step host s r) rs (step-IsSound s r v)

empty-IsSound : IsSound create_empty_state
unfolding create_empty_state
empty-IsSound = record { consistent = tt; served = tt; distinct = tt }

-- After any requests to an empty store, a routine has a next run exactly when it is enabled, and a
-- deleted one is not enabled.
pub run_routine-IsConsistent :
    (host : Host) (rs : List (ℕ × (ℕ → Text) × Request)) (r : Routine)
    → Memᴰ r (run host create_empty_state rs).routines
    → IsConsistent r
run_routine-IsConsistent host rs r m =
    All-mem IsConsistent _ (run-IsSound host create_empty_state rs empty-IsSound).consistent m

-- After any requests to an empty store, an execution that is pending or claimed belongs to a routine
-- that is stored and not deleted.
pub run_execution-IsServed :
    (host : Host) (rs : List (ℕ × (ℕ → Text) × Request)) (e : Execution)
    → let s = run host create_empty_state rs in
      Memᴰ e s.executions → is_open e ≡ true → any (live_with_id e.routine_id) s.routines ≡ true
run_execution-IsServed host rs e m =
    All-mem (IsServed _) _ (run-IsSound host create_empty_state rs empty-IsSound).served m

-- After any requests to an empty store, no two notifications have one id.
pub run_notifications-HasDistinctIds :
    (host : Host) (rs : List (ℕ × (ℕ → Text) × Request))
    → HasDistinctIds (run host create_empty_state rs).notifications
run_notifications-HasDistinctIds host rs =
    (run-IsSound host create_empty_state rs empty-IsSound).distinct
