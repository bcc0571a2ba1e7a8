-- ===== src/Routine/Bounds.antt =====
-- The bounds of what the routine store keeps, and what trimming never drops.
use maxtag.Base.{
  ℕ, ◌≤◌, ◌≡◌, ◌-◌, refl, not, true, Text, List, [], ◌∷◌, filter, tag, length, length-keep_last,
  filter-remove_indices, All-take, All-sort_by, All-filter_self, All-contains, References-selection,
  ok, err, Result, arith, leb, inl, inr, Bool-cases, ltb,
}
use maxtag.Routine.Types.{Notification, RoutineState, RoutineError}
use maxtag.Routine.Schedule.{Host}
use maxtag.Routine.Policy.{create_empty_state}
use maxtag.Routine.Trim.{removable, trim_indices, trim_state}
use maxtag.Routine.Run.{Request, after, step, run}

-- Trimming drops only alerts that have been delivered or have failed for good: the others stay, in
-- their order.
pub trim_state-notifications :
    (s : RoutineState)
    → filter (λ n. not (removable n)) (trim_state s).notifications
      ≡ filter (λ n. not (removable n)) s.notifications
unfolding trim_state trim_indices
trim_state-notifications s =
    let old = λ (p q : ℕ × Notification). leb p.1.created_at q.1.created_at in
    let past = length s.notifications - 1_000 in
    let reach = (References-selection past old (λ p. removable p.1) s.notifications).0 in
    let passes =
      All-take (λ p. removable p.1 ≡ true) past _
        (All-sort_by old (λ p. removable p.1 ≡ true) _
          (All-filter_self (λ p. removable p.1) (tag 0 s.notifications))) in
    let same =
      filter-remove_indices (trim_indices s.notifications) (λ n. not (removable n)) s.notifications
        (λ j n listed here. ground (
          arith,
          All-contains (λ n. removable n ≡ true) s.notifications _ j n passes reach listed here,
        )) in
    elim (Bool-cases (ltb 1_000 (length s.notifications))) [
      | inl long ↦ rw long same
      | inr short ↦ rw short refl
    ]

abbrev pub IsBounded : RoutineState → Type 0
IsBounded s = (length s.executions ≤ 2_000) × (length s.audit ≤ 500)

trim_state-IsBounded : (s : RoutineState) → IsBounded (trim_state s)
unfolding trim_state
trim_state-IsBounded s = (
  ground (arith, length-keep_last 2_000 s.executions),
  ground (arith, length-keep_last 500 s.audit),
)

after-IsBounded :
    {A : Type 0} (s : RoutineState) (r : Result RoutineError (RoutineState × A))
    → IsBounded s
    → IsBounded (after s r)
after-IsBounded s (ok (s', a)) v = trim_state-IsBounded s'
after-IsBounded s (err e) v = v

module _ (host : Host) where
  step-IsBounded :
      (s : RoutineState) (r : ℕ × (ℕ → Text) × Request) → IsBounded s → IsBounded (step host s r)
  unfolding step
  step-IsBounded s (at, uuid, Request.upserts input) v = after-IsBounded s _ v
  step-IsBounded s (at, uuid, Request.sets_enabled id enabled actor) v = after-IsBounded s _ v
  step-IsBounded s (at, uuid, Request.deletes id actor) v = after-IsBounded s _ v
  step-IsBounded s (at, uuid, Request.stages limit) v = after-IsBounded s _ v
  step-IsBounded s (at, uuid, Request.triggers id actor) v = after-IsBounded s _ v
  step-IsBounded s (at, uuid, Request.claims_executions c limit stale) v = trim_state-IsBounded _
  step-IsBounded s (at, uuid, Request.marks_queued id r) v = trim_state-IsBounded _
  step-IsBounded s (at, uuid, Request.marks_failed id error) v = trim_state-IsBounded _
  step-IsBounded s (at, uuid, Request.reconciles report) v = trim_state-IsBounded _
  step-IsBounded s (at, uuid, Request.claims_notifications c limit stale) v = trim_state-IsBounded _
  step-IsBounded s (at, uuid, Request.marks_delivered id) v = trim_state-IsBounded _
  step-IsBounded s (at, uuid, Request.retries id error most base) v = trim_state-IsBounded _

  run-IsBounded_from :
      (s : RoutineState) (rs : List (ℕ × (ℕ → Text) × Request))
      → IsBounded s
      → IsBounded (run host s rs)
  unfolding run
  run-IsBounded_from s [] v = v
  run-IsBounded_from s (r ∷ rs) v = run-IsBounded_from (step host s r) rs (step-IsBounded s r v)

-- After any requests to an empty store, it holds at most 2000 executions and 500 audit entries.
pub run-IsBounded :
    (host : Host) (rs : List (ℕ × (ℕ → Text) × Request))
    → IsBounded (run host create_empty_state rs)
unfolding create_empty_state
run-IsBounded host rs = run-IsBounded_from host create_empty_state rs (omega arith, omega arith)
