-- ===== src/Routine/Due.antt =====
-- What staging does for a routine that is due.
use maxtag.Base.{
  ℕ, suc, ◌≡◌, subst, inl, inr, Bool, true, false, Text, text_eq, text_eq_iff, text_eq_refl, text,
  ◌==◌, ==_iff, ◌&&◌, ◌⊎◌, refl, sym, ap, ◌∙◌, drop, take, map, All-imp, List, [], ◌∷◌, ◌++◌, any,
  update_at, All, any-append_left, any-append_right, Bool-cases, ok, Result-cases, arith,
}
use maxtag.Routine.Types.{
  Routine, RoutineSchedule, once, interval, daily, Execution, ExecutionTrigger, scheduled, manual,
  RoutineState,
}
use maxtag.Routine.Policy.{create_empty_state}
use maxtag.Routine.Run.{Request, run}
use maxtag.Routine.Once.{run_key, IsKeyed}
use maxtag.Routine.Once.Runs.{stage_due-AreKeyed, run-AreKeyed}
use maxtag.Routine.Schedule.{Host, next_routine_run_at, normalize_schedule, next_of}
use maxtag.Routine.Executions.{
  due_routines, advanced, staged_by, stage_loop, stage_due, with_key, scheduled_key, is_due,
  next_at,
}

module _ (host : Host) where
  abbrev IsStaged : List Execution → ℕ × Routine → Type 0
  IsStaged es p = any (with_key (scheduled_key host p.1)) es ≡ true

  staged_by-IsStaged :
      (r : Routine) (at : ℕ) (id : Text) (es : List Execution)
      → any (with_key (scheduled_key host r)) (es ++ staged_by host r at id es) ≡ true
  unfolding staged_by
  staged_by-IsStaged r at id es =
      let key = scheduled_key host r in
      elim (Bool-cases (any (with_key key) es)) [
        | inl there ↦ any-append_left (with_key key) es _ there
        | inr new ↦ rw new (any-append_right (with_key key) es _ (ground (arith, text_eq_refl key)))
      ]

  -- The loop only adds executions.
  stage_loop-keeps :
      (t : Execution → Bool) (at : ℕ) (uuid : ℕ → Text) (k : ℕ) (due : List (ℕ × Routine))
      (s s' : RoutineState) (staged out : List Execution)
      → stage_loop host at uuid k due s staged ≡ ok (s', out)
      → any t s.executions ≡ true
      → any t s'.executions ≡ true
  unfolding stage_loop
  stage_loop-keeps t at uuid k [] s s' staged out h v =
      let same : s.executions ≡ s'.executions = ground arith in subst (λ es. any t es ≡ true) same v
  stage_loop-keeps t at uuid k ((i, r) ∷ due) s s' staged out h v =
      elim (Result-cases (advanced host r.schedule r at)) [
        | inr (e, bad) ↦ absurd (ground (arith, bad))
        | inl (r', good) ↦
            let created = staged_by host r at (uuid k) s.executions in
            let s1 : RoutineState = record s {
              executions = s.executions ++ created;
              routines = update_at i (λ _. r') s.routines;
            } in
            stage_loop-keeps t at uuid (suc k) due s1 s' (staged ++ created) out
              (ground (arith, good)) (any-append_left t s.executions created v)
      ]

  stage_loop-IsStaged :
      (at : ℕ) (uuid : ℕ → Text) (k : ℕ) (due : List (ℕ × Routine)) (s s' : RoutineState)
      (staged out : List Execution)
      → stage_loop host at uuid k due s staged ≡ ok (s', out)
      → All (IsStaged s'.executions) due
  unfolding stage_loop
  stage_loop-IsStaged at uuid k [] s s' staged out h = tt
  stage_loop-IsStaged at uuid k ((i, r) ∷ due) s s' staged out h =
      elim (Result-cases (advanced host r.schedule r at)) [
        | inr (e, bad) ↦ absurd (ground (arith, bad))
        | inl (r', good) ↦
            let created = staged_by host r at (uuid k) s.executions in
            let t : RoutineState = record s {
              executions = s.executions ++ created;
              routines = update_at i (λ _. r') s.routines;
            } in
            let rest : stage_loop host at uuid (suc k) due t (staged ++ created) ≡ ok (s', out) =
              ground (arith, good) in
            (
              stage_loop-keeps (with_key (scheduled_key host r)) at uuid (suc k) due t s'
                  (staged ++ created) out rest (staged_by-IsStaged r at (uuid k) s.executions),
              stage_loop-IsStaged at uuid (suc k) due t s' (staged ++ created) out rest,
            )
      ]

abbrev is_scheduled : ExecutionTrigger → Bool
is_scheduled scheduled = true
is_scheduled manual = false

-- A scheduled execution of the routine, for the instant at which it is due.
abbrev pub is_run_of : Routine → Execution → Bool
is_run_of r e = is_scheduled e.trigger && text_eq e.routine_id r.id && e.scheduled_for == next_at r

trigger-cases : (t : ExecutionTrigger) → (t ≡ scheduled) ⊎ (t ≡ manual)
trigger-cases scheduled = inl refl
trigger-cases manual = inr refl

module _ (host : Host) where
  -- An instant that is printed behind a colon can be told from what stands before it.
  abbrev Prints : Type 0
  Prints =
      (a b : Text) (t u : ℕ)
      → a ++ text ":" ++ host.iso t ≡ b ++ text ":" ++ host.iso u
      → (a ≡ b) × (t ≡ u)

  module _ (prints : Prints) (r : Routine) where
    keyed-is_run_of :
        (e : Execution)
        → IsKeyed host (run_key e)
        → with_key (scheduled_key host r) e ≡ true
        → is_run_of r e ≡ true
    unfolding scheduled_key text
    keyed-is_run_of e (planned, by_hand) h =
        let same : e.dedup_key ≡ scheduled_key host r =
          (text_eq_iff e.dedup_key (scheduled_key host r)).0 h in
        elim (trigger-cases e.trigger) [
          | inr m ↦
              let (rest, key) = by_hand m in
              let first = ap (λ (t : Text). take 1 t) (sym key ∙ same) in
              absurd (ground (arith, first))
          | inl p ↦
              let (names, instant) =
                prints (text "scheduled:" ++ e.routine_id) (text "scheduled:" ++ r.id)
                  e.scheduled_for (next_at r) (sym (planned p) ∙ same) in
              let routine : e.routine_id ≡ r.id = ap (drop 10) names in
              let u = (text_eq_iff e.routine_id r.id).1 routine in
              let v = (==_iff e.scheduled_for (next_at r)).1 instant in rw (p, u, v) refl
        ]

    any-is_run_of :
        (es : List Execution)
        → All (IsKeyed host) (map run_key es)
        → any (with_key (scheduled_key host r)) es ≡ true
        → any (is_run_of r) es ≡ true
    any-is_run_of [] k h = cc
    any-is_run_of (e ∷ es) (k, ks) h = elim (Bool-cases (with_key (scheduled_key host r) e)) [
      | inl hit ↦ ground (arith, keyed-is_run_of e k hit)
      | inr miss ↦ ground (arith, any-is_run_of es ks (ground (arith, h, miss)))
    ]

-- When staging succeeds in a state that requests have reached from the empty store, each routine that it
-- selected has a scheduled execution for the instant at which it was due; where an instant that the host
-- prints behind a colon can be told from what stands before it.
pub stage_due-IsStaged :
    (host : Host) (rs : List (ℕ × (ℕ → Text) × Request)) (at limit : ℕ) (uuid : ℕ → Text)
    (s' : RoutineState) (out : List Execution)
    → ((a b : Text) (t u : ℕ)
        → a ++ text ":" ++ host.iso t ≡ b ++ text ":" ++ host.iso u
        → (a ≡ b) × (t ≡ u))
    → stage_due host at limit uuid (run host create_empty_state rs) ≡ ok (s', out)
    → All
        (λ p. any (is_run_of p.1) s'.executions ≡ true)
        (due_routines at limit (run host create_empty_state rs).routines)
unfolding stage_due
stage_due-IsStaged host rs at limit uuid s' out prints h =
    let s = run host create_empty_state rs in
    let due = due_routines at limit s.routines in
    let (_, keyed) = stage_due-AreKeyed host at limit uuid s s' out h (run-AreKeyed host rs) in
    All-imp (IsStaged host s'.executions) (λ p. any (is_run_of p.1) s'.executions ≡ true) due
      (λ p staged. any-is_run_of host prints p.1 s'.executions keyed staged)
      (stage_loop-IsStaged host at uuid 0 due s s' [] out h)

abbrev is_daily : RoutineSchedule → Bool
is_daily (daily t z) = true
is_daily _ = false

-- A routine that runs once or at an interval is not due any more when it has been staged, however late
-- that was: runs that were missed are not made up for.
pub advanced-rests :
    (host : Host) (schedule : RoutineSchedule) (r r' : Routine) (at : ℕ)
    → is_daily schedule ≡ false
    → advanced host schedule r at ≡ ok r'
    → is_due at r' ≡ false
unfolding advanced next_routine_run_at
advanced-rests host (once t) r r' at n h = ground arith
advanced-rests host (interval m) r r' at n h = unfold normalize_schedule next_of in ground arith
advanced-rests host (daily t z) r r' at n h = cc
