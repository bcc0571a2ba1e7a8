-- ===== src/Routine/Once/Runs.antt =====
-- The dedup keys under staging, triggers and any sequence of requests.
use maxtag.Base.{
  ℕ, suc, ◌-◌, ◌≡◌, refl, sym, subst, inl, inr, false, Text, text, List, [], ◌∷◌, ◌++◌, map, any,
  find, length, ltb, update_at, All, Pairwise, Pairwise-append_one, Pairwise-drop, Pairwise-imp,
  Pairwise-unmap, All-append, All-drop, text_eq_iff, ◌∙◌, map-append, append-nil, map-drop,
  Bool-cases, Option-cases, Result, ok, err, Result-cases, arith,
}
use maxtag.Routine.Types.{Routine, Execution, scheduled, manual, RoutineState, RoutineError}
use maxtag.Routine.Schedule.{Host}
use maxtag.Routine.Policy.{create_empty_state}
use maxtag.Routine.Trim.{trim_state}
use maxtag.Routine.Upsert.{live_with_id}
use maxtag.Routine.Executions.{
  new_execution, with_key, scheduled_key, next_at, staged_by, advanced, stage_loop, stage_due,
  due_routines, trigger_routine,
}
use maxtag.Routine.Notifications.{
  claim_notifications, mark_notification_delivered, retry_notification,
}
use maxtag.Routine.Run.{Request, after, step, run}
use maxtag.Routine.Once.{RunKey, run_key, Separate, IsKeyed, AreKeyed, HasDistinctRuns, Keeps}
use maxtag.Routine.Once.Keeps.{
  upsert_routine-Keeps, set_routine_enabled-Keeps, delete_routine-Keeps, claim_executions-Keeps,
  mark_execution_queued-Keeps, mark_execution_failed-Keeps, reconcile_run-Keeps,
}

-- A key that no execution has is separate from all of theirs.
absent-Separate :
    (k : RunKey) (es : List Execution)
    → any (with_key k.1) es ≡ false
    → All (λ j. Separate j k) (map run_key es)
absent-Separate k [] h = tt
absent-Separate k (e ∷ es) h =
    ((λ _ _. ground (arith, h)), absent-Separate k es (ground (arith, h)))

manual-Separate : (k : RunKey) (ks : List RunKey) → k.0 ≡ manual → All (λ j. Separate j k) ks
manual-Separate k [] by_hand = tt
manual-Separate k (j ∷ ks) by_hand = ((λ _ m. cc (m, by_hand)), manual-Separate k ks by_hand)

module _ (host : Host) where
  append-AreKeyed :
      (es : List Execution) (e : Execution)
      → All (λ k. Separate k (run_key e)) (map run_key es)
      → IsKeyed host (run_key e)
      → AreKeyed host es
      → AreKeyed host (es ++ e ∷ [])
  append-AreKeyed es e new keyed v = rw (map-append run_key es (e ∷ [])) (
    Pairwise-append_one Separate (map run_key es) (run_key e) new v.0,
    All-append (IsKeyed host) (map run_key es) (run_key e ∷ []) v.1 (keyed, tt),
  )

  staged_by-AreKeyed :
      (r : Routine) (at : ℕ) (id : Text) (es : List Execution)
      → AreKeyed host es
      → AreKeyed host (es ++ staged_by host r at id es)
  unfolding staged_by
  staged_by-AreKeyed r at id es v = elim (Bool-cases (any (with_key (scheduled_key host r)) es)) [
    | inl there ↦ rw (there, append-nil es) v
    | inr new ↦ rw new (
        append-AreKeyed es _
          (absent-Separate
            (run_key (new_execution id r scheduled (scheduled_key host r) (next_at r) at)) es new)
          ((λ _. unfold scheduled_key in refl), (λ m. cc)) v)
  ]

  stage_loop-AreKeyed :
      (at : ℕ) (uuid : ℕ → Text) (k : ℕ) (due : List (ℕ × Routine)) (s s' : RoutineState)
      (staged out : List Execution)
      → stage_loop host at uuid k due s staged ≡ ok (s', out)
      → AreKeyed host s.executions
      → AreKeyed host s'.executions
  unfolding stage_loop
  stage_loop-AreKeyed at uuid k [] s s' staged out h v =
      let same : s.executions ≡ s'.executions = ground arith in subst (AreKeyed host) same v
  stage_loop-AreKeyed at uuid k ((i, r) ∷ due) s s' staged out h v =
      elim (Result-cases (advanced host r.schedule r at)) [
        | inr (e, bad) ↦ absurd (ground (arith, bad))
        | inl (r', good) ↦
            let created = staged_by host r at (uuid k) s.executions in
            let t : RoutineState = record s {
              executions = s.executions ++ created;
              routines = update_at i (λ _. r') s.routines;
            } in
            stage_loop-AreKeyed at uuid (suc k) due t s' (staged ++ created) out
              (ground (arith, good)) (staged_by-AreKeyed r at (uuid k) s.executions v)
      ]

  pub stage_due-AreKeyed :
      (at limit : ℕ) (uuid : ℕ → Text) (s s' : RoutineState) (out : List Execution)
      → stage_due host at limit uuid s ≡ ok (s', out)
      → AreKeyed host s.executions
      → AreKeyed host s'.executions
  unfolding stage_due
  stage_due-AreKeyed at limit uuid s s' out h v =
      stage_loop-AreKeyed at uuid 0 (due_routines at limit s.routines) s s' [] out h v

  trigger_routine-AreKeyed :
      (id actor : Text) (at : ℕ) (uuid : ℕ → Text) (s s' : RoutineState) (e : Execution)
      → trigger_routine id actor at uuid s ≡ ok (s', e)
      → AreKeyed host s.executions
      → AreKeyed host s'.executions
  unfolding trigger_routine text
  trigger_routine-AreKeyed id actor at uuid s s' e h v =
      elim (Option-cases (find (live_with_id id) s.routines)) [
        | inl missing ↦ absurd (ground (arith, missing))
        | inr (r, found) ↦
            let key = text "manual:" ++ r.id ++ text ":" ++ uuid 1 in
            let x = new_execution (uuid 0) r manual key at at in
            let same : s.executions ++ x ∷ [] ≡ s'.executions = ground (arith, found) in
            subst (AreKeyed host) same (
              append-AreKeyed s.executions x
                (manual-Separate (run_key x) (map run_key s.executions) refl)
                ((λ m. cc), (λ _. (r.id ++ text ":" ++ uuid 1, refl))) v)
      ]

  trim_state-AreKeyed :
      (s : RoutineState) → AreKeyed host s.executions → AreKeyed host (trim_state s).executions
  unfolding trim_state
  trim_state-AreKeyed s v =
      let past = length s.executions - 2_000 in
      elim (Bool-cases (ltb 2_000 (length s.executions))) [
        | inl long ↦
            rw (long, map-drop run_key past s.executions)
              (
                Pairwise-drop Separate past (map run_key s.executions) v.0,
                All-drop (IsKeyed host) past (map run_key s.executions) v.1,
              )
        | inr short ↦ rw short v
      ]

  kept-AreKeyed :
      (s t : RoutineState)
      → Keeps s t
      → AreKeyed host s.executions
      → AreKeyed host (trim_state t).executions
  kept-AreKeyed s t same v =
      trim_state-AreKeyed t
        (subst (λ (ks : List RunKey). Pairwise Separate ks × All (IsKeyed host) ks) (sym same) v)

  after-AreKeyed :
      {A : Type 0} (s : RoutineState) (r : Result RoutineError (RoutineState × A))
      → AreKeyed host s.executions
      → ((s' : RoutineState) (a : A) → r ≡ ok (s', a) → AreKeyed host (trim_state s').executions)
      → AreKeyed host (after s r).executions
  after-AreKeyed s (ok (s', a)) v keep = keep s' a refl
  after-AreKeyed s (err e) v keep = v

  step-AreKeyed :
      (s : RoutineState) (r : ℕ × (ℕ → Text) × Request)
      → AreKeyed host s.executions
      → AreKeyed host (step host s r).executions
  unfolding step
  step-AreKeyed s (at, uuid, Request.upserts input) v =
      after-AreKeyed s _ v
        (λ s' a h. kept-AreKeyed s s' (upsert_routine-Keeps host input at uuid s s' a h) v)
  step-AreKeyed s (at, uuid, Request.sets_enabled id enabled actor) v =
      after-AreKeyed s _ v (λ s' a h.
        kept-AreKeyed s s' (set_routine_enabled-Keeps host id enabled actor at uuid s s' a h) v)
  step-AreKeyed s (at, uuid, Request.deletes id actor) v =
      after-AreKeyed s _ v
        (λ s' a h. kept-AreKeyed s s' (delete_routine-Keeps id actor at uuid s s' a h) v)
  step-AreKeyed s (at, uuid, Request.stages limit) v =
      after-AreKeyed s _ v
        (λ s' a h. trim_state-AreKeyed s' (stage_due-AreKeyed at limit uuid s s' a h v))
  step-AreKeyed s (at, uuid, Request.triggers id actor) v =
      after-AreKeyed s _ v
        (λ s' a h. trim_state-AreKeyed s' (trigger_routine-AreKeyed id actor at uuid s s' a h v))
  step-AreKeyed s (at, uuid, Request.claims_executions c limit stale) v =
      kept-AreKeyed s _ (claim_executions-Keeps c limit stale at s) v
  step-AreKeyed s (at, uuid, Request.marks_queued id r) v =
      kept-AreKeyed s _ (mark_execution_queued-Keeps id r at s) v
  step-AreKeyed s (at, uuid, Request.marks_failed id error) v =
      kept-AreKeyed s _ (mark_execution_failed-Keeps host id error at s) v
  step-AreKeyed s (at, uuid, Request.reconciles report) v =
      kept-AreKeyed s _ (reconcile_run-Keeps host report at s) v
  step-AreKeyed s (at, uuid, Request.claims_notifications c limit stale) v =
      kept-AreKeyed s (claim_notifications c limit stale at s).0
        (unfold claim_notifications in refl) v
  step-AreKeyed s (at, uuid, Request.marks_delivered id) v =
      kept-AreKeyed s (mark_notification_delivered id at s).0
        (unfold mark_notification_delivered in refl) v
  step-AreKeyed s (at, uuid, Request.retries id error most base) v =
      kept-AreKeyed s (retry_notification id error at most base s).0
        (unfold retry_notification in refl) v

  run-AreKeyed_from :
      (s : RoutineState) (rs : List (ℕ × (ℕ → Text) × Request))
      → AreKeyed host s.executions
      → AreKeyed host (run host s rs).executions
  unfolding run
  run-AreKeyed_from s [] v = v
  run-AreKeyed_from s (r ∷ rs) v = run-AreKeyed_from (step host s r) rs (step-AreKeyed s r v)

pub run-AreKeyed :
    (host : Host) (rs : List (ℕ × (ℕ → Text) × Request))
    → AreKeyed host (run host create_empty_state rs).executions
unfolding create_empty_state
run-AreKeyed host rs = run-AreKeyed_from host create_empty_state rs (tt, tt)

-- After any requests to an empty store, no two scheduled executions are of one routine for one instant.
pub run-HasDistinctRuns :
    (host : Host) (rs : List (ℕ × (ℕ → Text) × Request))
    → HasDistinctRuns (run host create_empty_state rs).executions
run-HasDistinctRuns host rs =
    let es = (run host create_empty_state rs).executions in
    let (apart, keyed) = run-AreKeyed host rs in
    Pairwise-unmap run_key SeparateRuns es (
      Pairwise-imp (IsKeyed host) Separate SeparateRuns (map run_key es)
        (λ a b of_a of_b keys u w (routine, instant).
          let same : a.1 ≡ b.1 =
            of_a.0 u
            ∙ (λ i. text "scheduled:" ++ routine i ++ text ":" ++ host.iso (instant i))
            ∙ sym (of_b.0 w) in
          cc (keys u w, (text_eq_iff a.1 b.1).1 same))
        keyed apart)
  where
    SeparateRuns : RunKey → RunKey → Type 0
    SeparateRuns a b = a.0 ≡ scheduled → b.0 ≡ scheduled → ¬ ((a.2 ≡ b.2) × (a.3 ≡ b.3))
