-- ===== src/Routine/Executions.antt =====
-- packages/routines/src/file-routine-store.ts: executions are staged when their routine is due, or by
-- hand.
use maxtag.Base.{
  ℕ, suc, Bool, false, ◌&&◌, not, Text, text, text_eq, List, [], ◌∷◌, ◌++◌, none, some, is_some,
  or_else, leb, clamp, if◌then◌else◌, take, filter, any, find, tag, update_at, sort_by, Result, ok,
  err, ◌>>=◌,
}
use maxtag.Routine.Types.{
  Routine, RoutineSchedule, once, Execution, ExecutionTrigger, ExecutionStatus, scheduled, manual,
  routine_triggered, RoutineState, RoutineError, routine_not_found,
}
use maxtag.Routine.Schedule.{Host, next_routine_run_at}
use maxtag.Routine.Upsert.{live_with_id, audit_of, push_audit}

abbrev pub next_at : Routine → ℕ
next_at routine = or_else routine.next_run_at 0

-- An enabled routine that is not deleted and whose next run has come.
abbrev pub is_due : ℕ → Routine → Bool
is_due at routine =
    routine.enabled
    && not (is_some routine.deleted_at)
    && is_some routine.next_run_at
    && leb (next_at routine) at

unfoldable pub due_routines : ℕ → ℕ → List Routine → List (ℕ × Routine)
due_routines at limit routines = take (clamp 1 200 limit) (
    sort_by (λ p q. leb (next_at p.1) (next_at q.1)) (filter (λ p. is_due at p.1) (tag 0 routines)))

abbrev pub new_execution :
    Text → Routine → ExecutionTrigger → Text → (scheduled_for at : ℕ) → Execution
new_execution id routine trigger key scheduled_for at = record {
  id = id;
  routine_id = routine.id;
  routine = routine;
  trigger = trigger;
  dedup_key = key;
  scheduled_for = scheduled_for;
  status = ExecutionStatus.pending;
  attempts = 0;
  claimer_id = none;
  claimed_at = none;
  run_id = none;
  summary = none;
  error = none;
  created_at = at;
  updated_at = at;
  completed_at = none;
}

abbrev pub with_key : Text → Execution → Bool
with_key key e = text_eq e.dedup_key key

module _ (host : Host) where
  open host use {iso}

  unfoldable pub scheduled_key : Routine → Text
  scheduled_key routine = text "scheduled:" ++ routine.id ++ text ":" ++ iso (next_at routine)

  -- The routine after it has been staged: a single run switches it off, any other is set anew.
  unfoldable pub advanced : RoutineSchedule → Routine → ℕ → Result RoutineError Routine
  advanced (once t) routine at = ok (record routine {
    last_scheduled_at = some (next_at routine);
    enabled = false;
    next_run_at = none;
    updated_at = at;
  })
  advanced schedule routine at = next_routine_run_at host schedule at >>= λ t. ok (record routine {
    last_scheduled_at = some (next_at routine);
    next_run_at = some t;
    updated_at = at;
  })

  -- One round: what it appends to the executions, unless the key is there, and the routine after it.
  unfoldable pub staged_by : Routine → ℕ → Text → List Execution → List Execution
  unfolding scheduled_key
  staged_by routine at id executions =
      if any (with_key (scheduled_key routine)) executions
      then []
      else new_execution id routine scheduled (scheduled_key routine) (next_at routine) at ∷ []

  unfoldable pub stage_loop :
      ℕ
      → (ℕ → Text)
      → ℕ
      → List (ℕ × Routine)
      → RoutineState
      → List Execution
      → Result RoutineError (RoutineState × List Execution)
  unfolding staged_by advanced
  stage_loop at uuid k [] state staged = ok (state, staged)
  stage_loop at uuid k ((i, routine) ∷ due) state staged =
      let created = staged_by routine at (uuid k) state.executions in
      advanced routine.schedule routine at >>= λ routine'.
      stage_loop at uuid (suc k) due
        (record state {
          executions = state.executions ++ created;
          routines = update_at i (λ _. routine') state.routines;
        })
        (staged ++ created)

  unfoldable pub stage_due :
      ℕ → ℕ → (ℕ → Text) → RoutineState → Result RoutineError (RoutineState × List Execution)
  unfolding stage_loop due_routines
  stage_due at limit uuid state =
      stage_loop at uuid 0 (due_routines at limit state.routines) state []

unfoldable pub trigger_routine :
    Text → Text → ℕ → (ℕ → Text) → RoutineState → Result RoutineError (RoutineState × Execution)
trigger_routine id actor at uuid state = elim (find (live_with_id id) state.routines) [
  | none ↦ err routine_not_found
  | some routine ↦
      let key = text "manual:" ++ routine.id ++ text ":" ++ uuid 1 in
      let execution = new_execution (uuid 0) routine manual key at at in
      let state' = record state { executions = state.executions ++ execution ∷ [] } in
      ok (push_audit (audit_of (uuid 2) routine_triggered actor at routine) state', execution)
]
