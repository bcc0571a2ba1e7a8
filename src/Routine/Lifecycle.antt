-- ===== src/Routine/Lifecycle.antt =====
-- packages/routines/src/file-routine-store.ts: switching a routine on and off, and deleting it.
use maxtag.Base.{
  ℕ, Bool, true, false, ◌&&◌, not, Text, text, Option, none, some, if◌then◌else◌, find,
  update_first, text_or, Result, ok, ◌>>=◌, ◌>>◌, guard,
}
use maxtag.Routine.Types.{
  Routine, routine_updated, routine_deleted, RoutineState, RoutineError, bool_eq,
  routine_once_already_elapsed,
}
use maxtag.Routine.Schedule.{Host, next_routine_run_at}
use maxtag.Routine.Trim.{cancel_pending_executions, cancel_pending_notifications}
use maxtag.Routine.Upsert.{live_with_id, audit_of, cancel_disabled, push_audit, has_elapsed}

-- A write to the routine that the search has found.
abbrev pub write_routine : Text → Routine → RoutineState → RoutineState
write_routine id routine state = record state {
  routines = update_first (live_with_id id) (λ _. routine) state.routines;
}

module _ (host : Host) where
  unfoldable pub enabled_next : Bool → Routine → ℕ → Result RoutineError (Option ℕ)
  enabled_next false routine at = ok none
  enabled_next true routine at = next_routine_run_at host routine.schedule at >>= λ t. ok (some t)

  unfoldable pub set_enabled_found :
      Routine
      → Bool
      → Text
      → ℕ
      → (ℕ → Text)
      → RoutineState
      → Result RoutineError (RoutineState × Option Routine)
  unfolding enabled_next
  set_enabled_found found enabled actor at uuid state = do
    guard (not (enabled && has_elapsed host found.schedule at)) routine_once_already_elapsed
    next ← enabled_next enabled found at
    let by = text_or (some actor) (text "admin")
    let routine = record found {
      enabled = enabled;
      next_run_at = next;
      updated_at = at;
      updated_by = some by;
    }
    let stored = cancel_disabled enabled routine.id at (write_routine found.id routine state)
    ok (push_audit (audit_of (uuid 0) routine_updated by at routine) stored, some routine)

  unfoldable pub set_routine_enabled :
      Text
      → Bool
      → Text
      → ℕ
      → (ℕ → Text)
      → RoutineState
      → Result RoutineError (RoutineState × Option Routine)
  unfolding set_enabled_found
  set_routine_enabled id enabled actor at uuid state =
      elim (find (live_with_id id) state.routines) [
        | none ↦ ok (state, none)
        | some found ↦
            if bool_eq found.enabled enabled
            then ok (state, some found)
            else set_enabled_found found enabled actor at uuid state
      ]

unfoldable pub delete_found :
    Routine → Text → ℕ → (ℕ → Text) → RoutineState → RoutineState × Option Routine
delete_found found actor at uuid state =
    let routine = record found {
      enabled = false;
      next_run_at = none;
      updated_at = at;
      updated_by = some (text_or (some actor) (text "admin"));
      deleted_at = some at;
    } in
    let written = write_routine found.id routine state in
    let stored =
      cancel_pending_notifications
        (cancel_pending_executions written found.id (text "routine_deleted") at) found.id
        (text "routine_deleted") at in
    (push_audit (audit_of (uuid 0) routine_deleted actor at routine) stored, some routine)

unfoldable pub delete_routine :
    Text
    → Text
    → ℕ
    → (ℕ → Text)
    → RoutineState
    → Result RoutineError (RoutineState × Option Routine)
unfolding delete_found
delete_routine id actor at uuid state = elim (find (live_with_id id) state.routines) [
  | none ↦ ok (state, none)
  | some found ↦ ok (delete_found found actor at uuid state)
]
