-- ===== src/Routine/Sound.antt =====
-- What holds of every state that the routine store reaches.
pub mod Pieces
pub mod Changes
pub mod Deletion
pub mod Staging
pub mod Progress
use maxtag.Base.{◌≡◌, ◌||◌, Bool, true, false, Text, text_eq, List, is_some, any, All, Pairwise}
use maxtag.Routine.Types.{
  Routine, Execution, ExecutionStatus, Notification, RoutineState, execution_status_eq,
}
use maxtag.Routine.Upsert.{live_with_id}

-- A routine has a next run exactly while it is enabled, and none that is deleted is enabled.
pub record IsConsistent (r : Routine) : Type 0 where
  pub armed : is_some r.next_run_at ≡ r.enabled
  pub retired : is_some r.deleted_at ≡ true → r.enabled ≡ false

-- Waiting for a scheduler, or taken by one.
abbrev pub is_open : Execution → Bool
is_open e =
    execution_status_eq e.status ExecutionStatus.pending
    || execution_status_eq e.status ExecutionStatus.claimed

-- An execution that is still to be run belongs to a routine that has not been deleted.
abbrev pub IsServed : List Routine → Execution → Type 0
IsServed routines e = is_open e ≡ true → any (live_with_id e.routine_id) routines ≡ true

-- No two notifications have one id, so none is raised twice for one execution.
abbrev pub HasDistinctIds : List Notification → Type 0
HasDistinctIds ns = Pairwise (λ a b. text_eq a.id b.id ≡ false) ns

pub record IsSound (s : RoutineState) : Type 0 where
  pub consistent : All IsConsistent s.routines
  pub served : All (IsServed s.routines) s.executions
  pub distinct : HasDistinctIds s.notifications
