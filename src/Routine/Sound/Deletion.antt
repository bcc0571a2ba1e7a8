-- ===== src/Routine/Sound/Deletion.antt =====
-- Deleting a routine keeps a state sound.
use maxtag.Base.{
  ℕ, ◌≡◌, refl, sym, subst, inl, inr, true, false, Text, text, text_eq_iff, List, Option, none,
  some, update_all, update_first, All-update_first, All-update_all_to, arith, Option-cases, find,
  find-passes, ok, any-update_first, text_or,
}
use maxtag.Routine.Types.{Routine, RoutineState}
use maxtag.Routine.Trim.{
  pending_execution_of, cancel_execution, cancel_pending_executions, cancel_pending_notifications,
}
use maxtag.Routine.Upsert.{live_with_id}
use maxtag.Routine.Lifecycle.{delete_found, delete_routine}
use maxtag.Routine.Sound.{IsConsistent, IsServed, IsSound}
use maxtag.Routine.Sound.Pieces.{cancel_pending_notifications-IsSound, same-IsSound}

-- A deleted routine takes its open executions with it; those of other routines are still served.
pub delete_found-IsSound :
    (found : Routine) (id actor : Text) (at : ℕ) (uuid : ℕ → Text) (s : RoutineState)
    → live_with_id id found ≡ true
    → IsSound s
    → IsSound (delete_found found actor at uuid s).0
unfolding delete_found cancel_pending_executions
delete_found-IsSound found id actor at uuid s alive v =
    let r : Routine = record found {
      enabled = false;
      next_run_at = none;
      updated_at = at;
      updated_by = some (text_or (some actor) (text "admin"));
      deleted_at = some at;
    } in
    let t : RoutineState = record s {
      routines = update_first (live_with_id found.id) (λ _. r) s.routines;
      executions =
          update_all (pending_execution_of found.id) (cancel_execution (text "routine_deleted") at)
            s.executions;
    } in
    let w : IsSound t = record {
      consistent =
          All-update_first IsConsistent (live_with_id found.id) (λ _. r) s.routines
            (λ _ _ _. record { armed = refl; retired = λ _. refl }) v.consistent;
      served =
          All-update_all_to (IsServed s.routines) (IsServed t.routines)
            (pending_execution_of found.id) (cancel_execution (text "routine_deleted") at)
            s.executions (λ e _ _ waits. cc)
            (λ e other served waits.
              any-update_first (live_with_id e.routine_id) (live_with_id found.id) (λ _. r)
                s.routines
                (λ x hit mine. ground (
                  arith,
                  text_eq_iff x.id found.id,
                  text_eq_iff x.id e.routine_id,
                  text_eq_iff e.routine_id found.id,
                ))
                (served waits))
            v.served;
      distinct = v.distinct;
    } in
    same-IsSound (cancel_pending_notifications t found.id (text "routine_deleted") at) _ refl refl
      refl (cancel_pending_notifications-IsSound t found.id (text "routine_deleted") at w)

pub delete_routine-IsSound :
    (id actor : Text) (at : ℕ) (uuid : ℕ → Text) (s s' : RoutineState) (o : Option Routine)
    → delete_routine id actor at uuid s ≡ ok (s', o)
    → IsSound s
    → IsSound s'
unfolding delete_routine
delete_routine-IsSound id actor at uuid s s' o h v =
    elim (Option-cases (find (live_with_id id) s.routines)) [
      | inl missing ↦
          same-IsSound s s' (ground (arith, missing)) (ground (arith, missing))
            (ground (arith, missing)) v
      | inr (found, e) ↦
          let shape : (delete_found found actor at uuid s).0 ≡ s' = ground (arith, e) in
          subst IsSound shape (
            delete_found-IsSound found id actor at uuid s
              (find-passes (live_with_id id) s.routines e) v)
    ]

-- A live routine that has been found by an id is found by its own.
pub find_live :
    (id : Text) (r : Routine) (rs : List Routine)
    → find (live_with_id id) rs ≡ some r
    → find (live_with_id r.id) rs ≡ some r
find_live id r rs h =
    let same : r.id ≡ id =
      ground (arith, find-passes (live_with_id id) rs h, text_eq_iff r.id id) in
    subst (λ (x : Text). find (live_with_id x) rs ≡ some r) (sym same) h
