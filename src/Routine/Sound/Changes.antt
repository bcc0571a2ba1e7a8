-- ===== src/Routine/Sound/Changes.antt =====
-- Creating a routine, replacing one and switching one keep a state sound.
use maxtag.Base.{
  ℕ, ◌≡◌, refl, inl, inr, Bool, true, false, Text, text, text_eq_iff, List, [], ◌∷◌, Option, none,
  some, is_some, any, update_first, All-append, All-update_first, arith, Bool-cases, Option-cases,
  find, find-passes, or_else, ok, >>=-eq-ok, Result-cases, any-update_first, any-append_left,
  text_or,
}
use maxtag.Routine.Types.{Routine, RoutineSchedule, RoutineState, UpsertInput, bool_eq}
use maxtag.Routine.Schedule.{Host, normalize_schedule}
use maxtag.Routine.Policy.{same_incident_policy}
use maxtag.Routine.Upsert.{
  live_with_id, cancel_disabled, next_run_for, built, store_routine, existing_routine, or_enabled,
  upsert_change, upsert_routine,
}
use maxtag.Routine.Lifecycle.{write_routine, enabled_next, set_enabled_found, set_routine_enabled}
use maxtag.Routine.Sound.{IsConsistent, IsSound}
use maxtag.Routine.Sound.Pieces.{
  All-IsServed, cancel_pending_notifications-IsSound, cancel_disabled-IsSound, same-IsSound,
}

-- A live routine that is written over by a live one with its id leaves every live id in place.
live-update_first :
    (id : Text) (r : Routine) (rs : List Routine)
    → r.id ≡ id
    → r.deleted_at ≡ none
    → (id' : Text) → any (live_with_id id') rs ≡ true
    → any (live_with_id id') (update_first (live_with_id id) (λ _. r) rs) ≡ true
live-update_first id r rs same live id' h =
    any-update_first (live_with_id id') (live_with_id id) (λ _. r) rs
      (λ x hit found.
        ground (arith, text_eq_iff x.id id, text_eq_iff x.id id', text_eq_iff r.id id'))
      h

pub write_routine-IsSound :
    (id : Text) (r : Routine) (s : RoutineState)
    → r.id ≡ id
    → r.deleted_at ≡ none
    → IsConsistent r
    → IsSound s
    → IsSound (write_routine id r s)
write_routine-IsSound id r s same live c v = record {
  consistent =
      All-update_first IsConsistent (live_with_id id) (λ _. r) s.routines (λ _ _ _. c) v.consistent;
  served =
      All-IsServed s.routines _ s.executions (live-update_first id r s.routines same live) v.served;
  distinct = v.distinct;
}

module _ (host : Host) where
  store_routine-IsSound :
      (existing : Option Routine) (r : Routine) (at : ℕ) (s : RoutineState)
      → ((e : Routine) → existing ≡ some e → r.id ≡ e.id)
      → r.deleted_at ≡ none
      → IsConsistent r
      → IsSound s
      → IsSound (store_routine host existing r at s)
  unfolding store_routine
  store_routine-IsSound none r at s same live c v = record {
    consistent = All-append IsConsistent s.routines (r ∷ []) v.consistent (c, tt);
    served =
        All-IsServed s.routines _ s.executions
          (λ id h. any-append_left (live_with_id id) s.routines (r ∷ []) h) v.served;
    distinct = v.distinct;
  }
  store_routine-IsSound (some e) r at s same live c v =
      let w = write_routine-IsSound e.id r s (same e refl) live c v in
      elim (Bool-cases (same_incident_policy e r)) [
        | inl kept ↦ rw kept w
        | inr changed ↦ rw changed (
            cancel_pending_notifications-IsSound (write_routine e.id r s) r.id
              (text "routine_route_or_notification_policy_changed") at w)
      ]

  next_run_for-armed :
      (enabled : Bool) (existing : Option Routine) (schedule : RoutineSchedule) (at : ℕ)
      (next : Option ℕ)
      → next_run_for host enabled existing schedule at ≡ ok next
      → is_some next ≡ enabled
  unfolding next_run_for
  next_run_for-armed false existing schedule at next h = ground arith
  next_run_for-armed true existing schedule at next h = ground arith

  -- What `upsertRoutine` stores is live, consistent, and keeps the id of the routine it replaces.
  built-facts :
      (input : UpsertInput) (existing : Option Routine) (schedule : RoutineSchedule)
      (enabled : Bool) (next : Option ℕ) (created : Text) (at : ℕ)
      → is_some next ≡ enabled
      → let r = built host input existing schedule enabled next created at in
        ((e : Routine) → existing ≡ some e → r.id ≡ e.id)
        × (r.deleted_at ≡ none)
        × IsConsistent r
        × (r.enabled ≡ enabled)
  unfolding built
  built-facts input none schedule enabled next created at h =
      ((λ e q. cc), refl, record { armed = h; retired = λ q. cc }, refl)
  built-facts input (some x) schedule enabled next created at h =
      ((λ e q. ground arith), refl, record { armed = h; retired = λ q. cc }, refl)

  upsert_change-IsSound :
      (input : UpsertInput) (schedule : RoutineSchedule) (at : ℕ) (uuid : ℕ → Text)
      (s s' : RoutineState) (r : Routine)
      → upsert_change host input schedule at uuid s ≡ ok (s', r)
      → IsSound s
      → IsSound s'
  unfolding upsert_change
  upsert_change-IsSound input schedule at uuid s s' r h v =
      let existing = existing_routine host input.id s.routines in
      let enabled = or_else input.enabled (or_enabled host existing) in
      elim (Result-cases (next_run_for host enabled existing schedule at)) [
        | inr (e, bad) ↦ absurd (ground (arith, bad))
        | inl (next, good) ↦
            let b = built host input existing schedule enabled next (uuid 0) at in
            let (same, live, c, _) =
              built-facts input existing schedule enabled next (uuid 0) at
                (next_run_for-armed enabled existing schedule at next good) in
            let w =
              cancel_disabled-IsSound enabled b.id at (store_routine host existing b at s)
                (store_routine-IsSound existing b at s same live c v) in
            let t = cancel_disabled enabled b.id at (store_routine host existing b at s) in
            same-IsSound t s' (ground (arith, good)) (ground (arith, good)) (ground (arith, good)) w
      ]

  pub upsert_routine-IsSound :
      (input : UpsertInput) (at : ℕ) (uuid : ℕ → Text) (s s' : RoutineState) (r : Routine)
      → upsert_routine host input at uuid s ≡ ok (s', r)
      → IsSound s
      → IsSound s'
  unfolding upsert_routine
  upsert_routine-IsSound input at uuid s s' r h v =
      let (schedule, good, h') = >>=-eq-ok (normalize_schedule host input.schedule) _ h in
      upsert_change-IsSound input schedule at uuid s s' r (ground (arith, h')) v

  -- A routine that is found alive, switched to `enabled` with a next run exactly then.
  set_enabled_found-IsSound :
      (found : Routine) (id : Text) (enabled : Bool) (actor : Text) (at : ℕ) (uuid : ℕ → Text)
      (s s' : RoutineState) (o : Option Routine)
      → live_with_id id found ≡ true
      → set_enabled_found host found enabled actor at uuid s ≡ ok (s', o)
      → IsSound s
      → IsSound s'
  unfolding set_enabled_found
  set_enabled_found-IsSound found id enabled actor at uuid s s' o alive h v =
      elim (Result-cases (enabled_next host enabled found at)) [
        | inr (e, bad) ↦ absurd (ground (arith, bad))
        | inl (next, good) ↦
            let r : Routine = record found {
              enabled = enabled;
              next_run_at = next;
              updated_at = at;
              updated_by = some (text_or (some actor) (text "admin"));
            } in
            let c : IsConsistent r = record {
              armed = unfold enabled_next in ground (arith, good);
              retired = λ q. ground arith;
            } in
            let w =
              cancel_disabled-IsSound enabled found.id at (write_routine found.id r s)
                (write_routine-IsSound found.id r s refl (ground arith) c v) in
            same-IsSound (cancel_disabled enabled found.id at (write_routine found.id r s)) s'
              (ground (arith, good)) (ground (arith, good)) (ground (arith, good)) w
      ]

  pub set_routine_enabled-IsSound :
      (id : Text) (enabled : Bool) (actor : Text) (at : ℕ) (uuid : ℕ → Text) (s s' : RoutineState)
      (o : Option Routine)
      → set_routine_enabled host id enabled actor at uuid s ≡ ok (s', o)
      → IsSound s
      → IsSound s'
  unfolding set_routine_enabled
  set_routine_enabled-IsSound id enabled actor at uuid s s' o h v =
      elim (Option-cases (find (live_with_id id) s.routines)) [
        | inl missing ↦
            same-IsSound s s' (ground (arith, missing)) (ground (arith, missing))
              (ground (arith, missing)) v
        | inr (found, e) ↦ elim (Bool-cases (bool_eq found.enabled enabled)) [
          | inl already ↦
              same-IsSound s s' (ground (arith, e, already)) (ground (arith, e, already))
                (ground (arith, e, already)) v
          | inr differs ↦
              set_enabled_found-IsSound found id enabled actor at uuid s s' o
                (find-passes (live_with_id id) s.routines e) (ground (arith, e, differs)) v
        ]
      ]
