-- ===== src/Routine/Sound/Staging.antt =====
-- Staging what is due, and triggering a routine by hand, keep a state sound.
use maxtag.Base.{
  ℕ, suc, ◌≡◌, subst, inl, inr, clamp, true, Text, text_eq_refl, List, [], ◌∷◌, ◌++◌, none, any,
  update_at, tag, All, All-append, All-update_at, All-take, All-sort_by, arith, Bool-cases,
  Option-cases, find, ok, Result-cases, any-get_elem?, any-update_at, All-get_elem?, References,
  References-update_at, References-selection, All-filter_self, any_of_find,
}
use maxtag.Routine.Types.{Routine, RoutineSchedule, once, interval, daily, Execution, RoutineState}
use maxtag.Routine.Schedule.{Host}
use maxtag.Routine.Upsert.{live_with_id}
use maxtag.Routine.Executions.{
  is_due, due_routines, advanced, staged_by, stage_loop, stage_due, trigger_routine, with_key,
  scheduled_key,
}
use maxtag.Routine.Sound.{IsConsistent, IsServed, IsSound}
use maxtag.Routine.Sound.Pieces.{All-IsServed}
use maxtag.Routine.Sound.Deletion.{find_live}

abbrev pub IsDue : ℕ → ℕ × Routine → Type 0
IsDue at p = is_due at p.1 ≡ true

-- What the selection holds: references to routines that are due.
pub due_routines-IsDue :
    (at limit : ℕ) (routines : List Routine)
    → References routines (due_routines at limit routines)
      × All (IsDue at) (due_routines at limit routines)
unfolding due_routines
due_routines-IsDue at limit routines = (
  References-selection (clamp 1 200 limit) _ _ routines,
  All-take (IsDue at) (clamp 1 200 limit) _
      (All-sort_by _ (IsDue at) _ (All-filter_self (λ p. is_due at p.1) (tag 0 routines))),
)

module _ (host : Host) where
  -- The routine after it has been staged.
  pub advanced-facts :
      (schedule : RoutineSchedule) (r r' : Routine) (at : ℕ)
      → advanced host schedule r at ≡ ok r'
      → is_due at r ≡ true
      → IsConsistent r
      → (r'.id ≡ r.id) × (r'.deleted_at ≡ none) × IsConsistent r'
  unfolding advanced
  advanced-facts (once t) r r' at h due c =
      (ground arith, ground arith, record { armed = ground arith; retired = λ q. ground arith })
  advanced-facts (interval m) r r' at h due c =
      (ground arith, ground arith, record { armed = ground arith; retired = λ q. ground arith })
  advanced-facts (daily t z) r r' at h due c =
      (ground arith, ground arith, record { armed = ground arith; retired = λ q. ground arith })

  -- A new execution is served by the routine from which it was staged.
  staged_by-IsServed :
      (r : Routine) (at : ℕ) (id : Text) (executions : List Execution) (routines : List Routine)
      → any (live_with_id r.id) routines ≡ true
      → All (IsServed routines) (staged_by host r at id executions)
  unfolding staged_by
  staged_by-IsServed r at id executions routines h =
      elim (Bool-cases (any (with_key (scheduled_key host r)) executions)) [
        | inl there ↦ rw there tt
        | inr new ↦ rw new ((λ _. h), tt)
      ]

  stage_loop-IsSound :
      (at : ℕ) (uuid : ℕ → Text) (k : ℕ) (due : List (ℕ × Routine)) (s s' : RoutineState)
      (staged out : List Execution)
      → References s.routines due
      → All (IsDue at) due
      → stage_loop host at uuid k due s staged ≡ ok (s', out)
      → IsSound s
      → IsSound s'
  unfolding stage_loop
  stage_loop-IsSound at uuid k [] s s' staged out refs is_due h v = subst IsSound (ground arith) v
  stage_loop-IsSound at uuid k ((i, r) ∷ due) s s' staged out (reach, apart) (now, is_due) h v =
      elim (Result-cases (advanced host r.schedule r at)) [
        | inr (e, bad) ↦ absurd (ground (arith, bad))
        | inl (r', good) ↦
            let (same, live, c) =
              advanced-facts r.schedule r r' at good now
                (All-get_elem? IsConsistent s.routines i v.consistent reach.0) in
            let created = staged_by host r at (uuid k) s.executions in
            let stays : (id : Text)
                → any (live_with_id id) s.routines ≡ true
                → any (live_with_id id) (update_at i (λ _. r') s.routines) ≡ true =
              λ id h'.
                any-update_at (live_with_id id) s.routines i r r' reach.0 (λ q. ground arith) h' in
            let here : any (live_with_id r.id) s.routines ≡ true =
              any-get_elem? (live_with_id r.id) s.routines i reach.0
                (ground (arith, text_eq_refl r.id)) in
            let t : RoutineState = record s {
              executions = s.executions ++ created;
              routines = update_at i (λ _. r') s.routines;
            } in
            let w : IsSound t = record {
              consistent =
                  All-update_at IsConsistent i (λ _. r') s.routines (λ _ _. c) v.consistent;
              served =
                  All-append (IsServed t.routines) s.executions created
                    (All-IsServed s.routines t.routines s.executions stays v.served)
                    (staged_by-IsServed r at (uuid k) s.executions t.routines (stays r.id here));
              distinct = v.distinct;
            } in
            stage_loop-IsSound at uuid (suc k) due t s' (staged ++ created) out
              (References-update_at s.routines (i, r) due (λ _. r') apart.0 reach.1, apart.1) is_due
              (ground (arith, good)) w
      ]

  pub stage_due-IsSound :
      (at limit : ℕ) (uuid : ℕ → Text) (s s' : RoutineState) (out : List Execution)
      → stage_due host at limit uuid s ≡ ok (s', out)
      → IsSound s
      → IsSound s'
  unfolding stage_due
  stage_due-IsSound at limit uuid s s' out h v =
      let (refs, is_due) = due_routines-IsDue at limit s.routines in
      stage_loop-IsSound at uuid 0 (due_routines at limit s.routines) s s' [] out refs is_due h v

pub trigger_routine-IsSound :
    (id actor : Text) (at : ℕ) (uuid : ℕ → Text) (s s' : RoutineState) (e : Execution)
    → trigger_routine id actor at uuid s ≡ ok (s', e)
    → IsSound s
    → IsSound s'
unfolding trigger_routine
trigger_routine-IsSound id actor at uuid s s' e h v =
    elim (Option-cases (find (live_with_id id) s.routines)) [
      | inl missing ↦ absurd (ground (arith, missing))
      | inr (r, found) ↦
          let here = any_of_find (live_with_id r.id) s.routines (find_live id r s.routines found) in
          let served : All (IsServed s.routines) (s.executions ++ e ∷ []) =
            All-append (IsServed s.routines) s.executions (e ∷ []) v.served
              ((λ q. ground (arith, found, here)), tt) in
          record {
            consistent =
                subst (λ (rs : List Routine). All IsConsistent rs) (ground (arith, found))
                  v.consistent;
            served =
                let rs : s'.routines ≡ s.routines = ground (arith, found) in
                let es : s'.executions ≡ s.executions ++ e ∷ [] = ground (arith, found) in
                rw (rs, es) served;
            distinct =
                let ns : s'.notifications ≡ s.notifications = ground (arith, found) in
                rw ns v.distinct;
          }
    ]
