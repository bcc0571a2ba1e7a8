-- ===== src/Routine/Cancelled.antt =====
-- A routine that is deleted or switched off has no work left that waits.
use maxtag.Base.{
  ℕ, suc, zero, sym, subst, get_elem?, update_first, find-passes, text_eq_iff, text_or, ◌≡◌, refl,
  inl, inr, Bool, true, false, Text, text, List, [], ◌∷◌, none, some, find, update_all, All,
  Bool-cases, ok, arith,
}
use maxtag.Routine.Types.{Routine, RoutineState, routine_updated, bool_eq}
use maxtag.Routine.Schedule.{Host}
use maxtag.Routine.Trim.{
  pending_execution_of, pending_notification_of, cancel_execution, cancel_notification,
  cancel_pending_executions, cancel_pending_notifications,
}
use maxtag.Routine.Upsert.{live_with_id, audit_of, push_audit}
use maxtag.Routine.Lifecycle.{
  delete_routine, delete_found, set_routine_enabled, set_enabled_found, enabled_next, write_routine,
}

module _ {ℓ} {A : Type ℓ} (t : A → Bool) (f : A → A) where
  -- A write that makes the test fail, at all elements that pass it.
  update_all-clears :
      ((x : A) → t (f x) ≡ false) → (xs : List A) → All (λ x. t x ≡ false) (update_all t f xs)
  update_all-clears off [] = tt
  update_all-clears off (x ∷ xs) = elim (Bool-cases (t x)) [
    | inl hit ↦ rw hit (off x, update_all-clears off xs)
    | inr miss ↦ rw miss (miss, update_all-clears off xs)
  ]

-- Nothing of the routine waits: no execution is pending or claimed, and no alert.
abbrev pub IsQuiet : Text → RoutineState → Type 0
IsQuiet id s =
    All (λ e. pending_execution_of id e ≡ false) s.executions
    × All (λ n. pending_notification_of id n ≡ false) s.notifications

abbrev cancelled : RoutineState → Text → Text → ℕ → RoutineState
cancelled s id reason at =
    cancel_pending_notifications (cancel_pending_executions s id reason at) id reason at

cancelled-IsQuiet :
    (s : RoutineState) (id reason : Text) (at : ℕ) → IsQuiet id (cancelled s id reason at)
unfolding cancel_pending_executions cancel_pending_notifications
cancelled-IsQuiet s id reason at = (
  update_all-clears (pending_execution_of id) (cancel_execution reason at) (λ e. ground arith)
      s.executions,
  update_all-clears (pending_notification_of id) (cancel_notification reason at) (λ n. ground arith)
      s.notifications,
)

-- The routine that a search finds is at a place, and the write through the search goes there.
find-place :
    (t : Routine → Bool) (xs : List Routine) (found r : Routine)
    → find t xs ≡ some found
    → (i : ℕ) × (get_elem? xs i ≡ some found) × (get_elem? (update_first t (λ _. r) xs) i ≡ some r)
find-place t [] found r h = cc
find-place t (x ∷ xs) found r h = elim (Bool-cases (t x)) [
  | inl hit ↦ (zero, ground (arith, h, hit), ground (arith, hit))
  | inr miss ↦
      let (i, here, written) = find-place t xs found r (ground (arith, h, miss)) in
      (suc i, here, rw miss written)
]

-- The routine takes the place of the one that was found.
abbrev pub Replaces : Routine → Routine → RoutineState → RoutineState → Type 0
Replaces found r s s' =
    (r.id ≡ found.id)
    × (i : ℕ) × (get_elem? s.routines i ≡ some found)
    × (get_elem? s'.routines i ≡ some r)

write_routine-Replaces :
    (id : Text) (found r : Routine) (s s' : RoutineState)
    → find (live_with_id id) s.routines ≡ some found
    → r.id ≡ found.id
    → s'.routines ≡ (write_routine found.id r s).routines
    → Replaces found r s s'
write_routine-Replaces id found r s s' e same written =
    let passes = find-passes (live_with_id id) s.routines e in
    let key : found.id ≡ id = (text_eq_iff found.id id).0 (ground (arith, passes)) in
    let again = subst (λ k. find (live_with_id k) s.routines ≡ some found) (sym key) e in
    let (i, here, there) = find-place (live_with_id found.id) s.routines found r again in
    (same, i, here, rw written there)

-- Deleting a routine that is there always succeeds: it is then marked as deleted and switched off where
-- it is stored, and none of its executions and alerts waits.
pub delete_routine-IsQuiet :
    (id actor : Text) (at : ℕ) (uuid : ℕ → Text) (s : RoutineState) (found : Routine)
    → find (live_with_id id) s.routines ≡ some found
    → (s' : RoutineState) × (r : Routine) × (delete_routine id actor at uuid s ≡ ok (s', some r))
      × Replaces found r s s'
      × (r.enabled ≡ false)
      × (r.deleted_at ≡ some at)
      × IsQuiet r.id s'
unfolding delete_routine delete_found cancel_pending_executions cancel_pending_notifications
delete_routine-IsQuiet id actor at uuid s found e =
    let (s', mr) = delete_found found actor at uuid s in
    let r : Routine = record found {
      enabled = false;
      next_run_at = none;
      updated_at = at;
      updated_by = some (text_or (some actor) (text "admin"));
      deleted_at = some at;
    } in
    (
      s',
      r,
      rw (e, delete_routine) refl,
      write_routine-Replaces id found r s s' e refl refl,
      refl,
      refl,
      cancelled-IsQuiet (write_routine found.id r s) found.id (text "routine_deleted") at,
    )

-- Switching off a routine that is on always succeeds: it is then off and has no next run where it is
-- stored, and none of its executions and alerts waits.
pub set_routine_enabled-IsQuiet :
    (host : Host) (id actor : Text) (at : ℕ) (uuid : ℕ → Text) (s : RoutineState) (found : Routine)
    → find (live_with_id id) s.routines ≡ some found
    → found.enabled ≡ true
    → (s' : RoutineState) × (r : Routine) × (set_routine_enabled host id false actor at uuid s
        ≡ ok (s', some r))
      × Replaces found r s s'
      × (r.enabled ≡ false)
      × (r.next_run_at ≡ none)
      × IsQuiet r.id s'
unfolding set_routine_enabled set_enabled_found enabled_next cancel_pending_executions
    cancel_pending_notifications
set_routine_enabled-IsQuiet host id actor at uuid s found e on =
    let differs : bool_eq found.enabled false ≡ false = ground (arith, on) in
    let r : Routine = record found {
      enabled = false;
      next_run_at = none;
      updated_at = at;
      updated_by = some (text_or (some actor) (text "admin"));
    } in
    let t = cancelled (write_routine found.id r s) found.id (text "routine_disabled") at in
    let s' =
      push_audit (audit_of (uuid 0) routine_updated (text_or (some actor) (text "admin")) at r) t in
    (
      s',
      r,
      rw (e, set_routine_enabled, differs) refl,
      write_routine-Replaces id found r s s' e refl refl,
      refl,
      refl,
      cancelled-IsQuiet (write_routine found.id r s) found.id (text "routine_disabled") at,
    )
