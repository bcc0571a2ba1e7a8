-- ===== src/Routine/Sound/Pieces.antt =====
-- The writes from which the operations are built keep a state sound.
use maxtag.Base.{
  ℕ, zero, suc, ◌≡◌, refl, inl, inr, ◌-◌, Bool, true, false, Text, text_eq, List, [], ◌∷◌, ◌++◌,
  any, update_all, update_first, update_at, remove_indices, All, All-update_all, All-update_first,
  All-update_at, All-remove_indices, All-append, arith, Bool-cases, All-drop, length,
}
use maxtag.Routine.Types.{Routine, Execution, Notification, RoutineState}
use maxtag.Routine.Trim.{
  pending_execution_of, pending_notification_of, cancel_execution, cancel_notification,
  cancel_pending_executions, cancel_pending_notifications, trim_state, trim_indices,
}
use maxtag.Routine.Upsert.{live_with_id, cancel_disabled}
use maxtag.Routine.Sound.{IsServed, HasDistinctIds, IsSound}

-- Writes to the notifications that leave the ids alone.
abbrev Unequal : Notification → Notification → Type 0
Unequal a b = text_eq a.id b.id ≡ false

module _ (f : Notification → Notification) (same : (n : Notification) → (f n).id ≡ n.id) where
  keeps : (a n : Notification) → Unequal a n → Unequal a (f n)
  keeps a n h = rw (same n) h

  kept : (a n : Notification) → Unequal n a → Unequal (f n) a
  kept a n h = rw (same n) h

  All-Unequal :
      (a : Notification) (ns : List Notification) → All (Unequal a) ns → All (Unequal (f a)) ns
  All-Unequal a [] h = tt
  All-Unequal a (n ∷ ns) h = (kept n a h.0, All-Unequal a ns h.1)

  pub update_all-HasDistinctIds :
      (p : Notification → Bool) (ns : List Notification)
      → HasDistinctIds ns
      → HasDistinctIds (update_all p f ns)
  update_all-HasDistinctIds p [] h = tt
  update_all-HasDistinctIds p (n ∷ ns) h =
      let later = All-update_all (Unequal n) p f ns (λ x _ k. keeps n x k) h.0 in
      let rest = update_all-HasDistinctIds p ns h.1 in
      elim (Bool-cases (p n)) [
        | inl hit ↦ rw hit (All-Unequal n _ later, rest)
        | inr miss ↦ rw miss (later, rest)
      ]

  pub update_first-HasDistinctIds :
      (p : Notification → Bool) (ns : List Notification)
      → HasDistinctIds ns
      → HasDistinctIds (update_first p f ns)
  update_first-HasDistinctIds p [] h = tt
  update_first-HasDistinctIds p (n ∷ ns) h = elim (Bool-cases (p n)) [
    | inl hit ↦ rw hit (All-Unequal n ns h.0, h.1)
    | inr miss ↦ rw miss (
      All-update_first (Unequal n) p f ns (λ x _ k. keeps n x k) h.0,
      update_first-HasDistinctIds p ns h.1,
    )
  ]

  pub update_at-HasDistinctIds :
      (i : ℕ) (ns : List Notification) → HasDistinctIds ns → HasDistinctIds (update_at i f ns)
  update_at-HasDistinctIds i [] h = tt
  update_at-HasDistinctIds zero (n ∷ ns) h = (All-Unequal n ns h.0, h.1)
  update_at-HasDistinctIds (suc i) (n ∷ ns) h =
      (All-update_at (Unequal n) i f ns (λ x k. keeps n x k) h.0, update_at-HasDistinctIds i ns h.1)

pub remove_indices-HasDistinctIds :
    (is : List ℕ) (i : ℕ) (ns : List Notification)
    → HasDistinctIds ns
    → HasDistinctIds (remove_indices is i ns)
remove_indices-HasDistinctIds is i [] h = tt
remove_indices-HasDistinctIds is i (n ∷ ns) h = ground (
  arith,
  All-remove_indices (Unequal n) is (suc i) ns h.0,
  remove_indices-HasDistinctIds is (suc i) ns h.1,
)

-- A new notification, whose id is not there.
pub append-HasDistinctIds :
    (ns : List Notification) (n : Notification)
    → any (λ x. text_eq x.id n.id) ns ≡ false
    → HasDistinctIds ns
    → HasDistinctIds (ns ++ n ∷ [])
append-HasDistinctIds [] n new h = (tt, tt)
append-HasDistinctIds (x ∷ ns) n new h = (
  All-append (Unequal x) ns (n ∷ []) h.0 (ground arith, tt),
  append-HasDistinctIds ns n (ground arith) h.1,
)

-- An execution that is served stays so when the routines still have every live id that they had.
pub All-IsServed :
    (rs rs' : List Routine) (es : List Execution)
    → ((id : Text) → any (live_with_id id) rs ≡ true → any (live_with_id id) rs' ≡ true)
    → All (IsServed rs) es
    → All (IsServed rs') es
All-IsServed rs rs' [] f h = tt
All-IsServed rs rs' (e ∷ es) f h =
    (λ waits. f e.routine_id (h.0 waits), All-IsServed rs rs' es f h.1)

pub cancel_pending_executions-IsSound :
    (s : RoutineState) (id reason : Text) (at : ℕ)
    → IsSound s
    → IsSound (cancel_pending_executions s id reason at)
unfolding cancel_pending_executions
cancel_pending_executions-IsSound s id reason at v = record {
  consistent = v.consistent;
  served =
      All-update_all (IsServed s.routines) (pending_execution_of id) (cancel_execution reason at)
        s.executions (λ e _ _ waits. cc) v.served;
  distinct = v.distinct;
}

pub cancel_pending_notifications-IsSound :
    (s : RoutineState) (id reason : Text) (at : ℕ)
    → IsSound s
    → IsSound (cancel_pending_notifications s id reason at)
unfolding cancel_pending_notifications
cancel_pending_notifications-IsSound s id reason at v = record {
  consistent = v.consistent;
  served = v.served;
  distinct =
      update_all-HasDistinctIds (cancel_notification reason at) (λ n. refl)
        (pending_notification_of id) s.notifications v.distinct;
}

pub cancel_disabled-IsSound :
    (enabled : Bool) (id : Text) (at : ℕ) (s : RoutineState)
    → IsSound s
    → IsSound (cancel_disabled enabled id at s)
cancel_disabled-IsSound true id at s v = v
cancel_disabled-IsSound false id at s v =
    cancel_pending_notifications-IsSound _ id _ at (cancel_pending_executions-IsSound s id _ at v)

-- The audit trail does not matter.
pub same-IsSound :
    (s s' : RoutineState)
    → s'.routines ≡ s.routines
    → s'.executions ≡ s.executions
    → s'.notifications ≡ s.notifications
    → IsSound s
    → IsSound s'
same-IsSound s s' r e n v = record {
  consistent = rw r v.consistent;
  served = rw (r, e) v.served;
  distinct = rw n v.distinct;
}

-- Trimming only drops entries.
pub trim_state-IsSound : (s : RoutineState) → IsSound s → IsSound (trim_state s)
unfolding trim_state
trim_state-IsSound s v = record {
  consistent = v.consistent;
  served =
      ground
        (arith, All-drop (IsServed s.routines) (length s.executions - 2_000) s.executions v.served);
  distinct = ground (
    arith,
    remove_indices-HasDistinctIds (trim_indices s.notifications) 0 s.notifications v.distinct,
  );
}
