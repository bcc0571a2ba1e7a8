-- ===== src/Delivery/Runs/Next.antt =====
-- When a run has ended, a message that waits in its thread does not wait for ever: the next run is queued.
use maxtag.Base.{
  ℕ, ◌≡◌, ◌⊎◌, refl, sym, subst, inl, inr, Bool, true, false, Text, List, [], ◌∷◌, none, leb, any,
  any-append_right, find, filter, any_of_find, All-find, All, All-filter, All-filter_self,
  All-sort_by, All-zip, length, length-sort_by, length-filter-tag, sort_by, tag, tag-References,
  Reaches, Bool-cases, Option-cases, arith, All-get_elem?,
}
use maxtag.Delivery.Runs.Types.{AgentRun, Steering, RunState}
use maxtag.Delivery.Runs.Threads.{ThreadScope, run_thread, steering_thread, same_thread}
use maxtag.Delivery.Runs.Inbound.{append_event}
use maxtag.Delivery.Runs.Create.{with_run_id, new_run, create_run_in}
use maxtag.Delivery.Runs.Continue.{
  steering_continuation_run_id, is_active_in, is_waiting, first_of, continuation_input,
  schedule_next_in,
}
use maxtag.Delivery.Runs.Steer.{source_scope}

-- The message carries the thread that it came from, and no run has the id of the run that it would become.
abbrev pub IsOpen : List AgentRun → ThreadScope → Steering → Type 0
IsOpen runs scope st =
    (source_scope st.thread ≡ steering_thread st)
    × (is_waiting scope runs st ≡ true
        → any (with_run_id (steering_continuation_run_id st.id)) runs ≡ false)

none-any : (t : Steering → Bool) (xs : List Steering) → length (filter t xs) ≡ 0 → any t xs ≡ false
none-any t [] h = refl
none-any t (x ∷ xs) h = elim (Bool-cases (t x)) [
  | inl hit ↦ absurd (ground (arith, h, hit))
  | inr miss ↦ ground (arith, miss, none-any t xs (ground (arith, h, miss)))
]

nothing-first : (ps : List (ℕ × Steering)) → first_of ps ≡ none → length ps ≡ 0
nothing-first [] h = refl
nothing-first (p ∷ ps) h = cc

module _ (at : ℕ) (ids : ℕ → Text) where
  created-active :
      (scope : ThreadScope) (st : Steering) (time : ℕ) (s : RunState)
      → source_scope st.thread ≡ steering_thread st
      → same_thread (steering_thread st) scope ≡ true
      → any (with_run_id (steering_continuation_run_id st.id)) s.runs ≡ false
      → any (is_active_in scope) (create_run_in at ids (continuation_input st) time s).0.runs ≡ true
  unfolding create_run_in append_event
  created-active scope st time s same here new =
      let r = new_run (continuation_input st) time in
      let thread : same_thread (run_thread r) scope ≡ true =
        subst (λ z. same_thread z scope ≡ true) (sym same) here in
      let last : any (is_active_in scope) (r ∷ []) ≡ true = ground (arith, thread) in
      elim (Option-cases (find (with_run_id (steering_continuation_run_id st.id)) s.runs)) [
        | inr (old, found) ↦
            cc (new, any_of_find (with_run_id (steering_continuation_run_id st.id)) s.runs found)
        | inl absent ↦
            rw (absent, create_run_in) (any-append_right (is_active_in scope) s.runs (r ∷ []) last)
      ]

-- After the next message has been scheduled, the thread has an active run, or no message of it waits
-- whose run has ended; where each message carries its thread, and no run has the id that such a message
-- would give its run.
pub schedule_next-serves :
    (at : ℕ) (ids : ℕ → Text) (scope : ThreadScope) (time : ℕ) (s : RunState)
    → All (IsOpen s.runs scope) s.steering
    → let t = schedule_next_in at ids scope time s in
      (any (is_active_in scope) t.runs ≡ true) ⊎ (any (is_waiting scope t.runs) t.steering ≡ false)
unfolding schedule_next_in append_event
schedule_next-serves at ids scope time s v =
    let chosen = filter (λ p. is_waiting scope s.runs p.1) (tag 0 s.steering) in
    let before = λ (p q : ℕ × Steering). leb p.1.sequence q.1.sequence in
    let waiting = sort_by before chosen in
    elim (Bool-cases (any (is_active_in scope) s.runs)) [
      | inl busy ↦ inl (rw busy busy)
      | inr free ↦ elim (Option-cases (first_of waiting)) [
        | inl nobody ↦
            let few = nothing-first waiting nobody in
            let sorted = length-sort_by before chosen in
            let counted = length-filter-tag (is_waiting scope s.runs) 0 s.steering in
            let idle =
              none-any (is_waiting scope s.runs) s.steering (omega (arith, few, sorted, counted)) in
            inr (rw (free, schedule_next_in, nobody) idle)
        | inr (p, first) ↦
            let waits =
              All-find (λ q. Waits q) (λ _. true) waiting
                (All-sort_by before Waits chosen (
                  All-zip (Reaches s.steering) (λ q. is_waiting scope s.runs q.1 ≡ true) Waits
                    chosen (λ q r w. (r, w))
                    (All-filter (Reaches s.steering) (λ q. is_waiting scope s.runs q.1)
                      (tag 0 s.steering) (tag-References s.steering).0)
                    (All-filter_self (λ q. is_waiting scope s.runs q.1) (tag 0 s.steering))))
                first in
            let (same, new) = All-get_elem? (IsOpen s.runs scope) s.steering p.0 v waits.0 in
            let here : same_thread (steering_thread p.1) scope ≡ true = ground (arith, waits.1) in
            inl (
              rw (free, schedule_next_in, first)
                (created-active at ids scope p.1 time s same here (new waits.1)))
      ]
    ]
  where
    Waits : ℕ × Steering → Type 0
    Waits q = Reaches s.steering q × (is_waiting scope s.runs q.1 ≡ true)
