-- ===== src/Delivery/Runs/Evolution/Cancels.antt =====
-- Cancelling the runs of a thread, as moves of those runs.
use maxtag.Base.{
  ℕ, suc, zero, ◌≡◌, refl, sym, ap, ◌∙◌, subst, inl, inr, true, Text, List, [], ◌∷◌, Option, none,
  some, update_at, get_elem?, Bool-cases, arith, References, tag-References, tag, Reaches,
}
use maxtag.Delivery.Runs.Types.{AgentRunStatus, queued, AgentRun, Steering, RunState}
use maxtag.Delivery.Runs.Threads.{is_active_run_status, with_status, ThreadScope}
use maxtag.Delivery.Runs.Inbound.{append_event}
use maxtag.Delivery.Runs.Endings.{cancel_queued}
use maxtag.Delivery.Runs.Moves.{
  stays, is_asked, is_cancelled, Advances, Evolves, done, Evolves-trans, Evolves-same, Evolves-at,
}
use maxtag.Delivery.Runs.Evolution.{
  Goes, update_inbound-runs, finish_inbound-runs, finish_continuation-runs,
}
use maxtag.Delivery.Runs.Cancel.{
  HumanTakeover, is_affected, is_affected_steering, take_over, taken_over_in, take_over_each,
  steering_cancelled_in, cancel_each_steering, cancel_affected, affected_in, cancel_each_run,
  taken_over, cancel_active_agent_runs_for_thread,
}
use maxtag.Delivery.Runs.Evolution.Loops.{Reached, Reached-next, Reached-rest}

cancel_affected-Advances :
    (reason : Text) (at : ℕ) (r : AgentRun)
    → is_active_run_status r.status ≡ true
    → Advances r (cancel_affected reason at r)
cancel_affected-Advances reason at r active = elim (Bool-cases (with_status queued r)) [
  | inl waits ↦ rw waits (refl, is_cancelled active)
  | inr goes ↦ elim (Bool-cases (with_status AgentRunStatus.cancel_requested r)) [
    | inl asked ↦ rw (goes, asked) (refl, stays)
    | inr other ↦ rw (goes, other) (refl, is_asked active)
  ]
]

-- A write that leaves the element as it was.
update_at-same :
    (write : AgentRun → AgentRun) (xs : List AgentRun) (i : ℕ) (r : AgentRun)
    → get_elem? xs i ≡ some r
    → write r ≡ r
    → update_at i write xs ≡ xs
update_at-same write [] i r h same = refl
update_at-same write (x ∷ xs) zero r h same =
    let here : r ≡ x = ground (arith, h) in ap (λ y. y ∷ xs) (subst (λ y. write y ≡ y) here same)
update_at-same write (x ∷ xs) (suc i) r h same =
    ap (λ ys. x ∷ ys) (update_at-same write xs i r h same)

affected-active :
    (scope : ThreadScope) (wanted : Option Text) (r : AgentRun)
    → is_affected scope wanted r ≡ true
    → is_active_run_status r.status ≡ true
affected-active scope wanted r h = ground (arith, h)

module _ (at : ℕ) (ids : ℕ → Text) where
  take_over_each-Goes :
      (scope : ThreadScope) (wanted : Option Text) (takeover : HumanTakeover)
      (ps : List (ℕ × AgentRun)) (s : RunState)
      → Reached s ps
      → Goes s (take_over_each at ids scope wanted takeover ps s)
  unfolding take_over_each append_event
  take_over_each-Goes scope wanted takeover [] s refs = done
  take_over_each-Goes scope wanted takeover (p ∷ ps) s refs =
      elim (Bool-cases (is_affected scope wanted p.1)) [
        | inr skip ↦
            rw skip (take_over_each-Goes scope wanted takeover ps s (Reached-rest p ps s refs))
        | inl hit ↦
            let t = taken_over_in at ids takeover p s in
            rw hit (
              Evolves-trans
                (Evolves-at p.0 (take_over takeover at) s.runs p.1 refs.0.0 (refl, stays))
                (take_over_each-Goes scope wanted takeover ps t
                  (Reached-next p ps (take_over takeover at) s refs)))
      ]

  cancel_each_steering-runs :
      (scope : ThreadScope) (wanted : Option Text) (reason : Text) (ps : List (ℕ × Steering))
      (s : RunState)
      → (cancel_each_steering at ids scope wanted reason ps s).runs ≡ s.runs
  unfolding cancel_each_steering append_event
  cancel_each_steering-runs scope wanted reason [] s = refl
  cancel_each_steering-runs scope wanted reason (p ∷ ps) s =
      elim (Bool-cases (is_affected_steering scope wanted p.1)) [
        | inr skip ↦ rw skip (cancel_each_steering-runs scope wanted reason ps s)
        | inl hit ↦
            let t = steering_cancelled_in at ids reason p s in
            let same : t.runs ≡ s.runs = update_inbound-runs p.1.inbound_event_id _ _ at _ in
            rw hit (cancel_each_steering-runs scope wanted reason ps t ∙ same)
      ]

  -- What becomes of the runs when one of them is affected.
  affected_in-runs :
      (reason : Text) (p : ℕ × AgentRun) (s : RunState)
      → Reaches s.runs p
      → (affected_in at ids reason p s).runs ≡ update_at p.0 (cancel_affected reason at) s.runs
  unfolding append_event
  affected_in-runs reason p s here = elim (Bool-cases (with_status queued p.1)) [
    | inl waits ↦ rw waits (
        finish_continuation-runs at ids (cancel_queued (some reason) at p.1) at _
        ∙ finish_inbound-runs (cancel_queued (some reason) at p.1) at _)
    | inr goes ↦ elim (Bool-cases (with_status AgentRunStatus.cancel_requested p.1)) [
      | inr other ↦ rw (goes, other) refl
      | inl asked ↦
          let same : cancel_affected reason at p.1 ≡ p.1 = rw (goes, asked) refl in
          rw (goes, asked)
            (sym (update_at-same (cancel_affected reason at) s.runs p.0 p.1 here same))
    ]
  ]

  cancel_each_run-Goes :
      (scope : ThreadScope) (wanted : Option Text) (reason : Text) (ps : List (ℕ × AgentRun))
      (s : RunState)
      → Reached s ps
      → Goes s (cancel_each_run at ids scope wanted reason ps s).0
  unfolding cancel_each_run
  cancel_each_run-Goes scope wanted reason [] s refs = done
  cancel_each_run-Goes scope wanted reason (p ∷ ps) s refs =
      elim (Bool-cases (is_affected scope wanted p.1)) [
        | inr skip ↦
            rw skip (cancel_each_run-Goes scope wanted reason ps s (Reached-rest p ps s refs))
        | inl hit ↦
            let t = affected_in at ids reason p s in
            let written = affected_in-runs reason p s refs.0.0 in
            let step =
              cancel_affected-Advances reason at p.1 (affected-active scope wanted p.1 hit) in
            let first = Evolves-at p.0 (cancel_affected reason at) s.runs p.1 refs.0.0 step in
            let refs' =
              subst (λ xs. References xs ps) (sym written)
                (Reached-next p ps (cancel_affected reason at) s refs) in
            rw hit (
              Evolves-trans (subst (λ xs. Evolves s.runs xs) (sym written) first)
                (cancel_each_run-Goes scope wanted reason ps t refs'))
      ]

  taken_over-Goes :
      (scope : ThreadScope) (wanted : Option Text) (takeover : Option HumanTakeover) (s : RunState)
      → Goes s (taken_over at ids scope wanted takeover s)
  taken_over-Goes scope wanted none s = done
  taken_over-Goes scope wanted (some takeover) s =
      take_over_each-Goes scope wanted takeover (tag 0 s.runs) s (tag-References s.runs)

  pub cancel_active-Goes :
      (scope : ThreadScope) (reason : Text) (wanted : Option Text) (takeover : Option HumanTakeover)
      (s : RunState)
      → Goes s (cancel_active_agent_runs_for_thread at ids scope reason wanted takeover s).0
  unfolding cancel_active_agent_runs_for_thread
  cancel_active-Goes scope reason wanted takeover s =
      let over = taken_over at ids scope wanted takeover s in
      let dropped = cancel_each_steering at ids scope wanted reason (tag 0 over.steering) over in
      let same = cancel_each_steering-runs scope wanted reason (tag 0 over.steering) over in
      Evolves-trans (taken_over-Goes scope wanted takeover s) (
        Evolves-trans (Evolves-same same) (
          cancel_each_run-Goes scope wanted reason (tag 0 dropped.runs) dropped
            (tag-References dropped.runs)))
