-- ===== src/Delivery/Runs/Evolution.antt =====
-- Each operation of the store moves the runs along their states.
pub mod Changes
pub mod Loops
pub mod Cancels
pub mod Messages
pub mod Writes
use maxtag.Base.{
  ℕ, suc, zero, ◌+◌, ◌≡◌, ◌≢◌, refl, sym, ap, ◌∙◌, subst, inl, inr, Bool, true, false, ◌&&◌, ◌||◌,
  not, Text, text, text_eq, List, [], ◌∷◌, ◌++◌, Option, none, some, or_else, is_truthy, option_eq,
  leb, any, find, find-none, filter, update_first, update_at, get_elem?, get_elem?-update_at_ne,
  Bool-cases, Option-cases, arith, All, if◌then◌else◌, References, References-update_at,
  References-sort_by, tag-References, tag, sort_by, clamp, Reaches,
}
use maxtag.Delivery.Fields.{Fields}
use maxtag.Delivery.Types.{SourceThread}
use maxtag.Delivery.Runs.Types.{
  AgentRunStatus, queued, running, InboundStatus, AgentRun, CreateRunInput, Steering, SteeringInput,
  RunState, run_status_eq, SteeringMode,
}
use maxtag.Delivery.Runs.Threads.{
  is_active_run_status, is_terminal_run_status, with_status, ThreadScope, run_thread,
}
use maxtag.Delivery.Runs.Inbound.{append_event, InboundUpdate, update_inbound_in}
use maxtag.Delivery.Runs.Create.{
  with_run_id, with_steering_id, new_run, create_run_in, enqueue_steering_in,
}
use maxtag.Delivery.Runs.Continue.{
  finish_inbound_in, steering_of, ended, finish_continuation_in, is_active_in, is_waiting, first_of,
  continuation_input, schedule_next_in,
}
use maxtag.Delivery.Runs.Endings.{
  RunChange, change_run, is_final, cancellation_wins, cancel_queued, request_cancel, release_run,
  is_of_other, renew, finalize_cancel, RecoverRunsOptions,
}
use maxtag.Delivery.Runs.Lifecycle.{
  close_run, update_agent_run, request_agent_run_cancel, requeue_agent_run, renew_agent_run_lease,
  recovered_in, finalized_in, recover_each_run, recover_stale_agent_runs,
}
use maxtag.Delivery.Runs.Moves.{
  Moves, stays, starts, releases, is_asked, fails, is_cancelled, completes, Advances, Evolves, done,
  moves, adds, Evolves-trans, Evolves-same, Evolves-first, Evolves-at,
}

abbrev pub Goes : RunState → RunState → Type 0
Goes s t = Evolves s.runs t.runs

-- Both branches of a test.
pub if-Goes :
    (s t u : RunState) (test : Bool) → Goes s t → Goes s u → Goes s (if test then t else u)
if-Goes s t u true d e = d
if-Goes s t u false d e = e

-- Writes to the events that came in leave the runs alone.
pub update_inbound-runs :
    (id : Option Text) (status : InboundStatus) (input : InboundUpdate) (time : ℕ) (s : RunState)
    → (update_inbound_in id status input time s).runs ≡ s.runs
unfolding update_inbound_in
update_inbound-runs none status input time s = refl
update_inbound-runs (some id) status input time s = elim (Bool-cases (is_truthy (some id))) [
  | inl given ↦ rw given refl
  | inr empty ↦ rw empty refl
]

pub finish_inbound-runs :
    (r : AgentRun) (time : ℕ) (s : RunState) → (finish_inbound_in r time s).runs ≡ s.runs
unfolding finish_inbound_in
finish_inbound-runs r time s =
    elim (Bool-cases (is_truthy r.inbound_event_id && is_terminal_run_status r.status)) [
      | inl given ↦ rw given (update_inbound-runs r.inbound_event_id _ _ time s)
      | inr other ↦ rw other refl
    ]

module _ (at : ℕ) (ids : ℕ → Text) where
  pub create_run-Goes :
      (input : CreateRunInput) (time : ℕ) (s : RunState)
      → Goes s (create_run_in at ids input time s).0
  unfolding create_run_in append_event
  create_run-Goes input time s = elim (Option-cases (find (with_run_id input.run_id) s.runs)) [
    | inr (r, found) ↦ rw (found, create_run_in) done
    | inl absent ↦
        rw (absent, create_run_in)
          (adds (new_run input time) refl (find-none (with_run_id input.run_id) s.runs absent) done)
  ]

  pub finish_continuation-runs :
      (r : AgentRun) (time : ℕ) (s : RunState)
      → (finish_continuation_in at ids r time s).runs ≡ s.runs
  unfolding finish_continuation_in append_event
  finish_continuation-runs r time s = elim (Bool-cases (is_truthy (steering_of r))) [
    | inr alone ↦ rw alone refl
    | inl follows ↦
        elim (Option-cases (find (with_steering_id (or_else (steering_of r) [])) s.steering)) [
          | inl absent ↦ rw (follows, finish_continuation_in, absent) refl
          | inr (st, found) ↦ elim (Bool-cases (option_eq st.continuation_run_id (some r.id))) [
            | inr other ↦ rw (follows, finish_continuation_in, found, other) refl
            | inl own ↦ elim (Option-cases (ended r)) [
              | inl goes_on ↦ rw (follows, finish_continuation_in, found, own, goes_on) refl
              | inr (end_of, over) ↦
                  rw (follows, finish_continuation_in, found, own, over)
                    (update_inbound-runs st.inbound_event_id _ _ at _)
            ]
          ]
        ]
  ]

  pub schedule_next-Goes :
      (scope : ThreadScope) (time : ℕ) (s : RunState)
      → Goes s (schedule_next_in at ids scope time s)
  unfolding schedule_next_in append_event
  schedule_next-Goes scope time s =
      let waiting =
        sort_by (λ p q. leb p.1.sequence q.1.sequence)
          (filter (λ p. is_waiting scope s.runs p.1) (tag 0 s.steering)) in
      elim (Bool-cases (any (is_active_in scope) s.runs)) [
        | inl busy ↦ rw busy done
        | inr free ↦ elim (Option-cases (first_of waiting)) [
          | inl nobody ↦ rw (free, schedule_next_in, nobody) done
          | inr (p, first) ↦
              rw (free, schedule_next_in, first) (create_run-Goes (continuation_input p.1) time s)
        ]
      ]

  pub close_run-Goes : (r : AgentRun) (time : ℕ) (s : RunState) → Goes s (close_run at ids r time s)
  close_run-Goes r time s =
      let t = finish_inbound_in r time s in
      let u = finish_continuation_in at ids r time t in
      Evolves-trans
        (Evolves-same (finish_continuation-runs r time t ∙ finish_inbound-runs r time s))
        (schedule_next-Goes (run_thread r) time u)
