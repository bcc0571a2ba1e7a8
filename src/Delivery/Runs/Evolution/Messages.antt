-- ===== src/Delivery/Runs/Evolution/Messages.antt =====
-- Creating and steering runs, and the messages that a run takes, as moves of the runs.
use maxtag.Base.{
  ℕ, ◌≡◌, refl, inl, inr, true, ◌&&◌, not, Text, text, Option, none, some, is_truthy, option_eq,
  leb, find, filter, Bool-cases, Option-cases, if◌then◌else◌, tag, sort_by,
}
use maxtag.Delivery.Types.{SourceThread}
use maxtag.Delivery.Runs.Types.{
  running, AgentRun, CreateRunInput, SteeringInput, RunState, claimed, steering_status_eq,
  SteeringMode,
}
use maxtag.Delivery.Runs.Threads.{is_active_run_status, with_status}
use maxtag.Delivery.Runs.Inbound.{append_event}
use maxtag.Delivery.Runs.Create.{with_run_id, with_steering_id, create_run_in, enqueue_steering_in}
use maxtag.Delivery.Runs.Moves.{stays, done, Evolves-same, Evolves-first}
use maxtag.Delivery.Runs.Evolution.{Goes, update_inbound-runs, create_run-Goes}
use maxtag.Delivery.Types.{SourceMessage, DeliveryError, steering_target_missing_thread}
use maxtag.Base.{Result, ok, err}
use maxtag.Delivery.Runs.Steer.{
  create_agent_run, SteerOptions, steering_input, source_scope, active_run_for_thread,
  find_duplicate_steering, created_in, steered_in, create_or_steer_new, create_agent_run_or_steer,
  enqueue_agent_run_steering,
}
use maxtag.Delivery.Runs.Live.{
  set_mode, is_steering_mode, metadata_text, set_agent_run_steering_mode, takes_live,
  claim_next_agent_run_steering, mark_agent_run_steering_applied,
}

-- The state that an attempt leaves: one that throws saves nothing.
abbrev pub after : {A : Type 0} → RunState → Result DeliveryError (RunState × A) → RunState
after s (ok (t, a)) = t
after s (err e) = s

module _ (at : ℕ) (ids : ℕ → Text) where
  pub create_agent_run-Goes :
      (input : CreateRunInput) (s : RunState) → Goes s (create_agent_run at ids input s).0
  unfolding create_agent_run
  create_agent_run-Goes input s = create_run-Goes at ids input at s

  -- A message that waits changes no run.
  enqueue_steering-runs :
      (target : AgentRun) (source : SourceThread) (input : SteeringInput) (uuid : Text)
      (s : RunState)
      → (enqueue_steering_in at ids target source input uuid s).0.runs ≡ s.runs
  unfolding enqueue_steering_in append_event
  enqueue_steering-runs target source input uuid s = refl

  create_or_steer_new-Goes :
      (input : CreateRunInput) (options : SteerOptions) (uuid : Text) (s : RunState)
      → Goes s (after s (create_or_steer_new at ids input options uuid s))
  create_or_steer_new-Goes input options uuid s =
      let active =
        if options.force_new_run
        then none
        else active_run_for_thread s (source_scope input.thread) in
      go active input.message
    where
      to_source :
          (r : AgentRun) (message : SourceMessage) (source : Option SourceThread)
          → Goes s (
              after s (elim source [
                | none ↦ err steering_target_missing_thread
                | some thread ↦ steered_in at ids r (
                    enqueue_steering_in at ids r thread
                      (steering_input input options message)
                      uuid
                      s)
              ]))
      to_source r message none = done
      to_source r message (some thread) = Evolves-same (enqueue_steering-runs r thread _ uuid s)

      go :
          (active : Option AgentRun) (message : Option SourceMessage)
          → Goes s (
              after s (elim active [
                | none ↦ created_in at ids (create_run_in at ids input at s)
                | some r ↦ elim message [
                  | none ↦ created_in at ids (create_run_in at ids input at s)
                  | some m ↦ elim r.thread [
                    | none ↦ err steering_target_missing_thread
                    | some source ↦ steered_in at ids r (
                        enqueue_steering_in at ids r source (steering_input input options m) uuid s)
                  ]
                ]
              ]))
      go none message = create_run-Goes at ids input at s
      go (some r) none = create_run-Goes at ids input at s
      go (some r) (some m) = to_source r m r.thread

  pub create_or_steer-Goes :
      (input : CreateRunInput) (options : SteerOptions) (uuid : Text) (s : RunState)
      → Goes s (after s (create_agent_run_or_steer at ids input options uuid s))
  unfolding create_agent_run_or_steer
  create_or_steer-Goes input options uuid s =
      elim (Option-cases (find (with_run_id input.run_id) s.runs)) [
        | inr (r, found) ↦ rw (found, create_agent_run_or_steer) done
        | inl new ↦
            let fresh = create_or_steer_new-Goes input options uuid s in
            elim (Option-cases
              (find_duplicate_steering s input.thread input.message input.inbound_event_id)) [
                | inl first ↦ rw (new, create_agent_run_or_steer, first) fresh
                | inr (st, again) ↦
                    elim (Option-cases (find (with_run_id st.target_run_id) s.runs)) [
                      | inl lost ↦ rw (new, create_agent_run_or_steer, again, lost) fresh
                      | inr (target, kept) ↦ rw (new, create_agent_run_or_steer, again, kept) done
                    ]
              ]
      ]

  pub enqueue_steering-Goes :
      (id : Text) (input : SteeringInput) (uuid : Text) (s : RunState)
      → (enqueue_agent_run_steering at ids id input uuid s).0.runs ≡ s.runs
  unfolding enqueue_agent_run_steering
  enqueue_steering-Goes id input uuid s = elim (Option-cases (find (with_run_id id) s.runs)) [
    | inl absent ↦ rw (absent, enqueue_agent_run_steering) refl
    | inr (r, found) ↦ elim (Option-cases r.thread) [
      | inl alone ↦ rw (found, enqueue_agent_run_steering, alone) refl
      | inr (source, has) ↦ elim (Bool-cases (not (is_active_run_status r.status))) [
        | inl over ↦ rw (found, enqueue_agent_run_steering, has, over) refl
        | inr active ↦
            elim (Option-cases
              (find_duplicate_steering s source (some input.message) input.inbound_event_id)) [
                | inr (st, again) ↦ rw (found, enqueue_agent_run_steering, has, active, again) refl
                | inl first ↦
                    rw (found, enqueue_agent_run_steering, has, active, first)
                      (enqueue_steering-runs r source input uuid s)
              ]
      ]
    ]
  ]

  pub set_mode-Goes :
      (id : Text) (mode : SteeringMode) (s : RunState)
      → Goes s (set_agent_run_steering_mode at ids id mode s).0
  unfolding set_agent_run_steering_mode append_event
  set_mode-Goes id mode s = elim (Option-cases (find (with_run_id id) s.runs)) [
    | inl absent ↦ rw (absent, set_agent_run_steering_mode) done
    | inr (r, found) ↦
        elim (Bool-cases (is_steering_mode mode (metadata_text (text "steeringMode") r))) [
          | inl same ↦ rw (found, set_agent_run_steering_mode, same) done
          | inr other ↦
              rw (found, set_agent_run_steering_mode, other)
                (Evolves-first (with_run_id id) (set_mode mode at) s.runs r found (refl, stays))
        ]
  ]

  pub claim_steering-runs :
      (id worker : Text) (time : ℕ) (s : RunState)
      → (claim_next_agent_run_steering at ids id worker time s).0.runs ≡ s.runs
  unfolding claim_next_agent_run_steering append_event
  claim_steering-runs id worker time s =
      let waiting =
        sort_by (λ p q. leb p.1.sequence q.1.sequence)
          (filter (λ p. takes_live id p.1) (tag 0 s.steering)) in
      elim (Option-cases (find (with_run_id id) s.runs)) [
        | inl absent ↦ rw (absent, claim_next_agent_run_steering) refl
        | inr (r, found) ↦ elim (Bool-cases (not (with_status running r))) [
          | inl idle ↦ rw (found, claim_next_agent_run_steering, idle) refl
          | inr runs ↦ elim (Option-cases (find (λ _. true) waiting)) [
            | inl nobody ↦ rw (found, claim_next_agent_run_steering, runs, nobody) refl
            | inr (p, first) ↦ rw (found, claim_next_agent_run_steering, runs, first) refl
          ]
        ]
      ]

  pub apply_steering-runs :
      (id : Text) (detail expected : Option Text) (s : RunState)
      → (mark_agent_run_steering_applied at ids id detail expected s).0.runs ≡ s.runs
  unfolding mark_agent_run_steering_applied append_event
  apply_steering-runs id detail expected s =
      elim (Option-cases (find (with_steering_id id) s.steering)) [
        | inl absent ↦ rw (absent, mark_agent_run_steering_applied) refl
        | inr (st, found) ↦
            elim (Bool-cases
              (is_truthy expected && not (option_eq (some st.target_run_id) expected))) [
                | inl other ↦ rw (found, mark_agent_run_steering_applied, other) refl
                | inr own ↦ elim (Bool-cases (steering_status_eq st.status claimed)) [
                  | inr settled ↦ rw (found, mark_agent_run_steering_applied, own, settled) refl
                  | inl taken ↦
                      rw (found, mark_agent_run_steering_applied, own, taken)
                        (update_inbound-runs st.inbound_event_id _ _ at _)
                ]
              ]
      ]
