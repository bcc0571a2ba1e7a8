-- ===== src/Delivery/Runs/Evolution/Changes.antt =====
-- The operations that change one run, as moves of that run.
use maxtag.Base.{
  ℕ, ◌≡◌, refl, sym, subst, inl, inr, Bool, true, false, ◌&&◌, ◌||◌, not, Text, text, Option, none,
  some, or_else, option_eq, find, update_first, Bool-cases, Option-cases, arith, if◌then◌else◌,
}
use maxtag.Delivery.Runs.Types.{
  AgentRunStatus, queued, running, RunState, run_status_eq, RunEventType,
}
use maxtag.Delivery.Runs.Threads.{is_active_run_status, is_terminal_run_status, with_status}
use maxtag.Delivery.Runs.Inbound.{append_event}
use maxtag.Delivery.Runs.Create.{with_run_id}
use maxtag.Delivery.Runs.Endings.{
  RunChange, change_run, next_status, won_message, is_final, cancellation_wins, cancel_queued,
  request_cancel, release_run, is_of_other, renew,
}
use maxtag.Delivery.Runs.Lifecycle.{
  close_run, update_agent_run, request_agent_run_cancel, requeue_agent_run, renew_agent_run_lease,
}
use maxtag.Delivery.Runs.Moves.{
  Moves, stays, starts, releases, is_asked, fails, is_cancelled, completes, done, Evolves-trans,
  Evolves-first,
}
use maxtag.Delivery.Runs.Evolution.{Goes, if-Goes, close_run-Goes}

-- The statuses that `updateAgentRun` is called with.
abbrev pub is_mark : AgentRunStatus → Bool
is_mark s = run_status_eq s running || is_terminal_run_status s

change-Moves :
    (old new : AgentRunStatus)
    → is_mark new ≡ true
    → is_terminal_run_status old && not (run_status_eq old new) ≡ false
    → Moves old (next_status old new)
change-Moves queued queued mark fresh = cc
change-Moves queued running mark fresh = starts refl
change-Moves queued AgentRunStatus.cancel_requested mark fresh = cc
change-Moves queued AgentRunStatus.completed mark fresh = completes refl refl
change-Moves queued AgentRunStatus.failed mark fresh = fails refl
change-Moves queued AgentRunStatus.cancelled mark fresh = is_cancelled refl
change-Moves running queued mark fresh = cc
change-Moves running running mark fresh = starts refl
change-Moves running AgentRunStatus.cancel_requested mark fresh = cc
change-Moves running AgentRunStatus.completed mark fresh = completes refl refl
change-Moves running AgentRunStatus.failed mark fresh = fails refl
change-Moves running AgentRunStatus.cancelled mark fresh = is_cancelled refl
change-Moves AgentRunStatus.cancel_requested queued mark fresh = cc
change-Moves AgentRunStatus.cancel_requested running mark fresh = starts refl
change-Moves AgentRunStatus.cancel_requested AgentRunStatus.cancel_requested mark fresh = cc
change-Moves AgentRunStatus.cancel_requested AgentRunStatus.completed mark fresh = is_cancelled refl
change-Moves AgentRunStatus.cancel_requested AgentRunStatus.failed mark fresh = fails refl
change-Moves AgentRunStatus.cancel_requested AgentRunStatus.cancelled mark fresh = is_cancelled refl
change-Moves AgentRunStatus.completed queued mark fresh = cc
change-Moves AgentRunStatus.completed running mark fresh = cc
change-Moves AgentRunStatus.completed AgentRunStatus.cancel_requested mark fresh = cc
change-Moves AgentRunStatus.completed AgentRunStatus.completed mark fresh = stays
change-Moves AgentRunStatus.completed AgentRunStatus.failed mark fresh = cc
change-Moves AgentRunStatus.completed AgentRunStatus.cancelled mark fresh = cc
change-Moves AgentRunStatus.failed queued mark fresh = cc
change-Moves AgentRunStatus.failed running mark fresh = cc
change-Moves AgentRunStatus.failed AgentRunStatus.cancel_requested mark fresh = cc
change-Moves AgentRunStatus.failed AgentRunStatus.completed mark fresh = cc
change-Moves AgentRunStatus.failed AgentRunStatus.failed mark fresh = stays
change-Moves AgentRunStatus.failed AgentRunStatus.cancelled mark fresh = cc
change-Moves AgentRunStatus.cancelled queued mark fresh = cc
change-Moves AgentRunStatus.cancelled running mark fresh = cc
change-Moves AgentRunStatus.cancelled AgentRunStatus.cancel_requested mark fresh = cc
change-Moves AgentRunStatus.cancelled AgentRunStatus.completed mark fresh = cc
change-Moves AgentRunStatus.cancelled AgentRunStatus.failed mark fresh = cc
change-Moves AgentRunStatus.cancelled AgentRunStatus.cancelled mark fresh = stays

-- A status is active or terminal.
pub active-cases :
    (s : AgentRunStatus) → is_terminal_run_status s ≡ false → is_active_run_status s ≡ true
active-cases queued h = refl
active-cases running h = refl
active-cases AgentRunStatus.cancel_requested h = refl
active-cases AgentRunStatus.completed h = cc
active-cases AgentRunStatus.failed h = cc
active-cases AgentRunStatus.cancelled h = cc

pub with_status-eq : (s t : AgentRunStatus) → run_status_eq s t ≡ true → s ≡ t
with_status-eq s t h = ground (arith, h)

module _ (at : ℕ) (ids : ℕ → Text) where
  pub update_agent_run-Goes :
      (id : Text) (status : AgentRunStatus) (input : RunChange) (s : RunState)
      → is_mark status ≡ true
      → Goes s (update_agent_run at ids id status input s).0
  unfolding update_agent_run append_event
  update_agent_run-Goes id status input s mark =
      elim (Option-cases (find (with_run_id id) s.runs)) [
        | inl absent ↦ rw (absent, update_agent_run) done
        | inr (r, found) ↦ elim (Bool-cases (is_final r status)) [
          | inl final ↦ rw (found, update_agent_run, final) done
          | inr fresh ↦
              let step =
                Evolves-first (with_run_id id) (change_run status input at) s.runs r found
                  (refl, change-Moves r.status status mark fresh) in
              let changed = change_run status input at r in
              let written = record s {
                runs = update_first (with_run_id id) (change_run status input at) s.runs;
              } in
              let won =
                append_event at ids id RunEventType.cancelled (some (won_message changed)) none
                  written in
              let logged = append_event at ids id input.event (some input.message) none written in
              let wins = cancellation_wins r.status status in
              let either = if wins then won else logged in
              let to_either : Goes s either = if-Goes s won logged wins step step in
              let closed = close_run at ids changed at either in
              let go =
                if-Goes s closed either (is_terminal_run_status changed.status)
                  (Evolves-trans to_either (close_run-Goes at ids changed at either)) to_either in
              rw (found, update_agent_run, fresh) go
        ]
      ]

  pub request_cancel-Goes :
      (id : Text) (reason : Option Text) (s : RunState)
      → Goes s (request_agent_run_cancel at ids id reason s).0
  unfolding request_agent_run_cancel append_event
  request_cancel-Goes id reason s = elim (Option-cases (find (with_run_id id) s.runs)) [
    | inl absent ↦ rw (absent, request_agent_run_cancel) done
    | inr (r, found) ↦ elim (Bool-cases (is_terminal_run_status r.status)) [
      | inl over ↦ rw (found, request_agent_run_cancel, over) done
      | inr active ↦
          let is_active = active-cases r.status active in
          elim (Bool-cases (with_status queued r)) [
            | inl waits ↦
                rw (found, request_agent_run_cancel, active, waits)
                  (Evolves-trans
                    (Evolves-first (with_run_id id) (cancel_queued reason at) s.runs r found
                      (refl, is_cancelled is_active))
                    (close_run-Goes at ids (cancel_queued reason at r) at _))
            | inr runs ↦
                rw (found, request_agent_run_cancel, active, runs)
                  (Evolves-first (with_run_id id) (request_cancel reason at) s.runs r found
                    (refl, is_asked is_active))
          ]
    ]
  ]

  pub requeue-Goes :
      (id : Text) (worker reason : Option Text) (time : ℕ) (s : RunState)
      → Goes s (requeue_agent_run at ids id worker reason time s).0
  unfolding requeue_agent_run append_event
  requeue-Goes id worker reason time s = elim (Option-cases (find (with_run_id id) s.runs)) [
    | inl absent ↦ rw (absent, requeue_agent_run) done
    | inr (r, found) ↦ elim (Bool-cases (not (with_status running r) || is_of_other worker r)) [
      | inl other ↦ rw (found, requeue_agent_run, other) done
      | inr own ↦
          let why = or_else reason (text "worker_released_run") in
          let runs : run_status_eq r.status running ≡ true = ground (arith, own) in
          let same = with_status-eq r.status running runs in
          rw (found, requeue_agent_run, own)
            (Evolves-first (with_run_id id) (release_run why time) s.runs r found
              (refl, subst (λ z. Moves z queued) (sym same) releases))
    ]
  ]

pub renew-Goes :
    (id worker : Text) (time : ℕ) (s : RunState) → Goes s (renew_agent_run_lease id worker time s).0
unfolding renew_agent_run_lease
renew-Goes id worker time s = elim (Option-cases (find (with_run_id id) s.runs)) [
  | inl absent ↦ rw (absent, renew_agent_run_lease) done
  | inr (r, found) ↦
      elim (Bool-cases (not (with_status running r) || not (option_eq r.worker_id (some worker)))) [
        | inl other ↦ rw (found, renew_agent_run_lease, other) done
        | inr own ↦
            rw (found, renew_agent_run_lease, own)
              (Evolves-first (with_run_id id) (renew time) s.runs r found (refl, stays))
      ]
]
