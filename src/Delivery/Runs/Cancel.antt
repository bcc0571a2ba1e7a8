-- ===== src/Delivery/Runs/Cancel.antt =====
-- packages/delivery/src/file-delivery-store.ts, `cancelActiveAgentRunsForThread`: the runs of a thread and the
-- messages that wait for them are cancelled, or one run of it, as when a person takes the task over.
use maxtag.Base.{
  ℕ, Bool, false, ◌&&◌, ◌||◌, not, Text, text, option_eq, is_truthy, List, [], ◌∷◌, ◌++◌, Option,
  none, some, or_else, if◌then◌else◌, ◌==◌, filter, tag, update_at,
}
use maxtag.Delivery.Fields.{num, str, str_or_undefined, Fields, end, field, set_field}
use maxtag.Delivery.Runs.Types.{
  AgentRunStatus, queued, SteeringStatus, pending, claimed, RunEventType, AgentRun, Steering,
  RunState, steering_status_eq,
}
use maxtag.Delivery.Runs.Threads.{with_status, ThreadScope, same_thread}
use maxtag.Delivery.Runs.Inbound.{append_event, InboundUpdate, update_inbound_in}
use maxtag.Delivery.Runs.Continue.{finish_continuation_in, finish_inbound_in, is_active_in}
use maxtag.Delivery.Fields.{object}
use maxtag.Delivery.Runs.Types.{ignored}
use maxtag.Delivery.Runs.Threads.{steering_thread}
use maxtag.Delivery.Runs.Endings.{cancel_queued, request_cancel}

pub record HumanTakeover : Type 0 where
  pub actor_id : Text
  pub actor_display_name : Option Text
  pub card_message_id : Text
  pub receipt_id : Text
  pub authorization : Fields

-- `options?.runId && run.id !== options.runId` passes over the run.
abbrev pub is_chosen : Option Text → AgentRun → Bool
is_chosen wanted r = not (is_truthy wanted) || option_eq (some r.id) wanted

abbrev pub is_chosen_steering : Option Text → Steering → Bool
is_chosen_steering wanted st =
    not (is_truthy wanted)
    || option_eq (some st.target_run_id) wanted
    || option_eq st.continuation_run_id wanted

abbrev pub is_affected : ThreadScope → Option Text → AgentRun → Bool
is_affected scope wanted r = is_active_in scope r && is_chosen wanted r

abbrev pub is_affected_steering : ThreadScope → Option Text → Steering → Bool
is_affected_steering scope wanted st =
    same_thread (steering_thread st) scope
    && is_chosen_steering wanted st
    && (steering_status_eq st.status pending || steering_status_eq st.status claimed)

abbrev pub take_over : HumanTakeover → ℕ → AgentRun → AgentRun
take_over takeover at r = record r {
  metadata = some (
      set_field (text "humanTakeover")
        (object (
          field (text "actorId") (str takeover.actor_id) (
            field (text "actorDisplayName") (str_or_undefined takeover.actor_display_name) (
              field (text "at") (num at) (
                field (text "cardMessageId") (str takeover.card_message_id)
                  (field (text "receiptId") (str takeover.receipt_id) end))))))
        (or_else r.metadata end));
}

abbrev pub taken_over_by : HumanTakeover → Text
taken_over_by takeover =
    (if is_truthy takeover.actor_display_name
      then or_else takeover.actor_display_name []
      else text "A project member")
    ++ text " took over this task"

abbrev pub cancel_steering : Text → ℕ → Steering → Steering
cancel_steering reason at st = record st {
  status = SteeringStatus.cancelled;
  cancelled_at = some at;
  updated_at = at;
  last_error = some reason;
}

abbrev pub ignored_update : Text → Steering → InboundUpdate
ignored_update reason st = record {
  workspace_id = st.workspace_id;
  project_id = st.project_id;
  thread_id = some st.thread_id;
  message_id = some st.message.id;
  reason = some reason;
  error = none;
  metadata = some (field (text "steeringId") (str st.id) end);
}

abbrev pub cancel_affected : Text → ℕ → AgentRun → AgentRun
cancel_affected reason at r =
    if with_status queued r
    then cancel_queued (some reason) at r
    else if not (with_status AgentRunStatus.cancel_requested r)
    then request_cancel (some reason) at r
    else r

-- The changes below read the clock as `at` and take the random ids of the events from `ids`; where the
-- source lets the caller give the time of the write, it is `time`.
module _ (at : ℕ) (ids : ℕ → Text) where
  abbrev pub taken_over_in : HumanTakeover → ℕ × AgentRun → RunState → RunState
  taken_over_in takeover (i, r) s =
      append_event at ids r.id RunEventType.human_takeover (some (taken_over_by takeover))
        (some (
          field (text "control") (str (text "human_takeover")) (
            field (text "actorId") (str takeover.actor_id) (
              field (text "actorDisplayName") (str_or_undefined takeover.actor_display_name) (
                field (text "cardMessageId") (str takeover.card_message_id) (
                  field (text "receiptId") (str takeover.receipt_id)
                    (field (text "authorization") (object takeover.authorization) end)))))))
        (record s { runs = update_at i (take_over takeover at) s.runs })

  unfoldable pub take_over_each :
      ThreadScope → Option Text → HumanTakeover → List (ℕ × AgentRun) → RunState → RunState
  unfolding append_event same_thread set_field
  take_over_each scope wanted takeover [] s = s
  take_over_each scope wanted takeover (p ∷ ps) s =
      let taken = take_over_each scope wanted takeover ps (taken_over_in takeover p s) in
      let skipped = take_over_each scope wanted takeover ps s in
      if is_affected scope wanted p.1 then taken else skipped

  abbrev pub steering_cancelled_in : Text → ℕ × Steering → RunState → RunState
  steering_cancelled_in reason (i, st) s =
      update_inbound_in st.inbound_event_id ignored (ignored_update reason st) at (
        append_event at ids st.target_run_id RunEventType.steering_cancelled (some reason)
          (some (field (text "steeringId") (str st.id) end))
          (record s { steering = update_at i (cancel_steering reason at) s.steering }))

  unfoldable pub cancel_each_steering :
      ThreadScope → Option Text → Text → List (ℕ × Steering) → RunState → RunState
  unfolding append_event same_thread update_inbound_in
  cancel_each_steering scope wanted reason [] s = s
  cancel_each_steering scope wanted reason (p ∷ ps) s =
      let dropped =
        cancel_each_steering scope wanted reason ps (steering_cancelled_in reason p s) in
      let skipped = cancel_each_steering scope wanted reason ps s in
      if is_affected_steering scope wanted p.1 then dropped else skipped

  -- A queued run is cancelled at once; one that runs is asked to stop.
  abbrev pub affected_in : Text → ℕ × AgentRun → RunState → RunState
  affected_in reason (i, r) s =
      let written = record s { runs = update_at i (cancel_affected reason at) s.runs } in
      let requested =
        append_event at ids r.id RunEventType.cancel_requested (some reason) none written in
      if with_status queued r
      then finish_continuation_in at ids (cancel_queued (some reason) at r) at (
          finish_inbound_in (cancel_queued (some reason) at r) at
            (append_event at ids r.id RunEventType.cancelled (some reason) none requested))
      else if not (with_status AgentRunStatus.cancel_requested r)
      then requested
      else s

  unfoldable pub cancel_each_run :
      ThreadScope → Option Text → Text → List (ℕ × AgentRun) → RunState → RunState × List AgentRun
  unfolding append_event same_thread finish_continuation_in finish_inbound_in
  cancel_each_run scope wanted reason [] s = (s, [])
  cancel_each_run scope wanted reason (p ∷ ps) s =
      let affected = cancel_each_run scope wanted reason ps (affected_in reason p s) in
      let skipped = cancel_each_run scope wanted reason ps s in
      if is_affected scope wanted p.1
      then (affected.0, cancel_affected reason at p.1 ∷ affected.1)
      else skipped

  abbrev pub was_cancelled : ThreadScope → Option Text → Steering → Bool
  was_cancelled scope wanted st =
      same_thread (steering_thread st) scope
      && is_chosen_steering wanted st
      && steering_status_eq st.status SteeringStatus.cancelled
      && elim st.cancelled_at [ none ↦ false | some t ↦ t == at ]

  abbrev pub taken_over : ThreadScope → Option Text → Option HumanTakeover → RunState → RunState
  taken_over scope wanted none s = s
  taken_over scope wanted (some takeover) s = take_over_each scope wanted takeover (tag 0 s.runs) s

  unfoldable pub cancel_active_agent_runs_for_thread :
      ThreadScope
      → Text
      → Option Text
      → Option HumanTakeover
      → RunState
      → RunState × List AgentRun × List Steering
  unfolding take_over_each cancel_each_steering cancel_each_run same_thread
  cancel_active_agent_runs_for_thread scope reason wanted takeover s =
      let over = taken_over scope wanted takeover s in
      let dropped = cancel_each_steering scope wanted reason (tag 0 over.steering) over in
      let (t, affected) = cancel_each_run scope wanted reason (tag 0 dropped.runs) dropped in
      (t, affected, filter (was_cancelled scope wanted) t.steering)
