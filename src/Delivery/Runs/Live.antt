-- ===== src/Delivery/Runs/Live.antt =====
-- packages/delivery/src/file-delivery-store.ts: messages that a running run takes while it runs.
use maxtag.Base.{
  ℕ, Bool, true, ◌&&◌, not, Text, text, text_eq, option_eq, is_truthy, [], ◌++◌, Option, none, some,
  or_else, if◌then◌else◌, leb, filter, find, sort_by, tag, update_first, update_at,
}
use maxtag.Delivery.Fields.{str, end, field, get_text, set_field}
use maxtag.Delivery.Runs.Types.{
  running, pending, claimed, applied, SteeringMode, live, next_turn, processed, RunEventType,
  steering_claimed, steering_applied, AgentRun, Steering, RunState, steering_status_eq,
}
use maxtag.Delivery.Runs.Threads.{with_status}
use maxtag.Delivery.Runs.Inbound.{append_event, InboundUpdate, update_inbound_in}
use maxtag.Delivery.Runs.Create.{with_run_id, with_steering_id, actor_name}

abbrev pub is_steering_mode : SteeringMode → Option Text → Bool
is_steering_mode live value = option_eq value (some (text "live"))
is_steering_mode next_turn value = option_eq value (some (text "next_turn"))

abbrev pub mode_name : SteeringMode → Text
mode_name live = text "live"
mode_name next_turn = text "next_turn"

abbrev pub metadata_text : Text → AgentRun → Option Text
metadata_text key r = elim r.metadata [ none ↦ none | some fields ↦ get_text key fields ]

abbrev pub set_mode : SteeringMode → ℕ → AgentRun → AgentRun
set_mode mode at r = record r {
  metadata = some (set_field (text "steeringMode") (str (mode_name mode)) (or_else r.metadata end));
  updated_at = at;
}

abbrev pub mode_message : SteeringMode → Text
mode_message live = text "Executor accepts live steering"
mode_message next_turn = text "Follow-ups continue in the next turn"

abbrev pub claim_steering : Text → ℕ → Steering → Steering
claim_steering worker time st = record st {
  status = claimed;
  mode = some live;
  claimed_by = some worker;
  claimed_at = some time;
  updated_at = time;
}

abbrev pub apply_steering : ℕ → Steering → Steering
apply_steering at st = record st {
  status = applied;
  mode = some live;
  applied_at = some at;
  updated_at = at;
  last_error = none;
}

abbrev pub takes_live : Text → Steering → Bool
takes_live run_id st =
    text_eq st.target_run_id run_id && steering_status_eq st.status pending && st.allow_live

abbrev pub live_update : Steering → InboundUpdate
live_update st = record {
  workspace_id = st.workspace_id;
  project_id = st.project_id;
  thread_id = some st.thread_id;
  message_id = some st.message.id;
  reason = none;
  error = none;
  metadata = some (
      field (text "steeringId") (str st.id) (
        field (text "steeringMode") (str (text "live"))
          (field (text "targetRunId") (str st.target_run_id) end)));
}

-- The changes below read the clock as `at` and take the random ids of the events from `ids`; where the
-- source lets the caller give the time of the write, it is `time`.
module _ (at : ℕ) (ids : ℕ → Text) where
  unfoldable pub set_agent_run_steering_mode :
      Text → SteeringMode → RunState → RunState × Option AgentRun
  unfolding append_event get_text set_field
  set_agent_run_steering_mode id mode s = elim (find (with_run_id id) s.runs) [
    | none ↦ (s, none)
    | some r ↦
        if is_steering_mode mode (metadata_text (text "steeringMode") r) then (s, some r) else (
          append_event at ids id RunEventType.steering_mode (some (mode_message mode))
              (some (field (text "mode") (str (mode_name mode)) end))
              (record s { runs = update_first (with_run_id id) (set_mode mode at) s.runs }),
          some (set_mode mode at r),
        )
  ]

  abbrev pub claimed_steering_in : Text → Text → ℕ → ℕ × Steering → RunState → RunState
  claimed_steering_in run_id worker time (i, st) s =
      append_event at ids run_id steering_claimed
        (some (text "Live follow-up from " ++ actor_name st.message.actor))
        (some (
          field (text "steeringId") (str st.id) (
            field (text "messageId") (str st.message.id)
              (field (text "actorId") (str st.message.actor.id) end))))
        (record s { steering = update_at i (claim_steering worker time) s.steering })

  unfoldable pub claim_next_agent_run_steering :
      Text → Text → ℕ → RunState → RunState × Option Steering
  unfolding append_event
  claim_next_agent_run_steering run_id worker time s =
      let waiting =
        sort_by (λ p q. leb p.1.sequence q.1.sequence)
          (filter (λ p. takes_live run_id p.1) (tag 0 s.steering)) in
      elim (find (with_run_id run_id) s.runs) [
        | none ↦ (s, none)
        | some r ↦
            if not (with_status running r) then (s, none) else elim (find (λ _. true) waiting) [
              | none ↦ (s, none)
              | some p ↦ (
                claimed_steering_in run_id worker time p s,
                some (claim_steering worker time p.1),
              )
            ]
      ]

  abbrev pub applied_in : Option Text → Steering → RunState → RunState
  applied_in detail st s =
      let message = if is_truthy detail then or_else detail [] else text "Live follow-up applied" in
      update_inbound_in st.inbound_event_id processed (live_update st) at (
        append_event at ids st.target_run_id steering_applied (some message)
          (some (
            field (text "steeringId") (str st.id)
              (field (text "messageId") (str st.message.id) end)))
          (record s {
            steering = update_first (with_steering_id st.id) (apply_steering at) s.steering;
          }))

  unfoldable pub mark_agent_run_steering_applied :
      Text → Option Text → Option Text → RunState → RunState × Option Steering
  unfolding append_event update_inbound_in
  mark_agent_run_steering_applied id detail expected s =
      elim (find (with_steering_id id) s.steering) [
        | none ↦ (s, none)
        | some st ↦
            if is_truthy expected && not (option_eq (some st.target_run_id) expected)
            then (s, none)
            else if steering_status_eq st.status claimed
            then (applied_in detail st s, some (apply_steering at st))
            else (s, some st)
      ]
