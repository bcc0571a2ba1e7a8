-- ===== src/Delivery/Runs/Continue.antt =====
-- packages/delivery/src/file-delivery-store.ts: what ends with a run; and when the last run of a thread has
-- ended, the next message that waits becomes a run.
use maxtag.Base.{
  ℕ, Bool, true, false, ◌&&◌, ◌||◌, Text, text, text_eq, option_eq, is_truthy, List, [], ◌++◌,
  Option, none, some, or_else, if◌then◌else◌, leb, any, filter, find, sort_by, update_first,
  update_at, tag,
}
use maxtag.Delivery.Fields.{str, end, field, get_text, spread}
use maxtag.Delivery.Runs.Types.{
  AgentRunStatus, SteeringStatus, pending, claimed, scheduled, applied, next_turn, InboundStatus,
  processed, ignored, RunEventType, steering_scheduled, steering_applied, steering_failed,
  steering_cancelled, AgentRun, CreateRunInput, Steering, RunState, run_status_eq,
  steering_status_eq,
}
use maxtag.Delivery.Runs.Threads.{
  is_terminal_run_status, is_active_run_status, ThreadScope, run_thread, steering_thread,
  same_thread,
}
use maxtag.Delivery.Runs.Inbound.{append_event, InboundUpdate, update_inbound_in}
use maxtag.Delivery.Runs.Create.{with_steering_id, create_run_in}

-- `steering:${steeringId}`
abbrev pub steering_continuation_run_id : Text → Text
steering_continuation_run_id id = text "steering:" ++ id

-- How a message that became a run ends with it: the status of the message, that of its event, and
-- the error.
abbrev pub ended : AgentRun → Option (SteeringStatus × InboundStatus × RunEventType × Option Text)
ended r = elim r.status [
  | AgentRunStatus.completed ↦ some (applied, processed, steering_applied, none)
  | AgentRunStatus.failed ↦ some (
    SteeringStatus.failed,
    InboundStatus.failed,
    steering_failed,
    some (if is_truthy r.last_error then or_else r.last_error [] else text "continuation_failed"),
  )
  | AgentRunStatus.cancelled ↦ some (
    SteeringStatus.cancelled,
    ignored,
    steering_cancelled,
    some
        (if is_truthy r.last_error then or_else r.last_error [] else text "continuation_cancelled"),
  )
  | _ ↦ none
]

abbrev pub set_steering : SteeringStatus → Option Text → ℕ → Steering → Steering
set_steering status error time st = record st {
  status = status;
  last_error = error;
  applied_at = if steering_status_eq status applied then some time else st.applied_at;
  failed_at = if steering_status_eq status SteeringStatus.failed then some time else st.failed_at;
  cancelled_at =
      if steering_status_eq status SteeringStatus.cancelled then some time else st.cancelled_at;
  updated_at = time;
}

abbrev pub is_failed_inbound : InboundStatus → Bool
is_failed_inbound InboundStatus.failed = true
is_failed_inbound _ = false

abbrev pub is_ignored : InboundStatus → Bool
is_ignored ignored = true
is_ignored _ = false

abbrev pub continuation_update : AgentRun → Steering → InboundStatus → Option Text → InboundUpdate
continuation_update r st inbound error = record {
  workspace_id = st.workspace_id;
  project_id = st.project_id;
  thread_id = some st.thread_id;
  message_id = some st.message.id;
  reason = if is_ignored inbound then error else none;
  error = if is_failed_inbound inbound then error else none;
  metadata = some (
      field (text "steeringId") (str st.id) (
        field (text "steeringMode") (str (text "next_turn")) (
          field (text "targetRunId") (str st.target_run_id)
            (field (text "continuationRunId") (str r.id) end))));
}

abbrev pub steering_of : AgentRun → Option Text
steering_of r = elim r.metadata [ none ↦ none | some fields ↦ get_text (text "steeringId") fields ]

abbrev pub inbound_status_of : AgentRunStatus → InboundStatus
inbound_status_of AgentRunStatus.completed = processed
inbound_status_of AgentRunStatus.failed = InboundStatus.failed
inbound_status_of _ = ignored

abbrev pub run_update : AgentRun → InboundUpdate
run_update r = record {
  workspace_id = r.workspace_id;
  project_id = r.project_id;
  thread_id = some r.thread_id;
  message_id = r.message_id;
  reason = if is_ignored (inbound_status_of r.status) then r.last_error else none;
  error = if is_failed_inbound (inbound_status_of r.status) then r.last_error else none;
  metadata = some (field (text "runId") (str r.id) end);
}

-- An active run of the thread.
abbrev pub is_active_in : ThreadScope → AgentRun → Bool
is_active_in scope r = same_thread (run_thread r) scope && is_active_run_status r.status

abbrev pub has_ended : Text → AgentRun → Bool
has_ended id r = text_eq r.id id && is_terminal_run_status r.status

-- A message of the thread that waits, although the run that it was sent to has ended.
abbrev pub is_waiting : ThreadScope → List AgentRun → Steering → Bool
is_waiting scope runs st =
    same_thread (steering_thread st) scope
    && (steering_status_eq st.status pending || steering_status_eq st.status claimed)
    && any (has_ended st.target_run_id) runs

abbrev pub first_of : List (ℕ × Steering) → Option (ℕ × Steering)
first_of ps = find (λ _. true) ps

abbrev pub continuation_input : Steering → CreateRunInput
continuation_input st = record {
  run_id = steering_continuation_run_id st.id;
  thread = st.thread;
  message = some st.message;
  inbound_event_id = st.inbound_event_id;
  binding_id = st.binding_id;
  executor_id = st.executor_id;
  transport_mode = st.transport_mode;
  runtime_scope = none;
  metadata = some (
      spread (or_else st.metadata end) (
        field (text "source") (str (text "steering")) (
          field (text "steeringId") (str st.id)
            (field (text "continuationOfRunId") (str st.target_run_id) end))));
}

abbrev pub schedule_steering : Text → ℕ → Steering → Steering
schedule_steering run_id time st = record st {
  status = scheduled;
  mode = some next_turn;
  continuation_run_id = some run_id;
  scheduled_at = some time;
  claimed_by = none;
  claimed_at = none;
  updated_at = time;
}

unfoldable pub finish_inbound_in : AgentRun → ℕ → RunState → RunState
unfolding update_inbound_in
finish_inbound_in r time s =
    if is_truthy r.inbound_event_id && is_terminal_run_status r.status
    then update_inbound_in r.inbound_event_id (inbound_status_of r.status) (run_update r) time s
    else s

-- The changes below read the clock as `at` and take the random ids of the events from `ids`.
module _ (at : ℕ) (ids : ℕ → Text) where
  abbrev pub finish_steering :
      AgentRun
      → Steering
      → SteeringStatus × InboundStatus × RunEventType × Option Text
      → ℕ
      → RunState
      → RunState
  finish_steering r st (status, inbound, type, error) time s =
      let message =
        if run_status_eq r.status AgentRunStatus.completed
        then some (text "Follow-up completed in the next turn")
        else error in
      let details = field (text "steeringId") (str st.id) (
        field (text "continuationRunId") (str r.id)
          (field (text "mode") (str (text "next_turn")) end)) in
      update_inbound_in st.inbound_event_id inbound (continuation_update r st inbound error) at (
        append_event at ids st.target_run_id type message (some details) (record s {
          steering =
              update_first (with_steering_id st.id) (set_steering status error time) s.steering;
        }))

  unfoldable pub finish_continuation_in : AgentRun → ℕ → RunState → RunState
  unfolding append_event update_inbound_in get_text
  finish_continuation_in r time s =
      if is_truthy (steering_of r)
      then elim (find (with_steering_id (or_else (steering_of r) [])) s.steering) [
        | none ↦ s
        | some st ↦
            if option_eq st.continuation_run_id (some r.id)
            then elim (ended r) [ none ↦ s | some end_of ↦ finish_steering r st end_of time s ]
            else s
      ]
      else s

  -- The message is written through the reference with the index.
  abbrev pub continue_with : ℕ × Steering → ℕ → RunState → RunState
  continue_with (i, st) time s =
      let (t, continuation) = create_run_in at ids (continuation_input st) time s in
      let details = field (text "steeringId") (str st.id) (
        field (text "continuationRunId") (str continuation.id)
          (field (text "mode") (str (text "next_turn")) end)) in
      append_event at ids st.target_run_id steering_scheduled
        (some (text "Follow-up scheduled as the next turn")) (some details)
        (record t { steering = update_at i (schedule_steering continuation.id time) t.steering })

  unfoldable pub schedule_next_in : ThreadScope → ℕ → RunState → RunState
  unfolding append_event create_run_in same_thread
  schedule_next_in scope time s =
      let waiting =
        sort_by (λ p q. leb p.1.sequence q.1.sequence)
          (filter (λ p. is_waiting scope s.runs p.1) (tag 0 s.steering)) in
      if any (is_active_in scope) s.runs
      then s
      else elim (first_of waiting) [ none ↦ s | some p ↦ continue_with p time s ]
