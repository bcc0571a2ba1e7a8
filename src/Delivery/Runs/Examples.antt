-- ===== src/Delivery/Runs/Examples.antt =====
-- A thread in which a second message comes while the first is worked on, and the theorems at it.
use maxtag.Base.{
  arith, ℕ, ◌+◌, ◌≡◌, ◌⊎◌, refl, true, false, Text, text, text_eq, option_eq, List, [], ◌∷◌, map,
  none, some, any, get_elem?, length, sort_by,
}
use maxtag.Routine.Types.{ThreadVisibility}
use maxtag.Delivery.Fields.{get_text, set_field, spread}
use maxtag.Delivery.Types.{SourceThread, SourceActor, SourceMessage}
use maxtag.Delivery.Runs.Types.{AgentRunStatus, queued, running, AgentRun, CreateRunInput, RunState}
use maxtag.Delivery.Runs.Threads.{ThreadScope, same_thread, same_runtime, runtime_scope_for}
use maxtag.Delivery.Runs.Inbound.{
  append_event, update_inbound_in, merged, RecordInput, repeats, inbound_event_id, trim_inbound,
  record_inbound_event,
}
use maxtag.Delivery.Runs.Create.{new_run, create_run_in, enqueue_steering_in}
use maxtag.Delivery.Runs.Continue.{
  finish_continuation_in, finish_inbound_in, is_active_in, is_waiting, schedule_next_in,
}
use maxtag.Delivery.Runs.Steer.{
  SteerOptions, active_run_for_thread, source_scope, create_agent_run, create_agent_run_or_steer,
}
use maxtag.Delivery.Runs.Claim.{claim_each_run, claim_queued_agent_runs}
use maxtag.Delivery.Runs.Lifecycle.{
  update_agent_run, mark_agent_run_running, mark_agent_run_completed, mark_agent_run_failed,
  request_agent_run_cancel,
}
use maxtag.Delivery.Runs.Moves.{Runs}
use maxtag.Delivery.Runs.Passes.{Passes}
use maxtag.Delivery.Runs.Requests.{
  Request, steers, claims, completes, starts, fails, asks_cancel, run, run-ended,
}
use maxtag.Delivery.Runs.Next.{schedule_next-serves}
use maxtag.Delivery.Runs.Once.{record_all, record_inbound_event-again}

abbrev thread : SourceThread
thread = record {
  id = text "t";
  platform = text "lark";
  external_id = text "chat";
  workspace_id = none;
  project_id = none;
  channel_id = none;
  root_message_id = none;
  topic_id = none;
  title = none;
  visibility = ThreadVisibility.public;
  permalink = none;
  metadata = none;
}

abbrev person : SourceActor
person = record { id = text "u"; display_name = none; platform_user_id = none; is_bot = none }

abbrev message : Text → SourceMessage
message id = record {
  id = id;
  thread_id = text "t";
  platform = text "lark";
  text = text "Hello";
  actor = person;
  created_at = 1;
  mentions_agent = true;
  reply_to_message_id = none;
  metadata = none;
}

abbrev input : Text → Text → CreateRunInput
input run_id message_id = record {
  run_id = run_id;
  thread = thread;
  message = some (message message_id);
  inbound_event_id = none;
  binding_id = none;
  executor_id = none;
  transport_mode = none;
  runtime_scope = none;
  metadata = none;
}

abbrev options : SteerOptions
options = record { allow_live_steering = none; force_new_run = false }

abbrev ids : ℕ → Text
ids n = (48 + n) ∷ []

abbrev empty : RunState
empty = record {
  next_steering_sequence = 1;
  next_event_sequence = 1;
  runs = [];
  events = [];
  steering = [];
  inbound = [];
}

abbrev history : List (ℕ × (ℕ → Text) × Request)
history =
    (10, ids, steers (input (text "r1") (text "m1")) options (text "s1"))
    ∷ (20, ids, claims none none 20)
    ∷ (30, ids, steers (input (text "r2") (text "m2")) options (text "s2"))
    ∷ []

-- The functions that a run computes with.
calls : Unit {0}
unfolding run create_agent_run create_agent_run_or_steer create_run_in enqueue_steering_in
    active_run_for_thread claim_each_run claim_queued_agent_runs update_agent_run
    mark_agent_run_running mark_agent_run_completed mark_agent_run_failed request_agent_run_cancel
    finish_continuation_in finish_inbound_in schedule_next_in append_event update_inbound_in merged
    same_thread same_runtime runtime_scope_for get_text set_field spread text text_eq option_eq
    sort_by record_inbound_event inbound_event_id trim_inbound
calls = tt

abbrev worked_on : RunState
worked_on = run empty history

abbrev finished : List (ℕ × (ℕ → Text) × Request)
finished = (40, ids, completes (text "r1") none) ∷ []

-- The second message waits while the first is worked on, and becomes the next run.
continued :
    (map {B = Text × AgentRunStatus} (λ r. (r.id, r.status)) worked_on.runs
      ≡ (text "r1", running) ∷ [])
    × (map {B = Text × AgentRunStatus} (λ r. (r.id, r.status)) (run worked_on finished).runs
        ≡ (text "r1", AgentRunStatus.completed) ∷ (text "steering:s2", queued) ∷ [])
unfolding calls
continued = (refl, refl)

-- A completion that comes after the request of a cancellation cancels; a start in between undoes the
-- request.
cancelled_or_not :
    (map
        (λ r. r.status)
        (run worked_on (
          (50, ids, asks_cancel (text "r1") none)
          ∷ (60, ids, completes (text "r1") none)
          ∷ [])).runs
      ≡ AgentRunStatus.cancelled ∷ queued ∷ [])
    × (map
          (λ r. r.status)
          (run worked_on (
            (50, ids, asks_cancel (text "r1") none)
            ∷ (55, ids, starts (text "r1") none 55)
            ∷ (60, ids, completes (text "r1") none)
            ∷ [])).runs
        ≡ AgentRunStatus.completed ∷ queued ∷ [])
unfolding calls
cancelled_or_not = (refl, refl)

abbrev over : RunState
over = run worked_on finished

abbrev done_run : AgentRun
done_run = record (new_run (input (text "r1") (text "m1")) 10) {
  status = AgentRunStatus.completed;
  started_at = some 20;
  claimed_at = some 20;
  completed_at = some 40;
  updated_at = 40;
}

run-ended_example :
    (q : AgentRun) × (get_elem? (run over ((70, ids, fails (text "r1") (text "e")) ∷ [])).runs 0
      ≡ some q)
    × (q.id ≡ text "r1")
    × (q.status ≡ AgentRunStatus.completed)
unfolding calls
run-ended_example =
    run-ended over ((70, ids, fails (text "r1") (text "e")) ∷ []) 0 done_run refl refl refl

abbrev scope : ThreadScope
scope = source_scope thread

-- The thread when its run has ended and the message still waits.
abbrev idle : RunState
idle = record worked_on { runs = done_run ∷ [] }

schedule_next-serves_example :
    let t = schedule_next_in 40 ids scope 40 idle in
    (any (is_active_in scope) t.runs ≡ true) ⊎ (any (is_waiting scope t.runs) t.steering ≡ false)
unfolding calls
schedule_next-serves_example = schedule_next-serves 40 ids scope 40 idle ((refl, λ _. refl), tt)

abbrev event : RecordInput
event = record {
  platform = text "lark";
  external_id = text "e 1";
  event_type = none;
  workspace_id = none;
  project_id = none;
  thread_id = none;
  message_id = some (text "m1");
  metadata = none;
}

event_id : inbound_event_id (text "lark") (text "e 1") ≡ text "lark:event:e_1"
unfolding calls
event_id = refl

-- Another event comes in between.
abbrev other_event : RecordInput
other_event = record event { external_id = text "e 2"; message_id = some (text "m2") }

record_inbound_event-again_example :
    let t = record_all ((other_event, 15) ∷ []) (record_inbound_event event 10 empty).0 in
    let (u, e, duplicate) = record_inbound_event event 20 t in
    (duplicate ≡ true) × (repeats event e ≡ true) × (length u.inbound ≡ length t.inbound)
record_inbound_event-again_example =
    record_inbound_event-again event 10 20 ((other_event, 15) ∷ []) empty (omega arith)
