-- ===== src/Delivery/Runs/Create.antt =====
-- packages/delivery/src/file-delivery-store.ts: runs are created, and messages wait for them.
use maxtag.Base.{
  ℕ, ◌+◌, Bool, true, ◌&&◌, Text, text, text_eq, is_truthy, List, [], ◌∷◌, ◌++◌, Option, none, some,
  or_else, or_option, if◌then◌else◌, find, update_first,
}
use maxtag.Delivery.Fields.{str, flag, str_or_undefined, end, field}
use maxtag.Delivery.Types.{SourceThread, SourceActor, SourceMessage}
use maxtag.Delivery.Runs.Types.{
  queued, pending, RuntimeScope, thread, project, created, steering_queued, AgentRun,
  CreateRunInput, Steering, SteeringInput, InboundEvent, RunState,
}
use maxtag.Delivery.Runs.Inbound.{append_event, with_inbound_id, merged}

abbrev pub with_run_id : Text → AgentRun → Bool
with_run_id id r = text_eq r.id id

abbrev pub with_steering_id : Text → Steering → Bool
with_steering_id id st = text_eq st.id id

-- `input.runtimeScope || (thread.workspaceId && thread.projectId ? 'project' : 'thread')`
abbrev pub chosen_scope : CreateRunInput → RuntimeScope
chosen_scope input = or_else input.runtime_scope (
    if is_truthy input.thread.workspace_id && is_truthy input.thread.project_id
    then project
    else thread)

abbrev pub scope_name : RuntimeScope → Text
scope_name thread = text "thread"
scope_name project = text "project"

abbrev pub message_id_of : Option SourceMessage → Option Text
message_id_of none = none
message_id_of (some m) = some m.id

abbrev pub actor_id_of : Option SourceMessage → Option Text
actor_id_of none = none
actor_id_of (some m) = some m.actor.id

abbrev pub new_run : CreateRunInput → ℕ → AgentRun
new_run input time = record {
  id = input.run_id;
  status = queued;
  platform = input.thread.platform;
  thread = some input.thread;
  message = input.message;
  thread_id = input.thread.id;
  thread_external_id = input.thread.external_id;
  workspace_id = input.thread.workspace_id;
  project_id = input.thread.project_id;
  runtime_scope = some (chosen_scope input);
  message_id = message_id_of input.message;
  actor_id = actor_id_of input.message;
  binding_id = input.binding_id;
  executor_id = input.executor_id;
  transport_mode = input.transport_mode;
  title = input.thread.title;
  inbound_event_id = input.inbound_event_id;
  worker_id = none;
  claimed_at = none;
  summary = none;
  last_error = none;
  created_at = time;
  started_at = none;
  completed_at = none;
  failed_at = none;
  cancel_requested_at = none;
  cancelled_at = none;
  updated_at = time;
  metadata = input.metadata;
}

-- `displayName || id`
abbrev pub actor_name : SourceActor → Text
actor_name actor = if is_truthy actor.display_name then or_else actor.display_name [] else actor.id

-- The changes below read the clock as `at` and take the random ids of the events from `ids`.
module _ (at : ℕ) (ids : ℕ → Text) where
  unfoldable pub create_run_in : CreateRunInput → ℕ → RunState → RunState × AgentRun
  unfolding append_event
  create_run_in input time s =
      let r = new_run input time in
      let details = field (text "threadId") (str input.thread.id) (
        field (text "messageId") (str_or_undefined (message_id_of input.message)) (
          field (text "bindingId") (str_or_undefined input.binding_id)
            (field (text "runtimeScope") (str (scope_name (chosen_scope input))) end))) in
      elim (find (with_run_id input.run_id) s.runs) [
        | some existing ↦ (s, existing)
        | none ↦ (
          append_event at ids input.run_id created (some (text "Agent run created")) (some details)
              (record s { runs = s.runs ++ r ∷ [] }),
          r,
        )
      ]

  abbrev pub new_steering : AgentRun → SourceThread → SteeringInput → Text → RunState → Steering
  new_steering target source input uuid s = record {
    id = uuid;
    sequence = s.next_steering_sequence;
    target_run_id = target.id;
    status = pending;
    mode = none;
    allow_live = or_else input.allow_live_steering true;
    platform = target.platform;
    thread = source;
    message = record input.message { thread_id = source.id };
    thread_id = target.thread_id;
    workspace_id = target.workspace_id;
    project_id = target.project_id;
    inbound_event_id = input.inbound_event_id;
    binding_id = or_option input.binding_id target.binding_id;
    executor_id = or_option input.executor_id target.executor_id;
    transport_mode = or_option input.transport_mode target.transport_mode;
    continuation_run_id = none;
    claimed_by = none;
    claimed_at = none;
    received_at = at;
    scheduled_at = none;
    applied_at = none;
    failed_at = none;
    cancelled_at = none;
    updated_at = at;
    last_error = none;
    metadata = input.metadata;
  }

  abbrev pub link_inbound : AgentRun → Steering → InboundEvent → InboundEvent
  link_inbound target st e = record e {
    workspace_id = or_option st.workspace_id e.workspace_id;
    project_id = or_option st.project_id e.project_id;
    thread_id = some st.thread_id;
    message_id = some st.message.id;
    metadata = merged e.metadata (
        some (
          field (text "steeringId") (str st.id)
            (field (text "steeringTargetRunId") (str target.id) end)));
    updated_at = at;
  }

  abbrev pub linked : AgentRun → Steering → List InboundEvent → List InboundEvent
  linked target st events =
      if is_truthy st.inbound_event_id
      then update_first (with_inbound_id (or_else st.inbound_event_id [])) (link_inbound target st)
          events
      else events

  -- The message waits for the target, whose thread is given.
  unfoldable pub enqueue_steering_in :
      AgentRun → SourceThread → SteeringInput → Text → RunState → RunState × Steering
  unfolding append_event merged
  enqueue_steering_in target source input uuid s =
      let st = new_steering target source input uuid s in
      let details = field (text "steeringId") (str st.id) (
        field (text "messageId") (str st.message.id) (
          field (text "actorId") (str st.message.actor.id)
            (field (text "allowLive") (flag st.allow_live) end))) in
      let t =
        append_event at ids target.id steering_queued
          (some (text "Follow-up queued from " ++ actor_name st.message.actor)) (some details)
          (record s {
            next_steering_sequence = s.next_steering_sequence + 1;
            steering = s.steering ++ st ∷ [];
          }) in
      (record t { inbound = linked target st t.inbound }, st)
