-- ===== src/Delivery/Runs/Steer.antt =====
-- packages/delivery/src/file-delivery-store.ts: a message to a thread creates a run, or steers the one that
-- is active there.
use maxtag.Base.{
  ℕ, Bool, true, false, ◌&&◌, ◌||◌, not, Text, text_eq, option_eq, is_truthy, Option, none, some,
  if◌then◌else◌, leb, filter, find, sort_by, Result, ok, err,
}
use maxtag.Delivery.Types.{
  SourceThread, SourceMessage, DeliveryError, steering_target_missing_thread,
}
use maxtag.Delivery.Runs.Types.{
  running, AgentRun, CreateRunInput, Steering, SteeringInput, RunState,
}
use maxtag.Delivery.Runs.Threads.{with_status, is_active_run_status, ThreadScope, same_thread}
use maxtag.Delivery.Runs.Create.{with_run_id, create_run_in, enqueue_steering_in, message_id_of}
use maxtag.Delivery.Runs.Continue.{is_active_in}

-- Running runs come first, then older ones.
abbrev pub before_run : AgentRun → AgentRun → Bool
before_run a b =
    if with_status running a && not (with_status running b)
    then true
    else if with_status running b && not (with_status running a)
    then false
    else leb a.created_at b.created_at

unfoldable pub active_run_for_thread : RunState → ThreadScope → Option AgentRun
unfolding same_thread
active_run_for_thread s scope =
    find (λ _. true) (sort_by before_run (filter (is_active_in scope) s.runs))

-- A message that was already taken, by its event or by its id in the thread.
abbrev pub is_duplicate : Text → Text → Option Text → Option Text → Steering → Bool
is_duplicate platform thread_id message_id inbound_event_id st =
    is_truthy inbound_event_id && option_eq st.inbound_event_id inbound_event_id
    || is_truthy message_id
      && text_eq st.platform platform
      && text_eq st.thread_id thread_id
      && option_eq (some st.message.id) message_id

abbrev pub find_duplicate_steering :
    RunState → SourceThread → Option SourceMessage → Option Text → Option Steering
find_duplicate_steering s source message inbound_event_id =
    find (is_duplicate source.platform source.id (message_id_of message) inbound_event_id)
      s.steering

abbrev pub source_scope : SourceThread → ThreadScope
source_scope source = record {
  platform = source.platform;
  thread_id = source.id;
  workspace_id = source.workspace_id;
  project_id = source.project_id;
}

-- What `createAgentRunOrSteer` returns: a run that was created, or one that a message steers.
pub data Disposition : Type 0 where
  created : AgentRun → Disposition
  steered : AgentRun → Steering → Disposition

pub record SteerOptions : Type 0 where
  pub allow_live_steering : Option Bool
  pub force_new_run : Bool

abbrev pub steering_input : CreateRunInput → SteerOptions → SourceMessage → SteeringInput
steering_input input options message = record {
  message = message;
  inbound_event_id = input.inbound_event_id;
  binding_id = input.binding_id;
  executor_id = input.executor_id;
  transport_mode = input.transport_mode;
  allow_live_steering = options.allow_live_steering;
  metadata = input.metadata;
}

-- The changes below read the clock as `at` and take the random ids of the events from `ids`; where the
-- source lets the caller give the time of the write, it is `time`.
module _ (at : ℕ) (ids : ℕ → Text) where
  unfoldable pub create_agent_run : CreateRunInput → RunState → RunState × AgentRun
  unfolding create_run_in
  create_agent_run input s = create_run_in at ids input at s

  abbrev pub created_in : RunState × AgentRun → Result DeliveryError (RunState × Disposition)
  created_in (t, r) = ok (t, created r)

  abbrev pub steered_in :
      AgentRun → RunState × Steering → Result DeliveryError (RunState × Disposition)
  steered_in r (t, st) = ok (t, steered r st)

  -- With an active run in the thread the message steers that run, unless a new one is forced.
  abbrev pub create_or_steer_new :
      CreateRunInput
      → SteerOptions
      → Text
      → RunState
      → Result DeliveryError (RunState × Disposition)
  create_or_steer_new input options uuid s =
      let active =
        if options.force_new_run
        then none
        else active_run_for_thread s (source_scope input.thread) in
      elim active [
        | none ↦ created_in (create_run_in at ids input at s)
        | some r ↦ elim input.message [
          | none ↦ created_in (create_run_in at ids input at s)
          | some message ↦ elim r.thread [
            | none ↦ err steering_target_missing_thread
            | some source ↦
                steered_in r (
                  enqueue_steering_in at ids r source (steering_input input options message) uuid s)
          ]
        ]
      ]

  unfoldable pub create_agent_run_or_steer :
      CreateRunInput
      → SteerOptions
      → Text
      → RunState
      → Result DeliveryError (RunState × Disposition)
  unfolding create_run_in enqueue_steering_in active_run_for_thread
  create_agent_run_or_steer input options uuid s = elim (find (with_run_id input.run_id) s.runs) [
    | some existing ↦ ok (s, created existing)
    | none ↦ elim (find_duplicate_steering s input.thread input.message input.inbound_event_id) [
      | none ↦ create_or_steer_new input options uuid s
      | some st ↦ elim (find (with_run_id st.target_run_id) s.runs) [
        | none ↦ create_or_steer_new input options uuid s
        | some target ↦ ok (s, steered target st)
      ]
    ]
  ]

  abbrev pub some_steering : RunState × Steering → RunState × Option Steering
  some_steering (t, st) = (t, some st)

  unfoldable pub enqueue_agent_run_steering :
      Text → SteeringInput → Text → RunState → RunState × Option Steering
  unfolding enqueue_steering_in
  enqueue_agent_run_steering target_id input uuid s = elim (find (with_run_id target_id) s.runs) [
    | none ↦ (s, none)
    | some target ↦ elim target.thread [
      | none ↦ (s, none)
      | some source ↦
          if not (is_active_run_status target.status)
          then (s, none)
          else elim (find_duplicate_steering s source (some input.message) input.inbound_event_id) [
            | some st ↦ (s, some st)
            | none ↦ some_steering (enqueue_steering_in at ids target source input uuid s)
          ]
    ]
  ]
