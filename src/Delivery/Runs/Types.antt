-- ===== src/Delivery/Runs/Types.antt =====
-- packages/delivery/src/types.ts: the runs of agents, the messages that steer them, the events of their
-- timeline, and the events that come in from the platforms.
use maxtag.Base.{ℕ, Bool, true, false, Text, Option, List}
use maxtag.Delivery.Fields.{Fields}
use maxtag.Delivery.Types.{SourceThread, SourceMessage}

pub data AgentRunStatus : Type 0 where
  queued running cancel_requested completed failed cancelled : AgentRunStatus

pub data SteeringStatus : Type 0 where
  pending claimed scheduled applied failed cancelled : SteeringStatus

pub data SteeringMode : Type 0 where
  live next_turn : SteeringMode

pub data RuntimeScope : Type 0 where
  thread project : RuntimeScope

pub data InboundStatus : Type 0 where
  received processed ignored failed rejected : InboundStatus

pub data RunEventType : Type 0 where
  created started progress text_delta artifact memory_proposal memory_retrieval : RunEventType
  memory_analysis_started memory_analysis_completed memory_analysis_failed : RunEventType
  memory_query_started memory_query_completed memory_query_failed : RunEventType
  memory_wrapup_queued memory_wrapup_started memory_wrapup_completed memory_wrapup_retry :
      RunEventType
  memory_wrapup_failed tool_call tool_approval tool_result delegation log : RunEventType
  completed failed human_takeover cancel_requested cancelled : RunEventType
  steering_mode steering_queued steering_claimed steering_scheduled steering_applied : RunEventType
  steering_failed steering_cancelled : RunEventType
  thread_context_imported thread_context_import_failed : RunEventType
  usage_budget_denied usage_threshold_alert usage_recorded transcript_loaded : RunEventType
  session_started session_resumed session_invalidated : RunEventType
  thread_status memory_command routine_command : RunEventType

pub record AgentRun : Type 0 where
  pub id : Text
  pub status : AgentRunStatus
  pub platform : Text
  pub thread : Option SourceThread
  pub message : Option SourceMessage
  pub thread_id : Text
  pub thread_external_id : Text
  pub workspace_id : Option Text
  pub project_id : Option Text
  pub runtime_scope : Option RuntimeScope
  pub message_id : Option Text
  pub actor_id : Option Text
  pub binding_id : Option Text
  pub executor_id : Option Text
  pub transport_mode : Option Text
  pub title : Option Text
  pub inbound_event_id : Option Text
  pub worker_id : Option Text
  pub claimed_at : Option ℕ
  pub summary : Option Text
  pub last_error : Option Text
  pub created_at : ℕ
  pub started_at : Option ℕ
  pub completed_at : Option ℕ
  pub failed_at : Option ℕ
  pub cancel_requested_at : Option ℕ
  pub cancelled_at : Option ℕ
  pub updated_at : ℕ
  pub metadata : Option Fields

pub record RunEvent : Type 0 where
  pub id : Text
  pub sequence : ℕ
  pub run_id : Text
  pub type : RunEventType
  pub at : ℕ
  pub message : Option Text
  pub metadata : Option Fields

pub record CreateRunInput : Type 0 where
  pub run_id : Text
  pub thread : SourceThread
  pub message : Option SourceMessage
  pub inbound_event_id : Option Text
  pub binding_id : Option Text
  pub executor_id : Option Text
  pub transport_mode : Option Text
  pub runtime_scope : Option RuntimeScope
  pub metadata : Option Fields

pub record Steering : Type 0 where
  pub id : Text
  pub sequence : ℕ
  pub target_run_id : Text
  pub status : SteeringStatus
  pub mode : Option SteeringMode
  pub allow_live : Bool
  pub platform : Text
  pub thread : SourceThread
  pub message : SourceMessage
  pub thread_id : Text
  pub workspace_id : Option Text
  pub project_id : Option Text
  pub inbound_event_id : Option Text
  pub binding_id : Option Text
  pub executor_id : Option Text
  pub transport_mode : Option Text
  pub continuation_run_id : Option Text
  pub claimed_by : Option Text
  pub claimed_at : Option ℕ
  pub received_at : ℕ
  pub scheduled_at : Option ℕ
  pub applied_at : Option ℕ
  pub failed_at : Option ℕ
  pub cancelled_at : Option ℕ
  pub updated_at : ℕ
  pub last_error : Option Text
  pub metadata : Option Fields

pub record SteeringInput : Type 0 where
  pub message : SourceMessage
  pub inbound_event_id : Option Text
  pub binding_id : Option Text
  pub executor_id : Option Text
  pub transport_mode : Option Text
  pub allow_live_steering : Option Bool
  pub metadata : Option Fields

pub record InboundEvent : Type 0 where
  pub id : Text
  pub platform : Text
  pub external_id : Text
  pub status : InboundStatus
  pub duplicate_count : ℕ
  pub event_type : Option Text
  pub workspace_id : Option Text
  pub project_id : Option Text
  pub thread_id : Option Text
  pub message_id : Option Text
  pub received_at : ℕ
  pub processed_at : Option ℕ
  pub ignored_at : Option ℕ
  pub failed_at : Option ℕ
  pub rejected_at : Option ℕ
  pub reason : Option Text
  pub last_error : Option Text
  pub updated_at : ℕ
  pub metadata : Option Fields

-- The part of the delivery state that the runs and the inbound events are kept in.
pub record RunState : Type 0 where
  pub next_steering_sequence : ℕ
  pub next_event_sequence : ℕ
  pub runs : List AgentRun
  pub events : List RunEvent
  pub steering : List Steering
  pub inbound : List InboundEvent

abbrev pub run_status_eq : AgentRunStatus → AgentRunStatus → Bool
run_status_eq queued queued = true
run_status_eq running running = true
run_status_eq AgentRunStatus.cancel_requested AgentRunStatus.cancel_requested = true
run_status_eq AgentRunStatus.completed AgentRunStatus.completed = true
run_status_eq AgentRunStatus.failed AgentRunStatus.failed = true
run_status_eq AgentRunStatus.cancelled AgentRunStatus.cancelled = true
run_status_eq _ _ = false

abbrev pub steering_status_eq : SteeringStatus → SteeringStatus → Bool
steering_status_eq pending pending = true
steering_status_eq claimed claimed = true
steering_status_eq scheduled scheduled = true
steering_status_eq applied applied = true
steering_status_eq SteeringStatus.failed SteeringStatus.failed = true
steering_status_eq SteeringStatus.cancelled SteeringStatus.cancelled = true
steering_status_eq _ _ = false

abbrev pub inbound_status_eq : InboundStatus → InboundStatus → Bool
inbound_status_eq received received = true
inbound_status_eq processed processed = true
inbound_status_eq ignored ignored = true
inbound_status_eq InboundStatus.failed InboundStatus.failed = true
inbound_status_eq rejected rejected = true
inbound_status_eq _ _ = false
