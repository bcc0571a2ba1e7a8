-- ===== src/Routine/Types.antt =====
-- packages/routines/src/types.ts. A stored timestamp is written by `Date.toISOString`; it stands
-- here as the milliseconds since 1970 that it denotes. Texts of that form, of the years up to 9999,
-- are ordered and told apart as those numbers are, which is all that the store does with them; where
-- a timestamp becomes part of another text it is printed (`Schedule.Host.iso`).
use maxtag.Base.{ℕ, Bool, true, false, Text, Option, List}

pub data RoutineSchedule : Type 0 where
  once : (at : Text) → RoutineSchedule
  interval : (every_minutes : ℕ) → RoutineSchedule
  daily : (time time_zone : Text) → RoutineSchedule

pub data ThreadVisibility : Type 0 where
  public private direct : ThreadVisibility

pub record RoutineDestination : Type 0 where
  pub platform : Text
  pub external_id : Text
  pub channel_id : Option Text
  pub thread_id : Option Text
  pub root_message_id : Option Text
  pub topic_id : Option Text
  pub visibility : ThreadVisibility
  pub title : Option Text

pub data NotificationMode : Type 0 where
  every_result failures_only silent : NotificationMode

pub record NotificationPolicy : Type 0 where
  pub mode : NotificationMode
  pub failure_threshold : ℕ
  pub recovery : Bool

pub record Routine : Type 0 where
  pub id : Text
  pub workspace_id : Text
  pub project_id : Option Text
  pub name : Text
  pub instructions : Text
  pub enabled : Bool
  pub schedule : RoutineSchedule
  pub notifications : NotificationPolicy
  pub destination : RoutineDestination
  pub next_run_at : Option ℕ
  pub last_scheduled_at : Option ℕ
  pub created_at : ℕ
  pub updated_at : ℕ
  pub created_by : Option Text
  pub updated_by : Option Text
  pub deleted_at : Option ℕ

pub data ExecutionTrigger : Type 0 where
  scheduled manual : ExecutionTrigger

pub data ExecutionStatus : Type 0 where
  pending claimed queued running completed failed cancelled : ExecutionStatus

pub record Execution : Type 0 where
  pub id : Text
  pub routine_id : Text
  pub routine : Routine
  pub trigger : ExecutionTrigger
  pub dedup_key : Text
  pub scheduled_for : ℕ
  pub status : ExecutionStatus
  pub attempts : ℕ
  pub claimer_id : Option Text
  pub claimed_at : Option ℕ
  pub run_id : Option Text
  pub summary : Option Text
  pub error : Option Text
  pub created_at : ℕ
  pub updated_at : ℕ
  pub completed_at : Option ℕ

pub record ExecutionDigest : Type 0 where
  pub id : Text
  pub status : ExecutionStatus
  pub trigger : ExecutionTrigger
  pub scheduled_for : ℕ
  pub attempts : ℕ
  pub run_id : Option Text
  pub summary : Option Text
  pub error : Option Text
  pub updated_at : ℕ
  pub completed_at : Option ℕ

pub data NotificationKind : Type 0 where
  failure recovery : NotificationKind

pub data NotificationStatus : Type 0 where
  pending claimed delivered failed cancelled : NotificationStatus

pub record Notification : Type 0 where
  pub id : Text
  pub routine_id : Text
  pub execution_id : Text
  pub routine : Routine
  pub run_id : Option Text
  pub kind : NotificationKind
  pub status : NotificationStatus
  pub consecutive_failures : ℕ
  pub message : Text
  pub attempts : ℕ
  pub next_attempt_at : ℕ
  pub claimer_id : Option Text
  pub claimed_at : Option ℕ
  pub last_error : Option Text
  pub created_at : ℕ
  pub updated_at : ℕ
  pub delivered_at : Option ℕ

pub data AuditAction : Type 0 where
  routine_created routine_updated routine_deleted routine_triggered : AuditAction

pub record AuditRecord : Type 0 where
  pub id : Text
  pub action : AuditAction
  pub routine_id : Text
  pub workspace_id : Text
  pub project_id : Option Text
  pub actor : Text
  pub at : ℕ
  pub snapshot : Routine

pub record RoutineState : Type 0 where
  pub routines : List Routine
  pub executions : List Execution
  pub notifications : List Notification
  pub audit : List AuditRecord

-- `Partial<RoutineNotificationPolicy>`. A threshold below 1, or one that is no integer, is `some 0`:
-- the normalisation takes each of these to 1.
pub record PolicyInput : Type 0 where
  pub mode : Option NotificationMode
  pub failure_threshold : Option ℕ
  pub recovery : Option Bool

pub record UpsertInput : Type 0 where
  pub id : Option Text
  pub workspace_id : Text
  pub project_id : Option Text
  pub name : Text
  pub instructions : Text
  pub enabled : Option Bool
  pub schedule : RoutineSchedule
  pub notifications : Option PolicyInput
  pub destination : RoutineDestination
  pub actor : Option Text

-- The errors that the routine code throws.
pub data RoutineError : Type 0 where
  routine_once_at_must_be_iso_timestamp : RoutineError
  routine_interval_minutes_must_be_between_1_and_43200 : RoutineError
  routine_daily_time_must_be_hh_mm : RoutineError
  routine_invalid_time_zone : Text → RoutineError
  routine_workspace_required routine_name_required : RoutineError
  routine_instructions_required routine_destination_required : RoutineError
  routine_not_found routine_once_at_must_be_in_future : RoutineError
  routine_once_already_elapsed : RoutineError
  -- the RangeError of `toISOString` on an invalid date
  invalid_time_value : RoutineError
  routine_execution_digest_maximum_is_50_routines : RoutineError

-- Equality of the enumerations, for `===`.
abbrev pub visibility_eq : ThreadVisibility → ThreadVisibility → Bool
visibility_eq public public = true
visibility_eq private private = true
visibility_eq direct direct = true
visibility_eq _ _ = false

abbrev pub mode_eq : NotificationMode → NotificationMode → Bool
mode_eq every_result every_result = true
mode_eq failures_only failures_only = true
mode_eq silent silent = true
mode_eq _ _ = false

abbrev pub bool_eq : Bool → Bool → Bool
bool_eq true true = true
bool_eq false false = true
bool_eq _ _ = false

abbrev pub execution_status_eq : ExecutionStatus → ExecutionStatus → Bool
execution_status_eq ExecutionStatus.pending ExecutionStatus.pending = true
execution_status_eq ExecutionStatus.claimed ExecutionStatus.claimed = true
execution_status_eq queued queued = true
execution_status_eq running running = true
execution_status_eq completed completed = true
execution_status_eq ExecutionStatus.failed ExecutionStatus.failed = true
execution_status_eq ExecutionStatus.cancelled ExecutionStatus.cancelled = true
execution_status_eq _ _ = false

abbrev pub notification_status_eq : NotificationStatus → NotificationStatus → Bool
notification_status_eq NotificationStatus.pending NotificationStatus.pending = true
notification_status_eq NotificationStatus.claimed NotificationStatus.claimed = true
notification_status_eq delivered delivered = true
notification_status_eq NotificationStatus.failed NotificationStatus.failed = true
notification_status_eq NotificationStatus.cancelled NotificationStatus.cancelled = true
notification_status_eq _ _ = false
