-- ===== src/Delivery/Types.antt =====
-- packages/core/src/types.ts and packages/delivery/src/types.ts: threads, messages, and the approvals
-- of tool calls. A timestamp is its number of milliseconds since 1970, as in Routine/Types.
use maxtag.Base.{ℕ, Bool, true, false, Text, option_eq, Option, none, some, []}
use maxtag.Routine.Types.{ThreadVisibility}
use maxtag.Delivery.Fields.{Fields}

pub record SourceThread : Type 0 where
  pub id : Text
  pub platform : Text
  pub external_id : Text
  pub workspace_id : Option Text
  pub project_id : Option Text
  pub channel_id : Option Text
  pub root_message_id : Option Text
  pub topic_id : Option Text
  pub title : Option Text
  pub visibility : ThreadVisibility
  pub permalink : Option Text
  pub metadata : Option Fields

pub record SourceActor : Type 0 where
  pub id : Text
  pub display_name : Option Text
  pub platform_user_id : Option Text
  pub is_bot : Option Bool

-- The attachments, which the store copies unread, are left out.
pub record SourceMessage : Type 0 where
  pub id : Text
  pub thread_id : Text
  pub platform : Text
  pub text : Text
  pub actor : SourceActor
  pub created_at : ℕ
  pub mentions_agent : Bool
  pub reply_to_message_id : Option Text
  pub metadata : Option Fields

pub data ApprovalStatus : Type 0 where
  pending approved executing succeeded failed rejected expired : ApprovalStatus

pub data ContinuationStatus : Type 0 where
  pending scheduled : ContinuationStatus

pub record ToolApproval : Type 0 where
  pub id : Text
  pub status : ApprovalStatus
  pub run_id : Text
  pub tool_call_id : Text
  pub tool_name : Text
  pub title : Text
  pub grant_kind : Text
  pub risk : Text
  pub arguments : Fields
  pub argument_summary : Fields
  pub argument_digest : Text
  pub credential_identity_id : Option Text
  pub credential_identity_revision : Option ℕ
  pub external_actor : Option Text
  pub platform : Text
  pub thread : SourceThread
  pub thread_id : Text
  pub workspace_id : Option Text
  pub project_id : Option Text
  pub channel_id : Option Text
  pub requested_by : Text
  pub requested_at : ℕ
  pub expires_at : ℕ
  pub approved_at : Option ℕ
  pub approved_by : Option Text
  pub rejected_at : Option ℕ
  pub rejected_by : Option Text
  pub claimed_at : Option ℕ
  pub claimed_by : Option Text
  pub completed_at : Option ℕ
  pub failed_at : Option ℕ
  pub result_preview : Option Text
  pub result_url : Option Text
  pub error : Option Text
  pub continuation_status : Option ContinuationStatus
  pub continuation_run_id : Option Text
  pub continuation_scheduled_at : Option ℕ

pub record ProposeInput : Type 0 where
  pub run_id : Text
  pub tool_call_id : Text
  pub tool_name : Text
  pub title : Text
  pub grant_kind : Text
  pub risk : Text
  pub arguments : Fields
  pub argument_summary : Fields
  pub argument_digest : Text
  pub credential_identity_id : Option Text
  pub credential_identity_revision : Option ℕ
  pub external_actor : Option Text
  pub thread : SourceThread
  pub requested_by : Text
  pub ttl_ms : Option ℕ

abbrev pub approval_status_eq : ApprovalStatus → ApprovalStatus → Bool
approval_status_eq ApprovalStatus.pending ApprovalStatus.pending = true
approval_status_eq approved approved = true
approval_status_eq executing executing = true
approval_status_eq succeeded succeeded = true
approval_status_eq failed failed = true
approval_status_eq rejected rejected = true
approval_status_eq expired expired = true
approval_status_eq _ _ = false

-- The errors that the delivery store throws.
pub data DeliveryError : Type 0 where
  tool_approval_not_found : DeliveryError
  tool_approval_not_pending tool_approval_not_rejectable : ApprovalStatus → DeliveryError
  tool_approval_not_succeeded : ApprovalStatus → DeliveryError
  tool_approval_claim_lost : DeliveryError
  steering_target_missing_thread : DeliveryError

-- A filter with an optional value: `!wanted || item === wanted`.
abbrev pub allows : Option Text → Option Text → Bool
allows none value = true
allows (some []) value = true
allows (some wanted) value = option_eq value (some wanted)
