-- ===== src/Delivery/Outbox/Types.antt =====
-- packages/delivery/src/types.ts: the envelopes that wait to be sent, and the record that a run keeps
-- of each envelope that it sends.
use maxtag.Base.{ℕ, Bool, true, false, Text, Option, List}
use maxtag.Delivery.Fields.{Fields}
use maxtag.Delivery.Types.{SourceThread}

pub data OutboundStatus : Type 0 where
  pending sending delivered failed cancelled : OutboundStatus

pub data TurnDeliveryStatus : Type 0 where
  queued accepted completed failed cancelled : TurnDeliveryStatus

pub record OutboundTarget : Type 0 where
  pub platform : Text
  pub chat_id : Option Text
  pub topic_id : Option Text
  pub card_id : Option Text
  pub root_id : Option Text
  pub reply_to_message_id : Option Text

pub record OutboundEnvelope : Type 0 where
  pub id : Text
  pub sequence : ℕ
  pub kind : Text
  pub target : OutboundTarget
  pub payload : Fields
  pub status : OutboundStatus
  pub attempts : ℕ
  pub max_attempts : ℕ
  pub next_attempt_at : ℕ
  pub run_id : Option Text
  pub thread_id : Option Text
  pub workspace_id : Option Text
  pub project_id : Option Text
  pub external_id : Option Text
  pub last_error : Option Text
  pub created_at : ℕ
  pub updated_at : ℕ

pub record CreateOutboundInput : Type 0 where
  pub kind : Text
  pub target : OutboundTarget
  pub payload : Fields
  pub run_id : Option Text
  pub thread : Option SourceThread
  pub max_attempts : Option ℕ

pub record ClaimOptions : Type 0 where
  pub limit : Option ℕ
  pub now : Option ℕ

pub record OutboxScope : Type 0 where
  pub run_id : Option Text
  pub thread_id : Option Text
  pub workspace_id : Option Text
  pub project_id : Option Text
  pub target_id : Option Text
  pub kind : Option Text

pub record RecoverOptions : Type 0 where
  pub scope : OutboxScope
  pub older_than_ms : Option ℕ
  pub now : Option ℕ
  pub limit : Option ℕ
  pub reason : Option Text

pub record RecoverResult : Type 0 where
  pub requeued : ℕ
  pub failed : ℕ
  pub records : List OutboundEnvelope

pub record CancelOptions : Type 0 where
  pub scope : OutboxScope
  pub reason : Option Text
  pub limit : Option ℕ

pub record CancelResult : Type 0 where
  pub cancelled : ℕ
  pub records : List OutboundEnvelope

pub record TurnDelivery : Type 0 where
  pub id : Text
  pub run_id : Text
  pub outbox_id : Text
  pub kind : Text
  pub platform : Text
  pub thread_id : Option Text
  pub workspace_id : Option Text
  pub project_id : Option Text
  pub target_id : Text
  pub status : TurnDeliveryStatus
  pub queued_at : ℕ
  pub accepted_at : Option ℕ
  pub completed_at : Option ℕ
  pub failed_at : Option ℕ
  pub last_error : Option Text
  pub updated_at : ℕ

-- The part of the delivery state that the operations of the outbox read and write.
pub record OutboxState : Type 0 where
  pub next_sequence : ℕ
  pub outbox : List OutboundEnvelope
  pub turns : List TurnDelivery

abbrev pub outbound_status_eq : OutboundStatus → OutboundStatus → Bool
outbound_status_eq pending pending = true
outbound_status_eq sending sending = true
outbound_status_eq delivered delivered = true
outbound_status_eq OutboundStatus.failed OutboundStatus.failed = true
outbound_status_eq OutboundStatus.cancelled OutboundStatus.cancelled = true
outbound_status_eq _ _ = false

abbrev pub turn_status_eq : TurnDeliveryStatus → TurnDeliveryStatus → Bool
turn_status_eq queued queued = true
turn_status_eq accepted accepted = true
turn_status_eq completed completed = true
turn_status_eq TurnDeliveryStatus.failed TurnDeliveryStatus.failed = true
turn_status_eq TurnDeliveryStatus.cancelled TurnDeliveryStatus.cancelled = true
turn_status_eq _ _ = false
