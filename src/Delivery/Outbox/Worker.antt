-- ===== src/Delivery/Outbox/Worker.antt =====
-- packages/delivery/src/outbox-worker.ts: one pass of the worker over the outbox. The transport that sends
-- an envelope is the parameter `dispatch`, which answers the external id or the error that it throws. Each
-- call of the store loads the state first and reads the clock once.
pub mod Settles
use maxtag.Base.{
  ℕ, suc, ◌+◌, ◌≡◌, ◌≢◌, refl, sym, subst, ◌∙◌, inl, inr, Bool, true, false, Text, text_eq,
  text_eq_iff, List, [], ◌∷◌, Option, none, some, find, update_first, All, All-imp,
  All-update_first, All-tabulate, Memᴰ, All-mem, Bool-cases, Option-cases, Result, ok, err,
  Result-cases, length, if◌then◌else◌, arith,
}
use maxtag.Delivery.Outbox.Types.{
  OutboundStatus, sending, OutboundEnvelope, ClaimOptions, OutboxState, outbound_status_eq,
}
use maxtag.Delivery.Outbox.Targets.{with_id}
use maxtag.Delivery.Outbox.{
  claim_ready_outbox, deliver, mark_delivered, is_exhausted, fail, mark_failed,
}
use maxtag.Delivery.Outbox.Load.{normalize_outbox}
use maxtag.Delivery.Outbox.Loaded.{normalize_outbox-IsConsistent, All-normalize_outbox}
use maxtag.Delivery.Outbox.Mirror.{Envelopes}
use maxtag.Delivery.Outbox.Consistent.{IsConsistent}
use maxtag.Delivery.Outbox.Steps.{
  Reachable, loads, claims, reachable-IsConsistent, claim_ready-IsConsistent,
  mark_delivered-IsConsistent, mark_failed-IsConsistent,
}

pub record PassResult : Type 0 where
  pub claimed : ℕ
  pub delivered : ℕ
  pub failed : ℕ
  pub retried : ℕ

-- `updated?.status === 'failed'`
abbrev pub has_failed : Option OutboundEnvelope → Bool
has_failed none = false
has_failed (some e) = outbound_status_eq e.status OutboundStatus.failed

-- A transport: the external id, if it gives one, or the message of its error.
abbrev pub Dispatch : Type 0
Dispatch = OutboundEnvelope → Result Text (Option Text)

abbrev pub counted_failure : Bool → PassResult → PassResult
counted_failure gave_up result =
    if gave_up
    then record result { failed = result.failed + 1 }
    else record result { retried = result.retried + 1 }

module _ (dispatch : Dispatch) (now : ℕ → ℕ) where
  unfoldable pub deliver_one :
      ℕ → OutboundEnvelope → OutboxState → PassResult → OutboxState × PassResult
  deliver_one i e s result = elim (dispatch e) [
    | ok external ↦ (
      (mark_delivered e.id external (now i) (normalize_outbox s)).0,
      record result { delivered = result.delivered + 1 },
    )
    | err message ↦
        let (t, updated) = mark_failed e.id message (now i) (normalize_outbox s) in
        (t, counted_failure (has_failed updated) result)
  ]

  -- The i-th call of the store in the pass, counted from 0, reads `now i`.
  unfoldable pub deliver_each :
      ℕ → List OutboundEnvelope → OutboxState → PassResult → OutboxState × PassResult
  unfolding deliver_one
  deliver_each i [] s result = (s, result)
  deliver_each i (e ∷ es) s result =
      let (t, counted) = deliver_one i e s result in deliver_each (suc i) es t counted

  unfoldable pub run_delivery_worker_pass : Option ℕ → OutboxState → OutboxState × PassResult
  unfolding deliver_each
  run_delivery_worker_pass limit s =
      let (t, records) =
        claim_ready_outbox (record { limit = limit; now = none }) (now 0) (normalize_outbox s) in
      deliver_each 1 records t
        (record { claimed = length records; delivered = 0; failed = 0; retried = 0 })
