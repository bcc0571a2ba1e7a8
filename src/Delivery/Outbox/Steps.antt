-- ===== src/Delivery/Outbox/Steps.antt =====
-- The states of the outbox that the operations reach from the empty one, and what holds of them.
use maxtag.Base.{
  ℕ, ◌≡◌, refl, inl, inr, Text, text, [], Option, none, some, or_else, arith, Bool-cases,
  Option-cases, find, clamp, tag, sort_by, References-sort_by,
}
use maxtag.Delivery.Outbox.Types.{
  OutboundStatus, accepted, completed, queued, TurnDeliveryStatus, OutboundEnvelope,
  CreateOutboundInput, OutboxState, outbound_status_eq, ClaimOptions, RecoverOptions, CancelOptions,
}
use maxtag.Delivery.Outbox.Targets.{with_id, has_outbox_scope}
use maxtag.Delivery.Outbox.{
  cancel, enqueue, send, mark_sending, deliver, mark_delivered, is_exhausted, fail,
  failed_or_queued, mark_failed, by_sequence, claim_ready_outbox, requeue, retry_failed_outbox,
  recover, is_stale, recover_stale_outbox, is_cancellable, cancel_outbox,
}
use maxtag.Delivery.Outbox.Load.{normalize_outbox}
use maxtag.Delivery.Outbox.Loaded.{normalize_outbox-IsConsistent}
use maxtag.Delivery.Outbox.Mirror.{shown}
use maxtag.Delivery.Outbox.Enqueue.{IsNew, cancel-IsWrite, enqueue-IsConsistent}
use maxtag.Delivery.Outbox.Consistent.{
  HasTries, IsConsistent, write_envelope-IsConsistent, sweep-IsConsistent, claim_each-IsConsistent,
}
use maxtag.Delivery.Outbox.Pruned.{prune_workspace_data-IsConsistent}
use maxtag.Delivery.Pruning.{DeliveryState, PruneOptions, prune_workspace_data}

-- The outbox of `createEmptyDeliveryState`
abbrev pub empty_outbox : OutboxState
empty_outbox = record { next_sequence = 1; outbox = []; turns = [] }

-- The operations in any order, at any times; a random id is a new one.
pub data Reachable : OutboxState → Type 0 where
  starts : Reachable empty_outbox
  loads : {s : OutboxState} → Reachable s → Reachable (normalize_outbox s)
  enqueues :
      {s : OutboxState} (input : CreateOutboundInput) (at : ℕ) (uuid : Text)
      → IsNew uuid s
      → Reachable s
      → Reachable (enqueue input at uuid s).0
  sends : {s : OutboxState} (id : Text) (at : ℕ) → Reachable s → Reachable (mark_sending id at s).0
  delivers :
      {s : OutboxState} (id : Text) (external : Option Text) (at : ℕ)
      → Reachable s
      → Reachable (mark_delivered id external at s).0
  fails :
      {s : OutboxState} (id error : Text) (at : ℕ)
      → Reachable s
      → Reachable (mark_failed id error at s).0
  claims :
      {s : OutboxState} (options : ClaimOptions) (at : ℕ)
      → Reachable s
      → Reachable (claim_ready_outbox options at s).0
  retries :
      {s : OutboxState} (id : Text) (at : ℕ)
      → Reachable s
      → Reachable (retry_failed_outbox id at s).0
  recovers :
      {s : OutboxState} (options : RecoverOptions) (at : ℕ)
      → Reachable s
      → Reachable (recover_stale_outbox options at s).0
  cancels :
      {s : OutboxState} (options : CancelOptions) (at : ℕ)
      → Reachable s
      → Reachable (cancel_outbox options at s).0
  prunes :
      (options : PruneOptions) (at : ℕ) (d : DeliveryState)
      → Reachable d.outbox
      → Reachable (prune_workspace_data options at d).outbox

mark_sending-IsConsistent :
    (id : Text) (at : ℕ) (s : OutboxState) → IsConsistent s → IsConsistent (mark_sending id at s).0
unfolding mark_sending
mark_sending-IsConsistent id at s v = elim (Option-cases (find (with_id id) s.outbox)) [
  | inl absent ↦ rw (absent, mark_sending) v
  | inr (e, found) ↦
      rw (found, mark_sending)
        (write_envelope-IsConsistent (send at) (record { id = λ x. refl; sequence = λ x. refl }) id
          accepted none at s e found refl (λ h waits. cc) v)
]

pub mark_delivered-IsConsistent :
    (id : Text) (external : Option Text) (at : ℕ) (s : OutboxState)
    → IsConsistent s
    → IsConsistent (mark_delivered id external at s).0
unfolding mark_delivered
mark_delivered-IsConsistent id external at s v = elim (Option-cases (find (with_id id) s.outbox)) [
  | inl absent ↦ rw (absent, mark_delivered) v
  | inr (e, found) ↦
      rw (found, mark_delivered)
        (write_envelope-IsConsistent (deliver external at)
          (record { id = λ x. refl; sequence = λ x. refl }) id completed none at s e found refl
          (λ h waits. cc) v)
]

-- Failing shows the status that it reports, and an envelope that waits again has a try left.
fail-HasTries : (error : Text) (at : ℕ) (e : OutboundEnvelope) → HasTries (fail error at e)
fail-HasTries error at e waits some_tries = ground arith

fail-shown :
    (error : Text) (at : ℕ) (e : OutboundEnvelope)
    → shown (fail error at e).status ≡ failed_or_queued e
fail-shown error at e = elim (Bool-cases (is_exhausted e)) [
  | inl over ↦ rw over refl
  | inr more ↦ rw more refl
]

pub mark_failed-IsConsistent :
    (id error : Text) (at : ℕ) (s : OutboxState)
    → IsConsistent s
    → IsConsistent (mark_failed id error at s).0
unfolding mark_failed
mark_failed-IsConsistent id error at s v = elim (Option-cases (find (with_id id) s.outbox)) [
  | inl absent ↦ rw (absent, mark_failed) v
  | inr (e, found) ↦
      rw (found, mark_failed)
        (write_envelope-IsConsistent (fail error at)
          (record { id = λ x. refl; sequence = λ x. refl }) id (failed_or_queued e) (some error) at
          s e found (fail-shown error at e) (λ h. fail-HasTries error at e) v)
]

pub claim_ready-IsConsistent :
    (options : ClaimOptions) (at : ℕ) (s : OutboxState)
    → IsConsistent s
    → IsConsistent (claim_ready_outbox options at s).0
unfolding claim_ready_outbox
claim_ready-IsConsistent options at s v =
    claim_each-IsConsistent (or_else options.now at) at (clamp 1 100 (or_else options.limit 10))
      (sort_by by_sequence (tag 0 s.outbox)) s (References-sort_by by_sequence s.outbox) v

retry_failed-IsConsistent :
    (id : Text) (at : ℕ) (s : OutboxState)
    → IsConsistent s
    → IsConsistent (retry_failed_outbox id at s).0
unfolding retry_failed_outbox
retry_failed-IsConsistent id at s v = elim (Option-cases (find (with_id id) s.outbox)) [
  | inl absent ↦ rw (absent, retry_failed_outbox) v
  | inr (e, found) ↦ elim (Bool-cases (outbound_status_eq e.status OutboundStatus.failed)) [
    | inr other ↦ rw (found, other, retry_failed_outbox) v
    | inl over ↦
        rw (found, over, retry_failed_outbox)
          (write_envelope-IsConsistent (requeue at)
            (record { id = λ x. refl; sequence = λ x. refl }) id queued none at s e found refl
            (λ h waits some_tries. some_tries) v)
  ]
]

recover_stale-IsConsistent :
    (options : RecoverOptions) (at : ℕ) (s : OutboxState)
    → IsConsistent s
    → IsConsistent (recover_stale_outbox options at s).0
unfolding recover_stale_outbox
recover_stale-IsConsistent options at s v =
    let time = or_else options.now at in
    let reason = or_else options.reason (text "stale_sending_recovered") in
    sweep-IsConsistent (recover reason time) (record { id = λ x. refl; sequence = λ x. refl })
      (is_stale options time) failed_or_queued at (clamp 1 500 (or_else options.limit 100)) s
      (λ e. fail-shown reason time e) (λ e h. fail-HasTries reason time e) v

cancel-IsConsistent :
    (options : CancelOptions) (at : ℕ) (s : OutboxState)
    → IsConsistent s
    → IsConsistent (cancel_outbox options at s).0
unfolding cancel_outbox
cancel-IsConsistent options at s v = elim (Bool-cases (has_outbox_scope options.scope)) [
  | inr unscoped ↦ rw unscoped v
  | inl scoped ↦
      let reason = or_else options.reason (text "cancelled_by_operator") in
      rw scoped (
        sweep-IsConsistent (cancel reason at) (cancel-IsWrite reason at) (is_cancellable options)
          (λ _. TurnDeliveryStatus.cancelled) at (clamp 1 500 (or_else options.limit 100)) s
          (λ e. refl) (λ e h waits. cc) v)
]

-- In every state that the operations reach, in any order, with random ids that are new: the envelopes
-- have different ids and different sequences, no envelope has two records among those of the runs, each
-- record shows the status of its envelope, and an envelope that waits has a try left, if its input
-- allowed any.
pub reachable-IsConsistent : {s : OutboxState} → Reachable s → IsConsistent s
reachable-IsConsistent starts = record {
  ids = tt;
  turns = tt;
  sequences = tt;
  below = tt;
  mirrors = tt;
  tries = tt;
}
reachable-IsConsistent (loads r) = normalize_outbox-IsConsistent _ (reachable-IsConsistent r)
reachable-IsConsistent (enqueues input at uuid new r) =
    enqueue-IsConsistent input at uuid _ new (reachable-IsConsistent r)
reachable-IsConsistent (sends id at r) =
    mark_sending-IsConsistent id at _ (reachable-IsConsistent r)
reachable-IsConsistent (delivers id external at r) =
    mark_delivered-IsConsistent id external at _ (reachable-IsConsistent r)
reachable-IsConsistent (fails id error at r) =
    mark_failed-IsConsistent id error at _ (reachable-IsConsistent r)
reachable-IsConsistent (claims options at r) =
    claim_ready-IsConsistent options at _ (reachable-IsConsistent r)
reachable-IsConsistent (retries id at r) =
    retry_failed-IsConsistent id at _ (reachable-IsConsistent r)
reachable-IsConsistent (recovers options at r) =
    recover_stale-IsConsistent options at _ (reachable-IsConsistent r)
reachable-IsConsistent (cancels options at r) =
    cancel-IsConsistent options at _ (reachable-IsConsistent r)
reachable-IsConsistent (prunes options at d r) =
    prune_workspace_data-IsConsistent options at d (reachable-IsConsistent r)
