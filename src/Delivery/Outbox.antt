-- ===== src/Delivery/Outbox.antt =====
-- packages/delivery/src/file-delivery-store.ts, the outbox: envelopes are queued, claimed by a worker in
-- the order of their target, sent, retried and given up; a run's record of an envelope follows it.
pub mod Types
pub mod Targets
pub mod Turns
pub mod Claims
pub mod Load
pub mod Mirror
pub mod Sweeps
pub mod Consistent
pub mod Loaded
pub mod Enqueue
pub mod Pruned
pub mod Steps
pub mod Targeted
pub mod Worker
pub mod Supersede
mod Examples
use maxtag.Base.{
  ℕ, suc, zero, ◌+◌, ◌-◌, Bool, true, false, ◌&&◌, ◌||◌, not, Text, text, text_eq, option_eq,
  is_truthy, List, [], ◌∷◌, ◌++◌, map, Option, none, some, or_else, ltb, leb, ◌==◌, clamp,
  if◌then◌else◌, filter, any, find, length, tag, update_first, update_at, sort_by, take, reverse,
}
use maxtag.Delivery.Types.{allows}
use maxtag.Delivery.Outbox.Types.{
  OutboundStatus, pending, sending, delivered, TurnDeliveryStatus, queued, accepted, completed,
  OutboundTarget, OutboundEnvelope, CreateOutboundInput, ClaimOptions, OutboxScope, RecoverOptions,
  RecoverResult, CancelOptions, CancelResult, TurnDelivery, OutboxState, outbound_status_eq,
  turn_status_eq,
}
use maxtag.Delivery.Outbox.Targets.{
  first_text, outbound_target_key, external_id_of, target_id_for, matches_outbox_scope,
  has_outbox_scope, is_open, with_id, thread_id_of, workspace_id_of, project_id_of,
}
use maxtag.Delivery.Outbox.Turns.{
  delivery_of, set_turn, update_turn_delivery, Swept, sweep, new_turn, turns_of,
}

abbrev pub cancel : Text → ℕ → OutboundEnvelope → OutboundEnvelope
cancel reason at e = record e {
  status = OutboundStatus.cancelled;
  last_error = some reason;
  updated_at = at;
}

-- An older snapshot of the card that the new envelope updates.
abbrev pub is_superseded : CreateOutboundInput → OutboundEnvelope → Bool
is_superseded input e =
    text_eq e.kind input.kind
    && text_eq e.target.platform input.target.platform
    && option_eq e.target.card_id input.target.card_id
    && outbound_status_eq e.status pending

unfoldable pub supersede :
    CreateOutboundInput → ℕ → List OutboundEnvelope → List TurnDelivery → Swept
unfolding sweep
supersede input at outbox turns =
    if text_eq input.kind (text "lark.card.update") && is_truthy input.target.card_id
    then sweep (is_superseded input) (cancel (text "superseded_by_newer_card_update") at)
        (λ _. TurnDeliveryStatus.cancelled) at (length outbox) outbox turns
    else (outbox, turns, [])

abbrev pub new_envelope : CreateOutboundInput → Text → ℕ → ℕ → OutboundEnvelope
new_envelope input id sequence at = record {
  id = id;
  sequence = sequence;
  kind = input.kind;
  target = input.target;
  payload = input.payload;
  status = pending;
  attempts = 0;
  max_attempts = or_else input.max_attempts 5;
  next_attempt_at = at;
  run_id = input.run_id;
  thread_id = thread_id_of input;
  workspace_id = workspace_id_of input;
  project_id = project_id_of input;
  external_id = none;
  last_error = none;
  created_at = at;
  updated_at = at;
}

abbrev pub Step : Type 0 → Type 0
Step A = OutboxState → OutboxState × A

unfoldable pub enqueue : CreateOutboundInput → ℕ → Text → Step OutboundEnvelope
unfolding supersede
enqueue input at uuid s =
    let (outbox, turns, dropped) = supersede input at s.outbox s.turns in
    let envelope = new_envelope input uuid s.next_sequence at in
    (
      record {
        next_sequence = s.next_sequence + 1;
        outbox = outbox ++ envelope ∷ [];
        turns = turns ++ turns_of input uuid at;
      },
      envelope,
    )

-- A write to the envelope with the id, if there is one, and to its turn.
abbrev pub write_envelope :
    Text
    → (OutboundEnvelope → OutboundEnvelope)
    → TurnDeliveryStatus
    → Option Text
    → ℕ
    → OutboxState
    → OutboxState
write_envelope id write status error at s = record s {
  outbox = update_first (with_id id) write s.outbox;
  turns = update_turn_delivery id status error at s.turns;
}

abbrev pub send : ℕ → OutboundEnvelope → OutboundEnvelope
send at e = record e { status = sending; attempts = e.attempts + 1; updated_at = at }

unfoldable pub mark_sending : Text → ℕ → Step (Option OutboundEnvelope)
unfolding update_turn_delivery
mark_sending id at s = elim (find (with_id id) s.outbox) [
  | none ↦ (s, none)
  | some e ↦ (write_envelope id (send at) accepted none at s, some (send at e))
]

abbrev pub deliver : Option Text → ℕ → OutboundEnvelope → OutboundEnvelope
deliver external at e = record e {
  status = delivered;
  external_id = external;
  last_error = none;
  updated_at = at;
}

unfoldable pub mark_delivered : Text → Option Text → ℕ → Step (Option OutboundEnvelope)
unfolding update_turn_delivery
mark_delivered id external at s = elim (find (with_id id) s.outbox) [
  | none ↦ (s, none)
  | some e ↦
      (write_envelope id (deliver external at) completed none at s, some (deliver external at e))
]

abbrev pub is_exhausted : OutboundEnvelope → Bool
is_exhausted e = leb e.max_attempts e.attempts

abbrev pub fail : Text → ℕ → OutboundEnvelope → OutboundEnvelope
fail error at e = record e {
  status = if is_exhausted e then OutboundStatus.failed else pending;
  last_error = some error;
  next_attempt_at = at + 30_000;
  updated_at = at;
}

abbrev pub failed_or_queued : OutboundEnvelope → TurnDeliveryStatus
failed_or_queued e = if is_exhausted e then TurnDeliveryStatus.failed else queued

unfoldable pub mark_failed : Text → Text → ℕ → Step (Option OutboundEnvelope)
unfolding update_turn_delivery
mark_failed id error at s = elim (find (with_id id) s.outbox) [
  | none ↦ (s, none)
  | some e ↦ (
    write_envelope id (fail error at) (failed_or_queued e) (some error) at s,
    some (fail error at e),
  )
]

-- An open envelope of the target with a lower sequence stands before this one.
abbrev pub is_blocked : List OutboundEnvelope → OutboundEnvelope → Bool
is_blocked outbox e =
    any
      (λ earlier.
        ltb earlier.sequence e.sequence
        && text_eq (outbound_target_key earlier) (outbound_target_key e)
        && is_open earlier)
      outbox

abbrev pub is_ready : ℕ → List OutboundEnvelope → OutboundEnvelope → Bool
is_ready time outbox e =
    outbound_status_eq e.status pending && leb e.next_attempt_at time && not (is_blocked outbox e)

-- The loop of the claim over references to the envelopes, in the order of their sequence; no
-- envelope is written before its turn in the loop, so that the reference carries its value.
unfoldable pub claim_each :
    ℕ → ℕ → ℕ → List (ℕ × OutboundEnvelope) → OutboxState → OutboxState × List OutboundEnvelope
unfolding update_turn_delivery first_text
claim_each time at left [] s = (s, [])
claim_each time at zero (p ∷ ps) s = (s, [])
claim_each time at (suc left) (p ∷ ps) s =
    let claimed = record s {
      outbox = update_at p.0 (send time) s.outbox;
      turns = update_turn_delivery p.1.id accepted none at s.turns;
    } in
    let taken = claim_each time at left ps claimed in
    let skipped = claim_each time at (suc left) ps s in
    if is_ready time s.outbox p.1 then (taken.0, send time p.1 ∷ taken.1) else skipped

abbrev pub by_sequence : ℕ × OutboundEnvelope → ℕ × OutboundEnvelope → Bool
by_sequence p q = leb p.1.sequence q.1.sequence

unfoldable pub claim_ready_outbox : ClaimOptions → ℕ → Step (List OutboundEnvelope)
unfolding claim_each
claim_ready_outbox options at s =
    claim_each (or_else options.now at) at (clamp 1 100 (or_else options.limit 10))
      (sort_by by_sequence (tag 0 s.outbox)) s

abbrev pub requeue : ℕ → OutboundEnvelope → OutboundEnvelope
requeue at e = record e {
  status = pending;
  attempts = 0;
  next_attempt_at = at;
  last_error = none;
  updated_at = at;
}

unfoldable pub retry_failed_outbox : Text → ℕ → Step Bool
unfolding update_turn_delivery
retry_failed_outbox id at s = elim (find (with_id id) s.outbox) [
  | none ↦ (s, false)
  | some e ↦
      if outbound_status_eq e.status OutboundStatus.failed
      then (write_envelope id (requeue at) queued none at s, true)
      else (s, false)
]

abbrev pub recover : Text → ℕ → OutboundEnvelope → OutboundEnvelope
recover reason time e = record e {
  status = if is_exhausted e then OutboundStatus.failed else pending;
  last_error = some reason;
  next_attempt_at = time;
  updated_at = time;
}

-- Sent no later than the cutoff, `now - olderThanMs`, and in the scope.
abbrev pub is_stale : RecoverOptions → ℕ → OutboundEnvelope → Bool
is_stale options time e =
    outbound_status_eq e.status sending
    && leb (e.updated_at + or_else options.older_than_ms 120_000) time
    && matches_outbox_scope e options.scope

abbrev pub count : OutboundStatus → List OutboundEnvelope → ℕ
count status records = length (filter (λ e. outbound_status_eq e.status status) records)

unfoldable pub recover_stale_outbox : RecoverOptions → ℕ → Step RecoverResult
unfolding sweep
recover_stale_outbox options at s =
    let time = or_else options.now at in
    let reason = or_else options.reason (text "stale_sending_recovered") in
    let limit = clamp 1 500 (or_else options.limit 100) in
    let (outbox, turns, records) =
      sweep (is_stale options time) (recover reason time) failed_or_queued at limit s.outbox
        s.turns in
    (
      record s { outbox = outbox; turns = turns },
      record {
        requeued = count pending records;
        failed = count OutboundStatus.failed records;
        records = records;
      },
    )

abbrev pub is_cancellable : CancelOptions → OutboundEnvelope → Bool
is_cancellable options e = is_open e && matches_outbox_scope e options.scope

unfoldable pub cancel_outbox : CancelOptions → ℕ → Step CancelResult
unfolding sweep has_outbox_scope
cancel_outbox options at s =
    let reason = or_else options.reason (text "cancelled_by_operator") in
    let limit = clamp 1 500 (or_else options.limit 100) in
    let (outbox, turns, records) =
      sweep (is_cancellable options) (cancel reason at) (λ _. TurnDeliveryStatus.cancelled) at limit
        s.outbox s.turns in
    if has_outbox_scope options.scope
    then (
      record s { outbox = outbox; turns = turns },
      record { cancelled = length records; records = records },
    )
    else (s, record { cancelled = 0; records = [] })
