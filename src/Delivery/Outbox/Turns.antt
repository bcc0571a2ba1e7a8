-- ===== src/Delivery/Outbox/Turns.antt =====
-- packages/delivery/src/file-delivery-store.ts: the record that a run keeps of an envelope, and the
-- loop that writes envelopes and their records.
use maxtag.Base.{
  ℕ, suc, zero, Bool, Text, text, text_eq, is_truthy, List, [], ◌∷◌, ◌++◌, Option, none, some,
  or_else, if◌then◌else◌, update_first,
}
use maxtag.Delivery.Outbox.Types.{
  TurnDeliveryStatus, queued, accepted, completed, OutboundEnvelope, CreateOutboundInput,
  TurnDelivery, turn_status_eq,
}
use maxtag.Delivery.Outbox.Targets.{target_id_for, thread_id_of, workspace_id_of, project_id_of}

abbrev pub delivery_of : Text → TurnDelivery → Bool
delivery_of id t = text_eq t.outbox_id id

abbrev pub set_turn : TurnDeliveryStatus → Option Text → ℕ → TurnDelivery → TurnDelivery
set_turn s error at t = record t {
  status = s;
  updated_at = at;
  last_error = error;
  accepted_at = if turn_status_eq s accepted then some at else t.accepted_at;
  completed_at = if turn_status_eq s completed then some at else t.completed_at;
  failed_at = if turn_status_eq s TurnDeliveryStatus.failed then some at else t.failed_at;
}

unfoldable pub update_turn_delivery :
    Text → TurnDeliveryStatus → Option Text → ℕ → List TurnDelivery → List TurnDelivery
update_turn_delivery id s error at turns = update_first (delivery_of id) (set_turn s error at) turns

-- What a loop over the outbox leaves: the envelopes, the turns, and copies of the written envelopes.
abbrev pub Swept : Type 0
Swept = List OutboundEnvelope × List TurnDelivery × List OutboundEnvelope

-- The loop that the sweeps of the outbox share: each envelope that is selected is written and its turn
-- brought up to date, until as many as the limit have been written.
unfoldable pub sweep :
    (OutboundEnvelope → Bool)
    → (OutboundEnvelope → OutboundEnvelope)
    → (OutboundEnvelope → TurnDeliveryStatus)
    → ℕ
    → ℕ
    → List OutboundEnvelope
    → List TurnDelivery
    → Swept
unfolding update_turn_delivery
sweep selected write report at left [] turns = ([], turns, [])
sweep selected write report at zero (e ∷ es) turns = (e ∷ es, turns, [])
sweep selected write report at (suc left) (e ∷ es) turns =
    let updated = update_turn_delivery e.id (report e) (write e).last_error at turns in
    let taken = sweep selected write report at left es updated in
    let skipped = sweep selected write report at (suc left) es turns in
    if selected e
    then (write e ∷ taken.0, taken.1, write e ∷ taken.2)
    else (e ∷ skipped.0, skipped.1, skipped.2)

abbrev pub new_turn : CreateOutboundInput → Text → Text → ℕ → TurnDelivery
new_turn input run id at = record {
  id = text "turn:" ++ run ++ text ":" ++ id;
  run_id = run;
  outbox_id = id;
  kind = input.kind;
  platform = input.target.platform;
  thread_id = thread_id_of input;
  workspace_id = workspace_id_of input;
  project_id = project_id_of input;
  target_id = target_id_for input;
  status = queued;
  queued_at = at;
  accepted_at = none;
  completed_at = none;
  failed_at = none;
  last_error = none;
  updated_at = at;
}

-- `if (input.runId)`
abbrev pub turns_of : CreateOutboundInput → Text → ℕ → List TurnDelivery
turns_of input id at =
    if is_truthy input.run_id then new_turn input (or_else input.run_id []) id at ∷ [] else []
