-- ===== src/Delivery/Outbox/Pruned.antt =====
-- What pruning the data of a workspace leaves of the outbox: whole envelopes and records are removed.
use maxtag.Base.{
  ℕ, ◌≢◌, ◌<◌, inl, inr, List, filter, not, All, All-filter, All-imp, Pairwise-filter, Bool-cases,
  Result-cases, Text,
}
use maxtag.Delivery.Outbox.Types.{OutboundEnvelope, TurnDelivery, OutboxState}
use maxtag.Delivery.Outbox.Mirror.{Shows}
use maxtag.Delivery.Outbox.Consistent.{HasTries, IsConsistent}
use maxtag.Delivery.Pruning.{
  DeliveryState, PruneOptions, has, has_some, lifecycle_plan, is_dry, prune_outbox,
  prune_workspace_data,
}

prune_outbox-IsConsistent :
    (ids : List Text) (s : OutboxState) → IsConsistent s → IsConsistent (prune_outbox ids s)
prune_outbox-IsConsistent ids s v =
    let kept = λ (e : OutboundEnvelope). not (has_some ids e.run_id) in
    let kept_turn = λ (t : TurnDelivery). not (has ids t.run_id) in
    record {
      ids = Pairwise-filter (λ x y. x.id ≢ y.id) kept s.outbox v.ids;
      turns = Pairwise-filter (λ x y. x.outbox_id ≢ y.outbox_id) kept_turn s.turns v.turns;
      sequences = Pairwise-filter (λ x y. x.sequence ≢ y.sequence) kept s.outbox v.sequences;
      below = All-filter (λ e. e.sequence < s.next_sequence) kept s.outbox v.below;
      mirrors =
          All-filter (λ e. All (Shows e) (filter kept_turn s.turns)) kept s.outbox
            (All-imp (λ e. All (Shows e) s.turns) (λ e. All (Shows e) (filter kept_turn s.turns))
              s.outbox (λ e h. All-filter (Shows e) kept_turn s.turns h) v.mirrors);
      tries = All-filter HasTries kept s.outbox v.tries;
    }

pub prune_workspace_data-IsConsistent :
    (options : PruneOptions) (at : ℕ) (d : DeliveryState)
    → IsConsistent d.outbox
    → IsConsistent (prune_workspace_data options at d).outbox
unfolding prune_workspace_data
prune_workspace_data-IsConsistent options at d v =
    elim (Result-cases (lifecycle_plan options at d)) [
      | inr (e, refused) ↦ rw (refused, prune_workspace_data) v
      | inl (ids, planned) ↦ elim (Bool-cases (is_dry options)) [
        | inl dry ↦ rw (planned, prune_workspace_data, dry) v
        | inr wet ↦
            rw (planned, prune_workspace_data, wet) (prune_outbox-IsConsistent ids d.outbox v)
      ]
    ]
