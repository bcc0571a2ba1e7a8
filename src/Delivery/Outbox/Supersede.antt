-- ===== src/Delivery/Outbox/Supersede.antt =====
-- A card update is a snapshot of the card: a newer one replaces those that still wait.
use maxtag.Base.{
  ℕ, suc, zero, ◌≡◌, ◌≤◌, refl, ap, ◌∙◌, inl, inr, Bool, true, not, Text, text, text_eq,
  text_eq_refl, option_eq_iff, is_truthy, List, [], ◌∷◌, ◌++◌, arith, filter, length, update_all,
  Bool-cases, All, filter-append, filter-none,
}
use maxtag.Delivery.Outbox.Types.{
  TurnDeliveryStatus, OutboundEnvelope, CreateOutboundInput, TurnDelivery, OutboxState,
}
use maxtag.Delivery.Outbox.Turns.{update_turn_delivery, sweep}
use maxtag.Delivery.Outbox.{cancel, is_superseded, supersede, new_envelope, enqueue}

-- A sweep whose limit covers the outbox writes every envelope that is selected.
sweep-update_all :
    (selected : OutboundEnvelope → Bool) (write : OutboundEnvelope → OutboundEnvelope)
    (report : OutboundEnvelope → TurnDeliveryStatus) (at left : ℕ) (es : List OutboundEnvelope)
    (turns : List TurnDelivery)
    → length es ≤ left
    → (sweep selected write report at left es turns).0 ≡ update_all selected write es
unfolding sweep
sweep-update_all selected write report at left [] turns h = refl
sweep-update_all selected write report at zero (e ∷ es) turns h = absurd (omega (arith, h))
sweep-update_all selected write report at (suc left) (e ∷ es) turns h =
    elim (Bool-cases (selected e)) [
      | inl hit ↦
          let updated = update_turn_delivery e.id (report e) (write e).last_error at turns in
          let rest = sweep-update_all selected write report at left es updated (omega (arith, h)) in
          rw hit (ap (λ zs. write e ∷ zs) rest)
      | inr miss ↦
          let rest =
            sweep-update_all selected write report at (suc left) es turns (omega (arith, h)) in
          rw miss (ap (λ zs. e ∷ zs) rest)
    ]

none_left :
    (input : CreateOutboundInput) (reason : Text) (at : ℕ) (es : List OutboundEnvelope)
    → All
        (λ e. not (is_superseded input e) ≡ true)
        (update_all (is_superseded input) (cancel reason at) es)
none_left input reason at [] = tt
none_left input reason at (e ∷ es) = elim (Bool-cases (is_superseded input e)) [
  | inl old ↦ rw old (ground arith, none_left input reason at es)
  | inr other ↦ rw other (ground (arith, other), none_left input reason at es)
]

-- After a card update has been queued, it is the only envelope that waits with an update of its card on
-- its platform; and every envelope that is not one of these is left as it was.
pub enqueue-supersedes :
    (input : CreateOutboundInput) (at : ℕ) (uuid : Text) (s : OutboxState)
    → text_eq input.kind (text "lark.card.update") ≡ true
    → is_truthy input.target.card_id ≡ true
    → (filter (is_superseded input) (enqueue input at uuid s).0.outbox
        ≡ (enqueue input at uuid s).1 ∷ [])
      × ((enqueue input at uuid s).0.outbox
          ≡ update_all
              (is_superseded input)
              (cancel (text "superseded_by_newer_card_update") at)
              s.outbox
            ++ (enqueue input at uuid s).1 ∷ [])
unfolding enqueue supersede
enqueue-supersedes input at uuid s card named =
    let reason = text "superseded_by_newer_card_update" in
    let e = new_envelope input uuid s.next_sequence at in
    let swept =
      sweep-update_all (is_superseded input) (cancel reason at) (λ _. TurnDeliveryStatus.cancelled)
        at (length s.outbox) s.outbox s.turns (omega arith) in
    let old = update_all (is_superseded input) (cancel reason at) s.outbox in
    let kind = text_eq_refl input.kind in
    let platform = text_eq_refl input.target.platform in
    let card_id = (option_eq_iff input.target.card_id input.target.card_id).1 refl in
    let fresh : is_superseded input e ≡ true = ground (arith, kind, platform, card_id) in
    let last : filter (is_superseded input) (e ∷ []) ≡ e ∷ [] = rw fresh refl in
    let none_old = filter-none (is_superseded input) old (none_left input reason at s.outbox) in
    rw (card, named, swept)
      (
        filter-append (is_superseded input) old (e ∷ [])
            ∙ ap (λ zs. zs ++ filter (is_superseded input) (e ∷ [])) none_old
            ∙ last,
        refl,
      )
