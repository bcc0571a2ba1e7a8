-- ===== src/Delivery/Outbox/Sweeps.antt =====
-- What a sweep of the outbox leaves: the keys of the envelopes, what holds of every envelope, and the
-- agreement of the records with the envelopes.
use maxtag.Base.{
  ℕ, suc, zero, ◌≡◌, ◌≢◌, refl, sym, ap, ◌∙◌, subst, inl, inr, Bool, true, List, [], ◌∷◌, map, All,
  Bool-cases,
}
use maxtag.Delivery.Outbox.Types.{TurnDeliveryStatus, OutboundEnvelope, TurnDelivery}
use maxtag.Delivery.Outbox.Turns.{update_turn_delivery, sweep}
use maxtag.Delivery.Outbox.Mirror.{
  shown, Shows, Mirrors, Turns, Envelopes, update_turn-keys, update_turn-Turns, update_turn-own,
  update_turn-other, update_turn-others,
}

module _ (selected : OutboundEnvelope → Bool) (write : OutboundEnvelope → OutboundEnvelope)
    (report : OutboundEnvelope → TurnDeliveryStatus) (at : ℕ) where
  pub sweep-keys {ℓ} :
      {K : Type ℓ} (key : OutboundEnvelope → K)
      → ((e : OutboundEnvelope) → key (write e) ≡ key e)
      → (left : ℕ) (es : List OutboundEnvelope) (turns : List TurnDelivery)
      → map key (sweep selected write report at left es turns).0 ≡ map key es
  unfolding sweep
  sweep-keys key same left [] turns = refl
  sweep-keys key same zero (e ∷ es) turns = refl
  sweep-keys key same (suc left) (e ∷ es) turns = elim (Bool-cases (selected e)) [
    | inl hit ↦
        let updated = update_turn_delivery e.id (report e) (write e).last_error at turns in
        let rest = sweep-keys key same left es updated in
        rw (hit, same e) (ap (λ ks. key e ∷ ks) rest)
    | inr miss ↦
        let rest = sweep-keys key same (suc left) es turns in rw miss (ap (λ ks. key e ∷ ks) rest)
  ]

  pub All-sweep {ℓ} :
      (P : OutboundEnvelope → Type ℓ)
      → ((e : OutboundEnvelope) → selected e ≡ true → P e → P (write e))
      → (left : ℕ) (es : List OutboundEnvelope) (turns : List TurnDelivery) → All P es
      → All P (sweep selected write report at left es turns).0
  unfolding sweep
  All-sweep P keep left [] turns h = tt
  All-sweep P keep zero (e ∷ es) turns h = h
  All-sweep P keep (suc left) (e ∷ es) turns h = elim (Bool-cases (selected e)) [
    | inl hit ↦
        let updated = update_turn_delivery e.id (report e) (write e).last_error at turns in
        rw hit (keep e hit h.0, All-sweep P keep left es updated h.1)
    | inr miss ↦ rw miss (h.0, All-sweep P keep (suc left) es turns h.1)
  ]

  pub sweep-turn_keys :
      (left : ℕ) (es : List OutboundEnvelope) (turns : List TurnDelivery)
      → map (λ t. t.outbox_id) (sweep selected write report at left es turns).1
        ≡ map (λ t. t.outbox_id) turns
  unfolding sweep
  sweep-turn_keys left [] turns = refl
  sweep-turn_keys zero (e ∷ es) turns = refl
  sweep-turn_keys (suc left) (e ∷ es) turns = elim (Bool-cases (selected e)) [
    | inl hit ↦
        let updated = update_turn_delivery e.id (report e) (write e).last_error at turns in
        rw hit (
          sweep-turn_keys left es updated
          ∙ update_turn-keys e.id (report e) (write e).last_error at turns)
    | inr miss ↦ rw miss (sweep-turn_keys (suc left) es turns)
  ]

  -- An envelope outside the list keeps its record.
  sweep-other :
      (x : OutboundEnvelope) (left : ℕ) (es : List OutboundEnvelope) (turns : List TurnDelivery)
      → All (λ e. x.id ≢ e.id) es
      → All (Shows x) turns
      → All (Shows x) (sweep selected write report at left es turns).1
  unfolding sweep
  sweep-other x left [] turns apart h = h
  sweep-other x zero (e ∷ es) turns apart h = h
  sweep-other x (suc left) (e ∷ es) turns apart h = elim (Bool-cases (selected e)) [
    | inl hit ↦
        let updated = update_turn_delivery e.id (report e) (write e).last_error at turns in
        let kept = update_turn-other e.id (report e) (write e).last_error at x turns apart.0 h in
        rw hit (sweep-other x left es updated apart.1 kept)
    | inr miss ↦ rw miss (sweep-other x (suc left) es turns apart.1 h)
  ]

  module _ (key : (e : OutboundEnvelope) → (write e).id ≡ e.id)
      (now : (e : OutboundEnvelope) → shown (write e).status ≡ report e) where
    pub sweep-Mirrors :
        (left : ℕ) (es : List OutboundEnvelope) (turns : List TurnDelivery)
        → Envelopes es
        → Turns turns
        → Mirrors es turns
        → Mirrors
            (sweep selected write report at left es turns).0
            (sweep selected write report at left es turns).1
    unfolding sweep
    sweep-Mirrors left [] turns v w h = tt
    sweep-Mirrors zero (e ∷ es) turns v w h = h
    sweep-Mirrors (suc left) (e ∷ es) turns v w h = elim (Bool-cases (selected e)) [
      | inl hit ↦
          let updated = update_turn_delivery e.id (report e) (write e).last_error at turns in
          let own =
            update_turn-own e.id (report e) (write e).last_error at (write e) turns (key e) (now e)
              w in
          let others =
            update_turn-others e.id (report e) (write e).last_error at es turns v.0 h.1 in
          let still : Turns updated =
            update_turn-Turns e.id (report e) (write e).last_error at turns w in
          let apart = subst (λ i. All (λ x. i ≢ x.id) es) (sym (key e)) v.0 in
          rw hit (
            sweep-other (write e) left es updated apart own,
            sweep-Mirrors left es updated v.1 still others,
          )
      | inr miss ↦
          rw miss
            (sweep-other e (suc left) es turns v.0 h.0, sweep-Mirrors (suc left) es turns v.1 w h.1)
    ]
