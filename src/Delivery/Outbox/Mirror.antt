-- ===== src/Delivery/Outbox/Mirror.antt =====
-- A run's record of an envelope shows the status of the envelope: what one write to an envelope and its
-- record leaves of that, and what the loops leave.
use maxtag.Base.{
  ℕ, suc, zero, ◌≡◌, ◌≢◌, refl, sym, ◌∙◌, subst, inl, inr, Text, text_eq_iff, List, [], ◌∷◌, map,
  Option, some, arith, find, update_first, update_at, get_elem?, All-get_elem?, All, All-imp,
  All-update_first, IsDistinct, IsDistinct-keys, Bool-cases, map-update_first,
}
use maxtag.Delivery.Outbox.Types.{
  OutboundStatus, pending, sending, delivered, TurnDeliveryStatus, queued, accepted, completed,
  OutboundEnvelope, TurnDelivery,
}
use maxtag.Delivery.Outbox.Targets.{with_id}
use maxtag.Delivery.Outbox.Turns.{delivery_of, set_turn, update_turn_delivery}

abbrev pub shown : OutboundStatus → TurnDeliveryStatus
shown pending = queued
shown sending = accepted
shown delivered = completed
shown OutboundStatus.failed = TurnDeliveryStatus.failed
shown OutboundStatus.cancelled = TurnDeliveryStatus.cancelled

abbrev pub Shows : OutboundEnvelope → TurnDelivery → Type 0
Shows e t = t.outbox_id ≡ e.id → t.status ≡ shown e.status

abbrev pub Mirrors : List OutboundEnvelope → List TurnDelivery → Type 0
Mirrors outbox turns = All (λ e. All (Shows e) turns) outbox

abbrev pub Turns : List TurnDelivery → Type 0
Turns turns = IsDistinct (λ t. t.outbox_id) turns

abbrev pub Envelopes : List OutboundEnvelope → Type 0
Envelopes outbox = IsDistinct (λ e. e.id) outbox

module _ (id : Text) (status : TurnDeliveryStatus) (error : Option Text) (at : ℕ) where
  pub update_turn-keys :
      (turns : List TurnDelivery)
      → map (λ t. t.outbox_id) (update_turn_delivery id status error at turns)
        ≡ map (λ t. t.outbox_id) turns
  unfolding update_turn_delivery
  update_turn-keys turns =
      map-update_first (λ t. t.outbox_id) (set_turn status error at) (λ t. refl) (delivery_of id)
        turns

  pub update_turn-Turns :
      (turns : List TurnDelivery)
      → Turns turns
      → Turns (update_turn_delivery id status error at turns)
  update_turn-Turns turns v =
      IsDistinct-keys (λ t. t.outbox_id) turns (update_turn_delivery id status error at turns)
        (update_turn-keys turns) v

  -- The record of the envelope that is written shows the new status.
  pub update_turn-own :
      (e : OutboundEnvelope) (turns : List TurnDelivery)
      → e.id ≡ id
      → shown e.status ≡ status
      → Turns turns
      → All (Shows e) (update_turn_delivery id status error at turns)
  unfolding update_turn_delivery
  update_turn-own e [] own now v = tt
  update_turn-own e (t ∷ turns) own now v = elim (Bool-cases (delivery_of id t)) [
    | inl hit ↦
        let same : t.outbox_id ≡ id = (text_eq_iff t.outbox_id id).0 hit in
        rw hit (
          λ _. sym now,
          All-imp (λ u. t.outbox_id ≢ u.outbox_id) (Shows e) turns
              (λ u apart k. absurd (apart (same ∙ sym own ∙ sym k))) v.0,
        )
    | inr miss ↦
        let other : t.outbox_id ≢ id =
          λ k. absurd (ground (arith, miss, (text_eq_iff t.outbox_id id).1 k)) in
        rw miss (λ k. absurd (other (k ∙ own)), update_turn-own e turns own now v.1)
  ]

  -- The records of the other envelopes are left alone.
  pub update_turn-other :
      (e : OutboundEnvelope) (turns : List TurnDelivery)
      → e.id ≢ id
      → All (Shows e) turns
      → All (Shows e) (update_turn_delivery id status error at turns)
  unfolding update_turn_delivery
  update_turn-other e turns apart h =
      All-update_first (Shows e) (delivery_of id) (set_turn status error at) turns
        (λ t hit show k. absurd (apart (sym k ∙ (text_eq_iff t.outbox_id id).0 hit))) h

  pub update_turn-others :
      (es : List OutboundEnvelope) (turns : List TurnDelivery)
      → All (λ e. id ≢ e.id) es
      → Mirrors es turns
      → Mirrors es (update_turn_delivery id status error at turns)
  update_turn-others [] turns apart h = tt
  update_turn-others (e ∷ es) turns apart h = (
    update_turn-other e turns (λ k. apart.0 (sym k)) h.0,
    update_turn-others es turns apart.1 h.1,
  )

  -- A write to the envelope that the search has found.
  pub write_first-Mirrors :
      (write : OutboundEnvelope → OutboundEnvelope) (e : OutboundEnvelope)
      (es : List OutboundEnvelope) (turns : List TurnDelivery)
      → find (with_id id) es ≡ some e
      → (write e).id ≡ e.id
      → shown (write e).status ≡ status
      → Envelopes es
      → Turns turns
      → Mirrors es turns
      → Mirrors (update_first (with_id id) write es) (update_turn_delivery id status error at turns)
  write_first-Mirrors write e [] turns found key now v w h = tt
  write_first-Mirrors write e (x ∷ es) turns found key now v w h =
      elim (Bool-cases (with_id id x)) [
        | inl hit ↦
            let same : e ≡ x = ground (arith, hit) in
            let own : x.id ≡ id = (text_eq_iff x.id id).0 hit in
            let key' : (write x).id ≡ x.id = subst (λ y. (write y).id ≡ y.id) same key in
            let now' : shown (write x).status ≡ status =
              subst (λ y. shown (write y).status ≡ status) same now in
            rw hit (
              update_turn-own (write x) turns (key' ∙ own) now' w,
              update_turn-others es turns (subst (λ i. All (λ y. i ≢ y.id) es) own v.0) h.1,
            )
        | inr miss ↦
            let other : x.id ≢ id = λ k. absurd (ground (arith, miss, (text_eq_iff x.id id).1 k)) in
            rw miss (
              update_turn-other x turns other h.0,
              write_first-Mirrors write e es turns (ground (arith, miss)) key now v.1 w h.1,
            )
      ]

  -- A write through a reference.
  pub write_at-Mirrors :
      (write : OutboundEnvelope → OutboundEnvelope) (e : OutboundEnvelope) (i : ℕ)
      (es : List OutboundEnvelope) (turns : List TurnDelivery)
      → get_elem? es i ≡ some e
      → e.id ≡ id
      → (write e).id ≡ e.id
      → shown (write e).status ≡ status
      → Envelopes es
      → Turns turns
      → Mirrors es turns
      → Mirrors (update_at i write es) (update_turn_delivery id status error at turns)
  write_at-Mirrors write e i [] turns found own key now v w h = tt
  write_at-Mirrors write e zero (x ∷ es) turns found own key now v w h =
      let same : e ≡ x = ground (arith, found) in
      let here = subst (λ y. y.id ≡ id) same own in
      (
        update_turn-own (write x) turns (subst (λ y. (write y).id ≡ id) same (key ∙ own))
            (subst (λ y. shown (write y).status ≡ status) same now) w,
        update_turn-others es turns (subst (λ j. All (λ y. j ≢ y.id) es) here v.0) h.1,
      )
  write_at-Mirrors write e (suc i) (x ∷ es) turns found own key now v w h =
      let later : x.id ≢ e.id = All-get_elem? (λ y. x.id ≢ y.id) es i v.0 found in
      (
        update_turn-other x turns (λ k. later (k ∙ sym own)) h.0,
        write_at-Mirrors write e i es turns found own key now v.1 w h.1,
      )
