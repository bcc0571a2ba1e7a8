-- ===== src/Delivery/Outbox/Targeted.antt =====
-- A target is served in order: what a claim hands out of a reachable outbox.
use maxtag.Base.{
  ℕ, ◌≡◌, ◌≢◌, ◌<◌, ◌≤◌, ◌⊎◌, refl, sym, subst, inl, inr, true, false, ◌&&◌, text_eq, text_eq_iff,
  List, or_else, ltb, arith, All, All-imp, All-zip, All-take, All-filter, All-filter_self,
  All-get_elem?, IsDistinct, Bool-cases, any-get_elem?, filter, clamp, length, length-map,
  length-take, Pairwise, Pairwise-imp, Pairwise-map, Pairwise-take, Pairwise-filter,
  Pairwise-get_elem?, tag, sort_by, Reaches, References-sort_by, All-map,
}
use maxtag.Delivery.Outbox.Types.{
  pending, sending, OutboundEnvelope, ClaimOptions, OutboxState, outbound_status_eq,
}
use maxtag.Delivery.Outbox.Targets.{first_text, outbound_target_key, is_open}
use maxtag.Delivery.Outbox.{send, is_blocked, is_ready, by_sequence, claim_ready_outbox}
use maxtag.Delivery.Outbox.Claims.{ready_references, claim_ready_outbox-ready}
use maxtag.Delivery.Outbox.Consistent.{HasTries}
use maxtag.Delivery.Outbox.Steps.{Reachable, reachable-IsConsistent}

abbrev pub OtherTarget : OutboundEnvelope → OutboundEnvelope → Type 0
OtherTarget a b = outbound_target_key a ≢ outbound_target_key b

-- An envelope that is sent now, for no more than the number of times that its input allows.
abbrev pub IsSent : ℕ → OutboundEnvelope → Type 0
IsSent time e =
    (outbound_status_eq e.status sending ≡ true)
    × (e.updated_at ≡ time)
    × (0 < e.max_attempts → e.attempts ≤ e.max_attempts)

module _ (time : ℕ) (outbox : List OutboundEnvelope) where
  abbrev IsReady : ℕ × OutboundEnvelope → Type 0
  IsReady p = Reaches outbox p × (is_ready time outbox p.1 ≡ true)

  -- One of two envelopes of a target with different sequences stands before the other.
  ready_later :
      (p q : ℕ × OutboundEnvelope)
      → IsReady p
      → IsReady q
      → outbound_target_key p.1 ≡ outbound_target_key q.1
      → p.1.sequence < q.1.sequence
      → ⊥
  unfolding first_text
  ready_later p q (here, ready) (there, ready') same before =
      let key = text_eq (outbound_target_key p.1) (outbound_target_key q.1) in
      let key_same : text_eq (outbound_target_key p.1) (outbound_target_key q.1) ≡ true =
        (text_eq_iff _ _).1 same in
      let stands =
        any-get_elem?
          (λ earlier.
            ltb earlier.sequence q.1.sequence
            && text_eq (outbound_target_key earlier) (outbound_target_key q.1)
            && is_open earlier)
          outbox p.0 here in
      let open_p : is_open p.1 ≡ true = ground (arith, ready) in
      let lower : ltb p.1.sequence q.1.sequence ≡ true = ground (arith, before) in
      let blocked : is_blocked outbox q.1 ≡ true =
        stands (ground (arith, lower, key_same, open_p)) in
      let free : is_blocked outbox q.1 ≡ false = ground (arith, ready') in cc (blocked, free)

  ready_apart :
      IsDistinct (λ e. e.sequence) outbox
      → (p q : ℕ × OutboundEnvelope) → IsReady p
      → IsReady q
      → p.0 ≢ q.0
      → OtherTarget p.1 q.1
  ready_apart v p q r r' apart same =
      let differ : p.1.sequence ≢ q.1.sequence =
        Pairwise-get_elem? (λ a b. a.sequence ≢ b.sequence) (λ a b h e. h (sym e)) outbox p.0 q.0
          p.1 q.1 v apart r.0 r'.0 in
      elim (order p.1.sequence q.1.sequence differ) [
        | inl before ↦ ready_later p q r r' same before
        | inr after ↦ ready_later q p r' r (sym same) after
      ]
    where
      order : (m n : ℕ) → m ≢ n → (m < n) ⊎ (n < m)
      order m n h = elim (Bool-cases (ltb m n)) [
        | inl less ↦ inl (ground (arith, less))
        | inr more ↦ inr (ground (arith, more, h))
      ]

  ready_references-IsReady : (limit : ℕ) → All IsReady (ready_references time limit outbox)
  ready_references-IsReady limit =
      let sorted = sort_by by_sequence (tag 0 outbox) in
      let (reach, apart) = References-sort_by by_sequence outbox in
      All-take IsReady limit _ (
        All-zip (Reaches outbox) (λ p. is_ready time outbox p.1 ≡ true) IsReady _ (λ p r t. (r, t))
          (All-filter (Reaches outbox) (λ p. is_ready time outbox p.1) sorted reach)
          (All-filter_self (λ p. is_ready time outbox p.1) sorted))

  ready_references-Pairwise :
      (limit : ℕ)
      → IsDistinct (λ e. e.sequence) outbox
      → Pairwise (λ p q. OtherTarget p.1 q.1) (ready_references time limit outbox)
  ready_references-Pairwise limit v =
      let sorted = sort_by by_sequence (tag 0 outbox) in
      let (reach, apart) = References-sort_by by_sequence outbox in
      let differ = λ (p q : ℕ × OutboundEnvelope). p.0 ≢ q.0 in
      Pairwise-imp IsReady differ (λ p q. OtherTarget p.1 q.1) _ (ready_apart v)
        (ready_references-IsReady limit)
        (Pairwise-take differ limit _
          (Pairwise-filter differ (λ p. is_ready time outbox p.1) sorted apart))

-- A claim from a reachable outbox hands out at most as many envelopes as its limit, no two of them to
-- one target; each is marked as sent at the time of the claim, and no more often than its input allows,
-- if that is at least once.
pub claim_ready_outbox-targets :
    (options : ClaimOptions) (at : ℕ) (s : OutboxState)
    → Reachable s
    → (length (claim_ready_outbox options at s).1 ≤ clamp 1 100 (or_else options.limit 10))
      × Pairwise OtherTarget (claim_ready_outbox options at s).1
      × All (IsSent (or_else options.now at)) (claim_ready_outbox options at s).1
claim_ready_outbox-targets options at s r =
    let v = reachable-IsConsistent r in
    let time = or_else options.now at in
    let limit = clamp 1 100 (or_else options.limit 10) in
    let claimed = ready_references time limit s.outbox in
    subst (λ zs. (length zs ≤ limit) × Pairwise OtherTarget zs × All (IsSent time) zs)
      (sym (claim_ready_outbox-ready options at s))
      (
        omega (
          arith,
          length-map (λ p. send time p.1) claimed,
          length-take limit
              (filter (λ p. is_ready time s.outbox p.1) (sort_by by_sequence (tag 0 s.outbox))),
        ),
        Pairwise-map (λ p. send time p.1) OtherTarget claimed
            (ready_references-Pairwise time s.outbox limit v.sequences),
        All-map (λ p. send time p.1) (IsSent time) claimed
            (All-imp (IsReady time s.outbox) (λ p. IsSent time (send time p.1)) claimed
              (λ p ready. sent p ready (All-get_elem? HasTries s.outbox p.0 v.tries ready.0))
              (ready_references-IsReady time s.outbox limit)),
      )
  where
    sent :
        (p : ℕ × OutboundEnvelope)
        → IsReady (or_else options.now at) s.outbox p
        → HasTries p.1
        → IsSent (or_else options.now at) (send (or_else options.now at) p.1)
    sent p ready tries =
        let waits : outbound_status_eq p.1.status pending ≡ true = ground (arith, ready.1) in
        (refl, refl, λ some_tries. omega (arith, tries waits some_tries))
