-- ===== src/Delivery/Outbox/Claims.antt =====
-- The claim of the outbox, which writes envelopes while it goes through them, against a selection that
-- looks at the state before the claim alone.
use maxtag.Base.{
  ℕ, suc, zero, ◌≡◌, refl, sym, ap, ◌∙◌, subst, inl, inr, true, List, [], ◌∷◌, map, none, some,
  or_else, clamp, arith, filter, tag, take, sort_by, update_at, get_elem?, References,
  References-update_at, References-sort_by, Bool-cases,
}
use maxtag.Delivery.Outbox.Types.{
  pending, accepted, OutboundEnvelope, ClaimOptions, OutboxState, outbound_status_eq,
}
use maxtag.Delivery.Outbox.Targets.{first_text}
use maxtag.Delivery.Outbox.Turns.{update_turn_delivery}
use maxtag.Delivery.Outbox.{send, is_blocked, is_ready, claim_each, by_sequence, claim_ready_outbox}

-- The envelopes that are ready before the claim, in the order of their sequence, up to the limit.
abbrev pub ready_references : ℕ → ℕ → List OutboundEnvelope → List (ℕ × OutboundEnvelope)
ready_references time limit outbox =
    take limit (filter (λ p. is_ready time outbox p.1) (sort_by by_sequence (tag 0 outbox)))

-- Sending an envelope that waits leaves it open, so that no other envelope is freed or blocked.
blocked_by-send :
    (time : ℕ) (e : OutboundEnvelope) (xs : List OutboundEnvelope) (i : ℕ) (x : OutboundEnvelope)
    → get_elem? xs i ≡ some x
    → outbound_status_eq x.status pending ≡ true
    → is_blocked (update_at i (send time) xs) e ≡ is_blocked xs e
unfolding first_text
blocked_by-send time e [] i x h waits = refl
blocked_by-send time e (y ∷ xs) zero x h waits =
    let same : y ≡ x = ground (arith, h) in
    let waits' : outbound_status_eq y.status pending ≡ true =
      subst (λ z. outbound_status_eq z.status pending ≡ true) (sym same) waits in
    ground (arith, waits')
blocked_by-send time e (y ∷ xs) (suc i) x h waits =
    let rest = blocked_by-send time e xs i x h waits in ground (arith, rest)

ready_waits :
    (time : ℕ) (outbox : List OutboundEnvelope) (e : OutboundEnvelope)
    → is_ready time outbox e ≡ true
    → outbound_status_eq e.status pending ≡ true
ready_waits time outbox e h = ground (arith, h)

claim_each-filter :
    (time at : ℕ) (outbox : List OutboundEnvelope) (left : ℕ) (ps : List (ℕ × OutboundEnvelope))
    (s : OutboxState)
    → References s.outbox ps
    → ((e : OutboundEnvelope) → is_blocked s.outbox e ≡ is_blocked outbox e)
    → (claim_each time at left ps s).1
      ≡ map (λ p. send time p.1) (take left (filter (λ p. is_ready time outbox p.1) ps))
unfolding claim_each
claim_each-filter time at outbox zero [] s refs same = refl
claim_each-filter time at outbox (suc left) [] s refs same = refl
claim_each-filter time at outbox zero (p ∷ ps) s refs same = refl
claim_each-filter time at outbox (suc left) (p ∷ ps) s ((here, there), (apart, differ)) same =
    elim (Bool-cases (is_ready time outbox p.1)) [
      | inr skip ↦
          let rest = claim_each-filter time at outbox (suc left) ps s (there, differ) same in
          rw (same p.1, skip) rest
      | inl ready ↦
          let waits = ready_waits time outbox p.1 ready in
          let claimed : OutboxState = record s {
            outbox = update_at p.0 (send time) s.outbox;
            turns = update_turn_delivery p.1.id accepted none at s.turns;
          } in
          let rest =
            claim_each-filter time at outbox left ps claimed
              (References-update_at s.outbox p ps (send time) apart there, differ)
              (λ e. blocked_by-send time e s.outbox p.0 p.1 here waits ∙ same e) in
          rw (same p.1, ready) (ap (λ zs. send time p.1 ∷ zs) rest)
    ]

-- A claim hands out exactly the envelopes that were ready before it: those that wait, whose time has
-- come, and before which no open envelope of their target stands; they come in the order of their
-- sequence, up to the limit, each marked as being sent.
pub claim_ready_outbox-ready :
    (options : ClaimOptions) (at : ℕ) (s : OutboxState)
    → (claim_ready_outbox options at s).1
      ≡ map
          (λ p. send (or_else options.now at) p.1)
          (ready_references
            (or_else options.now at)
            (clamp 1 100 (or_else options.limit 10))
            s.outbox)
unfolding claim_ready_outbox
claim_ready_outbox-ready options at s =
    claim_each-filter (or_else options.now at) at s.outbox (clamp 1 100 (or_else options.limit 10))
      (sort_by by_sequence (tag 0 s.outbox)) s (References-sort_by by_sequence s.outbox) (λ e. refl)
