-- ===== src/Delivery/Outbox/Worker/Settles.antt =====
-- What a pass of the worker leaves: every envelope that it has claimed is settled.
use maxtag.Base.{
  ℕ, suc, ◌+◌, ◌≡◌, ◌≢◌, ◌⊎◌, refl, sym, subst, ◌∙◌, inl, inr, false, Text, text_eq_iff, List, [],
  ◌∷◌, Option, none, find, update_first, All, All-imp, All-update_first, Bool-cases, Option-cases,
  Result-cases, length, arith,
}
use maxtag.Delivery.Outbox.Types.{
  sending, OutboundEnvelope, ClaimOptions, OutboxState, outbound_status_eq,
}
use maxtag.Delivery.Outbox.Targets.{with_id}
use maxtag.Delivery.Outbox.{
  claim_ready_outbox, deliver, mark_delivered, is_exhausted, fail, mark_failed,
}
use maxtag.Delivery.Outbox.Load.{normalize_outbox}
use maxtag.Delivery.Outbox.Loaded.{normalize_outbox-IsConsistent, All-normalize_outbox}
use maxtag.Delivery.Outbox.Mirror.{Envelopes}
use maxtag.Delivery.Outbox.Consistent.{IsConsistent}
use maxtag.Delivery.Outbox.Steps.{
  Reachable, loads, claims, reachable-IsConsistent, mark_delivered-IsConsistent,
  mark_failed-IsConsistent,
}
use maxtag.Delivery.Outbox.Worker.{
  PassResult, has_failed, Dispatch, deliver_one, deliver_each, run_delivery_worker_pass,
}

-- The envelope is not being sent.
abbrev pub IsSettled : OutboundEnvelope → Type 0
IsSettled e = outbound_status_eq e.status sending ≡ false

abbrev pub Settles : OutboundEnvelope → OutboundEnvelope → Type 0
Settles c e = e.id ≡ c.id → IsSettled e

-- A write that settles what it writes, to the only envelope with the id.
settled-written :
    (write : OutboundEnvelope → OutboundEnvelope) (c : OutboundEnvelope)
    (es : List OutboundEnvelope)
    → ((e : OutboundEnvelope) → IsSettled (write e))
    → Envelopes es
    → All (Settles c) (update_first (with_id c.id) write es)
settled-written write c [] settles v = tt
settled-written write c (e ∷ es) settles v = elim (Bool-cases (with_id c.id e)) [
  | inl hit ↦
      let same : e.id ≡ c.id = (text_eq_iff e.id c.id).0 hit in
      rw hit (
        λ _. settles e,
        All-imp (λ x. e.id ≢ x.id) (Settles c) es (λ x apart k. absurd (apart (same ∙ sym k))) v.0,
      )
  | inr miss ↦ rw miss (
    λ k. absurd (ground (arith, miss, (text_eq_iff e.id c.id).1 k)),
    settled-written write c es settles v.1,
  )
]

settled-kept :
    (write : OutboundEnvelope → OutboundEnvelope) (c : OutboundEnvelope) (id : Text)
    (es : List OutboundEnvelope)
    → ((e : OutboundEnvelope) → IsSettled (write e))
    → All (Settles c) es
    → All (Settles c) (update_first (with_id id) write es)
settled-kept write c id es settles h =
    All-update_first (Settles c) (with_id id) write es (λ e _ _ _. settles e) h

-- Without an envelope of the id there is none to settle.
settled-absent :
    (c : OutboundEnvelope) (es : List OutboundEnvelope)
    → find (with_id c.id) es ≡ none
    → All (Settles c) es
settled-absent c [] h = tt
settled-absent c (e ∷ es) h = elim (Bool-cases (with_id c.id e)) [
  | inl hit ↦ absurd (ground (arith, hit))
  | inr miss ↦ (
    λ k. absurd (ground (arith, miss, (text_eq_iff e.id c.id).1 k)),
    settled-absent c es (ground (arith, miss)),
  )
]

fail-settles : (error : Text) (at : ℕ) (e : OutboundEnvelope) → IsSettled (fail error at e)
fail-settles error at e = elim (Bool-cases (is_exhausted e)) [
  | inl over ↦ rw over refl
  | inr more ↦ rw more refl
]

-- What one call leaves of the outbox: that of the loaded state, or with the envelope settled.
abbrev WritesOne : OutboundEnvelope → List OutboundEnvelope → List OutboundEnvelope → Type 0
WritesOne c es fs =
    ((find (with_id c.id) es ≡ none) × (fs ≡ es))
    ⊎ ((write : OutboundEnvelope → OutboundEnvelope) × ((e : OutboundEnvelope)
          → IsSettled (write e))
        × (fs ≡ update_first (with_id c.id) write es))

mark_delivered-WritesOne :
    (c : OutboundEnvelope) (external : Option Text) (at : ℕ) (s : OutboxState)
    → WritesOne c s.outbox (mark_delivered c.id external at s).0.outbox
unfolding mark_delivered
mark_delivered-WritesOne c external at s = elim (Option-cases (find (with_id c.id) s.outbox)) [
  | inl absent ↦ rw (absent, mark_delivered) (inl (refl, refl))
  | inr (e, found) ↦ rw (found, mark_delivered) (inr (deliver external at, λ x. refl, refl))
]

mark_failed-WritesOne :
    (c : OutboundEnvelope) (error : Text) (at : ℕ) (s : OutboxState)
    → WritesOne c s.outbox (mark_failed c.id error at s).0.outbox
unfolding mark_failed
mark_failed-WritesOne c error at s = elim (Option-cases (find (with_id c.id) s.outbox)) [
  | inl absent ↦ rw (absent, mark_failed) (inl (refl, refl))
  | inr (e, found) ↦ rw (found, mark_failed) (inr (fail error at, fail-settles error at, refl))
]

WritesOne-own :
    (c : OutboundEnvelope) (es fs : List OutboundEnvelope)
    → Envelopes es
    → WritesOne c es fs
    → All (Settles c) fs
WritesOne-own c es fs v (inl (absent, same)) =
    subst (All (Settles c)) (sym same) (settled-absent c es absent)
WritesOne-own c es fs v (inr (write, settles, same)) =
    subst (All (Settles c)) (sym same) (settled-written write c es settles v)

WritesOne-other :
    (c d : OutboundEnvelope) (es fs : List OutboundEnvelope)
    → All (Settles d) es
    → WritesOne c es fs
    → All (Settles d) fs
WritesOne-other c d es fs h (inl (absent, same)) = subst (All (Settles d)) (sym same) h
WritesOne-other c d es fs h (inr (write, settles, same)) =
    subst (All (Settles d)) (sym same) (settled-kept write d c.id es settles h)

module _ (dispatch : Dispatch) (now : ℕ → ℕ) where
  deliver_one-WritesOne :
      (i : ℕ) (c : OutboundEnvelope) (s : OutboxState) (result : PassResult)
      → WritesOne c (normalize_outbox s).outbox (deliver_one dispatch now i c s result).0.outbox
  unfolding deliver_one
  deliver_one-WritesOne i c s result = elim (Result-cases (dispatch c)) [
    | inl (external, answered) ↦
        rw (answered, deliver_one)
          (mark_delivered-WritesOne c external (now i) (normalize_outbox s))
    | inr (message, thrown) ↦
        rw (thrown, deliver_one) (mark_failed-WritesOne c message (now i) (normalize_outbox s))
  ]

  deliver_one-IsConsistent :
      (i : ℕ) (c : OutboundEnvelope) (s : OutboxState) (result : PassResult)
      → IsConsistent s
      → IsConsistent (deliver_one dispatch now i c s result).0
  unfolding deliver_one
  deliver_one-IsConsistent i c s result v =
      let loaded = normalize_outbox-IsConsistent s v in
      elim (Result-cases (dispatch c)) [
        | inl (external, answered) ↦
            rw (answered, deliver_one)
              (mark_delivered-IsConsistent c.id external (now i) (normalize_outbox s) loaded)
        | inr (message, thrown) ↦
            rw (thrown, deliver_one)
              (mark_failed-IsConsistent c.id message (now i) (normalize_outbox s) loaded)
      ]

  abbrev total : PassResult → ℕ
  total result = result.delivered + result.failed + result.retried

  deliver_one-total :
      (i : ℕ) (c : OutboundEnvelope) (s : OutboxState) (result : PassResult)
      → (total (deliver_one dispatch now i c s result).1 ≡ suc (total result))
        × ((deliver_one dispatch now i c s result).1.claimed ≡ result.claimed)
  unfolding deliver_one
  deliver_one-total i c s result = elim (Result-cases (dispatch c)) [
    | inl (external, answered) ↦ rw (answered, deliver_one) (omega arith, refl)
    | inr (message, thrown) ↦
        let updated = (mark_failed c.id message (now i) (normalize_outbox s)).1 in
        elim (Bool-cases (has_failed updated)) [
          | inl gave_up ↦ rw (thrown, deliver_one, gave_up) (omega arith, refl)
          | inr again ↦ rw (thrown, deliver_one, again) (omega arith, refl)
        ]
  ]

  deliver_each-other :
      (i : ℕ) (es : List OutboundEnvelope) (s : OutboxState) (result : PassResult)
      (d : OutboundEnvelope)
      → All (Settles d) s.outbox
      → All (Settles d) (deliver_each dispatch now i es s result).0.outbox
  unfolding deliver_each
  deliver_each-other i [] s result d h = h
  deliver_each-other i (e ∷ es) s result d h =
      let next = deliver_one dispatch now i e s result in
      let kept =
        WritesOne-other e d (normalize_outbox s).outbox next.0.outbox
          (All-normalize_outbox (Settles d) s h) (deliver_one-WritesOne i e s result) in
      deliver_each-other (suc i) es next.0 next.1 d kept

  deliver_each-Settles :
      (i : ℕ) (es : List OutboundEnvelope) (s : OutboxState) (result : PassResult)
      → IsConsistent s
      → All (λ c. All (Settles c) (deliver_each dispatch now i es s result).0.outbox) es
  unfolding deliver_each
  deliver_each-Settles i [] s result v = tt
  deliver_each-Settles i (e ∷ es) s result v =
      let next = deliver_one dispatch now i e s result in
      let own =
        WritesOne-own e (normalize_outbox s).outbox next.0.outbox
          (normalize_outbox-IsConsistent s v).ids (deliver_one-WritesOne i e s result) in
      (
        deliver_each-other (suc i) es next.0 next.1 e own,
        deliver_each-Settles (suc i) es next.0 next.1 (deliver_one-IsConsistent i e s result v),
      )

  deliver_each-total :
      (i : ℕ) (es : List OutboundEnvelope) (s : OutboxState) (result : PassResult)
      → (total (deliver_each dispatch now i es s result).1 ≡ length es + total result)
        × ((deliver_each dispatch now i es s result).1.claimed ≡ result.claimed)
  unfolding deliver_each
  deliver_each-total i [] s result = (omega arith, refl)
  deliver_each-total i (e ∷ es) s result =
      let next = deliver_one dispatch now i e s result in
      let one = deliver_one-total i e s result in
      let (sum, same) = deliver_each-total (suc i) es next.0 next.1 in
      (omega (arith, sum, one.0), same ∙ one.1)

-- A pass of the worker over a reachable outbox leaves no envelope that it has claimed as being sent,
-- whatever the transport answers, and its result counts each claimed envelope once, as delivered,
-- failed or retried.
pub run_delivery_worker_pass-Settles :
    (dispatch : Dispatch) (now : ℕ → ℕ) (limit : Option ℕ) (s : OutboxState)
    → Reachable s
    → let claimed =
        (claim_ready_outbox
          (record { limit = limit; now = none })
          (now 0)
          (normalize_outbox s)).1 in
      let (t, result) = run_delivery_worker_pass dispatch now limit s in
      All (λ c. All (Settles c) t.outbox) claimed
      × (result.claimed ≡ length claimed)
      × (result.delivered + result.failed + result.retried ≡ result.claimed)
unfolding run_delivery_worker_pass
run_delivery_worker_pass-Settles dispatch now limit s r =
    let options : ClaimOptions = record { limit = limit; now = none } in
    let next = claim_ready_outbox options (now 0) (normalize_outbox s) in
    let start : PassResult = record {
      claimed = length next.1;
      delivered = 0;
      failed = 0;
      retried = 0;
    } in
    let v = reachable-IsConsistent (claims options (now 0) (loads r)) in
    let (sum, same) = deliver_each-total dispatch now 1 next.1 next.0 start in
    (deliver_each-Settles dispatch now 1 next.1 next.0 start v, same, omega (arith, sum, same))
