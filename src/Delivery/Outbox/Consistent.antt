-- ===== src/Delivery/Outbox/Consistent.antt =====
-- What holds of the outbox and of the records of the runs between the changes, and that a write to one
-- envelope, the loop of a claim and a sweep keep it.
use maxtag.Base.{
  ℕ, suc, zero, ◌≡◌, ◌<◌, refl, sym, ap, subst, inl, inr, Bool, true, Text, List, [], ◌∷◌, map,
  Option, none, some, All, IsDistinct, IsDistinct-keys, Bool-cases, find, update_at, Reaches,
  References, References-update_at, All-find, All-update_found, All-update_first, All-update_at,
  map-update_first,
}
use maxtag.Delivery.Outbox.Types.{
  pending, accepted, TurnDeliveryStatus, OutboundEnvelope, OutboxState, outbound_status_eq,
}
use maxtag.Delivery.Outbox.Targets.{with_id}
use maxtag.Delivery.Outbox.Turns.{update_turn_delivery, sweep}
use maxtag.Delivery.Outbox.{write_envelope, send, is_ready, claim_each}
use maxtag.Delivery.Outbox.Mirror.{
  shown, Mirrors, Turns, Envelopes, update_turn-Turns, write_first-Mirrors, write_at-Mirrors,
}
use maxtag.Delivery.Outbox.Sweeps.{sweep-keys, All-sweep, sweep-turn_keys, sweep-Mirrors}

-- An envelope that waits has a try left, if it ever had one.
abbrev pub HasTries : OutboundEnvelope → Type 0
HasTries e =
    outbound_status_eq e.status pending ≡ true → 0 < e.max_attempts → e.attempts < e.max_attempts

-- The envelopes have different ids and different sequences, below the next one; no envelope has two
-- records, and each record shows the status of its envelope; an envelope that waits has a try left.
pub record IsConsistent (s : OutboxState) : Type 0 where
  pub ids : Envelopes s.outbox
  pub turns : Turns s.turns
  pub sequences : IsDistinct (λ e. e.sequence) s.outbox
  pub below : All (λ e. e.sequence < s.next_sequence) s.outbox
  pub mirrors : Mirrors s.outbox s.turns
  pub tries : All HasTries s.outbox

-- A write that leaves an envelope what it is known by.
pub record IsWrite (write : OutboundEnvelope → OutboundEnvelope) : Type 0 where
  pub id : (e : OutboundEnvelope) → (write e).id ≡ e.id
  pub sequence : (e : OutboundEnvelope) → (write e).sequence ≡ e.sequence

module _ (write : OutboundEnvelope → OutboundEnvelope) (w : IsWrite write) where
  pub write_envelope-IsConsistent :
      (id : Text) (status : TurnDeliveryStatus) (error : Option Text) (at : ℕ) (s : OutboxState)
      (e : OutboundEnvelope)
      → find (with_id id) s.outbox ≡ some e
      → shown (write e).status ≡ status
      → (HasTries e → HasTries (write e))
      → IsConsistent s
      → IsConsistent (write_envelope id write status error at s)
  write_envelope-IsConsistent id status error at s e found now keep v = record {
    ids =
        IsDistinct-keys (λ x. x.id) s.outbox _
          (map-update_first (λ x. x.id) write w.id (with_id id) s.outbox) v.ids;
    turns = update_turn-Turns id status error at s.turns v.turns;
    sequences =
        IsDistinct-keys (λ x. x.sequence) s.outbox _
          (map-update_first (λ x. x.sequence) write w.sequence (with_id id) s.outbox) v.sequences;
    below =
        All-update_first (λ x. x.sequence < s.next_sequence) (with_id id) write s.outbox
          (λ x _ low. subst (λ n. n < s.next_sequence) (sym (w.sequence x)) low) v.below;
    mirrors =
        write_first-Mirrors id status error at write e s.outbox s.turns found (w.id e) now v.ids
          v.turns v.mirrors;
    tries =
        All-update_found HasTries (with_id id) write s.outbox found
          (keep (All-find HasTries (with_id id) s.outbox v.tries found)) v.tries;
  }

  pub sweep-IsConsistent :
      (selected : OutboundEnvelope → Bool) (report : OutboundEnvelope → TurnDeliveryStatus)
      (at left : ℕ) (s : OutboxState)
      → ((e : OutboundEnvelope) → shown (write e).status ≡ report e)
      → ((e : OutboundEnvelope) → HasTries e → HasTries (write e))
      → IsConsistent s
      → IsConsistent (record s {
        outbox = (sweep selected write report at left s.outbox s.turns).0;
        turns = (sweep selected write report at left s.outbox s.turns).1;
      })
  sweep-IsConsistent selected report at left s now keep v = record {
    ids =
        IsDistinct-keys (λ x. x.id) s.outbox _
          (sweep-keys selected write report at (λ x. x.id) w.id left s.outbox s.turns) v.ids;
    turns =
        IsDistinct-keys (λ t. t.outbox_id) s.turns _
          (sweep-turn_keys selected write report at left s.outbox s.turns) v.turns;
    sequences =
        IsDistinct-keys (λ x. x.sequence) s.outbox _
          (sweep-keys selected write report at (λ x. x.sequence) w.sequence left s.outbox s.turns)
          v.sequences;
    below =
        All-sweep selected write report at (λ x. x.sequence < s.next_sequence)
          (λ x _ low. subst (λ n. n < s.next_sequence) (sym (w.sequence x)) low) left s.outbox
          s.turns v.below;
    mirrors =
        sweep-Mirrors selected write report at w.id now left s.outbox s.turns v.ids v.turns
          v.mirrors;
    tries =
        All-sweep selected write report at HasTries (λ x _ h. keep x h) left s.outbox s.turns
          v.tries;
  }

map-update_at {ℓ} :
    {K : Type ℓ} (key : OutboundEnvelope → K) (write : OutboundEnvelope → OutboundEnvelope) (i : ℕ)
    (es : List OutboundEnvelope)
    → ((e : OutboundEnvelope) → key (write e) ≡ key e)
    → map key (update_at i write es) ≡ map key es
map-update_at key write i [] same = refl
map-update_at key write zero (x ∷ es) same = ap (λ k. k ∷ map key es) (same x)
map-update_at key write (suc i) (x ∷ es) same =
    ap (λ ks. key x ∷ ks) (map-update_at key write i es same)

-- The claim of one envelope, which a reference reaches.
claimed-IsConsistent :
    (time at : ℕ) (p : ℕ × OutboundEnvelope) (s : OutboxState)
    → Reaches s.outbox p
    → IsConsistent s
    → IsConsistent (record s {
      outbox = update_at p.0 (send time) s.outbox;
      turns = update_turn_delivery p.1.id accepted none at s.turns;
    })
claimed-IsConsistent time at p s here v = record {
  ids =
      IsDistinct-keys (λ x. x.id) s.outbox _
        (map-update_at (λ x. x.id) (send time) p.0 s.outbox (λ x. refl)) v.ids;
  turns = update_turn-Turns p.1.id accepted none at s.turns v.turns;
  sequences =
      IsDistinct-keys (λ x. x.sequence) s.outbox _
        (map-update_at (λ x. x.sequence) (send time) p.0 s.outbox (λ x. refl)) v.sequences;
  below =
      All-update_at (λ x. x.sequence < s.next_sequence) p.0 (send time) s.outbox (λ x low. low)
        v.below;
  mirrors =
      write_at-Mirrors p.1.id accepted none at (send time) p.1 p.0 s.outbox s.turns here refl refl
        refl v.ids v.turns v.mirrors;
  tries = All-update_at HasTries p.0 (send time) s.outbox (λ x h waits. cc) v.tries;
}

pub claim_each-IsConsistent :
    (time at left : ℕ) (ps : List (ℕ × OutboundEnvelope)) (s : OutboxState)
    → References s.outbox ps
    → IsConsistent s
    → IsConsistent (claim_each time at left ps s).0
unfolding claim_each
claim_each-IsConsistent time at left [] s refs v = v
claim_each-IsConsistent time at zero (p ∷ ps) s refs v = v
claim_each-IsConsistent time at (suc left) (p ∷ ps) s ((here, there), (apart, differ)) v =
    elim (Bool-cases (is_ready time s.outbox p.1)) [
      | inr skip ↦ rw skip (claim_each-IsConsistent time at (suc left) ps s (there, differ) v)
      | inl ready ↦ rw ready (
          claim_each-IsConsistent time at left ps _
            (References-update_at s.outbox p ps (send time) apart there, differ)
            (claimed-IsConsistent time at p s here v))
    ]
