-- ===== src/Delivery/Outbox/Loaded.antt =====
-- Loading the state rearranges the outbox and drops what is old, which keeps it consistent.
use maxtag.Base.{
  ℕ, ◌≢◌, ◌<◌, sym, Bool, not, List, ◌++◌, reverse, filter, take, sort_by, leb, All, All-append,
  All-reverse, All-take, All-sort_by, All-filter, All-imp, Pairwise, Pairwise-append,
  Pairwise-reverse, Pairwise-take, Pairwise-sort_by, Pairwise-filter, Pairwise-split,
}
use maxtag.Delivery.Outbox.Types.{OutboundEnvelope, TurnDelivery, OutboxState}
use maxtag.Delivery.Outbox.Targets.{is_open}
use maxtag.Delivery.Outbox.Load.{
  is_active, terminal_outbox_max, terminal_turn_delivery_max, normalize_outbox,
}
use maxtag.Delivery.Outbox.Mirror.{Shows}
use maxtag.Delivery.Outbox.Consistent.{HasTries, IsConsistent}

-- The elements that fail the test, the first ones in the order, turned round and put before the others.
module _ {ℓ} {A : Type ℓ} (t : A → Bool) (le : A → A → Bool) (n : ℕ) where
  abbrev pub rearranged : List A → List A
  rearranged xs = reverse (take n (sort_by le (filter (λ x. not (t x)) xs))) ++ filter t xs

  front {κ} : (P : A → Type κ) (xs : List A) → All P xs → All P (reverse (take n (sort_by le xs)))
  front P xs h = All-reverse P _ (All-take P n _ (All-sort_by le P xs h))

  pub All-rearranged {κ} : (P : A → Type κ) (xs : List A) → All P xs → All P (rearranged xs)
  All-rearranged P xs h =
      All-append P _ (filter t xs) (front P _ (All-filter P (λ x. not (t x)) xs h))
        (All-filter P t xs h)

  Pairwise-rearranged {κ} :
      (R : A → A → Type κ) (xs : List A)
      → ((x y : A) → R x y → R y x)
      → Pairwise R xs
      → Pairwise R (rearranged xs)
  Pairwise-rearranged R xs flip v =
      Pairwise-append R _ (filter t xs)
        (front (λ x. All (R x) (filter t xs)) _ (Pairwise-split R flip t xs v))
        (Pairwise-reverse R flip _ (
          Pairwise-take R n _
            (Pairwise-sort_by R flip le _ (Pairwise-filter R (λ x. not (t x)) xs v))))
        (Pairwise-filter R t xs v)

abbrev pub newest_first : OutboundEnvelope → OutboundEnvelope → Bool
newest_first a b = leb b.sequence a.sequence

pub normalize_outbox-IsConsistent :
    (s : OutboxState) → IsConsistent s → IsConsistent (normalize_outbox s)
unfolding normalize_outbox
normalize_outbox-IsConsistent s v =
    let newest : TurnDelivery → TurnDelivery → Bool = λ a b. leb b.updated_at a.updated_at in
    record {
      ids =
          Pairwise-rearranged is_open newest_first terminal_outbox_max (λ a b. a.id ≢ b.id) s.outbox
            (λ a b h e. h (sym e)) v.ids;
      turns =
          Pairwise-rearranged is_active newest terminal_turn_delivery_max
            (λ a b. a.outbox_id ≢ b.outbox_id) s.turns (λ a b h e. h (sym e)) v.turns;
      sequences =
          Pairwise-rearranged is_open newest_first terminal_outbox_max
            (λ a b. a.sequence ≢ b.sequence) s.outbox (λ a b h e. h (sym e)) v.sequences;
      below =
          All-rearranged is_open newest_first terminal_outbox_max
            (λ e. e.sequence < s.next_sequence) s.outbox v.below;
      mirrors = All-rearranged is_open newest_first terminal_outbox_max _ s.outbox (
          All-imp (λ e. All (Shows e) s.turns) _ s.outbox
            (λ e h. All-rearranged is_active newest terminal_turn_delivery_max (Shows e) s.turns h)
            v.mirrors);
      tries = All-rearranged is_open newest_first terminal_outbox_max HasTries s.outbox v.tries;
    }

-- What holds of every envelope still holds of those that loading leaves.
pub All-normalize_outbox :
    (P : OutboundEnvelope → Type 0) (s : OutboxState)
    → All P s.outbox
    → All P (normalize_outbox s).outbox
unfolding normalize_outbox
All-normalize_outbox P s h = All-rearranged is_open newest_first terminal_outbox_max P s.outbox h
