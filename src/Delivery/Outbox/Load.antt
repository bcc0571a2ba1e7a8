-- ===== src/Delivery/Outbox/Load.antt =====
-- packages/delivery/src/file-delivery-store.ts, `normalizeDeliveryState`: what loading the state leaves of
-- the outbox and of the records that runs keep of it. Every change loads the state first.
use maxtag.Base.{
  ℕ, ◌≡◌, ◌≤◌, Bool, true, ◌||◌, not, List, ◌++◌, reverse, leb, arith, filter, take, sort_by,
  length, All, All-reverse, All-take, All-sort_by, All-filter_self, length-take, filter-front,
  length-filter_front, length-reverse,
}
use maxtag.Delivery.Outbox.Types.{
  OutboundEnvelope, TurnDelivery, queued, accepted, OutboxState, turn_status_eq,
}
use maxtag.Delivery.Outbox.Targets.{is_open}

abbrev pub is_active : TurnDelivery → Bool
is_active t = turn_status_eq t.status queued || turn_status_eq t.status accepted

-- TERMINAL_OUTBOX_MAX
abbrev pub terminal_outbox_max : ℕ
terminal_outbox_max = 300

-- TERMINAL_TURN_DELIVERY_MAX
abbrev pub terminal_turn_delivery_max : ℕ
terminal_turn_delivery_max = 300

abbrev pub terminal_outbox : List OutboundEnvelope → List OutboundEnvelope
terminal_outbox outbox =
    take terminal_outbox_max
      (sort_by (λ a b. leb b.sequence a.sequence) (filter (λ e. not (is_open e)) outbox))

abbrev pub terminal_turns : List TurnDelivery → List TurnDelivery
terminal_turns turns =
    take terminal_turn_delivery_max
      (sort_by (λ a b. leb b.updated_at a.updated_at) (filter (λ t. not (is_active t)) turns))

unfoldable pub normalize_outbox : OutboxState → OutboxState
normalize_outbox s = record s {
  outbox = reverse (terminal_outbox s.outbox) ++ filter is_open s.outbox;
  turns = reverse (terminal_turns s.turns) ++ filter is_active s.turns;
}

module _ (s : OutboxState) where
  terminal-outbox : All (λ e. not (is_open e) ≡ true) (reverse (terminal_outbox s.outbox))
  terminal-outbox = All-reverse _ _ (
      All-take _ terminal_outbox_max _
        (All-sort_by _ _ _ (All-filter_self (λ e. not (is_open e)) s.outbox)))

  terminal-turns : All (λ t. not (is_active t) ≡ true) (reverse (terminal_turns s.turns))
  terminal-turns = All-reverse _ _ (
      All-take _ terminal_turn_delivery_max _
        (All-sort_by _ _ _ (All-filter_self (λ t. not (is_active t)) s.turns)))

-- Loading the state keeps every open envelope and every active record of a run, in their order, and at
-- most 300 closed envelopes and 300 settled records.
pub normalize_outbox-keeps :
    (s : OutboxState)
    → (filter is_open (normalize_outbox s).outbox ≡ filter is_open s.outbox)
      × (filter is_active (normalize_outbox s).turns ≡ filter is_active s.turns)
      × (length (filter (λ e. not (is_open e)) (normalize_outbox s).outbox) ≤ 300)
      × (length (filter (λ t. not (is_active t)) (normalize_outbox s).turns) ≤ 300)
unfolding normalize_outbox
normalize_outbox-keeps s =
    let closed =
      length-filter_front is_open (reverse (terminal_outbox s.outbox)) s.outbox
        (terminal-outbox s) in
    let settled =
      length-filter_front is_active (reverse (terminal_turns s.turns)) s.turns (terminal-turns s) in
    let few =
      length-take terminal_outbox_max
        (sort_by (λ a b. leb b.sequence a.sequence) (filter (λ e. not (is_open e)) s.outbox)) in
    let few' =
      length-take terminal_turn_delivery_max (
        sort_by (λ a b. leb b.updated_at a.updated_at) (filter (λ t. not (is_active t)) s.turns)) in
    let turned = length-reverse (terminal_outbox s.outbox) in
    let turned' = length-reverse (terminal_turns s.turns) in
    (
      filter-front is_open (reverse (terminal_outbox s.outbox)) s.outbox (terminal-outbox s),
      filter-front is_active (reverse (terminal_turns s.turns)) s.turns (terminal-turns s),
      omega (arith, closed, few, turned),
      omega (arith, settled, few', turned'),
    )
