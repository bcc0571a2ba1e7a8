-- ===== src/Delivery/Outbox/Enqueue.antt =====
-- Queueing an envelope, with a new id, keeps the outbox consistent.
use maxtag.Base.{
  ℕ, ◌+◌, ◌≢◌, ◌<◌, refl, sym, subst, inl, inr, ◌&&◌, Text, text, text_eq, [], ◌∷◌, ◌++◌, arith,
  All, All-imp, All-append, Bool-cases, length, Pairwise-append_one, is_truthy, All-map, All-unmap,
  All-zip, append-nil,
}
use maxtag.Delivery.Outbox.Types.{
  TurnDeliveryStatus, OutboundEnvelope, CreateOutboundInput, OutboxState,
}
use maxtag.Delivery.Outbox.Turns.{turns_of}
use maxtag.Delivery.Outbox.{cancel, is_superseded, supersede, new_envelope, enqueue}
use maxtag.Delivery.Outbox.Mirror.{Shows}
use maxtag.Delivery.Outbox.Sweeps.{All-sweep, sweep-turn_keys}
use maxtag.Delivery.Outbox.Consistent.{HasTries, IsConsistent, IsWrite, sweep-IsConsistent}

-- No envelope has the id, and no record is one of it.
abbrev pub IsNew : Text → OutboxState → Type 0
IsNew id s = All (λ e. e.id ≢ id) s.outbox × All (λ t. t.outbox_id ≢ id) s.turns

pub cancel-IsWrite : (reason : Text) (at : ℕ) → IsWrite (cancel reason at)
cancel-IsWrite reason at = record { id = λ e. refl; sequence = λ e. refl }

-- What superseding leaves is consistent, and the id is still new.
superseded-IsConsistent :
    (input : CreateOutboundInput) (at : ℕ) (uuid : Text) (s : OutboxState)
    → IsNew uuid s
    → IsConsistent s
    → let t = supersede input at s.outbox s.turns in
      IsConsistent (record s { outbox = t.0; turns = t.1 })
      × IsNew uuid (record s { outbox = t.0; turns = t.1 })
unfolding supersede
superseded-IsConsistent input at uuid s (new, new_record) v =
    elim (Bool-cases
      (text_eq input.kind (text "lark.card.update") && is_truthy input.target.card_id)) [
        | inr other ↦ rw other (v, (new, new_record))
        | inl card ↦
            let write = cancel (text "superseded_by_newer_card_update") at in
            let report : OutboundEnvelope → TurnDeliveryStatus =
              λ _. TurnDeliveryStatus.cancelled in
            let keys =
              sweep-turn_keys (is_superseded input) write report at (length s.outbox) s.outbox
                s.turns in
            rw card (
              sweep-IsConsistent write (cancel-IsWrite (text "superseded_by_newer_card_update") at)
                  (is_superseded input) report at (length s.outbox) s (λ e. refl) (λ e h waits. cc)
                  v,
              (
                All-sweep (is_superseded input) write report at (λ e. e.id ≢ uuid) (λ e _ h. h)
                    (length s.outbox) s.outbox s.turns new,
                All-unmap (λ t. t.outbox_id) (λ k. k ≢ uuid) _
                    (subst (All (λ k. k ≢ uuid)) (sym keys)
                      (All-map (λ t. t.outbox_id) (λ k. k ≢ uuid) s.turns new_record)),
              ),
            )
      ]

-- An envelope is added at the end, with its record if it is one of a run.
added-IsConsistent :
    (input : CreateOutboundInput) (at : ℕ) (uuid : Text) (s : OutboxState)
    → IsNew uuid s
    → IsConsistent s
    → IsConsistent (record {
      next_sequence = s.next_sequence + 1;
      outbox = s.outbox ++ new_envelope input uuid s.next_sequence at ∷ [];
      turns = s.turns ++ turns_of input uuid at;
    })
added-IsConsistent input at uuid s (new, new_record) v =
    let e = new_envelope input uuid s.next_sequence at in
    record {
      ids = Pairwise-append_one (λ x y. x.id ≢ y.id) s.outbox e new v.ids;
      turns = elim (Bool-cases (is_truthy input.run_id)) [
        | inl run ↦
            rw run
              (Pairwise-append_one (λ x y. x.outbox_id ≢ y.outbox_id) s.turns _ new_record v.turns)
        | inr other ↦ rw (other, append-nil s.turns) v.turns
      ];
      sequences =
          Pairwise-append_one (λ x y. x.sequence ≢ y.sequence) s.outbox e
            (All-imp (λ x. x.sequence < s.next_sequence) (λ x. x.sequence ≢ s.next_sequence)
              s.outbox (λ x low k. omega (arith, low, k)) v.below)
            v.sequences;
      below =
          All-append (λ x. x.sequence < s.next_sequence + 1) s.outbox (e ∷ [])
            (All-imp (λ x. x.sequence < s.next_sequence) (λ x. x.sequence < s.next_sequence + 1)
              s.outbox (λ x low. omega (arith, low)) v.below)
            (omega arith, tt);
      mirrors =
          All-append _ s.outbox (e ∷ [])
            (All-zip (λ x. x.id ≢ uuid) (λ x. All (Shows x) s.turns) _ s.outbox
              (λ x other h.
                All-append (Shows x) s.turns (turns_of input uuid at) h (old_shows x other))
              new v.mirrors)
            (
              All-append (Shows e) s.turns (turns_of input uuid at)
                  (All-imp (λ t. t.outbox_id ≢ uuid) (Shows e) s.turns
                    (λ t other k. absurd (other k)) new_record)
                  new_shows,
              tt,
            );
      tries = All-append HasTries s.outbox (e ∷ []) v.tries ((λ waits some_tries. some_tries), tt);
    }
  where
    old_shows : (x : OutboundEnvelope) → x.id ≢ uuid → All (Shows x) (turns_of input uuid at)
    old_shows x other = elim (Bool-cases (is_truthy input.run_id)) [
      | inl run ↦ rw run (λ k. absurd (other (sym k)), tt)
      | inr alone ↦ rw alone tt
    ]

    new_shows : All (Shows (new_envelope input uuid s.next_sequence at)) (turns_of input uuid at)
    new_shows = elim (Bool-cases (is_truthy input.run_id)) [
      | inl run ↦ rw run (λ k. refl, tt)
      | inr alone ↦ rw alone tt
    ]

pub enqueue-IsConsistent :
    (input : CreateOutboundInput) (at : ℕ) (uuid : Text) (s : OutboxState)
    → IsNew uuid s
    → IsConsistent s
    → IsConsistent (enqueue input at uuid s).0
unfolding enqueue
enqueue-IsConsistent input at uuid s new v =
    let (kept, still) = superseded-IsConsistent input at uuid s new v in
    added-IsConsistent input at uuid _ still kept
