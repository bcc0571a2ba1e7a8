-- ===== src/Delivery/Outbox/Examples.antt =====
-- A chat that a run writes to and a card that it updates, and the theorems of the outbox at them.
use maxtag.Base.{
  ◌+◌, ◌≡◌, ◌≢◌, ◌≤◌, refl, text_eq_iff, arith, if◌then◌else◌, false, not, Text, text, text_eq,
  option_eq, [], ◌∷◌, ◌++◌, map, none, some, ok, err, filter, length, update_all, sort_by, Pairwise,
  All,
}
use maxtag.Delivery.Fields.{Fields}
use maxtag.Delivery.Outbox.Types.{
  OutboundStatus, pending, OutboundTarget, CreateOutboundInput, ClaimOptions, CancelOptions,
  OutboxState,
}
use maxtag.Delivery.Outbox.Targets.{first_text, is_open, matches_outbox_scope, has_outbox_scope}
use maxtag.Delivery.Outbox.Turns.{update_turn_delivery, sweep}
use maxtag.Delivery.Outbox.{
  cancel, is_superseded, enqueue, send, mark_sending, mark_delivered, mark_failed, claim_each,
  claim_ready_outbox, cancel_outbox, supersede,
}
use maxtag.Delivery.Outbox.Claims.{ready_references, claim_ready_outbox-ready}
use maxtag.Delivery.Outbox.Load.{is_active, normalize_outbox, normalize_outbox-keeps}
use maxtag.Delivery.Outbox.Consistent.{IsConsistent}
use maxtag.Delivery.Outbox.Steps.{Reachable, starts, enqueues, empty_outbox, reachable-IsConsistent}
use maxtag.Delivery.Outbox.Targeted.{OtherTarget, IsSent, claim_ready_outbox-targets}
use maxtag.Delivery.Outbox.Worker.{Dispatch, deliver_one, deliver_each, run_delivery_worker_pass}
use maxtag.Delivery.Outbox.Worker.Settles.{Settles, run_delivery_worker_pass-Settles}
use maxtag.Delivery.Outbox.Supersede.{enqueue-supersedes}

abbrev chat : OutboundTarget
chat = record {
  platform = text "lark";
  chat_id = some (text "chat");
  topic_id = none;
  card_id = none;
  root_id = none;
  reply_to_message_id = none;
}

abbrev message : CreateOutboundInput
message = record {
  kind = text "lark.text";
  target = chat;
  payload = Fields.end;
  run_id = some (text "r1");
  thread = none;
  max_attempts = some 2;
}

abbrev card : CreateOutboundInput
card = record message {
  kind = text "lark.card.update";
  target = record chat { card_id = some (text "card") };
}

abbrev one : OutboxState
one = (enqueue message 10 (text "a") empty_outbox).0

abbrev two : OutboxState
two = (enqueue message 20 (text "b") one).0

abbrev three : OutboxState
three = (enqueue card 30 (text "c") two).0

-- The functions that the runs compute with.
calls : Unit {0}
unfolding enqueue supersede sweep update_turn_delivery claim_each claim_ready_outbox cancel_outbox
    mark_failed mark_sending mark_delivered first_text matches_outbox_scope has_outbox_scope
    normalize_outbox deliver_one deliver_each run_delivery_worker_pass text text_eq option_eq
    sort_by
calls = tt

apart : (s t : Text) → text_eq s t ≡ false → s ≢ t
apart s t h k = ground (arith, h, (text_eq_iff s t).1 k)

three-Reachable : Reachable three
unfolding calls
three-Reachable =
    enqueues card 30 (text "c")
      (
        (apart (text "a") (text "c") refl, (apart (text "b") (text "c") refl, tt)),
        (apart (text "a") (text "c") refl, (apart (text "b") (text "c") refl, tt)),
      )
      (enqueues message 20 (text "b")
        ((apart (text "a") (text "b") refl, tt), (apart (text "a") (text "b") refl, tt))
        (enqueues message 10 (text "a") (tt, tt) starts))

abbrev all_of_chat : CancelOptions
all_of_chat = record {
  scope = record {
    run_id = none;
    thread_id = none;
    workspace_id = none;
    project_id = none;
    target_id = some (text "chat");
    kind = none;
  };
  reason = none;
  limit = none;
}

abbrev any_time : ClaimOptions
any_time = record { limit = none; now = none }

-- Two of the three envelopes are claimed: the second message waits behind the first.
claimed : map (λ e. e.id) (claim_ready_outbox any_time 40 three).1 ≡ text "a" ∷ text "c" ∷ []
unfolding calls
claimed = refl

-- An envelope that is cancelled while it is being sent waits again when the sending fails.
cancelled_again :
    (map (λ e. e.status) (cancel_outbox all_of_chat 50 (mark_sending (text "a") 40 one).0).0.outbox
      ≡ OutboundStatus.cancelled ∷ [])
    × (map
          (λ e. e.status)
          (mark_failed
            (text "a")
            (text "e")
            60
            (cancel_outbox all_of_chat 50 (mark_sending (text "a") 40 one).0).0).0.outbox
        ≡ pending ∷ [])
unfolding calls
cancelled_again = (refl, refl)

reachable-IsConsistent_example : IsConsistent three
reachable-IsConsistent_example = reachable-IsConsistent three-Reachable

claim_ready_outbox-ready_example :
    (claim_ready_outbox any_time 40 three).1
    ≡ map (λ p. send 40 p.1) (ready_references 40 10 three.outbox)
unfolding calls
claim_ready_outbox-ready_example = claim_ready_outbox-ready any_time 40 three

claim_ready_outbox-targets_example :
    (length (claim_ready_outbox any_time 40 three).1 ≤ 10)
    × Pairwise OtherTarget (claim_ready_outbox any_time 40 three).1
    × All (IsSent 40) (claim_ready_outbox any_time 40 three).1
claim_ready_outbox-targets_example = claim_ready_outbox-targets any_time 40 three three-Reachable

normalize_outbox-keeps_example :
    (filter is_open (normalize_outbox three).outbox ≡ filter is_open three.outbox)
    × (filter is_active (normalize_outbox three).turns ≡ filter is_active three.turns)
    × (length (filter (λ e. not (is_open e)) (normalize_outbox three).outbox) ≤ 300)
    × (length (filter (λ t. not (is_active t)) (normalize_outbox three).turns) ≤ 300)
normalize_outbox-keeps_example = normalize_outbox-keeps three

-- A transport that cannot update cards.
abbrev only_text : Dispatch
only_text e =
    if text_eq e.kind (text "lark.text") then ok (some (text "m1")) else err (text "no card")

run_delivery_worker_pass-Settles_example :
    let claimed = (claim_ready_outbox any_time 40 (normalize_outbox three)).1 in
    let (t, result) = run_delivery_worker_pass only_text (λ i. 40 + i) none three in
    All (λ c. All (Settles c) t.outbox) claimed
    × (result.claimed ≡ length claimed)
    × (result.delivered + result.failed + result.retried ≡ result.claimed)
run_delivery_worker_pass-Settles_example =
    run_delivery_worker_pass-Settles only_text (λ i. 40 + i) none three three-Reachable

passed :
    (run_delivery_worker_pass only_text (λ i. 40 + i) none three).1
    ≡ record { claimed = 2; delivered = 1; failed = 0; retried = 1 }
unfolding calls
passed = refl

enqueue-supersedes_example :
    (filter (is_superseded card) (enqueue card 35 (text "d") three).0.outbox
      ≡ (enqueue card 35 (text "d") three).1 ∷ [])
    × ((enqueue card 35 (text "d") three).0.outbox
        ≡ update_all
            (is_superseded card)
            (cancel (text "superseded_by_newer_card_update") 35)
            three.outbox
          ++ (enqueue card 35 (text "d") three).1 ∷ [])
unfolding calls
enqueue-supersedes_example = enqueue-supersedes card 35 (text "d") three refl refl
