-- ===== src/Delivery/Approvals/Run.antt =====
-- The approvals under any sequence of requests; one that throws saves nothing.
use maxtag.Base.{
  ℕ, ◌≡◌, refl, Text, List, [], ◌∷◌, Option, All-mem, Memᴰ, Result, ok, err, inl, inr, All-filter,
  Bool-cases, Result-cases,
}
use maxtag.Delivery.Types.{ToolApproval, ProposeInput, DeliveryError}
use maxtag.Delivery.Approvals.Links.{Urls}
use maxtag.Delivery.Approvals.{
  propose_tool_approval, get_tool_approval, ApprovalFilter, list_tool_approvals,
  approve_tool_approval, reject_tool_approval, claim_tool_approval, complete_tool_approval,
  mark_continuation_scheduled, fail_tool_approval, recover_stale_tool_approvals,
}
use maxtag.Delivery.Approvals.Authority.{
  IsAuthorised, AreAuthorised, expire_tool_approvals-IsAuthorised,
}
use maxtag.Delivery.Approvals.Authority.Operations.{
  propose-IsAuthorised, approve-tool-IsAuthorised, reject-tool-IsAuthorised, claim-IsAuthorised,
  complete-IsAuthorised, fail-tool-IsAuthorised, continuation-IsAuthorised, recover-IsAuthorised,
}
use maxtag.Delivery.Pruning.{
  DeliveryState, PruneOptions, lifecycle_plan, is_dry, prune_workspace_data,
}

-- The calls that change the approvals; reading them expires those whose time has come. Pruning comes with
-- the rest of the delivery state, as it is at the time.
pub data Request : Type 0 where
  proposes : ProposeInput → Request
  gets : (id : Text) → Request
  lists : ApprovalFilter → Request
  approves rejects : (id actor : Text) → Request
  claims : (id claimer digest : Text) → Request
  completes : (id claimer : Text) → (preview link : Option Text) → Request
  schedules : (id run : Text) → Request
  fails : (id claimer error : Text) → Request
  recovers : (older_than limit : Option ℕ) → Request
  prunes : PruneOptions → DeliveryState → Request

abbrev pub after :
    List ToolApproval → Result DeliveryError (List ToolApproval × ToolApproval) → List ToolApproval
after xs (ok (ys, a)) = ys
after xs (err e) = xs

module _ (urls : Urls) where
  -- A request meets a time and a random id.
  unfoldable pub step : List ToolApproval → ℕ × Text × Request → List ToolApproval
  step xs (at, uuid, proposes input) = (propose_tool_approval input at uuid xs).0
  step xs (at, uuid, gets id) = (get_tool_approval id at xs).0
  step xs (at, uuid, lists options) = (list_tool_approvals options at xs).0
  step xs (at, uuid, approves id actor) = after xs (approve_tool_approval id actor at xs)
  step xs (at, uuid, rejects id actor) = after xs (reject_tool_approval id actor at xs)
  step xs (at, uuid, claims id claimer digest) = (claim_tool_approval id claimer digest at xs).0
  step xs (at, uuid, completes id claimer preview link) =
      after xs (complete_tool_approval urls id claimer preview link at xs)
  step xs (at, uuid, schedules id r) = after xs (mark_continuation_scheduled id r at xs)
  step xs (at, uuid, fails id claimer error) = after xs (fail_tool_approval id claimer error at xs)
  step xs (at, uuid, recovers older limit) = (recover_stale_tool_approvals at older limit xs).0
  step xs (at, uuid, prunes options d) =
      (prune_workspace_data options at (record d { approvals = xs })).approvals

  unfoldable pub run : List ToolApproval → List (ℕ × Text × Request) → List ToolApproval
  unfolding step
  run xs [] = xs
  run xs (r ∷ rs) = run (step xs r) rs

after-IsAuthorised :
    (xs : List ToolApproval) (r : Result DeliveryError (List ToolApproval × ToolApproval))
    → AreAuthorised xs
    → ((ys : List ToolApproval) (a : ToolApproval) → r ≡ ok (ys, a) → AreAuthorised ys)
    → AreAuthorised (after xs r)
after-IsAuthorised xs (ok (ys, a)) v keep = keep ys a refl
after-IsAuthorised xs (err e) v keep = v

prune-IsAuthorised :
    (options : PruneOptions) (at : ℕ) (d : DeliveryState)
    → AreAuthorised d.approvals
    → AreAuthorised (prune_workspace_data options at d).approvals
unfolding prune_workspace_data
prune-IsAuthorised options at d v = elim (Result-cases (lifecycle_plan options at d)) [
  | inr (e, refused) ↦ rw (refused, prune_workspace_data) v
  | inl (ids, planned) ↦ elim (Bool-cases (is_dry options)) [
    | inl dry ↦ rw (planned, prune_workspace_data, dry) v
    | inr wet ↦ rw (planned, prune_workspace_data, wet) (All-filter IsAuthorised _ d.approvals v)
  ]
]

module _ (urls : Urls) where
  step-IsAuthorised :
      (xs : List ToolApproval) (r : ℕ × Text × Request)
      → AreAuthorised xs
      → AreAuthorised (step urls xs r)
  unfolding step
  step-IsAuthorised xs (at, uuid, proposes input) v = propose-IsAuthorised input at uuid xs v
  step-IsAuthorised xs (at, uuid, gets id) v =
      unfold get_tool_approval in expire_tool_approvals-IsAuthorised xs at v
  step-IsAuthorised xs (at, uuid, lists options) v =
      unfold list_tool_approvals in expire_tool_approvals-IsAuthorised xs at v
  step-IsAuthorised xs (at, uuid, approves id actor) v =
      after-IsAuthorised xs _ v (λ ys a h. approve-tool-IsAuthorised id actor at xs ys a h v)
  step-IsAuthorised xs (at, uuid, rejects id actor) v =
      after-IsAuthorised xs _ v (λ ys a h. reject-tool-IsAuthorised id actor at xs ys a h v)
  step-IsAuthorised xs (at, uuid, claims id claimer digest) v =
      claim-IsAuthorised id claimer digest at xs v
  step-IsAuthorised xs (at, uuid, completes id claimer preview link) v =
      after-IsAuthorised xs _ v
        (λ ys a h. complete-IsAuthorised urls id claimer preview link at xs ys a h v)
  step-IsAuthorised xs (at, uuid, schedules id r) v =
      after-IsAuthorised xs _ v (λ ys a h. continuation-IsAuthorised id r at xs ys a h v)
  step-IsAuthorised xs (at, uuid, fails id claimer error) v =
      after-IsAuthorised xs _ v (λ ys a h. fail-tool-IsAuthorised id claimer error at xs ys a h v)
  step-IsAuthorised xs (at, uuid, recovers older limit) v = recover-IsAuthorised at older limit xs v
  step-IsAuthorised xs (at, uuid, prunes options d) v =
      prune-IsAuthorised options at (record d { approvals = xs }) v

  run-IsAuthorised_from :
      (xs : List ToolApproval) (rs : List (ℕ × Text × Request))
      → AreAuthorised xs
      → AreAuthorised (run urls xs rs)
  unfolding run
  run-IsAuthorised_from xs [] v = v
  run-IsAuthorised_from xs (r ∷ rs) v =
      run-IsAuthorised_from (step urls xs r) rs (step-IsAuthorised xs r v)

-- After any requests to an empty store, a tool call that has been claimed, carried out or has failed
-- was approved by somebody and claimed by somebody, both before it expired; one that is approved was
-- so before it expired; and one that is rejected was rejected by somebody.
pub run-IsAuthorised :
    (urls : Urls) (rs : List (ℕ × Text × Request)) (a : ToolApproval)
    → Memᴰ a (run urls [] rs)
    → IsAuthorised a
run-IsAuthorised urls rs a m = All-mem IsAuthorised _ (run-IsAuthorised_from urls [] rs tt) m
