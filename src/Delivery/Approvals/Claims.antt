-- ===== src/Delivery/Approvals/Claims.antt =====
-- A claim is exclusive: what has been claimed is carried out once, and by its claimer.
use maxtag.Base.{
  ℕ, ◌≡◌, refl, inl, inr, true, ◌&&◌, Text, text_eq, option_eq, List, Option, none, some, find,
  find-passes, find-update_first, find-update_all, Bool-cases, Option-cases, err, arith,
  if◌then◌else◌, take, update_first, subst, ap, ◌∙◌,
}
use maxtag.Delivery.Types.{
  approved, executing, ToolApproval, approval_status_eq, tool_approval_claim_lost,
}
use maxtag.Delivery.Approvals.Links.{Urls}
use maxtag.Delivery.Approvals.{
  is_overdue, expire, expire_tool_approvals, with_id, start, claim_tool_approval, holds_claim,
  complete, complete_tool_approval, fail, settle, fail_tool_approval,
}

-- Expiry leaves an approval that is being carried out where it is.
expired-executing :
    (id : Text) (later : ℕ) (xs : List ToolApproval) (a : ToolApproval)
    → find (with_id id) xs ≡ some a
    → approval_status_eq a.status executing ≡ true
    → find (with_id id) (expire_tool_approvals xs later) ≡ some a
unfolding expire_tool_approvals
expired-executing id later xs a found runs =
    let kept = find-update_all (with_id id) (is_overdue later) expire xs (λ x. refl) found in
    ground (arith, kept, runs)

-- What a successful claim leaves under the id: the approval, being carried out by the claimer.
claimed :
    (id claimer digest : Text) (at : ℕ) (xs ys : List ToolApproval) (b : ToolApproval)
    → claim_tool_approval id claimer digest at xs ≡ (ys, some b)
    → (find (with_id id) ys ≡ some b)
      × (approval_status_eq b.status executing ≡ true)
      × (b.claimed_by ≡ some claimer)
unfolding claim_tool_approval
claimed id claimer digest at xs ys b h =
    let current = expire_tool_approvals xs at in
    elim (Option-cases (find (with_id id) current)) [
      | inl absent ↦ absurd (ground (arith, absent))
      | inr (a, found) ↦
          let hit : text_eq a.id id ≡ true = find-passes (with_id id) current found in
          let kept = find-update_first (with_id id) (start claimer at) current found hit in
          elim (Bool-cases
            (approval_status_eq a.status approved && text_eq a.argument_digest digest)) [
              | inr refused ↦ absurd (ground (arith, found, refused))
              | inl granted ↦
                  let new : start claimer at a ≡ b = ground (arith, found, granted) in
                  let list : update_first (with_id id) (start claimer at) current ≡ ys =
                    ground (arith, found, granted) in
                  (
                    subst (λ zs. find (with_id id) zs ≡ some b) list (kept ∙ ap some new),
                    subst (λ x. approval_status_eq x.status executing ≡ true) new refl,
                    subst (λ x. x.claimed_by ≡ some claimer) new refl,
                  )
            ]
    ]

-- After a claim has succeeded, every further claim of the approval is refused, whoever makes it and
-- whenever; another worker than the claimer can neither complete it nor report its failure; and the
-- claimer can do both.
pub claim_tool_approval-exclusive :
    (urls : Urls) (id claimer digest : Text) (at : ℕ) (xs ys : List ToolApproval) (b : ToolApproval)
    (other digest' error : Text) (preview link : Option Text) (later : ℕ)
    → claim_tool_approval id claimer digest at xs ≡ (ys, some b)
    → ((claim_tool_approval id other digest' later ys).1 ≡ none)
      × (complete_tool_approval urls id other preview link later ys ≡ (
          if text_eq claimer other
          then settle id (complete urls preview link later) b ys
          else err tool_approval_claim_lost))
      × (fail_tool_approval id other error later ys ≡ (
          if text_eq claimer other
          then settle id (fail (take 500 error) later) b ys
          else err tool_approval_claim_lost))
unfolding claim_tool_approval complete_tool_approval fail_tool_approval
claim_tool_approval-exclusive urls id claimer digest at xs ys b other digest' error preview link
      later h =
    let (found, runs, holder) = claimed id claimer digest at xs ys b h in
    let kept = expired-executing id later ys b found runs in
    let test : holds_claim other b ≡ text_eq claimer other =
      rw (runs, holder) (unfold option_eq in refl) in
    (ground (arith, kept, runs), ground (arith, found, test), ground (arith, found, test))
