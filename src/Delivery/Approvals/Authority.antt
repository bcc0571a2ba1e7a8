-- ===== src/Delivery/Approvals/Authority.antt =====
-- What holds of every approval that the store reaches: what has been carried out had been approved and
-- claimed in time.
pub mod Operations
use maxtag.Base.{
  ℕ, ◌≡◌, ◌<◌, refl, subst, inl, inr, Bool, true, false, ◌||◌, ◌&&◌, Text, text, text_eq, List, [],
  ◌∷◌, ◌++◌, map, Option, none, some, is_some, find, length, All, All-append, All-update_all,
  All-update_first, All-update_indices, All-remove_indices, All-find, All-mem, Memᴰ, Bool-cases,
  Option-cases, Result, ok, err, arith, ltb, update_first, All-update_found, take, All-take,
  All-sort_by, All-filter_self, All-imp, tag, clamp, Reaches, References-selection, All-contains,
  All-update_indices_at,
}
use maxtag.Delivery.Types.{
  ApprovalStatus, approved, executing, succeeded, failed, rejected, expired, ToolApproval,
  ProposeInput, approval_status_eq, DeliveryError,
}
use maxtag.Delivery.Approvals.Links.{Urls}
use maxtag.Delivery.Approvals.{
  is_overdue, expire, expire_tool_approvals, with_id, same_call, new_approval, trim_approvals,
  surplus_indices, propose_tool_approval, get_tool_approval, ApprovalFilter, list_tool_approvals,
  approve, settle, approve_found, approve_tool_approval, reject, reject_found, reject_tool_approval,
  start, claim_tool_approval, holds_claim, complete, complete_tool_approval, schedule, is_scheduled,
  mark_continuation_scheduled, fail, fail_tool_approval, is_stale, stale_selection,
  recover_stale_tool_approvals,
}

abbrev pub Before : Option ℕ → ℕ → Type 0
Before none t = ⊥
Before (some s) t = s < t

abbrev pub was_started : ApprovalStatus → Bool
was_started s =
    approval_status_eq s executing || approval_status_eq s succeeded || approval_status_eq s failed

-- What has been approved was approved by somebody before it expired, what has been started was claimed
-- by somebody before it expired, and what has been rejected was rejected by somebody.
pub record IsAuthorised (a : ToolApproval) : Type 0 where
  pub granted :
      (approval_status_eq a.status approved || was_started a.status) ≡ true
      → Before a.approved_at a.expires_at × (is_some a.approved_by ≡ true)
  pub started :
      was_started a.status ≡ true → Before a.claimed_at a.expires_at × (is_some a.claimed_by ≡ true)
  pub refused : approval_status_eq a.status rejected ≡ true → is_some a.rejected_by ≡ true

abbrev pub AreAuthorised : List ToolApproval → Type 0
AreAuthorised xs = All IsAuthorised xs

expire-IsAuthorised : (a : ToolApproval) → IsAuthorised (expire a)
expire-IsAuthorised a = record { granted = λ h. cc; started = λ h. cc; refused = λ h. cc }

pub expire_tool_approvals-IsAuthorised :
    (xs : List ToolApproval) (at : ℕ)
    → AreAuthorised xs
    → AreAuthorised (expire_tool_approvals xs at)
unfolding expire_tool_approvals
expire_tool_approvals-IsAuthorised xs at v =
    All-update_all IsAuthorised (is_overdue at) expire xs (λ a _ _. expire-IsAuthorised a) v

abbrev pub IsCurrent : ℕ → ToolApproval → Type 0
IsCurrent at a = is_overdue at a ≡ false

pub expire_tool_approvals-IsCurrent :
    (xs : List ToolApproval) (at : ℕ) → All (IsCurrent at) (expire_tool_approvals xs at)
unfolding expire_tool_approvals
expire_tool_approvals-IsCurrent [] at = tt
expire_tool_approvals-IsCurrent (a ∷ xs) at = elim (Bool-cases (is_overdue at a)) [
  | inl late ↦ rw late (refl, expire_tool_approvals-IsCurrent xs at)
  | inr fresh ↦ rw fresh (fresh, expire_tool_approvals-IsCurrent xs at)
]

pub approve-IsAuthorised :
    (actor : Text) (at : ℕ) (a : ToolApproval)
    → approval_status_eq a.status ApprovalStatus.pending ≡ true
    → IsCurrent at a
    → IsAuthorised (approve actor at a)
approve-IsAuthorised actor at a waits fresh = record {
  granted = λ h. (ground arith, refl);
  started = λ h. cc;
  refused = λ h. cc;
}

pub reject-IsAuthorised :
    (actor : Text) (at : ℕ) (a : ToolApproval) → IsAuthorised (reject actor at a)
reject-IsAuthorised actor at a = record {
  granted = λ h. cc;
  started = λ h. cc;
  refused = λ h. refl;
}

pub start-IsAuthorised :
    (claimer : Text) (at : ℕ) (a : ToolApproval)
    → approval_status_eq a.status approved ≡ true
    → IsCurrent at a
    → IsAuthorised a
    → IsAuthorised (start claimer at a)
start-IsAuthorised claimer at a granted fresh v =
    let g = v.granted (ground (arith, granted)) in
    record { granted = λ h. g; started = λ h. (ground arith, refl); refused = λ h. cc }

-- A write that settles an approval that is being carried out.
pub settled-IsAuthorised :
    (a b : ToolApproval)
    → approval_status_eq a.status executing ≡ true
    → IsAuthorised a
    → b.approved_at ≡ a.approved_at
    → b.approved_by ≡ a.approved_by
    → b.claimed_at ≡ a.claimed_at
    → b.claimed_by ≡ a.claimed_by
    → b.expires_at ≡ a.expires_at
    → approval_status_eq b.status rejected ≡ false
    → IsAuthorised b
settled-IsAuthorised a b runs v p q r s t u =
    let g = v.granted (ground (arith, runs)) in
    let d = v.started (ground (arith, runs)) in
    record {
      granted = λ h. rw (p, q, t) g;
      started = λ h. rw (r, s, t) d;
      refused = λ h. cc (h, u);
    }
