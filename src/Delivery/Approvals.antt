-- ===== src/Delivery/Approvals.antt =====
-- packages/delivery/src/file-delivery-store.ts, the approvals of tool calls: a call is proposed,
-- approved or rejected by a person, claimed by a worker and carried out, and expires before it is
-- claimed. The operations read and write the list of approvals alone.
pub mod Links
pub mod Authority
pub mod Claims
pub mod Run
mod Examples
use maxtag.Base.{
  ℕ, ◌+◌, ◌-◌, ◌*◌, Bool, ◌&&◌, ◌||◌, not, Text, text, text_eq, option_eq, List, [], ◌∷◌, ◌++◌, map,
  Option, none, some, is_some, or_else, ltb, leb, ◌==◌, max, clamp, if◌then◌else◌, take, filter,
  find, length, tag, update_first, update_all, update_indices, remove_indices, sort_by, Result, ok,
  err,
}
use maxtag.Delivery.Types.{
  ApprovalStatus, approved, executing, succeeded, failed, rejected, expired, ContinuationStatus,
  scheduled, ToolApproval, ProposeInput, approval_status_eq, allows, DeliveryError,
  tool_approval_not_found, tool_approval_not_pending, tool_approval_not_rejectable,
  tool_approval_not_succeeded, tool_approval_claim_lost,
}
use maxtag.Delivery.Approvals.Links.{Urls, safe_tool_result_url}

-- An approval that still waits, for a person or for a worker, when its time has come.
abbrev pub is_overdue : ℕ → ToolApproval → Bool
is_overdue at a =
    (approval_status_eq a.status ApprovalStatus.pending || approval_status_eq a.status approved)
    && leb a.expires_at at

abbrev pub expire : ToolApproval → ToolApproval
expire a = record a { status = expired; error = some (text "tool_approval_expired") }

unfoldable pub expire_tool_approvals : List ToolApproval → ℕ → List ToolApproval
expire_tool_approvals approvals at = update_all (is_overdue at) expire approvals

abbrev pub with_id : Text → ToolApproval → Bool
with_id id a = text_eq a.id id

unfoldable pub revision_eq : Option ℕ → Option ℕ → Bool
revision_eq none none = Bool.true
revision_eq (some m) (some n) = m == n
revision_eq _ _ = Bool.false

-- The same call: of one run, with one tool, arguments and credential.
abbrev pub same_call : ProposeInput → ToolApproval → Bool
same_call input a =
    text_eq a.run_id input.run_id
    && text_eq a.tool_name input.tool_name
    && text_eq a.argument_digest input.argument_digest
    && option_eq a.credential_identity_id input.credential_identity_id
    && revision_eq a.credential_identity_revision input.credential_identity_revision

abbrev pub new_approval : ProposeInput → Text → ℕ → ToolApproval
new_approval input id at = record {
  id = id;
  status = ApprovalStatus.pending;
  run_id = input.run_id;
  tool_call_id = input.tool_call_id;
  tool_name = input.tool_name;
  title = input.title;
  grant_kind = input.grant_kind;
  risk = input.risk;
  arguments = input.arguments;
  argument_summary = input.argument_summary;
  argument_digest = input.argument_digest;
  credential_identity_id = input.credential_identity_id;
  credential_identity_revision = input.credential_identity_revision;
  external_actor = input.external_actor;
  platform = input.thread.platform;
  thread = input.thread;
  thread_id = input.thread.id;
  workspace_id = input.thread.workspace_id;
  project_id = input.thread.project_id;
  channel_id = input.thread.channel_id;
  requested_by = input.requested_by;
  requested_at = at;
  expires_at = at + clamp 60_000 (24 * 60 * 60_000) (or_else input.ttl_ms (15 * 60_000));
  approved_at = none;
  approved_by = none;
  rejected_at = none;
  rejected_by = none;
  claimed_at = none;
  claimed_by = none;
  completed_at = none;
  failed_at = none;
  result_preview = none;
  result_url = none;
  error = none;
  continuation_status = some ContinuationStatus.pending;
  continuation_run_id = none;
  continuation_scheduled_at = none;
}

abbrev pub is_terminal : ToolApproval → Bool
is_terminal a =
    approval_status_eq a.status succeeded
    || approval_status_eq a.status failed
    || approval_status_eq a.status rejected
    || approval_status_eq a.status expired

-- The oldest settled approvals, as many as there are too many.
unfoldable pub surplus_indices : List ToolApproval → List ℕ
surplus_indices approvals =
    map (λ p. p.0)
      (take (length approvals - 2_000) (
        sort_by (λ p q. leb p.1.requested_at q.1.requested_at)
          (filter (λ p. is_terminal p.1) (tag 0 approvals))))

unfoldable pub trim_approvals : List ToolApproval → List ToolApproval
unfolding surplus_indices
trim_approvals approvals =
    if ltb 2_000 (length approvals)
    then remove_indices (surplus_indices approvals) 0 approvals
    else approvals

-- A change of the approvals and what it returns.
abbrev pub Change : Type 0 → Type 0
Change A = List ToolApproval → List ToolApproval × A

-- A change that may throw.
abbrev pub Attempt : Type 0
Attempt = List ToolApproval → Result DeliveryError (List ToolApproval × ToolApproval)

unfoldable pub propose_tool_approval : ProposeInput → ℕ → Text → Change ToolApproval
unfolding expire_tool_approvals trim_approvals revision_eq
propose_tool_approval input at uuid approvals =
    let current = expire_tool_approvals approvals at in
    let approval = new_approval input uuid at in
    elim (find (same_call input) current) [
      | some existing ↦ (current, existing)
      | none ↦ (trim_approvals (current ++ approval ∷ []), approval)
    ]

unfoldable pub get_tool_approval : Text → ℕ → Change (Option ToolApproval)
unfolding expire_tool_approvals
get_tool_approval id at approvals =
    let current = expire_tool_approvals approvals at in (current, find (with_id id) current)

pub record ApprovalFilter : Type 0 where
  pub status : Option ApprovalStatus
  pub workspace_id : Option Text
  pub project_id : Option Text
  pub thread_id : Option Text
  pub run_id : Option Text
  pub limit : Option ℕ

abbrev pub allows_status : Option ApprovalStatus → ApprovalStatus → Bool
allows_status none s = Bool.true
allows_status (some wanted) s = approval_status_eq s wanted

unfoldable pub list_tool_approvals : ApprovalFilter → ℕ → Change (List ToolApproval)
unfolding expire_tool_approvals
list_tool_approvals options at approvals =
    let current = expire_tool_approvals approvals at in
    (
      current,
      take (clamp 1 500 (or_else options.limit 100)) (
          sort_by (λ a b. leb b.requested_at a.requested_at)
            (filter
              (λ a.
                allows_status options.status a.status
                && allows options.workspace_id a.workspace_id
                && allows options.project_id a.project_id
                && allows options.thread_id (some a.thread_id)
                && allows options.run_id (some a.run_id))
              current)),
    )

-- A write to the approval that the search has found, and the clone of it that is returned.
abbrev pub settle :
    Text
    → (ToolApproval → ToolApproval)
    → ToolApproval
    → List ToolApproval
    → Result DeliveryError (List ToolApproval × ToolApproval)
settle id write a approvals = ok (update_first (with_id id) write approvals, write a)

abbrev pub approve : Text → ℕ → ToolApproval → ToolApproval
approve actor at a = record a { status = approved; approved_at = some at; approved_by = some actor }

abbrev pub reject : Text → ℕ → ToolApproval → ToolApproval
reject actor at a = record a { status = rejected; rejected_at = some at; rejected_by = some actor }

abbrev pub approve_found : Text → Text → ℕ → ToolApproval → Attempt
approve_found id actor at a current =
    if approval_status_eq a.status approved
    then ok (current, a)
    else if approval_status_eq a.status ApprovalStatus.pending
    then settle id (approve actor at) a current
    else err (tool_approval_not_pending a.status)

unfoldable pub approve_tool_approval : Text → Text → ℕ → Attempt
unfolding expire_tool_approvals
approve_tool_approval id actor at approvals =
    let current = expire_tool_approvals approvals at in
    elim (find (with_id id) current) [
      | none ↦ err tool_approval_not_found
      | some a ↦ approve_found id actor at a current
    ]

abbrev pub reject_found : Text → Text → ℕ → ToolApproval → Attempt
reject_found id actor at a current =
    if approval_status_eq a.status rejected
    then ok (current, a)
    else if approval_status_eq a.status ApprovalStatus.pending
        || approval_status_eq a.status approved
    then settle id (reject actor at) a current
    else err (tool_approval_not_rejectable a.status)

unfoldable pub reject_tool_approval : Text → Text → ℕ → Attempt
unfolding expire_tool_approvals
reject_tool_approval id actor at approvals =
    let current = expire_tool_approvals approvals at in
    elim (find (with_id id) current) [
      | none ↦ err tool_approval_not_found
      | some a ↦ reject_found id actor at a current
    ]

abbrev pub start : Text → ℕ → ToolApproval → ToolApproval
start claimer at a = record a {
  status = executing;
  claimed_at = some at;
  claimed_by = some claimer;
}

unfoldable pub claim_tool_approval : Text → Text → Text → ℕ → Change (Option ToolApproval)
unfolding expire_tool_approvals
claim_tool_approval id claimer digest at approvals =
    let current = expire_tool_approvals approvals at in
    elim (find (with_id id) current) [
      | none ↦ (current, none)
      | some a ↦
          if approval_status_eq a.status approved && text_eq a.argument_digest digest
          then (update_first (with_id id) (start claimer at) current, some (start claimer at a))
          else (current, none)
    ]

-- Whether the call is being carried out by this claimer.
abbrev pub holds_claim : Text → ToolApproval → Bool
holds_claim claimer a =
    approval_status_eq a.status executing && option_eq a.claimed_by (some claimer)

abbrev pub bounded : ℕ → Option Text → Option Text
bounded n none = none
bounded n (some t) = some (take n t)

module _ (urls : Urls) where
  abbrev pub complete : Option Text → Option Text → ℕ → ToolApproval → ToolApproval
  complete preview url at a = record a {
    status = succeeded;
    completed_at = some at;
    result_preview = bounded 300 preview;
    result_url = safe_tool_result_url urls url;
  }

  unfoldable pub complete_tool_approval : Text → Text → Option Text → Option Text → ℕ → Attempt
  complete_tool_approval id claimer preview url at approvals = elim (find (with_id id) approvals) [
    | none ↦ err tool_approval_not_found
    | some a ↦
        if holds_claim claimer a
        then settle id (complete preview url at) a approvals
        else err tool_approval_claim_lost
  ]

abbrev pub is_scheduled : Option ContinuationStatus → Bool
is_scheduled (some scheduled) = Bool.true
is_scheduled _ = Bool.false

abbrev pub schedule : Text → ℕ → ToolApproval → ToolApproval
schedule run at a = record a {
  continuation_status = some scheduled;
  continuation_run_id = some run;
  continuation_scheduled_at = some at;
}

unfoldable pub mark_continuation_scheduled : Text → Text → ℕ → Attempt
mark_continuation_scheduled id run at approvals = elim (find (with_id id) approvals) [
  | none ↦ err tool_approval_not_found
  | some a ↦
      if not (approval_status_eq a.status succeeded)
      then err (tool_approval_not_succeeded a.status)
      else if is_scheduled a.continuation_status
      then ok (approvals, a)
      else settle id (schedule run at) a approvals
]

abbrev pub fail : Text → ℕ → ToolApproval → ToolApproval
fail error at a = record a { status = failed; failed_at = some at; error = some error }

unfoldable pub fail_tool_approval : Text → Text → Text → ℕ → Attempt
fail_tool_approval id claimer error at approvals = elim (find (with_id id) approvals) [
  | none ↦ err tool_approval_not_found
  | some a ↦
      if holds_claim claimer a
      then settle id (fail (take 500 error) at) a approvals
      else err tool_approval_claim_lost
]

-- `claimedAt <= now - max(1000, olderThanMs)`
abbrev pub is_stale : ℕ → ℕ → ToolApproval → Bool
is_stale at older_than a =
    approval_status_eq a.status executing
    && elim a.claimed_at [ none ↦ Bool.false | some t ↦ leb (t + max 1_000 older_than) at ]

unfoldable pub stale_selection : ℕ → ℕ → ℕ → List ToolApproval → List (ℕ × ToolApproval)
stale_selection at older_than limit approvals = take (clamp 1 500 limit) (
    sort_by (λ p q. leb (or_else p.1.claimed_at 0) (or_else q.1.claimed_at 0))
      (filter (λ p. is_stale at older_than p.1) (tag 0 approvals)))

-- The result's count of failed approvals is the length of its records.
unfoldable pub recover_stale_tool_approvals : ℕ → Option ℕ → Option ℕ → Change (List ToolApproval)
unfolding stale_selection
recover_stale_tool_approvals at older_than limit approvals =
    let older = or_else older_than (5 * 60_000) in
    let candidates = stale_selection at older (or_else limit 100) approvals in
    let write = fail (text "execution_outcome_unknown") at in
    (update_indices (map (λ p. p.0) candidates) write 0 approvals, map (λ p. write p.1) candidates)
