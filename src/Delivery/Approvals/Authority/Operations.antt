-- ===== src/Delivery/Approvals/Authority/Operations.antt =====
-- Every operation on the approvals keeps them authorised.
use maxtag.Base.{
  Option, or_else, ◌*◌, ℕ, ◌≡◌, refl, subst, inl, inr, true, ◌||◌, ◌&&◌, Text, text, text_eq, List,
  [], ◌∷◌, Option, some, find, All, All-append, All-remove_indices, All-find, Bool-cases,
  Option-cases, ok, arith, update_first, All-update_found, take, All-take, All-sort_by,
  All-filter_self, All-imp, tag, clamp, Reaches, References-selection, All-contains,
  All-update_indices_at,
}
use maxtag.Delivery.Types.{
  ApprovalStatus, approved, executing, succeeded, rejected, ToolApproval, ProposeInput,
  approval_status_eq,
}
use maxtag.Delivery.Approvals.Links.{Urls}
use maxtag.Delivery.Approvals.{
  expire_tool_approvals, with_id, same_call, new_approval, trim_approvals, surplus_indices,
  propose_tool_approval, approve, approve_tool_approval, reject, reject_tool_approval, start,
  claim_tool_approval, holds_claim, complete, complete_tool_approval, schedule, is_scheduled,
  mark_continuation_scheduled, fail, fail_tool_approval, is_stale, stale_selection,
  recover_stale_tool_approvals,
}
use maxtag.Delivery.Approvals.Authority.{
  IsAuthorised, AreAuthorised, IsCurrent, expire_tool_approvals-IsAuthorised,
  expire_tool_approvals-IsCurrent, approve-IsAuthorised, reject-IsAuthorised, start-IsAuthorised,
  settled-IsAuthorised,
}

trim_approvals-IsAuthorised :
    (xs : List ToolApproval) → AreAuthorised xs → AreAuthorised (trim_approvals xs)
unfolding trim_approvals
trim_approvals-IsAuthorised xs v =
    ground (arith, All-remove_indices IsAuthorised (surplus_indices xs) 0 xs v)

pub propose-IsAuthorised :
    (input : ProposeInput) (at : ℕ) (uuid : Text) (xs : List ToolApproval)
    → AreAuthorised xs
    → AreAuthorised (propose_tool_approval input at uuid xs).0
unfolding propose_tool_approval
propose-IsAuthorised input at uuid xs v =
    let w = expire_tool_approvals-IsAuthorised xs at v in
    let current = expire_tool_approvals xs at in
    let new : IsAuthorised (new_approval input uuid at) = record {
      granted = λ h. cc;
      started = λ h. cc;
      refused = λ h. cc;
    } in
    elim (Option-cases (find (same_call input) current)) [
      | inl absent ↦
          rw (absent, propose_tool_approval)
            (trim_approvals-IsAuthorised _
              (All-append IsAuthorised current (new_approval input uuid at ∷ []) w (new, tt)))
      | inr (a, found) ↦ rw (found, propose_tool_approval) w
    ]

module _ (id : Text) (write : ToolApproval → ToolApproval) (a : ToolApproval)
    (xs : List ToolApproval) where
  settle-IsAuthorised :
      {ys : List ToolApproval}
      → find (with_id id) xs ≡ some a
      → IsAuthorised (write a)
      → update_first (with_id id) write xs ≡ ys
      → AreAuthorised xs
      → AreAuthorised ys
  settle-IsAuthorised found new same v =
      subst AreAuthorised same (All-update_found IsAuthorised (with_id id) write xs found new v)

pub approve-tool-IsAuthorised :
    (id actor : Text) (at : ℕ) (xs ys : List ToolApproval) (b : ToolApproval)
    → approve_tool_approval id actor at xs ≡ ok (ys, b)
    → AreAuthorised xs
    → AreAuthorised ys
unfolding approve_tool_approval
approve-tool-IsAuthorised id actor at xs ys b h v =
    let current = expire_tool_approvals xs at in
    let w = expire_tool_approvals-IsAuthorised xs at v in
    elim (Option-cases (find (with_id id) current)) [
      | inl absent ↦ absurd (ground (arith, absent))
      | inr (a, found) ↦
          let fresh =
            All-find (IsCurrent at) (with_id id) current (expire_tool_approvals-IsCurrent xs at)
              found in
          elim (Bool-cases (approval_status_eq a.status approved)) [
            | inl already ↦
                let same : current ≡ ys = ground (arith, found, already) in
                subst AreAuthorised same w
            | inr other ↦ elim (Bool-cases (approval_status_eq a.status ApprovalStatus.pending)) [
              | inl waits ↦
                  settle-IsAuthorised id (approve actor at) a current found
                    (approve-IsAuthorised actor at a waits fresh)
                    (ground (arith, found, other, waits)) w
              | inr settled ↦ absurd (ground (arith, found, other, settled))
            ]
          ]
    ]

pub reject-tool-IsAuthorised :
    (id actor : Text) (at : ℕ) (xs ys : List ToolApproval) (b : ToolApproval)
    → reject_tool_approval id actor at xs ≡ ok (ys, b)
    → AreAuthorised xs
    → AreAuthorised ys
unfolding reject_tool_approval
reject-tool-IsAuthorised id actor at xs ys b h v =
    let current = expire_tool_approvals xs at in
    let w = expire_tool_approvals-IsAuthorised xs at v in
    elim (Option-cases (find (with_id id) current)) [
      | inl absent ↦ absurd (ground (arith, absent))
      | inr (a, found) ↦ elim (Bool-cases (approval_status_eq a.status rejected)) [
        | inl already ↦
            let same : current ≡ ys = ground (arith, found, already) in subst AreAuthorised same w
        | inr other ↦
            elim (Bool-cases (
              approval_status_eq a.status ApprovalStatus.pending
              || approval_status_eq a.status approved)) [
                | inl waits ↦
                    settle-IsAuthorised id (reject actor at) a current found
                      (reject-IsAuthorised actor at a) (ground (arith, found, other, waits)) w
                | inr settled ↦ absurd (ground (arith, found, other, settled))
              ]
      ]
    ]

pub claim-IsAuthorised :
    (id claimer digest : Text) (at : ℕ) (xs : List ToolApproval)
    → AreAuthorised xs
    → AreAuthorised (claim_tool_approval id claimer digest at xs).0
unfolding claim_tool_approval
claim-IsAuthorised id claimer digest at xs v =
    let current = expire_tool_approvals xs at in
    let w = expire_tool_approvals-IsAuthorised xs at v in
    elim (Option-cases (find (with_id id) current)) [
      | inl absent ↦ rw (absent, claim_tool_approval) w
      | inr (a, found) ↦
          let fresh =
            All-find (IsCurrent at) (with_id id) current (expire_tool_approvals-IsCurrent xs at)
              found in
          let was = All-find IsAuthorised (with_id id) current w found in
          rw (found, claim_tool_approval)
            (elim (Bool-cases
              (approval_status_eq a.status approved && text_eq a.argument_digest digest)) [
                | inl granted ↦ rw granted (
                    All-update_found IsAuthorised (with_id id) (start claimer at) current found
                      (start-IsAuthorised claimer at a (ground (arith, granted)) fresh was) w)
                | inr refused ↦ rw refused w
              ])
    ]

pub complete-IsAuthorised :
    (urls : Urls) (id claimer : Text) (preview url : Option Text) (at : ℕ)
    (xs ys : List ToolApproval) (b : ToolApproval)
    → complete_tool_approval urls id claimer preview url at xs ≡ ok (ys, b)
    → AreAuthorised xs
    → AreAuthorised ys
unfolding complete_tool_approval
complete-IsAuthorised urls id claimer preview url at xs ys b h v =
    elim (Option-cases (find (with_id id) xs)) [
      | inl absent ↦ absurd (ground (arith, absent))
      | inr (a, found) ↦ elim (Bool-cases (holds_claim claimer a)) [
        | inr lost ↦ absurd (ground (arith, found, lost))
        | inl held ↦
            settle-IsAuthorised id (complete urls preview url at) a xs found
              (settled-IsAuthorised a (complete urls preview url at a) (ground (arith, held))
                (All-find IsAuthorised (with_id id) xs v found) refl refl refl refl refl refl)
              (ground (arith, found, held)) v
      ]
    ]

pub fail-tool-IsAuthorised :
    (id claimer error : Text) (at : ℕ) (xs ys : List ToolApproval) (b : ToolApproval)
    → fail_tool_approval id claimer error at xs ≡ ok (ys, b)
    → AreAuthorised xs
    → AreAuthorised ys
unfolding fail_tool_approval
fail-tool-IsAuthorised id claimer error at xs ys b h v =
    elim (Option-cases (find (with_id id) xs)) [
      | inl absent ↦ absurd (ground (arith, absent))
      | inr (a, found) ↦ elim (Bool-cases (holds_claim claimer a)) [
        | inr lost ↦ absurd (ground (arith, found, lost))
        | inl held ↦
            settle-IsAuthorised id (fail (take 500 error) at) a xs found
              (settled-IsAuthorised a (fail (take 500 error) at a) (ground (arith, held))
                (All-find IsAuthorised (with_id id) xs v found) refl refl refl refl refl refl)
              (ground (arith, found, held)) v
      ]
    ]

schedule-IsAuthorised :
    (run : Text) (at : ℕ) (a : ToolApproval) → IsAuthorised a → IsAuthorised (schedule run at a)
schedule-IsAuthorised run at a v = record {
  granted = v.granted;
  started = v.started;
  refused = v.refused;
}

pub continuation-IsAuthorised :
    (id run : Text) (at : ℕ) (xs ys : List ToolApproval) (b : ToolApproval)
    → mark_continuation_scheduled id run at xs ≡ ok (ys, b)
    → AreAuthorised xs
    → AreAuthorised ys
unfolding mark_continuation_scheduled
continuation-IsAuthorised id run at xs ys b h v = elim (Option-cases (find (with_id id) xs)) [
  | inl absent ↦ absurd (ground (arith, absent))
  | inr (a, found) ↦ elim (Bool-cases (approval_status_eq a.status succeeded)) [
    | inr other ↦ absurd (ground (arith, found, other))
    | inl done ↦ elim (Bool-cases (is_scheduled a.continuation_status)) [
      | inl already ↦
          let same : xs ≡ ys = ground (arith, found, done, already) in subst AreAuthorised same v
      | inr waits ↦
          settle-IsAuthorised id (schedule run at) a xs found
            (schedule-IsAuthorised run at a (All-find IsAuthorised (with_id id) xs v found))
            (ground (arith, found, done, waits)) v
    ]
  ]
]

abbrev pub IsRunning : ToolApproval → Type 0
IsRunning a = approval_status_eq a.status executing ≡ true

-- What recovery takes are references to approvals that are being carried out.
pub stale_selection-IsRunning :
    (at older limit : ℕ) (xs : List ToolApproval)
    → All (Reaches xs) (stale_selection at older limit xs)
      × All (λ p. IsRunning p.1) (stale_selection at older limit xs)
unfolding stale_selection
stale_selection-IsRunning at older limit xs = (
  (References-selection (clamp 1 500 limit) _ _ xs).0,
  All-take (λ p. IsRunning p.1) (clamp 1 500 limit) _
      (All-sort_by _ (λ p. IsRunning p.1) _
        (All-imp (λ p. is_stale at older p.1 ≡ true) (λ p. IsRunning p.1) _
          (λ p h. ground (arith, h)) (All-filter_self (λ p. is_stale at older p.1) (tag 0 xs)))),
)

pub recover-IsAuthorised :
    (at : ℕ) (older limit : Option ℕ) (xs : List ToolApproval)
    → AreAuthorised xs
    → AreAuthorised (recover_stale_tool_approvals at older limit xs).0
unfolding recover_stale_tool_approvals
recover-IsAuthorised at older limit xs v =
    let write = fail (text "execution_outcome_unknown") at in
    let (reach, runs) =
      stale_selection-IsRunning at (or_else older (5 * 60_000)) (or_else limit 100) xs in
    All-update_indices_at IsAuthorised _ write xs
      (λ j a listed here w.
        settled-IsAuthorised a (write a) (All-contains IsRunning xs _ j a runs reach listed here) w
          refl refl refl refl refl refl)
      v
