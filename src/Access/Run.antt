-- ===== src/Access/Run.antt =====
-- The access store under any sequence of requests. The queue of `mutate` runs one after the other, and
-- one that throws leaves the state as it was.
use maxtag.Base.{
  ℕ, ◌≡◌, refl, ◌≤◌, inl, inr, Text, text_eq, text_eq_iff, List, [], ◌∷◌, none, Result, ok, err,
  arith, Memᴰ, Bool-cases,
}
use maxtag.Access.Types.{
  WorkspaceMember, MemberIdentity, AccessState, AccessError, create_empty_state,
}
use maxtag.Access.Members.{UpsertMemberInput, upsert_member, remove_member, active_owner_count}
use maxtag.Access.Members.Owners.{owner-upsert_member, owner-remove_member}
use maxtag.Access.Members.Identities.{
  HasDistinctIdentities, upsert_member-HasDistinctIdentities, remove_member-HasDistinctIdentities,
  Pairwise-id,
}
use maxtag.Access.Projects.{
  PolicyRequest, set_project_policy, MembershipRequest, upsert_project_membership,
  remove_project_membership,
}
use maxtag.Access.Projects.References.{
  IsReferential, upsert_member-IsReferential, remove_member-IsReferential,
  upsert_project_membership-IsReferential, remove_project_membership-IsReferential,
  set_project_policy-IsReferential, members_kept_by_policy, members_kept_by_membership,
  members_kept_by_removal,
}

-- A request, with the time and the random ids that it meets.
pub data Request : Type 0 where
  upserts_member : UpsertMemberInput → Request
  removes_member : (workspace_id member_id actor : Text) → Request
  sets_policy : PolicyRequest → Request
  upserts_membership : MembershipRequest → Request
  removes_membership : (workspace_id project_id member_id actor : Text) → Request

abbrev pub after {ℓ} :
    {A : Type ℓ} → AccessState → Result AccessError (AccessState × A) → AccessState
after s (ok (s', a)) = s'
after s (err e) = s

unfoldable pub step : AccessState → ℕ × (ℕ → Text) × Request → AccessState
step s (at, uuid, upserts_member input) = after s (upsert_member input at uuid s)
step s (at, uuid, removes_member w id actor) = after s (remove_member w id actor at uuid s)
step s (at, uuid, sets_policy input) = after s (set_project_policy input at uuid s)
step s (at, uuid, upserts_membership input) = after s (upsert_project_membership input at uuid s)
step s (at, uuid, removes_membership w p id actor) =
    after s (remove_project_membership w p id actor at uuid s)

unfoldable pub run : AccessState → List (ℕ × (ℕ → Text) × Request) → AccessState
unfolding step
run s [] = s
run s (r ∷ rs) = run (step s r) rs

-- What holds before, and after each success, holds after the request.
after-keeps {κ} :
    {A : Type 0} (P : AccessState → Type κ) (s : AccessState)
    (r : Result AccessError (AccessState × A))
    → P s
    → ((s' : AccessState) (a : A) → r ≡ ok (s', a) → P s')
    → P (after s r)
after-keeps P s (ok (s', a)) h keep = keep s' a refl
after-keeps P s (err e) h keep = h

abbrev pub IsValid : AccessState → Type 0
IsValid s = HasDistinctIdentities s × IsReferential s

pub step-IsValid : (s : AccessState) (r : ℕ × (ℕ → Text) × Request) → IsValid s → IsValid (step s r)
unfolding step
step-IsValid s (at, uuid, upserts_member input) (d, v) =
    after-keeps IsValid s _ (d, v)
      (λ s' m h. (
        upsert_member-HasDistinctIdentities input at uuid s s' m h d,
        upsert_member-IsReferential input at uuid s s' m h v,
      ))
step-IsValid s (at, uuid, removes_member w id actor) (d, v) =
    after-keeps IsValid s _ (d, v)
      (λ s' m h. (
        remove_member-HasDistinctIdentities w id actor at uuid s s' m h d,
        remove_member-IsReferential w id actor at uuid s s' m h v,
      ))
step-IsValid s (at, uuid, sets_policy input) (d, v) =
    after-keeps IsValid s _ (d, v)
      (λ s' p h. (
        rw (members_kept_by_policy input at uuid s s' p h) d,
        set_project_policy-IsReferential input at uuid s s' p h v,
      ))
step-IsValid s (at, uuid, upserts_membership input) (d, v) =
    after-keeps IsValid s _ (d, v)
      (λ s' p h. (
        rw (members_kept_by_membership input at uuid s s' p h) d,
        upsert_project_membership-IsReferential input at uuid s s' p h v,
      ))
step-IsValid s (at, uuid, removes_membership w p id actor) (d, v) =
    after-keeps IsValid s _ (d, v)
      (λ s' o h. (
        rw (members_kept_by_removal w p id actor at uuid s s' o h) d,
        remove_project_membership-IsReferential w p id actor at uuid s s' o h v,
      ))

run-IsValid :
    (s : AccessState) (rs : List (ℕ × (ℕ → Text) × Request)) → IsValid s → IsValid (run s rs)
unfolding run
run-IsValid s [] v = v
run-IsValid s (r ∷ rs) v = run-IsValid (step s r) rs (step-IsValid s r v)

empty-IsValid : IsValid create_empty_state
unfolding create_empty_state
empty-IsValid = (tt, tt)

-- After any requests to an empty store, every project membership belongs to a member that is in the
-- same workspace.
pub run-IsReferential :
    (rs : List (ℕ × (ℕ → Text) × Request)) → IsReferential (run create_empty_state rs)
run-IsReferential rs = (run-IsValid create_empty_state rs empty-IsValid).1

-- After any requests to an empty store, two members of one workspace that hold one identity have one id.
pub identity_determines_member :
    (rs : List (ℕ × (ℕ → Text) × Request)) (a b : WorkspaceMember) (i : MemberIdentity)
    → let s = run create_empty_state rs in
      Memᴰ a s.members
      → Memᴰ b s.members
      → a.workspace_id ≡ b.workspace_id
      → Memᴰ i a.identities
      → Memᴰ i b.identities
      → a.id ≡ b.id
identity_determines_member rs a b i ma mb w ia ib = elim (Bool-cases (text_eq a.id b.id)) [
  | inl same ↦ (text_eq_iff a.id b.id).0 same
  | inr other ↦ absurd (
      Pairwise-id _ a b i (run-IsValid create_empty_state rs empty-IsValid).0 ma mb w ia ib
        (λ e. ground (arith, text_eq_iff a.id b.id)))
]

step-owner :
    (s : AccessState) (r : ℕ × (ℕ → Text) × Request) (w : Text)
    → 1 ≤ active_owner_count s w none
    → 1 ≤ active_owner_count (step s r) w none
unfolding step active_owner_count
step-owner s (at, uuid, upserts_member input) w h =
    after-keeps (λ t. 1 ≤ active_owner_count t w none) s _ h
      (λ s' m e. owner-upsert_member input at uuid s s' m w e h)
step-owner s (at, uuid, removes_member w' id actor) w h =
    after-keeps (λ t. 1 ≤ active_owner_count t w none) s _ h
      (λ s' m e. owner-remove_member w' id actor at uuid s s' m w e h)
step-owner s (at, uuid, sets_policy input) w h =
    after-keeps (λ t. 1 ≤ active_owner_count t w none) s _ h
      (λ s' p e. rw (members_kept_by_policy input at uuid s s' p e) h)
step-owner s (at, uuid, upserts_membership input) w h =
    after-keeps (λ t. 1 ≤ active_owner_count t w none) s _ h
      (λ s' p e. rw (members_kept_by_membership input at uuid s s' p e) h)
step-owner s (at, uuid, removes_membership w' p id actor) w h =
    after-keeps (λ t. 1 ≤ active_owner_count t w none) s _ h
      (λ s' o e. rw (members_kept_by_removal w' p id actor at uuid s s' o e) h)

-- A workspace that has an active owner has one after any requests whatever, failed ones included.
pub run-owner :
    (s : AccessState) (rs : List (ℕ × (ℕ → Text) × Request)) (w : Text)
    → 1 ≤ active_owner_count s w none
    → 1 ≤ active_owner_count (run s rs) w none
unfolding run
run-owner s [] w h = h
run-owner s (r ∷ rs) w h = run-owner (step s r) rs w (step-owner s r w h)
