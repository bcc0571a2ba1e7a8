-- ===== src/Access/Projects/References.antt =====
-- Every project membership belongs to a member of its workspace, after every change.
use maxtag.Base.{
  ℕ, ◌≡◌, inl, inr, true, not, Text, text_eq, text_eq_iff, List, [], ◌∷◌, Option, some, any, find,
  update_first, remove_first, ok, >>=-eq-ok, arith, All, All-append, All-filter, All-update_first,
  All-remove_first, All-zip, All-filter_self, Option-cases, Bool-cases, any-append_left,
  any_of_find, any-update_first, any-remove_first, is_some,
}
use maxtag.Access.Types.{
  WorkspaceMember, ProjectMembership, ProjectAccessPolicy, AccessState, required, project_key,
  append_audit, project_member_workspace_required, project_access_workspace_required,
}
use maxtag.Access.Members.{
  with_id, existing_member, UpsertMemberInput, upsert_member, remove_member,
}
use maxtag.Access.Members.Changes.{find_again, upsert_member-Upserted, remove_member-Removed}
use maxtag.Access.Projects.{
  membership_for, PolicyRequest, set_project_policy, MembershipRequest, join_project,
  upsert_project_membership, remove_project_membership,
}

-- The member of a membership is among the members.
abbrev pub HasMember : List WorkspaceMember → ProjectMembership → Type 0
HasMember ms p = any (with_id p.workspace_id p.member_id) ms ≡ true

abbrev pub IsReferential : AccessState → Type 0
IsReferential s = All (HasMember s.members) s.project_memberships

All-HasMember :
    (ms ms' : List WorkspaceMember) (ps : List ProjectMembership)
    → ((p : ProjectMembership) → HasMember ms p → HasMember ms' p)
    → All (HasMember ms) ps
    → All (HasMember ms') ps
All-HasMember ms ms' [] f h = tt
All-HasMember ms ms' (p ∷ ps) f h = (f p h.0, All-HasMember ms ms' ps f h.1)

-- A member that is written over keeps its id and its workspace.
HasMember-update_first :
    (w : Text) (e m : WorkspaceMember) (ms : List WorkspaceMember) (p : ProjectMembership)
    → m.workspace_id ≡ w
    → m.id ≡ e.id
    → HasMember ms p
    → HasMember (update_first (with_id w e.id) (λ _. m) ms) p
HasMember-update_first w e m ms p in_w same h =
    any-update_first (with_id p.workspace_id p.member_id) (with_id w e.id) (λ _. m) ms
      (λ x found hit. ground (
        arith,
        text_eq_iff x.id e.id,
        text_eq_iff x.workspace_id w,
        text_eq_iff x.id p.member_id,
        text_eq_iff x.workspace_id p.workspace_id,
        text_eq_iff m.id p.member_id,
        text_eq_iff m.workspace_id p.workspace_id,
      ))
      h

pub upsert_member-IsReferential :
    (input : UpsertMemberInput) (at : ℕ) (uuid : ℕ → Text) (s s' : AccessState)
    (m : WorkspaceMember)
    → upsert_member input at uuid s ≡ ok (s', m)
    → IsReferential s
    → IsReferential s'
upsert_member-IsReferential input at uuid s s' m h v =
    let (w, _, u) = upsert_member-Upserted input at uuid s s' m h in
    rw (u.stored, u.memberships)
      (All-HasMember s.members _ s.project_memberships
        (λ p hp. elim (Option-cases (existing_member w input.id s.members)) [
          | inl new ↦
              rw new (any-append_left (with_id p.workspace_id p.member_id) s.members (m ∷ []) hp)
          | inr (e, old) ↦
              rw old (HasMember-update_first w e m s.members p u.workspace (u.kept_id e old) hp)
        ])
        v)

pub remove_member-IsReferential :
    (w id actor : Text) (at : ℕ) (uuid : ℕ → Text) (s s' : AccessState) (o : Option WorkspaceMember)
    → remove_member w id actor at uuid s ≡ ok (s', o)
    → IsReferential s
    → IsReferential s'
remove_member-IsReferential w id actor at uuid s s' o h v =
    elim (remove_member-Removed w id actor at uuid s s' o h) [
      | inl unchanged ↦ rw unchanged.1 v
      | inr (m, _, r) ↦
          rw (r.stored, r.memberships)
            (All-zip (HasMember s.members) (λ p. not (text_eq p.member_id m.id) ≡ true)
              (HasMember _) _
              (λ p hp other.
                any-remove_first (with_id p.workspace_id p.member_id) (with_id w m.id) s.members
                  (λ x hit. ground (
                    arith,
                    text_eq_iff x.id m.id,
                    text_eq_iff x.id p.member_id,
                    text_eq_iff p.member_id m.id,
                  ))
                  hp)
              (All-filter (HasMember s.members) _ s.project_memberships v)
              (All-filter_self _ s.project_memberships))
    ]

-- The membership that is stored belongs to a member that was found.
join_project-IsReferential :
    (input : MembershipRequest) (w project : Text) (m : WorkspaceMember) (at : ℕ) (uuid : ℕ → Text)
    (s : AccessState)
    → find (with_id w input.member_id) s.members ≡ some m
    → IsReferential s
    → IsReferential (join_project input w project m at uuid s).0
unfolding join_project append_audit
join_project-IsReferential input w project m at uuid s found v =
    let here =
      any_of_find (with_id w m.id) s.members (find_again w input.member_id m s.members found) in
    elim (Bool-cases (is_some (find (membership_for w project m.id) s.project_memberships))) [
      | inl old ↦ rw old (
          All-update_first (HasMember s.members) (membership_for w project m.id) _
            s.project_memberships (λ x _ _. here) v)
      | inr new ↦ rw new (All-append (HasMember s.members) s.project_memberships _ v (here, tt))
    ]

pub upsert_project_membership-IsReferential :
    (input : MembershipRequest) (at : ℕ) (uuid : ℕ → Text) (s s' : AccessState)
    (p : ProjectMembership)
    → upsert_project_membership input at uuid s ≡ ok (s', p)
    → IsReferential s
    → IsReferential s'
unfolding upsert_project_membership
upsert_project_membership-IsReferential input at uuid s s' p h v =
    let (w, _, h₁) =
      >>=-eq-ok (required input.workspace_id project_member_workspace_required) _ h in
    let (project, _, h₂) = >>=-eq-ok (project_key w input.project_id) _ h₁ in
    elim (Option-cases (find (with_id w input.member_id) s.members)) [
      | inl missing ↦ absurd (ground (arith, h₂, missing))
      | inr (m, found) ↦
          let same : (join_project input w project m at uuid s).0 ≡ s' =
            ground (arith, h₂, found) in
          rw same at (join_project-IsReferential input w project m at uuid s found v)
    ]

pub remove_project_membership-IsReferential :
    (w project id actor : Text) (at : ℕ) (uuid : ℕ → Text) (s s' : AccessState)
    (o : Option ProjectMembership)
    → remove_project_membership w project id actor at uuid s ≡ ok (s', o)
    → IsReferential s
    → IsReferential s'
unfolding remove_project_membership append_audit
remove_project_membership-IsReferential w project id actor at uuid s s' o h v =
    let (key, _, h₁) = >>=-eq-ok (project_key w project) _ h in
    elim (Option-cases (find (membership_for w key id) s.project_memberships)) [
      | inl missing ↦ let same : s ≡ s' = ground (arith, h₁, missing) in rw same at v
      | inr (p, found) ↦
          let members : s'.members ≡ s.members = ground (arith, h₁, found) in
          let memberships : s'.project_memberships
              ≡ remove_first (membership_for w key id) s.project_memberships =
            ground (arith, h₁, found) in
          rw (members, memberships)
            (All-remove_first (HasMember s.members) (membership_for w key id) s.project_memberships
              v)
    ]

pub set_project_policy-IsReferential :
    (input : PolicyRequest) (at : ℕ) (uuid : ℕ → Text) (s s' : AccessState)
    (p : ProjectAccessPolicy)
    → set_project_policy input at uuid s ≡ ok (s', p)
    → IsReferential s
    → IsReferential s'
unfolding set_project_policy append_audit
set_project_policy-IsReferential input at uuid s s' p h v =
    let (w, _, h₁) =
      >>=-eq-ok (required input.workspace_id project_access_workspace_required) _ h in
    let (key, _, h₂) = >>=-eq-ok (project_key w input.project_id) _ h₁ in
    let members : s'.members ≡ s.members = ground (arith, h₂) in
    let memberships : s'.project_memberships ≡ s.project_memberships = ground (arith, h₂) in
    rw (members, memberships) v

-- The changes of a project leave the members alone.
pub members_kept_by_policy :
    (input : PolicyRequest) (at : ℕ) (uuid : ℕ → Text) (s s' : AccessState)
    (p : ProjectAccessPolicy)
    → set_project_policy input at uuid s ≡ ok (s', p)
    → s'.members ≡ s.members
unfolding set_project_policy append_audit
members_kept_by_policy input at uuid s s' p h = ground arith

pub members_kept_by_membership :
    (input : MembershipRequest) (at : ℕ) (uuid : ℕ → Text) (s s' : AccessState)
    (p : ProjectMembership)
    → upsert_project_membership input at uuid s ≡ ok (s', p)
    → s'.members ≡ s.members
unfolding upsert_project_membership append_audit
members_kept_by_membership input at uuid s s' p h = ground arith

pub members_kept_by_removal :
    (w project id actor : Text) (at : ℕ) (uuid : ℕ → Text) (s s' : AccessState)
    (o : Option ProjectMembership)
    → remove_project_membership w project id actor at uuid s ≡ ok (s', o)
    → s'.members ≡ s.members
unfolding remove_project_membership append_audit
members_kept_by_removal w project id actor at uuid s s' o h = ground arith
