-- ===== src/Access/Projects.antt =====
-- packages/config/src/workspace-access.ts: the access mode of a project and its memberships, and the
-- serialised change of the stored state.
pub mod References
use maxtag.Base.{
  ℕ, Bool, true, false, ◌&&◌, not, Text, text, text_eq, List, [], ◌∷◌, ◌++◌, Option, none, some,
  is_some, if◌then◌else◌, filter, find, update_first, remove_first, text_or, leb, clamp, take,
  sort_by, Result, ok, err, ◌>>=◌,
}
use maxtag.Access.Types.{
  ProjectRole, ProjectAccessMode, WorkspaceMember, ProjectMembership, ProjectAccessPolicy,
  AuditRecord, AuditAction, project_access_updated, project_member_added, project_member_updated,
  project_member_removed, of_membership, of_policy, AccessState, StoredState, AccessError,
  project_access_workspace_required, project_member_workspace_required, workspace_member_not_found,
  workspace_access_workspace_required, create_empty_state, normalize_state, required, project_key,
  policy_id, membership_id, append_audit,
}
use maxtag.Access.Members.{with_id}

abbrev pub policy_for : Text → Text → ProjectAccessPolicy → Bool
policy_for workspace_id project_id p =
    text_eq p.workspace_id workspace_id && text_eq p.project_id project_id

abbrev pub membership_for : Text → Text → Text → ProjectMembership → Bool
membership_for workspace_id project_id member_id p =
    text_eq p.workspace_id workspace_id
    && text_eq p.project_id project_id
    && text_eq p.member_id member_id

abbrev policy_created : Option ProjectAccessPolicy → ℕ → ℕ
policy_created none at = at
policy_created (some p) at = p.created_at

abbrev membership_created : Option ProjectMembership → ℕ → ℕ
membership_created none at = at
membership_created (some p) at = p.created_at

pub record PolicyRequest : Type 0 where
  pub workspace_id : Text
  pub project_id : Text
  pub mode : ProjectAccessMode
  pub actor : Option Text

unfoldable pub set_project_policy :
    PolicyRequest
    → ℕ
    → (ℕ → Text)
    → AccessState
    → Result AccessError (AccessState × ProjectAccessPolicy)
set_project_policy input at uuid state = do
  workspace_id ← required input.workspace_id project_access_workspace_required
  project_id ← project_key workspace_id input.project_id
  let existing = find (policy_for workspace_id project_id) state.project_policies
  let policy : ProjectAccessPolicy = record {
    id = policy_id workspace_id project_id;
    workspace_id = workspace_id;
    project_id = project_id;
    mode = input.mode;
    created_at = policy_created existing at;
    updated_at = at;
  }
  let policies =
      if is_some existing
      then update_first (policy_for workspace_id project_id) (λ _. policy) state.project_policies
      else state.project_policies ++ policy ∷ []
  let entry : AuditRecord = record {
    id = uuid 0;
    workspace_id = workspace_id;
    project_id = some project_id;
    member_id = none;
    action = project_access_updated;
    actor = text_or input.actor (text "admin-console");
    at = at;
    snapshot = some (of_policy policy);
  }
  ok (append_audit (record state { project_policies = policies }) entry, policy)

abbrev pub membership_audit : Text → AuditAction → Text → ℕ → ProjectMembership → AuditRecord
membership_audit id action actor at p = record {
  id = id;
  workspace_id = p.workspace_id;
  project_id = some p.project_id;
  member_id = some p.member_id;
  action = action;
  actor = actor;
  at = at;
  snapshot = some (of_membership p);
}

pub record MembershipRequest : Type 0 where
  pub workspace_id : Text
  pub project_id : Text
  pub member_id : Text
  pub role : ProjectRole
  pub actor : Option Text

-- The membership is stored for a member that has been found.
join_project :
    MembershipRequest
    → Text
    → Text
    → WorkspaceMember
    → ℕ
    → (ℕ → Text)
    → AccessState
    → AccessState × ProjectMembership
join_project input workspace_id project_id member at uuid state =
    let existing =
      find (membership_for workspace_id project_id member.id) state.project_memberships in
    let membership : ProjectMembership = record {
      id = membership_id workspace_id project_id member.id;
      workspace_id = workspace_id;
      project_id = project_id;
      member_id = member.id;
      role = input.role;
      created_at = membership_created existing at;
      updated_at = at;
    } in
    let memberships =
      if is_some existing
      then update_first (membership_for workspace_id project_id member.id) (λ _. membership)
          state.project_memberships
      else state.project_memberships ++ membership ∷ [] in
    let action = if is_some existing then project_member_updated else project_member_added in
    (
      append_audit (record state { project_memberships = memberships })
          (membership_audit (uuid 0) action (text_or input.actor (text "admin-console")) at
            membership),
      membership,
    )

unfoldable pub upsert_project_membership :
    MembershipRequest
    → ℕ
    → (ℕ → Text)
    → AccessState
    → Result AccessError (AccessState × ProjectMembership)
unfolding join_project
upsert_project_membership input at uuid state = do
  workspace_id ← required input.workspace_id project_member_workspace_required
  project_id ← project_key workspace_id input.project_id
  elim (find (with_id workspace_id input.member_id) state.members) [
    | none ↦ err workspace_member_not_found
    | some member ↦ ok (join_project input workspace_id project_id member at uuid state)
  ]

unfoldable pub remove_project_membership :
    Text
    → Text
    → Text
    → Text
    → ℕ
    → (ℕ → Text)
    → AccessState
    → Result AccessError (AccessState × Option ProjectMembership)
remove_project_membership workspace_id project_input member_id actor at uuid state = do
  project_id ← project_key workspace_id project_input
  elim (find (membership_for workspace_id project_id member_id) state.project_memberships) [
    | none ↦ ok (state, none)
    | some p ↦
        let state' = record state {
          project_memberships =
              remove_first (membership_for workspace_id project_id member_id)
                state.project_memberships;
        } in
        ok (
          append_audit state' (membership_audit (uuid 0) project_member_removed actor at p),
          some p,
        )
  ]

-- `load`: none when there is no file.
unfoldable pub load : Option StoredState → AccessState
unfolding create_empty_state normalize_state
load none = create_empty_state
load (some stored) = normalize_state stored

abbrev pub to_stored : AccessState → StoredState
to_stored s = record {
  members = some s.members;
  project_memberships = some s.project_memberships;
  project_policies = some s.project_policies;
  audit = some s.audit;
}

-- `mutate`: the file after the change, and what the caller gets. A change that throws may have changed the
-- state that it was given; what it left is not saved.
unfoldable pub mutate :
    {A : Type 0}
    → (AccessState → AccessState × Result AccessError A)
    → Option StoredState
    → Option StoredState × Result AccessError A
unfolding load
mutate operation file =
    let (state, result) = operation (load file) in
    elim result [ err e ↦ (file, err e) | ok a ↦ (some (to_stored state), ok a) ]

pub record AccessSnapshot : Type 0 where
  pub workspace_id : Text
  pub members : List WorkspaceMember
  pub project_memberships : List ProjectMembership
  pub project_policies : List ProjectAccessPolicy
  pub audit : List AuditRecord

-- `localeCompare` on display names is a parameter.
unfoldable pub snapshot :
    (Text → Text → Bool) → Text → ℕ → AccessState → Result AccessError AccessSnapshot
snapshot locale_le workspace_id audit_limit state = do
  id ← required workspace_id workspace_access_workspace_required
  ok (record {
    workspace_id = id;
    members =
        sort_by (λ l r. locale_le l.display_name r.display_name)
          (filter (λ m. text_eq m.workspace_id id) state.members);
    project_memberships = filter (λ p. text_eq p.workspace_id id) state.project_memberships;
    project_policies = filter (λ p. text_eq p.workspace_id id) state.project_policies;
    audit =
        take (clamp 1 200 audit_limit)
          (sort_by (λ l r. leb r.at l.at) (filter (λ a. text_eq a.workspace_id id) state.audit));
  })
