-- ===== src/Access/Authorize.antt =====
-- packages/config/src/workspace-access.ts, `authorize`: whether an actor of a chat platform may use a
-- capability in a project.
pub mod Rights
use maxtag.Base.{
  Bool, true, false, ◌&&◌, ◌||◌, Text, text_eq, is_empty, List, [], ◌∷◌, ◌++◌, Option, none, some,
  if◌then◌else◌, any, find, trim, Result, ok, err, ◌>>=◌,
}
use maxtag.Access.Types.{
  WorkspaceRole, owner, admin, member, guest, MemberStatus, active, ProjectRole, manager,
  contributor, viewer, ProjectAccessMode, open_to_all, workspace, members, ActorCapability,
  invoke_agent, write_memory, manage_routines, manage_workflows, WorkspaceMember, ProjectMembership,
  AccessState, AccessError, workspace_access_workspace_required, required, project_key, role_eq,
  status_eq, capability_eq,
}
use maxtag.Access.Projects.{policy_for, membership_for}

pub data DecisionReason : Type 0 where
  open_access workspace_role project_role workspace_member_required : DecisionReason
  workspace_member_suspended project_member_required capability_not_granted : DecisionReason

pub record Decision : Type 0 where
  pub allowed : Bool
  pub capability : ActorCapability
  pub mode : ProjectAccessMode
  pub reason : DecisionReason
  pub member : Option WorkspaceMember
  pub project_membership : Option ProjectMembership
  pub capabilities : List ActorCapability

pub record AuthorizeInput : Type 0 where
  pub workspace_id : Text
  pub project_id : Text
  pub platform : Text
  pub actor_id : Text
  pub platform_user_id : Option Text
  pub capability : ActorCapability

abbrev pub all_capabilities : List ActorCapability
all_capabilities = invoke_agent ∷ write_memory ∷ manage_routines ∷ manage_workflows ∷ []

unfoldable pub capabilities_for_workspace_role : WorkspaceRole → List ActorCapability
capabilities_for_workspace_role owner = all_capabilities
capabilities_for_workspace_role admin = all_capabilities
capabilities_for_workspace_role member = invoke_agent ∷ write_memory ∷ []
capabilities_for_workspace_role guest = invoke_agent ∷ []

unfoldable pub capabilities_for_project_role : ProjectRole → List ActorCapability
capabilities_for_project_role manager = all_capabilities
capabilities_for_project_role contributor = invoke_agent ∷ write_memory ∷ []
capabilities_for_project_role viewer = []

abbrev pub includes : List ActorCapability → ActorCapability → Bool
includes capabilities capability = any (λ c. capability_eq c capability) capabilities

-- The trimmed ids of the actor that are not blank.
unfoldable pub actor_ids : Text → Option Text → List Text
actor_ids id none = let t = trim id in if is_empty t then [] else t ∷ []
actor_ids id (some user) =
    let t = trim id in
    let u = trim user in
    let rest : List Text = if is_empty u then [] else u ∷ [] in
    if is_empty t then rest else t ∷ rest

abbrev pub is_actor : Text → Text → List Text → WorkspaceMember → Bool
is_actor workspace_id platform ids m =
    text_eq m.workspace_id workspace_id
    && any (λ i. text_eq i.platform platform && any (λ id. text_eq id i.external_id) ids)
        m.identities

abbrev pub mode_of : Text → Text → AccessState → ProjectAccessMode
mode_of workspace_id project_id state =
    elim (find (policy_for workspace_id project_id) state.project_policies) [
      | none ↦ open_to_all
      | some policy ↦ policy.mode
    ]

-- A member that is active, but neither owner nor admin, in a project for its members.
decide_project : ActorCapability → WorkspaceMember → Option ProjectMembership → Decision
unfolding capabilities_for_project_role
decide_project capability m none = record {
  allowed = false;
  capability = capability;
  mode = members;
  reason = project_member_required;
  member = some m;
  project_membership = none;
  capabilities = [];
}
decide_project capability m (some p) =
    let granted = capabilities_for_project_role p.role in
    let allowed = includes granted capability in
    record {
      allowed = allowed;
      capability = capability;
      mode = members;
      reason = if allowed then project_role else capability_not_granted;
      member = some m;
      project_membership = some p;
      capabilities = granted;
    }

decide_workspace : ActorCapability → WorkspaceMember → Decision
unfolding capabilities_for_workspace_role
decide_workspace capability m =
    let granted = capabilities_for_workspace_role m.role in
    let allowed = includes granted capability in
    record {
      allowed = allowed;
      capability = capability;
      mode = workspace;
      reason = if allowed then workspace_role else capability_not_granted;
      member = some m;
      project_membership = none;
      capabilities = granted;
    }

-- The answers that are given before the mode is looked at again: a plain yes or no.
abbrev plain :
    Bool → DecisionReason → ActorCapability → ProjectAccessMode → Option WorkspaceMember → Decision
plain allowed reason capability mode m = record {
  allowed = allowed;
  capability = capability;
  mode = mode;
  reason = reason;
  member = m;
  project_membership = none;
  capabilities = if allowed then all_capabilities else [];
}

abbrev is_elevated : WorkspaceRole → Bool
is_elevated role = role_eq role owner || role_eq role admin

-- The last two cases of the code; the mode is not open.
by_role :
    ActorCapability → ProjectAccessMode → WorkspaceMember → Option ProjectMembership → Decision
unfolding decide_workspace decide_project
by_role capability workspace m p = decide_workspace capability m
by_role capability _ m p = decide_project capability m p

-- The cases of the code, in their order.
unfoldable pub decide :
    ActorCapability
    → ProjectAccessMode
    → Option WorkspaceMember
    → Option ProjectMembership
    → Decision
unfolding by_role
decide capability open_to_all m p = plain true open_access capability open_to_all m
decide capability mode none p = plain false workspace_member_required capability mode none
decide capability mode (some m) p =
    if status_eq m.status active
    then (if is_elevated m.role
        then plain true workspace_role capability mode (some m)
        else by_role capability mode m p)
    else plain false workspace_member_suspended capability mode (some m)

abbrev pub membership_of :
    Text → Text → Option WorkspaceMember → AccessState → Option ProjectMembership
membership_of workspace_id project_id none state = none
membership_of workspace_id project_id (some m) state =
    find (membership_for workspace_id project_id m.id) state.project_memberships

abbrev pub acting_member : Text → AuthorizeInput → AccessState → Option WorkspaceMember
acting_member workspace_id input state =
    find (is_actor workspace_id input.platform (actor_ids input.actor_id input.platform_user_id))
      state.members

-- `authorize`; it reads the state and changes nothing.
unfoldable pub authorize : AuthorizeInput → AccessState → Result AccessError Decision
authorize input state = do
  workspace_id ← required input.workspace_id workspace_access_workspace_required
  project_id ← project_key workspace_id input.project_id
  let m = acting_member workspace_id input state
  ok (
      decide input.capability (mode_of workspace_id project_id state) m
        (membership_of workspace_id project_id m state))
