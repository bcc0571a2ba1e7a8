-- ===== src/Access/Authorize/Rights.antt =====
-- What `authorize` decides, against a table of rights that is stated independently of its cases.
use maxtag.Base.{◌≡◌, ◌↔◌, ◌⊎◌, true, Text, Option, none, some, ok, >>=-eq-ok, arith}
use maxtag.Access.Types.{
  WorkspaceRole, owner, admin, member, guest, active, ProjectRole, manager, contributor, viewer,
  ProjectAccessMode, open_to_all, workspace, members, ActorCapability, invoke_agent, write_memory,
  WorkspaceMember, ProjectMembership, AccessState, required, project_key,
  workspace_access_workspace_required,
}
use maxtag.Access.Authorize.{
  acting_member, membership_of, mode_of, Decision, AuthorizeInput, authorize, decide, includes,
  capabilities_for_workspace_role, capabilities_for_project_role,
}

-- What a capability asks for in a workspace: anybody invokes, members write, the rest is for the
-- owners and admins.
abbrev pub WorkspaceRight : WorkspaceRole → ActorCapability → Type 0
WorkspaceRight owner c = Unit {0}
WorkspaceRight admin c = Unit {0}
WorkspaceRight member c = (c ≡ invoke_agent) ⊎ (c ≡ write_memory)
WorkspaceRight guest c = c ≡ invoke_agent

-- What it asks for in a project.
abbrev pub ProjectRight : ProjectRole → ActorCapability → Type 0
ProjectRight manager c = Unit {0}
ProjectRight contributor c = (c ≡ invoke_agent) ⊎ (c ≡ write_memory)
ProjectRight viewer c = ⊥

abbrev pub ProjectRightOf : Option ProjectMembership → ActorCapability → Type 0
ProjectRightOf none c = ⊥
ProjectRightOf (some p) c = ProjectRight p.role c

-- Who has a right in a project of the given mode. In an open one, everybody. Elsewhere an active
-- member: by the role in the workspace; or, in a project for its members, as an owner, as an admin or
-- by the role in the project.
abbrev pub Entitled :
    ActorCapability → ProjectAccessMode → Option WorkspaceMember → Option ProjectMembership → Type 0
Entitled c open_to_all m p = Unit {0}
Entitled c workspace none p = ⊥
Entitled c workspace (some w) p = (w.status ≡ active) × WorkspaceRight w.role c
Entitled c members none p = ⊥
Entitled c members (some w) p =
    (w.status ≡ active) × ((w.role ≡ owner) ⊎ (w.role ≡ admin) ⊎ ProjectRightOf p c)

-- A decision allows exactly those who are entitled.
pub decide-Entitled :
    (c : ActorCapability) (mode : ProjectAccessMode) (m : Option WorkspaceMember)
    (p : Option ProjectMembership)
    → ((decide c mode m p).allowed ≡ true) ↔ Entitled c mode m p
unfolding decide capabilities_for_workspace_role capabilities_for_project_role
decide-Entitled c open_to_all m p = ground arith
decide-Entitled c workspace none p = ground arith
decide-Entitled c workspace (some w) p = ground arith
decide-Entitled c members none p = ground arith
decide-Entitled c members (some w) none = ground arith
decide-Entitled c members (some w) (some p) = ground arith

-- A decision allows a capability exactly when it is among those that it grants.
pub decide-includes :
    (c : ActorCapability) (mode : ProjectAccessMode) (m : Option WorkspaceMember)
    (p : Option ProjectMembership)
    → (decide c mode m p).allowed ≡ includes (decide c mode m p).capabilities c
unfolding decide capabilities_for_workspace_role capabilities_for_project_role
decide-includes c mode m p = ground arith

-- The answer of `authorize`, when it gives one: it allows the request exactly when the acting member is
-- entitled to the capability in the project that the input names.
pub authorize-Entitled :
    (input : AuthorizeInput) (s : AccessState) (d : Decision)
    → authorize input s ≡ ok d
    → (w p : Text) × (required input.workspace_id workspace_access_workspace_required ≡ ok w)
      × (project_key w input.project_id ≡ ok p)
      × ((d.allowed ≡ true)
          ↔ Entitled input.capability
              (mode_of w p s)
              (acting_member w input s)
              (membership_of w p (acting_member w input s) s))
unfolding authorize
authorize-Entitled input s d h =
    let (w, e, h₁) =
      >>=-eq-ok (required input.workspace_id workspace_access_workspace_required) _ h in
    let (p, e', h₂) = >>=-eq-ok (project_key w input.project_id) _ h₁ in
    let same : decide input.capability (mode_of w p s) (acting_member w input s)
          (membership_of w p (acting_member w input s) s)
        ≡ d =
      ground (arith, h₂) in
    (
      w,
      p,
      e,
      e',
      rw (← same) (
          decide-Entitled input.capability (mode_of w p s) (acting_member w input s)
            (membership_of w p (acting_member w input s) s)),
    )
