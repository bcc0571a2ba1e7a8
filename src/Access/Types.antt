-- ===== src/Access/Types.antt =====
-- packages/config/src/workspace-access.ts: the data of the access store, the checks of its input, and
-- the audit trail. Timestamps are milliseconds since 1970, as in the routine store.
use maxtag.Base.{
  ℕ, Bool, true, false, Text, text, text_eq, is_empty, List, [], ◌∷◌, ◌++◌, Option, none, some,
  or_else, ltb, if◌then◌else◌, length, keep_last, trim, strip_prefix, Result, ok, err, ◌>>=◌,
}

pub data WorkspaceRole : Type 0 where
  owner admin member guest : WorkspaceRole

pub data MemberStatus : Type 0 where
  active suspended : MemberStatus

pub data ProjectRole : Type 0 where
  manager contributor viewer : ProjectRole

pub data ProjectAccessMode : Type 0 where
  open_to_all workspace members : ProjectAccessMode

pub data ActorCapability : Type 0 where
  invoke_agent write_memory manage_routines manage_workflows : ActorCapability

pub record MemberIdentity : Type 0 where
  pub platform : Text
  pub external_id : Text

pub record WorkspaceMember : Type 0 where
  pub id : Text
  pub workspace_id : Text
  pub display_name : Text
  pub role : WorkspaceRole
  pub status : MemberStatus
  pub identities : List MemberIdentity
  pub created_at : ℕ
  pub updated_at : ℕ

pub record ProjectMembership : Type 0 where
  pub id : Text
  pub workspace_id : Text
  pub project_id : Text
  pub member_id : Text
  pub role : ProjectRole
  pub created_at : ℕ
  pub updated_at : ℕ

pub record ProjectAccessPolicy : Type 0 where
  pub id : Text
  pub workspace_id : Text
  pub project_id : Text
  pub mode : ProjectAccessMode
  pub created_at : ℕ
  pub updated_at : ℕ

pub data AuditAction : Type 0 where
  member_created member_updated member_removed project_access_updated : AuditAction
  project_member_added project_member_updated project_member_removed : AuditAction

-- The record that an entry shows.
pub data Snapshot : Type 0 where
  of_member : WorkspaceMember → Snapshot
  of_membership : ProjectMembership → Snapshot
  of_policy : ProjectAccessPolicy → Snapshot

pub record AuditRecord : Type 0 where
  pub id : Text
  pub workspace_id : Text
  pub project_id : Option Text
  pub member_id : Option Text
  pub action : AuditAction
  pub actor : Text
  pub at : ℕ
  pub snapshot : Option Snapshot

pub record AccessState : Type 0 where
  pub members : List WorkspaceMember
  pub project_memberships : List ProjectMembership
  pub project_policies : List ProjectAccessPolicy
  pub audit : List AuditRecord

pub data AccessError : Type 0 where
  project_access_project_required project_access_workspace_required : AccessError
  workspace_access_workspace_required workspace_member_workspace_required : AccessError
  workspace_member_display_name_required project_member_workspace_required : AccessError
  workspace_member_identity_platform_required : AccessError
  workspace_member_identity_external_id_required : AccessError
  workspace_member_identity_required workspace_member_identity_already_linked : AccessError
  workspace_member_not_found workspace_first_member_must_be_owner : AccessError
  workspace_last_owner_required : AccessError

unfoldable pub create_empty_state : AccessState
create_empty_state = record {
  members = [];
  project_memberships = [];
  project_policies = [];
  audit = [];
}

-- The state as it lies in the file, where an array may be missing.
pub record StoredState : Type 0 where
  pub members : Option (List WorkspaceMember)
  pub project_memberships : Option (List ProjectMembership)
  pub project_policies : Option (List ProjectAccessPolicy)
  pub audit : Option (List AuditRecord)

unfoldable pub normalize_state : StoredState → AccessState
normalize_state input = record {
  members = or_else input.members [];
  project_memberships = or_else input.project_memberships [];
  project_policies = or_else input.project_policies [];
  audit = or_else input.audit [];
}

-- A text that must not be blank.
unfoldable pub required : Text → AccessError → Result AccessError Text
required value error =
    let normalized = trim value in if is_empty normalized then err error else ok normalized

without_prefix : Text → Text → Text
without_prefix workspace_id value = elim (strip_prefix (workspace_id ++ text ":") value) [
  | none ↦ value
  | some rest ↦ rest
]

-- A project is named with or without its workspace in front.
unfoldable pub project_key : Text → Text → Result AccessError Text
unfolding required without_prefix
project_key workspace_id value = do
  normalized ← required value project_access_project_required
  ok (without_prefix workspace_id normalized)

unfoldable pub policy_id : Text → Text → Text
policy_id workspace_id project_id = workspace_id ++ text ":" ++ project_id

unfoldable pub membership_id : Text → Text → Text → Text
membership_id workspace_id project_id member_id =
    workspace_id ++ text ":" ++ project_id ++ text ":" ++ member_id

-- The key by which the store tells identities apart.
unfoldable pub identity_key : MemberIdentity → Text
identity_key identity = identity.platform ++ text ":" ++ identity.external_id

-- `normalized.set(key, identity)`: a key that is there keeps its place.
set_identity : MemberIdentity → List MemberIdentity → List MemberIdentity
set_identity identity [] = identity ∷ []
set_identity identity (i ∷ is) =
    if text_eq (identity_key i) (identity_key identity)
    then identity ∷ is
    else i ∷ set_identity identity is

collect_identities :
    List MemberIdentity → List MemberIdentity → Result AccessError (List MemberIdentity)
collect_identities collected [] = ok collected
collect_identities collected (i ∷ is) = do
  platform ← required i.platform workspace_member_identity_platform_required
  external_id ← required i.external_id workspace_member_identity_external_id_required
  collect_identities
      (set_identity (record { platform = platform; external_id = external_id }) collected) is

abbrev some_identity : List MemberIdentity → Result AccessError (List MemberIdentity)
some_identity [] = err workspace_member_identity_required
some_identity (i ∷ is) = ok (i ∷ is)

unfoldable pub normalize_identities : List MemberIdentity → Result AccessError (List MemberIdentity)
unfolding collect_identities set_identity identity_key required
normalize_identities identities = do
  collected ← collect_identities [] identities
  some_identity collected

-- The last 1000 entries are kept.
unfoldable pub append_audit : AccessState → AuditRecord → AccessState
append_audit state entry =
    let audit = state.audit ++ entry ∷ [] in
    record state { audit = if ltb 1_000 (length audit) then keep_last 1_000 audit else audit }

abbrev pub role_eq : WorkspaceRole → WorkspaceRole → Bool
role_eq owner owner = true
role_eq admin admin = true
role_eq member member = true
role_eq guest guest = true
role_eq _ _ = false

abbrev pub status_eq : MemberStatus → MemberStatus → Bool
status_eq active active = true
status_eq suspended suspended = true
status_eq _ _ = false

abbrev pub capability_eq : ActorCapability → ActorCapability → Bool
capability_eq invoke_agent invoke_agent = true
capability_eq write_memory write_memory = true
capability_eq manage_routines manage_routines = true
capability_eq manage_workflows manage_workflows = true
capability_eq _ _ = false
