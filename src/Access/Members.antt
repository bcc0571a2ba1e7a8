-- ===== src/Access/Members.antt =====
-- packages/config/src/workspace-access.ts: the members of a workspace.
pub mod Changes
pub mod Owners
pub mod Identities
use maxtag.Base.{
  ℕ, Bool, true, false, ◌&&◌, ◌||◌, not, Text, text, text_eq, is_empty, List, [], ◌∷◌, ◌++◌, Option,
  none, some, is_some, is_truthy, or_else, ◌==◌, if◌then◌else◌, length, filter, any, find,
  update_first, remove_first, text_or, Result, ok, err, ◌>>=◌, ◌>>◌, guard,
}
use maxtag.Access.Types.{
  WorkspaceRole, owner, member, MemberStatus, active, MemberIdentity, WorkspaceMember, AuditRecord,
  AuditAction, member_created, member_updated, member_removed, of_member, AccessState, AccessError,
  workspace_member_workspace_required, workspace_member_display_name_required,
  workspace_member_not_found, workspace_first_member_must_be_owner, workspace_last_owner_required,
  workspace_member_identity_already_linked, required, normalize_identities, identity_key,
  append_audit, role_eq, status_eq,
}

abbrev pub in_workspace : Text → WorkspaceMember → Bool
in_workspace workspace_id m = text_eq m.workspace_id workspace_id

abbrev pub with_id : Text → Text → WorkspaceMember → Bool
with_id workspace_id id m = text_eq m.id id && text_eq m.workspace_id workspace_id

abbrev pub is_active_owner : WorkspaceMember → Bool
is_active_owner m = status_eq m.status active && role_eq m.role owner

-- `exceptMemberId` is left out of the count when it is given.
abbrev pub is_other : Option Text → WorkspaceMember → Bool
is_other none m = true
is_other (some id) m = not (text_eq m.id id)

unfoldable pub active_owner_count : AccessState → Text → Option Text → ℕ
active_owner_count state workspace_id except = length (
    filter (λ m. in_workspace workspace_id m && is_other except m && is_active_owner m)
      state.members)

-- Whether two lists of identities share a key.
abbrev pub shares_identity : List MemberIdentity → List MemberIdentity → Bool
shares_identity requested held =
    any (λ i. any (λ j. text_eq (identity_key j) (identity_key i)) requested) held

unfoldable pub identity_conflict : AccessState → Text → Text → List MemberIdentity → Bool
identity_conflict state workspace_id member_id identities =
    any
      (λ m.
        in_workspace workspace_id m
        && not (text_eq m.id member_id)
        && shares_identity identities m.identities)
      state.members

pub record UpsertMemberInput : Type 0 where
  pub id : Option Text
  pub workspace_id : Text
  pub display_name : Text
  pub role : Option WorkspaceRole
  pub status : Option MemberStatus
  pub identities : List MemberIdentity
  pub actor : Option Text

abbrev pub existing_member : Text → Option Text → List WorkspaceMember → Option WorkspaceMember
existing_member workspace_id none members = none
existing_member workspace_id (some id) members =
    if is_empty id then none else find (with_id workspace_id id) members

abbrev role_of : Option WorkspaceMember → WorkspaceRole
role_of none = member
role_of (some existing) = existing.role

abbrev status_of : Option WorkspaceMember → MemberStatus
status_of none = active
status_of (some existing) = existing.status

abbrev id_of : Option WorkspaceMember → Option Text → Text → Text
id_of none id created = or_else id created
id_of (some existing) id created = existing.id

abbrev created_of : Option WorkspaceMember → ℕ → ℕ
created_of none at = at
created_of (some existing) at = existing.created_at

-- Whether the change would take the workspace's last active owner away.
unfoldable pub leaves_no_owner : AccessState → Text → Option WorkspaceMember → Bool → Bool
leaves_no_owner state workspace_id none stays = false
leaves_no_owner state workspace_id (some existing) stays =
    is_active_owner existing
    && not stays
    && active_owner_count state workspace_id (some existing.id) == 0

abbrev store_member :
    Text → Option WorkspaceMember → WorkspaceMember → List WorkspaceMember → List WorkspaceMember
store_member workspace_id none m members = members ++ m ∷ []
store_member workspace_id (some existing) m members =
    update_first (with_id workspace_id existing.id) (λ _. m) members

abbrev pub member_audit : Text → AuditAction → Text → ℕ → WorkspaceMember → AuditRecord
member_audit id action actor at m = record {
  id = id;
  workspace_id = m.workspace_id;
  project_id = none;
  member_id = some m.id;
  action = action;
  actor = actor;
  at = at;
  snapshot = some (of_member m);
}

-- The callback of `mutate` once the three texts have been checked.
upsert_checked :
    UpsertMemberInput
    → Text
    → Text
    → List MemberIdentity
    → ℕ
    → (ℕ → Text)
    → AccessState
    → Result AccessError (AccessState × WorkspaceMember)
upsert_checked input workspace_id display_name identities at uuid state = do
  let existing = existing_member workspace_id input.id state.members
  guard (not (is_truthy input.id) || is_some existing) workspace_member_not_found
  let role = or_else input.role (role_of existing)
  let status = or_else input.status (status_of existing)
  guard (is_some existing || any (in_workspace workspace_id) state.members || role_eq role owner)
      workspace_first_member_must_be_owner
  let id = id_of existing input.id (uuid 0)
  guard (not (identity_conflict state workspace_id id identities))
      workspace_member_identity_already_linked
  guard
      (not (
        leaves_no_owner state workspace_id existing
          (role_eq role owner && status_eq status active)))
      workspace_last_owner_required
  let m : WorkspaceMember = record {
    id = id;
    workspace_id = workspace_id;
    display_name = display_name;
    role = role;
    status = status;
    identities = identities;
    created_at = created_of existing at;
    updated_at = at;
  }
  let action = if is_some existing then member_updated else member_created
  let state' = record state { members = store_member workspace_id existing m state.members }
  ok (
    append_audit state'
        (member_audit (uuid 1) action (text_or input.actor (text "admin-console")) at m),
    m,
  )

-- `uuid i` is what `randomUUID` returns where the code calls it for the i-th time, and `at` is now.
unfoldable pub upsert_member :
    UpsertMemberInput
    → ℕ
    → (ℕ → Text)
    → AccessState
    → Result AccessError (AccessState × WorkspaceMember)
unfolding upsert_checked
upsert_member input at uuid state = do
  workspace_id ← required input.workspace_id workspace_member_workspace_required
  display_name ← required input.display_name workspace_member_display_name_required
  identities ← normalize_identities input.identities
  upsert_checked input workspace_id display_name identities at uuid state

remove_found :
    WorkspaceMember
    → Text
    → Text
    → ℕ
    → (ℕ → Text)
    → AccessState
    → Result AccessError (AccessState × Option WorkspaceMember)
remove_found m workspace_id actor at uuid state = do
  guard (not (leaves_no_owner state workspace_id (some m) false)) workspace_last_owner_required
  let state' = record state {
    members = remove_first (with_id workspace_id m.id) state.members;
    project_memberships = filter (λ p. not (text_eq p.member_id m.id)) state.project_memberships;
  }
  ok (append_audit state' (member_audit (uuid 0) member_removed actor at m), some m)

unfoldable pub remove_member :
    Text
    → Text
    → Text
    → ℕ
    → (ℕ → Text)
    → AccessState
    → Result AccessError (AccessState × Option WorkspaceMember)
unfolding remove_found
remove_member workspace_id member_id actor at uuid state =
    elim (find (with_id workspace_id member_id) state.members) [
      | none ↦ ok (state, none)
      | some m ↦ remove_found m workspace_id actor at uuid state
    ]
