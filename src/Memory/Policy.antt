-- ===== src/Memory/Policy.antt =====
-- packages/core/src/memory-policy.ts, with the parts of types.ts that it reads. Of the constraints of a
-- grant the policy reads and writes the permissions alone: an array of any values, or none where the
-- key is missing or holds something else. A number of days that is no integer, or below 1, is 0.
use maxtag.Base.{
  ℕ, ◌+◌, ◌*◌, Bool, true, false, ◌&&◌, ◌||◌, not, Text, List, [], ◌∷◌, map, filter, any, Option,
  none, some, leb, if◌then◌else◌,
}

pub data MemoryScopeKind : Type 0 where
  global workspace project channel thread : MemoryScopeKind

abbrev pub scope_eq : MemoryScopeKind → MemoryScopeKind → Bool
scope_eq global global = true
scope_eq workspace workspace = true
scope_eq project project = true
scope_eq channel channel = true
scope_eq thread thread = true
scope_eq _ _ = false

pub data Permission : Type 0 where
  read write : Permission

-- A value of the array of permissions.
pub data PermissionValue : Type 0 where
  named : Permission → PermissionValue
  unknown : Text → PermissionValue

abbrev pub is_permission : Permission → PermissionValue → Bool
is_permission read (named read) = true
is_permission write (named write) = true
is_permission _ _ = false

pub record ToolGrant : Type 0 where
  pub id : Text
  pub is_memory : Bool
  pub scope : MemoryScopeKind
  pub label : Text
  pub permissions : Option (List PermissionValue)

pub record AccessBundle : Type 0 where
  pub id : Text
  pub thread_id : Text
  pub grants : List ToolGrant
  pub memory_retention_days : MemoryScopeKind → Option ℕ

unfoldable pub memory_scope_order : List MemoryScopeKind
memory_scope_order = global ∷ workspace ∷ project ∷ channel ∷ thread ∷ []

abbrev pub is_read : Permission → Bool
is_read read = true
is_read write = false

unfoldable pub permission_allows : ToolGrant → Permission → Bool
permission_allows grant permission = elim grant.permissions [
  | none ↦ is_read permission
  | some values ↦ any (is_permission permission) values
]

abbrev pub grants_memory : MemoryScopeKind → Permission → ToolGrant → Bool
grants_memory scope permission grant =
    grant.is_memory && scope_eq grant.scope scope && permission_allows grant permission

unfoldable pub memory_scope_granted : AccessBundle → MemoryScopeKind → Permission → Bool
unfolding permission_allows
memory_scope_granted access global permission = false
memory_scope_granted access scope permission = any (grants_memory scope permission) access.grants

unfoldable pub readable_memory_scopes : AccessBundle → List MemoryScopeKind
unfolding memory_scope_granted memory_scope_order
readable_memory_scopes access =
    filter (λ scope. memory_scope_granted access scope read) memory_scope_order

unfoldable pub normalized_memory_retention_days : Option ℕ → Option ℕ
normalized_memory_retention_days none = none
normalized_memory_retention_days (some value) =
    if leb 1 value && leb value 3_650 then some value else none

unfoldable pub memory_retention_days_for : AccessBundle → MemoryScopeKind → Option ℕ
unfolding normalized_memory_retention_days
memory_retention_days_for access global = none
memory_retention_days_for access scope =
    normalized_memory_retention_days (access.memory_retention_days scope)

unfoldable pub memory_expiry_from_retention_days : Option ℕ → ℕ → Option ℕ
unfolding normalized_memory_retention_days
memory_expiry_from_retention_days days at = elim (normalized_memory_retention_days days) [
  | none ↦ none
  | some normalized ↦ some (at + normalized * 24 * 60 * 60 * 1_000)
]

unfoldable pub memory_expiry_for_access : AccessBundle → MemoryScopeKind → ℕ → Option ℕ
unfolding memory_expiry_from_retention_days memory_retention_days_for
memory_expiry_for_access access scope at =
    memory_expiry_from_retention_days (memory_retention_days_for access scope) at

-- What the constraint makes of one grant.
unfoldable pub without_workspace_write : ToolGrant → ToolGrant
without_workspace_write grant =
    if not grant.is_memory || not (scope_eq grant.scope workspace)
    then grant
    else elim grant.permissions [
      | none ↦ grant
      | some values ↦
          if any (is_permission write) values
          then record grant {
            permissions = some (filter (λ v. not (is_permission write v)) values);
          }
          else grant
    ]

unfoldable pub constrain_workspace_memory_write : AccessBundle → Option Bool → AccessBundle
unfolding without_workspace_write
constrain_workspace_memory_write access (some false) = record access {
  grants = map without_workspace_write access.grants;
}
constrain_workspace_memory_write access _ = access
