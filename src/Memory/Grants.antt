-- ===== src/Memory/Grants.antt =====
-- What the memory policy grants, before and after writing to the workspace has been taken away.
use maxtag.Base.{
  ℕ, ◌≡◌, ◌≤◌, ◌+◌, ◌*◌, refl, inl, inr, Bool, true, false, ◌&&◌, not, List, [], ◌∷◌, map, filter,
  any, Option, none, some, arith, Option-cases,
}
use maxtag.Memory.Policy.{
  MemoryScopeKind, global, workspace, project, channel, thread, scope_eq, Permission, read, write,
  PermissionValue, is_permission, ToolGrant, AccessBundle, permission_allows, grants_memory,
  memory_scope_granted, memory_scope_order, readable_memory_scopes,
  normalized_memory_retention_days, memory_expiry_from_retention_days, memory_expiry_for_access,
  without_workspace_write, constrain_workspace_memory_write,
}

-- Whether the constraint forbids the use.
abbrev pub is_forbidden : Option Bool → MemoryScopeKind → Permission → Bool
is_forbidden (some false) workspace write = true
is_forbidden _ _ _ = false

no_write :
    (vs : List PermissionValue)
    → any (is_permission write) (filter (λ v. not (is_permission write v)) vs) ≡ false
no_write [] = refl
no_write (v ∷ vs) = ground (arith, no_write vs)

still_read :
    (vs : List PermissionValue)
    → any (is_permission read) (filter (λ v. not (is_permission write v)) vs)
      ≡ any (is_permission read) vs
still_read [] = refl
still_read (v ∷ vs) = ground (arith, still_read vs)

-- One grant, after the constraint.
constrained_grant :
    (scope : MemoryScopeKind) (p : Permission) (g : ToolGrant)
    → grants_memory scope p (without_workspace_write g)
      ≡ (grants_memory scope p g && not (is_forbidden (some false) scope p))
unfolding without_workspace_write permission_allows
constrained_grant scope read g = elim (Option-cases g.permissions) [
  | inl missing ↦ ground (arith, missing)
  | inr (vs, listed) ↦ ground (arith, listed, still_read vs)
]
constrained_grant scope write g = elim (Option-cases g.permissions) [
  | inl missing ↦ ground (arith, missing)
  | inr (vs, listed) ↦ ground (arith, listed, no_write vs)
]

constrained_grants :
    (scope : MemoryScopeKind) (p : Permission) (gs : List ToolGrant)
    → any (grants_memory scope p) (map without_workspace_write gs)
      ≡ (any (grants_memory scope p) gs && not (is_forbidden (some false) scope p))
constrained_grants scope p [] = refl
constrained_grants scope p (g ∷ gs) =
    ground (arith, constrained_grant scope p g, constrained_grants scope p gs)

-- The constraint takes away writing to the memory of the workspace where it says no, and changes
-- nothing else: every other use is granted as before.
pub memory_scope_granted-constrain :
    (access : AccessBundle) (allowed : Option Bool) (scope : MemoryScopeKind) (p : Permission)
    → memory_scope_granted (constrain_workspace_memory_write access allowed) scope p
      ≡ (memory_scope_granted access scope p && not (is_forbidden allowed scope p))
unfolding memory_scope_granted constrain_workspace_memory_write
memory_scope_granted-constrain access none scope p = ground arith
memory_scope_granted-constrain access (some true) scope p = ground arith
memory_scope_granted-constrain access (some false) global p = refl
memory_scope_granted-constrain access (some false) workspace p =
    constrained_grants workspace p access.grants
memory_scope_granted-constrain access (some false) project p =
    constrained_grants project p access.grants
memory_scope_granted-constrain access (some false) channel p =
    constrained_grants channel p access.grants
memory_scope_granted-constrain access (some false) thread p =
    constrained_grants thread p access.grants

-- A scope is among the readable ones exactly when reading it is granted.
pub readable_memory_scopes-granted :
    (access : AccessBundle) (scope : MemoryScopeKind)
    → any (scope_eq scope) (readable_memory_scopes access) ≡ memory_scope_granted access scope read
unfolding readable_memory_scopes memory_scope_order memory_scope_granted
readable_memory_scopes-granted access global = ground arith
readable_memory_scopes-granted access workspace = ground arith
readable_memory_scopes-granted access project = ground arith
readable_memory_scopes-granted access channel = ground arith
readable_memory_scopes-granted access thread = ground arith

-- Memory that expires is kept for a day at least and for ten years of 365 days at most.
pub memory_expiry_for_access-bounds :
    (access : AccessBundle) (scope : MemoryScopeKind) (at t : ℕ)
    → memory_expiry_for_access access scope at ≡ some t
    → (at + 86_400_000 ≤ t) × (t ≤ at + 3_650 * 86_400_000)
unfolding memory_expiry_for_access memory_expiry_from_retention_days
    normalized_memory_retention_days
memory_expiry_for_access-bounds access scope at t h = ground arith
