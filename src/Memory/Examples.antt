-- ===== src/Memory/Examples.antt =====
-- The memory policy at a run that may write to the memory of its workspace.
use maxtag.Base.{◌≡◌, ◌≤◌, ◌+◌, ◌*◌, refl, true, false, ◌&&◌, not, text, [], ◌∷◌, any, some}
use maxtag.Memory.Policy.{
  workspace, thread, scope_eq, read, write, named, unknown, ToolGrant, AccessBundle,
  memory_scope_granted, memory_scope_order, readable_memory_scopes, memory_expiry_for_access,
  constrain_workspace_memory_write,
}
use maxtag.Memory.Grants.{
  is_forbidden, memory_scope_granted-constrain, readable_memory_scopes-granted,
  memory_expiry_for_access-bounds,
}

abbrev shared : ToolGrant
shared = record {
  id = text "g";
  is_memory = true;
  scope = workspace;
  label = text "Shared";
  permissions = some (named read ∷ named write ∷ unknown (text "list") ∷ []);
}

abbrev bundle : AccessBundle
bundle = record {
  id = text "a";
  thread_id = text "t";
  grants = shared ∷ [];
  memory_retention_days = λ scope. some 30;
}

-- Writing is granted until it is taken away; reading stays.
grants :
    (memory_scope_granted bundle workspace write ≡ true)
    × (memory_scope_granted (constrain_workspace_memory_write bundle (some false)) workspace write
        ≡ false)
    × (readable_memory_scopes (constrain_workspace_memory_write bundle (some false))
        ≡ workspace ∷ [])
unfolding memory_scope_granted constrain_workspace_memory_write readable_memory_scopes
    memory_scope_order
grants = (refl, refl, refl)

memory_scope_granted-constrain_example :
    memory_scope_granted (constrain_workspace_memory_write bundle (some false)) workspace write ≡ (
      memory_scope_granted bundle workspace write
      && not (is_forbidden (some false) workspace write))
memory_scope_granted-constrain_example =
    memory_scope_granted-constrain bundle (some false) workspace write

readable_memory_scopes-granted_example :
    any (scope_eq thread) (readable_memory_scopes bundle) ≡ memory_scope_granted bundle thread read
readable_memory_scopes-granted_example = readable_memory_scopes-granted bundle thread

memory_expiry_for_access-bounds_example :
    (5 + 86_400_000 ≤ 2_592_000_005) × (2_592_000_005 ≤ 5 + 3_650 * 86_400_000)
unfolding memory_expiry_for_access
memory_expiry_for_access-bounds_example =
    memory_expiry_for_access-bounds bundle thread 5 2_592_000_005 refl
