-- ===== src/Access/Examples.antt =====
-- Runs of the access store on a small workspace, and its theorems at them.
use maxtag.Base.{
  ℕ, ◌+◌, ◌≡◌, ◌≤◌, refl, true, false, ◌↔◌, Text, text, text_eq, option_eq, text_or, List, [], ◌∷◌,
  none, some, ok, err, arith, Memᴰ, length, trim, strip_prefix,
}
use maxtag.Access.Types.{
  owner, member, active, viewer, members, workspace, write_memory, manage_routines, MemberIdentity,
  WorkspaceMember, AccessState, create_empty_state, workspace_last_owner_required, required,
  project_key, append_audit, normalize_identities, identity_key, policy_id, membership_id,
  workspace_access_workspace_required,
}
use maxtag.Access.Members.{
  UpsertMemberInput, upsert_member, remove_member, active_owner_count, identity_conflict,
  leaves_no_owner,
}
use maxtag.Access.Projects.{
  PolicyRequest, set_project_policy, MembershipRequest, upsert_project_membership,
}
use maxtag.Access.Projects.References.{IsReferential}
use maxtag.Access.Authorize.{
  AuthorizeInput, Decision, authorize, decide, includes, mode_of, acting_member, membership_of,
  actor_ids, capabilities_for_project_role, capabilities_for_workspace_role,
}
use maxtag.Access.Authorize.Rights.{Entitled, decide-includes, authorize-Entitled}
use maxtag.Access.Run.{
  Request, upserts_member, removes_member, sets_policy, upserts_membership, run, run-owner,
  run-IsReferential, identity_determines_member,
}
use maxtag.Access.Audit.{length-run_audit}

abbrev ids : Text → ℕ → Text
ids prefix i = (48 + i) ∷ prefix

abbrev boss : UpsertMemberInput
boss = record {
  id = none;
  workspace_id = text " w ";
  display_name = text "Boss";
  role = some owner;
  status = none;
  identities = record { platform = text "lark"; external_id = text " u1 " } ∷ [];
  actor = none;
}

abbrev worker : UpsertMemberInput
worker = record boss {
  display_name = text "Worker";
  role = none;
  identities = record { platform = text "lark"; external_id = text "u2" } ∷ [];
}

abbrev clash : UpsertMemberInput
clash = record worker { display_name = text "Clash" }

abbrev closed_project : PolicyRequest
closed_project = record {
  workspace_id = text "w";
  project_id = text "w:p";
  mode = members;
  actor = none;
}

abbrev joins : MembershipRequest
joins = record {
  workspace_id = text "w";
  project_id = text "p";
  member_id = text "0b";
  role = viewer;
  actor = none;
}

abbrev history : List (ℕ × (ℕ → Text) × Request)
history =
    (1, ids (text "a"), upserts_member worker)
    ∷ (2, ids (text "a"), upserts_member boss)
    ∷ (3, ids (text "b"), upserts_member worker)
    ∷ (4, ids (text "c"), upserts_member clash)
    ∷ (5, ids (text "d"), sets_policy closed_project)
    ∷ (6, ids (text "e"), upserts_membership joins)
    ∷ (7, ids (text "f"), removes_member (text "w") (text "0a") (text "x"))
    ∷ []

abbrev final : AccessState
final = run create_empty_state history

-- The functions that a run computes with.
calls : Unit {0}
unfolding run upsert_member remove_member set_project_policy upsert_project_membership required
    normalize_identities identity_key identity_conflict leaves_no_owner active_owner_count
    append_audit project_key policy_id membership_id create_empty_state text trim strip_prefix
    text_eq option_eq text_or authorize decide actor_ids capabilities_for_project_role
    capabilities_for_workspace_role
calls = tt

-- The first member must be an owner, an identity is linked once, and the last owner stays.
refusals :
    (length final.members ≡ 2)
    × (length final.project_memberships ≡ 1)
    × (length final.audit ≡ 4)
    × (remove_member (text "w") (text "0a") (text "x") 7 (ids (text "f")) final
        ≡ err workspace_last_owner_required)
unfolding calls
refusals = (refl, refl, refl, refl)

abbrev founded : AccessState
founded = run create_empty_state ((2, ids (text "a"), upserts_member boss) ∷ [])

abbrev later : List (ℕ × (ℕ → Text) × Request)
later =
    (3, ids (text "b"), upserts_member worker)
    ∷ (7, ids (text "f"), removes_member (text "w") (text "0a") (text "x"))
    ∷ []

run-owner_example : 1 ≤ active_owner_count (run founded later) (text "w") none
unfolding calls
run-owner_example = run-owner founded later (text "w") (omega arith)

abbrev linked : MemberIdentity
linked = record { platform = text "lark"; external_id = text "u2" }

abbrev stored_worker : WorkspaceMember
stored_worker = record {
  id = text "0b";
  workspace_id = text "w";
  display_name = text "Worker";
  role = member;
  status = active;
  identities = linked ∷ [];
  created_at = 3;
  updated_at = 3;
}

identity_determines_member_example : stored_worker.id ≡ stored_worker.id
unfolding calls
identity_determines_member_example =
    identity_determines_member history stored_worker stored_worker linked
      (Memᴰ.tail (Memᴰ.head refl)) (Memᴰ.tail (Memᴰ.head refl)) refl (Memᴰ.head refl)
      (Memᴰ.head refl)

run-IsReferential_example : IsReferential (run create_empty_state history)
run-IsReferential_example = run-IsReferential history

length-run_audit_example : length (run create_empty_state history).audit ≤ 1_000
length-run_audit_example = length-run_audit history

abbrev asks : AuthorizeInput
asks = record {
  workspace_id = text "w";
  project_id = text "p";
  platform = text "lark";
  actor_id = text " u2";
  platform_user_id = none;
  capability = write_memory;
}

abbrev answer : Decision
answer =
    decide write_memory (mode_of (text "w") (text "p") final) (acting_member (text "w") asks final)
      (membership_of (text "w") (text "p") (acting_member (text "w") asks final) final)

-- A viewer of a project may not write its memory.
viewer_may_not_write : answer.allowed ≡ false
unfolding calls
viewer_may_not_write = refl

authorize-Entitled_example :
    (w p : Text) × (required asks.workspace_id workspace_access_workspace_required ≡ ok w)
    × (project_key w asks.project_id ≡ ok p)
    × ((answer.allowed ≡ true)
        ↔ Entitled asks.capability
            (mode_of w p final)
            (acting_member w asks final)
            (membership_of w p (acting_member w asks final) final))
unfolding calls
authorize-Entitled_example = authorize-Entitled asks final answer refl

decide-includes_example :
    (decide manage_routines workspace none none).allowed
    ≡ includes (decide manage_routines workspace none none).capabilities manage_routines
decide-includes_example = decide-includes manage_routines workspace none none
