-- ===== src/Access/Members/Changes.antt =====
-- What a successful change of the members has checked, and what it has stored.
use maxtag.Base.{
  ℕ, ◌≡◌, sym, subst, text_eq_iff, find-passes, false, not, Text, text_eq, List, Option, none, some,
  find, ok, >>=-eq-ok, inl, inr, ◌⊎◌, filter, arith, remove_first, Option-cases,
}
use maxtag.Access.Types.{
  MemberIdentity, WorkspaceMember, AccessState, required, normalize_identities, append_audit,
  workspace_member_workspace_required, workspace_member_display_name_required,
}
use maxtag.Access.Members.{
  with_id, is_active_owner, identity_conflict, UpsertMemberInput, existing_member, leaves_no_owner,
  store_member, upsert_checked, upsert_member, remove_member,
}

-- A member that has been found by an id is found by its own.
pub find_again :
    (w id : Text) (e : WorkspaceMember) (ms : List WorkspaceMember)
    → find (with_id w id) ms ≡ some e
    → find (with_id w e.id) ms ≡ some e
find_again w id e ms h =
    let same : e.id ≡ id = ground (arith, find-passes (with_id w id) ms h, text_eq_iff e.id id) in
    subst (λ (x : Text). find (with_id w x) ms ≡ some e) (sym same) h

-- The facts that `upsertMember` has established of the workspace `w` when it has stored `m`.
pub record Upserted (input : UpsertMemberInput) (w : Text) (s s' : AccessState)
    (m : WorkspaceMember) : Type 0 where
  pub stored : s'.members ≡ store_member w (existing_member w input.id s.members) m s.members
  pub memberships : s'.project_memberships ≡ s.project_memberships
  pub policies : s'.project_policies ≡ s.project_policies
  pub workspace : m.workspace_id ≡ w
  pub identified : normalize_identities input.identities ≡ ok m.identities
  pub available : identity_conflict s w m.id m.identities ≡ false
  pub owned : leaves_no_owner s w (existing_member w input.id s.members) (is_active_owner m) ≡ false
  pub kept_id : (e : WorkspaceMember) → existing_member w input.id s.members ≡ some e → m.id ≡ e.id

upsert_checked-Upserted :
    (input : UpsertMemberInput) (w name : Text) (ids : List MemberIdentity) (at : ℕ)
    (uuid : ℕ → Text) (s s' : AccessState) (m : WorkspaceMember)
    → normalize_identities input.identities ≡ ok ids
    → upsert_checked input w name ids at uuid s ≡ ok (s', m)
    → Upserted input w s s' m
unfolding upsert_checked append_audit
upsert_checked-Upserted input w name ids at uuid s s' m i h = record {
  stored = ground arith;
  memberships = ground arith;
  policies = ground arith;
  workspace = ground arith;
  identified = ground arith;
  available = ground arith;
  owned = ground arith;
  kept_id = λ e h'. ground arith;
}

-- The workspace is the trimmed one of the input.
pub upsert_member-Upserted :
    (input : UpsertMemberInput) (at : ℕ) (uuid : ℕ → Text) (s s' : AccessState)
    (m : WorkspaceMember)
    → upsert_member input at uuid s ≡ ok (s', m)
    → (w : Text) × (required input.workspace_id workspace_member_workspace_required ≡ ok w)
      × Upserted input w s s' m
unfolding upsert_member
upsert_member-Upserted input at uuid s s' m h =
    let (w, e, h₁) =
      >>=-eq-ok (required input.workspace_id workspace_member_workspace_required) _ h in
    let (name, _, h₂) =
      >>=-eq-ok (required input.display_name workspace_member_display_name_required) _ h₁ in
    let (ids, i, h₃) = >>=-eq-ok (normalize_identities input.identities) _ h₂ in
    (w, e, upsert_checked-Upserted input w name ids at uuid s s' m i h₃)

-- The facts that `removeMember` has established when it has removed `m`.
pub record Removed (w id : Text) (s s' : AccessState) (m : WorkspaceMember) : Type 0 where
  pub found : find (with_id w id) s.members ≡ some m
  pub stored : s'.members ≡ remove_first (with_id w m.id) s.members
  pub memberships :
      s'.project_memberships ≡ filter (λ p. not (text_eq p.member_id m.id)) s.project_memberships
  pub owned : leaves_no_owner s w (some m) false ≡ false

pub remove_member-Removed :
    (w id actor : Text) (at : ℕ) (uuid : ℕ → Text) (s s' : AccessState) (o : Option WorkspaceMember)
    → remove_member w id actor at uuid s ≡ ok (s', o)
    → ((o ≡ none) × (s' ≡ s) × (find (with_id w id) s.members ≡ none))
      ⊎ ((m : WorkspaceMember) × (o ≡ some m) × Removed w id s s' m)
unfolding remove_member append_audit
remove_member-Removed w id actor at uuid s s' o h =
    elim (Option-cases (find (with_id w id) s.members)) [
      | inl e ↦ inl (ground arith, ground arith, e)
      | inr (m, e) ↦ inr (
        m,
        ground arith,
        record {
          found = e;
          stored = ground arith;
          memberships = ground arith;
          owned = ground arith;
        },
      )
    ]
