-- ===== src/Access/Members/Owners.antt =====
-- A workspace that has an active owner keeps one.
use maxtag.Base.{
  ℕ, ◌≡◌, refl, ◌≤◌, ◌⊎◌, inl, inr, Bool, true, false, ◌&&◌, Text, text_eq, text_eq_iff,
  text_eq_refl, List, [], ◌∷◌, Option, none, some, find, length, filter, update_first, remove_first,
  ok, arith, Bool-cases, Option-cases, find-passes, count-append, count_mono, count-update_first,
  count-remove_first, count-update_first_pos,
}
use maxtag.Access.Types.{WorkspaceMember, AccessState}
use maxtag.Access.Members.{
  with_id, in_workspace, is_active_owner, is_other, active_owner_count, leaves_no_owner,
  existing_member, UpsertMemberInput, upsert_member, remove_member,
}
use maxtag.Access.Members.Changes.{find_again, upsert_member-Upserted, remove_member-Removed}

-- The members that `activeOwnerCount` counts in a workspace.
abbrev counts : Text → Option Text → WorkspaceMember → Bool
counts w except m = in_workspace w m && is_other except m && is_active_owner m

abbrev owners : Text → Option Text → List WorkspaceMember → ℕ
owners w except ms = length (filter (counts w except) ms)

owners-other : (w id : Text) (ms : List WorkspaceMember) → owners w (some id) ms ≤ owners w none ms
owners-other w id ms = count_mono (counts w none) (counts w (some id)) ms (λ m h. ground arith)

-- The member with an id is not among the others.
not-counts_self : (w : Text) (e : WorkspaceMember) → counts w (some e.id) e ≡ false
not-counts_self w e = ground (arith, text_eq_refl e.id)

-- Another workspace's owners are not counted.
not-counts_elsewhere :
    (w w' id : Text) (e : WorkspaceMember)
    → with_id w' id e ≡ true
    → text_eq w' w ≡ false
    → counts w none e ≡ false
not-counts_elsewhere w w' id e h n =
    ground (arith, text_eq_iff e.workspace_id w', text_eq_iff e.workspace_id w, text_eq_iff w' w)

-- The member `e` of the workspace `w'` is to be written over or removed.
module _ (s : AccessState) (w' : Text) (e : WorkspaceMember)
    (found : find (with_id w' e.id) s.members ≡ some e) where
  has-id : with_id w' e.id e ≡ true
  has-id = find-passes (with_id w' e.id) s.members found

  -- The check has passed, so `e` is no owner that counts, or an owner remains beside it.
  beside :
      (w : Text) (stays : Bool)
      → leaves_no_owner s w' (some e) stays ≡ false
      → (text_eq w' w ≡ true → stays ≡ false)
      → (counts w none e ≡ false) ⊎ (1 ≤ owners w (some e.id) s.members)
  unfolding leaves_no_owner active_owner_count
  beside w stays h gone = elim (Bool-cases (text_eq w' w)) [
    | inl same ↦ rw (← (text_eq_iff w' w).0 same) (ground (arith, gone same))
    | inr other ↦ inl (not-counts_elsewhere w w' e.id e has-id other)
  ]

  module _ (w : Text) (some_owner : 1 ≤ owners w none s.members) where
    owners-removed :
        leaves_no_owner s w' (some e) false ≡ false
        → 1 ≤ owners w none (remove_first (with_id w' e.id) s.members)
    owners-removed h = elim (beside w false h (λ _. refl)) [
      | inl out ↦
          omega (
            arith,
            count-remove_first (counts w none) (with_id w' e.id) {e = e} s.members found out,
          )
      | inr left ↦ omega (
        arith,
        count-remove_first (counts w (some e.id)) (with_id w' e.id) {e = e} s.members found
            (not-counts_self w e),
        owners-other w e.id (remove_first (with_id w' e.id) s.members),
      )
    ]

    owners-written :
        (m : WorkspaceMember)
        → m.workspace_id ≡ w'
        → leaves_no_owner s w' (some e) (is_active_owner m) ≡ false
        → 1 ≤ owners w none (update_first (with_id w' e.id) (λ _. m) s.members)
    owners-written m in_w h = elim (Bool-cases (counts w none m)) [
      | inl counted ↦
          count-update_first_pos (counts w none) (with_id w' e.id) {e = e} (λ _. m) s.members found
            counted
      | inr out ↦ elim (beside w (is_active_owner m) h (λ same. ground (arith, in_w))) [
        | inl no_count ↦ omega (
          arith,
          count-update_first (counts w none) (with_id w' e.id) {e = e} (λ _. m) s.members found
              no_count,
        )
        | inr left ↦ omega (
          arith,
          count-update_first (counts w (some e.id)) (with_id w' e.id) {e = e} (λ _. m) s.members
              found (not-counts_self w e),
          owners-other w e.id (update_first (with_id w' e.id) (λ _. m) s.members),
        )
      ]
    ]

existing-found :
    (w : Text) (id : Option Text) (ms : List WorkspaceMember) (e : WorkspaceMember)
    → existing_member w id ms ≡ some e
    → find (with_id w e.id) ms ≡ some e
existing-found w none ms e h = cc
existing-found w (some id) ms e h = find_again w id e ms (ground arith)

-- If a workspace has an active owner, it has one after any `upsertMember` that succeeds, whichever
-- workspace that is about.
pub owner-upsert_member :
    (input : UpsertMemberInput) (at : ℕ) (uuid : ℕ → Text) (s s' : AccessState)
    (m : WorkspaceMember) (w : Text)
    → upsert_member input at uuid s ≡ ok (s', m)
    → 1 ≤ active_owner_count s w none
    → 1 ≤ active_owner_count s' w none
unfolding active_owner_count
owner-upsert_member input at uuid s s' m w h some_owner =
    let (w', _, u) = upsert_member-Upserted input at uuid s s' m h in
    elim (Option-cases (existing_member w' input.id s.members)) [
      | inl new ↦
          rw (u.stored, new) (omega (arith, count-append (counts w none) s.members (m ∷ [])))
      | inr (e, old) ↦
          rw (u.stored, old)
            (owners-written s w' e (existing-found w' input.id s.members e old) w some_owner m
              u.workspace (rw old at u.owned))
    ]

-- If a workspace has an active owner, it has one after any `removeMember` that succeeds.
pub owner-remove_member :
    (w' id actor : Text) (at : ℕ) (uuid : ℕ → Text) (s s' : AccessState)
    (o : Option WorkspaceMember) (w : Text)
    → remove_member w' id actor at uuid s ≡ ok (s', o)
    → 1 ≤ active_owner_count s w none
    → 1 ≤ active_owner_count s' w none
unfolding active_owner_count
owner-remove_member w' id actor at uuid s s' o w h some_owner =
    elim (remove_member-Removed w' id actor at uuid s s' o h) [
      | inl unchanged ↦ rw unchanged.1 some_owner
      | inr (e, _, r) ↦
          rw r.stored
            (owners-removed s w' e (find_again w' id e s.members r.found) w some_owner r.owned)
    ]
