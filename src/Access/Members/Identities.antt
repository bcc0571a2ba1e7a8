-- ===== src/Access/Members/Identities.antt =====
-- No identity is linked to two members of one workspace.
use maxtag.Base.{
  ℕ, ◌≡◌, ◌≢◌, refl, sym, ap, ◌∙◌, subst, inl, inr, Bool, false, Text, text_eq_iff, List, [], ◌∷◌,
  ◌++◌, Option, update_first, remove_first, ok, arith, All, All-append, All-update_first,
  All-remove_first, All-mem, Memᴰ, All-tabulate, Pairwise, Option-cases, Bool-cases, any-false,
}
use maxtag.Access.Types.{WorkspaceMember, MemberIdentity, AccessState, identity_key}
use maxtag.Access.Members.{
  with_id, shares_identity, identity_conflict, existing_member, UpsertMemberInput, upsert_member,
  remove_member,
}
use maxtag.Access.Members.Changes.{upsert_member-Upserted, remove_member-Removed}

-- Of two members of a workspace with different ids, no identity of one has the key of one of the
-- other's.
abbrev pub Apart : WorkspaceMember → WorkspaceMember → Type 0
Apart a b =
    a.workspace_id ≡ b.workspace_id
    → a.id ≢ b.id
    → (i j : MemberIdentity) → Memᴰ i a.identities
    → Memᴰ j b.identities
    → identity_key i ≢ identity_key j

abbrev pub HasDistinctIdentities : AccessState → Type 0
HasDistinctIdentities s = Pairwise Apart s.members

Apart-sym : (a b : WorkspaceMember) → Apart a b → Apart b a
Apart-sym a b h w n i j m k e = h (sym w) (λ e'. n (sym e')) j i k m (sym e)

-- The check before a member is stored.
available-Apart :
    (s : AccessState) (w : Text) (m : WorkspaceMember)
    → m.workspace_id ≡ w
    → identity_conflict s w m.id m.identities ≡ false
    → (x : WorkspaceMember) → Memᴰ x s.members
    → Apart x m
unfolding identity_conflict
available-Apart s w m in_w h x listed same other i j mi mj e =
    let none_shared = any-false _ s.members h listed in
    let apart : shares_identity m.identities x.identities ≡ false =
      ground (arith, text_eq_iff x.workspace_id w, text_eq_iff x.id m.id, none_shared) in
    let no_key = any-false _ m.identities (any-false _ x.identities apart mi) mj in
    ground (arith, text_eq_iff (identity_key j) (identity_key i), no_key, e)

Pairwise-append :
    (xs : List WorkspaceMember) (m : WorkspaceMember)
    → All (λ x. Apart x m) xs
    → Pairwise Apart xs
    → Pairwise Apart (xs ++ m ∷ [])
Pairwise-append [] m h v = (tt, tt)
Pairwise-append (x ∷ xs) m h v =
    (All-append (Apart x) xs (m ∷ []) v.0 (h.0, tt), Pairwise-append xs m h.1 v.1)

All-flip :
    (xs : List WorkspaceMember) (m : WorkspaceMember) → All (λ x. Apart x m) xs → All (Apart m) xs
All-flip [] m h = tt
All-flip (x ∷ xs) m h = (Apart-sym x m h.0, All-flip xs m h.1)

Pairwise-update_first :
    (p : WorkspaceMember → Bool) (xs : List WorkspaceMember) (m : WorkspaceMember)
    → All (λ x. Apart x m) xs
    → Pairwise Apart xs
    → Pairwise Apart (update_first p (λ _. m) xs)
Pairwise-update_first p [] m h v = tt
Pairwise-update_first p (x ∷ xs) m h v = elim (Bool-cases (p x)) [
  | inl hit ↦ rw hit (All-flip xs m h.1, v.1)
  | inr miss ↦ rw miss (
    All-update_first (Apart x) p (λ _. m) xs (λ y _ _. h.0) v.0,
    Pairwise-update_first p xs m h.1 v.1,
  )
]

Pairwise-remove_first :
    (p : WorkspaceMember → Bool) (xs : List WorkspaceMember)
    → Pairwise Apart xs
    → Pairwise Apart (remove_first p xs)
Pairwise-remove_first p [] v = tt
Pairwise-remove_first p (x ∷ xs) v = elim (Bool-cases (p x)) [
  | inl hit ↦ rw hit v.1
  | inr miss ↦ rw miss (All-remove_first (Apart x) p xs v.0, Pairwise-remove_first p xs v.1)
]

pub upsert_member-HasDistinctIdentities :
    (input : UpsertMemberInput) (at : ℕ) (uuid : ℕ → Text) (s s' : AccessState)
    (m : WorkspaceMember)
    → upsert_member input at uuid s ≡ ok (s', m)
    → HasDistinctIdentities s
    → HasDistinctIdentities s'
upsert_member-HasDistinctIdentities input at uuid s s' m h v =
    let (w, _, u) = upsert_member-Upserted input at uuid s s' m h in
    let apart : All (λ x. Apart x m) s.members =
      All-tabulate (λ x. Apart x m) s.members (available-Apart s w m u.workspace u.available) in
    elim (Option-cases (existing_member w input.id s.members)) [
      | inl new ↦ rw (u.stored, new) (Pairwise-append s.members m apart v)
      | inr (e, old) ↦
          rw (u.stored, old) (Pairwise-update_first (with_id w e.id) s.members m apart v)
    ]

pub remove_member-HasDistinctIdentities :
    (w id actor : Text) (at : ℕ) (uuid : ℕ → Text) (s s' : AccessState) (o : Option WorkspaceMember)
    → remove_member w id actor at uuid s ≡ ok (s', o)
    → HasDistinctIdentities s
    → HasDistinctIdentities s'
remove_member-HasDistinctIdentities w id actor at uuid s s' o h v =
    elim (remove_member-Removed w id actor at uuid s s' o h) [
      | inl unchanged ↦ rw unchanged.1 v
      | inr (m, _, r) ↦ rw r.stored (Pairwise-remove_first (with_id w m.id) s.members v)
    ]

-- In a list that is pairwise apart, an identity determines the id of its member.
pub Pairwise-id :
    (xs : List WorkspaceMember) (a b : WorkspaceMember) (i : MemberIdentity)
    → Pairwise Apart xs
    → Memᴰ a xs
    → Memᴰ b xs
    → a.workspace_id ≡ b.workspace_id
    → Memᴰ i a.identities
    → Memᴰ i b.identities
    → ¬ (a.id ≢ b.id)
Pairwise-id [] a b i v ma mb w ia ib n = elim ma [ ]
Pairwise-id (x ∷ xs) a b i v (Memᴰ.head e) (Memᴰ.head e') w ia ib n =
    n (ap (λ y. y.id) (e ∙ sym e'))
Pairwise-id (x ∷ xs) a b i v (Memᴰ.head e) (Memᴰ.tail mb) w ia ib n =
    subst (λ y. Apart y b) (sym e) (All-mem (Apart x) xs v.0 mb) w n i i ia ib refl
Pairwise-id (x ∷ xs) a b i v (Memᴰ.tail ma) (Memᴰ.head e) w ia ib n =
    subst (λ y. Apart y a) (sym e) (All-mem (Apart x) xs v.0 ma) (sym w) (λ q. n (sym q)) i i ib ia
      refl
Pairwise-id (x ∷ xs) a b i v (Memᴰ.tail ma) (Memᴰ.tail mb) w ia ib n =
    Pairwise-id xs a b i v.1 ma mb w ia ib n
