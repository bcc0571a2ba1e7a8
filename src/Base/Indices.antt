-- ===== src/Base/Indices.antt =====
-- References into an array, as indices: what `tag` lists, and what a write through one changes.
use Prim.Native.Nat.{ℕ, min, zero, suc, ◌+◌, ◌<◌}
use mathlib.Core.Path.{◌≡◌, refl, sym, ap, ◌∙◌, subst}
use mathlib.Core.Logic.{◌≢◌, inl, inr}
use mathlib.Core.Bool.{Bool, true}
use mathlib.Core.Option.{Option, none, some}
use mathlib.Core.List.{List, [], ◌∷◌, map}
use native.Mathlib.Omega.{arith}
use maxtag.Base.Tests.{Bool-cases, ◌==◌}
use maxtag.Base.Lists.{
  length, length-take, take, filter, any, tag, update_at, update_indices, contains, All, All-take,
  All-filter,
}
use maxtag.Base.Searches.{Pairwise}
use maxtag.Base.Sort.{insert_by, sort_by, length-sort_by, All-insert_by, All-sort_by}

module _ {ℓ} {A : Type ℓ} where
  abbrev pub get_elem? : List A → ℕ → Option A
  get_elem? [] i = none
  get_elem? (x ∷ xs) zero = some x
  get_elem? (x ∷ xs) (suc i) = get_elem? xs i

  -- The element that a reference was taken from is the one that it reaches.
  abbrev pub Reaches : List A → ℕ × A → Type ℓ
  Reaches xs p = get_elem? xs p.0 ≡ some p.1

  abbrev Differ : ℕ × A → ℕ × A → Type 0
  Differ p q = p.0 ≢ q.0

  -- References that reach their elements, no two to one place.
  abbrev pub References : List A → List (ℕ × A) → Type ℓ
  References xs ps = All (Reaches xs) ps × Pairwise Differ ps

  abbrev From : ℕ → List A → ℕ × A → Type ℓ
  From n xs p = (i : ℕ) × (p.0 ≡ n + i) × (get_elem? xs i ≡ some p.1)

  From-cons :
      (n : ℕ) (x : A) (xs : List A) (ps : List (ℕ × A))
      → All (From (suc n) xs) ps
      → All (From n (x ∷ xs)) ps
  From-cons n x xs [] h = tt
  From-cons n x xs (p ∷ ps) ((i, e, g), h) = ((suc i, omega arith, g), From-cons n x xs ps h)

  tag-From : (n : ℕ) (xs : List A) → All (From n xs) (tag n xs)
  tag-From n [] = tt
  tag-From n (x ∷ xs) = ((zero, omega arith, refl), From-cons n x xs _ (tag-From (suc n) xs))

  From-Reaches : (xs : List A) (ps : List (ℕ × A)) → All (From 0 xs) ps → All (Reaches xs) ps
  From-Reaches xs [] h = tt
  From-Reaches xs (p ∷ ps) ((i, e, g), h) =
      let same : p.0 ≡ i = omega arith in (ap (get_elem? xs) same ∙ g, From-Reaches xs ps h)

  Differ-later :
      (n i : ℕ) (x y : A) (ps : List (ℕ × A)) (xs : List A)
      → n < i
      → All (From i xs) ps
      → All (Differ (n, x)) ps
  Differ-later n i x y [] xs h k = tt
  Differ-later n i x y (p ∷ ps) xs h ((j, e, g), k) =
      (λ q. omega arith, Differ-later n i x y ps xs h k)

  tag-Differ : (n : ℕ) (xs : List A) → Pairwise Differ (tag n xs)
  tag-Differ n [] = tt
  tag-Differ n (x ∷ xs) =
      (Differ-later n (suc n) x x _ xs (omega arith) (tag-From (suc n) xs), tag-Differ (suc n) xs)

  pub tag-References : (xs : List A) → References xs (tag 0 xs)
  tag-References xs = (From-Reaches xs _ (tag-From 0 xs), tag-Differ 0 xs)

  -- Elements that pass a test are counted alike with their places.
  pub length-filter-tag :
      (t : A → Bool) (n : ℕ) (xs : List A)
      → length (filter (λ p. t p.1) (tag n xs)) ≡ length (filter t xs)
  length-filter-tag t n [] = refl
  length-filter-tag t n (x ∷ xs) = ground (arith, length-filter-tag t (suc n) xs)

  -- What a selection takes: all that pass the test, up to the limit.
  pub length-selection :
      (t : A → Bool) (le : ℕ × A → ℕ × A → Bool) (most : ℕ) (xs : List A)
      → length (take most (sort_by le (filter (λ p. t p.1) (tag 0 xs))))
        ≡ min most (length (filter t xs))
  length-selection t le most xs = omega (
    arith,
    length-take most (sort_by le (filter (λ p. t p.1) (tag 0 xs))),
    length-sort_by le (filter (λ p. t p.1) (tag 0 xs)),
    length-filter-tag t 0 xs,
  )

  -- A write through a reference leaves the other places alone.
  pub get_elem?-update_at_ne :
      (xs : List A) (i j : ℕ) (f : A → A) → i ≢ j → get_elem? (update_at i f xs) j ≡ get_elem? xs j
  get_elem?-update_at_ne [] i j f n = refl
  get_elem?-update_at_ne (x ∷ xs) zero zero f n = absurd (n refl)
  get_elem?-update_at_ne (x ∷ xs) zero (suc j) f n = refl
  get_elem?-update_at_ne (x ∷ xs) (suc i) zero f n = refl
  get_elem?-update_at_ne (x ∷ xs) (suc i) (suc j) f n =
      get_elem?-update_at_ne xs i j f (λ e. n (ap suc e))

  pub References-update_at :
      (xs : List A) (p : ℕ × A) (ps : List (ℕ × A)) (f : A → A)
      → All (Differ p) ps
      → All (Reaches xs) ps
      → All (Reaches (update_at p.0 f xs)) ps
  References-update_at xs p [] f d h = tt
  References-update_at xs p (q ∷ ps) f d h =
      (get_elem?-update_at_ne xs p.0 q.0 f d.0 ∙ h.0, References-update_at xs p ps f d.1 h.1)

  -- A search that the written element passes still succeeds.
  pub any-update_at :
      (t : A → Bool) (xs : List A) (i : ℕ) (x y : A)
      → get_elem? xs i ≡ some x
      → (t x ≡ true → t y ≡ true)
      → any t xs ≡ true
      → any t (update_at i (λ _. y) xs) ≡ true
  any-update_at t [] i x y e keep h = cc
  any-update_at t (z ∷ xs) zero x y e keep h = ground (arith, e)
  any-update_at t (z ∷ xs) (suc i) x y e keep h = ground (arith, any-update_at t xs i x y e keep)

  pub any-get_elem? :
      (t : A → Bool) (xs : List A) (i : ℕ) {x : A}
      → get_elem? xs i ≡ some x
      → t x ≡ true
      → any t xs ≡ true
  any-get_elem? t [] i e h = cc
  any-get_elem? t (y ∷ xs) zero e h = ground (arith, e)
  any-get_elem? t (y ∷ xs) (suc i) e h = ground (arith, any-get_elem? t xs i e h)

  pub All-get_elem? {κ} :
      (P : A → Type κ) (xs : List A) (i : ℕ) {x : A} → All P xs → get_elem? xs i ≡ some x → P x
  All-get_elem? P [] i h e = cc
  All-get_elem? P (y ∷ xs) zero h e = subst P (ground arith) h.0
  All-get_elem? P (y ∷ xs) (suc i) h e = All-get_elem? P xs i h.1 e

module _ {ℓ κ} {A : Type ℓ} (R : A → A → Type κ) where
  pub Pairwise-filter : (t : A → Bool) (xs : List A) → Pairwise R xs → Pairwise R (filter t xs)
  Pairwise-filter t [] h = tt
  Pairwise-filter t (x ∷ xs) h = elim (Bool-cases (t x)) [
    | inl keep ↦ rw keep (All-filter (R x) t xs h.0, Pairwise-filter t xs h.1)
    | inr drop ↦ rw drop (Pairwise-filter t xs h.1)
  ]

  pub Pairwise-take : (n : ℕ) (xs : List A) → Pairwise R xs → Pairwise R (take n xs)
  Pairwise-take zero xs h = tt
  Pairwise-take (suc n) [] h = tt
  Pairwise-take (suc n) (x ∷ xs) h = (All-take (R x) n xs h.0, Pairwise-take n xs h.1)

  module _ (flip : (x y : A) → R x y → R y x) (le : A → A → Bool) where
    Pairwise-insert_by :
        (x : A) (ys : List A) → All (R x) ys → Pairwise R ys → Pairwise R (insert_by le x ys)
    unfolding insert_by
    Pairwise-insert_by x [] h v = (tt, tt)
    Pairwise-insert_by x (y ∷ ys) h v = elim (Bool-cases (le x y)) [
      | inl first ↦ rw first (h, v)
      | inr after ↦
          rw after (All-insert_by le (R y) x ys (flip x y h.0) v.0, Pairwise-insert_by x ys h.1 v.1)
    ]

    pub Pairwise-sort_by : (xs : List A) → Pairwise R xs → Pairwise R (sort_by le xs)
    unfolding sort_by
    Pairwise-sort_by [] h = tt
    Pairwise-sort_by (x ∷ xs) h =
        Pairwise-insert_by x (sort_by le xs) (All-sort_by le (R x) xs h.0) (Pairwise-sort_by xs h.1)

-- What `filter`, `sort` and `slice` leave of the references are references.
pub References-selection {ℓ} :
    {A : Type ℓ} (n : ℕ) (le : ℕ × A → ℕ × A → Bool) (t : ℕ × A → Bool) (xs : List A)
    → References xs (take n (sort_by le (filter t (tag 0 xs))))
References-selection n le t xs =
    let (reach, apart) = tag-References xs in
    (
      All-take (Reaches xs) n _ (All-sort_by le (Reaches xs) _ (All-filter (Reaches xs) t _ reach)),
      Pairwise-take Differ n _
          (Pairwise-sort_by Differ (λ p q h e. h (sym e)) le _ (Pairwise-filter Differ t _ apart)),
    )

pub References-sort_by {ℓ} :
    {A : Type ℓ} (le : ℕ × A → ℕ × A → Bool) (xs : List A) → References xs (sort_by le (tag 0 xs))
References-sort_by le xs =
    let (reach, apart) = tag-References xs in
    (All-sort_by le (Reaches xs) _ reach, Pairwise-sort_by Differ (λ p q h e. h (sym e)) le _ apart)

module _ {ℓ κ} {A : Type ℓ} (P : A → Type κ) where
  -- An element whose place is among the references is one of the elements that they carry.
  pub All-contains :
      (xs : List A) (ps : List (ℕ × A)) (j : ℕ) (x : A)
      → All (λ p. P p.1) ps
      → All (Reaches xs) ps
      → contains (map (λ p. p.0) ps) j ≡ true
      → get_elem? xs j ≡ some x
      → P x
  All-contains xs [] j x h r c e = cc
  All-contains xs (p ∷ ps) j x h r c e = elim (Bool-cases (p.0 == j)) [
    | inl here ↦
        let same : p.0 ≡ j = ground (arith, here) in
        let at : get_elem? xs j ≡ some p.1 =
          subst (λ (i : ℕ). get_elem? xs i ≡ some p.1) same r.0 in
        subst P (ground (arith, at, e)) h.0
    | inr later ↦ All-contains xs ps j x h.1 r.1 (ground (arith, later)) e
  ]

  -- A write to the places in a list that is right for the elements there.
  All-update_indices_from :
      (is : List ℕ) (f : A → A) (n : ℕ) (xs ys : List A)
      → ((m : ℕ) → get_elem? ys (n + m) ≡ get_elem? xs m)
      → ((j : ℕ) (x : A) → contains is j ≡ true → get_elem? ys j ≡ some x → P x → P (f x))
      → All P xs
      → All P (update_indices is f n xs)
  All-update_indices_from is f n [] ys at keep h = tt
  All-update_indices_from is f n (x ∷ xs) ys at keep h =
      let place : n + 0 ≡ n = omega arith in
      let here : get_elem? ys n ≡ some x = ap (get_elem? ys) (sym place) ∙ at 0 in
      let rest =
        All-update_indices_from is f (suc n) xs ys
          (λ m.
            let next : suc n + m ≡ n + suc m = omega arith in ap (get_elem? ys) next ∙ at (suc m))
          keep h.1 in
      elim (Bool-cases (contains is n)) [
        | inl listed ↦ rw listed (keep n x listed here h.0, rest)
        | inr other ↦ rw other (h.0, rest)
      ]

  pub All-update_indices_at :
      (is : List ℕ) (f : A → A) (xs : List A)
      → ((j : ℕ) (x : A) → contains is j ≡ true → get_elem? xs j ≡ some x → P x → P (f x))
      → All P xs
      → All P (update_indices is f 0 xs)
  All-update_indices_at is f xs keep h =
      All-update_indices_from is f 0 xs xs
        (λ m. let same : 0 + m ≡ m = omega arith in ap (get_elem? xs) same) keep h
