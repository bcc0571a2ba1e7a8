-- ===== src/Base/Pairs.antt =====
-- What holds of every two elements of a list, when elements are added or dropped; and what a write or
-- a removal by index leaves.
use Prim.Native.Nat.{ℕ, zero, suc, ◌+◌}
use mathlib.Core.Path.{subst, ◌≡◌, refl, sym, ap, ◌∙◌}
use mathlib.Core.Logic.{inl, inr}
use mathlib.Core.Bool.{Bool, true, false}
use mathlib.Core.Option.{some}
use mathlib.Core.List.{List, [], ◌∷◌, ◌++◌, map}
use native.Mathlib.Omega.{arith}
use maxtag.Base.Tests.{if◌then◌else◌, Bool-cases}
use maxtag.Base.Lists.{
  drop, update_first, update_all, filter, contains, update_indices, remove_indices, All, All-append,
}
use maxtag.Base.Searches.{Pairwise}
use maxtag.Base.Indices.{get_elem?}

module _ {ℓ κ} {A : Type ℓ} (R : A → A → Type κ) where
  -- A new last element, to which every other one is related.
  pub Pairwise-append_one :
      (xs : List A) (x : A) → All (λ y. R y x) xs → Pairwise R xs → Pairwise R (xs ++ x ∷ [])
  Pairwise-append_one [] x h v = (tt, tt)
  Pairwise-append_one (y ∷ xs) x h v =
      (All-append (R y) xs (x ∷ []) v.0 (h.0, tt), Pairwise-append_one xs x h.1 v.1)

  pub Pairwise-drop : (n : ℕ) (xs : List A) → Pairwise R xs → Pairwise R (drop n xs)
  Pairwise-drop zero xs v = v
  Pairwise-drop (suc n) [] v = tt
  Pairwise-drop (suc n) (x ∷ xs) v = Pairwise-drop n xs v.1

module _ {ℓ κ} {A : Type ℓ} {K : Type κ} (key : A → K) where
  pub map-append : (xs ys : List A) → map key (xs ++ ys) ≡ map key xs ++ map key ys
  map-append [] ys = refl
  map-append (x ∷ xs) ys = ap (λ ks. key x ∷ ks) (map-append xs ys)

  pub map-drop : (n : ℕ) (xs : List A) → map key (drop n xs) ≡ drop n (map key xs)
  map-drop zero xs = refl
  map-drop (suc n) [] = refl
  map-drop (suc n) (x ∷ xs) = map-drop n xs

  -- A write that leaves the key alone leaves the keys alone.
  module _ (f : A → A) (same : (x : A) → key (f x) ≡ key x) where
    pub map-update_first : (p : A → Bool) (xs : List A) → map key (update_first p f xs) ≡ map key xs
    map-update_first p [] = refl
    map-update_first p (x ∷ xs) = ground (arith, same x, map-update_first p xs)

    pub map-update_all : (p : A → Bool) (xs : List A) → map key (update_all p f xs) ≡ map key xs
    map-update_all p [] = refl
    map-update_all p (x ∷ xs) = ground (arith, same x, map-update_all p xs)

    pub map-update_indices :
        (is : List ℕ) (n : ℕ) (xs : List A) → map key (update_indices is f n xs) ≡ map key xs
    map-update_indices is n [] = refl
    map-update_indices is n (x ∷ xs) = ground (arith, same x, map-update_indices is (suc n) xs)

module _ {ℓ} {A : Type ℓ} (is : List ℕ) where
  -- What lies at a listed place after the write is a written element.
  get_elem?-update_indices_from :
      (f : A → A) (n j : ℕ) (xs : List A) (y : A)
      → contains is (n + j) ≡ true
      → get_elem? (update_indices is f n xs) j ≡ some y
      → (x : A) × (y ≡ f x)
  get_elem?-update_indices_from f n j [] y c e = cc
  get_elem?-update_indices_from f n zero (x ∷ xs) y c e =
      let place : n + 0 ≡ n = omega arith in
      let here : contains is n ≡ true = ap (contains is) (sym place) ∙ c in
      (x, ground (arith, here))
  get_elem?-update_indices_from f n (suc j) (x ∷ xs) y c e =
      let place : suc n + j ≡ n + suc j = omega arith in
      get_elem?-update_indices_from f (suc n) j xs y (ap (contains is) place ∙ c) e

  pub get_elem?-update_indices :
      (f : A → A) (j : ℕ) (xs : List A) (y : A)
      → contains is j ≡ true
      → get_elem? (update_indices is f 0 xs) j ≡ some y
      → (x : A) × (y ≡ f x)
  get_elem?-update_indices f j xs y c e =
      let place : j ≡ 0 + j = omega arith in
      get_elem?-update_indices_from f 0 j xs y (ap (contains is) (sym place) ∙ c) e

  -- A test that fails at every removed element sees no change.
  filter-remove_indices_from :
      (t : A → Bool) (n : ℕ) (xs ys : List A)
      → ((m : ℕ) → get_elem? ys (n + m) ≡ get_elem? xs m)
      → ((j : ℕ) (x : A) → contains is j ≡ true → get_elem? ys j ≡ some x → t x ≡ false)
      → filter t (remove_indices is n xs) ≡ filter t xs
  filter-remove_indices_from t n [] ys at fails = refl
  filter-remove_indices_from t n (x ∷ xs) ys at fails =
      let place : n + 0 ≡ n = omega arith in
      let here : get_elem? ys n ≡ some x = ap (get_elem? ys) (sym place) ∙ at 0 in
      let rest =
        filter-remove_indices_from t (suc n) xs ys
          (λ m.
            let next : suc n + m ≡ n + suc m = omega arith in ap (get_elem? ys) next ∙ at (suc m))
          fails in
      elim (Bool-cases (contains is n)) [
        | inl listed ↦ ground (arith, listed, fails n x listed here, rest)
        | inr other ↦ ground (arith, other, rest)
      ]

  pub filter-remove_indices :
      (t : A → Bool) (xs : List A)
      → ((j : ℕ) (x : A) → contains is j ≡ true → get_elem? xs j ≡ some x → t x ≡ false)
      → filter t (remove_indices is 0 xs) ≡ filter t xs
  filter-remove_indices t xs fails =
      filter-remove_indices_from t 0 xs xs
        (λ m. let same : 0 + m ≡ m = omega arith in ap (get_elem? xs) same) fails

  -- What lies at a place after the write.
  get_elem?-update_indices_at :
      (f : A → A) (n j : ℕ) (xs : List A) (x : A)
      → get_elem? xs j ≡ some x
      → get_elem? (update_indices is f n xs) j ≡ some (if contains is (n + j) then f x else x)
  get_elem?-update_indices_at f n j [] x h = cc
  get_elem?-update_indices_at f n zero (y ∷ xs) x h =
      let place : n + 0 ≡ n = omega arith in
      let same : y ≡ x = ground (arith, h) in rw (place, same) refl
  get_elem?-update_indices_at f n (suc j) (y ∷ xs) x h =
      let place : suc n + j ≡ n + suc j = omega arith in
      subst
        (λ k.
          get_elem? (update_indices is f (suc n) xs) j ≡ some (if contains is k then f x else x))
        place (get_elem?-update_indices_at f (suc n) j xs x h)

  pub get_elem?-update_listed :
      (f : A → A) (j : ℕ) (xs : List A) (x : A)
      → contains is j ≡ true
      → get_elem? xs j ≡ some x
      → get_elem? (update_indices is f 0 xs) j ≡ some (f x)
  get_elem?-update_listed f j xs x listed h =
      let place : 0 + j ≡ j = omega arith in
      let here : contains is (0 + j) ≡ true = ap (contains is) place ∙ listed in
      let at = get_elem?-update_indices_at f 0 j xs x h in
      subst (λ b. get_elem? (update_indices is f 0 xs) j ≡ some (if b then f x else x)) here at
