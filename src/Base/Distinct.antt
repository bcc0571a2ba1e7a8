-- ===== src/Base/Distinct.antt =====
-- What holds of every two elements of a list, when the list is rearranged, split or written to; and the
-- keys that no two elements share.
use Prim.Native.Nat.{ℕ, zero, suc}
use mathlib.Core.Path.{◌≡◌, refl, sym, ap, subst}
use mathlib.Core.Logic.{◌≢◌, inl, inr}
use mathlib.Core.Bool.{Bool, not}
use mathlib.Core.Option.{some}
use mathlib.Core.List.{List, [], ◌∷◌, ◌++◌, map, reverse, reverse_aux}
use native.Mathlib.Omega.{arith}
use maxtag.Base.Tests.{Bool-cases}
use maxtag.Base.Lists.{All, All-append, All-filter, filter}
use maxtag.Base.Searches.{Pairwise}
use maxtag.Base.Indices.{get_elem?, All-get_elem?}

module _ {ℓ κ} {A : Type ℓ} (P : A → Type κ) where
  All-reverse_aux : (xs ys : List A) → All P xs → All P ys → All P (reverse_aux xs ys)
  All-reverse_aux [] ys h k = k
  All-reverse_aux (x ∷ xs) ys h k = All-reverse_aux xs (x ∷ ys) h.1 (h.0, k)

  pub All-reverse : (xs : List A) → All P xs → All P (reverse xs)
  All-reverse xs h = All-reverse_aux xs [] h tt

module _ {ℓ κ μ} {A : Type ℓ} (P : A → Type μ) (R : A → A → Type κ) where
  pub Pairwise-imp {ν} :
      (S : A → A → Type ν) (xs : List A)
      → ((x y : A) → P x → P y → R x y → S x y)
      → All P xs
      → Pairwise R xs
      → Pairwise S xs
  Pairwise-imp S [] f h v = tt
  Pairwise-imp S (x ∷ xs) f (p, h) (r, v) = (related xs h r, Pairwise-imp S xs f h v)
    where
      related : (ys : List A) → All P ys → All (R x) ys → All (S x) ys
      related [] k l = tt
      related (y ∷ ys) k l = (f x y p k.0 l.0, related ys k.1 l.1)

module _ {ℓ κ} {A : Type ℓ} (R : A → A → Type κ) where
  pub Pairwise-append :
      (xs ys : List A)
      → All (λ x. All (R x) ys) xs
      → Pairwise R xs
      → Pairwise R ys
      → Pairwise R (xs ++ ys)
  Pairwise-append [] ys h v w = w
  Pairwise-append (x ∷ xs) ys h v w =
      (All-append (R x) xs ys v.0 h.0, Pairwise-append xs ys h.1 v.1 w)

  module _ (flip : (x y : A) → R x y → R y x) where
    -- Every element of the first list is related to every one of the second.
    Pairwise-reverse_aux :
        (xs ys : List A)
        → Pairwise R xs
        → Pairwise R ys
        → All (λ x. All (R x) ys) xs
        → Pairwise R (reverse_aux xs ys)
    Pairwise-reverse_aux [] ys v w h = w
    Pairwise-reverse_aux (x ∷ xs) ys v w h =
        Pairwise-reverse_aux xs (x ∷ ys) v.1 (h.0, w) (with_first x xs v.0 h.1)
      where
        with_first :
            (x : A) (zs : List A)
            → All (R x) zs
            → All (λ z. All (R z) ys) zs
            → All (λ z. All (R z) (x ∷ ys)) zs
        with_first x [] h k = tt
        with_first x (z ∷ zs) h k = ((flip x z h.0, k.0), with_first x zs h.1 k.1)

    pub Pairwise-reverse : (xs : List A) → Pairwise R xs → Pairwise R (reverse xs)
    Pairwise-reverse xs v = Pairwise-reverse_aux xs [] v tt (All-none xs)
      where
        All-none : (zs : List A) → All (λ z. All (R z) []) zs
        All-none [] = tt
        All-none (z ∷ zs) = (tt, All-none zs)

    -- The elements that pass a test and those that fail it.
    pub Pairwise-split :
        (t : A → Bool) (xs : List A)
        → Pairwise R xs
        → All (λ x. All (R x) (filter t xs)) (filter (λ x. not (t x)) xs)
    Pairwise-split t [] v = tt
    Pairwise-split t (x ∷ xs) v = elim (Bool-cases (t x)) [
      | inr fails ↦ rw fails (All-filter (R x) t xs v.0, Pairwise-split t xs v.1)
      | inl passes ↦
          let others = Pairwise-split t xs v.1 in
          rw passes (
            with_first x (filter t xs) (filter (λ y. not (t y)) xs) others
              (All-filter (R x) (λ y. not (t y)) xs v.0))
    ]
      where
        with_first :
            (x : A) (ps fs : List A)
            → All (λ y. All (R y) ps) fs
            → All (R x) fs
            → All (λ y. All (R y) (x ∷ ps)) fs
        with_first x ps [] h k = tt
        with_first x ps (y ∷ fs) h k = ((flip x y k.0, h.0), with_first x ps fs h.1 k.1)

    pub Pairwise-get_elem? :
        (xs : List A) (i j : ℕ) (x y : A)
        → Pairwise R xs
        → i ≢ j
        → get_elem? xs i ≡ some x
        → get_elem? xs j ≡ some y
        → R x y
    Pairwise-get_elem? [] i j x y v n e f = cc
    Pairwise-get_elem? (z ∷ xs) zero zero x y v n e f = absurd (n refl)
    Pairwise-get_elem? (z ∷ xs) zero (suc j) x y v n e f =
        let same : z ≡ x = ground (arith, e) in
        subst (λ w. R w y) same (All-get_elem? (R z) xs j v.0 f)
    Pairwise-get_elem? (z ∷ xs) (suc i) zero x y v n e f =
        let same : z ≡ y = ground (arith, f) in
        flip y x (subst (λ w. R w x) same (All-get_elem? (R z) xs i v.0 e))
    Pairwise-get_elem? (z ∷ xs) (suc i) (suc j) x y v n e f =
        Pairwise-get_elem? xs i j x y v.1 (λ q. n (ap suc q)) e f

module _ {ℓ κ μ} {A : Type ℓ} {B : Type κ} (f : A → B) where
  pub All-map : (P : B → Type μ) (xs : List A) → All (λ x. P (f x)) xs → All P (map f xs)
  All-map P [] h = tt
  All-map P (x ∷ xs) h = (h.0, All-map P xs h.1)

  pub All-unmap : (P : B → Type μ) (xs : List A) → All P (map f xs) → All (λ x. P (f x)) xs
  All-unmap P [] h = tt
  All-unmap P (x ∷ xs) h = (h.0, All-unmap P xs h.1)

  pub Pairwise-map :
      (R : B → B → Type μ) (xs : List A)
      → Pairwise (λ x y. R (f x) (f y)) xs
      → Pairwise R (map f xs)
  Pairwise-map R [] v = tt
  Pairwise-map R (x ∷ xs) v = (All-map (R (f x)) xs v.0, Pairwise-map R xs v.1)

  pub Pairwise-unmap :
      (R : B → B → Type μ) (xs : List A)
      → Pairwise R (map f xs)
      → Pairwise (λ x y. R (f x) (f y)) xs
  Pairwise-unmap R [] v = tt
  Pairwise-unmap R (x ∷ xs) v = (All-unmap (R (f x)) xs v.0, Pairwise-unmap R xs v.1)

-- No two elements have the same key.
abbrev pub IsDistinct {ℓ κ} : {A : Type ℓ} {K : Type κ} → (A → K) → List A → Type κ
IsDistinct key xs = Pairwise (λ x y. key x ≢ key y) xs

-- Lists with the same keys are distinct together.
pub IsDistinct-keys {ℓ κ} :
    {A : Type ℓ} {K : Type κ} (key : A → K) (xs ys : List A)
    → map key ys ≡ map key xs
    → IsDistinct key xs
    → IsDistinct key ys
IsDistinct-keys key xs ys same v =
    let keys = Pairwise-map key (λ j k. j ≢ k) xs v in
    Pairwise-unmap key (λ j k. j ≢ k) ys (subst (λ ks. Pairwise (λ j k. j ≢ k) ks) (sym same) keys)
