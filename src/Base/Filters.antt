-- ===== src/Base/Filters.antt =====
-- What `filter` finds in a list that elements failing the test were put before; and the length of a
-- reversed list.
use Prim.Native.Nat.{ℕ, zero, suc, ◌+◌, ◌≤◌}
use mathlib.Core.Path.{◌≡◌, refl, ap, ◌∙◌}
use mathlib.Core.Logic.{inl, inr}
use mathlib.Core.Bool.{Bool, true, not, ◌&&◌}
use mathlib.Core.List.{List, [], ◌∷◌, ◌++◌, reverse, reverse_aux}
use native.Mathlib.Omega.{arith}
use maxtag.Base.Tests.{Bool-cases}
use maxtag.Base.Lists.{All, any, filter, length, take}

module _ {ℓ} {A : Type ℓ} (t : A → Bool) where
  pub filter-append : (xs ys : List A) → filter t (xs ++ ys) ≡ filter t xs ++ filter t ys
  filter-append [] ys = refl
  filter-append (x ∷ xs) ys = ground (arith, filter-append xs ys)

  pub filter-none : (xs : List A) → All (λ x. not (t x) ≡ true) xs → filter t xs ≡ []
  filter-none [] h = refl
  filter-none (x ∷ xs) h = ground (arith, filter-none xs h.1)

  filter_idem : (xs : List A) → filter t (filter t xs) ≡ filter t xs
  filter_idem [] = refl
  filter_idem (x ∷ xs) = elim (Bool-cases (t x)) [
    | inl keep ↦ rw (keep, keep) (ap (λ zs. x ∷ zs) (filter_idem xs))
    | inr drop ↦ rw drop (filter_idem xs)
  ]

  -- What is put before the elements that pass the test, all of it failing, does not matter to it.
  pub filter-front :
      (front xs : List A)
      → All (λ x. not (t x) ≡ true) front
      → filter t (front ++ filter t xs) ≡ filter t xs
  filter-front front xs h =
      filter-append front (filter t xs)
      ∙ ap (λ zs. zs ++ filter t (filter t xs)) (filter-none front h)
      ∙ filter_idem xs

  -- The elements that fail the test are those in front.
  pub length-filter_front :
      (front xs : List A)
      → All (λ x. not (t x) ≡ true) front
      → length (filter (λ x. not (t x)) (front ++ filter t xs)) ≤ length front
  length-filter_front [] [] h = omega arith
  length-filter_front [] (x ∷ xs) h = ground (arith, length-filter_front [] xs tt)
  length-filter_front (y ∷ front) xs h = ground (arith, length-filter_front front xs h.1)

length-reverse_aux {ℓ} :
    {A : Type ℓ} → (xs ys : List A) → length (reverse_aux xs ys) ≡ length xs + length ys
length-reverse_aux [] ys = omega arith
length-reverse_aux (x ∷ xs) ys = omega (arith, length-reverse_aux xs (x ∷ ys))

pub length-reverse {ℓ} : {A : Type ℓ} → (xs : List A) → length (reverse xs) ≡ length xs
length-reverse xs = omega (arith, length-reverse_aux xs [])

module _ {ℓ} {A : Type ℓ} where
  pub any-filter :
      (t p : A → Bool) (xs : List A) → any (λ x. t x && p x) xs ≡ true → any t (filter p xs) ≡ true
  any-filter t p [] h = h
  any-filter t p (x ∷ xs) h = ground (arith, h, any-filter t p xs)

  pub filter-all : (p : A → Bool) (xs : List A) → All (λ x. p x ≡ true) xs → filter p xs ≡ xs
  filter-all p [] h = refl
  filter-all p (x ∷ xs) (h, hs) = ground (arith, h, filter-all p xs hs)

  pub take-all : (n : ℕ) (xs : List A) → length xs ≤ n → take n xs ≡ xs
  take-all zero [] h = refl
  take-all (suc n) [] h = refl
  take-all zero (x ∷ xs) h = absurd (omega (arith, h))
  take-all (suc n) (x ∷ xs) h = ap (λ ys. x ∷ ys) (take-all n xs (omega (arith, h)))
