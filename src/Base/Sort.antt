-- ===== src/Base/Sort.antt =====
-- Array.prototype.sort by a key: stable, so equal keys keep their order.
use mathlib.Core.Path.{◌≡◌, refl}
use mathlib.Core.Bool.{Bool, true}
use mathlib.Core.List.{List, [], ◌∷◌}
use native.Mathlib.Omega.{arith}
use maxtag.Base.Tests.{if◌then◌else◌}
use maxtag.Base.Lists.{length, any, All}

module _ {ℓ} {A : Type ℓ} (le : A → A → Bool) where
  unfoldable pub insert_by : A → List A → List A
  insert_by x [] = x ∷ []
  insert_by x (y ∷ ys) = if le x y then x ∷ y ∷ ys else y ∷ insert_by x ys

  unfoldable pub sort_by : List A → List A
  unfolding insert_by
  sort_by [] = []
  sort_by (x ∷ xs) = insert_by x (sort_by xs)

  length-insert_by : (x : A) (ys : List A) → length (insert_by x ys) ≡ length (x ∷ ys)
  unfolding insert_by
  length-insert_by x [] = refl
  length-insert_by x (y ∷ ys) = ground (arith, length-insert_by x ys)

  pub length-sort_by : (xs : List A) → length (sort_by xs) ≡ length xs
  unfolding sort_by
  length-sort_by [] = refl
  length-sort_by (x ∷ xs) = ground (arith, length-insert_by x (sort_by xs), length-sort_by xs)

  module _ {κ} (P : A → Type κ) where
    pub All-insert_by : (x : A) (ys : List A) → P x → All P ys → All P (insert_by x ys)
    unfolding insert_by
    All-insert_by x [] h k = (h, tt)
    All-insert_by x (y ∷ ys) h k = ground (arith, All-insert_by x ys h k.1)

    pub All-sort_by : (xs : List A) → All P xs → All P (sort_by xs)
    unfolding sort_by
    All-sort_by [] h = tt
    All-sort_by (x ∷ xs) h = All-insert_by x (sort_by xs) h.0 (All-sort_by xs h.1)

  module _ (t : A → Bool) where
    any-insert_by : (x : A) (ys : List A) → any t (x ∷ ys) ≡ true → any t (insert_by x ys) ≡ true
    unfolding insert_by
    any-insert_by x [] h = h
    any-insert_by x (y ∷ ys) h = ground (arith, h, any-insert_by x ys)

    -- A search succeeds in the sorted list too.
    pub any-sort_by : (xs : List A) → any t xs ≡ true → any t (sort_by xs) ≡ true
    unfolding sort_by
    any-sort_by [] h = h
    any-sort_by (x ∷ xs) h = any-insert_by x (sort_by xs) (ground (arith, h, any-sort_by xs))
