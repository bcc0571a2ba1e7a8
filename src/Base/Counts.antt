-- ===== src/Base/Counts.antt =====
-- How many elements of a list pass a test, when one element is written or removed.
use Prim.Native.Nat.{◌≤◌}
use mathlib.Core.Path.{◌≡◌}
use mathlib.Core.Bool.{Bool, true, false}
use mathlib.Core.Option.{some}
use mathlib.Core.List.{List, [], ◌∷◌, ◌++◌}
use native.Mathlib.Omega.{arith}
use maxtag.Base.Lists.{length, filter, find, update_first, remove_first}

module _ {ℓ} {A : Type ℓ} (q : A → Bool) where
  pub count-append : (xs ys : List A) → length (filter q xs) ≤ length (filter q (xs ++ ys))
  count-append [] ys = omega arith
  count-append (x ∷ xs) ys = ground (arith, count-append xs ys)

  -- A test that passes less often.
  pub count_mono :
      (r : A → Bool) (xs : List A)
      → ((x : A) → r x ≡ true → q x ≡ true)
      → length (filter r xs) ≤ length (filter q xs)
  count_mono r [] h = omega arith
  count_mono r (x ∷ xs) h = ground (arith, h x, count_mono r xs h)

  module _ (p : A → Bool) {e : A} where
    -- The element that is written or removed did not count.
    pub count-update_first :
        (f : A → A) (xs : List A)
        → find p xs ≡ some e
        → q e ≡ false
        → length (filter q xs) ≤ length (filter q (update_first p f xs))
    count-update_first f [] h n = omega arith
    count-update_first f (x ∷ xs) h n = ground (arith, count-update_first f xs)

    pub count-remove_first :
        (xs : List A)
        → find p xs ≡ some e
        → q e ≡ false
        → length (filter q xs) ≤ length (filter q (remove_first p xs))
    count-remove_first [] h n = omega arith
    count-remove_first (x ∷ xs) h n = ground (arith, count-remove_first xs)

    -- The element that is written in counts.
    pub count-update_first_pos :
        (f : A → A) (xs : List A)
        → find p xs ≡ some e
        → q (f e) ≡ true
        → 1 ≤ length (filter q (update_first p f xs))
    count-update_first_pos f [] h n = ground arith
    count-update_first_pos f (x ∷ xs) h n = ground (arith, count-update_first_pos f xs)
