-- ===== src/Base/Lists.antt =====
-- Array methods over lists: searches, updates in place of one element or of the elements at some
-- indices, and the predicates that the proofs state of lists.
use Prim.Native.Nat.{ℕ, zero, suc, ◌+◌, ◌-◌, ◌≤◌, min}
use mathlib.Core.Path.{◌≡◌, refl, sym, ap, subst}
use mathlib.Core.Logic.{inl, inr}
use mathlib.Core.Bool.{Bool, true, false, ◌||◌}
use mathlib.Core.List.{List, [], ◌∷◌, ◌++◌, map, Memᴰ}
use mathlib.Core.Option.{Option, none, some}
use native.Mathlib.Omega.{arith}
use maxtag.Base.Tests.{if◌then◌else◌, ◌==◌, Bool-cases}

module _ {ℓ} {A : Type ℓ} where
  abbrev pub length : List A → ℕ
  length [] = 0
  length (x ∷ xs) = suc (length xs)

  abbrev pub take : ℕ → List A → List A
  take zero xs = []
  take (suc n) [] = []
  take (suc n) (x ∷ xs) = x ∷ take n xs

  abbrev pub drop : ℕ → List A → List A
  drop zero xs = xs
  drop (suc n) [] = []
  drop (suc n) (x ∷ xs) = drop n xs

  abbrev pub is_empty : List A → Bool
  is_empty [] = true
  is_empty (x ∷ xs) = false

  -- Array.prototype.filter, some, every, find
  abbrev pub filter : (A → Bool) → List A → List A
  filter p [] = []
  filter p (x ∷ xs) = if p x then x ∷ filter p xs else filter p xs

  abbrev pub any : (A → Bool) → List A → Bool
  any p [] = false
  any p (x ∷ xs) = p x || any p xs

  abbrev pub find : (A → Bool) → List A → Option A
  find p [] = none
  find p (x ∷ xs) = if p x then some x else find p xs

  -- The elements before the first one that passes the test; all of them when none does.
  abbrev pub before_first : (A → Bool) → List A → List A
  before_first p [] = []
  before_first p (x ∷ xs) = if p x then [] else x ∷ before_first p xs

  -- A write through the reference that `find` returns.
  abbrev pub update_first : (A → Bool) → (A → A) → List A → List A
  update_first p f [] = []
  update_first p f (x ∷ xs) = if p x then f x ∷ xs else x ∷ update_first p f xs

  -- `splice(indexOf(found), 1)` for the element that `find` returns
  abbrev pub remove_first : (A → Bool) → List A → List A
  remove_first p [] = []
  remove_first p (x ∷ xs) = if p x then xs else x ∷ remove_first p xs

  -- A loop over the whole array that writes to the elements that pass the test.
  abbrev pub update_all : (A → Bool) → (A → A) → List A → List A
  update_all p f [] = []
  update_all p f (x ∷ xs) = (if p x then f x else x) ∷ update_all p f xs

  -- Each element with its index, from `i` on: an index stands for a reference to the element.
  abbrev pub tag : ℕ → List A → List (ℕ × A)
  tag i [] = []
  tag i (x ∷ xs) = (i, x) ∷ tag (suc i) xs

  -- A write through a reference.
  abbrev pub update_at : ℕ → (A → A) → List A → List A
  update_at i f [] = []
  update_at zero f (x ∷ xs) = f x ∷ xs
  update_at (suc i) f (x ∷ xs) = x ∷ update_at i f xs

abbrev pub contains : List ℕ → ℕ → Bool
contains is i = any (λ j. j == i) is

module _ {ℓ} {A : Type ℓ} where
  -- A write to each element whose index, counted from `i`, is listed.
  abbrev pub update_indices : List ℕ → (A → A) → ℕ → List A → List A
  update_indices is f i [] = []
  update_indices is f i (x ∷ xs) =
      (if contains is i then f x else x) ∷ update_indices is f (suc i) xs

  -- The elements whose index, counted from `i`, is not listed.
  abbrev pub remove_indices : List ℕ → ℕ → List A → List A
  remove_indices is i [] = []
  remove_indices is i (x ∷ xs) =
      if contains is i then remove_indices is (suc i) xs else x ∷ remove_indices is (suc i) xs

  -- `splice(0, length - n)` on an array longer than n: the last n elements.
  abbrev pub keep_last : ℕ → List A → List A
  keep_last n xs = drop (length xs - n) xs

  pub length-append : (xs ys : List A) → length (xs ++ ys) ≡ length xs + length ys
  length-append [] ys = omega arith
  length-append (x ∷ xs) ys = omega (arith, length-append xs ys)

  pub append-nil : (xs : List A) → xs ++ [] ≡ xs
  append-nil [] = refl
  append-nil (x ∷ xs) = ap (λ ys. x ∷ ys) (append-nil xs)

  pub length-map {κ} : {B : Type κ} (f : A → B) (xs : List A) → length (map f xs) ≡ length xs
  length-map f [] = refl
  length-map f (x ∷ xs) = omega (arith, length-map f xs)

  pub length-drop : (n : ℕ) (xs : List A) → length (drop n xs) ≡ length xs - n
  length-drop zero xs = omega arith
  length-drop (suc n) [] = omega arith
  length-drop (suc n) (x ∷ xs) = omega (arith, length-drop n xs)

  pub length-take : (n : ℕ) (xs : List A) → length (take n xs) ≡ min n (length xs)
  length-take zero xs = omega arith
  length-take (suc n) [] = omega arith
  length-take (suc n) (x ∷ xs) = omega (arith, length-take n xs)

  pub length-filter-le : (p : A → Bool) (xs : List A) → length (filter p xs) ≤ length xs
  length-filter-le p [] = omega arith
  length-filter-le p (x ∷ xs) = ground (arith, length-filter-le p xs)

  pub length-keep_last : (n : ℕ) (xs : List A) → length (keep_last n xs) ≤ n
  length-keep_last n xs = omega (arith, length-drop (length xs - n) xs)

-- A predicate of every element.
abbrev pub All {ℓ κ} : {A : Type ℓ} → (A → Type κ) → List A → Type κ
All P [] = Unit
All P (x ∷ xs) = P x × All P xs

module _ {ℓ κ} {A : Type ℓ} (P : A → Type κ) where
  pub All-append : (xs ys : List A) → All P xs → All P ys → All P (xs ++ ys)
  All-append [] ys h k = k
  All-append (x ∷ xs) ys h k = (h.0, All-append xs ys h.1 k)

  pub All-drop : (n : ℕ) (xs : List A) → All P xs → All P (drop n xs)
  All-drop zero xs h = h
  All-drop (suc n) [] h = tt
  All-drop (suc n) (x ∷ xs) h = All-drop n xs h.1

  pub All-take : (n : ℕ) (xs : List A) → All P xs → All P (take n xs)
  All-take zero xs h = tt
  All-take (suc n) [] h = tt
  All-take (suc n) (x ∷ xs) h = (h.0, All-take n xs h.1)

  pub All-filter : (p : A → Bool) (xs : List A) → All P xs → All P (filter p xs)
  All-filter p [] h = tt
  All-filter p (x ∷ xs) h = ground (arith, All-filter p xs h.1)

  pub All-mem : {a : A} (xs : List A) → All P xs → Memᴰ a xs → P a
  All-mem [] h m = elim m [ ]
  All-mem (x ∷ xs) h (Memᴰ.head e) = subst P (sym e) h.0
  All-mem (x ∷ xs) h (Memᴰ.tail m) = All-mem xs h.1 m

  -- A write to the elements that pass a test keeps what the write keeps.
  pub All-update_all :
      (p : A → Bool) (f : A → A) (xs : List A)
      → ((x : A) → p x ≡ true → P x → P (f x))
      → All P xs
      → All P (update_all p f xs)
  All-update_all p f [] keep h = tt
  All-update_all p f (x ∷ xs) keep h = ground (arith, keep x, All-update_all p f xs keep h.1)

  -- A write that turns the elements which pass the test into such as have another property.
  pub All-update_all_to {μ} :
      (Q : A → Type μ) (p : A → Bool) (f : A → A) (xs : List A)
      → ((x : A) → p x ≡ true → P x → Q (f x))
      → ((x : A) → p x ≡ false → P x → Q x)
      → All P xs
      → All Q (update_all p f xs)
  All-update_all_to Q p f [] to keep h = tt
  All-update_all_to Q p f (x ∷ xs) to keep h = elim (Bool-cases (p x)) [
    | inl hit ↦ rw hit (to x hit h.0, All-update_all_to Q p f xs to keep h.1)
    | inr miss ↦ rw miss (keep x miss h.0, All-update_all_to Q p f xs to keep h.1)
  ]

  pub All-update_first :
      (p : A → Bool) (f : A → A) (xs : List A)
      → ((x : A) → p x ≡ true → P x → P (f x))
      → All P xs
      → All P (update_first p f xs)
  All-update_first p f [] keep h = tt
  All-update_first p f (x ∷ xs) keep h = ground (arith, keep x, All-update_first p f xs keep h.1)

  -- A write to the element that the search has found.
  pub All-update_found :
      (p : A → Bool) (f : A → A) (xs : List A) {a : A}
      → find p xs ≡ some a
      → P (f a)
      → All P xs
      → All P (update_first p f xs)
  All-update_found p f [] e new h = tt
  All-update_found p f (x ∷ xs) {a} e new h = elim (Bool-cases (p x)) [
    | inl hit ↦
        let same : a ≡ x = ground (arith, hit) in rw hit (subst (λ y. P (f y)) same new, h.1)
    | inr miss ↦ rw miss (h.0, All-update_found p f xs (ground (arith, miss)) new h.1)
  ]

  pub All-update_at :
      (i : ℕ) (f : A → A) (xs : List A)
      → ((x : A) → P x → P (f x))
      → All P xs
      → All P (update_at i f xs)
  All-update_at i f [] keep h = tt
  All-update_at zero f (x ∷ xs) keep h = (keep x h.0, h.1)
  All-update_at (suc i) f (x ∷ xs) keep h = (h.0, All-update_at i f xs keep h.1)

  pub All-update_indices :
      (is : List ℕ) (f : A → A) (i : ℕ) (xs : List A)
      → ((x : A) → P x → P (f x))
      → All P xs
      → All P (update_indices is f i xs)
  All-update_indices is f i [] keep h = tt
  All-update_indices is f i (x ∷ xs) keep h =
      ground (arith, keep x, All-update_indices is f (suc i) xs keep h.1)

  pub All-remove_indices :
      (is : List ℕ) (i : ℕ) (xs : List A) → All P xs → All P (remove_indices is i xs)
  All-remove_indices is i [] h = tt
  All-remove_indices is i (x ∷ xs) h = ground (arith, All-remove_indices is (suc i) xs h.1)

  pub All-remove_first : (p : A → Bool) (xs : List A) → All P xs → All P (remove_first p xs)
  All-remove_first p [] h = tt
  All-remove_first p (x ∷ xs) h = ground (arith, All-remove_first p xs h.1)

  pub All-find : (p : A → Bool) (xs : List A) {a : A} → All P xs → find p xs ≡ some a → P a
  All-find p [] h e = cc
  All-find p (x ∷ xs) {a} h e = elim (Bool-cases (p x)) [
    | inl hit ↦ subst P (ground arith) h.0
    | inr miss ↦ All-find p xs h.1 (ground arith)
  ]

module _ {ℓ} {A : Type ℓ} where
  pub find-passes : (p : A → Bool) (xs : List A) {a : A} → find p xs ≡ some a → p a ≡ true
  find-passes p [] e = cc
  find-passes p (x ∷ xs) {a} e = ground (arith, find-passes p xs {a = a})

  pub find-mem : (p : A → Bool) (xs : List A) {a : A} → find p xs ≡ some a → Memᴰ a xs
  find-mem p [] e = cc
  find-mem p (x ∷ xs) e = elim (Bool-cases (p x)) [
    | inl hit ↦ Memᴰ.head (ground arith)
    | inr miss ↦ Memᴰ.tail (find-mem p xs (ground arith))
  ]
