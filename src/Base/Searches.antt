-- ===== src/Base/Searches.antt =====
-- What a search over a list says of its elements, and which searches survive a change.
use mathlib.Core.Path.{◌≡◌, refl, sym, subst}
use mathlib.Core.Logic.{inl, inr}
use mathlib.Core.Bool.{Bool, true, false}
use mathlib.Core.Option.{none, some}
use mathlib.Core.List.{List, [], ◌∷◌, ◌++◌, Memᴰ}
use native.Mathlib.Omega.{arith}
use maxtag.Base.Tests.{Bool-cases, if◌then◌else◌}
use maxtag.Base.Lists.{any, find, filter, update_first, update_all, remove_first, All}

module _ {ℓ} {A : Type ℓ} (q : A → Bool) where
  pub any-false : {a : A} (xs : List A) → any q xs ≡ false → Memᴰ a xs → q a ≡ false
  any-false [] h m = elim m [ ]
  any-false (x ∷ xs) h (Memᴰ.head e) = subst (λ y. q y ≡ false) (sym e) (ground arith)
  any-false (x ∷ xs) h (Memᴰ.tail m) = any-false xs (ground arith) m

  pub any-append_left : (xs ys : List A) → any q xs ≡ true → any q (xs ++ ys) ≡ true
  any-append_left [] ys h = cc
  any-append_left (x ∷ xs) ys h = ground (arith, any-append_left xs ys)

  pub any-append_right : (xs ys : List A) → any q ys ≡ true → any q (xs ++ ys) ≡ true
  any-append_right [] ys h = h
  any-append_right (x ∷ xs) ys h = ground (arith, any-append_right xs ys h)

  pub any_of_find : (xs : List A) {a : A} → find q xs ≡ some a → any q xs ≡ true
  any_of_find [] h = cc
  any_of_find (x ∷ xs) {a} h = ground (arith, any_of_find xs {a = a})

  pub find-none : (xs : List A) → find q xs ≡ none → any q xs ≡ false
  find-none [] h = refl
  find-none (x ∷ xs) h = ground (arith, find-none xs)

  pub any-update_first :
      (p : A → Bool) (f : A → A) (xs : List A)
      → ((x : A) → p x ≡ true → q x ≡ true → q (f x) ≡ true)
      → any q xs ≡ true
      → any q (update_first p f xs) ≡ true
  any-update_first p f [] keep h = cc
  any-update_first p f (x ∷ xs) keep h = ground (arith, keep x, any-update_first p f xs keep)

  pub any-remove_first :
      (p : A → Bool) (xs : List A)
      → ((x : A) → p x ≡ true → q x ≡ false)
      → any q xs ≡ true
      → any q (remove_first p xs) ≡ true
  any-remove_first p [] other h = cc
  any-remove_first p (x ∷ xs) other h = ground (arith, other x, any-remove_first p xs other)

  -- A search that the written element still passes finds it.
  pub find-update_first :
      (f : A → A) (xs : List A) {a : A}
      → find q xs ≡ some a
      → q (f a) ≡ true
      → find q (update_first q f xs) ≡ some (f a)
  find-update_first f [] e keep = cc
  find-update_first f (x ∷ xs) {a} e keep = elim (Bool-cases (q x)) [
    | inl hit ↦
        let same : a ≡ x = ground (arith, hit) in
        let still : q (f x) ≡ true = subst (λ y. q (f y) ≡ true) same keep in
        ground (arith, hit, still, same)
    | inr miss ↦
        let rest = find-update_first f xs {a = a} (ground (arith, miss)) keep in
        ground (arith, miss, rest)
  ]

  -- A write to many elements that does not matter to a search.
  pub find-update_all :
      (p : A → Bool) (f : A → A) (xs : List A) {a : A}
      → ((x : A) → q (f x) ≡ q x)
      → find q xs ≡ some a
      → find q (update_all p f xs) ≡ some (if p a then f a else a)
  find-update_all p f [] keep e = cc
  find-update_all p f (x ∷ xs) {a} keep e = elim (Bool-cases (q x)) [
    | inl hit ↦
        let same : x ≡ a = ground (arith, hit) in
        subst (λ y. find q (update_all p f (x ∷ xs)) ≡ some (if p y then f y else y)) same
          (ground (arith, hit, keep x))
    | inr miss ↦
        let rest = find-update_all p f xs {a = a} keep (ground (arith, miss)) in
        ground (arith, miss, keep x, rest)
  ]

  pub All-filter_self : (xs : List A) → All (λ x. q x ≡ true) (filter q xs)
  All-filter_self [] = tt
  All-filter_self (x ∷ xs) = elim (Bool-cases (q x)) [
    | inl keep ↦ rw keep (keep, All-filter_self xs)
    | inr drop ↦ rw drop (All-filter_self xs)
  ]

-- Two predicates that together give a third.
pub All-zip {ℓ κ} :
    {A : Type ℓ} (P Q R : A → Type κ) (xs : List A)
    → ((x : A) → P x → Q x → R x)
    → All P xs
    → All Q xs
    → All R xs
All-zip P Q R [] f h k = tt
All-zip P Q R (x ∷ xs) f h k = (f x h.0 k.0, All-zip P Q R xs f h.1 k.1)

pub All-imp {ℓ κ μ} :
    {A : Type ℓ} (P : A → Type κ) (Q : A → Type μ) (xs : List A)
    → ((x : A) → P x → Q x)
    → All P xs
    → All Q xs
All-imp P Q [] f h = tt
All-imp P Q (x ∷ xs) f h = (f x h.0, All-imp P Q xs f h.1)

pub All-tabulate {ℓ κ} :
    {A : Type ℓ} (P : A → Type κ) (xs : List A) → ((x : A) → Memᴰ x xs → P x) → All P xs
All-tabulate P [] f = tt
All-tabulate P (x ∷ xs) f = (f x (Memᴰ.head refl), All-tabulate P xs (λ y m. f y (Memᴰ.tail m)))

-- A relation of every element to each later one.
abbrev pub Pairwise {ℓ κ} : {A : Type ℓ} → (A → A → Type κ) → List A → Type κ
Pairwise R [] = Unit
Pairwise R (x ∷ xs) = All (R x) xs × Pairwise R xs
