-- ===== src/Routine/Alerts.antt =====
-- The alerts: how failures are counted, when an alert is raised, and when it is tried again.
use maxtag.Base.{
  ℕ, suc, ◌+◌, ◌-◌, ◌≤◌, ◌<◌, max, ◌≡◌, refl, inl, inr, Bool, true, false, Text, text_eq,
  text_eq_refl, List, [], ◌∷◌, ◌++◌, reverse, any-append_left, filter, any, before_first,
  if◌then◌else◌, arith, Bool-cases,
}
use native.Mathlib.Nat.{le-mul_of_pos_right, one-le-pow, mul-le-mul_left, pow-le-pow_right}
use mathlib.Core.List.{reverse-append}
use maxtag.Routine.Types.{Execution, Notification}
use maxtag.Routine.Incident.{is_failed, leading_failures, same_series, consecutive_failures_before}
use maxtag.Routine.Notifications.{claimable_notification, retried_notification, retry_delay}

module _ {ℓ} {A : Type ℓ} where
  before_first-append :
      (p : A → Bool) (xs : List A) (x : A) (ys : List A)
      → any p xs ≡ false
      → p x ≡ true
      → before_first p (xs ++ x ∷ ys) ≡ xs
  before_first-append p [] x ys h k = ground arith
  before_first-append p (z ∷ xs) x ys h k = ground (arith, before_first-append p xs x ys)

  filter-append_one :
      (t : A → Bool) (xs : List A) (x : A)
      → filter t (xs ++ x ∷ []) ≡ (if t x then filter t xs ++ x ∷ [] else filter t xs)
  filter-append_one t [] x = refl
  filter-append_one t (z ∷ xs) x = ground (arith, filter-append_one t xs x)

leading_failures-filter :
    (t : Execution → Bool) (es : List Execution) (f : Execution)
    → leading_failures (reverse (filter t (es ++ f ∷ []))) ≡ (
        if t f
        then if is_failed f then suc (leading_failures (reverse (filter t es))) else 0
        else leading_failures (reverse (filter t es)))
unfolding leading_failures
leading_failures-filter t es f = elim (Bool-cases (t f)) [
  | inl counts ↦ rw (filter-append_one t es f, counts, reverse-append (filter t es) (f ∷ [])) refl
  | inr other ↦ rw (filter-append_one t es f, other) refl
]

-- The run before an execution counts: a failure in the same series adds one to the failures before it,
-- any other end in the series starts anew, and a run of another series is passed over.
pub consecutive_failures_before-step :
    (earlier rest : List Execution) (f e : Execution)
    → any (λ c. text_eq c.id e.id) (earlier ++ f ∷ []) ≡ false
    → consecutive_failures_before ((earlier ++ f ∷ []) ++ e ∷ rest) e ≡ (
        if same_series e f
        then if is_failed f then suc (consecutive_failures_before (earlier ++ e ∷ rest) e) else 0
        else consecutive_failures_before (earlier ++ e ∷ rest) e)
unfolding consecutive_failures_before
consecutive_failures_before-step earlier rest f e new =
    let is_e = λ (c : Execution). text_eq c.id e.id in
    let shorter : any is_e earlier ≡ false =
      ground (arith, any-append_left is_e earlier (f ∷ [])) in
    rw
      (
        before_first-append is_e (earlier ++ f ∷ []) e rest new (text_eq_refl e.id),
        before_first-append is_e earlier e rest shorter (text_eq_refl e.id),
      )
      (leading_failures-filter (same_series e) earlier f)

-- The wait before an alert is tried again is at least one second, at most half an hour, and no shorter
-- after more attempts.
pub retry_delay-bounds :
    (base attempts : ℕ)
    → (1_000 ≤ retry_delay base attempts)
      × (retry_delay base attempts ≤ 1_800_000)
      × (retry_delay base attempts ≤ retry_delay base (suc attempts))
unfolding retry_delay
retry_delay-bounds base attempts =
    let m = max 1_000 base in
    let pos = le-mul_of_pos_right m (one-le-pow (attempts - 1) 2 (omega arith)) in
    let later : attempts - 1 ≤ suc attempts - 1 = omega arith in
    let more = mul-le-mul_left m (pow-le-pow_right {n = 2} (omega arith) later) in
    (omega (arith, pos), omega arith, omega (arith, more))

-- An alert that is to be tried again is not handed out before its wait is over.
pub retried_notification-waits :
    (error : Text) (at most base : ℕ) (n : Notification) (later stale : ℕ)
    → later < at + retry_delay base n.attempts
    → claimable_notification later stale (retried_notification error at most base n) ≡ false
retried_notification-waits error at most base n later stale early = ground arith
