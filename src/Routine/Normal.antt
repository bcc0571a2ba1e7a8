-- ===== src/Routine/Normal.antt =====
-- Normal forms: of policies, schedules and stored states; and which routines report alike.
use maxtag.Base.{
  ℕ, ◌≡◌, ◌≤◌, ◌↔◌, refl, ap, inl, inr, ◌&&◌, ==_iff, Bool, true, false, Text, text_eq_iff,
  option_eq_iff, is_empty, List, [], ◌∷◌, ◌++◌, map, Option, or_else, none, some, ok, arith,
  Option-cases,
}
use maxtag.Routine.Types.{
  Routine, RoutineSchedule, once, interval, daily, PolicyInput, ThreadVisibility, visibility_eq,
  mode_eq, bool_eq, NotificationMode,
}
use maxtag.Routine.Schedule.{Host, normalize_schedule, match_time, normalize_daily}
use maxtag.Routine.Policy.{
  normalize_policy, as_input, Stored, normalize_routine, normalize_execution,
  normalize_notification, StoredState, normalize_state, create_empty_state, same_routine_route,
  same_incident_policy,
}
use maxtag.Routine.Trim.{to_stored, load}

-- A normalised policy has a threshold between 1 and 10, whatever the input, and normalising it again
-- leaves it as it is.
pub normalize_policy-normal :
    (input : PolicyInput)
    → (1 ≤ (normalize_policy input).failure_threshold)
      × ((normalize_policy input).failure_threshold ≤ 10)
      × (normalize_policy (as_input (normalize_policy input)) ≡ normalize_policy input)
unfolding normalize_policy
normalize_policy-normal input = (ground arith, ground arith, ground arith)

abbrev Route : Type 0
Route =
    Text
    × Option Text
    × Text
    × Text
    × Option Text
    × Option Text
    × Option Text
    × Option Text
    × ThreadVisibility

-- Where a routine reports to: its workspace and project, and its destination but for the title.
abbrev pub route : Routine → Route
route r = (
  r.workspace_id, r.project_id, r.destination.platform, r.destination.external_id,
  r.destination.channel_id, r.destination.thread_id, r.destination.root_message_id,
  r.destination.topic_id, r.destination.visibility,
)

abbrev pub incident_policy : Routine → Route × NotificationMode × ℕ × Bool
incident_policy r =
    (route r, r.notifications.mode, r.notifications.failure_threshold, r.notifications.recovery)

module _ {ℓ κ} {A : Type ℓ} {B : Type κ} where
  -- Two tests that decide the equality of components decide that of the pairs.
  &&-pair :
      {p q : Bool} {a c : A} {b d : B}
      → ((p ≡ true) ↔ (a ≡ c))
      → ((q ≡ true) ↔ (b ≡ d))
      → ((p && q) ≡ true) ↔ (Path (A × B) (a, b) (c, d))
  &&-pair {p} {q} f g = (
    λ h. let e = f.0 (ground (arith, h)) in let k = g.0 (ground (arith, h)) in λ i. (e i, k i),
    λ e. let u = f.1 (ap (λ x. x.0) e) in let v = g.1 (ap (λ x. x.1) e) in cc (u, v),
  )

visibility_eq_iff : (l r : ThreadVisibility) → (visibility_eq l r ≡ true) ↔ (l ≡ r)
visibility_eq_iff l r = ground arith

mode_eq_iff : (l r : NotificationMode) → (mode_eq l r ≡ true) ↔ (l ≡ r)
mode_eq_iff l r = ground arith

bool_eq_iff : (l r : Bool) → (bool_eq l r ≡ true) ↔ (l ≡ r)
bool_eq_iff l r = ground arith

abbrev Nested : Type 0
Nested =
    (((((((Text × Option Text) × Text) × Text) × Option Text) × Option Text) × Option Text)
      × Option Text)
    × ThreadVisibility

abbrev nest : Route → Nested
nest (a, b, c, d, e, f, g, h, v) = ((((((((a, b), c), d), e), f), g), h), v)

abbrev flatten : Nested → Route
flatten ((((((((a, b), c), d), e), f), g), h), v) = (a, b, c, d, e, f, g, h, v)

same_routine_route_iff : (l r : Routine) → (same_routine_route l r ≡ true) ↔ (route l ≡ route r)
unfolding same_routine_route
same_routine_route_iff l r =
    let both =
      &&-pair
        (&&-pair
          (&&-pair
            (&&-pair
              (&&-pair
                (&&-pair
                  (&&-pair
                    (&&-pair (text_eq_iff l.workspace_id r.workspace_id)
                      (option_eq_iff l.project_id r.project_id))
                    (text_eq_iff l.destination.platform r.destination.platform))
                  (text_eq_iff l.destination.external_id r.destination.external_id))
                (option_eq_iff l.destination.channel_id r.destination.channel_id))
              (option_eq_iff l.destination.thread_id r.destination.thread_id))
            (option_eq_iff l.destination.root_message_id r.destination.root_message_id))
          (option_eq_iff l.destination.topic_id r.destination.topic_id))
        (visibility_eq_iff l.destination.visibility r.destination.visibility) in
    ((λ h. ap flatten (both.0 h)), (λ e. both.1 (ap nest e)))

-- Two routines are taken to report alike exactly when their workspaces, projects, destinations but for
-- the titles, and notification policies are equal.
pub same_incident_policy_iff :
    (l r : Routine) → (same_incident_policy l r ≡ true) ↔ (incident_policy l ≡ incident_policy r)
unfolding same_incident_policy
same_incident_policy_iff l r =
    let both =
      &&-pair
        (&&-pair
          (&&-pair (same_routine_route_iff l r)
            (mode_eq_iff l.notifications.mode r.notifications.mode))
          (==_iff l.notifications.failure_threshold r.notifications.failure_threshold))
        (bool_eq_iff l.notifications.recovery r.notifications.recovery) in
    (
      (λ h. let e = both.0 h in λ i. ((e i).0.0.0, (e i).0.0.1, (e i).0.1, (e i).1)),
      (λ e. both.1 (λ i. ((((e i).0, (e i).1), (e i).2), (e i).3))),
    )

normalize_routine-twice :
    (r : Routine) (policy : Option PolicyInput)
    → let n = normalize_routine r policy in
      normalize_routine n (some (as_input n.notifications)) ≡ n
unfolding normalize_routine normalize_policy
normalize_routine-twice r policy = ground arith

module _ {ℓ κ} {A : Type ℓ} {B : Type κ} (f : B → A) (g : A → B) where
  map-twice : (xs : List B) → ((x : B) → f (g (f x)) ≡ f x) → map f (map g (map f xs)) ≡ map f xs
  map-twice [] twice = refl
  map-twice (x ∷ xs) twice = ground (arith, twice x, map-twice xs twice)

normalize_state-twice :
    (f : StoredState) → normalize_state (to_stored (normalize_state f)) ≡ normalize_state f
unfolding normalize_state normalize_execution normalize_notification
normalize_state-twice f = ground (
  arith,
  map-twice (λ (p : Stored Routine). normalize_routine p.0 p.1)
      (λ r. (r, some (as_input r.notifications))) (or_else f.routines [])
      (λ p. normalize_routine-twice p.0 p.1),
  map-twice normalize_execution (λ e. (e, some (as_input e.routine.notifications)))
      (or_else f.executions [])
      (λ (e, p). ap (λ r. record e { routine = r }) (normalize_routine-twice e.routine p)),
  map-twice normalize_notification (λ n. (n, some (as_input n.routine.notifications)))
      (or_else f.notifications [])
      (λ (n, p). ap (λ r. record n { routine = r }) (normalize_routine-twice n.routine p)),
)

-- A state that is written as it was loaded is loaded the same, whatever the file left out.
pub load-to_stored : (file : Option StoredState) → load (some (to_stored (load file))) ≡ load file
unfolding load
load-to_stored none = unfold normalize_state create_empty_state in refl
load-to_stored (some f) = normalize_state-twice f

-- The groups of the pattern and the colon make up the time.
match_time-groups : (t h m : Text) → match_time t ≡ some (h, m) → h ++ b':' ∷ m ≡ t
unfolding match_time
match_time-groups [] h m e = cc
match_time-groups (a ∷ []) h m e = cc
match_time-groups (a ∷ b ∷ []) h m e = cc
match_time-groups (a ∷ b ∷ c ∷ []) h m e = cc
match_time-groups (a ∷ b ∷ c ∷ d ∷ []) h m e = cc
match_time-groups (a ∷ b ∷ c ∷ d ∷ x ∷ []) h m e = ground arith
match_time-groups (a ∷ b ∷ c ∷ d ∷ x ∷ y ∷ t) h m e = cc

-- A schedule that the store has accepted is accepted unchanged, where the host reads a printed instant
-- back as that instant, and prints none as the empty text.
pub normalize_schedule-normal :
    (host : Host) (s s' : RoutineSchedule)
    → ((t : ℕ) → host.parse (host.iso t) ≡ some t)
    → ((t : ℕ) → is_empty (host.iso t) ≡ false)
    → normalize_schedule host s ≡ ok s'
    → normalize_schedule host s' ≡ ok s'
unfolding normalize_schedule
normalize_schedule-normal host (once t) s' reads prints h = elim (Option-cases (host.parse t)) [
  | inl bad ↦ absurd (ground (arith, bad))
  | inr (u, good) ↦
      let same : s' ≡ once (host.iso u) = ground (arith, good) in
      ground (arith, same, reads u, prints u)
]
normalize_schedule-normal host (interval m) s' reads prints h =
    let same : s' ≡ interval m = ground arith in ground (arith, same)
normalize_schedule-normal host (daily t z) s' reads prints h = elim (Option-cases (match_time t)) [
  | inl bad ↦ absurd (unfold normalize_daily in ground (arith, bad))
  | inr ((hour, minute), good) ↦
      let same : s' ≡ daily t z =
        unfold normalize_daily in ground (arith, good, match_time-groups t hour minute good) in
      rw same (ground (arith, same))
]
