-- ===== src/Delivery/Pruning/Safe.antt =====
-- Which runs are removed: ended ones that nothing open refers to.
use maxtag.Base.{
  option_eq, some, is_truthy, map, ◌++◌, is_empty, ℕ, suc, ◌+◌, ◌*◌, ◌≡◌, refl, subst, inl, inr,
  Bool, true, false, ◌&&◌, ◌||◌, not, Text, text_eq, text_eq_refl, List, [], ◌∷◌, or_else, ltb, any,
  filter, length, All, All-filter, All-filter_self, All-imp, All-map, All-zip, trim, Bool-cases, ok,
  arith,
}
use maxtag.Delivery.Sessions.{Session, is_active_session}
use maxtag.Delivery.Runs.Types.{AgentRun, Steering}
use maxtag.Delivery.Pruning.{
  WrapupJob, WrapupCursor, is_open_envelope, is_open_turn, is_open_steering, is_waiting_job,
  is_open_approval, is_managed_artifact, steering_ids, DeliveryState, PruneOptions, has,
  referenced_ids, is_ended_in, latest_of, removable_ids, closure, lifecycle_plan,
}
use maxtag.Delivery.Pruning.Closed.{AreTogether, All-closure, closure-AreTogether}
use maxtag.Delivery.Runs.Threads.{is_terminal_run_status}

-- Nothing that goes on refers to the id, and the call does not protect it.
pub record IsFree (options : PruneOptions) (d : DeliveryState) (id : Text) : Type 0 where
  pub protected :
      has (filter (λ x. not (is_empty x)) (map trim (or_else options.protected_run_ids []))) id
      ≡ false
  pub outbox :
      any (λ e. is_open_envelope e && text_eq id (or_else e.run_id [])) d.outbox.outbox ≡ false
  pub turns : any (λ t. is_open_turn t && text_eq id t.run_id) d.outbox.turns ≡ false
  pub steering :
      any
        (λ st.
          is_open_steering st
          && (text_eq id st.target_run_id
              || is_truthy st.continuation_run_id
                && text_eq id (or_else st.continuation_run_id [])))
        d.runs.steering
      ≡ false
  pub started :
      any (λ s. is_active_session s.status && text_eq id s.started_by_run_id) d.sessions ≡ false
  pub last : any (λ s. is_active_session s.status && text_eq id s.last_run_id) d.sessions ≡ false
  pub jobs : any (λ j. is_waiting_job j.status && text_eq id j.source_run_id) d.jobs ≡ false
  pub cursors : any (λ c. text_eq id c.source_run_id) d.cursors ≡ false
  pub approvals : any (λ a. is_open_approval a && text_eq id a.run_id) d.approvals ≡ false
  pub artifacts : any (λ e. is_managed_artifact e && text_eq id e.run_id) d.runs.events ≡ false

module _ (id : Text) where
  has-append :
      (xs ys : List Text) → has (xs ++ ys) id ≡ false → (has xs id ≡ false) × (has ys id ≡ false)
  has-append [] ys h = (refl, h)
  has-append (x ∷ xs) ys h = ground (arith, h, has-append xs ys)

  has-ids {ℓ} :
      {A : Type ℓ} (t : A → Bool) (key : A → Text) (xs : List A)
      → has (map key (filter t xs)) id ≡ false
      → any (λ x. t x && text_eq id (key x)) xs ≡ false
  has-ids t key [] h = refl
  has-ids t key (x ∷ xs) h = ground (arith, h, has-ids t key xs)

  has-map {ℓ} :
      {A : Type ℓ} (key : A → Text) (xs : List A)
      → has (map key xs) id ≡ false
      → any (λ x. text_eq id (key x)) xs ≡ false
  has-map key [] h = refl
  has-map key (x ∷ xs) h = ground (arith, h, has-map key xs)

  has-steering :
      (sts : List Steering)
      → has (steering_ids sts) id ≡ false
      → any
          (λ st.
            is_open_steering st
            && (text_eq id st.target_run_id
                || is_truthy st.continuation_run_id
                  && text_eq id (or_else st.continuation_run_id [])))
          sts
        ≡ false
  has-steering [] h = refl
  has-steering (st ∷ sts) h = elim (Bool-cases (is_open_steering st)) [
    | inr over ↦
        let rest : has (steering_ids sts) id ≡ false = ground (arith, h, over) in
        rw over (has-steering sts rest)
    | inl goes ↦ elim (Bool-cases (is_truthy st.continuation_run_id)) [
      | inr alone ↦
          let both : (text_eq id st.target_run_id || has (steering_ids sts) id) ≡ false =
            ground (arith, h, goes, alone) in
          let rest = has-steering sts (ground (arith, both)) in
          rw (goes, alone) (ground (arith, both, rest))
      | inl linked ↦
          let both : (text_eq id st.target_run_id
                || text_eq id (or_else st.continuation_run_id [])
                || has (steering_ids sts) id)
              ≡ false =
            ground (arith, h, goes, linked) in
          let rest = has-steering sts (ground (arith, both)) in
          rw (goes, linked) (ground (arith, both, rest))
    ]
  ]

referenced_ids-IsFree :
    (options : PruneOptions) (d : DeliveryState) (id : Text)
    → has (referenced_ids options d) id ≡ false
    → IsFree options d id
unfolding referenced_ids
referenced_ids-IsFree options d id h =
    let (h8, artifacts) = has-append id _ _ h in
    let (h7, approvals) = has-append id _ _ h8 in
    let (h6, cursors) = has-append id _ _ h7 in
    let (h5, jobs) = has-append id _ _ h6 in
    let (h4, last) = has-append id _ _ h5 in
    let (h3, started) = has-append id _ _ h4 in
    let (h2, steering) = has-append id _ _ h3 in
    let (h1, turns) = has-append id _ _ h2 in
    let (protected, outbox) = has-append id _ _ h1 in
    record {
      protected = protected;
      outbox = has-ids id is_open_envelope (λ e. or_else e.run_id []) d.outbox.outbox outbox;
      turns = has-ids id is_open_turn (λ t. t.run_id) d.outbox.turns turns;
      steering = has-steering id d.runs.steering steering;
      started =
          has-ids id (λ (s : Session). is_active_session s.status) (λ s. s.started_by_run_id)
            d.sessions started;
      last =
          has-ids id (λ (s : Session). is_active_session s.status) (λ s. s.last_run_id) d.sessions
            last;
      jobs =
          has-ids id (λ (j : WrapupJob). is_waiting_job j.status) (λ j. j.source_run_id) d.jobs
            jobs;
      cursors = has-map id (λ (c : WrapupCursor). c.source_run_id) d.cursors cursors;
      approvals = has-ids id is_open_approval (λ a. a.run_id) d.approvals approvals;
      artifacts = has-ids id is_managed_artifact (λ e. e.run_id) d.runs.events artifacts;
    }

-- A run of the id has ended, in the workspace, so many days before, and nothing that goes on refers to it.
abbrev pub IsRemovable : PruneOptions → ℕ → DeliveryState → Text → Type 0
IsRemovable options at d id =
    (any
        (λ r.
          option_eq r.workspace_id (some (trim options.workspace_id))
          && is_terminal_run_status r.status
          && ltb (r.updated_at + or_else options.retention_days 90 * 86_400_000)
              (or_else options.now at)
          && text_eq id r.id)
        d.runs.runs
      ≡ true)
    × IsFree options d id

-- A search that an element passes succeeds in the list.
abbrev IsOf : List AgentRun → AgentRun → Type 0
IsOf xs r = (t : AgentRun → Bool) → t r ≡ true → any t xs ≡ true

all-IsOf : (xs : List AgentRun) → All (IsOf xs) xs
all-IsOf [] = tt
all-IsOf (x ∷ xs) = (
  (λ t h. ground (arith, h)),
  All-imp (IsOf xs) (IsOf (x ∷ xs)) xs (λ r of t h. ground (arith, of t h)) (all-IsOf xs),
)

removable_ids-IsRemovable :
    (options : PruneOptions) (at : ℕ) (d : DeliveryState)
    → All (IsRemovable options at d) (
        removable_ids options
          (trim options.workspace_id)
          (or_else options.retention_days 90)
          (or_else options.keep_latest_per_thread 20)
          (or_else options.now at)
          d)
unfolding removable_ids
removable_ids-IsRemovable options at d =
    let workspace = trim options.workspace_id in
    let days = or_else options.retention_days 90 in
    let time = or_else options.now at in
    let ended = filter (is_ended_in workspace) d.runs.runs in
    let latest = latest_of (or_else options.keep_latest_per_thread 20) ended ended in
    let goes = λ (r : AgentRun).
      ltb (r.updated_at + days * 86_400_000) time
      && not (has latest r.id)
      && not (has (referenced_ids options d) r.id) in
    All-map (λ r. r.id) (IsRemovable options at d) (filter goes ended)
      (All-zip (IsOf d.runs.runs) (λ r. (is_ended_in workspace r ≡ true) × (goes r ≡ true))
        (λ r. IsRemovable options at d r.id) (filter goes ended)
        (λ r of (over, going). (
          of
              (λ q.
                option_eq q.workspace_id (some workspace)
                && is_terminal_run_status q.status
                && ltb (q.updated_at + days * 86_400_000) time
                && text_eq r.id q.id)
              (ground (arith, over, going, text_eq_refl r.id)),
          referenced_ids-IsFree options d r.id (ground (arith, going)),
        ))
        (All-filter (IsOf d.runs.runs) goes ended
          (All-filter (IsOf d.runs.runs) _ _ (all-IsOf d.runs.runs)))
        (All-zip (λ r. is_ended_in workspace r ≡ true) (λ r. goes r ≡ true)
          (λ r. (is_ended_in workspace r ≡ true) × (goes r ≡ true)) (filter goes ended)
          (λ r u v. (u, v))
          (All-filter (λ r. is_ended_in workspace r ≡ true) goes ended
            (All-filter_self (is_ended_in workspace) d.runs.runs))
          (All-filter_self goes ended)))

pub lifecycle_plan-safe :
    (options : PruneOptions) (at : ℕ) (d : DeliveryState) (ids : List Text)
    → lifecycle_plan options at d ≡ ok ids
    → All (IsRemovable options at d) ids × AreTogether d ids
unfolding lifecycle_plan
lifecycle_plan-safe options at d ids h =
    let some_ids =
      removable_ids options (trim options.workspace_id) (or_else options.retention_days 90)
        (or_else options.keep_latest_per_thread 20) (or_else options.now at) d in
    let same : closure (suc (length some_ids)) d some_ids ≡ ids = ground (arith, h) in
    subst (λ xs. All (IsRemovable options at d) xs × AreTogether d xs) same
      (
        All-closure (IsRemovable options at d) (suc (length some_ids)) d some_ids
            (removable_ids-IsRemovable options at d),
        closure-AreTogether (suc (length some_ids)) d some_ids (omega arith),
      )
