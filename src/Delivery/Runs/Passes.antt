-- ===== src/Delivery/Runs/Passes.antt =====
-- What becomes of the runs under the requests: they move, new ones come, and pruning removes ended ones.
use maxtag.Base.{
  ℕ, ◌+◌, ◌*◌, ◌≡◌, ◌≢◌, refl, sym, ◌∙◌, inl, inr, Bool, true, false, ◌&&◌, not, Text, text_eq,
  option_eq, some, text_eq_iff, List, [], ◌∷◌, or_else, any, filter, All, All-imp, Pairwise-filter,
  Bool-cases, Result-cases, arith, trim, ltb,
}
use maxtag.Delivery.Runs.Types.{AgentRun}
use maxtag.Delivery.Runs.Threads.{is_terminal_run_status}
use maxtag.Delivery.Runs.Moves.{Evolves, Evolves-distinct, Runs}
use maxtag.Delivery.Pruning.{
  DeliveryState, PruneOptions, has, lifecycle_plan, is_dry, prune_workspace_data,
}
use maxtag.Delivery.Pruning.Safe.{IsRemovable, lifecycle_plan-safe}

-- The runs of a set of ids, each of which has ended.
abbrev pub HaveEnded : List Text → List AgentRun → Type 0
HaveEnded gone xs = All (λ r. has gone r.id ≡ true → is_terminal_run_status r.status ≡ true) xs

-- One list of runs becomes the other by moves, new runs and removals of ended runs.
pub data Passes : List AgentRun → List AgentRun → Type 0 where
  done : {xs : List AgentRun} → Passes xs xs
  evolves : {xs ys zs : List AgentRun} → Evolves xs ys → Passes ys zs → Passes xs zs
  drops :
      {xs zs : List AgentRun} (gone : List Text)
      → HaveEnded gone xs
      → Passes (filter (λ r. not (has gone r.id)) xs) zs
      → Passes xs zs

pub Passes-trans : {xs ys zs : List AgentRun} → Passes xs ys → Passes ys zs → Passes xs zs
Passes-trans done q = q
Passes-trans (evolves e p) q = evolves e (Passes-trans p q)
Passes-trans (drops gone ended p) q = drops gone ended (Passes-trans p q)

-- Runs with different ids stay so.
pub Passes-distinct : {xs ys : List AgentRun} → Passes xs ys → Runs xs → Runs ys
Passes-distinct done v = v
Passes-distinct (evolves e p) v = Passes-distinct p (Evolves-distinct e v)
Passes-distinct {xs} (drops gone ended p) v =
    Passes-distinct p (Pairwise-filter (λ x y. x.id ≢ y.id) (λ r. not (has gone r.id)) xs v)

-- A run of the id that has ended.
abbrev is_end : Text → AgentRun → Bool
is_end id r = is_terminal_run_status r.status && text_eq id r.id

-- No later run has the id of the one in front.
any-later :
    (id : Text) (x : AgentRun) (xs : List AgentRun)
    → id ≡ x.id
    → All (λ y. x.id ≢ y.id) xs
    → any (is_end id) xs ≡ false
any-later id x [] same apart = refl
any-later id x (y ∷ xs) same (differs, apart) = elim (Bool-cases (text_eq id y.id)) [
  | inl hit ↦ absurd (differs (sym same ∙ (text_eq_iff id y.id).0 hit))
  | inr miss ↦ ground (arith, miss, any-later id x xs same apart)
]

-- Where the ids are different, the run of the id is the one that has ended.
only-ended :
    (id : Text) (xs : List AgentRun)
    → Runs xs
    → any (is_end id) xs ≡ true
    → All (λ r. id ≡ r.id → is_terminal_run_status r.status ≡ true) xs
only-ended id [] v h = tt
only-ended id (x ∷ xs) (apart, v) h = elim (Bool-cases (is_end id x)) [
  | inr other ↦ (
    (λ same. cc (any-later id x xs same apart, h, other)),
    only-ended id xs v (ground (arith, h, other)),
  )
  | inl hit ↦
      let same : id ≡ x.id = (text_eq_iff id x.id).0 (ground (arith, hit)) in
      (
        (λ _. ground (arith, hit)),
        All-imp (λ y. x.id ≢ y.id) _ xs (λ y differs k. absurd (differs (sym same ∙ k))) apart,
      )
]

all-HaveEnded :
    (gone : List Text) (xs : List AgentRun)
    → Runs xs
    → All (λ id. any (is_end id) xs ≡ true) gone
    → HaveEnded gone xs
all-HaveEnded [] xs v h = nobody xs
  where
    nobody : (ys : List AgentRun) → HaveEnded [] ys
    nobody [] = tt
    nobody (y ∷ ys) = ((λ k. cc), nobody ys)
all-HaveEnded (id ∷ gone) xs v (e, h) = both xs (only-ended id xs v e) (all-HaveEnded gone xs v h)
  where
    both :
        (ys : List AgentRun)
        → All (λ r. id ≡ r.id → is_terminal_run_status r.status ≡ true) ys
        → HaveEnded gone ys
        → HaveEnded (id ∷ gone) ys
    both [] f g = tt
    both (y ∷ ys) (f, fs) (g, gs) = (
      (λ k. elim (Bool-cases (text_eq y.id id)) [
        | inl hit ↦ f (sym ((text_eq_iff y.id id).0 hit))
        | inr miss ↦ g (ground (arith, k, miss))
      ]),
      both ys fs gs,
    )

-- What is removable has ended.
any-end :
    (options : PruneOptions) (at : ℕ) (d : DeliveryState) (id : Text)
    → IsRemovable options at d id
    → any (is_end id) d.runs.runs ≡ true
any-end options at d id (h, free) = go d.runs.runs h
  where
    go :
        (xs : List AgentRun)
        → any
            (λ r.
              option_eq r.workspace_id (some (trim options.workspace_id))
              && is_terminal_run_status r.status
              && ltb
                  (r.updated_at + or_else options.retention_days 90 * 86_400_000)
                  (or_else options.now at)
              && text_eq id r.id)
            xs
          ≡ true
        → any (is_end id) xs ≡ true
    go [] k = cc
    go (x ∷ xs) k = ground (arith, k, go xs)

pub prune_workspace_data-Passes :
    (options : PruneOptions) (at : ℕ) (d : DeliveryState)
    → Runs d.runs.runs
    → Passes d.runs.runs (prune_workspace_data options at d).runs.runs
unfolding prune_workspace_data
prune_workspace_data-Passes options at d v = elim (Result-cases (lifecycle_plan options at d)) [
  | inr (e, refused) ↦ rw (refused, prune_workspace_data) done
  | inl (ids, planned) ↦ elim (Bool-cases (is_dry options)) [
    | inl dry ↦ rw (planned, prune_workspace_data, dry) done
    | inr wet ↦
        let (removable, _) = lifecycle_plan-safe options at d ids planned in
        let ended =
          All-imp (IsRemovable options at d) (λ id. any (is_end id) d.runs.runs ≡ true) ids
            (any-end options at d) removable in
        rw (planned, prune_workspace_data, wet)
          (drops ids (all-HaveEnded ids d.runs.runs v ended) done)
  ]
]
