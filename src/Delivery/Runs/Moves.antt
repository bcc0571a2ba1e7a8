-- ===== src/Delivery/Runs/Moves.antt =====
-- The states of a run and the moves between them; runs are added and moved, and never dropped.
use maxtag.Base.{
  ℕ, suc, zero, ◌≡◌, ◌≢◌, ◌⊎◌, ◌==◌, refl, sym, ap, ◌∙◌, subst, inl, inr, Bool, true, false, List,
  [], ◌∷◌, ◌++◌, some, any, find, update_first, update_at, get_elem?, get_elem?-update_at_ne,
  Bool-cases, text_eq_iff, arith, All, IsDistinct, Pairwise-append_one, IsDistinct-keys, map,
}
use maxtag.Delivery.Runs.Types.{AgentRunStatus, queued, running, AgentRun, run_status_eq}
use maxtag.Delivery.Runs.Threads.{is_active_run_status, is_terminal_run_status}
use maxtag.Delivery.Runs.Create.{with_run_id}

-- Only an active run moves: a worker takes it or gives it back, it is asked to stop, and it ends; a run
-- that has been asked to stop does not complete.
pub data Moves : AgentRunStatus → AgentRunStatus → Type 0 where
  stays : {s : AgentRunStatus} → Moves s s
  starts : {s : AgentRunStatus} → is_active_run_status s ≡ true → Moves s running
  releases : Moves running queued
  is_asked :
      {s : AgentRunStatus} → is_active_run_status s ≡ true → Moves s AgentRunStatus.cancel_requested
  fails : {s : AgentRunStatus} → is_active_run_status s ≡ true → Moves s AgentRunStatus.failed
  is_cancelled :
      {s : AgentRunStatus} → is_active_run_status s ≡ true → Moves s AgentRunStatus.cancelled
  completes :
      {s : AgentRunStatus}
      → is_active_run_status s ≡ true
      → run_status_eq s AgentRunStatus.cancel_requested ≡ false
      → Moves s AgentRunStatus.completed

abbrev pub Advances : AgentRun → AgentRun → Type 0
Advances a b = (b.id ≡ a.id) × Moves a.status b.status

-- One list of runs becomes the other by moves of single runs and by new runs, which are queued and have
-- a new id.
pub data Evolves : List AgentRun → List AgentRun → Type 0 where
  done : {xs : List AgentRun} → Evolves xs xs
  moves :
      {xs ys : List AgentRun} (i : ℕ) (write : AgentRun → AgentRun) (r : AgentRun)
      → get_elem? xs i ≡ some r
      → Advances r (write r)
      → Evolves (update_at i write xs) ys
      → Evolves xs ys
  adds :
      {xs ys : List AgentRun} (r : AgentRun)
      → r.status ≡ queued
      → any (with_run_id r.id) xs ≡ false
      → Evolves (xs ++ r ∷ []) ys
      → Evolves xs ys

pub Evolves-trans : {xs ys zs : List AgentRun} → Evolves xs ys → Evolves ys zs → Evolves xs zs
Evolves-trans done e = e
Evolves-trans (moves i write r here step d) e = moves i write r here step (Evolves-trans d e)
Evolves-trans (adds r waits new d) e = adds r waits new (Evolves-trans d e)

pub Evolves-same : {xs ys : List AgentRun} → ys ≡ xs → Evolves xs ys
Evolves-same {xs} same = subst (λ zs. Evolves xs zs) (sym same) done

-- A write through the reference that `find` returns is one through the index of what it finds.
find-index :
    (p : AgentRun → Bool) (write : AgentRun → AgentRun) (xs : List AgentRun) (r : AgentRun)
    → find p xs ≡ some r
    → (i : ℕ) × (get_elem? xs i ≡ some r) × (update_first p write xs ≡ update_at i write xs)
find-index p write [] r h = cc
find-index p write (x ∷ xs) r h = elim (Bool-cases (p x)) [
  | inl hit ↦
      let same : x ≡ r = ground (arith, hit) in
      let here : update_first p write (x ∷ xs) ≡ write x ∷ xs = ground (arith, hit) in
      (zero, ap some same, here)
  | inr miss ↦
      let (i, there, write_there) = find-index p write xs r (ground (arith, miss)) in
      let after : update_first p write (x ∷ xs) ≡ x ∷ update_first p write xs =
        ground (arith, miss) in
      (suc i, there, after ∙ ap (λ zs. x ∷ zs) write_there)
]

pub Evolves-first :
    (p : AgentRun → Bool) (write : AgentRun → AgentRun) (xs : List AgentRun) (r : AgentRun)
    → find p xs ≡ some r
    → Advances r (write r)
    → Evolves xs (update_first p write xs)
Evolves-first p write xs r found step =
    let (i, here, same) = find-index p write xs r found in
    moves i write r here step (Evolves-same same)

pub Evolves-at :
    (i : ℕ) (write : AgentRun → AgentRun) (xs : List AgentRun) (r : AgentRun)
    → get_elem? xs i ≡ some r
    → Advances r (write r)
    → Evolves xs (update_at i write xs)
Evolves-at i write xs r here step = moves i write r here step done

terminal-inactive :
    (s : AgentRunStatus) → is_terminal_run_status s ≡ true → is_active_run_status s ≡ false
terminal-inactive queued ended = cc
terminal-inactive running ended = cc
terminal-inactive AgentRunStatus.cancel_requested ended = cc
terminal-inactive AgentRunStatus.completed ended = refl
terminal-inactive AgentRunStatus.failed ended = refl
terminal-inactive AgentRunStatus.cancelled ended = refl

Moves-terminal : (s t : AgentRunStatus) → is_terminal_run_status s ≡ true → Moves s t → t ≡ s
Moves-terminal s t ended stays = refl
Moves-terminal s t ended (starts active) = cc (terminal-inactive s ended, active)
Moves-terminal s t ended releases = cc
Moves-terminal s t ended (is_asked active) = cc (terminal-inactive s ended, active)
Moves-terminal s t ended (fails active) = cc (terminal-inactive s ended, active)
Moves-terminal s t ended (is_cancelled active) = cc (terminal-inactive s ended, active)
Moves-terminal s t ended (completes active other) = cc (terminal-inactive s ended, active)

-- The run that a place holds, with the id and the status given.
abbrev pub Holds : List AgentRun → ℕ → AgentRun → Type 0
Holds xs i r = (q : AgentRun) × (get_elem? xs i ≡ some q) × (q.id ≡ r.id) × (q.status ≡ r.status)

get_elem?-update_at_eq :
    (xs : List AgentRun) (i : ℕ) (write : AgentRun → AgentRun) (r : AgentRun)
    → get_elem? xs i ≡ some r
    → get_elem? (update_at i write xs) i ≡ some (write r)
get_elem?-update_at_eq [] i write r h = cc
get_elem?-update_at_eq (x ∷ xs) zero write r h =
    let same : x ≡ r = ground (arith, h) in ap (λ y. some (write y)) same
get_elem?-update_at_eq (x ∷ xs) (suc i) write r h = get_elem?-update_at_eq xs i write r h

pub get_elem?-append_one :
    (xs : List AgentRun) (i : ℕ) (r q : AgentRun)
    → get_elem? xs i ≡ some r
    → get_elem? (xs ++ q ∷ []) i ≡ some r
get_elem?-append_one [] i r q h = cc
get_elem?-append_one (x ∷ xs) zero r q h = h
get_elem?-append_one (x ∷ xs) (suc i) r q h = get_elem?-append_one xs i r q h

nat-cases : (i j : ℕ) → (i ≡ j) ⊎ (i ≢ j)
nat-cases i j = elim (Bool-cases (i == j)) [
  | inl same ↦ inl (ground (arith, same))
  | inr apart ↦ inr (λ e. absurd (ground (arith, apart, e)))
]

-- A run that has ended keeps its place, its id and its status.
pub Evolves-terminal :
    {xs ys : List AgentRun} (i : ℕ) (r q : AgentRun)
    → is_terminal_run_status r.status ≡ true
    → get_elem? xs i ≡ some q
    → q.id ≡ r.id
    → q.status ≡ r.status
    → Evolves xs ys
    → Holds ys i r
Evolves-terminal i r q ended here key same done = (q, here, key, same)
Evolves-terminal {xs} i r q ended here key same (moves j write p there (id, step) e) =
    elim (nat-cases j i) [
      | inr apart ↦
          Evolves-terminal i r q ended (get_elem?-update_at_ne xs j i write apart ∙ here) key same e
      | inl at ↦
          let there' : get_elem? xs i ≡ some p = subst (λ k. get_elem? xs k ≡ some p) at there in
          let p_q : p ≡ q = ground (arith, there', here) in
          let still =
            Moves-terminal p.status (write p).status
              (subst (λ z. is_terminal_run_status z ≡ true) (sym (ap (λ x. x.status) p_q ∙ same))
                ended)
              step in
          let found : get_elem? (update_at j write xs) i ≡ some (write p) =
            subst (λ k. get_elem? (update_at k write xs) i ≡ some (write p)) (sym at)
              (get_elem?-update_at_eq xs i write p there') in
          Evolves-terminal i r (write p) ended found (id ∙ ap (λ x. x.id) p_q ∙ key)
            (still ∙ ap (λ x. x.status) p_q ∙ same) e
    ]
Evolves-terminal {xs} i r q ended here key same (adds p waits new e) =
    Evolves-terminal i r q ended (get_elem?-append_one xs i q p here) key same e

abbrev pub Runs : List AgentRun → Type 0
Runs xs = IsDistinct (λ r. r.id) xs

map-update_at_key :
    (xs : List AgentRun) (i : ℕ) (write : AgentRun → AgentRun) (r : AgentRun)
    → get_elem? xs i ≡ some r
    → (write r).id ≡ r.id
    → map (λ x. x.id) (update_at i write xs) ≡ map (λ x. x.id) xs
map-update_at_key [] i write r h k = refl
map-update_at_key (x ∷ xs) zero write r h k =
    let same : r ≡ x = ground (arith, h) in
    ap (λ y. y ∷ map (λ z. z.id) xs) (subst (λ y. (write y).id ≡ y.id) same k)
map-update_at_key (x ∷ xs) (suc i) write r h k =
    ap (λ ys. x.id ∷ ys) (map-update_at_key xs i write r h k)

all-new :
    (xs : List AgentRun) (r : AgentRun)
    → any (with_run_id r.id) xs ≡ false
    → All (λ x. x.id ≢ r.id) xs
all-new [] r h = tt
all-new (x ∷ xs) r h =
    (λ e. absurd (ground (arith, h, (text_eq_iff x.id r.id).1 e)), all-new xs r (ground (arith, h)))

-- Runs with different ids evolve into runs with different ids.
pub Evolves-distinct : {xs ys : List AgentRun} → Evolves xs ys → Runs xs → Runs ys
Evolves-distinct done v = v
Evolves-distinct {xs} (moves i write r here (id, step) e) v = Evolves-distinct e (
    IsDistinct-keys (λ x. x.id) xs (update_at i write xs) (map-update_at_key xs i write r here id)
      v)
Evolves-distinct {xs} (adds r waits new e) v =
    Evolves-distinct e (Pairwise-append_one (λ x y. x.id ≢ y.id) xs r (all-new xs r new) v)
