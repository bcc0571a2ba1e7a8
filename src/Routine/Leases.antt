-- ===== src/Routine/Leases.antt =====
-- The lease of a claim: while it lasts, no scheduler takes the execution again.
use maxtag.Base.{
  ℕ, ◌+◌, ◌<◌, ◌≡◌, inl, inr, clamp, true, false, Text, List, map, contains, filter, All, All-zip,
  Reaches, get_elem?-update_indices, Bool-cases, arith, length, length-map, length-selection, ◌∙◌,
  leb, min, update_indices, ◌∷◌, [], some, refl, References, References-selection, get_elem?,
  get_elem?-update_listed,
}
use maxtag.Routine.Types.{Execution, RoutineState}
use maxtag.Routine.Claims.{claimable, claim_selection, claimed_execution, claim_executions}
use maxtag.Routine.Sound.Progress.{IsClaimable, claim_selection-IsClaimable}

abbrev places : List (ℕ × Execution) → List ℕ
places ps = map (λ p. p.0) ps

-- An execution that has been claimed cannot be claimed before the lease has run out.
claimed-fresh :
    (claimer : Text) (at stale later : ℕ) (e : Execution)
    → later < at + stale
    → claimable later stale (claimed_execution claimer at e) ≡ false
claimed-fresh claimer at stale later e soon = ground arith

-- The executions that a scheduler claims are none of those that were claimed, by it or by another, less
-- than the time of a lease before.
pub claim_selection-claim_executions :
    (claimer : Text) (limit stale at : ℕ) (s : RoutineState) (limit' later : ℕ)
    → later < at + stale
    → All
        (λ p. contains (places (claim_selection at stale limit s.executions)) p.0 ≡ false)
        (claim_selection later stale limit'
          (claim_executions claimer limit stale at s).0.executions)
unfolding claim_executions
claim_selection-claim_executions claimer limit stale at s limit' later soon =
    let is = places (claim_selection at stale limit s.executions) in
    let claimed = update_indices is (claimed_execution claimer at) 0 s.executions in
    let (reach, passes) = claim_selection-IsClaimable later stale limit' claimed in
    All-zip (Reaches claimed) (λ p. IsClaimable later stale p.1) (λ p. contains is p.0 ≡ false) _
      (λ p here waits. elim (Bool-cases (contains is p.0)) [
        | inr other ↦ other
        | inl listed ↦
            let (e, same) =
              get_elem?-update_indices is (claimed_execution claimer at) p.0 s.executions p.1 listed
                here in
            absurd (cc (same, waits, claimed-fresh claimer at stale later e soon))
      ])
      reach passes

contains-places :
    (ps : List (ℕ × Execution)) (is : List ℕ)
    → ((j : ℕ) → contains (places ps) j ≡ true → contains is j ≡ true)
    → All (λ p. contains is p.0 ≡ true) ps
contains-places [] is h = tt
contains-places (p ∷ ps) is h =
    (h p.0 (ground arith), contains-places ps is (λ j later. h j (ground (arith, later))))

-- What is handed out by a claim is as many executions as may be claimed, up to the limit, which counts as
-- 1 below 1 and as 100 above 100. They are claimable executions of the store, no two from one place of
-- it, each handed out with its routine and the claim, and written so to its place.
pub claim_executions-hands_out :
    (claimer : Text) (limit stale at : ℕ) (s : RoutineState)
    → let (t, out) = claim_executions claimer limit stale at s in
      (ps : List (ℕ × Execution)) × References s.executions ps
      × All
          (λ p.
            (claimable at stale p.1 ≡ true)
            × (get_elem? t.executions p.0 ≡ some (claimed_execution claimer at p.1)))
          ps
      × (out ≡ map (λ p. (p.1.routine, claimed_execution claimer at p.1)) ps)
      × (length out ≡ min (clamp 1 100 limit) (length (filter (claimable at stale) s.executions)))
unfolding claim_executions claim_selection
claim_executions-hands_out claimer limit stale at s =
    let ps = claim_selection at stale limit s.executions in
    let is = places ps in
    let t = update_indices is (claimed_execution claimer at) 0 s.executions in
    let (reach, passes) = claim_selection-IsClaimable at stale limit s.executions in
    let written =
      All-zip (λ p. contains is p.0 ≡ true) (Reaches s.executions)
        (λ p. get_elem? t p.0 ≡ some (claimed_execution claimer at p.1)) ps
        (λ p listed here.
          get_elem?-update_listed is (claimed_execution claimer at) p.0 s.executions p.1 listed
            here)
        (contains-places ps is (λ j h. h)) reach in
    (
      ps,
      References-selection (clamp 1 100 limit) _ _ s.executions,
      All-zip (λ p. IsClaimable at stale p.1) _ _ ps (λ p u v. (u, v)) passes written,
      refl,
      length-map _ ps
          ∙ length-selection (claimable at stale) (λ p q. leb p.1.created_at q.1.created_at)
              (clamp 1 100 limit) s.executions,
    )
