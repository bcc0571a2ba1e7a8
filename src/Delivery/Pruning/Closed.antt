-- ===== src/Delivery/Pruning/Closed.antt =====
-- The rounds of the plan: they only take runs out, they come to an end, and never one of two runs that a
-- settled message or session links is removed alone.
use maxtag.Base.{
  ℕ, suc, zero, ◌≤◌, ◌<◌, ◌≡◌, refl, sym, ◌∙◌, subst, inl, inr, Bool, true, false, ◌&&◌, ◌||◌, not,
  Text, text_eq, List, [], ◌∷◌, or_else, length, length-filter-le, All, All-filter, Bool-cases,
  arith,
}
use maxtag.Delivery.Sessions.{Session, is_active_session}
use maxtag.Delivery.Runs.Types.{Steering}
use maxtag.Delivery.Pruning.{
  DeliveryState, has, delete, keep_both, keep_by_sessions, links, keep_by_steering, closure_round,
  closure,
}

module _ {κ} (P : Text → Type κ) where
  All-keep_both : (a b : Text) (p : List Text × Bool) → All P p.0 → All P (keep_both a b p).0
  All-keep_both a b (ids, changed) h =
      elim (Bool-cases (has ids a && not (has ids b) || not (has ids a) && has ids b)) [
        | inl one ↦ rw one (All-filter P _ (delete a ids) (All-filter P _ ids h))
        | inr both ↦ rw both h
      ]

  All-by_sessions :
      (ss : List Session) (p : List Text × Bool) → All P p.0 → All P (keep_by_sessions ss p).0
  unfolding keep_by_sessions
  All-by_sessions [] p h = h
  All-by_sessions (s ∷ ss) p h =
      All-by_sessions ss _ (elim (Bool-cases (is_active_session s.status)) [
        | inl goes ↦ rw goes h
        | inr over ↦ rw over (All-keep_both s.started_by_run_id s.last_run_id p h)
      ])

  All-by_steering :
      (sts : List Steering) (p : List Text × Bool) → All P p.0 → All P (keep_by_steering sts p).0
  unfolding keep_by_steering
  All-by_steering [] p h = h
  All-by_steering (st ∷ sts) p h = All-by_steering sts _ (elim (Bool-cases (links st)) [
    | inl linked ↦
        rw linked (All-keep_both st.target_run_id (or_else st.continuation_run_id []) p h)
    | inr alone ↦ rw alone h
  ])

  pub All-closure :
      (fuel : ℕ) (d : DeliveryState) (ids : List Text) → All P ids → All P (closure fuel d ids)
  unfolding closure
  All-closure zero d ids h = h
  All-closure (suc fuel) d ids h =
      let h' = All-by_steering d.runs.steering _ (All-by_sessions d.sessions (ids, false) h) in
      elim (Bool-cases (closure_round d ids).1) [
        | inl more ↦ rw more (All-closure fuel d (closure_round d ids).0 h')
        | inr done ↦ rw done h'
      ]

-- A round that says it changed something has taken out a run.
abbrev Shrinks : ℕ → List Text × Bool → Type 0
Shrinks n p = (length p.0 ≤ n) × (p.1 ≡ true → length p.0 < n)

length-delete :
    (id : Text) (ids : List Text) → has ids id ≡ true → length (delete id ids) < length ids
length-delete id [] h = cc
length-delete id (x ∷ xs) h =
    let shorter = length-filter-le (λ y. not (text_eq id y)) xs in
    elim (Bool-cases (text_eq id x)) [
      | inl same ↦ rw same (omega (arith, shorter))
      | inr other ↦ rw other (omega (arith, length-delete id xs (ground (arith, h, other))))
    ]

length-delete-le : (id : Text) (ids : List Text) → length (delete id ids) ≤ length ids
length-delete-le id ids = length-filter-le (λ x. not (text_eq id x)) ids

delete-absent : (id : Text) (xs : List Text) → has xs id ≡ false → delete id xs ≡ xs
delete-absent id [] h = refl
delete-absent id (x ∷ xs) h = ground (arith, h, delete-absent id xs)

keep_both-Shrinks :
    (n : ℕ) (a b : Text) (p : List Text × Bool) → Shrinks n p → Shrinks n (keep_both a b p)
keep_both-Shrinks n a b (ids, changed) (most, less) =
    elim (Bool-cases (has ids a && not (has ids b) || not (has ids a) && has ids b)) [
      | inr both ↦ rw both (most, less)
      | inl one ↦
          let first = length-delete-le a ids in
          let second = length-delete-le b (delete a ids) in
          let shorter : length (delete b (delete a ids)) < n = elim (Bool-cases (has ids a)) [
            | inl here ↦ omega (arith, length-delete a ids here, second, most)
            | inr absent ↦
                let there : has ids b ≡ true = ground (arith, one, absent) in
                let same = delete-absent a ids absent in
                let taken =
                  length-delete b (delete a ids) (subst (λ xs. has xs b ≡ true) (sym same) there) in
                omega (arith, taken, first, most)
          ] in
          rw one (omega (arith, shorter), λ _. shorter)
    ]

by_sessions-Shrinks :
    (n : ℕ) (ss : List Session) (p : List Text × Bool)
    → Shrinks n p
    → Shrinks n (keep_by_sessions ss p)
unfolding keep_by_sessions
by_sessions-Shrinks n [] p h = h
by_sessions-Shrinks n (s ∷ ss) p h =
    by_sessions-Shrinks n ss _ (elim (Bool-cases (is_active_session s.status)) [
      | inl goes ↦ rw goes h
      | inr over ↦ rw over (keep_both-Shrinks n s.started_by_run_id s.last_run_id p h)
    ])

by_steering-Shrinks :
    (n : ℕ) (sts : List Steering) (p : List Text × Bool)
    → Shrinks n p
    → Shrinks n (keep_by_steering sts p)
unfolding keep_by_steering
by_steering-Shrinks n [] p h = h
by_steering-Shrinks n (st ∷ sts) p h = by_steering-Shrinks n sts _ (elim (Bool-cases (links st)) [
  | inl linked ↦
      rw linked (keep_both-Shrinks n st.target_run_id (or_else st.continuation_run_id []) p h)
  | inr alone ↦ rw alone h
])

-- The two runs are removed together, or not at all.
abbrev Together : List Text → Text → Text → Type 0
Together ids a b = has ids a ≡ has ids b

abbrev pub AreTogether : DeliveryState → List Text → Type 0
AreTogether d ids =
    All (λ s. is_active_session s.status ≡ false → Together ids s.started_by_run_id s.last_run_id)
      d.sessions
    × All
        (λ st. links st ≡ true → Together ids st.target_run_id (or_else st.continuation_run_id []))
        d.runs.steering

-- What changed nothing.
abbrev Stays : List Text × Bool → List Text × Bool → Type 0
Stays p q = (q.0 ≡ p.0) × (p.1 ≡ false)

keep_both-Stays :
    (a b : Text) (p : List Text × Bool)
    → (keep_both a b p).1 ≡ false
    → Stays p (keep_both a b p) × Together p.0 a b
keep_both-Stays a b (ids, changed) h =
    elim (Bool-cases (has ids a && not (has ids b) || not (has ids a) && has ids b)) [
      | inr both ↦
          let quiet : changed ≡ false = ground (arith, both, h) in
          rw both ((refl, quiet), ground (arith, both))
      | inl one ↦
          let said : (has (delete a ids) b || has ids a || changed) ≡ false =
            ground (arith, one, h) in
          absurd (elim (Bool-cases (has ids a)) [
            | inl here ↦ ground (arith, said, here)
            | inr absent ↦
                let there : has ids b ≡ true = ground (arith, one, absent) in
                let kept : has (delete a ids) b ≡ true =
                  subst (λ xs. has xs b ≡ true) (sym (delete-absent a ids absent)) there in
                ground (arith, said, kept)
          ])
    ]

by_sessions-Stays :
    (ss : List Session) (p : List Text × Bool)
    → (keep_by_sessions ss p).1 ≡ false
    → Stays p (keep_by_sessions ss p)
      × All
          (λ s. is_active_session s.status ≡ false → Together p.0 s.started_by_run_id s.last_run_id)
          ss
unfolding keep_by_sessions
by_sessions-Stays [] p h = ((refl, h), tt)
by_sessions-Stays (s ∷ ss) p h = elim (Bool-cases (is_active_session s.status)) [
  | inl goes ↦
      let (stays, rest) = by_sessions-Stays ss p (ground (arith, h, goes)) in
      rw (goes, keep_by_sessions) (stays, ((λ over. cc), rest))
  | inr over ↦
      let q = keep_both s.started_by_run_id s.last_run_id p in
      let ((same, quiet), rest) = by_sessions-Stays ss q (ground (arith, h, over)) in
      let ((same', quiet'), together) = keep_both-Stays s.started_by_run_id s.last_run_id p quiet in
      rw (over, keep_by_sessions)
        (
          (same ∙ same', quiet'),
          (
            (λ _. together),
            subst
                (λ ids.
                  All
                    (λ s.
                      is_active_session s.status ≡ false
                      → Together ids s.started_by_run_id s.last_run_id)
                    ss)
                same' rest,
          ),
        )
]

by_steering-Stays :
    (sts : List Steering) (p : List Text × Bool)
    → (keep_by_steering sts p).1 ≡ false
    → Stays p (keep_by_steering sts p)
      × All
          (λ st.
            links st ≡ true → Together p.0 st.target_run_id (or_else st.continuation_run_id []))
          sts
unfolding keep_by_steering
by_steering-Stays [] p h = ((refl, h), tt)
by_steering-Stays (st ∷ sts) p h = elim (Bool-cases (links st)) [
  | inr alone ↦
      let (stays, rest) = by_steering-Stays sts p (ground (arith, h, alone)) in
      rw (alone, keep_by_steering) (stays, ((λ linked. cc), rest))
  | inl linked ↦
      let q = keep_both st.target_run_id (or_else st.continuation_run_id []) p in
      let ((same, quiet), rest) = by_steering-Stays sts q (ground (arith, h, linked)) in
      let ((same', quiet'), together) =
        keep_both-Stays st.target_run_id (or_else st.continuation_run_id []) p quiet in
      rw (linked, keep_by_steering)
        (
          (same ∙ same', quiet'),
          (
            (λ _. together),
            subst
                (λ ids.
                  All
                    (λ st.
                      links st ≡ true
                      → Together ids st.target_run_id (or_else st.continuation_run_id []))
                    sts)
                same' rest,
          ),
        )
]

pub closure-AreTogether :
    (fuel : ℕ) (d : DeliveryState) (ids : List Text)
    → length ids < fuel
    → AreTogether d (closure fuel d ids)
unfolding closure
closure-AreTogether zero d ids few = absurd (omega (arith, few))
closure-AreTogether (suc fuel) d ids few =
    let p = keep_by_sessions d.sessions (ids, false) in
    let (_, less) =
      by_steering-Shrinks (length ids) d.runs.steering p
        (by_sessions-Shrinks (length ids) d.sessions (ids, false) (omega arith, λ h. cc)) in
    elim (Bool-cases (closure_round d ids).1) [
      | inl more ↦
          rw more
            (closure-AreTogether fuel d (closure_round d ids).0 (omega (arith, less more, few)))
      | inr done ↦
          let ((same, quiet), steering) = by_steering-Stays d.runs.steering p done in
          let ((same', _), sessions) = by_sessions-Stays d.sessions (ids, false) quiet in
          rw done (
            subst
                (λ xs.
                  All
                    (λ s.
                      is_active_session s.status ≡ false
                      → Together xs s.started_by_run_id s.last_run_id)
                    d.sessions)
                (sym (same ∙ same')) sessions,
            subst
                (λ xs.
                  All
                    (λ st.
                      links st ≡ true
                      → Together xs st.target_run_id (or_else st.continuation_run_id []))
                    d.runs.steering)
                (sym same) steering,
          )
    ]
