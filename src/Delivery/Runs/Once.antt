-- ===== src/Delivery/Runs/Once.antt =====
-- An event of a platform is taken once: what is recorded is recognised when it comes again.
use maxtag.Base.{
  ℕ, ◌≡◌, refl, inl, inr, Bool, true, ◌||◌, ◌&&◌, text_eq_refl, List, [], ◌∷◌, ◌++◌, any, filter,
  find, find-passes, any_of_find, any-update_first, any-append_right, Option-cases, arith, is_some,
  update_first, length, ◌+◌, ◌-◌, ◌≤◌, ◌<◌, not, leb, All, All-imp, Bool-cases, sort_by,
  any-sort_by, any-filter, take-all, filter-all, length-sort_by, length-append, length-filter-le,
  any-append_left,
}
use maxtag.Delivery.Runs.Types.{InboundEvent, RunState}
use maxtag.Delivery.Runs.Inbound.{
  is_received, with_inbound_id, kept_inbound, trim_inbound, inbound_event_max, RecordInput,
  inbound_event_id, repeats, new_inbound, count_duplicate, record_inbound_event,
}

-- A search that events which are received pass finds them after trimming too.
any-filter_or :
    (t k : InboundEvent → Bool) (xs : List InboundEvent)
    → any (λ e. t e && is_received e) xs ≡ true
    → any t (filter (λ e. is_received e || k e) xs) ≡ true
any-filter_or t k [] h = cc
any-filter_or t k (x ∷ xs) h = ground (arith, h, any-filter_or t k xs)

-- Trimming drops no event that waits to be processed.
pub trim_inbound-received :
    (most : ℕ) (xs : List InboundEvent)
    → filter is_received (trim_inbound most xs) ≡ filter is_received xs
unfolding trim_inbound
trim_inbound-received most xs = go (λ e. any (with_inbound_id e.id) (kept_inbound most xs)) xs
  where
    go :
        (k : InboundEvent → Bool) (ys : List InboundEvent)
        → filter is_received (filter (λ e. is_received e || k e) ys) ≡ filter is_received ys
    go k [] = refl
    go k (y ∷ ys) = ground (arith, go k ys)

length-split :
    (xs : List InboundEvent)
    → length (filter is_received xs) + length (filter (λ e. not (is_received e)) xs) ≡ length xs
length-split [] = refl
length-split (x ∷ xs) = ground (arith, length-split xs)

-- Every event passes a search that it passes itself.
abbrev IsOf : List InboundEvent → InboundEvent → Type 0
IsOf xs e = (t : InboundEvent → Bool) → t e ≡ true → any t xs ≡ true

all-IsOf : (xs : List InboundEvent) → All (IsOf xs) xs
all-IsOf [] = tt
all-IsOf (x ∷ xs) = (
  (λ t h. ground (arith, h)),
  All-imp (IsOf xs) (IsOf (x ∷ xs)) xs (λ e of t h. ground (arith, of t h)) (all-IsOf xs),
)

-- Trimming drops nothing while there is room.
trim_inbound-small :
    (most : ℕ) (xs : List InboundEvent) → length xs ≤ most → trim_inbound most xs ≡ xs
unfolding trim_inbound
trim_inbound-small most xs few =
    let le = λ (a b : InboundEvent). leb b.updated_at a.updated_at in
    let settled = filter (λ e. not (is_received e)) xs in
    let all_kept =
      take-all (most - length (filter is_received xs)) (sort_by le settled)
        (omega (arith, few, length-sort_by le settled, length-split xs)) in
    filter-all (λ e. is_received e || any (with_inbound_id e.id) (kept_inbound most xs)) xs
      (All-imp (IsOf xs) _ xs
        (λ e of. elim (Bool-cases (is_received e)) [
          | inl waits ↦ rw waits refl
          | inr over ↦
              let here =
                of (λ x. with_inbound_id e.id x && not (is_received x))
                  (ground (arith, over, text_eq_refl e.id)) in
              let found =
                any-sort_by le (with_inbound_id e.id) settled
                  (any-filter (with_inbound_id e.id) (λ x. not (is_received x)) xs here) in
              rw (over, all_kept) found
        ])
        (all-IsOf xs))

length-update_first :
    (t : InboundEvent → Bool) (f : InboundEvent → InboundEvent) (xs : List InboundEvent)
    → length (update_first t f xs) ≡ length xs
length-update_first t f [] = refl
length-update_first t f (x ∷ xs) = ground (arith, length-update_first t f xs)

found-any :
    (t : InboundEvent → Bool) (xs : List InboundEvent)
    → any t xs ≡ true
    → is_some (find t xs) ≡ true
found-any t [] h = cc
found-any t (x ∷ xs) h = ground (arith, h, found-any t xs)

kept :
    (input : RecordInput) (xs : List InboundEvent)
    → any (λ x. repeats input x && is_received x) xs ≡ true
    → any (repeats input) (trim_inbound inbound_event_max xs) ≡ true
unfolding trim_inbound
kept input xs h =
    any-filter_or (repeats input)
      (λ e. any (with_inbound_id e.id) (kept_inbound inbound_event_max xs)) xs h

-- After an event has been recorded, some event repeats its input.
recorded :
    (input : RecordInput) (at : ℕ) (s : RunState)
    → any (repeats input) (record_inbound_event input at s).0.inbound ≡ true
unfolding record_inbound_event
recorded input at s = elim (Option-cases (find (repeats input) s.inbound)) [
  | inr (e, again) ↦
      let hit = any_of_find (repeats input) s.inbound again in
      rw (again, record_inbound_event)
        (any-update_first (repeats input) (repeats input) (count_duplicate at) s.inbound
          (λ x _ h. h) hit)
  | inl first ↦
      let e = new_inbound input at in
      let own : repeats input e && is_received e ≡ true =
        ground (arith, text_eq_refl (inbound_event_id input.platform input.external_id)) in
      let last : any (λ x. repeats input x && is_received x) (e ∷ []) ≡ true =
        ground (arith, own) in
      let there =
        any-append_right (λ x. repeats input x && is_received x) s.inbound (e ∷ []) last in
      rw (first, record_inbound_event) (kept input (s.inbound ++ e ∷ []) there)
]

-- The events that come in, each at its time.
abbrev pub record_all : List (RecordInput × ℕ) → RunState → RunState
record_all [] s = s
record_all ((input, at) ∷ more) s = record_all more (record_inbound_event input at s).0

-- Recording adds one event at most.
length-record :
    (input : RecordInput) (at : ℕ) (s : RunState)
    → length (record_inbound_event input at s).0.inbound ≤ length s.inbound + 1
unfolding record_inbound_event trim_inbound
length-record input at s = elim (Option-cases (find (repeats input) s.inbound)) [
  | inr (e, again) ↦
      rw (again, record_inbound_event)
        (omega (arith, length-update_first (repeats input) (count_duplicate at) s.inbound))
  | inl first ↦
      let xs = s.inbound ++ new_inbound input at ∷ [] in
      let kept =
        length-filter-le
          (λ e. is_received e || any (with_inbound_id e.id) (kept_inbound inbound_event_max xs))
          xs in
      rw (first, record_inbound_event)
        (omega (arith, kept, length-append s.inbound (new_inbound input at ∷ [])))
]

-- Recording another event keeps what repeats an input, while no event has to be dropped.
record-keeps :
    (input other : RecordInput) (at : ℕ) (s : RunState)
    → length s.inbound < inbound_event_max
    → any (repeats input) s.inbound ≡ true
    → any (repeats input) (record_inbound_event other at s).0.inbound ≡ true
unfolding record_inbound_event
record-keeps input other at s room h = elim (Option-cases (find (repeats other) s.inbound)) [
  | inr (e, again) ↦
      rw (again, record_inbound_event)
        (any-update_first (repeats input) (repeats other) (count_duplicate at) s.inbound
          (λ x _ k. k) h)
  | inl first ↦
      let xs = s.inbound ++ new_inbound other at ∷ [] in
      let few : length xs ≤ inbound_event_max =
        omega (arith, room, length-append s.inbound (new_inbound other at ∷ [])) in
      rw (first, record_inbound_event, trim_inbound-small inbound_event_max xs few)
        (any-append_left (repeats input) s.inbound (new_inbound other at ∷ []) h)
]

record_all-keeps :
    (input : RecordInput) (more : List (RecordInput × ℕ)) (s : RunState)
    → length s.inbound + length more ≤ inbound_event_max
    → any (repeats input) s.inbound ≡ true
    → any (repeats input) (record_all more s).inbound ≡ true
record_all-keeps input [] s room h = h
record_all-keeps input ((other, at) ∷ more) s room h =
    record_all-keeps input more (record_inbound_event other at s).0
      (omega (arith, room, length-record other at s))
      (record-keeps input other at s (omega (arith, room)) h)

-- An event that has been recorded, for the first time or again, is a duplicate when the same input comes
-- later, after any further events: where as many are recorded in all as the store keeps of settled ones,
-- at most. The record that it then repeats is returned, and the number of the events stays.
pub record_inbound_event-again :
    (input : RecordInput) (at later : ℕ) (more : List (RecordInput × ℕ)) (s : RunState)
    → length s.inbound + length more < inbound_event_max
    → let t = record_all more (record_inbound_event input at s).0 in
      let (u, e, duplicate) = record_inbound_event input later t in
      (duplicate ≡ true) × (repeats input e ≡ true) × (length u.inbound ≡ length t.inbound)
record_inbound_event-again input at later more s room =
    let first = (record_inbound_event input at s).0 in
    recognised (record_all more first) (
      record_all-keeps input more first (omega (arith, room, length-record input at s))
        (recorded input at s))
  where
    recognised :
        (t : RunState)
        → any (repeats input) t.inbound ≡ true
        → let (u, e, duplicate) = record_inbound_event input later t in
          (duplicate ≡ true) × (repeats input e ≡ true) × (length u.inbound ≡ length t.inbound)
    recognised t h =
        unfold record_inbound_event in
        elim (Option-cases (find (repeats input) t.inbound)) [
          | inl absent ↦ cc (found-any (repeats input) t.inbound h, absent)
          | inr (e, again) ↦
              rw (again, record_inbound_event)
                (
                  refl,
                  find-passes (repeats input) t.inbound again,
                  length-update_first (repeats input) (count_duplicate later) t.inbound,
                )
        ]
