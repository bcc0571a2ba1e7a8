-- ===== src/Delivery/Runs/Evolution/Writes.antt =====
-- Writes to many runs that leave their ids and their states alone; the notes of sessions and the removal
-- of raw texts are such.
use maxtag.Base.{
  ℕ, ◌≡◌, refl, sym, ap, subst, inl, inr, Bool, Text, List, [], ◌∷◌, ◌++◌, Option, some, or_else,
  is_truthy, find, length, update_all, update_at, get_elem?, Bool-cases, Option-cases,
}
use maxtag.Delivery.Runs.Types.{AgentRun, RunState}
use maxtag.Delivery.Runs.Create.{with_run_id}
use maxtag.Delivery.Runs.Inbound.{append_event}
use maxtag.Delivery.Runs.Moves.{Advances, stays, Evolves, done, moves, Evolves-trans, Evolves-first}
use maxtag.Delivery.Runs.Evolution.{Goes}
use maxtag.Delivery.Sessions.{
  Digest, SessionQuery, Session, record_agent_thread_session, invalidate_agent_thread_session,
  thread_session_id, with_session_id, is_active_session, note_invalidated,
}
use maxtag.Delivery.Redaction.{
  Summary, redact_run, redact_covered, redact_each, due_summaries, purge_thread_context_raw,
}

get_elem?-middle :
    (xs ys : List AgentRun) (r : AgentRun) → get_elem? (xs ++ r ∷ ys) (length xs) ≡ some r
get_elem?-middle [] ys r = refl
get_elem?-middle (x ∷ xs) ys r = get_elem?-middle xs ys r

update_at-middle :
    (write : AgentRun → AgentRun) (xs ys : List AgentRun) (r : AgentRun)
    → update_at (length xs) write (xs ++ r ∷ ys) ≡ xs ++ write r ∷ ys
update_at-middle write [] ys r = refl
update_at-middle write (x ∷ xs) ys r = ap (λ zs. x ∷ zs) (update_at-middle write xs ys r)

append-one : (xs ys : List AgentRun) (r : AgentRun) → (xs ++ r ∷ []) ++ ys ≡ xs ++ r ∷ ys
append-one [] ys r = refl
append-one (x ∷ xs) ys r = ap (λ zs. x ∷ zs) (append-one xs ys r)

module _ (t : AgentRun → Bool) (write : AgentRun → AgentRun)
    (quiet : (r : AgentRun) → Advances r (write r)) where
  Evolves-behind : (xs ys : List AgentRun) → Evolves (xs ++ ys) (xs ++ update_all t write ys)
  Evolves-behind xs [] = done
  Evolves-behind xs (r ∷ ys) = elim (Bool-cases (t r)) [
    | inl hit ↦
        let rest = Evolves-behind (xs ++ write r ∷ []) ys in
        let rest' : Evolves (xs ++ write r ∷ ys) (xs ++ write r ∷ update_all t write ys) =
          subst (λ zs. Evolves zs (xs ++ write r ∷ update_all t write ys))
            (append-one xs ys (write r))
            (subst (λ zs. Evolves ((xs ++ write r ∷ []) ++ ys) zs)
              (append-one xs (update_all t write ys) (write r)) rest) in
        rw hit (
          moves (length xs) write r (get_elem?-middle xs ys r) (quiet r) (
            subst (λ zs. Evolves zs (xs ++ write r ∷ update_all t write ys))
              (sym (update_at-middle write xs ys r)) rest'))
    | inr miss ↦
        let rest = Evolves-behind (xs ++ r ∷ []) ys in
        rw miss (
          subst (λ zs. Evolves zs (xs ++ r ∷ update_all t write ys)) (append-one xs ys r)
            (subst (λ zs. Evolves ((xs ++ r ∷ []) ++ ys) zs)
              (append-one xs (update_all t write ys) r) rest))
  ]

redact_each-Goes : (due : List Summary) (s : RunState) → Goes s (redact_each due s)
unfolding redact_each
redact_each-Goes [] s = done
redact_each-Goes (summary ∷ due) s =
    Evolves-trans (Evolves-behind _ redact_run (λ r. (refl, stays)) [] s.runs)
      (redact_each-Goes due (redact_covered summary s))

pub purge-Goes :
    (time : ℕ) (limit : Option ℕ) (summaries : List Summary) (s : RunState)
    → Goes s (purge_thread_context_raw time limit summaries s)
unfolding purge_thread_context_raw
purge-Goes time limit summaries s = redact_each-Goes (due_summaries time limit summaries) s

pub record_session-Goes :
    (digest : Digest) (q : SessionQuery) (session id : Text) (at : ℕ) (ids : ℕ → Text)
    (sessions : List Session) (s : RunState)
    → Goes s (record_agent_thread_session digest q session id at ids (sessions, s)).1
unfolding record_agent_thread_session append_event
record_session-Goes digest q session id at ids sessions s =
    elim (Option-cases (find (with_run_id id) s.runs)) [
      | inl absent ↦ rw (absent, record_agent_thread_session) done
      | inr (r, found) ↦
          rw (found, record_agent_thread_session)
            (Evolves-first (with_run_id id) _ s.runs r found (refl, stays))
    ]

note_invalidated-Goes :
    (q : SessionQuery) (id : Option Text) (reason session : Text) (at : ℕ) (ids : ℕ → Text)
    (s : RunState)
    → Goes s (note_invalidated q id reason session at ids s)
unfolding note_invalidated append_event
note_invalidated-Goes q id reason session at ids s = elim (Bool-cases (is_truthy id)) [
  | inr nobody ↦ rw nobody done
  | inl named ↦ elim (Option-cases (find (with_run_id (or_else id [])) s.runs)) [
    | inl absent ↦ rw (named, absent) done
    | inr (r, found) ↦
        rw (named, found)
          (Evolves-first (with_run_id (or_else id [])) _ s.runs r found (refl, stays))
  ]
]

pub end_session-Goes :
    (digest : Digest) (q : SessionQuery) (id : Option Text) (reason : Text) (at : ℕ)
    (ids : ℕ → Text) (sessions : List Session) (s : RunState)
    → Goes s (invalidate_agent_thread_session digest q id reason at ids (sessions, s)).1
unfolding invalidate_agent_thread_session
end_session-Goes digest q id reason at ids sessions s =
    elim (Option-cases (find (with_session_id (thread_session_id digest q)) sessions)) [
      | inl absent ↦ rw (absent, invalidate_agent_thread_session) done
      | inr (old, found) ↦ elim (Bool-cases (is_active_session old.status)) [
        | inr over ↦ rw (found, invalidate_agent_thread_session, over) done
        | inl goes ↦
            rw (found, invalidate_agent_thread_session, goes)
              (note_invalidated-Goes q id reason old.session_id at ids s)
      ]
    ]
