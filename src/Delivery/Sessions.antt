-- ===== src/Delivery/Sessions.antt =====
-- packages/delivery/src/file-delivery-store.ts: the sessions that agents keep for a thread or a project
-- (`recordAgentThreadSession`, `invalidateAgentThreadSession`). `createHash` and `JSON.stringify` are not
-- part of the repository: the hexadecimal digest of a list of texts is the parameter `Digest`.
use maxtag.Base.{
  ℕ, Bool, true, false, ◌&&◌, Text, text, text_eq, List, [], ◌∷◌, ◌++◌, Option, none, some, or_else,
  is_truthy, is_some, if◌then◌else◌, find, take, update_first,
}
use maxtag.Delivery.Fields.{Fields, str, flag, end, field, spread}
use maxtag.Delivery.Types.{SourceThread}
use maxtag.Delivery.Runs.Types.{
  RuntimeScope, thread, project, AgentRun, session_started, session_resumed, session_invalidated,
  RunState,
}
use maxtag.Delivery.Runs.Threads.{in_project}
use maxtag.Delivery.Runs.Inbound.{append_event}
use maxtag.Delivery.Runs.Create.{with_run_id}

pub data SessionStatus : Type 0 where
  active invalidated : SessionStatus

pub record Session : Type 0 where
  pub id : Text
  pub provider_id : Text
  pub namespace : Text
  pub session_id : Text
  pub status : SessionStatus
  pub platform : Text
  pub thread_id : Text
  pub workspace_id : Option Text
  pub project_id : Option Text
  pub runtime_scope : Option RuntimeScope
  pub started_by_run_id : Text
  pub last_run_id : Text
  pub created_at : ℕ
  pub updated_at : ℕ
  pub invalidated_at : Option ℕ
  pub invalidation_reason : Option Text

pub record SessionQuery : Type 0 where
  pub provider_id : Text
  pub namespace : Text
  pub thread : SourceThread
  pub runtime_scope : Option RuntimeScope

abbrev pub Digest : Type 0
Digest = List Text → Text

abbrev pub is_active_session : SessionStatus → Bool
is_active_session active = true
is_active_session invalidated = false

abbrev pub session_scope : SessionQuery → RuntimeScope
session_scope q =
    if in_project q.runtime_scope
      && is_truthy q.thread.workspace_id
      && is_truthy q.thread.project_id
    then project
    else thread

scope_parts : SessionQuery → RuntimeScope → List Text
scope_parts q project =
    q.provider_id
    ∷ q.namespace
    ∷ text "project"
    ∷ or_else q.thread.workspace_id []
    ∷ or_else q.thread.project_id []
    ∷ []
scope_parts q thread =
    q.provider_id
    ∷ q.namespace
    ∷ q.thread.platform
    ∷ or_else q.thread.workspace_id []
    ∷ or_else q.thread.project_id []
    ∷ q.thread.id
    ∷ []

pub thread_session_id : Digest → SessionQuery → Text
unfolding scope_parts
thread_session_id digest q = text "session:" ++ take 32 (digest (scope_parts q (session_scope q)))

abbrev pub with_session_id : Text → Session → Bool
with_session_id id s = text_eq s.id id

-- The session that is there, if it goes on as the one that is recorded.
abbrev pub resumes : Text → Option Session → Bool
resumes session none = false
resumes session (some s) = is_active_session s.status && text_eq s.session_id session

abbrev pub recorded_session : Digest → SessionQuery → Text → Text → ℕ → Option Session → Session
recorded_session digest q session run at old =
    let resumed = resumes session old in
    record {
      id = elim old [ none ↦ thread_session_id digest q | some s ↦ s.id ];
      provider_id = elim old [ none ↦ q.provider_id | some s ↦ s.provider_id ];
      namespace = elim old [ none ↦ q.namespace | some s ↦ s.namespace ];
      session_id = session;
      status = active;
      platform = q.thread.platform;
      thread_id = q.thread.id;
      workspace_id = q.thread.workspace_id;
      project_id = q.thread.project_id;
      runtime_scope = some (session_scope q);
      started_by_run_id =
          if resumed then elim old [ none ↦ run | some s ↦ s.started_by_run_id ] else run;
      last_run_id = run;
      created_at = if resumed then elim old [ none ↦ at | some s ↦ s.created_at ] else at;
      updated_at = at;
      invalidated_at = none;
      invalidation_reason = none;
    }

abbrev pub note_run : Fields → ℕ → AgentRun → AgentRun
note_run fields at r = record r {
  metadata = some (spread (or_else r.metadata end) fields);
  updated_at = at;
}

abbrev session_fields : Text → Text → Text → Fields
session_fields provider namespace session =
    field (text "providerId") (str provider)
      (field (text "namespace") (str namespace) (field (text "sessionId") (str session) end))

-- The sessions are a list of their own; the run that is named takes a note and an event.
unfoldable pub record_agent_thread_session :
    Digest
    → SessionQuery
    → (session run : Text) → ℕ
    → (ℕ → Text)
    → List Session × RunState
    → List Session × RunState
unfolding thread_session_id append_event
record_agent_thread_session digest q session run at ids (sessions, s) =
    let id = thread_session_id digest q in
    let old = find (with_session_id id) sessions in
    let resumed = resumes session old in
    let new = recorded_session digest q session run at old in
    let note = field (text "providerSessionId") (str session) (
      field (text "providerSessionNamespace") (str q.namespace)
        (field (text "providerSessionResumed") (flag resumed) end)) in
    (
      if is_some old
          then update_first (with_session_id id) (λ _. new) sessions
          else sessions ++ new ∷ [],
      elim (find (with_run_id run) s.runs) [
        | none ↦ s
        | some r ↦
            append_event at ids r.id (if resumed then session_resumed else session_started)
              (some (
                q.provider_id
                ++ (if resumed then text " session resumed" else text " session recorded")))
              (some (session_fields q.provider_id q.namespace session))
              (record s { runs = update_first (with_run_id run) (note_run note at) s.runs })
      ],
    )

abbrev pub invalidate : Text → ℕ → Session → Session
invalidate reason at s = record s {
  status = invalidated;
  invalidated_at = some at;
  invalidation_reason = some reason;
  updated_at = at;
}

-- The note on the run that the caller names, if it names one.
unfoldable pub note_invalidated :
    SessionQuery → Option Text → Text → Text → ℕ → (ℕ → Text) → RunState → RunState
unfolding append_event
note_invalidated q run reason session at ids s =
    if is_truthy run
    then elim (find (with_run_id (or_else run [])) s.runs) [
      | none ↦ s
      | some r ↦
          append_event at ids r.id session_invalidated (some reason)
            (some (session_fields q.provider_id q.namespace session))
            (record s {
              runs =
                  update_first (with_run_id (or_else run []))
                    (note_run (field (text "providerSessionInvalidated") (str reason) end) at)
                    s.runs;
            })
    ]
    else s

unfoldable pub invalidate_agent_thread_session :
    Digest
    → SessionQuery
    → Option Text
    → Text
    → ℕ
    → (ℕ → Text)
    → List Session × RunState
    → List Session × RunState
unfolding thread_session_id note_invalidated
invalidate_agent_thread_session digest q run reason at ids (sessions, s) =
    let id = thread_session_id digest q in
    elim (find (with_session_id id) sessions) [
      | none ↦ (sessions, s)
      | some old ↦
          if is_active_session old.status
          then (
            update_first (with_session_id id) (invalidate reason at) sessions,
            note_invalidated q run reason old.session_id at ids s,
          )
          else (sessions, s)
    ]
