-- ===== src/Delivery/Pruning.antt =====
-- packages/delivery/src/file-delivery-store.ts, `workspaceDataLifecyclePlan` and `pruneWorkspaceData`: the
-- old runs of a workspace that nothing refers to are removed, with all that belongs to them. The counts
-- that the result reports and the audit trail of the removals are not modelled.
pub mod Closed
pub mod Safe
mod Examples
use maxtag.Base.{
  ℕ, suc, zero, ◌+◌, ◌*◌, Bool, true, false, ◌&&◌, ◌||◌, not, Text, text, text_eq, option_eq, List,
  [], ◌∷◌, ◌++◌, map, Option, none, some, or_else, is_truthy, is_empty, if◌then◌else◌, leb, ltb,
  any, filter, length, take, sort_by, trim, Result, ok, err,
}
use maxtag.Delivery.Fields.{Fields, Value, undefined, str, num, flag, object, json, end, field}
use maxtag.Delivery.Types.{ApprovalStatus, ToolApproval, approval_status_eq}
use maxtag.Delivery.Outbox.Types.{
  OutboundStatus, sending, queued, accepted, OutboundEnvelope, TurnDelivery, OutboxState,
  outbound_status_eq, turn_status_eq,
}
use maxtag.Delivery.Runs.Types.{
  AgentRun, RunEvent, RunEventType, artifact, Steering, SteeringStatus, RunState,
  steering_status_eq,
}
use maxtag.Delivery.Runs.Threads.{is_terminal_run_status}
use maxtag.Delivery.Sessions.{Session, is_active_session}

pub data JobStatus : Type 0 where
  pending claimed completed failed : JobStatus

-- A job that writes a thread to the memory, and the place up to which one has come: the run that it reads.
pub record WrapupJob : Type 0 where
  pub status : JobStatus
  pub source_run_id : Text

pub record WrapupCursor : Type 0 where
  pub source_run_id : Text

-- The lists of the delivery state that the runs are removed from, or that refer to runs.
pub record DeliveryState : Type 0 where
  pub runs : RunState
  pub outbox : OutboxState
  pub sessions : List Session
  pub jobs : List WrapupJob
  pub cursors : List WrapupCursor
  pub approvals : List ToolApproval

pub record PruneOptions : Type 0 where
  pub workspace_id : Text
  pub retention_days : Option ℕ
  pub keep_latest_per_thread : Option ℕ
  pub dry_run : Option Bool
  pub now : Option ℕ
  pub protected_run_ids : Option (List Text)

pub data PruneError : Type 0 where
  workspace_invalid retention_invalid keep_latest_invalid : PruneError

-- A set of ids.
abbrev pub has : List Text → Text → Bool
has ids id = any (text_eq id) ids

abbrev pub has_some : List Text → Option Text → Bool
has_some ids id = is_truthy id && has ids (or_else id [])

abbrev pub is_waiting_job : JobStatus → Bool
is_waiting_job JobStatus.pending = true
is_waiting_job JobStatus.claimed = true
is_waiting_job _ = false

abbrev pub is_open_steering : Steering → Bool
is_open_steering st =
    steering_status_eq st.status SteeringStatus.pending
    || steering_status_eq st.status SteeringStatus.claimed
    || steering_status_eq st.status SteeringStatus.scheduled

abbrev pub is_open_envelope : OutboundEnvelope → Bool
is_open_envelope e =
    is_truthy e.run_id
    && (outbound_status_eq e.status OutboundStatus.pending || outbound_status_eq e.status sending)

abbrev pub is_open_turn : TurnDelivery → Bool
is_open_turn t = turn_status_eq t.status queued || turn_status_eq t.status accepted

abbrev pub is_open_approval : ToolApproval → Bool
is_open_approval a =
    approval_status_eq a.status ApprovalStatus.pending
    || approval_status_eq a.status ApprovalStatus.approved
    || approval_status_eq a.status ApprovalStatus.executing

abbrev is_artifact : RunEventType → Bool
is_artifact artifact = true
is_artifact _ = false

get_value : Text → Fields → Value
get_value key end = undefined
get_value key (field k v rest) =
    let later = get_value key rest in if text_eq k key then v else later

-- What the field of a value holds, where the value is an object.
value_at : Text → Value → Value
unfolding get_value
value_at key (object fields) = get_value key fields
value_at key _ = undefined

abbrev is_flagged : Value → Bool
is_flagged (flag b) = b
is_flagged _ = false

-- An event on an artifact whose metadata say that it is managed.
pub is_managed_artifact : RunEvent → Bool
unfolding get_value value_at
is_managed_artifact e =
    is_artifact e.type
    && is_flagged (
        value_at (text "managed")
          (value_at (text "metadata") (get_value (text "artifact") (or_else e.metadata end))))

module _ {ℓ} {A : Type ℓ} where
  -- The ids of the elements that pass a test.
  abbrev ids_of : (A → Bool) → (A → Text) → List A → List Text
  ids_of t key xs = map key (filter t xs)

abbrev pub steering_ids : List Steering → List Text
steering_ids [] = []
steering_ids (st ∷ sts) =
    let rest = steering_ids sts in
    if is_open_steering st
    then st.target_run_id
      ∷ (if is_truthy st.continuation_run_id
          then or_else st.continuation_run_id [] ∷ rest
          else rest)
    else rest

-- The runs that may not be removed, since something that goes on refers to them.
pub referenced_ids : PruneOptions → DeliveryState → List Text
unfolding is_managed_artifact
referenced_ids options d =
    filter (λ id. not (is_empty id)) (map trim (or_else options.protected_run_ids []))
    ++ ids_of is_open_envelope (λ e. or_else e.run_id []) d.outbox.outbox
    ++ ids_of is_open_turn (λ t. t.run_id) d.outbox.turns
    ++ steering_ids d.runs.steering
    ++ ids_of (λ s. is_active_session s.status) (λ s. s.started_by_run_id) d.sessions
    ++ ids_of (λ s. is_active_session s.status) (λ s. s.last_run_id) d.sessions
    ++ ids_of (λ j. is_waiting_job j.status) (λ j. j.source_run_id) d.jobs
    ++ map (λ c. c.source_run_id) d.cursors
    ++ ids_of is_open_approval (λ a. a.run_id) d.approvals
    ++ ids_of is_managed_artifact (λ e. e.run_id) d.runs.events

abbrev pub is_ended_in : Text → AgentRun → Bool
is_ended_in workspace r =
    option_eq r.workspace_id (some workspace) && is_terminal_run_status r.status

abbrev thread_key : AgentRun → Text
thread_key r = r.platform ++ text ":" ++ r.thread_id

-- The latest of the runs in the thread of each run.
latest_of : ℕ → List AgentRun → List AgentRun → List Text
latest_of keep runs [] = []
latest_of keep runs (r ∷ rs) =
    map (λ q. q.id)
      (take keep (
        sort_by (λ p q. leb q.updated_at p.updated_at)
          (filter (λ q. text_eq (thread_key q) (thread_key r)) runs)))
    ++ latest_of keep runs rs

-- The old runs that neither their thread nor a reference keeps.
pub removable_ids :
    PruneOptions → (workspace : Text) → (days keep time : ℕ) → DeliveryState → List Text
unfolding referenced_ids latest_of
removable_ids options workspace days keep time d =
    let ended = filter (is_ended_in workspace) d.runs.runs in
    let latest = latest_of keep ended ended in
    let referenced = referenced_ids options d in
    map (λ r. r.id)
      (filter
        (λ r.
          ltb (r.updated_at + days * 86_400_000) time
          && not (has latest r.id)
          && not (has referenced r.id))
        ended)

abbrev pub delete : Text → List Text → List Text
delete id ids = filter (λ x. not (text_eq id x)) ids

-- One of two runs that something settled refers to is not removed without the other.
abbrev pub keep_both : Text → Text → List Text × Bool → List Text × Bool
keep_both a b (ids, changed) =
    if has ids a && not (has ids b) || not (has ids a) && has ids b
    then (delete b (delete a ids), has (delete a ids) b || has ids a || changed)
    else (ids, changed)

pub keep_by_sessions : List Session → List Text × Bool → List Text × Bool
keep_by_sessions [] p = p
keep_by_sessions (s ∷ ss) p =
    keep_by_sessions ss
      (if is_active_session s.status then p else keep_both s.started_by_run_id s.last_run_id p)

abbrev pub links : Steering → Bool
links st = not (is_open_steering st) && is_truthy st.continuation_run_id

pub keep_by_steering : List Steering → List Text × Bool → List Text × Bool
keep_by_steering [] p = p
keep_by_steering (st ∷ sts) p =
    keep_by_steering sts
      (if links st then keep_both st.target_run_id (or_else st.continuation_run_id []) p else p)

abbrev pub closure_round : DeliveryState → List Text → List Text × Bool
closure_round d ids = keep_by_steering d.runs.steering (keep_by_sessions d.sessions (ids, false))

-- The rounds go on while one changes something; each such round keeps a run more, so as many as there
-- are runs, and one, are enough.
pub closure : ℕ → DeliveryState → List Text → List Text
unfolding keep_by_sessions keep_by_steering
closure zero d ids = ids
closure (suc fuel) d ids =
    let (ids', changed) = closure_round d ids in
    let rest = closure fuel d ids' in if changed then rest else ids'

-- `workspaceDataLifecyclePlan`: the runs that are removed.
pub lifecycle_plan : PruneOptions → ℕ → DeliveryState → Result PruneError (List Text)
unfolding removable_ids closure
lifecycle_plan options at d =
    let workspace = trim options.workspace_id in
    let days = or_else options.retention_days 90 in
    let keep = or_else options.keep_latest_per_thread 20 in
    let ids = removable_ids options workspace days keep (or_else options.now at) d in
    if is_empty workspace || ltb 160 (length workspace)
    then err workspace_invalid
    else if ltb days 1 || ltb 3_650 days
    then err retention_invalid
    else if ltb keep 1 || ltb 500 keep
    then err keep_latest_invalid
    else ok (closure (suc (length ids)) d ids)

abbrev pub prune_runs : List Text → RunState → RunState
prune_runs ids s = record s {
  runs = filter (λ r. not (has ids r.id)) s.runs;
  events = filter (λ e. not (has ids e.run_id)) s.events;
  steering =
      filter (λ st. not (has ids st.target_run_id) && not (has_some ids st.continuation_run_id))
        s.steering;
}

abbrev pub prune_outbox : List Text → OutboxState → OutboxState
prune_outbox ids s = record s {
  outbox = filter (λ e. not (has_some ids e.run_id)) s.outbox;
  turns = filter (λ t. not (has ids t.run_id)) s.turns;
}

abbrev pub prune_approvals : List Text → List ToolApproval → List ToolApproval
prune_approvals ids xs = filter (λ a. not (has ids a.run_id)) xs

abbrev pub remove_runs : List Text → DeliveryState → DeliveryState
remove_runs ids d = record d {
  runs = prune_runs ids d.runs;
  outbox = prune_outbox ids d.outbox;
  sessions =
      filter
        (λ s.
          is_active_session s.status
          || not (has ids s.started_by_run_id)
          || not (has ids s.last_run_id))
        d.sessions;
  jobs = filter (λ j. not (has ids j.source_run_id)) d.jobs;
  approvals = prune_approvals ids d.approvals;
}

-- `options.dryRun !== false`
abbrev pub is_dry : PruneOptions → Bool
is_dry options = or_else options.dry_run true

-- What a call removes: nothing when it is a dry run, or when it throws.
pub pruned_ids : PruneOptions → ℕ → DeliveryState → List Text
unfolding lifecycle_plan
pruned_ids options at d = elim (lifecycle_plan options at d) [
  | err e ↦ []
  | ok ids ↦ if is_dry options then [] else ids
]

-- The state after the call.
unfoldable pub prune_workspace_data : PruneOptions → ℕ → DeliveryState → DeliveryState
unfolding pruned_ids
prune_workspace_data options at d = elim (lifecycle_plan options at d) [
  | err e ↦ d
  | ok ids ↦ if is_dry options then d else remove_runs ids d
]
