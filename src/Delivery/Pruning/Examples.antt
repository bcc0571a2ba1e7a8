-- ===== src/Delivery/Pruning/Examples.antt =====
-- Pruning a workspace with one old run that has ended and one that goes on.
use maxtag.Base.{
  ℕ, ◌≡◌, refl, Text, text, text_eq, option_eq, [], ◌∷◌, none, some, false, trim, sort_by,
}
use maxtag.Delivery.Runs.Types.{AgentRunStatus, running, AgentRun}
use maxtag.Delivery.Pruning.{
  DeliveryState, PruneOptions, pruned_ids, lifecycle_plan, removable_ids, referenced_ids, closure,
  keep_by_sessions, keep_by_steering,
}

abbrev old_run : Text → AgentRunStatus → ℕ → AgentRun
old_run id status at = record {
  id = id;
  status = status;
  platform = text "lark";
  thread = none;
  message = none;
  thread_id = id;
  thread_external_id = text "chat";
  workspace_id = some (text "acme");
  project_id = none;
  runtime_scope = none;
  message_id = none;
  actor_id = none;
  binding_id = none;
  executor_id = none;
  transport_mode = none;
  title = none;
  inbound_event_id = none;
  worker_id = none;
  claimed_at = none;
  summary = none;
  last_error = none;
  created_at = at;
  started_at = none;
  completed_at = none;
  failed_at = none;
  cancel_requested_at = none;
  cancelled_at = none;
  updated_at = at;
  metadata = none;
}

abbrev stored : DeliveryState
stored = record {
  runs = record {
    next_steering_sequence = 1;
    next_event_sequence = 1;
    runs =
        record (old_run (text "a") AgentRunStatus.completed 5) { thread_id = text "t" }
        ∷ record (old_run (text "b") AgentRunStatus.completed 9) { thread_id = text "t" }
        ∷ old_run (text "c") running 5
        ∷ [];
    events = [];
    steering = [];
    inbound = [];
  };
  outbox = record { next_sequence = 1; outbox = []; turns = [] };
  sessions = [];
  jobs = [];
  cursors = [];
  approvals = [];
}

abbrev options : PruneOptions
options = record {
  workspace_id = text "acme";
  retention_days = some 1;
  keep_latest_per_thread = some 1;
  dry_run = some false;
  now = some 100_000_000;
  protected_run_ids = none;
}

-- Of the two runs of a thread the later is kept, and the one that goes on is.
removed : pruned_ids options 0 stored ≡ text "a" ∷ []
unfolding pruned_ids lifecycle_plan removable_ids referenced_ids closure keep_by_sessions
    keep_by_steering text text_eq option_eq trim sort_by
removed = refl
