-- ===== src/Delivery/Runs/Threads.antt =====
-- packages/delivery/src/file-delivery-store.ts: which runs are active, and which belong to one thread or
-- to one runtime.
use maxtag.Base.{
  Bool, true, false, ◌&&◌, ◌||◌, Text, text, text_eq, option_eq, is_truthy, Option, none, some,
  if◌then◌else◌,
}
use maxtag.Delivery.Runs.Types.{
  AgentRunStatus, queued, running, RuntimeScope, thread, project, AgentRun, Steering, run_status_eq,
}

abbrev pub is_terminal_run_status : AgentRunStatus → Bool
is_terminal_run_status s =
    run_status_eq s AgentRunStatus.completed
    || run_status_eq s AgentRunStatus.failed
    || run_status_eq s AgentRunStatus.cancelled

abbrev pub is_active_run_status : AgentRunStatus → Bool
is_active_run_status s =
    run_status_eq s queued
    || run_status_eq s running
    || run_status_eq s AgentRunStatus.cancel_requested

abbrev pub with_status : AgentRunStatus → AgentRun → Bool
with_status status r = run_status_eq r.status status

-- `Pick<AgentRunRecord, 'platform' | 'threadId' | 'workspaceId' | 'projectId'>`
pub record ThreadScope : Type 0 where
  pub platform : Text
  pub thread_id : Text
  pub workspace_id : Option Text
  pub project_id : Option Text

abbrev pub run_thread : AgentRun → ThreadScope
run_thread r = record {
  platform = r.platform;
  thread_id = r.thread_id;
  workspace_id = r.workspace_id;
  project_id = r.project_id;
}

abbrev pub steering_thread : Steering → ThreadScope
steering_thread s = record {
  platform = s.platform;
  thread_id = s.thread_id;
  workspace_id = s.workspace_id;
  project_id = s.project_id;
}

unfoldable pub same_thread : ThreadScope → ThreadScope → Bool
same_thread a b =
    text_eq a.platform b.platform
    && text_eq a.thread_id b.thread_id
    && option_eq a.workspace_id b.workspace_id
    && option_eq a.project_id b.project_id

abbrev pub in_project : Option RuntimeScope → Bool
in_project (some project) = true
in_project _ = false

-- Whether the runtime of the run is that of its project, and not that of its thread.
unfoldable pub runtime_scope_for : AgentRun → RuntimeScope
runtime_scope_for r =
    if in_project r.runtime_scope && is_truthy r.workspace_id && is_truthy r.project_id
    then project
    else thread

abbrev pub same_scope : RuntimeScope → RuntimeScope → AgentRun → AgentRun → Bool
same_scope project project a b =
    option_eq a.workspace_id b.workspace_id && option_eq a.project_id b.project_id
same_scope thread thread a b = same_thread (run_thread a) (run_thread b)
same_scope _ _ a b = false

unfoldable pub same_runtime : AgentRun → AgentRun → Bool
unfolding runtime_scope_for
same_runtime a b = same_scope (runtime_scope_for a) (runtime_scope_for b) a b

abbrev pub is_control_executor : Option Text → Bool
is_control_executor none = false
is_control_executor (some e) =
    text_eq e (text "thread-status")
    || text_eq e (text "routine-command")
    || text_eq e (text "memory-command")
