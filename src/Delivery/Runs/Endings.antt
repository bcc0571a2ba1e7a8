-- ===== src/Delivery/Runs/Endings.antt =====
-- packages/delivery/src/file-delivery-store.ts: the writes to a run that goes on, ends, or waits again.
use maxtag.Base.{
  ℕ, ◌+◌, Bool, ◌&&◌, not, Text, text, text_eq, option_eq, is_truthy, List, [], ◌∷◌, Option, none,
  some, or_else, or_option, if◌then◌else◌, update_all,
}
use maxtag.Delivery.Runs.Types.{
  AgentRunStatus, queued, pending, claimed, RunEventType, started, AgentRun, Steering,
  run_status_eq, steering_status_eq,
}
use maxtag.Delivery.Runs.Threads.{is_terminal_run_status}

abbrev pub release_steering : ℕ → Steering → Steering
release_steering time st = record st {
  status = pending;
  mode = none;
  claimed_by = none;
  claimed_at = none;
  updated_at = time;
}

abbrev pub is_claimed_of : Text → Steering → Bool
is_claimed_of id st = text_eq st.target_run_id id && steering_status_eq st.status claimed

abbrev pub release_run : Text → ℕ → AgentRun → AgentRun
release_run reason time r = record r {
  status = queued;
  worker_id = none;
  claimed_at = none;
  last_error = some reason;
  updated_at = time;
}

-- The part of the input that the callers of `updateAgentRun` give.
pub record RunChange : Type 0 where
  pub started_at : Option ℕ
  pub claimed_at : Option ℕ
  pub worker_id : Option Text
  pub completed_at : Option ℕ
  pub failed_at : Option ℕ
  pub cancelled_at : Option ℕ
  pub summary : Option Text
  pub last_error : Option Text
  pub event : RunEventType
  pub message : Text

abbrev pub no_change : RunEventType → Text → RunChange
no_change event message = record {
  started_at = none;
  claimed_at = none;
  worker_id = none;
  completed_at = none;
  failed_at = none;
  cancelled_at = none;
  summary = none;
  last_error = none;
  event = event;
  message = message;
}

abbrev pub started_change : Option Text → ℕ → RunChange
started_change worker time = record (no_change started (text "Agent run started")) {
  started_at = some time;
  claimed_at = some time;
  worker_id = worker;
}

abbrev pub completed_change : Option Text → ℕ → RunChange
completed_change summary at =
    record (no_change RunEventType.completed (or_else summary (text "Agent run completed"))) {
      completed_at = some at;
      summary = summary;
    }

abbrev pub failed_change : Text → ℕ → RunChange
failed_change error at = record (no_change RunEventType.failed error) {
  failed_at = some at;
  last_error = some error;
}

abbrev pub cancelled_change : Option Text → ℕ → RunChange
cancelled_change reason at =
    record (no_change RunEventType.cancelled (or_else reason (text "Agent run cancelled"))) {
      cancelled_at = some at;
      last_error = reason;
    }

-- A run that is to be cancelled does not complete any more.
abbrev pub cancellation_wins : AgentRunStatus → AgentRunStatus → Bool
cancellation_wins old new =
    run_status_eq old AgentRunStatus.cancel_requested && run_status_eq new AgentRunStatus.completed

abbrev pub next_status : AgentRunStatus → AgentRunStatus → AgentRunStatus
next_status old new = if cancellation_wins old new then AgentRunStatus.cancelled else new

abbrev pub change_run : AgentRunStatus → RunChange → ℕ → AgentRun → AgentRun
change_run status input at r =
    let wins = cancellation_wins r.status status in
    record r {
      status = next_status r.status status;
      started_at = or_option input.started_at r.started_at;
      claimed_at = or_option input.claimed_at r.claimed_at;
      worker_id = or_option input.worker_id r.worker_id;
      completed_at = if wins then r.completed_at else or_option input.completed_at r.completed_at;
      failed_at = or_option input.failed_at r.failed_at;
      cancelled_at = if wins then some at else or_option input.cancelled_at r.cancelled_at;
      summary = or_option input.summary r.summary;
      last_error = or_option input.last_error r.last_error;
      updated_at = at;
    }

abbrev pub won_message : AgentRun → Text
won_message r =
    if is_truthy r.last_error
    then or_else r.last_error []
    else text "Cancellation completed before finalization"

-- A terminal status stays, but for a repetition of itself.
abbrev pub is_final : AgentRun → AgentRunStatus → Bool
is_final r status = is_terminal_run_status r.status && not (run_status_eq r.status status)

abbrev pub cancel_queued : Option Text → ℕ → AgentRun → AgentRun
cancel_queued reason at r = record r {
  status = AgentRunStatus.cancelled;
  cancel_requested_at = some at;
  cancelled_at = some at;
  last_error = or_option reason r.last_error;
  updated_at = at;
}

abbrev pub request_cancel : Option Text → ℕ → AgentRun → AgentRun
request_cancel reason at r = record r {
  status = AgentRunStatus.cancel_requested;
  cancel_requested_at = some at;
  last_error = or_option reason r.last_error;
  updated_at = at;
}

abbrev pub finalize_cancel : Text → ℕ → AgentRun → AgentRun
finalize_cancel reason time r = record r {
  status = AgentRunStatus.cancelled;
  cancelled_at = some time;
  last_error = some reason;
  updated_at = time;
}

pub record RecoverRunsResult : Type 0 where
  pub requeued : ℕ
  pub cancelled : ℕ
  pub records : List AgentRun

pub record RecoverRunsOptions : Type 0 where
  pub now : Option ℕ
  pub older_than_ms : Option ℕ
  pub limit : Option ℕ
  pub reason : Option Text

abbrev pub add_requeued : AgentRun → RecoverRunsResult → RecoverRunsResult
add_requeued r result = record result {
  requeued = result.requeued + 1;
  records = r ∷ result.records;
}

abbrev pub add_cancelled : AgentRun → RecoverRunsResult → RecoverRunsResult
add_cancelled r result = record result {
  cancelled = result.cancelled + 1;
  records = r ∷ result.records;
}

abbrev pub no_records : RecoverRunsResult
no_records = record { requeued = 0; cancelled = 0; records = [] }

abbrev pub release_all : Text → ℕ → List Steering → List Steering
release_all id time sts = update_all (is_claimed_of id) (release_steering time) sts

-- `options.workerId && run.workerId !== options.workerId`
abbrev pub is_of_other : Option Text → AgentRun → Bool
is_of_other worker r = is_truthy worker && not (option_eq r.worker_id worker)

abbrev pub renew : ℕ → AgentRun → AgentRun
renew time r = record r { updated_at = time }
