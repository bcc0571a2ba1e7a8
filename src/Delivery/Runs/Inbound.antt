-- ===== src/Delivery/Runs/Inbound.antt =====
-- packages/delivery/src/file-delivery-store.ts: the timeline of the runs, and the events that come in from
-- the platforms, each of which is recorded once.
use maxtag.Base.{
  ℕ, ◌+◌, ◌-◌, Bool, true, false, ◌&&◌, ◌||◌, not, Text, text, text_eq, option_eq, is_truthy, List,
  [], ◌∷◌, ◌++◌, map, Option, none, some, or_else, or_option, if◌then◌else◌, leb, ◌==◌, any, filter,
  find, length, take, sort_by, update_first,
}
use maxtag.Delivery.Fields.{Fields, end, spread}
use maxtag.Delivery.Runs.Types.{
  InboundStatus, received, processed, ignored, rejected, RunEventType, RunEvent, InboundEvent,
  RunState, inbound_status_eq,
}

-- The random id of an event is a function of its sequence.
abbrev pub new_event :
    ℕ → (ℕ → Text) → Text → RunEventType → Option Text → Option Fields → RunState → RunEvent
new_event at ids run_id type message metadata s = record {
  id = ids s.next_event_sequence;
  sequence = s.next_event_sequence;
  run_id = run_id;
  type = type;
  at = at;
  message = message;
  metadata = metadata;
}

unfoldable pub append_event :
    ℕ → (ℕ → Text) → Text → RunEventType → Option Text → Option Fields → RunState → RunState
append_event at ids run_id type message metadata s = record s {
  next_event_sequence = s.next_event_sequence + 1;
  events = s.events ++ new_event at ids run_id type message metadata s ∷ [];
}

pub record InboundUpdate : Type 0 where
  pub workspace_id : Option Text
  pub project_id : Option Text
  pub thread_id : Option Text
  pub message_id : Option Text
  pub reason : Option Text
  pub error : Option Text
  pub metadata : Option Fields

abbrev pub with_inbound_id : Text → InboundEvent → Bool
with_inbound_id id e = text_eq e.id id

-- `metadata ? { ...event.metadata, ...metadata } : event.metadata`
unfoldable pub merged : Option Fields → Option Fields → Option Fields
merged old none = old
merged old (some new) = some (spread (or_else old end) new)

abbrev pub stamped : InboundStatus → InboundStatus → ℕ → Option ℕ → Option ℕ
stamped wanted status time old = if inbound_status_eq status wanted then some time else old

abbrev pub set_inbound : InboundStatus → InboundUpdate → ℕ → InboundEvent → InboundEvent
set_inbound status input time e = record e {
  status = status;
  workspace_id = or_option input.workspace_id e.workspace_id;
  project_id = or_option input.project_id e.project_id;
  thread_id = or_option input.thread_id e.thread_id;
  message_id = or_option input.message_id e.message_id;
  reason = or_option input.reason e.reason;
  last_error = or_option input.error e.last_error;
  metadata = merged e.metadata input.metadata;
  updated_at = time;
  processed_at = stamped processed status time e.processed_at;
  ignored_at = stamped ignored status time e.ignored_at;
  failed_at = stamped InboundStatus.failed status time e.failed_at;
  rejected_at = stamped rejected status time e.rejected_at;
}

-- An id that is absent or empty, or that no event has, changes nothing.
unfoldable pub update_inbound_in :
    Option Text → InboundStatus → InboundUpdate → ℕ → RunState → RunState
unfolding merged
update_inbound_in none status input time s = s
update_inbound_in (some id) status input time s =
    if is_truthy (some id)
    then record s {
      inbound = update_first (with_inbound_id id) (set_inbound status input time) s.inbound;
    }
    else s

-- INBOUND_EVENT_MAX_RECORDS
abbrev pub inbound_event_max : ℕ
inbound_event_max = 50_000

abbrev pub is_received : InboundEvent → Bool
is_received e = inbound_status_eq e.status received

-- The settled events that are kept: as many of the latest as the ones that wait leave room for.
abbrev pub kept_inbound : ℕ → List InboundEvent → List InboundEvent
kept_inbound most events =
    take (most - length (filter is_received events))
      (sort_by (λ a b. leb b.updated_at a.updated_at) (filter (λ e. not (is_received e)) events))

unfoldable pub trim_inbound : ℕ → List InboundEvent → List InboundEvent
trim_inbound most events =
    filter (λ e. is_received e || any (with_inbound_id e.id) (kept_inbound most events)) events

pub record RecordInput : Type 0 where
  pub platform : Text
  pub external_id : Text
  pub event_type : Option Text
  pub workspace_id : Option Text
  pub project_id : Option Text
  pub thread_id : Option Text
  pub message_id : Option Text
  pub metadata : Option Fields

-- `[a-zA-Z0-9_.:-]`
abbrev is_id_unit : ℕ → Bool
is_id_unit c =
    leb b'a' c && leb c b'z'
    || leb b'A' c && leb c b'Z'
    || leb b'0' c && leb c b'9'
    || c == b'_'
    || c == b'.'
    || c == b':'
    || c == b'-'

unfoldable pub inbound_event_id : Text → Text → Text
inbound_event_id platform external =
    map (λ c. if is_id_unit c then c else b'_') (platform ++ text ":event:" ++ external)

-- The event that the input repeats: it has the same id, or the same message on the same platform.
abbrev pub repeats : RecordInput → InboundEvent → Bool
repeats input e =
    text_eq e.id (inbound_event_id input.platform input.external_id)
    || is_truthy input.message_id
      && text_eq e.platform input.platform
      && option_eq e.message_id input.message_id

abbrev pub new_inbound : RecordInput → ℕ → InboundEvent
new_inbound input at = record {
  id = inbound_event_id input.platform input.external_id;
  platform = input.platform;
  external_id = input.external_id;
  status = received;
  duplicate_count = 0;
  event_type = input.event_type;
  workspace_id = input.workspace_id;
  project_id = input.project_id;
  thread_id = input.thread_id;
  message_id = input.message_id;
  received_at = at;
  processed_at = none;
  ignored_at = none;
  failed_at = none;
  rejected_at = none;
  reason = none;
  last_error = none;
  updated_at = at;
  metadata = input.metadata;
}

abbrev pub count_duplicate : ℕ → InboundEvent → InboundEvent
count_duplicate at e = record e { duplicate_count = e.duplicate_count + 1; updated_at = at }

-- The record, and whether it is a duplicate.
unfoldable pub record_inbound_event : RecordInput → ℕ → RunState → RunState × InboundEvent × Bool
unfolding inbound_event_id trim_inbound
record_inbound_event input at s = elim (find (repeats input) s.inbound) [
  | some e ↦ (
    record s { inbound = update_first (repeats input) (count_duplicate at) s.inbound },
    count_duplicate at e,
    true,
  )
  | none ↦
      let e = new_inbound input at in
      (record s { inbound = trim_inbound inbound_event_max (s.inbound ++ e ∷ []) }, e, false)
]

-- `markInboundEventProcessed`, `Ignored`, `Rejected` and `Failed`, by the status, the reason and the error.
unfoldable pub mark_inbound_event : Text → InboundStatus → InboundUpdate → ℕ → RunState → RunState
unfolding update_inbound_in
mark_inbound_event id status input at s = update_inbound_in (some id) status input at s
