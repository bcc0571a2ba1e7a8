-- ===== src/Lib.antt =====
-- MaxTag: models of the stores that its server, worker and scheduler share, with their theorems.
--
-- Access (packages/config/src/workspace-access.ts, `FileWorkspaceAccessStore`): the members of a
-- workspace, the access mode and the members of its projects, and the authorization of actors.
-- Access/Types holds the data and the checks of input; Access/Members `upsertMember` and
-- `removeMember`; Access/Projects the policies and memberships, `snapshot`, `load` and `mutate`;
-- Access/Authorize `authorize`; Access/Run the store under a sequence of requests.
--
-- Routine (packages/routines/src): routines that run on a schedule. Routine/Types is types.ts;
-- Routine/Schedule is schedule.ts; the rest is file-routine-store.ts: Policy (normalisation, routes),
-- Incident (alerts), Trim (trimming, cancellation, `load`, `mutate`), Upsert, Lifecycle (on, off,
-- delete), Executions (staging), Claims (claims, results), Notifications (the outbox of alerts),
-- Queries, Run (the store under a sequence of requests). The theorems stand in Sound and Run (what
-- holds of every state that is reached), Once (dedup keys), Leases, Due, Cancelled, Alerts, Normal
-- and Bounds.
--
-- Memory (packages/core/src/memory-policy.ts): which scopes of memory an access bundle lets a run read
-- and write, and when an entry expires. Memory/Policy is the file; Memory/Grants has the theorems.
--
-- Delivery (packages/delivery/src): the store of what comes in, of the runs of agents, and of what goes
-- out; file-delivery-store.ts unless another file is named. Its state is modelled in three parts, each
-- the fields that its operations read and write. Delivery/Approvals is the approvals of tool calls
-- (`proposeToolApproval` to `recoverStaleToolApprovals`), with their links in Approvals/Links.
-- Delivery/Outbox is the outbox and the records that runs keep of it (`enqueue` to `cancelOutbox`), with
-- Outbox/Targets, Outbox/Turns, Outbox/Load (`normalizeDeliveryState`) and Outbox/Worker
-- (outbox-worker.ts). Delivery/Runs is the runs, the messages that steer them, their timeline and the
-- events that come in: Runs/Threads and Runs/Inbound, Runs/Create and Runs/Continue (what operations
-- share), Runs/Steer, Runs/Live, Runs/Claim, Runs/Lifecycle with Runs/Endings, and Runs/Cancel. The
-- theorems stand in
-- Approvals/Authority, Claims, Links/Secrets and Run; in Outbox/Claims, Load, Steps, Targeted, Supersede
-- and Worker/Settles; and in Runs/Moves, Passes, Requests, Next and Once. A run sends through the outbox
-- and asks for approvals only by way of the server, so the parts do not call each other.
-- What reads or writes several parts has files of its own: Delivery/Sessions (`recordAgentThreadSession`,
-- `invalidateAgentThreadSession`, which note on the run what they do), Delivery/Redaction
-- (`purgeThreadContextRaw`, as far as it writes runs and messages) and Delivery/Pruning
-- (`workspaceDataLifecyclePlan` and `pruneWorkspaceData`, which remove old runs with their events,
-- envelopes, messages and approvals; Pruning/Closed and Pruning/Safe have the
-- theorems). Each of the three parts has these
-- among its requests; such a request comes with the lists of the other parts as they are at the time.
--
-- The scheduler process claims what a store has staged, the worker reports how the runs ended, and
-- the access store decides who may manage routines; they meet only in the stored states.
--
-- A class that changes its state is a function from the state, the time and the random ids to the new
-- state and the result, or to the error that it throws. `mutate` runs one change at a time, so a list
-- of requests is an execution; a change that throws saves nothing. Mutation through a reference that
-- `find` returns is a write to the first element that the search finds; references into an array that
-- are sorted and sliced are indices. A clone is the value itself.
--
-- A change of the delivery store reads the clock once, as `at`; where the caller gives the time of a
-- write, that is a parameter of its own. The random id of an event of the timeline is a function of its
-- sequence. A loop of the source that writes to the elements of an array while it goes through them is
-- recursion on the array, or on references to its elements, which carry their values since no element is
-- written before its turn. Metadata is a list of fields (Delivery/Fields).
--
-- A string is the list of its UTF-16 code units (Base/Texts). A stored timestamp is its number of
-- milliseconds since 1970, none before that; `iso` prints one. Numbers are natural: a limit or a
-- threshold that is negative or no integer stands for one that the clamping treats alike. Time zones,
-- date parsing and printing (`Intl.DateTimeFormat`, `Date`) are the parameter `Host` of
-- Routine/Schedule, and `localeCompare` is a parameter of the queries; `randomUUID` is a function of
-- the position at which the code calls it. Loops with a bound in the source keep that bound: four
-- rounds of correction and 180 minutes in `zonedDateTime`. The decimal printer has one round more than
-- the number, which is enough since each round divides by ten. The rounds of the pruning plan that keep
-- linked runs together have one round more than there are runs to remove, which is enough since each
-- round that changes something keeps a run (closure-AreTogether).
--
-- Not modelled: the JSON text of the files, whose writing and reading back is the identity here, and the
-- SQLite storage, the HTTP servers, executors and platform adapters, which are input and output; of the
-- delivery store the queries, the thread bindings and their context, the usage records, the memory jobs
-- and history imports, the counts and the audit trail that pruning and redaction report, and what loading
-- leaves of the runs and their timeline, no run of which it drops; the workflow, memory and configuration
-- stores.
pub mod Base
pub mod Delivery
pub mod Memory
pub mod Routine
pub mod Access
