-- ===== src/Delivery/Redaction.antt =====
-- packages/delivery/src/file-delivery-store.ts, `purgeThreadContextRaw`: when a part of a thread has been
-- summed up and its time is over, the texts of its messages are taken out of the runs and the messages
-- that steer them. The stored messages of the platform and the counts that the call reports are not
-- modelled.
use maxtag.Base.{
  ℕ, Bool, ◌&&◌, not, Text, text, text_eq, List, [], ◌∷◌, ◌++◌, Option, none, some, or_else,
  is_some, leb, clamp, any, filter, take, sort_by, update_all,
}
use maxtag.Delivery.Types.{SourceMessage}
use maxtag.Delivery.Runs.Types.{AgentRun, Steering, RunState}

-- What the purge reads of a summary: the entries that it covers, and when their raw text is due.
pub record Summary : Type 0 where
  pub covered : List Text
  pub raw_expires_at : ℕ
  pub raw_purged_at : Option ℕ

pub due_summaries : ℕ → Option ℕ → List Summary → List Summary
due_summaries time limit summaries = take (clamp 1 1_000 (or_else limit 100)) (
    sort_by (λ a b. leb a.raw_expires_at b.raw_expires_at)
      (filter (λ s. not (is_some s.raw_purged_at) && leb s.raw_expires_at time) summaries))

abbrev pub covers : Summary → Text → Text → Bool
covers s id part = any (text_eq (text "transcript:" ++ id ++ text ":" ++ part)) s.covered

abbrev pub redact : SourceMessage → SourceMessage
redact m = record m { text = text "[raw message purged after successful context consolidation]" }

abbrev pub redact_run : AgentRun → AgentRun
redact_run r = record r { message = elim r.message [ none ↦ none | some m ↦ some (redact m) ] }

abbrev pub redact_steering : Steering → Steering
redact_steering st = record st { message = redact st.message }

abbrev pub redact_covered : Summary → RunState → RunState
redact_covered summary s = record s {
  runs = update_all (λ r. covers summary r.id (text "user")) redact_run s.runs;
  steering = update_all (λ st. covers summary st.id (text "live")) redact_steering s.steering;
}

unfoldable pub redact_each : List Summary → RunState → RunState
redact_each [] s = s
redact_each (summary ∷ due) s = redact_each due (redact_covered summary s)

unfoldable pub purge_thread_context_raw : ℕ → Option ℕ → List Summary → RunState → RunState
unfolding due_summaries redact_each
purge_thread_context_raw time limit summaries s = redact_each (due_summaries time limit summaries) s
