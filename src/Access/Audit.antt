-- ===== src/Access/Audit.antt =====
-- The audit trail of the access store keeps the last 1000 entries.
use maxtag.Base.{ℕ, ◌≤◌, Text, List, ◌∷◌, [], ◌++◌, arith, length, length-keep_last}
use maxtag.Access.Types.{AuditRecord, AccessState, append_audit, create_empty_state}
use maxtag.Access.Members.{upsert_member, remove_member}
use maxtag.Access.Projects.{
  set_project_policy, upsert_project_membership, remove_project_membership,
}
use maxtag.Access.Run.{
  Request, upserts_member, removes_member, sets_policy, upserts_membership, removes_membership,
  step, run,
}

abbrev IsBounded : AccessState → Type 0
IsBounded s = length s.audit ≤ 1_000

append_audit-IsBounded : (s : AccessState) (entry : AuditRecord) → IsBounded (append_audit s entry)
unfolding append_audit
append_audit-IsBounded s entry = ground (arith, length-keep_last 1_000 (s.audit ++ entry ∷ []))

step-IsBounded :
    (s : AccessState) (r : ℕ × (ℕ → Text) × Request) → IsBounded s → IsBounded (step s r)
unfolding step upsert_member remove_member set_project_policy upsert_project_membership
    remove_project_membership
step-IsBounded s (at, uuid, upserts_member input) h = grind (arith, append_audit-IsBounded)
step-IsBounded s (at, uuid, removes_member w id actor) h = grind (arith, append_audit-IsBounded)
step-IsBounded s (at, uuid, sets_policy input) h = grind (arith, append_audit-IsBounded)
step-IsBounded s (at, uuid, upserts_membership input) h = grind (arith, append_audit-IsBounded)
step-IsBounded s (at, uuid, removes_membership w p id actor) h =
    grind (arith, append_audit-IsBounded)

run-IsBounded :
    (s : AccessState) (rs : List (ℕ × (ℕ → Text) × Request)) → IsBounded s → IsBounded (run s rs)
unfolding run
run-IsBounded s [] h = h
run-IsBounded s (r ∷ rs) h = run-IsBounded (step s r) rs (step-IsBounded s r h)

-- After any requests to an empty store, the audit trail has at most 1000 entries.
pub length-run_audit :
    (rs : List (ℕ × (ℕ → Text) × Request)) → length (run create_empty_state rs).audit ≤ 1_000
unfolding create_empty_state
length-run_audit rs = run-IsBounded create_empty_state rs (omega arith)
