-- ===== src/Delivery/Approvals/Examples.antt =====
-- An approval from its proposal to its result, and the theorems at it.
use maxtag.Base.{
  ℕ, ◌≡◌, refl, true, false, if◌then◌else◌, Text, text, text_eq, option_eq, List, [], ◌∷◌, none,
  some, strip_prefix, trim, take, Memᴰ, err,
}
use maxtag.Routine.Types.{ThreadVisibility}
use maxtag.Delivery.Fields.{Fields}
use maxtag.Delivery.Types.{
  SourceThread, ToolApproval, ProposeInput, expired, tool_approval_claim_lost,
  tool_approval_not_pending,
}
use maxtag.Delivery.Approvals.Links.Secrets.{safe_tool_result_url-refuses}
use maxtag.Delivery.Approvals.Links.{
  Url, Urls, safe_tool_result_url, names_secret, fold, secret_words,
}
use maxtag.Delivery.Approvals.{
  propose_tool_approval, approve_tool_approval, reject_tool_approval, claim_tool_approval,
  complete_tool_approval, fail_tool_approval, recover_stale_tool_approvals, expire_tool_approvals,
  trim_approvals, revision_eq, complete, fail, settle, start, approve, new_approval,
}
use maxtag.Delivery.Approvals.Authority.{IsAuthorised}
use maxtag.Delivery.Approvals.Claims.{claim_tool_approval-exclusive}
use maxtag.Delivery.Approvals.Run.{Request, proposes, approves, claims, run, run-IsAuthorised}

abbrev thread : SourceThread
thread = record {
  id = text "t1";
  platform = text "lark";
  external_id = text "chat";
  workspace_id = some (text "w");
  project_id = none;
  channel_id = none;
  root_message_id = none;
  topic_id = none;
  title = none;
  visibility = ThreadVisibility.public;
  permalink = none;
  metadata = none;
}

abbrev push : ProposeInput
push = record {
  run_id = text "r1";
  tool_call_id = text "call";
  tool_name = text "git_push";
  title = text "Push";
  grant_kind = text "write";
  risk = text "high";
  arguments = Fields.end;
  argument_summary = Fields.end;
  argument_digest = text "d1";
  credential_identity_id = none;
  credential_identity_revision = none;
  external_actor = none;
  thread = thread;
  requested_by = text "agent";
  ttl_ms = some 5;
}

-- A reader of links that knows one.
abbrev one_url : Urls
one_url t =
    if text_eq t (text "https://x/?q=1")
    then some (record {
      protocol = text "https:";
      username = [];
      password = [];
      parameter_names = text "q" ∷ [];
      href = text "https://x/?q=1";
    })
    else none

abbrev history : List (ℕ × Text × Request)
history =
    (100, text "a", proposes push)
    ∷ (200, text "b", proposes push)
    ∷ (300, [], approves (text "a") (text "boss"))
    ∷ (400, [], claims (text "a") (text "w1") (text "other"))
    ∷ (500, [], claims (text "a") (text "w1") (text "d1"))
    ∷ []

-- The functions that a run computes with.
calls : Unit {0}
unfolding run propose_tool_approval approve_tool_approval reject_tool_approval claim_tool_approval
    complete_tool_approval fail_tool_approval recover_stale_tool_approvals expire_tool_approvals
    trim_approvals revision_eq text text_eq option_eq safe_tool_result_url names_secret fold
    secret_words trim strip_prefix
calls = tt

abbrev proposed : List ToolApproval
proposed = new_approval push (text "a") 100 ∷ []

abbrev granted : ToolApproval
granted = approve (text "boss") 300 (new_approval push (text "a") 100)

abbrev executing : ToolApproval
executing = start (text "w1") 500 granted

-- A second proposal of the call finds the first, and a time to live below a minute is a minute.
proposals : run one_url [] history ≡ executing ∷ []
unfolding calls
proposals = refl

-- A minute after the proposal an approval of it comes too late.
too_late :
    approve_tool_approval (text "a") (text "boss") 60_100 proposed
    ≡ err (tool_approval_not_pending expired)
unfolding calls
too_late = refl

run-IsAuthorised_example : IsAuthorised executing
unfolding calls
run-IsAuthorised_example = run-IsAuthorised one_url history executing (Memᴰ.head refl)

claim_tool_approval-exclusive_example :
    ((claim_tool_approval (text "a") (text "w2") (text "d1") 600 (executing ∷ [])).1 ≡ none)
    × (complete_tool_approval one_url (text "a") (text "w2") none none 600 (executing ∷ []) ≡ (
        if text_eq (text "w1") (text "w2")
        then settle (text "a") (complete one_url none none 600) executing (executing ∷ [])
        else err tool_approval_claim_lost))
    × (fail_tool_approval (text "a") (text "w2") (text "e") 600 (executing ∷ []) ≡ (
        if text_eq (text "w1") (text "w2")
        then settle (text "a") (fail (take 500 (text "e")) 600) executing (executing ∷ [])
        else err tool_approval_claim_lost))
unfolding calls
claim_tool_approval-exclusive_example =
    claim_tool_approval-exclusive one_url (text "a") (text "w1") (text "d1") 500 (granted ∷ [])
      (executing ∷ []) executing (text "w2") (text "d1") (text "e") none none 600 refl

-- What reads every text as a link with a parameter that is named like a key.
abbrev key_url : Urls
key_url t = some (record {
  protocol = text "https:";
  username = [];
  password = [];
  parameter_names = text "x-API_key" ∷ [];
  href = t;
})

abbrev key_link : Url
key_link = record {
  protocol = text "https:";
  username = [];
  password = [];
  parameter_names = text "x-API_key" ∷ [];
  href = text "https://x/?x-API_key=1";
}

safe_tool_result_url-refuses_example :
    safe_tool_result_url key_url (some (text "https://x/?x-API_key=1")) ≡ none
unfolding calls
safe_tool_result_url-refuses_example =
    safe_tool_result_url-refuses key_url (text "https://x/?x-API_key=1") key_link (text "x-API_key")
      (text "x-") (text "api_key") [] refl (Memᴰ.head refl) refl
      (Memᴰ.tail (Memᴰ.tail (Memᴰ.tail (Memᴰ.tail (Memᴰ.tail (Memᴰ.tail (Memᴰ.head refl))))))) refl
      refl

-- A parameter whose name has a secret word between separators.
secret_names : (names_secret (text "x-API_key") ≡ true) × (names_secret (text "tokens") ≡ false)
unfolding calls
secret_names = (refl, refl)
