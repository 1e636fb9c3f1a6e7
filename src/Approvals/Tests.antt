-- ===== src/Approvals/Tests.antt =====
-- Approvals at concrete values: the theorems' witnesses, and runs of the operations.
use oria.Base.{
  ◌≡◌, ◌≢◌, refl, ◌↔◌, true, false, none, some, List, [], ◌∷◌, find, All, ok, Reading, arith,
  String_discrete, ℕ_discrete, replace_where,
}
use oria.Approvals.{
  launch, pending, approved, approve, Approval, BusinessBinding, ToolPolicy, ApprovalMode,
  ResumeRequest, Binding-discrete, Action-discrete, Approval-discrete, validate_state,
  approval_resume_rejection,
}
use oria.Approvals.Store.{
  Store, applied, has_id, update_where, invalidate_campaign_binding, append_approval_events, get,
  replace, replace_body,
}
use oria.Approvals.Service.{
  Context, Policy, Clock, authorize, authorize_decider, required_approval, decide, decide_outcome,
  decision_read, decision_on, write_approval, terminalize,
}
use oria.Approvals.Resume.{Reader, authorize_resume, resume_verdict, required_verdict}
use oria.Approvals.Invalidation.{
  Fact, Faults, Consumed, consume, record_pending, get_status, apply_fact, apply_body,
}
use oria.Approvals.Memory.{replace_item, set_item, invalidate_items}
use oria.Approvals.Calls.{Call, decides, consumes, run}
use oria.Approvals.History.{Evolves, IsSeparated, run-Evolves, run-IsSeparated}
use oria.Approvals.Granted.{MayResume, resume_iff}
use oria.Approvals.Facts.{NoneOutdated}
use oria.Approvals.Consumption.{consume_twice, consume-NoneOutdated}
use oria.Approvals.Frozen.{KeepsFrozen, with_decision-KeepsFrozen}
use oria.Approvals.Agreement.{replace_iff, invalidate_items_eq}

abbrev first_binding : BusinessBinding
first_binding = record {
  campaign_id = "campaign";
  enrollment_version = 1;
  link_version = 1;
  selection_version = "v1";
  selection_hash = none;
  rule_snapshot_hash = "rules";
}

abbrev second_binding : BusinessBinding
second_binding = record first_binding { link_version = 2 }

-- Requested at time 10, to expire at time 100.
abbrev asked : Approval
asked = record {
  approval_id = "approval";
  tenant_id = "tenant";
  approval_action = launch;
  tool_name = "launch_campaign";
  canonical_args_hash = "digest";
  checkpoint_id = "checkpoint";
  policy_version = "p1";
  expires_at = 100;
  status = pending;
  requester = "operator";
  decider = none;
  decision = none;
  reason = none;
  created_at = 10;
  updated_at = 10;
  decided_at = none;
  business_binding = some first_binding;
}

abbrev given : Approval
given = record asked {
  status = approved;
  decider = some "manager";
  decision = some approve;
  updated_at = 20;
  decided_at = some 20;
}

abbrev store_of : Approval → Store
store_of approval = record {
  approvals = approval ∷ [];
  audit_events = [];
  outbox = [];
  invalidations = [];
}

abbrev manager : Context
manager = record { tenant_id = "tenant"; subject_id = "manager"; correlation_id = "c" }

abbrev allowing : Policy
allowing _ _ _ _ = record { allow = true; tenant_constraint = some "tenant"; policy_version = "p1" }

abbrev at_20 : Clock
at_20 _ = Reading.aware 20

abbrev current : Reader
current _ _ = some first_binding

abbrev tool : ToolPolicy
tool = record {
  required_action = "campaign:launch";
  resource_type = "tool";
  side_effect = true;
  approval_mode = ApprovalMode.required;
  approval_action = some launch;
}

abbrev resume : ResumeRequest
resume = record {
  approval_id = some "approval";
  approval_action = launch;
  tool_name = "launch_campaign";
  canonical_args_hash = "digest";
  checkpoint_id = "checkpoint";
  approval_required = true;
  business_binding = some first_binding;
}

-- The links of the campaign have changed.
abbrev changed_fact : Fact
changed_fact = record {
  event_id = "fact";
  tenant_id = "tenant";
  binding = second_binding;
  reason = "links changed";
  occurred_at = 30;
}

abbrev no_faults : Faults
no_faults = record {
  first_read = false;
  insert = false;
  second_read = false;
  apply = false;
  mark = false;
}

-- Every statement after the first read fails.
abbrev failing : Faults
failing = record {
  first_read = false;
  insert = true;
  second_read = true;
  apply = true;
  mark = true;
}

abbrev calls : List Call
calls =
    decides allowing (store_of asked) "tenant" "approval" approve none manager none "event" at_20
    ∷ consumes no_faults changed_fact
    ∷ []

-- What an operation computes through.
everything : Unit {0}
unfolding String_discrete ℕ_discrete Binding-discrete Action-discrete Approval-discrete
    validate_state approval_resume_rejection update_where replace_where invalidate_campaign_binding
    append_approval_events get replace replace_body authorize authorize_decider required_approval
    decide decide_outcome decision_read decision_on write_approval terminalize authorize_resume
    resume_verdict required_verdict consume record_pending get_status apply_fact apply_body
    replace_item set_item invalidate_items
everything = tt

decide_runs :
    (decide allowing
      (store_of asked)
      (store_of asked)
      "tenant"
      "approval"
      approve
      none
      manager
      none
      "event"
      at_20).0
    ≡ ok given
unfolding everything
decide_runs = refl

resume_runs :
    authorize_resume allowing
      (some current)
      (store_of given)
      (store_of given)
      resume
      tool
      manager
      "event"
      at_20
    ≡ (ok (some given), store_of given)
unfolding everything
resume_runs = refl

asked_in_store : find (has_id "tenant" "approval") (store_of asked).approvals ≡ some asked
unfolding everything
asked_in_store = refl

run-Evolves_example :
    (a' : Approval) × (find (has_id "tenant" "approval") (run (store_of asked) calls).approvals
      ≡ some a')
    × Evolves asked a'
run-Evolves_example = run-Evolves (store_of asked) calls "tenant" "approval" asked asked_in_store

asked-IsSeparated : All IsSeparated (store_of asked).approvals
asked-IsSeparated = (λ h. absurd (ground arith), tt)

run-IsSeparated_example : All IsSeparated (run (store_of asked) calls).approvals
run-IsSeparated_example = run-IsSeparated (store_of asked) calls asked-IsSeparated

resume_iff_example :
    (authorize_resume allowing
        (some current)
        (store_of given)
        (store_of given)
        resume
        tool
        manager
        "event"
        at_20
      ≡ (ok (some given), store_of given))
    ↔ MayResume allowing (some current) (store_of given) resume tool manager at_20 given
resume_iff_example =
    resume_iff allowing (some current) (store_of given) resume tool manager at_20 given
      (store_of given) "event"

-- One approval was invalidated.
abbrev once : Consumed
once = record { status = applied; invalidated_count = 1 }

consume_runs : (consume no_faults (store_of given) changed_fact).0 ≡ ok once
unfolding everything
consume_runs = refl

not_before : get_status (store_of given) changed_fact ≢ ok (some applied)
unfolding everything
not_before h = absurd (ground arith)

consume_twice_example :
    consume failing (consume no_faults (store_of given) changed_fact).1 changed_fact ≡ (
      ok (record { status = applied; invalidated_count = 0 }),
      (consume no_faults (store_of given) changed_fact).1,
    )
consume_twice_example =
    consume_twice no_faults failing (store_of given) changed_fact once consume_runs refl

consume-NoneOutdated_example :
    NoneOutdated "tenant" second_binding
      (consume no_faults (store_of given) changed_fact).1.approvals
consume-NoneOutdated_example =
    consume-NoneOutdated no_faults (store_of given) changed_fact once not_before consume_runs refl

given_frozen : KeepsFrozen asked given
given_frozen = with_decision-KeepsFrozen asked given

replace_iff_example :
    (replace_item (asked ∷ []) given asked ≡ ok (given ∷ []))
    ↔ (update_where asked given (asked ∷ []) ≡ some (given ∷ []))
replace_iff_example = replace_iff (asked ∷ []) (given ∷ []) given asked (refl, tt) given_frozen

replace_item_runs : replace_item (asked ∷ []) given asked ≡ ok (given ∷ [])
unfolding everything
replace_item_runs = refl

invalidate_items_eq_example :
    invalidate_items (given ∷ []) "tenant" second_binding 30
    ≡ invalidate_campaign_binding (given ∷ []) "tenant" second_binding 30
invalidate_items_eq_example = invalidate_items_eq (given ∷ []) "tenant" second_binding 30
