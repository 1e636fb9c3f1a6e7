-- ===== src/Ledger/Tests.antt =====
-- Runs of the ledger on concrete executions.
use oria.Base.{◌≡◌, refl, find, ℕ, suc, ◌≤◌, String, none, some, List, [], ◌∷◌, ok, Reading, arith}
use oria.Ledger.{validate_state, reserved, ToolExecution}
use oria.Ledger.Events.{append_bundle, append_each, EventBundle}
use oria.Ledger.Repository.{has_id, Store}
use oria.Ledger.Outcome.{validate_tenant_bundle}
use oria.Ledger.Execution.{Receipt, execute, World, Plan, Answer, returned, ReceiptStatus}
use oria.Ledger.Calls.{Call, executes, invokes, run}
use oria.Ledger.Counting.{total}
use oria.Ledger.Advance.{Advances}
use oria.Ledger.Completion.{marked_at, succeeded_at, execute_succeeds}
use oria.Ledger.Runs.{run-Advances}
use oria.Ledger.Invocations.{at_most_one_invocation}

abbrev reservation : ToolExecution
reservation = record {
  execution_id = "e1";
  tenant_id = "t1";
  tool_name = "publish_recruitment";
  idempotency_key = "campaign:sha256:00";
  canonical_args_hash = "sha256:00";
  checkpoint_id = "c1";
  status = reserved;
  receipt_id = none;
  receipt_summary_hash = none;
  compensation_status = none;
  attempt_count = 0;
  created_at = 10;
  updated_at = 10;
  executed_at = none;
}

abbrev no_events : EventBundle
no_events = record { domain_events = []; audit_events = []; outbox_records = [] }

abbrev empty_store : Store ℕ
empty_store = record {
  executions = [];
  requests = [];
  events = record { domain_events = []; audit_events = []; outbox = [] };
  business = 0;
}

-- The business write counts its own runs.
abbrev counting_plan : Plan ℕ
counting_plan = record {
  business_write = some (λ n. ok (suc n));
  bundle = no_events;
  outcome_events = none;
  outcome_projection = none;
}

abbrev accepts : String → Answer
accepts key = returned (record {
  receipt_id = "r1";
  adapter_id = "adapter";
  resource_ref = "campaign";
  external_id = none;
  status = ReceiptStatus.accepted;
  received_at = 12;
  summary_hash = key;
})

-- Two calls of `execute` for one reservation, and a late attempt to run it once more.
abbrev calls : List (Call ℕ)
calls =
    executes reservation accepts counting_plan (Reading.aware 11) (Reading.aware 12)
    ∷ executes reservation accepts counting_plan (Reading.aware 13) (Reading.aware 14)
    ∷ invokes reservation (Reading.aware 15)
    ∷ []

abbrev final : World ℕ
final = run (record { store = empty_store; invoked = [] }) calls

at_most_one_invocation_example : total "e1" final.invoked ≤ 1
at_most_one_invocation_example = at_most_one_invocation "e1" empty_store calls (omega arith)

abbrev held : World ℕ
held = record { store = record empty_store { executions = reservation ∷ [] }; invoked = [] }

run-Advances_example :
    (e : ToolExecution) × (find (has_id "t1" "e1") (run held calls).store.executions ≡ some e)
    × Advances reservation e
unfolding oria.Base.String_discrete
run-Advances_example = run-Advances held calls "t1" "e1" reservation refl

abbrev receipt_one : Receipt
receipt_one = record {
  receipt_id = "r1";
  adapter_id = "adapter";
  resource_ref = "campaign";
  external_id = none;
  status = ReceiptStatus.accepted;
  received_at = 12;
  summary_hash = "campaign:sha256:00";
}

execute_succeeds_example :
    execute
      (record { store = empty_store; invoked = [] })
      reservation
      accepts
      counting_plan
      (Reading.aware 11)
      (Reading.aware 12)
    ≡ (
      ok (succeeded_at reservation 12 receipt_one),
      record {
        store = record empty_store {
          executions = succeeded_at reservation 12 receipt_one ∷ [];
          business = 1;
        };
        invoked = marked_at reservation 11 ∷ [];
      },
    )
unfolding validate_state validate_tenant_bundle append_bundle append_each
execute_succeeds_example =
    execute_succeeds (record { store = empty_store; invoked = [] }) reservation accepts
      counting_plan receipt_one 11 12 1 empty_store.events refl refl refl (omega arith)
      (omega arith) refl refl refl refl refl
