-- ===== src/Dispatch/Tests.antt =====
-- Runs of the receiver's checks, and the theorems at concrete inputs.
use oria.Base.{
  String, ◌≡◌, ◌≢◌, ◌↔◌, refl, false, none, some, [], ◌∷◌, find, ok, Reading, String_discrete,
  ℕ_discrete, replace_where, arith,
}
use oria.Jobs.{
  Job, JobSubmission, campaign, merchant, running, Job-discrete, model_validate,
  validate_job_update,
}
use oria.Jobs.Lease.{
  claim, JobLeaseToken, Token-discrete, Namespace, lease_token, validate_lease, validate_claim,
  validate_lease_change, operation_change, claim_rejected,
}
use oria.Jobs.Repository.{
  Store, Guard, Clock, has_id, replace_leased, replace_row, update_where, fresh_row, append_event,
  stale_row,
}
use oria.Jobs.History.{Call, leases, call, run}
use oria.Ledger.Execution.{ReceiptStatus}
use oria.Dispatch.{
  DispatchOperation, Operation-discrete, DispatchRequest, succeeded, rejected, DispatchObservation,
  validate_request, validate_observation, validate_dispatch_admission, validate_dispatch_history,
  done, failed, reconcile_dispatch,
}
use oria.Dispatch.Fencing.{admission_fenced}
use oria.Dispatch.Reconciliation.{Concluded, reconcile_iff}

abbrev hash : JobSubmission → String
hash _ = "digest"

abbrev namespace : Namespace
namespace _ _ = "ns"

-- A running job whose lease of epoch 1 ends at time 50, and the job claimed again at time 60.
abbrev held : Job
held = record {
  tenant_id = "tenant";
  job_id = "job";
  session_id = "session";
  thread_id = "thread";
  run_id = "run";
  requester_subject_id = "user";
  requester_issuer = "issuer";
  requester_external_subject = "subject";
  submission = record {
    session_id = "session";
    spec = campaign (record {
      categories = "food" ∷ [];
      cities = "city" ∷ [];
      enrollment_mode = merchant;
      max_candidates = 10;
    });
  };
  request_hash = "digest";
  idempotency_key = "key";
  status = running;
  revision = 1;
  attempt = 1;
  max_attempts = 3;
  lease_owner = some "one";
  lease_epoch = 1;
  lease_expires_at = some 50;
  heartbeat_at = some 20;
  retry_at = none;
  timeout_at = 1000;
  cancel_requested = false;
  webhook_id = none;
  accepted_checkpoint_ns = none;
  accepted_checkpoint_id = none;
  created_at = 10;
  updated_at = 20;
}

abbrev retaken : Job
retaken = record held {
  revision = 2;
  attempt = 2;
  lease_owner = some "two";
  lease_epoch = 2;
  lease_expires_at = some 90;
  heartbeat_at = some 60;
  updated_at = 60;
}

abbrev store : Store
store = record {
  rows = held ∷ [];
  events =
      record {
        tenant_id = "tenant";
        job_id = "job";
        sequence = 1;
        status = running;
        created_at = 20;
      }
      ∷ [];
}

abbrev passing : Guard
passing _ = ok tt

abbrev at_60 : Clock
at_60 _ = Reading.aware 60

abbrev reclaims : Call
reclaims = leases held retaken passing claim none at_60

abbrev fence_one : JobLeaseToken
fence_one = record { tenant_id = "tenant"; job_id = "job"; owner = "one"; epoch = 1 }

abbrev operation : DispatchOperation
operation = record {
  tenant_id = "tenant";
  adapter_id = "adapter";
  tool_name = "publish";
  operation_key = "key";
  job_id = "job";
  resource_ref = "campaign";
  tool_schema_version = 1;
  canonical_args_hash = "sha256:00";
}

abbrev request_one : DispatchRequest
request_one = record { operation = operation; fence = fence_one }

-- What an operation computes through.
everything : Unit {0}
unfolding call run model_validate validate_claim replace_leased validate_lease_change
    validate_job_update operation_change claim_rejected replace_row update_where replace_where
    fresh_row append_event stale_row String_discrete ℕ_discrete Job-discrete validate_lease
    lease_token Token-discrete Operation-discrete validate_request validate_observation
    validate_dispatch_admission validate_dispatch_history reconcile_dispatch
everything = tt

-- Before the second claim the first owner may dispatch.
first_admitted : validate_dispatch_admission hash request_one held (Reading.aware 30) ≡ ok tt
unfolding everything
first_admitted = refl

held_in_store : find (has_id "tenant" "job") store.rows ≡ some held
unfolding everything
held_in_store = refl

reclaim_commits : (call hash namespace store reclaims).0 ≡ ok retaken
unfolding everything
reclaim_commits = refl

retaken_in_store :
    find (has_id "tenant" "job") (run hash namespace store (reclaims ∷ [])).rows ≡ some retaken
unfolding everything
retaken_in_store = refl

admission_fenced_example :
    validate_dispatch_admission hash request_one retaken (Reading.aware 65) ≢ ok tt
admission_fenced_example =
    admission_fenced hash namespace store held retaken passing at_60 [] request_one retaken
      (Reading.aware 65) held_in_store reclaim_commits (omega arith) retaken_in_store

abbrev observation : DispatchObservation
observation = record {
  operation = operation;
  state = succeeded;
  observed_at = 80;
  accepted_fence = some fence_one;
  receipt = some (record {
    receipt_id = "r1";
    adapter_id = "adapter";
    resource_ref = "campaign";
    external_id = none;
    status = ReceiptStatus.accepted;
    received_at = 40;
    summary_hash = "sha256:01";
  });
}

abbrev request_two : DispatchRequest
request_two = record {
  operation = operation;
  fence = record { tenant_id = "tenant"; job_id = "job"; owner = "two"; epoch = 2 };
}

-- The second owner reconciles what the first one dispatched.
reconcile_runs : reconcile_dispatch request_two observation ≡ ok done
unfolding everything
reconcile_runs = refl

reconcile_iff_example :
    ((reconcile_dispatch request_two observation ≡ ok done)
      ↔ Concluded request_two observation succeeded ReceiptStatus.accepted)
    × ((reconcile_dispatch request_two observation ≡ ok failed)
        ↔ Concluded request_two observation rejected ReceiptStatus.rejected)
reconcile_iff_example = reconcile_iff request_two observation
