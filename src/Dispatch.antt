-- ===== src/Dispatch.antt =====
-- src/oria/core/dispatch.py: the checks of a receiver of dispatched work. The patterns of identifiers are
-- not modelled; a payload's schema and its canonical hash are parameters.
pub mod Fencing
pub mod Checks
pub mod Reconciliation
mod Tests
use oria.Base.{
  ℕ, String, Bool, true, false, not, ◌&&◌, ◌||◌, Option, none, some, Result, ok, err, ◌>>=◌, ◌>>◌,
  raise_if, or_raise, Reading, ltb, leb, ◌==◌, is, is_none, is_some, present, same_text,
  String_discrete, ℕ_discrete, if◌then◌else◌,
}
use oria.Jobs.{Job, JobSubmission, JobError, is_running, model_validate}
use oria.Jobs.Lease.{JobLeaseToken, validate_lease}
use oria.Ledger.Execution.{Receipt, ReceiptStatus}

pub record DispatchOperation : Type 0 where
  pub tenant_id : String
  pub adapter_id : String
  pub tool_name : String
  pub operation_key : String
  pub job_id : String
  pub resource_ref : String
  pub tool_schema_version : ℕ
  pub canonical_args_hash : String

unfoldable pub Operation-discrete : Discrete DispatchOperation
Operation-discrete = hlevel (String_discrete, ℕ_discrete)

pub record DispatchRequest : Type 0 where
  pub operation : DispatchOperation
  pub fence : JobLeaseToken

pub data DispatchState : Type 0 where
  pending succeeded rejected unknown not_found : DispatchState

-- Its times include a timezone.
pub record DispatchObservation : Type 0 where
  pub operation : DispatchOperation
  pub state : DispatchState
  pub observed_at : ℕ
  pub accepted_fence : Option JobLeaseToken
  pub receipt : Option Receipt

pub data DispatchError : Type 0 where
  invalid_fields scope_differs admission_without_fence absence_with_fence : DispatchError
  acceptance_scope_differs receipt_mismatch receipt_unresolved invalid_job invalid_payload :
      DispatchError
  job_not_running naive_time fence_not_current payload_differs binding_conflicts : DispatchError
  acceptance_ahead : DispatchError

abbrev pub valid_operation : DispatchOperation → Bool
valid_operation op =
    present op.tenant_id
    && present op.adapter_id
    && present op.tool_name
    && present op.operation_key
    && present op.resource_ref
    && leb 1 op.tool_schema_version

abbrev pub valid_token : JobLeaseToken → Bool
valid_token token = present token.tenant_id && present token.owner && leb 1 token.epoch

-- `(operation.tenant_id, operation.job_id) == (fence.tenant_id, fence.job_id)`
abbrev pub same_scope : DispatchOperation → JobLeaseToken → Bool
same_scope op token = same_text token.tenant_id op.tenant_id && same_text token.job_id op.job_id

-- `DispatchRequest.model_validate`
unfoldable pub validate_request : DispatchRequest → Result DispatchError (Unit {0})
validate_request request = do
  raise_if (not (valid_operation request.operation && valid_token request.fence)) invalid_fields
  raise_if (not (same_scope request.operation request.fence)) scope_differs

-- `state in {"pending", "succeeded", "rejected"}`
abbrev pub is_admitted : DispatchState → Bool
is_admitted pending = true
is_admitted succeeded = true
is_admitted rejected = true
is_admitted _ = false

abbrev pub is_not_found : DispatchState → Bool
is_not_found not_found = true
is_not_found _ = false

abbrev pub valid_fence : Option JobLeaseToken → Bool
valid_fence none = true
valid_fence (some token) = valid_token token

abbrev pub fence_in_scope : DispatchOperation → Option JobLeaseToken → Bool
fence_in_scope op none = true
fence_in_scope op (some token) = same_scope op token

abbrev pub is_accepted : ReceiptStatus → Bool
is_accepted ReceiptStatus.accepted = true
is_accepted _ = false

abbrev pub is_rejected : ReceiptStatus → Bool
is_rejected ReceiptStatus.rejected = true
is_rejected _ = false

-- The final receipt that a state expects.
abbrev pub matching : DispatchOperation → ℕ → (ReceiptStatus → Bool) → Option Receipt → Bool
matching op observed_at expected none = false
matching op observed_at expected (some receipt) =
    expected receipt.status
    && (same_text receipt.adapter_id op.adapter_id
        && (same_text receipt.resource_ref op.resource_ref && leb receipt.received_at observed_at))

-- The checks of the receipt.
abbrev pub check_receipt : DispatchObservation → Result DispatchError (Unit {0})
check_receipt observation = elim observation.state [
  | succeeded ↦
      raise_if
        (not
          (matching observation.operation observation.observed_at is_accepted observation.receipt))
        receipt_mismatch
  | rejected ↦
      raise_if
        (not
          (matching observation.operation observation.observed_at is_rejected observation.receipt))
        receipt_mismatch
  | _ ↦ raise_if (is_some observation.receipt) receipt_unresolved
]

-- `DispatchObservation.model_validate`
unfoldable pub validate_observation : DispatchObservation → Result DispatchError (Unit {0})
validate_observation observation = do
  raise_if (not (valid_operation observation.operation && valid_fence observation.accepted_fence))
      invalid_fields
  raise_if (is_admitted observation.state && is_none observation.accepted_fence)
      admission_without_fence
  raise_if (is_not_found observation.state && is_some observation.accepted_fence) absence_with_fence
  raise_if (not (fence_in_scope observation.operation observation.accepted_fence))
      acceptance_scope_differs
  check_receipt observation

abbrev pub is_naive : JobError → Bool
is_naive JobError.naive_time = true
is_naive _ = false

-- What the receiver reports of a job that is not valid, and of a lease that is not current.
abbrev pub job_checked : Result JobError Job → Result DispatchError (Unit {0})
job_checked (ok _) = ok tt
job_checked (err _) = err invalid_job

abbrev pub fence_checked : Result JobError (Unit {0}) → Result DispatchError (Unit {0})
fence_checked (ok _) = ok tt
fence_checked (err e) = err (if is_naive e then naive_time else fence_not_current)

unfoldable pub validate_dispatch_admission :
    (JobSubmission → String) → DispatchRequest → Job → Reading → Result DispatchError (Unit {0})
validate_dispatch_admission submission_hash request current_job now = do
  validate_request request
  job_checked (model_validate submission_hash current_job)
  raise_if (not (is_running current_job.status) || current_job.cancel_requested) job_not_running
  fence_checked (validate_lease current_job request.fence now)

-- `payload` is what the schema makes of the actual payload.
unfoldable pub validate_dispatch_payload :
    {P : Type 0}
    → (String → ℕ → P → String)
    → DispatchRequest
    → Option P
    → Result DispatchError (Unit {0})
validate_dispatch_payload canonical_args_hash request payload = do
  validate_request request
  args ← or_raise payload invalid_payload
  raise_if
      (not (
        same_text
          (canonical_args_hash request.operation.tool_name request.operation.tool_schema_version
            args)
          request.operation.canonical_args_hash))
      payload_differs

-- `accepted` is ahead of the fence of a request.
abbrev pub is_ahead : Option JobLeaseToken → JobLeaseToken → Bool
is_ahead none fence = false
is_ahead (some accepted) fence =
    ltb fence.epoch accepted.epoch
    || (accepted.epoch == fence.epoch && not (same_text accepted.owner fence.owner))

unfoldable pub validate_dispatch_history :
    DispatchRequest → DispatchObservation → Result DispatchError (Unit {0})
validate_dispatch_history request history = do
  validate_request request
  validate_observation history
  raise_if (not (is (Operation-discrete request.operation history.operation))) binding_conflicts
  raise_if (is_ahead history.accepted_fence request.fence) acceptance_ahead

pub data DispatchOutcome : Type 0 where
  done failed unresolved : DispatchOutcome

-- `succeeded`, `failed` and `unknown` are `done`, `failed` and `unresolved` here.
abbrev pub outcome_of : DispatchState → DispatchOutcome
outcome_of succeeded = done
outcome_of rejected = failed
outcome_of _ = unresolved

unfoldable pub reconcile_dispatch :
    DispatchRequest → DispatchObservation → Result DispatchError DispatchOutcome
reconcile_dispatch request observation = do
  validate_observation observation
  validate_dispatch_history request observation
  ok (outcome_of observation.state)
