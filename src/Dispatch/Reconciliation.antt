-- ===== src/Dispatch/Reconciliation.antt =====
-- When a reconciliation concludes an operation.
use oria.Base.{
  not-false, ℕ, ◌≤◌, ◌≡◌, refl, sym, subst, ◌∙◌, ◌↔◌, Bool, true, false, not, ◌&&◌, Option, none,
  some, ok, raise_if, is_none, is-yes, is-true, same_text, String_discrete, leb, arith,
}
use oria.Jobs.Lease.{JobLeaseToken}
use oria.Ledger.Execution.{Receipt, ReceiptStatus}
use oria.Dispatch.{
  DispatchOperation, Operation-discrete, DispatchRequest, DispatchState, succeeded, rejected,
  DispatchObservation, valid_operation, valid_token, same_scope, validate_request, is_admitted,
  is_not_found, valid_fence, fence_in_scope, is_accepted, is_rejected, matching, check_receipt,
  is_ahead, DispatchOutcome, done, failed, outcome_of, reconcile_dispatch, receipt_mismatch,
}
use oria.Dispatch.Checks.{
  both_true, request_operation, observation_parts, history_parts, reconcile_parts, observation_made,
  reconcile_made, passed_alone, one_owner, behind_fence,
}

-- The observation concludes the requested operation: it is of that operation, was admitted under a fence
-- of the same job that is not ahead of the request's, and has the final receipt of its target.
pub record Concluded (request : DispatchRequest) (observation : DispatchObservation)
    (state : DispatchState) (status : ReceiptStatus) : Type 0 where
  pub requested : validate_request request ≡ ok tt
  pub operation : request.operation ≡ observation.operation
  pub reached : observation.state ≡ state
  pub fence : JobLeaseToken
  pub admitted : observation.accepted_fence ≡ some fence
  pub fence_valid : valid_token fence ≡ true
  pub tenant : fence.tenant_id ≡ observation.operation.tenant_id
  pub job : fence.job_id ≡ observation.operation.job_id
  pub not_ahead : fence.epoch ≤ request.fence.epoch
  pub one_owner : fence.epoch ≡ request.fence.epoch → fence.owner ≡ request.fence.owner
  pub receipt : Receipt
  pub received : observation.receipt ≡ some receipt
  pub answered : receipt.status ≡ status
  pub adapter : receipt.adapter_id ≡ observation.operation.adapter_id
  pub resource : receipt.resource_ref ≡ observation.operation.resource_ref
  pub in_time : receipt.received_at ≤ observation.observed_at

module _ (state : DispatchState) (status : ReceiptStatus) (expected : ReceiptStatus → Bool)
    (outcome : DispatchOutcome)
    (checks : (o : DispatchObservation)
      → o.state ≡ state
      → check_receipt o
        ≡ raise_if (not (matching o.operation o.observed_at expected o.receipt)) receipt_mismatch)
    (expects : (x : ReceiptStatus) → (expected x ≡ true) ↔ (x ≡ status))
    (concludes : (s : DispatchState) → (outcome_of s ≡ outcome) ↔ (s ≡ state))
    (admits : is_admitted state ≡ true) (there : is_not_found state ≡ false) where
  fence_there :
      (o : Option JobLeaseToken)
      → (is_admitted state && is_none o) ≡ false
      → (fence : JobLeaseToken) × (o ≡ some fence)
  fence_there none h = absurd (ground (arith, admits))
  fence_there (some fence) h = (fence, refl)

  receipt_there :
      (op : DispatchOperation) (at : ℕ) (o : Option Receipt)
      → matching op at expected o ≡ true
      → (receipt : Receipt) × (o ≡ some receipt)
        × (expected receipt.status ≡ true)
        × (same_text receipt.adapter_id op.adapter_id ≡ true)
        × (same_text receipt.resource_ref op.resource_ref ≡ true)
        × (leb receipt.received_at at ≡ true)
  receipt_there op at none h = cc
  receipt_there op at (some receipt) h =
      let (a, h1) = both_true (expected receipt.status) _ h in
      let (b, h2) = both_true (same_text receipt.adapter_id op.adapter_id) _ h1 in
      let (c, d) = both_true (same_text receipt.resource_ref op.resource_ref) _ h2 in
      (receipt, refl, a, b, c, d)

  reconciled-Concluded :
      (request : DispatchRequest) (o : DispatchObservation)
      → reconcile_dispatch request o ≡ ok outcome
      → Concluded request o state status
  reconciled-Concluded request o h =
      let (valid, history, ended) = reconcile_parts request o outcome h in
      let (v1, v2, v3, v4, v5) = observation_parts o valid in
      let (q1, q2, q3) = history_parts request o history in
      let reached = (concludes o.state).0 ended in
      let (fence, admitted) =
        fence_there o.accepted_fence
          (subst (λ s. (is_admitted s && is_none o.accepted_fence) ≡ false) reached v3) in
      let matched : matching o.operation o.observed_at expected o.receipt ≡ true =
        not-false _ (passed_alone _ receipt_mismatch (sym (checks o reached) ∙ v5)) in
      let (receipt, received, r1, r2, r3, r4) =
        receipt_there o.operation o.observed_at o.receipt matched in
      let scope : same_scope o.operation fence ≡ true = rw admitted at v4 in
      let ahead : is_ahead (some fence) request.fence ≡ false = rw admitted at q3 in
      let (s1, s2) = both_true (same_text fence.tenant_id o.operation.tenant_id) _ scope in
      record {
        requested = q1;
        operation = is-true (Operation-discrete request.operation o.operation) q2;
        reached = reached;
        fence = fence;
        admitted = admitted;
        fence_valid = rw admitted at v2;
        tenant = is-true (String_discrete fence.tenant_id o.operation.tenant_id) s1;
        job = is-true (String_discrete fence.job_id o.operation.job_id) s2;
        not_ahead = ground arith;
        one_owner = λ e.
            is-true (String_discrete fence.owner request.fence.owner)
              (one_owner fence request.fence e ahead);
        receipt = receipt;
        received = received;
        answered = (expects receipt.status).0 r1;
        adapter = is-true (String_discrete receipt.adapter_id o.operation.adapter_id) r2;
        resource = is-true (String_discrete receipt.resource_ref o.operation.resource_ref) r3;
        in_time = ground arith;
      }

  Concluded-reconciled :
      (request : DispatchRequest) (o : DispatchObservation)
      → Concluded request o state status
      → reconcile_dispatch request o ≡ ok outcome
  Concluded-reconciled request o c =
      let fit : matching o.operation o.observed_at expected o.receipt ≡ true =
        let t : leb c.receipt.received_at o.observed_at ≡ true =
          let h = c.in_time in ground arith in
        rw c.received (
          rw
            (
              (expects c.receipt.status).1 c.answered,
              is-yes (String_discrete c.receipt.adapter_id o.operation.adapter_id) c.adapter,
              is-yes (String_discrete c.receipt.resource_ref o.operation.resource_ref) c.resource,
              t,
            )
            refl) in
      let scope : same_scope o.operation c.fence ≡ true =
        rw
          (
            is-yes (String_discrete c.fence.tenant_id o.operation.tenant_id) c.tenant,
            is-yes (String_discrete c.fence.job_id o.operation.job_id) c.job,
          )
          refl in
      let behind : is_ahead (some c.fence) request.fence ≡ false =
        behind_fence c.fence request.fence c.not_ahead c.one_owner in
      let named : valid_operation o.operation ≡ true =
        subst (λ op. valid_operation op ≡ true) c.operation
          (request_operation request c.requested) in
      let same = is-yes (Operation-discrete request.operation o.operation) c.operation in
      let fenced : valid_fence o.accepted_fence ≡ true = rw c.admitted c.fence_valid in
      let scoped : fence_in_scope o.operation o.accepted_fence ≡ true = rw c.admitted scope in
      let held : is_none o.accepted_fence ≡ false = rw c.admitted refl in
      let known : is_not_found o.state ≡ false = rw c.reached there in
      let checked : check_receipt o ≡ ok tt = checks o c.reached ∙ rw fit refl in
      let behind_ : is_ahead o.accepted_fence request.fence ≡ false = rw c.admitted behind in
      let ended = (concludes o.state).1 c.reached in
      reconcile_made request o outcome (observation_made o named fenced held known scoped checked)
        c.requested same behind_ ended

check_success :
    (o : DispatchObservation)
    → o.state ≡ succeeded
    → check_receipt o
      ≡ raise_if (not (matching o.operation o.observed_at is_accepted o.receipt)) receipt_mismatch
check_success o h = rw h refl

check_failure :
    (o : DispatchObservation)
    → o.state ≡ rejected
    → check_receipt o
      ≡ raise_if (not (matching o.operation o.observed_at is_rejected o.receipt)) receipt_mismatch
check_failure o h = rw h refl

only_accepted : (x : ReceiptStatus) → (is_accepted x ≡ true) ↔ (x ≡ ReceiptStatus.accepted)
only_accepted x = (λ h. ground arith, λ h. rw h refl)

only_rejected : (x : ReceiptStatus) → (is_rejected x ≡ true) ↔ (x ≡ ReceiptStatus.rejected)
only_rejected x = (λ h. ground arith, λ h. rw h refl)

only_success : (s : DispatchState) → (outcome_of s ≡ done) ↔ (s ≡ succeeded)
only_success s = (λ h. ground arith, λ h. rw h refl)

only_failure : (s : DispatchState) → (outcome_of s ≡ failed) ↔ (s ≡ rejected)
only_failure s = (λ h. ground arith, λ h. rw h refl)

-- A reconciliation reports success exactly when the observation concludes the requested operation with
-- an accepted receipt, and failure exactly when it does so with a rejected one.
pub reconcile_iff :
    (request : DispatchRequest) (o : DispatchObservation)
    → ((reconcile_dispatch request o ≡ ok done)
        ↔ Concluded request o succeeded ReceiptStatus.accepted)
      × ((reconcile_dispatch request o ≡ ok failed)
          ↔ Concluded request o rejected ReceiptStatus.rejected)
reconcile_iff request o = (
  (
    reconciled-Concluded succeeded ReceiptStatus.accepted is_accepted done check_success
        only_accepted only_success refl refl request o,
    Concluded-reconciled succeeded ReceiptStatus.accepted is_accepted done check_success
        only_accepted only_success refl refl request o,
  ),
  (
    reconciled-Concluded rejected ReceiptStatus.rejected is_rejected failed check_failure
        only_rejected only_failure refl refl request o,
    Concluded-reconciled rejected ReceiptStatus.rejected is_rejected failed check_failure
        only_rejected only_failure refl refl request o,
  ),
)
