-- ===== src/Ledger/Outcome.antt =====
-- src/oria/core/execution_ledger.py: the transaction that commits an outcome with its writes and
-- events, and the one that commits a local mutation. The callbacks of the caller are functions on
-- the other business tables; a duplicate event identity is `event_exists`.
use oria.Base.{
  ℕ, ◌+◌, String, Bool, true, false, not, ◌&&◌, ◌||◌, Option, none, some, any, Result, ok, err,
  ◌>>=◌, ◌>>◌, raise_if, or_raise, Reading, instant, ltb, is, is_some, String_discrete,
  if◌then◌else◌, commit,
}
use oria.Ledger.{
  ExecutionStatus, reserved, executing, succeeded, unknown, ToolExecution, LedgerError, is_reserved,
  is_succeeded, is_failed, is_unknown, is_executing, same_status,
}
use oria.Ledger.Events.{DomainEvent, AuditEvent, OutboxRecord, EventBundle, append_bundle}
use oria.Ledger.Repository.{Store, Evidence, transition, get_by_idempotency}

-- `OutcomeProjectionMutation`
pub record Projection (B : Type 0) : Type 0 where
  pub tenant_id : String
  pub execution_id : String
  pub aggregate_type : String
  pub aggregate_id : String
  pub outcome : ExecutionStatus
  pub apply : B → Result LedgerError B

-- The keyword arguments of `_commit_outcome` after the expected status.
pub record Request (B : Type 0) : Type 0 where
  pub evidence : Evidence
  pub business_write : Option (B → Result LedgerError B)
  pub outcome_projection : Option (Projection B)
  pub bundle : EventBundle

unfoldable pub validate_tenant_bundle : ToolExecution → EventBundle → Result LedgerError (Unit {0})
validate_tenant_bundle execution bundle = do
  raise_if
      (any (λ (e : DomainEvent). not (is (String_discrete e.tenant_id execution.tenant_id)))
        bundle.domain_events)
      LedgerError.cross_tenant
  raise_if
      (any
        (λ (e : AuditEvent).
          not (is (String_discrete e.tenant_id execution.tenant_id))
          || not (is (String_discrete e.resource_tenant_id execution.tenant_id)))
        bundle.audit_events)
      LedgerError.cross_tenant
  raise_if
      (any (λ (e : OutboxRecord). not (is (String_discrete e.tenant_id execution.tenant_id)))
        bundle.outbox_records)
      LedgerError.cross_tenant

-- `self._now() - execution.updated_at < self._executing_timeout`, for the time `now`; times here
-- are instants, so that a clock behind the row gives a negative difference, below any timeout.
abbrev pub within : ℕ → ToolExecution → ℕ → Bool
within timeout execution now = ltb now (execution.updated_at + timeout)

-- Which errors are a `ValueError`; a callback that raises anything else gives `callback_failed`.
abbrev pub is_value_error : LedgerError → Bool
is_value_error LedgerError.execution_unavailable = false
is_value_error LedgerError.binding_unavailable = false
is_value_error LedgerError.outbox_unavailable = false
is_value_error LedgerError.changed_concurrently = false
is_value_error LedgerError.history_unreadable = false
is_value_error LedgerError.callback_failed = false
is_value_error LedgerError.invocation_failed = false
is_value_error _ = true

module _ {B : Type 0} where
  unfoldable pub validate_outcome_projection :
      ToolExecution → ExecutionStatus → Projection B → Result LedgerError (Unit {0})
  validate_outcome_projection execution outcome projection = do
    raise_if
        (not (is_failed outcome || is_unknown outcome)
          || not (same_status projection.outcome outcome))
        LedgerError.projection_mismatch
    raise_if (not (is (String_discrete projection.tenant_id execution.tenant_id)))
        LedgerError.cross_tenant
    raise_if (not (is (String_discrete projection.execution_id execution.execution_id)))
        LedgerError.wrong_execution
    raise_if
        (is (String_discrete projection.aggregate_type "")
          || is (String_discrete projection.aggregate_id ""))
        LedgerError.aggregate_required

  abbrev pub check_projection :
      ToolExecution → ExecutionStatus → Option (Projection B) → Result LedgerError (Unit {0})
  check_projection execution outcome none = ok tt
  check_projection execution outcome (some p) = validate_outcome_projection execution outcome p

  -- The checks before the transaction.
  unfoldable pub validate_outcome :
      ToolExecution → ExecutionStatus → Request B → Result LedgerError (Unit {0})
  validate_outcome execution outcome request = do
    raise_if (is_succeeded outcome && is_some request.outcome_projection)
        LedgerError.projection_of_success
    raise_if (not (is_succeeded outcome) && is_some request.business_write)
        LedgerError.write_without_success
    check_projection execution outcome request.outcome_projection
    validate_tenant_bundle execution request.bundle

  abbrev pub apply_write : B → Option (B → Result LedgerError B) → Result LedgerError B
  apply_write b none = ok b
  apply_write b (some write) = write b

  abbrev pub apply_projection : B → Option (Projection B) → Result LedgerError B
  apply_projection b none = ok b
  apply_projection b (some p) = p.apply b

  unfoldable pub outcome_body :
      Store B
      → ToolExecution
      → ExecutionStatus
      → ExecutionStatus
      → Request B
      → Reading
      → Result LedgerError (ToolExecution × Store B)
  outcome_body store execution outcome expected request clock = do
    after_write ← apply_write store.business request.business_write
    business ← apply_projection after_write request.outcome_projection
    now ← instant clock LedgerError.naive_time
    (transitioned, rows) ←
        transition store.executions execution.tenant_id execution.execution_id outcome expected
          (Reading.aware now) request.evidence
    events ← append_bundle store.events request.bundle
    ok (transitioned, record store { executions = rows; events = events; business = business })

  -- `_commit_outcome`, with the reading of the clock inside the transaction.
  unfoldable pub commit_outcome :
      Store B
      → ToolExecution
      → ExecutionStatus
      → ExecutionStatus
      → Request B
      → Reading
      → Result LedgerError ToolExecution × Store B
  commit_outcome store execution outcome expected request clock = commit store (
      validate_outcome execution outcome request
      >> outcome_body store execution outcome expected request clock)

  unfoldable pub local_body :
      Store B
      → ToolExecution
      → Evidence
      → (B → Result LedgerError B)
      → EventBundle
      → Reading
      → Reading
      → Result LedgerError (ToolExecution × Store B)
  local_body store execution evidence business_write bundle started ended = do
    start ← instant started LedgerError.naive_time
    (_, marked) ←
        transition store.executions execution.tenant_id execution.execution_id executing reserved
          (Reading.aware start)
          (record { receipt_id = none; receipt_summary_hash = none; compensation_status = none })
    business ← business_write store.business
    end ← instant ended LedgerError.naive_time
    (done, rows) ←
        transition marked execution.tenant_id execution.execution_id succeeded executing
          (Reading.aware end) evidence
    events ← append_bundle store.events bundle
    ok (done, record store { executions = rows; events = events; business = business })

  -- `record_local_success`: both transitions in one transaction.
  unfoldable pub record_local_success :
      Store B
      → ToolExecution
      → String
      → Option String
      → (B → Result LedgerError B)
      → EventBundle
      → Reading
      → Reading
      → Result LedgerError ToolExecution × Store B
  record_local_success store execution receipt_id summary_hash business_write bundle started ended =
      commit store do
        raise_if (not (is_reserved execution.status)) LedgerError.not_reserved
        validate_tenant_bundle execution bundle
        local_body store execution
            (record {
              receipt_id = some receipt_id;
              receipt_summary_hash = summary_hash;
              compensation_status = none;
            })
            business_write bundle started ended

  -- The handler of a `ValueError` in `recover_stale_executing`: what another process has recorded.
  unfoldable pub recovered_elsewhere :
      Store B → ToolExecution → LedgerError → Result LedgerError ToolExecution
  recovered_elsewhere store execution e = if not (is_value_error e) then err e else (do
    found ←
        get_by_idempotency store.executions execution.tenant_id execution.tool_name
          execution.idempotency_key
    history ← or_raise found e
    raise_if (is_executing history.status) e
    ok history)

  abbrev pub recover_outcome :
      ToolExecution
      → Result LedgerError ToolExecution × Store B
      → Result LedgerError ToolExecution × Store B
  recover_outcome execution (ok e, store) = (ok e, store)
  recover_outcome execution (err e, store) = (recovered_elsewhere store execution e, store)

  -- After the status check, at the reading `now` of the clock.
  abbrev pub recover_late :
      Store B
      → ToolExecution
      → Bool
      → Option (Projection B)
      → EventBundle
      → Reading
      → Result LedgerError ToolExecution × Store B
  recover_late store execution true projection bundle later = (ok execution, store)
  recover_late store execution false projection bundle later = recover_outcome execution (
      commit_outcome store execution unknown executing
        (record {
          evidence = record {
            receipt_id = none;
            receipt_summary_hash = none;
            compensation_status = some "reconciliation_required";
          };
          business_write = none;
          outcome_projection = projection;
          bundle = bundle;
        })
        later)

  abbrev pub recover_at :
      Store B
      → ToolExecution
      → ℕ
      → Option (Projection B)
      → EventBundle
      → Reading
      → Reading
      → Result LedgerError ToolExecution × Store B
  recover_at store execution timeout projection bundle Reading.naive later =
      (err LedgerError.naive_time, store)
  recover_at store execution timeout projection bundle (Reading.aware now) later =
      recover_late store execution (within timeout execution now) projection bundle later

  unfoldable pub recover_stale_executing :
      Store B
      → ToolExecution
      → ℕ
      → Option (Projection B)
      → EventBundle
      → Reading
      → Reading
      → Result LedgerError ToolExecution × Store B
  recover_stale_executing store execution timeout projection bundle reading later =
      if is_executing execution.status
      then recover_at store execution timeout projection bundle reading later
      else (err LedgerError.not_executing, store)
