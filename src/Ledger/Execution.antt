-- ===== src/Ledger/Execution.antt =====
-- src/oria/core/execution_ledger.py: `execute`, its reservation and the external invocation. The
-- adapter is a function from the idempotency key to what it answers. The world keeps, besides the
-- store, the list of the executions for which the adapter was invoked.
use oria.Base.{
  ℕ, String, Bool, true, false, not, ◌&&◌, Option, none, some, List, ◌∷◌, Result, ok, err, Reading,
  instant, is, String_discrete, if◌then◌else◌,
}
use oria.Ledger.{
  ExecutionStatus, reserved, executing, succeeded, failed, unknown, ToolExecution, LedgerError,
  is_reserved,
}
use oria.Ledger.Events.{EventBundle}
use oria.Ledger.Repository.{
  Store, Evidence, get_by_idempotency, reserve_with_status, public_transition,
}
use oria.Ledger.Outcome.{Projection, Request, commit_outcome}

pub data ReceiptStatus : Type 0 where
  accepted undetermined rejected : ReceiptStatus

pub record Receipt : Type 0 where
  pub receipt_id : String
  pub adapter_id : String
  pub resource_ref : String
  pub external_id : Option String
  pub status : ReceiptStatus
  pub received_at : ℕ
  pub summary_hash : String

-- What the adapter does: return a receipt, raise `SideEffectUnknownError`, or another exception.
pub data Answer : Type 0 where
  returned : Receipt → Answer
  raised_unknown : Option String → Answer
  raised : Answer

pub record World (B : Type 0) : Type 0 where
  pub store : Store B
  pub invoked : List ToolExecution

-- The keyword arguments of `execute`; `outcome_events` and `outcome_projection` are factories.
pub record Plan (B : Type 0) : Type 0 where
  pub business_write : Option (B → Result LedgerError B)
  pub bundle : EventBundle
  pub outcome_events : Option (ExecutionStatus → EventBundle)
  pub outcome_projection : Option (ExecutionStatus → Projection B)

abbrev pub no_evidence : Evidence
no_evidence = record { receipt_id = none; receipt_summary_hash = none; compensation_status = none }

module _ {B : Type 0} where
  -- `_outcome_events`
  abbrev pub events_for : ExecutionStatus → Plan B → EventBundle
  events_for outcome plan = elim plan.outcome_events [
    | none ↦ plan.bundle
    | some factory ↦ factory outcome
  ]

  abbrev pub projection_for : ExecutionStatus → Plan B → Option (Projection B)
  projection_for outcome plan = elim plan.outcome_projection [
    | none ↦ none
    | some factory ↦ some (factory outcome)
  ]

  -- The arguments of `record_success`, `record_unknown` and `record_failure` in `execute`.
  abbrev pub success_of : Plan B → Receipt → Request B
  success_of plan receipt = record {
    evidence = record {
      receipt_id = some receipt.receipt_id;
      receipt_summary_hash = some receipt.summary_hash;
      compensation_status = none;
    };
    business_write = plan.business_write;
    outcome_projection = none;
    bundle = events_for succeeded plan;
  }

  abbrev pub unknown_of : Plan B → Option String → Option String → Request B
  unknown_of plan receipt_id summary_hash = record {
    evidence = record {
      receipt_id = receipt_id;
      receipt_summary_hash = summary_hash;
      compensation_status = some "reconciliation_required";
    };
    business_write = none;
    outcome_projection = projection_for unknown plan;
    bundle = events_for unknown plan;
  }

  abbrev pub failure_of : Plan B → Option String → Option String → Request B
  failure_of plan receipt_id summary_hash = record {
    evidence = record {
      receipt_id = receipt_id;
      receipt_summary_hash = summary_hash;
      compensation_status = none;
    };
    business_write = none;
    outcome_projection = projection_for failed plan;
    bundle = events_for failed plan;
  }

  -- A failure of the adapter is recorded and raised again.
  abbrev pub raise_again :
      Result LedgerError ToolExecution × Store B → Result LedgerError ToolExecution × Store B
  raise_again (ok _, store) = (err LedgerError.invocation_failed, store)
  raise_again (err e, store) = (err e, store)

  unfoldable pub record_receipt :
      Store B
      → ToolExecution
      → Plan B
      → Receipt
      → ReceiptStatus
      → Reading
      → Result LedgerError ToolExecution × Store B
  record_receipt store e plan receipt accepted now =
      commit_outcome store e succeeded executing (success_of plan receipt) now
  record_receipt store e plan receipt undetermined now =
      commit_outcome store e unknown executing
        (unknown_of plan (some receipt.receipt_id) (some receipt.summary_hash)) now
  record_receipt store e plan receipt rejected now =
      commit_outcome store e failed executing
        (failure_of plan (some receipt.receipt_id) (some receipt.summary_hash)) now

  unfoldable pub record_answer :
      Store B
      → ToolExecution
      → Plan B
      → Answer
      → Reading
      → Result LedgerError ToolExecution × Store B
  record_answer store e plan (returned receipt) now =
      record_receipt store e plan receipt receipt.status now
  record_answer store e plan (raised_unknown receipt_id) now =
      commit_outcome store e unknown executing (unknown_of plan receipt_id none) now
  record_answer store e plan raised now =
      raise_again (commit_outcome store e failed executing (failure_of plan none none) now)

  -- `mark_executing`: `_now` refuses a naive reading.
  unfoldable pub mark_executing :
      Store B → ToolExecution → Reading → Result LedgerError ToolExecution × Store B
  mark_executing store execution reading = elim (instant reading LedgerError.naive_time) [
    | err e ↦ (err e, store)
    | ok now ↦
        public_transition store execution.tenant_id execution.execution_id executing reserved
          (Reading.aware now) no_evidence
  ]

  -- The adapter is invoked only when the transition has been committed.
  abbrev pub invoke_marked :
      World B
      → Result LedgerError ToolExecution × Store B
      → Result LedgerError ToolExecution × World B
  invoke_marked world (err e, store) = (err e, record world { store = store })
  invoke_marked world (ok marked, store) =
      (ok marked, record { store = store; invoked = marked ∷ world.invoked })

  -- `executing = await self.mark_executing(reserved)`, then the invocation.
  unfoldable pub mark_and_invoke :
      World B → ToolExecution → Reading → Result LedgerError ToolExecution × World B
  mark_and_invoke world execution reading =
      invoke_marked world (mark_executing world.store execution reading)

  -- `history is None`: a row is inserted, or the one that another process inserted is returned.
  abbrev pub reserved_for :
      Store B
      → ToolExecution
      → Option ToolExecution
      → Result LedgerError (ToolExecution × Bool) × Store B
  reserved_for store reservation none = reserve_with_status store reservation
  reserved_for store reservation (some history) = (
    ok (
      history,
      is (String_discrete history.execution_id reservation.execution_id)
          && is_reserved history.status,
    ),
    store,
  )

  -- The part of `execute` before `mark_executing`: the execution, and whether it is to be run.
  unfoldable pub reserve_to_run :
      Store B → ToolExecution → Result LedgerError (ToolExecution × Bool) × Store B
  reserve_to_run store reservation =
      if not (is_reserved reservation.status)
      then (err LedgerError.not_reserved, store)
      else elim (get_by_idempotency store.executions reservation.tenant_id reservation.tool_name
          reservation.idempotency_key) [
            | err e ↦ (err e, store)
            | ok history ↦ reserved_for store reservation history
          ]

  -- The part after the invocation.
  abbrev pub after_invocation :
      Plan B
      → (String → Answer)
      → Reading
      → Result LedgerError ToolExecution × World B
      → Result LedgerError ToolExecution × World B
  after_invocation plan invoke now (err e, world) = (err e, world)
  after_invocation plan invoke now (ok marked, world) =
      let (result, store) =
        record_answer world.store marked plan (invoke marked.idempotency_key) now in
      (result, record { store = store; invoked = world.invoked })

  -- The part from `mark_executing` on, if the execution is to be run.
  abbrev pub run_reserved :
      World B
      → (String → Answer)
      → Plan B
      → Reading
      → Reading
      → Result LedgerError (ToolExecution × Bool) × Store B
      → Result LedgerError ToolExecution × World B
  run_reserved world invoke plan started ended (err e, store) =
      (err e, record world { store = store })
  run_reserved world invoke plan started ended (ok (e, false), store) =
      (ok e, record world { store = store })
  run_reserved world invoke plan started ended (ok (e, true), store) =
      after_invocation plan invoke ended
        (mark_and_invoke (record world { store = store }) e started)

  unfoldable pub execute :
      World B
      → ToolExecution
      → (String → Answer)
      → Plan B
      → Reading
      → Reading
      → Result LedgerError ToolExecution × World B
  execute world reservation invoke plan started ended =
      run_reserved world invoke plan started ended (reserve_to_run world.store reservation)
