-- ===== src/Ledger/Calls.antt =====
-- Any interleaving of processes on the execution ledger: whole calls of the ledger, and the
-- transactions of an `execute` that runs beside others.
use oria.Base.{ℕ, String, Option, List, [], ◌∷◌, Result, Reading}
use oria.Ledger.{ExecutionStatus, ToolExecution, LedgerError}
use oria.Ledger.Events.{EventBundle}
use oria.Ledger.Repository.{reserve_with_status, reserve_for_request}
use oria.Ledger.Outcome.{
  Projection, Request, commit_outcome, record_local_success, recover_stale_executing,
}
use oria.Ledger.Execution.{World, Plan, Answer, mark_and_invoke, execute}

-- `reserves`, `invokes` and `commits` are the transactions of one `execute`, in its order;
-- `commits` is also `record_success`, `record_failure`, `record_unknown` and `reconcile`.
pub data Call (B : Type 0) : Type 0 where
  reserves : ToolExecution → Call B
  requests : ToolExecution → String → Call B
  invokes : ToolExecution → Reading → Call B
  commits : ToolExecution → (outcome expected : ExecutionStatus) → Request B → Reading → Call B
  succeeds_locally :
      ToolExecution
      → String
      → Option String
      → (B → Result LedgerError B)
      → EventBundle
      → Reading
      → Reading
      → Call B
  recovers : ToolExecution → ℕ → Option (Projection B) → EventBundle → Reading → Reading → Call B
  executes : ToolExecution → (String → Answer) → Plan B → Reading → Reading → Call B

module _ {B : Type 0} where
  unfoldable pub call : World B → Call B → World B
  call w (reserves e) = record w { store = (reserve_with_status w.store e).1 }
  call w (requests e key) = record w { store = (reserve_for_request w.store e key).1 }
  call w (invokes e now) = (mark_and_invoke w e now).1
  call w (commits e outcome expected request now) = record w {
    store = (commit_outcome w.store e outcome expected request now).1;
  }
  call w (succeeds_locally e receipt summary write bundle started ended) = record w {
    store = (record_local_success w.store e receipt summary write bundle started ended).1;
  }
  call w (recovers e timeout projection bundle now later) = record w {
    store = (recover_stale_executing w.store e timeout projection bundle now later).1;
  }
  call w (executes e invoke plan started ended) = (execute w e invoke plan started ended).1

  unfoldable pub run : World B → List (Call B) → World B
  run w [] = w
  run w (c ∷ cs) = run (call w c) cs
