-- ===== src/Ledger/Answers.antt =====
-- The parts of `execute` and of the recovery around the invocation, for any lawful relation.
use oria.Base.{
  ℕ, inl, inr, Bool, true, false, Option, none, some, List, Result, ok, err, Reading, Bool-cases,
  Result-cases,
}
use oria.Ledger.{ToolExecution, LedgerError, is_reserved, is_executing}
use oria.Ledger.Repository.{Store, get_by_idempotency}
use oria.Ledger.Outcome.{recover_stale_executing, recover_outcome, recover_late, within, Projection}
use oria.Ledger.Execution.{
  Plan, Answer, returned, raised_unknown, raised, Receipt, ReceiptStatus, raise_again,
  reserve_to_run, reserved_for, record_answer, record_receipt,
}
use oria.Ledger.Events.{EventBundle}
use oria.Ledger.Law.{Relation, Law}
use oria.Ledger.Steps.{reserve_lawful, outcome_lawful}

module _ {B : Type 0} {R : Relation} (law : Law R) where
  outcome_recovered_lawful :
      (rows : List ToolExecution) (e : ToolExecution)
      (out : Result LedgerError ToolExecution × Store B)
      → R rows out.1.executions
      → R rows (recover_outcome e out).1.executions
  outcome_recovered_lawful rows e (ok _, s) h = h
  outcome_recovered_lawful rows e (err _, s) h = h

  late_lawful :
      (s : Store B) (e : ToolExecution) (early : Bool) (projection : Option (Projection B))
      (bundle : EventBundle) (later : Reading)
      → R s.executions (recover_late s e early projection bundle later).1.executions
  late_lawful s e true projection bundle later = law.stays s.executions
  late_lawful s e false projection bundle later =
      outcome_recovered_lawful s.executions e _ (outcome_lawful law s e _ _ _ later)

  pub recover_lawful :
      (s : Store B) (e : ToolExecution) (timeout : ℕ) (projection : Option (Projection B))
      (bundle : EventBundle) (now later : Reading)
      → R s.executions
          (recover_stale_executing s e timeout projection bundle now later).1.executions
  unfolding recover_stale_executing
  recover_lawful s e timeout projection bundle Reading.naive later =
      elim (Bool-cases (is_executing e.status)) [
        | inr other ↦ rw other (law.stays s.executions)
        | inl held ↦ rw held (law.stays s.executions)
      ]
  recover_lawful s e timeout projection bundle (Reading.aware now) later =
      elim (Bool-cases (is_executing e.status)) [
        | inr other ↦ rw other (law.stays s.executions)
        | inl held ↦ rw held (late_lawful s e (within timeout e now) projection bundle later)
      ]

  record_receipt_lawful :
      (s : Store B) (e : ToolExecution) (plan : Plan B) (receipt : Receipt) (status : ReceiptStatus)
      (now : Reading)
      → R s.executions (record_receipt s e plan receipt status now).1.executions
  unfolding record_receipt
  record_receipt_lawful s e plan receipt ReceiptStatus.accepted now =
      outcome_lawful law s e _ _ _ now
  record_receipt_lawful s e plan receipt ReceiptStatus.undetermined now =
      outcome_lawful law s e _ _ _ now
  record_receipt_lawful s e plan receipt ReceiptStatus.rejected now =
      outcome_lawful law s e _ _ _ now

  again_lawful :
      (rows : List ToolExecution) (out : Result LedgerError ToolExecution × Store B)
      → R rows out.1.executions
      → R rows (raise_again out).1.executions
  again_lawful rows (ok _, s) h = h
  again_lawful rows (err _, s) h = h

  pub record_answer_lawful :
      (s : Store B) (e : ToolExecution) (plan : Plan B) (answer : Answer) (now : Reading)
      → R s.executions (record_answer s e plan answer now).1.executions
  unfolding record_answer
  record_answer_lawful s e plan (returned receipt) now =
      record_receipt_lawful s e plan receipt receipt.status now
  record_answer_lawful s e plan (raised_unknown receipt_id) now = outcome_lawful law s e _ _ _ now
  record_answer_lawful s e plan raised now =
      again_lawful s.executions _ (outcome_lawful law s e _ _ _ now)

  reserved_for_lawful :
      (s : Store B) (e : ToolExecution) (history : Option ToolExecution)
      → R s.executions (reserved_for s e history).1.executions
  reserved_for_lawful s e none = reserve_lawful law s e
  reserved_for_lawful s e (some h) = law.stays s.executions

  pub reserved_lawful :
      (s : Store B) (e : ToolExecution) → R s.executions (reserve_to_run s e).1.executions
  unfolding reserve_to_run
  reserved_lawful s e = elim (Bool-cases (is_reserved e.status)) [
    | inr other ↦ rw other (law.stays s.executions)
    | inl fresh_one ↦
        elim (Result-cases
          (get_by_idempotency s.executions e.tenant_id e.tool_name e.idempotency_key)) [
            | inl (history, read) ↦ rw (fresh_one, read) (reserved_for_lawful s e history)
            | inr (y, read) ↦ rw (fresh_one, read) (law.stays s.executions)
          ]
  ]
