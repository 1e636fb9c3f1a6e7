-- ===== src/Ledger/Completion.antt =====
-- A new execution whose adapter accepts is carried through to success.
use oria.Base.{
  ℕ, suc, ◌≤◌, String, ◌≡◌, refl, subst, Bool, true, false, not, ◌||◌, Option, none, some, List, [],
  ◌∷◌, map, select, find, any, ok, Reading, arith, is, is-yes, String_discrete,
}
use oria.Ledger.{
  ExecutionStatus, reserved, executing, succeeded, ToolExecution, is_reserved, is_executing,
  same_status, validate_state, transition_to,
}
use oria.Ledger.Events.{EventTables, append_bundle}
use oria.Ledger.Repository.{
  Store, has_id, has_key, clashes, is_source, written, with_outcome, read_row, find_by_id,
  find_by_idempotency, get_by_idempotency, update_rows, transition_existing, transition,
  reserve_with_status, public_transition,
}
use oria.Ledger.Outcome.{
  apply_write, commit_outcome, outcome_body, validate_outcome, validate_tenant_bundle,
}
use oria.Ledger.Execution.{
  World, Plan, Answer, returned, Receipt, ReceiptStatus, execute, mark_executing, mark_and_invoke,
  reserve_to_run, record_answer, record_receipt, events_for, no_evidence, success_of,
}

-- No row has the identity.
abbrev unused : String → List ToolExecution → Bool
unused i rows = not (any (λ (row : ToolExecution). is (String_discrete row.execution_id i)) rows)

clash-unused :
    (e : ToolExecution) (rows : List ToolExecution)
    → any (clashes e) rows ≡ false
    → unused e.execution_id rows ≡ true
clash-unused e [] h = refl
clash-unused e (row ∷ rows) h = let rest = clash-unused e rows (ground arith) in ground arith

clash-find :
    (e : ToolExecution) (rows : List ToolExecution)
    → any (clashes e) rows ≡ false
    → find (has_key e.tenant_id e.tool_name e.idempotency_key) rows ≡ none
clash-find e [] h = refl
clash-find e (row ∷ rows) h = let rest = clash-find e rows (ground arith) in ground arith

unused-select :
    (t i : String) (s : ExecutionStatus) (rows : List ToolExecution)
    → unused i rows ≡ true
    → select (is_source t i s) rows ≡ []
unused-select t i s [] h = refl
unused-select t i s (row ∷ rows) h =
    let rest = unused-select t i s rows (ground arith) in ground arith

unused-map :
    (t i : String) (s : ExecutionStatus) (e : ToolExecution) (rows : List ToolExecution)
    → unused i rows ≡ true
    → map (written (is_source t i s) e) rows ≡ rows
unused-map t i s e [] h = refl
unused-map t i s e (row ∷ rows) h =
    let rest = unused-map t i s e rows (ground arith) in ground arith

same_refl : (s : ExecutionStatus) → same_status s s ≡ true
same_refl s = ground arith

own_id : (e : ToolExecution) → has_id e.tenant_id e.execution_id e ≡ true
own_id e =
    rw
      (
        is-yes (String_discrete e.tenant_id e.tenant_id) refl,
        is-yes (String_discrete e.execution_id e.execution_id) refl,
      )
      refl

own_source : (e : ToolExecution) → is_source e.tenant_id e.execution_id e.status e ≡ true
own_source e = let a = own_id e in let b = same_refl e.status in ground arith

-- The row at the head of the table is the one that its transition finds and writes.
transition_first :
    (e e' : ToolExecution) (rows : List ToolExecution) (target : ExecutionStatus) (now : Reading)
    (receipt summary : Option String)
    → validate_state e ≡ ok e
    → is_reserved e.status || is_executing e.status ≡ true
    → unused e.execution_id rows ≡ true
    → transition_to e target now receipt summary none ≡ ok e'
    → transition (e ∷ rows) e.tenant_id e.execution_id target e.status now (record {
      receipt_id = receipt;
      receipt_summary_hash = summary;
      compensation_status = none;
    })
      ≡ ok (e', with_outcome e' e ∷ rows)
unfolding transition transition_existing find_by_id read_row update_rows
transition_first e e' rows target now receipt summary v early u moves =
    let a = own_id e in
    let b = own_source e in
    let c = same_refl e.status in
    let d = unused-select e.tenant_id e.execution_id e.status rows u in
    let m = unused-map e.tenant_id e.execution_id e.status e' rows u in ground arith

-- The row after `mark_executing`, and after its success.
abbrev pub marked_at : ToolExecution → ℕ → ToolExecution
marked_at e t = record e {
  status = executing;
  updated_at = t;
  receipt_id = none;
  receipt_summary_hash = none;
  compensation_status = none;
  attempt_count = suc e.attempt_count;
  executed_at = none;
}

abbrev pub succeeded_at : ToolExecution → ℕ → Receipt → ToolExecution
succeeded_at e t2 receipt = record e {
  status = succeeded;
  updated_at = t2;
  receipt_id = some receipt.receipt_id;
  receipt_summary_hash = some receipt.summary_hash;
  compensation_status = none;
  attempt_count = suc e.attempt_count;
  executed_at = some t2;
}

marked_to :
    (e : ToolExecution) (t : ℕ)
    → validate_state e ≡ ok e
    → e.status ≡ reserved
    → e.updated_at ≤ t
    → transition_to e executing (Reading.aware t) none none none ≡ ok (marked_at e t)
unfolding transition_to validate_state
marked_to e t v s h = ground arith

marked_valid :
    (e : ToolExecution) (t : ℕ)
    → validate_state e ≡ ok e
    → e.status ≡ reserved
    → e.updated_at ≤ t
    → validate_state (marked_at e t) ≡ ok (marked_at e t)
unfolding validate_state
marked_valid e t v s h = ground arith

succeeded_to :
    (e : ToolExecution) (t1 t2 : ℕ) (receipt : Receipt)
    → validate_state e ≡ ok e
    → e.status ≡ reserved
    → e.updated_at ≤ t1
    → t1 ≤ t2
    → transition_to
        (marked_at e t1)
        succeeded
        (Reading.aware t2)
        (some receipt.receipt_id)
        (some receipt.summary_hash)
        none
      ≡ ok (succeeded_at e t2 receipt)
unfolding transition_to validate_state
succeeded_to e t1 t2 receipt v s h k = ground arith

module _ {B : Type 0} where
  reserve_new :
      (s : Store B) (e : ToolExecution)
      → e.status ≡ reserved
      → any (clashes e) s.executions ≡ false
      → reserve_to_run s e ≡ (ok (e, true), record s { executions = e ∷ s.executions })
  unfolding reserve_to_run get_by_idempotency find_by_idempotency read_row reserve_with_status
  reserve_new s e r free =
      let new : is_reserved e.status ≡ true = ground arith in
      rw (new, clash-find e s.executions free, free) refl

  mark_new :
      (s : Store B) (e : ToolExecution) (t : ℕ)
      → validate_state e ≡ ok e
      → e.status ≡ reserved
      → any (clashes e) s.executions ≡ false
      → e.updated_at ≤ t
      → mark_executing (record s { executions = e ∷ s.executions }) e (Reading.aware t)
        ≡ (ok (marked_at e t), record s { executions = marked_at e t ∷ s.executions })
  unfolding mark_executing public_transition
  mark_new s e t v r free h =
      let step =
        transition_first e (marked_at e t) s.executions executing (Reading.aware t) none none v
          (ground arith) (clash-unused e s.executions free) (marked_to e t v r h) in
      let from =
        subst
          (λ st.
            transition (e ∷ s.executions) e.tenant_id e.execution_id executing st (Reading.aware t)
              no_evidence
            ≡ ok (marked_at e t, marked_at e t ∷ s.executions))
          r step in
      rw from refl

  outcome_new :
      (s : Store B) (e : ToolExecution) (t1 t2 : ℕ) (plan : Plan B) (receipt : Receipt) (b : B)
      (events : EventTables)
      → validate_state e ≡ ok e
      → e.status ≡ reserved
      → any (clashes e) s.executions ≡ false
      → e.updated_at ≤ t1
      → t1 ≤ t2
      → apply_write s.business plan.business_write ≡ ok b
      → validate_tenant_bundle e (events_for succeeded plan) ≡ ok tt
      → append_bundle s.events (events_for succeeded plan) ≡ ok events
      → commit_outcome
          (record s { executions = marked_at e t1 ∷ s.executions })
          (marked_at e t1)
          succeeded
          executing
          (success_of plan receipt)
          (Reading.aware t2)
        ≡ (
          ok (succeeded_at e t2 receipt),
          record s {
            executions = succeeded_at e t2 receipt ∷ s.executions;
            events = events;
            business = b;
          },
        )
  unfolding commit_outcome outcome_body validate_outcome validate_tenant_bundle
  outcome_new s e t1 t2 plan receipt b events v r free h k wrote tenants appended =
      let step =
        transition_first (marked_at e t1) (succeeded_at e t2 receipt) s.executions succeeded
          (Reading.aware t2) (some receipt.receipt_id) (some receipt.summary_hash)
          (marked_valid e t1 v r h) refl (clash-unused e s.executions free)
          (succeeded_to e t1 t2 receipt v r h k) in
      rw (tenants, wrote, step, appended) refl

  -- `execute` carries a new execution through to success: if the reservation is valid and reserved,
  -- its identity and key are not in the table, the clock does not run backwards, the adapter accepts,
  -- the business write returns, and the events are of its tenant and new, then the call returns the
  -- succeeded row with the receipt; the table has that row, the write and the events are committed,
  -- and the adapter was invoked once.
  pub execute_succeeds :
      (w : World B) (e : ToolExecution) (invoke : String → Answer) (plan : Plan B)
      (receipt : Receipt) (t1 t2 : ℕ) (b : B) (events : EventTables)
      → validate_state e ≡ ok e
      → e.status ≡ reserved
      → any (clashes e) w.store.executions ≡ false
      → e.updated_at ≤ t1
      → t1 ≤ t2
      → invoke e.idempotency_key ≡ returned receipt
      → receipt.status ≡ ReceiptStatus.accepted
      → apply_write w.store.business plan.business_write ≡ ok b
      → validate_tenant_bundle e (events_for succeeded plan) ≡ ok tt
      → append_bundle w.store.events (events_for succeeded plan) ≡ ok events
      → execute w e invoke plan (Reading.aware t1) (Reading.aware t2) ≡ (
        ok (succeeded_at e t2 receipt),
        record {
          store = record w.store {
            executions = succeeded_at e t2 receipt ∷ w.store.executions;
            events = events;
            business = b;
          };
          invoked = marked_at e t1 ∷ w.invoked;
        },
      )
  unfolding execute mark_and_invoke record_answer record_receipt
  execute_succeeds w e invoke plan receipt t1 t2 b events v r free h k says accepts wrote tenants
        appended =
      rw
        (
          reserve_new w.store e r free,
          mark_new w.store e t1 v r free h,
          says,
          accepts,
          outcome_new w.store e t1 t2 plan receipt b events v r free h k wrote tenants appended,
        )
        refl
