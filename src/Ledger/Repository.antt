-- ===== src/Ledger/Repository.antt =====
-- src/oria/storage/ledger.py: the table of tool executions and of the request keys bound to them.
-- The other tables of the business database are a type `B`, which a write of the caller changes.
use oria.Base.{
  String, Bool, true, false, not, ◌&&◌, ◌||◌, Option, none, some, List, ◌∷◌, length, map, select,
  find, any, Result, ok, err, ◌>>=◌, ◌>>◌, raise_if, or_raise, Reading, ◌==◌, is, is_none,
  String_discrete, if◌then◌else◌, commit,
}
use oria.Ledger.{
  ExecutionStatus, ToolExecution, LedgerError, is_unknown, same_status, validate_state,
  transition_to,
}
use oria.Ledger.Events.{EventTables}

pub record RequestBinding : Type 0 where
  pub tenant_id : String
  pub tool_name : String
  pub request_idempotency_key : String
  pub canonical_args_hash : String
  pub execution_id : String

pub record Store (B : Type 0) : Type 0 where
  pub executions : List ToolExecution
  pub requests : List RequestBinding
  pub events : EventTables
  pub business : B

abbrev pub has_key : String → String → String → ToolExecution → Bool
has_key tenant_id tool_name idempotency_key row =
    is (String_discrete row.tenant_id tenant_id)
    && is (String_discrete row.tool_name tool_name)
    && is (String_discrete row.idempotency_key idempotency_key)

abbrev pub has_id : String → String → ToolExecution → Bool
has_id tenant_id execution_id row =
    is (String_discrete row.tenant_id tenant_id)
    && is (String_discrete row.execution_id execution_id)

-- `_tool_from_row` validates the row that was read.
unfoldable pub read_row : Option ToolExecution → Result LedgerError (Option ToolExecution)
read_row none = ok none
read_row (some row) = validate_state row >>= λ valid. ok (some valid)

unfoldable pub find_by_idempotency :
    List ToolExecution → String → String → String → Result LedgerError (Option ToolExecution)
find_by_idempotency rows tenant_id tool_name idempotency_key =
    read_row (find (has_key tenant_id tool_name idempotency_key) rows)

unfoldable pub find_by_id :
    List ToolExecution → String → String → Result LedgerError (Option ToolExecution)
find_by_id rows tenant_id execution_id = read_row (find (has_id tenant_id execution_id) rows)

-- `get_by_idempotency` reports any failure of the read as one.
abbrev pub unreadable : {A : Type 0} → Result LedgerError A → Result LedgerError A
unreadable (ok a) = ok a
unreadable (err _) = err LedgerError.history_unreadable

unfoldable pub get_by_idempotency :
    List ToolExecution → String → String → String → Result LedgerError (Option ToolExecution)
get_by_idempotency rows tenant_id tool_name idempotency_key =
    unreadable (find_by_idempotency rows tenant_id tool_name idempotency_key)

-- The primary key `execution_id`, and the unique key of tenant, tool and idempotency key.
abbrev pub clashes : ToolExecution → ToolExecution → Bool
clashes execution row =
    is (String_discrete row.execution_id execution.execution_id)
    || has_key execution.tenant_id execution.tool_name execution.idempotency_key row

-- The columns that the UPDATE of `_transition` writes.
abbrev pub with_outcome : ToolExecution → ToolExecution → ToolExecution
with_outcome transitioned row = record row {
  status = transitioned.status;
  receipt_id = transitioned.receipt_id;
  receipt_summary_hash = transitioned.receipt_summary_hash;
  compensation_status = transitioned.compensation_status;
  attempt_count = transitioned.attempt_count;
  updated_at = transitioned.updated_at;
  executed_at = transitioned.executed_at;
}

-- `WHERE tenant_id = … AND execution_id = … AND status = …`
abbrev pub is_source : String → String → ExecutionStatus → ToolExecution → Bool
is_source tenant_id execution_id expected row =
    has_id tenant_id execution_id row && same_status expected row.status

abbrev pub written : (ToolExecution → Bool) → ToolExecution → ToolExecution → ToolExecution
written test transitioned row = if test row then with_outcome transitioned row else row

-- The UPDATE, which must write one row.
unfoldable pub update_rows :
    (ToolExecution → Bool)
    → ToolExecution
    → List ToolExecution
    → Result LedgerError (ToolExecution × List ToolExecution)
update_rows test transitioned rows = do
  raise_if (not (length (select test rows) == 1)) LedgerError.changed_concurrently
  ok (transitioned, map (written test transitioned) rows)

-- An unknown outcome keeps its receipt unless another is given.
abbrev pub kept : ExecutionStatus → Option String → Option String → Option String → Option String
kept expected receipt_id held given =
    if is_unknown expected && is_none receipt_id then held else given

-- What a transition records: receipt, its summary hash and the compensation status.
pub record Evidence : Type 0 where
  pub receipt_id : Option String
  pub receipt_summary_hash : Option String
  pub compensation_status : Option String

-- `_transition`, from the row that was found.
unfoldable pub transition_existing :
    List ToolExecution
    → ToolExecution
    → String
    → String
    → ExecutionStatus
    → ExecutionStatus
    → Reading
    → Evidence
    → Result LedgerError (ToolExecution × List ToolExecution)
transition_existing rows existing tenant_id execution_id target expected updated_at evidence = do
  raise_if (not (same_status expected existing.status)) LedgerError.wrong_source_state
  transitioned ←
      transition_to existing target updated_at
        (kept expected evidence.receipt_id existing.receipt_id evidence.receipt_id)
        (kept expected evidence.receipt_id existing.receipt_summary_hash
          evidence.receipt_summary_hash)
        evidence.compensation_status
  update_rows (is_source tenant_id execution_id existing.status) transitioned rows

unfoldable pub transition :
    List ToolExecution
    → String
    → String
    → ExecutionStatus
    → ExecutionStatus
    → Reading
    → Evidence
    → Result LedgerError (ToolExecution × List ToolExecution)
transition rows tenant_id execution_id target expected updated_at evidence = do
  found ← find_by_id rows tenant_id execution_id
  existing ← or_raise found LedgerError.execution_unavailable
  transition_existing rows existing tenant_id execution_id target expected updated_at evidence

abbrev pub has_request : String → String → String → RequestBinding → Bool
has_request tenant_id tool_name request_key row =
    is (String_discrete row.tenant_id tenant_id)
    && is (String_discrete row.tool_name tool_name)
    && is (String_discrete row.request_idempotency_key request_key)

abbrev pub binding_of : ToolExecution → String → ToolExecution → RequestBinding
binding_of execution request_key history = record {
  tenant_id = execution.tenant_id;
  tool_name = execution.tool_name;
  request_idempotency_key = request_key;
  canonical_args_hash = execution.canonical_args_hash;
  execution_id = history.execution_id;
}

module _ {B : Type 0} where
  -- `_reserve_with_status`: whether the row was created. An INSERT that violates a key returns the
  -- row that has the idempotency key.
  unfoldable pub reserve_with_status :
      Store B → ToolExecution → Result LedgerError (ToolExecution × Bool) × Store B
  reserve_with_status store execution =
      if any (clashes execution) store.executions
      then (
        do
          found ←
              get_by_idempotency store.executions execution.tenant_id execution.tool_name
                execution.idempotency_key
          existing ← or_raise found LedgerError.identity_exists
          ok (existing, false),
        store,
      )
      else (ok (execution, true), record store { executions = execution ∷ store.executions })

  -- A request key that is bound already: the execution that it is bound to.
  unfoldable pub bound_request :
      Store B → ToolExecution → RequestBinding → Result LedgerError (ToolExecution × Store B)
  bound_request store execution row = do
    raise_if (not (is (String_discrete row.canonical_args_hash execution.canonical_args_hash)))
        LedgerError.request_conflict
    found ← find_by_id store.executions execution.tenant_id row.execution_id
    history ← or_raise found LedgerError.binding_unavailable
    ok (history, store)

  unfoldable pub bind_request :
      Store B → ToolExecution → String → Result LedgerError (ToolExecution × Store B)
  bind_request store execution request_key = do
    found ←
        find_by_idempotency store.executions execution.tenant_id execution.tool_name
          execution.idempotency_key
    elim found [
      | none ↦ do
        raise_if (any (clashes execution) store.executions) LedgerError.identity_exists
        ok (
          execution,
          record store {
            executions = execution ∷ store.executions;
            requests = binding_of execution request_key execution ∷ store.requests;
          },
        )
      | some history ↦ do
        raise_if
            (not (is (String_discrete history.canonical_args_hash execution.canonical_args_hash)))
            LedgerError.payload_conflict
        ok (
          history,
          record store { requests = binding_of execution request_key history ∷ store.requests },
        )
    ]

  -- The body of the transaction of `reserve_for_request`.
  unfoldable pub request_body :
      Store B → ToolExecution → String → Result LedgerError (ToolExecution × Store B)
  request_body store execution request_key =
      elim (find (has_request execution.tenant_id execution.tool_name request_key) store.requests) [
        | some row ↦ bound_request store execution row
        | none ↦ bind_request store execution request_key
      ]

  unfoldable pub reserve_for_request :
      Store B → ToolExecution → String → Result LedgerError ToolExecution × Store B
  reserve_for_request store execution request_key = commit store (
      raise_if (is (String_discrete request_key "")) LedgerError.request_key_required
      >> request_body store execution request_key)

  -- A transition in a transaction of its own.
  unfoldable pub public_transition :
      Store B
      → String
      → String
      → ExecutionStatus
      → ExecutionStatus
      → Reading
      → Evidence
      → Result LedgerError ToolExecution × Store B
  public_transition store tenant_id execution_id target expected updated_at evidence =
      commit store do
        (transitioned, rows) ←
            transition store.executions tenant_id execution_id target expected updated_at evidence
        ok (transitioned, record store { executions = rows })
