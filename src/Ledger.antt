-- ===== src/Ledger.antt =====
-- src/oria/domain/ledger.py: the record of one external side effect, and its transitions.
-- Times are instants; a naive time is refused where the code checks it. Field patterns (non-empty
-- texts, hash formats) and the launch plan are not modelled.
pub mod Events
pub mod Repository
pub mod Outcome
pub mod Execution
pub mod Calls
pub mod Transition
pub mod Counting
pub mod Covered
pub mod Law
pub mod Steps
pub mod Answers
pub mod Advance
pub mod Runs
pub mod Completion
pub mod Invocations
mod Tests
use oria.Base.{
  ℕ, suc, String, Bool, true, false, not, ◌&&◌, ◌||◌, Option, none, some, Result, ok, err, ◌>>=◌,
  ◌>>◌, raise_if, Reading, instant, ltb, leb, ◌==◌, is_none, is_some, if◌then◌else◌,
}

pub data ExecutionStatus : Type 0 where
  reserved executing succeeded failed unknown : ExecutionStatus

pub record ToolExecution : Type 0 where
  pub execution_id : String
  pub tenant_id : String
  pub tool_name : String
  pub idempotency_key : String
  pub canonical_args_hash : String
  pub checkpoint_id : String
  pub status : ExecutionStatus
  pub receipt_id : Option String
  pub receipt_summary_hash : Option String
  pub compensation_status : Option String
  pub attempt_count : ℕ
  pub created_at : ℕ
  pub updated_at : ℕ
  pub executed_at : Option ℕ

-- The `ValueError`, `LookupError` and `LedgerRepositoryError` raises, by what they report.
pub data LedgerError : Type 0 where
  invalid_timestamps unexpected_outcome_data attempt_required receipt_required : LedgerError
  naive_time illegal_transition time_moved_backwards : LedgerError
  not_reserved not_executing identity_exists payload_conflict request_key_required : LedgerError
  request_conflict binding_unavailable execution_unavailable wrong_source_state : LedgerError
  changed_concurrently history_unreadable event_exists outbox_unavailable : LedgerError
  projection_of_success write_without_success projection_mismatch cross_tenant : LedgerError
  wrong_execution aggregate_required invocation_failed callback_failed : LedgerError

-- `_EXECUTION_TRANSITIONS`
abbrev pub may_become : ExecutionStatus → ExecutionStatus → Bool
may_become reserved executing = true
may_become executing succeeded = true
may_become executing failed = true
may_become executing unknown = true
may_become unknown succeeded = true
may_become unknown failed = true
may_become _ _ = false

abbrev pub is_reserved : ExecutionStatus → Bool
is_reserved reserved = true
is_reserved _ = false

abbrev pub is_executing : ExecutionStatus → Bool
is_executing executing = true
is_executing _ = false

abbrev pub is_succeeded : ExecutionStatus → Bool
is_succeeded succeeded = true
is_succeeded _ = false

abbrev pub is_unknown : ExecutionStatus → Bool
is_unknown unknown = true
is_unknown _ = false

abbrev pub is_failed : ExecutionStatus → Bool
is_failed failed = true
is_failed _ = false

abbrev pub same_status : ExecutionStatus → ExecutionStatus → Bool
same_status reserved s = is_reserved s
same_status executing s = is_executing s
same_status succeeded s = is_succeeded s
same_status failed s = is_failed s
same_status unknown s = is_unknown s

abbrev pub precedes : Option ℕ → ℕ → Bool
precedes none bound = false
precedes (some t) bound = ltb t bound

-- `executed_at`, `receipt_id` or `receipt_summary_hash` is set.
abbrev pub has_outcome_data : ToolExecution → Bool
has_outcome_data self =
    is_some self.executed_at || is_some self.receipt_id || is_some self.receipt_summary_hash

-- The checks of `validate_state` on the fields that a status requires.
abbrev pub validate_status : ToolExecution → ExecutionStatus → Result LedgerError (Unit {0})
validate_status self reserved =
    raise_if (not (self.attempt_count == 0) || has_outcome_data self) unexpected_outcome_data
validate_status self executing =
    raise_if (ltb self.attempt_count 1 || has_outcome_data self) attempt_required
validate_status self status = do
  raise_if (ltb self.attempt_count 1 || is_none self.executed_at) attempt_required
  raise_if (is_succeeded status && is_none self.receipt_id) receipt_required
  raise_if (is_some self.receipt_summary_hash && is_none self.receipt_id) receipt_required

unfoldable pub validate_state : ToolExecution → Result LedgerError ToolExecution
validate_state self = do
  raise_if (ltb self.updated_at self.created_at) invalid_timestamps
  raise_if (precedes self.executed_at self.created_at) invalid_timestamps
  validate_status self self.status
  ok self

-- The fields that `transition_to` writes, before they are validated.
abbrev pub moved :
    ToolExecution
    → ExecutionStatus
    → ℕ
    → Option String
    → Option String
    → Option String
    → ToolExecution
moved self target now receipt_id receipt_summary_hash compensation_status = record self {
  status = target;
  updated_at = now;
  receipt_id = receipt_id;
  receipt_summary_hash = receipt_summary_hash;
  compensation_status = compensation_status;
  attempt_count = if is_executing target then suc self.attempt_count else self.attempt_count;
  executed_at = if is_executing target then none else some now;
}

unfoldable pub transition_to :
    ToolExecution
    → ExecutionStatus
    → Reading
    → Option String
    → Option String
    → Option String
    → Result LedgerError ToolExecution
transition_to self target reading receipt_id receipt_summary_hash compensation_status = do
  now ← instant reading naive_time
  raise_if (not (may_become self.status target)) illegal_transition
  raise_if (ltb now self.updated_at) time_moved_backwards
  validate_state (moved self target now receipt_id receipt_summary_hash compensation_status)
