-- ===== src/Confirmations.antt =====
-- src/oria/domain/business.py: enrollment items and confirmation tasks, and src/oria/domain/confirmations.py.
-- Times are instants in microseconds; the patterns of identifiers are not modelled.
pub mod Policy
pub mod Service
pub mod Store
pub mod Chains
pub mod Answer
pub mod Advance
pub mod Changes
pub mod Transition
pub mod Progress
pub mod Writes
pub mod History
pub mod Generation
mod Tests
pub use oria.Base.{same_text}
use oria.Base.{
  ℕ, suc, String, Bool, true, false, Result, ok, err, ◌>>=◌, ◌>>◌, raise_if, ltb, is,
  String_discrete, ℕ_discrete,
}

pub data SubjectType : Type 0 where
  merchant sales sales_manager : SubjectType

pub data TimeoutAction : Type 0 where
  reject_item escalate explicit_auto_confirm : TimeoutAction

pub data TaskStatus : Type 0 where
  waiting pending confirmed rejected timed_out cancelled : TaskStatus

pub data ItemStatus : Type 0 where
  pending_confirmation item_confirmed item_rejected : ItemStatus

pub data EnrollmentMode : Type 0 where
  by_merchant by_auto hybrid : EnrollmentMode

-- `frozenset[EnrollmentSource]`
pub record Sources : Type 0 where
  pub of_merchant : Bool
  pub of_auto : Bool

pub record EnrollmentItem : Type 0 where
  pub tenant_id : String
  pub version : ℕ
  pub created_at : ℕ
  pub updated_at : ℕ
  pub enrollment_item_id : String
  pub enrollment_id : String
  pub campaign_id : String
  pub merchant_id : String
  pub product_ref : String
  pub product_version : String
  pub product_snapshot_id : String
  pub mode : EnrollmentMode
  pub sources : Sources
  pub status : ItemStatus

pub record Task : Type 0 where
  pub tenant_id : String
  pub version : ℕ
  pub created_at : ℕ
  pub updated_at : ℕ
  pub confirmation_task_id : String
  pub enrollment_item_id : String
  pub subject_type : SubjectType
  pub subject_id : String
  pub sequence : ℕ
  pub due_at : ℕ
  pub timeout_action : TimeoutAction
  pub status : TaskStatus

unfoldable pub Task-discrete : Discrete Task
Task-discrete = hlevel (String_discrete, ℕ_discrete)

unfoldable pub Item-discrete : Discrete EnrollmentItem
Item-discrete = hlevel (String_discrete, ℕ_discrete)

pub data ConfirmationError : Type 0 where
  naive_time time_backwards subject_missing action_mismatch only_pending : ConfirmationError
  auto_confirm_unauthorized item_resolved task_unavailable not_active task_resolved :
      ConfirmationError
  next_not_waiting not_authorized overdue not_due recorded : ConfirmationError
  chain_conflict cross_tenant identity_immutable lock_conflict : ConfirmationError

abbrev pub is_waiting : TaskStatus → Bool
is_waiting waiting = true
is_waiting _ = false

abbrev pub is_pending : TaskStatus → Bool
is_pending pending = true
is_pending _ = false

abbrev pub is_item_pending : ItemStatus → Bool
is_item_pending pending_confirmation = true
is_item_pending _ = false

abbrev pub with_task_status : Task → ℕ → TaskStatus → Task
with_task_status task now status = record task {
  version = suc task.version;
  updated_at = now;
  status = status;
}

abbrev pub with_item_status : EnrollmentItem → ℕ → ItemStatus → EnrollmentItem
with_item_status item now status = record item {
  version = suc item.version;
  updated_at = now;
  status = status;
}

-- `_next_version(updated_at=now, status=status)` of a task, and of an item.
abbrev pub next_task_version : Task → ℕ → TaskStatus → Result ConfirmationError Task
next_task_version task now status = do
  raise_if (ltb now task.updated_at) ConfirmationError.time_backwards
  ok (with_task_status task now status)

abbrev pub next_item_version :
    EnrollmentItem → ℕ → ItemStatus → Result ConfirmationError EnrollmentItem
next_item_version item now status = do
  raise_if (ltb now item.updated_at) ConfirmationError.time_backwards
  ok (with_item_status item now status)
