-- ===== src/Confirmations/Service.antt =====
-- src/oria/domain/confirmations.py: ConfirmationService, and the write of a chain
-- (src/oria/storage/repositories.py: apply_confirmation_chain). Policy is what it answers on an action
-- and a task: the policy version, if it allows. The reservation in the execution ledger is given by
-- whether it is new; event records are left out.
use oria.Base.{
  ℕ, suc, String, Bool, true, false, not, Option, none, some, List, [], ◌∷◌, map, find, select,
  Result, ok, err, ◌>>=◌, ◌>>◌, raise_if, or_raise, Reading, instant, ltb, leb, is, ◌+◌, ◌-◌,
  if◌then◌else◌,
}
use oria.Confirmations.{
  TaskStatus, pending, confirmed, rejected, timed_out, cancelled, item_confirmed, item_rejected,
  EnrollmentItem, Task, Task-discrete, ConfirmationError, same_text, is_waiting, is_pending,
  is_item_pending, next_task_version, next_item_version, TimeoutAction, reject_item, escalate,
  explicit_auto_confirm, SubjectType, merchant, sales, sales_manager,
}

-- An item with its tasks in the order of their sequence.
pub record Chain : Type 0 where
  pub item : EnrollmentItem
  pub tasks : List Task

pub data ConfirmationDecision : Type 0 where
  confirm reject : ConfirmationDecision

pub data Outcome : Type 0 where
  confirms rejects times_out : Outcome

abbrev pub status_of : Outcome → TaskStatus
status_of confirms = confirmed
status_of rejects = rejected
status_of times_out = timed_out

abbrev pub has_task_id : String → Task → Bool
has_task_id id task = same_text task.confirmation_task_id id

-- `len(pending) == 1 and requested == pending[0]`
abbrev pub is_only : Task → List Task → Bool
is_only requested (task ∷ []) = is (Task-discrete requested task)
is_only requested _ = false

unfoldable pub current_task : String → EnrollmentItem → List Task → Result ConfirmationError Task
current_task id item tasks = do
  raise_if (not (is_item_pending item.status)) ConfirmationError.item_resolved
  requested ← or_raise (find (has_task_id id) tasks) ConfirmationError.task_unavailable
  if is_only requested (select (λ (t : Task). is_pending t.status) tasks)
      then ok requested
      else (raise_if (is_waiting requested.status) ConfirmationError.not_active
          >> err ConfirmationError.task_resolved)

-- The cancellation loop; `changed` holds what has changed, the newest first.
unfoldable pub cancel_waiting : List Task → ℕ → List Task → Result ConfirmationError (List Task)
cancel_waiting [] now changed = ok changed
cancel_waiting (candidate ∷ later) now changed = elim (is_waiting candidate.status) [
  | true ↦ next_task_version candidate now cancelled >>= λ next.
      cancel_waiting later now (next ∷ changed)
  | false ↦ cancel_waiting later now changed
]

-- `min(later, key=lambda candidate: candidate.sequence)`
unfoldable pub earliest : List Task → Option Task
earliest [] = none
earliest (task ∷ tasks) = elim (earliest tasks) [
  | none ↦ some task
  | some other ↦ if ltb other.sequence task.sequence then some other else some task
]

-- `_next_version` of the next task, whose time to live starts anew.
abbrev pub activated : Task → ℕ → Task
activated task now = record task {
  version = suc task.version;
  updated_at = now;
  due_at = (now + task.due_at) - task.created_at;
  status = pending;
}

abbrev pub activate : Task → ℕ → Result ConfirmationError Task
activate task now = do
  raise_if (not (is_waiting task.status)) ConfirmationError.next_not_waiting
  raise_if (ltb now task.updated_at) ConfirmationError.time_backwards
  ok (activated task now)

-- `changed.get(candidate.confirmation_task_id, candidate)`
abbrev pub or_changed : List Task → Task → Task
or_changed changed candidate = elim (find (has_task_id candidate.confirmation_task_id) changed) [
  | none ↦ candidate
  | some task ↦ task
]

-- `outcome == "rejected" or (outcome == "timed_out" and not later)`
abbrev pub terminal_rejection : Outcome → List Task → Bool
terminal_rejection rejects later = true
terminal_rejection times_out [] = true
terminal_rejection _ later = false

-- The item and the changed tasks.
abbrev pub advanced :
    EnrollmentItem → Task → Option Task → ℕ → Result ConfirmationError (EnrollmentItem × List Task)
advanced item first none now = next_item_version item now item_confirmed >>= λ i. ok (i, first ∷ [])
advanced item first (some next) now = activate next now >>= λ n. ok (item, n ∷ first ∷ [])

abbrev pub changes :
    EnrollmentItem
    → Task
    → List Task
    → Outcome
    → ℕ
    → Result ConfirmationError (EnrollmentItem × List Task)
changes item first later outcome now =
    if terminal_rejection outcome later
    then (cancel_waiting later now (first ∷ []) >>= λ changed.
        next_item_version item now item_rejected >>= λ i. ok (i, changed))
    else advanced item first (earliest later) now

unfoldable pub transition :
    EnrollmentItem → List Task → Task → Outcome → ℕ → Result ConfirmationError Chain
transition item tasks task outcome now = do
  first ← next_task_version task now (status_of outcome)
  result ← changes item first (select (λ c. ltb task.sequence c.sequence) tasks) outcome now
  ok (record { item = result.0; tasks = map (or_changed result.1) tasks })

-- Action and task; `_authorize` answers with the policy version.
abbrev pub Policy : Type 0
Policy = String → Task → Option String

abbrev pub decide_action : SubjectType → String
decide_action merchant = "confirmation:merchant:decide"
decide_action sales = "confirmation:sales:decide"
decide_action sales_manager = "confirmation:sales_manager:decide"

abbrev pub timeout_policy_action : TimeoutAction → String
timeout_policy_action explicit_auto_confirm = "confirmation:timeout:auto_confirm"
timeout_policy_action _ = "confirmation:timeout:resolve"

abbrev pub decision_outcome : ConfirmationDecision → Outcome
decision_outcome confirm = confirms
decision_outcome reject = rejects

abbrev pub timeout_outcome : TimeoutAction → Outcome
timeout_outcome explicit_auto_confirm = confirms
timeout_outcome reject_item = rejects
timeout_outcome escalate = times_out

-- What a decision makes of the chain that it has loaded, up to the commit.
unfoldable pub decision_of :
    Policy → Chain → String → ConfirmationDecision → Reading → Result ConfirmationError Chain
decision_of policy seen id decision reading = do
  task ← current_task id seen.item seen.tasks
  version ←
      or_raise (policy (decide_action task.subject_type) task) ConfirmationError.not_authorized
  now ← instant reading ConfirmationError.naive_time
  raise_if (leb task.due_at now) ConfirmationError.overdue
  transition seen.item seen.tasks task (decision_outcome decision) now

unfoldable pub timeout_of : Policy → Chain → String → Reading → Result ConfirmationError Chain
timeout_of policy seen id reading = do
  task ← current_task id seen.item seen.tasks
  now ← instant reading ConfirmationError.naive_time
  raise_if (ltb now task.due_at) ConfirmationError.not_due
  version ←
      or_raise (policy (timeout_policy_action task.timeout_action) task)
        ConfirmationError.not_authorized
  transition seen.item seen.tasks task (timeout_outcome task.timeout_action) now
