-- ===== src/Confirmations/Policy.antt =====
-- src/oria/domain/confirmations.py: BusinessConfirmationPolicy. The hash that names a task is a
-- parameter of its sequence and subject type.
use oria.Base.{
  ℕ, suc, String, Bool, true, false, not, Option, none, some, List, [], ◌∷◌, Result, ok, err, ◌>>=◌,
  ◌>>◌, raise_if, Reading, instant, ltb, ◌==◌, if◌then◌else◌,
}
use oria.Confirmations.{
  SubjectType, TimeoutAction, reject_item, escalate, explicit_auto_confirm, TaskStatus, waiting,
  pending, confirmed, rejected, timed_out, EnrollmentItem, Task, ConfirmationError, is_pending,
  same_text, next_task_version,
}

abbrev pub new_task :
    (ℕ → SubjectType → String)
    → TimeoutAction
    → EnrollmentItem
    → SubjectType
    → String
    → ℕ
    → ℕ
    → ℕ
    → Task
new_task task_id timeout_action item subject_type subject_id sequence created_at due_at = record {
  tenant_id = item.tenant_id;
  version = 1;
  created_at = created_at;
  updated_at = created_at;
  confirmation_task_id = task_id sequence subject_type;
  enrollment_item_id = item.enrollment_item_id;
  subject_type = subject_type;
  subject_id = subject_id;
  sequence = sequence;
  due_at = due_at;
  timeout_action = timeout_action;
  status = if sequence == 1 then pending else waiting;
}

-- `if not subject_id: raise`
abbrev pub named_subject : Option String → Result ConfirmationError String
named_subject none = err ConfirmationError.subject_missing
named_subject (some id) = raise_if (same_text id "") ConfirmationError.subject_missing >> ok id

-- The loop, from a sequence number on. A task whose due time precedes its creation is not valid.
unfoldable pub generate_from :
    (ℕ → SubjectType → String)
    → TimeoutAction
    → EnrollmentItem
    → (SubjectType → Option String)
    → ℕ
    → ℕ
    → ℕ
    → List SubjectType
    → Result ConfirmationError (List Task)
generate_from task_id timeout_action item subject_ids created_at due_at sequence [] = ok []
generate_from task_id timeout_action item subject_ids created_at due_at sequence (step ∷ steps) = do
  subject_id ← named_subject (subject_ids step)
  raise_if (ltb due_at created_at) ConfirmationError.time_backwards
  rest ←
      generate_from task_id timeout_action item subject_ids created_at due_at (suc sequence) steps
  ok (new_task task_id timeout_action item step subject_id sequence created_at due_at ∷ rest)

unfoldable pub generate_tasks :
    (ℕ → SubjectType → String)
    → TimeoutAction
    → EnrollmentItem
    → (SubjectType → Option String)
    → Reading
    → Reading
    → List SubjectType
    → Result ConfirmationError (List Task)
generate_tasks task_id timeout_action item subject_ids created due ordered_steps = do
  created_at ← instant created ConfirmationError.naive_time
  due_at ← instant due ConfirmationError.naive_time
  generate_from task_id timeout_action item subject_ids created_at due_at 1 ordered_steps

unfoldable pub same_action : TimeoutAction → TimeoutAction → Bool
same_action reject_item reject_item = true
same_action escalate escalate = true
same_action explicit_auto_confirm explicit_auto_confirm = true
same_action _ _ = false

-- The status that a timeout gives, for the action of the policy.
abbrev pub timeout_status : TimeoutAction → Bool → Result ConfirmationError TaskStatus
timeout_status explicit_auto_confirm authorized =
    raise_if (not authorized) ConfirmationError.auto_confirm_unauthorized >> ok confirmed
timeout_status reject_item authorized = ok rejected
timeout_status escalate authorized = ok timed_out

-- `BusinessConfirmationPolicy.resolve_timeout`
unfoldable pub time_out : TimeoutAction → Task → Reading → Bool → Result ConfirmationError Task
time_out timeout_action task updated_at authorized = do
  raise_if (not (same_action task.timeout_action timeout_action)) ConfirmationError.action_mismatch
  raise_if (not (is_pending task.status)) ConfirmationError.only_pending
  now ← instant updated_at ConfirmationError.naive_time
  raise_if (ltb now task.updated_at) ConfirmationError.time_backwards
  status ← timeout_status timeout_action authorized
  next_task_version task now status
