-- ===== src/Confirmations/Store.antt =====
-- The write of a chain (src/oria/storage/repositories.py: apply_confirmation_chain and the guarded
-- UPDATE of a business entity), and the operations of the service that end in it. The state is the
-- chain of one enrollment item. What an operation has loaded (`seen`) may be older than what it writes.
use oria.Base.{
  suc, String, Bool, true, false, not, ◌&&◌, ◌||◌, List, [], ◌∷◌, map, any, select, length, Result,
  ok, err, ◌>>=◌, ◌>>◌, raise_if, Reading, is, ◌==◌, if◌then◌else◌,
}
use oria.Confirmations.{
  EnrollmentItem, Task, Task-discrete, Item-discrete, ConfirmationError, same_text,
}
use oria.Confirmations.Service.{Chain, ConfirmationDecision, Policy, decision_of, timeout_of}

abbrev pub same_tasks : List Task → List Task → Bool
same_tasks [] [] = true
same_tasks (t ∷ ts) (u ∷ us) = is (Task-discrete t u) && same_tasks ts us
same_tasks _ _ = false

abbrev pub same_chain : Chain → Chain → Bool
same_chain a b = is (Item-discrete a.item b.item) && same_tasks a.tasks b.tasks

abbrev pub same_names : List Task → List Task → Bool
same_names [] [] = true
same_names (t ∷ ts) (u ∷ us) =
    same_text u.confirmation_task_id t.confirmation_task_id && same_names ts us
same_names _ _ = false

-- `WHERE tenant_id = … AND confirmation_task_id = … AND version = …`
abbrev pub at_version : Task → Task → Task → Bool
at_version existing updated row =
    same_text row.tenant_id updated.tenant_id
    && same_text row.confirmation_task_id updated.confirmation_task_id
    && row.version == existing.version

-- `_update` of a task
unfoldable pub update_task : Task → Task → List Task → Result ConfirmationError (List Task)
update_task existing updated rows = do
  raise_if (not (same_text existing.confirmation_task_id updated.confirmation_task_id))
      ConfirmationError.identity_immutable
  raise_if
      (not (existing.created_at == updated.created_at)
        || not (updated.version == suc existing.version))
      ConfirmationError.lock_conflict
  raise_if (not (length (select (at_version existing updated) rows) == 1))
      ConfirmationError.lock_conflict
  ok (map (λ row. if at_version existing updated row then updated else row) rows)

-- The loop over `zip(expected_tasks, updated_tasks, strict=True)`
unfoldable pub write_tasks :
    List Task → List Task → List Task → Result ConfirmationError (List Task)
write_tasks [] [] rows = ok rows
write_tasks (existing ∷ expected) (updated ∷ tasks) rows =
    elim (is (Task-discrete existing updated)) [
      | true ↦ write_tasks expected tasks rows
      | false ↦ update_task existing updated rows >>= λ next. write_tasks expected tasks next
    ]
write_tasks _ _ rows = err ConfirmationError.identity_immutable

-- `_update` of the item
unfoldable pub update_item :
    EnrollmentItem → EnrollmentItem → EnrollmentItem → Result ConfirmationError EnrollmentItem
update_item existing updated row = do
  raise_if (not (same_text existing.enrollment_item_id updated.enrollment_item_id))
      ConfirmationError.identity_immutable
  raise_if
      (not (existing.created_at == updated.created_at)
        || not (updated.version == suc existing.version))
      ConfirmationError.lock_conflict
  raise_if
      (not (
        same_text row.tenant_id updated.tenant_id
        && same_text row.enrollment_item_id updated.enrollment_item_id
        && row.version == existing.version))
      ConfirmationError.lock_conflict
  ok updated

unfoldable pub write_item :
    EnrollmentItem → EnrollmentItem → EnrollmentItem → Result ConfirmationError EnrollmentItem
write_item expected updated row = elim (is (Item-discrete expected updated)) [
  | true ↦ ok row
  | false ↦ update_item expected updated row
]

unfoldable pub apply_confirmation_chain :
    Chain → String → Chain → Chain → Result ConfirmationError Chain
apply_confirmation_chain store tenant_id expected updated = do
  raise_if (not (same_chain store expected)) ConfirmationError.chain_conflict
  raise_if
      (not (same_text updated.item.tenant_id tenant_id)
        || any (λ (task : Task). not (same_text task.tenant_id tenant_id)) updated.tasks)
      ConfirmationError.cross_tenant
  raise_if (not (same_names expected.tasks updated.tasks)) ConfirmationError.identity_immutable
  tasks ← write_tasks expected.tasks updated.tasks store.tasks
  item ← write_item expected.item updated.item store.item
  ok (record { item = item; tasks = tasks })

-- `_commit`: `reserved` says whether the reservation of the execution is new.
unfoldable pub commit_chain : Bool → Chain → String → Chain → Chain → Result ConfirmationError Chain
commit_chain reserved store tenant_id seen updated = do
  raise_if (not reserved) ConfirmationError.recorded
  apply_confirmation_chain store tenant_id seen updated

-- A write that raises leaves the chain.
abbrev pub kept_on_error :
    Chain → Result ConfirmationError Chain → Result ConfirmationError Chain × Chain
kept_on_error store (ok next) = (ok next, next)
kept_on_error store (err e) = (err e, store)

unfoldable pub decide :
    Policy
    → Bool
    → Chain
    → Chain
    → String
    → String
    → ConfirmationDecision
    → Reading
    → Result ConfirmationError Chain × Chain
decide policy reserved seen store tenant_id id decision reading =
    kept_on_error store
      (decision_of policy seen id decision reading >>= commit_chain reserved store tenant_id seen)

unfoldable pub resolve_timeout :
    Policy
    → Bool
    → Chain
    → Chain
    → String
    → String
    → Reading
    → Result ConfirmationError Chain × Chain
resolve_timeout policy reserved seen store tenant_id id reading =
    kept_on_error store
      (timeout_of policy seen id reading >>= commit_chain reserved store tenant_id seen)
