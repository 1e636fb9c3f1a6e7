-- ===== src/Confirmations/Answer.antt =====
-- What an answer to the pending task makes of a chain, with every changed column written out, and that
-- it is the step of the chain.
use oria.Base.{
  ℕ, suc, ◌+◌, ◌-◌, ◌≡◌, refl, ap, inl, inr, List, [], ◌∷◌, map, Bool-cases, if◌then◌else◌, ◌∙◌,
}
use oria.Confirmations.{
  pending, confirmed, rejected, timed_out, cancelled, ItemStatus, item_confirmed, item_rejected,
  EnrollmentItem, Task, is_pending, with_task_status,
}
use oria.Confirmations.Service.{Chain, Outcome, confirms, rejects, times_out, status_of}
use oria.Confirmations.Chains.{after_pending, later_step, step_tasks, step_item, step}

-- The answered task.
abbrev answered_task : Outcome → ℕ → Task → Task
answered_task confirms now t = record t {
  version = suc t.version;
  updated_at = now;
  status = confirmed;
}
answered_task rejects now t = record t {
  version = suc t.version;
  updated_at = now;
  status = rejected;
}
answered_task times_out now t = record t {
  version = suc t.version;
  updated_at = now;
  status = timed_out;
}

-- A task whose turn has come: it is due as long after the answer as it was due after its creation.
abbrev renewed : ℕ → Task → Task
renewed now t = record t {
  version = suc t.version;
  updated_at = now;
  due_at = (now + t.due_at) - t.created_at;
  status = pending;
}

abbrev skipped : ℕ → Task → Task
skipped now t = record t { version = suc t.version; updated_at = now; status = cancelled }

-- The tasks after the answered one: a rejection cancels all of them, and any other answer gives the
-- turn to the first.
abbrev later_answered : Outcome → ℕ → List Task → List Task
later_answered rejects now ts = map (skipped now) ts
later_answered confirms now [] = []
later_answered confirms now (t ∷ ts) = renewed now t ∷ ts
later_answered times_out now [] = []
later_answered times_out now (t ∷ ts) = renewed now t ∷ ts

abbrev tasks_answered : Outcome → ℕ → List Task → List Task
tasks_answered outcome now [] = []
tasks_answered outcome now (t ∷ ts) =
    let rest = tasks_answered outcome now ts in
    if is_pending t.status
    then answered_task outcome now t ∷ later_answered outcome now ts
    else t ∷ rest

abbrev settled : ℕ → ItemStatus → EnrollmentItem → EnrollmentItem
settled now status item = record item {
  version = suc item.version;
  updated_at = now;
  status = status;
}

-- The item, given the tasks after the answered one: a rejection rejects it, a confirmation of the last
-- task confirms it, a timeout of the last task rejects it, and any other answer leaves it.
abbrev item_answered : Outcome → ℕ → EnrollmentItem → List Task → EnrollmentItem
item_answered rejects now item ts = settled now item_rejected item
item_answered confirms now item [] = settled now item_confirmed item
item_answered times_out now item [] = settled now item_rejected item
item_answered confirms now item (t ∷ ts) = item
item_answered times_out now item (t ∷ ts) = item

abbrev pub answered : Outcome → ℕ → Chain → Chain
answered outcome now c = record {
  item = item_answered outcome now c.item (after_pending c.tasks);
  tasks = tasks_answered outcome now c.tasks;
}

later_eq :
    (outcome : Outcome) (now : ℕ) (ts : List Task)
    → later_step outcome now ts ≡ later_answered outcome now ts
later_eq rejects now ts = refl
later_eq confirms now [] = refl
later_eq confirms now (t ∷ ts) = refl
later_eq times_out now [] = refl
later_eq times_out now (t ∷ ts) = refl

item_eq :
    (outcome : Outcome) (now : ℕ) (item : EnrollmentItem) (ts : List Task)
    → step_item outcome now item ts ≡ item_answered outcome now item ts
item_eq rejects now item ts = refl
item_eq confirms now item [] = refl
item_eq confirms now item (t ∷ ts) = refl
item_eq times_out now item [] = refl
item_eq times_out now item (t ∷ ts) = refl

own_eq :
    (outcome : Outcome) (now : ℕ) (t : Task)
    → with_task_status t now (status_of outcome) ≡ answered_task outcome now t
own_eq confirms now t = refl
own_eq rejects now t = refl
own_eq times_out now t = refl

tasks_eq :
    (outcome : Outcome) (now : ℕ) (ts : List Task)
    → step_tasks outcome now ts ≡ tasks_answered outcome now ts
tasks_eq outcome now [] = refl
tasks_eq outcome now (t ∷ ts) = elim (Bool-cases (is_pending t.status)) [
  | inl here ↦ rw here (
      ap (λ x. x ∷ later_step outcome now ts) (own_eq outcome now t)
      ∙ ap (λ xs. answered_task outcome now t ∷ xs) (later_eq outcome now ts))
  | inr past ↦ rw past (ap (λ xs. t ∷ xs) (tasks_eq outcome now ts))
]

pub step_eq :
    (outcome : Outcome) (now : ℕ) (c : Chain) → step outcome now c ≡ answered outcome now c
step_eq outcome now c = λ i. record {
  item = item_eq outcome now c.item (after_pending c.tasks) i;
  tasks = tasks_eq outcome now c.tasks i;
}
