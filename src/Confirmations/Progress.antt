-- ===== src/Confirmations/Progress.antt =====
-- An answer to the pending task of a chain always has a transition.
use oria.Base.{
  ℕ, ◌≤◌, ◌≡◌, refl, sym, ap, subst, inl, inr, true, false, some, List, [], ◌∷◌, All, Result, ok,
  ◌>>=◌, ltb, arith, Bool-cases, ◌∙◌, map,
}
use oria.Confirmations.{
  pending_confirmation, EnrollmentItem, ItemStatus, item_confirmed, item_rejected, Task, TaskStatus,
  ConfirmationError, is_waiting, is_pending, with_task_status, with_item_status, next_task_version,
  next_item_version,
}
use oria.Confirmations.Service.{
  Chain, Outcome, status_of, cancel_waiting, earliest, activate, activated, advanced, changes,
  terminal_rejection, transition, or_changed,
}
use oria.Confirmations.Chains.{all_waiting, IsAscending, IsChain, after_pending, cancel_task}
use oria.Confirmations.Answer.{answered}
use oria.Confirmations.Advance.{later_tasks, find-All, earliest_first}
use oria.Confirmations.Changes.{first_of}
use oria.Confirmations.Transition.{
  pending_task, pending_task-After, All-after_pending, transition_eq,
}

abbrev Returns : {A : Type 0} → Result ConfirmationError A → Type 0
Returns {A} m = (a : A) × (m ≡ ok a)

then_Returns :
    {A B : Type 0} (m : Result ConfirmationError A) (k : A → Result ConfirmationError B) {a : A}
    → m ≡ ok a
    → Returns (k a)
    → Returns (m >>= k)
then_Returns m k h (b, q) = (b, rw h q)

on_time : (now t : ℕ) → t ≤ now → ltb now t ≡ false
on_time now t h = ground arith

task_returns :
    (t : Task) (now : ℕ) (s : TaskStatus)
    → t.updated_at ≤ now
    → next_task_version t now s ≡ ok (with_task_status t now s)
task_returns t now s h = rw (on_time now t.updated_at h) refl

item_returns :
    (i : EnrollmentItem) (now : ℕ) (s : ItemStatus)
    → i.updated_at ≤ now
    → next_item_version i now s ≡ ok (with_item_status i now s)
item_returns i now s h = rw (on_time now i.updated_at h) refl

activate_returns :
    (t : Task) (now : ℕ)
    → is_waiting t.status ≡ true
    → t.updated_at ≤ now
    → activate t now ≡ ok (activated t now)
activate_returns t now w h = rw (w, on_time now t.updated_at h) refl

-- Every task was last written at or before the time.
abbrev pub AreBefore : ℕ → List Task → Type 0
AreBefore now ts = All (λ (t : Task). t.updated_at ≤ now) ts

cancel-Returns :
    (ts : List Task) (now : ℕ) (changed : List Task)
    → all_waiting ts ≡ true
    → AreBefore now ts
    → Returns (cancel_waiting ts now changed)
unfolding cancel_waiting
cancel-Returns [] now changed w h = (changed, refl)
cancel-Returns (t ∷ ts) now changed w h =
    let first : is_waiting t.status ≡ true = ground arith in
    let others : all_waiting ts ≡ true = ground arith in
    let (r, q) = cancel-Returns ts now (cancel_task now t ∷ changed) others h.1 in
    (r, rw (first, cancel_waiting, on_time now t.updated_at h.0) q)

advanced-Returns :
    (item : EnrollmentItem) (first : Task) (ts : List Task) (now : ℕ)
    → all_waiting ts ≡ true
    → IsAscending ts
    → AreBefore now ts
    → item.updated_at ≤ now
    → Returns (advanced item first (earliest ts) now)
unfolding earliest
advanced-Returns item first [] now w up h i =
    then_Returns (next_item_version item now item_confirmed) _
      (item_returns item now item_confirmed i)
      ((with_item_status item now item_confirmed, first ∷ []), refl)
advanced-Returns item first (u ∷ us) now w up h i =
    subst (λ e. Returns (advanced item first e now)) (sym (earliest_first u us up.0))
      (then_Returns (activate u now) _ (activate_returns u now (ground arith) h.0)
        ((item, activated u now ∷ first ∷ []), refl))

changes-Returns :
    (item : EnrollmentItem) (first : Task) (ts : List Task) (outcome : Outcome) (now : ℕ)
    → all_waiting ts ≡ true
    → IsAscending ts
    → AreBefore now ts
    → item.updated_at ≤ now
    → Returns (changes item first ts outcome now)
changes-Returns item first ts outcome now w up h i =
    elim (Bool-cases (terminal_rejection outcome ts)) [
      | inr goes ↦ rw goes (advanced-Returns item first ts now w up h i)
      | inl ends ↦
          let (r, q) = cancel-Returns ts now (first ∷ []) w h in
          rw (ends, q, on_time now item.updated_at i)
            ((with_item_status item now item_rejected, r), refl)
    ]

-- A transition of a chain whose item is open, on the answer to its pending task at a time that is not
-- before the last write of any of its rows, does not raise, and gives the chain that the answer makes of it.
pub transition_succeeds :
    (c : Chain) (task : Task) (outcome : Outcome) (now : ℕ)
    → IsChain c
    → c.item.status ≡ pending_confirmation
    → pending_task c.tasks ≡ some task
    → AreBefore now c.tasks
    → c.item.updated_at ≤ now
    → transition c.item c.tasks task outcome now ≡ ok (answered outcome now c)
unfolding transition
transition_succeeds c task outcome now chain p f h i =
    let after =
      pending_task-After c.tasks task (rw p at chain.fits) chain.ascending chain.distinct f in
    let early =
      find-All (λ (t : Task). t.updated_at ≤ now) (λ (t : Task). is_pending t.status) c.tasks task h
        f in
    let later =
      changes-Returns c.item (first_of task outcome now) (after_pending c.tasks) outcome now
        after.waits after.ascending (All-after_pending (λ (t : Task). t.updated_at ≤ now) c.tasks h)
        i in
    let (r, moved) =
      subst (λ ts. Returns (changes c.item (first_of task outcome now) ts outcome now))
        (sym (later_tasks c.tasks task f chain.ascending)) later in
    let done : transition c.item c.tasks task outcome now
        ≡ ok (record { item = r.0; tasks = map (or_changed r.1) c.tasks }) =
      rw (task_returns task now (status_of outcome) early, moved) refl in
    done ∙ ap ok (transition_eq c _ task outcome now chain p f done)
