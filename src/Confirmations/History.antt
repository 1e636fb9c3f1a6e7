-- ===== src/Confirmations/History.antt =====
-- Any interleaving of decisions and timeouts on one chain, each from a chain that it has loaded
-- before, which may be older than the stored one, or any other.
use oria.Base.{
  ℕ, suc, ◌+◌, length, ◌≤◌, ◌<◌, String, ◌≡◌, refl, sym, ap, subst, inl, inr, Bool, false, some,
  List, [], ◌∷◌, Result, ok, err, ◌>>=◌, raise_if, or_raise, not, Reading, instant, leb, ltb,
  >>=-eq-ok, Result-cases, arith, ◌∙◌, if◌then◌else◌,
}
use oria.Confirmations.{
  EnrollmentItem, ItemStatus, pending_confirmation, Task, ConfirmationError, is_item_pending,
  is_pending, with_task_status,
}
use oria.Confirmations.Service.{
  Chain, ConfirmationDecision, Outcome, decision_outcome, timeout_outcome, Policy, current_task,
  transition, decision_of, timeout_of, decide_action, timeout_policy_action, status_of,
}
use oria.Confirmations.Store.{commit_chain, kept_on_error, decide, resolve_timeout}
use oria.Confirmations.Chains.{
  IsChain, step, step-IsChain, shape, step_tasks, step_item, after_pending, open-cases, later_step,
}
use oria.Confirmations.Transition.{current_task-ok, transition-step}
use oria.Confirmations.Writes.{apply_chain-ok}

-- `policy`, whether the reservation is new, the chain that was loaded, tenant, task and time.
pub data Call : Type 0 where
  decides : Policy → Bool → Chain → String → String → ConfirmationDecision → Reading → Call
  times_out : Policy → Bool → Chain → String → String → Reading → Call

unfoldable pub call : Chain → Call → Result ConfirmationError Chain × Chain
call store (decides policy reserved seen tenant_id id decision reading) =
    decide policy reserved seen store tenant_id id decision reading
call store (times_out policy reserved seen tenant_id id reading) =
    resolve_timeout policy reserved seen store tenant_id id reading

unfoldable pub run : Chain → List Call → Chain
run store [] = store
run store (c ∷ cs) = run (call store c).1 cs

abbrev succeeded : Result ConfirmationError Chain → ℕ
succeeded (ok _) = 1
succeeded (err _) = 0

-- The number of calls that return.
unfoldable pub successes : Chain → List Call → ℕ
successes store [] = 0
successes store (c ∷ cs) = succeeded (call store c).0 + successes (call store c).1 cs

-- A call raises and leaves the chain, or answers the pending task of an open one.
pub data Answer (store : Chain) (out : Result ConfirmationError Chain × Chain) : Type 0 where
  raises : (x : ConfirmationError) → out ≡ (err x, store) → Answer store out
  answers :
      (outcome : Outcome) (now : ℕ)
      → store.item.status ≡ pending_confirmation
      → out ≡ (ok (step outcome now store), step outcome now store)
      → Answer store out

-- The updated chain that an operation has computed from the one that it loaded.
pub record Answered (seen updated : Chain) : Type 0 where
  pub outcome : Outcome
  pub now : ℕ
  pub id : String
  pub task : Task
  pub current : current_task id seen.item seen.tasks ≡ ok task
  pub moved : transition seen.item seen.tasks task outcome now ≡ ok updated

decision_of-Answered :
    (policy : Policy) (seen : Chain) (id : String) (d : ConfirmationDecision) (reading : Reading)
    (updated : Chain)
    → decision_of policy seen id d reading ≡ ok updated
    → Answered seen updated
unfolding decision_of
decision_of-Answered policy seen id d reading updated h =
    let (task, current, h1) = >>=-eq-ok (current_task id seen.item seen.tasks) _ h in
    let (_, _, h2) =
      >>=-eq-ok
        (or_raise (policy (decide_action task.subject_type) task) ConfirmationError.not_authorized)
        _ h1 in
    let (now, _, h3) = >>=-eq-ok (instant reading ConfirmationError.naive_time) _ h2 in
    let (_, _, h4) = >>=-eq-ok (raise_if (leb task.due_at now) ConfirmationError.overdue) _ h3 in
    record {
      outcome = decision_outcome d;
      now = now;
      id = id;
      task = task;
      current = current;
      moved = h4;
    }

timeout_of-Answered :
    (policy : Policy) (seen : Chain) (id : String) (reading : Reading) (updated : Chain)
    → timeout_of policy seen id reading ≡ ok updated
    → Answered seen updated
unfolding timeout_of
timeout_of-Answered policy seen id reading updated h =
    let (task, current, h1) = >>=-eq-ok (current_task id seen.item seen.tasks) _ h in
    let (now, _, h2) = >>=-eq-ok (instant reading ConfirmationError.naive_time) _ h1 in
    let (_, _, h3) = >>=-eq-ok (raise_if (ltb now task.due_at) ConfirmationError.not_due) _ h2 in
    let (_, _, h4) =
      >>=-eq-ok
        (or_raise (policy (timeout_policy_action task.timeout_action) task)
          ConfirmationError.not_authorized)
        _ h3 in
    record {
      outcome = timeout_outcome task.timeout_action;
      now = now;
      id = id;
      task = task;
      current = current;
      moved = h4;
    }

-- The commit of such a chain.
commit-Answer :
    (store seen : Chain) (tenant_id : String) (reserved : Bool) (m : Result ConfirmationError Chain)
    → IsChain store
    → ((updated : Chain) → m ≡ ok updated → Answered seen updated)
    → Answer store (kept_on_error store (m >>= commit_chain reserved store tenant_id seen))
unfolding commit_chain
commit-Answer store seen tenant_id reserved m chain made =
    elim (Result-cases (m >>= commit_chain reserved store tenant_id seen)) [
      | inr (x, failed) ↦ rw failed (raises x refl)
      | inl (next, committed) ↦
          let (updated, computed, h1) = >>=-eq-ok m _ committed in
          let (_, _, h2) = >>=-eq-ok (raise_if (not reserved) ConfirmationError.recorded) _ h1 in
          let (same, stored) = apply_chain-ok store seen updated next tenant_id chain.distinct h2 in
          let a = made updated computed in
          let (open_item, waits, _) = current_task-ok a.id seen.item seen.tasks a.task a.current in
          let q =
            transition-step seen updated a.task a.outcome a.now (subst IsChain same chain) open_item
              waits a.moved in
          let q1 : next ≡ step a.outcome a.now store =
            stored ∙ q ∙ ap (step a.outcome a.now) (sym same) in
          rw committed (
            answers a.outcome a.now
              (subst (λ c. c.item.status ≡ pending_confirmation) (sym same) open_item)
              (ap (λ x. (ok x, x)) q1))
    ]

pub call-Answer : (store : Chain) (c : Call) → IsChain store → Answer store (call store c)
unfolding call decide resolve_timeout
call-Answer store (decides policy reserved seen tenant_id id d reading) chain =
    commit-Answer store seen tenant_id reserved (decision_of policy seen id d reading) chain
      (decision_of-Answered policy seen id d reading)
call-Answer store (times_out policy reserved seen tenant_id id reading) chain =
    commit-Answer store seen tenant_id reserved (timeout_of policy seen id reading) chain
      (timeout_of-Answered policy seen id reading)

Answer-IsChain :
    (store : Chain) (out : Result ConfirmationError Chain × Chain)
    → IsChain store
    → Answer store out
    → IsChain out.1
Answer-IsChain store out chain (raises x q) = rw q chain
Answer-IsChain store out chain (answers outcome now open_item q) =
    rw q (step-IsChain outcome now store open_item chain)

-- In any history of decisions and timeouts a chain stays a chain: while its item is open exactly one
-- task is pending, with only passed tasks before it and only waiting ones after it; a confirmed item
-- has a confirmed last task; a rejected one has a rejected task that only cancelled ones follow, or a
-- last task that timed out.
pub run-IsChain : (store : Chain) (cs : List Call) → IsChain store → IsChain (run store cs)
unfolding run
run-IsChain store [] chain = chain
run-IsChain store (c ∷ cs) chain =
    run-IsChain (call store c).1 cs
      (Answer-IsChain store (call store c) chain (call-Answer store c chain))

resolved_unchanged :
    (store : Chain) (out : Result ConfirmationError Chain × Chain)
    → is_item_pending store.item.status ≡ false
    → Answer store out
    → out.1 ≡ store
resolved_unchanged store out h (raises x q) =
    ap (λ (o : Result ConfirmationError Chain × Chain). o.1) q
resolved_unchanged store out h (answers outcome now open_item q) =
    let bad = rw open_item at h in absurd (ground arith)

-- Once the item of a chain is confirmed or rejected, no history of decisions and timeouts changes the
-- chain.
pub run_resolved :
    (store : Chain) (cs : List Call)
    → IsChain store
    → is_item_pending store.item.status ≡ false
    → run store cs ≡ store
unfolding run
run_resolved store [] chain h = refl
run_resolved store (c ∷ cs) chain h =
    ap (λ x. run x cs) (resolved_unchanged store (call store c) h (call-Answer store c chain))
    ∙ run_resolved store cs chain h

-- The tasks that are still to be answered.
abbrev pub open_tasks : List Task → ℕ
open_tasks [] = 0
open_tasks (t ∷ ts) = if is_pending t.status then suc (length ts) else open_tasks ts

abbrev pub remaining : Chain → ℕ
remaining c = if is_item_pending c.item.status then open_tasks c.tasks else 0

abbrev left_over : Outcome → ℕ → EnrollmentItem → List Task → List Task → ℕ
left_over outcome now item ts us =
    if is_item_pending (step_item outcome now item ts).status then open_tasks us else 0

left_over_first :
    (outcome : Outcome) (now : ℕ) (item : EnrollmentItem) (t : Task) (ts : List Task)
    → left_over outcome now item ts
        (with_task_status t now (status_of outcome) ∷ later_step outcome now ts)
      ≤ length ts
left_over_first Outcome.rejects now item t ts = omega arith
left_over_first Outcome.times_out now item t [] = omega arith
left_over_first Outcome.confirms now item t [] = omega arith
left_over_first Outcome.times_out now item t (u ∷ us) = ground arith
left_over_first Outcome.confirms now item t (u ∷ us) = ground arith

left_over_less :
    (outcome : Outcome) (now : ℕ) (item : EnrollmentItem) (ts : List Task)
    → shape ts ≡ some pending_confirmation
    → left_over outcome now item (after_pending ts) (step_tasks outcome now ts) < open_tasks ts
left_over_less outcome now item [] h = cc
left_over_less outcome now item (t ∷ ts) h = elim (open-cases t.status ts h) [
  | inl (here, _) ↦ rw here (omega (arith, left_over_first outcome now item t ts))
  | inr past ↦
      rw past.not_pending (rw past.not_pending (left_over_less outcome now item ts past.open_later))
]

open_left :
    (s : ItemStatus) (n : ℕ) → s ≡ pending_confirmation → (if is_item_pending s then n else 0) ≡ n
open_left s n h = rw h refl

remaining-step :
    (outcome : Outcome) (now : ℕ) (store : Chain)
    → store.item.status ≡ pending_confirmation
    → IsChain store
    → remaining (step outcome now store) < remaining store
remaining-step outcome now store p chain =
    let less = left_over_less outcome now store.item store.tasks (rw p at chain.fits) in
    omega (arith, less, open_left store.item.status (open_tasks store.tasks) p)

Answer-remaining :
    (store : Chain) (out : Result ConfirmationError Chain × Chain)
    → IsChain store
    → Answer store out
    → succeeded out.0 + remaining out.1 ≤ remaining store
Answer-remaining store out chain (raises x q) = rw q (omega arith)
Answer-remaining store out chain (answers outcome now open_item q) =
    let less = remaining-step outcome now store open_item chain in rw q (omega (arith, less))

-- At most as many decisions and timeouts return as the open chain has tasks from the pending one on,
-- and none after its item is confirmed or rejected, whatever calls are made.
pub successes_bounded :
    (store : Chain) (cs : List Call) → IsChain store → successes store cs ≤ remaining store
unfolding successes
successes_bounded store [] chain = omega arith
successes_bounded store (c ∷ cs) chain =
    let answer = call-Answer store c chain in
    let rest =
      successes_bounded (call store c).1 cs (Answer-IsChain store (call store c) chain answer) in
    let first = Answer-remaining store (call store c) chain answer in omega (arith, rest, first)
