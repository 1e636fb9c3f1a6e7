-- ===== src/Confirmations/Tests.antt =====
-- Confirmation chains at concrete values: the theorems' witnesses, and runs of the operations.
use oria.Base.{
  ℕ, ◌≤◌, String, ◌≡◌, refl, true, false, Option, some, List, [], ◌∷◌, ok, Reading, arith,
  String_discrete, ℕ_discrete, ◌==◌, if◌then◌else◌,
}
use oria.Confirmations.{
  SubjectType, merchant, sales, escalate, pending, confirmed, pending_confirmation, item_confirmed,
  by_merchant, EnrollmentItem, Task, Task-discrete, Item-discrete,
}
use oria.Confirmations.Policy.{generate_tasks, generate_from, new_task}
use oria.Confirmations.Service.{
  Chain, confirm, confirms, Policy, current_task, cancel_waiting, earliest, transition, decision_of,
  timeout_of,
}
use oria.Confirmations.Store.{
  update_task, write_tasks, update_item, write_item, apply_confirmation_chain, commit_chain, decide,
  resolve_timeout,
}
use oria.Confirmations.Chains.{IsChain}
use oria.Confirmations.Answer.{answered}
use oria.Confirmations.Transition.{transition_eq}
use oria.Confirmations.History.{
  Call, decides, times_out, run, successes, remaining, run-IsChain, run_resolved, successes_bounded,
}
use oria.Confirmations.Progress.{transition_succeeds}
use oria.Confirmations.Generation.{NamesApart, generate_tasks-IsChain}

abbrev item : EnrollmentItem
item = record {
  tenant_id = "tenant";
  version = 1;
  created_at = 10;
  updated_at = 10;
  enrollment_item_id = "item";
  enrollment_id = "enrollment";
  campaign_id = "campaign";
  merchant_id = "merchant";
  product_ref = "product";
  product_version = "1";
  product_snapshot_id = "snapshot";
  mode = by_merchant;
  sources = record { of_merchant = true; of_auto = false };
  status = pending_confirmation;
}

abbrev name : ℕ → SubjectType → String
name n s = if n == 1 then "first" else "second"

abbrev task_one : Task
task_one = new_task name escalate item merchant "owner" 1 10 50

abbrev task_two : Task
task_two = new_task name escalate item sales "seller" 2 10 50

abbrev chain : Chain
chain = record { item = item; tasks = task_one ∷ task_two ∷ [] }

abbrev allowing : Policy
allowing _ _ = some "p1"

-- The merchant confirms in time; the second task is then pending, for forty units from the answer on.
abbrev answered_chain : Chain
answered_chain = record {
  item = item;
  tasks =
      record task_one { version = 2; updated_at = 20; status = confirmed }
      ∷ record task_two { version = 2; updated_at = 20; due_at = 60; status = pending }
      ∷ [];
}

abbrev closed : Chain
closed = record {
  item = record item { version = 2; updated_at = 30; status = item_confirmed };
  tasks =
      record task_one { version = 2; updated_at = 20; status = confirmed }
      ∷ record task_two { version = 3; updated_at = 30; due_at = 60; status = confirmed }
      ∷ [];
}

-- The second call is made from the chain before the first.
abbrev calls : List Call
calls =
    decides allowing true chain "tenant" "first" confirm (Reading.aware 20)
    ∷ decides allowing true chain "tenant" "first" confirm (Reading.aware 21)
    ∷ times_out allowing true answered_chain "tenant" "second" (Reading.aware 70)
    ∷ []

-- What an operation computes through.
everything : Unit {0}
unfolding String_discrete ℕ_discrete Task-discrete Item-discrete current_task cancel_waiting
    earliest transition decision_of timeout_of update_task write_tasks update_item write_item
    apply_confirmation_chain commit_chain decide resolve_timeout generate_tasks generate_from
everything = tt

decide_runs :
    decide allowing true chain chain "tenant" "first" confirm (Reading.aware 20)
    ≡ (ok answered_chain, answered_chain)
unfolding everything
decide_runs = refl

second_runs :
    decide allowing true answered_chain answered_chain "tenant" "second" confirm (Reading.aware 30)
    ≡ (ok closed, closed)
unfolding everything
second_runs = refl

chain-IsChain : IsChain chain
unfolding everything
chain-IsChain = record {
  fits = refl;
  ascending = ((omega arith, tt), (tt, tt));
  distinct = ((refl, tt), (tt, tt));
}

closed-IsChain : IsChain closed
unfolding everything
closed-IsChain = record {
  fits = refl;
  ascending = ((omega arith, tt), (tt, tt));
  distinct = ((refl, tt), (tt, tt));
}

run-IsChain_example : IsChain (run chain calls)
run-IsChain_example = run-IsChain chain calls chain-IsChain

run_resolved_example : run closed calls ≡ closed
run_resolved_example = run_resolved closed calls closed-IsChain refl

successes_bounded_example : successes chain calls ≤ remaining chain
successes_bounded_example = successes_bounded chain calls chain-IsChain

transition_runs : transition item chain.tasks task_one confirms 20 ≡ ok answered_chain
unfolding everything
transition_runs = refl

transition_eq_example : answered_chain ≡ answered confirms 20 chain
transition_eq_example =
    transition_eq chain answered_chain task_one confirms 20 chain-IsChain refl refl transition_runs

abbrev subjects : SubjectType → Option String
subjects merchant = some "owner"
subjects _ = some "seller"

generate_runs :
    generate_tasks name escalate item subjects
      (Reading.aware 10)
      (Reading.aware 50)
      (merchant ∷ sales ∷ [])
    ≡ ok chain.tasks
unfolding everything
generate_runs = refl

names-Apart : NamesApart 2 name
unfolding everything
names-Apart i j s t l h b =
    let p : i ≡ 1 = omega (arith, l, h, b) in
    let q : j ≡ 2 = omega (arith, l, h, b) in rw (p, q) refl

generate_tasks-IsChain_example : IsChain chain
generate_tasks-IsChain_example =
    generate_tasks-IsChain name escalate item subjects (Reading.aware 10) (Reading.aware 50)
      merchant (sales ∷ []) chain.tasks names-Apart refl generate_runs

transition_succeeds_example :
    transition item chain.tasks task_one confirms 20 ≡ ok (answered confirms 20 chain)
transition_succeeds_example =
    transition_succeeds chain task_one confirms 20 chain-IsChain refl refl
      (omega arith, (omega arith, tt)) (omega arith)
