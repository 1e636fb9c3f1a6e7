-- ===== src/Ledger/Invocations.antt =====
-- At most one external invocation of each execution, in any interleaving of processes.
use oria.Base.{
  ◌≤◌, String, ◌≡◌, refl, Bool, true, false, List, [], ◌∷◌, Result, ok, err, ◌>>=◌, Reading, arith,
  String_discrete, is-yes, is-no, sym, ◌∙◌, subst, commit,
}
use oria.Ledger.{reserved, executing, ToolExecution, LedgerError}
use oria.Ledger.Repository.{Store, transition, public_transition}
use oria.Ledger.Execution.{
  World, Plan, Answer, mark_executing, mark_and_invoke, invoke_marked, execute, run_reserved,
  reserve_to_run, after_invocation, no_evidence,
}
use oria.Ledger.Transition.{Moved, transition-Moved}
use oria.Ledger.Counting.{total, fresh-total}
use oria.Ledger.Calls.{
  Call, reserves, requests, invokes, commits, succeeds_locally, recovers, executes, call, run,
}
use oria.Ledger.Covered.{Covered, Safe, insert-Safe, Moved-Safe, Moved-marked}
use oria.Ledger.Law.{Law}
use oria.Ledger.Steps.{reserve_lawful, request_lawful, outcome_lawful, local_lawful}
use oria.Ledger.Answers.{recover_lawful, record_answer_lawful, reserved_lawful}

-- The invocations of `x` that the world has seen are covered by its table.
abbrev pub Spent : {B : Type 0} → String → World B → Type 0
Spent x w = Covered x (total x w.invoked) w.store.executions

Safe-Law : (x : String) → Law (Safe x)
Safe-Law x = record {
  stays = λ rows n c. c;
  follows = λ a b c f g n h. g n (f n h);
  inserts = insert-Safe x;
  moves = λ rows t i target expected e rows' m. Moved-Safe x rows t i target expected m;
}

module _ {B : Type 0} (x : String) where
  -- The row that a committed transition has marked makes room for its invocation.
  marked-Covered :
      (w : World B) (e : ToolExecution) (now : Reading) {t : ToolExecution}
      {rows : List ToolExecution}
      → transition w.store.executions e.tenant_id e.execution_id executing reserved now no_evidence
        ≡ ok (t, rows)
      → Spent x w
      → Covered x (total x (t ∷ w.invoked)) rows
  marked-Covered w e now {t} {rows} h c =
      let m =
        transition-Moved w.store.executions e.tenant_id e.execution_id executing reserved now
          no_evidence h in
      elim (String_discrete e.execution_id x) [
        | yes q ↦
            let here =
              subst (λ i. Moved w.store.executions e.tenant_id i executing reserved t rows) q m in
            let one = is-yes (String_discrete t.execution_id x) (m.identity ∙ q) in
            let room = Moved-marked x w.store.executions e.tenant_id here (total x w.invoked) c in
            ground arith
        | no n ↦
            let other = is-no (String_discrete t.execution_id x) (λ q. n (sym m.identity ∙ q)) in
            let room =
              Moved-Safe x w.store.executions e.tenant_id e.execution_id executing reserved m
                (total x w.invoked) c in
            ground arith
      ]

  marks-Spent :
      (w : World B) (m : Result LedgerError (ToolExecution × List ToolExecution))
      → ((t : ToolExecution) (rows : List ToolExecution)
          → m ≡ ok (t, rows)
          → Covered x (total x (t ∷ w.invoked)) rows)
      → Spent x w
      → Spent x
          (invoke_marked w
            (commit w.store (m >>= λ p. ok (p.0, record w.store { executions = p.1 })))).1
  marks-Spent w (ok (t, rows)) new h = new t rows refl
  marks-Spent w (err e) new h = h

  -- A transition to executing that is committed and an invocation go together.
  invoked-Spent :
      (w : World B) (e : ToolExecution) (now : Reading)
      → Spent x w
      → Spent x (mark_and_invoke w e now).1
  unfolding mark_and_invoke mark_executing public_transition
  invoked-Spent w e Reading.naive h = h
  invoked-Spent w e (Reading.aware now) h =
      marks-Spent w
        (transition w.store.executions e.tenant_id e.execution_id executing reserved
          (Reading.aware now) no_evidence)
        (λ t rows moved. marked-Covered w e (Reading.aware now) moved h) h

  after-Spent :
      (plan : Plan B) (invoke : String → Answer) (now : Reading)
      (out : Result LedgerError ToolExecution × World B)
      → Spent x out.1
      → Spent x (after_invocation plan invoke now out).1
  after-Spent plan invoke now (err e, w) h = h
  after-Spent plan invoke now (ok marked, w) h =
      record_answer_lawful (Safe-Law x) w.store marked plan (invoke marked.idempotency_key) now
        (total x w.invoked) h

  run_reserved-Spent :
      (w : World B) (invoke : String → Answer) (plan : Plan B) (started ended : Reading)
      (out : Result LedgerError (ToolExecution × Bool) × Store B)
      → Covered x (total x w.invoked) out.1.executions
      → Spent x (run_reserved w invoke plan started ended out).1
  run_reserved-Spent w invoke plan started ended (err e, s) h = h
  run_reserved-Spent w invoke plan started ended (ok (e, false), s) h = h
  run_reserved-Spent w invoke plan started ended (ok (e, true), s) h =
      after-Spent plan invoke ended _ (invoked-Spent (record w { store = s }) e started h)

  call-Spent : (w : World B) (c : Call B) → Spent x w → Spent x (call w c)
  unfolding call execute
  call-Spent w (reserves e) h = reserve_lawful (Safe-Law x) w.store e (total x w.invoked) h
  call-Spent w (requests e key) h = request_lawful (Safe-Law x) w.store e key (total x w.invoked) h
  call-Spent w (invokes e now) h = invoked-Spent w e now h
  call-Spent w (commits e outcome expected request now) h =
      outcome_lawful (Safe-Law x) w.store e outcome expected request now (total x w.invoked) h
  call-Spent w (succeeds_locally e receipt summary write bundle started ended) h =
      local_lawful (Safe-Law x) w.store e receipt summary write bundle started ended
        (total x w.invoked) h
  call-Spent w (recovers e timeout projection bundle now later) h =
      recover_lawful (Safe-Law x) w.store e timeout projection bundle now later (total x w.invoked)
        h
  call-Spent w (executes e invoke plan started ended) h =
      run_reserved-Spent w invoke plan started ended (reserve_to_run w.store e)
        (reserved_lawful (Safe-Law x) w.store e (total x w.invoked) h)

  run-Spent : (w : World B) (cs : List (Call B)) → Spent x w → Spent x (run w cs)
  unfolding run
  run-Spent w [] h = h
  run-Spent w (c ∷ cs) h = run-Spent (call w c) cs (call-Spent w c h)

  -- From a table in which no two rows have one `execution_id`, and before any invocation, whatever
  -- calls are made and however their transactions interleave, the adapter is invoked at most once
  -- for an execution.
  pub at_most_one_invocation :
      (store : Store B) (cs : List (Call B))
      → total x store.executions ≤ 1
      → total x (run (record { store = store; invoked = [] }) cs).invoked ≤ 1
  at_most_one_invocation store cs h =
      let f = fresh-total x store.executions in
      let (a, b) = run-Spent (record { store = store; invoked = [] }) cs (omega (arith, f), h) in
      omega (arith, a, b)
