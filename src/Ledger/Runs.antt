-- ===== src/Ledger/Runs.antt =====
-- What any interleaving of processes does to the table of executions, and that an execution only
-- moves forward in it.
use oria.Base.{
  String, ◌≡◌, refl, Bool, true, false, some, List, [], ◌∷◌, find, Result, ok, err, Reading, ◌>>=◌,
  commit,
}
use oria.Ledger.{reserved, executing, ToolExecution, LedgerError}
use oria.Ledger.Repository.{Store, has_id, transition, public_transition}
use oria.Ledger.Execution.{
  World, Plan, Answer, mark_executing, mark_and_invoke, invoke_marked, execute, run_reserved,
  reserve_to_run, after_invocation, no_evidence,
}
use oria.Ledger.Calls.{
  Call, reserves, requests, invokes, commits, succeeds_locally, recovers, executes, call, run,
}
use oria.Ledger.Law.{Relation, Law}
use oria.Ledger.Steps.{
  transition_lawful, reserve_lawful, request_lawful, outcome_lawful, local_lawful,
}
use oria.Ledger.Answers.{recover_lawful, record_answer_lawful, reserved_lawful}
use oria.Ledger.Advance.{Advances, Progress-Law}

module _ {B : Type 0} {R : Relation} (law : Law R) where
  marks_lawful :
      (s : Store B) (m : Result LedgerError (ToolExecution × List ToolExecution))
      → ((t : ToolExecution) (rows : List ToolExecution) → m ≡ ok (t, rows) → R s.executions rows)
      → R s.executions (commit s (m >>= λ p. ok (p.0, record s { executions = p.1 }))).1.executions
  marks_lawful s (ok (t, rows)) h = h t rows refl
  marks_lawful s (err e) h = law.stays s.executions

  mark_lawful :
      (s : Store B) (e : ToolExecution) (now : Reading)
      → R s.executions (mark_executing s e now).1.executions
  unfolding mark_executing public_transition
  mark_lawful s e Reading.naive = law.stays s.executions
  mark_lawful s e (Reading.aware now) =
      marks_lawful s
        (transition s.executions e.tenant_id e.execution_id executing reserved (Reading.aware now)
          no_evidence)
        (λ t rows moved.
          transition_lawful law s.executions e.tenant_id e.execution_id executing reserved
            (Reading.aware now) no_evidence moved)

  invoked_lawful :
      (rows : List ToolExecution) (w : World B) (out : Result LedgerError ToolExecution × Store B)
      → R rows out.1.executions
      → R rows (invoke_marked w out).1.store.executions
  invoked_lawful rows w (ok e, s) h = h
  invoked_lawful rows w (err x, s) h = h

  after_lawful :
      (rows : List ToolExecution) (plan : Plan B) (invoke : String → Answer) (now : Reading)
      (out : Result LedgerError ToolExecution × World B)
      → R rows out.1.store.executions
      → R rows (after_invocation plan invoke now out).1.store.executions
  after_lawful rows plan invoke now (err e, w) h = h
  after_lawful rows plan invoke now (ok e, w) h =
      law.follows rows w.store.executions _ h
        (record_answer_lawful law w.store e plan (invoke e.idempotency_key) now)

  run_reserved_lawful :
      (rows : List ToolExecution) (w : World B) (invoke : String → Answer) (plan : Plan B)
      (started ended : Reading) (out : Result LedgerError (ToolExecution × Bool) × Store B)
      → R rows out.1.executions
      → R rows (run_reserved w invoke plan started ended out).1.store.executions
  unfolding mark_and_invoke
  run_reserved_lawful rows w invoke plan started ended (err e, s) h = h
  run_reserved_lawful rows w invoke plan started ended (ok (e, false), s) h = h
  run_reserved_lawful rows w invoke plan started ended (ok (e, true), s) h =
      after_lawful rows plan invoke ended _ (
        invoked_lawful rows (record w { store = s }) (mark_executing s e started)
          (law.follows rows s.executions _ h (mark_lawful s e started)))

  call_lawful : (w : World B) (c : Call B) → R w.store.executions (call w c).store.executions
  unfolding call execute mark_and_invoke
  call_lawful w (reserves e) = reserve_lawful law w.store e
  call_lawful w (requests e key) = request_lawful law w.store e key
  call_lawful w (invokes e now) =
      invoked_lawful w.store.executions w (mark_executing w.store e now) (mark_lawful w.store e now)
  call_lawful w (commits e outcome expected request now) =
      outcome_lawful law w.store e outcome expected request now
  call_lawful w (succeeds_locally e receipt summary write bundle started ended) =
      local_lawful law w.store e receipt summary write bundle started ended
  call_lawful w (recovers e timeout projection bundle now later) =
      recover_lawful law w.store e timeout projection bundle now later
  call_lawful w (executes e invoke plan started ended) =
      run_reserved_lawful w.store.executions w invoke plan started ended (reserve_to_run w.store e)
        (reserved_lawful law w.store e)

  -- A lawful relation holds between the tables before and after any interleaving.
  pub run_lawful :
      (w : World B) (cs : List (Call B)) → R w.store.executions (run w cs).store.executions
  unfolding run
  run_lawful w [] = law.stays w.store.executions
  run_lawful w (c ∷ cs) =
      law.follows w.store.executions (call w c).store.executions _ (call_lawful w c)
        (run_lawful (call w c) cs)

-- Whatever calls are made and however their transactions interleave, an execution that the table
-- has is kept, under its keys, in a later state: its status does not fall in the order reserved,
-- executing, unknown, settled; once it has left reserved its attempt count stays; and once it has
-- succeeded or failed the whole row stays.
pub run-Advances :
    {B : Type 0} (w : World B) (cs : List (Call B)) (tenant_id execution_id : String)
    (e : ToolExecution)
    → find (has_id tenant_id execution_id) w.store.executions ≡ some e
    → (e' : ToolExecution) × (find (has_id tenant_id execution_id) (run w cs).store.executions
        ≡ some e')
      × Advances e e'
run-Advances w cs tenant_id execution_id e found =
    run_lawful (Progress-Law tenant_id execution_id) w cs e found
