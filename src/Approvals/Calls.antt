-- ===== src/Approvals/Calls.antt =====
-- Any interleaving of requests, decisions, resumes and binding facts. The store that an operation
-- has read (`seen`) may be older than the one that it writes, or any other.
use oria.Base.{String, Option, List, [], ◌∷◌, Reading}
use oria.Approvals.{Approval, Decision, ToolPolicy, ResumeRequest}
use oria.Approvals.Store.{Store}
use oria.Approvals.Service.{
  Policy, Context, Clock, Proposal, create, creation, decide, decide_outcome, decision_read,
  invalidate_binding, invalidation_of,
}
use oria.Approvals.Resume.{Reader, resume_verdict, authorize_resume}
use oria.Approvals.Invalidation.{Fact, Faults, consume}
use oria.Approvals.Changes.{Change}
use oria.Approvals.Operations.{
  then_add-Change, creation_pending, then_write-Change, decision_read-Allowed,
  then_invalidate-Change, invalidation_of-Allowed, conclude-Change, resume_verdict-IsSafe,
  consume-Change,
}

pub data Call : Type 0 where
  creates : Policy → Proposal → String → String → Context → Reading → Call
  decides :
      Policy
      → Store
      → String
      → String
      → Decision
      → Option String
      → Context
      → Option Approval
      → String
      → Clock
      → Call
  resumes_tool :
      Policy → Option Reader → Store → ResumeRequest → ToolPolicy → Context → String → Clock → Call
  invalidates : Store → Approval → Context → String → Clock → Call
  consumes : Faults → Fact → Call

unfoldable pub call : Store → Call → Store
call s (creates policy proposal approval_id event_id ctx now) =
    (create policy s proposal approval_id event_id ctx now).1
call s (decides policy seen tenant_id approval_id decision reason ctx expected event_id clock) =
    (decide policy seen s tenant_id approval_id decision reason ctx expected event_id clock).1
call s (resumes_tool policy reader seen request tool_policy ctx event_id clock) =
    (authorize_resume policy reader seen s request tool_policy ctx event_id clock).1
call s (invalidates seen approval ctx event_id clock) =
    (invalidate_binding seen s approval ctx event_id clock).1
call s (consumes faults fact) = (consume faults s fact).1

unfoldable pub run : Store → List Call → Store
run s [] = s
run s (c ∷ cs) = run (call s c) cs

pub call-Change : (s : Store) (c : Call) → Change s.approvals (call s c).approvals
unfolding call create decide decide_outcome invalidate_binding authorize_resume
call-Change s (creates policy proposal approval_id event_id ctx now) =
    then_add-Change s (creation policy proposal approval_id ctx now) event_id ctx
      (creation_pending policy proposal approval_id ctx now)
call-Change s (decides policy seen t i d reason ctx expected event_id clock) =
    then_write-Change s (decision_read policy seen t i d reason ctx expected clock) event_id ctx
      (decision_read-Allowed policy seen t i d reason ctx expected clock)
call-Change s (resumes_tool policy reader seen request tool_policy ctx event_id clock) =
    conclude-Change s (resume_verdict policy reader seen request tool_policy ctx clock) event_id ctx
      (resume_verdict-IsSafe policy reader seen request tool_policy ctx clock)
call-Change s (invalidates seen approval ctx event_id clock) =
    then_invalidate-Change s (invalidation_of seen approval ctx clock) event_id ctx
      (invalidation_of-Allowed seen approval ctx clock)
call-Change s (consumes faults fact) = consume-Change faults s fact
