-- ===== src/Approvals/Resume.antt =====
-- src/oria/core/approvals.py: authorize_resume. The reader of business bindings is a parameter:
-- the current binding of a tenant's campaign.
use oria.Base.{
  String, Bool, true, false, not, ◌&&◌, Option, none, some, Result, ok, err, ◌>>=◌, ◌>>◌, raise_if,
  or_raise, Reading, instant, is, if◌then◌else◌,
}
use oria.Approvals.{
  Approval, ApprovalStatus, invalidated, expired, ApprovalError, BusinessBinding, Binding-discrete,
  ToolPolicy, ApprovalMode, not_required, conditional, required, ResumeRequest, Rejection,
  approval_resume_rejection,
}
use oria.Approvals.Store.{Store}
use oria.Approvals.Service.{
  Policy, Context, Clock, Write, authorize, required_approval, terminalize, write_approval,
}

abbrev pub Reader : Type 0
Reader = String → String → Option BusinessBinding

-- What the read decides: a resume without, or with, an approval; or the end of the approval, and
-- the error that follows its write.
pub data Verdict : Type 0 where
  resumes : Option Approval → Verdict
  ends : Approval → Write → ApprovalError → Verdict

-- `required` of `authorize_resume`
abbrev pub is_required : ApprovalMode → Bool → Bool
is_required required asked = true
is_required conditional asked = asked
is_required not_required asked = false

abbrev pub ended_by :
    Approval → ApprovalStatus → String → ApprovalError → Reading → Result ApprovalError Verdict
ended_by approval status action e reading = terminalize approval status reading >>= λ replacement.
    ok (ends approval (record { replacement = replacement; action = action; refusal = none }) e)

-- The three bindings, of the campaign, the approval and the request, are one.
abbrev pub is_current : Option BusinessBinding → BusinessBinding → Option BusinessBinding → Bool
is_current (some current) frozen (some asked) =
    is (Binding-discrete current frozen) && is (Binding-discrete asked current)
is_current _ frozen _ = false

abbrev pub binding_verdict :
    Option Reader
    → Approval
    → ResumeRequest
    → Context
    → Reading
    → Option BusinessBinding
    → Result ApprovalError Verdict
binding_verdict reader approval request ctx reading none = ok (resumes (some approval))
binding_verdict none approval request ctx reading (some frozen) =
    ended_by approval invalidated "approval.invalidated" ApprovalError.binding_unreadable reading
binding_verdict (some current) approval request ctx reading (some frozen) =
    if is_current (current ctx.tenant_id frozen.campaign_id) frozen request.business_binding
    then ok (resumes (some approval))
    else ended_by approval invalidated "approval.invalidated" ApprovalError.binding_stale reading

-- The branches on `approval_resume_rejection`.
abbrev pub rejection_verdict :
    Option Reader
    → Approval
    → ResumeRequest
    → Context
    → Reading
    → Option Rejection
    → Result ApprovalError Verdict
rejection_verdict reader approval request ctx reading (some Rejection.binding) =
    ended_by approval invalidated "approval.invalidated" ApprovalError.binding_mismatch reading
rejection_verdict reader approval request ctx reading (some Rejection.expiry) =
    ended_by approval expired "approval.expired" ApprovalError.has_expired reading
rejection_verdict reader approval request ctx reading (some Rejection.status) =
    err ApprovalError.not_approved
rejection_verdict reader approval request ctx reading none =
    binding_verdict reader approval request ctx reading approval.business_binding

-- The part where an approval is required.
unfoldable pub required_verdict :
    Option Reader
    → Store
    → ResumeRequest
    → ToolPolicy
    → String
    → Context
    → Clock
    → Result ApprovalError Verdict
required_verdict reader seen request tool_policy version ctx clock = do
  raise_if (not tool_policy.side_effect) ApprovalError.read_only_tool
  approval_id ← or_raise request.approval_id ApprovalError.approval_required
  approval ← required_approval seen ctx.tenant_id approval_id
  now ← instant (clock 0) ApprovalError.naive_time
  rejection_verdict reader approval request ctx (clock 1)
      (approval_resume_rejection approval request tool_policy version now)

unfoldable pub resume_verdict :
    Policy
    → Option Reader
    → Store
    → ResumeRequest
    → ToolPolicy
    → Context
    → Clock
    → Result ApprovalError Verdict
resume_verdict policy reader seen request tool_policy ctx clock = do
  version ←
      authorize policy tool_policy.required_action tool_policy.resource_type request.tool_name ctx
  if is_required tool_policy.approval_mode request.approval_required
      then required_verdict reader seen request tool_policy version ctx clock
      else ok (resumes none)

abbrev pub conclude :
    Store
    → Result ApprovalError Verdict
    → String
    → Context
    → Result ApprovalError (Option Approval) × Store
conclude store (err e) event_id ctx = (err e, store)
conclude store (ok (resumes approval)) event_id ctx = (ok approval, store)
conclude store (ok (ends approval write e)) event_id ctx =
    let (result, next) = write_approval store approval write event_id ctx in
    (result >>= λ _. err e, next)

unfoldable pub authorize_resume :
    Policy
    → Option Reader
    → Store
    → Store
    → ResumeRequest
    → ToolPolicy
    → Context
    → String
    → Clock
    → Result ApprovalError (Option Approval) × Store
authorize_resume policy reader seen store request tool_policy ctx event_id clock =
    conclude store (resume_verdict policy reader seen request tool_policy ctx clock) event_id ctx
