-- ===== src/Approvals/Service.antt =====
-- src/oria/core/approvals.py: creation and decision of approvals. Policy is a function: what it
-- decides on a request. Each operation reads an approval in one transaction and writes it in
-- another; `seen` is the store that it reads and `store` the one that it writes.
use oria.Base.{
  ℕ, String, Bool, true, false, not, ◌||◌, Option, none, some, Result, ok, err, ◌>>=◌, ◌>>◌,
  raise_if, or_raise, Reading, instant, leb, is, if◌then◌else◌,
}
use oria.Approvals.{
  Approval, Approval-discrete, ApprovalAction, launch, assortment_submission, consumer_publish,
  merchant_notification, ApprovalStatus, pending, approved, rejected, ApprovalError,
  BusinessBinding, Decision, approve, reject, validate_state, same_text, is_pending, is_invalidated,
  is_open,
}
use oria.Approvals.Store.{Store, ApprovalEvent, add, get, replace}

-- The fields of a `Context` that approvals read.
pub record Context : Type 0 where
  pub tenant_id : String
  pub subject_id : String
  pub correlation_id : String

pub record PolicyDecision : Type 0 where
  pub allow : Bool
  pub tenant_constraint : Option String
  pub policy_version : String

-- Action, type and identity of the resource, and context.
abbrev pub Policy : Type 0
Policy = String → String → String → Context → PolicyDecision

abbrev pub Clock : Type 0
Clock = ℕ → Reading

-- `_REQUEST_ACTIONS`
abbrev pub request_action : ApprovalAction → String
request_action launch = "approval:launch:request"
request_action assortment_submission = "approval:assortment:request"
request_action consumer_publish = "approval:consumer_publish:request"
request_action merchant_notification = "approval:notification:request"

-- `_DECIDE_ACTIONS`
abbrev pub decide_action : ApprovalAction → String
decide_action launch = "approval:launch:decide"
decide_action assortment_submission = "approval:assortment:decide"
decide_action consumer_publish = "approval:consumer_publish:decide"
decide_action merchant_notification = "approval:notification:decide"

abbrev pub constrains : Option String → String → Bool
constrains none tenant_id = false
constrains (some t) tenant_id = same_text t tenant_id

-- `_authorize`: the policy version of a decision that allows.
unfoldable pub authorize : Policy → String → String → String → Context → Result ApprovalError String
authorize policy action resource_type resource_id ctx = do
  raise_if
      (not (policy action resource_type resource_id ctx).allow
        || not (
            constrains (policy action resource_type resource_id ctx).tenant_constraint
              ctx.tenant_id))
      ApprovalError.not_authorized
  ok (policy action resource_type resource_id ctx).policy_version

unfoldable pub authorize_decider : Policy → Approval → Context → Result ApprovalError String
authorize_decider policy approval ctx = do
  raise_if (same_text approval.requester ctx.subject_id) ApprovalError.requester_decides
  authorize policy (decide_action approval.approval_action) "approval" approval.approval_id ctx

-- `_required`
unfoldable pub required_approval : Store → String → String → Result ApprovalError Approval
required_approval store tenant_id approval_id =
    get store tenant_id approval_id >>= λ found. or_raise found ApprovalError.unavailable

-- `_audit_event`
abbrev pub audit_event : String → Approval → String → Context → ApprovalEvent
audit_event event_id approval action ctx = record {
  event_id = event_id;
  occurred_at = approval.updated_at;
  tenant_id = approval.tenant_id;
  actor = ctx.subject_id;
  action = action;
  resource_type = "approval";
  resource_id = approval.approval_id;
  resource_tenant_id = approval.tenant_id;
  policy_version = approval.policy_version;
  args_hash = approval.canonical_args_hash;
  correlation_id = ctx.correlation_id;
  approval_action = approval.approval_action;
  status = approval.status;
}

-- `_terminalize`
unfoldable pub terminalize : Approval → ApprovalStatus → Reading → Result ApprovalError Approval
terminalize approval status reading = do
  now ← instant reading ApprovalError.naive_time
  validate_state (record approval { status = status; updated_at = now })

-- A write that an operation has decided on: the replacement of the row that it read, the action
-- that the audit names, and why the decision was refused, if it was.
pub data Refusal : Type 0 where
  policy_version_changed expiry_reached : Refusal

pub record Write : Type 0 where
  pub replacement : Approval
  pub action : String
  pub refusal : Option Refusal

-- `reject` without a reason, or with an empty one.
abbrev pub lacks_reason : Decision → Option String → Bool
lacks_reason approve reason = false
lacks_reason reject none = true
lacks_reason reject (some text) = same_text text ""

abbrev pub status_of : Decision → ApprovalStatus
status_of approve = approved
status_of reject = rejected

abbrev pub decided_by : Approval → Decision → Option String → Context → ℕ → Approval
decided_by approval decision reason ctx now = record approval {
  status = status_of decision;
  decider = some ctx.subject_id;
  decision = some decision;
  reason = reason;
  updated_at = now;
  decided_at = some now;
}

abbrev pub ended :
    Approval → ApprovalStatus → String → Refusal → Reading → Result ApprovalError Write
ended approval status action refusal reading =
    terminalize approval status reading >>= λ replacement.
    ok (record { replacement = replacement; action = action; refusal = some refusal })

-- The part of `decide_outcome` after the row was read, up to the write.
unfoldable pub decision_on :
    Policy → Approval → Decision → Option String → Context → Clock → Result ApprovalError Write
decision_on policy approval decision reason ctx clock = do
  raise_if (not (is_pending approval.status)) ApprovalError.not_pending
  raise_if (lacks_reason decision reason) ApprovalError.reason_required
  version ← authorize_decider policy approval ctx
  if not (same_text version approval.policy_version)
      then ended approval ApprovalStatus.invalidated "approval.invalidated"
          Refusal.policy_version_changed (clock 0)
      else (instant (clock 0) ApprovalError.naive_time >>= λ now.
          if leb approval.expires_at now
          then ended approval ApprovalStatus.expired "approval.expired" Refusal.expiry_reached
              (clock 1)
          else (validate_state (decided_by approval decision reason ctx now) >>= λ decided.
              ok (record { replacement = decided; action = "approval.decided"; refusal = none })))

abbrev pub unexpected : Option Approval → Approval → Bool
unexpected none approval = false
unexpected (some expected) approval = not (is (Approval-discrete approval expected))

-- The read of `decide_outcome`: the row, and what is to be written.
unfoldable pub decision_read :
    Policy
    → Store
    → String
    → String
    → Decision
    → Option String
    → Context
    → Option Approval
    → Clock
    → Result ApprovalError (Approval × Write)
decision_read policy seen tenant_id approval_id decision reason ctx expected clock = do
  raise_if (not (same_text tenant_id ctx.tenant_id)) ApprovalError.cross_tenant
  approval ← required_approval seen tenant_id approval_id
  raise_if (unexpected expected approval) ApprovalError.changed
  write ← decision_on policy approval decision reason ctx clock
  ok (approval, write)

-- The write of an operation.
unfoldable pub write_approval :
    Store → Approval → Write → String → Context → Result ApprovalError Write × Store
write_approval store approval write event_id ctx =
    let (result, next) =
      replace store write.replacement (audit_event event_id write.replacement write.action ctx)
        approval in
    (result >> ok write, next)

-- A read that raises leaves the store; otherwise its write follows.
abbrev pub then_write :
    Store
    → Result ApprovalError (Approval × Write)
    → String
    → Context
    → Result ApprovalError Write × Store
then_write store (err e) event_id ctx = (err e, store)
then_write store (ok (approval, write)) event_id ctx =
    write_approval store approval write event_id ctx

unfoldable pub decide_outcome :
    Policy
    → Store
    → Store
    → String
    → String
    → Decision
    → Option String
    → Context
    → Option Approval
    → String
    → Clock
    → Result ApprovalError Write × Store
decide_outcome policy seen store tenant_id approval_id decision reason ctx expected event_id clock =
    then_write store
      (decision_read policy seen tenant_id approval_id decision reason ctx expected clock) event_id
      ctx

-- `decide`: a refusal is committed, then raised.
abbrev pub refused : Write → Result ApprovalError Approval
refused write = elim write.refusal [
  | none ↦ ok write.replacement
  | some Refusal.policy_version_changed ↦ err ApprovalError.policy_changed
  | some Refusal.expiry_reached ↦ err ApprovalError.has_expired
]

unfoldable pub decide :
    Policy
    → Store
    → Store
    → String
    → String
    → Decision
    → Option String
    → Context
    → Option Approval
    → String
    → Clock
    → Result ApprovalError Approval × Store
decide policy seen store tenant_id approval_id decision reason ctx expected event_id clock =
    let (result, next) =
      decide_outcome policy seen store tenant_id approval_id decision reason ctx expected event_id
        clock in
    (result >>= refused, next)

-- The arguments of `create` that name what is approved.
pub record Proposal : Type 0 where
  pub approval_action : ApprovalAction
  pub tool_name : String
  pub canonical_args_hash : String
  pub checkpoint_id : String
  pub expires_at : ℕ
  pub business_binding : Option BusinessBinding

abbrev pub new_approval : Proposal → String → String → Context → ℕ → Approval
new_approval proposal approval_id policy_version ctx now = record {
  approval_id = approval_id;
  tenant_id = ctx.tenant_id;
  approval_action = proposal.approval_action;
  tool_name = proposal.tool_name;
  canonical_args_hash = proposal.canonical_args_hash;
  checkpoint_id = proposal.checkpoint_id;
  policy_version = policy_version;
  expires_at = proposal.expires_at;
  status = pending;
  requester = ctx.subject_id;
  decider = none;
  decision = none;
  reason = none;
  created_at = now;
  updated_at = now;
  decided_at = none;
  business_binding = proposal.business_binding;
}

unfoldable pub creation :
    Policy → Proposal → String → Context → Reading → Result ApprovalError Approval
creation policy proposal approval_id ctx reading = do
  now ← instant reading ApprovalError.naive_time
  raise_if (leb proposal.expires_at now) ApprovalError.expiry_passed
  version ←
      authorize policy (request_action proposal.approval_action) "approval" proposal.checkpoint_id
        ctx
  validate_state (new_approval proposal approval_id version ctx now)

abbrev pub then_add :
    Store → Result ApprovalError Approval → String → Context → Result ApprovalError Approval × Store
then_add store (err e) event_id ctx = (err e, store)
then_add store (ok approval) event_id ctx =
    let (result, next) =
      add store approval (audit_event event_id approval "approval.created" ctx) in
    (result >> ok approval, next)

unfoldable pub create :
    Policy
    → Store
    → Proposal
    → String
    → String
    → Context
    → Reading
    → Result ApprovalError Approval × Store
create policy store proposal approval_id event_id ctx reading =
    then_add store (creation policy proposal approval_id ctx reading) event_id ctx

-- `invalidate_binding`: an approval that is invalidated already is returned.
unfoldable pub invalidation_of :
    Store → Approval → Context → Clock → Result ApprovalError (Approval × Option Write)
invalidation_of seen approval ctx clock = do
  raise_if (not (same_text approval.tenant_id ctx.tenant_id)) ApprovalError.cross_tenant
  current ← required_approval seen approval.tenant_id approval.approval_id
  if is_invalidated current.status
      then ok (current, none)
      else (raise_if (not (is_open current.status)) ApprovalError.not_invalidatable
          >> (terminalize current ApprovalStatus.invalidated (clock 0) >>= λ replacement. ok (
            current,
            some (record {
              replacement = replacement;
              action = "approval.invalidated";
              refusal = none;
            }),
          )))

abbrev pub then_invalidate :
    Store
    → Result ApprovalError (Approval × Option Write)
    → String
    → Context
    → Result ApprovalError Approval × Store
then_invalidate store (err e) event_id ctx = (err e, store)
then_invalidate store (ok (current, none)) event_id ctx = (ok current, store)
then_invalidate store (ok (current, some write)) event_id ctx =
    let (result, next) = write_approval store current write event_id ctx in
    (result >>= λ w. ok w.replacement, next)

unfoldable pub invalidate_binding :
    Store → Store → Approval → Context → String → Clock → Result ApprovalError Approval × Store
invalidate_binding seen store approval ctx event_id clock =
    then_invalidate store (invalidation_of seen approval ctx clock) event_id ctx
