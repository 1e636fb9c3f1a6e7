-- ===== src/Approvals.antt =====
-- src/oria/core/approvals.py: approval values, their validation, and the check before a resume.
-- Patterns and lengths of texts are not modelled; hashes are texts.
pub mod Store
pub mod Service
pub mod Resume
pub mod Invalidation
pub mod Memory
pub mod Frozen
pub mod Changes
pub mod Operations
pub mod Calls
pub mod History
pub mod Verdicts
pub mod Conditions
pub mod Granted
pub mod Bindings
pub mod Facts
pub mod Consumption
pub mod Agreement
mod Tests
pub use oria.Base.{same_text}
use oria.Base.{
  ℕ, String, Bool, true, false, not, ◌&&◌, ◌||◌, Option, none, some, Result, ok, err, ◌>>=◌, ◌>>◌,
  raise_if, ltb, leb, is, is_some, String_discrete, ℕ_discrete, if◌then◌else◌,
}

pub data ApprovalAction : Type 0 where
  launch assortment_submission consumer_publish merchant_notification : ApprovalAction

pub data ApprovalStatus : Type 0 where
  pending approved rejected expired invalidated : ApprovalStatus

pub data Decision : Type 0 where
  approve reject : Decision

pub record BusinessBinding : Type 0 where
  pub campaign_id : String
  pub enrollment_version : ℕ
  pub link_version : ℕ
  pub selection_version : String
  pub selection_hash : Option String
  pub rule_snapshot_hash : String

pub record Approval : Type 0 where
  pub approval_id : String
  pub tenant_id : String
  pub approval_action : ApprovalAction
  pub tool_name : String
  pub canonical_args_hash : String
  pub checkpoint_id : String
  pub policy_version : String
  pub expires_at : ℕ
  pub status : ApprovalStatus
  pub requester : String
  pub decider : Option String
  pub decision : Option Decision
  pub reason : Option String
  pub created_at : ℕ
  pub updated_at : ℕ
  pub decided_at : Option ℕ
  pub business_binding : Option BusinessBinding

unfoldable pub Binding-discrete : Discrete BusinessBinding
Binding-discrete = hlevel (String_discrete, ℕ_discrete)

unfoldable pub Action-discrete : Discrete ApprovalAction
Action-discrete = hlevel

unfoldable pub Approval-discrete : Discrete Approval
unfolding Binding-discrete Action-discrete
Approval-discrete = hlevel (String_discrete, ℕ_discrete, Binding-discrete, Action-discrete)

-- The raises of the service and of the repositories, by what they report.
pub data ApprovalError : Type 0 where
  timestamps_out_of_order decision_mismatch decision_required undecided_expected : ApprovalError
  naive_time expiry_passed not_authorized cross_tenant unavailable changed : ApprovalError
  not_pending reason_required requester_decides policy_changed has_expired : ApprovalError
  read_only_tool approval_required binding_mismatch not_approved : ApprovalError
  binding_unreadable binding_stale not_invalidatable : ApprovalError
  already_exists identity_changed event_mismatch event_exists : ApprovalError
  fact_conflict invalidation_unavailable persistence_failed : ApprovalError

abbrev pub is_pending : ApprovalStatus → Bool
is_pending pending = true
is_pending _ = false

abbrev pub is_approved : ApprovalStatus → Bool
is_approved approved = true
is_approved _ = false

abbrev pub is_rejected : ApprovalStatus → Bool
is_rejected rejected = true
is_rejected _ = false

abbrev pub is_invalidated : ApprovalStatus → Bool
is_invalidated invalidated = true
is_invalidated _ = false

-- `status IN ('pending', 'approved')`
abbrev pub is_open : ApprovalStatus → Bool
is_open pending = true
is_open approved = true
is_open _ = false

abbrev pub is_approve : Option Decision → Bool
is_approve (some approve) = true
is_approve _ = false

abbrev pub is_reject : Option Decision → Bool
is_reject (some reject) = true
is_reject _ = false

abbrev pub has_decision : Approval → Bool
has_decision self = is_some self.decider || is_some self.decision || is_some self.decided_at

abbrev pub complete_decision : Approval → Bool
complete_decision self = is_some self.decider && is_some self.decision && is_some self.decided_at

-- `Approval.model_validate`
unfoldable pub validate_state : Approval → Result ApprovalError Approval
validate_state self = do
  raise_if (ltb self.updated_at self.created_at || leb self.expires_at self.created_at)
      timestamps_out_of_order
  raise_if (has_decision self && not (complete_decision self)) decision_mismatch
  raise_if ((is_approved self.status || is_rejected self.status) && not (complete_decision self))
      decision_mismatch
  raise_if (is_approved self.status && not (is_approve self.decision)) decision_required
  raise_if (is_rejected self.status && not (is_reject self.decision)) decision_required
  raise_if (is_pending self.status && has_decision self) undecided_expected
  ok self

-- The fields of a `ToolPolicy` that approvals read.
pub data ApprovalMode : Type 0 where
  not_required conditional required : ApprovalMode

pub record ToolPolicy : Type 0 where
  pub required_action : String
  pub resource_type : String
  pub side_effect : Bool
  pub approval_mode : ApprovalMode
  pub approval_action : Option ApprovalAction

pub record ResumeRequest : Type 0 where
  pub approval_id : Option String
  pub approval_action : ApprovalAction
  pub tool_name : String
  pub canonical_args_hash : String
  pub checkpoint_id : String
  pub approval_required : Bool
  pub business_binding : Option BusinessBinding

pub data Rejection : Type 0 where
  binding expiry status : Rejection

abbrev pub same_action : ApprovalAction → ApprovalAction → Bool
same_action a b = is (Action-discrete a b)

abbrev pub policy_action_is : Option ApprovalAction → ApprovalAction → Bool
policy_action_is none action = false
policy_action_is (some a) action = same_action a action

-- `current == frozen and tool_policy.approval_action == request.approval_action`
abbrev pub matches_frozen : Approval → ResumeRequest → ToolPolicy → String → Bool
matches_frozen approval request tool_policy policy_version =
    same_action request.approval_action approval.approval_action
    && same_text request.tool_name approval.tool_name
    && same_text request.canonical_args_hash approval.canonical_args_hash
    && same_text request.checkpoint_id approval.checkpoint_id
    && same_text policy_version approval.policy_version
    && policy_action_is tool_policy.approval_action request.approval_action

unfoldable pub approval_resume_rejection :
    Approval → ResumeRequest → ToolPolicy → String → ℕ → Option Rejection
approval_resume_rejection approval request tool_policy policy_version now =
    if not (matches_frozen approval request tool_policy policy_version)
    then some binding
    else (if leb approval.expires_at now
        then some expiry
        else (if not (is_approved approval.status) then some Rejection.status else none))
