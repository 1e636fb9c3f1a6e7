-- ===== src/Approvals/Frozen.antt =====
-- The columns of an approval that no decision changes.
use oria.Base.{◌≡◌, refl, ◌∙◌}
use oria.Approvals.{Approval}
use oria.Approvals.Store.{with_decision}

-- `a` has the frozen columns of `e`.
pub record KeepsFrozen (e a : Approval) : Type 0 where
  pub identity : a.approval_id ≡ e.approval_id
  pub tenant : a.tenant_id ≡ e.tenant_id
  pub action : a.approval_action ≡ e.approval_action
  pub tool : a.tool_name ≡ e.tool_name
  pub arguments : a.canonical_args_hash ≡ e.canonical_args_hash
  pub checkpoint : a.checkpoint_id ≡ e.checkpoint_id
  pub version : a.policy_version ≡ e.policy_version
  pub expiry : a.expires_at ≡ e.expires_at
  pub asked_by : a.requester ≡ e.requester
  pub creation : a.created_at ≡ e.created_at
  pub binding : a.business_binding ≡ e.business_binding

-- The UPDATE of a decision makes of `e` any row that has its frozen columns.
pub with_decision-eq : (e a : Approval) → KeepsFrozen e a → a ≡ with_decision e a
with_decision-eq e a k = λ i. record {
  approval_id = k.identity i;
  tenant_id = k.tenant i;
  approval_action = k.action i;
  tool_name = k.tool i;
  canonical_args_hash = k.arguments i;
  checkpoint_id = k.checkpoint i;
  policy_version = k.version i;
  expires_at = k.expiry i;
  status = a.status;
  requester = k.asked_by i;
  decider = a.decider;
  decision = a.decision;
  reason = a.reason;
  created_at = k.creation i;
  updated_at = a.updated_at;
  decided_at = a.decided_at;
  business_binding = k.binding i;
}

pub with_decision-KeepsFrozen : (e a : Approval) → KeepsFrozen e (with_decision e a)
with_decision-KeepsFrozen e a = record {
  identity = refl;
  tenant = refl;
  action = refl;
  tool = refl;
  arguments = refl;
  checkpoint = refl;
  version = refl;
  expiry = refl;
  asked_by = refl;
  creation = refl;
  binding = refl;
}

pub KeepsFrozen-refl : (a : Approval) → KeepsFrozen a a
KeepsFrozen-refl a = record {
  identity = refl;
  tenant = refl;
  action = refl;
  tool = refl;
  arguments = refl;
  checkpoint = refl;
  version = refl;
  expiry = refl;
  asked_by = refl;
  creation = refl;
  binding = refl;
}

pub KeepsFrozen-trans : {a b c : Approval} → KeepsFrozen a b → KeepsFrozen b c → KeepsFrozen a c
KeepsFrozen-trans f g = record {
  identity = g.identity ∙ f.identity;
  tenant = g.tenant ∙ f.tenant;
  action = g.action ∙ f.action;
  tool = g.tool ∙ f.tool;
  arguments = g.arguments ∙ f.arguments;
  checkpoint = g.checkpoint ∙ f.checkpoint;
  version = g.version ∙ f.version;
  expiry = g.expiry ∙ f.expiry;
  asked_by = g.asked_by ∙ f.asked_by;
  creation = g.creation ∙ f.creation;
  binding = g.binding ∙ f.binding;
}
