-- ===== src/Approvals/Store.antt =====
-- src/oria/storage/platform.py: the approval table with its audit and outbox rows. A transaction
-- that raises is rolled back; a constraint violation is a value of `ApprovalError`. Other database
-- faults are modelled for the consumer of binding facts only.
use oria.Base.{
  ℕ, String, Bool, false, not, ◌&&◌, ◌||◌, Option, none, some, List, ◌∷◌, find, any, select, map,
  length, Result, ok, ◌>>=◌, ◌>>◌, raise_if, or_raise, commit, ◌==◌, true, replace_where,
  if◌then◌else◌,
}
use oria.Approvals.{
  Approval, Approval-discrete, ApprovalAction, ApprovalStatus, invalidated, ApprovalError,
  BusinessBinding, validate_state, same_text, is_open,
}

-- An `EventEnvelope` about an approval. Its payload holds the action and the status, of which
-- redaction changes nothing.
pub record ApprovalEvent : Type 0 where
  pub event_id : String
  pub occurred_at : ℕ
  pub tenant_id : String
  pub actor : String
  pub action : String
  pub resource_type : String
  pub resource_id : String
  pub resource_tenant_id : String
  pub policy_version : String
  pub args_hash : String
  pub correlation_id : String
  pub approval_action : ApprovalAction
  pub status : ApprovalStatus

-- A row of the outbox for the topic `platform.approval.status_changed`.
pub record StatusChange : Type 0 where
  pub event_id : String
  pub tenant_id : String
  pub occurred_at : ℕ
  pub approval_action : ApprovalAction
  pub status : ApprovalStatus

pub data InvalidationStatus : Type 0 where
  waiting applied reconciliation : InvalidationStatus

-- A row of `approval_binding_invalidations`; its status `pending` is `waiting` here.
pub record Invalidation : Type 0 where
  pub tenant_id : String
  pub event_id : String
  pub binding : BusinessBinding
  pub reason : String
  pub status : InvalidationStatus
  pub attempt_count : ℕ
  pub last_error_code : Option String
  pub updated_at : ℕ

pub record Store : Type 0 where
  pub approvals : List Approval
  pub audit_events : List ApprovalEvent
  pub outbox : List StatusChange
  pub invalidations : List Invalidation

abbrev pub has_id : String → String → Approval → Bool
has_id tenant_id approval_id row =
    same_text row.tenant_id tenant_id && same_text row.approval_id approval_id

abbrev pub same_id : Approval → Approval → Bool
same_id a b = has_id a.tenant_id a.approval_id b

abbrev pub change_of : ApprovalEvent → StatusChange
change_of event = record {
  event_id = event.event_id;
  tenant_id = event.tenant_id;
  occurred_at = event.occurred_at;
  approval_action = event.approval_action;
  status = event.status;
}

-- `_append_approval_events`; `event_id` is the primary key of both tables.
unfoldable pub append_approval_events :
    Store → List Approval → Approval → ApprovalEvent → Result ApprovalError Store
append_approval_events store rows approval event = do
  raise_if
      (not (same_text event.tenant_id approval.tenant_id)
        || not (same_text event.resource_tenant_id approval.tenant_id)
        || not (same_text event.resource_type "approval")
        || not (same_text event.resource_id approval.approval_id))
      ApprovalError.event_mismatch
  raise_if
      (any (λ (row : ApprovalEvent). same_text row.event_id event.event_id) store.audit_events
        || any (λ (row : StatusChange). same_text row.event_id event.event_id) store.outbox)
      ApprovalError.event_exists
  ok (record store {
    approvals = rows;
    audit_events = event ∷ store.audit_events;
    outbox = change_of event ∷ store.outbox;
  })

unfoldable pub add_body : Store → Approval → ApprovalEvent → Result ApprovalError (Unit {0} × Store)
add_body store approval event = do
  raise_if (any (same_id approval) store.approvals) ApprovalError.already_exists
  next ← append_approval_events store (approval ∷ store.approvals) approval event
  ok (tt, next)

-- `add`, with the audit event that the service passes.
unfoldable pub add : Store → Approval → ApprovalEvent → Result ApprovalError (Unit {0}) × Store
add store approval event = commit store (add_body store approval event)

abbrev pub checked_row : Option Approval → Result ApprovalError (Option Approval)
checked_row none = ok none
checked_row (some row) = validate_state row >>= λ approval. ok (some approval)

-- `get`: the row is validated.
unfoldable pub get : Store → String → String → Result ApprovalError (Option Approval)
get store tenant_id approval_id = checked_row (find (has_id tenant_id approval_id) store.approvals)

-- The columns that the UPDATE of `_replace` sets.
abbrev pub with_decision : Approval → Approval → Approval
with_decision row approval = record row {
  status = approval.status;
  decider = approval.decider;
  decision = approval.decision;
  reason = approval.reason;
  updated_at = approval.updated_at;
  decided_at = approval.decided_at;
}

-- `UPDATE approvals SET … WHERE` every column of `expected` is unchanged.
unfoldable pub update_where : Approval → Approval → List Approval → Option (List Approval)
update_where expected approval =
    replace_where (λ row. Approval-discrete row expected) (λ row. with_decision row approval)

unfoldable pub replace_body :
    Store → Approval → ApprovalEvent → Approval → Result ApprovalError (Unit {0} × Store)
replace_body store approval event expected = do
  raise_if (not (same_id approval expected)) ApprovalError.identity_changed
  rows ← or_raise (update_where expected approval store.approvals) ApprovalError.changed
  next ← append_approval_events store rows approval event
  ok (tt, next)

unfoldable pub replace :
    Store → Approval → ApprovalEvent → Approval → Result ApprovalError (Unit {0}) × Store
replace store approval event expected = commit store (replace_body store approval event expected)

-- `IS NOT DISTINCT FROM`
abbrev pub not_distinct : Option String → Option String → Bool
not_distinct none none = true
not_distinct (some s) (some t) = same_text s t
not_distinct _ _ = false

-- The columns of a binding, but for its campaign, are those of another.
abbrev pub same_columns : BusinessBinding → BusinessBinding → Bool
same_columns frozen binding =
    frozen.enrollment_version == binding.enrollment_version
    && frozen.link_version == binding.link_version
    && same_text frozen.selection_version binding.selection_version
    && not_distinct frozen.selection_hash binding.selection_hash
    && same_text frozen.rule_snapshot_hash binding.rule_snapshot_hash

-- The columns of a row without a binding are NULL.
abbrev pub differs_from : BusinessBinding → Option BusinessBinding → Bool
differs_from binding none = false
differs_from binding (some frozen) =
    same_text frozen.campaign_id binding.campaign_id && not (same_columns frozen binding)

-- The WHERE clause: the rows that a new binding of their campaign invalidates.
abbrev pub is_outdated : String → BusinessBinding → Approval → Bool
is_outdated tenant_id binding row =
    same_text row.tenant_id tenant_id
    && is_open row.status
    && differs_from binding row.business_binding

abbrev pub invalidate_row : String → BusinessBinding → ℕ → Approval → Approval
invalidate_row tenant_id binding updated_at row =
    if is_outdated tenant_id binding row
    then record row { status = invalidated; updated_at = updated_at }
    else row

-- `_invalidate_campaign_binding`, and `_invalidate` of the invalidation repository: the number of
-- rows, and the rows.
unfoldable pub invalidate_campaign_binding :
    List Approval → String → BusinessBinding → ℕ → ℕ × List Approval
invalidate_campaign_binding rows tenant_id binding updated_at = (
  length (select (is_outdated tenant_id binding) rows),
  map (invalidate_row tenant_id binding updated_at) rows,
)
