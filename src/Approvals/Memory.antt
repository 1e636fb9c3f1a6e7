-- ===== src/Approvals/Memory.antt =====
-- src/oria/core/approvals.py: InMemoryApprovalRepository. The dictionary is the list of its values
-- in the order of insertion; the key of a value is its tenant and identity.
use oria.Base.{
  ℕ, suc, String, Bool, false, none, some, ◌&&◌, ◌||◌, not, Option, List, [], ◌∷◌, ◌++◌, any, find,
  Result, ok, ◌>>=◌, ◌>>◌, raise_if, or_raise, is, if◌then◌else◌,
}
use oria.Approvals.{
  Approval, Approval-discrete, ApprovalError, BusinessBinding, Binding-discrete, invalidated,
  is_pending, is_approved, same_text,
}
use oria.Approvals.Store.{has_id, same_id}

unfoldable pub add_item : List Approval → Approval → Result ApprovalError (List Approval)
add_item items approval = do
  raise_if (any (same_id approval) items) ApprovalError.already_exists
  ok (items ++ (approval ∷ []))

unfoldable pub get_item : List Approval → String → String → Option Approval
get_item items tenant_id approval_id = find (has_id tenant_id approval_id) items

-- `self._items[key] = approval`, for a key that is there.
unfoldable pub set_item : Approval → List Approval → List Approval
set_item approval [] = []
set_item approval (row ∷ items) =
    if same_id approval row then approval ∷ items else row ∷ set_item approval items

unfoldable pub replace_item :
    List Approval → Approval → Approval → Result ApprovalError (List Approval)
replace_item items approval expected = do
  current ←
      or_raise (find (has_id approval.tenant_id approval.approval_id) items)
        ApprovalError.unavailable
  raise_if (not (is (Approval-discrete current expected))) ApprovalError.changed
  ok (set_item approval items)

abbrev pub holds_other : BusinessBinding → Option BusinessBinding → Bool
holds_other binding none = false
holds_other binding (some frozen) =
    same_text frozen.campaign_id binding.campaign_id && not (is (Binding-discrete frozen binding))

-- The condition of the loop of `invalidate_campaign_binding`.
abbrev pub is_stale : String → BusinessBinding → Approval → Bool
is_stale tenant_id binding item =
    same_text item.tenant_id tenant_id
    && (is_pending item.status || is_approved item.status)
    && holds_other binding item.business_binding

abbrev pub invalidated_item : ℕ → Approval → Approval
invalidated_item now item = record item { status = invalidated; updated_at = now }

-- The loop: the count, and the items.
unfoldable pub invalidate_items : List Approval → String → BusinessBinding → ℕ → ℕ × List Approval
invalidate_items [] tenant_id binding updated_at = (0, [])
invalidate_items (item ∷ items) tenant_id binding updated_at =
    let rest = invalidate_items items tenant_id binding updated_at in
    if is_stale tenant_id binding item
    then (suc rest.0, invalidated_item updated_at item ∷ rest.1)
    else (rest.0, item ∷ rest.1)
