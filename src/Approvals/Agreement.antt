-- ===== src/Approvals/Agreement.antt =====
-- The repository in memory does what the tables do: a guarded update, and the invalidation of the
-- rows of a campaign.
use oria.Base.{
  ℕ, String, ◌≡◌, refl, sym, ap, subst, ◌↔◌, inl, inr, ◌∙◌, true, false, not, ◌&&◌, ◌||◌, Option,
  none, some, List, [], ◌∷◌, any, find, find-any, ok, raise_if, or_raise, is, is-yes, is-true,
  arith, Bool-cases, Option-cases, >>=-eq-ok, String_discrete, replace_where, replace_where_here,
  replace_where_next,
}
use oria.Approvals.{
  Approval, Approval-discrete, ApprovalStatus, ApprovalError, BusinessBinding, same_text,
  is_pending, is_approved, is_open,
}
use oria.Approvals.Store.{
  has_id, same_id, with_decision, update_where, differs_from, is_outdated,
  invalidate_campaign_binding,
}
use oria.Approvals.Memory.{set_item, replace_item, holds_other, is_stale, invalidate_items}
use oria.Approvals.Frozen.{KeepsFrozen, with_decision-eq}
use oria.Approvals.Bindings.{same_columns-discrete}

-- No two rows have the same tenant and identity.
abbrev pub AreDistinct : List Approval → Type 0
AreDistinct [] = Unit
AreDistinct (row ∷ rows) = (any (same_id row) rows ≡ false) × AreDistinct rows

third_id :
    (t i rt ri et ei : String)
    → (same_text rt t && same_text ri i) ≡ true
    → (same_text et t && same_text ei i) ≡ true
    → (same_text et rt && same_text ei ri) ≡ true
third_id t i rt ri et ei h k = ground arith

own_id : (a : Approval) → same_id a a ≡ true
own_id a =
    let t = is-yes (String_discrete a.tenant_id a.tenant_id) refl in
    let i = is-yes (String_discrete a.approval_id a.approval_id) refl in ground arith

-- `a` is `e` with the columns of a decision changed.
module _ (a e : Approval) (kept : KeepsFrozen e a) where
  frozen : a ≡ with_decision e a
  frozen = with_decision-eq e a kept

  own_row : same_id a e ≡ true
  own_row = subst (λ x. has_id x.tenant_id x.approval_id e ≡ true) (sym frozen) (own_id e)

  other_row :
      (row : Approval) (rows : List Approval)
      → any (same_id row) rows ≡ false
      → find (same_id a) rows ≡ some e
      → same_id a row ≡ false
  other_row row rows apart found = elim (Bool-cases (same_id a row)) [
    | inr miss ↦ miss
    | inl hit ↦
        let (own, clear) = find-any (same_id a) (same_id row) rows found apart in
        let met =
          third_id a.tenant_id a.approval_id row.tenant_id row.approval_id e.tenant_id e.approval_id
            hit own in
        absurd (ground arith)
  ]

  missed : (row : Approval) → row ≡ e → same_id a row ≡ false → ⊥
  missed row q miss =
      let hit : same_id a row ≡ true = subst (λ x. same_id a x ≡ true) (sym q) own_row in
      ground arith

  found_update :
      (rows : List Approval)
      → find (same_id a) rows ≡ some e
      → update_where e a rows ≡ some (set_item a rows)
  unfolding update_where replace_where set_item
  found_update [] h = cc
  found_update (row ∷ rows) h = elim (Bool-cases (same_id a row)) [
    | inl hit ↦
        let q : row ≡ e = let k = rw hit at h in ground arith in
        let made : with_decision row a ≡ a = ap (λ x. with_decision x a) q ∙ sym frozen in
        rw hit (
          replace_where_here (λ x. Approval-discrete x e) (λ x. with_decision x a) row rows q
          ∙ ap (λ x. some (x ∷ rows)) made)
    | inr miss ↦
        let found : find (same_id a) rows ≡ some e = rw miss at h in
        let rest = found_update rows found in
        rw miss (
          replace_where_next (λ x. Approval-discrete x e) (λ x. with_decision x a) row rows
            (λ q. missed row q miss) rest)
  ]

  update_found :
      (rows rows' : List Approval)
      → AreDistinct rows
      → update_where e a rows ≡ some rows'
      → find (same_id a) rows ≡ some e
  unfolding update_where replace_where
  update_found [] rows' d h = cc
  update_found (row ∷ rows) rows' d h = elim (Approval-discrete row e) [
    | yes q ↦
        let hit : same_id a row ≡ true = subst (λ x. same_id a x ≡ true) (sym q) own_row in
        rw hit (ap some q)
    | no n ↦ elim (Option-cases (update_where e a rows)) [
      | inl gone ↦ absurd (ground arith)
      | inr (updated, there) ↦
          let rest = update_found rows updated d.1 there in
          let miss = other_row row rows d.0 rest in rw miss rest
    ]
  ]

replace_item-found :
    (rows rows' : List Approval) (a e : Approval)
    → replace_item rows a e ≡ ok rows'
    → (find (same_id a) rows ≡ some e) × (set_item a rows ≡ rows')
unfolding replace_item
replace_item-found rows rows' a e h =
    let (current, found, h1) =
      >>=-eq-ok (or_raise (find (same_id a) rows) ApprovalError.unavailable) _ h in
    let (_, same, h2) =
      >>=-eq-ok (raise_if (not (is (Approval-discrete current e))) ApprovalError.changed) _ h1 in
    let q : current ≡ e = is-true (Approval-discrete current e) (ground arith) in
    (ground arith, ground arith)

found-replace_item :
    (rows : List Approval) (a e : Approval)
    → find (same_id a) rows ≡ some e
    → replace_item rows a e ≡ ok (set_item a rows)
unfolding replace_item
found-replace_item rows a e h = rw (h, is-yes (Approval-discrete e e) refl) refl

-- Where no two rows have the same tenant and identity, and a replacement has the frozen columns of the
-- row that it expects, the repository in memory accepts the replacement exactly when the UPDATE of the
-- table finds its row, and both leave the same rows.
pub replace_iff :
    (rows rows' : List Approval) (a e : Approval)
    → AreDistinct rows
    → KeepsFrozen e a
    → (replace_item rows a e ≡ ok rows') ↔ (update_where e a rows ≡ some rows')
replace_iff rows rows' a e d kept = (
  λ h.
      let (found, made) = replace_item-found rows rows' a e h in
      found_update a e kept rows found ∙ ap some made,
  λ h.
      let found = update_found a e kept rows rows' d h in
      let made : some (set_item a rows) ≡ some rows' = sym (found_update a e kept rows found) ∙ h in
      found-replace_item rows a e found ∙ ground arith,
)

holds_other-differs :
    (b : BusinessBinding) (o : Option BusinessBinding) → holds_other b o ≡ differs_from b o
holds_other-differs b none = refl
holds_other-differs b (some f) = elim (Bool-cases (same_text f.campaign_id b.campaign_id)) [
  | inl same ↦
      let c = is-true (String_discrete f.campaign_id b.campaign_id) same in
      rw same (ap not (sym (same_columns-discrete f b c)))
  | inr other ↦ rw other refl
]

open_eq : (s : ApprovalStatus) → (is_pending s || is_approved s) ≡ is_open s
open_eq s = ground arith

-- The condition in memory is the one of the table.
is_stale-outdated :
    (t : String) (b : BusinessBinding) (row : Approval) → is_stale t b row ≡ is_outdated t b row
is_stale-outdated t b row = rw (open_eq row.status, holds_other-differs b row.business_binding) refl

-- The loop of the repository in memory, which compares whole bindings, invalidates the rows that the
-- UPDATE of the table does, which compares their columns, and returns the number of them.
pub invalidate_items_eq :
    (rows : List Approval) (tenant_id : String) (binding : BusinessBinding) (now : ℕ)
    → invalidate_items rows tenant_id binding now
      ≡ invalidate_campaign_binding rows tenant_id binding now
unfolding invalidate_items invalidate_campaign_binding
invalidate_items_eq [] t b now = refl
invalidate_items_eq (row ∷ rows) t b now =
    let rest = invalidate_items_eq rows t b now in
    elim (Bool-cases (is_outdated t b row)) [
      | inl old ↦ rw (is_stale-outdated t b row, old, rest) refl
      | inr kept ↦ rw (is_stale-outdated t b row, kept, rest) refl
    ]
