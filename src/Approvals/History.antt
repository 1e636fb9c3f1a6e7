-- ===== src/Approvals/History.antt =====
-- What holds of approvals in any history: the frozen binding stays, an approval is given once and by
-- someone else, and what has been closed is not opened again.
use oria.Base.{
  ℕ, String, ◌≡◌, refl, sym, ◌∙◌, subst, inl, inr, true, false, ◌&&◌, some, List, [], ◌∷◌, find,
  map, arith, Bool-cases, All, All-replace_where, find-replace_where, find-any, find-map,
}
use oria.Approvals.{
  Approval, Approval-discrete, ApprovalStatus, invalidated, BusinessBinding, same_text, is_pending,
  is_open, is_approved,
}
use oria.Approvals.Store.{
  Store, has_id, same_id, update_where, with_decision, invalidate_campaign_binding, invalidate_row,
  is_outdated,
}
use oria.Approvals.Service.{decided_by}
use oria.Approvals.Frozen.{
  KeepsFrozen, with_decision-KeepsFrozen, KeepsFrozen-refl, KeepsFrozen-trans,
}
use oria.Approvals.Changes.{Allowed, closes, decides, Change, same, added, replaced, outdated}
use oria.Approvals.Calls.{Call, call, run, call-Change}

-- `a'` is a later state of the row `a`.
pub record Evolves (a a' : Approval) : Type 0 where
  pub frozen_stays : KeepsFrozen a a'
  pub decided_once : is_pending a.status ≡ false → is_pending a'.status ≡ false
  pub approved_once :
      is_pending a.status ≡ false → is_approved a'.status ≡ true → is_approved a.status ≡ true
  pub closed_stays : is_open a.status ≡ false → is_open a'.status ≡ false
  pub decision_stays :
      is_pending a.status ≡ false
      → (a'.decider ≡ a.decider) × (a'.decision ≡ a.decision) × (a'.decided_at ≡ a.decided_at)

pub Evolves-refl : (a : Approval) → Evolves a a
Evolves-refl a = record {
  frozen_stays = KeepsFrozen-refl a;
  decided_once = λ h. h;
  approved_once = λ _ h. h;
  closed_stays = λ h. h;
  decision_stays = λ _. (refl, refl, refl);
}

pub Evolves-trans : {a b c : Approval} → Evolves a b → Evolves b c → Evolves a c
Evolves-trans {a} {b} {c} f g = record {
  frozen_stays = KeepsFrozen-trans f.frozen_stays g.frozen_stays;
  decided_once = λ h. g.decided_once (f.decided_once h);
  approved_once = λ h k. f.approved_once h (g.approved_once (f.decided_once h) k);
  closed_stays = λ h. g.closed_stays (f.closed_stays h);
  decision_stays = λ h.
      let x = g.decision_stays (f.decided_once h) in
      let y = f.decision_stays h in (x.0 ∙ y.0, x.1 ∙ y.1, x.2 ∙ y.2);
}

closed_pending : (s : ApprovalStatus) → is_open s ≡ false → is_pending s ≡ false
closed_pending s h = ground arith

closed_approved : (s : ApprovalStatus) → is_open s ≡ false → is_approved s ≡ false
closed_approved s h = ground arith

closing-Evolves :
    (a : Approval) (s : ApprovalStatus) (now : ℕ)
    → is_open s ≡ false
    → Evolves a (record a { status = s; updated_at = now })
closing-Evolves a s now k =
    let p = closed_pending s k in
    let q = closed_approved s k in
    record {
      frozen_stays = with_decision-KeepsFrozen a (record a { status = s; updated_at = now });
      decided_once = λ _. p;
      approved_once = λ _ h. absurd (ground arith);
      closed_stays = λ _. k;
      decision_stays = λ _. (refl, refl, refl);
    }

pending_open : (s : ApprovalStatus) → is_pending s ≡ true → is_open s ≡ true
pending_open s h = ground arith

pub Allowed-Evolves : (e r : Approval) → Allowed e r → Evolves e (with_decision e r)
Allowed-Evolves e r (closes s now k made) = rw made (closing-Evolves e s now k)
Allowed-Evolves e r (decides d reason ctx now waits other made) =
    let o = pending_open e.status waits in
    rw made (record {
      frozen_stays = with_decision-KeepsFrozen e (decided_by e d reason ctx now);
      decided_once = λ h. absurd (ground arith);
      approved_once = λ h _. absurd (ground arith);
      closed_stays = λ h. absurd (ground arith);
      decision_stays = λ h. absurd (ground arith);
    })

invalidate-Evolves :
    (t : String) (b : BusinessBinding) (now : ℕ) (a : Approval)
    → Evolves a (invalidate_row t b now a)
invalidate-Evolves t b now a = elim (Bool-cases (is_outdated t b a)) [
  | inl old ↦ rw old (closing-Evolves a invalidated now refl)
  | inr kept ↦ rw kept (Evolves-refl a)
]

-- The row with an identity is kept, in a later state.
abbrev pub Kept : String → String → List Approval → List Approval → Type 0
Kept t i rows rows' =
    (a : Approval)
    → find (has_id t i) rows ≡ some a
    → (a' : Approval) × (find (has_id t i) rows' ≡ some a') × Evolves a a'

invalidate-has_id :
    (t i t' : String) (b : BusinessBinding) (now : ℕ) (a : Approval)
    → has_id t i (invalidate_row t' b now a) ≡ has_id t i a
invalidate-has_id t i t' b now a = ground arith

two_ids :
    (t i vt vi at ai : String)
    → (same_text at t && same_text ai i) ≡ true
    → (same_text at vt && same_text ai vi) ≡ false
    → (same_text vt t && same_text vi i) ≡ false
two_ids t i vt vi at ai h k = ground arith

Change-Kept : (t i : String) (rows rows' : List Approval) → Change rows rows' → Kept t i rows rows'
unfolding update_where invalidate_campaign_binding
Change-Kept t i rows rows' same a found = (a, found, Evolves-refl a)
Change-Kept t i rows rows' (added v waits free) a found =
    let (hit, clear) = find-any (has_id t i) (same_id v) rows found free in
    (
      a,
      rw (two_ids t i v.tenant_id v.approval_id a.tenant_id a.approval_id hit clear) found,
      Evolves-refl a,
    )
Change-Kept t i rows rows' (replaced e r _ updated allowed) a found =
    let (a', there, which) =
      find-replace_where (λ row. Approval-discrete row e) (λ row. with_decision row r) (has_id t i)
        refl rows a updated found in
    (
      a',
      there,
      elim which [
        | inl kept ↦ subst (Evolves a) (sym kept) (Evolves-refl a)
        | inr (was, now) ↦ rw (was, now) (Allowed-Evolves e r allowed)
      ],
    )
Change-Kept t i rows rows' (outdated t' b now) a found = (
  invalidate_row t' b now a,
  find-map (has_id t i) (invalidate_row t' b now) (invalidate-has_id t i t' b now) rows found,
  invalidate-Evolves t' b now a,
)

-- Whatever calls are made, in whatever order and from however old reads, an approval of the table is
-- kept: its frozen columns (requester, action, arguments, checkpoint, policy version, expiry, business
-- binding) stay, it is approved only while it is pending, a closed one is never opened again, and its
-- decision stays once it has left pending.
pub run-Evolves :
    (s : Store) (cs : List Call) (tenant_id approval_id : String) (a : Approval)
    → find (has_id tenant_id approval_id) s.approvals ≡ some a
    → (a' : Approval) × (find (has_id tenant_id approval_id) (run s cs).approvals ≡ some a')
      × Evolves a a'
unfolding run
run-Evolves s [] t i a found = (a, found, Evolves-refl a)
run-Evolves s (c ∷ cs) t i a found =
    let (b, found_b, f) =
      Change-Kept t i s.approvals (call s c).approvals (call-Change s c) a found in
    let (d, found_d, g) = run-Evolves (call s c) cs t i b found_b in (d, found_d, Evolves-trans f g)

-- An approved row has a decider, who is not its requester.
abbrev pub IsSeparated : Approval → Type 0
IsSeparated a =
    is_approved a.status ≡ true
    → (d : String) × (a.decider ≡ some d) × (same_text a.requester d ≡ false)

pending-IsSeparated : (a : Approval) → is_pending a.status ≡ true → IsSeparated a
pending-IsSeparated a h k = absurd (ground arith)

closed-IsSeparated : (a : Approval) → is_open a.status ≡ false → IsSeparated a
closed-IsSeparated a h k = let q = closed_approved a.status h in absurd (ground arith)

Allowed-IsSeparated : (e r : Approval) → Allowed e r → IsSeparated (with_decision e r)
Allowed-IsSeparated e r (closes s now k made) =
    rw made (closed-IsSeparated (record e { status = s; updated_at = now }) k)
Allowed-IsSeparated e r (decides d reason ctx now waits other made) =
    rw made (λ _. (ctx.subject_id, refl, other))

invalidate-IsSeparated :
    (t : String) (b : BusinessBinding) (now : ℕ) (rows : List Approval)
    → All IsSeparated rows
    → All IsSeparated (map (invalidate_row t b now) rows)
invalidate-IsSeparated t b now [] h = tt
invalidate-IsSeparated t b now (a ∷ rows) h = (
  elim (Bool-cases (is_outdated t b a)) [
    | inl old ↦
        rw old (closed-IsSeparated (record a { status = invalidated; updated_at = now }) refl)
    | inr kept ↦ rw kept h.0
  ],
  invalidate-IsSeparated t b now rows h.1,
)

Change-IsSeparated :
    (rows rows' : List Approval) → Change rows rows' → All IsSeparated rows → All IsSeparated rows'
unfolding update_where invalidate_campaign_binding
Change-IsSeparated rows rows' same h = h
Change-IsSeparated rows rows' (added v waits free) h = (pending-IsSeparated v waits, h)
Change-IsSeparated rows rows' (replaced e r _ updated allowed) h =
    All-replace_where (λ row. Approval-discrete row e) (λ row. with_decision row r) IsSeparated
      IsSeparated (Allowed-IsSeparated e r allowed) (λ a k. k) rows updated h
Change-IsSeparated rows rows' (outdated t b now) h = invalidate-IsSeparated t b now rows h

-- In any history of calls from a table where it holds, every approved approval was decided by
-- someone other than its requester.
pub run-IsSeparated :
    (s : Store) (cs : List Call)
    → All IsSeparated s.approvals
    → All IsSeparated (run s cs).approvals
unfolding run
run-IsSeparated s [] h = h
run-IsSeparated s (c ∷ cs) h =
    run-IsSeparated (call s c) cs
      (Change-IsSeparated s.approvals (call s c).approvals (call-Change s c) h)
