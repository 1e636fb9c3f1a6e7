-- ===== src/Approvals/Changes.antt =====
-- What each operation does to the table of approvals: nothing, an insertion of a pending approval,
-- the replacement of a row that is unchanged since it was read, or the invalidation of outdated rows.
use oria.Base.{
  ℕ, String, ◌≡◌, refl, inl, inr, true, false, not, Option, some, List, ◌∷◌, any, Result, ok, err,
  raise_if, or_raise, Reading, instant, leb, arith, Bool-cases, >>=-eq-ok, commit,
}
use oria.Approvals.{
  Approval, ApprovalStatus, expired, invalidated, ApprovalError, BusinessBinding, Decision,
  validate_state, same_text, is_pending, is_open,
}
use oria.Approvals.Store.{
  Store, ApprovalEvent, add, add_body, replace, replace_body, update_where, same_id,
  append_approval_events, invalidate_campaign_binding,
}
use oria.Approvals.Service.{
  Policy, Context, Clock, Write, terminalize, decision_on, ended, decided_by, authorize_decider,
  lacks_reason, Refusal,
}

-- The replacements that the service makes of a row.
pub data Allowed (e r : Approval) : Type 0 where
  closes :
      (status : ApprovalStatus) (now : ℕ)
      → is_open status ≡ false
      → r ≡ record e { status = status; updated_at = now }
      → Allowed e r
  decides :
      (decision : Decision) (reason : Option String) (ctx : Context) (now : ℕ)
      → is_pending e.status ≡ true
      → same_text e.requester ctx.subject_id ≡ false
      → r ≡ decided_by e decision reason ctx now
      → Allowed e r

pub data Change (rows : List Approval) : List Approval → Type 0 where
  same : Change rows rows
  added :
      (a : Approval)
      → is_pending a.status ≡ true
      → any (same_id a) rows ≡ false
      → Change rows (a ∷ rows)
  replaced :
      (e r : Approval) (rows' : List Approval)
      → update_where e r rows ≡ some rows'
      → Allowed e r
      → Change rows rows'
  outdated :
      (tenant_id : String) (binding : BusinessBinding) (now : ℕ)
      → Change rows (invalidate_campaign_binding rows tenant_id binding now).1

pub validate_state_self : (a : Approval) {b : Approval} → validate_state a ≡ ok b → b ≡ a
unfolding validate_state
validate_state_self a h = ground arith

pub terminalize-Allowed :
    (e : Approval) (status : ApprovalStatus) (now : Reading) {r : Approval}
    → is_open status ≡ false
    → terminalize e status now ≡ ok r
    → Allowed e r
unfolding terminalize
terminalize-Allowed e status Reading.naive k h = cc
terminalize-Allowed e status (Reading.aware now) k h =
    closes status now k (validate_state_self (record e { status = status; updated_at = now }) h)

ended-Allowed :
    (e : Approval) (status : ApprovalStatus) (action : String) (refusal : Refusal) (now : Reading)
    {w : Write}
    → is_open status ≡ false
    → ended e status action refusal now ≡ ok w
    → Allowed e w.replacement
ended-Allowed e status action refusal now {w} k h =
    let (r, t, made) = >>=-eq-ok (terminalize e status now) _ h in
    let same : r ≡ w.replacement = ground arith in
    rw (← same) (terminalize-Allowed e status now k t)

append-approvals :
    (s : Store) (rows : List Approval) (a : Approval) (event : ApprovalEvent) {s' : Store}
    → append_approval_events s rows a event ≡ ok s'
    → s'.approvals ≡ rows
unfolding append_approval_events
append-approvals s rows a event h = ground arith

pub commit-Change :
    {A : Type 0} (s : Store) (m : Result ApprovalError (A × Store))
    → ((a : A) (s' : Store) → m ≡ ok (a, s') → Change s.approvals s'.approvals)
    → Change s.approvals (commit s m).1.approvals
commit-Change s (ok (a, s')) h = h a s' refl
commit-Change s (err e) h = same

pub replace-Change :
    (s : Store) (r : Approval) (event : ApprovalEvent) (e : Approval)
    → Allowed e r
    → Change s.approvals (replace s r event e).1.approvals
unfolding replace replace_body
replace-Change s r event e allowed = commit-Change s (replace_body s r event e) λ a s' h.
    let (_, _, h1) = >>=-eq-ok (raise_if (not (same_id r e)) ApprovalError.identity_changed) _ h in
    let (rows, updated, h2) =
      >>=-eq-ok (or_raise (update_where e r s.approvals) ApprovalError.changed) _ h1 in
    let (next, appended, h3) = >>=-eq-ok (append_approval_events s rows r event) _ h2 in
    let q = append-approvals s rows r event appended in
    let made : s'.approvals ≡ rows = ground arith in
    rw made (replaced e r rows (ground arith) allowed)

pub add-Change :
    (s : Store) (a : Approval) (event : ApprovalEvent)
    → is_pending a.status ≡ true
    → Change s.approvals (add s a event).1.approvals
unfolding add add_body
add-Change s a event k = commit-Change s (add_body s a event) λ x s' h.
    let (_, free, h1) =
      >>=-eq-ok (raise_if (any (same_id a) s.approvals) ApprovalError.already_exists) _ h in
    let (next, appended, h2) =
      >>=-eq-ok (append_approval_events s (a ∷ s.approvals) a event) _ h1 in
    let q = append-approvals s (a ∷ s.approvals) a event appended in
    let made : s'.approvals ≡ a ∷ s.approvals = ground arith in rw made (added a k (ground arith))

pub decision_on-Allowed :
    (policy : Policy) (e : Approval) (d : Decision) (reason : Option String) (ctx : Context)
    (clock : Clock) {w : Write}
    → decision_on policy e d reason ctx clock ≡ ok w
    → Allowed e w.replacement
unfolding decision_on authorize_decider
decision_on-Allowed policy e d reason ctx clock {w} h =
    let (_, waits, h1) =
      >>=-eq-ok (raise_if (not (is_pending e.status)) ApprovalError.not_pending) _ h in
    let (_, _, h2) =
      >>=-eq-ok (raise_if (lacks_reason d reason) ApprovalError.reason_required) _ h1 in
    let (version, other, h3) = >>=-eq-ok (authorize_decider policy e ctx) _ h2 in
    let (_, apart, _) =
      >>=-eq-ok (raise_if (same_text e.requester ctx.subject_id) ApprovalError.requester_decides) _
        other in
    elim (Bool-cases (same_text version e.policy_version)) [
      | inr changed ↦
          ended-Allowed e invalidated "approval.invalidated" Refusal.policy_version_changed
            (clock 0) refl (rw changed at h3)
      | inl kept ↦
          let (now, reading, h4) =
            >>=-eq-ok (instant (clock 0) ApprovalError.naive_time) _ (rw kept at h3) in
          elim (Bool-cases (leb e.expires_at now)) [
            | inl late ↦
                ended-Allowed e expired "approval.expired" Refusal.expiry_reached (clock 1) refl
                  (rw late at h4)
            | inr early ↦
                let (r, valid, h5) =
                  >>=-eq-ok (validate_state (decided_by e d reason ctx now)) _ (rw early at h4) in
                let q = validate_state_self (decided_by e d reason ctx now) valid in
                let made : w.replacement ≡ r = ground arith in
                decides d reason ctx now (ground arith) (ground arith) (ground arith)
          ]
    ]
