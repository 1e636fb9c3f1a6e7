-- ===== src/Approvals/Operations.antt =====
-- What each operation of the service and of the consumer does to the table of approvals.
use oria.Base.{
  ℕ, String, ◌≡◌, refl, inl, inr, Bool, true, false, not, Option, none, some, any, Result, ok, err,
  raise_if, or_raise, Reading, instant, leb, arith, Bool-cases, >>=-eq-ok, subst, length, select,
  ◌==◌,
}
use oria.Approvals.{
  Approval, ApprovalStatus, invalidated, expired, ApprovalError, BusinessBinding, Decision,
  ToolPolicy, ResumeRequest, Rejection, approval_resume_rejection, same_text, is_pending, is_open,
  is_invalidated,
}
use oria.Approvals.Store.{Store, InvalidationStatus, invalidate_campaign_binding}
use oria.Approvals.Service.{
  Policy, Context, Clock, Write, Proposal, creation, new_approval, then_add, decision_read,
  decision_on, required_approval, then_write, write_approval, unexpected, request_action, authorize,
  invalidation_of, then_invalidate, terminalize,
}
use oria.Approvals.Resume.{
  Reader, Verdict, resumes, ends, ended_by, is_current, binding_verdict, rejection_verdict,
  required_verdict, is_required, resume_verdict, conclude,
}
use oria.Approvals.Invalidation.{
  Faults, read_or_fail, Fact, of_fact, already_applied, consume, record_pending, record_new,
  get_status, after_record, after_apply, apply_or_fail, apply_fact, apply_body, mark_reconciliation,
  is_applied, is_unapplied,
}
use oria.Approvals.Changes.{
  Allowed, Change, same, outdated, validate_state_self, terminalize-Allowed, commit-Change,
  replace-Change, add-Change, decision_on-Allowed,
}

write-Change :
    (s : Store) (e : Approval) (w : Write) (event_id : String) (ctx : Context)
    → Allowed e w.replacement
    → Change s.approvals (write_approval s e w event_id ctx).1.approvals
unfolding write_approval
write-Change s e w event_id ctx allowed = replace-Change s w.replacement _ e allowed

pub then_add-Change :
    (s : Store) (m : Result ApprovalError Approval) (event_id : String) (ctx : Context)
    → ((a : Approval) → m ≡ ok a → is_pending a.status ≡ true)
    → Change s.approvals (then_add s m event_id ctx).1.approvals
then_add-Change s (err e) event_id ctx h = same
then_add-Change s (ok a) event_id ctx h = add-Change s a _ (h a refl)

pub creation_pending :
    (policy : Policy) (proposal : Proposal) (approval_id : String) (ctx : Context) (now : Reading)
    (a : Approval)
    → creation policy proposal approval_id ctx now ≡ ok a
    → is_pending a.status ≡ true
unfolding creation
creation_pending policy proposal approval_id ctx Reading.naive a h = cc
creation_pending policy proposal approval_id ctx (Reading.aware now) a h =
    let (_, _, h1) =
      >>=-eq-ok (raise_if (leb proposal.expires_at now) ApprovalError.expiry_passed) _ h in
    let (version, _, h2) =
      >>=-eq-ok
        (authorize policy (request_action proposal.approval_action) "approval"
          proposal.checkpoint_id ctx)
        _ h1 in
    let q = validate_state_self (new_approval proposal approval_id version ctx now) h2 in rw q refl

pub then_write-Change :
    (s : Store) (m : Result ApprovalError (Approval × Write)) (event_id : String) (ctx : Context)
    → ((e : Approval) (w : Write) → m ≡ ok (e, w) → Allowed e w.replacement)
    → Change s.approvals (then_write s m event_id ctx).1.approvals
then_write-Change s (err x) event_id ctx h = same
then_write-Change s (ok (e, w)) event_id ctx h = write-Change s e w event_id ctx (h e w refl)

pub decision_read-Allowed :
    (policy : Policy) (seen : Store) (t i : String) (d : Decision) (reason : Option String)
    (ctx : Context) (expected : Option Approval) (clock : Clock) (e : Approval) (w : Write)
    → decision_read policy seen t i d reason ctx expected clock ≡ ok (e, w)
    → Allowed e w.replacement
unfolding decision_read
decision_read-Allowed policy seen t i d reason ctx expected clock e w h =
    let (_, _, h1) =
      >>=-eq-ok (raise_if (not (same_text t ctx.tenant_id)) ApprovalError.cross_tenant) _ h in
    let (a, _, h2) = >>=-eq-ok (required_approval seen t i) _ h1 in
    let (_, _, h3) = >>=-eq-ok (raise_if (unexpected expected a) ApprovalError.changed) _ h2 in
    let (v, made, h4) = >>=-eq-ok (decision_on policy a d reason ctx clock) _ h3 in
    let p : a ≡ e = ground arith in
    let q : v ≡ w = ground arith in
    rw (← p, ← q) (decision_on-Allowed policy a d reason ctx clock made)

pub then_invalidate-Change :
    (s : Store) (m : Result ApprovalError (Approval × Option Write)) (event_id : String)
    (ctx : Context)
    → ((e : Approval) (w : Write) → m ≡ ok (e, some w) → Allowed e w.replacement)
    → Change s.approvals (then_invalidate s m event_id ctx).1.approvals
then_invalidate-Change s (err x) event_id ctx h = same
then_invalidate-Change s (ok (e, none)) event_id ctx h = same
then_invalidate-Change s (ok (e, some w)) event_id ctx h =
    write-Change s e w event_id ctx (h e w refl)

pub invalidation_of-Allowed :
    (seen : Store) (a : Approval) (ctx : Context) (clock : Clock) (e : Approval) (w : Write)
    → invalidation_of seen a ctx clock ≡ ok (e, some w)
    → Allowed e w.replacement
unfolding invalidation_of
invalidation_of-Allowed seen a ctx clock e w h =
    let (_, _, h1) =
      >>=-eq-ok (raise_if (not (same_text a.tenant_id ctx.tenant_id)) ApprovalError.cross_tenant) _
        h in
    let (c, _, h2) = >>=-eq-ok (required_approval seen a.tenant_id a.approval_id) _ h1 in
    elim (Bool-cases (is_invalidated c.status)) [
      | inl already ↦ let bad = rw already at h2 in absurd (ground arith)
      | inr live ↦
          let (_, _, h3) =
            >>=-eq-ok (raise_if (not (is_open c.status)) ApprovalError.not_invalidatable) _
              (rw live at h2) in
          let (r, t, h4) = >>=-eq-ok (terminalize c invalidated (clock 0)) _ h3 in
          let p : c ≡ e = ground arith in
          let q : r ≡ w.replacement = ground arith in
          rw (← p, ← q) (terminalize-Allowed c invalidated (clock 0) refl t)
    ]

-- A verdict that ends an approval ends the one that was read.
abbrev pub IsSafe : Verdict → Type 0
IsSafe (resumes a) = Unit {0}
IsSafe (ends e w x) = Allowed e w.replacement

pub conclude-Change :
    (s : Store) (m : Result ApprovalError Verdict) (event_id : String) (ctx : Context)
    → ((v : Verdict) → m ≡ ok v → IsSafe v)
    → Change s.approvals (conclude s m event_id ctx).1.approvals
conclude-Change s (err x) event_id ctx h = same
conclude-Change s (ok (resumes a)) event_id ctx h = same
conclude-Change s (ok (ends e w x)) event_id ctx h =
    write-Change s e w event_id ctx (h (ends e w x) refl)

ended_by-IsSafe :
    (e : Approval) (status : ApprovalStatus) (action : String) (x : ApprovalError) (now : Reading)
    (v : Verdict)
    → is_open status ≡ false
    → ended_by e status action x now ≡ ok v
    → IsSafe v
ended_by-IsSafe e status action x now v k h =
    let (r, t, made) = >>=-eq-ok (terminalize e status now) _ h in
    let same_verdict : v ≡ ends e (record { replacement = r; action = action; refusal = none }) x =
      ground arith in
    rw same_verdict (terminalize-Allowed e status now k t)

binding_verdict-IsSafe :
    (reader : Option Reader) (a : Approval) (request : ResumeRequest) (ctx : Context)
    (now : Reading) (frozen : Option BusinessBinding) (v : Verdict)
    → binding_verdict reader a request ctx now frozen ≡ ok v
    → IsSafe v
binding_verdict-IsSafe reader a request ctx now none v h =
    let q : v ≡ resumes (some a) = ground arith in rw q tt
binding_verdict-IsSafe none a request ctx now (some f) v h =
    ended_by-IsSafe a invalidated _ _ now v refl h
binding_verdict-IsSafe (some reader) a request ctx now (some f) v h =
    elim (Bool-cases (is_current (reader ctx.tenant_id f.campaign_id) f request.business_binding)) [
      | inl current ↦
          let k = rw current at h in let q : v ≡ resumes (some a) = ground arith in rw q tt
      | inr stale ↦ ended_by-IsSafe a invalidated _ _ now v refl (rw stale at h)
    ]

rejection_verdict-IsSafe :
    (reader : Option Reader) (a : Approval) (request : ResumeRequest) (ctx : Context)
    (now : Reading) (rejection : Option Rejection) (v : Verdict)
    → rejection_verdict reader a request ctx now rejection ≡ ok v
    → IsSafe v
rejection_verdict-IsSafe reader a request ctx now (some Rejection.binding) v h =
    ended_by-IsSafe a invalidated _ _ now v refl h
rejection_verdict-IsSafe reader a request ctx now (some Rejection.expiry) v h =
    ended_by-IsSafe a expired _ _ now v refl h
rejection_verdict-IsSafe reader a request ctx now (some Rejection.status) v h = cc
rejection_verdict-IsSafe reader a request ctx now none v h =
    binding_verdict-IsSafe reader a request ctx now a.business_binding v h

pub resume_verdict-IsSafe :
    (policy : Policy) (reader : Option Reader) (seen : Store) (request : ResumeRequest)
    (tool_policy : ToolPolicy) (ctx : Context) (clock : Clock) (v : Verdict)
    → resume_verdict policy reader seen request tool_policy ctx clock ≡ ok v
    → IsSafe v
unfolding resume_verdict required_verdict
resume_verdict-IsSafe policy reader seen request tool_policy ctx clock v h =
    let (version, _, h1) =
      >>=-eq-ok
        (authorize policy tool_policy.required_action tool_policy.resource_type request.tool_name
          ctx)
        _ h in
    elim (Bool-cases (is_required tool_policy.approval_mode request.approval_required)) [
      | inr free ↦ let k = rw free at h1 in let q : v ≡ resumes none = ground arith in rw q tt
      | inl needed ↦
          let (_, _, h2) =
            >>=-eq-ok (raise_if (not tool_policy.side_effect) ApprovalError.read_only_tool) _
              (rw needed at h1) in
          let (i, _, h3) =
            >>=-eq-ok (or_raise request.approval_id ApprovalError.approval_required) _ h2 in
          let (a, _, h4) = >>=-eq-ok (required_approval seen ctx.tenant_id i) _ h3 in
          let (now, _, h5) = >>=-eq-ok (instant (clock 0) ApprovalError.naive_time) _ h4 in
          rejection_verdict-IsSafe reader a request ctx (clock 1)
            (approval_resume_rejection a request tool_policy version now) v h5
    ]

record_new-approvals :
    (faults : Faults) (s : Store) (fact : Fact)
    (m : Result ApprovalError (Option InvalidationStatus))
    → (record_new faults s fact m).1.approvals ≡ s.approvals
record_new-approvals faults s fact (err x) = refl
record_new-approvals faults s fact (ok (some status)) = refl
record_new-approvals faults s fact (ok none) = elim (Bool-cases faults.insert) [
  | inl failed ↦ rw failed refl
  | inr works ↦ elim (Bool-cases (any (of_fact fact) s.invalidations)) [
    | inl there ↦ rw (works, there) refl
    | inr free ↦ rw (works, free) refl
  ]
]

-- A committed application has invalidated the outdated rows.
pub apply_body-approvals :
    (s : Store) (fact : Fact) (n : ℕ) (s' : Store)
    → apply_body s fact ≡ ok (n, s')
    → s'.approvals
      ≡ (invalidate_campaign_binding s.approvals fact.tenant_id fact.binding fact.occurred_at).1
unfolding apply_body
apply_body-approvals s fact n s' h =
    elim (Bool-cases (length (select (is_unapplied fact) s.invalidations) == 1)) [
      | inl one ↦ let k = rw one at h in ground arith
      | inr other ↦
          let (status, _, h1) = >>=-eq-ok (get_status _ fact) _ (rw other at h) in
          let (_, _, h2) =
            >>=-eq-ok
              (raise_if (not (already_applied status)) ApprovalError.invalidation_unavailable) _
              h1 in
          ground arith
    ]

apply_fact-Change : (s : Store) (fact : Fact) → Change s.approvals (apply_fact s fact).1.approvals
unfolding apply_fact
apply_fact-Change s fact = commit-Change s (apply_body s fact) λ n s' h.
    rw (apply_body-approvals s fact n s' h) (outdated fact.tenant_id fact.binding fact.occurred_at)

after_apply-approvals :
    (fails : Bool) (fact : Fact) (out : Result ApprovalError ℕ × Store)
    → (after_apply fails fact out).1.approvals ≡ out.1.approvals
unfolding mark_reconciliation
after_apply-approvals fails fact (ok n, s) = refl
after_apply-approvals true fact (err x, s) = refl
after_apply-approvals false fact (err x, s) = refl

attempt-Change :
    (apply mark : Bool) (s : Store) (fact : Fact)
    → Change s.approvals (after_apply mark fact (apply_or_fail apply s fact)).1.approvals
attempt-Change true mark s fact =
    rw (after_apply-approvals mark fact (apply_or_fail true s fact)) same
attempt-Change false mark s fact =
    rw (after_apply-approvals mark fact (apply_or_fail false s fact)) (apply_fact-Change s fact)

after_record-Change :
    (faults : Faults) (fact : Fact) (out : Result ApprovalError InvalidationStatus × Store)
    → Change out.1.approvals (after_record faults fact out).1.approvals
after_record-Change faults fact (err x, s) = same
after_record-Change faults fact (ok status, s) = elim (Bool-cases (is_applied status)) [
  | inl done ↦ rw done same
  | inr open_still ↦ rw open_still (attempt-Change faults.apply faults.mark s fact)
]

pub consume-Change :
    (faults : Faults) (s : Store) (fact : Fact)
    → Change s.approvals (consume faults s fact).1.approvals
unfolding consume record_pending
consume-Change faults s fact =
    let read = read_or_fail faults.first_read s fact in
    let recorded = record_new faults s fact read in
    let same_rows = record_new-approvals faults s fact read in
    subst (λ rows. Change rows (after_record faults fact recorded).1.approvals) same_rows
      (after_record-Change faults fact recorded)
