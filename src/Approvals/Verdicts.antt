-- ===== src/Approvals/Verdicts.antt =====
-- When a resume is granted, in terms of the tests that it passes.
use oria.Base.{
  ℕ, ◌<◌, String, ◌≡◌, refl, ap, ◌↔◌, inl, inr, Bool, true, false, not, Option, none, some, Result,
  ok, err, raise_if, or_raise, Reading, instant, leb, arith, Bool-cases, >>=-eq-ok,
}
use oria.Approvals.{
  Approval, ApprovalStatus, invalidated, expired, ApprovalError, BusinessBinding, ToolPolicy,
  ResumeRequest, Rejection, approval_resume_rejection, matches_frozen, is_approved,
}
use oria.Approvals.Store.{Store}
use oria.Approvals.Service.{
  Policy, Context, Clock, authorize, required_approval, terminalize, write_approval,
}
use oria.Approvals.Resume.{
  Reader, Verdict, resumes, ends, ended_by, is_current, binding_verdict, rejection_verdict,
  required_verdict, is_required, resume_verdict, conclude, authorize_resume,
}

-- The business binding of the approval, if it has one, is the current one and the request's.
abbrev pub binding_holds : Option Reader → Option BusinessBinding → ResumeRequest → Context → Bool
binding_holds reader none request ctx = true
binding_holds none (some frozen) request ctx = false
binding_holds (some current) (some frozen) request ctx =
    is_current (current ctx.tenant_id frozen.campaign_id) frozen request.business_binding

-- The tests that a resume with the approval `a` passes.
pub record Passes (policy : Policy) (reader : Option Reader) (seen : Store)
    (request : ResumeRequest) (tool_policy : ToolPolicy) (ctx : Context) (clock : Clock)
    (a : Approval) : Type 0 where
  pub version : String
  pub authorized :
      authorize policy tool_policy.required_action tool_policy.resource_type request.tool_name ctx
      ≡ ok version
  pub needed : is_required tool_policy.approval_mode request.approval_required ≡ true
  pub writes : tool_policy.side_effect ≡ true
  pub approval_id : String
  pub named : request.approval_id ≡ some approval_id
  pub stored : required_approval seen ctx.tenant_id approval_id ≡ ok a
  pub now : ℕ
  pub read : instant (clock 0) ApprovalError.naive_time ≡ ok now
  pub frozen : matches_frozen a request tool_policy version ≡ true
  pub in_time : now < a.expires_at
  pub given : is_approved a.status ≡ true
  pub bound : binding_holds reader a.business_binding request ctx ≡ true

rejection_none :
    (a : Approval) (request : ResumeRequest) (tool_policy : ToolPolicy) (version : String) (now : ℕ)
    → approval_resume_rejection a request tool_policy version now ≡ none
    → (matches_frozen a request tool_policy version ≡ true)
      × (now < a.expires_at)
      × (is_approved a.status ≡ true)
unfolding approval_resume_rejection
rejection_none a request tool_policy version now h =
    elim (Bool-cases (matches_frozen a request tool_policy version)) [
      | inl m ↦ let k = rw m at h in (m, ground arith, ground arith)
      | inr m ↦ let k = rw m at h in absurd (ground arith)
    ]

none_rejection :
    (a : Approval) (request : ResumeRequest) (tool_policy : ToolPolicy) (version : String) (now : ℕ)
    → matches_frozen a request tool_policy version ≡ true
    → now < a.expires_at
    → is_approved a.status ≡ true
    → approval_resume_rejection a request tool_policy version now ≡ none
unfolding approval_resume_rejection
none_rejection a request tool_policy version now m t g =
    let early : leb a.expires_at now ≡ false = ground arith in rw (m, early, g) refl

ended_by-ends :
    {A : Type 0} (e : Approval) (status : ApprovalStatus) (action : String) (x : ApprovalError)
    (now : Reading) (a : Option Approval)
    → ended_by e status action x now ≡ ok (resumes a)
    → A
ended_by-ends e status action x now a h =
    let (r, t, made) = >>=-eq-ok (terminalize e status now) _ h in
    let bad : ends e (record { replacement = r; action = action; refusal = none }) x ≡ resumes a =
      ground arith in
    absurd (ground arith)

binding_resumes :
    (reader : Option Reader) (e : Approval) (request : ResumeRequest) (ctx : Context)
    (now : Reading) (b : Option BusinessBinding) (a : Option Approval)
    → binding_verdict reader e request ctx now b ≡ ok (resumes a)
    → (binding_holds reader b request ctx ≡ true) × (a ≡ some e)
binding_resumes reader e request ctx now none a h = (refl, ground arith)
binding_resumes none e request ctx now (some f) a h = ended_by-ends e invalidated _ _ now a h
binding_resumes (some current) e request ctx now (some f) a h =
    elim (Bool-cases
      (is_current (current ctx.tenant_id f.campaign_id) f request.business_binding)) [
        | inl kept ↦ let k = rw kept at h in (kept, ground arith)
        | inr stale ↦ ended_by-ends e invalidated _ _ now a (rw stale at h)
      ]

rejection_resumes :
    (reader : Option Reader) (e : Approval) (request : ResumeRequest) (ctx : Context)
    (now : Reading) (rejection : Option Rejection) (a : Option Approval)
    → rejection_verdict reader e request ctx now rejection ≡ ok (resumes a)
    → (rejection ≡ none)
      × (binding_holds reader e.business_binding request ctx ≡ true)
      × (a ≡ some e)
rejection_resumes reader e request ctx now (some Rejection.binding) a h =
    ended_by-ends e invalidated _ _ now a h
rejection_resumes reader e request ctx now (some Rejection.expiry) a h =
    ended_by-ends e expired _ _ now a h
rejection_resumes reader e request ctx now (some Rejection.status) a h = cc
rejection_resumes reader e request ctx now none a h =
    let (b, q) = binding_resumes reader e request ctx now e.business_binding a h in (refl, b, q)

raise_if-ok : (b : Bool) (x : ApprovalError) → b ≡ true → raise_if (not b) x ≡ ok tt
raise_if-ok b x h = rw h refl

or_raise-ok :
    {A : Type 0} (o : Option A) (x : ApprovalError) {a : A} → o ≡ some a → or_raise o x ≡ ok a
or_raise-ok o x h = rw h refl

binding_granted :
    (reader : Option Reader) (a : Approval) (request : ResumeRequest) (ctx : Context)
    (now : Reading) (b : Option BusinessBinding)
    → binding_holds reader b request ctx ≡ true
    → binding_verdict reader a request ctx now b ≡ ok (resumes (some a))
binding_granted reader a request ctx now none h = refl
binding_granted none a request ctx now (some f) h = cc
binding_granted (some current) a request ctx now (some f) h = rw h refl

conclude-resumes :
    (s : Store) (m : Result ApprovalError Verdict) (event_id : String) (ctx : Context)
    (a : Approval)
    → (conclude s m event_id ctx).0 ≡ ok (some a)
    → m ≡ ok (resumes (some a))
conclude-resumes s (err x) event_id ctx a h = cc
conclude-resumes s (ok (resumes b)) event_id ctx a h = ground arith
conclude-resumes s (ok (ends e w x)) event_id ctx a h =
    let (_, _, bad) = >>=-eq-ok (write_approval s e w event_id ctx).0 _ h in absurd (ground arith)

module _ (policy : Policy) (reader : Option Reader) (seen store : Store) (request : ResumeRequest)
    (tool_policy : ToolPolicy) (ctx : Context) (event_id : String) (clock : Clock)
    (a : Approval) where
  granted→Passes :
      (authorize_resume policy reader seen store request tool_policy ctx event_id clock).0
        ≡ ok (some a)
      → Passes policy reader seen request tool_policy ctx clock a
  unfolding authorize_resume resume_verdict required_verdict
  granted→Passes h =
      let v =
        conclude-resumes store (resume_verdict policy reader seen request tool_policy ctx clock)
          event_id ctx a h in
      let (version, authorized, h1) =
        >>=-eq-ok
          (authorize policy tool_policy.required_action tool_policy.resource_type request.tool_name
            ctx)
          _ v in
      elim (Bool-cases (is_required tool_policy.approval_mode request.approval_required)) [
        | inr free ↦ let k = rw free at h1 in absurd (ground arith)
        | inl needed ↦
            let (_, writes, h2) =
              >>=-eq-ok (raise_if (not tool_policy.side_effect) ApprovalError.read_only_tool) _
                (rw needed at h1) in
            let (i, named, h3) =
              >>=-eq-ok (or_raise request.approval_id ApprovalError.approval_required) _ h2 in
            let (e, stored, h4) = >>=-eq-ok (required_approval seen ctx.tenant_id i) _ h3 in
            let (now, read, h5) = >>=-eq-ok (instant (clock 0) ApprovalError.naive_time) _ h4 in
            let (free, bound, q) =
              rejection_resumes reader e request ctx (clock 1)
                (approval_resume_rejection e request tool_policy version now) (some a) h5 in
            let (frozen, in_time, given) = rejection_none e request tool_policy version now free in
            let same : a ≡ e = ground arith in
            rw same (record {
              version = version;
              authorized = authorized;
              needed = needed;
              writes = ground arith;
              approval_id = i;
              named = ground arith;
              stored = stored;
              now = now;
              read = read;
              frozen = frozen;
              in_time = in_time;
              given = given;
              bound = bound;
            })
      ]

  Passes→granted :
      Passes policy reader seen request tool_policy ctx clock a
      → authorize_resume policy reader seen store request tool_policy ctx event_id clock
        ≡ (ok (some a), store)
  unfolding authorize_resume resume_verdict required_verdict
  Passes→granted m =
      let free = none_rejection a request tool_policy m.version m.now m.frozen m.in_time m.given in
      let w : raise_if (not tool_policy.side_effect) ApprovalError.read_only_tool ≡ ok tt =
        raise_if-ok tool_policy.side_effect ApprovalError.read_only_tool m.writes in
      let i : or_raise request.approval_id ApprovalError.approval_required ≡ ok m.approval_id =
        or_raise-ok request.approval_id ApprovalError.approval_required m.named in
      rw
        (
          m.authorized,
          m.needed,
          w,
          i,
          m.stored,
          m.read,
          free,
          binding_granted reader a request ctx (clock 1) a.business_binding m.bound,
        )
        refl

  pub granted_iff :
      (authorize_resume policy reader seen store request tool_policy ctx event_id clock
        ≡ (ok (some a), store))
      ↔ Passes policy reader seen request tool_policy ctx clock a
  granted_iff = (
    λ h. granted→Passes (ap (λ (x : Result ApprovalError (Option Approval) × Store). x.0) h),
    Passes→granted,
  )
