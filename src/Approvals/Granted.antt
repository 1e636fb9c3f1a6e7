-- ===== src/Approvals/Granted.antt =====
-- When a resume is granted: the conditions on policy, tool, request and row, apart from the code's tests.
use oria.Base.{
  ℕ, ◌<◌, String, ◌≡◌, refl, ap, ◌∙◌, ◌↔◌, ◌⊎◌, true, Option, some, find, find-holds, ok, aware,
  is-yes, is-true, String_discrete,
}
use oria.Approvals.{
  Approval, Action-discrete, approved, ApprovalError, BusinessBinding, ToolPolicy, conditional,
  required, ResumeRequest, same_text, same_action, policy_action_is, matches_frozen, validate_state,
}
use oria.Approvals.Store.{Store, has_id}
use oria.Approvals.Service.{Policy, PolicyDecision, Context, Clock}
use oria.Approvals.Resume.{Reader, authorize_resume}
use oria.Approvals.Verdicts.{Passes, granted_iff}
use oria.Approvals.Conditions.{
  both, six, constrains-own, authorize-parts, authorize_made, needed-cases, cases-needed,
  stored-parts, stored_made, read_aware, tool_action-some, some-tool_action, is_approved-eq,
  holds-bound, bound_holds,
}

-- Everything that a resume with the approval `a` needs: what policy answers, what the tool asks for, the
-- row that is read, and each frozen field of it.
pub record MayResume (policy : Policy) (reader : Option Reader) (seen : Store)
    (request : ResumeRequest) (tool_policy : ToolPolicy) (ctx : Context) (clock : Clock)
    (a : Approval) : Type 0 where
  pub answer : PolicyDecision
  pub asked :
      policy tool_policy.required_action tool_policy.resource_type request.tool_name ctx ≡ answer
  pub allowed : answer.allow ≡ true
  pub own_tenant : answer.tenant_constraint ≡ some ctx.tenant_id
  pub needed :
      (tool_policy.approval_mode ≡ required)
      ⊎ ((tool_policy.approval_mode ≡ conditional) × (request.approval_required ≡ true))
  pub writes : tool_policy.side_effect ≡ true
  pub approval_id : String
  pub named : request.approval_id ≡ some approval_id
  pub stored : find (has_id ctx.tenant_id approval_id) seen.approvals ≡ some a
  pub tenant : a.tenant_id ≡ ctx.tenant_id
  pub identity : a.approval_id ≡ approval_id
  pub valid : validate_state a ≡ ok a
  pub now : ℕ
  pub read : clock 0 ≡ aware now
  pub action : request.approval_action ≡ a.approval_action
  pub tool : request.tool_name ≡ a.tool_name
  pub arguments : request.canonical_args_hash ≡ a.canonical_args_hash
  pub checkpoint : request.checkpoint_id ≡ a.checkpoint_id
  pub version : answer.policy_version ≡ a.policy_version
  pub tool_action : tool_policy.approval_action ≡ some request.approval_action
  pub in_time : now < a.expires_at
  pub given : a.status ≡ approved
  pub bound :
      (b : BusinessBinding)
      → a.business_binding ≡ some b
      → (request.business_binding ≡ some b)
        × ((current : Reader) × (reader ≡ some current)
            × (current ctx.tenant_id b.campaign_id ≡ some b))

module _ (policy : Policy) (reader : Option Reader) (seen : Store) (request : ResumeRequest)
    (tool_policy : ToolPolicy) (ctx : Context) (clock : Clock) (a : Approval) where
  frozen-parts :
      (version : String)
      → matches_frozen a request tool_policy version ≡ true
      → (same_action request.approval_action a.approval_action ≡ true)
        × (same_text request.tool_name a.tool_name ≡ true)
        × (same_text request.canonical_args_hash a.canonical_args_hash ≡ true)
        × (same_text request.checkpoint_id a.checkpoint_id ≡ true)
        × (same_text version a.policy_version ≡ true)
        × (policy_action_is tool_policy.approval_action request.approval_action ≡ true)
  frozen-parts version h =
      six (same_action request.approval_action a.approval_action)
        (same_text request.tool_name a.tool_name)
        (same_text request.canonical_args_hash a.canonical_args_hash)
        (same_text request.checkpoint_id a.checkpoint_id) (same_text version a.policy_version)
        (policy_action_is tool_policy.approval_action request.approval_action) h

  Passes→MayResume :
      Passes policy reader seen request tool_policy ctx clock a
      → MayResume policy reader seen request tool_policy ctx clock a
  Passes→MayResume m =
      let (allow, constrained, version) =
        authorize-parts policy tool_policy.required_action tool_policy.resource_type
          request.tool_name ctx m.version m.authorized in
      let (there, fine) = stored-parts seen ctx.tenant_id m.approval_id a m.stored in
      let held = find-holds (has_id ctx.tenant_id m.approval_id) seen.approvals there in
      let (h1, h2) = both (same_text a.tenant_id ctx.tenant_id) _ held in
      let (f1, f2, f3, f4, f5, f6) = frozen-parts m.version m.frozen in
      record {
        answer = policy tool_policy.required_action tool_policy.resource_type request.tool_name ctx;
        asked = refl;
        allowed = allow;
        own_tenant = constrains-own _ ctx.tenant_id constrained;
        needed = needed-cases tool_policy.approval_mode request.approval_required m.needed;
        writes = m.writes;
        approval_id = m.approval_id;
        named = m.named;
        stored = there;
        tenant = is-true (String_discrete a.tenant_id ctx.tenant_id) h1;
        identity = is-true (String_discrete a.approval_id m.approval_id) h2;
        valid = fine;
        now = m.now;
        read = read_aware (clock 0) ApprovalError.naive_time m.now m.read;
        action = is-true (Action-discrete request.approval_action a.approval_action) f1;
        tool = is-true (String_discrete request.tool_name a.tool_name) f2;
        arguments = is-true (String_discrete request.canonical_args_hash a.canonical_args_hash) f3;
        checkpoint = is-true (String_discrete request.checkpoint_id a.checkpoint_id) f4;
        version = version ∙ is-true (String_discrete m.version a.policy_version) f5;
        tool_action = tool_action-some tool_policy.approval_action request.approval_action f6;
        in_time = m.in_time;
        given = is_approved-eq a.status m.given;
        bound = holds-bound reader a.business_binding request ctx m.bound;
      }

  MayResume→Passes :
      MayResume policy reader seen request tool_policy ctx clock a
      → Passes policy reader seen request tool_policy ctx clock a
  MayResume→Passes m =
      let answered =
        authorize_made policy tool_policy.required_action tool_policy.resource_type
          request.tool_name ctx (rw m.asked m.allowed) (rw m.asked m.own_tenant) in
      record {
        version = m.answer.policy_version;
        authorized = answered ∙ ap (λ (x : PolicyDecision). ok x.policy_version) m.asked;
        needed = cases-needed tool_policy.approval_mode request.approval_required m.needed;
        writes = m.writes;
        approval_id = m.approval_id;
        named = m.named;
        stored = stored_made seen ctx.tenant_id m.approval_id a m.stored m.valid;
        now = m.now;
        read = rw m.read refl;
        frozen =
            rw
              (
                is-yes (Action-discrete request.approval_action a.approval_action) m.action,
                is-yes (String_discrete request.tool_name a.tool_name) m.tool,
                is-yes (String_discrete request.canonical_args_hash a.canonical_args_hash)
                    m.arguments,
                is-yes (String_discrete request.checkpoint_id a.checkpoint_id) m.checkpoint,
                is-yes (String_discrete m.answer.policy_version a.policy_version) m.version,
                some-tool_action tool_policy.approval_action request.approval_action m.tool_action,
              )
              refl;
        in_time = m.in_time;
        given = rw m.given refl;
        bound = bound_holds reader a.business_binding request ctx m.bound;
      }

  -- A resume is granted with an approval exactly when policy allows it, the tool needs an approval and
  -- writes, the request names that approval, it is stored, valid, approved and not expired, its tenant,
  -- tool, action, arguments and checkpoint are those of the request, its policy version is the one that
  -- policy answers, the action is the one of the tool, and its business binding, if it has one, is that of
  -- the request and current; the store is then unchanged.
  pub resume_iff :
      (store : Store) (event_id : String)
      → (authorize_resume policy reader seen store request tool_policy ctx event_id clock
          ≡ (ok (some a), store))
        ↔ MayResume policy reader seen request tool_policy ctx clock a
  resume_iff store event_id =
      let (f, g) = granted_iff policy reader seen store request tool_policy ctx event_id clock a in
      (λ h. Passes→MayResume (f h), λ m. g (MayResume→Passes m))
