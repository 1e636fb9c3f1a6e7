-- ===== src/Approvals/Conditions.antt =====
-- What each test of a resume says of the request, of the row and of what policy answers.
use oria.Base.{
  ℕ, String, ◌≡◌, refl, ap, subst, ◌∙◌, ◌⊎◌, inl, inr, Bool, true, false, ◌&&◌, Option, none, some,
  find, ok, Reading, aware, naive, instant, is, is-yes, is-true, String_discrete, arith, >>=-eq-ok,
}
use oria.Approvals.{
  Approval, ApprovalAction, Action-discrete, ApprovalStatus, approved, ApprovalError,
  BusinessBinding, Binding-discrete, ApprovalMode, not_required, conditional, required,
  ResumeRequest, policy_action_is, is_approved, validate_state,
}
use oria.Approvals.Store.{Store, has_id, checked_row, get}
use oria.Approvals.Service.{Policy, Context, constrains, authorize, required_approval}
use oria.Approvals.Resume.{Reader, is_current, is_required}
use oria.Approvals.Verdicts.{binding_holds}

pub both : (a b : Bool) → (a && b) ≡ true → (a ≡ true) × (b ≡ true)
both true true h = (refl, refl)
both true false h = cc
both false b h = cc

pub six :
    (a b c d e f : Bool)
    → (a && b && c && d && e && f) ≡ true
    → (a ≡ true) × (b ≡ true) × (c ≡ true) × (d ≡ true) × (e ≡ true) × (f ≡ true)
six a b c d e f h = ground arith

pub constrains-own : (o : Option String) (t : String) → constrains o t ≡ true → o ≡ some t
constrains-own none t h = cc
constrains-own (some s) t h = ap some (is-true (String_discrete s t) h)

pub authorize-parts :
    (policy : Policy) (x y z : String) (ctx : Context) (v : String)
    → authorize policy x y z ctx ≡ ok v
    → ((policy x y z ctx).allow ≡ true)
      × (constrains (policy x y z ctx).tenant_constraint ctx.tenant_id ≡ true)
      × ((policy x y z ctx).policy_version ≡ v)
unfolding authorize
authorize-parts policy x y z ctx v h = ground arith

pub authorize_made :
    (policy : Policy) (x y z : String) (ctx : Context)
    → (policy x y z ctx).allow ≡ true
    → (policy x y z ctx).tenant_constraint ≡ some ctx.tenant_id
    → authorize policy x y z ctx ≡ ok (policy x y z ctx).policy_version
unfolding authorize
authorize_made policy x y z ctx h k =
    rw (h, k, is-yes (String_discrete ctx.tenant_id ctx.tenant_id) refl) refl

pub needed-cases :
    (m : ApprovalMode) (b : Bool)
    → is_required m b ≡ true
    → (m ≡ required) ⊎ ((m ≡ conditional) × (b ≡ true))
needed-cases not_required b h = cc
needed-cases conditional b h = inr (refl, h)
needed-cases required b h = inl refl

pub cases-needed :
    (m : ApprovalMode) (b : Bool)
    → (m ≡ required) ⊎ ((m ≡ conditional) × (b ≡ true))
    → is_required m b ≡ true
cases-needed m b (inl h) = rw h refl
cases-needed m b (inr (h, k)) = rw h k

pub valid_same : (row a : Approval) → validate_state row ≡ ok a → row ≡ a
unfolding validate_state
valid_same row a h = ground arith

pub stored-parts :
    (s : Store) (t i : String) (a : Approval)
    → required_approval s t i ≡ ok a
    → (find (has_id t i) s.approvals ≡ some a) × (validate_state a ≡ ok a)
unfolding required_approval get
stored-parts s t i a h =
    let (found, got, h1) = >>=-eq-ok (checked_row (find (has_id t i) s.approvals)) _ h in
    let q : found ≡ some a = ground arith in
    row_parts (find (has_id t i) s.approvals) (got ∙ ap ok q)
  where
    row_parts :
        (o : Option Approval)
        → checked_row o ≡ ok (some a)
        → (o ≡ some a) × (validate_state a ≡ ok a)
    row_parts none k = absurd (ground arith)
    row_parts (some row) k =
        let (b, fine, k1) = >>=-eq-ok (validate_state row) _ k in
        let same = valid_same row b fine in
        let q : b ≡ a = ground arith in
        let row_eq : row ≡ a = same ∙ q in
        (ap some row_eq, subst (λ x. validate_state x ≡ ok a) row_eq (fine ∙ ap ok q))

pub stored_made :
    (s : Store) (t i : String) (a : Approval)
    → find (has_id t i) s.approvals ≡ some a
    → validate_state a ≡ ok a
    → required_approval s t i ≡ ok a
unfolding required_approval get
stored_made s t i a h k = rw (h, k) refl

pub read_aware : (r : Reading) (e : ApprovalError) (now : ℕ) → instant r e ≡ ok now → r ≡ aware now
read_aware naive e now h = cc
read_aware (aware t) e now h = ground arith

pub tool_action-some :
    (o : Option ApprovalAction) (x : ApprovalAction) → policy_action_is o x ≡ true → o ≡ some x
tool_action-some none x h = cc
tool_action-some (some y) x h = ap some (is-true (Action-discrete y x) h)

pub some-tool_action :
    (o : Option ApprovalAction) (x : ApprovalAction) → o ≡ some x → policy_action_is o x ≡ true
some-tool_action o x h = rw h (is-yes (Action-discrete x x) refl)

pub is_approved-eq : (s : ApprovalStatus) → is_approved s ≡ true → s ≡ approved
is_approved-eq s h = ground arith

-- The current binding, the frozen one and the one of the request are one.
pub current-same :
    (now asked : Option BusinessBinding) (frozen : BusinessBinding)
    → is_current now frozen asked ≡ true
    → (asked ≡ some frozen) × (now ≡ some frozen)
current-same none asked frozen h = cc
current-same (some c) none frozen h = cc
current-same (some c) (some d) frozen h =
    let (p, q) = both (is (Binding-discrete c frozen)) _ h in
    let same = is-true (Binding-discrete c frozen) p in
    (ap some (is-true (Binding-discrete d c) q ∙ same), ap some same)

pub same-current :
    (now asked : Option BusinessBinding) (frozen : BusinessBinding)
    → asked ≡ some frozen
    → now ≡ some frozen
    → is_current now frozen asked ≡ true
same-current now asked frozen h k = rw (h, k, is-yes (Binding-discrete frozen frozen) refl) refl

pub holds-bound :
    (reader : Option Reader) (o : Option BusinessBinding) (request : ResumeRequest) (ctx : Context)
    → binding_holds reader o request ctx ≡ true
    → (b : BusinessBinding) → o ≡ some b
    → (request.business_binding ≡ some b)
      × ((current : Reader) × (reader ≡ some current)
          × (current ctx.tenant_id b.campaign_id ≡ some b))
holds-bound reader none request ctx h b q = cc
holds-bound none (some f) request ctx h b q = cc
holds-bound (some current) (some f) request ctx h b q =
    let (asked, now) =
      current-same (current ctx.tenant_id f.campaign_id) request.business_binding f h in
    let same : f ≡ b = ground arith in
    (
      asked ∙ ap some same,
      (
        current,
        refl,
        subst (λ (x : BusinessBinding). current ctx.tenant_id x.campaign_id ≡ some x) same now,
      ),
    )

pub bound_holds :
    (reader : Option Reader) (o : Option BusinessBinding) (request : ResumeRequest) (ctx : Context)
    → ((b : BusinessBinding)
        → o ≡ some b
        → (request.business_binding ≡ some b)
          × ((current : Reader) × (reader ≡ some current)
              × (current ctx.tenant_id b.campaign_id ≡ some b)))
    → binding_holds reader o request ctx ≡ true
bound_holds reader none request ctx h = refl
bound_holds reader (some f) request ctx h =
    let (asked, (current, given, now)) = h f refl in
    rw given
      (same-current (current ctx.tenant_id f.campaign_id) request.business_binding f asked now)
