-- ===== src/Ledger/Steps.antt =====
-- What every transaction of src/oria/storage/ledger.py and src/oria/core/execution_ledger.py does to
-- the table of executions, for any lawful relation.
use oria.Base.{
  String, ◌≡◌, refl, inl, inr, not, Option, none, some, List, ◌∷◌, find, any, Result, ok, err,
  Reading, instant, arith, is, String_discrete, Bool-cases, Option-cases, >>=-eq-ok, >>-eq-ok, ◌>>◌,
  raise_if, commit,
}
use oria.Ledger.{
  ExecutionStatus, reserved, executing, succeeded, ToolExecution, LedgerError, is_reserved,
}
use oria.Ledger.Repository.{
  Store, Evidence, clashes, transition, reserve_with_status, reserve_for_request, request_body,
  has_request, RequestBinding, find_by_idempotency, bind_request, bound_request,
}
use oria.Ledger.Outcome.{
  Request, apply_write, apply_projection, validate_outcome, validate_tenant_bundle, commit_outcome,
  outcome_body, local_body, record_local_success,
}
use oria.Ledger.Events.{EventBundle, append_bundle}
use oria.Ledger.Transition.{transition-Moved}
use oria.Ledger.Law.{Relation, Law}

pub commit_lawful :
    {A B : Type 0} {R : Relation} (law : Law R) (s : Store B) (m : Result LedgerError (A × Store B))
    → ((a : A) (s' : Store B) → m ≡ ok (a, s') → R s.executions s'.executions)
    → R s.executions (commit s m).1.executions
commit_lawful law s (ok (a, s')) h = h a s' refl
commit_lawful law s (err e) h = law.stays s.executions

pub transition_lawful :
    {R : Relation} (law : Law R) (rows : List ToolExecution) (t i : String)
    (target expected : ExecutionStatus) (now : Reading) (evidence : Evidence) {e : ToolExecution}
    {rows' : List ToolExecution}
    → transition rows t i target expected now evidence ≡ ok (e, rows')
    → R rows rows'
transition_lawful law rows t i target expected now evidence {e} {rows'} h =
    law.moves rows t i target expected e rows'
      (transition-Moved rows t i target expected now evidence h)

module _ {B : Type 0} {R : Relation} (law : Law R) where
  pub reserve_lawful :
      (s : Store B) (e : ToolExecution) → R s.executions (reserve_with_status s e).1.executions
  unfolding reserve_with_status
  reserve_lawful s e = elim (Bool-cases (any (clashes e) s.executions)) [
    | inl taken ↦ rw taken (law.stays s.executions)
    | inr free ↦ rw free (law.inserts e s.executions free)
  ]

  bind_lawful :
      (s : Store B) (e : ToolExecution) (key : String) (a : ToolExecution) (s' : Store B)
      → bind_request s e key ≡ ok (a, s')
      → R s.executions s'.executions
  unfolding bind_request
  bind_lawful s e key a s' h =
      let (o, _, rest) =
        >>=-eq-ok (find_by_idempotency s.executions e.tenant_id e.tool_name e.idempotency_key) _
          h in
      elim (Option-cases o) [
        | inl gone ↦
            let (_, free, made) =
              >>=-eq-ok (raise_if (any (clashes e) s.executions) LedgerError.identity_exists) _
                (rw gone at rest) in
            let same : s'.executions ≡ e ∷ s.executions = ground arith in
            rw same (law.inserts e s.executions (ground arith))
        | inr (history, there) ↦
            let again = rw there at rest in
            let same : s'.executions ≡ s.executions = ground arith in
            rw same (law.stays s.executions)
      ]

  bound_lawful :
      (s : Store B) (e : ToolExecution) (row : RequestBinding) (a : ToolExecution) (s' : Store B)
      → bound_request s e row ≡ ok (a, s')
      → R s.executions s'.executions
  unfolding bound_request
  bound_lawful s e row a s' h =
      let same : s'.executions ≡ s.executions = ground arith in rw same (law.stays s.executions)

  body_lawful :
      (s : Store B) (e : ToolExecution) (key : String) (a : ToolExecution) (s' : Store B)
      → request_body s e key ≡ ok (a, s')
      → R s.executions s'.executions
  unfolding request_body
  body_lawful s e key a s' h =
      elim (Option-cases (find (has_request e.tenant_id e.tool_name key) s.requests)) [
        | inl gone ↦ bind_lawful s e key a s' (ground arith)
        | inr (row, there) ↦ bound_lawful s e row a s' (ground arith)
      ]

  pub request_lawful :
      (s : Store B) (e : ToolExecution) (key : String)
      → R s.executions (reserve_for_request s e key).1.executions
  unfolding reserve_for_request
  request_lawful s e key =
      let guard = raise_if (is (String_discrete key "")) LedgerError.request_key_required in
      commit_lawful law s (guard >> request_body s e key)
        λ a s' h. body_lawful s e key a s' (>>-eq-ok guard (request_body s e key) h)

  outcome_body_lawful :
      (s : Store B) (e : ToolExecution) (outcome expected : ExecutionStatus) (request : Request B)
      (clock : Reading) (a : ToolExecution) (s' : Store B)
      → outcome_body s e outcome expected request clock ≡ ok (a, s')
      → R s.executions s'.executions
  unfolding outcome_body
  outcome_body_lawful s e outcome expected request clock a s' h =
      let (b1, _, h1) = >>=-eq-ok (apply_write s.business request.business_write) _ h in
      let (b2, _, h2) = >>=-eq-ok (apply_projection b1 request.outcome_projection) _ h1 in
      let (now, _, h3) = >>=-eq-ok (instant clock LedgerError.naive_time) _ h2 in
      let ((t, rows), moved, h4) =
        >>=-eq-ok
          (transition s.executions e.tenant_id e.execution_id outcome expected (Reading.aware now)
            request.evidence)
          _ h3 in
      let (events, _, h5) = >>=-eq-ok (append_bundle s.events request.bundle) _ h4 in
      let same : s'.executions ≡ rows = ground arith in
      rw same (
        transition_lawful law s.executions e.tenant_id e.execution_id outcome expected
          (Reading.aware now) request.evidence moved)

  pub outcome_lawful :
      (s : Store B) (e : ToolExecution) (outcome expected : ExecutionStatus) (request : Request B)
      (clock : Reading)
      → R s.executions (commit_outcome s e outcome expected request clock).1.executions
  unfolding commit_outcome
  outcome_lawful s e outcome expected request clock =
      let checks = validate_outcome e outcome request in
      let body = outcome_body s e outcome expected request clock in
      commit_lawful law s (checks >> body) λ a s' h.
        outcome_body_lawful s e outcome expected request clock a s' (>>-eq-ok checks body h)

  local_body_lawful :
      (s : Store B) (e : ToolExecution) (evidence : Evidence) (write : B → Result LedgerError B)
      (bundle : EventBundle) (started ended : Reading) (a : ToolExecution) (s' : Store B)
      → local_body s e evidence write bundle started ended ≡ ok (a, s')
      → R s.executions s'.executions
  unfolding local_body
  local_body_lawful s e evidence write bundle started ended a s' h =
      let (start, _, h1) = >>=-eq-ok (instant started LedgerError.naive_time) _ h in
      let ((_, marked), first, h2) =
        >>=-eq-ok
          (transition s.executions e.tenant_id e.execution_id executing reserved
            (Reading.aware start)
            (record { receipt_id = none; receipt_summary_hash = none; compensation_status = none }))
          _ h1 in
      let (b, _, h3) = >>=-eq-ok (write s.business) _ h2 in
      let (end, _, h4) = >>=-eq-ok (instant ended LedgerError.naive_time) _ h3 in
      let ((_, rows), second, h5) =
        >>=-eq-ok
          (transition marked e.tenant_id e.execution_id succeeded executing (Reading.aware end)
            evidence)
          _ h4 in
      let (events, _, h6) = >>=-eq-ok (append_bundle s.events bundle) _ h5 in
      let same : s'.executions ≡ rows = ground arith in
      rw same (
        law.follows s.executions marked rows
          (transition_lawful law s.executions e.tenant_id e.execution_id executing reserved
            (Reading.aware start) _ first)
          (transition_lawful law marked e.tenant_id e.execution_id succeeded executing
            (Reading.aware end) evidence second))

  pub local_lawful :
      (s : Store B) (e : ToolExecution) (receipt : String) (summary : Option String)
      (write : B → Result LedgerError B) (bundle : EventBundle) (started ended : Reading)
      → R s.executions
          (record_local_success s e receipt summary write bundle started ended).1.executions
  unfolding record_local_success
  local_lawful s e receipt summary write bundle started ended =
      let first = raise_if (not (is_reserved e.status)) LedgerError.not_reserved in
      let second = validate_tenant_bundle e bundle in
      let evidence : Evidence = record {
        receipt_id = some receipt;
        receipt_summary_hash = summary;
        compensation_status = none;
      } in
      let body = local_body s e evidence write bundle started ended in
      commit_lawful law s (first >> (second >> body)) λ a s' h.
        local_body_lawful s e evidence write bundle started ended a s'
          (>>-eq-ok second body (>>-eq-ok first (second >> body) h))
