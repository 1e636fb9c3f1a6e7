-- ===== src/Ledger/Transition.antt =====
-- What a transition that the repository lets pass has done to the table.
use oria.Base.{
  suc, String, ◌≡◌, refl, inl, inr, Bool, true, false, not, Option, none, some, List, length, map,
  select, find, ok, raise_if, or_raise, Reading, arith, String_discrete, Option-cases, Bool-cases,
  Result-cases, >>=-eq-ok, ltb, ap, find-holds, is-true, ◌∙◌, if◌then◌else◌,
}
use oria.Ledger.{
  ExecutionStatus, ToolExecution, LedgerError, is_executing, same_status, may_become,
  validate_state, transition_to, moved,
}
use oria.Ledger.Repository.{
  Evidence, kept, has_id, is_source, written, read_row, find_by_id, update_rows,
  transition_existing, transition,
}

pub record Moved (rows : List ToolExecution) (tenant_id execution_id : String)
    (target expected : ExecutionStatus) (e : ToolExecution) (rows' : List ToolExecution)
    : Type 0 where
  pub existing : ToolExecution
  pub found : find (has_id tenant_id execution_id) rows ≡ some existing
  pub source : same_status expected existing.status ≡ true
  pub allowed : may_become existing.status target ≡ true
  pub status_is : e.status ≡ target
  pub identity : e.execution_id ≡ execution_id
  pub attempts :
      e.attempt_count
      ≡ (if is_executing target then suc existing.attempt_count else existing.attempt_count)
  pub one : length (select (is_source tenant_id execution_id existing.status) rows) ≡ 1
  pub made : rows' ≡ map (written (is_source tenant_id execution_id existing.status) e) rows

pub validate_state_self :
    (e : ToolExecution) {e' : ToolExecution} → validate_state e ≡ ok e' → e' ≡ e
unfolding validate_state
validate_state_self e h = ground arith

transition_to-facts :
    (e : ToolExecution) (target : ExecutionStatus) (now : Reading) (a b c : Option String)
    {e' : ToolExecution}
    → transition_to e target now a b c ≡ ok e'
    → (may_become e.status target ≡ true)
      × (e'.status ≡ target)
      × (e'.attempt_count ≡ (if is_executing target then suc e.attempt_count else e.attempt_count))
      × (e'.execution_id ≡ e.execution_id)
unfolding transition_to
transition_to-facts e target Reading.naive a b c h = cc
transition_to-facts e target (Reading.aware now) a b c {e'} h =
    elim (Bool-cases (may_become e.status target)) [
      | inr bad ↦ absurd (ground arith)
      | inl good ↦ elim (Bool-cases (ltb now e.updated_at)) [
        | inl early ↦ absurd (ground arith)
        | inr late ↦
            let v : validate_state (moved e target now a b c) ≡ ok e' = ground arith in
            let q = validate_state_self (moved e target now a b c) v in
            (
              good,
              ap (λ (z : ToolExecution). z.status) q,
              ap (λ (z : ToolExecution). z.attempt_count) q,
              ap (λ (z : ToolExecution). z.execution_id) q,
            )
      ]
    ]

find_by_id-found :
    (rows : List ToolExecution) (t i : String) {o : Option ToolExecution} {e : ToolExecution}
    → find_by_id rows t i ≡ ok o
    → o ≡ some e
    → find (has_id t i) rows ≡ some e
unfolding find_by_id read_row
find_by_id-found rows t i {o} {e} h k = elim (Option-cases (find (has_id t i) rows)) [
  | inl gone ↦ ground arith
  | inr (row, there) ↦ elim (Result-cases (validate_state row)) [
    | inl (valid, v) ↦ let q = validate_state_self row v in ground arith
    | inr (x, v) ↦ absurd (ground arith)
  ]
]

named_by : (t i : String) (e : ToolExecution) → has_id t i e ≡ true → e.execution_id ≡ i
named_by t i e h = is-true (String_discrete e.execution_id i) (ground arith)

or_raise-some :
    {A : Type 0} (x : LedgerError) (o : Option A) {a : A} → or_raise o x ≡ ok a → o ≡ some a
or_raise-some x none h = cc
or_raise-some x (some b) h = cc

raise_if-ok : (b : Bool) (x : LedgerError) {u : Unit {0}} → raise_if (not b) x ≡ ok u → b ≡ true
raise_if-ok true x h = refl
raise_if-ok false x h = cc

update_rows-facts :
    (test : ToolExecution → Bool) (e' : ToolExecution) (rows : List ToolExecution)
    {e : ToolExecution} {rows' : List ToolExecution}
    → update_rows test e' rows ≡ ok (e, rows')
    → (length (select test rows) ≡ 1) × (e ≡ e') × (rows' ≡ map (written test e') rows)
unfolding update_rows
update_rows-facts test e' rows h = ground arith

pub transition-Moved :
    (rows : List ToolExecution) (t i : String) (target expected : ExecutionStatus) (now : Reading)
    (evidence : Evidence) {e : ToolExecution} {rows' : List ToolExecution}
    → transition rows t i target expected now evidence ≡ ok (e, rows')
    → Moved rows t i target expected e rows'
unfolding transition transition_existing update_rows
transition-Moved rows t i target expected now evidence {e} {rows'} h =
    let (o, read, h1) = >>=-eq-ok (find_by_id rows t i) _ h in
    let (existing, some_row, h2) = >>=-eq-ok (or_raise o LedgerError.execution_unavailable) _ h1 in
    let found = find_by_id-found rows t i read (or_raise-some _ o some_row) in
    let (_, source, h3) =
      >>=-eq-ok
        (raise_if (not (same_status expected existing.status)) LedgerError.wrong_source_state) _
        h2 in
    let (e', moves, h4) =
      >>=-eq-ok
        (transition_to existing target now
          (kept expected evidence.receipt_id existing.receipt_id evidence.receipt_id)
          (kept expected evidence.receipt_id existing.receipt_summary_hash
            evidence.receipt_summary_hash)
          evidence.compensation_status)
        _ h3 in
    let (allowed, status_is, attempts, kept_id) =
      transition_to-facts existing target now _ _ _ moves in
    let (one, same, made) = update_rows-facts (is_source t i existing.status) e' rows h4 in
    record {
      existing = existing;
      found = found;
      source = raise_if-ok _ _ source;
      allowed = allowed;
      status_is = rw same status_is;
      attempts = rw same attempts;
      identity = rw same (kept_id ∙ named_by t i existing (find-holds (has_id t i) rows found));
      one = one;
      made = rw same made;
    }
