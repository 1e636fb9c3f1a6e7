-- ===== src/Approvals/Invalidation.antt =====
-- The consumer of binding facts (src/oria/core/approvals.py) and its repository
-- (src/oria/storage/platform.py).
use oria.Base.{
  ℕ, suc, String, Bool, true, false, not, ◌&&◌, ◌||◌, Option, none, some, ◌∷◌, map, any, find,
  select, length, Result, ok, err, ◌>>=◌, ◌>>◌, raise_if, or_raise, commit, is, ◌==◌, if◌then◌else◌,
}
use oria.Approvals.{ApprovalError, BusinessBinding, Binding-discrete, same_text}
use oria.Approvals.Store.{
  Store, Invalidation, InvalidationStatus, waiting, applied, reconciliation,
  invalidate_campaign_binding,
}

-- `ApprovalBindingInvalidationFact`
pub record Fact : Type 0 where
  pub event_id : String
  pub tenant_id : String
  pub binding : BusinessBinding
  pub reason : String
  pub occurred_at : ℕ

abbrev pub is_applied : InvalidationStatus → Bool
is_applied applied = true
is_applied _ = false

abbrev pub of_fact : Fact → Invalidation → Bool
of_fact fact row = same_text row.tenant_id fact.tenant_id && same_text row.event_id fact.event_id

-- The persisted payload must be the one of the fact.
abbrev pub recorded_status :
    Fact → Option Invalidation → Result ApprovalError (Option InvalidationStatus)
recorded_status fact none = ok none
recorded_status fact (some row) = do
  raise_if
      (not (is (Binding-discrete row.binding fact.binding))
        || not (same_text row.reason fact.reason))
      ApprovalError.fact_conflict
  ok (some row.status)

-- `_get_in_session`
unfoldable pub get_status : Store → Fact → Result ApprovalError (Option InvalidationStatus)
get_status store fact = recorded_status fact (find (of_fact fact) store.invalidations)

abbrev pub new_invalidation : Fact → Invalidation
new_invalidation fact = record {
  tenant_id = fact.tenant_id;
  event_id = fact.event_id;
  binding = fact.binding;
  reason = fact.reason;
  status = waiting;
  attempt_count = 0;
  last_error_code = none;
  updated_at = fact.occurred_at;
}

-- Which statements of one consumption fail for a reason of the database: the first read, the INSERT, the
-- read after an INSERT that violates the key, the transaction of `apply`, and `mark_reconciliation`.
pub record Faults : Type 0 where
  pub first_read : Bool
  pub insert : Bool
  pub second_read : Bool
  pub apply : Bool
  pub mark : Bool

abbrev pub read_or_fail : Bool → Store → Fact → Result ApprovalError (Option InvalidationStatus)
read_or_fail true store fact = err ApprovalError.persistence_failed
read_or_fail false store fact = get_status store fact

-- The INSERT of `record_pending` when the read before it has found no row. An INSERT that violates
-- the key, because another process was faster, returns what that one recorded; `seen` is the store
-- of the first read.
abbrev pub record_new :
    Faults
    → Store
    → Fact
    → Result ApprovalError (Option InvalidationStatus)
    → Result ApprovalError InvalidationStatus × Store
record_new faults store fact (err e) = (err e, store)
record_new faults store fact (ok (some status)) = (ok status, store)
record_new faults store fact (ok none) =
    if faults.insert
    then (err ApprovalError.persistence_failed, store)
    else (if any (of_fact fact) store.invalidations
        then (
          read_or_fail faults.second_read store fact >>= λ found.
              or_raise found ApprovalError.persistence_failed,
          store,
        )
        else (
          ok waiting,
          record store { invalidations = new_invalidation fact ∷ store.invalidations },
        ))

unfoldable pub record_pending :
    Faults → Store → Store → Fact → Result ApprovalError InvalidationStatus × Store
record_pending faults seen store fact =
    record_new faults store fact (read_or_fail faults.first_read seen fact)

-- `status IN ('pending', 'reconciliation')`, or `status != 'applied'`
abbrev pub is_unapplied : Fact → Invalidation → Bool
is_unapplied fact row = of_fact fact row && not (is_applied row.status)

abbrev pub applied_row : Fact → Invalidation → Invalidation
applied_row fact row =
    if is_unapplied fact row
    then record row {
      status = applied;
      attempt_count = suc row.attempt_count;
      last_error_code = none;
      updated_at = fact.occurred_at;
    }
    else row

abbrev pub failed_row : Fact → String → Invalidation → Invalidation
failed_row fact error_code row =
    if is_unapplied fact row
    then record row {
      status = reconciliation;
      attempt_count = suc row.attempt_count;
      last_error_code = some error_code;
      updated_at = fact.occurred_at;
    }
    else row

-- The status that a zero row count leaves to be read.
abbrev pub already_applied : Option InvalidationStatus → Bool
already_applied none = false
already_applied (some status) = is_applied status

unfoldable pub apply_body : Store → Fact → Result ApprovalError (ℕ × Store)
apply_body store fact = do
  let found =
      invalidate_campaign_binding store.approvals fact.tenant_id fact.binding fact.occurred_at
  let rows = map (applied_row fact) store.invalidations
  if length (select (is_unapplied fact) store.invalidations) == 1
      then ok (found.0, record store { approvals = found.1; invalidations = rows })
      else (get_status (record store { approvals = found.1; invalidations = rows }) fact
          >>= λ status.
              raise_if (not (already_applied status)) ApprovalError.invalidation_unavailable
              >> ok (found.0, record store { approvals = found.1; invalidations = rows }))

unfoldable pub apply_fact : Store → Fact → Result ApprovalError ℕ × Store
apply_fact store fact = commit store (apply_body store fact)

unfoldable pub mark_reconciliation : Store → Fact → String → Store
mark_reconciliation store fact error_code = record store {
  invalidations = map (failed_row fact error_code) store.invalidations;
}

-- `ApprovalInvalidationResult`
pub record Consumed : Type 0 where
  pub status : InvalidationStatus
  pub invalidated_count : ℕ

abbrev pub apply_or_fail : Bool → Store → Fact → Result ApprovalError ℕ × Store
apply_or_fail true store fact = (err ApprovalError.persistence_failed, store)
apply_or_fail false store fact = apply_fact store fact

-- What follows an application that raised.
abbrev pub mark_or_fail : Bool → Store → Fact → Result ApprovalError Consumed × Store
mark_or_fail true store fact = (err ApprovalError.persistence_failed, store)
mark_or_fail false store fact = (
  ok (record { status = reconciliation; invalidated_count = 0 }),
  mark_reconciliation store fact "approval_invalidation_apply_failed",
)

abbrev pub after_apply :
    Bool → Fact → Result ApprovalError ℕ × Store → Result ApprovalError Consumed × Store
after_apply fails fact (ok count, store) =
    (ok (record { status = applied; invalidated_count = count }), store)
after_apply fails fact (err _, store) = mark_or_fail fails store fact

abbrev pub after_record :
    Faults
    → Fact
    → Result ApprovalError InvalidationStatus × Store
    → Result ApprovalError Consumed × Store
after_record faults fact (err e, store) = (err e, store)
after_record faults fact (ok status, store) =
    if is_applied status
    then (ok (record { status = applied; invalidated_count = 0 }), store)
    else after_apply faults.mark fact (apply_or_fail faults.apply store fact)

unfoldable pub consume : Faults → Store → Fact → Result ApprovalError Consumed × Store
consume faults store fact = after_record faults fact (record_pending faults store store fact)
