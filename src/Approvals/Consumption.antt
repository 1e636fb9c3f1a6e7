-- ===== src/Approvals/Consumption.antt =====
-- What the consumer of binding facts achieves, and that consuming a fact again does nothing.
use oria.Base.{
  ℕ, ◌≡◌, ◌≢◌, refl, ap, sym, subst, inl, inr, Bool, true, false, Option, none, some, any, Result,
  ok, err, arith, Bool-cases, >>=-eq-ok, if◌then◌else◌,
}
use oria.Approvals.{ApprovalError}
use oria.Approvals.Store.{Store, InvalidationStatus, applied, reconciliation}
use oria.Approvals.Invalidation.{
  Fact, Faults, Consumed, is_applied, of_fact, get_status, read_or_fail, record_new, record_pending,
  apply_fact, apply_or_fail, mark_or_fail, after_apply, after_record, consume,
}
use oria.Approvals.Facts.{
  NoneOutdated, Recorded, read_or_fail-ok, apply_fact-ok, apply_fact-NoneOutdated, is_applied-eq,
  Recorded-get_status, Recorded-applied, apply_body-invalidations, record_new-Recorded,
}

again-applied :
    (faults : Faults) (s : Store) (fact : Fact)
    → get_status s fact ≡ ok (some applied)
    → consume faults s fact ≡ (
      if faults.first_read
          then err ApprovalError.persistence_failed
          else ok (record { status = applied; invalidated_count = 0 }),
      s,
    )
unfolding consume record_pending
again-applied faults s fact h = elim (Bool-cases faults.first_read) [
  | inl broken ↦ rw broken refl
  | inr fine ↦ rw (fine, h) refl
]

marked_applied :
    (fails : Bool) (s : Store) (fact : Fact) (c : Consumed)
    → (mark_or_fail fails s fact).0 ≡ ok c
    → c.status ≢ applied
marked_applied true s fact c h k = cc
marked_applied false s fact c h k =
    let q : reconciliation ≡ c.status = ground arith in absurd (ground arith)

committed :
    (mark : Bool) (fact : Fact) (c : Consumed) (out : Result ApprovalError ℕ × Store)
    → (after_apply mark fact out).0 ≡ ok c
    → c.status ≡ applied
    → (n : ℕ) × (out.0 ≡ ok n) × ((after_apply mark fact out).1 ≡ out.1)
committed mark fact c (ok n, t) h k = (n, refl, refl)
committed mark fact c (err x, t) h k = absurd (marked_applied mark t fact c h k)

-- The attempt to apply, if it is reported as applied, was committed.
after_apply-committed :
    (fails mark : Bool) (s : Store) (fact : Fact) (c : Consumed)
    → (after_apply mark fact (apply_or_fail fails s fact)).0 ≡ ok c
    → c.status ≡ applied
    → (n : ℕ) × ((apply_fact s fact).0 ≡ ok n)
      × ((after_apply mark fact (apply_or_fail fails s fact)).1 ≡ (apply_fact s fact).1)
after_apply-committed true mark s fact c h k = absurd (marked_applied mark s fact c h k)
after_apply-committed false mark s fact c h k = committed mark fact c (apply_fact s fact) h k

apply_fact-Recorded :
    (s : Store) (fact : Fact) (n : ℕ) (status : InvalidationStatus)
    → Recorded s.invalidations fact status
    → (apply_fact s fact).0 ≡ ok n
    → get_status (apply_fact s fact).1 fact ≡ ok (some applied)
apply_fact-Recorded s fact n status r h =
    let body = apply_fact-ok s fact n h in
    let rows = apply_body-invalidations s fact n (apply_fact s fact).1 body in
    Recorded-get_status (apply_fact s fact).1 fact applied (
      subst (λ x. Recorded x fact applied) (sym rows)
        (Recorded-applied s.invalidations fact status r))

-- The two ways in which a fact is reported as applied.
module _ (faults : Faults) (fact : Fact) (c : Consumed) (P : Store → Type 0)
    (fresh : (s : Store) (n : ℕ) (status : InvalidationStatus)
      → Recorded s.invalidations fact status
      → (apply_fact s fact).0 ≡ ok n
      → P (apply_fact s fact).1) where
  reported :
      (out : Result ApprovalError InvalidationStatus × Store)
      → ((status : InvalidationStatus)
          → out.0 ≡ ok status
          → Recorded out.1.invalidations fact status)
      → (out.0 ≡ ok applied → P out.1)
      → (after_record faults fact out).0 ≡ ok c
      → c.status ≡ applied
      → P (after_record faults fact out).1
  reported (err x, s) recorded old h k = cc
  reported (ok status, s) recorded old h k = elim (Bool-cases (is_applied status)) [
    | inl done ↦ rw done (old (ap ok (is_applied-eq status done)))
    | inr open_still ↦
        let (n, written, now) =
          after_apply-committed faults.apply faults.mark s fact c (rw open_still at h) k in
        rw (open_still, now) (fresh s n status (recorded status refl) written)
  ]

record_pending-Recorded :
    (faults : Faults) (s : Store) (fact : Fact) (status : InvalidationStatus)
    → (record_pending faults s s fact).0 ≡ ok status
    → Recorded (record_pending faults s s fact).1.invalidations fact status
unfolding record_pending
record_pending-Recorded faults s fact status h =
    record_new-Recorded faults s fact (read_or_fail faults.first_read s fact) status
      (λ found g. read_or_fail-ok faults.first_read s fact found g) h

-- Once a consumption of a fact has been reported as applied, consuming the fact again changes
-- nothing, whichever of its statements the database fails: it reports the fact as applied with no row
-- invalidated, unless its first read fails, and then it raises the failure.
pub consume_twice :
    (faults faults' : Faults) (s : Store) (fact : Fact) (c : Consumed)
    → (consume faults s fact).0 ≡ ok c
    → c.status ≡ applied
    → consume faults' (consume faults s fact).1 fact ≡ (
      if faults'.first_read
          then err ApprovalError.persistence_failed
          else ok (record { status = applied; invalidated_count = 0 }),
      (consume faults s fact).1,
    )
unfolding consume
consume_twice faults faults' s fact c h k = again-applied faults' (consume faults s fact).1 fact (
    reported faults fact c (λ t. get_status t fact ≡ ok (some applied))
      (λ t n status r written. apply_fact-Recorded t fact n status r written)
      (record_pending faults s s fact) (record_pending-Recorded faults s fact)
      (λ g.
        Recorded-get_status (record_pending faults s s fact).1 fact applied
          (record_pending-Recorded faults s fact applied g))
      h k)

-- A consumption that is reported as applied, of a fact that had not been applied before, leaves no
-- pending or approved approval of its tenant and campaign that is bound to other business facts.
pub consume-NoneOutdated :
    (faults : Faults) (s : Store) (fact : Fact) (c : Consumed)
    → get_status s fact ≢ ok (some applied)
    → (consume faults s fact).0 ≡ ok c
    → c.status ≡ applied
    → NoneOutdated fact.tenant_id fact.binding (consume faults s fact).1.approvals
unfolding consume record_pending
consume-NoneOutdated faults s fact c before h k =
    reported faults fact c (λ t. NoneOutdated fact.tenant_id fact.binding t.approvals)
      (λ t n status r written. apply_fact-NoneOutdated t fact n written)
      (record_pending faults s s fact) (record_pending-Recorded faults s fact)
      (λ g. absurd (
        before (
          not_new (read_or_fail faults.first_read s fact)
            (λ found q. read_or_fail-ok faults.first_read s fact found q) g)))
      h k
  where
    not_new :
        (m : Result ApprovalError (Option InvalidationStatus))
        → ((found : Option InvalidationStatus) → m ≡ ok found → get_status s fact ≡ ok found)
        → (record_new faults s fact m).0 ≡ ok applied
        → get_status s fact ≡ ok (some applied)
    not_new (err x) sound g = cc
    not_new (ok (some status)) sound g = sound (some applied) (ground arith)
    not_new (ok none) sound g = elim (Bool-cases faults.insert) [
      | inl broken ↦ let k = rw broken at g in absurd (ground arith)
      | inr fine ↦ elim (Bool-cases (any (of_fact fact) s.invalidations)) [
        | inl there ↦
            let (found, read, raised) =
              >>=-eq-ok (read_or_fail faults.second_read s fact) _ (rw (fine, there) at g) in
            let q = read_or_fail-ok faults.second_read s fact found read in
            let e : found ≡ none = let k = sound none refl in ground arith in
            let k = rw e at raised in absurd (ground arith)
        | inr free ↦ let k = rw (fine, free) at g in absurd (ground arith)
      ]
    ]
