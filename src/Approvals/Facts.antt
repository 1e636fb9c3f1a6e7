-- ===== src/Approvals/Facts.antt =====
-- What a consumed binding fact achieves, and that consuming it again does nothing.
use oria.Base.{
  ℕ, String, ◌≡◌, refl, sym, ◌⊎◌, inl, inr, Bool, true, false, not, not-false, ◌||◌, Option, none,
  some, List, [], ◌∷◌, map, find, any, select, length, Result, ok, err, raise_if, arith, is, is-yes,
  String_discrete, Bool-cases, Option-cases, Result-cases, >>=-eq-ok, All, find-holds, find-map,
  ◌==◌,
}
use oria.Approvals.{
  ApprovalStatus, pending, approved, invalidated, is_open, Approval, ApprovalError, BusinessBinding,
  Binding-discrete, same_text,
}
use oria.Approvals.Store.{
  Store, Invalidation, InvalidationStatus, waiting, applied, same_columns, is_outdated,
  invalidate_row, invalidate_campaign_binding,
}
use oria.Approvals.Bindings.{same_columns-eq}
use oria.Approvals.Invalidation.{
  Fact, Faults, is_applied, of_fact, get_status, new_invalidation, read_or_fail, record_new,
  is_unapplied, applied_row, already_applied, apply_body, apply_fact,
}
use oria.Approvals.Operations.{apply_body-approvals}

-- A pending or approved approval of the tenant that is bound to the campaign is bound to these facts.
abbrev pub IsCurrent : String → BusinessBinding → Approval → Type 0
IsCurrent tenant_id binding a =
    a.tenant_id ≡ tenant_id
    → (a.status ≡ pending) ⊎ (a.status ≡ approved)
    → (b : BusinessBinding) → a.business_binding ≡ some b
    → b.campaign_id ≡ binding.campaign_id
    → b ≡ binding

abbrev pub NoneOutdated : String → BusinessBinding → List Approval → Type 0
NoneOutdated tenant_id binding rows = All (IsCurrent tenant_id binding) rows

open_status : (s : ApprovalStatus) → (s ≡ pending) ⊎ (s ≡ approved) → is_open s ≡ true
open_status s (inl h) = rw h refl
open_status s (inr h) = rw h refl

kept-IsCurrent :
    (t : String) (binding : BusinessBinding) (a : Approval)
    → is_outdated t binding a ≡ false
    → IsCurrent t binding a
kept-IsCurrent t binding a kept tenant status b bound campaign =
    let own = is-yes (String_discrete a.tenant_id t) tenant in
    let live = open_status a.status status in
    let same = is-yes (String_discrete b.campaign_id binding.campaign_id) campaign in
    let k : not (same_columns b binding) ≡ false = rw (own, live, bound, same) at kept in
    same_columns-eq b binding campaign (not-false (same_columns b binding) k)

invalidate_row-IsCurrent :
    (t : String) (b : BusinessBinding) (now : ℕ) (a : Approval)
    → IsCurrent t b (invalidate_row t b now a)
invalidate_row-IsCurrent t b now a = elim (Bool-cases (is_outdated t b a)) [
  | inl old ↦ rw old (λ tenant status. absurd (not_open status))
  | inr kept ↦ rw kept (kept-IsCurrent t b a kept)
]
  where
    not_open : ¬ ((invalidated ≡ pending) ⊎ (invalidated ≡ approved))
    not_open (inl h) = absurd (ground arith)
    not_open (inr h) = absurd (ground arith)

invalidated-NoneOutdated :
    (t : String) (b : BusinessBinding) (now : ℕ) (rows : List Approval)
    → NoneOutdated t b (map (invalidate_row t b now) rows)
invalidated-NoneOutdated t b now [] = tt
invalidated-NoneOutdated t b now (a ∷ rows) =
    (invalidate_row-IsCurrent t b now a, invalidated-NoneOutdated t b now rows)

pub apply_fact-ok :
    (s : Store) (fact : Fact) (n : ℕ)
    → (apply_fact s fact).0 ≡ ok n
    → apply_body s fact ≡ ok (n, (apply_fact s fact).1)
unfolding apply_fact
apply_fact-ok s fact n h = elim (Result-cases (apply_body s fact)) [
  | inl (p, q) ↦ let k = rw q at h in rw q (ground arith)
  | inr (x, q) ↦ let k = rw q at h in absurd (ground arith)
]

pub apply_fact-NoneOutdated :
    (s : Store) (fact : Fact) (n : ℕ)
    → (apply_fact s fact).0 ≡ ok n
    → NoneOutdated fact.tenant_id fact.binding (apply_fact s fact).1.approvals
unfolding invalidate_campaign_binding
apply_fact-NoneOutdated s fact n h =
    rw (apply_body-approvals s fact n (apply_fact s fact).1 (apply_fact-ok s fact n h))
      (invalidated-NoneOutdated fact.tenant_id fact.binding fact.occurred_at s.approvals)

-- A fact whose row has the payload of the fact.
pub record Recorded (rows : List Invalidation) (fact : Fact) (status : InvalidationStatus)
    : Type 0 where
  pub row : Invalidation
  pub there : find (of_fact fact) rows ≡ some row
  pub status_is : row.status ≡ status
  pub same_binding : is (Binding-discrete row.binding fact.binding) ≡ true
  pub same_reason : same_text row.reason fact.reason ≡ true

get_status-Recorded :
    (s : Store) (fact : Fact) (status : InvalidationStatus)
    → get_status s fact ≡ ok (some status)
    → Recorded s.invalidations fact status
unfolding get_status
get_status-Recorded s fact status h = elim (Option-cases (find (of_fact fact) s.invalidations)) [
  | inl gone ↦ let k = rw gone at h in absurd (ground arith)
  | inr (row, there) ↦
      let (_, checks, rest) =
        >>=-eq-ok
          (raise_if
            (not (is (Binding-discrete row.binding fact.binding))
              || not (same_text row.reason fact.reason))
            ApprovalError.fact_conflict)
          _ (rw there at h) in
      record {
        row = row;
        there = there;
        status_is = ground arith;
        same_binding = ground arith;
        same_reason = ground arith;
      }
]

pub Recorded-get_status :
    (s : Store) (fact : Fact) (status : InvalidationStatus)
    → Recorded s.invalidations fact status
    → get_status s fact ≡ ok (some status)
unfolding get_status
Recorded-get_status s fact status r = rw (r.there, r.same_binding, r.same_reason, r.status_is) refl

applied_row-of_fact :
    (fact : Fact) (row : Invalidation) → of_fact fact (applied_row fact row) ≡ of_fact fact row
applied_row-of_fact fact row = ground arith

pub is_applied-eq : (s : InvalidationStatus) → is_applied s ≡ true → s ≡ applied
is_applied-eq s h = ground arith

applied_row-status :
    (fact : Fact) (row : Invalidation)
    → of_fact fact row ≡ true
    → (applied_row fact row).status ≡ applied
applied_row-status fact row h = elim (Bool-cases (is_applied row.status)) [
  | inl done ↦ let q = is_applied-eq row.status done in ground arith
  | inr open_still ↦ ground arith
]

applied_row-payload :
    (fact : Fact) (row : Invalidation)
    → ((applied_row fact row).binding ≡ row.binding) × ((applied_row fact row).reason ≡ row.reason)
applied_row-payload fact row = ground arith

pub Recorded-applied :
    (rows : List Invalidation) (fact : Fact) (status : InvalidationStatus)
    → Recorded rows fact status
    → Recorded (map (applied_row fact) rows) fact applied
Recorded-applied rows fact status r =
    let (b, q) = applied_row-payload fact r.row in
    record {
      row = applied_row fact r.row;
      there = find-map (of_fact fact) (applied_row fact) (applied_row-of_fact fact) rows r.there;
      status_is = applied_row-status fact r.row (find-holds (of_fact fact) rows r.there);
      same_binding = rw b r.same_binding;
      same_reason = rw q r.same_reason;
    }

pub apply_body-invalidations :
    (s : Store) (fact : Fact) (n : ℕ) (s' : Store)
    → apply_body s fact ≡ ok (n, s')
    → s'.invalidations ≡ map (applied_row fact) s.invalidations
unfolding apply_body
apply_body-invalidations s fact n s' h =
    elim (Bool-cases (length (select (is_unapplied fact) s.invalidations) == 1)) [
      | inl one ↦ let k = rw one at h in ground arith
      | inr other ↦
          let (status, _, h1) = >>=-eq-ok (get_status _ fact) _ (rw other at h) in
          let (_, _, h2) =
            >>=-eq-ok
              (raise_if (not (already_applied status)) ApprovalError.invalidation_unavailable) _
              h1 in
          ground arith
    ]

own_fact :
    (fact : Fact) (rows : List Invalidation) → Recorded (new_invalidation fact ∷ rows) fact waiting
own_fact fact rows =
    let t = is-yes (String_discrete fact.tenant_id fact.tenant_id) refl in
    let e = is-yes (String_discrete fact.event_id fact.event_id) refl in
    record {
      row = new_invalidation fact;
      there = ground arith;
      status_is = refl;
      same_binding = is-yes (Binding-discrete fact.binding fact.binding) refl;
      same_reason = is-yes (String_discrete fact.reason fact.reason) refl;
    }

pub read_or_fail-ok :
    (fails : Bool) (s : Store) (fact : Fact) (found : Option InvalidationStatus)
    → read_or_fail fails s fact ≡ ok found
    → get_status s fact ≡ ok found
read_or_fail-ok true s fact found h = cc
read_or_fail-ok false s fact found h = h

-- What is recorded when `record_pending` returns.
pub record_new-Recorded :
    (faults : Faults) (s : Store) (fact : Fact)
    (m : Result ApprovalError (Option InvalidationStatus)) (status : InvalidationStatus)
    → ((found : Option InvalidationStatus) → m ≡ ok found → get_status s fact ≡ ok found)
    → (record_new faults s fact m).0 ≡ ok status
    → Recorded (record_new faults s fact m).1.invalidations fact status
record_new-Recorded faults s fact (err e) status sound h = cc
record_new-Recorded faults s fact (ok (some found)) status sound h =
    get_status-Recorded s fact status (sound (some status) (ground arith))
record_new-Recorded faults s fact (ok none) status sound h = elim (Bool-cases faults.insert) [
  | inl broken ↦ let k = rw broken at h in absurd (ground arith)
  | inr fine ↦ elim (Bool-cases (any (of_fact fact) s.invalidations)) [
    | inl there ↦
        let (found, read, raised) =
          >>=-eq-ok (read_or_fail faults.second_read s fact) _ (rw (fine, there) at h) in
        let q = read_or_fail-ok faults.second_read s fact found read in
        let g : found ≡ none = let k = sound none refl in ground arith in
        let k = rw g at raised in absurd (ground arith)
    | inr free ↦
        let k = rw (fine, free) at h in
        let q : waiting ≡ status = ground arith in
        rw (fine, free, sym q) (own_fact fact s.invalidations)
  ]
]
