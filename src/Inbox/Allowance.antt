-- ===== src/Inbox/Allowance.antt =====
-- How many records may have been consumed for a wait; what registrations and events do to that.
use oria.Base.{
  ℕ, ◌≤◌, String, ◌≡◌, refl, sym, subst, inl, inr, Bool, true, false, ◌&&◌, Option, none, some,
  List, ◌∷◌, find, any, select, length, Result, ok, err, Reading, naive, aware, same_text, is-true,
  String_discrete, Bool-cases, any-find, arith, if◌then◌else◌,
}
use oria.Inbox.{
  Event, Payload, ExternalWait, is_waiting, ProcessingStatus, is_consumed, is_unauthorized,
  InboxRecord, InboxError,
}
use oria.Inbox.Store.{Store, has_wait, has_identity, identity_of, add_wait, refers, add, names_wait}
use oria.Inbox.Service.{Subjects, register_found, classify, new_record, after_add, process_parsed}
use oria.Inbox.Matching.{classify_never_consumed}

-- The record was consumed for the wait.
abbrev pub consumed_for : String → String → InboxRecord → Bool
consumed_for tenant_id wait_id row =
    same_text row.tenant_id tenant_id
    && names_wait row.wait_id wait_id
    && is_consumed row.processing_status

abbrev pub consumptions : String → String → List InboxRecord → ℕ
consumptions tenant_id wait_id rows = length (select (consumed_for tenant_id wait_id) rows)

-- One consumption for a wait that is no longer open, none for another.
abbrev pub allowance : Option ExternalWait → ℕ
allowance none = 0
allowance (some wait) = if is_waiting wait.status then 0 else 1

pub record ConsumedOnce (store : Store) : Type 0 where
  pub bounded :
      (tenant_id wait_id : String)
      → consumptions tenant_id wait_id store.inbox
        ≤ allowance (find (has_wait tenant_id wait_id) store.waits)

new_wait :
    (t w : String) (wait : ExternalWait) (store : Store)
    → ConsumedOnce store
    → any (has_wait wait.tenant_id wait.wait_id) store.waits ≡ false
    → consumptions t w store.inbox ≤ allowance (find (has_wait t w) (wait ∷ store.waits))
new_wait t w wait store once free = elim (Bool-cases (has_wait t w wait)) [
  | inr miss ↦ rw miss (once.bounded t w)
  | inl hit ↦
      let p : wait.tenant_id ≡ t = is-true (String_discrete wait.tenant_id t) (ground arith) in
      let q : wait.wait_id ≡ w = is-true (String_discrete wait.wait_id w) (ground arith) in
      let gone = any-find (has_wait t w) store.waits (
        subst (λ x. any (has_wait x w) store.waits ≡ false) p
          (subst (λ x. any (has_wait wait.tenant_id x) store.waits ≡ false) q free)) in
      let few : consumptions t w store.inbox ≤ 0 =
        subst (λ x. consumptions t w store.inbox ≤ allowance x) gone (once.bounded t w) in
      omega (arith, few)
]

add_wait-Once :
    (store : Store) (wait : ExternalWait)
    → ConsumedOnce store
    → ConsumedOnce (add_wait store wait).1
unfolding add_wait
add_wait-Once store wait once =
    elim (Bool-cases (any (has_wait wait.tenant_id wait.wait_id) store.waits)) [
      | inl there ↦ rw there once
      | inr free ↦ rw free (record { bounded = λ t w. new_wait t w wait store once free })
    ]

pub register_found-Once :
    (store : Store) (wait : ExternalWait) (m : Result InboxError (Option ExternalWait))
    → ConsumedOnce store
    → ConsumedOnce (register_found store wait m).1
register_found-Once store wait (err e) once = once
register_found-Once store wait (ok (some existing)) once = once
register_found-Once store wait (ok none) once = add_wait-Once store wait once

not_consumed_kept :
    (t w : String) (row : InboxRecord) (rows : List InboxRecord)
    → is_consumed row.processing_status ≡ false
    → consumptions t w (row ∷ rows) ≡ consumptions t w rows
not_consumed_kept t w row rows h =
    let miss : consumed_for t w row ≡ false = ground arith in rw miss refl

add-Once :
    (store : Store) (row : InboxRecord)
    → is_consumed row.processing_status ≡ false
    → ConsumedOnce store
    → ConsumedOnce (add store row).1
unfolding add
add-Once store row h once = elim (Bool-cases (any (has_identity (identity_of row)) store.inbox)) [
  | inl there ↦ rw there once
  | inr free ↦ elim (Bool-cases (refers store.waits row.tenant_id row.wait_id)) [
    | inr broken ↦ rw (free, broken) once
    | inl fine ↦
        rw (free, fine)
          (record {
            bounded =
                λ t w. omega (arith, once.bounded t w, not_consumed_kept t w row store.inbox h);
          })
  ]
]

pub after_add-store :
    (status : ProcessingStatus) (row : InboxRecord) (out : Result InboxError Bool × Store)
    → (after_add status row out).1 ≡ out.1
after_add-store status row (err e, store) = refl
after_add-store status row (ok false, store) = refl
after_add-store status row (ok true, store) = refl

pub process_parsed-Once :
    (subjects : Subjects) (lower : String → String) (hash : Payload → String) (store : Store)
    (value : Option Event) (wait : Option ExternalWait) (reading : Reading)
    → ConsumedOnce store
    → ConsumedOnce (process_parsed subjects lower hash store value wait reading).1
process_parsed-Once subjects lower hash store none wait reading once = once
process_parsed-Once subjects lower hash store (some event) wait naive once = once
process_parsed-Once subjects lower hash store (some event) wait (aware now) once =
    elim (Bool-cases (is_unauthorized (classify subjects event wait now))) [
      | inl refused ↦ rw refused once
      | inr accepted ↦
          let row = new_record lower hash event wait (classify subjects event wait now) now in
          rw accepted (
            subst ConsumedOnce
              (sym (after_add-store (classify subjects event wait now) row (add store row)))
              (add-Once store row (classify_never_consumed subjects event wait now) once))
    ]
