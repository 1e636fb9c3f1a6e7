-- ===== src/Inbox/Delivery.antt =====
-- What becomes of one event: it is recorded once, and once matched it can be consumed.
use oria.Base.{
  ℕ, String, ◌≡◌, refl, sym, ap, subst, ◌∙◌, inl, inr, Bool, true, false, Option, none, some, List,
  [], ◌∷◌, any, Result, ok, err, Reading, naive, aware, Bool-cases, Result-cases, arith,
}
use oria.Inbox.{
  Event, Payload, parse_event, ExternalWait, is_unauthorized, InboxRecord, Identity, InboxError,
}
use oria.Inbox.Store.{
  Store, has_wait, has_identity, identity_of, add_wait, get_wait, refers, add, claims_record,
  update_records, consume_body, consume_matched,
}
use oria.Inbox.Service.{
  Subjects, is_authorized, register_wait, register_found, classify, duplicate, new_record,
  process_parsed, process,
}
use oria.Inbox.Allowance.{after_add-store}
use oria.Inbox.Claims.{consume_body-Claim}
use oria.Inbox.Consumption.{Call, registers, processes, consumes, call, run}

abbrev pub event_identity : Event → Identity
event_identity event = record {
  tenant_id = event.tenant_id;
  adapter_id = event.adapter_id;
  source_event_id = event.source_event_id;
}

-- The inbox has a record of the identity.
abbrev pub is_known : Identity → Store → Bool
is_known identity store = any (has_identity identity) store.inbox

any-update :
    (identity i : Identity) (w : String) (now : ℕ) (rows : List InboxRecord)
    → any (has_identity identity) (update_records i w now rows) ≡ any (has_identity identity) rows
any-update identity i w now [] = refl
any-update identity i w now (row ∷ rows) =
    let rest = any-update identity i w now rows in
    elim (Bool-cases (claims_record i w row)) [
      | inl hit ↦ rw (hit, rest) refl
      | inr miss ↦ rw (miss, rest) refl
    ]

add-known :
    (identity : Identity) (store : Store) (row : InboxRecord)
    → is_known identity store ≡ true
    → is_known identity (add store row).1 ≡ true
unfolding add
add-known identity store row h =
    elim (Bool-cases (any (has_identity (identity_of row)) store.inbox)) [
      | inl there ↦ rw there h
      | inr free ↦ elim (Bool-cases (refers store.waits row.tenant_id row.wait_id)) [
        | inr broken ↦ rw (free, broken) h
        | inl fine ↦ rw (free, fine) (ground arith)
      ]
    ]

register-known :
    (identity : Identity) (store : Store) (wait : ExternalWait)
    (m : Result InboxError (Option ExternalWait))
    → (register_found store wait m).1.inbox ≡ store.inbox
unfolding add_wait
register-known identity store wait (err e) = refl
register-known identity store wait (ok (some existing)) = refl
register-known identity store wait (ok none) =
    elim (Bool-cases (any (has_wait wait.tenant_id wait.wait_id) store.waits)) [
      | inl there ↦ rw there refl
      | inr free ↦ rw free refl
    ]

module _ (subjects : Subjects) (lower : String → String) (hash : Payload → String) where
  process_parsed-known :
      (identity : Identity) (store : Store) (value : Option Event) (wait : Option ExternalWait)
      (reading : Reading)
      → is_known identity store ≡ true
      → is_known identity (process_parsed subjects lower hash store value wait reading).1 ≡ true
  process_parsed-known identity store none wait reading h = h
  process_parsed-known identity store (some event) wait naive h = h
  process_parsed-known identity store (some event) wait (aware now) h =
      elim (Bool-cases (is_unauthorized (classify subjects event wait now))) [
        | inl refused ↦ rw refused h
        | inr accepted ↦
            let row = new_record lower hash event wait (classify subjects event wait now) now in
            rw accepted (
              subst (λ s. is_known identity s ≡ true)
                (sym (after_add-store (classify subjects event wait now) row (add store row)))
                (add-known identity store row h))
      ]

  consume-known :
      (identity i : Identity) (store : Store) (event : Event) (reading : Reading)
      → is_known identity store ≡ true
      → is_known identity (consume_matched hash store i event reading).1 ≡ true
  unfolding consume_matched
  consume-known identity i store event naive h = h
  consume-known identity i store event (aware now) h =
      elim (Result-cases (consume_body hash store i event now)) [
        | inr (x, failed) ↦ rw failed h
        | inl ((out, next), done) ↦
            let (wait, claim, made) = consume_body-Claim hash store i event now out next done in
            rw done (
              subst (λ s. is_known identity s ≡ true) (sym made)
                (any-update identity i wait.wait_id now store.inbox ∙ h))
      ]

  call-known :
      (identity : Identity) (store : Store) (c : Call)
      → is_known identity store ≡ true
      → is_known identity (call subjects lower hash store c) ≡ true
  unfolding call register_wait process
  call-known identity store (registers wait) h =
      ap (any (has_identity identity))
        (register-known identity store wait (get_wait store wait.tenant_id wait.wait_id))
      ∙ h
  call-known identity store (processes value wait reading) h =
      process_parsed-known identity store (parse_event value) wait reading h
  call-known identity store (consumes i event reading) h =
      consume-known identity i store event reading h

  run-known :
      (identity : Identity) (store : Store) (cs : List Call)
      → is_known identity store ≡ true
      → is_known identity (run subjects lower hash store cs) ≡ true
  unfolding run
  run-known identity store [] h = h
  run-known identity store (c ∷ cs) h =
      run-known identity (call subjects lower hash store c) cs (call-known identity store c h)

  authorized_kept :
      (event : Event) (wait : Option ExternalWait) (now : ℕ)
      → is_authorized subjects event ≡ true
      → is_unauthorized (classify subjects event wait now) ≡ false
  unfolding classify
  authorized_kept event none now a = rw a refl
  authorized_kept event (some w) now a = rw a (ground arith)

  -- Once the inbox has a record of an event's identity, whatever calls follow, a valid event of that
  -- identity from an authorized signer is reported as a duplicate, whatever its payload and the wait,
  -- and nothing is written.
  pub process_duplicate :
      (store : Store) (cs : List Call) (value : Option Event) (event : Event)
      (wait : Option ExternalWait) (now : ℕ)
      → is_known (event_identity event) store ≡ true
      → parse_event value ≡ some event
      → is_authorized subjects event ≡ true
      → process subjects lower hash (run subjects lower hash store cs) value wait (aware now)
        ≡ (ok (record { status = duplicate; row = none }), run subjects lower hash store cs)
  unfolding process add
  process_duplicate store cs value event wait now known valid authorized =
      let there = run-known (event_identity event) store cs known in
      rw (valid, authorized_kept event wait now authorized, there) refl
