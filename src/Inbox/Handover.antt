-- ===== src/Inbox/Handover.antt =====
-- From the match of an event to its consumption.
use oria.Base.{
  own_text, ℕ, ◌<◌, String, ◌≡◌, refl, sym, ap, subst, ◌∙◌, inl, inr, Bool, true, false, Option,
  some, List, [], ◌∷◌, find, any, select, length, ok, aware, leb, ◌==◌, same_text, is-yes,
  String_discrete, Bool-cases, find-holds, arith,
}
use oria.Inbox.{
  Event, Payload, type_of, campaign_of, parse_event, ExternalWait, EventType-discrete, same_type,
  is_waiting, resolved, matched, consumed, InboxRecord, validate_wait,
}
use oria.Inbox.Store.{
  Store, has_wait, has_identity, add, get, joined, fits_event, claims_record, claims_wait,
  consume_body, consume_matched,
}
use oria.Inbox.Service.{Subjects, dump, processed, new_record, process}
use oria.Inbox.Redaction.{redact}
use oria.Inbox.Matching.{Matches, classify_iff}
use oria.Inbox.Delivery.{event_identity, is_known}

none_selected :
    {A : Type 0} (p q : A → Bool) (xs : List A)
    → ((x : A) → q x ≡ true → p x ≡ true)
    → length (select p xs) ≡ 0
    → length (select q xs) ≡ 0
none_selected p q [] sub h = refl
none_selected p q (x ∷ xs) sub h = elim (Bool-cases (q x)) [
  | inl hit ↦ let k = sub x hit in absurd (ground arith)
  | inr miss ↦ elim (Bool-cases (p x)) [
    | inl more ↦ absurd (ground arith)
    | inr fewer ↦ let rest = none_selected p q xs sub (rw fewer at h) in rw miss rest
  ]
]

-- A narrower test selects the one row that a wider one finds, if the row meets it.
one_selected :
    {A : Type 0} (p q : A → Bool) (xs : List A) (a : A)
    → ((x : A) → q x ≡ true → p x ≡ true)
    → length (select p xs) ≡ 1
    → find p xs ≡ some a
    → q a ≡ true
    → length (select q xs) ≡ 1
one_selected p q [] a sub h f k = cc
one_selected p q (x ∷ xs) a sub h f k = elim (Bool-cases (p x)) [
  | inl hit ↦
      let same : x ≡ a = ground arith in
      let mine : q x ≡ true = subst (λ y. q y ≡ true) (sym same) k in
      let others : length (select p xs) ≡ 0 = ground arith in
      let rest = none_selected p q xs sub others in rw mine (omega (arith, rest))
  | inr miss ↦ elim (Bool-cases (q x)) [
    | inl bad ↦ let c = sub x bad in absurd (ground arith)
    | inr fine ↦ rw fine (one_selected p q xs a sub (rw miss at h) (rw miss at f) k)
  ]
]

any-select : {A : Type 0} (p : A → Bool) (xs : List A) → any p xs ≡ false → length (select p xs) ≡ 0
any-select p [] h = refl
any-select p (x ∷ xs) h = let rest = any-select p xs in ground arith

found_any : {A : Type 0} (p : A → Bool) (xs : List A) (a : A) → find p xs ≡ some a → any p xs ≡ true
found_any p [] a h = cc
found_any p (x ∷ xs) a h = let rest = found_any p xs a in ground arith

module _ (subjects : Subjects) (lower : String → String) (hash : Payload → String) (store : Store)
    (event : Event) (wait : ExternalWait) (now : ℕ) (m : Matches subjects event (some wait) now)
    (new_identity : is_known (event_identity event) store ≡ false)
    (stored : find (has_wait event.tenant_id wait.wait_id) store.waits ≡ some wait) where
  abbrev row : InboxRecord
  row = record {
    tenant_id = event.tenant_id;
    adapter_id = event.adapter_id;
    source_event_id = event.source_event_id;
    event_type = type_of event.payload;
    resource_version = event.version;
    signature_subject = event.signature_subject;
    redacted_payload = redact lower (dump event.payload);
    payload_hash = hash event.payload;
    processing_status = matched;
    wait_id = some wait.wait_id;
    received_at = now;
    processed_at = now;
  }

  abbrev next : Store
  next = record store { inbox = row ∷ store.inbox }

  w_eq : m.w ≡ wait
  w_eq = let g = m.given in ground arith

  tenant_eq : wait.tenant_id ≡ event.tenant_id
  tenant_eq = ap (λ (w : ExternalWait). w.tenant_id) (sym w_eq) ∙ m.tenant

  tenant_same : same_text wait.tenant_id event.tenant_id ≡ true
  tenant_same = is-yes (String_discrete wait.tenant_id event.tenant_id) tenant_eq

  add_row : add store row ≡ (ok true, next)
  unfolding add
  add_row =
      let held = found_any (has_wait event.tenant_id wait.wait_id) store.waits wait stored in
      rw (new_identity, held) refl

  new_row : new_record lower hash event (some wait) matched now ≡ row
  new_row = rw tenant_same refl

  own_row : has_identity (event_identity event) row ≡ true
  own_row =
      rw (own_text event.tenant_id, own_text event.adapter_id, own_text event.source_event_id) refl

  process_matched :
      (value : Option Event)
      → parse_event value ≡ some event
      → process subjects lower hash store value (some wait) (aware now)
        ≡ (ok (record { status = processed matched; row = some row }), next)
  unfolding process get
  process_matched value valid =
      rw (valid, (classify_iff subjects event (some wait) now).1 m, new_row, add_row, own_row) refl

  joined_row : joined next (get next (event_identity event)) ≡ some (row, wait)
  unfolding get
  joined_row = rw (own_row, stored) refl

  row_fits :
      (later : ℕ)
      → later < wait.expires_at
      → fits_event hash (event_identity event) event row wait later ≡ true
  row_fits later h =
      let open_wait : is_waiting wait.status ≡ true =
        subst (λ (w : ExternalWait). is_waiting w.status ≡ true) w_eq (rw m.open_wait refl) in
      let kind : same_type wait.event_type (type_of event.payload) ≡ true =
        is-yes (EventType-discrete wait.event_type (type_of event.payload))
          (ap (λ (w : ExternalWait). w.event_type) (sym w_eq) ∙ sym m.kind) in
      let own_kind : same_type (type_of event.payload) (type_of event.payload) ≡ true =
        is-yes (EventType-discrete (type_of event.payload) (type_of event.payload)) refl in
      let campaign : same_text wait.resource_type "campaign" ≡ true =
        is-yes (String_discrete wait.resource_type "campaign")
          (ap (λ (w : ExternalWait). w.resource_type) (sym w_eq) ∙ m.campaign) in
      let resource : same_text wait.resource_id (campaign_of event.payload) ≡ true =
        is-yes (String_discrete wait.resource_id (campaign_of event.payload))
          (ap (λ (w : ExternalWait). w.resource_id) (sym w_eq) ∙ sym m.resource) in
      let version : wait.expected_version ≡ event.version =
        ap (λ (w : ExternalWait). w.expected_version) (sym w_eq) ∙ sym m.version in
      let same_version : (wait.expected_version == event.version) ≡ true = ground arith in
      let own_version : (event.version == event.version) ≡ true = ground arith in
      let in_time : leb wait.expires_at later ≡ false = ground arith in
      rw
        (
          own_text event.tenant_id,
          own_text event.adapter_id,
          own_text event.source_event_id,
          own_kind,
          own_version,
          own_text event.signature_subject,
          own_text (hash event.payload),
          open_wait,
          in_time,
          kind,
          campaign,
          resource,
          same_version,
        )
        refl

  one_record : length (select (claims_record (event_identity event) wait.wait_id) next.inbox) ≡ 1
  one_record =
      let others =
        none_selected (has_identity (event_identity event))
          (claims_record (event_identity event) wait.wait_id) store.inbox (λ x k. ground arith)
          (any-select (has_identity (event_identity event)) store.inbox new_identity) in
      let mine : claims_record (event_identity event) wait.wait_id row ≡ true =
        rw (own_row, own_text wait.wait_id) refl in
      rw mine (omega (arith, others))

  one_wait :
      length (select (has_wait event.tenant_id wait.wait_id) store.waits) ≡ 1
      → length (select (claims_wait event.tenant_id wait) store.waits) ≡ 1
  one_wait h =
      let open_wait : is_waiting wait.status ≡ true =
        subst (λ (w : ExternalWait). is_waiting w.status ≡ true) w_eq (rw m.open_wait refl) in
      let keyed = find-holds (has_wait event.tenant_id wait.wait_id) store.waits stored in
      let check = own_text wait.checkpoint_id in
      one_selected (has_wait event.tenant_id wait.wait_id) (claims_wait event.tenant_id wait)
        store.waits wait (λ x k. ground arith) h stored (ground arith)

  -- A new valid event that matches a valid wait, stored once, is processed as matched, and can then be
  -- consumed until the wait expires: the consumption returns the record with the status consumed and the
  -- wait with the status resolved, both at its time, and every other column as it was.
  pub matched_consumes :
      (value : Option Event) (later : ℕ)
      → parse_event value ≡ some event
      → length (select (has_wait event.tenant_id wait.wait_id) store.waits) ≡ 1
      → validate_wait wait ≡ ok wait
      → later < wait.expires_at
      → let s = process subjects lower hash store value (some wait) (aware now) in
        (s.0 ≡ ok (record { status = processed matched; row = some row }))
        × ((consume_matched hash s.1 (event_identity event) event (aware later)).0
            ≡ ok (
              record row { processing_status = consumed; processed_at = later },
              record wait { status = resolved; resolved_at = some later },
            ))
  unfolding consume_matched consume_body
  matched_consumes value later valid single fine h =
      let q = process_matched value valid in
      rw q (refl, rw (joined_row, fine, row_fits later h, one_record, one_wait single) refl)
