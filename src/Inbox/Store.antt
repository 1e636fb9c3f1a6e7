-- ===== src/Inbox/Store.antt =====
-- src/oria/storage/platform.py: SQLiteIntegrationEventInboxRepository. A record's wait is a foreign
-- key; an INSERT that violates a constraint, and for which no record is found, is `persistence_failed`.
-- `hash` stands for the digest of the canonical payload.
use oria.Base.{
  ℕ, String, Bool, true, false, not, ◌&&◌, ◌||◌, Option, none, some, List, ◌∷◌, any, find, map,
  select, length, Result, ok, err, ◌>>=◌, ◌>>◌, raise_if, or_raise, Reading, instant, commit, leb,
  ◌==◌, same_text, if◌then◌else◌,
}
use oria.Inbox.{
  Event, Payload, type_of, campaign_of, ExternalWait, resolved, same_type, is_waiting, consumed,
  is_matched, InboxRecord, Identity, InboxError, validate_wait,
}

pub record Store : Type 0 where
  pub waits : List ExternalWait
  pub inbox : List InboxRecord

abbrev pub has_wait : String → String → ExternalWait → Bool
has_wait tenant_id wait_id wait =
    same_text wait.tenant_id tenant_id && same_text wait.wait_id wait_id

abbrev pub has_identity : Identity → InboxRecord → Bool
has_identity identity row =
    same_text row.tenant_id identity.tenant_id
    && same_text row.adapter_id identity.adapter_id
    && same_text row.source_event_id identity.source_event_id

abbrev pub identity_of : InboxRecord → Identity
identity_of row = record {
  tenant_id = row.tenant_id;
  adapter_id = row.adapter_id;
  source_event_id = row.source_event_id;
}

unfoldable pub add_wait : Store → ExternalWait → Result InboxError (Unit {0}) × Store
add_wait store wait =
    if any (has_wait wait.tenant_id wait.wait_id) store.waits
    then (err InboxError.wait_exists, store)
    else (ok tt, record store { waits = wait ∷ store.waits })

-- `get_wait`: the row is validated.
abbrev pub validated : Option ExternalWait → Result InboxError (Option ExternalWait)
validated none = ok none
validated (some wait) = validate_wait wait >>= λ w. ok (some w)

unfoldable pub get_wait : Store → String → String → Result InboxError (Option ExternalWait)
get_wait store tenant_id wait_id = validated (find (has_wait tenant_id wait_id) store.waits)

-- The foreign key of a record.
abbrev pub refers : List ExternalWait → String → Option String → Bool
refers waits tenant_id none = true
refers waits tenant_id (some wait_id) = any (has_wait tenant_id wait_id) waits

-- `add`: whether the record was inserted.
unfoldable pub add : Store → InboxRecord → Result InboxError Bool × Store
add store row =
    if any (has_identity (identity_of row)) store.inbox
    then (ok false, store)
    else (if refers store.waits row.tenant_id row.wait_id
        then (ok true, record store { inbox = row ∷ store.inbox })
        else (err InboxError.persistence_failed, store))

unfoldable pub get : Store → Identity → Option InboxRecord
get store identity = find (has_identity identity) store.inbox

-- The join of a record with its wait.
abbrev pub wait_in : List ExternalWait → String → Option String → Option ExternalWait
wait_in waits tenant_id none = none
wait_in waits tenant_id (some wait_id) = find (has_wait tenant_id wait_id) waits

abbrev pub paired : InboxRecord → Option ExternalWait → Option (InboxRecord × ExternalWait)
paired row none = none
paired row (some wait) = some (row, wait)

abbrev pub joined : Store → Option InboxRecord → Option (InboxRecord × ExternalWait)
joined store none = none
joined store (some row) = paired row (wait_in store.waits row.tenant_id row.wait_id)

-- The condition under which nothing is raised, as a truth value.
abbrev pub fits_event :
    (Payload → String) → Identity → Event → InboxRecord → ExternalWait → ℕ → Bool
fits_event hash identity event row wait consumed_at =
    same_text identity.tenant_id event.tenant_id
    && same_text row.tenant_id event.tenant_id
    && same_text row.adapter_id event.adapter_id
    && same_text row.source_event_id event.source_event_id
    && same_type row.event_type (type_of event.payload)
    && row.resource_version == event.version
    && same_text row.signature_subject event.signature_subject
    && same_text row.payload_hash (hash event.payload)
    && is_matched row.processing_status
    && is_waiting wait.status
    && not (leb wait.expires_at consumed_at)
    && same_type wait.event_type (type_of event.payload)
    && same_text wait.resource_type "campaign"
    && same_text wait.resource_id (campaign_of event.payload)
    && wait.expected_version == event.version

abbrev pub names_wait : Option String → String → Bool
names_wait none wait_id = false
names_wait (some w) wait_id = same_text w wait_id

-- The WHERE clauses of the two updates.
abbrev pub claims_record : Identity → String → InboxRecord → Bool
claims_record identity wait_id row =
    has_identity identity row && is_matched row.processing_status && names_wait row.wait_id wait_id

abbrev pub claims_wait : String → ExternalWait → ExternalWait → Bool
claims_wait tenant_id wait row =
    has_wait tenant_id wait.wait_id row
    && is_waiting row.status
    && same_text row.checkpoint_id wait.checkpoint_id

abbrev pub consumed_record : ℕ → InboxRecord → InboxRecord
consumed_record now row = record row { processing_status = consumed; processed_at = now }

abbrev pub resolved_wait : ℕ → ExternalWait → ExternalWait
resolved_wait now wait = record wait { status = resolved; resolved_at = some now }

abbrev pub update_records : Identity → String → ℕ → List InboxRecord → List InboxRecord
update_records identity wait_id now rows =
    map (λ row. if claims_record identity wait_id row then consumed_record now row else row) rows

abbrev pub update_waits : String → ExternalWait → ℕ → List ExternalWait → List ExternalWait
update_waits tenant_id wait now rows =
    map (λ row. if claims_wait tenant_id wait row then resolved_wait now row else row) rows

-- An invalid row is reported as a failed consumption.
abbrev pub checked : Result InboxError ExternalWait → Result InboxError ExternalWait
checked (ok wait) = ok wait
checked (err _) = err InboxError.consumption_failed

unfoldable pub consume_body :
    (Payload → String)
    → Store
    → Identity
    → Event
    → ℕ
    → Result InboxError ((InboxRecord × ExternalWait) × Store)
consume_body hash store identity event now = do
  row ← or_raise (joined store (get store identity)) InboxError.not_present
  wait ← checked (validate_wait row.1)
  raise_if (not (fits_event hash identity event row.0 wait now)) InboxError.mismatch
  raise_if
      (not (length (select (claims_record identity wait.wait_id) store.inbox) == 1)
        || not (length (select (claims_wait identity.tenant_id wait) store.waits) == 1))
      InboxError.already_consumed
  ok (
    (consumed_record now row.0, resolved_wait now wait),
    record {
      inbox = update_records identity wait.wait_id now store.inbox;
      waits = update_waits identity.tenant_id wait now store.waits;
    },
  )

-- `consume_matched`, one transaction.
unfoldable pub consume_matched :
    (Payload → String)
    → Store
    → Identity
    → Event
    → Reading
    → Result InboxError (InboxRecord × ExternalWait) × Store
consume_matched hash store identity event reading =
    commit store (instant reading InboxError.naive_time >>= consume_body hash store identity event)
