-- ===== src/Inbox/Service.antt =====
-- src/oria/core/integration_events.py: IntegrationEventInboxService. The subjects that may sign for a
-- tenant's adapter, lower case and the digest of a payload are parameters.
use oria.Base.{
  Json, null, text, object, no_fields, field, ℕ, String, Bool, true, false, not, ◌||◌, Option, none,
  some, List, any, Result, ok, err, ◌>>=◌, ◌>>◌, raise_if, or_raise, Reading, naive, aware, ltb,
  leb, is, same_text, if◌then◌else◌,
}
use oria.Inbox.{
  SelectionDecision, selected, rejected, Event, Payload, upserted, closed, recorded, completed,
  type_of, campaign_of, parse_event, ExternalWait, Wait-discrete, same_type, is_waiting,
  ProcessingStatus, matched, unauthorized, no_wait, type_mismatch, resource_mismatch, stale,
  out_of_order, wait_expired, is_unauthorized, InboxRecord, InboxError,
}
use oria.Inbox.Redaction.{redact}
use oria.Inbox.Store.{Store, add_wait, get_wait, add, get, identity_of}

-- What follows the read of `register_wait`.
abbrev pub register_found :
    Store
    → ExternalWait
    → Result InboxError (Option ExternalWait)
    → Result InboxError ExternalWait × Store
register_found store wait (err e) = (err e, store)
register_found store wait (ok (some existing)) = (
  raise_if (not (is (Wait-discrete existing wait))) InboxError.wait_conflict >> ok existing,
  store,
)
register_found store wait (ok none) =
    let (result, next) = add_wait store wait in (result >> ok wait, next)

unfoldable pub register_wait : Store → ExternalWait → Result InboxError ExternalWait × Store
register_wait store wait = register_found store wait (get_wait store wait.tenant_id wait.wait_id)

abbrev pub decision_text : SelectionDecision → String
decision_text selected = "selected"
decision_text rejected = "rejected"

abbrev pub optional_text : Option String → Json
optional_text none = null
optional_text (some s) = text s

-- `event.payload.model_dump(mode="json")`
unfoldable pub dump : Payload → Json
dump (upserted p) = object (
    field "campaign_id" (text p.campaign_id) (
      field "enrollment_id" (text p.enrollment_id) (
        field "merchant_id" (text p.merchant_id) (
          field "product_ref" (text p.product_ref)
            (field "product_version" (text p.product_version) no_fields)))))
dump (closed p) = object (
    field "campaign_id" (text p.campaign_id)
      (field "enrollment_window_ref" (text p.enrollment_window_ref) no_fields))
dump (recorded p) = object (
    field "campaign_id" (text p.campaign_id) (
      field "submission_version" (text p.submission_version) (
        field "selection_version" (text p.selection_version) (
          field "enrollment_item_id" (text p.enrollment_item_id) (
            field "decision" (text (decision_text p.decision))
              (field "reason_code" (optional_text p.reason_code) no_fields))))))
dump (completed p) = object (
    field "campaign_id" (text p.campaign_id) (
      field "submission_version" (text p.submission_version)
        (field "selection_version" (text p.selection_version) no_fields)))

abbrev pub Subjects : Type 0
Subjects = String → String → List String

abbrev pub is_authorized : Subjects → Event → Bool
is_authorized subjects event =
    any (λ (s : String). same_text s event.signature_subject)
      (subjects event.tenant_id event.adapter_id)

-- `_classify`, of an authorized event against a wait.
abbrev pub classify_wait : Event → ExternalWait → ℕ → ProcessingStatus
classify_wait event wait now =
    if not (is_waiting wait.status)
    then no_wait
    else (if not (same_text wait.tenant_id event.tenant_id)
        then resource_mismatch
        else (if leb wait.expires_at now
            then wait_expired
            else (if not (same_type (type_of event.payload) wait.event_type)
                then type_mismatch
                else (if not (same_text wait.resource_type "campaign")
                      || not (same_text (campaign_of event.payload) wait.resource_id)
                    then resource_mismatch
                    else (if ltb event.version wait.expected_version
                        then stale
                        else (if ltb wait.expected_version event.version
                            then out_of_order
                            else matched))))))

abbrev pub classify_authorized : Event → Option ExternalWait → ℕ → ProcessingStatus
classify_authorized event none now = no_wait
classify_authorized event (some wait) now = classify_wait event wait now

unfoldable pub classify : Subjects → Event → Option ExternalWait → ℕ → ProcessingStatus
classify subjects event wait now =
    if not (is_authorized subjects event) then unauthorized else classify_authorized event wait now

pub data InboxStatus : Type 0 where
  processed : ProcessingStatus → InboxStatus
  duplicate invalid_envelope : InboxStatus

-- `InboxProcessResult`; the event may resume its wait exactly if it is processed as matched.
pub record ProcessResult : Type 0 where
  pub status : InboxStatus
  pub row : Option InboxRecord

-- The wait that is recorded is one of the event's tenant.
abbrev pub wait_reference : Event → Option ExternalWait → Option String
wait_reference event none = none
wait_reference event (some wait) =
    if same_text wait.tenant_id event.tenant_id then some wait.wait_id else none

abbrev pub new_record :
    (String → String)
    → (Payload → String)
    → Event
    → Option ExternalWait
    → ProcessingStatus
    → ℕ
    → InboxRecord
new_record lower hash event wait status now = record {
  tenant_id = event.tenant_id;
  adapter_id = event.adapter_id;
  source_event_id = event.source_event_id;
  event_type = type_of event.payload;
  resource_version = event.version;
  signature_subject = event.signature_subject;
  redacted_payload = redact lower (dump event.payload);
  payload_hash = hash event.payload;
  processing_status = status;
  wait_id = wait_reference event wait;
  received_at = now;
  processed_at = now;
}

-- What follows the INSERT.
abbrev pub after_add :
    ProcessingStatus
    → InboxRecord
    → Result InboxError Bool × Store
    → Result InboxError ProcessResult × Store
after_add status row (err e, store) = (err e, store)
after_add status row (ok false, store) = (ok (record { status = duplicate; row = none }), store)
after_add status row (ok true, store) = (
  or_raise (get store (identity_of row)) InboxError.record_unavailable >>= λ persisted.
      ok (record { status = processed status; row = some persisted }),
  store,
)

abbrev pub process_as :
    (String → String)
    → (Payload → String)
    → Store
    → Event
    → Option ExternalWait
    → ℕ
    → ProcessingStatus
    → Result InboxError ProcessResult × Store
process_as lower hash store event wait now status =
    if is_unauthorized status
    then (ok (record { status = processed status; row = none }), store)
    else after_add status (new_record lower hash event wait status now)
        (add store (new_record lower hash event wait status now))

abbrev pub process_parsed :
    Subjects
    → (String → String)
    → (Payload → String)
    → Store
    → Option Event
    → Option ExternalWait
    → Reading
    → Result InboxError ProcessResult × Store
process_parsed subjects lower hash store none wait reading =
    (ok (record { status = invalid_envelope; row = none }), store)
process_parsed subjects lower hash store (some event) wait naive =
    (err InboxError.naive_time, store)
process_parsed subjects lower hash store (some event) wait (aware now) =
    process_as lower hash store event wait now (classify subjects event wait now)

unfoldable pub process :
    Subjects
    → (String → String)
    → (Payload → String)
    → Store
    → Option Event
    → Option ExternalWait
    → Reading
    → Result InboxError ProcessResult × Store
process subjects lower hash store value wait reading =
    process_parsed subjects lower hash store (parse_event value) wait reading
