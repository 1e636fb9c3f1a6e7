-- ===== src/Inbox/Tests.antt =====
-- Integration events at concrete values: the theorems' witnesses, and runs of the operations.
use oria.Base.{
  Json, text, array, no_items, item, Fields, field, no_fields, object, String, ◌≡◌, refl, ◌↔◌, true,
  none, some, List, [], ◌∷◌, select, length, find, ok, aware, arith, String_discrete, ℕ_discrete,
}
use oria.Inbox.{
  Event, Payload, upserted, enrollment_upserted, ExternalWait, waiting, resolved, consumed, queue,
  EventType-discrete, Wait-discrete, InboxRecord, parse_event, type_of, matched, resource_mismatch,
  validate_wait,
}
use oria.Inbox.Redaction.{redact, redact_fields, is_sensitive}
use oria.Inbox.Store.{
  Store, add_wait, get_wait, add, get, consume_body, consume_matched, has_wait, consumed_record,
  resolved_wait,
}
use oria.Inbox.Service.{Subjects, register_wait, dump, classify, process, processed, duplicate}
use oria.Inbox.Visibility.{
  objects, shown, hidden, same, none_left, token_name, Alike, IsClean, redact-Alike, redact-IsClean,
}
use oria.Inbox.Matching.{Matches, classify_iff}
use oria.Inbox.Allowance.{ConsumedOnce}
use oria.Inbox.Consumption.{Call, registers, processes, consumes, call, run, run-ConsumedOnce}
use oria.Inbox.Delivery.{event_identity, is_known, process_duplicate}
use oria.Inbox.Handover.{matched_consumes}

abbrev subjects : Subjects
subjects _ _ = "adapter-key" ∷ []

abbrev lower : String → String
lower s = s

abbrev hash : Payload → String
hash _ = "sha256:digest"

abbrev enrolled : Event
enrolled = record {
  tenant_id = "tenant";
  adapter_id = "adapter";
  source_event_id = "event-1";
  signature_subject = "adapter-key";
  version = 1;
  payload = upserted (record {
    campaign_id = "campaign";
    enrollment_id = "enrollment";
    merchant_id = "merchant";
    product_ref = "product";
    product_version = "1";
  });
}

abbrev wait : ExternalWait
wait = record {
  tenant_id = "tenant";
  wait_id = "wait";
  event_type = enrollment_upserted;
  resource_type = "campaign";
  resource_id = "campaign";
  expected_version = 1;
  checkpoint_id = "checkpoint";
  expires_at = 100;
  timeout_action = queue;
  status = waiting;
  created_at = 10;
  resolved_at = none;
}

abbrev with_wait : Store
with_wait = record { waits = wait ∷ []; inbox = [] }

abbrev empty : Store
empty = record { waits = []; inbox = [] }

abbrev row : InboxRecord
row = record {
  tenant_id = "tenant";
  adapter_id = enrolled.adapter_id;
  source_event_id = enrolled.source_event_id;
  event_type = type_of enrolled.payload;
  resource_version = enrolled.version;
  signature_subject = enrolled.signature_subject;
  redacted_payload = redact lower (dump enrolled.payload);
  payload_hash = "sha256:digest";
  processing_status = matched;
  wait_id = some "wait";
  received_at = 20;
  processed_at = 20;
}

abbrev with_row : Store
with_row = record { waits = wait ∷ []; inbox = row ∷ [] }

abbrev calls : List Call
calls =
    registers wait
    ∷ processes (some enrolled) (some wait) (aware 20)
    ∷ consumes (event_identity enrolled) enrolled (aware 30)
    ∷ consumes (event_identity enrolled) enrolled (aware 31)
    ∷ []

-- What an operation computes through.
everything : Unit {0}
unfolding String_discrete ℕ_discrete EventType-discrete Wait-discrete parse_event validate_wait
    redact redact_fields is_sensitive add_wait get_wait add get consume_body consume_matched
    register_wait dump classify process call run
everything = tt

abbrev shown_payload : Json
shown_payload = object (
    field "campaign_id" (text "campaign") (
      field "enrollment_id" (text "enrollment") (
        field "merchant_id" (text "[REDACTED]")
          (field "product_ref" (text "product") (field "product_version" (text "1") no_fields)))))

redact_runs : redact lower (dump enrolled.payload) ≡ shown_payload
unfolding everything
redact_runs = refl

-- Only the first consumption succeeds.
run_consumes_once :
    run subjects lower hash empty calls
    ≡ record { waits = resolved_wait 30 wait ∷ []; inbox = consumed_record 30 row ∷ [] }
unfolding everything
run_consumes_once = refl

empty-ConsumedOnce : ConsumedOnce empty
empty-ConsumedOnce = record { bounded = λ t w. omega arith }

run-ConsumedOnce_example : ConsumedOnce (run subjects lower hash empty calls)
run-ConsumedOnce_example = run-ConsumedOnce subjects lower hash empty calls empty-ConsumedOnce

classify_iff_example :
    (classify subjects enrolled (some wait) 20 ≡ matched) ↔ Matches subjects enrolled (some wait) 20
classify_iff_example = classify_iff subjects enrolled (some wait) 20

classify_runs : classify subjects enrolled (some wait) 20 ≡ matched
unfolding everything
classify_runs = refl

other_campaign :
    classify subjects enrolled (some (record wait { resource_id = "other" })) 20 ≡ resource_mismatch
unfolding everything
other_campaign = refl

enrolled_parses : parse_event (some enrolled) ≡ some enrolled
unfolding everything
enrolled_parses = refl

enrolled_known : is_known (event_identity enrolled) with_row ≡ true
unfolding everything
enrolled_known = refl

process_duplicate_example :
    process subjects lower hash
      (run subjects lower hash with_row calls)
      (some enrolled)
      none
      (aware 40)
    ≡ (ok (record { status = duplicate; row = none }), run subjects lower hash with_row calls)
unfolding everything
process_duplicate_example =
    process_duplicate subjects lower hash with_row calls (some enrolled) enrolled none 40
      enrolled_known enrolled_parses refl

enrolled-Matches : Matches subjects enrolled (some wait) 20
enrolled-Matches = (classify_iff subjects enrolled (some wait) 20).0 classify_runs

wait_valid : validate_wait wait ≡ ok wait
unfolding everything
wait_valid = refl

wait_stored : find (has_wait "tenant" "wait") with_wait.waits ≡ some wait
unfolding everything
wait_stored = refl

wait_single : length (select (has_wait "tenant" "wait") with_wait.waits) ≡ 1
unfolding everything
wait_single = refl

matched_consumes_example :
    let s = process subjects lower hash with_wait (some enrolled) (some wait) (aware 20) in
    (s.0 ≡ ok (record { status = processed matched; row = some row }))
    × ((consume_matched hash s.1 (event_identity enrolled) enrolled (aware 99)).0
        ≡ ok (
          record row { processing_status = consumed; processed_at = 99 },
          record wait { status = resolved; resolved_at = some 99 },
        ))
matched_consumes_example =
    matched_consumes subjects lower hash with_wait enrolled wait 20 enrolled-Matches refl
      wait_stored (some enrolled) 99 enrolled_parses wait_single wait_valid (omega arith)

-- Two payloads that differ in a secret.
abbrev secret_a : Fields
secret_a = field "token" (text "a") (field "name" (text "n") no_fields)

abbrev secret_b : Fields
secret_b = field "token" (text "b") (field "name" (text "n") no_fields)

redact-Alike_example : redact lower (object secret_a) ≡ redact lower (object secret_b)
redact-Alike_example = redact-Alike lower (object secret_a) (object secret_b) (
    objects secret_a secret_b (
      hidden "token" (text "a") (text "b") _ _ token_name
        (shown "name" (text "n") (text "n") _ _ (same (text "n")) none_left)))

-- A secret in an object of an array.
abbrev nested : Json
nested = object (field "lines" (array (item (object secret_a) no_items)) no_fields)

redact-IsClean_example :
    IsClean lower (redact lower nested) × Alike lower nested (redact lower nested)
redact-IsClean_example = redact-IsClean lower nested

-- What is left of it.
nested_redacted :
    redact lower nested
    ≡ object (
        field "lines"
          (array (
            item
              (object (field "token" (text "[REDACTED]") (field "name" (text "n") no_fields)))
              no_items))
          no_fields)
unfolding everything
nested_redacted = refl
