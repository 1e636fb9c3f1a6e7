-- ===== src/Inbox.antt =====
-- src/oria/core/integration_events.py: events of integration adapters, the waits that they resolve, and
-- the records of the inbox. The parse of a raw value into one of the four shapes is the library's; what
-- the shapes then require is `validate_event`.
pub mod Redaction
pub mod Store
pub mod Service
pub mod Visibility
pub mod Matching
pub mod Allowance
pub mod Claims
pub mod Consumption
pub mod Delivery
pub mod Handover
mod Tests
use oria.Base.{
  present, Json, ℕ, String, ◌≡◌, Bool, true, false, not, ◌&&◌, ◌||◌, Option, none, some, List, [],
  ◌∷◌, any, Result, ok, err, ◌>>=◌, ◌>>◌, raise_if, ltb, leb, ◌==◌, is, is_some, same_text,
  String_discrete, ℕ_discrete, if◌then◌else◌,
}

pub data EventType : Type 0 where
  enrollment_upserted window_closed decision_recorded selection_completed : EventType

pub data SelectionDecision : Type 0 where
  selected rejected : SelectionDecision

-- The payloads of the four events.
pub record Enrollment : Type 0 where
  pub campaign_id : String
  pub enrollment_id : String
  pub merchant_id : String
  pub product_ref : String
  pub product_version : String

pub record WindowClosed : Type 0 where
  pub campaign_id : String
  pub enrollment_window_ref : String

pub record DecisionRecorded : Type 0 where
  pub campaign_id : String
  pub submission_version : String
  pub selection_version : String
  pub enrollment_item_id : String
  pub decision : SelectionDecision
  pub reason_code : Option String

pub record SelectionCompleted : Type 0 where
  pub campaign_id : String
  pub submission_version : String
  pub selection_version : String

pub data Payload : Type 0 where
  upserted : Enrollment → Payload
  closed : WindowClosed → Payload
  recorded : DecisionRecorded → Payload
  completed : SelectionCompleted → Payload

pub record Event : Type 0 where
  pub tenant_id : String
  pub adapter_id : String
  pub source_event_id : String
  pub signature_subject : String
  pub version : ℕ
  pub payload : Payload

-- The discriminator of the union.
abbrev pub type_of : Payload → EventType
type_of (upserted p) = enrollment_upserted
type_of (closed p) = window_closed
type_of (recorded p) = decision_recorded
type_of (completed p) = selection_completed

abbrev pub campaign_of : Payload → String
campaign_of (upserted p) = p.campaign_id
campaign_of (closed p) = p.campaign_id
campaign_of (recorded p) = p.campaign_id
campaign_of (completed p) = p.campaign_id

-- A rejection has a reason.
abbrev pub reasoned : SelectionDecision → Option String → Bool
reasoned selected reason = true
reasoned rejected none = false
reasoned rejected (some reason) = present reason

abbrev pub valid_payload : Payload → Bool
valid_payload (upserted p) =
    present p.campaign_id
    && present p.enrollment_id
    && present p.merchant_id
    && present p.product_ref
    && present p.product_version
valid_payload (closed p) = present p.campaign_id && present p.enrollment_window_ref
valid_payload (recorded p) =
    present p.campaign_id
    && present p.submission_version
    && present p.selection_version
    && present p.enrollment_item_id
    && reasoned p.decision p.reason_code
valid_payload (completed p) =
    present p.campaign_id && present p.submission_version && present p.selection_version

abbrev pub valid_event : Event → Bool
valid_event event =
    present event.tenant_id
    && present event.adapter_id
    && present event.source_event_id
    && present event.signature_subject
    && leb 1 event.version
    && valid_payload event.payload

-- `parse_integration_event`, of a value that has one of the four shapes, or none.
unfoldable pub parse_event : Option Event → Option Event
parse_event none = none
parse_event (some event) = if valid_event event then some event else none

pub data TimeoutAction : Type 0 where
  queue fail cancel : TimeoutAction

pub data WaitStatus : Type 0 where
  waiting resolved expired cancelled : WaitStatus

-- `ExternalWait`; its status `matched` is `resolved` here.
pub record ExternalWait : Type 0 where
  pub tenant_id : String
  pub wait_id : String
  pub event_type : EventType
  pub resource_type : String
  pub resource_id : String
  pub expected_version : ℕ
  pub checkpoint_id : String
  pub expires_at : ℕ
  pub timeout_action : TimeoutAction
  pub status : WaitStatus
  pub created_at : ℕ
  pub resolved_at : Option ℕ

unfoldable pub EventType-discrete : Discrete EventType
EventType-discrete = hlevel

unfoldable pub Wait-discrete : Discrete ExternalWait
unfolding EventType-discrete
Wait-discrete = hlevel (String_discrete, ℕ_discrete, EventType-discrete)

abbrev pub same_type : EventType → EventType → Bool
same_type a b = is (EventType-discrete a b)

abbrev pub is_waiting : WaitStatus → Bool
is_waiting waiting = true
is_waiting _ = false

pub data ProcessingStatus : Type 0 where
  matched consumed unauthorized no_wait type_mismatch resource_mismatch stale : ProcessingStatus
  out_of_order wait_expired : ProcessingStatus

abbrev pub is_matched : ProcessingStatus → Bool
is_matched matched = true
is_matched _ = false

abbrev pub is_consumed : ProcessingStatus → Bool
is_consumed consumed = true
is_consumed _ = false

abbrev pub is_unauthorized : ProcessingStatus → Bool
is_unauthorized unauthorized = true
is_unauthorized _ = false

pub record InboxRecord : Type 0 where
  pub tenant_id : String
  pub adapter_id : String
  pub source_event_id : String
  pub event_type : EventType
  pub resource_version : ℕ
  pub signature_subject : String
  pub redacted_payload : Json
  pub payload_hash : String
  pub processing_status : ProcessingStatus
  pub wait_id : Option String
  pub received_at : ℕ
  pub processed_at : ℕ

pub record Identity : Type 0 where
  pub tenant_id : String
  pub adapter_id : String
  pub source_event_id : String

-- The raises of the service and of the repository, by what they report.
pub data InboxError : Type 0 where
  naive_time wait_exists wait_conflict wait_invalid persistence_failed : InboxError
  record_unavailable not_present mismatch already_consumed consumption_failed : InboxError

-- `ExternalWait.validate_state`
unfoldable pub validate_wait : ExternalWait → Result InboxError ExternalWait
validate_wait wait = do
  raise_if (leb wait.expires_at wait.created_at) InboxError.wait_invalid
  raise_if
      (if is_waiting wait.status then is_some wait.resolved_at else not (is_some wait.resolved_at))
      InboxError.wait_invalid
  ok wait
