-- ===== src/Ledger/Events.antt =====
-- src/oria/domain/ledger.py and src/oria/storage/ledger.py: the domain events, audit events and
-- outbox records of the business database. A payload is its JSON text, after redaction.
use oria.Base.{
  ℕ, suc, String, Bool, not, ◌&&◌, Option, none, some, List, [], ◌∷◌, length, map, select, Result,
  ok, ◌>>=◌, ◌>>◌, raise_if, ◌==◌, is, is_none, any, String_discrete, if◌then◌else◌,
}
use oria.Ledger.{LedgerError}

pub record DomainEvent : Type 0 where
  pub event_id : String
  pub tenant_id : String
  pub aggregate_type : String
  pub aggregate_id : String
  pub event_type : String
  pub event_version : ℕ
  pub payload : String
  pub occurred_at : ℕ
  pub correlation_id : String

-- The fields of an `EventEnvelope` that the ledger reads: its identity, tenants and payload.
pub record AuditEvent : Type 0 where
  pub event_id : String
  pub tenant_id : String
  pub resource_tenant_id : String
  pub payload : String

pub record OutboxRecord : Type 0 where
  pub event_id : String
  pub tenant_id : String
  pub topic : String
  pub payload_json : String
  pub occurred_at : ℕ
  pub available_at : ℕ
  pub published_at : Option ℕ
  pub attempt_count : ℕ
  pub last_error_code : Option String

pub record EventTables : Type 0 where
  pub domain_events : List DomainEvent
  pub audit_events : List AuditEvent
  pub outbox : List OutboxRecord

-- `ExecutionEventBundle`
pub record EventBundle : Type 0 where
  pub domain_events : List DomainEvent
  pub audit_events : List AuditEvent
  pub outbox_records : List OutboxRecord

-- `event_id` is the primary key of each table.
unfoldable pub append_domain : EventTables → DomainEvent → Result LedgerError EventTables
append_domain tables event = do
  raise_if
      (any (λ (row : DomainEvent). is (String_discrete row.event_id event.event_id))
        tables.domain_events)
      LedgerError.event_exists
  ok (record tables { domain_events = event ∷ tables.domain_events })

unfoldable pub append_audit : EventTables → AuditEvent → Result LedgerError EventTables
append_audit tables event = do
  raise_if (not (is (String_discrete event.resource_tenant_id event.tenant_id)))
      LedgerError.cross_tenant
  raise_if
      (any (λ (row : AuditEvent). is (String_discrete row.event_id event.event_id))
        tables.audit_events)
      LedgerError.event_exists
  ok (record tables { audit_events = event ∷ tables.audit_events })

unfoldable pub append_outbox : EventTables → OutboxRecord → Result LedgerError EventTables
append_outbox tables value = do
  raise_if
      (any (λ (row : OutboxRecord). is (String_discrete row.event_id value.event_id)) tables.outbox)
      LedgerError.event_exists
  ok (record tables { outbox = value ∷ tables.outbox })

unfoldable pub append_each :
    {A : Type 0}
    → (EventTables → A → Result LedgerError EventTables)
    → EventTables
    → List A
    → Result LedgerError EventTables
append_each append tables [] = ok tables
append_each append tables (x ∷ xs) = append tables x >>= λ next. append_each append next xs

-- The three loops at the end of a transaction that commits an outcome.
unfoldable pub append_bundle : EventTables → EventBundle → Result LedgerError EventTables
append_bundle tables bundle = do
  with_domain ← append_each append_domain tables bundle.domain_events
  with_audit ← append_each append_audit with_domain bundle.audit_events
  append_each append_outbox with_audit bundle.outbox_records

abbrev pub is_pending : String → OutboxRecord → Bool
is_pending event_id row = is (String_discrete row.event_id event_id) && is_none row.published_at

-- `mark_published`: `now` is the clock of the process.
unfoldable pub mark_published : EventTables → String → ℕ → Result LedgerError EventTables
mark_published tables event_id now = do
  raise_if (not (length (select (is_pending event_id) tables.outbox) == 1))
      LedgerError.outbox_unavailable
  ok (record tables {
    outbox =
        map
          (λ (row : OutboxRecord).
            if is_pending event_id row
            then record row {
              published_at = some now;
              attempt_count = suc row.attempt_count;
              last_error_code = none;
            }
            else row)
          tables.outbox;
  })
