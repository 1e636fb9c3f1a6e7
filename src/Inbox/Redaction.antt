-- ===== src/Inbox/Redaction.antt =====
-- src/oria/core/integration_events.py: redaction of a JSON value. Lower case is a parameter.
use oria.Base.{
  Json, null, boolean, number, text, array, object, Items, no_items, item, Fields, no_fields, field,
  String, Bool, any, List, [], ◌∷◌, same_text, if◌then◌else◌,
}

-- `_SENSITIVE_PAYLOAD_FIELDS`
abbrev pub sensitive_fields : List String
sensitive_fields =
    "authorization" ∷ "body" ∷ "cookie" ∷ "credential" ∷ "merchant_id" ∷ "password" ∷ "raw_body"
    ∷ "secret" ∷ "token" ∷ []

unfoldable pub is_sensitive : String → Bool
is_sensitive key = any (same_text key) sensitive_fields

abbrev pub redacted : Json
redacted = text "[REDACTED]"

module _ (lower : String → String) where
  -- `_redact_payload`
  unfoldable mutual
    pub redact : Json → Json
    redact (array items) = array (redact_items items)
    redact (object fields) = object (redact_fields fields)
    redact null = null
    redact (boolean b) = boolean b
    redact (number n) = number n
    redact (text s) = text s

    pub redact_items : Items → Items
    redact_items no_items = no_items
    redact_items (item value items) = item (redact value) (redact_items items)

    pub redact_fields : Fields → Fields
    redact_fields no_fields = no_fields
    redact_fields (field key value fields) =
        let shown = redact value in
        field key (if is_sensitive (lower key) then redacted else shown) (redact_fields fields)
