-- ===== src/Training/Redact.antt =====
-- The redaction of a payload, in api/app/services/training.py.
use flash_connector.Prelude.{String}
use flash_connector.Prelude.Dict.{Dict}
use flash_connector.Json.{
  Json, Items, Fields, nil, cons, end, field, str, arr, obj, fields, to_fields,
}

-- The replacements by the three regular expressions.
pub record Patterns : Type 0 where
  pub emails : String → String
  pub cards : String → String
  pub phones : String → String

module _ (rx : Patterns) where
  abbrev pub redact_text : String → String
  redact_text value = rx.phones (rx.cards (rx.emails value))

  unfoldable mutual
    pub redact_value : Json → Json
    redact_value (str s) = str (redact_text s)
    redact_value (arr js) = arr (redact_items js)
    redact_value (obj f) = obj (redact_fields f)
    redact_value j = j

    pub redact_items : Items → Items
    redact_items nil = nil
    redact_items (cons j js) = cons (redact_value j) (redact_items js)

    pub redact_fields : Fields → Fields
    redact_fields end = end
    redact_fields (field k j r) = field k (redact_value j) (redact_fields r)

  abbrev pub redact_training_payload : Dict Json → String → Dict Json × String
  redact_training_payload input_json output_text =
      (fields (redact_fields (to_fields input_json)), redact_text output_text)
