-- ===== src/Training/Redaction.antt =====
-- The export of an event that was saved redacted.
use flash_connector.Prelude.{
  ℕ, String, some, ◌≡◌, refl, ◌⊎◌, inl, inr, Bool-cases, is_empty, or_else, if◌then◌else◌,
}
use flash_connector.Prelude.Dict.{lookup}
use flash_connector.Json.{
  Json, Items, Fields, nil, cons, end, field, null, bool, int, float, str, arr, obj, object,
  optional_text,
}
use flash_connector.Jobs.{Job}
use flash_connector.Training.{
  SaveTrainingRequest, redacted, training_input, create_training_event_from_job, export_row,
}
use flash_connector.Training.Redact.{
  Patterns, redact_text, redact_value, redact_items, redact_fields,
}

module _ (rx : Patterns) where
  -- Every text in a value is what the three replacements leave of some text; the keys are not read.
  unfoldable mutual
    pub Redacted : Json → Type 0
    Redacted (str s) = (t : String) × (s ≡ redact_text rx t)
    Redacted (arr js) = RedactedItems js
    Redacted (obj f) = RedactedFields f
    Redacted _ = Unit

    pub RedactedItems : Items → Type 0
    RedactedItems nil = Unit
    RedactedItems (cons j js) = Redacted j × RedactedItems js

    pub RedactedFields : Fields → Type 0
    RedactedFields end = Unit
    RedactedFields (field k j r) = Redacted j × RedactedFields r

  mutual
    unfolding Redacted RedactedItems RedactedFields redact_value redact_items redact_fields

    redact_value-Redacted : (j : Json) → Redacted (redact_value rx j)
    redact_value-Redacted null = tt
    redact_value-Redacted (bool b) = tt
    redact_value-Redacted (int n) = tt
    redact_value-Redacted (float n) = tt
    redact_value-Redacted (str s) = (s, refl)
    redact_value-Redacted (arr js) = redact_items-Redacted js
    redact_value-Redacted (obj f) = redact_fields-Redacted f

    redact_items-Redacted : (js : Items) → RedactedItems (redact_items rx js)
    redact_items-Redacted nil = tt
    redact_items-Redacted (cons j js) = (redact_value-Redacted j, redact_items-Redacted js)

    redact_fields-Redacted : (f : Fields) → RedactedFields (redact_fields rx f)
    redact_fields-Redacted end = tt
    redact_fields-Redacted (field k j r) = (redact_value-Redacted j, redact_fields-Redacted r)

-- The text in the place of an output.
abbrev pub RedactedOutput : Patterns → String → String → Type 0
RedactedOutput rx output_text o = (o ≡ "[REDACTED]") ⊎ (o ≡ redact_text rx output_text)

-- What the exported row of an event shows that was saved redacted: as input the redaction of what was
-- kept of the request, whose texts are all redacted, and as output the redacted text or a placeholder.
-- The ideal output that the user wrote is exported as it is.
pub export_row-Redacted :
    (iso : ℕ → String) (rx : Patterns) (new_id : String) (now : ℕ) (tenant_id : String) (job : Job)
    (payload : SaveTrainingRequest)
    → payload.save_mode ≡ redacted
    → let row =
        export_row iso (create_training_event_from_job rx new_id now tenant_id job payload) in
      let shown = redact_value rx (object (training_input job.request_json)) in
      (lookup "input" row ≡ some shown)
      × Redacted rx shown
      × ((o : String) × (lookup "output" row ≡ some (str o))
          × RedactedOutput rx (or_else job.result_text "") o)
      × (lookup "edited_ideal_output" row ≡ some (optional_text payload.edited_ideal_output))
unfolding export_row create_training_event_from_job redact_value redact_fields
export_row-Redacted iso rx new_id now tenant_id job payload h =
    let o = redact_text rx (or_else job.result_text "") in
    rw h (
      refl,
      redact_value-Redacted rx (object (training_input job.request_json)),
      (
        (if is_empty o then "[REDACTED]" else o),
        refl,
        elim (Bool-cases (is_empty o)) [ inl e ↦ rw e (inl refl) | inr e ↦ rw e (inr refl) ],
      ),
      refl,
    )
