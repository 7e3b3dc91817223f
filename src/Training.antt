-- ===== src/Training.antt =====
-- api/app/services/training.py and the `TrainingEvent` rows of api/app/models/entities.py. The table of
-- events is a list of rows in the order of their creation; the rows of a query that have the same time
-- come in the table's order.
pub mod Query
pub mod Redact
pub mod Examples
pub mod Redaction
pub mod Queries
pub mod Saving
pub mod Selection
mod Tests
use flash_connector.Prelude.{
  ℕ, String, Bool, true, false, ◌&&◌, ◌||◌, not, Option, none, some, List, [], ◌∷◌, ◌++◌, map,
  reverse, ltb, leb, min, max, if◌then◌else◌, is_empty, is_nil, any, take, select, or_else, strip,
  text_append, ◌==◌,
}
use flash_connector.Prelude.Dict.{Dict, lookup}
use flash_connector.Json.{
  ℤ, pos, negsuc, Json, Items, Fields, nil, cons, end, field, null, bool, str, arr, obj, object,
  items, fields, to_fields, to_items, as_text, optional_text, truthy,
}
use flash_connector.Jobs.{Job, holds}
use flash_connector.Studio.{join_lines}
use flash_connector.Training.Redact.{
  Patterns, redact_text, redact_value, redact_items, redact_fields, redact_training_payload,
}

pub data SaveMode : Type 0 where
  full redacted : SaveMode

-- api/app/schemas/training.py
pub record SaveTrainingRequest : Type 0 where
  pub feedback : Option String
  pub edited_ideal_output : Option String
  pub tags : List String
  pub save_mode : SaveMode
  pub is_few_shot : Bool

pub record TrainingEvent : Type 0 where
  pub id : String
  pub tenant_id : String
  pub endpoint_id : String
  pub endpoint_version_id : String
  pub subtenant_code : Option String
  pub job_id : Option String
  pub input_json : Dict Json
  pub output_text : String
  pub feedback : Option String
  pub edited_ideal_output : Option String
  pub tags : Option (List String)
  pub is_few_shot : Bool
  pub created_at : ℕ
  pub save_mode : SaveMode
  pub redacted_input_json : Option (Dict Json)
  pub redacted_output_text : Option String

-- The payload of the request, as it is kept.
abbrev pub training_input : Dict Json → Dict Json
training_input request =
    ("input", or_else (lookup "input" request) null)
    ∷ ("messages", or_else (lookup "messages" request) null)
    ∷ ("metadata", or_else (lookup "metadata" request) (object []))
    ∷ []

abbrev redacted_payload :
    Patterns → SaveMode → Dict Json → String → Option (Dict Json) × Option String
redacted_payload rx redacted input_json output_text =
    let (i, o) = redact_training_payload rx input_json output_text in (some i, some o)
redacted_payload rx full input_json output_text = (none, none)

-- The new row; the generated id and the clock are arguments.
unfoldable pub create_training_event_from_job :
    Patterns → String → ℕ → String → Job → SaveTrainingRequest → TrainingEvent
create_training_event_from_job rx new_id now tenant_id job payload =
    let input_json = training_input job.request_json in
    let output_text = or_else job.result_text "" in
    let hidden = redacted_payload rx payload.save_mode input_json output_text in
    record {
      id = new_id;
      tenant_id = tenant_id;
      endpoint_id = job.endpoint_id;
      endpoint_version_id = job.endpoint_version_id;
      subtenant_code = job.subtenant_code;
      job_id = some job.id;
      input_json = input_json;
      output_text = output_text;
      feedback = payload.feedback;
      edited_ideal_output = payload.edited_ideal_output;
      tags = some payload.tags;
      is_few_shot = payload.is_few_shot;
      created_at = now;
      save_mode = payload.save_mode;
      redacted_input_json = hidden.0;
      redacted_output_text = hidden.1;
    }

-- `SaveTrainingRequest()`
abbrev pub default_request : SaveTrainingRequest
default_request = record {
  feedback = none;
  edited_ideal_output = none;
  tags = [];
  save_mode = full;
  is_few_shot = false;
}

unfoldable pub auto_save_training_event :
    Patterns → String → ℕ → Job → List TrainingEvent → List TrainingEvent
unfolding create_training_event_from_job
auto_save_training_event rx new_id now job events =
    if truthy (or_else (lookup "save_default" job.request_json) null)
    then events
      ++ create_training_event_from_job rx new_id now job.tenant_id job default_request ∷ []
    else events

abbrev pub exported_input : TrainingEvent → Dict Json
exported_input e = elim e.save_mode [
  | full ↦ e.input_json
  | redacted ↦
      let hidden = ("redacted", bool true) ∷ [] in
      elim e.redacted_input_json [ none ↦ hidden | some d ↦ if is_nil d then hidden else d ]
]

abbrev pub exported_output : TrainingEvent → String
exported_output e = elim e.save_mode [
  | full ↦ e.output_text
  | redacted ↦ elim e.redacted_output_text [
    | none ↦ "[REDACTED]"
    | some s ↦ if is_empty s then "[REDACTED]" else s
  ]
]

-- The row of one event; `iso` prints a time.
unfoldable pub export_row : (ℕ → String) → TrainingEvent → Dict Json
export_row iso e =
    ("event_id", str e.id)
    ∷ ("tenant_id", str e.tenant_id)
    ∷ ("endpoint_id", str e.endpoint_id)
    ∷ ("endpoint_version_id", str e.endpoint_version_id)
    ∷ ("subtenant_code", optional_text e.subtenant_code)
    ∷ ("job_id", optional_text e.job_id)
    ∷ ("input", object (exported_input e))
    ∷ ("output", str (exported_output e))
    ∷ ("feedback", optional_text e.feedback)
    ∷ ("edited_ideal_output", optional_text e.edited_ideal_output)
    ∷ ("tags", arr (to_items (map str (or_else e.tags []))))
    ∷ ("is_few_shot", bool e.is_few_shot)
    ∷ ("created_at", str (iso e.created_at))
    ∷ []

-- The lines, which `dumps` prints.
unfoldable pub export_training_jsonl :
    (ℕ → String) → (Dict Json → String) → List TrainingEvent → List String
unfolding export_row
export_training_jsonl iso dumps events =
    map (λ e. text_append (dumps (export_row iso e)) "\n") events
