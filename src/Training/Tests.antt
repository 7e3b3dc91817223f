-- ===== src/Training/Tests.antt =====
-- Runs of api/app/services/training.py.
use mathlib.Core.List.{Memᴰ}
use flash_connector.Prelude.{
  ℕ, ◌≤◌, String, true, false, none, some, [], ◌∷◌, ◌≡◌, refl, ◌⊎◌, ◌↔◌, ok, err, length, strip,
}
use flash_connector.Prelude.Dict.{lookup}
use flash_connector.Json.{pos, str, object}
use flash_connector.Jobs.{Job, JobStatus, get_job_for_tenant}
use flash_connector.PublicApi.{Refused}
use flash_connector.Training.{
  TrainingEvent, SaveTrainingRequest, redacted, full, training_input,
  create_training_event_from_job, export_row,
}
use flash_connector.Training.Query.{TrainingExportRequest, query_training_events}
use flash_connector.Training.Redact.{Patterns, redact_value}
use flash_connector.Training.Redaction.{Redacted, RedactedOutput, export_row-Redacted}
use flash_connector.Training.Examples.{list_few_shot_examples}
use flash_connector.Training.Selection.{IsExample, FromEvent, list_few_shot_examples-FromEvent}
use flash_connector.Training.Queries.{NewestFirst, Matches, query_training_events_iff}
use flash_connector.Training.Saving.{
  SessionUser, ActsFor, key_allows, save_job_training, save_job_training-isolates,
}

abbrev patterns : Patterns
patterns = record { emails = λ s. "[REDACTED_EMAIL]"; cards = λ s. s; phones = λ s. s }

abbrev job : Job
job = record {
  id = "j";
  tenant_id = "t";
  endpoint_id = "e";
  endpoint_version_id = "v";
  billing_mode = "byok";
  reserved_cost_usd = 0;
  request_api_key_id = none;
  provider_batch_run_id = none;
  provider_batch_item_id = none;
  provider_batch_status = none;
  idempotency_key = none;
  subtenant_code = none;
  status = JobStatus.completed;
  request_json = ("input", str "a@b.org") ∷ [];
  request_hash = none;
  cache_hit = false;
  cached_from_job_id = none;
  result_text = some "hello";
  error = none;
  usage_json = none;
  estimated_cost_usd = none;
  provider_response_id = none;
  provider_used = none;
  model_used = none;
  cancel_requested = false;
  created_at = 1;
  started_at = some 2;
  finished_at = some 3;
}

abbrev hidden : SaveTrainingRequest
hidden = record {
  feedback = none;
  edited_ideal_output = some "mail a@b.org";
  tags = [];
  save_mode = redacted;
  is_few_shot = false;
}

abbrev event : ℕ → TrainingEvent
event now = create_training_event_from_job patterns "x" now "t" job (record {
  feedback = none;
  edited_ideal_output = none;
  tags = "good" ∷ [];
  save_mode = full;
  is_few_shot = true;
})

export_row-Redacted_example :
    let row =
      export_row (λ n. "2024") (create_training_event_from_job patterns "x" 5 "t" job hidden) in
    let shown = redact_value patterns (object (training_input job.request_json)) in
    (lookup "input" row ≡ some shown)
    × Redacted patterns shown
    × ((o : String) × (lookup "output" row ≡ some (str o)) × RedactedOutput patterns "hello" o)
    × (lookup "edited_ideal_output" row ≡ some (str "mail a@b.org"))
export_row-Redacted_example = export_row-Redacted (λ n. "2024") patterns "x" 5 "t" job hidden refl

list_few_shot_examples-FromEvent_example :
    (length (list_few_shot_examples (λ j. "") (event 5 ∷ event 6 ∷ []) "t" "e" (pos 1)) ≤ 1)
    × (1 ≤ 1)
    × (1 ≤ 20)
    × ((pair : String × String)
        → Memᴰ pair (list_few_shot_examples (λ j. "") (event 5 ∷ event 6 ∷ []) "t" "e" (pos 1))
        → (f : FromEvent (λ j. "") (event 5 ∷ event 6 ∷ []) pair) × IsExample "t" "e" f.event)
list_few_shot_examples-FromEvent_example =
    list_few_shot_examples-FromEvent (λ j. "") (event 5 ∷ event 6 ∷ []) "t" "e" (pos 1)

examples_run :
    list_few_shot_examples (λ j. "") (event 5 ∷ event 6 ∷ []) "t" "e" (pos 1)
    ≡ ("a@b.org", "hello") ∷ []
unfolding list_few_shot_examples create_training_event_from_job strip
examples_run = refl

abbrev good_ones : TrainingExportRequest
good_ones = record {
  endpoint_id = some "e";
  endpoint_version_id = none;
  subtenant_code = none;
  tags = "good" ∷ [];
  feedback = none;
  few_shot_only = some true;
  date_from = some 6;
  date_to = none;
}

query_run :
    query_training_events (event 5 ∷ event 6 ∷ event 7 ∷ []) "t" good_ones ≡ event 7 ∷ event 6 ∷ []
unfolding query_training_events create_training_event_from_job
query_run = refl

query_training_events_iff_example :
    NewestFirst (query_training_events (event 5 ∷ event 6 ∷ []) "t" good_ones)
    × ((e : TrainingEvent)
        → Memᴰ e (query_training_events (event 5 ∷ event 6 ∷ []) "t" good_ones)
          ↔ (Memᴰ e (event 5 ∷ event 6 ∷ []) × Matches "t" good_ones e))
query_training_events_iff_example = query_training_events_iff (event 5 ∷ event 6 ∷ []) "t" good_ones

abbrev user : SessionUser
user = record { tenant_id = "t" }

save_job_training-isolates_example :
    let (answer, events') =
      save_job_training patterns "x" 5 none (some user) (job ∷ []) "j" hidden [] in
    ((e : Refused) × (answer ≡ err e) × (events' ≡ []))
    ⊎ ((tenant_id : String) × (job' : Job) × (answer
          ≡ ok (create_training_event_from_job patterns "x" 5 tenant_id job' hidden))
        × (events' ≡ create_training_event_from_job patterns "x" 5 tenant_id job' hidden ∷ [])
        × ActsFor none (some user) tenant_id
        × Memᴰ job' (job ∷ [])
        × (job'.id ≡ "j")
        × (job'.tenant_id ≡ tenant_id)
        × (key_allows none job' ≡ true))
save_job_training-isolates_example =
    save_job_training-isolates patterns "x" 5 none (some user) (job ∷ []) "j" hidden []

save_run :
    (save_job_training patterns "x" 5 none (some user) (job ∷ []) "j" hidden []).0
    ≡ ok (create_training_event_from_job patterns "x" 5 "t" job hidden)
unfolding save_job_training get_job_for_tenant
save_run = refl
