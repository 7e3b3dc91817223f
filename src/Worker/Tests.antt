-- ===== src/Worker/Tests.antt =====
-- Runs of api/app/tasks.py on one job.
use flash_connector.Prelude.{
  String, true, false, none, some, List, [], ◌∷◌, ◌≡◌, refl, ◌==◌, if◌then◌else◌, Result, ok, err,
  ◌||◌, strip, lower,
}
use flash_connector.Prelude.Dict.{Dict}
use flash_connector.Json.{Json, str, arr, int, pos, to_items}
use flash_connector.Studio.{parse_int_param, parse_list_param}
use flash_connector.Worker.Candidates.{
  Routing, candidate_routes, parse_fallback_targets, parse_bool_param, routes_of_items,
  route_of_item, split_slash, dedupe,
}
use flash_connector.Worker.Limits.{Candidates, candidate_routes-Candidates}
use flash_connector.Jobs.{Job, JobStatus, EndpointVersion, cancel_job}
use flash_connector.Worker.{process_job, run_version, run_uncached}
use flash_connector.Worker.Routes.{
  Route, Answer, Services, Others, try_routes, run_routes, after_completion,
}
use flash_connector.Worker.Outcomes.{Selects, try_routes-Selects}
use flash_connector.Worker.Interference.{Ends, process_job-Ends}

abbrev job : Job
job = record {
  id = "job_1";
  tenant_id = "t";
  endpoint_id = "e";
  endpoint_version_id = "v";
  billing_mode = "byok";
  reserved_cost_usd = 0;
  request_api_key_id = some "k";
  provider_batch_run_id = none;
  provider_batch_item_id = none;
  provider_batch_status = none;
  idempotency_key = none;
  subtenant_code = none;
  status = JobStatus.queued;
  request_json = [];
  request_hash = none;
  cache_hit = false;
  cached_from_job_id = none;
  result_text = none;
  error = none;
  usage_json = none;
  estimated_cost_usd = none;
  provider_response_id = none;
  provider_used = none;
  model_used = none;
  cancel_requested = false;
  created_at = 1;
  started_at = none;
  finished_at = none;
}

abbrev version : EndpointVersion
version = record {
  id = "v";
  endpoint_id = "e";
  version = 1;
  system_prompt = "Answer.";
  input_template = none;
  target_id = none;
  provider = "openai";
  model = "small";
  params_json = [];
  persona_id = none;
}

-- One provider never answers.
abbrev attempt : EndpointVersion → Job → Route → Result String Answer
attempt v j route =
    if route.0 == "openai"
    then err "timeout"
    else ok (record { text = "hi"; provider_id = some "p"; usage = [] })

abbrev services : Services
services = record {
  now = 7;
  version = λ j. ok (some version);
  render = λ v j. ok ("hash", j.request_json);
  cached = λ v j. ok none;
  blocked_input = λ v j. ok none;
  routes = λ v j. ok (("openai", "small") ∷ ("other", "large") ∷ []);
  attempt = attempt;
  blocked_output = λ v text. none;
  usage = λ v j attempted route answer. answer.usage;
  price = λ route usage. (some 3, none);
  caches = λ v. false;
  remember = λ j. ok tt;
  save = λ j. ok tt;
}

-- A request to cancel the job, while it runs.
abbrev canceler : Others
canceler = record { before_start = λ j. j; during = λ j. record j { cancel_requested = true } }

cancel_running :
    (record job { status = JobStatus.running; cancel_requested = true }, "x" ∷ [])
    ≡ cancel_job (λ i q. []) 5 (record job { status = JobStatus.running }) ("x" ∷ [])
unfolding cancel_job
cancel_running = refl

-- The run ends as completed, although its cancellation was asked for.
cancel_lost :
    ((process_job services canceler job).0.status ≡ JobStatus.completed)
    × ((process_job services canceler job).0.cancel_requested ≡ true)
unfolding process_job try_routes run_version run_uncached run_routes after_completion
cancel_lost = (refl, refl)

process_job-Ends_example : Ends false (process_job services canceler job)
process_job-Ends_example = process_job-Ends services canceler job refl (λ j. refl)

abbrev other_route : Route
other_route = ("other", "large")

abbrev routes : List Route
routes = ("openai", "small") ∷ other_route ∷ []

abbrev answer : Answer
answer = record { text = "hi"; provider_id = some "p"; usage = [] }

other_selected : (try_routes services version job routes).selected ≡ some (other_route, answer)
unfolding try_routes
other_selected = refl

try_routes-Selects_example :
    Selects services version job routes (try_routes services version job routes) other_route answer
try_routes-Selects_example =
    try_routes-Selects services version job routes other_route answer other_selected

abbrev routing : Routing
routing = record {
  ensure_slug = λ s. if (s == "openai") || (s == "other") then ok s else err "Unsupported provider";
  normalize_slug = λ s. s;
  to_int = λ j. elim j [ int n ↦ some n | _ ↦ none ];
  shuffle = λ xs. xs;
}

abbrev fallback_params : Json → Dict Json
fallback_params attempts =
    ("enable_fallbacks", str " Yes ")
    ∷ (
      "fallback_targets",
      arr (to_items (str "other/large" ∷ str "none/large" ∷ str "large" ∷ str "other/large" ∷ [])),
    )
    ∷ ("max_route_attempts", attempts)
    ∷ []

three_routes :
    candidate_routes routing version (fallback_params (int (pos 9)))
    ≡ ("openai", "small") ∷ ("other", "large") ∷ ("openai", "large") ∷ []
unfolding candidate_routes parse_fallback_targets parse_bool_param routes_of_items route_of_item
    split_slash dedupe parse_int_param parse_list_param strip lower
three_routes = refl

two_routes :
    candidate_routes routing version (fallback_params (int (pos 2)))
    ≡ ("openai", "small") ∷ ("other", "large") ∷ []
unfolding candidate_routes parse_fallback_targets parse_bool_param routes_of_items route_of_item
    split_slash dedupe parse_int_param parse_list_param strip lower
two_routes = refl

-- A text that ends in a slash names a route without a model.
no_model : route_of_item routing "openai" (str "other/") ≡ some ("other", "")
unfolding route_of_item split_slash strip
no_model = refl

candidate_routes-Candidates_example :
    Candidates routing version
      (fallback_params (int (pos 2)))
      (candidate_routes routing version (fallback_params (int (pos 2))))
candidate_routes-Candidates_example =
    candidate_routes-Candidates routing version (fallback_params (int (pos 2))) (λ p xs. refl)
