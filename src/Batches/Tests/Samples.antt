-- ===== src/Batches/Tests/Samples.antt =====
-- A batch of two jobs, and a provider, for runs of api/app/services/provider_batches.py.
use flash_connector.Prelude.{String, false, none, some, List, [], ◌∷◌, refl, arith, Result, ok}
use flash_connector.Prelude.Dict.{Dict}
use flash_connector.Json.{Json, str, pos}
use flash_connector.Jobs.{Job, JobStatus, EndpointVersion}
use flash_connector.Batches.{Run, Session, BatchStatus}
use flash_connector.Batches.Submit.{Gateway}
use flash_connector.Batches.Output.{Reader}
use flash_connector.Batches.Poll.{Provider}
use flash_connector.Batches.Settled.{IsFresh}
use flash_connector.Batches.Outcomes.{Reaches}
use flash_connector.Batches.Request.{Preparer}

abbrev pub queued_job : Job
queued_job = record {
  id = "job_1";
  tenant_id = "t";
  endpoint_id = "e";
  endpoint_version_id = "v";
  billing_mode = "byok";
  reserved_cost_usd = 0;
  request_api_key_id = some "k";
  provider_batch_run_id = some "b";
  provider_batch_item_id = some "job_1";
  provider_batch_status = some "queued";
  idempotency_key = none;
  subtenant_code = none;
  status = JobStatus.queued;
  request_json = [];
  request_hash = none;
  cache_hit = false;
  cached_from_job_id = none;
  result_text = none;
  error = none;
  usage_json = none;
  estimated_cost_usd = none;
  provider_response_id = none;
  provider_used = none;
  model_used = none;
  cancel_requested = false;
  created_at = 1;
  started_at = none;
  finished_at = none;
}

abbrev pub done_job : Job
done_job = record queued_job {
  id = "job_2";
  provider_batch_item_id = some "job_2";
  status = JobStatus.completed;
  result_text = some "hi";
  finished_at = some 2;
}

abbrev pub job_rows : List Job
job_rows = queued_job ∷ done_job ∷ []

abbrev pub queued_run : Run
queued_run = record {
  id = "b";
  tenant_id = "t";
  endpoint_id = "e";
  endpoint_version_id = "v";
  provider_slug = "openai";
  provider_config_id = none;
  model_used = "small";
  status = BatchStatus.queued;
  completion_window = "24h";
  request_json = [];
  provider_batch_id = none;
  input_file_id = none;
  output_file_id = none;
  error_file_id = none;
  result_json = none;
  error = none;
  total_jobs = 2;
  completed_jobs = 1;
  failed_jobs = 0;
  canceled_jobs = 0;
  cancel_requested = false;
  created_by_user_id = none;
  started_at = none;
  finished_at = none;
  last_polled_at = none;
  next_poll_at = none;
}

abbrev pub sent_run : Run
sent_run = record queued_run { status = BatchStatus.processing; provider_batch_id = some "batch_1" }

abbrev pub opened : Run → Session
opened run = record {
  stored_run = run;
  stored = job_rows;
  run = run;
  jobs = job_rows;
  polls = [];
  events = [];
}

pub opened-IsFresh : (run : Run) → IsFresh (opened run)
opened-IsFresh run = record { run_loaded = refl; jobs_loaded = refl }

abbrev pub version : EndpointVersion
version = record {
  id = "v";
  endpoint_id = "e";
  version = 1;
  system_prompt = "Answer.";
  input_template = none;
  target_id = none;
  provider = "openai";
  model = "small";
  params_json = [];
  persona_id = none;
}

abbrev pub reader : Reader
reader = record {
  now = 9;
  to_int = λ j. ok (pos 200);
  parse_line = λ line. none;
  dumps = λ j. "";
  output_text = λ d. "hi";
  failure_text = λ code d. "failed";
  usage = λ d. [];
  blocked_phrase = λ text v. none;
  price = λ run d. (none, none);
  opts_in = λ j. false;
}

abbrev pub payload : String → Dict Json
payload status = ("status", str status) ∷ []

abbrev pub provider : String → List EndpointVersion → Provider
provider status versions = record {
  poll_interval = 30;
  max_poll_attempts = 3;
  versions = versions;
  connect = λ run. ok tt;
  retrieve = λ id canceled. ok (payload status);
  output = λ file. ([], none);
  enqueue = ok tt;
  reader = reader;
}

abbrev pub preparer : Preparer
preparer = record {
  personas = [];
  context_blocks = λ tenant_id version_id. [];
  tenant_variables = λ tenant_id. [];
  events = [];
  lower_case = λ s. s;
  show = λ j. "";
  show_number = λ n. "1";
  dumps = λ j. "{}";
  to_int = λ j. none;
  render_template_text = λ template variables. template;
  request_hash = λ version_id input messages metadata. "hash";
  sanitize_params = λ model params. (params, []);
  advisor = λ run tenant_id prompt input params metadata. ok [];
}

abbrev pub gateway : Result String Unit → Gateway
gateway enqueue = record {
  now = 9;
  poll_interval = 30;
  versions = version ∷ [];
  connect = λ run. ok tt;
  preparer = preparer;
  upload = λ run lines. ok "file_1";
  create = λ run file. ok ("batch_1", payload "validating");
  enqueue = enqueue;
}

pub sent-Reaches :
    (status : String) (versions : List EndpointVersion)
    → Reaches (provider status versions) 1 (opened sent_run) "batch_1" (payload status)
sent-Reaches status versions = record {
  live = refl;
  has_batch = refl;
  in_time = omega arith;
  connected = refl;
  answered = refl;
}
