-- ===== src/PublicApi/Tests.antt =====
-- Runs of api/app/routers/public.py.
use flash_connector.Prelude.{
  String, true, false, none, some, [], ◌∷◌, ◌≡◌, refl, arith, if◌then◌else◌, Result, ok, err, strip,
  nonempty,
}
use flash_connector.Jobs.{
  Job, JobStatus, Endpoint, EndpointVersion, JobCreateRequest, get_tenant_endpoint,
  get_active_version, create_job, get_idempotent_job_for_key,
}
use flash_connector.RateLimit.{enforce_limits}
use flash_connector.PublicApi.{
  Site, Store, ApiKeyContext, normalize_key, key_allows_endpoint, submit_job, new_job,
}
use flash_connector.PublicApi.Queueing.{Queues, request_scope, submit_job-Queues}
use flash_connector.PublicApi.Idempotency.{submit_job-retry}
use flash_connector.Batches.{Run, Session, BatchStatus, is_terminal}
use flash_connector.PublicApi.BatchRequests.{queue_batch_poll_if_due, open_session}
use flash_connector.PublicApi.Polls.{queue_batch_poll_if_due-once}

abbrev ctx : ApiKeyContext
ctx = record {
  api_key_id = "k";
  tenant_id = "t";
  all = true;
  endpoint_ids = [];
  rate_limit_per_min = 10;
  monthly_quota = 100;
}

abbrev endpoint : Endpoint
endpoint = record { id = "e"; tenant_id = "t"; active_version_id = some "v" }

abbrev version : EndpointVersion
version = record {
  id = "v";
  endpoint_id = "e";
  version = 1;
  system_prompt = "Answer.";
  input_template = none;
  target_id = none;
  provider = "openai";
  model = "small";
  params_json = [];
  persona_id = none;
}

abbrev site : String → Result String Unit → Site
site new_id enqueue = record {
  tenants = [];
  depth = 5;
  endpoints = endpoint ∷ [];
  versions = version ∷ [];
  redis_answers = true;
  environment = "production";
  allow_fallback = false;
  clock = record {
    now = record {
      year = 2024;
      month = 2;
      day = 28;
      hour = 12;
      minute = 0;
      second = 0;
      microsecond = 0;
    };
    minute_bucket = "202402281200";
    month_bucket = "202402";
  };
  now = 5;
  new_id = new_id;
  enqueue = enqueue;
  meanwhile = λ jobs. jobs;
  process = λ id jobs. (jobs, none);
}

abbrev request : JobCreateRequest
request = record {
  input = some "hello";
  messages = none;
  metadata = [];
  subtenant_code = none;
  save_default = false;
}

abbrev empty_store : Store
empty_store = record {
  jobs = [];
  queue = [];
  limiter = record {
    redis_rates = [];
    redis_quotas = [];
    fallback_rates = [];
    fallback_quotas = [];
  };
}

abbrev first_job : Job
first_job = new_job (site "job_1" (ok tt)) ctx endpoint version request (some "once")

submit_job-retry_example :
    let s' = (submit_job (site "job_1" (ok tt)) ctx "e" request (some " once ") empty_store).1 in
    let (r', s'') = submit_job (site "job_2" (ok tt)) ctx "e" request (some " once ") s' in
    (r' ≡ ok first_job) × (s''.jobs ≡ s'.jobs) × (s''.queue ≡ s'.queue)
unfolding submit_job normalize_key nonempty strip key_allows_endpoint enforce_limits
    get_tenant_endpoint get_active_version get_idempotent_job_for_key create_job
submit_job-retry_example =
    submit_job-retry (site "job_1" (ok tt)) (site "job_2" (ok tt)) ctx "e" "once" (some " once ")
      request request empty_store endpoint version version first_job refl refl refl refl

-- The row stays where the queue refuses the job, and the same key finds it queued, with nothing in the
-- queue.
retry_unqueued :
    let s' =
      (submit_job (site "job_1" (err "redis down")) ctx "e" request (some "once") empty_store).1 in
    let (r', s'') = submit_job (site "job_2" (ok tt)) ctx "e" request (some "once") s' in
    (r' ≡ ok first_job) × (first_job.status ≡ JobStatus.queued) × (s''.queue ≡ [])
unfolding submit_job normalize_key nonempty strip key_allows_endpoint enforce_limits
    get_tenant_endpoint get_active_version get_idempotent_job_for_key create_job
retry_unqueued = (refl, refl, refl)

submit_job-Queues_example :
    Queues
      (request_scope ctx "e" "once")
      empty_store
      (submit_job (site "job_1" (ok tt)) ctx "e" request (some " once ") empty_store).1
unfolding normalize_key nonempty strip
submit_job-Queues_example =
    submit_job-Queues (site "job_1" (ok tt)) ctx "e" "once" (some " once ") request empty_store refl

abbrev run : Run
run = record {
  id = "b";
  tenant_id = "t";
  endpoint_id = "e";
  endpoint_version_id = "v";
  provider_slug = "openai";
  provider_config_id = none;
  model_used = "small";
  status = BatchStatus.processing;
  completion_window = "24h";
  request_json = [];
  provider_batch_id = some "batch_1";
  input_file_id = none;
  output_file_id = none;
  error_file_id = none;
  result_json = none;
  error = none;
  total_jobs = 1;
  completed_jobs = 0;
  failed_jobs = 0;
  canceled_jobs = 0;
  cancel_requested = false;
  created_by_user_id = none;
  started_at = some 1;
  finished_at = none;
  last_polled_at = some 2;
  next_poll_at = some 30;
}

-- The poll of attempt 7 is still in the queue when the read adds one of attempt 0.
abbrev due : Session
due = open_session run [] (("b", 7) ∷ [])

queue_batch_poll_if_due-once_example :
    let s' = (queue_batch_poll_if_due (ok tt) 30 40 due).0 in
    ((queue_batch_poll_if_due (ok tt) 30 45 s').0 ≡ s')
    × (s'.polls
        ≡ (if is_terminal BatchStatus.processing then ("b", 7) ∷ [] else ("b", 0) ∷ ("b", 7) ∷ []))
unfolding queue_batch_poll_if_due
queue_batch_poll_if_due-once_example =
    queue_batch_poll_if_due-once (ok tt) (ok tt) 30 40 45 due refl (omega arith) refl
