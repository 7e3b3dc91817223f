-- ===== src/Sdk/Tests.antt =====
-- Runs of sdk/client.py.
use flash_connector.Prelude.{
  ℕ, ◌+◌, ◌≤◌, String, true, false, Option, none, some, [], ◌∷◌, ◌≡◌, refl, arith, if◌then◌else◌,
  Result, ok, err, nat_eq, strip, nonempty,
}
use flash_connector.Prelude.Dict.{Dict}
use flash_connector.Json.{Json, str, object}
use flash_connector.Jobs.{Job, Endpoint, EndpointVersion, JobCreateRequest}
use flash_connector.PublicApi.{Site, ApiKeyContext, Refused, normalize_key}
use flash_connector.Sdk.{
  Client, Method, get, decide, send_request, allowed_retries, build_headers, url, can_retry_request,
}
use flash_connector.Sdk.Errors.{
  Python, Reply, Response, SdkError, job_wait_timeout, replied, broken,
}
use flash_connector.Sdk.Requests.{Submission, submit_job, key_headers, get_job_request}
use flash_connector.Sdk.Waiting.{Detail, Awaited, wait_for}
use flash_connector.Sdk.Ending.{Waited, wait_for-Ended}
use flash_connector.Sdk.Retries.{Attempts, send_request-Attempts, submit_job-once}
use flash_connector.Sdk.Delivery.{Network, deliver, OneMore, submit_job-OneMore}

abbrev python : Python
python = record {
  show = λ j. "value";
  show_number = λ n. "number";
  dict = λ j. ok (("job_id", str "job_1") ∷ ("status", str "queued") ∷ []);
}

abbrev client : Client
client = record {
  base_url = "https://api";
  api_key = "secret";
  user_agent = "sdk";
  max_request_retries = 2;
  retry_on_status_codes = 429 ∷ 503 ∷ [];
}

abbrev queued : Response
queued = record { status_code = 202; json = some (object []); text = "" }

abbrev busy : Response
busy = record { status_code = 503; json = none; text = "busy" }

-- The first call is lost, the second finds the server busy, the third is answered.
abbrev send : Method → String → Dict String → Option (Dict Json) → ℕ → ℕ × Reply
send method path headers body n = (
  n + 1,
  if nat_eq n 0 then broken "reset" else if nat_eq n 1 then replied busy else replied queued,
)

abbrev pause : ℕ → ℕ → ℕ
pause t n = n

send_request-Attempts_example :
    (w' : ℕ) × (k : ℕ) × (reply : Reply) × Attempts pause
      (send get (url client "/v1/jobs/job_1") (build_headers client none) none)
      client
      (allowed_retries client (get_job_request "job_1"))
      1
      0
      w'
      k
      reply
    × (k ≤ 1 + allowed_retries client (get_job_request "job_1"))
    × (send_request pause send python client (get_job_request "job_1") 0
        ≡ (w', decide python k (get_job_request "job_1") reply))
send_request-Attempts_example =
    send_request-Attempts pause send python client (get_job_request "job_1") 0

third_answers : (send_request pause send python client (get_job_request "job_1") 0).0 ≡ 3
unfolding send_request can_retry_request
third_answers = refl

abbrev submission : Option String → Submission
submission key = record {
  input_text = some "hello";
  messages = none;
  metadata = none;
  subtenant_code = none;
  idempotency_key = key;
  save_default = false;
}

submit_job-once_example : (submit_job pause send python client "e" (submission (some "  ")) 0).0 ≡ 1
unfolding submit_job key_headers strip build_headers can_retry_request
submit_job-once_example =
    submit_job-once pause send python client "e" (submission (some "  ")) 0 refl refl

-- The clock counts the sleeps; the job stays queued.
abbrev fetch : ℕ → ℕ × Result SdkError Detail
fetch n = (n, ok (record { id = "job_1"; status = "running" }))

abbrev sleep : ℕ → ℕ
sleep n = n + 2

abbrev awaited : Awaited
awaited = record { kind = job_wait_timeout; noun = "job"; id_key = "job_id" }

wait_for-Ended_example :
    (k : ℕ) × (last : ℕ) × (r : Result SdkError Detail) × (k ≤ 4)
    × (wait_for (λ n. n) sleep fetch awaited "job_1" 4 (some 5) 0 ≡ (last, some r))
    × Waited (λ n. n) sleep fetch awaited "job_1" 5 0 k 0 last r
wait_for-Ended_example =
    wait_for-Ended (λ n. n) sleep fetch awaited "job_1" 2 5 3 0 (λ x. omega arith)
      (λ x. omega arith) (omega arith)

abbrev ctx : ApiKeyContext
ctx = record {
  api_key_id = "k";
  tenant_id = "t";
  all = true;
  endpoint_ids = [];
  rate_limit_per_min = 10;
  monthly_quota = 100;
}

abbrev endpoint : Endpoint
endpoint = record { id = "e"; tenant_id = "t"; active_version_id = some "v" }

abbrev version : EndpointVersion
version = record {
  id = "v";
  endpoint_id = "e";
  version = 1;
  system_prompt = "Answer.";
  input_template = none;
  target_id = none;
  provider = "openai";
  model = "small";
  params_json = [];
  persona_id = none;
}

abbrev site : String → Site
site new_id = record {
  tenants = [];
  depth = 5;
  endpoints = endpoint ∷ [];
  versions = version ∷ [];
  redis_answers = true;
  environment = "production";
  allow_fallback = false;
  clock = record {
    now = record {
      year = 2024;
      month = 2;
      day = 28;
      hour = 12;
      minute = 0;
      second = 0;
      microsecond = 0;
    };
    minute_bucket = "202402281200";
    month_bucket = "202402";
  };
  now = 5;
  new_id = new_id;
  enqueue = ok tt;
  meanwhile = λ jobs. jobs;
  process = λ id jobs. (jobs, none);
}

-- The first request arrives, but its answer is lost; so the client sends another one.
abbrev network : Network
network = record {
  store = record {
    jobs = [];
    queue = [];
    limiter = record {
      redis_rates = [];
      redis_quotas = [];
      fallback_rates = [];
      fallback_quotas = [];
    };
  };
  legs =
      record { site = site "job_1"; reaches = true; answers = false }
      ∷ record { site = site "job_2"; reaches = true; answers = true }
      ∷ [];
}

abbrev read : Option (Dict Json) → JobCreateRequest
read body = record {
  input = some "hello";
  messages = none;
  metadata = [];
  subtenant_code = none;
  save_default = false;
}

abbrev render : Result Refused Job → Response
render (ok job) = queued
render (err e) = busy

submit_job-OneMore_example :
    OneMore ctx "e" "once" []
      (submit_job
        (λ t m. m)
        (deliver ctx "e" read render)
        python
        client
        "e"
        (submission (some " once "))
        network).0.store
unfolding key_headers strip normalize_key nonempty
submit_job-OneMore_example =
    submit_job-OneMore ctx "e" "once" "once" read render python client (submission (some " once "))
      network refl refl
