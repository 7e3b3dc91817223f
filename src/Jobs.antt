-- ===== src/Jobs.antt =====
-- api/app/services/jobs.py and the `Job` rows of api/app/models/entities.py. The table of jobs is a
-- list of rows in the order of their creation. Times are seconds, floats are the bit patterns of
-- doubles.
use flash_connector.Prelude.{
  ℕ, String, Bool, true, false, ◌&&◌, Option, none, some, List, [], ◌∷◌, ◌==◌, ltb, leb,
  if◌then◌else◌, find, is_some, is_empty, or_else, strip, nonempty,
}
use flash_connector.Prelude.Dict
use flash_connector.Prelude.Dict.{Dict, lookup, contains, insert}
use flash_connector.Json.{Json, null, bool, str, arr, object, to_items, as_text, optional_text}
use flash_connector.Tenants.{resolve_effective_query_params}
use flash_connector.Tenants

pub data JobStatus : Type 0 where
  queued running completed failed canceled : JobStatus

pub record Job : Type 0 where
  pub id : String
  pub tenant_id : String
  pub endpoint_id : String
  pub endpoint_version_id : String
  pub billing_mode : String
  pub reserved_cost_usd : ℕ
  pub request_api_key_id : Option String
  pub provider_batch_run_id : Option String
  pub provider_batch_item_id : Option String
  pub provider_batch_status : Option String
  pub idempotency_key : Option String
  pub subtenant_code : Option String
  pub status : JobStatus
  pub request_json : Dict Json
  pub request_hash : Option String
  pub cache_hit : Bool
  pub cached_from_job_id : Option String
  pub result_text : Option String
  pub error : Option String
  pub usage_json : Option (Dict Json)
  pub estimated_cost_usd : Option ℕ
  pub provider_response_id : Option String
  pub provider_used : Option String
  pub model_used : Option String
  pub cancel_requested : Bool
  pub created_at : ℕ
  pub started_at : Option ℕ
  pub finished_at : Option ℕ

abbrev pub is_queued : JobStatus → Bool
is_queued queued = true
is_queued _ = false

abbrev pub is_running : JobStatus → Bool
is_running running = true
is_running _ = false

-- `{JobStatus.completed, JobStatus.failed, JobStatus.canceled}`
abbrev pub is_settled : JobStatus → Bool
is_settled completed = true
is_settled failed = true
is_settled canceled = true
is_settled _ = false

pub record Endpoint : Type 0 where
  pub id : String
  pub tenant_id : String
  pub active_version_id : Option String

pub record EndpointVersion : Type 0 where
  pub id : String
  pub endpoint_id : String
  pub version : ℕ
  pub system_prompt : String
  pub input_template : Option String
  pub target_id : Option String
  pub provider : String
  pub model : String
  pub params_json : Dict Json
  pub persona_id : Option String

-- api/app/schemas/jobs.py
pub record JobCreateRequest : Type 0 where
  pub input : Option String
  pub messages : Option (List Json)
  pub metadata : Dict Json
  pub subtenant_code : Option String
  pub save_default : Bool

-- The keyword arguments of `create_job` that its callers set.
pub record JobOrigin : Type 0 where
  pub request_api_key_id : Option String
  pub provider_batch_run_id : Option String
  pub provider_batch_status : Option String
  pub idempotency_key : Option String
  pub reserved_cost_usd : ℕ

-- `max(x, 0.0)`: the patterns between those of -0.0 and of minus infinity are the negative numbers.
unfoldable pub nonnegative_float : ℕ → ℕ
nonnegative_float x = if ltb 0x8000000000000000 x && leb x 0xfff0000000000000 then 0 else x

-- `None if isinstance(…)`: the code of the payload, or else the one in its metadata.
unfoldable pub requested_subtenant : JobCreateRequest → Option String
requested_subtenant r =
    let own = nonempty (strip (or_else r.subtenant_code "")) in
    let given : Option String = elim (lookup "subtenant_code" r.metadata) [
      | none ↦ none
      | some j ↦ elim (as_text j) [ none ↦ none | some s ↦ nonempty (strip s) ]
    ] in
    if is_some own then own else given

unfoldable pub merged_metadata : Dict Json → JobCreateRequest → Option String → Dict Json
merged_metadata effective r none = Dict.merge effective r.metadata
merged_metadata effective r (some code) =
    let merged = Dict.merge effective r.metadata in
    if contains "subtenant_code" merged then merged else insert "subtenant_code" (str code) merged

abbrev pub messages_json : Option (List Json) → Json
messages_json none = null
messages_json (some ms) = arr (to_items ms)

-- The new row; the generated id, the clock and the table of tenants are arguments.
unfoldable pub create_job :
    Tenants.Table
    → ℕ
    → String
    → ℕ
    → String
    → Endpoint
    → EndpointVersion
    → JobCreateRequest
    → JobOrigin
    → Job
unfolding requested_subtenant merged_metadata nonnegative_float
create_job tenants setting new_id now tenant_id endpoint version r origin =
    let effective = resolve_effective_query_params tenants setting tenant_id in
    let code = requested_subtenant r in
    record {
      id = new_id;
      tenant_id = tenant_id;
      endpoint_id = endpoint.id;
      endpoint_version_id = version.id;
      billing_mode = "byok";
      reserved_cost_usd = nonnegative_float origin.reserved_cost_usd;
      request_api_key_id = origin.request_api_key_id;
      provider_batch_run_id = origin.provider_batch_run_id;
      provider_batch_item_id = none;
      provider_batch_status = origin.provider_batch_status;
      idempotency_key = origin.idempotency_key;
      subtenant_code = code;
      status = queued;
      request_json =
          ("input", optional_text r.input)
          ∷ ("messages", messages_json r.messages)
          ∷ ("metadata", object (merged_metadata effective r code))
          ∷ ("effective_query_params", object effective)
          ∷ ("subtenant_code", optional_text code)
          ∷ ("idempotency_key", optional_text origin.idempotency_key)
          ∷ ("save_default", bool r.save_default)
          ∷ [];
      request_hash = none;
      cache_hit = false;
      cached_from_job_id = none;
      result_text = none;
      error = none;
      usage_json = none;
      estimated_cost_usd = none;
      provider_response_id = none;
      provider_used = none;
      model_used = none;
      cancel_requested = false;
      created_at = now;
      started_at = none;
      finished_at = none;
    }

unfoldable pub get_tenant_endpoint : List Endpoint → String → String → Option Endpoint
get_tenant_endpoint db tenant_id endpoint_id =
    find (λ e. (e.id == endpoint_id) && (e.tenant_id == tenant_id)) db

unfoldable pub get_active_version : List EndpointVersion → Endpoint → Option EndpointVersion
get_active_version db endpoint = elim endpoint.active_version_id [
  | none ↦ none
  | some version_id ↦
      if is_empty version_id
      then none
      else find (λ v. (v.id == version_id) && (v.endpoint_id == endpoint.id)) db
]

unfoldable pub get_job_for_tenant : List Job → String → String → Option Job
get_job_for_tenant db tenant_id job_id =
    find (λ j. (j.id == job_id) && (j.tenant_id == tenant_id)) db

-- A column that may be NULL equals no text then.
abbrev pub holds : Option String → String → Bool
holds none s = false
holds (some t) s = t == s

-- The columns of the unique constraint `uq_jobs_idempotency_scope`.
pub record Scope : Type 0 where
  pub tenant_id : String
  pub endpoint_id : String
  pub api_key_id : String
  pub key : String

abbrev pub in_scope : Scope → Job → Bool
in_scope c j =
    (j.tenant_id == c.tenant_id)
    && (j.endpoint_id == c.endpoint_id)
    && holds j.request_api_key_id c.api_key_id
    && holds j.idempotency_key c.key

unfoldable pub get_idempotent_job_for_key : List Job → Scope → Option Job
get_idempotent_job_for_key db scope = find (in_scope scope) db

-- The queue of the worker holds the ids of the jobs to run. Whether the queue gives a job up is the
-- queue's to say, so taking it out is an argument.
unfoldable pub cancel_job :
    (String → List String → List String) → ℕ → Job → List String → Job × List String
cancel_job cancel_enqueued_job now job queue = elim job.status [
  | queued ↦
      (record job { status = canceled; finished_at = some now }, cancel_enqueued_job job.id queue)
  | running ↦ (record job { cancel_requested = true }, queue)
  | _ ↦ (job, queue)
]
