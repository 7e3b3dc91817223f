-- ===== src/Batches/Cancel.antt =====
-- `create_provider_batch_run` and `request_cancel_provider_batch_run`: what the API does to a run.
use flash_connector.Prelude.{
  ℕ, ◌+◌, String, Bool, true, false, ◌||◌, Option, none, some, List, [], ◌∷◌, ◌++◌, ◌==◌, length,
  if◌then◌else◌, is_empty, or_else, strip, lower, nonempty,
}
use flash_connector.Prelude.Dict
use flash_connector.Prelude.Dict.{Dict, insert}
use flash_connector.Json.{pos, Json, bool, int, str, object, optional_text}
use flash_connector.Jobs.{Job, Endpoint, EndpointVersion, JobCreateRequest, create_job}
use flash_connector.Tenants
use flash_connector.Batches.{
  Run, Session, BatchStatus, is_terminal, is_waiting, commit, mark_job_canceled, list_limit,
  for_listed, when_queued, refresh_provider_batch_counts,
}

abbrev pub is_failed : BatchStatus → Bool
is_failed BatchStatus.failed = true
is_failed _ = false

unfoldable pub request_cancel_provider_batch_run : ℕ → Session → Session
unfolding refresh_provider_batch_counts
request_cancel_provider_batch_run now s =
    if is_terminal s.run.status
    then s
    else if is_waiting s.run.status || is_failed s.run.status
    then (let run = record (s.run) {
      status = BatchStatus.canceled;
      cancel_requested = true;
      finished_at = some now;
    } in
        let jobs = for_listed list_limit run (when_queued (mark_job_canceled now)) s.jobs in
        commit (refresh_provider_batch_counts (record s { run = run; jobs = jobs })))
    else (let run = record (s.run) { status = BatchStatus.canceling; cancel_requested = true } in
        commit (refresh_provider_batch_counts (record s { run = run })))

-- api/app/schemas/provider_batches.py
pub record BatchItem : Type 0 where
  pub input : Option String
  pub messages : Option (List Json)
  pub metadata : Dict Json
  pub subtenant_code : Option String
  pub save_default : Bool

pub record BatchRequest : Type 0 where
  pub items : List BatchItem
  pub batch_name : Option String
  pub metadata : Dict Json
  pub subtenant_code : Option String
  pub save_default : Bool
  pub service_tier : Json
  pub completion_window : String

unfoldable pub normalize_service_tier : Json → Option String
normalize_service_tier (str s) =
    let cleaned = lower (strip s) in
    if cleaned == "auto" || cleaned == "default" || cleaned == "flex" || cleaned == "priority"
    then some cleaned
    else none
normalize_service_tier _ = none

-- What `_resolve_batch_runtime` finds: the provider, the model and the connection.
pub record Runtime : Type 0 where
  pub provider_slug : String
  pub model_used : String
  pub provider_config_id : Option String

-- `item.subtenant_code or payload.subtenant_code`
abbrev or_text : Option String → Option String → Option String
or_text none y = y
or_text (some s) y = if is_empty s then y else some s

-- The metadata that all items share, and that of one item at its place, counted from 1.
unfoldable pub shared_metadata : BatchRequest → Dict Json
unfolding normalize_service_tier
shared_metadata payload =
    Dict.merge payload.metadata
      (("service_tier", str (or_else (normalize_service_tier payload.service_tier) "auto")) ∷ [])

unfoldable pub item_metadata : BatchRequest → String → ℕ → BatchItem → Dict Json
unfolding shared_metadata
item_metadata payload run_id place item =
    let batch_name = strip (or_else payload.batch_name "") in
    let merged = Dict.merge (Dict.merge (shared_metadata payload) item.metadata) (
      ("provider_batch_run_id", str run_id)
      ∷ ("provider_batch_index", int (pos place))
      ∷ ("provider_batch_total", int (pos (length payload.items)))
      ∷ ("source", str "provider_batch")
      ∷ []) in
    if is_empty batch_name then merged else insert "provider_batch_name" (str batch_name) merged

-- The arguments that every job of a batch is created with: the tenants, the depth of their tree, the
-- clock, the generated ids, the tenant, and the endpoint with its active version.
pub record Origin : Type 0 where
  pub tenants : Tenants.Table
  pub depth : ℕ
  pub now : ℕ
  pub run_id : String
  pub job_id : ℕ → String
  pub tenant_id : String
  pub endpoint : Endpoint
  pub version : EndpointVersion
  pub request_api_key_id : Option String
  pub created_by_user_id : Option String

unfoldable pub create_item_job : Origin → BatchRequest → ℕ → BatchItem → Job
unfolding create_job item_metadata
create_item_job o payload place item =
    let request : JobCreateRequest = record {
      input = item.input;
      messages = item.messages;
      metadata = item_metadata payload o.run_id place item;
      subtenant_code = or_text item.subtenant_code payload.subtenant_code;
      save_default = item.save_default || payload.save_default;
    } in
    let job =
      create_job o.tenants o.depth (o.job_id place) o.now o.tenant_id o.endpoint o.version request
        (record {
          request_api_key_id = o.request_api_key_id;
          provider_batch_run_id = some o.run_id;
          provider_batch_status = some "queued";
          idempotency_key = none;
          reserved_cost_usd = 0;
        }) in
    record job { provider_batch_item_id = some job.id }

unfoldable pub create_items : Origin → BatchRequest → ℕ → List BatchItem → List Job
unfolding create_item_job
create_items o payload place [] = []
create_items o payload place (item ∷ items) =
    create_item_job o payload place item ∷ create_items o payload (place + 1) items

unfoldable pub new_run : Origin → BatchRequest → Runtime → Run
unfolding shared_metadata
new_run o payload runtime = record {
  id = o.run_id;
  tenant_id = o.tenant_id;
  endpoint_id = o.endpoint.id;
  endpoint_version_id = o.version.id;
  provider_slug = runtime.provider_slug;
  provider_config_id = runtime.provider_config_id;
  model_used = runtime.model_used;
  status = BatchStatus.queued;
  completion_window = payload.completion_window;
  request_json =
      ("batch_name", optional_text (nonempty (strip (or_else payload.batch_name ""))))
      ∷ ("metadata", object (shared_metadata payload))
      ∷ ("subtenant_code", optional_text payload.subtenant_code)
      ∷ ("save_default", bool payload.save_default)
      ∷ ("service_tier", str (or_else (normalize_service_tier payload.service_tier) "auto"))
      ∷ [];
  provider_batch_id = none;
  input_file_id = none;
  output_file_id = none;
  error_file_id = none;
  result_json = none;
  error = none;
  total_jobs = length payload.items;
  completed_jobs = 0;
  failed_jobs = 0;
  canceled_jobs = 0;
  cancel_requested = false;
  created_by_user_id = o.created_by_user_id;
  started_at = none;
  finished_at = none;
  last_polled_at = none;
  next_poll_at = none;
}

-- The session after the call, over the rows of jobs that there were: here the rows are committed
-- before they are counted.
unfoldable pub create_provider_batch_run : Origin → BatchRequest → Runtime → List Job → Session
unfolding new_run create_items refresh_provider_batch_counts
create_provider_batch_run o payload runtime stored =
    let run = new_run o payload runtime in
    let jobs = stored ++ create_items o payload 1 payload.items in
    let s : Session = record {
      stored_run = run;
      stored = jobs;
      run = run;
      jobs = jobs;
      polls = [];
      events = [];
    } in
    commit (refresh_provider_batch_counts s)
