-- ===== src/Worker.antt =====
-- api/app/tasks.py: one run of a job in the worker. The worker's session loads the job, and does not
-- load it again between its first and its last commit (`expire_on_commit=False`), while other sessions
-- may write to the row; a commit writes the columns that the worker changed.
pub mod Routes
pub mod Candidates
pub mod Fallbacks
pub mod Limits
pub mod Outcomes
pub mod Interference
mod Tests
use flash_connector.Prelude.{
  ℕ, String, Bool, true, false, ◌&&◌, not, Option, none, some, List, [], ◌∷◌, ltb, if◌then◌else◌,
  is_empty, is_some, or_else, text_append, Result, ok, err,
}
use flash_connector.Prelude.Dict
use flash_connector.Prelude.Dict.{Dict, insert}
use flash_connector.Json.{Json, bool, str, obj, object, float, fields}
use flash_connector.Jobs.{Job, JobStatus, EndpointVersion}
use flash_connector.Worker.Routes.{
  Route, Answer, Services, Others, write_back, mark_job_failed, is_canceled, is_completed,
  final_status, Chosen, route_error, add_failure, stop_at, try_routes, join_errors, complete_job,
  Outcome, after_completion, run_routes, priced,
}

-- `{**usage, "cache_hit": True, …}`, with the cost of the pricing set to zero.
unfoldable pub cached_usage : Job → Dict Json
cached_usage source =
    let usage =
      Dict.merge (or_else source.usage_json [])
        (("cache_hit", bool true) ∷ ("cache_reused_from_job_id", str source.id) ∷ []) in
    elim (Dict.lookup "pricing" usage) [
      | some (obj f) ↦
          insert "pricing"
            (object (
              Dict.merge (fields f)
                (("estimated_cost_usd", float 0) ∷ ("cache_hit", bool true) ∷ [])))
            usage
      | _ ↦ usage
    ]

unfoldable pub reuse_job : Services → Job → Job → Job
unfolding cached_usage
reuse_job sv job source = record job {
  result_text = source.result_text;
  provider_response_id = source.provider_response_id;
  usage_json = some (cached_usage source);
  provider_used = source.provider_used;
  model_used = source.model_used;
  estimated_cost_usd = some 0;
  error = none;
  cache_hit = true;
  cached_from_job_id = some source.id;
  status = final_status job;
  finished_at = some sv.now;
}

-- A job from the cache serves if it is completed and has a text.
abbrev pub serves : Job → Bool
serves source = is_completed source.status && is_some source.result_text

-- The part after the cache.
unfoldable pub run_uncached : Services → (Job → Job) → EndpointVersion → Job → Outcome
unfolding run_routes
run_uncached sv during version job = elim (sv.blocked_input version job) [
  | err exc ↦ (during job, some exc)
  | ok (some phrase) ↦ (
    write_back (mark_job_failed sv.now (text_append "Input blocked by phrase: " phrase) job)
        (during job),
    none,
  )
  | ok none ↦ (run_routes sv during version job, none)
]

-- After a hit of the cache an exception of the training event leaves the function.
unfoldable pub save_completed : Services → Job → Outcome
save_completed sv row =
    if is_completed row.status
    then elim (sv.save row) [ err exc ↦ (row, some exc) | ok _ ↦ (row, none) ]
    else (row, none)

unfoldable pub run_cached : Services → (Job → Job) → Job → Job → Outcome
unfolding reuse_job save_completed
run_cached sv during job source =
    save_completed sv (write_back (reuse_job sv job source) (during job))

unfoldable pub run_version : Services → (Job → Job) → EndpointVersion → Job → Outcome
unfolding run_cached run_uncached
run_version sv during version job = elim (sv.render version job) [
  | err exc ↦ (during job, some exc)
  | ok (hash, request) ↦
      let job' = record job { request_hash = some hash; request_json = request } in
      elim (if sv.caches version then sv.cached version job' else ok none) [
        | err exc ↦ (during job', some exc)
        | ok none ↦ run_uncached sv during version job'
        | ok (some source) ↦
            if serves source
            then run_cached sv during job' source
            else run_uncached sv during version job'
      ]
]

-- The first commit and `db.refresh(job)`: the copy is the row as it is then. (A job that
-- is loaded as running keeps the status of the row; jobs are enqueued as queued.)
abbrev pub start_job : ℕ → Others → Job → Job
start_job now o job = record (o.before_start job) {
  status = JobStatus.running;
  started_at = some now;
}

-- `process_job` of a job that is in the table, as the worker loads it.
unfoldable pub process_job : Services → Others → Job → Outcome
unfolding run_version
process_job sv o job =
    if is_canceled job.status
    then (o.before_start job, none)
    else let started = start_job sv.now o job in
      elim (sv.version started) [
        | err exc ↦ (o.during started, some exc)
        | ok none ↦ (
          write_back (mark_job_failed sv.now "Endpoint version not found" started)
              (o.during started),
          none,
        )
        | ok (some version) ↦ run_version sv o.during version started
      ]
