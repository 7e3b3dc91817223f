-- ===== src/PublicApi/Responses.antt =====
-- api/app/routers/public.py: `submit_response`, which runs a job in the request, and the requests that
-- read or cancel a job.
use flash_connector.Prelude.{
  ℕ, String, ◌||◌, Option, none, some, List, map, ◌==◌, if◌then◌else◌, text_append, Result, ok, err,
}
use flash_connector.Jobs.{
  Job, JobStatus, Endpoint, EndpointVersion, JobCreateRequest, is_queued, is_running,
  get_job_for_tenant, cancel_job,
}
use flash_connector.PublicApi.{
  Site, Store, ApiKeyContext, Refused, refuse, admit, normalize_key, existing_job, insert_or_find,
  key_allows_endpoint,
}

-- The job as the handler reads it again after the run.
abbrev pub latest : ApiKeyContext → String → Store → Result Refused Job × Store
latest ctx job_id s = elim (get_job_for_tenant s.jobs ctx.tenant_id job_id) [
  | none ↦ (err (refuse 500 "Job not found after execution"), s)
  | some job ↦ (ok job, s)
]

abbrev failure : String → String
failure exc = text_append "Inline execution failed: " exc

-- The row of the job that is not settled when its run raised.
abbrev pub fail_unsettled : ℕ → String → Job → Job
fail_unsettled now exc job =
    if is_queued job.status || is_running job.status
    then record job {
      status = JobStatus.failed;
      error = some (failure exc);
      finished_at = some now;
    }
    else job

-- The write is on the row that `get_job_for_tenant` finds, the only one with that id.
unfoldable pub fail_job : ℕ → String → String → String → List Job → List Job
fail_job now exc tenant_id job_id jobs =
    map
      (λ j.
        if j.id == job_id
        then (if j.tenant_id == tenant_id then fail_unsettled now exc j else j)
        else j)
      jobs

-- A queued job that the key names is run; its row is left as the run leaves it.
unfoldable pub run_existing : Site → ApiKeyContext → Job → Store → Result Refused Job × Store
run_existing site ctx job s =
    let (rows, raised) = site.process job.id s.jobs in
    let s' = record s { jobs = rows } in
    elim raised [ some exc ↦ (err (refuse 500 (failure exc)), s') | none ↦ latest ctx job.id s' ]

unfoldable pub answer_existing : Site → ApiKeyContext → Job → Store → Result Refused Job × Store
unfolding run_existing
answer_existing site ctx job s =
    if is_queued job.status then run_existing site ctx job s else (ok job, s)

-- The run of the job that was inserted, or that was found after a conflict, whatever its status.
unfoldable pub run_inserted : Site → ApiKeyContext → Job → Store → Result Refused Job × Store
unfolding fail_job
run_inserted site ctx job s =
    let (rows, raised) = site.process job.id s.jobs in
    elim raised [
      | some exc ↦ (
        err (refuse 500 (failure exc)),
        record s { jobs = fail_job site.now exc ctx.tenant_id job.id rows },
      )
      | none ↦ latest ctx job.id (record s { jobs = rows })
    ]

unfoldable pub respond_new :
    Site
    → ApiKeyContext
    → Endpoint
    → EndpointVersion
    → JobCreateRequest
    → Option String
    → Store
    → Result Refused Job × Store
unfolding insert_or_find run_inserted
respond_new site ctx endpoint version payload k s =
    let (outcome, rows) = insert_or_find site ctx endpoint version payload k s.jobs in
    let s' = record s { jobs = rows } in
    elim outcome [ err e ↦ (err e, s') | ok (_, job) ↦ run_inserted site ctx job s' ]

unfoldable pub respond_checked :
    Site
    → ApiKeyContext
    → Endpoint
    → EndpointVersion
    → JobCreateRequest
    → Option String
    → Store
    → Result Refused Job × Store
unfolding normalize_key respond_new answer_existing
respond_checked site ctx endpoint version payload key s = elim (normalize_key key) [
  | err e ↦ (err e, s)
  | ok k ↦ elim (existing_job ctx endpoint k s.jobs) [
    | some job ↦ answer_existing site ctx job s
    | none ↦ respond_new site ctx endpoint version payload k s
  ]
]

unfoldable pub submit_response :
    Site
    → ApiKeyContext
    → String
    → JobCreateRequest
    → Option String
    → Store
    → Result Refused Job × Store
unfolding admit respond_checked
submit_response site ctx endpoint_id payload key s =
    let (checked, limiter) = admit site ctx endpoint_id s.limiter in
    let s' = record s { limiter = limiter } in
    elim checked [
      | err e ↦ (err e, s')
      | ok (endpoint, version) ↦ respond_checked site ctx endpoint version payload key s'
    ]

-- The checks of the requests on one job.
unfoldable pub get_job : ApiKeyContext → String → List Job → Result Refused Job
unfolding key_allows_endpoint
get_job ctx job_id jobs = elim (get_job_for_tenant jobs ctx.tenant_id job_id) [
  | none ↦ err (refuse 404 "Job not found")
  | some job ↦
      if key_allows_endpoint ctx job.endpoint_id
      then ok job
      else err (refuse 403 "API key scope does not allow this job")
]

abbrev pub replace_job : Job → List Job → List Job
replace_job job jobs = map (λ j. if j.id == job.id then job else j) jobs

unfoldable pub cancel_public_job :
    (String → List String → List String)
    → ℕ
    → ApiKeyContext
    → String
    → Store
    → Result Refused Job × Store
unfolding get_job
cancel_public_job cancel_enqueued_job now ctx job_id s = elim (get_job ctx job_id s.jobs) [
  | err e ↦ (err e, s)
  | ok job ↦
      let (job', queue) = cancel_job cancel_enqueued_job now job s.queue in
      (ok job', record s { jobs = replace_job job' s.jobs; queue = queue })
]
