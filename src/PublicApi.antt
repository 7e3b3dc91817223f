-- ===== src/PublicApi.antt =====
-- api/app/routers/public.py: the requests of clients with a virtual key. The rows of jobs and the
-- worker's queue are one store; a handler's session sees what other sessions committed before it.
pub mod Responses
pub mod BatchRequests
pub mod Polls
pub mod Queueing
pub mod Idempotency
mod Tests
use Prim.Native.String
use flash_connector.Prelude.{
  ℕ, String, Bool, true, false, ◌&&◌, not, Option, none, some, List, [], ◌∷◌, ◌++◌, ◌==◌, ltb, map,
  if◌then◌else◌, any, or_else, strip, nonempty, text_append, is_empty, Result, ok, err,
}
use flash_connector.Tenants
use flash_connector.Jobs.{
  Job, JobStatus, Endpoint, EndpointVersion, JobCreateRequest, Scope, is_queued, is_running,
  is_settled, in_scope, create_job, get_tenant_endpoint, get_active_version, get_job_for_tenant,
  get_idempotent_job_for_key, cancel_job,
}
use flash_connector.RateLimit.{
  Clock, Limiter, Verdict, allowed, rate_exceeded, quota_exceeded, unavailable, enforce_limits,
}

-- `HTTPException`: the status code and the detail; 500 also stands for an exception that no handler
-- catches.
pub record Refused : Type 0 where
  pub status : ℕ
  pub detail : String

abbrev pub refuse : ℕ → String → Refused
refuse status detail = record { status = status; detail = detail }

-- api/app/services/api_keys.py: `ApiKeyContext`, with the two fields of its scopes.
pub record ApiKeyContext : Type 0 where
  pub api_key_id : String
  pub tenant_id : String
  pub all : Bool
  pub endpoint_ids : List String
  pub rate_limit_per_min : ℕ
  pub monthly_quota : ℕ

unfoldable pub key_allows_endpoint : ApiKeyContext → String → Bool
key_allows_endpoint ctx endpoint_id =
    if ctx.all then true else any (λ e. e == endpoint_id) ctx.endpoint_ids

pub record Store : Type 0 where
  pub jobs : List Job
  pub queue : List String
  pub limiter : Limiter

-- What a request reads outside the store: the tenants, endpoints and versions, the limiter's settings
-- and clock, the generated id of a new job, whether the queue takes it, what other sessions do to the
-- rows between the handler's first look and its insert, and `process_job`, which gives the rows after
-- it and the text of an exception.
pub record Site : Type 0 where
  pub tenants : Tenants.Table
  pub depth : ℕ
  pub endpoints : List Endpoint
  pub versions : List EndpointVersion
  pub redis_answers : Bool
  pub environment : String
  pub allow_fallback : Bool
  pub clock : Clock
  pub now : ℕ
  pub new_id : String
  pub enqueue : Result String Unit
  pub meanwhile : List Job → List Job
  pub process : String → List Job → List Job × Option String

-- The reason that `enforce_limits` returns.
abbrev pub reason : Verdict → Option String
reason allowed = none
reason rate_exceeded = some "Rate limit exceeded"
reason quota_exceeded = some "Monthly quota exceeded"
reason unavailable = some "Rate limit service unavailable"

abbrev pub limit : Site → ApiKeyContext → Limiter → Verdict × Limiter
limit site ctx l =
    enforce_limits site.redis_answers site.environment site.allow_fallback site.clock ctx.api_key_id
      ctx.rate_limit_per_min ctx.monthly_quota l

abbrev pub find_target : Site → ApiKeyContext → String → Result Refused (Endpoint × EndpointVersion)
find_target site ctx endpoint_id =
    elim (get_tenant_endpoint site.endpoints ctx.tenant_id endpoint_id) [
      | none ↦ err (refuse 404 "Endpoint not found")
      | some endpoint ↦ elim (get_active_version site.versions endpoint) [
        | none ↦ err (refuse 400 "Endpoint has no active version")
        | some version ↦ ok (endpoint, version)
      ]
    ]

-- The checks that the three submitting handlers begin with; a request that passes the scope counts.
unfoldable pub admit :
    Site → ApiKeyContext → String → Limiter → Result Refused (Endpoint × EndpointVersion) × Limiter
admit site ctx endpoint_id l =
    if key_allows_endpoint ctx endpoint_id
    then (let (verdict, l') = limit site ctx l in
        elim (reason verdict) [
          | some detail ↦ (err (refuse 429 detail), l')
          | none ↦ (find_target site ctx endpoint_id, l')
        ])
    else (err (refuse 403 "API key scope does not allow this endpoint"), l)

-- `(idempotency_key or "").strip() or None`, of 128 characters at most.
unfoldable pub normalize_key : Option String → Result Refused (Option String)
normalize_key key = elim (nonempty (strip (or_else key ""))) [
  | none ↦ ok none
  | some k ↦
      if ltb 128 (Prim.Native.String.count k)
      then err (refuse 400 "Idempotency-Key must be 128 characters or fewer")
      else ok (some k)
]

abbrev pub scope_of : ApiKeyContext → Endpoint → String → Scope
scope_of ctx endpoint k = record {
  tenant_id = ctx.tenant_id;
  endpoint_id = endpoint.id;
  api_key_id = ctx.api_key_id;
  key = k;
}

abbrev pub existing_job : ApiKeyContext → Endpoint → Option String → List Job → Option Job
existing_job ctx endpoint none jobs = none
existing_job ctx endpoint (some k) jobs = get_idempotent_job_for_key jobs (scope_of ctx endpoint k)

-- The scope of a row under the unique constraint; a column that is NULL takes the row out of it.
abbrev pub row_scope : Job → Option Scope
row_scope job = elim job.request_api_key_id [
  | none ↦ none
  | some key_id ↦ elim job.idempotency_key [
    | none ↦ none
    | some k ↦ some (record {
      tenant_id = job.tenant_id;
      endpoint_id = job.endpoint_id;
      api_key_id = key_id;
      key = k;
    })
  ]
]

abbrev pub conflicts : Job → List Job → Bool
conflicts job jobs = elim (row_scope job) [ none ↦ false | some scope ↦ any (in_scope scope) jobs ]

-- The insert; nothing is the `IntegrityError` of the constraint `uq_jobs_idempotency_scope`.
abbrev pub insert_row : Job → List Job → Option (List Job)
insert_row job jobs = if conflicts job jobs then none else some (jobs ++ job ∷ [])

abbrev pub new_job :
    Site → ApiKeyContext → Endpoint → EndpointVersion → JobCreateRequest → Option String → Job
new_job site ctx endpoint version payload k =
    create_job site.tenants site.depth site.new_id site.now ctx.tenant_id endpoint version payload
      (record {
        request_api_key_id = some ctx.api_key_id;
        provider_batch_run_id = none;
        provider_batch_status = none;
        idempotency_key = k;
        reserved_cost_usd = 0;
      })

abbrev integrity_error : Refused
integrity_error = refuse 500 "IntegrityError"

-- After the key was looked up in vain: the row is inserted, or the job that was inserted meanwhile is
-- found. The new job, or the one found, and the rows.
unfoldable pub insert_or_find :
    Site
    → ApiKeyContext
    → Endpoint
    → EndpointVersion
    → JobCreateRequest
    → Option String
    → List Job
    → (Result Refused (Bool × Job)) × List Job
insert_or_find site ctx endpoint version payload k jobs =
    let rows = site.meanwhile jobs in
    let job = new_job site ctx endpoint version payload k in
    elim (insert_row job rows) [
      | some rows' ↦ (ok (true, job), rows')
      | none ↦ elim (existing_job ctx endpoint k rows) [
        | none ↦ (err integrity_error, rows)
        | some found ↦ (ok (false, found), rows)
      ]
    ]

-- The answer names a job and its status: here it is the row.
unfoldable pub enqueue_job : Result String Unit → Job → Store → Result Refused Job × Store
enqueue_job (err e) job s = (err (refuse 500 e), s)
enqueue_job (ok _) job s = (ok job, record s { queue = s.queue ++ job.id ∷ [] })

unfoldable pub submit_new :
    Site
    → ApiKeyContext
    → Endpoint
    → EndpointVersion
    → JobCreateRequest
    → Option String
    → Store
    → Result Refused Job × Store
unfolding insert_or_find enqueue_job
submit_new site ctx endpoint version payload k s =
    let (outcome, rows) = insert_or_find site ctx endpoint version payload k s.jobs in
    let s' = record s { jobs = rows } in
    elim outcome [
      | err e ↦ (err e, s')
      | ok (true, job) ↦ enqueue_job site.enqueue job s'
      | ok (false, job) ↦ (ok job, s')
    ]

unfoldable pub submit_checked :
    Site
    → ApiKeyContext
    → Endpoint
    → EndpointVersion
    → JobCreateRequest
    → Option String
    → Store
    → Result Refused Job × Store
unfolding normalize_key submit_new
submit_checked site ctx endpoint version payload key s = elim (normalize_key key) [
  | err e ↦ (err e, s)
  | ok k ↦ elim (existing_job ctx endpoint k s.jobs) [
    | some job ↦ (ok job, s)
    | none ↦ submit_new site ctx endpoint version payload k s
  ]
]

unfoldable pub submit_job :
    Site
    → ApiKeyContext
    → String
    → JobCreateRequest
    → Option String
    → Store
    → Result Refused Job × Store
unfolding admit submit_checked
submit_job site ctx endpoint_id payload key s =
    let (checked, limiter) = admit site ctx endpoint_id s.limiter in
    let s' = record s { limiter = limiter } in
    elim checked [
      | err e ↦ (err e, s')
      | ok (endpoint, version) ↦ submit_checked site ctx endpoint version payload key s'
    ]
