-- ===== src/Worker/Routes.antt =====
-- api/app/tasks.py: what a run of a job calls, and its candidate routes.
use flash_connector.Prelude.{
  ℕ, String, Bool, true, false, Option, none, some, List, [], ◌∷◌, if◌then◌else◌, text_append,
  Result, ok, err,
}
use flash_connector.Prelude.Dict.{Dict, insert}
use flash_connector.Json.{Json, object}
use flash_connector.Jobs.{Job, JobStatus, EndpointVersion}

abbrev pub Route : Type 0
Route = String × String

-- A provider's answer: the text, the provider's id of it and its usage.
pub record Answer : Type 0 where
  pub text : String
  pub provider_id : Option String
  pub usage : Dict Json

-- What a run reads and calls outside the job's row. An `err` is an exception. `render` gives the
-- rendered input, the hash of the request and the request as it is stored; `cached` the job that the
-- cache names, where the cache is on; `blocked_input` the phrase that blocks the request; `routes` the
-- candidates in order; `attempt` a call of one route with the credentials found for it, and
-- `blocked_output` the phrase that blocks its text; `usage` and `price` what is stored of the answer of
-- a route, after the routes attempted; `remember` writes to the cache and `save` saves for training.
pub record Services : Type 0 where
  pub now : ℕ
  pub version : Job → Result String (Option EndpointVersion)
  pub render : EndpointVersion → Job → Result String (String × Dict Json)
  pub cached : EndpointVersion → Job → Result String (Option Job)
  pub blocked_input : EndpointVersion → Job → Result String (Option String)
  pub routes : EndpointVersion → Job → Result String (List Route)
  pub attempt : EndpointVersion → Job → Route → Result String Answer
  pub blocked_output : EndpointVersion → String → Option String
  pub usage : EndpointVersion → Job → List Route → Route → Answer → Dict Json
  pub price : Route → Dict Json → Option ℕ × Option (Dict Json)
  pub caches : EndpointVersion → Bool
  pub remember : Job → Result String Unit
  pub save : Job → Result String Unit

-- What other sessions write to the row between the worker's reads and its commits: `before_start`
-- between the load and the first commit, `during` between the last load and the last commit. Of the
-- columns that the worker does not write itself, `during` writes `cancel_requested` only.
pub record Others : Type 0 where
  pub before_start : Job → Job
  pub during : Job → Job

-- The worker never changes `cancel_requested`, so a commit leaves that column as the row has it.
abbrev pub write_back : Job → Job → Job
write_back copy row = record copy { cancel_requested = row.cancel_requested }

-- `_mark_job_failed`
abbrev pub mark_job_failed : ℕ → String → Job → Job
mark_job_failed now message job = record job {
  status = JobStatus.failed;
  error = some message;
  estimated_cost_usd = none;
  finished_at = some now;
}

abbrev pub is_canceled : JobStatus → Bool
is_canceled JobStatus.canceled = true
is_canceled _ = false

abbrev pub is_completed : JobStatus → Bool
is_completed JobStatus.completed = true
is_completed _ = false

-- The status at the end, which the worker's copy decides.
abbrev pub final_status : Job → JobStatus
final_status job = if job.cancel_requested then JobStatus.canceled else JobStatus.completed

-- How the routes fared: the routes attempted, and the first that answered, or the errors of all.
pub record Chosen : Type 0 where
  pub attempted : List Route
  pub errors : List String
  pub selected : Option (Route × Answer)

abbrev pub route_error : Route → String → String
route_error (provider, model) message =
    text_append provider (text_append "/" (text_append model (text_append ": " message)))

abbrev pub add_failure : Route → String → Chosen → Chosen
add_failure route message rest = record {
  attempted = route ∷ rest.attempted;
  errors = route_error route message ∷ rest.errors;
  selected = rest.selected;
}

abbrev pub stop_at : Route → Answer → Chosen
stop_at route answer = record {
  attempted = route ∷ [];
  errors = [];
  selected = some (route, answer);
}

-- The loop over the candidate routes.
unfoldable pub try_routes : Services → EndpointVersion → Job → List Route → Chosen
try_routes sv version job [] = record { attempted = []; errors = []; selected = none }
try_routes sv version job (route ∷ routes) =
    let rest = try_routes sv version job routes in
    elim (sv.attempt version job route) [
      | err exc ↦ add_failure route exc rest
      | ok answer ↦ elim (sv.blocked_output version answer.text) [
        | some phrase ↦ add_failure route (text_append "output blocked by phrase " phrase) rest
        | none ↦ stop_at route answer
      ]
    ]

-- `" | ".join(route_errors)`
unfoldable pub join_errors : List String → String
join_errors [] = "No successful provider call."
join_errors (e ∷ []) = e
join_errors (e ∷ f ∷ rest) = text_append e (text_append " | " (join_errors (f ∷ rest)))

abbrev pub priced : Option (Dict Json) → Dict Json → Dict Json
priced none usage = usage
priced (some details) usage = insert "pricing" (object details) usage

-- The columns that a route's answer fills.
unfoldable pub complete_job : Services → EndpointVersion → Job → List Route → Route → Answer → Job
complete_job sv version job attempted route answer =
    let usage = sv.usage version job attempted route answer in
    let (cost, details) = sv.price route usage in
    record job {
      result_text = some answer.text;
      provider_response_id = answer.provider_id;
      usage_json = some (priced details usage);
      estimated_cost_usd = cost;
      provider_used = some route.0;
      model_used = some route.1;
      error = none;
      cache_hit = false;
      cached_from_job_id = none;
      status = final_status job;
      finished_at = some sv.now;
    }

-- The row after a run, and the exception that leaves `process_job`, if any.
abbrev pub Outcome : Type 0
Outcome = Job × Option String

-- After the last commit: the cache and the training event, whose exceptions the handler of the `try`
-- turns into a failed job.
unfoldable pub after_completion : Services → EndpointVersion → Job → Job
after_completion sv version row =
    if is_completed row.status
    then elim (if sv.caches version then sv.remember row else ok tt) [
      | err exc ↦ mark_job_failed sv.now exc row
      | ok _ ↦ elim (sv.save row) [ err exc ↦ mark_job_failed sv.now exc row | ok _ ↦ row ]
    ]
    else row

-- The body of the inner `try`, on the worker's copy, with the row as the other sessions leave it.
unfoldable pub run_routes : Services → (Job → Job) → EndpointVersion → Job → Job
unfolding try_routes join_errors complete_job after_completion
run_routes sv during version job =
    let row = during job in
    elim (sv.routes version job) [
      | err exc ↦ write_back (mark_job_failed sv.now exc job) row
      | ok routes ↦
          let chosen = try_routes sv version job routes in
          elim chosen.selected [
            | none ↦
                write_back
                  (mark_job_failed sv.now
                    (text_append "All model attempts failed. " (join_errors chosen.errors)) job)
                  row
            | some (route, answer) ↦
                after_completion sv version
                  (write_back (complete_job sv version job chosen.attempted route answer) row)
          ]
    ]
