-- ===== src/Batches.antt =====
-- api/app/services/provider_batches.py: batches of jobs that a provider runs. A database session is a
-- record of what is stored and of the session's own objects: `SessionLocal` has `autoflush=False`, so
-- a query counts the stored rows, while the objects that it returns are the session's. Other
-- sessions are idle while one task runs.
mod Tests
pub mod Request
pub mod Submit
pub mod Output
pub mod Poll
pub mod Cancel
pub mod Marks
pub mod Outcomes
pub mod Settled
pub mod Counts
pub mod Lines
pub mod Blocking
use flash_connector.Prelude.{
  ℕ, zero, suc, String, Bool, true, false, ◌&&◌, Option, none, some, List, [], ◌∷◌, ◌==◌,
  if◌then◌else◌, count_by, or_else, strip, lower, text_append,
}
use flash_connector.Prelude.Dict.{Dict}
use flash_connector.Json.{Json}
use flash_connector.Jobs.{Job, JobStatus, is_queued, holds}

-- The texts that the program writes to `ProviderBatchRun.status`.
pub data BatchStatus : Type 0 where
  queued submitting submitted processing finalizing completed failed canceling canceled :
      BatchStatus

pub record Run : Type 0 where
  pub id : String
  pub tenant_id : String
  pub endpoint_id : String
  pub endpoint_version_id : String
  pub provider_slug : String
  pub provider_config_id : Option String
  pub model_used : String
  pub status : BatchStatus
  pub completion_window : String
  pub request_json : Dict Json
  pub provider_batch_id : Option String
  pub input_file_id : Option String
  pub output_file_id : Option String
  pub error_file_id : Option String
  pub result_json : Option (Dict Json)
  pub error : Option String
  pub total_jobs : ℕ
  pub completed_jobs : ℕ
  pub failed_jobs : ℕ
  pub canceled_jobs : ℕ
  pub cancel_requested : Bool
  pub created_by_user_id : Option String
  pub started_at : Option ℕ
  pub finished_at : Option ℕ
  pub last_polled_at : Option ℕ
  pub next_poll_at : Option ℕ

-- `status in TERMINAL_BATCH_STATUSES`
abbrev pub is_terminal : BatchStatus → Bool
is_terminal BatchStatus.completed = true
is_terminal BatchStatus.failed = true
is_terminal BatchStatus.canceled = true
is_terminal _ = false

abbrev pub is_waiting : BatchStatus → Bool
is_waiting BatchStatus.queued = true
is_waiting _ = false

unfoldable pub batch_status_from_provider : Option String → BatchStatus
batch_status_from_provider provider_status =
    let value = lower (strip (or_else provider_status "")) in
    if value == "validating"
    then BatchStatus.submitted
    else if value == "queued"
    then BatchStatus.submitted
    else if value == "in_progress"
    then BatchStatus.processing
    else if value == "finalizing"
    then BatchStatus.finalizing
    else if value == "completed"
    then BatchStatus.completed
    else if value == "failed"
    then BatchStatus.failed
    else if value == "expired"
    then BatchStatus.failed
    else if value == "cancelling"
    then BatchStatus.canceling
    else if value == "cancelled"
    then BatchStatus.canceled
    else if value == "canceled"
    then BatchStatus.canceled
    else BatchStatus.submitted

-- `stored_run` and `stored` are the rows in the database, `run` and `jobs` the session's objects over
-- the same rows. `polls` are the polls put into the queue, `events` the jobs saved for training.
pub record Session : Type 0 where
  pub stored_run : Run
  pub stored : List Job
  pub run : Run
  pub jobs : List Job
  pub polls : List (String × ℕ)
  pub events : List String

-- `db.commit()`
abbrev pub commit : Session → Session
commit s = record s { stored_run = s.run; stored = s.jobs }

-- `_mark_job_failed`, with its default `provider_batch_status`
abbrev pub mark_job_failed : ℕ → String → Job → Job
mark_job_failed now message job = record job {
  status = JobStatus.failed;
  error = some message;
  estimated_cost_usd = none;
  provider_batch_status = some "failed";
  finished_at = some now;
}

-- `_mark_job_canceled`
abbrev pub mark_job_canceled : ℕ → Job → Job
mark_job_canceled now job = record job {
  status = JobStatus.canceled;
  provider_batch_status = some "canceled";
  error = some "Canceled";
  finished_at = some now;
}

abbrev pub in_batch : String → Job → Bool
in_batch batch_id job = holds job.provider_batch_run_id batch_id

-- The `where` of `list_jobs_for_provider_batch`, whose `limit` is 5000 in every call.
abbrev pub in_run : Run → Job → Bool
in_run run job = (job.tenant_id == run.tenant_id) && in_batch run.id job

abbrev pub list_limit : ℕ
list_limit = 5000

-- `for job in list_jobs_for_provider_batch(…): job = f(job)`, on the session's objects: the first
-- `n` jobs of the run are rewritten.
unfoldable pub for_listed : ℕ → Run → (Job → Job) → List Job → List Job
for_listed zero run f jobs = jobs
for_listed (suc n) run f [] = []
for_listed (suc n) run f (job ∷ jobs) =
    if in_run run job then f job ∷ for_listed n run f jobs else job ∷ for_listed (suc n) run f jobs

-- `if job.status == JobStatus.queued: f(job)`
abbrev pub when_queued : (Job → Job) → Job → Job
when_queued f job = if is_queued job.status then f job else job

abbrev pub is_status : JobStatus → JobStatus → Bool
is_status JobStatus.completed JobStatus.completed = true
is_status JobStatus.failed JobStatus.failed = true
is_status JobStatus.canceled JobStatus.canceled = true
is_status _ _ = false

-- `_compute_batch_counters`: the groups of the stored rows, as (total, completed, failed, canceled).
unfoldable pub compute_batch_counters : List Job → String → ℕ × ℕ × ℕ × ℕ
compute_batch_counters stored batch_id = (
  count_by (in_batch batch_id) stored,
  count_by (λ j. in_batch batch_id j && is_status JobStatus.completed j.status) stored,
  count_by (λ j. in_batch batch_id j && is_status JobStatus.failed j.status) stored,
  count_by (λ j. in_batch batch_id j && is_status JobStatus.canceled j.status) stored,
)

unfoldable pub refresh_provider_batch_counts : Session → Session
refresh_provider_batch_counts s =
    let (total, done, bad, off) = compute_batch_counters s.stored s.run.id in
    record s {
      run = record (s.run) {
        total_jobs = total;
        completed_jobs = done;
        failed_jobs = bad;
        canceled_jobs = off;
      };
    }

-- What the `except` of both tasks does with the text of the exception: a run that has ended is left
-- as it is, and nothing is committed.
unfoldable pub fail_run : ℕ → String → String → Session → Session
unfolding refresh_provider_batch_counts
fail_run now prefix exc s =
    if is_terminal s.run.status
    then s
    else let run = record (s.run) {
      status = BatchStatus.failed;
      error = some exc;
      finished_at = some now;
    } in
      let jobs =
        for_listed list_limit run (when_queued (mark_job_failed now (text_append prefix exc)))
          s.jobs in
      commit (refresh_provider_batch_counts (record s { run = run; jobs = jobs }))

-- `finally: db.close()`: what was not committed is lost.
abbrev pub close : Session → Session
close s = record s { run = s.stored_run; jobs = s.stored }
