-- ===== src/Batches/Submit.antt =====
-- `submit_provider_batch_run_task`: from a queued run to a batch at the provider.
use flash_connector.Prelude.{
  ℕ, zero, suc, ◌+◌, String, ◌&&◌, Option, none, some, List, [], ◌∷◌, ◌==◌, if◌then◌else◌, find,
  or_else, is_nil, Result, ok, err,
}
use flash_connector.Prelude.Dict.{Dict, lookup}
use flash_connector.Json.{Json, as_text}
use flash_connector.Jobs.{Job, EndpointVersion, is_queued}
use flash_connector.Batches.Request.{Preparer, prepare_batch_request_body}
use flash_connector.Batches.{
  Run, Session, BatchStatus, is_terminal, is_waiting, batch_status_from_provider, commit,
  mark_job_failed, mark_job_canceled, in_run, list_limit, for_listed, when_queued,
  refresh_provider_batch_counts, fail_run, close,
}

-- What the task reads from outside the session: the clock, the setting, the rows of endpoint
-- versions, the credentials with the provider's client, what the preparation of a request reads, and the
-- provider's answers. An `err`
-- is an exception.
pub record Gateway : Type 0 where
  pub now : ℕ
  pub poll_interval : ℕ
  pub versions : List EndpointVersion
  pub connect : Run → Result String Unit
  pub preparer : Preparer
  pub upload : Run → List (String × Json) → Result String String
  pub create : Run → String → Result String (String × Dict Json)
  pub enqueue : Result String Unit

abbrev pub version_of : List EndpointVersion → Run → Option EndpointVersion
version_of versions run =
    find (λ v. (v.id == run.endpoint_version_id) && (v.endpoint_id == run.endpoint_id)) versions

-- A session, and the text of the exception that left it so, if any.
abbrev pub Outcome : Type 0
Outcome = Session × Option String

-- The loop that prepares the lines: the jobs as it leaves them, the lines, and its exception.
pub record Prepared : Type 0 where
  pub jobs : List Job
  pub lines : List (String × Json)
  pub raised : Option String

abbrev pub prepare_job :
    ℕ → Job × Result String (Result String Json) → Prepared → List Job → Prepared
prepare_job now (written, err e) rest jobs = record {
  jobs = written ∷ jobs;
  lines = [];
  raised = some e;
}
prepare_job now (written, ok (ok body)) rest jobs = record {
  jobs = record written { provider_batch_status = some "submitted" } ∷ rest.jobs;
  lines = (written.id, body) ∷ rest.lines;
  raised = rest.raised;
}
prepare_job now (written, ok (err message)) rest jobs = record {
  jobs = mark_job_failed now message written ∷ rest.jobs;
  lines = rest.lines;
  raised = rest.raised;
}

abbrev pub skip_job : Job → Prepared → Prepared
skip_job job rest = record { jobs = job ∷ rest.jobs; lines = rest.lines; raised = rest.raised }

unfoldable pub prepare_listed : ℕ → Gateway → Run → EndpointVersion → List Job → Prepared
unfolding prepare_batch_request_body
prepare_listed zero g run version jobs = record { jobs = jobs; lines = []; raised = none }
prepare_listed (suc n) g run version [] = record { jobs = []; lines = []; raised = none }
prepare_listed (suc n) g run version (job ∷ jobs) =
    let rest = prepare_listed n g run version jobs in
    let further = prepare_listed (suc n) g run version jobs in
    if in_run run job
    then (if is_queued job.status
        then prepare_job g.now (prepare_batch_request_body g.preparer run version job) rest jobs
        else skip_job job rest)
    else skip_job job further

-- `_schedule_next_poll`
abbrev pub schedule_next_poll : Result String Unit → ℕ → Session → Outcome
schedule_next_poll (err e) attempt s = (s, some e)
schedule_next_poll (ok _) attempt s = (record s { polls = (s.run.id, attempt) ∷ s.polls }, none)

-- The text under a key of the provider's payload, or nothing.
abbrev pub text_at : String → Dict Json → Option String
text_at k d = elim (lookup k d) [ none ↦ none | some j ↦ as_text j ]

unfoldable pub record_submission : Gateway → String → String → Dict Json → Session → Session
unfolding refresh_provider_batch_counts
record_submission g input_file batch_id payload s =
    let run = record (s.run) {
      status = batch_status_from_provider (text_at "status" payload);
      provider_batch_id = some batch_id;
      input_file_id = some input_file;
      output_file_id = text_at "output_file_id" payload;
      error_file_id = text_at "error_file_id" payload;
      result_json = some payload;
      last_polled_at = some g.now;
      next_poll_at = some (g.now + g.poll_interval);
    } in
    commit (refresh_provider_batch_counts (record s { run = run }))

unfoldable pub submit_lines : Gateway → EndpointVersion → Session → Outcome
unfolding record_submission prepare_listed
submit_lines g version s =
    let p = prepare_listed list_limit g s.run version s.jobs in
    let s' = record s { jobs = p.jobs } in
    elim p.raised [
      | some e ↦ (s', some e)
      | none ↦
          if is_nil p.lines
          then (let run = record (s.run) {
            status = BatchStatus.failed;
            error = some "No valid jobs to submit after validation";
            finished_at = some g.now;
          } in
              (commit (refresh_provider_batch_counts (record s' { run = run })), none))
          else elim (g.upload s.run p.lines) [
            | err e ↦ (s', some e)
            | ok input_file ↦ elim (g.create s.run input_file) [
              | err e ↦ (s', some e)
              | ok (batch_id, payload) ↦
                  schedule_next_poll g.enqueue 0
                    (record_submission g input_file batch_id payload s')
            ]
          ]
    ]

unfoldable pub start_submission : Gateway → Session → Session
start_submission g s = commit (record s {
  run = record (s.run) {
    status = BatchStatus.submitting;
    error = none;
    started_at = some (or_else s.run.started_at g.now);
  };
})

-- The run is canceled, or fails, before anything is sent.
unfoldable pub end_unsent : ℕ → BatchStatus → Option String → (Job → Job) → Session → Session
unfolding refresh_provider_batch_counts
end_unsent now status error f s =
    let run = record (s.run) { status = status; error = error; finished_at = some now } in
    let jobs = for_listed list_limit run (when_queued f) s.jobs in
    commit (refresh_provider_batch_counts (record s { run = run; jobs = jobs }))

-- The body of the `try`.
unfoldable pub submit_body : Gateway → Session → Outcome
unfolding end_unsent start_submission submit_lines
submit_body g s =
    if is_terminal s.run.status
    then (s, none)
    else if s.run.cancel_requested && is_waiting s.run.status
    then (end_unsent g.now BatchStatus.canceled s.run.error (mark_job_canceled g.now) s, none)
    else elim (version_of g.versions s.run) [
      | none ↦ (
        end_unsent g.now BatchStatus.failed (some "Endpoint version not found")
            (mark_job_failed g.now "Endpoint version not found") s,
        none,
      )
      | some version ↦ elim (g.connect s.run) [
        | err e ↦ (s, some e)
        | ok _ ↦ submit_lines g version (start_submission g s)
      ]
    ]

-- `except`, then `finally`
abbrev pub finish : ℕ → String → Outcome → Session
finish now prefix (s, none) = close s
finish now prefix (s, some exc) = close (fail_run now prefix exc s)

unfoldable pub submit_provider_batch_run_task : Gateway → Session → Session
unfolding submit_body fail_run
submit_provider_batch_run_task g s = finish g.now "Batch submission failed: " (submit_body g s)
