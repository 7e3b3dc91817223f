-- ===== src/Batches/Tests.antt =====
-- Runs of api/app/services/provider_batches.py on a batch of two jobs.
mod Samples
use Samples.{
  queued_job, done_job, job_rows, queued_run, sent_run, opened, opened-IsFresh, version, reader,
  payload, provider, preparer, gateway, sent-Reaches,
}
use flash_connector.Prelude.{
  ℕ, ◌+◌, max, String, Bool, true, false, Option, none, some, List, [], ◌∷◌, ◌≡◌, refl, map, arith,
  lower, strip, Result, ok, err, Option-cases, ◌≤◌,
}
use flash_connector.Prelude.Dict.{Dict}
use flash_connector.Jobs.{Job, JobStatus, EndpointVersion}
use flash_connector.Batches.{
  Run, Session, BatchStatus, batch_status_from_provider, is_terminal, is_waiting, list_limit,
  compute_batch_counters,
}
use flash_connector.Batches.Submit.{
  Gateway, prepare_listed, start_submission, submit_body, submit_lines,
  submit_provider_batch_run_task, text_at, version_of,
}
use flash_connector.Batches.Output.{Reader}
use flash_connector.Batches.Poll.{Provider, batch_id_of, poll_provider_batch_run_task}
use flash_connector.Batches.Cancel.{request_cancel_provider_batch_run}
use flash_connector.Batches.Marks.{Frozen, waits}
use flash_connector.Studio.{find_blocked_phrase, parse_list_param, collect_request_text}
use flash_connector.Batches.Request.{prepare_batch_request_body}
use flash_connector.Json.{Json, arr, cons, nil, str, null, pos}
use flash_connector.Batches.Blocking.{Writes, Answers, prepare_batch_request_body-Answers}
use flash_connector.Batches.Settled.{IsFresh, poll-keeps_settled, cancel-keeps_settled}
use flash_connector.Batches.Counts.{counts_of, cancel_waiting-counts, poll-at_limit}
use flash_connector.Batches.Outcomes.{Reaches, poll-ended, poll-goes_on}
use flash_connector.Batches.Lines.{queued_ids, prepare_listed-lines, submit_raises, submit-sends}

poll-keeps_settled_example :
    Frozen job_rows
      (poll_provider_batch_run_task
        (provider "completed" (version ∷ []))
        1
        (opened sent_run)).stored
poll-keeps_settled_example =
    poll-keeps_settled (provider "completed" (version ∷ [])) 1 (opened sent_run)
      (opened-IsFresh sent_run)

cancel-keeps_settled_example :
    Frozen job_rows (request_cancel_provider_batch_run 9 (opened queued_run)).stored
cancel-keeps_settled_example =
    cancel-keeps_settled 9 (opened queued_run) (opened-IsFresh queued_run)

poll-ended_example :
    let s' =
      poll_provider_batch_run_task (provider "completed" (version ∷ [])) 1 (opened sent_run) in
    (s'.stored_run.status ≡ batch_status_from_provider (some "completed"))
    × (waits list_limit sent_run s'.stored ≡ false)
    × (s'.stored_run.next_poll_at ≡ none)
    × (s'.polls ≡ [])
unfolding batch_status_from_provider lower strip
poll-ended_example =
    poll-ended (provider "completed" (version ∷ [])) 1 (opened sent_run) "batch_1"
      (payload "completed") version (sent-Reaches "completed" (version ∷ [])) refl refl

poll-goes_on_example :
    let s' =
      poll_provider_batch_run_task (provider "in_progress" (version ∷ [])) 1 (opened sent_run) in
    (s'.stored_run.status ≡ batch_status_from_provider (some "in_progress"))
    × (s'.stored_run.next_poll_at ≡ some 39)
    × (s'.polls ≡ ("b", 2) ∷ [])
unfolding batch_status_from_provider lower strip
poll-goes_on_example =
    poll-goes_on (provider "in_progress" (version ∷ [])) 1 (opened sent_run) "batch_1"
      (payload "in_progress") version (sent-Reaches "in_progress" (version ∷ [])) refl refl refl

cancel_waiting-counts_example :
    let s' = request_cancel_provider_batch_run 9 (opened queued_run) in
    (s'.stored_run.status ≡ BatchStatus.canceled)
    × (waits list_limit queued_run s'.stored ≡ false)
    × (counts_of s'.stored_run ≡ compute_batch_counters job_rows "b")
cancel_waiting-counts_example = cancel_waiting-counts 9 (opened queued_run) refl

poll-at_limit_example :
    let s' =
      poll_provider_batch_run_task (provider "in_progress" (version ∷ [])) 3 (opened sent_run) in
    (s'.stored_run.status ≡ BatchStatus.failed)
    × (waits list_limit sent_run s'.stored ≡ false)
    × (s'.polls ≡ [])
    × (counts_of s'.stored_run ≡ compute_batch_counters job_rows "b")
poll-at_limit_example =
    poll-at_limit (provider "in_progress" (version ∷ [])) 3 (opened sent_run) "batch_1" refl refl
      (omega arith)

prepare_listed-lines_example :
    map (λ l. l.0) (prepare_listed 2 (gateway (ok tt)) queued_run version job_rows).lines
    ≡ queued_ids 2 queued_run (prepare_listed 2 (gateway (ok tt)) queued_run version job_rows).jobs
unfolding find_blocked_phrase parse_list_param prepare_batch_request_body prepare_listed
prepare_listed-lines_example =
    prepare_listed-lines (gateway (ok tt)) queued_run version 2 job_rows refl

submit_raises_example :
    let s' = submit_provider_batch_run_task (gateway (err "queue down")) (opened queued_run) in
    (s'.stored_run.status ≡ BatchStatus.failed)
    × (s'.stored_run.error ≡ some "queue down")
    × (waits list_limit
          (submit_body (gateway (err "queue down")) (opened queued_run)).0.run
          s'.stored
        ≡ false)
unfolding find_blocked_phrase parse_list_param prepare_batch_request_body submit_body submit_lines
    start_submission prepare_listed batch_status_from_provider lower strip
submit_raises_example =
    submit_raises (gateway (err "queue down")) (opened queued_run) "queue down" refl refl

submit-sends_example :
    let g = gateway (ok tt) in
    let s' = submit_provider_batch_run_task g (opened queued_run) in
    (s'.stored_run.provider_batch_id ≡ some "batch_1")
    × (s'.stored_run.status ≡ batch_status_from_provider (some "validating"))
    × (s'.polls ≡ ("b", 0) ∷ [])
    × (map
          (λ l. l.0)
          (prepare_listed list_limit g
            (start_submission g (opened queued_run)).run
            version
            job_rows).lines
        ≡ queued_ids list_limit queued_run s'.stored)
unfolding find_blocked_phrase parse_list_param prepare_batch_request_body prepare_listed
    start_submission
submit-sends_example =
    submit-sends (gateway (ok tt)) (opened queued_run) version "file_1" "batch_1"
      (payload "validating") refl refl refl refl refl refl refl refl refl

-- A poll that finds its endpoint version gone fails the run and leaves the queued job queued.
missing_version_run :
    let s' = poll_provider_batch_run_task (provider "in_progress" []) 1 (opened sent_run) in
    (s'.stored_run.status ≡ BatchStatus.failed) × (s'.stored ≡ job_rows) × (s'.polls ≡ [])
unfolding poll_provider_batch_run_task
missing_version_run = (refl, refl, refl)

-- A version that blocks a phrase, and a job that has it.
abbrev strict_version : EndpointVersion
strict_version = record version {
  params_json = ("blocked_input_phrases", arr (cons (str "secret") nil)) ∷ [];
}

abbrev blocked_job : Job
blocked_job = record queued_job { request_json = ("input", str "a secret") ∷ [] }

blocked_run :
    (prepare_batch_request_body preparer queued_run strict_version blocked_job).1
    ≡ ok (err "Input blocked by phrase: secret")
unfolding prepare_batch_request_body find_blocked_phrase parse_list_param strip collect_request_text
blocked_run = refl

prepare_batch_request_body-Answers_example :
    let (job', answer) =
      prepare_batch_request_body preparer queued_run strict_version blocked_job in
    Writes blocked_job job' × Answers preparer strict_version blocked_job answer
prepare_batch_request_body-Answers_example =
    prepare_batch_request_body-Answers preparer queued_run strict_version blocked_job
