-- ===== src/Batches/Poll.antt =====
-- `poll_provider_batch_run_task`: one poll of the provider, and the next one put into the queue.
use flash_connector.Prelude.{
  ℕ, ◌+◌, max, String, Bool, true, false, ◌||◌, Option, none, some, List, leb, if◌then◌else◌,
  is_empty, text_append, Result, ok, err,
}
use flash_connector.Prelude.Dict.{Dict}
use flash_connector.Json.{Json}
use flash_connector.Jobs.{EndpointVersion}
use flash_connector.Batches.{
  Run, Session, BatchStatus, is_terminal, is_waiting, batch_status_from_provider, commit,
  mark_job_failed, mark_job_canceled, list_limit, for_listed, when_queued,
  refresh_provider_batch_counts, fail_run,
}
use flash_connector.Batches.Submit.{version_of, Outcome, schedule_next_poll, text_at, finish}
use flash_connector.Batches.Output.{Reader, apply_lines}

-- `retrieve` is the provider's answer for a batch, after the request to cancel it, whose errors are
-- ignored; `output` the lines of a file and the exception that ends them.
pub record Provider : Type 0 where
  pub poll_interval : ℕ
  pub max_poll_attempts : ℕ
  pub versions : List EndpointVersion
  pub connect : Run → Result String Unit
  pub retrieve : String → Bool → Result String (Dict Json)
  pub output : String → List String × Option String
  pub enqueue : Result String Unit
  pub reader : Reader

-- The run's own columns after a state in which it cannot go on; the counts are refreshed.
unfoldable pub fail_poll : ℕ → String → Session → Session
unfolding refresh_provider_batch_counts
fail_poll now message s =
    let run = record (s.run) {
      status = BatchStatus.failed;
      error = some message;
      finished_at = some now;
    } in
    commit (refresh_provider_batch_counts (record s { run = run }))

-- `x.get(k) or y`
abbrev or_keep : Option String → Option String → Option String
or_keep none y = y
or_keep (some s) y = if is_empty s then y else some s

unfoldable pub record_answer : ℕ → Dict Json → Session → Session
record_answer now payload s = record s {
  run = record (s.run) {
    status = batch_status_from_provider (text_at "status" payload);
    output_file_id = or_keep (text_at "output_file_id" payload) s.run.output_file_id;
    error_file_id = or_keep (text_at "error_file_id" payload) s.run.error_file_id;
    result_json = some payload;
    last_polled_at = some now;
  };
}

-- `if run.output_file_id:`, with the `except` that keeps the text of the exception.
unfoldable pub read_output : Provider → EndpointVersion → Session → Session
unfolding apply_lines
read_output p version s = elim s.run.output_file_id [
  | none ↦ s
  | some file ↦
      if is_empty file
      then s
      else let (texts, broken) = p.output file in
        let (s', raised) = apply_lines p.reader version texts broken s in
        elim raised [
          | none ↦ s'
          | some e ↦ record s' {
            run = record (s'.run) { error = some (text_append "Failed to parse batch output: " e) };
          }
        ]
]

abbrev pub is_canceled : BatchStatus → Bool
is_canceled BatchStatus.canceled = true
is_canceled _ = false

-- The jobs without a result, once the run has ended.
unfoldable pub settle_remaining : ℕ → Session → Session
settle_remaining now s =
    if is_terminal s.run.status
    then (let mark =
          if is_canceled s.run.status || s.run.cancel_requested
          then mark_job_canceled now
          else mark_job_failed now "No result returned for this batch item" in
        record s {
          jobs = for_listed list_limit s.run (when_queued mark) s.jobs;
          run = record (s.run) { finished_at = some now };
        })
    else s

unfoldable pub plan_next : ℕ → ℕ → Session → Session
unfolding refresh_provider_batch_counts
plan_next now interval s =
    let s' = refresh_provider_batch_counts s in
    let next = if is_terminal s'.run.status then none else some (now + interval) in
    commit (record s' { run = record (s'.run) { next_poll_at = next } })

unfoldable pub end_poll : Provider → ℕ → Session → Outcome
unfolding plan_next
end_poll p attempt s =
    let s' = plan_next p.reader.now p.poll_interval s in
    if is_terminal s'.run.status then (s', none) else schedule_next_poll p.enqueue (attempt + 1) s'

-- From the provider's answer on.
unfoldable pub apply_answer : Provider → ℕ → Dict Json → Session → Outcome
unfolding record_answer read_output settle_remaining end_poll
apply_answer p attempt payload s =
    let answered = record_answer p.reader.now payload s in
    elim (version_of p.versions s.run) [
      | none ↦ (
        commit (record answered {
          run = record (answered.run) {
            status = BatchStatus.failed;
            error = some "Endpoint version not found during poll";
            finished_at = some p.reader.now;
          };
        }),
        none,
      )
      | some version ↦
          end_poll p attempt (settle_remaining p.reader.now (read_output p version answered))
    ]

unfoldable pub poll_timeout : ℕ → Session → Session
unfolding refresh_provider_batch_counts
poll_timeout now s =
    let run = record (s.run) {
      status = BatchStatus.failed;
      error = some "Polling timeout reached";
      finished_at = some now;
    } in
    let jobs =
      for_listed list_limit run (when_queued (mark_job_failed now "Polling timeout reached"))
        s.jobs in
    commit (refresh_provider_batch_counts (record s { run = run; jobs = jobs }))

unfoldable pub poll_batch : Provider → ℕ → String → Session → Outcome
unfolding poll_timeout apply_answer
poll_batch p attempt batch_id s =
    if leb (max 1 p.max_poll_attempts) attempt
    then (poll_timeout p.reader.now s, none)
    else elim (p.connect s.run) [
      | err e ↦ (s, some e)
      | ok _ ↦ elim (p.retrieve batch_id s.run.cancel_requested) [
        | err e ↦ (s, some e)
        | ok payload ↦ apply_answer p attempt payload s
      ]
    ]

-- A provider's batch id that is there and not empty.
abbrev pub batch_id_of : Run → Option String
batch_id_of run = elim run.provider_batch_id [
  | none ↦ none
  | some i ↦ if is_empty i then none else some i
]

unfoldable pub poll_body : Provider → ℕ → Session → Outcome
unfolding poll_batch fail_poll
poll_body p attempt s = if is_terminal s.run.status then (s, none) else elim (batch_id_of s.run) [
  | none ↦
      if is_waiting s.run.status
      then schedule_next_poll p.enqueue (attempt + 1) s
      else (fail_poll p.reader.now "Provider batch id missing" s, none)
  | some batch_id ↦ poll_batch p attempt batch_id s
]

unfoldable pub poll_provider_batch_run_task : Provider → ℕ → Session → Session
unfolding poll_body fail_run
poll_provider_batch_run_task p attempt s =
    finish p.reader.now "Batch poll failed: " (poll_body p attempt s)
