-- ===== src/Batches/Counts.antt =====
-- How the counts of a run lag behind its jobs: `refresh_provider_batch_counts` counts the stored rows,
-- before the session's changes to the jobs are committed.
use flash_connector.Prelude.{ℕ, max, ◌≤◌, String, true, false, some, ◌≡◌, refl, arith, le→leb}
use flash_connector.Batches.{
  Run, Session, BatchStatus, compute_batch_counters, is_terminal, is_waiting, list_limit,
}
use flash_connector.Batches.Marks.{
  waits, waits-for_listed, mark_job_failed-IsMark, mark_job_canceled-IsMark,
}
use flash_connector.Batches.Poll.{
  Provider, batch_id_of, poll_provider_batch_run_task, poll_body, poll_batch,
}
use flash_connector.Batches.Cancel.{request_cancel_provider_batch_run}

-- The counts that a run carries.
abbrev pub counts_of : Run → ℕ × ℕ × ℕ × ℕ
counts_of run = (run.total_jobs, run.completed_jobs, run.failed_jobs, run.canceled_jobs)

-- Canceling a run that waits settles all its listed jobs, and leaves the run with the counts of the
-- rows as they were before.
pub cancel_waiting-counts :
    (now : ℕ) (s : Session)
    → is_waiting s.run.status ≡ true
    → let s' = request_cancel_provider_batch_run now s in
      (s'.stored_run.status ≡ BatchStatus.canceled)
      × (waits list_limit s.run s'.stored ≡ false)
      × (counts_of s'.stored_run ≡ compute_batch_counters s.stored s.run.id)
unfolding request_cancel_provider_batch_run
cancel_waiting-counts now s h =
    let t : is_terminal s.run.status ≡ false = ground arith in
    rw (h, t, request_cancel_provider_batch_run)
      (refl, waits-for_listed _ _ (mark_job_canceled-IsMark now) list_limit s.jobs, refl)

-- A poll that has reached the limit of attempts, of a live run that has a batch at the provider, ends
-- the run: it fails, no listed job is left queued,
-- no further poll is put into the queue, and the counts are those of the rows before the poll.
pub poll-at_limit :
    (p : Provider) (attempt : ℕ) (s : Session) (batch_id : String)
    → is_terminal s.run.status ≡ false
    → batch_id_of s.run ≡ some batch_id
    → max 1 p.max_poll_attempts ≤ attempt
    → let s' = poll_provider_batch_run_task p attempt s in
      (s'.stored_run.status ≡ BatchStatus.failed)
      × (waits list_limit s.run s'.stored ≡ false)
      × (s'.polls ≡ s.polls)
      × (counts_of s'.stored_run ≡ compute_batch_counters s.stored s.run.id)
unfolding poll_provider_batch_run_task
poll-at_limit p attempt s batch_id t b h =
    rw (t, b, le→leb (max 1 p.max_poll_attempts) attempt h, poll_body, poll_batch)
      (
        refl,
        waits-for_listed _ _ (mark_job_failed-IsMark p.reader.now "Polling timeout reached")
            list_limit s.jobs,
        refl,
        refl,
      )
