-- ===== src/Batches/Settled.antt =====
-- A job that is settled keeps its row: no poll or cancellation of its run writes to it.
mod Lines
use Lines.{Keeps, Keeps-read_output, Keeps-mark, Keeps-settle_remaining}
use flash_connector.Prelude.{
  ℕ, zero, suc, ◌+◌, max, String, Bool, true, false, ◌&&◌, ◌||◌, Option, none, some, List, [], ◌∷◌,
  ◌≡◌, refl, arith, if◌then◌else◌, leb, Bool-cases, Option-cases, inl, inr, Result, ok, err,
  Result-cases,
}
use flash_connector.Prelude.Dict.{Dict}
use flash_connector.Json.{Json}
use flash_connector.Jobs.{Job, EndpointVersion}
use flash_connector.Batches.{
  Run, Session, BatchStatus, fail_run, is_terminal, is_waiting, close, mark_job_failed,
  mark_job_canceled,
}
use flash_connector.Batches.Submit.{Outcome, finish, schedule_next_poll, version_of}
use flash_connector.Batches.Poll.{
  Provider, fail_poll, record_answer, read_output, settle_remaining, plan_next, end_poll,
  apply_answer, poll_timeout, poll_batch, batch_id_of, poll_body, poll_provider_batch_run_task,
}
use flash_connector.Batches.Cancel.{request_cancel_provider_batch_run, is_failed}
use flash_connector.Batches.Marks.{
  Frozen, Frozen-refl, mark_job_failed-IsMark, mark_job_canceled-IsMark,
}

module _ (base : List Job) where
  Keeps-schedule :
      (r : Result String Unit) (attempt : ℕ) (s : Session)
      → Keeps base s
      → Keeps base (schedule_next_poll r attempt s).0
  Keeps-schedule (ok _) attempt s k = record { rows = k.rows; objects = k.objects }
  Keeps-schedule (err e) attempt s k = k

  Keeps-end_poll :
      (p : Provider) (attempt : ℕ) (s : Session)
      → Keeps base s
      → Keeps base (end_poll p attempt s).0
  unfolding end_poll
  Keeps-end_poll p attempt s k = elim (Bool-cases (is_terminal s.run.status)) [
    | inl a ↦ rw (a, end_poll) (record { rows = k.objects; objects = k.objects })
    | inr a ↦
        rw (a, end_poll)
          (Keeps-schedule p.enqueue (attempt + 1) _
            (record { rows = k.objects; objects = k.objects }))
  ]

  Keeps-apply_answer :
      (p : Provider) (attempt : ℕ) (payload : Dict Json) (s : Session)
      → Keeps base s
      → Keeps base (apply_answer p attempt payload s).0
  unfolding apply_answer
  Keeps-apply_answer p attempt payload s k =
      let answered = record_answer p.reader.now payload s in
      let k' : Keeps base answered = record { rows = k.rows; objects = k.objects } in
      elim (Option-cases (version_of p.versions s.run)) [
        | inl a ↦ rw (a, apply_answer) (record { rows = k.objects; objects = k.objects })
        | inr (v, a) ↦
            rw (a, apply_answer)
              (Keeps-end_poll p attempt (settle_remaining p.reader.now (read_output p v answered)) (
                Keeps-settle_remaining base p.reader.now (read_output p v answered)
                  (Keeps-read_output base p v answered k')))
      ]

  Keeps-poll_timeout : (now : ℕ) (s : Session) → Keeps base s → Keeps base (poll_timeout now s)
  unfolding poll_timeout
  Keeps-poll_timeout now s k =
      let o = Keeps-mark base _ _ s (mark_job_failed-IsMark now "Polling timeout reached") k in
      record { rows = o; objects = o }

  Keeps-poll_batch :
      (p : Provider) (attempt : ℕ) (batch_id : String) (s : Session)
      → Keeps base s
      → Keeps base (poll_batch p attempt batch_id s).0
  unfolding poll_batch
  Keeps-poll_batch p attempt batch_id s k =
      elim (Bool-cases (leb (max 1 p.max_poll_attempts) attempt)) [
        | inl a ↦ rw (a, poll_batch) (Keeps-poll_timeout p.reader.now s k)
        | inr a ↦ elim (Result-cases (p.connect s.run)) [
          | inr (e, b) ↦ rw (a, b, poll_batch) k
          | inl (_, b) ↦ elim (Result-cases (p.retrieve batch_id s.run.cancel_requested)) [
            | inr (e, c) ↦ rw (a, b, c, poll_batch) k
            | inl (payload, c) ↦ rw (a, b, c, poll_batch) (Keeps-apply_answer p attempt payload s k)
          ]
        ]
      ]

  Keeps-fail_run :
      (now : ℕ) (prefix exc : String) (s : Session)
      → Keeps base s
      → Keeps base (fail_run now prefix exc s)
  unfolding fail_run
  Keeps-fail_run now prefix exc s k = elim (Bool-cases (is_terminal s.run.status)) [
    | inl a ↦ rw (a, fail_run) k
    | inr a ↦
        let o = Keeps-mark base _ _ s (mark_job_failed-IsMark now _) k in
        rw (a, fail_run) (record { rows = o; objects = o })
  ]

  Keeps-finish :
      (now : ℕ) (prefix : String) (o : Outcome)
      → Keeps base o.0
      → Frozen base (finish now prefix o).stored
  Keeps-finish now prefix (s, none) k = k.rows
  Keeps-finish now prefix (s, some e) k = (Keeps-fail_run now prefix e s k).rows

  Keeps-poll_body :
      (p : Provider) (attempt : ℕ) (s : Session)
      → Keeps base s
      → Keeps base (poll_body p attempt s).0
  unfolding poll_body
  Keeps-poll_body p attempt s k = elim (Bool-cases (is_terminal s.run.status)) [
    | inl a ↦ rw (a, poll_body) k
    | inr a ↦ elim (Option-cases (batch_id_of s.run)) [
      | inr (i, b) ↦ rw (a, b, poll_body) (Keeps-poll_batch p attempt i s k)
      | inl b ↦ elim (Bool-cases (is_waiting s.run.status)) [
        | inl c ↦ rw (a, b, c, poll_body) (Keeps-schedule p.enqueue (attempt + 1) s k)
        | inr c ↦ rw (a, b, c, poll_body) (record { rows = k.objects; objects = k.objects })
      ]
    ]
  ]

-- A session that has just been opened: its objects are the rows.
pub record IsFresh (s : Session) : Type 0 where
  pub run_loaded : s.run ≡ s.stored_run
  pub jobs_loaded : s.jobs ≡ s.stored

fresh-Keeps : (s : Session) → IsFresh s → Keeps s.stored s
fresh-Keeps s f = record {
  rows = Frozen-refl s.stored;
  objects = rw f.jobs_loaded (Frozen-refl s.stored);
}

-- A poll of a freshly opened session leaves the row of every job that is completed, failed or
-- canceled exactly as it was, whatever the provider answers or raises, and keeps all ids in place.
pub poll-keeps_settled :
    (p : Provider) (attempt : ℕ) (s : Session)
    → IsFresh s
    → Frozen s.stored (poll_provider_batch_run_task p attempt s).stored
unfolding poll_provider_batch_run_task
poll-keeps_settled p attempt s f =
    Keeps-finish s.stored p.reader.now "Batch poll failed: " (poll_body p attempt s)
      (Keeps-poll_body s.stored p attempt s (fresh-Keeps s f))

-- A request to cancel a run, in a freshly opened session, leaves the row of every job that is completed,
-- failed or canceled exactly as it was, and keeps all ids in place.
pub cancel-keeps_settled :
    (now : ℕ) (s : Session)
    → IsFresh s
    → Frozen s.stored (request_cancel_provider_batch_run now s).stored
unfolding request_cancel_provider_batch_run
cancel-keeps_settled now s f = elim (Bool-cases (is_terminal s.run.status)) [
  | inl a ↦ rw (a, request_cancel_provider_batch_run) (Frozen-refl s.stored)
  | inr a ↦ elim (Bool-cases (is_waiting s.run.status || is_failed s.run.status)) [
    | inl b ↦
        rw (a, b, request_cancel_provider_batch_run)
          (Keeps-mark s.stored _ _ s (mark_job_canceled-IsMark now) (fresh-Keeps s f))
    | inr b ↦ rw (a, b, request_cancel_provider_batch_run) (fresh-Keeps s f).objects
  ]
]
