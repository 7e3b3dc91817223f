-- ===== src/Batches/Lines.antt =====
-- What a submission sends: one line for each job of the run that it leaves queued.
use flash_connector.Prelude.{
  true, ℕ, zero, suc, String, false, none, some, List, [], ◌∷◌, ◌≡◌, refl, sym, ◌∙◌, ap, take,
  select, map, is_nil, Bool-cases, inl, inr, ok, err, Result, Option-cases, Result-cases,
}
use flash_connector.Prelude.Dict.{Dict}
use flash_connector.Json.{Json}
use flash_connector.Jobs.{Job, EndpointVersion, is_queued}
use flash_connector.Batches.{
  Run, Session, BatchStatus, batch_status_from_provider, in_run, list_limit, fail_run, is_terminal,
}
use flash_connector.Batches.Marks.{waits, waits-for_listed, mark_job_failed-IsMark}
use flash_connector.Studio.{find_blocked_phrase, collect_request_text, parse_list_param}
use flash_connector.Batches.Request.{
  Preparer, prepare_batch_request_body, rendered_of, messages_of, metadata_of, system_prompt_of,
  input_payload,
}
use flash_connector.Batches.Submit.{
  Gateway, Prepared, prepare_job, prepare_listed, submit_body, submit_lines, start_submission,
  version_of, text_at, finish, submit_provider_batch_run_task,
}

-- A job that keeps the columns that the listing and the loop read.
abbrev pub KeepsColumns : Job → Job → Type 0
KeepsColumns j j' =
    (j'.id ≡ j.id)
    × (j'.tenant_id ≡ j.tenant_id)
    × (j'.provider_batch_run_id ≡ j.provider_batch_run_id)
    × (j'.status ≡ j.status)

-- What the preparation of a request writes, whatever its answer.
pub prepare_batch_request_body-KeepsColumns :
    (p : Preparer) (run : Run) (v : EndpointVersion) (j : Job)
    → KeepsColumns j (prepare_batch_request_body p run v j).0
unfolding prepare_batch_request_body
prepare_batch_request_body-KeepsColumns p run v j =
    let rendered = rendered_of p v j in
    let messages = messages_of j.request_json in
    let prompt = system_prompt_of p run v j in
    elim (Option-cases (
      find_blocked_phrase p.lower_case (collect_request_text rendered messages)
        (parse_list_param v.params_json "blocked_input_phrases"))) [
          | inr (phrase, b) ↦ rw (b, prepare_batch_request_body) (refl, refl, refl, refl)
          | inl b ↦
              elim (Result-cases (
                p.advisor run j.tenant_id prompt (input_payload messages rendered) v.params_json
                  (metadata_of j.request_json))) [
                    | inr (e, a) ↦ rw (b, a, prepare_batch_request_body) (refl, refl, refl, refl)
                    | inl (d, a) ↦ rw (b, a, prepare_batch_request_body) (refl, refl, refl, refl)
                  ]
        ]

-- The ids of the listed jobs that are queued, in order.
abbrev pub queued_ids : ℕ → Run → List Job → List String
queued_ids n run jobs =
    map (λ j. j.id) (select (λ j. is_queued j.status) (take n (select (in_run run) jobs)))

-- The lines and the jobs of a loop that has raised nothing.
abbrev pub Listed : ℕ → Run → Prepared → Type 0
Listed n run p = p.raised ≡ none → map (λ l. l.0) p.lines ≡ queued_ids n run p.jobs

in_run-KeepsColumns : (run : Run) (j j' : Job) → KeepsColumns j j' → in_run run j' ≡ in_run run j
in_run-KeepsColumns run j j' k = rw (k.1, k.2) refl

-- One round, by what the preparation of its job gave.
prepare_job-Listed :
    (now n : ℕ) (run : Run) (j : Job) (made : Job × Result String (Result String Json))
    (rest : Prepared) (js : List Job)
    → KeepsColumns j made.0
    → in_run run j ≡ true
    → is_queued j.status ≡ true
    → Listed n run rest
    → Listed (suc n) run (prepare_job now made rest js)
prepare_job-Listed now n run j (written, err e) rest js k i q later h = absurd (cc)
prepare_job-Listed now n run j (written, ok (ok body)) rest js k i q later h =
    let listed : in_run run written ≡ true = in_run-KeepsColumns run j written k ∙ i in
    let queued : is_queued written.status ≡ true = ap is_queued k.3 ∙ q in
    rw listed (rw queued (ap (λ l. written.id ∷ l) (later h)))
prepare_job-Listed now n run j (written, ok (err message)) rest js k i q later h =
    let listed : in_run run written ≡ true = in_run-KeepsColumns run j written k ∙ i in
    rw listed (later h)

-- Where the loop that prepares the requests raises nothing, its lines are those of the listed jobs
-- that it leaves queued, in their order.
pub prepare_listed-lines :
    (g : Gateway) (run : Run) (v : EndpointVersion) (n : ℕ) (jobs : List Job)
    → (prepare_listed n g run v jobs).raised ≡ none
    → map (λ l. l.0) (prepare_listed n g run v jobs).lines
      ≡ queued_ids n run (prepare_listed n g run v jobs).jobs
unfolding prepare_listed
prepare_listed-lines g run v zero jobs h = refl
prepare_listed-lines g run v (suc n) [] h = refl
prepare_listed-lines g run v (suc n) (j ∷ js) h = elim (Bool-cases (in_run run j)) [
  | inr i ↦ rw i (rw i (prepare_listed-lines g run v (suc n) js (rw (i, prepare_listed) at h)))
  | inl i ↦ elim (Bool-cases (is_queued j.status)) [
    | inr q ↦
        rw (i, q) (rw (i, q) (prepare_listed-lines g run v n js (rw (i, q, prepare_listed) at h)))
    | inl q ↦
        let made = prepare_batch_request_body g.preparer run v j in
        let kept = prepare_batch_request_body-KeepsColumns g.preparer run v j in
        let step =
          prepare_job-Listed g.now n run j made (prepare_listed n g run v js) js kept i q
            (prepare_listed-lines g run v n js) in
        rw (i, q) (step (rw (i, q, prepare_listed) at h))
  ]
]

-- The exception handler of a task settles the jobs of a run that has not ended.
fail_run-settles :
    (now : ℕ) (prefix exc : String) (s : Session)
    → is_terminal s.run.status ≡ false
    → let s' = fail_run now prefix exc s in
      (s'.stored_run.status ≡ BatchStatus.failed)
      × (s'.stored_run.error ≡ some exc)
      × (waits list_limit s.run s'.stored ≡ false)
unfolding fail_run
fail_run-settles now prefix exc s t =
    rw (t, fail_run)
      (refl, refl, waits-for_listed _ _ (mark_job_failed-IsMark now _) list_limit s.jobs)

-- A submission that raises while its run has not ended, for whatever reason, the queue that refuses
-- the next poll included, stores the run as failed with the text of the exception, and leaves no
-- listed job queued.
pub submit_raises :
    (g : Gateway) (s : Session) (exc : String)
    → (submit_body g s).1 ≡ some exc
    → is_terminal (submit_body g s).0.run.status ≡ false
    → let s' = submit_provider_batch_run_task g s in
      (s'.stored_run.status ≡ BatchStatus.failed)
      × (s'.stored_run.error ≡ some exc)
      × (waits list_limit (submit_body g s).0.run s'.stored ≡ false)
unfolding submit_provider_batch_run_task
submit_raises g s exc e t =
    rw (e, finish) (fail_run-settles g.now "Batch submission failed: " exc (submit_body g s).0 t)

-- What a submission that goes through leaves: the run with the provider's ids and status.
submit_lines-sends :
    (g : Gateway) (v : EndpointVersion) (s : Session) (file batch_id : String) (payload : Dict Json)
    → let p = prepare_listed list_limit g s.run v s.jobs in
      p.raised ≡ none
      → is_nil p.lines ≡ false
      → g.upload s.run p.lines ≡ ok file
      → g.create s.run file ≡ ok (batch_id, payload)
      → g.enqueue ≡ ok tt
      → let (s', raised) = submit_lines g v s in
        (raised ≡ none)
        × (s'.stored_run.provider_batch_id ≡ some batch_id)
        × (s'.stored_run.status ≡ batch_status_from_provider (text_at "status" payload))
        × (s'.stored ≡ p.jobs)
        × (s'.polls ≡ (s.run.id, 0) ∷ s.polls)
unfolding submit_lines
submit_lines-sends g v s file batch_id payload a b c d e =
    rw (a, b, c, d, e, submit_lines) (refl, refl, refl, refl, refl)

submit_body-sent :
    (g : Gateway) (s : Session) (v : EndpointVersion)
    → is_terminal s.run.status ≡ false
    → s.run.cancel_requested ≡ false
    → version_of g.versions s.run ≡ some v
    → g.connect s.run ≡ ok tt
    → submit_body g s ≡ submit_lines g v (start_submission g s)
unfolding submit_body
submit_body-sent g s v t n w x = simp (t, n, w, x, submit_body)

-- Where the run has not ended and no cancellation is asked for, its version is there, the credentials serve, every request is prepared without
-- an exception and leaves some job to send, and the provider and the queue accept: the run stored has
-- the provider's batch id and status, one poll is queued as attempt 0, and the lines uploaded are those
-- of the listed jobs that are stored as queued, in their order.
pub submit-sends :
    (g : Gateway) (s : Session) (v : EndpointVersion) (file batch_id : String) (payload : Dict Json)
    → is_terminal s.run.status ≡ false
    → s.run.cancel_requested ≡ false
    → version_of g.versions s.run ≡ some v
    → g.connect s.run ≡ ok tt
    → let run = (start_submission g s).run in
      let p = prepare_listed list_limit g run v s.jobs in
      p.raised ≡ none
      → is_nil p.lines ≡ false
      → g.upload run p.lines ≡ ok file
      → g.create run file ≡ ok (batch_id, payload)
      → g.enqueue ≡ ok tt
      → let s' = submit_provider_batch_run_task g s in
        (s'.stored_run.provider_batch_id ≡ some batch_id)
        × (s'.stored_run.status ≡ batch_status_from_provider (text_at "status" payload))
        × (s'.polls ≡ (s.run.id, 0) ∷ s.polls)
        × (map (λ l. l.0) p.lines ≡ queued_ids list_limit s.run s'.stored)
unfolding submit_provider_batch_run_task start_submission
submit-sends g s v file batch_id payload t n w x a b c d e =
    let started = start_submission g s in
    let h = submit_lines-sends g v started file batch_id payload a b c d e in
    rw (submit_body-sent g s v t n w x) (
      rw (h.0, finish)
        (
          h.1,
          h.2,
          h.4,
          prepare_listed-lines g started.run v list_limit s.jobs a
              ∙ ap (queued_ids list_limit started.run) (sym h.3),
        ))
