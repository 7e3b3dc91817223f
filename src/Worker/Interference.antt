-- ===== src/Worker/Interference.antt =====
-- How a run of a job ends, whatever other sessions write while it runs.
use flash_connector.Prelude.{
  Bool, true, false, ◌||◌, Option, none, some, ◌≡◌, refl, ◌∙◌, if◌then◌else◌, Option-cases,
  Bool-cases, ok, Result-cases, String, is_some, inl, inr,
}
use flash_connector.Jobs.{Job, JobStatus, EndpointVersion, is_settled, is_running}
use flash_connector.Worker.{
  start_job, serves, run_uncached, run_cached, run_version, process_job, reuse_job, save_completed,
}
use flash_connector.Worker.Routes.{
  Services, Others, Outcome, mark_job_failed, is_canceled, is_completed, try_routes, run_routes,
  after_completion,
}

-- What a run comes to: without an exception the job is settled; with one it is still running, or it is
-- completed; and it is canceled only if `requested`.
pub record Ends (requested : Bool) (result : Outcome) : Type 0 where
  pub settles : result.1 ≡ none → is_settled result.0.status ≡ true
  pub stays :
      is_some result.1 ≡ true → (is_running result.0.status || is_completed result.0.status) ≡ true
  pub cancels : is_canceled result.0.status ≡ true → requested ≡ true

failed-Ends :
    {requested : Bool} (row : Job) → row.status ≡ JobStatus.failed → Ends requested (row, none)
failed-Ends row e = record {
  settles = λ _. rw e;
  stays = λ h. absurd (cc);
  cancels = λ h. absurd (cc (rw e at h));
}

running-Ends :
    {requested : Bool} (row : Job) (exc : String)
    → row.status ≡ JobStatus.running
    → Ends requested (row, some exc)
running-Ends row exc e = record {
  settles = λ h. absurd (cc);
  stays = λ _. rw e;
  cancels = λ h. absurd (cc (rw e at h));
}

completed-Ends :
    {requested : Bool} (row : Job) (exc : Option String)
    → row.status ≡ JobStatus.completed
    → Ends requested (row, exc)
completed-Ends row exc e = record {
  settles = λ _. rw e;
  stays = λ _. rw e;
  cancels = λ h. absurd (cc (rw e at h));
}

canceled-Ends :
    {requested : Bool} (row : Job)
    → requested ≡ true
    → row.status ≡ JobStatus.canceled
    → Ends requested (row, none)
canceled-Ends row r e = record { settles = λ _. rw e; stays = λ h. absurd (cc); cancels = λ _. r }

module _ (sv : Services) (version : EndpointVersion) where
  after_completion-Ends :
      {requested : Bool} (row : Job)
      → row.status ≡ (if requested then JobStatus.canceled else JobStatus.completed)
      → Ends requested (after_completion sv version row, none)
  unfolding after_completion
  after_completion-Ends {requested} row e = elim (Bool-cases requested) [
    | inl r ↦
        let c : row.status ≡ JobStatus.canceled = rw (e, r) in
        simp (c, after_completion) (canceled-Ends row r c)
    | inr r ↦
        let c : row.status ≡ JobStatus.completed = rw (e, r) in
        elim (Result-cases (if sv.caches version then sv.remember row else ok tt)) [
          | inr (exc, m) ↦
              simp (c, m, after_completion) (failed-Ends (mark_job_failed sv.now exc row) refl)
          | inl (_, m) ↦ elim (Result-cases (sv.save row)) [
            | inr (exc, t) ↦
                simp (c, m, t, after_completion) (failed-Ends (mark_job_failed sv.now exc row) refl)
            | inl (_, t) ↦ simp (c, m, t, after_completion) (completed-Ends row none c)
          ]
        ]
  ]

  save_completed-Ends :
      {requested : Bool} (row : Job)
      → row.status ≡ (if requested then JobStatus.canceled else JobStatus.completed)
      → Ends requested (save_completed sv row)
  unfolding save_completed
  save_completed-Ends {requested} row e = elim (Bool-cases requested) [
    | inl r ↦
        let c : row.status ≡ JobStatus.canceled = rw (e, r) in
        simp (c, save_completed) (canceled-Ends row r c)
    | inr r ↦
        let c : row.status ≡ JobStatus.completed = rw (e, r) in
        elim (Result-cases (sv.save row)) [
          | inr (exc, t) ↦ simp (c, t, save_completed) (completed-Ends row (some exc) c)
          | inl (_, t) ↦ simp (c, t, save_completed) (completed-Ends row none c)
        ]
  ]

module _ (sv : Services) (during : Job → Job) (version : EndpointVersion) (job : Job) where
  run_routes-Ends : Ends job.cancel_requested (run_routes sv during version job, none)
  unfolding run_routes
  run_routes-Ends = elim (Result-cases (sv.routes version job)) [
    | inr (exc, a) ↦ rw (a, run_routes) (failed-Ends _ refl)
    | inl (routes, a) ↦ elim (Option-cases (try_routes sv version job routes).selected) [
      | inl b ↦ rw (a, b, run_routes) (failed-Ends _ refl)
      | inr ((route, answer), b) ↦ rw (a, b, run_routes) (after_completion-Ends sv version _ refl)
    ]
  ]

  run_uncached-Ends :
      ((during job).status ≡ JobStatus.running)
      → Ends job.cancel_requested (run_uncached sv during version job)
  unfolding run_uncached
  run_uncached-Ends k = elim (Result-cases (sv.blocked_input version job)) [
    | inr (exc, a) ↦ rw (a, run_uncached) (running-Ends _ exc k)
    | inl (found, a) ↦ elim (Option-cases found) [
      | inl b ↦ rw (a, b, run_uncached) run_routes-Ends
      | inr (phrase, b) ↦ rw (a, b, run_uncached) (failed-Ends _ refl)
    ]
  ]

  run_cached-Ends : (source : Job) → Ends job.cancel_requested (run_cached sv during job source)
  unfolding run_cached reuse_job
  run_cached-Ends source = save_completed-Ends sv version _ refl

module _ (sv : Services) (during : Job → Job) (version : EndpointVersion) where
  run_version-Ends :
      (job : Job)
      → ((j : Job) → (during j).status ≡ j.status)
      → job.status ≡ JobStatus.running
      → Ends job.cancel_requested (run_version sv during version job)
  unfolding run_version
  run_version-Ends job k e = elim (Result-cases (sv.render version job)) [
    | inr (exc, a) ↦ rw (a, run_version) (running-Ends _ exc (k job ∙ e))
    | inl ((hash, request), a) ↦
        let job' = record job { request_hash = some hash; request_json = request } in
        elim (Result-cases (if sv.caches version then sv.cached version job' else ok none)) [
          | inr (exc, b) ↦ rw (a, b, run_version) (running-Ends _ exc (k job' ∙ e))
          | inl (found, b) ↦ elim (Option-cases found) [
            | inl f ↦
                rw (a, b, f, run_version) (run_uncached-Ends sv during version job' (k job' ∙ e))
            | inr (source, f) ↦ elim (Bool-cases (serves source)) [
              | inl g ↦ rw (a, b, f, g, run_version) (run_cached-Ends sv during version job' source)
              | inr g ↦
                  rw (a, b, f, g, run_version)
                    (run_uncached-Ends sv during version job' (k job' ∙ e))
            ]
          ]
        ]
  ]

-- The end of a run of a job that is not canceled when the worker loads it, where other sessions leave
-- its status as it is while it runs: without an exception the job is completed, failed or canceled; with
-- one it stays running, or it is completed; and it is canceled only if `cancel_requested` was set
-- already when the run started: a request that comes during the run does not cancel it.
pub process_job-Ends :
    (sv : Services) (o : Others) (job : Job)
    → is_canceled job.status ≡ false
    → ((j : Job) → (o.during j).status ≡ j.status)
    → Ends (o.before_start job).cancel_requested (process_job sv o job)
unfolding process_job
process_job-Ends sv o job c k =
    let started = start_job sv.now o job in
    elim (Result-cases (sv.version started)) [
      | inr (exc, a) ↦ simp (c, a, process_job) (running-Ends (o.during started) exc (k started))
      | inl (found, a) ↦ elim (Option-cases found) [
        | inl f ↦ simp (c, a, f, process_job) (failed-Ends _ refl)
        | inr (version, f) ↦
            simp (c, a, f, process_job) (run_version-Ends sv o.during version started k refl)
      ]
    ]
