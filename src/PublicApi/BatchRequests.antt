-- ===== src/PublicApi/BatchRequests.antt =====
-- api/app/routers/public.py: the requests on batches, and the polls that they put into the queue.
use flash_connector.Prelude.{
  ℕ, ◌+◌, String, Bool, false, ◌&&◌, not, Option, none, some, List, [], ◌∷◌, find, ◌==◌, ltb,
  is_some, if◌then◌else◌, Result, ok, err,
}
use flash_connector.Jobs.{Job, Endpoint, EndpointVersion}
use flash_connector.Batches.{Run, Session, is_terminal, commit}
use flash_connector.Batches.Poll.{batch_id_of}
use flash_connector.Batches.Cancel.{
  Origin, BatchRequest, Runtime, create_provider_batch_run, request_cancel_provider_batch_run,
}
use flash_connector.PublicApi.{
  Site, Store, ApiKeyContext, Refused, refuse, admit, key_allows_endpoint,
}

-- The session of a request on one run; its polls and the submissions are what is in the queue.
abbrev pub open_session : Run → List Job → List (String × ℕ) → Session
open_session run jobs polls = record {
  stored_run = run;
  stored = jobs;
  run = run;
  jobs = jobs;
  polls = polls;
  events = [];
}

-- `next_poll_at is not None and next_poll_at > now`
abbrev pub is_early : ℕ → Option ℕ → Bool
is_early now none = false
is_early now (some t) = ltb now t

-- `_queue_batch_poll_if_due`, with the exception of the queue.
unfoldable pub queue_batch_poll_if_due :
    Result String Unit → ℕ → ℕ → Session → Session × Option String
queue_batch_poll_if_due enqueue interval now s =
    if is_terminal s.run.status
    then (s, none)
    else if is_early now s.run.next_poll_at
    then (s, none)
    else elim enqueue [
      | err e ↦ (s, some e)
      | ok _ ↦ (
        commit (record s {
          polls = (s.run.id, 0) ∷ s.polls;
          run = record (s.run) { next_poll_at = some (now + interval) };
        }),
        none,
      )
    ]

unfoldable pub get_provider_batch_for_tenant : List Run → String → String → Option Run
get_provider_batch_for_tenant db tenant_id batch_id =
    find (λ r. (r.id == batch_id) && (r.tenant_id == tenant_id)) db

-- The run that both requests below act on.
unfoldable pub find_batch : ApiKeyContext → String → List Run → Result Refused Run
find_batch ctx batch_id runs = elim (get_provider_batch_for_tenant runs ctx.tenant_id batch_id) [
  | none ↦ err (refuse 404 "Batch not found")
  | some run ↦
      if key_allows_endpoint ctx run.endpoint_id
      then ok run
      else err (refuse 403 "API key scope does not allow this batch")
]

-- `get_batch`: the answer, and the session that it leaves, of the run that was found.
unfoldable pub get_batch :
    Result String Unit
    → ℕ
    → ℕ
    → ApiKeyContext
    → String
    → List Run
    → List Job
    → List (String × ℕ)
    → Result Refused (Run × Session)
unfolding find_batch queue_batch_poll_if_due
get_batch enqueue interval now ctx batch_id runs jobs polls = elim (find_batch ctx batch_id runs) [
  | err e ↦ err e
  | ok run ↦
      let (s, raised) =
        queue_batch_poll_if_due enqueue interval now (open_session run jobs polls) in
      elim raised [ some e ↦ err (refuse 500 e) | none ↦ ok (s.run, s) ]
]

-- After the cancellation is committed a poll of attempt 0 is put into the queue.
unfoldable pub cancel_batch :
    Result String Unit
    → ℕ
    → ApiKeyContext
    → String
    → List Run
    → List Job
    → List (String × ℕ)
    → Result Refused Run × Option Session
unfolding find_batch
cancel_batch enqueue now ctx batch_id runs jobs polls = elim (find_batch ctx batch_id runs) [
  | err e ↦ (err e, none)
  | ok run ↦
      let s = request_cancel_provider_batch_run now (open_session run jobs polls) in
      if is_some (batch_id_of s.run) && not (is_terminal s.run.status)
      then elim enqueue [
        | err e ↦ (err (refuse 500 e), some s)
        | ok _ ↦ (ok s.run, some (record s { polls = (s.run.id, 0) ∷ s.polls }))
      ]
      else (ok s.run, some s)
]

-- `submit_batch`: the request, with the runtime that is resolved for it, or the text of the
-- `RuntimeError`; the answer, the session after it, and the submissions in the queue.
unfoldable pub submit_batch :
    Site
    → ApiKeyContext
    → String
    → BatchRequest
    → (Endpoint → EndpointVersion → Origin)
    → (Endpoint → EndpointVersion → Result String Runtime)
    → Store
    → List String
    → Result Refused Run × Store × Option Session × List String
unfolding admit
submit_batch site ctx endpoint_id payload origin resolve s submissions =
    let (checked, limiter) = admit site ctx endpoint_id s.limiter in
    let counted = record s { limiter = limiter } in
    elim checked [
      | err e ↦ (err e, counted, none, submissions)
      | ok (endpoint, version) ↦ elim (resolve endpoint version) [
        | err e ↦ (err (refuse 400 e), counted, none, submissions)
        | ok runtime ↦
            let created =
              create_provider_batch_run (origin endpoint version) payload runtime s.jobs in
            let stored = record counted { jobs = created.stored } in
            elim site.enqueue [
              | err e ↦ (err (refuse 500 e), stored, some created, submissions)
              | ok _ ↦ (ok created.run, stored, some created, created.run.id ∷ submissions)
            ]
      ]
    ]
