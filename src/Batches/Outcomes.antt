-- ===== src/Batches/Outcomes.antt =====
-- What a poll leaves behind: a run that has ended with its jobs settled, or one more poll in the queue.
mod Reading
use Reading.{Same, Same-read_output}
use mathlib.Core.Path.{ap₂}
use flash_connector.Prelude.{
  ℕ, ◌+◌, ◌<◌, max, String, Bool, true, false, Option, none, some, ◌∷◌, ◌≡◌, refl, ap, sym, ◌∙◌,
  arith, if◌then◌else◌, leb, lt→leb_false, List, any, take, select, ◌==◌, ◌&&◌, Bool-cases, inl,
  inr, Result, ok, err, ◌||◌,
}
use flash_connector.Prelude.Dict.{Dict}
use flash_connector.Json.{Json}
use flash_connector.Jobs.{Job, EndpointVersion, is_queued, holds}
use flash_connector.Batches.{
  Run, Session, BatchStatus, batch_status_from_provider, is_terminal, list_limit, fail_run,
  for_listed,
}
use flash_connector.Batches.Submit.{text_at, version_of, finish}
use flash_connector.Batches.Marks.{
  waits, waits-for_listed, mark_job_failed-IsMark, mark_job_canceled-IsMark,
}
use flash_connector.Batches.Poll.{
  Provider, is_canceled, batch_id_of, record_answer, read_output, settle_remaining, end_poll,
  apply_answer, poll_batch, poll_body, poll_provider_batch_run_task,
}

-- A poll that reaches the provider: the run goes on, has a batch there, the attempts last, and the
-- provider answers `payload`.
pub record Reaches (p : Provider) (attempt : ℕ) (s : Session) (batch_id : String)
    (payload : Dict Json) : Type 0 where
  pub live : is_terminal s.run.status ≡ false
  pub has_batch : batch_id_of s.run ≡ some batch_id
  pub in_time : attempt < max 1 p.max_poll_attempts
  pub connected : p.connect s.run ≡ ok tt
  pub answered : p.retrieve batch_id s.run.cancel_requested ≡ ok payload

poll_body-answer :
    (p : Provider) (attempt : ℕ) (s : Session) (batch_id : String) (payload : Dict Json)
    → Reaches p attempt s batch_id payload
    → poll_body p attempt s ≡ apply_answer p attempt payload s
unfolding poll_body
poll_body-answer p attempt s batch_id payload r = rw (
  r.live,
  r.has_batch,
  lt→leb_false (max 1 p.max_poll_attempts) attempt r.in_time,
  r.connected,
  r.answered,
  poll_body,
  poll_batch,
)

-- The listing selects by the id and the tenant of the run alone.
waits-run :
    (n : ℕ) (a b : Run) (jobs : List Job)
    → a.id ≡ b.id
    → a.tenant_id ≡ b.tenant_id
    → waits n a jobs ≡ waits n b jobs
waits-run n a b jobs ei et = λ i.
    any (λ j. is_queued j.status)
      (take n (select (λ j. (j.tenant_id == et i) && holds j.provider_batch_run_id (ei i)) jobs))

module _ (now : ℕ) (s : Session) where
  status-settle_remaining : (settle_remaining now s).run.status ≡ s.run.status
  unfolding settle_remaining
  status-settle_remaining = ground arith

  polls-settle_remaining : (settle_remaining now s).polls ≡ s.polls
  unfolding settle_remaining
  polls-settle_remaining = ground arith

  waits-settle_remaining :
      is_terminal s.run.status ≡ true → waits list_limit s.run (settle_remaining now s).jobs ≡ false
  unfolding settle_remaining
  waits-settle_remaining t =
      elim (Bool-cases (is_canceled s.run.status || s.run.cancel_requested)) [
        | inl c ↦
            rw (t, c, settle_remaining)
              (waits-for_listed s.run _ (mark_job_canceled-IsMark now) list_limit s.jobs)
        | inr c ↦
            rw (t, c, settle_remaining)
              (waits-for_listed s.run _
                (mark_job_failed-IsMark now "No result returned for this batch item") list_limit
                s.jobs)
      ]

-- How a poll closes, by the status of its run.
end_poll-ended :
    (p : Provider) (attempt : ℕ) (s : Session)
    → is_terminal s.run.status ≡ true
    → let (s', raised) = end_poll p attempt s in
      (raised ≡ none)
      × (s'.stored_run.status ≡ s.run.status)
      × (s'.stored ≡ s.jobs)
      × (s'.stored_run.next_poll_at ≡ none)
      × (s'.polls ≡ s.polls)
unfolding end_poll
end_poll-ended p attempt s t = rw (t, end_poll) (refl, refl, refl, refl, refl)

-- The session that the answer is applied to, up to the counting.
abbrev pub settled : Provider → EndpointVersion → Dict Json → Session → Session
settled p version payload s =
    settle_remaining p.reader.now (read_output p version (record_answer p.reader.now payload s))

answer_status :
    (p : Provider) (version : EndpointVersion) (payload : Dict Json) (s : Session)
    → (settled p version payload s).run.status
      ≡ batch_status_from_provider (text_at "status" payload)
unfolding record_answer
answer_status p version payload s =
    let answered = record_answer p.reader.now payload s in
    status-settle_remaining p.reader.now (read_output p version answered)
    ∙ (Same-read_output p version answered).status

answer_polls :
    (p : Provider) (version : EndpointVersion) (payload : Dict Json) (s : Session)
    → (settled p version payload s).polls ≡ s.polls
unfolding record_answer
answer_polls p version payload s =
    let answered = record_answer p.reader.now payload s in
    polls-settle_remaining p.reader.now (read_output p version answered)
    ∙ (Same-read_output p version answered).polls

answer_waits :
    (p : Provider) (version : EndpointVersion) (payload : Dict Json) (s : Session)
    → is_terminal (batch_status_from_provider (text_at "status" payload)) ≡ true
    → waits list_limit s.run (settled p version payload s).jobs ≡ false
unfolding record_answer
answer_waits p version payload s t =
    let answered = record_answer p.reader.now payload s in
    let same = Same-read_output p version answered in
    let out = read_output p version answered in
    waits-run list_limit s.run out.run (settled p version payload s).jobs (sym same.id)
      (sym same.tenant)
    ∙ waits-settle_remaining p.reader.now out (rw same.status t)

-- A poll of a live run, within the limit of attempts, that reaches the provider and gets its answer, and
-- whose endpoint version is found, where the answer says that the batch has ended: it stores a run with
-- that status, no listed job queued and no time for a next poll, and puts no poll into the queue.
pub poll-ended :
    (p : Provider) (attempt : ℕ) (s : Session) (batch_id : String) (payload : Dict Json)
    (version : EndpointVersion)
    → Reaches p attempt s batch_id payload
    → version_of p.versions s.run ≡ some version
    → is_terminal (batch_status_from_provider (text_at "status" payload)) ≡ true
    → let s' = poll_provider_batch_run_task p attempt s in
      (s'.stored_run.status ≡ batch_status_from_provider (text_at "status" payload))
      × (waits list_limit s.run s'.stored ≡ false)
      × (s'.stored_run.next_poll_at ≡ none)
      × (s'.polls ≡ s.polls)
unfolding poll_provider_batch_run_task
poll-ended p attempt s batch_id payload version r v t =
    let e = answer_status p version payload s in
    let h = end_poll-ended p attempt (settled p version payload s) (rw e t) in
    rw (poll_body-answer p attempt s batch_id payload r) (
      rw (v, apply_answer)
        (rw (h.0, finish)
          (
            h.1 ∙ e,
            rw h.2 (answer_waits p version payload s t),
            h.3,
            h.4 ∙ answer_polls p version payload s,
          )))

-- How a poll goes on, by the status of its run and the queue.
end_poll-goes_on :
    (p : Provider) (attempt : ℕ) (s : Session)
    → is_terminal s.run.status ≡ false
    → p.enqueue ≡ ok tt
    → let (s', raised) = end_poll p attempt s in
      (raised ≡ none)
      × (s'.stored_run.status ≡ s.run.status)
      × (s'.stored_run.next_poll_at ≡ some (p.reader.now + p.poll_interval))
      × (s'.polls ≡ (s.run.id, attempt + 1) ∷ s.polls)
unfolding end_poll
end_poll-goes_on p attempt s t q = rw (t, q, end_poll) (refl, refl, refl, refl)

id-settle_remaining : (now : ℕ) (s : Session) → (settle_remaining now s).run.id ≡ s.run.id
unfolding settle_remaining
id-settle_remaining now s = ground arith

-- A poll of a live run, within the limit of attempts, that reaches the provider and gets its answer, and
-- whose endpoint version is found, where the answer says that the batch goes on and the queue accepts: it
-- stores that status and the time of the next poll, and puts exactly one poll of this run into the
-- queue, as the next attempt.
pub poll-goes_on :
    (p : Provider) (attempt : ℕ) (s : Session) (batch_id : String) (payload : Dict Json)
    (version : EndpointVersion)
    → Reaches p attempt s batch_id payload
    → version_of p.versions s.run ≡ some version
    → is_terminal (batch_status_from_provider (text_at "status" payload)) ≡ false
    → p.enqueue ≡ ok tt
    → let s' = poll_provider_batch_run_task p attempt s in
      (s'.stored_run.status ≡ batch_status_from_provider (text_at "status" payload))
      × (s'.stored_run.next_poll_at ≡ some (p.reader.now + p.poll_interval))
      × (s'.polls ≡ (s.run.id, attempt + 1) ∷ s.polls)
unfolding poll_provider_batch_run_task
poll-goes_on p attempt s batch_id payload version r v t q =
    let e = answer_status p version payload s in
    let answered = record_answer p.reader.now payload s in
    let i : (settled p version payload s).run.id ≡ s.run.id =
      id-settle_remaining p.reader.now (read_output p version answered)
      ∙ (unfold record_answer in (Same-read_output p version answered).id) in
    let h = end_poll-goes_on p attempt (settled p version payload s) (rw e t) q in
    rw (poll_body-answer p attempt s batch_id payload r) (
      rw (v, apply_answer)
        (rw (h.0, finish)
          (
            h.1 ∙ e,
            h.2,
            h.3 ∙ ap₂ (λ x y. (x, attempt + 1) ∷ y) i (answer_polls p version payload s),
          )))
