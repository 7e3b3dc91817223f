-- ===== src/PublicApi/Polls.antt =====
-- The polls that the reading of a batch puts into the queue, by api/app/routers/public.py.
use flash_connector.Prelude.{
  ℕ, ◌+◌, ◌<◌, String, true, false, none, ◌∷◌, ltb, if◌then◌else◌, ◌≡◌, refl, arith, Result,
  Result-cases, Bool-cases, inl, inr,
}
use flash_connector.Batches.{Session, is_terminal}
use flash_connector.PublicApi.BatchRequests.{is_early, queue_batch_poll_if_due}

-- Where the time for the next poll of a batch is not in the future, and a read of it raises nothing, the
-- read puts one poll of attempt 0 into the queue if the run has not ended, and none if it has; a second
-- read before the interval is over changes nothing.
pub queue_batch_poll_if_due-once :
    (enqueue enqueue' : Result String Unit) (interval now now' : ℕ) (s : Session)
    → (queue_batch_poll_if_due enqueue interval now s).1 ≡ none
    → (now' < now + interval)
    → is_early now s.run.next_poll_at ≡ false
    → let s' = (queue_batch_poll_if_due enqueue interval now s).0 in
      ((queue_batch_poll_if_due enqueue' interval now' s').0 ≡ s')
      × (s'.polls ≡ (if is_terminal s.run.status then s.polls else (s.run.id, 0) ∷ s.polls))
unfolding queue_batch_poll_if_due
queue_batch_poll_if_due-once enqueue enqueue' interval now now' s h b e =
    elim (Bool-cases (is_terminal s.run.status)) [
      | inl t ↦ simp (t, queue_batch_poll_if_due) (refl, refl)
      | inr t ↦ elim (Result-cases enqueue) [
        | inr (x, q) ↦ absurd (cc (simp (t, e, q, queue_batch_poll_if_due) at h))
        | inl (_, q) ↦
            let early : ltb now' (now + interval) ≡ true = ground arith in
            simp (t, e, q, early, queue_batch_poll_if_due) (refl, refl)
      ]
    ]
