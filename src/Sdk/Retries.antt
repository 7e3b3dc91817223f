-- ===== src/Sdk/Retries.antt =====
-- When the client of sdk/client.py tries a request again.
use Prim.Native.Nat.{◌^◌}
use flash_connector.Prelude.{
  ℕ, zero, suc, ◌+◌, ◌-◌, ◌≤◌, String, true, false, ◌&&◌, ◌||◌, not, Option, none, some, ◌≡◌, refl,
  ◌⊎◌, inl, inr, ltb, arith, Bool-cases, is_some, text_append, ap,
}
use flash_connector.Prelude.Dict.{Dict}
use flash_connector.Json.{Json}
use flash_connector.Sdk.{
  Client, Request, Method, post, is_transient, decide, attempts_from, send_request, allowed_retries,
  can_retry_request, url, build_headers,
}
use flash_connector.Sdk.Errors.{Python, Reply}
use flash_connector.Sdk.Requests.{
  Submission, has_messages, submission_payload, submission_request, key_headers, exchange,
  submit_job,
}

module _ {World : Type 0} (pause : ℕ → World → World) (call : World → World × Reply)
    (c : Client) where
  -- Attempts from the one with the number `attempt` on, with `left` more allowed: every reply but the
  -- last is transient, and the last one is not, or no further attempt is allowed. The last arguments
  -- are the world at the end, the number of the last attempt, and its reply.
  pub data Attempts : ℕ → ℕ → World → World → ℕ → Reply → Type 0 where
    stop :
        (left attempt : ℕ) (w : World)
        → (is_transient c (call w).1 ≡ false) ⊎ (left ≡ 0)
        → Attempts left attempt w (call w).0 attempt (call w).1
    again :
        (left attempt k : ℕ) (w w' : World) (reply : Reply)
        → is_transient c (call w).1 ≡ true
        → Attempts left (attempt + 1) (pause (2 ^ (attempt - 1)) (call w).0) w' k reply
        → Attempts (suc left) attempt w w' k reply

  attempts_from-Attempts :
      (py : Python) (q : Request) (left attempt : ℕ) (w : World)
      → (w' : World) × (k : ℕ) × (reply : Reply) × Attempts left attempt w w' k reply
        × (k ≤ attempt + left)
        × (attempts_from pause call py c q (suc left) attempt w ≡ (w', decide py k q reply))
  unfolding attempts_from
  attempts_from-Attempts py q zero attempt w = elim (Bool-cases (is_transient c (call w).1)) [
    | inl t ↦ (
      (call w).0,
      attempt,
      (call w).1,
      stop 0 attempt w (inr refl),
      omega arith,
      rw (t, attempts_from),
    )
    | inr t ↦ (
      (call w).0,
      attempt,
      (call w).1,
      stop 0 attempt w (inr refl),
      omega arith,
      rw (t, attempts_from),
    )
  ]
  attempts_from-Attempts py q (suc left) attempt w = elim (Bool-cases (is_transient c (call w).1)) [
    | inr t ↦ (
      (call w).0,
      attempt,
      (call w).1,
      stop (suc left) attempt w (inl t),
      omega arith,
      rw (t, attempts_from),
    )
    | inl t ↦
        let (w', k, reply, a, b, e) =
          attempts_from-Attempts py q left (attempt + 1) (pause (2 ^ (attempt - 1)) (call w).0) in
        let more : ltb 0 (suc left) ≡ true = ground arith in
        (
          w',
          k,
          reply,
          again left attempt k w w' reply t a,
          omega arith,
          rw (t, more, attempts_from) e,
        )
  ]

  -- What each call and each pause keeps, the attempts keep.
  pub Attempts-keeps {κ} :
      (P : World → Type κ)
      → ((w : World) → P w → P (call w).0)
      → ((n : ℕ) (w : World) → P w → P (pause n w))
      → (left attempt k : ℕ) (w w' : World) (reply : Reply) → Attempts left attempt w w' k reply
      → P w
      → P w'
  Attempts-keeps P f g left attempt k w w' reply (stop _ _ _ _) p = f w p
  Attempts-keeps P f g left attempt k w w' reply (again l _ _ _ _ _ _ a) p =
      Attempts-keeps P f g l (attempt + 1) k (pause (2 ^ (attempt - 1)) (call w).0) w' reply a
        (g _ _ (f w p))

-- What a request of the client comes to: it is tried up to the first reply that is no transport error
-- and has no status to retry on, once if it may not be tried again, and at most one time more than
-- `max_request_retries` if it may; the result is decided by the last reply alone.
pub send_request-Attempts :
    {World : Type 0} (pause : ℕ → World → World)
    (send : Method → String → Dict String → Option (Dict Json) → World → World × Reply)
    (py : Python) (c : Client) (q : Request) (w : World)
    → (w' : World) × (k : ℕ) × (reply : Reply) × Attempts pause
        (send q.method (url c q.path) (build_headers c q.headers) q.json)
        c
        (allowed_retries c q)
        1
        w
        w'
        k
        reply
      × (k ≤ 1 + allowed_retries c q)
      × (send_request pause send py c q w ≡ (w', decide py k q reply))
unfolding send_request
send_request-Attempts pause send py c q w =
    attempts_from-Attempts pause (send q.method (url c q.path) (build_headers c q.headers) q.json) c
      py q (allowed_retries c q) 1 w

attempts_from-one :
    {World : Type 0} (pause : ℕ → World → World) (call : World → World × Reply) (py : Python)
    (c : Client) (q : Request) (w : World)
    → attempts_from pause call py c q 1 1 w ≡ ((call w).0, decide py 1 q (call w).1)
unfolding attempts_from
attempts_from-one pause call py c q w = elim (Bool-cases (is_transient c (call w).1)) [
  | inl t ↦ rw (t, attempts_from)
  | inr t ↦ rw (t, attempts_from)
]

send_request-one :
    {World : Type 0} (pause : ℕ → World → World)
    (send : Method → String → Dict String → Option (Dict Json) → World → World × Reply)
    (py : Python) (c : Client) (q : Request) (w : World)
    → allowed_retries c q ≡ 0
    → (send_request pause send py c q w).0
      ≡ (send q.method (url c q.path) (build_headers c q.headers) q.json w).0
unfolding send_request
send_request-one pause send py c q w e =
    let call = send q.method (url c q.path) (build_headers c q.headers) q.json in
    rw e (ap (λ r. r.0) (attempts_from-one pause call py c q w))

-- A submission without an idempotency key, or with a blank one, makes one HTTP call and no more,
-- whatever comes back, where it makes one at all.
pub submit_job-once :
    {World : Type 0} (pause : ℕ → World → World)
    (send : Method → String → Dict String → Option (Dict Json) → World → World × Reply)
    (py : Python) (c : Client) (endpoint_id : String) (a : Submission) (w : World)
    → key_headers a.idempotency_key ≡ none
    → (is_some a.input_text || has_messages a.messages) ≡ true
    → (submit_job pause send py c endpoint_id a w).0
      ≡ (send post
          (url c (text_append "/v1/endpoints/" (text_append endpoint_id "/jobs")))
          (build_headers c none)
          (some (submission_payload a))
          w).0
unfolding submit_job can_retry_request
submit_job-once pause send py c endpoint_id a w k h =
    let valid : (not (is_some a.input_text) && not (has_messages a.messages)) ≡ false =
      ground arith in
    rw (valid, k, submission_request, exchange) (send_request-one pause send py c _ w refl)
