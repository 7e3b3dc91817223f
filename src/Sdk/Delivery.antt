-- ===== src/Sdk/Delivery.antt =====
-- The client of sdk/client.py and the API of api/app/routers/public.py together, over a network that
-- loses requests and replies.
use flash_connector.Prelude.{
  String, Bool, true, Option, some, List, [], ◌∷◌, ◌++◌, ◌≡◌, refl, ◌∙◌, ap, ◌⊎◌, inl, inr, Result,
  ok, if◌then◌else◌, Bool-cases, not, ◌&&◌, is_some,
}
use flash_connector.Prelude.Dict.{Dict, lookup}
use flash_connector.Json.{Json}
use flash_connector.Jobs.{Job, JobCreateRequest}
use flash_connector.PublicApi
use flash_connector.PublicApi.{Site, Store, ApiKeyContext, Refused, normalize_key}
use flash_connector.PublicApi.Queueing.{Queues, placed, request_scope, submit_job-Queues}
use flash_connector.Sdk.{Client, Request, Method, send_request, allowed_retries, build_headers, url}
use flash_connector.Sdk.Errors.{Python, Reply, Response, replied, broken}
use flash_connector.Sdk.Requests.{
  Submission, has_messages, submit_job, submission_request, key_headers, exchange,
}
use flash_connector.Sdk.Retries.{Attempts-keeps, send_request-Attempts}

-- One delivery: whether the request reaches the server, as the server is then, and whether its answer
-- comes back.
pub record Leg : Type 0 where
  pub site : Site
  pub reaches : Bool
  pub answers : Bool

pub record Network : Type 0 where
  pub store : Store
  pub legs : List Leg

-- The call of the HTTP client, where the server answers the path of `submit_job`: the server reads the
-- key from the headers, and `read` and `render` turn the body into a request and the answer into a
-- response.
module _ (ctx : ApiKeyContext) (endpoint_id : String) (read : Option (Dict Json) → JobCreateRequest)
    (render : Result Refused Job → Response) where
  abbrev pub deliver_next : Dict String → Option (Dict Json) → List Leg → Store → Network × Reply
  deliver_next headers body [] store = (record { store = store; legs = [] }, broken "closed")
  deliver_next headers body (leg ∷ legs) store =
      if leg.reaches
      then (let (answer, store') =
            PublicApi.submit_job leg.site ctx endpoint_id (read body)
              (lookup "Idempotency-Key" headers) store in
          (
            record { store = store'; legs = legs },
            if leg.answers then replied (render answer) else broken "lost",
          ))
      else (record { store = store; legs = legs }, broken "unreachable")

  abbrev pub deliver :
      Method → String → Dict String → Option (Dict Json) → Network → Network × Reply
  deliver method path headers body n = deliver_next headers body n.legs n.store

-- The queue is as it was, or has one entry more, and then a row has the key.
abbrev pub OneMore : ApiKeyContext → String → String → List String → Store → Type 0
OneMore ctx endpoint_id k queue s =
    (s.queue ≡ queue)
    ⊎ ((id : String) × (s.queue ≡ queue ++ id ∷ [])
        × (placed (request_scope ctx endpoint_id k) s ≡ true))

OneMore-Queues :
    (ctx : ApiKeyContext) (endpoint_id k : String) (queue : List String) (s s' : Store)
    → Queues (request_scope ctx endpoint_id k) s s'
    → OneMore ctx endpoint_id k queue s
    → OneMore ctx endpoint_id k queue s'
OneMore-Queues ctx endpoint_id k queue s s' (inl (q, p)) (inl e) = inl (q ∙ e)
OneMore-Queues ctx endpoint_id k queue s s' (inl (q, p)) (inr (id, e, h)) = inr (id, q ∙ e, p h)
OneMore-Queues ctx endpoint_id k queue s s' (inr (job, n, q, p)) (inl e) =
    inr (job.id, q ∙ ap (λ l. l ++ job.id ∷ []) e, ap is_some p)
OneMore-Queues ctx endpoint_id k queue s s' (inr (job, n, q, p)) (inr (id', e, h)) = absurd (cc)

module _ (ctx : ApiKeyContext) (endpoint_id k : String)
    (read : Option (Dict Json) → JobCreateRequest) (render : Result Refused Job → Response)
    (queue : List String) where
  deliver_next-OneMore :
      (headers : Dict String) (body : Option (Dict Json))
      → normalize_key (lookup "Idempotency-Key" headers) ≡ ok (some k)
      → (legs : List Leg) (s : Store) → OneMore ctx endpoint_id k queue s
      → OneMore ctx endpoint_id k queue
          (deliver_next ctx endpoint_id read render headers body legs s).0.store
  deliver_next-OneMore headers body key [] s h = h
  deliver_next-OneMore headers body key (leg ∷ legs) s h = elim (Bool-cases leg.reaches) [
    | inr r ↦ rw r h
    | inl r ↦ rw r (
        OneMore-Queues ctx endpoint_id k queue s
          (PublicApi.submit_job leg.site ctx endpoint_id (read body)
            (lookup "Idempotency-Key" headers) s).1
          (submit_job-Queues leg.site ctx endpoint_id k (lookup "Idempotency-Key" headers)
            (read body) s key)
          h)
  ]

send_request-OneMore :
    (ctx : ApiKeyContext) (endpoint_id k key : String)
    (read : Option (Dict Json) → JobCreateRequest) (render : Result Refused Job → Response)
    (py : Python) (c : Client) (q : Request) (n : Network)
    → q.headers ≡ some (("Idempotency-Key", key) ∷ [])
    → normalize_key (some key) ≡ ok (some k)
    → OneMore ctx endpoint_id k n.store.queue
        (send_request (λ t m. m) (deliver ctx endpoint_id read render) py c q n).0.store
unfolding build_headers
send_request-OneMore ctx endpoint_id k key read render py c q n h key_ok =
    let headers = build_headers c q.headers in
    let key_read : normalize_key (lookup "Idempotency-Key" headers) ≡ ok (some k) = rw h key_ok in
    let call = deliver ctx endpoint_id read render q.method (url c q.path) headers q.json in
    let (n', l, reply, run, b, e) =
      send_request-Attempts (λ t m. m) (deliver ctx endpoint_id read render) py c q n in
    rw e (
      Attempts-keeps (λ t m. m) call c
        (λ (m : Network). OneMore ctx endpoint_id k n.store.queue m.store)
        (λ m.
          deliver_next-OneMore ctx endpoint_id k read render n.store.queue headers q.json key_read
            m.legs m.store)
        (λ t m p. p) (allowed_retries c q) 1 l n n' reply run (inl refl))

-- A submission by the client with an idempotency key puts at most one entry into the worker's queue,
-- whatever requests and answers the network loses, however often the client tries again, and whatever
-- answers the server gives: the queue is as before, or one entry longer, and then a row has the key.
-- Here `k` is the key that the server reads from the header, where nobody else writes to the queue
-- meanwhile, and a pause changes nothing.
pub submit_job-OneMore :
    (ctx : ApiKeyContext) (endpoint_id k key : String)
    (read : Option (Dict Json) → JobCreateRequest) (render : Result Refused Job → Response)
    (py : Python) (c : Client) (a : Submission) (n : Network)
    → key_headers a.idempotency_key ≡ some (("Idempotency-Key", key) ∷ [])
    → normalize_key (some key) ≡ ok (some k)
    → OneMore ctx endpoint_id k n.store.queue
        (submit_job (λ t m. m) (deliver ctx endpoint_id read render) py c endpoint_id a n).0.store
unfolding submit_job
submit_job-OneMore ctx endpoint_id k key read render py c a n h key_ok =
    elim (Bool-cases (not (is_some a.input_text) && not (has_messages a.messages))) [
      | inl v ↦ rw (v, submission_request, exchange) (inl refl)
      | inr v ↦
          rw (v, submission_request, exchange)
            (send_request-OneMore ctx endpoint_id k key read render py c _ n h key_ok)
    ]
