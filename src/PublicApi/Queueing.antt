-- ===== src/PublicApi/Queueing.antt =====
-- What one submission with an idempotency key puts into the worker's queue.
use flash_connector.Prelude.{
  String, Bool, true, false, ◌&&◌, Option, some, [], ◌∷◌, ◌++◌, ◌≡◌, refl, sym, ◌∙◌, ap, subst,
  arith, ◌⊎◌, inl, inr, Bool-cases, Option-cases, Result, ok, Result-cases, eq_iff, ◌==◌,
  find_sound, is_some,
}
use flash_connector.Jobs.{
  Job, Endpoint, EndpointVersion, JobCreateRequest, Scope, get_idempotent_job_for_key,
  get_tenant_endpoint, get_active_version,
}
use flash_connector.PublicApi.{
  Site, Store, ApiKeyContext, Refused, admit, limit, reason, find_target, normalize_key,
  existing_job, insert_or_find, enqueue_job, submit_new, submit_checked, submit_job, scope_of,
  key_allows_endpoint,
}
use flash_connector.PublicApi.Idempotency.{insert_or_find-existing}

-- A row has the key.
abbrev pub placed : Scope → Store → Bool
placed c s = is_some (get_idempotent_job_for_key s.jobs c)

abbrev pub request_scope : ApiKeyContext → String → String → Scope
request_scope ctx endpoint_id k = record {
  tenant_id = ctx.tenant_id;
  endpoint_id = endpoint_id;
  api_key_id = ctx.api_key_id;
  key = k;
}

-- What a submission does to the queue: nothing, and a row with the key stays one; or it puts one job at
-- the end, where no row had the key before and the key finds that job after.
abbrev pub Queues : Scope → Store → Store → Type 0
Queues c s s' =
    ((s'.queue ≡ s.queue) × (placed c s ≡ true → placed c s' ≡ true))
    ⊎ ((job : Job) × (placed c s ≡ false)
        × (s'.queue ≡ s.queue ++ job.id ∷ [])
        × (get_idempotent_job_for_key s'.jobs c ≡ some job))

find_target-id :
    (site : Site) (ctx : ApiKeyContext) (endpoint_id : String) {endpoint : Endpoint}
    {version : EndpointVersion}
    → find_target site ctx endpoint_id ≡ ok (endpoint, version)
    → endpoint.id ≡ endpoint_id
unfolding get_tenant_endpoint
find_target-id site ctx endpoint_id {endpoint} {version} h =
    let p = λ (e : Endpoint). (e.id == endpoint_id) && (e.tenant_id == ctx.tenant_id) in
    elim (Option-cases (get_tenant_endpoint site.endpoints ctx.tenant_id endpoint_id)) [
      | inl f ↦ absurd (cc (rw (f, find_target) at h))
      | inr (e, f) ↦
          let found : (p e) ≡ true = find_sound p site.endpoints f in
          elim (Option-cases (get_active_version site.versions e)) [
            | inl g ↦ absurd (cc (rw (f, g, find_target) at h))
            | inr (v, g) ↦
                let h' : ◌≡◌ {A = Result Refused (Endpoint × EndpointVersion)} (ok (e, v))
                    (ok (endpoint, version)) =
                  rw (f, g, find_target) at h in
                let same : e ≡ endpoint = ground (arith, h') in
                ap (λ (x : Endpoint). x.id) (sym same) ∙ (eq_iff e.id endpoint_id).0 (ground arith)
          ]
    ]

admit-id :
    (site : Site) (ctx : ApiKeyContext) (endpoint_id : String) (s : Store) {endpoint : Endpoint}
    {version : EndpointVersion}
    → (admit site ctx endpoint_id s.limiter).0 ≡ ok (endpoint, version)
    → endpoint.id ≡ endpoint_id
unfolding admit
admit-id site ctx endpoint_id s {endpoint} {version} h =
    elim (Bool-cases (key_allows_endpoint ctx endpoint_id)) [
      | inr a ↦ absurd (cc (rw (a, admit) at h))
      | inl a ↦ elim (Option-cases (reason (limit site ctx s.limiter).0)) [
        | inr (d, r) ↦ absurd (cc (rw (a, r, admit) at h))
        | inl r ↦ find_target-id site ctx endpoint_id (rw (a, r, admit) at h)
      ]
    ]

submit_new-Queues :
    (site : Site) (ctx : ApiKeyContext) (endpoint : Endpoint) (version : EndpointVersion)
    (payload : JobCreateRequest) (k : String) (s : Store)
    → placed (scope_of ctx endpoint k) s ≡ false
    → Queues (scope_of ctx endpoint k) s (submit_new site ctx endpoint version payload (some k) s).1
unfolding submit_new enqueue_job
submit_new-Queues site ctx endpoint version payload k s p =
    elim (Result-cases (insert_or_find site ctx endpoint version payload (some k) s.jobs).0) [
      | inr (e, a) ↦ rw (a, submit_new) (inl (refl, λ h. absurd (cc)))
      | inl ((false, job), a) ↦ rw (a, submit_new) (inl (refl, λ h. absurd (cc)))
      | inl ((true, job), a) ↦ elim (Result-cases site.enqueue) [
        | inr (e, q) ↦ rw (a, q, submit_new, enqueue_job) (inl (refl, λ h. absurd (cc)))
        | inl (_, q) ↦
            rw (a, q, submit_new, enqueue_job)
              (inr (
                job,
                p,
                refl,
                insert_or_find-existing site ctx endpoint version payload k s.jobs true job a,
              ))
      ]
    ]

-- What one submission with an idempotency key does, whatever requests other sessions insert meanwhile and
-- whatever the queue answers: either the queue stays as it was, and a key that found a job still does; or
-- no row had the key, one job is put at the end of the queue, and the key finds that job from then on.
pub submit_job-Queues :
    (site : Site) (ctx : ApiKeyContext) (endpoint_id k : String) (key : Option String)
    (payload : JobCreateRequest) (s : Store)
    → normalize_key key ≡ ok (some k)
    → Queues (request_scope ctx endpoint_id k) s (submit_job site ctx endpoint_id payload key s).1
unfolding submit_job submit_checked
submit_job-Queues site ctx endpoint_id k key payload s n =
    elim (Result-cases (admit site ctx endpoint_id s.limiter).0) [
      | inr (e, a) ↦ rw (a, submit_job) (inl (refl, λ h. h))
      | inl ((endpoint, version), a) ↦
          let counted = record s { limiter = (admit site ctx endpoint_id s.limiter).1 } in
          let same = admit-id site ctx endpoint_id s a in
          elim (Option-cases (existing_job ctx endpoint (some k) s.jobs)) [
            | inr (job, f) ↦ rw (a, n, f, submit_job, submit_checked) (inl (refl, λ h. h))
            | inl f ↦
                rw (a, n, f, submit_job, submit_checked)
                  (subst
                    (λ e.
                      Queues (request_scope ctx e k) s
                        (submit_new site ctx endpoint version payload (some k) counted).1)
                    same (submit_new-Queues site ctx endpoint version payload k counted (rw f)))
          ]
    ]
