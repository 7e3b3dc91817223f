-- ===== src/Training/Saving.antt =====
-- `save_job_training` of api/app/routers/public.py.
use mathlib.Core.List.{Memᴰ}
use flash_connector.Prelude.{
  ℕ, String, Bool, true, Option, none, some, List, [], ◌∷◌, ◌++◌, ◌≡◌, refl, sym, ◌∙◌, ap, ◌⊎◌, inl,
  inr, arith, if◌then◌else◌, Result, ok, err, Result-cases, Option-cases, Bool-cases, ◌==◌, is_some,
  eq_iff, find_sound, find-mem, ◌&&◌,
}
use flash_connector.Jobs.{Job, get_job_for_tenant}
use flash_connector.PublicApi.{ApiKeyContext, Refused, refuse, key_allows_endpoint}
use flash_connector.Training.{SaveTrainingRequest, TrainingEvent, create_training_event_from_job}
use flash_connector.Training.Redact.{Patterns}

-- api/app/dependencies.py: `SessionUser`, with the field that the handler reads.
pub record SessionUser : Type 0 where
  pub tenant_id : String

unfoldable pub caller_tenant : Option ApiKeyContext → Option SessionUser → Result Refused String
caller_tenant none none = err (refuse 401 "Authentication required")
caller_tenant (some ctx) none = ok ctx.tenant_id
caller_tenant none (some user) = ok user.tenant_id
caller_tenant (some ctx) (some user) =
    if ctx.tenant_id == user.tenant_id
    then ok user.tenant_id
    else err (refuse 403 "Tenant mismatch")

abbrev pub key_allows : Option ApiKeyContext → Job → Bool
key_allows none job = true
key_allows (some ctx) job = key_allows_endpoint ctx job.endpoint_id

unfoldable pub find_saved : Option ApiKeyContext → List Job → String → String → Result Refused Job
find_saved api jobs job_id tenant_id = elim (get_job_for_tenant jobs tenant_id job_id) [
  | none ↦ err (refuse 404 "Job not found")
  | some job ↦
      if key_allows api job
      then ok job
      else err (refuse 403 "API key scope does not allow this job")
]

unfoldable pub save_job_training :
    Patterns
    → String
    → ℕ
    → Option ApiKeyContext
    → Option SessionUser
    → List Job
    → String
    → SaveTrainingRequest
    → List TrainingEvent
    → Result Refused TrainingEvent × List TrainingEvent
unfolding caller_tenant find_saved create_training_event_from_job
save_job_training rx new_id now api user jobs job_id payload events =
    elim (caller_tenant api user) [
      | err e ↦ (err e, events)
      | ok tenant_id ↦ elim (find_saved api jobs job_id tenant_id) [
        | err e ↦ (err e, events)
        | ok job ↦
            let event = create_training_event_from_job rx new_id now tenant_id job payload in
            (ok event, events ++ event ∷ [])
      ]
    ]

-- The tenant is that of every identity that the caller has.
abbrev pub ActsFor : Option ApiKeyContext → Option SessionUser → String → Type 0
ActsFor api user tenant_id =
    ((ctx : ApiKeyContext) → api ≡ some ctx → ctx.tenant_id ≡ tenant_id)
    × ((u : SessionUser) → user ≡ some u → u.tenant_id ≡ tenant_id)
    × ((is_some api ≡ true) ⊎ (is_some user ≡ true))

caller_tenant-ActsFor :
    (api : Option ApiKeyContext) (user : Option SessionUser) {tenant_id : String}
    → caller_tenant api user ≡ ok tenant_id
    → ActsFor api user tenant_id
unfolding caller_tenant
caller_tenant-ActsFor none none h = absurd (cc)
caller_tenant-ActsFor (some ctx) none {tenant_id} h =
    let same : ctx.tenant_id ≡ tenant_id = ground (arith, h) in
    (
      (λ c e.
          let e' : ctx ≡ c = ground (arith, e) in
          ap (λ (x : ApiKeyContext). x.tenant_id) (sym e') ∙ same),
      (λ u e. absurd (cc)),
      inl refl,
    )
caller_tenant-ActsFor none (some user) {tenant_id} h =
    let same : user.tenant_id ≡ tenant_id = ground (arith, h) in
    (
      (λ c e. absurd (cc)),
      (λ u e.
          let e' : user ≡ u = ground (arith, e) in
          ap (λ (x : SessionUser). x.tenant_id) (sym e') ∙ same),
      inr refl,
    )
caller_tenant-ActsFor (some ctx) (some user) {tenant_id} h =
    elim (Bool-cases (ctx.tenant_id == user.tenant_id)) [
      | inr q ↦ absurd (cc (rw q at h))
      | inl q ↦
          let h' : ◌≡◌ {A = Result Refused String} (ok user.tenant_id) (ok tenant_id) = rw q at h in
          let same : user.tenant_id ≡ tenant_id = ground (arith, h') in
          let both = (eq_iff ctx.tenant_id user.tenant_id).0 q in
          (
            (λ c e.
                let e' : ctx ≡ c = ground (arith, e) in
                ap (λ (x : ApiKeyContext). x.tenant_id) (sym e') ∙ both ∙ same),
            (λ u e.
                let e' : user ≡ u = ground (arith, e) in
                ap (λ (x : SessionUser). x.tenant_id) (sym e') ∙ same),
            inl refl,
          )
    ]

get_job_for_tenant-mem :
    (jobs : List Job) {tenant_id job_id : String} {job : Job}
    → get_job_for_tenant jobs tenant_id job_id ≡ some job
    → Memᴰ job jobs × (job.id ≡ job_id) × (job.tenant_id ≡ tenant_id)
unfolding get_job_for_tenant
get_job_for_tenant-mem jobs {tenant_id} {job_id} {job} h =
    let p = λ (j : Job). (j.id == job_id) && (j.tenant_id == tenant_id) in
    let passed : p job ≡ true = find_sound p jobs h in
    (
      find-mem p jobs h,
      (eq_iff job.id job_id).0 (ground (arith, passed)),
      (eq_iff job.tenant_id tenant_id).0 (ground (arith, passed)),
    )

-- A save that succeeds adds one event: of a stored job with the id that is asked for and of the tenant
-- that all the caller's identities belong to, at least one, on an endpoint that the API key, if there is one, allows. A save that is refused
-- adds none.
pub save_job_training-isolates :
    (rx : Patterns) (new_id : String) (now : ℕ) (api : Option ApiKeyContext)
    (user : Option SessionUser) (jobs : List Job) (job_id : String) (payload : SaveTrainingRequest)
    (events : List TrainingEvent)
    → let (answer, events') = save_job_training rx new_id now api user jobs job_id payload events in
      ((e : Refused) × (answer ≡ err e) × (events' ≡ events))
      ⊎ ((tenant_id : String) × (job : Job) × (answer
            ≡ ok (create_training_event_from_job rx new_id now tenant_id job payload))
          × (events'
              ≡ events ++ create_training_event_from_job rx new_id now tenant_id job payload ∷ [])
          × ActsFor api user tenant_id
          × Memᴰ job jobs
          × (job.id ≡ job_id)
          × (job.tenant_id ≡ tenant_id)
          × (key_allows api job ≡ true))
unfolding save_job_training
save_job_training-isolates rx new_id now api user jobs job_id payload events =
    elim (Result-cases (caller_tenant api user)) [
      | inr (e, a) ↦ rw (a, save_job_training) (inl (e, refl, refl))
      | inl (tenant_id, a) ↦ elim (Option-cases (get_job_for_tenant jobs tenant_id job_id)) [
        | inl f ↦
            rw (a, f, save_job_training, find_saved) (inl (refuse 404 "Job not found", refl, refl))
        | inr (job, f) ↦
            let (m, i, t) = get_job_for_tenant-mem jobs f in
            elim (Bool-cases (key_allows api job)) [
              | inr k ↦
                  rw (a, f, k, save_job_training, find_saved)
                    (inl (refuse 403 "API key scope does not allow this job", refl, refl))
              | inl k ↦
                  rw (a, f, k, save_job_training, find_saved)
                    (inr (tenant_id, job, refl, refl, caller_tenant-ActsFor api user a, m, i, t, k))
            ]
      ]
    ]
