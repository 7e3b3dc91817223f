-- ===== src/PublicApi/Idempotency.antt =====
-- What the idempotency keys of api/app/routers/public.py guarantee.
use flash_connector.Prelude.{
  ◌+◌, ◌≤◌, String, Bool, true, false, Option, some, List, [], ◌∷◌, ◌++◌, ◌≡◌, refl, sym, ◌∙◌, ap,
  arith, if◌then◌else◌, count_by, any, find, Bool-cases, Option-cases, inl, inr, Result, ok,
  Result-cases, eq_iff, eq_refl,
}
use flash_connector.Jobs.{
  Job, Endpoint, EndpointVersion, JobCreateRequest, Scope, in_scope, get_idempotent_job_for_key,
  create_job,
}
use flash_connector.PublicApi.{
  Site, Store, ApiKeyContext, Refused, admit, normalize_key, existing_job, conflicts, row_scope,
  insert_row, insert_or_find, new_job, enqueue_job, submit_new, submit_checked, submit_job,
  scope_of,
}

-- What the unique constraint says of the rows.
abbrev pub Unique : List Job → Type 0
Unique jobs = (scope : Scope) → count_by (in_scope scope) jobs ≤ 1

count_by-append :
    (p : Job → Bool) (xs : List Job) (j : Job)
    → count_by p (xs ++ j ∷ []) ≡ count_by p xs + (if p j then 1 else 0)
count_by-append p [] j = omega arith
count_by-append p (x ∷ xs) j = omega (arith, count_by-append p xs j)

count_by-none : (p : Job → Bool) (xs : List Job) → any p xs ≡ false → count_by p xs ≡ 0
count_by-none p [] h = refl
count_by-none p (x ∷ xs) h = ground (arith, count_by-none p xs)

-- A row in a scope has that scope.
row_scope-in_scope : (c : Scope) (job : Job) → in_scope c job ≡ true → row_scope job ≡ some c
row_scope-in_scope c job h = elim (Option-cases job.request_api_key_id) [
  | inl a ↦ absurd (ground arith)
  | inr (k, a) ↦ elim (Option-cases job.idempotency_key) [
    | inl b ↦ absurd (ground arith)
    | inr (i, b) ↦
        let t : job.tenant_id ≡ c.tenant_id = ground (arith, eq_iff job.tenant_id c.tenant_id) in
        let e : job.endpoint_id ≡ c.endpoint_id =
          ground (arith, eq_iff job.endpoint_id c.endpoint_id) in
        let k' : k ≡ c.api_key_id = ground (arith, eq_iff k c.api_key_id) in
        let i' : i ≡ c.key = ground (arith, eq_iff i c.key) in
        rw (a, b)
          (λ x. some (record { tenant_id = t x; endpoint_id = e x; api_key_id = k' x; key = i' x }))
  ]
]

insert_row-Unique :
    (job : Job) (jobs rows : List Job) → Unique jobs → insert_row job jobs ≡ some rows → Unique rows
insert_row-Unique job jobs rows u e c = elim (Bool-cases (conflicts job jobs)) [
  | inl x ↦ absurd (ground arith)
  | inr x ↦
      let e' : jobs ++ job ∷ [] ≡ rows = ground arith in
      rw (← e') (elim (Bool-cases (in_scope c job)) [
        | inr n ↦ rw (count_by-append (in_scope c) jobs job, n) (omega (arith, u c))
        | inl i ↦
            let fresh : any (in_scope c) jobs ≡ false =
              rw (conflicts, row_scope-in_scope c job i) at x in
            rw (count_by-append (in_scope c) jobs job, i)
              (omega (arith, count_by-none (in_scope c) jobs fresh))
      ])
]

find-append :
    (p : Job → Bool) (xs : List Job) (j : Job)
    → any p xs ≡ false
    → p j ≡ true
    → find p (xs ++ j ∷ []) ≡ some j
find-append p [] j h q = rw q
find-append p (x ∷ xs) j h q = ground (arith, find-append p xs j)

module _ (site : Site) (ctx : ApiKeyContext) (endpoint : Endpoint) (version : EndpointVersion)
    (payload : JobCreateRequest) where
  insert_or_find-Unique :
      (k : Option String) (jobs : List Job)
      → Unique (site.meanwhile jobs)
      → Unique (insert_or_find site ctx endpoint version payload k jobs).1
  unfolding insert_or_find
  insert_or_find-Unique k jobs u =
      let rows = site.meanwhile jobs in
      let job = new_job site ctx endpoint version payload k in
      elim (Option-cases (insert_row job rows)) [
        | inr (rows', e) ↦ rw (e, insert_or_find) (insert_row-Unique job rows rows' u e)
        | inl e ↦ elim (Option-cases (existing_job ctx endpoint k rows)) [
          | inl f ↦ rw (e, f, insert_or_find) u
          | inr (found, f) ↦ rw (e, f, insert_or_find) u
        ]
      ]

  new_job-in_scope :
      (k : String)
      → in_scope (scope_of ctx endpoint k) (new_job site ctx endpoint version payload (some k))
        ≡ true
  unfolding create_job
  new_job-in_scope k =
      rw (eq_refl ctx.tenant_id, eq_refl endpoint.id, eq_refl ctx.api_key_id, eq_refl k)

  new_job-conflicts :
      (k : String) (rows : List Job)
      → conflicts (new_job site ctx endpoint version payload (some k)) rows
        ≡ any (in_scope (scope_of ctx endpoint k)) rows
  unfolding create_job
  new_job-conflicts k rows = refl

  -- The new row, or the one found after a conflict, is what the key finds from then on.
  pub insert_or_find-existing :
      (k : String) (jobs : List Job) (fresh : Bool) (job : Job)
      → let (outcome, rows) = insert_or_find site ctx endpoint version payload (some k) jobs in
        outcome ≡ ok (fresh, job) → existing_job ctx endpoint (some k) rows ≡ some job
  unfolding insert_or_find get_idempotent_job_for_key
  insert_or_find-existing k jobs fresh job h =
      let rows = site.meanwhile jobs in
      let new = new_job site ctx endpoint version payload (some k) in
      let p = in_scope (scope_of ctx endpoint k) in
      elim (Bool-cases (conflicts new rows)) [
        | inr c ↦
            let same : new ≡ job =
              (let h' : ◌≡◌ {A = Result Refused (Bool × Job)} (ok (true, new)) (ok (fresh, job)) =
                  rw (c, insert_or_find) at h in
                ground (arith, h')) in
            rw (c, insert_or_find)
              (find-append p rows new (sym (new_job-conflicts k rows) ∙ c) (new_job-in_scope k)
                ∙ ap some same)
        | inl c ↦ elim (Option-cases (existing_job ctx endpoint (some k) rows)) [
          | inl f ↦ absurd (cc (rw (c, f, insert_or_find) at h))
          | inr (found, f) ↦
              let same : found ≡ job =
                (let h' : ◌≡◌ {A = Result Refused (Bool × Job)} (ok (false, found))
                      (ok (fresh, job)) =
                    rw (c, f, insert_or_find) at h in
                  ground (arith, h')) in
              rw (c, insert_or_find) (rw f (f ∙ ap some same))
        ]
      ]

  submit_new-existing :
      (k : String) (s : Store) (job : Job)
      → let (r, s') = submit_new site ctx endpoint version payload (some k) s in
        r ≡ ok job → existing_job ctx endpoint (some k) s'.jobs ≡ some job
  unfolding submit_new enqueue_job
  submit_new-existing k s job h =
      elim (Result-cases (insert_or_find site ctx endpoint version payload (some k) s.jobs).0) [
        | inr (e, a) ↦ absurd (cc (rw (a, submit_new) at h))
        | inl ((true, found), a) ↦ elim (Result-cases site.enqueue) [
          | inr (e, q) ↦ absurd (cc (rw (a, q, submit_new, enqueue_job) at h))
          | inl (_, q) ↦
              let h' : ◌≡◌ {A = Result Refused Job} (ok found) (ok job) =
                rw (a, q, submit_new, enqueue_job) at h in
              let same : found ≡ job = ground (arith, h') in
              rw (a, q, submit_new, enqueue_job)
                (insert_or_find-existing k s.jobs true found a ∙ ap some same)
        ]
        | inl ((false, found), a) ↦
            let h' : ◌≡◌ {A = Result Refused Job} (ok found) (ok job) = rw (a, submit_new) at h in
            let same : found ≡ job = ground (arith, h') in
            rw (a, submit_new) (insert_or_find-existing k s.jobs false found a ∙ ap some same)
      ]

  submit_checked-existing :
      (key : Option String) (k : String) (s : Store) (job : Job)
      → normalize_key key ≡ ok (some k)
      → let (r, s') = submit_checked site ctx endpoint version payload key s in
        r ≡ ok job → existing_job ctx endpoint (some k) s'.jobs ≡ some job
  unfolding submit_checked
  submit_checked-existing key k s job n h =
      elim (Option-cases (existing_job ctx endpoint (some k) s.jobs)) [
        | inl f ↦
            rw (n, submit_checked)
              (rw f (submit_new-existing k s job (rw (n, f, submit_checked) at h)))
        | inr (found, f) ↦
            let h' : ◌≡◌ {A = Result Refused Job} (ok found) (ok job) =
              rw (n, f, submit_checked) at h in
            let same : found ≡ job = ground (arith, h') in
            rw (n, submit_checked) (rw f (f ∙ ap some same))
      ]

  -- A key that names a job: the answer is that job, and nothing is inserted or put into the queue.
  submit_job-found :
      (endpoint_id k : String) (key : Option String) (s : Store) (job : Job)
      → normalize_key key ≡ ok (some k)
      → (admit site ctx endpoint_id s.limiter).0 ≡ ok (endpoint, version)
      → existing_job ctx endpoint (some k) s.jobs ≡ some job
      → let (r, s') = submit_job site ctx endpoint_id payload key s in
        (r ≡ ok job) × (s'.jobs ≡ s.jobs) × (s'.queue ≡ s.queue)
  unfolding submit_job submit_checked
  submit_job-found endpoint_id k key s job n a f =
      rw (a, n, f, submit_job, submit_checked) (refl, refl, refl)

-- Two submissions with one idempotency key, to one endpoint and with one API key, whatever requests
-- they carry and whatever other sessions insert during the first: if the first answers with a job and
-- the second passes the checks, the second answers with the same job, inserts no row and puts nothing
-- into the queue.
pub submit_job-retry :
    (site later : Site) (ctx : ApiKeyContext) (endpoint_id k : String) (key : Option String)
    (first second : JobCreateRequest) (s : Store) (endpoint : Endpoint)
    (version version' : EndpointVersion) (job : Job)
    → normalize_key key ≡ ok (some k)
    → (admit site ctx endpoint_id s.limiter).0 ≡ ok (endpoint, version)
    → let (r, s') = submit_job site ctx endpoint_id first key s in
      r ≡ ok job
      → (admit later ctx endpoint_id s'.limiter).0 ≡ ok (endpoint, version')
      → let (r', s'') = submit_job later ctx endpoint_id second key s' in
        (r' ≡ ok job) × (s''.jobs ≡ s'.jobs) × (s''.queue ≡ s'.queue)
unfolding submit_job
submit_job-retry site later ctx endpoint_id k key first second s endpoint version version' job n a h
      b =
    let s' = (submit_job site ctx endpoint_id first key s).1 in
    let counted = record s { limiter = (admit site ctx endpoint_id s.limiter).1 } in
    let e : existing_job ctx endpoint (some k) s'.jobs ≡ some job =
      rw (a, submit_job)
        (submit_checked-existing site ctx endpoint version first key k counted job n
          (rw (a, submit_job) at h)) in
    submit_job-found later ctx endpoint version' second endpoint_id k key s' job n b e

-- No submission breaks the uniqueness of keys: where at most one row is in each scope of tenant,
-- endpoint, API key and idempotency key, and what other sessions insert meanwhile keeps it so, at most
-- one is after it, whatever the answer.
pub submit_job-Unique :
    (site : Site) (ctx : ApiKeyContext) (endpoint_id : String) (payload : JobCreateRequest)
    (key : Option String) (s : Store)
    → ((jobs : List Job) → Unique jobs → Unique (site.meanwhile jobs))
    → Unique s.jobs
    → Unique (submit_job site ctx endpoint_id payload key s).1.jobs
unfolding submit_job submit_checked submit_new enqueue_job
submit_job-Unique site ctx endpoint_id payload key s m u =
    elim (Result-cases (admit site ctx endpoint_id s.limiter).0) [
      | inr (e, a) ↦ rw (a, submit_job) u
      | inl ((endpoint, version), a) ↦ elim (Result-cases (normalize_key key)) [
        | inr (e, n) ↦ rw (a, n, submit_job, submit_checked) u
        | inl (k, n) ↦ elim (Option-cases (existing_job ctx endpoint k s.jobs)) [
          | inr (found, f) ↦ rw (a, n, f, submit_job, submit_checked) u
          | inl f ↦
              let rows-Unique =
                insert_or_find-Unique site ctx endpoint version payload k s.jobs (m s.jobs u) in
              elim (Result-cases (insert_or_find site ctx endpoint version payload k s.jobs).0) [
                | inr (e, i) ↦ rw (a, n, f, i, submit_job, submit_checked, submit_new) rows-Unique
                | inl ((false, found), i) ↦
                    rw (a, n, f, i, submit_job, submit_checked, submit_new) rows-Unique
                | inl ((true, found), i) ↦ elim (Result-cases site.enqueue) [
                  | inr (e, q) ↦
                      rw (a, n, f, i, q, submit_job, submit_checked, submit_new, enqueue_job)
                        rows-Unique
                  | inl (_, q) ↦
                      rw (a, n, f, i, q, submit_job, submit_checked, submit_new, enqueue_job)
                        rows-Unique
                ]
              ]
        ]
      ]
    ]
