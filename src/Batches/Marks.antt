-- ===== src/Batches/Marks.antt =====
-- What the rewriting of a run's listed jobs leaves: no job queued, and every settled job xs it was.
use flash_connector.Prelude.{
  ℕ, zero, suc, String, Bool, true, false, List, [], ◌∷◌, ◌≡◌, refl, ◌∙◌, arith, any, take, select,
  Bool-cases, inl, inr,
}
use flash_connector.Jobs.{Job, JobStatus, is_queued, is_settled}
use flash_connector.Batches.{
  Run, in_run, for_listed, when_queued, mark_job_failed, mark_job_canceled,
}

-- The same rows, where the settled ones are unchanged.
abbrev pub Frozen : List Job → List Job → Type 0
Frozen [] [] = Unit
Frozen (a ∷ xs) (b ∷ ys) = (a.id ≡ b.id) × (is_settled a.status ≡ true → a ≡ b) × Frozen xs ys
Frozen _ _ = ⊥

pub Frozen-refl : (jobs : List Job) → Frozen jobs jobs
Frozen-refl [] = tt
Frozen-refl (j ∷ js) = (refl, (λ h. refl), Frozen-refl js)

pub Frozen-trans : (xs ys zs : List Job) → Frozen xs ys → Frozen ys zs → Frozen xs zs
Frozen-trans [] [] [] f g = tt
Frozen-trans [] [] (c ∷ zs) f g = absurd g
Frozen-trans [] (b ∷ ys) zs f g = absurd f
Frozen-trans (a ∷ xs) [] zs f g = absurd f
Frozen-trans (a ∷ xs) (b ∷ ys) [] f g = absurd g
Frozen-trans (a ∷ xs) (b ∷ ys) (c ∷ zs) f g =
    (f.0 ∙ g.0, (λ h. let e : a ≡ b = f.1 h in e ∙ g.1 (rw e at h)), Frozen-trans xs ys zs f.2 g.2)

-- A rewriting that settles a job and leaves what the listing selects by.
pub record IsMark (f : Job → Job) : Type 0 where
  pub keeps_id : (j : Job) → (f j).id ≡ j.id
  pub keeps_tenant : (j : Job) → (f j).tenant_id ≡ j.tenant_id
  pub keeps_batch : (j : Job) → (f j).provider_batch_run_id ≡ j.provider_batch_run_id
  pub settles : (j : Job) → is_queued (f j).status ≡ false

pub mark_job_failed-IsMark : (now : ℕ) (message : String) → IsMark (mark_job_failed now message)
mark_job_failed-IsMark now message = record {
  keeps_id = λ j. refl;
  keeps_tenant = λ j. refl;
  keeps_batch = λ j. refl;
  settles = λ j. refl;
}

pub mark_job_canceled-IsMark : (now : ℕ) → IsMark (mark_job_canceled now)
mark_job_canceled-IsMark now = record {
  keeps_id = λ j. refl;
  keeps_tenant = λ j. refl;
  keeps_batch = λ j. refl;
  settles = λ j. refl;
}

-- Some job among the first `n` of the run is queued.
abbrev pub waits : ℕ → Run → List Job → Bool
waits n run jobs = any (λ j. is_queued j.status) (take n (select (in_run run) jobs))

settled-not-queued : (s : JobStatus) → is_settled s ≡ true → is_queued s ≡ false
settled-not-queued JobStatus.queued h = cc
settled-not-queued _ h = ground arith

module _ (run : Run) (f : Job → Job) (m : IsMark f) where
  in_run-when_queued : (j : Job) → in_run run (when_queued f j) ≡ in_run run j
  in_run-when_queued j = elim (Bool-cases (is_queued j.status)) [
    | inl q ↦ rw (q, m.keeps_tenant, m.keeps_batch)
    | inr q ↦ rw q
  ]

  queued-when_queued : (j : Job) → is_queued (when_queued f j).status ≡ false
  queued-when_queued j = ground (arith, m.settles j)

  pub waits-for_listed :
      (n : ℕ) (jobs : List Job) → waits n run (for_listed n run (when_queued f) jobs) ≡ false
  unfolding for_listed
  waits-for_listed zero jobs = refl
  waits-for_listed (suc n) [] = refl
  waits-for_listed (suc n) (j ∷ js) = elim (Bool-cases (in_run run j)) [
    | inl i ↦
        rw i (rw (in_run-when_queued j) (rw i (rw (queued-when_queued j) (waits-for_listed n js))))
    | inr i ↦ rw i (rw i (waits-for_listed (suc n) js))
  ]

  pub Frozen-for_listed :
      (n : ℕ) (jobs : List Job) → Frozen jobs (for_listed n run (when_queued f) jobs)
  unfolding for_listed
  Frozen-for_listed zero jobs = Frozen-refl jobs
  Frozen-for_listed (suc n) [] = tt
  Frozen-for_listed (suc n) (j ∷ js) = elim (Bool-cases (in_run run j)) [
    | inl i ↦ rw i (
      ground (arith, m.keeps_id j),
      (λ h. rw (settled-not-queued j.status h)),
      Frozen-for_listed n js,
    )
    | inr i ↦ rw i (refl, (λ h. refl), Frozen-for_listed (suc n) js)
  ]
