-- ===== src/Batches/Settled/Lines.antt =====
-- The handling of the provider's output keeps every settled job as it was.
use flash_connector.Prelude.{
  ℕ, zero, suc, String, false, ◌&&◌, ◌||◌, Option, some, List, [], ◌∷◌, ◌≡◌, refl, ◌∙◌, sym, arith,
  find, take, select, is_empty, Bool-cases, Option-cases, inl, inr, ok, Result-cases, ◌==◌, strip,
  ap,
}
use flash_connector.Prelude.Dict.{Dict, lookup}
use flash_connector.Json.{Json, obj, fields}
use flash_connector.Jobs.{Job, JobStatus, EndpointVersion, is_settled}
use flash_connector.Batches.{
  Run, Session, in_run, for_listed, when_queued, list_limit, is_status, is_terminal,
}
use flash_connector.Batches.Submit.{text_at}
use flash_connector.Batches.Output.{
  Reader, apply_response, apply_response_json, line_result, write_job, save_completed, listed_job,
  given, apply_line, apply_json, apply_text, apply_lines,
}
use flash_connector.Batches.Poll.{Provider, read_output, settle_remaining, is_canceled}
use flash_connector.Batches.Marks.{
  Frozen, Frozen-refl, Frozen-trans, Frozen-for_listed, mark_job_failed-IsMark,
  mark_job_canceled-IsMark, IsMark,
}

-- The rows and the session's objects keep the settled jobs of `base`.
pub record Keeps (base : List Job) (s : Session) : Type 0 where
  pub rows : Frozen base s.stored
  pub objects : Frozen base s.jobs

apply_response-id :
    (r : Reader) (run : Run) (v : EndpointVersion) (job : Job) (d : Dict Json) {job' : Job}
    → apply_response r run v job d ≡ ok job'
    → job'.id ≡ job.id
unfolding apply_response
apply_response-id r run v job d e = ground arith

apply_response_json-id :
    (r : Reader) (run : Run) (v : EndpointVersion) (job : Job) (o : Option Json) {job' : Job}
    → apply_response_json r run v job o ≡ ok job'
    → job'.id ≡ job.id
unfolding apply_response_json
apply_response_json-id r run v job (some (obj f)) e = apply_response-id r run v job (fields f) e
apply_response_json-id r run v job _ e = ground arith

line_result-id :
    (r : Reader) (run : Run) (v : EndpointVersion) (job : Job) (line : Dict Json) {job' : Job}
    → line_result r run v job line ≡ ok job'
    → job'.id ≡ job.id
unfolding line_result
line_result-id r run v job line {job'} e = elim (Option-cases (given "error" line)) [
  | inl m ↦ apply_response_json-id r run v job (lookup "response" line) (rw (m, line_result) at e)
  | inr (x, m) ↦ ground arith
]

Frozen-write_job :
    (n : ℕ) (run : Run) (custom_id : String) (job job' : Job) (jobs : List Job)
    → find (λ j. j.id == custom_id) (take n (select (in_run run) jobs)) ≡ some job
    → is_settled job.status ≡ false
    → job'.id ≡ job.id
    → Frozen jobs (write_job run custom_id job' jobs)
unfolding write_job
Frozen-write_job n run custom_id job job' [] f u e = tt
Frozen-write_job zero run custom_id job job' (j ∷ js) f u e = absurd (cc)
Frozen-write_job (suc n) run custom_id job job' (j ∷ js) f u e = elim (Bool-cases (in_run run j)) [
  | inl i ↦ elim (Bool-cases (j.id == custom_id)) [
    | inl q ↦
        let same : j ≡ job = ground arith in
        rw (i, q)
          (ap (λ (x : Job). x.id) same ∙ sym e, (λ h. absurd (ground arith)), Frozen-refl js)
    | inr q ↦
        rw (i, q)
          (refl, (λ h. refl), Frozen-write_job n run custom_id job job' js (ground arith) u e)
  ]
  | inr i ↦
      rw i
        (refl, (λ h. refl), Frozen-write_job (suc n) run custom_id job job' js (ground arith) u e)
]

module _ (base : List Job) where
  Keeps-save_completed :
      (r : Reader) (custom_id : String) (job : Job) (s : Session)
      → Keeps base s
      → Frozen s.jobs (write_job s.run custom_id job s.jobs)
      → Keeps base (save_completed r custom_id job s)
  unfolding save_completed
  Keeps-save_completed r custom_id job s k f =
      let objects : Frozen base (write_job s.run custom_id job s.jobs) =
        Frozen-trans base s.jobs (write_job s.run custom_id job s.jobs) k.objects f in
      elim (Bool-cases (is_status JobStatus.completed job.status && r.opts_in job)) [
        | inl c ↦
            let es : (save_completed r custom_id job s).stored
                ≡ write_job s.run custom_id job s.jobs =
              ground arith in
            let ej : (save_completed r custom_id job s).jobs
                ≡ write_job s.run custom_id job s.jobs =
              ground arith in
            record { rows = rw es objects; objects = rw ej objects }
        | inr c ↦
            let es : (save_completed r custom_id job s).stored ≡ s.stored = ground arith in
            let ej : (save_completed r custom_id job s).jobs
                ≡ write_job s.run custom_id job s.jobs =
              ground arith in
            record { rows = rw es k.rows; objects = rw ej objects }
      ]

  Keeps-apply_line :
      (r : Reader) (v : EndpointVersion) (line : Dict Json) (s : Session)
      → Keeps base s
      → Keeps base (apply_line r v line s).0
  unfolding apply_line
  Keeps-apply_line r v line s k = elim (Option-cases (text_at "custom_id" line)) [
    | inl a ↦ rw (a, apply_line) k
    | inr (custom_id, a) ↦ elim (Option-cases (listed_job s.run custom_id s.jobs)) [
      | inl b ↦ rw (a, b, apply_line) k
      | inr (job, b) ↦ elim (Bool-cases (is_settled job.status)) [
        | inl c ↦ rw (a, b, c, apply_line) k
        | inr c ↦ elim (Result-cases (line_result r s.run v job line)) [
          | inl (job', d) ↦
              rw (a, b, c, d, apply_line)
                (Keeps-save_completed r custom_id job' s k (
                  Frozen-write_job list_limit s.run custom_id job job' s.jobs b c
                    (line_result-id r s.run v job line d)))
          | inr (e, d) ↦ rw (a, b, c, d, apply_line) k
        ]
      ]
    ]
  ]

  Keeps-apply_text :
      (r : Reader) (v : EndpointVersion) (text : String) (s : Session)
      → Keeps base s
      → Keeps base (apply_text r v text s).0
  unfolding apply_text
  Keeps-apply_text r v text s k = elim (Bool-cases (is_empty (strip text))) [
    | inl a ↦ rw (a, apply_text) k
    | inr a ↦ elim (Option-cases (r.parse_line (strip text))) [
      | inl b ↦ rw (a, b, apply_text) k
      | inr (j, b) ↦ rw (a, b, apply_text) (parsed j)
    ]
  ]
    where
      parsed : (j : Json) → Keeps base (apply_json r v j s).0
      parsed (obj f) = Keeps-apply_line r v (fields f) s k
      parsed _ = k

  Keeps-apply_lines :
      (r : Reader) (v : EndpointVersion) (texts : List String) (broken : Option String)
      (s : Session)
      → Keeps base s
      → Keeps base (apply_lines r v texts broken s).0
  unfolding apply_lines
  Keeps-apply_lines r v [] broken s k = k
  Keeps-apply_lines r v (text ∷ texts) broken s k =
      let k' = Keeps-apply_text r v text s k in
      elim (Option-cases (apply_text r v text s).1) [
        | inl a ↦
            rw (a, apply_lines) (Keeps-apply_lines r v texts broken (apply_text r v text s).0 k')
        | inr (e, a) ↦ rw (a, apply_lines) k'
      ]

  pub Keeps-read_output :
      (p : Provider) (v : EndpointVersion) (s : Session)
      → Keeps base s
      → Keeps base (read_output p v s)
  unfolding read_output
  Keeps-read_output p v s k = elim (Option-cases s.run.output_file_id) [
    | inl a ↦ rw (a, read_output) k
    | inr (file, a) ↦ elim (Bool-cases (is_empty file)) [
      | inl b ↦ rw (a, b, read_output) k
      | inr b ↦
          let k' = Keeps-apply_lines p.reader v (p.output file).0 (p.output file).1 s k in
          elim (Option-cases (apply_lines p.reader v (p.output file).0 (p.output file).1 s).1) [
            | inl c ↦ rw (a, b, c, read_output) k'
            | inr (e, c) ↦
                rw (a, b, c, read_output) (record { rows = k'.rows; objects = k'.objects })
          ]
    ]
  ]

  -- A rewriting of the queued jobs of any run keeps the settled ones.
  pub Keeps-mark :
      (run : Run) (f : Job → Job) (s : Session)
      → IsMark f
      → Keeps base s
      → Frozen base (for_listed list_limit run (when_queued f) s.jobs)
  Keeps-mark run f s m k =
      Frozen-trans base s.jobs (for_listed list_limit run (when_queued f) s.jobs) k.objects
        (Frozen-for_listed run f m list_limit s.jobs)

  pub Keeps-settle_remaining :
      (now : ℕ) (s : Session) → Keeps base s → Keeps base (settle_remaining now s)
  unfolding settle_remaining
  Keeps-settle_remaining now s k = elim (Bool-cases (is_terminal s.run.status)) [
    | inr a ↦ rw (a, settle_remaining) k
    | inl a ↦ elim (Bool-cases (is_canceled s.run.status || s.run.cancel_requested)) [
      | inl b ↦
          rw (a, b, settle_remaining)
            (record {
              rows = k.rows;
              objects = Keeps-mark s.run _ s (mark_job_canceled-IsMark now) k;
            })
      | inr b ↦
          rw (a, b, settle_remaining)
            (record {
              rows = k.rows;
              objects =
                  Keeps-mark s.run _ s
                    (mark_job_failed-IsMark now "No result returned for this batch item") k;
            })
    ]
  ]
