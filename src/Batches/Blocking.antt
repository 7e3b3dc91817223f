-- ===== src/Batches/Blocking.antt =====
-- Which jobs of a run are refused, and what the preparation of a request writes.
use flash_connector.Prelude.{
  String, List, ◌∷◌, ◌++◌, ◌≡◌, refl, All, ◌⊎◌, inl, inr, text_append, Result, ok, err,
  Result-cases,
}
use flash_connector.Json.{Json}
use flash_connector.Jobs.{Job, EndpointVersion}
use flash_connector.Studio.{collect_request_text, parse_list_param}
use flash_connector.Studio.Phrases.{Blocks, find_blocked_phrase-Blocks}
use flash_connector.Batches.{Run}
use flash_connector.Batches.Request.{
  Preparer, prepare_batch_request_body, rendered_of, messages_of, metadata_of, system_prompt_of,
  input_payload,
}

-- The text of a job's request, and the phrases that block one.
abbrev pub text_of : Preparer → EndpointVersion → Job → String
text_of p version job =
    collect_request_text (rendered_of p version job) (messages_of job.request_json)

abbrev pub phrases_of : EndpointVersion → List String
phrases_of version = parse_list_param version.params_json "blocked_input_phrases"

-- The answers, by the phrases that block the text.
abbrev pub Answers : Preparer → EndpointVersion → Job → Result String (Result String Json) → Type 0
Answers p version job answer =
    (All (λ q. ¬ Blocks p.lower_case (text_of p version job) q) (phrases_of version)
      × (((body : Json) × (answer ≡ ok (ok body))) ⊎ ((exc : String) × (answer ≡ err exc))))
    ⊎ ((q : String) × (before : List String) × (after : List String) × (phrases_of version
          ≡ before ++ q ∷ after)
        × Blocks p.lower_case (text_of p version job) q
        × All (λ r. ¬ Blocks p.lower_case (text_of p version job) r) before
        × (answer ≡ ok (err (text_append "Input blocked by phrase: " q))))

-- Only the digest, the request and the usage of the job are written.
abbrev pub Writes : Job → Job → Type 0
Writes job job' = job' ≡ record job {
  request_hash = job'.request_hash;
  request_json = job'.request_json;
  usage_json = job'.usage_json;
}

-- The preparation of a job's request changes no column of the job but its digest, its request and its
-- usage, whatever it answers. Where a phrase of the version blocks the text of the request, the answer is a
-- refusal that names the first such phrase; where none does, it is a body to send, or the exception of
-- the token advisor, and never a refusal.
pub prepare_batch_request_body-Answers :
    (p : Preparer) (run : Run) (version : EndpointVersion) (job : Job)
    → let (job', answer) = prepare_batch_request_body p run version job in
      Writes job job' × Answers p version job answer
unfolding prepare_batch_request_body
prepare_batch_request_body-Answers p run version job =
    let prompt = system_prompt_of p run version job in
    let input = input_payload (messages_of job.request_json) (rendered_of p version job) in
    elim (find_blocked_phrase-Blocks p.lower_case (text_of p version job) (phrases_of version)) [
      | inr (q, before, after, e, order, b, all) ↦
          rw (e, prepare_batch_request_body) (refl, inr (q, before, after, order, b, all, refl))
      | inl (e, all) ↦
          elim (Result-cases (
            p.advisor run job.tenant_id prompt input version.params_json
              (metadata_of job.request_json))) [
                | inr (exc, a) ↦
                    rw (e, a, prepare_batch_request_body) (refl, inl (all, inr (exc, refl)))
                | inl (d, a) ↦
                    rw (e, a, prepare_batch_request_body) (refl, inl (all, inl (_, refl)))
              ]
    ]
