-- ===== src/Batches/Outcomes/Reading.antt =====
-- Reading the output file writes to the run's error at most, and puts no poll into the queue.
use flash_connector.Prelude.{
  String, ◌&&◌, Option, List, [], ◌∷◌, ◌≡◌, refl, ◌∙◌, arith, is_empty, Bool-cases, Option-cases,
  inl, inr, Result-cases, strip,
}
use flash_connector.Prelude.Dict.{Dict}
use flash_connector.Json.{Json, obj, fields}
use flash_connector.Jobs.{Job, JobStatus, EndpointVersion, is_settled}
use flash_connector.Batches.{Session, is_status}
use flash_connector.Batches.Submit.{text_at}
use flash_connector.Batches.Output.{
  Reader, line_result, save_completed, listed_job, apply_line, apply_json, apply_text, apply_lines,
}
use flash_connector.Batches.Poll.{Provider, read_output}

-- What the rest of a poll reads of a run is as it was.
pub record Same (s s' : Session) : Type 0 where
  pub id : s'.run.id ≡ s.run.id
  pub tenant : s'.run.tenant_id ≡ s.run.tenant_id
  pub status : s'.run.status ≡ s.run.status
  pub cancel : s'.run.cancel_requested ≡ s.run.cancel_requested
  pub polls : s'.polls ≡ s.polls

Same-refl : (s : Session) → Same s s
Same-refl s = record { id = refl; tenant = refl; status = refl; cancel = refl; polls = refl }

Same-save_completed :
    (r : Reader) (custom_id : String) (job : Job) (s : Session)
    → Same s (save_completed r custom_id job s)
unfolding save_completed
Same-save_completed r custom_id job s =
    elim (Bool-cases (is_status JobStatus.completed job.status && r.opts_in job)) [
      | inl c ↦ ground arith
      | inr c ↦ ground arith
    ]

Same-apply_line :
    (r : Reader) (v : EndpointVersion) (line : Dict Json) (s : Session)
    → Same s (apply_line r v line s).0
unfolding apply_line
Same-apply_line r v line s = elim (Option-cases (text_at "custom_id" line)) [
  | inl a ↦ rw (a, apply_line) (Same-refl s)
  | inr (i, a) ↦ elim (Option-cases (listed_job s.run i s.jobs)) [
    | inl b ↦ rw (a, b, apply_line) (Same-refl s)
    | inr (job, b) ↦ elim (Bool-cases (is_settled job.status)) [
      | inl c ↦ rw (a, b, c, apply_line) (Same-refl s)
      | inr c ↦ elim (Result-cases (line_result r s.run v job line)) [
        | inl (job', d) ↦ rw (a, b, c, d, apply_line) (Same-save_completed r i job' s)
        | inr (e, d) ↦ rw (a, b, c, d, apply_line) (Same-refl s)
      ]
    ]
  ]
]

Same-apply_json :
    (r : Reader) (v : EndpointVersion) (j : Json) (s : Session) → Same s (apply_json r v j s).0
unfolding apply_json
Same-apply_json r v (obj f) s = Same-apply_line r v (fields f) s
Same-apply_json r v _ s = Same-refl s

Same-apply_text :
    (r : Reader) (v : EndpointVersion) (text : String) (s : Session)
    → Same s (apply_text r v text s).0
unfolding apply_text
Same-apply_text r v text s = elim (Bool-cases (is_empty (strip text))) [
  | inl a ↦ rw (a, apply_text) (Same-refl s)
  | inr a ↦ elim (Option-cases (r.parse_line (strip text))) [
    | inl b ↦ rw (a, b, apply_text) (Same-refl s)
    | inr (j, b) ↦ rw (a, b, apply_text) (Same-apply_json r v j s)
  ]
]

Same-trans : {s t u : Session} → Same s t → Same t u → Same s u
Same-trans a b = record {
  id = b.id ∙ a.id;
  tenant = b.tenant ∙ a.tenant;
  status = b.status ∙ a.status;
  cancel = b.cancel ∙ a.cancel;
  polls = b.polls ∙ a.polls;
}

Same-apply_lines :
    (r : Reader) (v : EndpointVersion) (texts : List String) (broken : Option String) (s : Session)
    → Same s (apply_lines r v texts broken s).0
unfolding apply_lines
Same-apply_lines r v [] broken s = Same-refl s
Same-apply_lines r v (text ∷ texts) broken s = elim (Option-cases (apply_text r v text s).1) [
  | inl a ↦
      rw (a, apply_lines)
        (Same-trans (Same-apply_text r v text s)
          (Same-apply_lines r v texts broken (apply_text r v text s).0))
  | inr (e, a) ↦ rw (a, apply_lines) (Same-apply_text r v text s)
]

pub Same-read_output :
    (p : Provider) (v : EndpointVersion) (s : Session) → Same s (read_output p v s)
unfolding read_output
Same-read_output p v s = elim (Option-cases s.run.output_file_id) [
  | inl a ↦ simp (a, read_output) (Same-refl s)
  | inr (file, a) ↦ elim (Bool-cases (is_empty file)) [
    | inl b ↦ simp (a, b, read_output) (Same-refl s)
    | inr b ↦
        let h = Same-apply_lines p.reader v (p.output file).0 (p.output file).1 s in
        elim (Option-cases (apply_lines p.reader v (p.output file).0 (p.output file).1 s).1) [
          | inl c ↦ simp (a, b, c, read_output) h
          | inr (e, c) ↦
              simp (a, b, c, read_output)
                (record {
                  id = h.id;
                  tenant = h.tenant;
                  status = h.status;
                  cancel = h.cancel;
                  polls = h.polls;
                })
        ]
  ]
]
