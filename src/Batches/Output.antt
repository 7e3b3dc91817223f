-- ===== src/Batches/Output.antt =====
-- `_apply_batch_output_line` and the loop over the provider's output file.
use flash_connector.Prelude.{
  ℕ, String, Bool, true, false, ◌&&◌, ◌||◌, Option, none, some, List, [], ◌∷◌, ◌==◌, ltb, leb,
  if◌then◌else◌, find, take, select, or_else, is_some, is_nil, is_empty, strip, text_append, Result,
  ok, err,
}
use flash_connector.Prelude.Dict
use flash_connector.Prelude.Dict.{Dict, lookup}
use flash_connector.Json.{
  ℤ, pos, negsuc, Json, null, bool, int, float, str, obj, arr, cons, nil, object, as_dict, fields,
  truthy,
}
use flash_connector.Jobs.{Job, JobStatus, EndpointVersion, is_settled}
use flash_connector.Batches.{Run, Session, commit, mark_job_failed, in_run, list_limit}
use flash_connector.Batches.Submit.{text_at}

-- The helpers of other services that the handler of a line calls. `to_int` is Python's `int`, which
-- may raise; `failure_text` is the message of a failed item, of its code and payload; `price` is `estimate_job_cost_usd`; `opts_in` is the test of `auto_save_training_event`.
pub record Reader : Type 0 where
  pub now : ℕ
  pub to_int : Json → Result String ℤ
  pub parse_line : String → Option Json
  pub dumps : Json → String
  pub output_text : Dict Json → String
  pub failure_text : ℤ → Dict Json → String
  pub usage : Dict Json → Dict Json
  pub blocked_phrase : String → EndpointVersion → Option String
  pub price : Run → Dict Json → Option ℕ × Option (Dict Json)
  pub opts_in : Job → Bool

-- `status_code < 200 or status_code >= 300`
abbrev pub is_http_failure : ℤ → Bool
is_http_failure (negsuc n) = true
is_http_failure (pos n) = ltb n 200 || leb 300 n

abbrev attempted : Run → Json
attempted run =
    arr
      (cons (object (("provider", str run.provider_slug) ∷ ("model", str run.model_used) ∷ [])) nil)

unfoldable pub line_usage : Reader → Run → Job → Dict Json → Dict Json
line_usage r run job body =
    let own = Dict.merge (or_else job.usage_json []) (r.usage body) in
    Dict.merge own (
      ("batch_mode", str "provider_native")
      ∷ ("selected_provider", str run.provider_slug)
      ∷ ("selected_model", str run.model_used)
      ∷ ("attempted_routes", attempted run)
      ∷ ("cache_hit", bool false)
      ∷ [])

abbrev with_pricing : Option (Dict Json) → Dict Json → Dict Json
with_pricing none d = d
with_pricing (some p) d = Dict.insert "pricing" (object p) d

-- The job with the provider's answer, completed, or canceled where that was asked for.
unfoldable pub complete_job : Reader → Run → Job → Dict Json → Dict Json → Job
unfolding line_usage
complete_job r run job response body =
    let usage = line_usage r run job body in
    let (cost, details) = r.price run usage in
    let body_id = text_at "id" body in
    record job {
      result_text = some (r.output_text body);
      provider_response_id = if is_some body_id then body_id else text_at "request_id" response;
      usage_json = some (with_pricing details usage);
      estimated_cost_usd = cost;
      provider_used = some run.provider_slug;
      model_used = some run.model_used;
      error = none;
      cache_hit = false;
      cached_from_job_id = none;
      provider_batch_status = some (if job.cancel_requested then "canceled" else "completed");
      status = if job.cancel_requested then JobStatus.canceled else JobStatus.completed;
      finished_at = some r.now;
    }

-- `int(response.get("status_code") or 0)`
abbrev status_code : Reader → Dict Json → Result String ℤ
status_code r response = elim (lookup "status_code" response) [
  | none ↦ ok (pos 0)
  | some j ↦ if truthy j then r.to_int j else ok (pos 0)
]

abbrev body_of : Dict Json → Dict Json
body_of response = elim (lookup "body" response) [ none ↦ [] | some j ↦ as_dict j ]

-- The job after a response; an `err` is the exception of `int`, before anything is written.
unfoldable pub apply_response : Reader → Run → EndpointVersion → Job → Dict Json → Result String Job
unfolding complete_job
apply_response r run version job response = elim (status_code r response) [
  | err e ↦ err e
  | ok code ↦
      let body = body_of response in
      if is_http_failure code
      then ok
          (mark_job_failed r.now (r.failure_text code (if is_nil body then response else body)) job)
      else elim (r.blocked_phrase (r.output_text body) version) [
        | some phrase ↦
            ok (mark_job_failed r.now (text_append "Output blocked by phrase: " phrase) job)
        | none ↦ ok (complete_job r run job response body)
      ]
]

abbrev error_text : Reader → Json → String
error_text r (str s) = s
error_text r j = r.dumps j

-- The value under a key, where it is truthy.
abbrev pub given : String → Dict Json → Option Json
given k d = elim (lookup k d) [ none ↦ none | some j ↦ if truthy j then some j else none ]

unfoldable pub apply_response_json :
    Reader → Run → EndpointVersion → Job → Option Json → Result String Job
unfolding apply_response
apply_response_json r run version job (some (obj f)) = apply_response r run version job (fields f)
apply_response_json r run version job _ =
    ok (mark_job_failed r.now "Provider batch item has no response payload" job)

-- What the handler makes of the job.
unfoldable pub line_result : Reader → Run → EndpointVersion → Job → Dict Json → Result String Job
unfolding apply_response_json
line_result r run version job line = elim (given "error" line) [
  | some e ↦
      ok (mark_job_failed r.now (text_append "Provider batch item error: " (error_text r e)) job)
  | none ↦ apply_response_json r run version job (lookup "response" line)
]

-- The write is on the object that `jobs.get(custom_id)` gives, the first of the run with that id.
unfoldable pub write_job : Run → String → Job → List Job → List Job
write_job run custom_id job [] = []
write_job run custom_id job (j ∷ js) =
    if in_run run j && (j.id == custom_id) then job ∷ js else j ∷ write_job run custom_id job js

-- `auto_save_training_event` commits the session, and with it the run's new columns.
unfoldable pub save_completed : Reader → String → Job → Session → Session
unfolding write_job
save_completed r custom_id job s =
    let s' = record s { jobs = write_job s.run custom_id job s.jobs } in
    elim job.status [
      | JobStatus.completed ↦
          if r.opts_in job then commit (record s' { events = job.id ∷ s'.events }) else s'
      | _ ↦ s'
    ]

-- `jobs.get(custom_id)`: the dictionary of the listed jobs, the session's objects.
unfoldable pub listed_job : Run → String → List Job → Option Job
listed_job run custom_id jobs =
    find (λ j. j.id == custom_id) (take list_limit (select (in_run run) jobs))

-- One line of the file, as a session and the text of an exception.
unfoldable pub apply_line : Reader → EndpointVersion → Dict Json → Session → Session × Option String
unfolding line_result save_completed listed_job
apply_line r version line s = elim (text_at "custom_id" line) [
  | none ↦ (s, none)
  | some custom_id ↦ elim (listed_job s.run custom_id s.jobs) [
    | none ↦ (s, none)
    | some job ↦
        if is_settled job.status then (s, none) else elim (line_result r s.run version job line) [
          | err e ↦ (s, some e)
          | ok job' ↦ (save_completed r custom_id job' s, none)
        ]
  ]
]

-- The text of the `AttributeError`.
abbrev no_attribute : Json → String
no_attribute null = "'NoneType' object has no attribute 'get'"
no_attribute (bool _) = "'bool' object has no attribute 'get'"
no_attribute (int _) = "'int' object has no attribute 'get'"
no_attribute (float _) = "'float' object has no attribute 'get'"
no_attribute (str _) = "'str' object has no attribute 'get'"
no_attribute _ = "'list' object has no attribute 'get'"

-- A parsed line that is no object raises when `.get` is called on it.
unfoldable pub apply_json : Reader → EndpointVersion → Json → Session → Session × Option String
unfolding apply_line
apply_json r version (obj f) s = apply_line r version (fields f) s
apply_json r version j s = (s, some (no_attribute j))

unfoldable pub apply_text : Reader → EndpointVersion → String → Session → Session × Option String
unfolding apply_json
apply_text r version text s =
    let line = strip text in
    if is_empty line
    then (s, none)
    else elim (r.parse_line line) [ none ↦ (s, none) | some j ↦ apply_json r version j s ]

-- The loop, over the lines that the file yields and the exception that ends them, if any.
unfoldable pub apply_lines :
    Reader → EndpointVersion → List String → Option String → Session → Session × Option String
unfolding apply_text
apply_lines r version [] broken s = (s, broken)
apply_lines r version (text ∷ texts) broken s =
    let (s', raised) = apply_text r version text s in
    elim raised [ some e ↦ (s', some e) | none ↦ apply_lines r version texts broken s' ]
