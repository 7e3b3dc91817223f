-- ===== src/Batches/Request.antt =====
-- api/app/services/provider_batches.py: the request that a job of a run is sent as.
use flash_connector.Prelude.{
  ℕ, suc, ◌+◌, String, false, ◌&&◌, Option, none, some, List, [], ◌∷◌, map, ◌==◌, if◌then◌else◌,
  any, find, length, or_else, is_empty, is_nil, strip, lower, text_append, Result, ok, err,
}
use flash_connector.Prelude.Dict
use flash_connector.Prelude.Dict.{Dict, lookup, insert}
use flash_connector.Json.{
  ℤ, pos, Json, null, bool, int, str, arr, items, to_items, object, as_text, as_dict,
}
use flash_connector.Jobs.{Job, EndpointVersion}
use flash_connector.Studio.{
  parse_int_param, parse_list_param, collect_request_text, find_blocked_phrase, join_lines,
}
use flash_connector.Studio.Prompts.{Persona, ContextBlock, render_job_input, compose_system_prompt}
use flash_connector.Training.{TrainingEvent}
use flash_connector.Training.Examples.{list_few_shot_examples}
use flash_connector.Worker.Candidates.{parse_bool_param}
use flash_connector.Batches.{Run}

-- What the preparation reads and calls: the rows of personas, context blocks, variables and training
-- events; Python's texts and numbers, and the JSON printer; the substitution in a template, the digest of
-- a request, the parameters that a model takes with the names of those dropped, and the advisor, which
-- may raise.
pub record Preparer : Type 0 where
  pub personas : List Persona
  pub context_blocks : String → String → List ContextBlock
  pub tenant_variables : String → Dict String
  pub events : List TrainingEvent
  pub lower_case : String → String
  pub show : Json → String
  pub show_number : ℕ → String
  pub dumps : Json → String
  pub to_int : Json → Option ℤ
  pub render_template_text : String → Dict Json → String
  pub request_hash : String → Option String → Option (List Json) → Dict Json → String
  pub sanitize_params : String → Dict Json → Dict Json × List String
  pub advisor : Run → String → String → Json → Dict Json → Dict Json → Result String (Dict Json)

unfoldable pub normalize_service_tier : Json → Option String
normalize_service_tier (str value) =
    let cleaned = lower (strip value) in
    if any (λ s. s == cleaned) ("auto" ∷ "default" ∷ "flex" ∷ "priority" ∷ [])
    then some cleaned
    else none
normalize_service_tier _ = none

unfoldable pub example_lines : (ℕ → String) → ℕ → List (String × String) → List String
example_lines show_number index [] = []
example_lines show_number index ((input, output) ∷ rest) =
    text_append "Example " (text_append (show_number index) " user:")
    ∷ input
    ∷ text_append "Example " (text_append (show_number index) " assistant:")
    ∷ output
    ∷ example_lines show_number (index + 1) rest

unfoldable pub render_few_shot_block : (ℕ → String) → List (String × String) → String
unfolding example_lines
render_few_shot_block show_number examples = join_lines (
    "Few-shot examples:"
    ∷ "Use these examples to mirror style and structure. Do not copy them verbatim."
    ∷ example_lines show_number 1 examples)

-- `req.get("messages")`, where it is a list.
abbrev pub messages_of : Dict Json → Option (List Json)
messages_of req = elim (lookup "messages" req) [ some (arr js) ↦ some (items js) | _ ↦ none ]

abbrev pub metadata_of : Dict Json → Dict Json
metadata_of req = as_dict (or_else (lookup "metadata" req) null)

abbrev pub input_of : Dict Json → Option String
input_of req = as_text (or_else (lookup "input" req) null)

-- `messages if messages else (rendered_input or "")`
abbrev pub input_payload : Option (List Json) → Option String → Json
input_payload messages rendered =
    if is_nil (or_else messages [])
    then str (or_else rendered "")
    else arr (to_items (or_else messages []))

abbrev pub rendered_of : Preparer → EndpointVersion → Job → Option String
rendered_of p version job =
    render_job_input p.render_template_text version.input_template (input_of job.request_json)
      (metadata_of job.request_json) (p.tenant_variables job.tenant_id)

-- The columns that are written before the request is looked at.
abbrev pub write_request : Preparer → EndpointVersion → Job → Job
write_request p version job =
    let req = job.request_json in
    let rendered = rendered_of p version job in
    record job {
      request_hash = some (p.request_hash version.id rendered (messages_of req) (metadata_of req));
      request_json = elim rendered [
        | none ↦ req
        | some text ↦ insert "rendered_input" (str text) req
      ];
    }

abbrev pub few_shot : Preparer → Dict Json → Job → List (String × String)
few_shot p params job =
    elim (parse_int_param p.to_int params "few_shot_limit" (pos 0) (pos 0) (pos 20)) [
      | pos (suc n) ↦
          if parse_bool_param params "few_shot_enabled" false
          then list_few_shot_examples p.show p.events job.tenant_id job.endpoint_id (pos (suc n))
          else []
      | _ ↦ []
    ]

abbrev pub persona_of : Preparer → Run → EndpointVersion → Option Persona
persona_of p run version =
    let id = or_else version.persona_id "" in
    if is_empty id
    then none
    else find (λ row. (row.id == id) && (row.tenant_id == run.tenant_id)) p.personas

abbrev pub system_prompt_of : Preparer → Run → EndpointVersion → Job → String
system_prompt_of p run version job =
    let prompt =
      compose_system_prompt p.dumps version.system_prompt (persona_of p run version)
        (p.context_blocks run.tenant_id version.id) in
    let examples = few_shot p version.params_json job in
    if is_nil examples
    then prompt
    else text_append prompt (text_append "\n\n" (render_few_shot_block p.show_number examples))

abbrev pub with_tier : Option String → Dict Json → Dict Json
with_tier none d = d
with_tier (some tier) d = insert "service_tier" (str tier) d

abbrev pub batch_usage :
    Preparer → Run → EndpointVersion → Job → Option String → List String → Dict Json → Dict Json
batch_usage p run version job tier dropped advisor =
    let usage =
      (
        "attempted_routes",
        arr (
            to_items (
              object (("provider", str run.provider_slug) ∷ ("model", str run.model_used) ∷ [])
              ∷ [])),
      )
      ∷ ("selected_provider", str run.provider_slug)
      ∷ ("selected_model", str run.model_used)
      ∷ ("cache_hit", bool false)
      ∷ ("persona", elim (persona_of p run version) [ none ↦ null | some row ↦ str row.name ])
      ∷ (
        "context_blocks",
        arr (to_items (map (λ b. str b.name) (p.context_blocks run.tenant_id version.id))),
      )
      ∷ ("few_shot_enabled", bool (parse_bool_param version.params_json "few_shot_enabled" false))
      ∷ ("few_shot_count", int (pos (length (few_shot p version.params_json job))))
      ∷ ("batch_mode", str "provider_native")
      ∷ ("advisor", object advisor)
      ∷ [] in
    with_tier tier (
      if is_nil dropped
      then usage
      else insert "dropped_unsupported_params" (arr (to_items (map str dropped))) usage)

abbrev pub body_of : Run → String → Json → Dict Json → Json
body_of run prompt input request_params = object (
    Dict.merge
      (("model", str run.model_used) ∷ ("instructions", str prompt) ∷ ("input", input) ∷ [])
      request_params)

-- `_prepare_batch_request_body`: the job as it is written, with the body, the text of a refusal, or an
-- exception.
unfoldable pub prepare_batch_request_body :
    Preparer → Run → EndpointVersion → Job → Job × Result String (Result String Json)
unfolding render_job_input compose_system_prompt render_few_shot_block normalize_service_tier
prepare_batch_request_body p run version job =
    let req = job.request_json in
    let params = version.params_json in
    let written = write_request p version job in
    let rendered = rendered_of p version job in
    let tier = normalize_service_tier (or_else (lookup "service_tier" (metadata_of req)) null) in
    let (sanitized, dropped) = p.sanitize_params run.model_used params in
    let prompt = system_prompt_of p run version job in
    let input = input_payload (messages_of req) rendered in
    elim (find_blocked_phrase p.lower_case (collect_request_text rendered (messages_of req))
      (parse_list_param params "blocked_input_phrases")) [
        | some phrase ↦ (written, ok (err (text_append "Input blocked by phrase: " phrase)))
        | none ↦ elim (p.advisor run job.tenant_id prompt input params (metadata_of req)) [
          | err e ↦ (written, err e)
          | ok advisor ↦ (
            record written {
              usage_json = some (batch_usage p run version job tier dropped advisor);
            },
            ok (ok (body_of run prompt input (with_tier tier sanitized))),
          )
        ]
      ]
