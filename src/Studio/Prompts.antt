-- ===== src/Studio/Prompts.antt =====
-- The texts that api/app/services/prompt_studio.py makes of a request and of a prompt. The substitution of
-- variables in a template and the JSON printer are parameters.
use flash_connector.Prelude.{
  String, Option, none, some, List, [], ◌∷◌, ◌++◌, map, if◌then◌else◌, is_empty, is_nil,
  text_append,
}
use flash_connector.Prelude.Dict.{Dict}
use flash_connector.Json.{Json, object}
use flash_connector.Studio.{merge_variables}

pub record Persona : Type 0 where
  pub id : String
  pub tenant_id : String
  pub name : String
  pub instructions : String
  pub style_json : Dict Json

pub record ContextBlock : Type 0 where
  pub name : String
  pub content : String

-- The input, with the template where there is one and the input is a text.
unfoldable pub render_job_input :
    (String → Dict Json → String)
    → Option String
    → Option String
    → Dict Json
    → Dict String
    → Option String
render_job_input render_template_text none input_text metadata tenant_variables = input_text
render_job_input render_template_text (some template) none metadata tenant_variables = none
render_job_input render_template_text (some template) (some input) metadata tenant_variables =
    if is_empty template
    then some input
    else some
        (render_template_text template (merge_variables tenant_variables metadata (some input)))

-- `"\n\n".join(parts)`
unfoldable pub join_blocks : List String → String
join_blocks [] = ""
join_blocks (s ∷ []) = s
join_blocks (s ∷ t ∷ rest) = text_append s (text_append "\n\n" (join_blocks (t ∷ rest)))

abbrev headed : String → String → String → String
headed heading name body = text_append heading (text_append name (text_append "]\n" body))

abbrev persona_parts : (Json → String) → Option Persona → List String
persona_parts dumps none = []
persona_parts dumps (some p) =
    headed "[Persona: " p.name p.instructions
    ∷ (if is_nil p.style_json
        then []
        else text_append "[Persona Style JSON]\n" (dumps (object p.style_json)) ∷ [])

abbrev context_parts : List ContextBlock → List String
context_parts [] = []
context_parts (block ∷ rest) =
    join_blocks (map (λ b. headed "[Context: " b.name b.content) (block ∷ rest)) ∷ []

unfoldable pub compose_system_prompt :
    (Json → String) → String → Option Persona → List ContextBlock → String
unfolding join_blocks
compose_system_prompt dumps system_prompt persona context_blocks =
    join_blocks (persona_parts dumps persona ++ context_parts context_blocks ++ system_prompt ∷ [])
