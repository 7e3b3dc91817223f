-- ===== src/Training/Examples.antt =====
-- The few-shot examples of api/app/services/training.py.
use flash_connector.Prelude.{
  ℕ, String, Bool, true, false, ◌&&◌, ◌||◌, Option, none, some, List, [], ◌∷◌, ◌++◌, reverse, min,
  max, if◌then◌else◌, is_empty, take, select, or_else, strip, text_append, ◌==◌,
}
use flash_connector.Prelude.Dict.{lookup}
use flash_connector.Json.{ℤ, pos, negsuc, Json, null, str, arr, obj, items, fields, as_list, truthy}
use flash_connector.Studio.{join_lines}
use flash_connector.Training.{TrainingEvent, SaveMode, full, redacted}
use flash_connector.Training.Query.{newest_first}

-- `value.strip()` of a text that is not blank
abbrev stripped_text : Option Json → Option String
stripped_text (some (str s)) = if is_empty (strip s) then none else some (strip s)
stripped_text _ = none

abbrev spoken : String → Option String → List String
spoken role none = []
spoken role (some text) = text_append role (text_append ": " text) ∷ []

unfoldable pub part_fragments : String → List Json → List String
part_fragments role [] = []
part_fragments role (obj f ∷ rest) =
    spoken role (stripped_text (lookup "text" (fields f))) ++ part_fragments role rest
part_fragments role (_ ∷ rest) = part_fragments role rest

abbrev content_fragments : String → Option Json → List String
content_fragments role (some (arr js)) = part_fragments role (items js)
content_fragments role content = spoken role (stripped_text content)

-- `show` is Python's `str` of a value that is no text.
abbrev role_of : (Json → String) → Option Json → String
role_of show none = "user"
role_of show (some (str s)) = if is_empty s then "user" else s
role_of show (some j) = if truthy j then show j else "user"

unfoldable pub message_fragments : (Json → String) → List Json → List String
unfolding part_fragments
message_fragments show [] = []
message_fragments show (obj f ∷ rest) =
    content_fragments (role_of show (lookup "role" (fields f))) (lookup "content" (fields f))
    ++ message_fragments show rest
message_fragments show (_ ∷ rest) = message_fragments show rest

unfoldable pub extract_training_input_text : (Json → String) → TrainingEvent → String
unfolding message_fragments
extract_training_input_text show e = elim (stripped_text (lookup "input" e.input_json)) [
  | some text ↦ text
  | none ↦ elim (stripped_text (lookup "rendered_input" e.input_json)) [
    | some text ↦ text
    | none ↦
        join_lines
          (message_fragments show (as_list (or_else (lookup "messages" e.input_json) null)))
  ]
]

-- `min(max(int(limit), 1), 20)`
abbrev pub bounded_limit : ℤ → ℕ
bounded_limit (pos n) = min (max n 1) 20
bounded_limit (negsuc n) = 1

abbrev pub is_full : SaveMode → Bool
is_full full = true
is_full redacted = false

abbrev pub is_example : String → String → TrainingEvent → Bool
is_example tenant_id endpoint_id e =
    (e.tenant_id == tenant_id)
    && (e.endpoint_id == endpoint_id)
    && e.is_few_shot
    && is_full e.save_mode

-- `event.edited_ideal_output or event.output_text`
abbrev pub ideal_output : TrainingEvent → String
ideal_output e = elim e.edited_ideal_output [
  | none ↦ e.output_text
  | some s ↦ if is_empty s then e.output_text else s
]

unfoldable pub collect_examples : (Json → String) → List TrainingEvent → List (String × String)
unfolding extract_training_input_text
collect_examples show [] = []
collect_examples show (e ∷ rest) =
    let input_text = extract_training_input_text show e in
    let output_text = strip (ideal_output e) in
    let others = collect_examples show rest in
    if is_empty input_text || is_empty output_text
    then others
    else (input_text, output_text) ∷ others

unfoldable pub list_few_shot_examples :
    (Json → String) → List TrainingEvent → String → String → ℤ → List (String × String)
unfolding collect_examples newest_first
list_few_shot_examples show events tenant_id endpoint_id limit = reverse (
    collect_examples show (
      take (bounded_limit limit) (newest_first (select (is_example tenant_id endpoint_id) events))))
