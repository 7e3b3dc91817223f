-- ===== src/Studio.antt =====
-- api/app/services/prompt_studio.py: the parameters of an endpoint version, the variables of a
-- template, and the phrases that block a request.
pub mod Parameters
pub mod Phrases
pub mod Prompts
mod Tests
use Prim.Native.Char.{code}
use flash_connector.Prelude.{
  ◌||◌, nat_eq, ℕ, ◌≤◌, String, Bool, true, false, ◌&&◌, not, Option, none, some, List, [], ◌∷◌,
  ◌++◌, map, ltb, leb, if◌then◌else◌, is_empty, is_some, is_nil, any, or_else, strip, lower,
  text_append, ◌==◌,
}
use flash_connector.Prelude.Dict
use flash_connector.Prelude.Dict.{Dict, lookup, contains, insert}
use flash_connector.Json.{
  ℤ, pos, negsuc, Json, null, bool, int, float, str, arr, obj, as_text, as_list, items, fields,
}

abbrev pub leb_ℤ : ℤ → ℤ → Bool
leb_ℤ (pos a) (pos b) = leb a b
leb_ℤ (pos a) (negsuc b) = false
leb_ℤ (negsuc a) (pos b) = true
leb_ℤ (negsuc a) (negsuc b) = leb b a

-- Python's `min` and `max` of two: the first wins a tie.
abbrev pub max_ℤ : ℤ → ℤ → ℤ
max_ℤ a b = if leb_ℤ b a then a else b

abbrev pub min_ℤ : ℤ → ℤ → ℤ
min_ℤ a b = if leb_ℤ a b then a else b

-- `int(raw)`, where an exception that is caught is nothing.
unfoldable pub parse_int_param : (Json → Option ℤ) → Dict Json → String → ℤ → ℤ → ℤ → ℤ
parse_int_param to_int params key default_ min_value max_value =
    elim (to_int (or_else (lookup key params) (int default_))) [
      | none ↦ default_
      | some as_int ↦ min_ℤ (max_ℤ as_int min_value) max_value
    ]

abbrev pub mem : String → List String → Bool
mem s = any (λ t. t == s)

-- The loop of `parse_list_param`, with what has been seen, which is what has been collected.
unfoldable pub collect_texts : List String → List Json → List String
collect_texts seen [] = []
collect_texts seen (value ∷ rest) =
    let item = strip (or_else (as_text value) "") in
    let kept = item ∷ collect_texts (item ∷ seen) rest in
    let skipped = collect_texts seen rest in
    if is_empty item then skipped else if mem item seen then skipped else kept

unfoldable pub parse_list_param : Dict Json → String → List String
unfolding collect_texts
parse_list_param params key = elim (lookup key params) [
  | none ↦ []
  | some raw ↦ collect_texts [] (as_list raw)
]

-- `probe in lowered`
abbrev pub starts_text : String → String → Bool
starts_text String.[] s = true
starts_text (String.◌∷◌ c p) String.[] = false
starts_text (String.◌∷◌ c p) (String.◌∷◌ d s) = nat_eq (code c) (code d) && starts_text p s

abbrev pub within : String → String → Bool
within p String.[] = is_empty p
within p (String.◌∷◌ c s) = starts_text p (String.◌∷◌ c s) || within p s

-- Lower case is a parameter: Python's covers all of Unicode.
module _ (lower_case : String → String) where
  unfoldable pub find_blocked_phrase : String → List String → Option String
  find_blocked_phrase text [] = none
  find_blocked_phrase text (phrase ∷ rest) =
      if not (is_empty (lower_case phrase)) && within (lower_case phrase) (lower_case text)
      then some phrase
      else find_blocked_phrase text rest

-- `merged.setdefault("input", input_text or "")`
unfoldable pub merge_variables : Dict String → Dict Json → Option String → Dict Json
merge_variables tenant_variables metadata input_text =
    let merged = Dict.merge (map (λ v. (v.0, str v.1)) tenant_variables) metadata in
    if contains "input" merged then merged else insert "input" (str (or_else input_text "")) merged

-- The text parts of one message.
unfoldable pub content_texts : List Json → List String
content_texts [] = []
content_texts (obj f ∷ rest) = elim (lookup "text" (fields f)) [
  | some (str text) ↦ text ∷ content_texts rest
  | _ ↦ content_texts rest
]
content_texts (_ ∷ rest) = content_texts rest

abbrev message_texts : Json → List String
message_texts (str text) = text ∷ []
message_texts (arr js) = content_texts (items js)
message_texts _ = []

unfoldable pub chunks : List Json → List String
unfolding content_texts
chunks [] = []
chunks (obj f ∷ rest) = message_texts (or_else (lookup "content" (fields f)) null) ++ chunks rest
chunks (_ ∷ rest) = chunks rest

-- `"\n".join(chunks)`
unfoldable pub join_lines : List String → String
join_lines [] = ""
join_lines (s ∷ []) = s
join_lines (s ∷ t ∷ rest) = text_append s (text_append "\n" (join_lines (t ∷ rest)))

unfoldable pub collect_request_text : Option String → Option (List Json) → String
unfolding chunks join_lines
collect_request_text input_text messages =
    let text = or_else input_text "" in
    if is_empty text then join_lines (chunks (or_else messages [])) else text
