-- ===== src/Worker/Candidates.antt =====
-- api/app/tasks.py: the candidate routes of a run, from the parameters of the version. The slugs of the
-- providers, Python's `int` and the random order are parameters.
use Prim.Native.Char.{code}
use Prim.Native.String.{String}
use flash_connector.Prelude.{
  ◌+◌, ◌-◌, Bool, true, false, ◌&&◌, Option, none, some, List, [], ◌∷◌, ◌++◌, map, ltb, nat_eq,
  if◌then◌else◌, is_empty, or_else, strip, lower, ◌==◌, any, Result, ok, err, length, take,
}
use flash_connector.Prelude.Dict.{Dict, lookup}
use flash_connector.Json.{
  ℤ, pos, negsuc, Json, null, bool, int, float, str, obj, fields, as_list, truthy,
}
use flash_connector.Jobs.{EndpointVersion}
use flash_connector.Studio.{parse_int_param, parse_list_param}
use flash_connector.Worker.Routes.{Route}

pub record Routing : Type 0 where
  pub ensure_slug : String → Result String String
  pub normalize_slug : String → String
  pub to_int : Json → Option ℤ
  pub shuffle : List Route → List Route

abbrev bool_of_text : String → Bool → Bool
bool_of_text value default_ =
    if any (λ s. s == value) ("1" ∷ "true" ∷ "yes" ∷ "on" ∷ [])
    then true
    else if any (λ s. s == value) ("0" ∷ "false" ∷ "no" ∷ "off" ∷ [])
    then false
    else default_

-- `_parse_bool_param`
unfoldable pub parse_bool_param : Dict Json → String → Bool → Bool
parse_bool_param params key default_ = elim (or_else (lookup key params) (bool default_)) [
  | bool b ↦ b
  | int n ↦ truthy (int n)
  | float bits ↦ truthy (float bits)
  | str s ↦ bool_of_text (lower (strip s)) default_
  | _ ↦ default_
]

-- `value.split("/", 1)`, where there is a slash.
unfoldable pub split_slash : String → Option (String × String)
split_slash String.[] = none
split_slash (String.◌∷◌ c s) =
    let rest = split_slash s in
    if nat_eq (code c) 0x2f
    then some ("", s)
    else elim rest [ none ↦ none | some (prefix, model) ↦ some (String.◌∷◌ c prefix, model) ]

-- A route with a provider as it was written; one that is not supported is skipped.
abbrev pub named_route : Routing → String → String → Option Route
named_route rt provider model = elim (rt.ensure_slug provider) [
  | err _ ↦ none
  | ok slug ↦ some (slug, strip model)
]

abbrev pub route_of_provider : Routing → String → String → Option Json → Option Route
route_of_provider rt primary model (some (str provider)) = named_route rt provider model
route_of_provider rt primary model _ = some (primary, strip model)

abbrev pub route_of_dict : Routing → String → Option Json → Option Json → Option Route
route_of_dict rt primary provider (some (str model)) =
    if is_empty (strip model) then none else route_of_provider rt primary model provider
route_of_dict rt primary provider _ = none

abbrev pub route_of_text : Routing → String → String → Option Route
route_of_text rt primary value = if is_empty value then none else elim (split_slash value) [
  | some (prefix, model) ↦ named_route rt prefix model
  | none ↦ some (primary, value)
]

unfoldable pub route_of_item : Routing → String → Json → Option Route
unfolding split_slash
route_of_item rt primary (obj f) =
    route_of_dict rt primary (lookup "provider" (fields f)) (lookup "model" (fields f))
route_of_item rt primary (str s) = route_of_text rt primary (strip s)
route_of_item rt primary _ = none

unfoldable pub routes_of_items : Routing → String → List Json → List Route
unfolding route_of_item
routes_of_items rt primary [] = []
routes_of_items rt primary (item ∷ rest) =
    let others = routes_of_items rt primary rest in
    elim (route_of_item rt primary item) [ none ↦ others | some route ↦ route ∷ others ]

abbrev pub same_route : Route → Route → Bool
same_route r s = (s.0 == r.0) && (s.1 == r.1)

-- The loop that drops what has been seen.
unfoldable pub dedupe : List Route → List Route → List Route
dedupe seen [] = []
dedupe seen (r ∷ rest) =
    let skipped = dedupe seen rest in
    let kept = r ∷ dedupe (r ∷ seen) rest in if any (same_route r) seen then skipped else kept

-- `_parse_fallback_targets`
unfoldable pub parse_fallback_targets : Routing → String → Dict Json → List Route
unfolding parse_bool_param routes_of_items dedupe
parse_fallback_targets rt primary params =
    if parse_bool_param params "enable_fallbacks" false
    then dedupe [] (
        routes_of_items rt primary (as_list (or_else (lookup "fallback_targets" params) null))
        ++ map (λ model. (primary, model)) (parse_list_param params "fallback_models"))
    else []

abbrev pub primary_of : Routing → EndpointVersion → String
primary_of rt version =
    elim (rt.ensure_slug (if is_empty version.provider then "openai" else version.provider)) [
      | ok slug ↦ slug
      | err _ ↦ rt.normalize_slug "openai"
    ]

-- `str(…)` of what is not a text is never the word.
abbrev pub is_random : Dict Json → Bool
is_random params = elim (lookup "routing_strategy" params) [
  | some (str s) ↦ strip (lower s) == "random"
  | _ ↦ false
]

-- `routes[:n]`
abbrev pub take_ℤ : ℤ → List Route → List Route
take_ℤ (pos n) routes = take n routes
take_ℤ (negsuc n) routes = take (length routes - (n + 1)) routes

-- `_candidate_routes`
unfoldable pub candidate_routes : Routing → EndpointVersion → Dict Json → List Route
unfolding parse_fallback_targets
candidate_routes rt version params =
    let fallbacks = parse_fallback_targets rt (primary_of rt version) params in
    let ordered =
      if is_random params && ltb 0 (length fallbacks) then rt.shuffle fallbacks else fallbacks in
    let routes = (primary_of rt version, version.model) ∷ ordered in
    take_ℤ
      (parse_int_param rt.to_int params "max_route_attempts" (pos (length routes)) (pos 1) (pos 25))
      routes
