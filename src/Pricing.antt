-- ===== src/Pricing.antt =====
-- api/app/services/pricing.py: the price of a job from the built-in rates. A rate is the bit pattern of a
-- double, and what is computed with rates is a parameter, as are Python's `int`, the lower case of all of
-- Unicode, `fnmatchcase` and the catalogue that is read from files.
pub mod Sorting
pub mod Selection
mod Tests
use Prim.Native.Char.{Char, code}
use Prim.Native.String
use flash_connector.Prelude.{
  ℕ, zero, suc, ◌+◌, ◌-◌, min, max, String, Bool, true, false, ◌&&◌, ◌||◌, not, Option, none, some,
  List, [], ◌∷◌, ◌==◌, if◌then◌else◌, ltb, leb, nat_eq, select, is_empty, is_nil, or_else, strip,
  Result, ok, err, ◌>>=◌,
}
use flash_connector.Prelude.Dict.{Dict, lookup}
use flash_connector.Json.{Json, ℤ, pos, negsuc, null, int, obj, str, float, fields}

pub record TokenUsage : Type 0 where
  pub input_tokens : ℕ
  pub output_tokens : ℕ
  pub cached_input_tokens : ℕ

pub record BuiltinPricingRate : Type 0 where
  pub model_pattern : String
  pub input_per_1m_usd : ℕ
  pub output_per_1m_usd : ℕ
  pub cached_input_per_1m_usd : Option ℕ

-- `source` is "builtin_estimate" and `pricing_rate_id` is `None` in every one.
pub record ResolvedPricing : Type 0 where
  pub model_pattern : String
  pub input_per_1m_usd : ℕ
  pub output_per_1m_usd : ℕ
  pub cached_input_per_1m_usd : Option ℕ

pub record Library : Type 0 where
  -- `int(value)`, nothing where it raises an exception that is caught
  pub to_int : Json → Option ℤ
  pub lower_case : String → String
  pub fnmatchcase : String → String → Bool
  pub ensure_slug : String → Result String String
  -- the cost of tokens at the three rates, rounded: of uncached, cached and output tokens
  pub total_cost : ℕ → ℕ → ℕ → ℕ → ℕ → ℕ → ℕ

unfoldable pub to_nonnegative_int : Library → Json → ℕ
to_nonnegative_int lib value = elim (lib.to_int value) [
  | none ↦ 0
  | some (pos n) ↦ n
  | some (negsuc n) ↦ 0
]

abbrev zero_json : Json
zero_json = int (pos 0)

-- `details.get("cached_tokens")` where the details are a dictionary, and zero otherwise
abbrev cached_in : Library → Option Json → ℕ
cached_in lib (some (obj f)) =
    to_nonnegative_int lib (or_else (lookup "cached_tokens" (fields f)) null)
cached_in lib _ = 0

abbrev pub or_positive : ℕ → ℕ → ℕ
or_positive zero later = later
or_positive (suc n) later = suc n

unfoldable pub extract_token_usage : Library → Dict Json → TokenUsage
unfolding to_nonnegative_int
extract_token_usage lib usage =
    let input =
      to_nonnegative_int lib (
        or_else (lookup "input_tokens" usage) (or_else (lookup "prompt_tokens" usage) zero_json)) in
    let output = to_nonnegative_int lib (
      or_else (lookup "output_tokens" usage)
        (or_else (lookup "completion_tokens" usage) zero_json)) in
    let cached = or_positive (cached_in lib (lookup "input_tokens_details" usage)) (
      or_positive (cached_in lib (lookup "prompt_tokens_details" usage))
        (to_nonnegative_int lib (or_else (lookup "cached_tokens" usage) zero_json))) in
    record {
      input_tokens = input;
      output_tokens = output;
      cached_input_tokens = if ltb input cached then input else cached;
    }

unfoldable pub normalize_model_pattern : Library → String → String
normalize_model_pattern lib value =
    let cleaned = lib.lower_case (strip value) in if is_empty cleaned then "*" else cleaned

-- A character of "*?[]".
abbrev is_wildcard_char : Char → Bool
is_wildcard_char c =
    nat_eq (code c) 42 || nat_eq (code c) 63 || nat_eq (code c) 91 || nat_eq (code c) 93

unfoldable pub is_wildcard_pattern : String → Bool
is_wildcard_pattern String.[] = false
is_wildcard_pattern (String.◌∷◌ c s) = is_wildcard_char c || is_wildcard_pattern s

unfoldable pub count_literals : String → ℕ
count_literals String.[] = 0
count_literals (String.◌∷◌ c s) =
    let rest = count_literals s in if is_wildcard_char c then rest else rest + 1

abbrev pub pattern_specificity : Library → String → ℕ × ℕ
pattern_specificity lib pattern =
    let normalized = normalize_model_pattern lib pattern in
    (count_literals normalized, Prim.Native.String.count normalized)

-- `a > b` on pairs
abbrev pub pair_gt : ℕ × ℕ → ℕ × ℕ → Bool
pair_gt (a, b) (c, d) = ltb c a || (nat_eq a c && ltb d b)

abbrev pub more_specific : Library → BuiltinPricingRate → BuiltinPricingRate → Bool
more_specific lib a b =
    pair_gt (pattern_specificity lib a.model_pattern) (pattern_specificity lib b.model_pattern)

abbrev pub insert_rate :
    Library → BuiltinPricingRate → List BuiltinPricingRate → List BuiltinPricingRate
insert_rate lib a [] = a ∷ []
insert_rate lib a (b ∷ bs) = if more_specific lib b a then b ∷ insert_rate lib a bs else a ∷ b ∷ bs

-- `.sort(key=_pattern_specificity, reverse=True)`, which is stable
unfoldable pub sort_rates : Library → List BuiltinPricingRate → List BuiltinPricingRate
sort_rates lib [] = []
sort_rates lib (a ∷ rest) = insert_rate lib a (sort_rates lib rest)

abbrev pub is_exact : Library → String → BuiltinPricingRate → Bool
is_exact lib probe rate = normalize_model_pattern lib rate.model_pattern == probe

abbrev pub is_match : Library → String → BuiltinPricingRate → Bool
is_match lib probe rate =
    is_wildcard_pattern rate.model_pattern
    && lib.fnmatchcase probe (normalize_model_pattern lib rate.model_pattern)

abbrev pub priced : Library → BuiltinPricingRate → ResolvedPricing
priced lib r = record {
  model_pattern = normalize_model_pattern lib r.model_pattern;
  input_per_1m_usd = r.input_per_1m_usd;
  output_per_1m_usd = r.output_per_1m_usd;
  cached_input_per_1m_usd = r.cached_input_per_1m_usd;
}

abbrev pub first_rate : List BuiltinPricingRate → Option BuiltinPricingRate
first_rate [] = none
first_rate (r ∷ rs) = some r

-- The rate for a model that is not blank.
unfoldable pub choose_rate : Library → List BuiltinPricingRate → String → Option BuiltinPricingRate
unfolding sort_rates normalize_model_pattern is_wildcard_pattern
choose_rate lib rates probe = elim (first_rate (select (is_exact lib probe) rates)) [
  | some r ↦ some r
  | none ↦ first_rate (sort_rates lib (select (is_match lib probe) rates))
]

abbrev pub Catalog : Type 0
Catalog = Dict (List BuiltinPricingRate)

unfoldable pub resolve_builtin_pricing :
    Library → Catalog → String → String → Result String (Option ResolvedPricing)
unfolding choose_rate
resolve_builtin_pricing lib catalog provider_slug model = lib.ensure_slug provider_slug >>= λ slug.
    let probe = lib.lower_case (strip model) in
    if is_empty probe
    then ok none
    else elim (choose_rate lib (or_else (lookup slug catalog) []) probe) [
      | none ↦ ok none
      | some r ↦ ok (some (priced lib r))
    ]

-- What `details` holds of the tokens and the rates.
pub record PricingDetails : Type 0 where
  pub pricing : ResolvedPricing
  pub usage : TokenUsage
  pub cached_rate : ℕ
  pub estimated_cost_usd : ℕ

abbrev pub estimate : Library → TokenUsage → ResolvedPricing → PricingDetails
estimate lib usage p =
    let cached_rate = or_else p.cached_input_per_1m_usd p.input_per_1m_usd in
    record {
      pricing = p;
      usage = usage;
      cached_rate = cached_rate;
      estimated_cost_usd =
          lib.total_cost (usage.input_tokens - usage.cached_input_tokens) p.input_per_1m_usd
            usage.cached_input_tokens cached_rate usage.output_tokens p.output_per_1m_usd;
    }

abbrev blank : Option String → Bool
blank none = true
blank (some s) = is_empty s

unfoldable pub estimate_job_cost_usd :
    Library → Catalog → Option String → Option String → Option (Dict Json) → Option PricingDetails
unfolding resolve_builtin_pricing extract_token_usage
estimate_job_cost_usd lib catalog provider_slug model usage_json =
    if blank provider_slug || blank model
    then none
    else elim (resolve_builtin_pricing lib catalog (or_else provider_slug "") (or_else model "")) [
      | err e ↦ none
      | ok none ↦ none
      | ok (some p) ↦ some (estimate lib (extract_token_usage lib (or_else usage_json [])) p)
    ]
