-- ===== src/Pricing/Tests.antt =====
-- Runs of api/app/services/pricing.py.
use flash_connector.Prelude.{
  ℕ, ◌+◌, ◌*◌, String, true, Option, none, some, List, [], ◌∷◌, ◌≡◌, refl, ok, strip, or_else,
}
use flash_connector.Prelude.Dict.{lookup}
use flash_connector.Json.{Json, int, pos, ℤ}
use flash_connector.Pricing.{
  Library, BuiltinPricingRate, PricingDetails, extract_token_usage, estimate_job_cost_usd,
  is_wildcard_pattern, count_literals,
}
use flash_connector.Pricing.Selection.{Selected, Costs, estimate_job_cost_usd-Selected}

abbrev read_int : Json → Option ℤ
read_int (int n) = some n
read_int _ = none

abbrev library : Library
library = record {
  to_int = read_int;
  lower_case = λ s. s;
  fnmatchcase = λ name pattern. true;
  ensure_slug = λ s. ok s;
  total_cost = λ a p b q c r. a * p + b * q + c * r;
}

abbrev rate : String → ℕ → BuiltinPricingRate
rate pattern price = record {
  model_pattern = pattern;
  input_per_1m_usd = price;
  output_per_1m_usd = 3;
  cached_input_per_1m_usd = some 1;
}

abbrev rates : List BuiltinPricingRate
rates = rate "*" 9 ∷ rate "small-*" 2 ∷ []

abbrev details : PricingDetails
details = record {
  pricing = record {
    model_pattern = "small-*";
    input_per_1m_usd = 2;
    output_per_1m_usd = 3;
    cached_input_per_1m_usd = some 1;
  };
  usage = record { input_tokens = 10; output_tokens = 4; cached_input_tokens = 10 };
  cached_rate = 1;
  estimated_cost_usd = 22;
}

-- More cached tokens than came in count as the ones that came in.
estimate_job_cost_usd-Selected_example :
    (slug : String) × (r : BuiltinPricingRate) × (library.ensure_slug "openai" ≡ ok slug)
    × Selected library (or_else (lookup slug (("openai", rates) ∷ [])) []) "small-1" r
    × Costs library r
        (extract_token_usage library (
          ("prompt_tokens", int (pos 10))
          ∷ ("output_tokens", int (pos 4))
          ∷ ("cached_tokens", int (pos 12))
          ∷ []))
        details
unfolding estimate_job_cost_usd strip is_wildcard_pattern count_literals
estimate_job_cost_usd-Selected_example =
    estimate_job_cost_usd-Selected library (("openai", rates) ∷ []) "openai" "small-1"
      (some (
        ("prompt_tokens", int (pos 10))
        ∷ ("output_tokens", int (pos 4))
        ∷ ("cached_tokens", int (pos 12))
        ∷ []))
      details refl
