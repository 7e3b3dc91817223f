-- ===== src/Pricing/Selection.antt =====
-- Which rate prices a job, and for which tokens.
use mathlib.Core.List.{Memᴰ}
use mathlib.Core.List.Memᴰ
use flash_connector.Prelude.{
  ◌-◌, ◌≤◌, String, true, false, ◌||◌, Option, none, some, List, [], ◌∷◌, ◌≡◌, refl, sym, ◌∙◌, ap,
  subst, arith, ◌⊎◌, inl, inr, select, mem-select, select_keeps, is_empty, or_else, strip,
  Bool-cases, Option-cases, Result-cases, Result, ok,
}
use flash_connector.Prelude.Dict.{Dict, lookup}
use flash_connector.Json.{Json}
use flash_connector.Pricing.{
  Library, BuiltinPricingRate, ResolvedPricing, TokenUsage, PricingDetails, Catalog, more_specific,
  is_exact, is_match, priced, first_rate, choose_rate, resolve_builtin_pricing, extract_token_usage,
  estimate, estimate_job_cost_usd,
}
use flash_connector.Pricing.Sorting.{first_rate-sort}

-- How a rate is chosen for a model: it is the model's own, or there is none and it is a matching pattern
-- that no matching pattern is more specific than.
abbrev pub Selected : Library → List BuiltinPricingRate → String → BuiltinPricingRate → Type 0
Selected lib rates probe r =
    Memᴰ r rates
    × ((is_exact lib probe r ≡ true)
        ⊎ ((is_match lib probe r ≡ true)
            × ((x : BuiltinPricingRate)
                → Memᴰ x rates
                → (is_exact lib probe x ≡ false)
                  × (is_match lib probe x ≡ true → more_specific lib x r ≡ false))))

first_rate-mem :
    (rs : List BuiltinPricingRate) (r : BuiltinPricingRate) → first_rate rs ≡ some r → Memᴰ r rs
first_rate-mem [] r h = absurd (cc)
first_rate-mem (x ∷ xs) r h = let e : x ≡ r = ground (arith, h) in Memᴰ.head (sym e)

first_rate-none : (rs : List BuiltinPricingRate) → first_rate rs ≡ none → rs ≡ []
first_rate-none [] h = refl
first_rate-none (x ∷ xs) h = absurd (cc)

choose_rate-Selected :
    (lib : Library) (rates : List BuiltinPricingRate) (probe : String) (r : BuiltinPricingRate)
    → choose_rate lib rates probe ≡ some r
    → Selected lib rates probe r
unfolding choose_rate
choose_rate-Selected lib rates probe r h =
    let exact = select (is_exact lib probe) rates in
    elim (Option-cases (first_rate exact)) [
      | inr (x, e) ↦
          let h' : some x ≡ some r = rw (e, choose_rate) at h in
          let same : x ≡ r = ground (arith, h') in
          let (m, q) = mem-select (is_exact lib probe) rates (first_rate-mem exact r (e ∙ h')) in
          (m, inl q)
      | inl e ↦
          let matching = select (is_match lib probe) rates in
          let (m, top) = first_rate-sort lib matching r (rw (e, choose_rate) at h) in
          let (k, q) = mem-select (is_match lib probe) rates m in
          (
            k,
            inr (
              q,
              λ x n. (
                no_exact x n (first_rate-none exact e),
                λ w. top x (select_keeps (is_match lib probe) rates n w),
              ),
            ),
          )
    ]
  where
    no_exact :
        (x : BuiltinPricingRate)
        → Memᴰ x rates
        → select (is_exact lib probe) rates ≡ []
        → is_exact lib probe x ≡ false
    no_exact x n empty = elim (Bool-cases (is_exact lib probe x)) [
      | inr q ↦ q
      | inl q ↦
          let m = select_keeps (is_exact lib probe) rates n q in
          absurd (Memᴰ.not-nil (subst (Memᴰ x) empty m))
    ]

resolve_builtin_pricing-Selected :
    (lib : Library) (catalog : Catalog) (provider_slug model : String) (p : ResolvedPricing)
    → resolve_builtin_pricing lib catalog provider_slug model ≡ ok (some p)
    → (slug : String) × (r : BuiltinPricingRate) × (lib.ensure_slug provider_slug ≡ ok slug)
      × Selected lib (or_else (lookup slug catalog) []) (lib.lower_case (strip model)) r
      × (p ≡ priced lib r)
unfolding resolve_builtin_pricing
resolve_builtin_pricing-Selected lib catalog provider_slug model p h =
    let probe = lib.lower_case (strip model) in
    elim (Result-cases (lib.ensure_slug provider_slug)) [
      | inr (e, a) ↦ absurd (cc (rw (a, resolve_builtin_pricing) at h))
      | inl (slug, a) ↦ elim (Bool-cases (is_empty probe)) [
        | inl b ↦ absurd (cc (rw (a, b, resolve_builtin_pricing) at h))
        | inr b ↦ elim (Option-cases (choose_rate lib (or_else (lookup slug catalog) []) probe)) [
          | inl c ↦ absurd (cc (rw (a, b, c, resolve_builtin_pricing) at h))
          | inr (r, c) ↦
              let h' : ◌≡◌ {A = Result String (Option ResolvedPricing)} (ok (some (priced lib r)))
                  (ok (some p)) =
                rw (a, b, c, resolve_builtin_pricing) at h in
              (
                slug,
                r,
                a,
                choose_rate-Selected lib (or_else (lookup slug catalog) []) probe r c,
                cc,
              )
        ]
      ]
    ]

extract_token_usage-le :
    (lib : Library) (usage : Dict Json)
    → (extract_token_usage lib usage).cached_input_tokens
      ≤ (extract_token_usage lib usage).input_tokens
unfolding extract_token_usage
extract_token_usage-le lib usage = ground arith

-- What the details say of the tokens and the cost.
abbrev pub Costs : Library → BuiltinPricingRate → TokenUsage → PricingDetails → Type 0
Costs lib r usage d =
    (d.usage ≡ usage)
    × (d.usage.cached_input_tokens ≤ d.usage.input_tokens)
    × (d.estimated_cost_usd
        ≡ lib.total_cost (d.usage.input_tokens - d.usage.cached_input_tokens) r.input_per_1m_usd
            d.usage.cached_input_tokens (or_else r.cached_input_per_1m_usd r.input_per_1m_usd)
            d.usage.output_tokens r.output_per_1m_usd)

-- The price of a job, where there is one, is that of one rate of the provider: the rate for just this
-- model or, without one, a matching pattern that no matching pattern is more specific than. The tokens
-- are those of the usage, of which no more are cached than came in, and the cost is the one of the
-- uncached and the cached ones together, the cached ones at their own rate where there is one.
pub estimate_job_cost_usd-Selected :
    (lib : Library) (catalog : Catalog) (provider_slug model : String)
    (usage_json : Option (Dict Json)) (d : PricingDetails)
    → estimate_job_cost_usd lib catalog (some provider_slug) (some model) usage_json ≡ some d
    → (slug : String) × (r : BuiltinPricingRate) × (lib.ensure_slug provider_slug ≡ ok slug)
      × Selected lib (or_else (lookup slug catalog) []) (lib.lower_case (strip model)) r
      × Costs lib r (extract_token_usage lib (or_else usage_json [])) d
unfolding estimate_job_cost_usd
estimate_job_cost_usd-Selected lib catalog provider_slug model usage_json d h =
    let usage = extract_token_usage lib (or_else usage_json []) in
    elim (Bool-cases (is_empty provider_slug || is_empty model)) [
      | inl b ↦ absurd (cc (rw (b, estimate_job_cost_usd) at h))
      | inr b ↦ elim (Result-cases (resolve_builtin_pricing lib catalog provider_slug model)) [
        | inr (e, p) ↦ absurd (cc (rw (b, p, estimate_job_cost_usd) at h))
        | inl (none, p) ↦ absurd (cc (rw (b, p, estimate_job_cost_usd) at h))
        | inl (some q, p) ↦
            let (slug, r, a, chosen, same) =
              resolve_builtin_pricing-Selected lib catalog provider_slug model q p in
            let h' : some (estimate lib usage q) ≡ some d = rw (b, p, estimate_job_cost_usd) at h in
            let is_d : estimate lib usage (priced lib r) ≡ d =
              ap (estimate lib usage) (sym same) ∙ some_injective h' in
            (
              slug,
              r,
              a,
              chosen,
              subst (Costs lib r usage) is_d
                  (refl, extract_token_usage-le lib (or_else usage_json []), refl),
            )
      ]
    ]
  where
    some_injective : {x y : PricingDetails} → some x ≡ some y → x ≡ y
    some_injective e = cc
