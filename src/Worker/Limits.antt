-- ===== src/Worker/Limits.antt =====
-- How many candidate routes a run has, and in which order.
use mathlib.Core.List.{Memᴰ}
use mathlib.Core.List.Memᴰ
use flash_connector.Prelude.{
  ℕ, zero, suc, ◌≤◌, Bool, true, false, ◌&&◌, none, List, [], ◌∷◌, ◌≡◌, refl, sym, arith, ◌⊎◌, inl,
  inr, leb, ltb, if◌then◌else◌, or_else, count_by, mem-count_by, length, take, length-take-le,
  Bool-cases, Option-cases,
}
use flash_connector.Prelude.Dict.{Dict, lookup}
use flash_connector.Json.{ℤ, pos, negsuc, Json, int}
use flash_connector.Jobs.{EndpointVersion}
use flash_connector.Studio.{parse_int_param, leb_ℤ, min_ℤ, max_ℤ}
use flash_connector.Worker.Routes.{Route}
use flash_connector.Worker.Candidates.{
  Routing, parse_bool_param, same_route, parse_fallback_targets, primary_of, is_random,
  candidate_routes,
}
use flash_connector.Worker.Fallbacks.{
  count_by-mem, mem-take, count_by-take-le, take-length, same_route_refl, same_route_eq, Supported,
  parse_fallback_targets-Supported, parse_fallback_targets-once,
}

-- A random order has the same elements as often.
abbrev pub Shuffles : (List Route → List Route) → Type 0
Shuffles shuffle = (p : Route → Bool) (xs : List Route) → count_by p (shuffle xs) ≡ count_by p xs

mem-shuffle :
    (shuffle : List Route → List Route) (xs : List Route) {r : Route}
    → Shuffles shuffle
    → Memᴰ r (shuffle xs)
    → Memᴰ r xs
mem-shuffle shuffle xs {r} h m =
    let there = mem-count_by (same_route r) (shuffle xs) m (same_route_refl r) in
    let same = h (same_route r) xs in
    let (s, k, q) = count_by-mem (same_route r) xs (omega (arith, there, same)) in
    Memᴰ.cast (sym (same_route_eq r s q)) k

-- A number that is clamped to 1 to 25.
clamp-between : (n : ℤ) → (k : ℕ) × (min_ℤ (max_ℤ n (pos 1)) (pos 25) ≡ pos (suc k)) × (suc k ≤ 25)
clamp-between (negsuc n) = (0, refl, omega arith)
clamp-between (pos zero) = (0, refl, omega arith)
clamp-between (pos (suc k)) =
    let positive : leb 1 (suc k) ≡ true = ground arith in
    elim (Bool-cases (leb (suc k) 25)) [
      | inl q ↦ (k, rw (max_ℤ, leb_ℤ, positive, min_ℤ, q) refl, ground (arith, q))
      | inr q ↦ (24, rw (max_ℤ, leb_ℤ, positive, min_ℤ, q) refl, omega arith)
    ]

-- The number of attempts that is asked for cannot be read.
abbrev pub Unreadable : Routing → Dict Json → ℕ → Type 0
Unreadable rt params n =
    rt.to_int (or_else (lookup "max_route_attempts" params) (int (pos n))) ≡ none

module _ (rt : Routing) (params : Dict Json) where
  attempts-limit :
      (n : ℕ)
      → (k : ℕ) × (parse_int_param rt.to_int params "max_route_attempts"
            (pos (suc n))
            (pos 1)
            (pos 25)
          ≡ pos (suc k))
        × ((suc k ≤ 25) ⊎ (Unreadable rt params (suc n) × (k ≡ n)))
  unfolding parse_int_param
  attempts-limit n =
      elim (Option-cases
        (rt.to_int (or_else (lookup "max_route_attempts" params) (int (pos (suc n)))))) [
          | inl q ↦ (n, rw (q, parse_int_param) refl, inr (q, refl))
          | inr (m, q) ↦ let (k, e, b) = clamp-between m in (k, rw (q, parse_int_param) e, inl b)
        ]

-- The first route is the version's own. The others are no more than once each, in any order, to a provider
-- that is supported, and there are none where fallbacks are off. There are 25 at most, unless the number is
-- one that cannot be read, which lists them all.
pub record Candidates (rt : Routing) (version : EndpointVersion) (params : Dict Json)
    (routes : List Route) : Type 0 where
  pub rest : List Route
  pub first : routes ≡ (primary_of rt version, version.model) ∷ rest
  pub once : (r : Route) → count_by (same_route r) rest ≤ 1
  pub supported : (r : Route) → Memᴰ r rest → Supported rt (primary_of rt version) r
  pub listed :
      (r : Route) → Memᴰ r rest → Memᴰ r (parse_fallback_targets rt (primary_of rt version) params)
  pub off : parse_bool_param params "enable_fallbacks" false ≡ false → rest ≡ []
  pub bounded :
      (length routes ≤ 25)
      ⊎ (Unreadable rt params (length routes)
          × (length rest ≡ length (parse_fallback_targets rt (primary_of rt version) params)))

count_all : (xs : List Route) → count_by (λ r. true) xs ≡ length xs
count_all [] = omega arith
count_all (x ∷ xs) = omega (arith, count_all xs)

no_members : (xs : List Route) → ((r : Route) → Memᴰ r xs → ⊥) → xs ≡ []
no_members [] h = refl
no_members (x ∷ xs) h = absurd (h x (Memᴰ.head refl))

module _ (rt : Routing) (shuffles : Shuffles rt.shuffle) (version : EndpointVersion)
    (params : Dict Json) where
  abbrev fallbacks : List Route
  fallbacks = parse_fallback_targets rt (primary_of rt version) params

  -- What the order of the fallbacks keeps.
  abbrev Ordered : List Route → Type 0
  Ordered xs =
      ((p : Route → Bool) → count_by p xs ≡ count_by p fallbacks)
      × ((r : Route) → Memᴰ r xs → Memᴰ r fallbacks)

  ordered :
      Ordered
        (if is_random params && ltb 0 (length fallbacks) then rt.shuffle fallbacks else fallbacks)
  ordered = elim (Bool-cases (is_random params && ltb 0 (length fallbacks))) [
    | inl q ↦ rw q (λ p. shuffles p fallbacks, λ r m. mem-shuffle rt.shuffle fallbacks shuffles m)
    | inr q ↦ rw q (λ p. refl, λ r m. m)
  ]

  cut-Candidates :
      (xs : List Route) (k : ℕ)
      → Ordered xs
      → (suc k ≤ 25) ⊎ (Unreadable rt params (suc (length xs)) × (k ≡ length xs))
      → Candidates rt version params ((primary_of rt version, version.model) ∷ take k xs)
  unfolding parse_fallback_targets
  cut-Candidates xs k (counts, members) limit = record {
    rest = take k xs;
    first = refl;
    once = λ r. omega (
      arith,
      count_by-take-le (same_route r) k xs,
      counts (same_route r),
      parse_fallback_targets-once rt (primary_of rt version) params r,
    );
    supported = λ r m.
        parse_fallback_targets-Supported rt (primary_of rt version) params
          (members r (mem-take k xs m));
    listed = λ r m. members r (mem-take k xs m);
    off = λ e.
        no_members (take k xs)
          (λ r m. Memᴰ.not-nil (rw (e, parse_fallback_targets) at (members r (mem-take k xs m))));
    bounded = elim limit [
      | inl b ↦ inl (omega (arith, length-take-le k xs, b))
      | inr (u, e) ↦
          let whole : take k xs ≡ xs = rw e (take-length xs) in
          rw whole (inr (u, omega (arith, counts (λ r. true), count_all xs, count_all fallbacks)))
    ];
  }

-- The candidate routes of a run, where the random order keeps what it orders: the version's own route, and
-- then supported fallbacks without repetition, 25 in all at most where the number of attempts can be read.
pub candidate_routes-Candidates :
    (rt : Routing) (version : EndpointVersion) (params : Dict Json)
    → Shuffles rt.shuffle
    → Candidates rt version params (candidate_routes rt version params)
unfolding candidate_routes
candidate_routes-Candidates rt version params shuffles =
    let fallbacks = parse_fallback_targets rt (primary_of rt version) params in
    let xs =
      if is_random params && ltb 0 (length fallbacks) then rt.shuffle fallbacks else fallbacks in
    let (k, e, limit) = attempts-limit rt params (length xs) in
    rw e (cut-Candidates rt shuffles version params xs k (ordered rt shuffles version params) limit)
