-- ===== src/Worker/Fallbacks.antt =====
-- What the candidate routes of a run are.
use mathlib.Core.List.{Memᴰ}
use mathlib.Core.List.Memᴰ
use flash_connector.Prelude.{
  ℕ, zero, suc, ◌+◌, ◌≤◌, String, Bool, true, false, Option, none, some, List, [], ◌∷◌, ◌++◌, map,
  ◌≡◌, refl, sym, ap, subst, arith, ◌⊎◌, inl, inr, if◌then◌else◌, is_empty, or_else, strip, eq_iff,
  any, count_by, length, take, Bool-cases, Option-cases, Result-cases, ok,
}
use flash_connector.Prelude.Dict.{Dict, lookup}
use flash_connector.Json.{Json, null, bool, int, float, str, arr, obj, fields, as_list}
use flash_connector.Studio.{parse_list_param}
use flash_connector.Worker.Routes.{Route}
use flash_connector.Worker.Candidates.{
  Routing, parse_bool_param, split_slash, named_route, route_of_provider, route_of_dict,
  route_of_text, route_of_item, routes_of_items, same_route, dedupe, parse_fallback_targets,
}

module _ {A : Type 0} where
  pub count_by-mem :
      (p : A → Bool) (xs : List A) → 1 ≤ count_by p xs → (a : A) × Memᴰ a xs × (p a ≡ true)
  count_by-mem p [] h = absurd (omega (arith, h))
  count_by-mem p (x ∷ xs) h = elim (Bool-cases (p x)) [
    | inl e ↦ (x, Memᴰ.head refl, e)
    | inr e ↦
        let h' : 1 ≤ 0 + count_by p xs = rw e at h in
        let (a, m, t) = count_by-mem p xs (omega (arith, h')) in (a, Memᴰ.tail m, t)
  ]

  pub mem-take : (n : ℕ) (xs : List A) {a : A} → Memᴰ a (take n xs) → Memᴰ a xs
  mem-take zero xs m = absurd (Memᴰ.not-nil m)
  mem-take (suc n) [] m = absurd (Memᴰ.not-nil m)
  mem-take (suc n) (x ∷ xs) m = elim (Memᴰ.cases_cons m) [
    | inl e ↦ Memᴰ.head e
    | inr k ↦ Memᴰ.tail (mem-take n xs k)
  ]

  pub count_by-take-le :
      (p : A → Bool) (n : ℕ) (xs : List A) → count_by p (take n xs) ≤ count_by p xs
  count_by-take-le p zero xs = omega arith
  count_by-take-le p (suc n) [] = omega arith
  count_by-take-le p (suc n) (x ∷ xs) = omega (arith, count_by-take-le p n xs)

  pub take-length : (xs : List A) → take (length xs) xs ≡ xs
  take-length [] = refl
  take-length (x ∷ xs) = ap (λ ys. x ∷ ys) (take-length xs)

pub same_route_refl : (r : Route) → same_route r r ≡ true
same_route_refl r = ground (arith, (eq_iff r.0 r.0).1 refl, (eq_iff r.1 r.1).1 refl)

pub same_route_eq : (r s : Route) → same_route r s ≡ true → s ≡ r
same_route_eq r s h =
    let first : s.0 ≡ r.0 = (eq_iff s.0 r.0).0 (ground (arith, h)) in
    let second : s.1 ≡ r.1 = (eq_iff s.1 r.1).0 (ground (arith, h)) in cc

-- `dedupe` lists nothing that was seen, and nothing twice.
dedupe-once :
    (r : Route) (seen xs : List Route)
    → count_by (same_route r) (dedupe seen xs) ≤ (if any (same_route r) seen then 0 else 1)
unfolding dedupe
dedupe-once r seen [] = ground arith
dedupe-once r seen (x ∷ xs) = elim (Bool-cases (any (same_route x) seen)) [
  | inl a ↦ rw a (dedupe-once r seen xs)
  | inr a ↦
      let later = dedupe-once r (x ∷ seen) xs in
      elim (Bool-cases (same_route r x)) [
        | inl q ↦
            let e = same_route_eq r x q in
            let fresh : any (same_route r) seen ≡ false =
              subst (λ y. any (same_route y) seen ≡ false) e a in
            let later' : count_by (same_route r) (dedupe (x ∷ seen) xs) ≤ 0 = rw q at later in
            rw (a, q, fresh) (omega (arith, later'))
        | inr q ↦
            let later' : count_by (same_route r) (dedupe (x ∷ seen) xs)
                ≤ (if any (same_route r) seen then 0 else 1) =
              rw q at later in
            rw (a, q) (omega (arith, later'))
      ]
]

mem-dedupe : (seen xs : List Route) {r : Route} → Memᴰ r (dedupe seen xs) → Memᴰ r xs
unfolding dedupe
mem-dedupe seen [] m = absurd (Memᴰ.not-nil m)
mem-dedupe seen (x ∷ xs) m = elim (Bool-cases (any (same_route x) seen)) [
  | inl a ↦ Memᴰ.tail (mem-dedupe seen xs (rw a at m))
  | inr a ↦ elim (Memᴰ.cases_cons (rw a at m)) [
    | inl e ↦ Memᴰ.head e
    | inr k ↦ Memᴰ.tail (mem-dedupe (x ∷ seen) xs k)
  ]
]

-- A route to the provider of the version, or to one that the registry knows.
abbrev pub Supported : Routing → String → Route → Type 0
Supported rt primary r = (r.0 ≡ primary) ⊎ ((name : String) × (rt.ensure_slug name ≡ ok r.0))

module _ (rt : Routing) (primary : String) where
  named_route-Supported :
      (provider model : String) (r : Route)
      → named_route rt provider model ≡ some r
      → Supported rt primary r
  named_route-Supported provider model r h = elim (Result-cases (rt.ensure_slug provider)) [
    | inr (e, q) ↦ absurd (cc (rw (q, named_route) at h))
    | inl (slug, q) ↦
        let h' : some (slug, strip model) ≡ some r = rw (q, named_route) at h in
        let same : (slug, strip model) ≡ r = ground (arith, h') in
        inr (provider, rw (← same, q) refl)
  ]

  own-Supported :
      (model : String) (r : Route) → some (primary, model) ≡ some r → Supported rt primary r
  own-Supported model r h =
      let same : (primary, model) ≡ r = ground (arith, h) in
      inl (sym (ap (λ (x : Route). x.0) same))

  route_of_text-Supported :
      (value : String) (r : Route)
      → route_of_text rt primary value ≡ some r
      → Supported rt primary r
  route_of_text-Supported value r h = elim (Bool-cases (is_empty value)) [
    | inl e ↦ absurd (cc (rw (e, route_of_text) at h))
    | inr e ↦ elim (Option-cases (split_slash value)) [
      | inl q ↦ own-Supported value r (rw (e, q, route_of_text) at h)
      | inr ((prefix, model), q) ↦
          named_route-Supported prefix model r (rw (e, q, route_of_text) at h)
    ]
  ]

  route_of_provider-Supported :
      (model : String) (provider : Option Json) (r : Route)
      → route_of_provider rt primary model provider ≡ some r
      → Supported rt primary r
  route_of_provider-Supported model (some (str provider)) r h =
      named_route-Supported provider model r h
  route_of_provider-Supported model none r h = own-Supported (strip model) r h
  route_of_provider-Supported model (some null) r h = own-Supported (strip model) r h
  route_of_provider-Supported model (some (bool b)) r h = own-Supported (strip model) r h
  route_of_provider-Supported model (some (int n)) r h = own-Supported (strip model) r h
  route_of_provider-Supported model (some (float n)) r h = own-Supported (strip model) r h
  route_of_provider-Supported model (some (arr js)) r h = own-Supported (strip model) r h
  route_of_provider-Supported model (some (obj f)) r h = own-Supported (strip model) r h

  route_of_dict-Supported :
      (provider model : Option Json) (r : Route)
      → route_of_dict rt primary provider model ≡ some r
      → Supported rt primary r
  route_of_dict-Supported provider (some (str model)) r h =
      elim (Bool-cases (is_empty (strip model))) [
        | inl e ↦ absurd (cc (rw (e, route_of_dict) at h))
        | inr e ↦ route_of_provider-Supported model provider r (rw (e, route_of_dict) at h)
      ]
  route_of_dict-Supported provider none r h = absurd (cc)
  route_of_dict-Supported provider (some null) r h = absurd (cc)
  route_of_dict-Supported provider (some (bool b)) r h = absurd (cc)
  route_of_dict-Supported provider (some (int n)) r h = absurd (cc)
  route_of_dict-Supported provider (some (float n)) r h = absurd (cc)
  route_of_dict-Supported provider (some (arr js)) r h = absurd (cc)
  route_of_dict-Supported provider (some (obj f)) r h = absurd (cc)

  route_of_item-Supported :
      (item : Json) (r : Route) → route_of_item rt primary item ≡ some r → Supported rt primary r
  unfolding route_of_item
  route_of_item-Supported (obj f) r h =
      route_of_dict-Supported (lookup "provider" (fields f)) (lookup "model" (fields f)) r h
  route_of_item-Supported (str s) r h = route_of_text-Supported (strip s) r h
  route_of_item-Supported null r h = absurd (cc)
  route_of_item-Supported (bool b) r h = absurd (cc)
  route_of_item-Supported (int n) r h = absurd (cc)
  route_of_item-Supported (float n) r h = absurd (cc)
  route_of_item-Supported (arr js) r h = absurd (cc)

  routes_of_items-Supported :
      (items : List Json) {r : Route}
      → Memᴰ r (routes_of_items rt primary items)
      → Supported rt primary r
  unfolding routes_of_items
  routes_of_items-Supported [] m = absurd (Memᴰ.not-nil m)
  routes_of_items-Supported (item ∷ rest) {r} m =
      elim (Option-cases (route_of_item rt primary item)) [
        | inl q ↦ routes_of_items-Supported rest (rw (q, routes_of_items) at m)
        | inr (route, q) ↦ elim (Memᴰ.cases_cons (rw (q, routes_of_items) at m)) [
          | inl e ↦ route_of_item-Supported item r (rw (e, q) refl)
          | inr k ↦ routes_of_items-Supported rest k
        ]
      ]

  pub parse_fallback_targets-Supported :
      (params : Dict Json) {r : Route}
      → Memᴰ r (parse_fallback_targets rt primary params)
      → Supported rt primary r
  unfolding parse_fallback_targets
  parse_fallback_targets-Supported params {r} m =
      elim (Bool-cases (parse_bool_param params "enable_fallbacks" false)) [
        | inr e ↦ absurd (Memᴰ.not-nil (rw (e, parse_fallback_targets) at m))
        | inl e ↦
            let listed =
              routes_of_items rt primary
                (as_list (or_else (lookup "fallback_targets" params) null)) in
            let legacy = parse_list_param params "fallback_models" in
            elim (Memᴰ.append_cases listed (
              mem-dedupe [] (listed ++ map (λ model. (primary, model)) legacy)
                (rw (e, parse_fallback_targets) at m))) [
                  | inl k ↦
                      routes_of_items-Supported
                        (as_list (or_else (lookup "fallback_targets" params) null)) k
                  | inr k ↦
                      let (model, n, q) = Memᴰ.of_map (λ model. (primary, model)) legacy k in
                      own-Supported model r (ap some q)
                ]
      ]

  pub parse_fallback_targets-once :
      (params : Dict Json) (r : Route)
      → count_by (same_route r) (parse_fallback_targets rt primary params) ≤ 1
  unfolding parse_fallback_targets
  parse_fallback_targets-once params r =
      elim (Bool-cases (parse_bool_param params "enable_fallbacks" false)) [
        | inr e ↦ rw (e, parse_fallback_targets) (omega arith)
        | inl e ↦
            let once = dedupe-once r [] (
              routes_of_items rt primary (as_list (or_else (lookup "fallback_targets" params) null))
              ++ map (λ model. (primary, model)) (parse_list_param params "fallback_models")) in
            rw (e, parse_fallback_targets) (omega (arith, once))
      ]
