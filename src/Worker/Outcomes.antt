-- ===== src/Worker/Outcomes.antt =====
-- How a run of a job ends.
use flash_connector.Prelude.{
  true, none, some, List, [], ◌∷◌, ◌++◌, ◌≡◌, refl, ap, arith, All, ◌⊎◌, inl, inr, Option-cases, ok,
  err, Result-cases, String, is_some,
}
use flash_connector.Jobs.{Job, EndpointVersion}
use flash_connector.Worker.Routes.{Route, Answer, Services, Chosen, try_routes}

-- A route that does not serve: its call raises, or its text is blocked.
abbrev pub Fails : Services → EndpointVersion → Job → Route → Type 0
Fails sv v job route =
    ((exc : String) × (sv.attempt v job route ≡ err exc))
    ⊎ ((answer : Answer) × (sv.attempt v job route ≡ ok answer)
        × (is_some (sv.blocked_output v answer.text) ≡ true))

-- The first route that serves, with those before it.
pub record Selects (sv : Services) (v : EndpointVersion) (job : Job) (routes : List Route)
    (c : Chosen) (route : Route) (answer : Answer) : Type 0 where
  pub before : List Route
  pub after : List Route
  pub order : routes ≡ before ++ route ∷ after
  pub failed : All (Fails sv v job) before
  pub answered : sv.attempt v job route ≡ ok answer
  pub unblocked : sv.blocked_output v answer.text ≡ none
  pub attempted : c.attempted ≡ before ++ route ∷ []

module _ (sv : Services) (v : EndpointVersion) (job : Job) where
  -- A route is selected only if it is the first in order whose call succeeds with a text that is not
  -- blocked, and the routes attempted are those up to it.
  pub try_routes-Selects :
      (routes : List Route) (route : Route) (answer : Answer)
      → (try_routes sv v job routes).selected ≡ some (route, answer)
      → Selects sv v job routes (try_routes sv v job routes) route answer
  unfolding try_routes
  try_routes-Selects [] route answer h = absurd (cc)
  try_routes-Selects (r ∷ rs) route answer h = elim (Result-cases (sv.attempt v job r)) [
    | inr (exc, a) ↦
        let s = try_routes-Selects rs route answer (rw (a, try_routes) at h) in
        record {
          before = r ∷ s.before;
          after = s.after;
          order = ap (λ l. r ∷ l) s.order;
          failed = (inl (exc, a), s.failed);
          answered = s.answered;
          unblocked = s.unblocked;
          attempted = rw (a, try_routes) (ap (λ l. r ∷ l) s.attempted);
        }
    | inl (found, a) ↦ elim (Option-cases (sv.blocked_output v found.text)) [
      | inr (phrase, b) ↦
          let s = try_routes-Selects rs route answer (rw (a, b, try_routes) at h) in
          record {
            before = r ∷ s.before;
            after = s.after;
            order = ap (λ l. r ∷ l) s.order;
            failed = (inr (found, a, rw b), s.failed);
            answered = s.answered;
            unblocked = s.unblocked;
            attempted = rw (a, b, try_routes) (ap (λ l. r ∷ l) s.attempted);
          }
      | inl b ↦
          let h' : some (r, found) ≡ some (route, answer) = rw (a, b, try_routes) at h in
          let same : r ≡ route = ground (arith, h') in
          let same' : found ≡ answer = ground (arith, h') in
          record {
            before = [];
            after = rs;
            order = ap (λ x. x ∷ rs) same;
            failed = tt;
            answered = rw (← same, a, same');
            unblocked = rw (← same', b);
            attempted = rw (a, b, try_routes) (ap (λ x. x ∷ []) same);
          }
    ]
  ]

  -- Where no route is selected, every route was attempted, and its call raised or its text was blocked.
  pub try_routes-none :
      (routes : List Route)
      → (try_routes sv v job routes).selected ≡ none
      → All (Fails sv v job) routes × ((try_routes sv v job routes).attempted ≡ routes)
  unfolding try_routes
  try_routes-none [] h = (tt, refl)
  try_routes-none (r ∷ rs) h = elim (Result-cases (sv.attempt v job r)) [
    | inr (exc, a) ↦
        let s = try_routes-none rs (rw (a, try_routes) at h) in
        rw (a, try_routes) ((inl (exc, refl), s.0), ap (λ l. r ∷ l) s.1)
    | inl (found, a) ↦ elim (Option-cases (sv.blocked_output v found.text)) [
      | inr (phrase, b) ↦
          let s = try_routes-none rs (rw (a, b, try_routes) at h) in
          ((inr (found, a, rw b), s.0), rw (a, b, try_routes) (ap (λ l. r ∷ l) s.1))
      | inl b ↦ absurd (ground arith)
    ]
  ]
