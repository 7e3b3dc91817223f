-- ===== src/Studio/Tests.antt =====
-- Runs of api/app/services/prompt_studio.py.
use flash_connector.Prelude.{
  String, Option, none, some, List, [], ◌∷◌, ◌++◌, ◌≡◌, refl, ◌⊎◌, lower, strip, All,
}
use flash_connector.Prelude.Dict.{Dict}
use flash_connector.Json.{ℤ, pos, Json, int, str, arr, cons, nil, null}
use flash_connector.Studio.{parse_int_param, parse_list_param, find_blocked_phrase}
use flash_connector.Studio.Phrases.{Blocks, find_blocked_phrase-Blocks}

abbrev to_int : Json → Option ℤ
to_int (int n) = some n
to_int _ = none

abbrev phrases : Json
phrases = arr (cons (str " a ") (cons null (cons (str "b") (cons (str "a") nil))))

abbrev params : Dict Json
params = ("max_retries", int (pos 40)) ∷ ("blocked", phrases) ∷ []

max_retries_clamped : parse_int_param to_int params "max_retries" (pos 1) (pos 0) (pos 10) ≡ pos 10
unfolding parse_int_param
max_retries_clamped = refl

blocked_read : parse_list_param params "blocked" ≡ "a" ∷ "b" ∷ []
unfolding parse_list_param strip
blocked_read = refl

find_blocked_phrase-Blocks_example :
    ((find_blocked_phrase lower "The Secret" ("x" ∷ "SECRET" ∷ []) ≡ none)
      × All (λ p. ¬ Blocks lower "The Secret" p) ("x" ∷ "SECRET" ∷ []))
    ⊎ ((p : String) × (before : List String) × (after : List String) × (find_blocked_phrase lower
            "The Secret"
            ("x" ∷ "SECRET" ∷ [])
          ≡ some p)
        × ("x" ∷ "SECRET" ∷ [] ≡ before ++ (p ∷ after))
        × Blocks lower "The Secret" p
        × All (λ q. ¬ Blocks lower "The Secret" q) before)
find_blocked_phrase-Blocks_example =
    find_blocked_phrase-Blocks lower "The Secret" ("x" ∷ "SECRET" ∷ [])
