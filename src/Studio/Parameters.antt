-- ===== src/Studio/Parameters.antt =====
-- The parameters of an endpoint version, as api/app/services/prompt_studio.py reads them.
use flash_connector.Prelude.{
  String, Bool, true, false, ◌&&◌, not, Option, some, List, [], ◌∷◌, ◌≡◌, refl, ◌∙◌, arith,
  Option-cases, Bool-cases, inl, inr, any, or_else, is_empty, strip, ◌==◌, eq_iff,
}
use flash_connector.Prelude.Dict.{Dict, lookup}
use flash_connector.Json.{ℤ, pos, negsuc, Json, int, as_text, as_list}
use flash_connector.Studio.{
  leb_ℤ, max_ℤ, min_ℤ, parse_int_param, mem, collect_texts, parse_list_param,
}

leb_ℤ-refl : (a : ℤ) → leb_ℤ a a ≡ true
leb_ℤ-refl (pos n) = ground arith
leb_ℤ-refl (negsuc n) = ground arith

leb_ℤ-total : (a b : ℤ) → leb_ℤ a b ≡ false → leb_ℤ b a ≡ true
leb_ℤ-total (pos m) (pos n) h = ground arith
leb_ℤ-total (pos m) (negsuc n) h = refl
leb_ℤ-total (negsuc m) (pos n) h = absurd (cc)
leb_ℤ-total (negsuc m) (negsuc n) h = ground arith

-- A number between two bounds.
abbrev pub Between : ℤ → ℤ → ℤ → Type 0
Between low high n = (leb_ℤ low n ≡ true) × (leb_ℤ n high ≡ true)

clamp-Between :
    (n low high : ℤ) → leb_ℤ low high ≡ true → Between low high (min_ℤ (max_ℤ n low) high)
clamp-Between n low high h = elim (Bool-cases (leb_ℤ low n)) [
  | inl a ↦ elim (Bool-cases (leb_ℤ n high)) [
    | inl b ↦ rw (a, b) (a, b)
    | inr b ↦ rw (a, b) (h, leb_ℤ-refl high)
  ]
  | inr a ↦ rw (a, h) (leb_ℤ-refl low, h)
]

-- Where the bounds are in order, and the default lies between them, so does every parameter that is
-- read, whatever stands in the version's parameters; and a number between them that is given is kept.
pub parse_int_param-Between :
    (to_int : Json → Option ℤ) (params : Dict Json) (key : String) (default_ low high : ℤ)
    → Between low high default_
    → leb_ℤ low high ≡ true
    → Between low high (parse_int_param to_int params key default_ low high)
      × ((n : ℤ)
          → to_int (or_else (lookup key params) (int default_)) ≡ some n
          → Between low high n
          → parse_int_param to_int params key default_ low high ≡ n)
unfolding parse_int_param
parse_int_param-Between to_int params key default_ low high d h = (
  elim (Option-cases (to_int (or_else (lookup key params) (int default_)))) [
    | inl a ↦ rw (a, parse_int_param) d
    | inr (n, a) ↦ rw (a, parse_int_param) (clamp-Between n low high h)
  ],
  λ n a b. rw (a, b.0, b.1, parse_int_param) refl,
)

-- The text of a value that counts.
abbrev pub is_listed : String → List Json → Bool
is_listed s = any (λ value.
    not (is_empty (strip (or_else (as_text value) "")))
    && (strip (or_else (as_text value) "") == s))

not_seen : (b : Bool) → (b && false) ≡ false
not_seen true = refl
not_seen false = refl

and_true : (b : Bool) → (b && true) ≡ b
and_true true = refl
and_true false = refl

first_seen : (s : String) (seen : List String) (b : Bool) → (b && not (mem s (s ∷ seen))) ≡ false
first_seen s seen b = ground (arith, eq_iff s s)

abbrev pub Distinct : List String → Type 0
Distinct [] = Unit
Distinct (s ∷ ss) = (mem s ss ≡ false) × Distinct ss

collect_texts-listed :
    (seen : List String) (js : List Json) (s : String)
    → mem s (collect_texts seen js) ≡ (is_listed s js && not (mem s seen))
unfolding collect_texts
collect_texts-listed seen [] s = refl
collect_texts-listed seen (j ∷ js) s =
    let item = strip (or_else (as_text j) "") in
    elim (Bool-cases (is_empty item)) [
      | inl e ↦ rw (e, collect_texts, collect_texts-listed seen js s)
      | inr e ↦ elim (Bool-cases (item == s)) [
        | inl q ↦
            let same : item ≡ s = ground (arith, eq_iff item s) in
            elim (Bool-cases (mem item seen)) [
              | inl m ↦
                  let m' : mem s seen ≡ true = rw same at m in
                  rw (e, m, q, collect_texts, collect_texts-listed seen js s, m')
                    (not_seen (is_listed s js))
              | inr m ↦
                  let m' : mem s seen ≡ false = rw same at m in rw (e, m, q, collect_texts, m')
            ]
        | inr q ↦ elim (Bool-cases (mem item seen)) [
          | inl m ↦ rw (e, m, q, collect_texts, collect_texts-listed seen js s)
          | inr m ↦ rw (e, m, q, collect_texts, collect_texts-listed (item ∷ seen) js s, q)
        ]
      ]
    ]

collect_texts-Distinct : (seen : List String) (js : List Json) → Distinct (collect_texts seen js)
unfolding collect_texts
collect_texts-Distinct seen [] = tt
collect_texts-Distinct seen (j ∷ js) =
    let item = strip (or_else (as_text j) "") in
    elim (Bool-cases (is_empty item)) [
      | inl e ↦ rw (e, collect_texts) (collect_texts-Distinct seen js)
      | inr e ↦ elim (Bool-cases (mem item seen)) [
        | inl m ↦ rw (e, m, collect_texts) (collect_texts-Distinct seen js)
        | inr m ↦
            rw (e, m, collect_texts)
              (
                collect_texts-listed (item ∷ seen) js item
                    ∙ first_seen item seen (is_listed item js),
                collect_texts-Distinct (item ∷ seen) js,
              )
      ]
    ]

-- What a list parameter holds: each text once, and exactly the texts of its values that are not empty
-- once stripped; a value that is no text counts for none.
pub parse_list_param-listed :
    (params : Dict Json) (key : String) (raw : Json)
    → lookup key params ≡ some raw
    → Distinct (parse_list_param params key)
      × ((s : String) → mem s (parse_list_param params key) ≡ is_listed s (as_list raw))
unfolding parse_list_param
parse_list_param-listed params key raw h = (
  rw (h, parse_list_param) (collect_texts-Distinct [] (as_list raw)),
  λ s.
      rw (h, parse_list_param, collect_texts-listed [] (as_list raw) s)
        (and_true (is_listed s (as_list raw))),
)
