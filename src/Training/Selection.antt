-- ===== src/Training/Selection.antt =====
-- Which few-shot examples api/app/services/training.py lists.
use mathlib.Core.List.{Memᴰ, reverse_aux}
use mathlib.Core.List.Memᴰ
use flash_connector.Prelude.{
  ℕ, zero, suc, ◌+◌, ◌≤◌, String, Bool, true, false, ◌&&◌, ◌||◌, List, [], ◌∷◌, ◌++◌, ◌≡◌, refl,
  arith, ◌⊎◌, inl, inr, is_empty, take, select, strip, length, length-take-le, mem-select,
  Bool-cases, ltb, ◌==◌, or_else, eq_iff,
}
use flash_connector.Prelude.Dict.{lookup}
use flash_connector.Json.{ℤ, pos, negsuc, Json, null, truthy}
use flash_connector.Jobs.{Job}
use flash_connector.Training.{
  TrainingEvent, SaveMode, full, redacted, auto_save_training_event, create_training_event_from_job,
  default_request,
}
use flash_connector.Training.Query.{insert_newest, newest_first}
use flash_connector.Training.Redact.{Patterns}
use flash_connector.Training.Examples.{
  extract_training_input_text, bounded_limit, is_example, is_full, ideal_output, collect_examples,
  list_few_shot_examples,
}

module _ {ℓ} {A : Type ℓ} where
  mem-reverse_aux : {a : A} (xs ys : List A) → Memᴰ a (reverse_aux xs ys) → Memᴰ a xs ⊎ Memᴰ a ys
  mem-reverse_aux [] ys m = inr m
  mem-reverse_aux (x ∷ xs) ys m = elim (mem-reverse_aux xs (x ∷ ys) m) [
    | inl n ↦ inl (Memᴰ.tail n)
    | inr n ↦ elim (Memᴰ.cases_cons n) [ inl e ↦ inl (Memᴰ.head e) | inr k ↦ inr k ]
  ]

  length-reverse_aux : (xs ys : List A) → length (reverse_aux xs ys) ≡ length xs + length ys
  length-reverse_aux [] ys = omega arith
  length-reverse_aux (x ∷ xs) ys = omega (arith, length-reverse_aux xs (x ∷ ys))

  mem-take : {a : A} (n : ℕ) (xs : List A) → Memᴰ a (take n xs) → Memᴰ a xs
  mem-take zero xs m = absurd (Memᴰ.not-nil m)
  mem-take (suc n) [] m = absurd (Memᴰ.not-nil m)
  mem-take (suc n) (x ∷ xs) m = elim (Memᴰ.cases_cons m) [
    | inl e ↦ Memᴰ.head e
    | inr k ↦ Memᴰ.tail (mem-take n xs k)
  ]

mem-insert_newest :
    {a : TrainingEvent} (e : TrainingEvent) (es : List TrainingEvent)
    → Memᴰ a (insert_newest e es)
    → Memᴰ a (e ∷ es)
mem-insert_newest e [] m = m
mem-insert_newest {a} e (f ∷ fs) m = elim (Bool-cases (ltb e.created_at f.created_at)) [
  | inr q ↦ rw q at m
  | inl q ↦
      let m' : Memᴰ a (f ∷ insert_newest e fs) = rw q at m in
      elim (Memᴰ.cases_cons m') [
        | inl h ↦ Memᴰ.tail (Memᴰ.head h)
        | inr k ↦ elim (Memᴰ.cases_cons (mem-insert_newest e fs k)) [
          | inl h ↦ Memᴰ.head h
          | inr n ↦ Memᴰ.tail (Memᴰ.tail n)
        ]
      ]
]

pub mem-newest_first :
    {a : TrainingEvent} (es : List TrainingEvent) → Memᴰ a (newest_first es) → Memᴰ a es
unfolding newest_first
mem-newest_first [] m = m
mem-newest_first (e ∷ es) m = elim (Memᴰ.cases_cons (mem-insert_newest e (newest_first es) m)) [
  | inl h ↦ Memᴰ.head h
  | inr k ↦ Memᴰ.tail (mem-newest_first es k)
]

-- What a listed pair comes from, and that neither text is empty.
pub record FromEvent (show : Json → String) (events : List TrainingEvent) (pair : String × String)
    : Type 0 where
  pub event : TrainingEvent
  pub member : Memᴰ event events
  pub texts : pair ≡ (extract_training_input_text show event, strip (ideal_output event))
  pub full_texts : (is_empty pair.0 ≡ false) × (is_empty pair.1 ≡ false)

collect_examples-FromEvent :
    (show : Json → String) {pair : String × String} (es : List TrainingEvent)
    → Memᴰ pair (collect_examples show es)
    → FromEvent show es pair
unfolding collect_examples
collect_examples-FromEvent show [] m = absurd (Memᴰ.not-nil m)
collect_examples-FromEvent show {pair} (e ∷ es) m =
    let i = extract_training_input_text show e in
    let o = strip (ideal_output e) in
    let later : FromEvent show es pair → FromEvent show (e ∷ es) pair = λ f. record {
      event = f.event;
      member = Memᴰ.tail f.member;
      texts = f.texts;
      full_texts = f.full_texts;
    } in
    elim (Bool-cases (is_empty i || is_empty o)) [
      | inl q ↦ later (collect_examples-FromEvent show es (rw (q, collect_examples) at m))
      | inr q ↦
          let m' : Memᴰ pair ((i, o) ∷ collect_examples show es) = rw (q, collect_examples) at m in
          elim (Memᴰ.cases_cons m') [
            | inl h ↦ record {
              event = e;
              member = Memᴰ.head refl;
              texts = h;
              full_texts = rw h (ground arith, ground arith);
            }
            | inr k ↦ later (collect_examples-FromEvent show es k)
          ]
    ]

length-collect_examples :
    (show : Json → String) (es : List TrainingEvent) → length (collect_examples show es) ≤ length es
unfolding collect_examples
length-collect_examples show [] = omega arith
length-collect_examples show (e ∷ es) = ground (arith, length-collect_examples show es)

-- An event that serves as an example for an endpoint of a tenant.
abbrev pub IsExample : String → String → TrainingEvent → Type 0
IsExample tenant_id endpoint_id e =
    (e.tenant_id ≡ tenant_id)
    × (e.endpoint_id ≡ endpoint_id)
    × (e.is_few_shot ≡ true)
    × (e.save_mode ≡ full)

is_full-eq : (m : SaveMode) → is_full m ≡ true → m ≡ full
is_full-eq full h = refl
is_full-eq redacted h = absurd (cc)

module _ {tenant_id endpoint_id : String} where
  is_example-IsExample :
      (e : TrainingEvent)
      → is_example tenant_id endpoint_id e ≡ true
      → IsExample tenant_id endpoint_id e
  is_example-IsExample e h = (
    (eq_iff e.tenant_id tenant_id).0 (ground (arith, h)),
    (eq_iff e.endpoint_id endpoint_id).0 (ground (arith, h)),
    ground (arith, h),
    is_full-eq e.save_mode (ground (arith, h)),
  )

-- What the prompt's examples are: no more than the limit, brought to lie between 1 and 20, and each pair
-- the two texts, not empty, of a stored event of the tenant and the endpoint that is marked as an
-- example and was saved in full.
pub list_few_shot_examples-FromEvent :
    (show : Json → String) (events : List TrainingEvent) (tenant_id endpoint_id : String)
    (limit : ℤ)
    → (length (list_few_shot_examples show events tenant_id endpoint_id limit)
        ≤ bounded_limit limit)
      × (1 ≤ bounded_limit limit)
      × (bounded_limit limit ≤ 20)
      × ((pair : String × String)
          → Memᴰ pair (list_few_shot_examples show events tenant_id endpoint_id limit)
          → (f : FromEvent show events pair) × IsExample tenant_id endpoint_id f.event)
unfolding list_few_shot_examples
list_few_shot_examples-FromEvent show events tenant_id endpoint_id limit =
    let rows = newest_first (select (is_example tenant_id endpoint_id) events) in
    let chosen = take (bounded_limit limit) rows in
    (
      omega (
        arith,
        length-reverse_aux (collect_examples show chosen) [],
        length-collect_examples show chosen,
        length-take-le (bounded_limit limit) rows,
      ),
      at_least limit,
      bounded limit,
      λ pair m. elim (mem-reverse_aux (collect_examples show chosen) [] m) [
        | inr k ↦ absurd (Memᴰ.not-nil k)
        | inl k ↦
            let f = collect_examples-FromEvent show chosen k in
            let (n, p) = mem-select (is_example tenant_id endpoint_id) events (
              mem-newest_first (select (is_example tenant_id endpoint_id) events)
                (mem-take (bounded_limit limit) rows f.member)) in
            (
              record { event = f.event; member = n; texts = f.texts; full_texts = f.full_texts },
              is_example-IsExample f.event p,
            )
      ],
    )
  where
    at_least : (limit : ℤ) → 1 ≤ bounded_limit limit
    at_least (pos n) = omega arith
    at_least (negsuc n) = omega arith

    bounded : (limit : ℤ) → bounded_limit limit ≤ 20
    bounded (pos n) = omega arith
    bounded (negsuc n) = omega arith

select_skips :
    (p : TrainingEvent → Bool) (es : List TrainingEvent) (e : TrainingEvent)
    → p e ≡ false
    → select p (es ++ e ∷ []) ≡ select p es
select_skips p [] e h = rw h
select_skips p (f ∷ es) e h = ground (arith, select_skips p es e h)

-- An event that is saved on completion of a job is no example: the lists of examples stay as they were.
pub auto_save_training_event-keeps :
    (show : Json → String) (rx : Patterns) (new_id : String) (now : ℕ) (job : Job)
    (events : List TrainingEvent) (tenant_id endpoint_id : String) (limit : ℤ)
    → list_few_shot_examples show
        (auto_save_training_event rx new_id now job events)
        tenant_id
        endpoint_id
        limit
      ≡ list_few_shot_examples show events tenant_id endpoint_id limit
unfolding list_few_shot_examples auto_save_training_event
auto_save_training_event-keeps show rx new_id now job events tenant_id endpoint_id limit =
    let e = create_training_event_from_job rx new_id now job.tenant_id job default_request in
    elim (Bool-cases (truthy (or_else (lookup "save_default" job.request_json) null))) [
      | inr s ↦ rw (s, auto_save_training_event)
      | inl s ↦
          let skipped : is_example tenant_id endpoint_id e ≡ false =
            no_example (job.tenant_id == tenant_id) (job.endpoint_id == endpoint_id) in
          rw (
            s,
            auto_save_training_event,
            select_skips (is_example tenant_id endpoint_id) events e skipped,
          )
    ]
  where
    no_example : (a b : Bool) → (a && b && false && true) ≡ false
    no_example true true = refl
    no_example true false = refl
    no_example false b = refl
