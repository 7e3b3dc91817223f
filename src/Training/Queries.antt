-- ===== src/Training/Queries.antt =====
-- Which events the query of api/app/services/training.py returns, and in what order.
use mathlib.Core.List.{Memᴰ}
use mathlib.Core.List.Memᴰ
use flash_connector.Prelude.{
  ℕ, ◌≤◌, String, Bool, true, false, ◌&&◌, Option, none, some, List, [], ◌∷◌, ◌≡◌, refl, sym, ap,
  ◌∙◌, subst, ◌↔◌, arith, inl, inr, is_empty, select, mem-select, select_keeps, Bool-cases, ltb,
  ◌==◌, eq_iff, leb→le, le→leb,
}
use flash_connector.Training.{TrainingEvent}
use flash_connector.Training.Query.{
  TrainingExportRequest, insert_newest, newest_first, wanted, has_flag, holds_tag, contains_tags,
  not_before, not_after, is_asked_for, query_training_events,
}
use flash_connector.Training.Selection.{mem-newest_first}

-- A filter that is set, to a text that is not empty, names the column's text.
abbrev pub Wants : Option String → Option String → Type 0
Wants filter column = (s : String) → filter ≡ some s → is_empty s ≡ false → column ≡ some s

-- What a request asks of an event.
pub record Matches (tenant_id : String) (q : TrainingExportRequest) (e : TrainingEvent)
    : Type 0 where
  pub tenant : e.tenant_id ≡ tenant_id
  pub endpoint : Wants q.endpoint_id (some e.endpoint_id)
  pub version : Wants q.endpoint_version_id (some e.endpoint_version_id)
  pub feedback : Wants q.feedback e.feedback
  pub flag : (b : Bool) → q.few_shot_only ≡ some b → e.is_few_shot ≡ b
  pub subtenant : Wants q.subtenant_code e.subtenant_code
  pub tags : (t : String) → Memᴰ t q.tags → (own : List String) × (e.tags ≡ some own) × Memᴰ t own
  pub date_from : (date : ℕ) → q.date_from ≡ some date → date ≤ e.created_at
  pub date_to : (date : ℕ) → q.date_to ≡ some date → e.created_at ≤ date

wanted_iff : (filter column : Option String) → (wanted filter column ≡ true) ↔ Wants filter column
wanted_iff none column = ((λ h s e. absurd (cc)), (λ h. refl))
wanted_iff (some s) none = (
  (λ h t e n. absurd (ground (arith, h, e, n))),
  (λ h. elim (Bool-cases (is_empty s)) [
    | inl e ↦ rw e
    | inr e ↦ absurd (ground (arith, h s refl e))
  ]),
)
wanted_iff (some s) (some c) = (
  (λ h t e n. let same : s ≡ t = ground (arith, e) in ground (arith, eq_iff c s, h, n, same)),
  (λ h. elim (Bool-cases (is_empty s)) [
    | inl e ↦ rw e
    | inr e ↦ let same : c ≡ s = ground (arith, h s refl e) in rw (e, (eq_iff c s).1 same)
  ]),
)

has_flag_iff :
    (f : Option Bool) (b : Bool) → (has_flag f b ≡ true) ↔ ((c : Bool) → f ≡ some c → b ≡ c)
has_flag_iff none b = ((λ h c e. absurd (cc)), (λ h. refl))
has_flag_iff (some true) b = ((λ h c e. ground (arith, h, e)), (λ h. h true refl))
has_flag_iff (some false) true = ((λ h c e. absurd (cc)), (λ h. sym (h false refl)))
has_flag_iff (some false) false = ((λ h c e. ground (arith, e)), (λ h. refl))

holds_tag_iff : (own : List String) (t : String) → (holds_tag own t ≡ true) ↔ Memᴰ t own
holds_tag_iff [] t = ((λ h. absurd (cc)), (λ m. absurd (Memᴰ.not-nil m)))
holds_tag_iff (s ∷ own) t = (
  (λ h. elim (Bool-cases (s == t)) [
    | inl e ↦ Memᴰ.head (sym ((eq_iff s t).0 e))
    | inr e ↦ Memᴰ.tail ((holds_tag_iff own t).0 (rw e at h))
  ]),
  (λ m. elim (Memᴰ.cases_cons m) [
    | inl e ↦ rw ((eq_iff s t).1 (sym e))
    | inr k ↦ let later = (holds_tag_iff own t).1 k in ground (arith, later)
  ]),
)

contains_tags_iff :
    (own : Option (List String)) (ts : List String)
    → (contains_tags own ts ≡ true)
      ↔ ((t : String) → Memᴰ t ts → (l : List String) × (own ≡ some l) × Memᴰ t l)
contains_tags_iff own [] = ((λ h t m. absurd (Memᴰ.not-nil m)), (λ h. refl))
contains_tags_iff none (t ∷ ts) =
    ((λ h. absurd (cc)), (λ h. let (l, e, m) = h t (Memᴰ.head refl) in absurd (cc)))
contains_tags_iff (some own) (t ∷ ts) = (
  (λ h s m.
      let first : holds_tag own t ≡ true = ground (arith, h) in
      let later : contains_tags (some own) ts ≡ true = ground (arith, h) in
      elim (Memᴰ.cases_cons m) [
        | inl e ↦ (own, refl, (holds_tag_iff own s).0 (ap (holds_tag own) e ∙ first))
        | inr k ↦ (contains_tags_iff (some own) ts).0 later s k
      ]),
  (λ h.
      let (l, e, m) = h t (Memᴰ.head refl) in
      let same : own ≡ l = ground (arith, e) in
      let first = (holds_tag_iff own t).1 (subst (Memᴰ t) (sym same) m) in
      let later = (contains_tags_iff (some own) ts).1 (λ s k. h s (Memᴰ.tail k)) in
      ground (arith, first, later)),
)

not_before_iff :
    (d : Option ℕ) (n : ℕ) → (not_before d n ≡ true) ↔ ((date : ℕ) → d ≡ some date → date ≤ n)
not_before_iff none n = ((λ h date e. absurd (cc)), (λ h. refl))
not_before_iff (some d) n = (
  (λ h date e. let same : d ≡ date = ground (arith, e) in subst (λ x. x ≤ n) same (leb→le d n h)),
  (λ h. le→leb d n (h d refl)),
)

not_after_iff :
    (d : Option ℕ) (n : ℕ) → (not_after d n ≡ true) ↔ ((date : ℕ) → d ≡ some date → n ≤ date)
not_after_iff none n = ((λ h date e. absurd (cc)), (λ h. refl))
not_after_iff (some d) n = (
  (λ h date e. let same : d ≡ date = ground (arith, e) in subst (λ x. n ≤ x) same (leb→le n d h)),
  (λ h. le→leb n d (h d refl)),
)

and_iff : (a b : Bool) → ((a && b) ≡ true) ↔ ((a ≡ true) × (b ≡ true))
and_iff true b = ((λ h. (refl, h)), (λ h. h.1))
and_iff false b = ((λ h. absurd (cc)), (λ h. absurd (cc)))

is_asked_for_iff :
    (tenant_id : String) (q : TrainingExportRequest) (e : TrainingEvent)
    → (is_asked_for tenant_id q e ≡ true) ↔ Matches tenant_id q e
unfolding is_asked_for
is_asked_for_iff tenant_id q e = (
  (λ h.
      let (h1, k) = (and_iff _ _).0 h in
      let (h2, j) = (and_iff _ _).0 h1 in
      let (h3, i) = (and_iff _ _).0 h2 in
      let (h4, g) = (and_iff _ _).0 h3 in
      let (h5, f) = (and_iff _ _).0 h4 in
      let (h6, d) = (and_iff _ _).0 h5 in
      let (h7, c) = (and_iff _ _).0 h6 in
      let (a, b) = (and_iff _ _).0 h7 in
      record {
        tenant = (eq_iff e.tenant_id tenant_id).0 a;
        endpoint = (wanted_iff q.endpoint_id (some e.endpoint_id)).0 b;
        version = (wanted_iff q.endpoint_version_id (some e.endpoint_version_id)).0 c;
        feedback = (wanted_iff q.feedback e.feedback).0 d;
        flag = (has_flag_iff q.few_shot_only e.is_few_shot).0 f;
        subtenant = (wanted_iff q.subtenant_code e.subtenant_code).0 g;
        tags = (contains_tags_iff e.tags q.tags).0 i;
        date_from = (not_before_iff q.date_from e.created_at).0 j;
        date_to = (not_after_iff q.date_to e.created_at).0 k;
      }),
  (λ m.
      rw
        (
          (eq_iff e.tenant_id tenant_id).1 m.tenant,
          (wanted_iff q.endpoint_id (some e.endpoint_id)).1 m.endpoint,
          (wanted_iff q.endpoint_version_id (some e.endpoint_version_id)).1 m.version,
          (wanted_iff q.feedback e.feedback).1 m.feedback,
          (has_flag_iff q.few_shot_only e.is_few_shot).1 m.flag,
          (wanted_iff q.subtenant_code e.subtenant_code).1 m.subtenant,
          (contains_tags_iff e.tags q.tags).1 m.tags,
          (not_before_iff q.date_from e.created_at).1 m.date_from,
          (not_after_iff q.date_to e.created_at).1 m.date_to,
        )
        refl),
)

insert_newest_keeps :
    {a : TrainingEvent} (e : TrainingEvent) (es : List TrainingEvent)
    → Memᴰ a (e ∷ es)
    → Memᴰ a (insert_newest e es)
insert_newest_keeps e [] m = m
insert_newest_keeps {a} e (f ∷ fs) m = elim (Bool-cases (ltb e.created_at f.created_at)) [
  | inr q ↦ rw q m
  | inl q ↦ rw q (elim (Memᴰ.cases_cons m) [
    | inl h ↦ Memᴰ.tail (insert_newest_keeps e fs (Memᴰ.head h))
    | inr k ↦ elim (Memᴰ.cases_cons k) [
      | inl h ↦ Memᴰ.head h
      | inr n ↦ Memᴰ.tail (insert_newest_keeps e fs (Memᴰ.tail n))
    ]
  ])
]

newest_first_keeps :
    {a : TrainingEvent} (es : List TrainingEvent) → Memᴰ a es → Memᴰ a (newest_first es)
unfolding newest_first
newest_first_keeps [] m = m
newest_first_keeps (e ∷ es) m =
    insert_newest_keeps e (newest_first es) (elim (Memᴰ.cases_cons m) [
      | inl h ↦ Memᴰ.head h
      | inr k ↦ Memᴰ.tail (newest_first_keeps es k)
    ])

-- No event is newer than the one before it, nor than `t`.
abbrev pub NewestFirstFrom : ℕ → List TrainingEvent → Type 0
NewestFirstFrom t [] = Unit
NewestFirstFrom t (e ∷ es) = (e.created_at ≤ t) × NewestFirstFrom e.created_at es

abbrev pub NewestFirst : List TrainingEvent → Type 0
NewestFirst [] = Unit
NewestFirst (e ∷ es) = NewestFirstFrom e.created_at es

insert_newest-From :
    (t : ℕ) (e : TrainingEvent) (es : List TrainingEvent)
    → e.created_at ≤ t
    → NewestFirstFrom t es
    → NewestFirstFrom t (insert_newest e es)
insert_newest-From t e [] h n = (h, tt)
insert_newest-From t e (f ∷ fs) h n = elim (Bool-cases (ltb e.created_at f.created_at)) [
  | inl q ↦ rw q (n.0, insert_newest-From f.created_at e fs (ground arith) n.1)
  | inr q ↦ rw q (h, (ground arith, n.1))
]

insert_newest-NewestFirst :
    (e : TrainingEvent) (es : List TrainingEvent)
    → NewestFirst es
    → NewestFirst (insert_newest e es)
insert_newest-NewestFirst e [] n = tt
insert_newest-NewestFirst e (f ∷ fs) n = elim (Bool-cases (ltb e.created_at f.created_at)) [
  | inl q ↦ rw q (insert_newest-From f.created_at e fs (ground arith) n)
  | inr q ↦ rw q (ground arith, n)
]

newest_first-NewestFirst : (es : List TrainingEvent) → NewestFirst (newest_first es)
unfolding newest_first
newest_first-NewestFirst [] = tt
newest_first-NewestFirst (e ∷ es) =
    insert_newest-NewestFirst e (newest_first es) (newest_first-NewestFirst es)

-- The query returns exactly the tenant's events that match every filter that is set, newest first.
pub query_training_events_iff :
    (events : List TrainingEvent) (tenant_id : String) (q : TrainingExportRequest)
    → NewestFirst (query_training_events events tenant_id q)
      × ((e : TrainingEvent)
          → Memᴰ e (query_training_events events tenant_id q)
            ↔ (Memᴰ e events × Matches tenant_id q e))
unfolding query_training_events
query_training_events_iff events tenant_id q =
    let p = is_asked_for tenant_id q in
    (
      newest_first-NewestFirst (select p events),
      λ e. (
        (λ m.
            let (k, h) = mem-select p events (mem-newest_first (select p events) m) in
            (k, (is_asked_for_iff tenant_id q e).0 h)),
        (λ (k, m).
            newest_first_keeps (select p events)
              (select_keeps p events k ((is_asked_for_iff tenant_id q e).1 m))),
      ),
    )
