-- ===== src/Pricing/Sorting.antt =====
-- The order of the rates in api/app/services/pricing.py.
use mathlib.Core.List.{Memᴰ}
use mathlib.Core.List.Memᴰ
use flash_connector.Prelude.{
  ℕ, true, false, some, List, [], ◌∷◌, ◌≡◌, refl, sym, subst, arith, ◌⊎◌, inl, inr, Bool-cases,
}
use flash_connector.Pricing.{
  Library, BuiltinPricingRate, pair_gt, pattern_specificity, more_specific, insert_rate, sort_rates,
  first_rate,
}

-- No rate of a list is more specific than `r`.
abbrev pub IsTop : Library → BuiltinPricingRate → List BuiltinPricingRate → Type 0
IsTop lib r rs = (x : BuiltinPricingRate) → Memᴰ x rs → more_specific lib x r ≡ false

pair_gt_irrefl : (p : ℕ × ℕ) → pair_gt p p ≡ false
pair_gt_irrefl (a, b) = ground arith

pair_gt_asym : (p q : ℕ × ℕ) → pair_gt p q ≡ true → pair_gt q p ≡ false
pair_gt_asym (a, b) (c, d) h = ground (arith, h)

pair_gt_trans : (p q r : ℕ × ℕ) → pair_gt p q ≡ false → pair_gt q r ≡ false → pair_gt p r ≡ false
pair_gt_trans (a, b) (c, d) (e, f) h k = ground (arith, h, k)

-- An inserted rate goes before the first one, unless that one is more specific.
first_rate-insert :
    (lib : Library) (a : BuiltinPricingRate) (ss : List BuiltinPricingRate) (r : BuiltinPricingRate)
    → first_rate (insert_rate lib a ss) ≡ some r
    → ((a ≡ r)
        × ((h : BuiltinPricingRate) → first_rate ss ≡ some h → more_specific lib h a ≡ false))
      ⊎ ((first_rate ss ≡ some r) × (more_specific lib r a ≡ true))
first_rate-insert lib a [] r h = inl (ground (arith, h), λ x e. absurd (cc))
first_rate-insert lib a (b ∷ bs) r h = elim (Bool-cases (more_specific lib b a)) [
  | inl q ↦
      let h' : some b ≡ some r = rw q at h in
      let same : b ≡ r = ground (arith, h') in
      inr (h', subst (λ x. more_specific lib x a ≡ true) same q)
  | inr q ↦
      let h' : some a ≡ some r = rw q at h in
      inl (
        ground (arith, h'),
        λ x e.
            let same : b ≡ x = ground (arith, e) in
            subst (λ x. more_specific lib x a ≡ false) same q,
      )
]

first_rate-there :
    (lib : Library) (rs : List BuiltinPricingRate) {x : BuiltinPricingRate}
    → Memᴰ x rs
    → (h : BuiltinPricingRate) × (first_rate (sort_rates lib rs) ≡ some h)
unfolding sort_rates
first_rate-there lib [] m = absurd (Memᴰ.not-nil m)
first_rate-there lib (a ∷ rest) m = inserted (sort_rates lib rest)
  where
    inserted :
        (ss : List BuiltinPricingRate)
        → (h : BuiltinPricingRate) × (first_rate (insert_rate lib a ss) ≡ some h)
    inserted [] = (a, refl)
    inserted (b ∷ bs) = elim (Bool-cases (more_specific lib b a)) [
      | inl q ↦ (b, rw q refl)
      | inr q ↦ (a, rw q refl)
    ]

pub first_rate-sort :
    (lib : Library) (rs : List BuiltinPricingRate) (r : BuiltinPricingRate)
    → first_rate (sort_rates lib rs) ≡ some r
    → Memᴰ r rs × IsTop lib r rs
unfolding sort_rates
first_rate-sort lib [] r h = absurd (cc)
first_rate-sort lib (a ∷ rest) r h = elim (first_rate-insert lib a (sort_rates lib rest) r h) [
  | inr (e, q) ↦
      let (m, top) = first_rate-sort lib rest r e in
      (
        Memᴰ.tail m,
        λ x n. elim (Memᴰ.cases_cons n) [
          | inl same_a ↦
              subst (λ y. more_specific lib y r ≡ false) (sym same_a)
                (pair_gt_asym (pattern_specificity lib r.model_pattern)
                  (pattern_specificity lib a.model_pattern) q)
          | inr k ↦ top x k
        ],
      )
  | inl (same_r, below) ↦ (
    Memᴰ.head (sym same_r),
    λ x n.
        subst (λ y. more_specific lib x y ≡ false) same_r
          (elim (Memᴰ.cases_cons n) [
            | inl same_a ↦
                subst (λ y. more_specific lib y a ≡ false) (sym same_a)
                  (pair_gt_irrefl (pattern_specificity lib a.model_pattern))
            | inr k ↦
                let (h', e) = first_rate-there lib rest k in
                let (m, top) = first_rate-sort lib rest h' e in
                pair_gt_trans (pattern_specificity lib x.model_pattern)
                  (pattern_specificity lib h'.model_pattern)
                  (pattern_specificity lib a.model_pattern) (top x k) (below h' e)
          ]),
  )
]
