-- ===== src/Prelude/Lists.antt =====
-- Lists measured by native numbers and searched by Boolean tests.
use Prim.Native.Nat.{ℕ, zero, suc, ◌+◌, ◌≤◌}
use mathlib.Core.Path.{◌≡◌, sym, ap, ◌∙◌}
use mathlib.Core.Bool.{Bool, true, false, ◌||◌}
use mathlib.Core.Option.{Option, none, some}
use mathlib.Core.List.{List, [], ◌∷◌, ◌++◌, Memᴰ}
use mathlib.Core.List.Memᴰ
use native.Mathlib.Omega.{arith}
use mathlib.Core.Path.{subst}
use mathlib.Core.Logic.{inl, inr}
use flash_connector.Prelude.Tests.{if◌then◌else◌, Bool-cases}

module _ {ℓ} {A : Type ℓ} where
  abbrev pub length : List A → ℕ
  length [] = 0
  length (x ∷ xs) = suc (length xs)

  abbrev pub take : ℕ → List A → List A
  take zero xs = []
  take (suc n) [] = []
  take (suc n) (x ∷ xs) = x ∷ take n xs

  -- `[x for x in xs if p(x)]`
  abbrev pub select : (A → Bool) → List A → List A
  select p [] = []
  select p (x ∷ xs) = if p x then x ∷ select p xs else select p xs

  -- the first match, as `db.scalar(select(…).where(…))`
  abbrev pub find : (A → Bool) → List A → Option A
  find p [] = none
  find p (x ∷ xs) = if p x then some x else find p xs

  abbrev pub any : (A → Bool) → List A → Bool
  any p [] = false
  any p (x ∷ xs) = p x || any p xs

  -- how many elements pass a test
  abbrev pub count_by : (A → Bool) → List A → ℕ
  count_by p [] = 0
  count_by p (x ∷ xs) = (if p x then 1 else 0) + count_by p xs

  -- every element passes, as a predicate that computes to a tuple
  abbrev pub All {κ} : (A → Type κ) → List A → Type κ
  All P [] = Unit
  All P (x ∷ xs) = P x × All P xs

  pub length-append : (xs ys : List A) → length (xs ++ ys) ≡ length xs + length ys
  length-append [] ys = omega arith
  length-append (x ∷ xs) ys = omega (arith, length-append xs ys)

  pub length-take-le : (n : ℕ) (xs : List A) → length (take n xs) ≤ n
  length-take-le zero xs = omega arith
  length-take-le (suc n) [] = omega arith
  length-take-le (suc n) (x ∷ xs) = omega (arith, length-take-le n xs)

  pub find_sound : (p : A → Bool) (xs : List A) {a : A} → find p xs ≡ some a → p a ≡ true
  find_sound p [] h = cc
  find_sound p (x ∷ xs) {a} h = ground (arith, find_sound p xs {a = a})

  pub All-find {κ} :
      (P : A → Type κ) (p : A → Bool) (xs : List A) {a : A} → All P xs → find p xs ≡ some a → P a
  All-find P p [] h e = cc
  All-find P p (x ∷ xs) {a} h e = elim (Bool-cases (p x)) [
    | inl q ↦ let e' : x ≡ a = ground arith in subst P e' h.0
    | inr q ↦ All-find P p xs h.1 (rw q at e)
  ]

  pub mem-select :
      {a : A} (p : A → Bool) (xs : List A) → Memᴰ a (select p xs) → Memᴰ a xs × (p a ≡ true)
  mem-select p [] m = absurd (Memᴰ.not-nil m)
  mem-select {a} p (x ∷ xs) m = elim (Bool-cases (p x)) [
    | inr q ↦ let (k, h) = mem-select p xs (rw q at m) in (Memᴰ.tail k, h)
    | inl q ↦
        let m' : Memᴰ a (x ∷ select p xs) = rw q at m in
        elim (Memᴰ.cases_cons m') [
          | inl e ↦ (Memᴰ.head e, ap p e ∙ q)
          | inr k ↦ let (n, h) = mem-select p xs k in (Memᴰ.tail n, h)
        ]
  ]

  pub select_keeps :
      {a : A} (p : A → Bool) (xs : List A) → Memᴰ a xs → p a ≡ true → Memᴰ a (select p xs)
  select_keeps p [] m h = m
  select_keeps p (x ∷ xs) m h = elim (Memᴰ.cases_cons m) [
    | inl e ↦ rw (ap p (sym e) ∙ h) (Memᴰ.head e)
    | inr k ↦ elim (Bool-cases (p x)) [
      | inl q ↦ rw q (Memᴰ.tail (select_keeps p xs k h))
      | inr q ↦ rw q (select_keeps p xs k h)
    ]
  ]

  pub find-mem : (p : A → Bool) (xs : List A) {a : A} → find p xs ≡ some a → Memᴰ a xs
  find-mem p [] h = absurd (cc)
  find-mem p (x ∷ xs) {a} h = elim (Bool-cases (p x)) [
    | inl q ↦ let e : x ≡ a = ground (arith, h, q) in Memᴰ.head (sym e)
    | inr q ↦ Memᴰ.tail (find-mem p xs (rw q at h))
  ]

  pub mem-count_by :
      (p : A → Bool) (xs : List A) {a : A} → Memᴰ a xs → p a ≡ true → 1 ≤ count_by p xs
  mem-count_by p [] m h = absurd (Memᴰ.not-nil m)
  mem-count_by p (x ∷ xs) m h = elim (Memᴰ.cases_cons m) [
    | inl e ↦ let px : p x ≡ true = ap p (sym e) ∙ h in rw px (omega arith)
    | inr k ↦ let rest = mem-count_by p xs k h in omega arith
  ]

  pub count_by-select-le : (p q : A → Bool) (xs : List A) → count_by p (select q xs) ≤ count_by p xs
  count_by-select-le p q [] = omega arith
  count_by-select-le p q (x ∷ xs) = elim (Bool-cases (q x)) [
    | inl e ↦ rw e (omega (arith, count_by-select-le p q xs))
    | inr e ↦ rw e (omega (arith, count_by-select-le p q xs))
  ]

  -- An element that is taken out counts for one at least.
  pub count_by-select-lt :
      (p q : A → Bool) (xs : List A) {a : A}
      → Memᴰ a xs
      → p a ≡ true
      → q a ≡ false
      → count_by p (select q xs) + 1 ≤ count_by p xs
  count_by-select-lt p q [] m h n = absurd (Memᴰ.not-nil m)
  count_by-select-lt p q (x ∷ xs) m h n = elim (Memᴰ.cases_cons m) [
    | inl e ↦
        let px : p x ≡ true = ap p (sym e) ∙ h in
        let qx : q x ≡ false = ap q (sym e) ∙ n in
        rw (px, qx) (omega (arith, count_by-select-le p q xs))
    | inr k ↦
        let rest = count_by-select-lt p q xs k h n in
        elim (Bool-cases (q x)) [ inl y ↦ rw y (omega arith) | inr y ↦ rw y (omega arith) ]
  ]
