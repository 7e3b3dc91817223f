-- ===== src/Prelude/Counting.antt =====
-- Counts of the rows that pass a test, where the rows of a table change.
use Prim.Native.Nat.{◌+◌, ◌≤◌}
use mathlib.Core.Path.{◌≡◌, refl, ap}
use mathlib.Core.Logic.{inl, inr}
use mathlib.Core.Bool.{Bool, true, false, ◌&&◌}
use mathlib.Core.Option.{none}
use mathlib.Core.List.{List, [], ◌∷◌, ◌++◌, map}
use native.Mathlib.Omega.{arith}
use flash_connector.Prelude.Tests.{if◌then◌else◌, Bool-cases}
use flash_connector.Prelude.Lists.{select, find, any, count_by, All}

module _ {A : Type 0} where
  pub count_by-append :
      (p : A → Bool) (xs : List A) (x : A)
      → count_by p (xs ++ x ∷ []) ≡ count_by p xs + (if p x then 1 else 0)
  count_by-append p [] x = omega arith
  count_by-append p (y ∷ xs) x = omega (arith, count_by-append p xs x)

  -- A change of rows that brings no further row past a test.
  pub count_by-map-le :
      (R : A → Type 0) (p q : A → Bool) (f : A → A) (xs : List A)
      → All R xs
      → ((x : A) → R x → p (f x) ≡ true → q x ≡ true)
      → count_by p (map f xs) ≤ count_by q xs
  count_by-map-le R p q f [] r h = omega arith
  count_by-map-le R p q f (x ∷ xs) r h = elim (Bool-cases (p (f x))) [
    | inl e ↦ let e' = h x r.0 e in rw (e, e') (omega (arith, count_by-map-le R p q f xs r.1 h))
    | inr e ↦ rw e (omega (arith, count_by-map-le R p q f xs r.1 h))
  ]

  pub map-map :
      {B C : Type 0} (g : B → C) (f : A → B) (xs : List A)
      → map g (map f xs) ≡ map (λ x. g (f x)) xs
  map-map g f [] = refl
  map-map g f (x ∷ xs) = ap (λ ys. g (f x) ∷ ys) (map-map g f xs)

  pub All-true : (Q : A → Type 0) (xs : List A) → ((x : A) → Q x) → All Q xs
  All-true Q [] h = tt
  All-true Q (x ∷ xs) h = (h x, All-true Q xs h)

  pub All-absent :
      (Q : A → Type 0) (p : A → Bool) (xs : List A)
      → count_by p xs ≡ 0
      → All (λ x. p x ≡ true → Q x) xs
  All-absent Q p [] h = tt
  All-absent Q p (x ∷ xs) h = elim (Bool-cases (p x)) [
    | inl e ↦ let h' : 1 + count_by p xs ≡ 0 = rw e at h in absurd (omega arith)
    | inr e ↦
        let h' : 0 + count_by p xs ≡ 0 = rw e at h in
        ((λ t. absurd (cc)), All-absent Q p xs (omega arith))
  ]

  pub All-snoc : (Q : A → Type 0) (xs : List A) (x : A) → All Q xs → Q x → All Q (xs ++ x ∷ [])
  All-snoc Q [] x r q = (q, tt)
  All-snoc Q (y ∷ xs) x r q = (r.0, All-snoc Q xs x r.1 q)

  pub count_by-none : (p : A → Bool) (xs : List A) → select p xs ≡ [] → count_by p xs ≡ 0
  count_by-none p [] h = omega arith
  count_by-none p (x ∷ xs) h = elim (Bool-cases (p x)) [
    | inl e ↦ absurd (cc (rw e at h))
    | inr e ↦ let rest = count_by-none p xs (rw e at h) in rw e (omega arith)
  ]

  pub find-none :
      (p q : A → Bool) (xs : List A) → count_by p xs ≡ 0 → find (λ x. p x && q x) xs ≡ none
  find-none p q [] h = refl
  find-none p q (x ∷ xs) h = ground (arith, h, find-none p q xs)

  pub count_by-weaken-le :
      (p q : A → Bool) (xs : List A)
      → ((x : A) → p x ≡ true → q x ≡ true)
      → count_by p xs ≤ count_by q xs
  count_by-weaken-le p q [] h = omega arith
  count_by-weaken-le p q (x ∷ xs) h = elim (Bool-cases (p x)) [
    | inl e ↦ let e' = h x e in rw (e, e') (omega (arith, count_by-weaken-le p q xs h))
    | inr e ↦ rw e (omega (arith, count_by-weaken-le p q xs h))
  ]

  pub count_by-any : (p : A → Bool) (xs : List A) → any p xs ≡ false → count_by p xs ≡ 0
  count_by-any p [] h = omega arith
  count_by-any p (x ∷ xs) h = ground (arith, h, count_by-any p xs)
