-- ===== src/Providers/Naming.antt =====
-- A new connection always finds a name.
use flash_connector.Prelude.{
  ℕ, zero, suc, ◌+◌, ◌≤◌, ◌<◌, String, true, false, ◌&&◌, not, none, some, [], ◌∷◌, ◌≡◌, refl,
  arith, inl, inr, length, subst, is_empty, Bool-cases, Option-cases, ◌==◌, eq_iff,
}
use flash_connector.Providers.{Configs}
use flash_connector.Providers.Names.{
  Names, folded, is_taken, candidate_name, free_name, new_connection_name,
}

-- Where a name is taken, one connection less takes all the others that differ from it.
is_taken_less :
    (names : Names) (configs : Configs) (name : String)
    → is_taken names configs name ≡ true
    → (rest : Configs) × (length configs ≡ suc (length rest))
      × ((other : String)
          → (folded names name == folded names other) ≡ false
          → is_taken names configs other ≡ true
          → is_taken names rest other ≡ true)
is_taken_less names [] name h = absurd (cc)
is_taken_less names (c ∷ cs) name h =
    elim (Bool-cases (not (is_empty c.name) && (folded names c.name == folded names name))) [
      | inl q ↦ (
        cs,
        refl,
        λ other n t. ground (
          arith,
          q,
          n,
          t,
          eq_iff (folded names c.name) (folded names name),
          eq_iff (folded names c.name) (folded names other),
          eq_iff (folded names name) (folded names other),
        ),
      )
      | inr q ↦
          let (rest, e, f) = is_taken_less names cs name (rw q at h) in
          (c ∷ rest, omega arith, λ other n t. let later = f other n in ground (arith, t, later))
    ]

-- The numbered names differ, also when they are compared without case.
abbrev pub AreDistinct : Names → String → Type 0
AreDistinct names base =
    (m n : ℕ)
    → m < n
    → (folded names (candidate_name names base m) == folded names (candidate_name names base n))
      ≡ false

-- As many names as are taken, as many connections there are.
all_taken-le :
    (names : Names) (base : String) (fuel suffix : ℕ) (configs : Configs)
    → AreDistinct names base
    → ((i : ℕ) → i < fuel → is_taken names configs (candidate_name names base (suffix + i)) ≡ true)
    → fuel ≤ length configs
all_taken-le names base zero suffix configs d h = omega arith
all_taken-le names base (suc fuel) suffix configs d h =
    let first : is_taken names configs (candidate_name names base suffix) ≡ true =
      rw (sym_zero suffix) (h 0 (omega arith)) in
    let (rest, e, f) = is_taken_less names configs (candidate_name names base suffix) first in
    let fewer = all_taken-le names base fuel (suffix + 1) rest d (λ i l.
      f (candidate_name names base (suffix + 1 + i)) (d suffix (suffix + 1 + i) (omega arith)) (
        subst (λ n. is_taken names configs (candidate_name names base n) ≡ true) (next suffix i)
          (h (1 + i) (omega arith)))) in
    omega (arith, fewer, e)
  where
    sym_zero : (n : ℕ) → n ≡ n + 0
    sym_zero n = omega arith

    next : (n i : ℕ) → n + (1 + i) ≡ n + 1 + i
    next n i = omega arith

free_name-taken :
    (names : Names) (configs : Configs) (base : String) (fuel suffix : ℕ)
    → free_name names configs base fuel suffix ≡ none
    → (i : ℕ) → i < fuel
    → is_taken names configs (candidate_name names base (suffix + i)) ≡ true
unfolding free_name
free_name-taken names configs base zero suffix h i l = absurd (omega arith)
free_name-taken names configs base (suc fuel) suffix h zero l =
    elim (Bool-cases (is_taken names configs (candidate_name names base suffix))) [
      | inr q ↦ absurd (cc (rw (q, free_name) at h))
      | inl q ↦
          subst (λ n. is_taken names configs (candidate_name names base n) ≡ true)
            (plus_zero suffix) q
    ]
  where
    plus_zero : (n : ℕ) → n ≡ n + 0
    plus_zero n = omega arith
free_name-taken names configs base (suc fuel) suffix h (suc i) l =
    elim (Bool-cases (is_taken names configs (candidate_name names base suffix))) [
      | inr q ↦ absurd (cc (rw (q, free_name) at h))
      | inl q ↦
          subst (λ n. is_taken names configs (candidate_name names base n) ≡ true)
            (plus_suc suffix i)
            (free_name-taken names configs base fuel (suffix + 1) (rw (q, free_name) at h) i
              (omega arith))
    ]
  where
    plus_suc : (n i : ℕ) → n + 1 + i ≡ n + suc i
    plus_suc n i = omega arith

free_name-free :
    (names : Names) (configs : Configs) (base : String) (fuel suffix : ℕ) (name : String)
    → free_name names configs base fuel suffix ≡ some name
    → is_taken names configs name ≡ false
unfolding free_name
free_name-free names configs base zero suffix name h = absurd (cc)
free_name-free names configs base (suc fuel) suffix name h =
    elim (Bool-cases (is_taken names configs (candidate_name names base suffix))) [
      | inl q ↦ free_name-free names configs base fuel (suffix + 1) name (rw (q, free_name) at h)
      | inr q ↦
          let h' : some (candidate_name names base suffix) ≡ some name = rw (q, free_name) at h in
          let same : candidate_name names base suffix ≡ name = ground (arith, h') in rw (← same) q
    ]

-- The search for a name ends within its rounds, with a name that no connection has, whatever the case of
-- its letters, where the numbered names differ.
pub new_connection_name_total :
    (names : Names) (own : Configs) (slug : String)
    → AreDistinct names (names.base_name slug)
    → (name : String) × (new_connection_name names own slug ≡ some name)
      × (is_taken names own name ≡ false)
unfolding new_connection_name
new_connection_name_total names own slug d =
    let base = names.base_name slug in
    elim (Bool-cases (is_taken names own base)) [
      | inr q ↦ (base, rw (q, new_connection_name) refl, q)
      | inl q ↦ elim (Option-cases (free_name names own base (suc (length own)) 2)) [
        | inr (name, e) ↦ (
          name,
          rw (q, e, new_connection_name) refl,
          free_name-free names own base (suc (length own)) 2 name e,
        )
        | inl e ↦
            let over =
              all_taken-le names base (suc (length own)) 2 own d
                (free_name-taken names own base (suc (length own)) 2 e) in
            absurd (omega (arith, over))
      ]
    ]
