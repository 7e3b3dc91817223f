-- ===== src/Tenants/Access/Search.antt =====
-- The queue of `list_accessible_tenants`: what it keeps true round by round.
use flash_connector.Prelude.{
  ℕ, zero, suc, String, Bool, true, some, List, [], ◌∷◌, ◌++◌, ◌≡◌, refl, inl, inr, ◌==◌, eq_iff,
  arith, if◌then◌else◌, any, Bool-cases, Option-cases, subst, eq_refl, select, map, is_some,
  find_sound,
}
use flash_connector.Tenants.{Table, Tenant, get_tenant, is_child, child_ids, has_id, collect}

pub has_id-append :
    (x : String) (ts us : List Tenant)
    → has_id x (ts ++ us) ≡ (if has_id x ts then true else has_id x us)
has_id-append x [] us = refl
has_id-append x (t ∷ ts) us = ground (arith, has_id-append x ts us)

abbrev pub mem : String → List String → Bool
mem y = any (λ x. x == y)

mem-append :
    (y : String) (xs ys : List String) → mem y (xs ++ ys) ≡ (if mem y xs then true else mem y ys)
mem-append y [] ys = refl
mem-append y (x ∷ xs) ys = ground (arith, mem-append y xs ys)

-- A row that `Below` holds of is the root, or the child of one that it holds of.
pub data Below (db : Table) (root : String) : String → Type 0 where
  top : is_some (get_tenant db root) ≡ true → Below db root root
  child : (p y : String) → Below db root p → mem y (child_ids db p) ≡ true → Below db root y

get_tenant-id : (db : Table) (x : String) {t : Tenant} → get_tenant db x ≡ some t → t.id ≡ x
unfolding get_tenant
get_tenant-id db x {t} h = (eq_iff t.id x).0 (find_sound (λ t. t.id == x) db h)

child_exists :
    (db sub : Table) (p y : String)
    → mem y (map (λ t. t.id) (select (is_child p) sub)) ≡ true
    → is_some (get_tenant sub y) ≡ true
unfolding get_tenant
child_exists db [] p y h = cc
child_exists db (t ∷ sub) p y h = ground (arith, child_exists db sub p y)

module _ (db : Table) (root : String) where
  abbrev pub IsClosed : List String → List Tenant → Type 0
  IsClosed queue by_id =
      (p y : String)
      → has_id p by_id ≡ true
      → mem y (child_ids db p) ≡ true
      → (if has_id y by_id then true else mem y queue) ≡ true

  abbrev pub IsSound : List String → List Tenant → Type 0
  IsSound queue by_id =
      ((y : String) → mem y queue ≡ true → is_some (get_tenant db y) ≡ true → Below db root y)
      × ((y : String) → has_id y by_id ≡ true → Below db root y)

  pub collect-IsClosed :
      (fuel : ℕ) (queue : List String) (by_id : List Tenant) {ts : List Tenant}
      → collect db fuel queue by_id ≡ some ts
      → IsClosed queue by_id
      → IsClosed [] ts
  unfolding collect
  collect-IsClosed fuel [] by_id {ts} e c = let e' : by_id ≡ ts = cc in subst (IsClosed []) e' c
  collect-IsClosed zero (x ∷ queue) by_id e c = absurd (cc)
  collect-IsClosed (suc fuel) (x ∷ queue) by_id {ts} e c = elim (Option-cases (get_tenant db x)) [
    | inl m ↦
        collect-IsClosed fuel queue by_id (ground arith)
          λ p y hp hy. ground (arith, c p y hp hy, child_exists db db p y hy, eq_iff x y)
    | inr (t, m) ↦ elim (Bool-cases (has_id t.id by_id)) [
      | inl seen ↦
          collect-IsClosed fuel queue by_id (ground arith)
            λ p y hp hy. ground (arith, c p y hp hy, get_tenant-id db x m, eq_iff x y)
      | inr new ↦
          collect-IsClosed fuel (queue ++ child_ids db t.id) (by_id ++ t ∷ []) (ground arith)
            λ p y hp hy. ground (
              arith,
              c p y,
              has_id-append p by_id (t ∷ []),
              has_id-append y by_id (t ∷ []),
              mem-append y queue (child_ids db t.id),
              get_tenant-id db x m,
              eq_iff x y,
              eq_iff t.id p,
              eq_iff t.id y,
            )
    ]
  ]

  -- What is collected stays, and what is queued and has a row is collected.
  pub collect_keeps :
      (fuel : ℕ) (queue : List String) (by_id : List Tenant) {ts : List Tenant} (y : String)
      → collect db fuel queue by_id ≡ some ts
      → is_some (get_tenant db y) ≡ true
      → (if has_id y by_id then true else mem y queue) ≡ true
      → has_id y ts ≡ true
  unfolding collect
  collect_keeps fuel [] by_id {ts} y e r h = let e' : by_id ≡ ts = cc in ground arith
  collect_keeps zero (x ∷ queue) by_id y e r h = absurd (cc)
  collect_keeps (suc fuel) (x ∷ queue) by_id {ts} y e r h = elim (Option-cases (get_tenant db x)) [
    | inl m ↦ collect_keeps fuel queue by_id y (ground arith) r (ground (arith, eq_iff x y))
    | inr (t, m) ↦ elim (Bool-cases (has_id t.id by_id)) [
      | inl seen ↦
          collect_keeps fuel queue by_id y (ground arith) r
            (ground (arith, get_tenant-id db x m, eq_iff x y))
      | inr new ↦
          collect_keeps fuel (queue ++ child_ids db t.id) (by_id ++ t ∷ []) y (ground arith) r (
            ground (
              arith,
              has_id-append y by_id (t ∷ []),
              mem-append y queue (child_ids db t.id),
              get_tenant-id db x m,
              eq_iff x y,
              eq_iff t.id y,
            ))
    ]
  ]

  pub collect_sound :
      (fuel : ℕ) (queue : List String) (by_id : List Tenant) {ts : List Tenant} (y : String)
      → collect db fuel queue by_id ≡ some ts
      → IsSound queue by_id
      → has_id y ts ≡ true
      → Below db root y
  unfolding collect
  collect_sound fuel [] by_id {ts} y e s h = let e' : by_id ≡ ts = cc in s.1 y (rw e' h)
  collect_sound zero (x ∷ queue) by_id y e s h = absurd (cc)
  collect_sound (suc fuel) (x ∷ queue) by_id {ts} y e s h = elim (Option-cases (get_tenant db x)) [
    | inl m ↦
        collect_sound fuel queue by_id y (ground arith) ((λ z hz. s.0 z (ground arith)), s.1) h
    | inr (t, m) ↦ elim (Bool-cases (has_id t.id by_id)) [
      | inl seen ↦
          collect_sound fuel queue by_id y (ground arith) ((λ z hz. s.0 z (ground arith)), s.1) h
      | inr new ↦
          let tx : t.id ≡ x = get_tenant-id db x m in
          let bt : Below db root t.id = rw tx (s.0 x (rw eq_refl) (rw m)) in
          collect_sound fuel (queue ++ child_ids db t.id) (by_id ++ t ∷ []) y (ground arith)
            (
              (λ z hz. λ r. elim (Bool-cases (mem z queue)) [
                | inl old ↦ s.0 z (ground arith) r
                | inr no_ ↦ child t.id z bt (ground (arith, mem-append z queue (child_ids db t.id)))
              ]),
              (λ z hz. elim (Bool-cases (has_id z by_id)) [
                | inl old ↦ s.1 z old
                | inr no_ ↦
                    let tz : t.id ≡ z =
                      ground (arith, has_id-append z by_id (t ∷ []), eq_iff t.id z) in
                    subst (Below db root) tz bt
              ]),
            )
            h
    ]
  ]

  Below-row : (y : String) → Below db root y → is_some (get_tenant db y) ≡ true
  Below-row y (top r) = r
  Below-row y (child p _ b m) = child_exists db db p y m

  pub Below-collected :
      (ts : List Tenant) (y : String)
      → IsClosed [] ts
      → (is_some (get_tenant db root) ≡ true → has_id root ts ≡ true)
      → Below db root y
      → has_id y ts ≡ true
  Below-collected ts y c r (top x) = r x
  Below-collected ts y c r (child p _ b m) = ground (arith, c p y (Below-collected ts p c r b) m)
