-- ===== src/Tenants/Access.antt =====
-- The tenants that `list_accessible_tenants` collects: the search ends, and it finds exactly the
-- rows below the root.
pub mod Search
use Search.{
  mem, Below, top, collect-IsClosed, collect_keeps, collect_sound, Below-collected, has_id-append,
}
use flash_connector.Prelude.{
  ℕ, zero, suc, ◌+◌, ◌≤◌, ◌<◌, String, Bool, true, false, not, Option, none, some, List, [], ◌∷◌,
  ◌++◌, ◌≡◌, refl, ◌↔◌, ◌⊎◌, inl, inr, ◌==◌, eq_iff, arith, if◌then◌else◌, any, length, count_by,
  Bool-cases, Option-cases, sym, ◌∙◌, subst, ap, ◌||◌, eq_refl, length-append, select, map, is_some,
  find_sound,
}
use flash_connector.Tenants.{
  Table, Tenant, get_tenant, is_child, child_ids, has_id, collect, insert_sorted, sort_tenants,
  list_accessible_tenants,
}

-- Rows whose parent is named and has not been collected yet: their ids are still to be queued.
waiting : List Tenant → Tenant → Bool
waiting by_id t = elim t.parent_tenant_id [ none ↦ false | some p ↦ not (has_id p by_id) ]

-- Collecting a tenant takes its children out of the waiting rows, one for each id that it queues.
count-waiting :
    (db : List Tenant) (by_id : List Tenant) (t : Tenant)
    → has_id t.id by_id ≡ false
    → count_by (waiting (by_id ++ t ∷ [])) db + length (child_ids db t.id)
      ≡ count_by (waiting by_id) db
unfolding waiting
count-waiting [] by_id t h = omega arith
count-waiting (u ∷ db) by_id t h = elim (Option-cases u.parent_tenant_id) [
  | inl e ↦ ground (arith, count-waiting db by_id t h)
  | inr (p, e) ↦ ground (
    arith,
    count-waiting db by_id t h,
    has_id-append p by_id (t ∷ []),
    eq_iff p t.id,
    eq_iff t.id p,
  )
]

collect_total :
    (db : Table) (fuel : ℕ) (queue : List String) (by_id : List Tenant)
    → length queue + count_by (waiting by_id) db ≤ fuel
    → (ts : List Tenant) × (collect db fuel queue by_id ≡ some ts)
unfolding collect
collect_total db fuel [] by_id h = (by_id, refl)
collect_total db zero (x ∷ queue) by_id h = absurd (omega arith)
collect_total db (suc fuel) (x ∷ queue) by_id h = elim (Option-cases (get_tenant db x)) [
  | inl e ↦ rw (e, collect) (collect_total db fuel queue by_id (omega arith))
  | inr (t, e) ↦ elim (Bool-cases (has_id t.id by_id)) [
    | inl seen ↦ rw (e, seen, collect) (collect_total db fuel queue by_id (omega arith))
    | inr new ↦
        rw (e, new, collect)
          (collect_total db fuel (queue ++ child_ids db t.id) (by_id ++ t ∷ [])
            (omega (arith, count-waiting db by_id t new, length-append queue (child_ids db t.id))))
  ]
]

count_by-le-length : (p : Tenant → Bool) (db : Table) → count_by p db ≤ length db
count_by-le-length p [] = omega arith
count_by-le-length p (t ∷ db) = ground (arith, count_by-le-length p db)

-- The search ends on every table, also where the parents form a cycle.
pub list_accessible_tenants_total :
    (db : Table) (root : String) → (ts : List Tenant) × (list_accessible_tenants db root ≡ some ts)
unfolding list_accessible_tenants
list_accessible_tenants_total db root =
    let (ts, e) =
      collect_total db (length db + 1) (root ∷ []) []
        (omega (arith, count_by-le-length (waiting []) db)) in
    (sort_tenants ts, rw e)

has_id-insert_sorted :
    (y : String) (t : Tenant) (ts : List Tenant) → has_id y (insert_sorted t ts) ≡ has_id y (t ∷ ts)
unfolding insert_sorted
has_id-insert_sorted y t [] = refl
has_id-insert_sorted y t (u ∷ us) = ground (arith, has_id-insert_sorted y t us)

has_id-sort_tenants : (y : String) (ts : List Tenant) → has_id y (sort_tenants ts) ≡ has_id y ts
unfolding sort_tenants
has_id-sort_tenants y [] = refl
has_id-sort_tenants y (t ∷ ts) =
    has_id-insert_sorted y t (sort_tenants ts)
    ∙ ap (λ b. (t.id == y) || b) (has_id-sort_tenants y ts)

collect_iff :
    (db : Table) (root y : String) (ts : List Tenant)
    → collect db (length db + 1) (root ∷ []) [] ≡ some ts
    → (has_id y ts ≡ true) ↔ Below db root y
collect_iff db root y ts e = (
  (λ h. collect_sound db root (length db + 1) (root ∷ []) [] y e (start, λ z hz. absurd (cc)) h),
  Below-collected db root ts y
      (collect-IsClosed db root (length db + 1) (root ∷ []) [] e (λ p z hp. absurd (cc)))
      (λ r. collect_keeps db root (length db + 1) (root ∷ []) [] root e r (rw eq_refl)),
)
  where
    start :
        (z : String) → mem z (root ∷ []) ≡ true → is_some (get_tenant db z) ≡ true → Below db root z
    start z hz r =
        let e' : root ≡ z = ground (arith, eq_iff root z) in
        subst (Below db root) e' (top (rw e' r))

-- Where the search returns a list, a tenant is in it exactly when it is the root, with a row, or lies
-- below the root in the tree of rows, at any depth.
pub list_accessible_tenants_iff :
    (db : Table) (root y : String) {ts : List Tenant}
    → list_accessible_tenants db root ≡ some ts
    → (has_id y ts ≡ true) ↔ Below db root y
unfolding list_accessible_tenants
list_accessible_tenants_iff db root y {ts} e =
    elim (Option-cases (collect db (length db + 1) (root ∷ []) [])) [
      | inl m ↦ absurd (ground arith)
      | inr (us, m) ↦
          let e' : sort_tenants us ≡ ts = ground arith in
          rw (← e') (rw (has_id-sort_tenants y us) (collect_iff db root y us m))
    ]
