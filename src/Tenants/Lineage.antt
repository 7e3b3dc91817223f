-- ===== src/Tenants/Lineage.antt =====
-- The chain of parents that `tenant_lineage` walks, and the access test that rests on it.
use flash_connector.Prelude.{
  ℕ, zero, suc, ◌≤◌, max, String, true, false, Option, none, some, [], ◌≡◌, refl, ◌↔◌, ◌⊎◌, inl,
  inr, ◌==◌, eq_iff, arith, length, is_empty, find_sound, Bool-cases, Option-cases, sym, ◌∙◌, subst,
}
use flash_connector.Tenants.{
  Table, Tenant, get_tenant, lineage_from, tenant_lineage, is_same_or_descendant, has_id,
}

-- `a` is reached from `c` by fewer than `n` parent links, each of them to a row of the table.
pub data Above (db : Table) : ℕ → String → String → Type 0 where
  self :
      (n : ℕ) (c : String) (t : Tenant)
      → is_empty c ≡ false
      → get_tenant db c ≡ some t
      → Above db (suc n) c c
  up :
      (n : ℕ) (a c p : String) (t : Tenant)
      → is_empty c ≡ false
      → get_tenant db c ≡ some t
      → t.parent_tenant_id ≡ some p
      → Above db n a p
      → Above db (suc n) a c

get_tenant-id : (db : Table) (x : String) {t : Tenant} → get_tenant db x ≡ some t → t.id ≡ x
unfolding get_tenant
get_tenant-id db x {t} h = (eq_iff t.id x).0 (find_sound (λ t. t.id == x) db h)

length-lineage_from : (db : Table) (n : ℕ) (c : Option String) → length (lineage_from db n c) ≤ n
unfolding lineage_from
length-lineage_from db zero c = omega arith
length-lineage_from db (suc n) none = omega arith
length-lineage_from db (suc n) (some c) = elim (Bool-cases (is_empty c)) [
  | inl e ↦ rw e (omega arith)
  | inr e ↦ elim (Option-cases (get_tenant db c)) [
    | inl m ↦ ground arith
    | inr (t, m) ↦ ground (arith, length-lineage_from db n t.parent_tenant_id)
  ]
]

-- A lineage never has more rows than the depth allows, also where the parents form a cycle.
pub length-tenant_lineage-le :
    (db : Table) (max_depth : ℕ) (id : String) → length (tenant_lineage db max_depth id) ≤ max_depth
unfolding tenant_lineage
length-tenant_lineage-le db n id = length-lineage_from db n (some id)

lineage_from-none : (db : Table) (n : ℕ) → lineage_from db n none ≡ []
unfolding lineage_from
lineage_from-none db zero = refl
lineage_from-none db (suc n) = refl

lineage-Above :
    (db : Table) (n : ℕ) (a c : String)
    → has_id a (lineage_from db n (some c)) ≡ true
    → Above db n a c
unfolding lineage_from
lineage-Above db zero a c h = cc
lineage-Above db (suc n) a c h = elim (Bool-cases (is_empty c)) [
  | inl e ↦ absurd (ground arith)
  | inr e ↦ elim (Option-cases (get_tenant db c)) [
    | inl m ↦ absurd (ground arith)
    | inr (t, m) ↦ elim (Bool-cases (t.id == a)) [
      | inl q ↦
          let e' : c ≡ a = sym (get_tenant-id db c m) ∙ (eq_iff t.id a).0 q in
          subst (λ x. Above db (suc n) x c) e' (self n c t e m)
      | inr q ↦ elim (Option-cases t.parent_tenant_id) [
        | inl o ↦ absurd (ground (arith, lineage_from-none db n))
        | inr (p, o) ↦ up n a c p t e m o (lineage-Above db n a p (ground arith))
      ]
    ]
  ]
]

Above-lineage :
    (db : Table) (n : ℕ) (a c : String)
    → Above db n a c
    → has_id a (lineage_from db n (some c)) ≡ true
unfolding lineage_from
Above-lineage db _ a c (self n _ t e m) = ground (arith, (eq_iff t.id c).1 (get_tenant-id db c m))
Above-lineage db _ a c (up n _ _ p t e m o r) = ground (arith, Above-lineage db n a p r)

-- The access test passes exactly for the tenant itself and for a tenant reached from the candidate
-- by fewer parent links than the configured depth (at least 1), over rows that exist.
pub is_same_or_descendant_iff :
    (db : Table) (setting : ℕ) (ancestor candidate : String)
    → (is_same_or_descendant db setting ancestor candidate ≡ true)
      ↔ ((ancestor ≡ candidate) ⊎ Above db (max setting 1) ancestor candidate)
unfolding is_same_or_descendant tenant_lineage
is_same_or_descendant_iff db setting a c = (there, back)
  where
    there : is_same_or_descendant db setting a c ≡ true → (a ≡ c) ⊎ Above db (max setting 1) a c
    there h = elim (Bool-cases (a == c)) [
      | inl q ↦ inl ((eq_iff a c).0 q)
      | inr q ↦ inr (lineage-Above db (max setting 1) a c (ground arith))
    ]

    back : (a ≡ c) ⊎ Above db (max setting 1) a c → is_same_or_descendant db setting a c ≡ true
    back (inl q) = rw ((eq_iff a c).1 q)
    back (inr r) = ground (arith, Above-lineage db (max setting 1) a c r)
