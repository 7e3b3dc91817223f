-- ===== src/Tenants/Params.antt =====
-- Which tenant of the lineage decides the value of a query parameter.
use mathlib.Core.List.{reverse-cons}
use flash_connector.Prelude.{
  ℕ, zero, suc, max, String, false, Option, none, some, List, [], ◌∷◌, ◌++◌, reverse, ◌≡◌, refl,
  ◌==◌, eq_iff, arith, if◌then◌else◌, All, All-find, is_empty, Bool-cases, Option-cases, inl, inr,
}
use flash_connector.Prelude.Dict
use flash_connector.Prelude.Dict.{Dict, lookup, contains, lookup-insert}
use flash_connector.Json.{Json, as_dict}
use flash_connector.Tenants.{
  Table, Tenant, inherit, merge, override, get_tenant, lineage_from, tenant_lineage, apply_mode,
  apply_modes, resolve_effective_query_params,
}

-- No key is repeated, as in every Python dict.
abbrev pub Distinct {ℓ} : {V : Type ℓ} → Dict V → Type 0
Distinct [] = Unit
Distinct ((k, v) ∷ d) = (contains k d ≡ false) × Distinct d

lookup-merge :
    (k : String) (a b : Dict Json)
    → Distinct b
    → lookup k (Dict.merge a b) ≡ (if contains k b then lookup k b else lookup k a)
lookup-merge k a [] h = refl
lookup-merge k a ((j, v) ∷ b) h =
    ground (arith, lookup-merge k (Dict.insert j v a) b h.1, lookup-insert j k v a, eq_iff j k)

-- The value that the nearest tenant gives, from the tenant up to the root: one that inherits gives
-- none, one that merges gives what it declares, one that overrides hides all above it.
pub nearest : String → List Tenant → Option Json
nearest k [] = none
nearest k (t ∷ above) =
    let further = nearest k above in
    elim t.query_params_mode [
      | inherit ↦ further
      | merge ↦
          if contains k (as_dict t.query_params_json)
          then lookup k (as_dict t.query_params_json)
          else further
      | override ↦ lookup k (as_dict t.query_params_json)
    ]

apply_modes-append :
    (d : Dict Json) (xs ys : List Tenant)
    → apply_modes d (xs ++ ys) ≡ apply_modes (apply_modes d xs) ys
unfolding apply_modes
apply_modes-append d [] ys = refl
apply_modes-append d (x ∷ xs) ys = apply_modes-append (apply_mode d x) xs ys

abbrev pub HasDistinctParams : Tenant → Type 0
HasDistinctParams t = Distinct (as_dict t.query_params_json)

lookup-apply_mode :
    (k : String) (d : Dict Json) (t : Tenant) (above : List Tenant)
    → HasDistinctParams t
    → lookup k d ≡ nearest k above
    → lookup k (apply_mode d t) ≡ nearest k (t ∷ above)
unfolding apply_mode nearest
lookup-apply_mode k d t above h e = ground (arith, lookup-merge k d (as_dict t.query_params_json) h)

lookup-apply_modes :
    (k : String) (ts : List Tenant)
    → All HasDistinctParams ts
    → lookup k (apply_modes [] (reverse ts)) ≡ nearest k ts
unfolding apply_modes nearest
lookup-apply_modes k [] h = refl
lookup-apply_modes k (t ∷ ts) h = rw (reverse-cons t ts) (
    rw (apply_modes-append [] (reverse ts) (t ∷ []))
      (lookup-apply_mode k (apply_modes [] (reverse ts)) t ts h.0 (lookup-apply_modes k ts h.1)))

All-lineage_from :
    (db : Table) (n : ℕ) (c : Option String)
    → All HasDistinctParams db
    → All HasDistinctParams (lineage_from db n c)
unfolding lineage_from get_tenant
All-lineage_from db zero c h = tt
All-lineage_from db (suc n) none h = tt
All-lineage_from db (suc n) (some c) h = elim (Bool-cases (is_empty c)) [
  | inl e ↦ rw e tt
  | inr e ↦ elim (Option-cases (get_tenant db c)) [
    | inl m ↦ rw (e, m) tt
    | inr (t, m) ↦
        rw (e, m)
          (
            All-find HasDistinctParams (λ t. t.id == c) db h m,
            All-lineage_from db n t.parent_tenant_id h,
          )
  ]
]

-- Where no row repeats a key, each effective parameter of a tenant is the one of the nearest tenant
-- of its lineage that declares it, up to the first one that overrides.
pub lookup-resolve_effective_query_params :
    (db : Table) (setting : ℕ) (tenant_id k : String)
    → All HasDistinctParams db
    → lookup k (resolve_effective_query_params db setting tenant_id)
      ≡ nearest k (tenant_lineage db (max setting 1) tenant_id)
unfolding resolve_effective_query_params tenant_lineage
lookup-resolve_effective_query_params db setting tenant_id k h =
    lookup-apply_modes k (lineage_from db (max setting 1) (some tenant_id))
      (All-lineage_from db (max setting 1) (some tenant_id) h)
