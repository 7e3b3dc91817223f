-- ===== src/Providers/Refusals.antt =====
-- What a refused upsert of api/app/services/providers.py leaves behind.
use flash_connector.Prelude.{
  ℕ, String, true, [], ◌∷◌, ◌++◌, ◌≡◌, refl, sym, ap, ◌⊎◌, inl, inr, ◌==◌, select, is_nil, is_empty,
  or_else, Bool-cases, Option-cases, Result-cases, ok, err,
}
use flash_connector.Providers.{
  TenantProviderConfig, Configs, is_of, get_tenant_provider_config_by_id,
}
use flash_connector.Providers.Connections.{
  find_or_create, save_config, upsert_tenant_provider_config, chosen_name, blank_config, clashes,
}
use flash_connector.Providers.Changes.{Vault, Upsert, change_config}
use flash_connector.Providers.Names.{Names}
use flash_connector.Providers.Edits.{ok_injective}

-- The table after a refused call: as it was, or with one more connection at its end, which has the new id,
-- belongs to the tenant and the provider, and is the default where it is their first.
abbrev pub Leaves : String → String → String → Upsert → Configs → Configs → Type 0
Leaves new_id tenant_id slug a configs rows =
    (rows ≡ configs)
    ⊎ ((c : TenantProviderConfig) × (rows ≡ configs ++ c ∷ [])
        × (c.id ≡ new_id)
        × (c.tenant_id ≡ tenant_id)
        × (c.provider_slug ≡ slug)
        × (c.is_default ≡ is_nil (select (is_of tenant_id slug) configs))
        × (is_empty (or_else a.provider_config_id "") ≡ true))

find_or_create-Leaves :
    (names : Names) (new_id : String) (now : ℕ) (tenant_id slug : String) (a : Upsert)
    (configs rows : Configs) (c : TenantProviderConfig)
    → find_or_create names new_id now tenant_id slug a configs ≡ ok (c, rows)
    → Leaves new_id tenant_id slug a configs rows
unfolding find_or_create
find_or_create-Leaves names new_id now tenant_id slug a configs rows c h =
    let own = select (is_of tenant_id slug) configs in
    elim (Bool-cases (is_empty (or_else a.provider_config_id ""))) [
      | inl e ↦ elim (Option-cases (chosen_name names own slug a.connection_name)) [
        | inl n ↦ absurd (cc (rw (e, n, find_or_create) at h))
        | inr (name, n) ↦
            let new = blank_config new_id now tenant_id slug name a.description (is_nil own) in
            elim (Bool-cases (clashes new_id tenant_id slug name configs)) [
              | inl k ↦ absurd (cc (rw (e, n, k, find_or_create) at h))
              | inr k ↦
                  let same = ok_injective (rw (e, n, k, find_or_create) at h) in
                  inr (
                    new,
                    sym (ap (λ (x : TenantProviderConfig × Configs). x.1) same),
                    refl,
                    refl,
                    refl,
                    refl,
                    e,
                  )
            ]
      ]
      | inr e ↦
          elim (Option-cases (
            get_tenant_provider_config_by_id configs tenant_id (or_else a.provider_config_id ""))) [
              | inl n ↦ absurd (cc (rw (e, n, find_or_create) at h))
              | inr (d, n) ↦ elim (Bool-cases (d.provider_slug == slug)) [
                | inr k ↦ absurd (cc (rw (e, n, k, find_or_create) at h))
                | inl k ↦
                    let same = ok_injective (rw (e, n, k, find_or_create) at h) in
                    inl (sym (ap (λ (x : TenantProviderConfig × Configs). x.1) same))
              ]
            ]
    ]

-- A call that raises, for whatever reason, changes no connection that was in the table: it leaves the
-- table as it was, or, where it names no connection to change, with one more at its end, which has the
-- new id, belongs to the tenant and the provider, and is the default where it is their first.
pub upsert_refused :
    {F : Type 0} (vault : Vault F) (names : Names) (new_id : String) (now stamp : ℕ)
    (tenant_id slug : String) (a : Upsert) (configs : Configs) (files : F) (exc : String)
    → (upsert_tenant_provider_config vault names new_id now stamp tenant_id slug a configs files).0
      ≡ err exc
    → Leaves new_id tenant_id slug a configs
        (upsert_tenant_provider_config vault names new_id now stamp tenant_id slug a configs
          files).1
unfolding upsert_tenant_provider_config
upsert_refused vault names new_id now stamp tenant_id slug a configs files exc h =
    elim (Result-cases (find_or_create names new_id now tenant_id slug a configs)) [
      | inr (e, f) ↦ rw (f, upsert_tenant_provider_config) (inl refl)
      | inl ((c, rows), f) ↦
          let left = find_or_create-Leaves names new_id now tenant_id slug a configs rows c f in
          elim (Result-cases (change_config vault a c files).0) [
            | inr (e, g) ↦ rw (f, g, upsert_tenant_provider_config) left
            | inl (d, g) ↦ elim (Result-cases (save_config d tenant_id slug now stamp rows)) [
              | inr (e, k) ↦ rw (f, g, k, upsert_tenant_provider_config) left
              | inl (rows', k) ↦ absurd (cc (rw (f, g, k, upsert_tenant_provider_config) at h))
            ]
          ]
    ]
