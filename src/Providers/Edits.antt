-- ===== src/Providers/Edits.antt =====
-- Every sequence of upserts and deletions of connections.
use flash_connector.Prelude.{
  ℕ, String, Bool, true, false, Option, [], ◌≡◌, refl, sym, ◌∙◌, ap, arith, inl, inr, ◌==◌,
  count_by, is_empty, or_else, Bool-cases, Option-cases, Result-cases, Result, ok, err, ◌>>=◌, All,
}
use flash_connector.Providers.{ProviderAuthMode, TenantProviderConfig, Configs, is_of}
use flash_connector.Providers.Connections.{
  find_or_create, save_config, upsert_tenant_provider_config, delete_tenant_provider_config,
}
use flash_connector.Providers.Changes.{Vault, Upsert, clear_key, set_key, change_config, stripped}
use flash_connector.Providers.Changes.{
  rename, change_modes, parse_auth_mode, change_rest, full_ref, secret_ref,
}
use flash_connector.Providers.Names.{Names}
use flash_connector.Providers.Deletions.{delete-WellFormed}
use flash_connector.Providers.Defaults.{
  WellFormed, has_config_id, save_config-WellFormed, find_or_create-WellFormed,
}

bind_ok :
    {A B : Type 0} (r : Result String A) (f : A → Result String B) {b : B}
    → (r >>= f) ≡ ok b
    → (a : A) × (r ≡ ok a) × (f a ≡ ok b)
bind_ok (ok a) f h = (a, refl, h)
bind_ok (err e) f h = absurd (cc)

pub ok_injective : {A : Type 0} {a b : A} → ◌≡◌ {A = Result String A} (ok a) (ok b) → a ≡ b
ok_injective h = cc

module _ {F : Type 0} (vault : Vault F) where
  mode_set :
      (r : Result String ProviderAuthMode) (c d : TenantProviderConfig)
      → (r >>= λ mode. ok (record c { auth_mode = mode })) ≡ ok d
      → d.id ≡ c.id
  mode_set r c d h =
      let (mode, e, f) = bind_ok r _ h in
      ap (λ (x : TenantProviderConfig). x.id) (sym (ok_injective f))

  change_modes-id :
      (a : Upsert) (c d : TenantProviderConfig) → change_modes a c ≡ ok d → d.id ≡ c.id
  unfolding change_modes
  change_modes-id a c d h = elim (Option-cases a.billing_mode) [
    | inl b ↦ elim (Option-cases a.auth_mode) [
      | inl m ↦
          ap (λ (x : TenantProviderConfig). x.id)
            (sym (ok_injective (simp (b, m, change_modes) at h)))
      | inr (m, e) ↦ mode_set (parse_auth_mode m) c d (simp (b, e, change_modes) at h)
    ]
    | inr (b, e) ↦ elim (Bool-cases (b == "byok")) [
      | inr q ↦ absurd (cc (simp (e, q, change_modes) at h))
      | inl q ↦ elim (Option-cases a.auth_mode) [
        | inl m ↦
            ap (λ (x : TenantProviderConfig). x.id)
              (sym (ok_injective (simp (e, q, m, change_modes) at h)))
        | inr (m, f) ↦ mode_set (parse_auth_mode m) c d (simp (e, q, f, change_modes) at h)
      ]
    ]
  ]

  clear_key-id :
      (b : Bool) (c : TenantProviderConfig) (files : F) → (clear_key vault b c files).0.id ≡ c.id
  clear_key-id false c files = refl
  clear_key-id true c files = elim (Option-cases (full_ref c.key_ref)) [
    | inl e ↦ rw (e, clear_key) refl
    | inr (r, e) ↦ rw (e, clear_key) refl
  ]

  set_key-id :
      (key : String) (c : TenantProviderConfig) (files : F) (d : TenantProviderConfig) (files' : F)
      → set_key vault key c files ≡ ok (d, files')
      → d.id ≡ c.id
  set_key-id key c files d files' h = elim (Bool-cases (is_empty key)) [
    | inl e ↦ ap (λ (x : TenantProviderConfig × F). x.0.id) (sym (ok_injective (rw e at h)))
    | inr e ↦
        let (f, p, q) =
          bind_ok
            (vault.put (or_else (full_ref c.key_ref) (secret_ref c.tenant_id c.provider_slug c.id))
              key files)
            _ (rw e at h) in
        ap (λ (x : TenantProviderConfig × F). x.0.id) (sym (ok_injective q))
  ]

  change_config-id :
      (a : Upsert) (c d : TenantProviderConfig) (files : F)
      → (change_config vault a c files).0 ≡ ok d
      → d.id ≡ c.id
  unfolding change_config
  change_config-id a c d files h =
      let cleared = clear_key vault a.clear_api_key (rename a c) files in
      elim (Result-cases (set_key vault (stripped a.api_key) cleared.0 cleared.1)) [
        | inr (e, p) ↦ absurd (cc (rw (p, change_config) at h))
        | inl ((c', files'), p) ↦
            let (x, q, r) =
              bind_ok (change_modes a c') (λ x. ok (change_rest a x))
                (rw (p, change_config) at h) in
            ap (λ (x : TenantProviderConfig). x.id) (sym (ok_injective r))
            ∙ change_modes-id a c' x q
            ∙ set_key-id (stripped a.api_key) cleared.0 cleared.1 c' files' p
            ∙ clear_key-id a.clear_api_key (rename a c) files
      ]

  upsert-WellFormed :
      (names : Names) (new_id : String) (now stamp : ℕ) (tenant_id slug : String) (a : Upsert)
      (configs : Configs) (files : F)
      → WellFormed configs
      → count_by (has_config_id new_id) configs ≡ 0
      → WellFormed
          (upsert_tenant_provider_config vault names new_id now stamp tenant_id slug a configs
            files).1
  unfolding upsert_tenant_provider_config
  upsert-WellFormed names new_id now stamp tenant_id slug a configs files wf fresh =
      elim (Result-cases (find_or_create names new_id now tenant_id slug a configs)) [
        | inr (e, f) ↦ rw (f, upsert_tenant_provider_config) wf
        | inl ((c, rows), f) ↦
            let (wf', own) =
              find_or_create-WellFormed names new_id now tenant_id slug a configs rows c wf fresh
                f in
            elim (Result-cases (change_config vault a c files).0) [
              | inr (e, g) ↦ rw (f, g, upsert_tenant_provider_config) wf'
              | inl (d, g) ↦ elim (Result-cases (save_config d tenant_id slug now stamp rows)) [
                | inr (e, k) ↦ rw (f, g, k, upsert_tenant_provider_config) wf'
                | inl (rows', k) ↦
                    let own' : All
                        (λ row. has_config_id d.id row ≡ true → is_of tenant_id slug row ≡ true)
                        rows =
                      rw (change_config-id a c d files g) own in
                    rw (f, g, k, upsert_tenant_provider_config)
                      (save_config-WellFormed d tenant_id slug now stamp rows rows' wf' own' k)
              ]
            ]
      ]

-- The rows after one call, whatever it answers; the id of a new row is in no row yet.
pub data Edited {F : Type 0} (vault : Vault F) (names : Names) : Configs → Configs → Type 0 where
  upserts :
      (new_id : String) (now stamp : ℕ) (tenant_id slug : String) (a : Upsert) (configs : Configs)
      (files : F)
      → count_by (has_config_id new_id) configs ≡ 0
      → Edited vault names configs
          (upsert_tenant_provider_config vault names new_id now stamp tenant_id slug a configs
            files).1
  deletes :
      (now : ℕ) (tenant_id slug : String) (id : Option String) (configs : Configs) (files : F)
      → Edited vault names configs
          (delete_tenant_provider_config vault now tenant_id slug id configs files).1

-- The tables that calls, one after another, make of an empty one.
pub data Reached {F : Type 0} (vault : Vault F) (names : Names) : Configs → Type 0 where
  start : Reached vault names []
  then_edited :
      (configs configs' : Configs)
      → Reached vault names configs
      → Edited vault names configs configs'
      → Reached vault names configs'

-- After any calls that write and delete connections, whatever they answer, no two rows share an id, and
-- no tenant has two default connections to one provider.
pub Reached-WellFormed :
    {F : Type 0} (vault : Vault F) (names : Names) (configs : Configs)
    → Reached vault names configs
    → WellFormed configs
Reached-WellFormed vault names _ start = record {
  ids = λ id. omega arith;
  defaults = λ t s. omega arith;
}
Reached-WellFormed vault names _
      (then_edited configs _ r (upserts new_id now stamp tenant_id slug a _ files fresh)) =
    upsert-WellFormed vault names new_id now stamp tenant_id slug a configs files
      (Reached-WellFormed vault names configs r) fresh
Reached-WellFormed vault names _ (then_edited configs _ r (deletes now tenant_id slug id _ files)) =
    delete-WellFormed vault now tenant_id slug id configs files
      (Reached-WellFormed vault names configs r)
