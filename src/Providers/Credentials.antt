-- ===== src/Providers/Credentials.antt =====
-- The credentials that a request goes out with: `platform_key_for_provider` and
-- `resolve_provider_credentials` of api/app/services/providers.py. The catalogue of providers, the
-- environment, the secrets and the normalization of endpoints are parameters.
use flash_connector.Prelude.{
  ℕ, zero, suc, max, String, Bool, true, false, ◌&&◌, not, Option, none, some, [], ◌==◌,
  if◌then◌else◌, is_empty, or_else, text_append, Result, ok, err, ◌>>=◌,
}
use flash_connector.Prelude.Dict.{Dict}
use flash_connector.Json.{Json}
use flash_connector.Tenants.{Table, Tenant, platform_auth, tenant_auth, get_tenant}
use flash_connector.Providers.{
  ProviderAuthMode, by_platform, by_tenant, keyless, TenantProviderConfig, Configs,
  inherited_parent, get_effective_provider_config, get_effective_provider_config_by_id,
}
use flash_connector.Providers.Changes.{full_ref}
use flash_connector.Providers.PlatformKeys.{ProviderCatalogItem, Runtime, platform_key_for_provider}

abbrev pub is_full_text : Option String → Bool
is_full_text none = false
is_full_text (some s) = not (is_empty s)

abbrev resolve_legacy_openai_key :
    Runtime → Tenant → Result String (ProviderAuthMode × Option String)
resolve_legacy_openai_key rt t = elim t.llm_auth_mode [
  | platform_auth ↦ ok (by_platform, platform_key_for_provider rt "openai")
  | tenant_auth ↦ elim (full_ref t.openai_key_ref) [
    | none ↦ ok (by_tenant, none)
    | some r ↦ rt.get_secret r >>= λ key. ok (by_tenant, key)
  ]
]

-- What the search for a key has found: the mode, the key and the tenant.
pub record Found : Type 0 where
  pub auth_mode : ProviderAuthMode
  pub api_key : Option String
  pub source : Option Tenant

-- The loop up the tree for the legacy keys.
unfoldable pub legacy_from : Runtime → Table → ℕ → Option Tenant → Found → Result String Found
legacy_from rt db zero current found = ok found
legacy_from rt db (suc rounds) none found = ok found
legacy_from rt db (suc rounds) (some t) found = elim (resolve_legacy_openai_key rt t) [
  | err e ↦ err e
  | ok (mode, key) ↦ elim (is_full_text key) [
    | true ↦ ok (record { auth_mode = mode; api_key = key; source = some t })
    | false ↦ elim (inherited_parent t) [
      | none ↦ ok (record { auth_mode = mode; api_key = key; source = found.source })
      | some p ↦
          legacy_from rt db rounds (get_tenant db p)
            (record { auth_mode = mode; api_key = key; source = found.source })
    ]
  ]
]

-- The connection that is named or, without a name, the nearest one of the provider.
unfoldable pub pick_config :
    Configs
    → Table
    → ℕ
    → String
    → String
    → Option String
    → Result String (Option TenantProviderConfig × Option Tenant)
unfolding get_effective_provider_config get_effective_provider_config_by_id
pick_config configs db setting tenant_id slug id =
    if is_empty (or_else id "")
    then ok (get_effective_provider_config configs db setting tenant_id slug)
    else (let (found, source) =
          get_effective_provider_config_by_id configs db setting tenant_id (or_else id "") in
        elim found [
          | none ↦ err "Provider connection not found"
          | some c ↦
              if c.provider_slug == slug
              then ok (some c, source)
              else err "Provider connection mismatch"
        ])

-- The key of a connection, by its mode, and that it has to be active.
abbrev pub mode_key :
    Runtime → String → TenantProviderConfig → ProviderAuthMode → Result String (Option String)
mode_key rt slug c by_platform = ok (platform_key_for_provider rt slug)
mode_key rt slug c keyless = ok none
mode_key rt slug c by_tenant = elim (full_ref c.key_ref) [
  | none ↦ err (
      text_append "Provider '" (
        text_append slug (
          text_append "' connection '"
            (text_append c.name "' is tenant-auth but has no key configured"))))
  | some r ↦ rt.get_secret r
]

unfoldable pub config_key : Runtime → String → TenantProviderConfig → Result String (Option String)
unfolding platform_key_for_provider
config_key rt slug c =
    if c.is_active
    then mode_key rt slug c c.auth_mode
    else err (
        text_append "Provider '"
          (text_append slug (text_append "' connection '" (text_append c.name "' is disabled"))))

unfoldable pub find_key :
    Runtime
    → Table
    → ℕ
    → Tenant
    → String
    → Option TenantProviderConfig
    → Option Tenant
    → Result String Found
unfolding config_key legacy_from platform_key_for_provider
find_key rt db setting t slug (some c) source = config_key rt slug c >>= λ key.
    ok (record { auth_mode = c.auth_mode; api_key = key; source = source })
find_key rt db setting t slug none source =
    let blank : Found = record { auth_mode = by_platform; api_key = none; source = source } in
    if slug == "openai"
    then legacy_from rt db (max setting 1) (some t) blank
    else ok (record {
      auth_mode = by_platform;
      api_key = platform_key_for_provider rt slug;
      source = source;
    })

pub record ResolvedProviderCredentials : Type 0 where
  pub provider_slug : String
  pub model_prefix : String
  pub auth_mode : ProviderAuthMode
  pub api_key : Option String
  pub api_base : Option String
  pub api_version : Option String
  pub extra_json : Dict Json
  pub source_tenant_id : String
  pub provider_config_id : Option String
  pub provider_connection_name : Option String

abbrev pub is_keyless : ProviderAuthMode → Bool
is_keyless keyless = true
is_keyless _ = false

-- `provider and provider.requires_api_key`
abbrev pub requires_key : Option ProviderCatalogItem → Bool
requires_key none = false
requires_key (some item) = item.requires_api_key

abbrev prefix_of : Option ProviderCatalogItem → String → String
prefix_of none slug = slug
prefix_of (some item) slug = item.model_prefix

abbrev source_id : Option Tenant → String → String
source_id none tenant_id = tenant_id
source_id (some t) tenant_id = t.id

-- A column of the connection, where there is one.
abbrev column {ℓ} : {A : Type ℓ} → Option TenantProviderConfig → (TenantProviderConfig → A) → A → A
column none f a = a
column (some c) f a = f c

unfoldable pub finish_credentials :
    Runtime
    → String
    → String
    → Option TenantProviderConfig
    → Found
    → Result String ResolvedProviderCredentials
finish_credentials rt tenant_id slug c found =
    let (api_base, api_version) =
      rt.endpoint_options slug (column c (λ x. x.api_base) none)
        (column c (λ x. x.api_version) none) in
    if requires_key (rt.catalog_item slug)
      && not (is_keyless found.auth_mode)
      && not (is_full_text found.api_key)
    then err (text_append "No API key available for provider '" (text_append slug "'"))
    else ok (record {
      provider_slug = slug;
      model_prefix = prefix_of (rt.catalog_item slug) slug;
      auth_mode = found.auth_mode;
      api_key = if is_keyless found.auth_mode then none else found.api_key;
      api_base = api_base;
      api_version = api_version;
      extra_json = column c (λ x. x.extra_json) [];
      source_tenant_id = source_id found.source tenant_id;
      provider_config_id = column c (λ x. some x.id) none;
      provider_connection_name = column c (λ x. some x.name) none;
    })

-- The slug is the normalized one.
unfoldable pub resolve_provider_credentials :
    Runtime
    → Configs
    → Table
    → ℕ
    → String
    → String
    → Option String
    → Result String ResolvedProviderCredentials
unfolding pick_config find_key finish_credentials
resolve_provider_credentials rt configs db setting tenant_id slug id =
    elim (get_tenant db tenant_id) [
      | none ↦ err "Tenant not found"
      | some t ↦ pick_config configs db setting tenant_id slug id >>= λ (c, source).
          find_key rt db setting t slug c source >>= λ found.
          finish_credentials rt tenant_id slug c found
    ]
