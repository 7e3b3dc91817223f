-- ===== src/Providers.antt =====
-- api/app/services/providers.py: the connections of the tenants to the providers of models, and how a
-- tenant without one of its own comes to those of the tenants above it. The table of connections is a
-- list of rows, in an order that the queries do not rely on.
pub mod PlatformKeys
pub mod Changes
pub mod Names
pub mod Inheritance
pub mod Naming
pub mod Connections
pub mod Defaults
pub mod Deletions
pub mod Edits
pub mod Refusals
pub mod Credentials
pub mod Resolution
mod Tests
use flash_connector.Prelude.{
  ℕ, zero, suc, max, String, Bool, true, false, ◌&&◌, ◌||◌, not, Option, none, some, List, [], ◌∷◌,
  ◌==◌, if◌then◌else◌, ltb, nat_eq, find, select, any, is_empty, is_nil, is_some, lower, strip,
  or_else,
}
use flash_connector.Prelude.Dict.{Dict}
use flash_connector.Json.{Json}
use flash_connector.Tenants.{Table, Tenant, get_tenant}

-- `ProviderAuthMode`, with the members `platform`, `tenant` and `none`.
pub data ProviderAuthMode : Type 0 where
  by_platform by_tenant keyless : ProviderAuthMode

-- `billing_mode` has one value only, and has no column here.
pub record TenantProviderConfig : Type 0 where
  pub id : String
  pub tenant_id : String
  pub provider_slug : String
  pub name : String
  pub description : Option String
  pub is_default : Bool
  pub auth_mode : ProviderAuthMode
  pub key_ref : Option String
  pub api_base : Option String
  pub api_version : Option String
  pub extra_json : Dict Json
  pub is_active : Bool
  pub created_at : ℕ
  pub updated_at : ℕ

abbrev pub Configs : Type 0
Configs = List TenantProviderConfig

-- `_config_ordering`: the default one first, then the active ones, then the latest.
abbrev pub is_before : TenantProviderConfig → TenantProviderConfig → Bool
is_before a b =
    if a.is_default
    then (if b.is_default then later a b else true)
    else (if b.is_default then false else later a b)
  where
    by_time : TenantProviderConfig → TenantProviderConfig → Bool
    by_time a b =
        if nat_eq a.updated_at b.updated_at
        then ltb b.created_at a.created_at
        else ltb b.updated_at a.updated_at

    later : TenantProviderConfig → TenantProviderConfig → Bool
    later a b =
        if a.is_active
        then (if b.is_active then by_time a b else true)
        else (if b.is_active then false else by_time a b)

abbrev pub insert_config : TenantProviderConfig → Configs → Configs
insert_config a [] = a ∷ []
insert_config a (b ∷ bs) = if is_before b a then b ∷ insert_config a bs else a ∷ b ∷ bs

unfoldable pub order_configs : Configs → Configs
order_configs [] = []
order_configs (a ∷ rest) = insert_config a (order_configs rest)

abbrev pub is_of : String → String → TenantProviderConfig → Bool
is_of tenant_id slug c = (c.tenant_id == tenant_id) && (c.provider_slug == slug)

unfoldable pub get_tenant_provider_config_by_id :
    Configs → String → String → Option TenantProviderConfig
get_tenant_provider_config_by_id configs tenant_id id =
    find (λ c. (c.id == id) && (c.tenant_id == tenant_id)) configs

abbrev pub first_of : Configs → Option TenantProviderConfig
first_of [] = none
first_of (c ∷ cs) = some c

unfoldable pub get_tenant_provider_config : Configs → String → String → Option TenantProviderConfig
unfolding order_configs
get_tenant_provider_config configs tenant_id slug =
    first_of (order_configs (select (is_of tenant_id slug) configs))

-- The row of the parent, where the tenant inherits connections.
abbrev pub inherited_parent : Tenant → Option String
inherited_parent t =
    if t.inherit_provider_configs
    then elim t.parent_tenant_id [ none ↦ none | some p ↦ if is_empty p then none else some p ]
    else none

-- The loop up the tree, of `list_effective_provider_configs` and `get_effective_provider_config_by_id`,
-- over what each looks for in a tenant; the rounds left are `max_depth - depth`. The second result is the
-- tenant that the loop ends with.
unfoldable pub climb {ℓ} :
    {A : Type ℓ} → (Tenant → Option A) → Table → ℕ → Option Tenant → Option A × Option Tenant
climb look db zero current = (none, current)
climb look db (suc rounds) none = (none, none)
climb look db (suc rounds) (some t) = elim (look t) [
  | some a ↦ (some a, some t)
  | none ↦ elim (inherited_parent t) [
    | none ↦ (none, some t)
    | some p ↦ climb look db rounds (get_tenant db p)
  ]
]

abbrev pub configs_of : Configs → String → Tenant → Option Configs
configs_of configs slug t =
    let own = order_configs (select (is_of t.id slug) configs) in
    if is_nil own then none else some own

-- `setting` is the depth of the settings.
unfoldable pub list_effective_provider_configs :
    Configs → Table → ℕ → String → String → Configs × Option Tenant
unfolding climb order_configs
list_effective_provider_configs configs db setting tenant_id slug =
    let (found, source) =
      climb (configs_of configs slug) db (max setting 1) (get_tenant db tenant_id) in
    (or_else found [], source)

unfoldable pub get_effective_provider_config :
    Configs → Table → ℕ → String → String → Option TenantProviderConfig × Option Tenant
unfolding list_effective_provider_configs
get_effective_provider_config configs db setting tenant_id slug =
    let (found, source) = list_effective_provider_configs configs db setting tenant_id slug in
    (first_of found, source)

unfoldable pub get_effective_provider_config_by_id :
    Configs → Table → ℕ → String → String → Option TenantProviderConfig × Option Tenant
unfolding climb get_tenant_provider_config_by_id
get_effective_provider_config_by_id configs db setting tenant_id id =
    climb (λ t. get_tenant_provider_config_by_id configs t.id id) db (max setting 1)
      (get_tenant db tenant_id)

-- `_normalize_optional_text`
unfoldable pub normalize_optional_text : Option String → Option String
normalize_optional_text none = none
normalize_optional_text (some value) =
    let cleaned = strip value in
    if is_empty cleaned || (lower cleaned == "none") || (lower cleaned == "null")
    then none
    else some cleaned
