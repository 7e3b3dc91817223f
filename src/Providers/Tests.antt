-- ===== src/Providers/Tests.antt =====
-- Runs of api/app/services/providers.py.
use flash_connector.Prelude.{
  if◌then◌else◌, ◌&&◌, not, max, String, Bool, true, false, Option, none, some, List, [], ◌∷◌, ◌≡◌,
  refl, ◌↔◌, arith, ok, err, strip,
}
use flash_connector.Providers.Credentials.{
  ResolvedProviderCredentials, resolve_provider_credentials, is_keyless, requires_key, is_full_text,
}
use flash_connector.Providers.PlatformKeys.{Runtime}
use flash_connector.Providers.Resolution.{KeyBy, resolve_provider_credentials-Nearest}
use flash_connector.Json.{object}
use flash_connector.Tenants.{Tenant, Table, LlmAuthMode, Mode, get_tenant}
use flash_connector.Providers.{
  by_tenant, TenantProviderConfig, Configs, get_tenant_provider_config_by_id,
  get_effective_provider_config_by_id, normalize_optional_text,
}
use flash_connector.Providers.Inheritance.{NearestOwner, get_effective_provider_config_by_id_iff}
use flash_connector.Providers.Connections.{
  blank_config, find_or_create, upsert_tenant_provider_config, delete_tenant_provider_config,
}
use flash_connector.Providers.Changes.{Vault, Upsert, change_config, change_modes}
use flash_connector.Providers.Names.{Names}
use flash_connector.Providers.Defaults.{WellFormed}
use flash_connector.Providers.Edits.{start, then_edited, upserts, deletes, Reached-WellFormed}
use flash_connector.Providers.Refusals.{Leaves, upsert_refused}

abbrev tenant : String → Option String → Tenant
tenant id parent = record {
  id = id;
  name = id;
  parent_tenant_id = parent;
  inherit_provider_configs = true;
  query_params_mode = Mode.inherit;
  query_params_json = object [];
  llm_auth_mode = LlmAuthMode.platform_auth;
  openai_key_ref = none;
}

abbrev tenants : Table
tenants = tenant "r" none ∷ tenant "t" (some "r") ∷ []

abbrev of_root : TenantProviderConfig
of_root = blank_config "c1" 5 "r" "openai" "OpenAI" none true

get_effective_provider_config_by_id_iff_example :
    (get_effective_provider_config_by_id (of_root ∷ []) tenants 5 "t" "c1"
      ≡ (some of_root, some (tenant "r" none)))
    ↔ NearestOwner
        (of_root ∷ [])
        tenants
        "c1"
        (max 5 1)
        (tenant "t" (some "r"))
        (tenant "r" none)
        of_root
unfolding get_tenant
get_effective_provider_config_by_id_iff_example =
    get_effective_provider_config_by_id_iff (of_root ∷ []) tenants 5 (tenant "t" (some "r")) "c1"
      of_root (tenant "r" none) refl (omega arith)

inherited_run :
    get_effective_provider_config_by_id (of_root ∷ []) tenants 5 "t" "c1"
    ≡ (some of_root, some (tenant "r" none))
unfolding get_effective_provider_config_by_id get_tenant normalize_optional_text
inherited_run = refl

abbrev vault : Vault (List String)
vault = record { put = λ ref value files. ok (ref ∷ files); delete = λ ref files. files }

abbrev names : Names
names = record { base_name = λ s. s; show_number = λ n. "2"; lower_case = λ s. s }

abbrev request : Option String → Option Bool → Upsert
request billing_mode is_default = record {
  provider_config_id = none;
  connection_name = some "Main";
  description = none;
  billing_mode = billing_mode;
  auth_mode = none;
  api_key = none;
  clear_api_key = false;
  api_base = none;
  api_version = none;
  extra_json = none;
  is_active = none;
  is_default = is_default;
}

abbrev once : Configs
once = (upsert_tenant_provider_config vault names "c1" 5 5 "t" "openai" (request none none) [] []).1

once_run : once ≡ blank_config "c1" 5 "t" "openai" "Main" none true ∷ []
unfolding upsert_tenant_provider_config strip normalize_optional_text
once_run = refl

Reached-WellFormed_example :
    WellFormed (delete_tenant_provider_config vault 7 "t" "openai" (some "c1") once []).1
Reached-WellFormed_example =
    Reached-WellFormed vault names
      (delete_tenant_provider_config vault 7 "t" "openai" (some "c1") once []).1
      (then_edited once (delete_tenant_provider_config vault 7 "t" "openai" (some "c1") once []).1
        (then_edited [] once start
          (upserts "c1" 5 5 "t" "openai" (request none none) [] [] (omega arith)))
        (deletes 7 "t" "openai" (some "c1") once []))

refused_run :
    let (answer, rows, files) =
      upsert_tenant_provider_config vault names "c1" 5 5 "t" "openai"
        (request (some "platform") none)
        []
        [] in
    (answer ≡ err "ValueError") × (rows ≡ blank_config "c1" 5 "t" "openai" "Main" none true ∷ [])
unfolding upsert_tenant_provider_config find_or_create change_config change_modes strip
refused_run = (refl, refl)

upsert_refused_example :
    Leaves "c1" "t" "openai"
      (request (some "platform") none)
      []
      (upsert_tenant_provider_config vault names "c1" 5 5 "t" "openai"
        (request (some "platform") none)
        []
        []).1
upsert_refused_example =
    upsert_refused vault names "c1" 5 5 "t" "openai" (request (some "platform") none) [] []
      "ValueError" refused_run.0

abbrev with_key : TenantProviderConfig
with_key = record of_root { key_ref = some "ref" }

abbrev runtime : Runtime
runtime = record {
  ensure_slug = λ s. ok s;
  catalog_item =
      λ s. some (record { model_prefix = s; platform_key_env = none; requires_api_key = true });
  platform_keys = none;
  env = λ s. none;
  get_secret = λ r. ok (some "sk-1");
  endpoint_options = λ slug base version. (base, version);
}

abbrev credentials : ResolvedProviderCredentials
credentials = record {
  provider_slug = "openai";
  model_prefix = "openai";
  auth_mode = by_tenant;
  api_key = some "sk-1";
  api_base = none;
  api_version = none;
  extra_json = [];
  source_tenant_id = "r";
  provider_config_id = some "c1";
  provider_connection_name = some "OpenAI";
}

resolve_provider_credentials-Nearest_example :
    (c : TenantProviderConfig) × (source : Tenant) × (key : Option String) × NearestOwner
      (with_key ∷ [])
      tenants
      "c1"
      (max 5 1)
      (tenant "t" (some "r"))
      source
      c
    × (c.provider_slug ≡ "openai")
    × (c.is_active ≡ true)
    × KeyBy runtime "openai" c.key_ref key c.auth_mode
    × (some "sk-1" ≡ (if is_keyless c.auth_mode then none else key))
    × ("r" ≡ source.id)
    × ((requires_key (runtime.catalog_item "openai")
          && not (is_keyless c.auth_mode)
          && not (is_full_text key))
        ≡ false)
unfolding get_tenant resolve_provider_credentials get_tenant_provider_config_by_id
    normalize_optional_text
resolve_provider_credentials-Nearest_example =
    resolve_provider_credentials-Nearest runtime (with_key ∷ []) tenants 5 (tenant "t" (some "r"))
      "openai" "c1" credentials refl refl refl
