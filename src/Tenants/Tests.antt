-- ===== src/Tenants/Tests.antt =====
-- Runs of api/app/services/tenants.py on a small table.
use flash_connector.Prelude.{max, String, true, none, some, List, [], ◌∷◌, ◌≡◌, refl, ◌↔◌, ◌⊎◌, All}
use flash_connector.Prelude.Dict.{lookup}
use flash_connector.Json.{str, object}
use flash_connector.Tenants.{
  Table, Tenant, LlmAuthMode, inherit, merge, override, tenant_lineage, is_same_or_descendant,
  resolve_effective_query_params, list_accessible_tenants, has_id, collect, get_tenant,
  sort_tenants, apply_modes,
}
use flash_connector.Tenants.Lineage.{Above, is_same_or_descendant_iff}
use flash_connector.Tenants.Params.{
  HasDistinctParams, nearest, lookup-resolve_effective_query_params,
}
use flash_connector.Tenants.Access.{list_accessible_tenants_total, list_accessible_tenants_iff}
use flash_connector.Tenants.Access.Search.{Below}

abbrev root : Tenant
root = record {
  id = "r";
  name = "Root";
  parent_tenant_id = none;
  inherit_provider_configs = true;
  query_params_mode = override;
  query_params_json = object (("region", str "eu") ∷ ("tier", str "basic") ∷ []);
  llm_auth_mode = LlmAuthMode.platform_auth;
  openai_key_ref = none;
}

abbrev team : Tenant
team = record {
  id = "t";
  name = "Team";
  parent_tenant_id = some "r";
  inherit_provider_configs = true;
  query_params_mode = merge;
  query_params_json = object (("tier", str "pro") ∷ []);
  llm_auth_mode = LlmAuthMode.platform_auth;
  openai_key_ref = none;
}

abbrev desk : Tenant
desk = record {
  id = "d";
  name = "Desk";
  parent_tenant_id = some "t";
  inherit_provider_configs = true;
  query_params_mode = inherit;
  query_params_json = object [];
  llm_auth_mode = LlmAuthMode.platform_auth;
  openai_key_ref = none;
}

abbrev tenants : Table
tenants = desk ∷ root ∷ team ∷ []

tenants-Distinct : All HasDistinctParams tenants
tenants-Distinct = (tt, ((refl, (refl, tt)), ((refl, tt), tt)))

accessible-team : list_accessible_tenants tenants "t" ≡ some (team ∷ desk ∷ [])
unfolding list_accessible_tenants collect get_tenant sort_tenants
accessible-team = refl

parameter-desk : lookup "tier" (resolve_effective_query_params tenants 5 "d") ≡ some (str "pro")
unfolding resolve_effective_query_params apply_modes tenant_lineage get_tenant
parameter-desk = refl

is_same_or_descendant_iff_example :
    (is_same_or_descendant tenants 5 "r" "d" ≡ true)
    ↔ ((◌≡◌ {A = String} "r" "d") ⊎ Above tenants (max 5 1) "r" "d")
is_same_or_descendant_iff_example = is_same_or_descendant_iff tenants 5 "r" "d"

lookup-resolve_effective_query_params_example :
    lookup "tier" (resolve_effective_query_params tenants 5 "d")
    ≡ nearest "tier" (tenant_lineage tenants (max 5 1) "d")
lookup-resolve_effective_query_params_example =
    lookup-resolve_effective_query_params tenants 5 "d" "tier" tenants-Distinct

list_accessible_tenants_total_example :
    (ts : List Tenant) × (list_accessible_tenants tenants "t" ≡ some ts)
list_accessible_tenants_total_example = list_accessible_tenants_total tenants "t"

list_accessible_tenants_iff_example : (has_id "d" (team ∷ desk ∷ []) ≡ true) ↔ Below tenants "t" "d"
list_accessible_tenants_iff_example =
    list_accessible_tenants_iff tenants "t" "d" {ts = team ∷ desk ∷ []} accessible-team
