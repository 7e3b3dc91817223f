-- ===== src/Tenants.antt =====
-- api/app/services/tenants.py: the tree of tenants. The table of tenants is a list of rows, in the
-- order of their names, which is the order that the query for children asks for.
pub mod Lineage
pub mod Params
pub mod Access
mod Tests
use mathlib.Core.Option
use flash_connector.Prelude.{
  ℕ, zero, suc, ◌+◌, max, String, Bool, true, false, Option, none, some, List, [], ◌∷◌, ◌++◌, map,
  reverse, ◌==◌, if◌then◌else◌, find, select, any, length, or_else, is_empty, lower, text_lt,
}
use flash_connector.Prelude.Dict
use flash_connector.Prelude.Dict.{Dict}
use flash_connector.Json.{Json, as_dict}

pub data Mode : Type 0 where
  inherit merge override : Mode

pub data LlmAuthMode : Type 0 where
  platform_auth tenant_auth : LlmAuthMode

-- The columns of `Tenant` that the services read.
pub record Tenant : Type 0 where
  pub id : String
  pub name : String
  pub parent_tenant_id : Option String
  pub inherit_provider_configs : Bool
  pub query_params_mode : Mode
  pub query_params_json : Json
  pub llm_auth_mode : LlmAuthMode
  pub openai_key_ref : Option String

abbrev pub Table : Type 0
Table = List Tenant

unfoldable pub get_tenant : Table → String → Option Tenant
get_tenant db tenant_id = find (λ t. t.id == tenant_id) db

-- The `while` loop: `current_id` is falsy when it is `None` or empty, and the rounds left are
-- `max_depth - depth`.
lineage_from : Table → ℕ → Option String → List Tenant
lineage_from db zero current_id = []
lineage_from db (suc rounds) none = []
lineage_from db (suc rounds) (some current_id) =
    if is_empty current_id then [] else elim (get_tenant db current_id) [
      | none ↦ []
      | some tenant ↦ tenant ∷ lineage_from db rounds tenant.parent_tenant_id
    ]

unfoldable pub tenant_lineage : Table → ℕ → String → List Tenant
unfolding lineage_from
tenant_lineage db max_depth tenant_id = lineage_from db max_depth (some tenant_id)

-- `max(int(get_settings().tenant_hierarchy_max_depth), 1)` is the depth of the callers below; the
-- setting is theirs to give.
unfoldable pub is_same_or_descendant : Table → ℕ → String → String → Bool
is_same_or_descendant db setting ancestor candidate =
    if ancestor == candidate
    then true
    else any (λ t. t.id == ancestor) (tenant_lineage db (max setting 1) candidate)

unfoldable pub build_tenant_breadcrumb : Table → ℕ → String → List Tenant
build_tenant_breadcrumb db setting tenant_id = reverse (tenant_lineage db (max setting 1) tenant_id)

-- One round of the loop from the root down.
unfoldable pub apply_mode : Dict Json → Tenant → Dict Json
apply_mode effective tenant = elim tenant.query_params_mode [
  | inherit ↦ effective
  | override ↦ as_dict tenant.query_params_json
  | merge ↦ Dict.merge effective (as_dict tenant.query_params_json)
]

unfoldable pub apply_modes : Dict Json → List Tenant → Dict Json
unfolding apply_mode
apply_modes effective [] = effective
apply_modes effective (tenant ∷ rest) = apply_modes (apply_mode effective tenant) rest

unfoldable pub resolve_effective_query_params : Table → ℕ → String → Dict Json
resolve_effective_query_params db setting tenant_id =
    apply_modes [] (reverse (tenant_lineage db (max setting 1) tenant_id))

abbrev pub is_child : String → Tenant → Bool
is_child parent t = elim t.parent_tenant_id [ none ↦ false | some p ↦ p == parent ]

-- `select(Tenant.id).where(Tenant.parent_tenant_id == tenant.id).order_by(Tenant.name)`
abbrev pub child_ids : Table → String → List String
child_ids db parent = map (λ t. t.id) (select (is_child parent) db)

abbrev pub has_id : String → List Tenant → Bool
has_id x = any (λ t. t.id == x)

-- The loop over the queue, with the values of `by_id` in the order of insertion; `none` means that
-- the fuel ran out.
unfoldable pub collect : Table → ℕ → List String → List Tenant → Option (List Tenant)
collect db fuel [] by_id = some by_id
collect db zero (tenant_id ∷ queue) by_id = none
collect db (suc fuel) (tenant_id ∷ queue) by_id = elim (get_tenant db tenant_id) [
  | none ↦ collect db fuel queue by_id
  | some tenant ↦ elim (has_id tenant.id by_id) [
    | true ↦ collect db fuel queue by_id
    | false ↦ collect db fuel (queue ++ child_ids db tenant.id) (by_id ++ tenant ∷ [])
  ]
]

-- `(t.parent_tenant_id or "", t.name.lower())`, compared as Python compares a pair of texts.
abbrev sorts_before : Tenant → Tenant → Bool
sorts_before t u =
    let p = or_else t.parent_tenant_id "" in
    let q = or_else u.parent_tenant_id "" in
    if p == q then text_lt (lower t.name) (lower u.name) else text_lt p q

insert_sorted : Tenant → List Tenant → List Tenant
insert_sorted t [] = t ∷ []
insert_sorted t (u ∷ us) = if sorts_before u t then u ∷ insert_sorted t us else t ∷ u ∷ us

-- `sorted`, which is stable.
unfoldable pub sort_tenants : List Tenant → List Tenant
unfolding insert_sorted
sort_tenants [] = []
sort_tenants (t ∷ ts) = insert_sorted t (sort_tenants ts)

unfoldable pub list_accessible_tenants : Table → String → Option (List Tenant)
list_accessible_tenants db root =
    Option.map sort_tenants (collect db (length db + 1) (root ∷ []) [])
