-- ===== src/Versions.antt =====
-- api/app/services/versioning.py: a new version of an endpoint, with the context blocks that go with it.
-- The slugs of the providers and the validation of parameters are parameters, and so is what other
-- sessions write between the query for the latest version and the insert.
pub mod Numbers
mod Tests
use flash_connector.Prelude.{
  ℕ, ◌+◌, max, String, Bool, true, false, ◌&&◌, ◌||◌, not, Option, none, some, List, [], ◌∷◌, ◌++◌,
  map, ◌==◌, if◌then◌else◌, nat_eq, find, select, any, is_empty, is_nil, or_else, strip, Result, ok,
  err, ◌>>=◌,
}
use flash_connector.Prelude.Dict.{Dict}
use flash_connector.Json.{Json}
use flash_connector.Jobs.{EndpointVersion}

pub record Target : Type 0 where
  pub id : String
  pub tenant_id : String
  pub provider_slug : String
  pub model_identifier : String
  pub is_active : Bool

-- A persona or a context block: the row and its tenant.
pub record TenantRow : Type 0 where
  pub id : String
  pub tenant_id : String

-- api/app/schemas/endpoints.py; the schema of the variables is only stored, and left out.
pub record EndpointVersionCreate : Type 0 where
  pub system_prompt : String
  pub input_template : Option String
  pub target_id : Option String
  pub provider : String
  pub model : String
  pub params_json : Dict Json
  pub persona_id : Option String
  pub context_block_ids : List String

pub record Registry : Type 0 where
  pub ensure_slug : String → Result String String
  pub validate_model_params : String → String → Dict Json → Result String (Dict Json)
  pub targets : List Target
  pub personas : List TenantRow
  pub context_blocks : List TenantRow

-- The tables that are written: the versions, and which version has which context block.
pub record VersionStore : Type 0 where
  pub versions : List EndpointVersion
  pub contexts : List (String × String)

-- `select(func.max(…))`, or 0 where there is none
unfoldable pub latest_version : String → List EndpointVersion → ℕ
latest_version endpoint_id [] = 0
latest_version endpoint_id (v ∷ rest) =
    let others = latest_version endpoint_id rest in
    if v.endpoint_id == endpoint_id then max v.version others else others

-- The provider and the model, of the target where one is named.
unfoldable pub resolve_route :
    Registry → String → EndpointVersionCreate → Result String (String × String)
resolve_route reg tenant_id a = reg.ensure_slug a.provider >>= λ own.
    let model = strip a.model in
    if is_empty (or_else a.target_id "")
    then (if is_empty model
        then err "Model is required when target_id is not set."
        else ok (own, model))
    else elim (find (λ t. (t.id == or_else a.target_id "") && (t.tenant_id == tenant_id))
        reg.targets) [
          | none ↦ err "Selected target was not found for this tenant."
          | some t ↦
              if t.is_active
              then (reg.ensure_slug t.provider_slug >>= λ slug. ok (slug, t.model_identifier))
              else err "Selected target is disabled."
        ]

abbrev pub is_owned : String → List TenantRow → String → Bool
is_owned tenant_id rows id = any (λ r. (r.id == id) && (r.tenant_id == tenant_id)) rows

-- A persona of another tenant, or none, is left out.
abbrev resolve_persona : Registry → String → Option String → Option String
resolve_persona reg tenant_id none = none
resolve_persona reg tenant_id (some id) =
    if is_empty id then some id else if is_owned tenant_id reg.personas id then some id else none

-- The unique constraint `uq_endpoint_version`.
abbrev pub has_number : String → ℕ → EndpointVersion → Bool
has_number endpoint_id n v = (v.endpoint_id == endpoint_id) && nat_eq v.version n

abbrev pub new_version :
    Registry
    → String
    → String
    → String
    → ℕ
    → EndpointVersionCreate
    → String
    → String
    → Dict Json
    → EndpointVersion
new_version reg new_id endpoint_id tenant_id number a provider model params = record {
  id = new_id;
  endpoint_id = endpoint_id;
  version = number;
  system_prompt = a.system_prompt;
  input_template = a.input_template;
  target_id = a.target_id;
  provider = provider;
  model = model;
  params_json = params;
  persona_id = resolve_persona reg tenant_id a.persona_id;
}

abbrev pub has_twice : List String → Bool
has_twice [] = false
has_twice (x ∷ xs) = any (λ y. y == x) xs || has_twice xs

-- The context blocks of the tenant, in the order that is asked for; a block that is named twice breaks the
-- constraint `uq_endpoint_version_context`.
unfoldable pub add_contexts :
    Registry
    → String
    → EndpointVersionCreate
    → EndpointVersion
    → VersionStore
    → Result String EndpointVersion × VersionStore
add_contexts reg tenant_id a v s =
    let chosen = select (is_owned tenant_id reg.context_blocks) a.context_block_ids in
    if has_twice chosen
    then (err "IntegrityError", s)
    else (ok v, record s { contexts = s.contexts ++ map (λ c. (v.id, c)) chosen })

-- The insert, into the rows as other sessions leave them.
unfoldable pub insert_version :
    List EndpointVersion → EndpointVersion → Option (List EndpointVersion)
insert_version rows v =
    if any (has_number v.endpoint_id v.version) rows then none else some (rows ++ v ∷ [])

unfoldable pub create_endpoint_version_record :
    Registry
    → (List EndpointVersion → List EndpointVersion)
    → String
    → String
    → String
    → EndpointVersionCreate
    → VersionStore
    → Result String EndpointVersion × VersionStore
unfolding latest_version resolve_route insert_version add_contexts
create_endpoint_version_record reg meanwhile new_id endpoint_id tenant_id a s =
    let number = latest_version endpoint_id s.versions + 1 in
    let s' = record s { versions = meanwhile s.versions } in
    elim (resolve_route reg tenant_id a) [
      | err e ↦ (err e, s')
      | ok (provider, model) ↦ elim (reg.validate_model_params provider model a.params_json) [
        | err e ↦ (err e, s')
        | ok params ↦
            let v = new_version reg new_id endpoint_id tenant_id number a provider model params in
            elim (insert_version (meanwhile s.versions) v) [
              | none ↦ (err "IntegrityError", s')
              | some rows ↦ add_contexts reg tenant_id a v (record s { versions = rows })
            ]
      ]
    ]
