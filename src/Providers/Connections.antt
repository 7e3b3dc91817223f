-- ===== src/Providers/Connections.antt =====
-- How api/app/services/providers.py writes and removes a connection. The store of secrets is a
-- parameter; a statement of the database and the writing of a secret are separate steps, and what was
-- done before an exception stays.
use flash_connector.Prelude.{
  ℕ, String, Bool, true, false, ◌&&◌, not, Option, none, some, [], ◌∷◌, ◌++◌, map, ◌==◌,
  if◌then◌else◌, select, any, is_empty, is_nil, or_else, Result, ok, err,
}
use flash_connector.Providers.{
  by_tenant, TenantProviderConfig, Configs, is_of, get_tenant_provider_config_by_id,
  get_tenant_provider_config, normalize_optional_text,
}
use flash_connector.Providers.Names.{Names, new_connection_name}
use flash_connector.Providers.Changes.{Vault, Upsert, stripped, change_config, full_ref}

-- The unique constraint on tenant, provider and name, for the row with an id.
abbrev pub clashes : String → String → String → String → Configs → Bool
clashes id tenant_id slug name =
    any (λ c. is_of tenant_id slug c && (c.name == name) && not (c.id == id))

abbrev pub blank_config :
    String → ℕ → String → String → String → Option String → Bool → TenantProviderConfig
blank_config new_id now tenant_id slug name description is_default = record {
  id = new_id;
  tenant_id = tenant_id;
  provider_slug = slug;
  name = name;
  description = normalize_optional_text description;
  is_default = is_default;
  auth_mode = by_tenant;
  key_ref = none;
  api_base = none;
  api_version = none;
  extra_json = [];
  is_active = true;
  created_at = now;
  updated_at = now;
}

abbrev pub chosen_name : Names → Configs → String → Option String → Option String
chosen_name names own slug given =
    if is_empty (stripped given) then new_connection_name names own slug else some (stripped given)

-- The connection to change, and the rows, with a new one where no id is given.
unfoldable pub find_or_create :
    Names
    → String
    → ℕ
    → String
    → String
    → Upsert
    → Configs
    → Result String (TenantProviderConfig × Configs)
unfolding new_connection_name get_tenant_provider_config_by_id
find_or_create names new_id now tenant_id slug a configs =
    let own = select (is_of tenant_id slug) configs in
    if is_empty (or_else a.provider_config_id "")
    then elim (chosen_name names own slug a.connection_name) [
      | none ↦ err "no name"
      | some name ↦
          let c = blank_config new_id now tenant_id slug name a.description (is_nil own) in
          if clashes new_id tenant_id slug name configs
          then err "IntegrityError"
          else ok (c, configs ++ c ∷ [])
    ]
    else elim (get_tenant_provider_config_by_id configs tenant_id
        (or_else a.provider_config_id "")) [
          | none ↦ err "Provider connection not found"
          | some c ↦
              if c.provider_slug == slug
              then ok (c, configs)
              else err "Provider connection does not match selected provider"
        ]

-- `UPDATE … WHERE id = …`: the columns that the function above assigns.
abbrev pub write_row : TenantProviderConfig → ℕ → TenantProviderConfig → TenantProviderConfig
write_row c stamp row =
    if row.id == c.id
    then record row {
      name = c.name;
      description = c.description;
      is_default = c.is_default;
      auth_mode = c.auth_mode;
      key_ref = c.key_ref;
      api_base = c.api_base;
      api_version = c.api_version;
      extra_json = c.extra_json;
      is_active = c.is_active;
      updated_at = stamp;
    }
    else row

abbrev pub clear_default :
    TenantProviderConfig → String → String → ℕ → TenantProviderConfig → TenantProviderConfig
clear_default c tenant_id slug now row =
    if is_of tenant_id slug row && not (row.id == c.id)
    then record row { is_default = false; updated_at = now }
    else row

-- The commit of the changes, and then of the other connections' defaults. `stamp` is the time that the
-- row holds after the update, which is the old one where no column has changed.
unfoldable pub save_config :
    TenantProviderConfig → String → String → ℕ → ℕ → Configs → Result String Configs
save_config c tenant_id slug now stamp configs =
    let written = map (write_row c stamp) configs in
    if clashes c.id tenant_id slug c.name configs
    then err "IntegrityError"
    else if c.is_default
    then ok (map (clear_default c tenant_id slug now) written)
    else ok written

abbrev pub remove_config : String → Configs → Configs
remove_config id configs = select (λ c. not (c.id == id)) configs

abbrev pub make_default : String → ℕ → TenantProviderConfig → TenantProviderConfig
make_default id now row =
    if row.id == id then record row { is_default = true; updated_at = now } else row

abbrev pub to_delete : Configs → String → String → Option String → Option TenantProviderConfig
to_delete configs tenant_id slug id =
    if is_empty (or_else id "")
    then get_tenant_provider_config configs tenant_id slug
    else elim (get_tenant_provider_config_by_id configs tenant_id (or_else id "")) [
      | none ↦ none
      | some c ↦ if c.provider_slug == slug then some c else none
    ]

-- The next connection becomes the default where the default was removed.
unfoldable pub promote : String → String → ℕ → Configs → Configs
unfolding get_tenant_provider_config
promote tenant_id slug now configs = elim (get_tenant_provider_config configs tenant_id slug) [
  | none ↦ configs
  | some next ↦ map (make_default next.id now) configs
]

module _ {F : Type 0} (vault : Vault F) where
  -- The slug is the normalized one. The answer, with the rows and the files as they are left.
  unfoldable pub upsert_tenant_provider_config :
      Names
      → String
      → ℕ
      → ℕ
      → String
      → String
      → Upsert
      → Configs
      → F
      → Result String TenantProviderConfig × Configs × F
  unfolding find_or_create change_config save_config
  upsert_tenant_provider_config names new_id now stamp tenant_id slug a configs files =
      elim (find_or_create names new_id now tenant_id slug a configs) [
        | err e ↦ (err e, configs, files)
        | ok (c, rows) ↦
            let (changed, files') = change_config vault a c files in
            elim changed [
              | err e ↦ (err e, rows, files')
              | ok d ↦ elim (save_config d tenant_id slug now stamp rows) [
                | err e ↦ (err e, rows, files')
                | ok rows' ↦ (ok d, rows', files')
              ]
            ]
      ]

  abbrev drop_key : Option String → F → F
  drop_key none files = files
  drop_key (some r) files = vault.delete r files

  unfoldable pub delete_tenant_provider_config :
      ℕ → String → String → Option String → Configs → F → Bool × Configs × F
  unfolding promote
  delete_tenant_provider_config now tenant_id slug id configs files =
      elim (to_delete configs tenant_id slug id) [
        | none ↦ (false, configs, files)
        | some c ↦
            let left = remove_config c.id configs in
            (
              true,
              (if c.is_default then promote tenant_id slug now left else left),
              drop_key (full_ref c.key_ref) files,
            )
      ]
