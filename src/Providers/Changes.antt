-- ===== src/Providers/Changes.antt =====
-- What a call changes in a connection, in api/app/services/providers.py: its key and its other columns.
use flash_connector.Prelude.{
  String, Bool, true, false, Option, none, some, ◌==◌, if◌then◌else◌, is_empty, strip, or_else,
  text_append, Result, ok, err, ◌>>=◌,
}
use flash_connector.Prelude.Dict.{Dict}
use flash_connector.Json.{Json}
use flash_connector.Providers.{
  ProviderAuthMode, by_platform, by_tenant, keyless, TenantProviderConfig, normalize_optional_text,
}

-- The files of the secrets.
pub record Vault (F : Type 0) : Type 0 where
  pub put : String → String → F → Result String F
  pub delete : String → F → F

-- The arguments of `upsert_tenant_provider_config`, but the tenant and the provider.
pub record Upsert : Type 0 where
  pub provider_config_id : Option String
  pub connection_name : Option String
  pub description : Option String
  pub billing_mode : Option String
  pub auth_mode : Option String
  pub api_key : Option String
  pub clear_api_key : Bool
  pub api_base : Option String
  pub api_version : Option String
  pub extra_json : Option (Dict Json)
  pub is_active : Option Bool
  pub is_default : Option Bool

-- A text argument, blank where it is absent.
abbrev pub stripped : Option String → String
stripped s = strip (or_else s "")

unfoldable pub parse_auth_mode : String → Result String ProviderAuthMode
parse_auth_mode s =
    if s == "platform"
    then ok by_platform
    else if s == "tenant"
    then ok by_tenant
    else if s == "none"
    then ok keyless
    else err "ValueError"

-- The two modes: the billing mode has one value, and no more than an effect on the other.
unfoldable pub change_modes : Upsert → TenantProviderConfig → Result String TenantProviderConfig
unfolding parse_auth_mode
change_modes a c = elim a.billing_mode [
  | none ↦ elim a.auth_mode [
    | none ↦ ok c
    | some m ↦ parse_auth_mode m >>= λ mode. ok (record c { auth_mode = mode })
  ]
  | some b ↦
      if b == "byok"
      then elim a.auth_mode [
        | none ↦ ok (record c { auth_mode = by_tenant })
        | some m ↦ parse_auth_mode m >>= λ mode. ok (record c { auth_mode = mode })
      ]
      else err "ValueError"
]

abbrev pub if_given {ℓ} : {A : Type ℓ} → Option A → A → A
if_given none old = old
if_given (some new) old = new

abbrev pub text_if_given : Option String → Option String → Option String
text_if_given none old = old
text_if_given (some s) old = normalize_optional_text (some s)

abbrev pub rename : Upsert → TenantProviderConfig → TenantProviderConfig
rename a c = record c {
  name = if is_empty (stripped a.connection_name) then c.name else stripped a.connection_name;
  description = text_if_given a.description c.description;
}

abbrev pub change_rest : Upsert → TenantProviderConfig → TenantProviderConfig
change_rest a c = record c {
  api_base = text_if_given a.api_base c.api_base;
  api_version = text_if_given a.api_version c.api_version;
  extra_json = if_given a.extra_json c.extra_json;
  is_active = if_given a.is_active c.is_active;
  is_default = if_given a.is_default c.is_default;
}

-- `build_provider_secret_ref` with a connection
abbrev pub secret_ref : String → String → String → String
secret_ref tenant_id slug id = text_append "tenant:" (
    text_append tenant_id (
      text_append ":provider:"
        (text_append slug (text_append ":connection:" (text_append id ":api_key")))))

-- An empty text and no text are the same here.
abbrev pub full_ref : Option String → Option String
full_ref none = none
full_ref (some r) = if is_empty r then none else some r

module _ {F : Type 0} (vault : Vault F) where
  abbrev pub clear_key : Bool → TenantProviderConfig → F → TenantProviderConfig × F
  clear_key false c files = (c, files)
  clear_key true c files = elim (full_ref c.key_ref) [
    | none ↦ (c, files)
    | some r ↦ (record c { key_ref = none }, vault.delete r files)
  ]

  abbrev pub set_key : String → TenantProviderConfig → F → Result String (TenantProviderConfig × F)
  set_key key c files =
      let r = or_else (full_ref c.key_ref) (secret_ref c.tenant_id c.provider_slug c.id) in
      if is_empty key
      then ok (c, files)
      else vault.put r key files >>= λ files'. ok (record c { key_ref = some r }, files')

  -- The key, and then the other columns; the files stay written also where a mode is refused.
  unfoldable pub change_config :
      Upsert → TenantProviderConfig → F → Result String TenantProviderConfig × F
  unfolding change_modes
  change_config a c files =
      let (c', files') = clear_key a.clear_api_key (rename a c) files in
      elim (set_key (stripped a.api_key) c' files') [
        | err e ↦ (err e, files')
        | ok (c'', files'') ↦ ((change_modes a c'' >>= λ d. ok (change_rest a d)), files'')
      ]
