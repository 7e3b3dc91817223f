-- ===== src/Providers/PlatformKeys.antt =====
-- The keys of the platform, in api/app/services/providers.py, with what the lookups of keys use.
use flash_connector.Prelude.{
  String, Bool, Option, none, some, [], ◌∷◌, ◌==◌, if◌then◌else◌, any, is_empty, strip, Result, ok,
  err,
}
use flash_connector.Prelude.Dict.{Dict, lookup, insert}
use flash_connector.Json.{Json, str, obj, Fields, field, end}

pub record ProviderCatalogItem : Type 0 where
  pub model_prefix : String
  pub platform_key_env : Option String
  pub requires_api_key : Bool

pub record Runtime : Type 0 where
  pub ensure_slug : String → Result String String
  pub catalog_item : String → Option ProviderCatalogItem
  -- the parsed setting, where it is JSON
  pub platform_keys : Option Json
  pub env : String → Option String
  pub get_secret : String → Result String (Option String)
  pub endpoint_options : String → Option String → Option String → Option String × Option String

-- `AZURE_PROVIDER_MODES`; the slug is a normalized one.
abbrev pub is_azure_provider_slug : String → Bool
is_azure_provider_slug slug =
    any (λ s. s == slug)
      ("azure_openai" ∷ "azure_openai_deployment" ∷ "azure_openai_v1" ∷ "azure_ai_foundry" ∷ [])

-- One entry of the setting.
abbrev pub add_platform_key : Runtime → String → Json → Dict String → Dict String
add_platform_key rt key (str value) mapped = elim (rt.ensure_slug key) [
  | err e ↦ mapped
  | ok slug ↦ if is_empty (strip value) then mapped else insert slug (strip value) mapped
]
add_platform_key rt key _ mapped = mapped

unfoldable pub add_platform_keys : Runtime → Dict String → Fields → Dict String
add_platform_keys rt mapped end = mapped
add_platform_keys rt mapped (field key value rest) =
    add_platform_keys rt (add_platform_key rt key value mapped) rest

unfoldable pub platform_provider_key_map : Runtime → Dict String
unfolding add_platform_keys
platform_provider_key_map rt = elim rt.platform_keys [
  | some (obj f) ↦ add_platform_keys rt [] f
  | _ ↦ []
]

abbrev pub full_env : Runtime → Option String → Option String
full_env rt none = none
full_env rt (some name) = if is_empty name then none else elim (rt.env name) [
  | none ↦ none
  | some value ↦ if is_empty value then none else some (strip value)
]

abbrev pub hint_of : Option ProviderCatalogItem → Option String
hint_of none = none
hint_of (some item) = item.platform_key_env

-- The first of two that is there.
abbrev pub or_then : Option String → Option String → Option String
or_then none b = b
or_then (some a) b = some a

unfoldable pub platform_key_for_provider : Runtime → String → Option String
unfolding platform_provider_key_map
platform_key_for_provider rt slug =
    let mapped = platform_provider_key_map rt in
    let azure = is_azure_provider_slug slug in
    or_then (lookup slug mapped) (
      or_then (if azure then lookup "azure_openai" mapped else none) (
        or_then (full_env rt (hint_of (rt.catalog_item slug)))
          (if azure then full_env rt (some "AZURE_OPENAI_API_KEY") else none)))
