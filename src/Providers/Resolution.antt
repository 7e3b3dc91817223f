-- ===== src/Providers/Resolution.antt =====
-- Where the key of a named connection comes from.
use flash_connector.Prelude.{
  ℕ, max, String, true, false, ◌&&◌, not, Option, none, some, ◌≡◌, refl, sym, ◌∙◌, ap, subst, arith,
  inl, inr, ◌==◌, eq_iff, if◌then◌else◌, is_empty, Bool-cases, Option-cases, Result-cases, Result,
  ok,
}
use flash_connector.Tenants.{Table, Tenant, get_tenant}
use flash_connector.Providers.{
  ProviderAuthMode, by_platform, by_tenant, keyless, TenantProviderConfig, Configs, climb,
  get_tenant_provider_config_by_id, get_effective_provider_config_by_id,
}
use flash_connector.Providers.Changes.{full_ref}
use flash_connector.Providers.Inheritance.{
  Nearest, NearestOwner, Nearest-NearestOwner, climb-Nearest,
}
use flash_connector.Providers.Credentials.{
  ResolvedProviderCredentials, pick_config, mode_key, config_key, find_key, finish_credentials,
  resolve_provider_credentials, is_full_text, is_keyless, requires_key,
}
use flash_connector.Providers.PlatformKeys.{Runtime, platform_key_for_provider}

-- The key that a connection of a mode stands for.
abbrev pub KeyBy : Runtime → String → Option String → Option String → ProviderAuthMode → Type 0
KeyBy rt slug key_ref key by_platform = key ≡ platform_key_for_provider rt slug
KeyBy rt slug key_ref key by_tenant =
    (r : String) × (full_ref key_ref ≡ some r) × (rt.get_secret r ≡ ok key)
KeyBy rt slug key_ref key keyless = key ≡ none

ok_injective : {A : Type 0} {a b : A} → ◌≡◌ {A = Result String A} (ok a) (ok b) → a ≡ b
ok_injective h = cc

mode_key-KeyBy :
    (rt : Runtime) (slug : String) (c : TenantProviderConfig) (mode : ProviderAuthMode)
    (key : Option String)
    → mode_key rt slug c mode ≡ ok key
    → KeyBy rt slug c.key_ref key mode
mode_key-KeyBy rt slug c by_platform key h = sym (ok_injective h)
mode_key-KeyBy rt slug c keyless key h = sym (ok_injective h)
mode_key-KeyBy rt slug c by_tenant key h = elim (Option-cases (full_ref c.key_ref)) [
  | inl f ↦ absurd (cc (rw (f, mode_key) at h))
  | inr (r, f) ↦ (r, f, (rw (f, mode_key) at h))
]

config_key-KeyBy :
    (rt : Runtime) (slug : String) (c : TenantProviderConfig) (key : Option String)
    → config_key rt slug c ≡ ok key
    → (c.is_active ≡ true) × KeyBy rt slug c.key_ref key c.auth_mode
unfolding config_key
config_key-KeyBy rt slug c key h = elim (Bool-cases c.is_active) [
  | inr a ↦ absurd (cc (simp (a, config_key) at h))
  | inl a ↦ (a, mode_key-KeyBy rt slug c c.auth_mode key (ground (arith, h, a)))
]

pick_config-Nearest :
    (configs : Configs) (db : Table) (setting : ℕ) (t : Tenant) (slug id : String)
    (picked : Option TenantProviderConfig) (source : Option Tenant)
    → get_tenant db t.id ≡ some t
    → is_empty id ≡ false
    → pick_config configs db setting t.id slug (some id) ≡ ok (picked, source)
    → (c : TenantProviderConfig) × (s : Tenant) × (picked ≡ some c)
      × (source ≡ some s)
      × (c.provider_slug ≡ slug)
      × Nearest
          (λ (u : Tenant). get_tenant_provider_config_by_id configs u.id id)
          db
          (max setting 1)
          t
          s
          c
unfolding pick_config get_effective_provider_config_by_id
pick_config-Nearest configs db setting t slug id picked source row full h =
    let look = λ (u : Tenant). get_tenant_provider_config_by_id configs u.id id in
    let found = get_effective_provider_config_by_id configs db setting t.id id in
    let run : found ≡ climb look db (max setting 1) (some t) = rw row refl in
    elim (Option-cases found.0) [
      | inl f ↦ absurd (cc (rw (full, f, pick_config) at h))
      | inr (c, f) ↦ elim (Bool-cases (c.provider_slug == slug)) [
        | inr q ↦ absurd (cc (rw (full, f, q, pick_config) at h))
        | inl q ↦
            let h' : ◌≡◌ {A = Result String (Option TenantProviderConfig × Option Tenant)}
                (ok (some c, found.1)) (ok (picked, source)) =
              rw (full, f, q, pick_config) at h in
            let (t', s, same, e, near) =
              climb-Nearest look db (max setting 1) (some t) c (ap (λ r. r.0) (sym run) ∙ f) in
            let tt' : t ≡ t' = ground (arith, same) in
            (
              c,
              s,
              sym (ap (λ r. r.0) (ok_injective h')),
              sym (ap (λ r. r.1) (ok_injective h')) ∙ ap (λ r. r.1) run ∙ e,
              (eq_iff c.provider_slug slug).0 q,
              subst (λ x. Nearest look db (max setting 1) x s c) (sym tt') near,
            )
      ]
    ]

finish_credentials-key :
    (rt : Runtime) (tenant_id slug : String) (c : TenantProviderConfig) (mode : ProviderAuthMode)
    (key : Option String) (s : Tenant) (r : ResolvedProviderCredentials)
    → finish_credentials rt tenant_id slug
        (some c)
        (record { auth_mode = mode; api_key = key; source = some s })
      ≡ ok r
    → (r.api_key ≡ (if is_keyless mode then none else key))
      × (r.source_tenant_id ≡ s.id)
      × ((requires_key (rt.catalog_item slug) && not (is_keyless mode) && not (is_full_text key))
          ≡ false)
unfolding finish_credentials
finish_credentials-key rt tenant_id slug c mode key s r h =
    elim (Bool-cases
      (requires_key (rt.catalog_item slug) && not (is_keyless mode) && not (is_full_text key))) [
        | inl n ↦ absurd (cc (rw (n, finish_credentials) at h))
        | inr n ↦
            let same = ok_injective (rw (n, finish_credentials) at h) in
            (
              sym (ap (λ (x : ResolvedProviderCredentials). x.api_key) same),
              sym (ap (λ (x : ResolvedProviderCredentials). x.source_tenant_id) same),
              n,
            )
      ]

-- Credentials for a connection that is named are those of a stored connection with that id, active and of
-- the provider, that belongs to the tenant or to the nearest tenant above it that has one of the id and
-- to which links lead from tenants that inherit; the key
-- is the one in that connection's secret, or the platform's, or none, by the connection's mode, and where
-- the provider requires a key and the mode is not `none` there is one.
pub resolve_provider_credentials-Nearest :
    (rt : Runtime) (configs : Configs) (db : Table) (setting : ℕ) (t : Tenant) (slug id : String)
    (r : ResolvedProviderCredentials)
    → get_tenant db t.id ≡ some t
    → is_empty id ≡ false
    → resolve_provider_credentials rt configs db setting t.id slug (some id) ≡ ok r
    → (c : TenantProviderConfig) × (source : Tenant) × (key : Option String) × NearestOwner configs
        db id
        (max setting 1)
        t
        source
        c
      × (c.provider_slug ≡ slug)
      × (c.is_active ≡ true)
      × KeyBy rt slug c.key_ref key c.auth_mode
      × (r.api_key ≡ (if is_keyless c.auth_mode then none else key))
      × (r.source_tenant_id ≡ source.id)
      × ((requires_key (rt.catalog_item slug)
            && not (is_keyless c.auth_mode)
            && not (is_full_text key))
          ≡ false)
unfolding resolve_provider_credentials find_key finish_credentials
resolve_provider_credentials-Nearest rt configs db setting t slug id r row full h =
    elim (Result-cases (pick_config configs db setting t.id slug (some id))) [
      | inr (e, p) ↦ absurd (cc (rw (row, p, resolve_provider_credentials) at h))
      | inl ((picked, source), p) ↦
          let (c, s, pc, ps, named, near) =
            pick_config-Nearest configs db setting t slug id picked source row full p in
          elim (Result-cases (config_key rt slug c)) [
            | inr (e, k) ↦
                absurd (cc (rw (row, p, pc, k, resolve_provider_credentials, find_key) at h))
            | inl (key, k) ↦
                let (active, by) = config_key-KeyBy rt slug c key k in
                let (a, b, d) =
                  finish_credentials-key rt t.id slug c c.auth_mode key s r
                    (rw (row, p, pc, ps, k, resolve_provider_credentials, find_key) at h) in
                (
                  c,
                  s,
                  key,
                  Nearest-NearestOwner configs db id (max setting 1) t s c near,
                  named,
                  active,
                  by,
                  a,
                  b,
                  d,
                )
          ]
    ]
