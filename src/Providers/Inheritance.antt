-- ===== src/Providers/Inheritance.antt =====
-- Whose connections a tenant may use.
use mathlib.Core.List.{Memᴰ}
use mathlib.Core.List.Memᴰ
use flash_connector.Prelude.{
  ◌+◌, ◌≤◌, Bool, true, ◌&&◌, ◌==◌, eq_iff, List, [], ◌∷◌, find, find_sound, find-mem, count_by,
  mem-count_by, Bool-cases, ℕ, zero, suc, max, String, Option, none, some, ◌≡◌, refl, sym, ◌∙◌, ap,
  ◌↔◌, inl, inr, arith, subst, Option-cases,
}
use flash_connector.Tenants.{Table, Tenant, get_tenant}
use flash_connector.Providers.Defaults.{has_config_id}
use flash_connector.Providers.{
  TenantProviderConfig, Configs, inherited_parent, climb, get_tenant_provider_config_by_id,
  get_effective_provider_config_by_id,
}

-- What is looked for is in `source`, which is the tenant itself or is reached, in fewer than `n` links,
-- through tenants that inherit and have nothing of their own.
pub data Nearest {A : Type 0} (look : Tenant → Option A) (db : Table)
    : ℕ → Tenant → Tenant → A → Type 0 where
  own : (n : ℕ) (t : Tenant) (a : A) → look t ≡ some a → Nearest look db (suc n) t t a
  from_parent :
      (n : ℕ) (t parent source : Tenant) (p : String) (a : A)
      → look t ≡ none
      → inherited_parent t ≡ some p
      → get_tenant db p ≡ some parent
      → Nearest look db n parent source a
      → Nearest look db (suc n) t source a

module _ {A : Type 0} (look : Tenant → Option A) (db : Table) where
  pub climb-Nearest :
      (n : ℕ) (current : Option Tenant) (a : A)
      → (climb look db n current).0 ≡ some a
      → (t : Tenant) × (source : Tenant) × (current ≡ some t)
        × ((climb look db n current).1 ≡ some source)
        × Nearest look db n t source a
  unfolding climb
  climb-Nearest zero current a h = absurd (cc)
  climb-Nearest (suc n) none a h = absurd (cc)
  climb-Nearest (suc n) (some t) a h = elim (Option-cases (look t)) [
    | inr (b, e) ↦
        let h' : some b ≡ some a = rw (e, climb) at h in
        (t, t, refl, rw (e, climb) refl, own n t a (e ∙ h'))
    | inl e ↦ elim (Option-cases (inherited_parent t)) [
      | inl i ↦ absurd (cc (rw (e, i, climb) at h))
      | inr (p, i) ↦
          let (parent, source, g, s, near) =
            climb-Nearest n (get_tenant db p) a (rw (e, i, climb) at h) in
          (t, source, refl, rw (e, i, climb) s, from_parent n t parent source p a e i g near)
    ]
  ]

  Nearest-climb :
      (n : ℕ) (t source : Tenant) (a : A)
      → Nearest look db n t source a
      → climb look db n (some t) ≡ (some a, some source)
  unfolding climb
  Nearest-climb _ t _ a (own n _ _ e) = rw (e, climb)
  Nearest-climb _ t source a (from_parent n _ parent _ p _ e i g near) =
      rw (e, i, g, climb) (Nearest-climb n parent source a near)

-- A connection of the table that has an id and belongs to a tenant.
abbrev pub Owns : Configs → String → Tenant → TenantProviderConfig → Type 0
Owns configs id t c = Memᴰ c configs × (c.id ≡ id) × (c.tenant_id ≡ t.id)

-- A connection with an id belongs to `source`, which is the tenant itself or is reached, in fewer than `n`
-- links, through tenants that inherit and own no connection of the id.
pub data NearestOwner (configs : Configs) (db : Table) (id : String)
    : ℕ → Tenant → Tenant → TenantProviderConfig → Type 0 where
  owned :
      (n : ℕ) (t : Tenant) (c : TenantProviderConfig)
      → Owns configs id t c
      → NearestOwner configs db id (suc n) t t c
  inherited :
      (n : ℕ) (t parent source : Tenant) (p : String) (c : TenantProviderConfig)
      → ((d : TenantProviderConfig) → Owns configs id t d → ⊥)
      → inherited_parent t ≡ some p
      → get_tenant db p ≡ some parent
      → NearestOwner configs db id n parent source c
      → NearestOwner configs db id (suc n) t source c

module _ {A : Type 0} (p : A → Bool) where
  find_misses : (xs : List A) {a : A} → find p xs ≡ none → Memᴰ a xs → p a ≡ true → ⊥
  find_misses [] h m q = Memᴰ.not-nil m
  find_misses (x ∷ xs) h m q = elim (Bool-cases (p x)) [
    | inl e ↦ absurd (cc (rw e at h))
    | inr e ↦ elim (Memᴰ.cases_cons m) [
      | inl same ↦ let passed : p x ≡ true = ap p (sym same) ∙ q in absurd (cc)
      | inr k ↦ find_misses xs (rw e at h) k q
    ]
  ]

  -- Where one element at most passes a weaker test, an element that passes is the one found.
  find_only :
      (q : A → Bool) (xs : List A) {a : A}
      → ((x : A) → p x ≡ true → q x ≡ true)
      → count_by q xs ≤ 1
      → Memᴰ a xs
      → p a ≡ true
      → find p xs ≡ some a
  find_only q [] w u m h = absurd (Memᴰ.not-nil m)
  find_only q (x ∷ xs) {a} w u m h = elim (Memᴰ.cases_cons m) [
    | inl same ↦ let e : p x ≡ true = ap p (sym same) ∙ h in rw e (ap some (sym same))
    | inr k ↦ elim (Bool-cases (p x)) [
      | inl e ↦
          let one = w x e in
          let two = mem-count_by q xs k (w a h) in
          let u' : 1 + count_by q xs ≤ 1 = rw one at u in absurd (omega (arith, two, u'))
      | inr e ↦ rw e (find_only q xs w (omega (arith, u)) k h)
    ]
  ]

module _ (configs : Configs) (db : Table) (id : String) where
  abbrev look : Tenant → Option TenantProviderConfig
  look u = get_tenant_provider_config_by_id configs u.id id

  abbrev passes : Tenant → TenantProviderConfig → Bool
  passes t c = (c.id == id) && (c.tenant_id == t.id)

  look-Owns : (t : Tenant) {c : TenantProviderConfig} → look t ≡ some c → Owns configs id t c
  unfolding get_tenant_provider_config_by_id
  look-Owns t {c} h =
      let e : passes t c ≡ true = find_sound (passes t) configs h in
      (
        find-mem (passes t) configs h,
        (eq_iff c.id id).0 (ground (arith, e)),
        (eq_iff c.tenant_id t.id).0 (ground (arith, e)),
      )

  Owns-passes : (t : Tenant) (c : TenantProviderConfig) → Owns configs id t c → passes t c ≡ true
  Owns-passes t c (m, e, f) = rw ((eq_iff c.id id).1 e, (eq_iff c.tenant_id t.id).1 f) refl

  look-none : (t : Tenant) → look t ≡ none → (d : TenantProviderConfig) → Owns configs id t d → ⊥
  unfolding get_tenant_provider_config_by_id
  look-none t h d o = find_misses (passes t) configs h o.0 (Owns-passes t d o)

  none-look : (t : Tenant) → ((d : TenantProviderConfig) → Owns configs id t d → ⊥) → look t ≡ none
  none-look t n = elim (Option-cases (look t)) [
    | inl e ↦ e
    | inr (d, e) ↦ absurd (n d (look-Owns t e))
  ]

  Owns-look :
      (t : Tenant) (c : TenantProviderConfig)
      → count_by (has_config_id id) configs ≤ 1
      → Owns configs id t c
      → look t ≡ some c
  unfolding get_tenant_provider_config_by_id
  Owns-look t c u o =
      find_only (passes t) (has_config_id id) configs (λ x h. ground (arith, h)) u o.0
        (Owns-passes t c o)

  pub Nearest-NearestOwner :
      (n : ℕ) (t source : Tenant) (c : TenantProviderConfig)
      → Nearest look db n t source c
      → NearestOwner configs db id n t source c
  Nearest-NearestOwner _ t _ c (own n _ _ e) = owned n t c (look-Owns t e)
  Nearest-NearestOwner _ t source c (from_parent n _ parent _ p _ e i g near) =
      inherited n t parent source p c (look-none t e) i g
        (Nearest-NearestOwner n parent source c near)

  NearestOwner-Nearest :
      (n : ℕ) (t source : Tenant) (c : TenantProviderConfig)
      → count_by (has_config_id id) configs ≤ 1
      → NearestOwner configs db id n t source c
      → Nearest look db n t source c
  NearestOwner-Nearest _ t _ c u (owned n _ _ o) = own n t c (Owns-look t c u o)
  NearestOwner-Nearest _ t source c u (inherited n _ parent _ p _ apart i g near) =
      from_parent n t parent source p c (none-look t apart) i g
        (NearestOwner-Nearest n parent source c u near)

-- In a table where no two connections share the id, a connection is found by the id exactly where it is a
-- stored connection with that id and belongs to the tenant itself, or to the nearest tenant above it that
-- has one of the id and to which the links lead, all of them from tenants that inherit, fewer than the
-- depth; and the tenant that is named with it is the one it belongs to.
pub get_effective_provider_config_by_id_iff :
    (configs : Configs) (db : Table) (setting : ℕ) (t : Tenant) (id : String)
    (c : TenantProviderConfig) (source : Tenant)
    → get_tenant db t.id ≡ some t
    → count_by (has_config_id id) configs ≤ 1
    → (get_effective_provider_config_by_id configs db setting t.id id ≡ (some c, some source))
      ↔ NearestOwner configs db id (max setting 1) t source c
unfolding get_effective_provider_config_by_id
get_effective_provider_config_by_id_iff configs db setting t id c source row unique =
    let look = λ (u : Tenant). get_tenant_provider_config_by_id configs u.id id in
    rw row (
      (λ h.
          let (t', source', same, s, near) =
            climb-Nearest look db (max setting 1) (some t) c (ap (λ r. r.0) h) in
          let e : t ≡ t' = ground (arith, same) in
          let f : source' ≡ source = ground (arith, s, ap (λ r. r.1) h) in
          Nearest-NearestOwner configs db id (max setting 1) t source c (
            subst (λ x. Nearest look db (max setting 1) x source c) (sym e)
              (subst (λ x. Nearest look db (max setting 1) t' x c) f near))),
      λ near.
          Nearest-climb look db (max setting 1) t source c
            (NearestOwner-Nearest configs db id (max setting 1) t source c unique near),
    )
