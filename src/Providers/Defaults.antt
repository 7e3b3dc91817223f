-- ===== src/Providers/Defaults.antt =====
-- A tenant has at most one default connection to a provider.
use flash_connector.Prelude.{
  ℕ, ◌≤◌, String, Bool, true, false, ◌&&◌, some, [], ◌∷◌, ◌++◌, map, ◌≡◌, refl, arith, inl, inr,
  ◌==◌, eq_iff, select, count_by, find, is_nil, is_empty, or_else, Bool-cases, Option-cases, Result,
  ok, All, find_sound,
}
use flash_connector.Providers.{
  TenantProviderConfig, Configs, is_of, get_tenant_provider_config_by_id,
}
use flash_connector.Prelude.{
  All-absent, All-snoc, count_by-append, count_by-map-le, count_by-none, count_by-weaken-le,
  find-none, map-map,
}
use flash_connector.Providers.Connections.{
  find_or_create, save_config, write_row, clear_default, blank_config, chosen_name, clashes,
}
use flash_connector.Providers.Changes.{Upsert}
use flash_connector.Providers.Names.{Names}

abbrev pub has_config_id : String → TenantProviderConfig → Bool
has_config_id id c = c.id == id

abbrev pub is_default_of : String → String → TenantProviderConfig → Bool
is_default_of tenant_id slug c = is_of tenant_id slug c && c.is_default

-- Ids are not shared, and no tenant has two defaults for a provider.
pub record WellFormed (configs : Configs) : Type 0 where
  pub ids : (id : String) → count_by (has_config_id id) configs ≤ 1
  pub defaults : (tenant_id slug : String) → count_by (is_default_of tenant_id slug) configs ≤ 1

write_row-id :
    (c : TenantProviderConfig) (stamp : ℕ) (row : TenantProviderConfig)
    → (write_row c stamp row).id ≡ row.id
write_row-id c stamp row = elim (Bool-cases (row.id == c.id)) [ inl e ↦ rw e | inr e ↦ rw e ]

-- A row that the changes are written to is the tenant's, and of the provider.
abbrev pub Owned : TenantProviderConfig → String → String → TenantProviderConfig → Type 0
Owned c tenant_id slug row = has_config_id c.id row ≡ true → is_of tenant_id slug row ≡ true

step_kept :
    (c : TenantProviderConfig) (stamp : ℕ) (t s : String) (row : TenantProviderConfig)
    → c.is_default ≡ false
    → is_default_of t s (write_row c stamp row) ≡ true
    → is_default_of t s row ≡ true
step_kept c stamp t s row d h = ground (arith, h)

step_other :
    (c : TenantProviderConfig) (now stamp : ℕ) (tenant_id slug t s : String)
    (row : TenantProviderConfig)
    → ((tenant_id == t) && (slug == s)) ≡ false
    → Owned c tenant_id slug row
    → is_default_of t s (clear_default c tenant_id slug now (write_row c stamp row)) ≡ true
    → is_default_of t s row ≡ true
step_other c now stamp tenant_id slug t s row n own h = ground (
  arith,
  h,
  own,
  eq_iff row.tenant_id tenant_id,
  eq_iff row.provider_slug slug,
  eq_iff row.tenant_id t,
  eq_iff row.provider_slug s,
  eq_iff tenant_id t,
  eq_iff slug s,
)

-- What a save does to the rows, where the changed row may only be one of the tenant and provider.
pub save_config-WellFormed :
    (c : TenantProviderConfig) (tenant_id slug : String) (now stamp : ℕ) (configs rows : Configs)
    → WellFormed configs
    → All (Owned c tenant_id slug) configs
    → save_config c tenant_id slug now stamp configs ≡ ok rows
    → WellFormed rows
unfolding save_config
save_config-WellFormed c tenant_id slug now stamp configs rows wf own h =
    elim (Bool-cases (clashes c.id tenant_id slug c.name configs)) [
      | inl e ↦ absurd (cc (rw (e, save_config) at h))
      | inr e ↦ elim (Bool-cases c.is_default) [
        | inr d ↦
            let same : map (write_row c stamp) configs ≡ rows = ground (arith, h, e, d) in
            rw (← same) (record {
              ids = λ id. omega (arith, wf.ids id, kept_ids id);
              defaults = λ t s. omega (
                arith,
                wf.defaults t s,
                count_by-map-le (Owned c tenant_id slug) (is_default_of t s) (is_default_of t s)
                    (write_row c stamp) configs own (λ x _ p. step_kept c stamp t s x d p),
              );
            })
        | inl d ↦
            let step = λ (x : TenantProviderConfig).
              clear_default c tenant_id slug now (write_row c stamp x) in
            let same : map (clear_default c tenant_id slug now) (map (write_row c stamp) configs)
                ≡ rows =
              ground (arith, h, e, d) in
            rw (← same, map-map (clear_default c tenant_id slug now) (write_row c stamp) configs)
              (record {
                ids = λ id. omega (
                  arith,
                  wf.ids id,
                  count_by-map-le (Owned c tenant_id slug) (has_config_id id) (has_config_id id)
                      step configs own (λ x _ p. ground (arith, p)),
                );
                defaults = λ t s. elim (Bool-cases ((tenant_id == t) && (slug == s))) [
                  | inr n ↦ omega (
                    arith,
                    wf.defaults t s,
                    count_by-map-le (Owned c tenant_id slug) (is_default_of t s) (is_default_of t s)
                        step configs own
                        (λ x o p. step_other c now stamp tenant_id slug t s x n o p),
                  )
                  | inl y ↦ omega (
                    arith,
                    wf.ids c.id,
                    count_by-map-le (Owned c tenant_id slug) (is_default_of t s)
                        (has_config_id c.id) step configs own (λ x _ p. step_same t s x y p),
                  )
                ];
              })
      ]
    ]
  where
    kept_ids :
        (id : String)
        → count_by (has_config_id id) (map (write_row c stamp) configs)
          ≤ count_by (has_config_id id) configs
    kept_ids id =
        count_by-map-le (Owned c tenant_id slug) (has_config_id id) (has_config_id id)
          (write_row c stamp) configs own (λ x _ p. ground (arith, p))

    step_same :
        (t s : String) (x : TenantProviderConfig)
        → ((tenant_id == t) && (slug == s)) ≡ true
        → is_default_of t s (clear_default c tenant_id slug now (write_row c stamp x)) ≡ true
        → has_config_id c.id x ≡ true
    step_same t s x y p = ground (arith, p, y, eq_iff tenant_id t, eq_iff slug s)

find-Owned :
    (tenant_id slug id : String) (configs : Configs) (c : TenantProviderConfig)
    → count_by (has_config_id id) configs ≤ 1
    → find (λ r. (r.id == id) && (r.tenant_id == tenant_id)) configs ≡ some c
    → (c.provider_slug == slug) ≡ true
    → All (λ r. has_config_id id r ≡ true → is_of tenant_id slug r ≡ true) configs
find-Owned tenant_id slug id [] c n h e = absurd (cc)
find-Owned tenant_id slug id (r ∷ rs) c n h e = elim (Bool-cases (r.id == id)) [
  | inr q ↦ (
    (λ t. absurd (cc)),
    find-Owned tenant_id slug id rs c (ground (arith, n, q)) (ground (arith, h, q)) e,
  )
  | inl q ↦ elim (Bool-cases (r.tenant_id == tenant_id)) [
    | inl t ↦
        let same : r ≡ c = ground (arith, h, q, t) in
        (
          (λ _. let p : (r.provider_slug == slug) ≡ true = rw same e in ground (arith, t, p)),
          All-absent _ (has_config_id id) rs (ground (arith, n, q)),
        )
    | inr t ↦
        let absent : count_by (has_config_id id) rs ≡ 0 = ground (arith, n, q) in
        let later : find (λ (r : TenantProviderConfig). (r.id == id) && (r.tenant_id == tenant_id))
              rs
            ≡ some c =
          ground (arith, h, q, t) in
        let none_found =
          find-none (has_config_id id) (λ (r : TenantProviderConfig). r.tenant_id == tenant_id) rs
            absent in
        absurd (cc)
  ]
]

appended-WellFormed :
    (c : TenantProviderConfig) (configs : Configs)
    → WellFormed configs
    → count_by (has_config_id c.id) configs ≡ 0
    → (c.is_default ≡ true → select (is_of c.tenant_id c.provider_slug) configs ≡ [])
    → WellFormed (configs ++ c ∷ [])
appended-WellFormed c configs wf fresh alone = record {
  ids = λ id. rw (count_by-append (has_config_id id) configs c) (elim (Bool-cases (c.id == id)) [
    | inr n ↦ rw n (omega (arith, wf.ids id))
    | inl y ↦
        let same : c.id ≡ id = (eq_iff c.id id).0 y in
        let none_yet : count_by (has_config_id id) configs ≡ 0 = rw (← same) fresh in
        rw y (omega arith)
  ]);
  defaults = λ t s.
      rw (count_by-append (is_default_of t s) configs c) (elim (Bool-cases (is_default_of t s c)) [
        | inr n ↦ rw n (omega (arith, wf.defaults t s))
        | inl y ↦
            let own : c.is_default ≡ true = ground (arith, y) in
            let tenant : c.tenant_id ≡ t = (eq_iff c.tenant_id t).0 (ground (arith, y)) in
            let provider : c.provider_slug ≡ s = (eq_iff c.provider_slug s).0 (ground (arith, y)) in
            let empty : select (is_of t s) configs ≡ [] = rw (← tenant, ← provider) (alone own) in
            let none_yet = count_by-none (is_of t s) configs empty in
            let fewer =
              count_by-weaken-le (is_default_of t s) (is_of t s) configs
                (λ x p. ground (arith, p)) in
            rw y (omega arith)
      ]);
}

first_default : (own : Configs) → is_nil own ≡ true → own ≡ []
first_default [] h = refl
first_default (c ∷ cs) h = absurd (cc)

pub find_or_create-WellFormed :
    (names : Names) (new_id : String) (now : ℕ) (tenant_id slug : String) (a : Upsert)
    (configs rows : Configs) (c : TenantProviderConfig)
    → WellFormed configs
    → count_by (has_config_id new_id) configs ≡ 0
    → find_or_create names new_id now tenant_id slug a configs ≡ ok (c, rows)
    → WellFormed rows × All (Owned c tenant_id slug) rows
unfolding find_or_create get_tenant_provider_config_by_id
find_or_create-WellFormed names new_id now tenant_id slug a configs rows c wf fresh h =
    let id = or_else a.provider_config_id "" in
    let own = select (is_of tenant_id slug) configs in
    elim (Bool-cases (is_empty id)) [
      | inr e ↦ elim (Option-cases (get_tenant_provider_config_by_id configs tenant_id id)) [
        | inl f ↦ absurd (cc (rw (e, f, find_or_create) at h))
        | inr (d, f) ↦ elim (Bool-cases (d.provider_slug == slug)) [
          | inr q ↦ absurd (cc (rw (e, f, q, find_or_create) at h))
          | inl q ↦
              let h' : ◌≡◌ {A = Result String (TenantProviderConfig × Configs)} (ok (d, configs))
                  (ok (c, rows)) =
                rw (e, f, q, find_or_create) at h in
              let same : d ≡ c = ground (arith, h') in
              let rows_same : configs ≡ rows = ground (arith, h') in
              let named : d.id ≡ id = (eq_iff d.id id).0 (
                ground (
                  arith,
                  find_sound
                      (λ (r : TenantProviderConfig). (r.id == id) && (r.tenant_id == tenant_id))
                      configs f,
                )) in
              let owned = find-Owned tenant_id slug id configs d (wf.ids id) f q in
              rw (← same, ← rows_same, named) (wf, owned)
        ]
      ]
      | inl e ↦ elim (Option-cases (chosen_name names own slug a.connection_name)) [
        | inl f ↦ absurd (cc (rw (e, f, find_or_create) at h))
        | inr (name, f) ↦
            let d = blank_config new_id now tenant_id slug name a.description (is_nil own) in
            elim (Bool-cases (clashes new_id tenant_id slug name configs)) [
              | inl q ↦ absurd (cc (rw (e, f, q, find_or_create) at h))
              | inr q ↦
                  let h' : ◌≡◌ {A = Result String (TenantProviderConfig × Configs)}
                      (ok (d, configs ++ d ∷ [])) (ok (c, rows)) =
                    rw (e, f, q, find_or_create) at h in
                  let same : d ≡ c = ground (arith, h') in
                  let rows_same : configs ++ d ∷ [] ≡ rows = ground (arith, h') in
                  rw (← same, ← rows_same)
                    (
                      appended-WellFormed d configs wf fresh (first_default own),
                      All-snoc (Owned d tenant_id slug) configs d
                          (All-absent _ (has_config_id new_id) configs fresh)
                          (λ _.
                            rw ((eq_iff tenant_id tenant_id).1 refl, (eq_iff slug slug).1 refl)
                              refl),
                    )
            ]
      ]
    ]
