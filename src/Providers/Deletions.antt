-- ===== src/Providers/Deletions.antt =====
-- The deletion of a connection leaves the table well formed.
use mathlib.Core.List.{Memᴰ}
use mathlib.Core.List.Memᴰ
use flash_connector.Prelude.{
  ℕ, ◌≤◌, String, true, false, ◌&&◌, not, Option, some, [], ◌∷◌, ◌≡◌, refl, sym, arith, inl, inr,
  ◌==◌, eq_iff, select, count_by, is_empty, or_else, Bool-cases, Option-cases, All, find_sound,
  find-mem, mem-select, mem-count_by, count_by-select-le, count_by-select-lt,
}
use flash_connector.Providers.{
  TenantProviderConfig, Configs, is_of, is_before, insert_config, order_configs, first_of,
  get_tenant_provider_config, get_tenant_provider_config_by_id,
}
use flash_connector.Prelude.{All-absent, count_by-map-le}
use flash_connector.Providers.Connections.{
  delete_tenant_provider_config, to_delete, remove_config, make_default, promote,
}
use flash_connector.Providers.Changes.{Vault}
use flash_connector.Providers.Defaults.{WellFormed, has_config_id, is_default_of}

mem-insert_config :
    (c : TenantProviderConfig) (cs : Configs) {a : TenantProviderConfig}
    → Memᴰ a (insert_config c cs)
    → Memᴰ a (c ∷ cs)
mem-insert_config c [] m = m
mem-insert_config c (d ∷ ds) {a} m = elim (Bool-cases (is_before d c)) [
  | inr q ↦ rw q at m
  | inl q ↦
      let m' : Memᴰ a (d ∷ insert_config c ds) = rw q at m in
      elim (Memᴰ.cases_cons m') [
        | inl h ↦ Memᴰ.tail (Memᴰ.head h)
        | inr k ↦ elim (Memᴰ.cases_cons (mem-insert_config c ds k)) [
          | inl h ↦ Memᴰ.head h
          | inr n ↦ Memᴰ.tail (Memᴰ.tail n)
        ]
      ]
]

mem-order_configs :
    (cs : Configs) {a : TenantProviderConfig} → Memᴰ a (order_configs cs) → Memᴰ a cs
unfolding order_configs
mem-order_configs [] m = m
mem-order_configs (c ∷ cs) m = elim (Memᴰ.cases_cons (mem-insert_config c (order_configs cs) m)) [
  | inl h ↦ Memᴰ.head h
  | inr k ↦ Memᴰ.tail (mem-order_configs cs k)
]

mem-first_of : (cs : Configs) {a : TenantProviderConfig} → first_of cs ≡ some a → Memᴰ a cs
mem-first_of [] h = absurd (cc)
mem-first_of (c ∷ cs) {a} h = let e : c ≡ a = ground (arith, h) in Memᴰ.head (sym e)

get_tenant_provider_config-mem :
    (configs : Configs) (tenant_id slug : String) {c : TenantProviderConfig}
    → get_tenant_provider_config configs tenant_id slug ≡ some c
    → Memᴰ c configs × (is_of tenant_id slug c ≡ true)
unfolding get_tenant_provider_config
get_tenant_provider_config-mem configs tenant_id slug h =
    let own = select (is_of tenant_id slug) configs in
    mem-select (is_of tenant_id slug) configs
      (mem-order_configs own (mem-first_of (order_configs own) h))

to_delete-mem :
    (configs : Configs) (tenant_id slug : String) (id : Option String) {c : TenantProviderConfig}
    → to_delete configs tenant_id slug id ≡ some c
    → Memᴰ c configs × (is_of tenant_id slug c ≡ true)
unfolding get_tenant_provider_config_by_id
to_delete-mem configs tenant_id slug id {c} h = elim (Bool-cases (is_empty (or_else id ""))) [
  | inl e ↦ get_tenant_provider_config-mem configs tenant_id slug (rw e at h)
  | inr e ↦
      elim (Option-cases (get_tenant_provider_config_by_id configs tenant_id (or_else id ""))) [
        | inl f ↦ absurd (cc (rw (e, f) at h))
        | inr (d, f) ↦ elim (Bool-cases (d.provider_slug == slug)) [
          | inr q ↦ absurd (cc (rw (e, f, q) at h))
          | inl q ↦
              let p = λ (r : TenantProviderConfig).
                (r.id == or_else id "") && (r.tenant_id == tenant_id) in
              let found : p d ≡ true = find_sound p configs f in
              let same : d ≡ c = ground (arith, (rw (e, f, q) at h)) in
              rw (← same) (find-mem p configs f, ground (arith, found, q))
        ]
      ]
]

-- The rows with the id of a row are all that row.
unique-All :
    (Q : TenantProviderConfig → Type 0) (configs : Configs) (c : TenantProviderConfig)
    → count_by (has_config_id c.id) configs ≤ 1
    → Memᴰ c configs
    → Q c
    → All (λ r. has_config_id c.id r ≡ true → Q r) configs
unique-All Q [] c n m q = tt
unique-All Q (r ∷ rs) c n m q = elim (Memᴰ.cases_cons m) [
  | inl e ↦
      let own : has_config_id c.id r ≡ true = rw (← e) ((eq_iff c.id c.id).1 refl) in
      ((λ _. rw (← e) q), All-absent _ (has_config_id c.id) rs (ground (arith, n, own)))
  | inr k ↦
      let one = mem-count_by (has_config_id c.id) rs k ((eq_iff c.id c.id).1 refl) in
      let none_here : has_config_id c.id r ≡ false = ground (arith, n, one) in
      ((λ t. absurd (cc)), unique-All Q rs c (ground (arith, n, none_here)) k q)
]

remove_config-WellFormed :
    (id : String) (configs : Configs) → WellFormed configs → WellFormed (remove_config id configs)
remove_config-WellFormed id configs wf = record {
  ids = λ x. omega (
    arith,
    wf.ids x,
    count_by-select-le (has_config_id x) (λ (c : TenantProviderConfig). not (c.id == id)) configs,
  );
  defaults = λ t s. omega (
    arith,
    wf.defaults t s,
    count_by-select-le (is_default_of t s) (λ (c : TenantProviderConfig). not (c.id == id)) configs,
  );
}

promote-WellFormed :
    (tenant_id slug : String) (now : ℕ) (configs : Configs)
    → WellFormed configs
    → count_by (is_default_of tenant_id slug) configs ≡ 0
    → WellFormed (promote tenant_id slug now configs)
unfolding promote
promote-WellFormed tenant_id slug now configs wf none_left =
    elim (Option-cases (get_tenant_provider_config configs tenant_id slug)) [
      | inl e ↦ rw (e, promote) wf
      | inr (next, e) ↦
          let (m, own) = get_tenant_provider_config-mem configs tenant_id slug e in
          let owned =
            unique-All (λ r. is_of tenant_id slug r ≡ true) configs next (wf.ids next.id) m own in
          let absent = All-absent (λ _. ⊥) (is_default_of tenant_id slug) configs none_left in
          rw (e, promote)
            (record {
              ids = λ x. omega (
                arith,
                wf.ids x,
                count_by-map-le _ (has_config_id x) (has_config_id x) (make_default next.id now)
                    configs owned (λ r _ p. ground (arith, p)),
              );
              defaults = λ t s. elim (Bool-cases ((tenant_id == t) && (slug == s))) [
                | inl y ↦ omega (
                  arith,
                  wf.ids next.id,
                  count_by-map-le _ (is_default_of t s) (has_config_id next.id)
                      (make_default next.id now) configs absent
                      (λ r o p. promoted next.id r t s y o p),
                )
                | inr n ↦ omega (
                  arith,
                  wf.defaults t s,
                  count_by-map-le _ (is_default_of t s) (is_default_of t s)
                      (make_default next.id now) configs owned
                      (λ r o p. others next.id r t s n o p),
                )
              ];
            })
    ]
  where
    promoted :
        (id : String) (r : TenantProviderConfig) (t s : String)
        → ((tenant_id == t) && (slug == s)) ≡ true
        → (is_default_of tenant_id slug r ≡ true → ⊥)
        → is_default_of t s (make_default id now r) ≡ true
        → has_config_id id r ≡ true
    promoted id r t s y o p = elim (Bool-cases (r.id == id)) [
      | inl q ↦ q
      | inr q ↦ absurd (o (ground (arith, p, y, q, eq_iff tenant_id t, eq_iff slug s)))
    ]

    others :
        (id : String) (r : TenantProviderConfig) (t s : String)
        → ((tenant_id == t) && (slug == s)) ≡ false
        → (has_config_id id r ≡ true → is_of tenant_id slug r ≡ true)
        → is_default_of t s (make_default id now r) ≡ true
        → is_default_of t s r ≡ true
    others id r t s n o p = ground (
      arith,
      n,
      o,
      p,
      eq_iff r.tenant_id tenant_id,
      eq_iff r.provider_slug slug,
      eq_iff r.tenant_id t,
      eq_iff r.provider_slug s,
      eq_iff tenant_id t,
      eq_iff slug s,
    )

pub delete-WellFormed :
    {F : Type 0} (vault : Vault F) (now : ℕ) (tenant_id slug : String) (id : Option String)
    (configs : Configs) (files : F)
    → WellFormed configs
    → WellFormed (delete_tenant_provider_config vault now tenant_id slug id configs files).1
unfolding delete_tenant_provider_config
delete-WellFormed vault now tenant_id slug id configs files wf =
    elim (Option-cases (to_delete configs tenant_id slug id)) [
      | inl e ↦ rw (e, delete_tenant_provider_config) wf
      | inr (c, e) ↦
          let kept = remove_config-WellFormed c.id configs wf in
          elim (Bool-cases c.is_default) [
            | inr d ↦ simp (e, d, delete_tenant_provider_config) kept
            | inl d ↦
                let (m, own) = to_delete-mem configs tenant_id slug id e in
                let was : is_default_of tenant_id slug c ≡ true = ground (arith, own, d) in
                let fewer =
                  count_by-select-lt (is_default_of tenant_id slug)
                    (λ (r : TenantProviderConfig). not (r.id == c.id)) configs m was
                    (removed c.id) in
                simp (e, d, delete_tenant_provider_config)
                  (promote-WellFormed tenant_id slug now (remove_config c.id configs) kept
                    (omega (arith, fewer, wf.defaults tenant_id slug)))
          ]
    ]
  where
    removed : (x : String) → not (x == x) ≡ false
    removed x = rw ((eq_iff x x).1 refl) refl
