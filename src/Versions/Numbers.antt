-- ===== src/Versions/Numbers.antt =====
-- The numbers of the versions.
use mathlib.Core.List.{Memᴰ}
use mathlib.Core.List.Memᴰ
use flash_connector.Prelude.{
  ℕ, ◌+◌, ◌≤◌, ◌<◌, String, Bool, true, some, List, [], ◌∷◌, ◌++◌, ◌≡◌, refl, sym, ◌∙◌, ap, arith,
  ◌⊎◌, inl, inr, ◌==◌, eq_iff, any, count_by, count_by-append, count_by-any, select, Bool-cases,
  Option-cases, Result-cases, Result, ok, err,
}
use flash_connector.Jobs.{EndpointVersion}
use flash_connector.Versions.{
  Registry, VersionStore, EndpointVersionCreate, latest_version, has_number, new_version,
  insert_version, add_contexts, resolve_route, create_endpoint_version_record, has_twice, is_owned,
}

-- No endpoint has two versions of one number.
abbrev pub Numbered : List EndpointVersion → Type 0
Numbered rows = (endpoint_id : String) (n : ℕ) → count_by (has_number endpoint_id n) rows ≤ 1

latest_version-le :
    (endpoint_id : String) (rows : List EndpointVersion) (v : EndpointVersion)
    → Memᴰ v rows
    → v.endpoint_id ≡ endpoint_id
    → v.version ≤ latest_version endpoint_id rows
unfolding latest_version
latest_version-le endpoint_id [] v m e = absurd (Memᴰ.not-nil m)
latest_version-le endpoint_id (w ∷ rest) v m e = elim (Memᴰ.cases_cons m) [
  | inl same ↦
      let own : w.endpoint_id ≡ endpoint_id =
        ap (λ (x : EndpointVersion). x.endpoint_id) (sym same) ∙ e in
      let number : v.version ≡ w.version = ap (λ (x : EndpointVersion). x.version) same in
      rw ((eq_iff w.endpoint_id endpoint_id).1 own) (omega (arith, number))
  | inr k ↦
      let later = latest_version-le endpoint_id rest v k e in
      elim (Bool-cases (w.endpoint_id == endpoint_id)) [
        | inl q ↦ rw q (omega (arith, later))
        | inr q ↦ rw q later
      ]
]

mem-last : {A : Type 0} (xs : List A) (x : A) → Memᴰ x (xs ++ x ∷ [])
mem-last [] x = Memᴰ.head refl
mem-last (y ∷ xs) x = Memᴰ.tail (mem-last xs x)

insert_version-Numbered :
    (rows rows' : List EndpointVersion) (v : EndpointVersion)
    → Numbered rows
    → insert_version rows v ≡ some rows'
    → Numbered rows' × Memᴰ v rows'
unfolding insert_version
insert_version-Numbered rows rows' v u h =
    elim (Bool-cases (any (has_number v.endpoint_id v.version) rows)) [
      | inl a ↦ absurd (cc (rw (a, insert_version) at h))
      | inr a ↦
          let h' : some (rows ++ v ∷ []) ≡ some rows' = rw (a, insert_version) at h in
          let same : rows ++ v ∷ [] ≡ rows' = ground (arith, h') in
          let absent = count_by-any (has_number v.endpoint_id v.version) rows a in
          rw (← same) (
            (λ e n.
                rw (count_by-append (has_number e n) rows v) (elim (Bool-cases (has_number e n v)) [
                  | inr q ↦ rw q (omega (arith, u e n))
                  | inl q ↦
                      let endpoint : v.endpoint_id ≡ e =
                        (eq_iff v.endpoint_id e).0 (ground (arith, q)) in
                      let number : v.version ≡ n = ground (arith, q) in
                      let free : count_by (has_number e n) rows ≡ 0 =
                        rw (← endpoint, ← number) absent in
                      rw q (omega (arith, free))
                ])),
            mem-last rows v,
          )
    ]

-- What a call leaves behind, of the versions as it read them and as other sessions left them: no number
-- twice, and a version that is newer than all that were read, or an exception, after which the versions
-- are as the others left them unless a context block was named twice.
abbrev pub Numbers :
    String
    → Bool
    → List EndpointVersion
    → List EndpointVersion
    → Result String EndpointVersion × VersionStore
    → Type 0
Numbers endpoint_id twice read rows (answer, s') =
    Numbered s'.versions
    × (((v : EndpointVersion) × (answer ≡ ok v)
          × Memᴰ v s'.versions
          × (v.endpoint_id ≡ endpoint_id)
          × ((w : EndpointVersion)
              → Memᴰ w read
              → w.endpoint_id ≡ endpoint_id
              → w.version < v.version))
        ⊎ ((e : String) × (answer ≡ err e) × ((s'.versions ≡ rows) ⊎ (twice ≡ true))))

module _ (reg : Registry) (new_id endpoint_id tenant_id : String) (a : EndpointVersionCreate)
    (s : VersionStore) where
  abbrev twice : Bool
  twice = has_twice (select (is_owned tenant_id reg.context_blocks) a.context_block_ids)

  add_contexts-Numbers :
      (rows rows' : List EndpointVersion) (v : EndpointVersion)
      → Numbered rows'
      → Memᴰ v rows'
      → v.endpoint_id ≡ endpoint_id
      → v.version ≡ latest_version endpoint_id s.versions + 1
      → Numbers endpoint_id twice s.versions rows
          (add_contexts reg tenant_id a v (record s { versions = rows' }))
  unfolding add_contexts
  add_contexts-Numbers rows rows' v u m e n = elim (Bool-cases twice) [
    | inl t ↦ rw (t, add_contexts) (u, inr ("IntegrityError", refl, inr refl))
    | inr t ↦
        rw (t, add_contexts)
          (
            u,
            inl (
              v,
              refl,
              m,
              e,
              λ w k q.
                  let older = latest_version-le endpoint_id s.versions w k q in
                  omega (arith, older, n),
            ),
          )
  ]

-- A call that makes a version, where other sessions write versions between its query and its insert and
-- keep the numbers apart: no endpoint has a number twice after it, whatever it answers; a version that it
-- answers with is stored, and newer than every one of the endpoint that it read. After an exception the
-- versions are as the others left them, unless a context block of the tenant was named twice.
pub create_endpoint_version_record-Numbers :
    (reg : Registry) (meanwhile : List EndpointVersion → List EndpointVersion)
    (new_id endpoint_id tenant_id : String) (a : EndpointVersionCreate) (s : VersionStore)
    → Numbered (meanwhile s.versions)
    → Numbers endpoint_id
        (has_twice (select (is_owned tenant_id reg.context_blocks) a.context_block_ids))
        s.versions
        (meanwhile s.versions)
        (create_endpoint_version_record reg meanwhile new_id endpoint_id tenant_id a s)
unfolding create_endpoint_version_record
create_endpoint_version_record-Numbers reg meanwhile new_id endpoint_id tenant_id a s u =
    elim (Result-cases (resolve_route reg tenant_id a)) [
      | inr (e, r) ↦ rw (r, create_endpoint_version_record) (u, inr (e, refl, inl refl))
      | inl ((provider, model), r) ↦
          elim (Result-cases (reg.validate_model_params provider model a.params_json)) [
            | inr (e, p) ↦ rw (r, p, create_endpoint_version_record) (u, inr (e, refl, inl refl))
            | inl (params, p) ↦
                let v =
                  new_version reg new_id endpoint_id tenant_id
                    (latest_version endpoint_id s.versions + 1) a provider model params in
                elim (Option-cases (insert_version (meanwhile s.versions) v)) [
                  | inl i ↦
                      rw (r, p, i, create_endpoint_version_record)
                        (u, inr ("IntegrityError", refl, inl refl))
                  | inr (rows, i) ↦
                      let (u', m) = insert_version-Numbered (meanwhile s.versions) rows v u i in
                      rw (r, p, i, create_endpoint_version_record)
                        (add_contexts-Numbers reg new_id endpoint_id tenant_id a s
                          (meanwhile s.versions) rows v u' m refl refl)
                ]
          ]
    ]
