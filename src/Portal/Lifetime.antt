-- ===== src/Portal/Lifetime.antt =====
-- How long a portal link serves.
use Prim.Native.String.append
use flash_connector.Prelude.{
  ℕ, String, Bool, true, false, ◌&&◌, none, some, List, [], ◌∷◌, ◌++◌, ◌≡◌, refl, sym, subst, ◌∙◌,
  ap, arith, inl, inr, ◌==◌, eq_refl, if◌then◌else◌, leb, find, select, any, is_empty, is_nil,
  strip, Bool-cases,
}
use flash_connector.Portal.{
  PortalLink, PortalLinkCreate, PortalAccessResult, refused, granted, raw_token_of, first_chars,
  new_link, create_portal_link, resolve_portal_token, resolve_prefix, revoke_portal_link,
  is_candidate, verify_portal_token,
}

module _ {A : Type 0} where
  find-select-append :
      (p q : A → Bool) (xs : List A) (x : A)
      → any p xs ≡ false
      → find p (select q (xs ++ x ∷ [])) ≡ (if q x && p x then some x else none)
  find-select-append p q [] x h = ground arith
  find-select-append p q (y ∷ xs) x h = ground (arith, h, find-select-append p q xs x)

  is_nil-select-append :
      (q : A → Bool) (xs : List A) (x : A) → q x ≡ true → is_nil (select q (xs ++ x ∷ [])) ≡ false
  is_nil-select-append q [] x h = rw h refl
  is_nil-select-append q (y ∷ xs) x h = ground (arith, is_nil-select-append q xs x h)

-- No link that serves has the digest of the token.
abbrev pub Unused : (String → String) → String → List PortalLink → Type 0
Unused hmac raw_token links =
    any (λ l. verify_portal_token hmac raw_token l.token_hash) links ≡ false

module _ (hmac : String → String) (id drawn tenant_id : String) (payload : PortalLinkCreate) where
  abbrev raw : String
  raw = raw_token_of drawn

  abbrev link : PortalLink
  link = new_link hmac id drawn tenant_id payload

  abbrev verifies : PortalLink → Bool
  verifies l = verify_portal_token hmac raw l.token_hash

  find-revoked :
      (prefix : String) (links : List PortalLink)
      → Unused hmac raw links
      → find verifies
          (select (is_candidate hmac prefix) (revoke_portal_link id (links ++ link ∷ [])))
        ≡ none
  unfolding revoke_portal_link
  find-revoked prefix [] h = rw (eq_refl id) (ground arith)
  find-revoked prefix (y ∷ ys) h =
      let rest = find-revoked prefix ys (ground (arith, h)) in
      elim (Bool-cases (y.id == id)) [
        | inl e ↦ rw e (ground (arith, h, rest))
        | inr e ↦ rw e (ground (arith, h, rest))
      ]

  abbrev prefix : String
  prefix = first_chars 16 raw

  abbrev answer : ℕ → List PortalLink → PortalAccessResult
  answer now links = (resolve_portal_token hmac now raw links).0

  resolve_stripped :
      (now : ℕ) (links : List PortalLink)
      → strip raw ≡ raw
      → answer now links ≡ (resolve_prefix hmac now raw prefix links).0
  unfolding resolve_portal_token
  resolve_stripped now links s =
      ap (λ t. (resolve_prefix hmac now raw (first_chars 16 t) links).0) s

  prefix_nonempty : is_empty prefix ≡ false
  unfolding first_chars
  prefix_nonempty =
      subst (λ t. is_empty (first_chars 16 t) ≡ false) (sym (append.cons "p" "l_" drawn)) refl

  resolve-revoked :
      (now : ℕ) (links : List PortalLink)
      → strip raw ≡ raw
      → Unused hmac raw links
      → (answer now (revoke_portal_link id (links ++ link ∷ []))).is_ok ≡ false
  unfolding resolve_prefix
  resolve-revoked now links s h =
      let gone = find-revoked prefix links h in
      let left = revoke_portal_link id (links ++ link ∷ []) in
      rw (resolve_stripped now left s)
        (elim (Bool-cases (is_nil (select (is_candidate hmac prefix) left))) [
          | inl e ↦ rw (resolve_prefix, prefix_nonempty, e) refl
          | inr e ↦ rw (resolve_prefix, prefix_nonempty, e, gone) refl
        ])

  resolve-fresh :
      (now : ℕ) (links : List PortalLink)
      → strip raw ≡ raw
      → Unused hmac raw links
      → answer now (links ++ link ∷ []) ≡ (
          if leb payload.expires_at now
          then refused "Portal link has expired."
          else granted (record link { last_used_at = some now }))
  unfolding resolve_prefix
  resolve-fresh now links s h =
      let candidate : is_candidate hmac prefix link ≡ true = rw (eq_refl prefix) refl in
      let own : verifies link ≡ true = eq_refl (hmac raw) in
      let chosen : find verifies (select (is_candidate hmac prefix) (links ++ link ∷ []))
          ≡ some link =
        find-select-append verifies (is_candidate hmac prefix) links link h
        ∙ rw (candidate, own) refl in
      let some_candidate = is_nil-select-append (is_candidate hmac prefix) links link candidate in
      rw (resolve_stripped now (links ++ link ∷ []) s)
        (elim (Bool-cases (leb payload.expires_at now)) [
          | inl e ↦ rw (resolve_prefix, prefix_nonempty, some_candidate, chosen, e) refl
          | inr e ↦ rw (resolve_prefix, prefix_nonempty, some_candidate, chosen, e) refl
        ])

-- What becomes of a link, in a table where no link has the digest of its token: a token without outer
-- space is granted the link before it expires, and is told so from then on; where the link has been
-- revoked, the token is refused.
pub create_portal_link-resolve :
    (hmac : String → String) (id drawn tenant_id : String) (payload : PortalLinkCreate)
    (links : List PortalLink) (now : ℕ)
    → strip (raw_token_of drawn) ≡ raw_token_of drawn
    → Unused hmac (raw_token_of drawn) links
    → let ((link, raw_token), links') = create_portal_link hmac id drawn tenant_id payload links in
      ((resolve_portal_token hmac now raw_token links').0 ≡ (
        if leb payload.expires_at now
        then refused "Portal link has expired."
        else granted (record link { last_used_at = some now })))
      × ((resolve_portal_token hmac now raw_token (revoke_portal_link link.id links')).0.is_ok
          ≡ false)
unfolding create_portal_link
create_portal_link-resolve hmac id drawn tenant_id payload links now s h = (
  resolve-fresh hmac id drawn tenant_id payload now links s h,
  resolve-revoked hmac id drawn tenant_id payload now links s h,
)
