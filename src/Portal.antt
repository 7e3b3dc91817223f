-- ===== src/Portal.antt =====
-- api/app/services/portal.py: the links through which a sub-tenant sees its jobs, and the tokens of links
-- in api/app/core/security.py. The digest and the random text of a token are parameters.
pub mod Lifetime
mod Tests
use Prim.Native.String.{String}
use flash_connector.Prelude.{
  ℕ, zero, suc, Bool, true, false, ◌&&◌, not, Option, none, some, List, [], ◌∷◌, ◌++◌, map, ◌==◌,
  if◌then◌else◌, leb, find, select, any, is_empty, is_nil, strip, text_append,
}

pub record PortalLink : Type 0 where
  pub id : String
  pub tenant_id : String
  pub subtenant_code : String
  pub token_prefix : String
  pub token_hash : String
  pub permissions : List String
  pub expires_at : ℕ
  pub is_revoked : Bool
  pub last_used_at : Option ℕ

pub record PortalLinkCreate : Type 0 where
  pub subtenant_code : String
  pub expires_at : ℕ
  pub permissions : List String

pub record PortalAccessResult : Type 0 where
  pub is_ok : Bool
  pub reason : String
  pub link : Option PortalLink

abbrev pub all_permissions : List String
all_permissions = "view_jobs" ∷ "add_feedback" ∷ "edit_ideal_output" ∷ "export_training" ∷ []

abbrev pub listed : String → List String → Bool
listed x = any (λ y. y == x)

-- The loop of `_normalize_permissions`.
unfoldable pub collect_permissions : List String → List String → List String
collect_permissions seen [] = []
collect_permissions seen (value ∷ rest) =
    let cleaned = strip value in
    let skipped = collect_permissions seen rest in
    let kept = cleaned ∷ collect_permissions (cleaned ∷ seen) rest in
    if not (listed cleaned all_permissions)
    then skipped
    else if listed cleaned seen
    then skipped
    else kept

unfoldable pub normalize_permissions : List String → List String
unfolding collect_permissions
normalize_permissions values =
    let ordered = collect_permissions [] values in
    if listed "view_jobs" ordered then ordered else "view_jobs" ∷ ordered

-- `s[:n]`
unfoldable pub first_chars : ℕ → String → String
first_chars zero s = ""
first_chars (suc n) String.[] = ""
first_chars (suc n) (String.◌∷◌ c s) = String.◌∷◌ c (first_chars n s)

-- The token, with the text that is drawn.
abbrev pub raw_token_of : String → String
raw_token_of drawn = text_append "pl_" drawn

abbrev pub refused : String → PortalAccessResult
refused reason = record { is_ok = false; reason = reason; link = none }

abbrev pub granted : PortalLink → PortalAccessResult
granted link = record { is_ok = true; reason = "ok"; link = some link }

-- The row is known by its id.
abbrev pub update_link : (PortalLink → PortalLink) → String → List PortalLink → List PortalLink
update_link f id = map (λ l. if l.id == id then f l else l)

module _ (hmac : String → String) where
  abbrev pub verify_portal_token : String → String → Bool
  verify_portal_token raw_token token_hash = hmac raw_token == token_hash

  abbrev pub new_link : String → String → String → PortalLinkCreate → PortalLink
  new_link id drawn tenant_id payload = record {
    id = id;
    tenant_id = tenant_id;
    subtenant_code = strip payload.subtenant_code;
    token_prefix = first_chars 16 (raw_token_of drawn);
    token_hash = hmac (raw_token_of drawn);
    permissions = normalize_permissions payload.permissions;
    expires_at = payload.expires_at;
    is_revoked = false;
    last_used_at = none;
  }

  unfoldable pub create_portal_link :
      String
      → String
      → String
      → PortalLinkCreate
      → List PortalLink
      → (PortalLink × String) × List PortalLink
  create_portal_link id drawn tenant_id payload links =
      let link = new_link id drawn tenant_id payload in
      ((link, raw_token_of drawn), links ++ link ∷ [])

  abbrev pub is_candidate : String → PortalLink → Bool
  is_candidate prefix l = (l.token_prefix == prefix) && not l.is_revoked

  -- The part after the prefix of the token has been taken.
  unfoldable pub resolve_prefix :
      ℕ → String → String → List PortalLink → PortalAccessResult × List PortalLink
  resolve_prefix now raw_token prefix links =
      let candidates = select (is_candidate prefix) links in
      if is_empty prefix
      then (refused "Missing token.", links)
      else if is_nil candidates
      then (refused "Portal link not found.", links)
      else elim (find (λ l. verify_portal_token raw_token l.token_hash) candidates) [
        | none ↦ (refused "Portal link is invalid.", links)
        | some l ↦ if leb l.expires_at now then (refused "Portal link has expired.", links) else (
          granted (record l { last_used_at = some now }),
          update_link (λ r. record r { last_used_at = some now }) l.id links,
        )
      ]

  unfoldable pub resolve_portal_token :
      ℕ → String → List PortalLink → PortalAccessResult × List PortalLink
  unfolding resolve_prefix
  resolve_portal_token now raw_token links =
      resolve_prefix now raw_token (first_chars 16 (strip raw_token)) links

unfoldable pub revoke_portal_link : String → List PortalLink → List PortalLink
revoke_portal_link id = update_link (λ l. record l { is_revoked = true }) id
