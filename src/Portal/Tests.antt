-- ===== src/Portal/Tests.antt =====
-- Runs of api/app/services/portal.py.
use flash_connector.Prelude.{String, false, some, List, [], ◌∷◌, ◌≡◌, refl, strip, text_append}
use flash_connector.Portal.{
  PortalLink, PortalLinkCreate, granted, create_portal_link, resolve_portal_token,
  revoke_portal_link, normalize_permissions, collect_permissions,
}
use flash_connector.Portal.Lifetime.{create_portal_link-resolve}

abbrev digest : String → String
digest s = text_append "h:" s

abbrev request : PortalLinkCreate
request = record {
  subtenant_code = "acme";
  expires_at = 100;
  permissions = "export_training" ∷ "export_training" ∷ [];
}

permissions_run : normalize_permissions request.permissions ≡ "view_jobs" ∷ "export_training" ∷ []
unfolding normalize_permissions collect_permissions strip
permissions_run = refl

abbrev old_links : List PortalLink
old_links = (create_portal_link digest "l1" "older" "t" request []).1

create_portal_link-resolve_example :
    let ((link, raw_token), links') =
      create_portal_link digest "l2" "drawn" "t" request old_links in
    ((resolve_portal_token digest 50 raw_token links').0
      ≡ granted (record link { last_used_at = some 50 }))
    × ((resolve_portal_token digest 50 raw_token (revoke_portal_link link.id links')).0.is_ok
        ≡ false)
unfolding create_portal_link strip
create_portal_link-resolve_example =
    create_portal_link-resolve digest "l2" "drawn" "t" request old_links 50 refl refl
