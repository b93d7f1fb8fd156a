-- ===== src/CacheAudit/Tests.antt =====
-- The tests of src/cache_audit.rs, and its theorems at one response.
use httprove.Base.{◌≡◌, ◌↔◌, refl, [], ◌∷◌, some}
use httprove.Text.{
  codes, split, trim, trim_start, strip_prefix, same_text, contains, parse_unsigned, parse_digits,
  push_head,
}
use httprove.Headers.{Headers, find_header}
use httprove.CacheAudit.{
  audit, audit_with, find_issues, parse_max_age, find_directive, directive_value, detect_cdn,
  cf_status, hit, set_cookie,
}
use httprove.CacheAudit.Issues.{IsCacheable, audit-issues_nil_iff}

abbrev cloudflare : Headers
cloudflare =
    (codes "CF-Cache-Status", codes "HIT")
    ∷ (codes "CF-Ray", codes "8abc-ICN")
    ∷ (codes "Age", codes "12")
    ∷ (codes "Cache-Control", codes "public, max-age=300")
    ∷ []

abbrev shouting : Headers
shouting =
    (codes "CF-CACHE-STATUS", codes "HIT")
    ∷ (codes "cf-ray", codes "8abc-ICN")
    ∷ (codes "AGE", codes "12")
    ∷ (codes "cache-control", codes "public, max-age=300")
    ∷ []

abbrev cookie : Headers
cookie =
    (codes "Set-Cookie", codes "s=1")
    ∷ (codes "Cache-Control", codes "max-age=0, s-maxage = 9")
    ∷ []

found_cloudflare :
    ((audit cloudflare).status ≡ hit)
    × ((audit cloudflare).cdn ≡ some (codes "Cloudflare"))
    × ((audit cloudflare).edge ≡ some (codes "ICN"))
    × ((audit cloudflare).age ≡ some 12)
    × ((audit cloudflare).max_age ≡ some 300)
unfolding audit audit_with find_header detect_cdn cf_status parse_max_age find_directive
    directive_value split push_head trim trim_start strip_prefix same_text contains parse_unsigned
    parse_digits
found_cloudflare = (refl, refl, refl, refl, refl)

found_cookie : ((audit cookie).max_age ≡ some 9) × ((audit cookie).issues ≡ set_cookie ∷ [])
unfolding audit audit_with find_header find_issues parse_max_age find_directive directive_value
    split push_head trim trim_start strip_prefix same_text contains parse_unsigned parse_digits
found_cookie = (refl, refl)

audit-issues_nil_iff_example : ((audit cloudflare).issues ≡ []) ↔ IsCacheable cloudflare
audit-issues_nil_iff_example = audit-issues_nil_iff cloudflare
