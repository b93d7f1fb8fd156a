-- ===== src/CacheAudit.antt =====
-- src/cache_audit.rs: what the headers of a response say about caches. The issues are values, and the
-- summary holds what `format!` writes into it.
pub mod Lifetime
pub mod Issues
pub mod Names
mod Tests
use mathlib.Core.Option
use httprove.Base.{
  ℕ, ◌^◌, ◌-◌, List, [], ◌∷◌, ◌++◌, Option, none, some, Bool, true, false, not, ◌&&◌, ◌||◌, ◌==◌,
  if◌then◌else◌,
}
use httprove.Base.Options.{◌>>=◌}
use httprove.Text.{
  codes, split, trim, trim_start, same_text, to_ascii_uppercase, to_ascii_lowercase, strip_prefix,
  is_some, contains, parse_unsigned,
}
use httprove.Types.{Text, or_else, last}
use httprove.Headers.{Headers, find_header}

pub data CacheStatus : Type 0 where
  hit miss dynamic unknown : CacheStatus

pub data Issue : Type 0 where
  no_cache_control no_store private zero_max_age set_cookie vary_star : Issue

pub record Summary : Type 0 where
  pub label : Text
  pub source : Text
  pub seconds : Option ℕ
  pub most_seconds : Option ℕ

pub record CacheAudit : Type 0 where
  pub status : CacheStatus
  pub cdn : Option Text
  pub edge : Option Text
  pub age : Option ℕ  -- u64
  pub max_age : Option ℕ  -- u64
  pub summary : Summary
  pub issues : List Issue

-- The closure `get`: the value of the first header of that name.
abbrev pub Getter : Type 0
Getter = Text → Option Text

-- What stands behind `key` and `=` in a directive.
unfoldable pub directive_value : Text → Text → Option Text
directive_value key part =
    strip_prefix key part >>= λ rest. strip_prefix (b'=' ∷ []) (trim_start rest)

-- The first directive that has a value for `key` decides, also when it is no number.
unfoldable pub find_directive : Text → List Text → Option ℕ
find_directive key [] = none
find_directive key (part ∷ parts) = elim (directive_value key (to_ascii_lowercase (trim part))) [
  | none ↦ find_directive key parts
  | some value ↦ parse_unsigned (2 ^ 64 - 1) (trim value)
]

unfoldable pub parse_max_age : Text → Option ℕ
parse_max_age cc =
    or_else (find_directive (codes "s-maxage") (split b',' cc))
      (find_directive (codes "max-age") (split b',' cc))

unfoldable pub detect_via : Text → Option Text
detect_via via =
    if contains (codes "varnish") via
    then some (codes "Varnish")
    else if contains (codes "cloudfront") via
    then some (codes "CloudFront")
    else if contains (codes "fastly") via
    then some (codes "Fastly")
    else none

-- `if let Some(v) = header && test(v.to_ascii_lowercase())`
abbrev pub holds_lower : (Text → Bool) → Option Text → Bool
holds_lower test none = false
holds_lower test (some v) = test (to_ascii_lowercase v)

unfoldable pub detect_cdn : Getter → Option Text
detect_cdn get =
    if is_some (get (codes "cf-ray")) || is_some (get (codes "cf-cache-status"))
    then some (codes "Cloudflare")
    else if is_some (get (codes "x-amz-cf-id"))
    then some (codes "CloudFront")
    else if holds_lower (contains (codes "cache")) (get (codes "x-served-by"))
    then some (codes "Fastly")
    else or_else (get (codes "via") >>= λ via. detect_via (to_ascii_lowercase via))
        (if is_some (get (codes "x-cache")) then some (codes "CDN (generic)") else none)

unfoldable pub cf_status : Text → CacheStatus
cf_status cf =
    let name = to_ascii_uppercase (trim cf) in
    if same_text name (codes "HIT")
    then hit
    else if same_text name (codes "MISS")
        || (same_text name (codes "EXPIRED")
            || (same_text name (codes "REVALIDATED")
                || (same_text name (codes "UPDATING") || same_text name (codes "STALE"))))
    then miss
    else if same_text name (codes "DYNAMIC")
    then dynamic
    else unknown

unfoldable pub x_cache_status : Text → CacheStatus
x_cache_status xc =
    if contains (codes "HIT") (to_ascii_uppercase xc)
    then hit
    else if contains (codes "MISS") (to_ascii_uppercase xc)
    then miss
    else unknown

-- `CF-Cache-Status` goes before `X-Cache`.
abbrev pub cache_status : Option Text → Option Text → CacheStatus
cache_status (some cf) xc = cf_status cf
cache_status none (some xc) = x_cache_status xc
cache_status none none = unknown

-- `r.rsplit('-').next()`
abbrev pub ray_suffix : Text → Option Text
ray_suffix ray = or_else (last (split b'-' ray)) (some ray)

abbrev pub find_edge : Getter → Option Text
find_edge get =
    or_else (get (codes "x-amz-cf-pop"))
      (or_else (get (codes "x-served-by")) (get (codes "cf-ray") >>= ray_suffix))

-- `if test { issues.push(issue) }`
abbrev pub push_if : Bool → Issue → List Issue
push_if test issue = if test then issue ∷ [] else []

abbrev pub text_or_empty : Option Text → Text
text_or_empty none = []
text_or_empty (some v) = v

abbrev pub is_zero : Option ℕ → Bool
is_zero none = false
is_zero (some age) = age == 0

abbrev pub is_star : Option Text → Bool
is_star none = false
is_star (some v) = same_text (trim v) (b'*' ∷ [])

-- The directives that keep a response out of shared caches.
abbrev pub store_issues : Text → List Issue
store_issues cc =
    if contains (codes "no-store") cc
    then no_store ∷ []
    else push_if (contains (codes "private") cc) private

unfoldable pub find_issues : Option Text → Option ℕ → Option Text → Option Text → List Issue
find_issues cache_control max_age cookie vary =
    let cc_lower = to_ascii_lowercase (text_or_empty cache_control) in
    push_if (not (is_some cache_control)) no_cache_control
    ++ (store_issues cc_lower
        ++ (push_if (is_zero max_age) zero_max_age
            ++ (push_if (is_some cookie && not (contains (codes "no-store") cc_lower)) set_cookie
                ++ push_if (is_star vary) vary_star)))

abbrev pub status_label : CacheStatus → Text
status_label hit = codes "HIT"
status_label miss = codes "MISS"
status_label dynamic = codes "DYNAMIC"
status_label unknown = codes "unknown"

unfoldable pub audit_with : Getter → CacheAudit
unfolding find_issues detect_cdn parse_max_age
audit_with get =
    let age = get (codes "age") >>= λ v. parse_unsigned (2 ^ 64 - 1) (trim v) in
    let max_age = get (codes "cache-control") >>= parse_max_age in
    let status = cache_status (get (codes "cf-cache-status")) (get (codes "x-cache")) in
    let cdn = detect_cdn get in
    record {
      status = status;
      cdn = cdn;
      edge = find_edge get;
      age = age;
      max_age = max_age;
      summary = record {
        label = status_label status;
        source = elim cdn [ none ↦ codes "no CDN detected" | some name ↦ name ];
        seconds = age;
        most_seconds = max_age;
      };
      issues =
          find_issues (get (codes "cache-control")) max_age (get (codes "set-cookie"))
            (get (codes "vary"));
    }

unfoldable pub audit : Headers → CacheAudit
unfolding audit_with
audit headers = audit_with (λ name. find_header name headers)
