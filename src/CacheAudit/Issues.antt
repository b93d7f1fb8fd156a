-- ===== src/CacheAudit/Issues.antt =====
-- When the audit of src/cache_audit.rs finds nothing to say.
use mathlib.Core.Option.{some-injective}
use httprove.Base.{
  ◌⊎◌, ◌∷◌, ℕ, List, [], ◌++◌, Option, none, some, Bool, true, false, not, ◌&&◌, ◌≡◌, ◌≢◌, ◌↔◌,
  refl, ap, sym, subst, arith, Bool-cases, inl, inr,
}
use httprove.Base.Options.{◌>>=◌}
use httprove.Text.{same_text, codes, trim, to_ascii_lowercase, contains, is_some}
use httprove.Text.Equal.{same_text-eq}
use httprove.Types.{Text}
use httprove.Headers.{Headers, find_header}
use httprove.CacheAudit.Lifetime.{IsLifetime, parse_max_age-IsLifetime}
use httprove.CacheAudit.{
  audit, audit_with, find_issues, parse_max_age, set_cookie, vary_star, zero_max_age, push_if,
  store_issues, is_zero, is_star, Issue, private,
}

-- `Cache-Control` lets a shared cache keep the response for a while.
pub record IsStorable (cc : Text) : Type 0 where
  pub stored : contains (codes "no-store") (to_ascii_lowercase cc) ≡ false
  pub shared : contains (codes "private") (to_ascii_lowercase cc) ≡ false
  pub kept : ¬ (IsLifetime cc (some 0))

-- What three headers say, of which each may be absent.
record Allows (cache_control cookie vary : Option Text) : Type 0 where
  policy : Text
  found : cache_control ≡ some policy
  storable : IsStorable policy
  no_cookie : cookie ≡ none
  varies_little : (v : Text) → vary ≡ some v → trim v ≢ codes "*"

-- The value of the first header of this name, in whatever case, or none.
abbrev pub IsFirst : Text → Headers → Option Text → Type 0
IsFirst name [] o = o ≡ none
IsFirst name ((k, v) ∷ rest) o =
    ((to_ascii_lowercase k ≡ to_ascii_lowercase name) × (o ≡ some v))
    ⊎ ((to_ascii_lowercase k ≢ to_ascii_lowercase name) × IsFirst name rest o)

-- Nothing in the first header of each of three names speaks against a shared cache.
pub record IsCacheable (headers : Headers) : Type 0 where
  pub policy : Text
  pub found : IsFirst (codes "cache-control") headers (some policy)
  pub storable : IsStorable policy
  pub no_cookie : IsFirst (codes "set-cookie") headers none
  pub varies_little : (v : Text) → IsFirst (codes "vary") headers (some v) → trim v ≢ codes "*"

find_header-IsFirst :
    (name : Text) (headers : Headers) (o : Option Text)
    → (find_header name headers ≡ o) ↔ IsFirst name headers o
unfolding find_header
find_header-IsFirst name [] o = (λ h. sym h, λ h. sym h)
find_header-IsFirst name ((k, v) ∷ rest) o =
    let later = find_header-IsFirst name rest o in
    let same = same_text-eq (to_ascii_lowercase k) (to_ascii_lowercase name) in
    elim (Bool-cases (same_text (to_ascii_lowercase k) (to_ascii_lowercase name))) [
      | inl e ↦ rw e (
        λ h. inl (same.0 e, sym h),
        λ h. elim h [ inl (n, q) ↦ sym q | inr (n, q) ↦ absurd (n (same.0 e)) ],
      )
      | inr e ↦ rw e (
        λ h. inr (λ n. absurd (let t = same.1 n in cc), later.0 h),
        λ h. elim h [ inl (n, q) ↦ absurd (let t = same.1 n in cc) | inr (n, q) ↦ later.1 q ],
      )
    ]

push_if-nil :
    (test : Bool) (issue : Issue) (rest : List Issue)
    → ((push_if test issue ++ rest) ≡ []) ↔ ((test ≡ false) × (rest ≡ []))
push_if-nil true issue rest = (λ h. cc, λ h. cc)
push_if-nil false issue rest = (λ h. (refl, h), λ h. h.1)

is_star-false :
    (o : Option Text) → (is_star o ≡ false) ↔ ((v : Text) → o ≡ some v → trim v ≢ codes "*")
is_star-false none = (λ h v e. cc, λ h. refl)
is_star-false (some w) = (
  λ h v e. ground (arith, same_text-eq (trim w) (codes "*")),
  λ h. ground (arith, same_text-eq (trim w) (codes "*"), h w refl),
)

push_if-last : (test : Bool) (issue : Issue) → (push_if test issue ≡ []) ↔ (test ≡ false)
push_if-last true issue = (λ h. cc, λ h. cc)
push_if-last false issue = (λ h. refl, λ h. refl)

store_issues-nil :
    (cc : Text) (rest : List Issue)
    → ((store_issues cc ++ rest) ≡ []) ↔ (
        (contains (codes "no-store") cc ≡ false)
        × (contains (codes "private") cc ≡ false)
        × (rest ≡ []))
store_issues-nil cc rest = elim (Bool-cases (contains (codes "no-store") cc)) [
  | inl e ↦ ground (arith, e)
  | inr e ↦ ground (arith, e, push_if-nil (contains (codes "private") cc) private rest)
]

is_zero-false : (o : Option ℕ) → (is_zero o ≡ false) ↔ (o ≢ some 0)
is_zero-false none = (λ h e. cc, λ h. refl)
is_zero-false (some n) = ground arith

is_some-false : (o : Option Text) → (is_some o ≡ false) ↔ (o ≡ none)
is_some-false none = (λ h. refl, λ h. refl)
is_some-false (some n) = (λ h. cc, λ h. cc)

and_not-false : (a : Bool) {b : Bool} → b ≡ false → (a && not b) ≡ false → a ≡ false
and_not-false a e h = ground (arith, e, h)

find_issues-nil :
    (policy : Text) (cookie vary : Option Text)
    → (find_issues (some policy) (parse_max_age policy) cookie vary ≡ [])
      ↔ (IsStorable policy × (cookie ≡ none) × (is_star vary ≡ false))
unfolding find_issues
find_issues-nil policy cookie vary =
    let busts = is_some cookie && not (contains (codes "no-store") (to_ascii_lowercase policy)) in
    let starred = push_if (is_star vary) vary_star in
    let cookies = push_if busts set_cookie ++ starred in
    let storing =
      store_issues-nil (to_ascii_lowercase policy)
        (push_if (is_zero (parse_max_age policy)) zero_max_age ++ cookies) in
    let aging = push_if-nil (is_zero (parse_max_age policy)) zero_max_age cookies in
    let busting = push_if-nil busts set_cookie starred in
    let varying = push_if-last (is_star vary) vary_star in
    let positive = is_zero-false (parse_max_age policy) in
    let absent = is_some-false cookie in
    let lifetime = parse_max_age-IsLifetime policy (some 0) in
    (
      λ h.
          let (stored, shared, h1) = storing.0 h in
          let (aged, h2) = aging.0 h1 in
          let (quiet, h3) = busting.0 h2 in
          (
            record { stored = stored; shared = shared; kept = λ l. positive.0 aged (lifetime.0 l) },
            absent.0 (and_not-false (is_some cookie) stored quiet),
            varying.0 h3,
          ),
      λ (s, no_cookie, plain). storing.1 (
        s.stored,
        s.shared,
        aging.1 (
          positive.1 (λ e. s.kept (lifetime.1 e)),
          busting.1 (
            ap (λ b. b && not (contains (codes "no-store") (to_ascii_lowercase policy)))
                (absent.1 no_cookie),
            varying.1 plain,
          ),
        ),
      ),
    )

find_issues-Allows :
    (cache_control cookie vary : Option Text)
    → (find_issues cache_control (cache_control >>= parse_max_age) cookie vary ≡ [])
      ↔ Allows cache_control cookie vary
find_issues-Allows none cookie vary =
    (λ h. absurd (unfold find_issues in cc), λ c. absurd (let e = c.found in cc))
find_issues-Allows (some policy) cookie vary =
    let quiet = find_issues-nil policy cookie vary in
    let plain = is_star-false vary in
    (
      λ h.
          let (storable, no_cookie, e) = quiet.0 h in
          record {
            policy = policy;
            found = refl;
            storable = storable;
            no_cookie = no_cookie;
            varies_little = plain.0 e;
          },
      λ c. quiet.1 (
        subst IsStorable (sym (some-injective policy c.policy c.found)) c.storable,
        c.no_cookie,
        plain.1 c.varies_little,
      ),
    )

-- The audit has no issue exactly if there is a `Cache-Control` header, the first of which holds
-- neither `no-store` nor `private` and gives no lifetime of 0, the lifetime being the number of its
-- first `s-maxage` directive, or else of its first `max-age` directive, with a value; there is no
-- `Set-Cookie` header; and the first `Vary` header, if there is one, is not `*`.
pub audit-issues_nil_iff : (headers : Headers) → ((audit headers).issues ≡ []) ↔ IsCacheable headers
unfolding audit audit_with
audit-issues_nil_iff headers =
    let quiet =
      find_issues-Allows (find_header (codes "cache-control") headers)
        (find_header (codes "set-cookie") headers) (find_header (codes "vary") headers) in
    let first = λ (name : Text) (o : Option Text). find_header-IsFirst name headers o in
    (
      λ h.
          let a = quiet.0 h in
          record {
            policy = a.policy;
            found = (first (codes "cache-control") (some a.policy)).0 a.found;
            storable = a.storable;
            no_cookie = (first (codes "set-cookie") none).0 a.no_cookie;
            varies_little = λ v f. a.varies_little v ((first (codes "vary") (some v)).1 f);
          },
      λ c. quiet.1 (record {
        policy = c.policy;
        found = (first (codes "cache-control") (some c.policy)).1 c.found;
        storable = c.storable;
        no_cookie = (first (codes "set-cookie") none).1 c.no_cookie;
        varies_little = λ v f. c.varies_little v ((first (codes "vary") (some v)).0 f);
      }),
    )
