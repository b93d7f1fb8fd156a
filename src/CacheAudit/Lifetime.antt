-- ===== src/CacheAudit/Lifetime.antt =====
-- The lifetime that src/cache_audit.rs reads in `Cache-Control`, said apart from the code.
use mathlib.Core.Option.{some-injective}
use httprove.Base.{
  ℕ, ◌^◌, ◌-◌, List, [], ◌∷◌, ◌++◌, Option, none, some, true, ◌==◌, ◌≡◌, ◌↔◌, ◌⊎◌, inl, inr, refl,
  sym, ap, ◌∙◌, arith, All, Bool-cases,
}
use httprove.Base.Options.{◌>>=◌}
use httprove.Text.{
  codes, split, trim, trim_start, is_whitespace, to_ascii_lowercase, strip_prefix, parse_unsigned,
}
use httprove.Types.{Text, or_else}
use httprove.CacheAudit.{directive_value, find_directive, parse_max_age}

-- The directive is the key, any white space, an equals sign and the value.
abbrev pub HasValue : Text → Text → Text → Type 0
HasValue key part v =
    (gap : Text) × All (λ c. is_whitespace c ≡ true) gap × (part ≡ key ++ (gap ++ (b'=' ∷ v)))

-- The number of the first directive that has a value for the key, or none.
abbrev pub Reads : Text → List Text → Option ℕ → Type 0
Reads key [] o = o ≡ none
Reads key (part ∷ parts) o =
    ((v : Text) × HasValue key (to_ascii_lowercase (trim part)) v
      × (o ≡ parse_unsigned (2 ^ 64 - 1) (trim v)))
    ⊎ (((v : Text) → ¬ (HasValue key (to_ascii_lowercase (trim part)) v)) × Reads key parts o)

-- The number of `s-maxage`, or else that of `max-age`.
abbrev pub IsLifetime : Text → Option ℕ → Type 0
IsLifetime cc o =
    ((n : ℕ) × Reads (codes "s-maxage") (split b',' cc) (some n) × (o ≡ some n))
    ⊎ (Reads (codes "s-maxage") (split b',' cc) none × Reads (codes "max-age") (split b',' cc) o)

strip_prefix-eq : (k s r : Text) → (strip_prefix k s ≡ some r) ↔ (s ≡ k ++ r)
unfolding strip_prefix
strip_prefix-eq [] s r = (λ h. some-injective s r h, λ h. ap some h)
strip_prefix-eq (p ∷ ps) [] r = (λ h. cc, λ h. cc)
strip_prefix-eq (p ∷ ps) (c ∷ cs) r =
    let rest = strip_prefix-eq ps cs r in
    elim (Bool-cases (p == c)) [
      | inl e ↦
          let same : p ≡ c = ground (arith, e) in
          rw e (λ h. (let t = rest.0 h in cc), λ h. rest.1 (let t = h in cc))
      | inr e ↦ rw e (λ h. cc, λ h. absurd (let same : c ≡ p = cc in ground (arith, e, same)))
    ]

trim_start-gap :
    (s : Text) → (gap : Text) × All (λ c. is_whitespace c ≡ true) gap × (s ≡ gap ++ trim_start s)
unfolding trim_start
trim_start-gap [] = ([], tt, refl)
trim_start-gap (c ∷ cs) = elim (Bool-cases (is_whitespace c)) [
  | inl e ↦
      let (gap, white, rest) = trim_start-gap cs in (c ∷ gap, (e, white), rw e (ap (◌∷◌ c) rest))
  | inr e ↦ ([], tt, rw e refl)
]

trim_start-append :
    (gap v : Text)
    → All (λ c. is_whitespace c ≡ true) gap
    → trim_start (gap ++ (b'=' ∷ v)) ≡ b'=' ∷ v
unfolding trim_start
trim_start-append [] v h = refl
trim_start-append (c ∷ gap) v (h, hs) = rw h (trim_start-append gap v hs)

-- What stands behind the key.
behind_key :
    (rest v : Text)
    → strip_prefix (b'=' ∷ []) (trim_start rest) ≡ some v
    → (gap : Text) × All (λ c. is_whitespace c ≡ true) gap × (rest ≡ gap ++ (b'=' ∷ v))
behind_key rest v h =
    let (gap, white, e) = trim_start-gap rest in
    let sign = (strip_prefix-eq (b'=' ∷ []) (trim_start rest) v).0 h in
    (gap, white, e ∙ ap (λ t. gap ++ t) sign)

directive_value-HasValue :
    (key part v : Text) → (directive_value key part ≡ some v) ↔ HasValue key part v
unfolding directive_value
directive_value-HasValue key part v = (
  λ h. read (strip_prefix key part) refl h,
  λ (gap, white, e).
      let keyed = (strip_prefix-eq key part (gap ++ (b'=' ∷ v))).1 e in
      rw keyed (
        ap (strip_prefix (b'=' ∷ [])) (trim_start-append gap v white)
        ∙ (strip_prefix-eq (b'=' ∷ []) (b'=' ∷ v) v).1 refl),
)
  where
    read :
        (o : Option Text)
        → strip_prefix key part ≡ o
        → (o >>= λ rest. strip_prefix (b'=' ∷ []) (trim_start rest)) ≡ some v
        → HasValue key part v
    read none e h = absurd (let t = h in cc)
    read (some rest) e h =
        let (gap, white, k) = behind_key rest v h in
        (gap, white, (strip_prefix-eq key part rest).0 e ∙ ap (λ t. key ++ t) k)

-- Whether a directive has a value, and what is read then.
find_directive-Reads :
    (key : Text) (parts : List Text) (o : Option ℕ)
    → Reads key parts o ↔ (find_directive key parts ≡ o)
unfolding find_directive
find_directive-Reads key [] o = (λ h. sym h, λ h. sym h)
find_directive-Reads key (part ∷ parts) o =
    by_value (directive_value key (to_ascii_lowercase (trim part)))
      (directive_value-HasValue key (to_ascii_lowercase (trim part)))
      (find_directive-Reads key parts o)
  where
    by_value :
        (d : Option Text)
        → ((v : Text) → (d ≡ some v) ↔ HasValue key (to_ascii_lowercase (trim part)) v)
        → Reads key parts o ↔ (find_directive key parts ≡ o)
        → Reads key (part ∷ parts) o ↔ (
            ◌≡◌ {A = Option ℕ}
              (elim d [
                | none ↦ find_directive key parts
                | some value ↦ parse_unsigned (2 ^ 64 - 1) (trim value)
              ])
              o)
    by_value none h later = (
      λ r. elim r [ inl (v, k, e) ↦ absurd (let q = (h v).1 k in cc) | inr (n, k) ↦ later.0 k ],
      λ e. inr (λ v k. absurd (let q = (h v).1 k in cc), later.1 e),
    )
    by_value (some w) h later = (
      λ r. elim r [
        | inl (v, k, e) ↦
            let same : w ≡ v = some-injective w v ((h v).1 k) in
            ap (λ t. parse_unsigned (2 ^ 64 - 1) (trim t)) same ∙ sym e
        | inr (n, k) ↦ absurd (n w ((h w).0 refl))
      ],
      λ e. inl (w, (h w).0 refl, sym e),
    )

pub parse_max_age-IsLifetime : (cc : Text) (o : Option ℕ) → IsLifetime cc o ↔ (parse_max_age cc ≡ o)
unfolding parse_max_age
parse_max_age-IsLifetime cc_text o =
    by_shared (find_directive (codes "s-maxage") (split b',' cc_text))
      (λ p. find_directive-Reads (codes "s-maxage") (split b',' cc_text) p)
      (find_directive-Reads (codes "max-age") (split b',' cc_text) o)
  where
    by_shared :
        (shared : Option ℕ)
        → ((p : Option ℕ) → Reads (codes "s-maxage") (split b',' cc_text) p ↔ (shared ≡ p))
        → Reads (codes "max-age") (split b',' cc_text) o
          ↔ (find_directive (codes "max-age") (split b',' cc_text) ≡ o)
        → IsLifetime cc_text o
          ↔ (or_else shared (find_directive (codes "max-age") (split b',' cc_text)) ≡ o)
    by_shared none h k = (
      λ l. elim l [ inl (n, r, e) ↦ absurd (let q = (h (some n)).0 r in cc) | inr (r, m) ↦ k.0 m ],
      λ e. inr ((h none).1 refl, k.1 e),
    )
    by_shared (some n) h k = (
      λ l. elim l [
        | inl (m, r, e) ↦ (h (some m)).0 r ∙ sym e
        | inr (r, m) ↦ absurd (let q = (h none).0 r in cc)
      ],
      λ e. inl (n, (h (some n)).1 refl, sym e),
    )
