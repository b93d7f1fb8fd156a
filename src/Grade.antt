-- ===== src/Grade.antt =====
-- src/tls_grade.rs: the score of one TLS connection. Deductions are values that hold what `format!`
-- writes into their lines.
pub mod Score
mod Tests
use httprove.Base.{
  ℕ, ◌+◌, ◌-◌, ◌*◌, ◌/◌, ◌^◌, List, [], ◌∷◌, ◌++◌, reverse, Option, none, some, Bool, true, false,
  not, ◌&&◌, ◌||◌, leb, ltb, ◌==◌, if◌then◌else◌,
}
use httprove.Base.Int.{ℤ, pos, neg_part, pos_part, ltb_ℤ, ◌-ℤ◌}
use httprove.Text.{
  codes, split, trim, trim_start, same_text, to_ascii_uppercase, to_ascii_lowercase, strip_prefix,
  is_some, contains, parse_unsigned,
}
use httprove.Headers.{Headers, find_header}
use httprove.Types.{Text, TlsInfo}
use httprove.Chain.{ChainAnalysis}

abbrev pub hsts_min_max_age : ℕ
hsts_min_max_age = 180 * 24 * 60 * 60

pub data Age : Type 0 where
  years days seconds : ℕ → Age

unfoldable pub humanize_age : ℕ → Age
humanize_age secs =
    let d = secs / 86400 in
    if leb 365 d then years (d / 365) else if leb 1 d then days d else seconds secs

pub data Deduction : Type 0 where
  tls12 : Deduction
  obsolete no_forward_secrecy non_aead weak_kx : Text → Deduction
  no_hsts : Deduction
  short_hsts : Age → Deduction
  hsts_without_max_age incomplete_chain : Deduction
  chain_expired chain_expires : ℤ → Deduction

-- What a rule takes off the score, and the line that it adds.
abbrev pub Penalty : Type 0
Penalty = ℕ × List Deduction

unfoldable pub version_rule : Text → Penalty
version_rule version =
    if same_text version (codes "TLSv1.3")
    then (0, [])
    else if same_text version (codes "TLSv1.2")
    then (10, tls12 ∷ [])
    else (40, obsolete version ∷ [])

unfoldable pub has_forward_secrecy : Text → Bool
has_forward_secrecy c =
    is_some (strip_prefix (codes "TLS13") c)
    || (contains (codes "ECDHE") c || contains (codes "DHE") c)

unfoldable pub is_aead : Text → Bool
is_aead c =
    contains (codes "GCM") c
    || (contains (codes "CHACHA20") c
        || (contains (codes "POLY1305") c || contains (codes "CCM") c))

unfoldable pub secrecy_rule : Text → Penalty
unfolding has_forward_secrecy
secrecy_rule cipher =
    if not (has_forward_secrecy (to_ascii_uppercase cipher))
    then (30, no_forward_secrecy cipher ∷ [])
    else (0, [])

unfoldable pub aead_rule : Text → Penalty
unfolding is_aead
aead_rule cipher =
    if not (is_aead (to_ascii_uppercase cipher)) then (20, non_aead cipher ∷ []) else (0, [])

unfoldable pub is_strong_group : Text → Bool
is_strong_group g =
    contains (codes "X25519") g
    || (contains (codes "SECP256") g
        || (contains (codes "SECP384") g
            || (contains (codes "SECP521") g || contains (codes "MLKEM") g)))

unfoldable pub kx_rule : Option Text → Penalty
unfolding is_strong_group
kx_rule none = (0, [])
kx_rule (some g) =
    if not (is_strong_group (to_ascii_uppercase g)) then (15, weak_kx g ∷ []) else (0, [])

-- `s.trim_matches('"')`
unfoldable pub trim_quotes : Text → Text
trim_quotes [] = []
trim_quotes (c ∷ cs) = let rest = trim_quotes cs in if c == b'"' then rest else c ∷ cs

unfoldable pub max_age_of : Text → Option ℕ
unfolding trim_quotes
max_age_of rest = elim (strip_prefix (b'=' ∷ []) (trim_start rest)) [
  | none ↦ none
  | some value ↦
      parse_unsigned (2 ^ 64 - 1) (reverse (trim_quotes (reverse (trim_quotes (trim value)))))
]

-- The first directive that starts with `max-age` decides.
unfoldable pub find_max_age : List Text → Option ℕ
unfolding max_age_of
find_max_age [] = none
find_max_age (part ∷ parts) =
    elim (strip_prefix (codes "max-age") (to_ascii_lowercase (trim part))) [
      | none ↦ find_max_age parts
      | some rest ↦ max_age_of rest
    ]

unfoldable pub parse_hsts_max_age : Text → Option ℕ
unfolding find_max_age
parse_hsts_max_age value = find_max_age (split b';' value)

abbrev pub max_age_rule : Option ℕ → Penalty
max_age_rule none = (5, hsts_without_max_age ∷ [])
max_age_rule (some age) =
    if leb hsts_min_max_age age then (0, []) else (5, short_hsts (humanize_age age) ∷ [])

unfoldable pub hsts_rule : Option Text → Penalty
unfolding parse_hsts_max_age
hsts_rule none = (10, no_hsts ∷ [])
hsts_rule (some v) = max_age_rule (parse_hsts_max_age v)

unfoldable pub complete_rule : Bool → Penalty
complete_rule incomplete = if incomplete then (10, incomplete_chain ∷ []) else (0, [])

unfoldable pub expiry_rule : ℤ → Penalty
expiry_rule d =
    if ltb_ℤ d (pos 0)
    then (40, chain_expired (pos (neg_part d)) ∷ [])
    else if ltb_ℤ d (pos 14)
    then (10, chain_expires d ∷ [])
    else (0, [])

pub data Letter : Type 0 where
  letter_a letter_b letter_c letter_d letter_e letter_f : Letter

unfoldable pub letter_for : ℕ → Letter
letter_for score =
    if leb 90 score
    then letter_a
    else if leb 80 score
    then letter_b
    else if leb 70 score
    then letter_c
    else if leb 60 score
    then letter_d
    else if leb 50 score
    then letter_e
    else letter_f

-- The summary is left out.
pub record TlsGrade : Type 0 where
  pub letter : Letter
  pub score : ℕ  -- i32, at least 0
  pub deductions : List Deduction

-- The rules, in the order of the code.
unfoldable pub rules : TlsInfo → Headers → ChainAnalysis → List Penalty
unfolding version_rule secrecy_rule aead_rule kx_rule hsts_rule complete_rule expiry_rule
    find_header
rules tls headers chain =
    version_rule tls.version
    ∷ secrecy_rule tls.cipher
    ∷ aead_rule tls.cipher
    ∷ kx_rule tls.kx_group
    ∷ hsts_rule (find_header (codes "strict-transport-security") headers)
    ∷ complete_rule chain.incomplete
    ∷ expiry_rule chain.weakest_days
    ∷ []

-- `score -= points; deductions.push(line)`, rule by rule.
unfoldable pub deduct : ℤ → List Deduction → List Penalty → ℤ × List Deduction
deduct score lines [] = (score, lines)
deduct score lines ((points, line) ∷ rest) = deduct (score -ℤ pos points) (lines ++ line) rest

-- `score.max(0)` is the positive part.
unfoldable pub grade : TlsInfo → Headers → ChainAnalysis → TlsGrade
unfolding rules deduct letter_for
grade tls headers chain =
    let (score, lines) = deduct (pos 100) [] (rules tls headers chain) in
    record { letter = letter_for (pos_part score); score = pos_part score; deductions = lines }
