-- ===== src/Grade/Tests.antt =====
-- The tests of src/tls_grade.rs, and the theorem on the score at one connection.
use httprove.Base.{◌-◌, ◌≤◌, ◌≡◌, ◌↔◌, refl, [], ◌∷◌, none, some, false}
use httprove.Base.Int.{pos}
use httprove.Text.{
  codes, split, trim, trim_start, strip_prefix, same_text, contains, parse_unsigned,
}
use httprove.Types.{TlsInfo}
use httprove.Chain.{ChainAnalysis}
use httprove.Headers.{find_header}
use httprove.Grade.{
  Headers, letter_a, grade, rules, deduct, letter_for, version_rule, secrecy_rule,
  has_forward_secrecy, aead_rule, is_aead, kx_rule, is_strong_group, hsts_rule, parse_hsts_max_age,
  find_max_age, max_age_of, trim_quotes, complete_rule, expiry_rule,
}
use httprove.Grade.Score.{total, grade-stated}

abbrev modern : TlsInfo
modern = record {
  version = codes "TLSv1.2";
  cipher = codes "TLS_ECDHE_RSA_WITH_AES_128_GCM_SHA256";
  alpn = none;
  kx_group = some (codes "x25519");
}

abbrev chain : ChainAnalysis
chain = record {
  incomplete = false;
  aia_repairable = none;
  weakest_days = pos 90;
  weakest_subject = [];
  issues = [];
}

abbrev headers : Headers
headers =
    (codes "Strict-Transport-Security", codes "includeSubDomains; Max-Age = \"31536000\"") ∷ []

max_age : parse_hsts_max_age (codes "preload; max-age=60") ≡ some 60
unfolding parse_hsts_max_age find_max_age max_age_of trim_quotes split trim trim_start strip_prefix
    parse_unsigned
max_age = refl

grade_of_modern : (grade modern headers chain).score ≡ 90
unfolding grade rules deduct letter_for version_rule secrecy_rule has_forward_secrecy aead_rule
    is_aead kx_rule is_strong_group hsts_rule find_header parse_hsts_max_age find_max_age max_age_of
    trim_quotes complete_rule expiry_rule split trim trim_start strip_prefix same_text contains
    parse_unsigned
grade_of_modern = refl

grade-stated_example :
    ((grade modern headers chain).score ≡ 100 - total (grade modern headers chain).deductions)
    × (((grade modern headers chain).letter ≡ letter_a)
        ↔ (total (grade modern headers chain).deductions ≤ 10))
grade-stated_example = grade-stated modern headers chain
