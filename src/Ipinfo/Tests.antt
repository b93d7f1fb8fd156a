-- ===== src/Ipinfo/Tests.antt =====
-- The tests of src/ipinfo.rs, and the name that is asked for one address.
use httprove.Base.{
  ℕ, ◌+◌, ◌/◌, ◌%◌, ◌<◌, ◌≡◌, refl, arith, List, [], ◌∷◌, ◌++◌, Option, none, some, Bool, true,
  false, ok, ◌==◌,
}
use httprove.Text.{
  codes, split, push_head, trim, trim_start, contains, strip_prefix, split_whitespace,
  parse_unsigned, parse_digits, same_text,
}
use httprove.Types.{Text}
use httprove.Dns.Answers.{IpAddr, v4}
use httprove.Dns.Wire.{dot, encode_qname}
use httprove.Dns.Grammar.{name_of, name_wire}
use httprove.Ipinfo.{
  blank, cdn, cloud, classify, names_any, lookup, reverse_arpa, cymru_name, with_origin, asn_of,
  org_of,
}
use httprove.Ipinfo.Names.{IsLabel, arpa_labels, encode_qname-reverse_arpa}

-- Three digits.
abbrev digits : ℕ → Text
digits n = (48 + n / 100 % 10) ∷ (48 + n / 10 % 10) ∷ (48 + n % 10) ∷ []

abbrev server : IpAddr
server = v4 (8 ∷ 8 ∷ 4 ∷ 100 ∷ [])

abbrev no_ptr : Text → Option Text
no_ptr name = none

abbrev answer : Bool → List Text
answer true = codes "15169 | 8.8.4.0/24 | US | arin | 2023-12-28" ∷ []
answer false = codes "15169 | US | arin | 2000-03-30 | GOOGLE - Google LLC, US" ∷ []

abbrev answers : Text → List Text
answers name = answer (same_text name (codes "100.004.008.008.origin.asn.cymru.com"))

digit_is_no_dot : (n : ℕ) → (48 + n == dot) ≡ false
digit_is_no_dot n = ground arith

digits_fit : (n : ℕ) → n < 256 → IsLabel (digits n)
digits_fit n h = (
  (digit_is_no_dot (n / 100 % 10), (digit_is_no_dot (n / 10 % 10), (digit_is_no_dot (n % 10), tt))),
  omega arith,
  omega arith,
)

whole_lookup : lookup digits no_ptr answers server ≡ record {
  asn = some 15169;
  org = some (codes "GOOGLE - Google LLC, US");
  country = some (codes "US");
  prefix = some (codes "8.8.4.0/24");
  ptr = none;
}
unfolding lookup reverse_arpa cymru_name with_origin asn_of org_of split push_head trim trim_start
    split_whitespace parse_unsigned parse_digits same_text
whole_lookup = refl

kinds_told : classify (record blank { org = some (codes "AKAMAI-AS") }) none ≡ cdn
unfolding classify names_any contains strip_prefix
kinds_told = refl

server_header_read : classify blank (some (codes "Google Frontend")) ≡ cloud
unfolding classify names_any contains strip_prefix
server_header_read = refl

encode_qname-reverse_arpa_example :
    encode_qname [] (reverse_arpa digits server)
    ≡ ok ([] ++ name_wire (name_of (arpa_labels digits server)))
encode_qname-reverse_arpa_example =
    encode_qname-reverse_arpa digits digits_fit [] server
      (omega arith, (omega arith, (omega arith, (omega arith, tt))))
