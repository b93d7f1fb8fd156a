-- ===== src/Ipinfo.antt =====
-- src/ipinfo.rs: whose infrastructure an address is. The answers of the DNS servers, the white space
-- of a record and the decimal numbers of `format!` are parameters.
pub mod Names
mod Tests
use mathlib.Core.Option
use httprove.Base.{
  ℕ, ◌-◌, ◌/◌, ◌%◌, ◌^◌, List, [], ◌∷◌, ◌++◌, Option, none, some, Bool, true, false, ◌||◌,
  if◌then◌else◌, get_or, get_elem?, map, reverse,
}
use httprove.Text.{
  codes, trim, split, is_empty, contains, parse_unsigned, split_whitespace, to_ascii_lowercase,
  is_some,
}
use httprove.Types.{Text}
use httprove.Dns.Answers.{IpAddr, v4, v6}
use httprove.Hash.{hex_digit}

pub data InfraKind : Type 0 where
  cdn cloud origin unknown : InfraKind

abbrev pub label : InfraKind → Text
label cdn = codes "CDN"
label cloud = codes "cloud/LB"
label origin = codes "origin"
label unknown = codes "?"

pub record IpInfo : Type 0 where
  pub asn : Option ℕ  -- u32
  pub org : Option Text
  pub country : Option Text
  pub prefix : Option Text
  pub ptr : Option Text

-- The octets of an IPv6 address, the last first, each as its lower and its upper half.
abbrev pub nibbles_of : List ℕ → Text
nibbles_of [] = []
nibbles_of (b ∷ octets) = hex_digit (b % 16) ∷ b'.' ∷ hex_digit (b / 16) ∷ b'.' ∷ nibbles_of octets

abbrev pub nibbles_reversed : List ℕ → Text
nibbles_reversed octets = nibbles_of (reverse octets)

abbrev pub dotted : (ℕ → Text) → List ℕ → Text → Text
dotted number o end =
    number (get_or o 3 0)
    ++ (codes "."
        ++ (number (get_or o 2 0)
            ++ (codes "."
                ++ (number (get_or o 1 0) ++ (codes "." ++ (number (get_or o 0 0) ++ end))))))

unfoldable pub cymru_name : (ℕ → Text) → IpAddr → Text
cymru_name number (v4 octets) = dotted number octets (codes ".origin.asn.cymru.com")
cymru_name number (v6 octets) = nibbles_reversed octets ++ codes "origin6.asn.cymru.com"

unfoldable pub reverse_arpa : (ℕ → Text) → IpAddr → Text
reverse_arpa number (v4 octets) = dotted number octets (codes ".in-addr.arpa")
reverse_arpa number (v6 octets) = nibbles_reversed octets ++ codes "ip6.arpa"

abbrev pub first_text : List Text → Option Text
first_text [] = none
first_text (t ∷ texts) = some t

abbrev pub last_text : Text → List Text → Text
last_text t [] = t
last_text t (u ∷ texts) = last_text u texts

abbrev pub unless_empty : Option Text → Option Text
unless_empty none = none
unless_empty (some t) = if is_empty t then none else some t

abbrev pub number_of : Option Text → Option ℕ
number_of none = none
number_of (some t) = parse_unsigned (2 ^ 32 - 1) t

-- The number in the first field of an answer.
unfoldable pub asn_of : List Text → Option ℕ
unfolding split_whitespace parse_unsigned
asn_of [] = none
asn_of (field ∷ fields) = number_of (first_text (split_whitespace field))

-- The first answer for the address, or none where there is none.
unfoldable pub with_origin : Option Text → IpInfo → IpInfo
unfolding split trim asn_of
with_origin none info = info
with_origin (some text) info =
    let fields = map trim (split b'|' text) in
    record info {
      asn = asn_of fields;
      prefix = unless_empty (get_elem? fields 1);
      country = unless_empty (get_elem? fields 2);
    }

unfoldable pub org_of : Text → Option Text
unfolding split trim
org_of text = unless_empty (some (trim (last_text [] (split b'|' text))))

abbrev pub or_before : Option Text → Option Text → Option Text
or_before none before = before
or_before (some org) before = some org

abbrev pub with_org : Option Text → IpInfo → IpInfo
with_org none info = info
with_org (some text) info = record info { org = or_before (org_of text) info.org }

abbrev pub blank : IpInfo
blank = record { asn = none; org = none; country = none; prefix = none; ptr = none }

-- `query_ptr` and `query_txt`, where an error is no answer.
module _ (number : ℕ → Text) (query_ptr : Text → Option Text) (query_txt : Text → List Text) where
  abbrev pub ask_org : Option ℕ → Option Text
  ask_org none = none
  ask_org (some asn) = first_text (query_txt (codes "AS" ++ (number asn ++ codes ".asn.cymru.com")))

  unfoldable pub lookup : IpAddr → IpInfo
  unfolding reverse_arpa cymru_name with_origin org_of
  lookup ip =
      let info =
        with_origin (first_text (query_txt (cymru_name number ip)))
          (record blank { ptr = query_ptr (reverse_arpa number ip) }) in
      with_org (ask_org info.asn) info

abbrev pub cdn_names : List Text
cdn_names =
    codes "cloudflare"
    ∷ codes "akamai"
    ∷ codes "fastly"
    ∷ codes "cloudfront"
    ∷ codes "edgecast"
    ∷ codes "stackpath"
    ∷ codes "bunny"
    ∷ codes "cdn77"
    ∷ codes "limelight"
    ∷ codes "incapsula"
    ∷ codes "imperva"
    ∷ []

abbrev pub cloud_names : List Text
cloud_names =
    codes "amazon"
    ∷ codes "aws"
    ∷ codes "google"
    ∷ codes "gcp"
    ∷ codes "azure"
    ∷ codes "microsoft"
    ∷ codes "digitalocean"
    ∷ codes "linode"
    ∷ codes "vultr"
    ∷ codes "oracle"
    ∷ codes "alibaba"
    ∷ codes "hetzner"
    ∷ codes "ovh"
    ∷ []

abbrev pub or_empty : Option Text → Text
or_empty none = []
or_empty (some t) = t

unfoldable pub names_any : List Text → Text → Bool
unfolding contains
names_any [] hay = false
names_any (k ∷ names) hay = contains k hay || names_any names hay

abbrev pub haystack : IpInfo → Option Text → Text
haystack info server =
    to_ascii_lowercase
      (or_empty info.org ++ (codes " " ++ (or_empty info.ptr ++ (codes " " ++ or_empty server))))

unfoldable pub classify : IpInfo → Option Text → InfraKind
unfolding names_any
classify info server =
    let hay = haystack info server in
    if names_any cdn_names hay
    then cdn
    else if names_any cloud_names hay
    then cloud
    else if is_some info.org
    then origin
    else unknown
