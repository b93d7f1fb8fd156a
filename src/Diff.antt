-- ===== src/Diff.antt =====
-- src/diff.rs: the fingerprint of a service, and the lines that tell two of them apart. How addresses,
-- numbers and dates are written is a parameter.
pub mod Sorting
pub mod Reorder
pub mod Same
mod Tests
use mathlib.Core.Option
use httprove.Base.{
  ℕ, List, [], ◌∷◌, ◌++◌, Option, none, some, Bool, true, false, not, ltb, ◌==◌, ◌||◌,
  if◌then◌else◌, map,
}
use httprove.Base.Int.{ℤ}
use httprove.Text.{codes, same_text}
use httprove.Types.{Text, TlsInfo, CertInfo, HopResult, ProbeResult, final_hop, leaf_cert}
use httprove.Headers.{Headers, find_header}
use httprove.Dns.Answers.{IpAddr}

-- `to_string` of an address and of a number, and `format("%Y-%m-%d")`.
pub record Display : Type 0 where
  pub ip : IpAddr → Text
  pub number : ℕ → Text
  pub date : ℤ → Text

pub record Fingerprint : Type 0 where
  pub resolved_ips : List Text
  pub connected_ip : Option Text
  pub http_version : Option Text
  pub status : Option ℕ  -- u16
  pub tls_version : Option Text
  pub alpn : Option Text
  pub cert_serial : Option Text
  pub cert_spki : Option Text
  pub cert_not_after : Option Text
  pub headers : Headers

abbrev pub identity_headers : List Text
identity_headers =
    codes "server"
    ∷ codes "content-type"
    ∷ codes "x-powered-by"
    ∷ codes "via"
    ∷ codes "x-served-by"
    ∷ codes "cf-ray"
    ∷ codes "x-amz-cf-id"
    ∷ codes "x-vercel-id"
    ∷ []

-- `a <= b` on texts: the order of the bytes of UTF-8 is that of the code points.
unfoldable pub text_le : Text → Text → Bool
text_le [] b = true
text_le (x ∷ xs) [] = false
text_le (x ∷ xs) (y ∷ ys) =
    let rest = text_le xs ys in if ltb x y then true else if x == y then rest else false

unfoldable pub insert_sorted : Text → List Text → List Text
unfolding text_le
insert_sorted a [] = a ∷ []
insert_sorted a (b ∷ l) =
    let rest = b ∷ insert_sorted a l in if text_le a b then a ∷ b ∷ l else rest

-- `texts.sort()`
unfoldable pub sort : List Text → List Text
unfolding insert_sorted
sort [] = []
sort (a ∷ l) = insert_sorted a (sort l)

-- The headers of the list of names that are there, in the order of the names.
unfoldable pub pick_headers : List Text → Headers → Headers
pick_headers [] headers = []
pick_headers (name ∷ names) headers =
    let rest = pick_headers names headers in
    elim (find_header name headers) [ none ↦ rest | some v ↦ (name, v) ∷ rest ]

abbrev pub empty_fingerprint : Fingerprint
empty_fingerprint = record {
  resolved_ips = [];
  connected_ip = none;
  http_version = none;
  status = none;
  tls_version = none;
  alpn = none;
  cert_serial = none;
  cert_spki = none;
  cert_not_after = none;
  headers = [];
}

abbrev pub alpn_of : Option TlsInfo → Option Text
alpn_of none = none
alpn_of (some tls) = tls.alpn

module _ {W : Type 0} where
  unfoldable pub fingerprint_of : Display → HopResult W → Option CertInfo → Fingerprint
  unfolding sort pick_headers
  fingerprint_of d hop leaf = record {
    resolved_ips = sort (map d.ip hop.resolved_ips);
    connected_ip = some (d.ip hop.ip);
    http_version = some hop.http_version;
    status = some hop.status;
    tls_version = Option.map (λ (tls : TlsInfo). tls.version) hop.tls;
    alpn = alpn_of hop.tls;
    cert_serial = Option.map (λ (c : CertInfo). c.serial) leaf;
    cert_spki = Option.map (λ (c : CertInfo). c.spki_sha256) leaf;
    cert_not_after = Option.map (λ (c : CertInfo). d.date c.not_after) leaf;
    headers = pick_headers identity_headers hop.response_headers;
  }

  abbrev pub fingerprint_at : Display → Option CertInfo → Option (HopResult W) → Fingerprint
  fingerprint_at d leaf none = empty_fingerprint
  fingerprint_at d leaf (some hop) = fingerprint_of d hop leaf

  unfoldable pub fingerprint : Display → ProbeResult W → Fingerprint
  unfolding fingerprint_of leaf_cert
  fingerprint d r = fingerprint_at d (leaf_cert r) (final_hop r)

abbrev pub same_option : Option Text → Option Text → Bool
same_option none none = true
same_option (some a) (some b) = same_text a b
same_option _ _ = false

abbrev pub text_or : Text → Option Text → Text
text_or d none = d
text_or d (some t) = t

unfoldable pub diff_opt : Text → Option Text → Option Text → Text → List Text
diff_opt label old new note =
    if same_option old new
    then []
    else (label
        ++ (codes ": "
            ++ (text_or (codes "(none)") old
                ++ (codes " -> " ++ (text_or (codes "(none)") new ++ note)))))
      ∷ []

-- `texts.contains(text)`
unfoldable pub contains_text : List Text → Text → Bool
contains_text [] t = false
contains_text (a ∷ l) t = same_text a t || contains_text l t

-- The texts of `l` that are not in `other`, with a sign in front.
unfoldable pub signed : ℕ → List Text → List Text → List Text
unfolding contains_text
signed sign other [] = []
signed sign other (t ∷ l) =
    let rest = signed sign other l in if contains_text other t then rest else (sign ∷ t) ∷ rest

-- `tokens.join(" ")`
abbrev pub join_words : List Text → Text
join_words [] = []
join_words (t ∷ []) = t
join_words (t ∷ u ∷ l) = t ++ (codes " " ++ join_words (u ∷ l))

abbrev pub tokens_line : List Text → List Text
tokens_line [] = []
tokens_line (t ∷ l) = (codes "resolved IPs: " ++ join_words (t ∷ l)) ∷ []

abbrev pub same_texts : List Text → List Text → Bool
same_texts [] [] = true
same_texts (a ∷ l) (b ∷ m) = if same_text a b then same_texts l m else false
same_texts _ _ = false

unfoldable pub diff_ips : List Text → List Text → List Text
unfolding signed
diff_ips old new =
    if same_texts old new then [] else tokens_line (signed b'+' old new ++ signed b'-' new old)

unfoldable pub diff_status : Display → Option ℕ → Option ℕ → List Text
unfolding diff_opt
diff_status d none none = []
diff_status d (some a) none = diff_opt (codes "status") (some (d.number a)) none []
diff_status d none (some b) = diff_opt (codes "status") none (some (d.number b)) []
diff_status d (some a) (some b) =
    if a == b then [] else diff_opt (codes "status") (some (d.number a)) (some (d.number b)) []

abbrev pub header_line : Text → Text → Text → Text
header_line name old new =
    codes "header[" ++ (name ++ (codes "]: " ++ (old ++ (codes " -> " ++ new))))

abbrev pub diff_header : Text → Option Text → Option Text → List Text
diff_header name none none = []
diff_header name (some o) none = header_line name o (codes "(removed)") ∷ []
diff_header name none (some n) = header_line name (codes "(added)") n ∷ []
diff_header name (some o) (some n) = if same_text o n then [] else header_line name o n ∷ []

unfoldable pub diff_header_lines : List Text → Headers → Headers → List Text
diff_header_lines [] old new = []
diff_header_lines (name ∷ names) old new =
    diff_header name (find_header name old) (find_header name new)
    ++ diff_header_lines names old new

unfoldable pub diff_fingerprints : Display → Fingerprint → Fingerprint → List Text
unfolding diff_ips diff_opt diff_status diff_header_lines
diff_fingerprints d old new =
    diff_ips old.resolved_ips new.resolved_ips
    ++ (diff_opt (codes "connected_ip") old.connected_ip new.connected_ip []
        ++ (diff_opt (codes "http_version") old.http_version new.http_version []
            ++ (diff_status d old.status new.status
                ++ (diff_opt (codes "tls_version") old.tls_version new.tls_version []
                    ++ (diff_opt (codes "alpn") old.alpn new.alpn []
                        ++ (diff_opt (codes "cert_serial") old.cert_serial new.cert_serial
                              (codes "  (certificate rotated)")
                            ++ (diff_opt (codes "cert_spki") old.cert_spki new.cert_spki
                                  (codes "  (key pinning changed)")
                                ++ (diff_opt (codes "cert_not_after") old.cert_not_after
                                      new.cert_not_after []
                                    ++ diff_header_lines identity_headers old.headers
                                        new.headers))))))))
