-- ===== src/Diff/Tests.antt =====
-- The tests of src/diff.rs, and its theorems at one probe.
use httprove.Base.{◌≡◌, ◌↔◌, refl, [], ◌∷◌, none, some}
use httprove.Text.{codes, same_text}
use httprove.Types.{Text}
use httprove.Headers.{find_header}
use httprove.Dns.Answers.{IpAddr, v4, v6}
use httprove.Diff.{
  Display, Fingerprint, diff_fingerprints, diff_ips, diff_opt, diff_status, diff_header_lines,
  signed, contains_text,
}
use httprove.Diff.Same.{IsSame, diff_fingerprints-IsSame}

abbrev shown_ip : IpAddr → Text
shown_ip (v4 bytes) = bytes
shown_ip (v6 bytes) = bytes

abbrev plain : Display
plain = record { ip = shown_ip; number = λ n. n ∷ []; date = λ d. codes "2026-01-01" }

abbrev before : Fingerprint
before = record {
  resolved_ips = codes "192.0.2.1" ∷ [];
  connected_ip = some (codes "192.0.2.1");
  http_version = some (codes "HTTP/2");
  status = some b'A';
  tls_version = none;
  alpn = none;
  cert_serial = some (codes "AA");
  cert_spki = none;
  cert_not_after = none;
  headers = (codes "server", codes "nginx") ∷ [];
}

abbrev after : Fingerprint
after = record before {
  resolved_ips = codes "192.0.2.2" ∷ codes "192.0.2.1" ∷ [];
  status = some b'B';
  cert_serial = some (codes "BB");
  headers = (codes "Server", codes "cloudflare") ∷ [];
}

diff_of_both :
    diff_fingerprints plain before after
    ≡ codes "resolved IPs: +192.0.2.2"
      ∷ codes "status: A -> B"
      ∷ codes "cert_serial: AA -> BB  (certificate rotated)"
      ∷ codes "header[server]: nginx -> cloudflare"
      ∷ []
unfolding diff_fingerprints diff_ips diff_opt diff_status diff_header_lines signed contains_text
    find_header same_text
diff_of_both = refl

diff_fingerprints-IsSame_example : (diff_fingerprints plain before after ≡ []) ↔ IsSame before after
diff_fingerprints-IsSame_example = diff_fingerprints-IsSame plain before after (λ m n e. cc)

abbrev one : IpAddr
one = v4 (192 ∷ 0 ∷ 2 ∷ 1 ∷ [])

abbrev two : IpAddr
two = v4 (192 ∷ 0 ∷ 2 ∷ 2 ∷ [])
