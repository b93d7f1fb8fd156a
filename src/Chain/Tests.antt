-- ===== src/Chain/Tests.antt =====
-- The tests of src/chain.rs, and the theorems of its modules at concrete chains.
use httprove.Base.{◌≡◌, refl, some, false, true, arith}
use httprove.Base.Int.{pos, negsuc}
use httprove.Text.{contains, strip_prefix, to_ascii_uppercase, codes}
use httprove.Types.{CertInfo}
use httprove.Chain.{cn_of, scan_parts, common_name, strip_cn_prefix}
use httprove.Chain.Handshake.{decode_tls_error, classify, has_any, untrusted_or_incomplete}
use httprove.Chain.Base64.{base64_decode, kept, decode_chunks}
use httprove.Chain.Base64.RoundTrip.{encode, base64_decode-encode}

abbrev leaf : CertInfo
leaf = record {
  subject = codes "CN=example.com";
  issuer = codes "CN=Sub";
  not_after = pos 7776000;
  days_remaining = pos 90;
  serial = codes "01";
  is_ca = false;
  spki_sha256 = codes "00";
}

abbrev upper : CertInfo
upper = record {
  subject = codes "CN=Sub";
  issuer = codes "CN=Root";
  not_after = negsuc 200000;
  days_remaining = negsuc 2;
  serial = codes "02";
  is_ca = true;
  spki_sha256 = codes "00";
}

names :
    (cn_of (codes "O=Foo, CN = example.com ,C=US") ≡ codes "example.com")
    × (cn_of (codes "O=Foo") ≡ codes "O=Foo")
unfolding cn_of scan_parts common_name strip_cn_prefix httprove.Text.trim httprove.Text.trim_start
names = (refl, refl)

decodes : base64_decode (codes "aGVs bG8=") ≡ some (codes "hello")
unfolding base64_decode kept decode_chunks
decodes = refl

base64_decode-encode_example : base64_decode (encode (codes "hello")) ≡ some (codes "hello")
base64_decode-encode_example =
    base64_decode-encode (codes "hello")
      (omega arith, (omega arith, (omega arith, (omega arith, (omega arith, tt)))))

decodes_unknown_issuer :
    decode_tls_error (codes "invalid peer certificate: UnknownIssuer")
    ≡ some untrusted_or_incomplete
unfolding decode_tls_error classify has_any contains strip_prefix
decodes_unknown_issuer = refl
