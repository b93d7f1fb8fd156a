-- ===== src/Chain/Handshake.antt =====
-- `decode_tls_error` of src/chain.rs. The messages that it returns are values of `Cause`.
use httprove.Base.{
  ℕ, List, [], ◌∷◌, Option, none, some, Bool, false, ◌||◌, if◌then◌else◌, ◌≡◌, refl, ap, ◌∙◌, arith,
}
use Prim.Native.String.{String}
use httprove.Text.{codes, contains, lower, upper, to_ascii_lowercase, to_ascii_uppercase}
use httprove.Types.{Text}

pub data Cause : Type 0 where
  expired wrong_name revoked self_signed untrusted untrusted_or_incomplete needs_sni : Cause
  version_refused : Cause

-- `has("…")` for one of several needles.
unfoldable pub has_any : Text → List String → Bool
has_any m [] = false
has_any m (needle ∷ needles) = contains (codes needle) m || has_any m needles

-- The rules, in the order of the code.
unfoldable pub classify : Text → Option Cause
unfolding has_any
classify m =
    if has_any m ("certexpired" ∷ "expired" ∷ "not valid after" ∷ [])
    then some expired
    else if has_any m ("notvalidforname" ∷ "not valid for name" ∷ "name mismatch" ∷ "hostname" ∷ [])
    then some wrong_name
    else if has_any m ("revoked" ∷ "revocation" ∷ [])
    then some revoked
    else if has_any m ("self signed" ∷ "self-signed" ∷ "selfsigned" ∷ [])
    then some self_signed
    else if has_any m ("unknownca" ∷ "unknown ca" ∷ "untrusted" ∷ "unable to get local issuer" ∷ [])
    then some untrusted
    else if has_any m ("unknownissuer" ∷ "unknown issuer" ∷ "incomplete" ∷ [])
    then some untrusted_or_incomplete
    else if has_any m ("no server name" ∷ "missing_extension" ∷ "sni" ∷ [])
    then some needs_sni
    else if has_any m (
        "protocol version" ∷ "protocolversion" ∷ "protocol_version" ∷ "legacy" ∷ "tls1"
        ∷ "handshakefailure" ∷ "handshake failure" ∷ "handshake_failure" ∷ [])
    then some version_refused
    else none

unfoldable pub decode_tls_error : Text → Option Cause
unfolding classify
decode_tls_error message = classify (to_ascii_lowercase message)

lower-upper : (c : ℕ) → lower (upper c) ≡ lower c
lower-upper c = ground arith

lowercase-uppercase : (m : Text) → to_ascii_lowercase (to_ascii_uppercase m) ≡ to_ascii_lowercase m
lowercase-uppercase [] = refl
lowercase-uppercase (c ∷ cs) =
    ap (λ x. x ∷ to_ascii_lowercase (to_ascii_uppercase cs)) (lower-upper c)
    ∙ ap (λ x. lower c ∷ x) (lowercase-uppercase cs)

-- The cause does not hang on the case of the message's letters: all in capitals, it has the same.
pub decode_tls_error-to_ascii_uppercase :
    (message : Text) → decode_tls_error (to_ascii_uppercase message) ≡ decode_tls_error message
unfolding decode_tls_error
decode_tls_error-to_ascii_uppercase message = ap classify (lowercase-uppercase message)
