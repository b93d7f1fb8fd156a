-- ===== src/Prom/Legal/Gauges.antt =====
-- The gauges of src/output/prom.rs, on the last success, on verdicts and on all targets, are legal.
use httprove.Base.Int.{ℤ}
use httprove.Base.{ℕ, List, Option, none, some, length, if◌then◌else◌, refl, arith, All}
use httprove.Text.{codes}
use httprove.Types.{Text, TlsInfo, CertInfo, HopResult, ProbeResult, final_hop, leaf_cert}
use httprove.Chain.{analyze}
use httprove.Stats.Recording.{body_sum}
use httprove.Prom.{Sample, Format, TargetMetrics, one_sample, for_targets}
use httprove.Prom.Last.{
  of_last, chain_hop, last_total, last_body, expiry_samples, cert_expiry, of_chain, chain_depth,
  chain_incomplete, weakest_expiry, tls_samples, tls_of, tls_info,
}
use httprove.Prom.Reading.{IsLine, IsLegalSample, IsLegal}
use httprove.Prom.Labels.{IsPlain-IsLine}
use httprove.Prom.Legal.{
  IsPlainFormat, every-IsName, never-IsLine, flag-IsLine, family-IsLegal, for_targets-IsLegal,
  one_sample-IsLegal, target_label-IsName,
}

module _ {W : Type 0} where
  of_last-IsLegal :
      (g : TargetMetrics W → ProbeResult W → List Sample)
      → ((t : TargetMetrics W) (last : ProbeResult W) → All IsLegalSample (g t last))
      → (t : TargetMetrics W) (last : Option (ProbeResult W)) → All IsLegalSample (of_last g t last)
  of_last-IsLegal g h t none = tt
  of_last-IsLegal g h t (some last) = h t last

  pub last_family-IsLegal :
      (g : TargetMetrics W → ProbeResult W → List Sample)
      → ((t : TargetMetrics W) (last : ProbeResult W) → All IsLegalSample (g t last))
      → (ts : List (TargetMetrics W))
      → All IsLegalSample (for_targets (λ t. of_last g t t.last_success) ts)
  last_family-IsLegal g h ts =
      for_targets-IsLegal (λ t. of_last g t t.last_success)
        (λ t. of_last-IsLegal g h t t.last_success) ts

  tls_samples-IsLegal :
      (t : TargetMetrics W) (tls : Option TlsInfo) → All IsLegalSample (tls_samples t tls)
  tls_samples-IsLegal t none = tt
  tls_samples-IsLegal t (some tls) = (
    (
      (
        target_label-IsName t,
        tt,
        (
          every-IsName (codes "version") refl,
          tt,
          (
            every-IsName (codes "cipher") refl,
            tt,
            (every-IsName (codes "kx_group") refl, tt, (every-IsName (codes "alpn") refl, tt, tt)),
          ),
        ),
      ),
      never-IsLine (codes "1") refl,
      omega arith,
    ),
    tt,
  )

  pub tls_info-IsLegal : (ts : List (TargetMetrics W)) → IsLegal (tls_info ts)
  tls_info-IsLegal ts =
      family-IsLegal (tls_info ts) (refl, refl) refl
        (last_family-IsLegal (λ t last. tls_samples t (tls_of (final_hop last)))
          (λ t last. tls_samples-IsLegal t (tls_of (final_hop last))) ts)

module _ {W : Type 0} (fmt : Format W) (plain : IsPlainFormat fmt) where
  pub number-IsLine : (n : ℕ) → IsLine (fmt.number n)
  number-IsLine n = IsPlain-IsLine (fmt.number n) (plain.0 n)

  pub signed-IsLine : (z : ℤ) → IsLine (fmt.signed z)
  signed-IsLine z = IsPlain-IsLine (fmt.signed z) (plain.1 z)

  pub float-IsLine : (w : W) → IsLine (fmt.float w)
  float-IsLine w = IsPlain-IsLine (fmt.float w) (plain.2 w)

  pub last_total-IsLegal : (ts : List (TargetMetrics W)) → IsLegal (last_total fmt ts)
  last_total-IsLegal ts =
      family-IsLegal (last_total fmt ts) (refl, refl) refl
        (last_family-IsLegal (λ t last. one_sample t (fmt.float last.total_ms))
          (λ t last. one_sample-IsLegal t _ (float-IsLine last.total_ms)) ts)

  pub last_body-IsLegal : (ts : List (TargetMetrics W)) → IsLegal (last_body fmt ts)
  last_body-IsLegal ts =
      family-IsLegal (last_body fmt ts) (refl, refl) refl
        (last_family-IsLegal (λ t last. one_sample t (fmt.number (body_sum last.hops)))
          (λ t last. one_sample-IsLegal t _ (number-IsLine (body_sum last.hops))) ts)

  expiry_samples-IsLegal :
      (t : TargetMetrics W) (cert : Option CertInfo) → All IsLegalSample (expiry_samples fmt t cert)
  expiry_samples-IsLegal t none = tt
  expiry_samples-IsLegal t (some cert) = one_sample-IsLegal t _ (signed-IsLine cert.days_remaining)

  pub cert_expiry-IsLegal : (ts : List (TargetMetrics W)) → IsLegal (cert_expiry fmt ts)
  cert_expiry-IsLegal ts =
      family-IsLegal (cert_expiry fmt ts) (refl, refl) refl
        (last_family-IsLegal (λ t last. expiry_samples fmt t (leaf_cert last))
          (λ t last. expiry_samples-IsLegal t (leaf_cert last)) ts)

  of_chain-IsLegal :
      (g : List CertInfo → Text)
      → ((chain : List CertInfo) → IsLine (g chain))
      → (t : TargetMetrics W) (hop : Option (HopResult W))
      → All IsLegalSample (of_chain fmt g t hop)
  of_chain-IsLegal g h t none = tt
  of_chain-IsLegal g h t (some hop) = one_sample-IsLegal t (g hop.cert_chain) (h hop.cert_chain)

  chain_family-IsLegal :
      (g : List CertInfo → Text)
      → ((chain : List CertInfo) → IsLine (g chain))
      → (ts : List (TargetMetrics W))
      → All IsLegalSample (
          for_targets
            (λ t. of_last (λ t last. of_chain fmt g t (chain_hop last.hops)) t t.last_success)
            ts)
  chain_family-IsLegal g h ts =
      last_family-IsLegal (λ t last. of_chain fmt g t (chain_hop last.hops))
        (λ t last. of_chain-IsLegal g h t (chain_hop last.hops)) ts

  pub chain_depth-IsLegal : (ts : List (TargetMetrics W)) → IsLegal (chain_depth fmt ts)
  chain_depth-IsLegal ts =
      family-IsLegal (chain_depth fmt ts) (refl, refl) refl
        (chain_family-IsLegal (λ chain. fmt.number (length chain))
          (λ chain. number-IsLine (length chain)) ts)

  pub chain_incomplete-IsLegal : (ts : List (TargetMetrics W)) → IsLegal (chain_incomplete fmt ts)
  chain_incomplete-IsLegal ts =
      family-IsLegal (chain_incomplete fmt ts) (refl, refl) refl
        (chain_family-IsLegal (λ chain. if (analyze chain).incomplete then codes "1" else codes "0")
          (λ chain.
            flag-IsLine (analyze chain).incomplete (codes "1") (codes "0")
              (never-IsLine (codes "1") refl) (never-IsLine (codes "0") refl))
          ts)

  pub weakest_expiry-IsLegal : (ts : List (TargetMetrics W)) → IsLegal (weakest_expiry fmt ts)
  weakest_expiry-IsLegal ts =
      family-IsLegal (weakest_expiry fmt ts) (refl, refl) refl
        (chain_family-IsLegal (λ chain. fmt.signed (analyze chain).weakest_days)
          (λ chain. signed-IsLine (analyze chain).weakest_days) ts)
