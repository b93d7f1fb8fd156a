-- ===== src/Prom/Last.antt =====
-- The metrics of src/output/prom.rs that come from the last probe of a target that succeeded.
use httprove.Base.{List, [], ◌∷◌, Option, none, some, ◌&&◌, if◌then◌else◌, length}
use httprove.Text.{codes, same_text, is_empty}
use httprove.Types.{Text, TlsInfo, CertInfo, HopResult, ProbeResult, final_hop, leaf_cert, or_else}
use httprove.Types.Number.{Float}
use httprove.Chain.{analyze}
use httprove.Diff.{text_le}
use httprove.Output.{parse_server_timing}
use httprove.Stats.Recording.{body_sum}
use httprove.Prom.{
  escaped, Sample, Family, gauge, Format, TargetMetrics, target_label, for_targets, one_sample,
}

abbrev pub or_blank : Option Text → Text
or_blank none = []
or_blank (some t) = t

module _ {W : Type 0} where
  -- What a gauge says of the last success, if there is one.
  abbrev pub of_last :
      (TargetMetrics W → ProbeResult W → List Sample)
      → TargetMetrics W
      → Option (ProbeResult W)
      → List Sample
  of_last g t none = []
  of_last g t (some last) = g t last

  abbrev pub last_family :
      Text
      → Text
      → (TargetMetrics W → ProbeResult W → List Sample)
      → List (TargetMetrics W)
      → Family
  last_family name help g ts = record {
    name = name;
    help = help;
    kind = gauge;
    samples = for_targets (λ t. of_last g t t.last_success) ts;
  }

  -- The last hop that has certificates.
  unfoldable pub chain_hop : List (HopResult W) → Option (HopResult W)
  chain_hop [] = none
  chain_hop (h ∷ hops) = or_else (chain_hop hops) (if is_empty h.cert_chain then none else some h)

module _ {W : Type 0} (fmt : Format W) where
  abbrev pub last_total : List (TargetMetrics W) → Family
  last_total =
      last_family (codes "httprove_last_total_milliseconds")
        (codes "Total time of the last successful probe in milliseconds.")
        (λ t last. one_sample t (fmt.float last.total_ms))

  abbrev pub last_body : List (TargetMetrics W) → Family
  last_body =
      last_family (codes "httprove_last_body_bytes")
        (codes "Body bytes of the last successful probe (sum over all hops).")
        (λ t last. one_sample t (fmt.number (body_sum last.hops)))

  abbrev pub expiry_samples : TargetMetrics W → Option CertInfo → List Sample
  expiry_samples t none = []
  expiry_samples t (some cert) = one_sample t (fmt.signed cert.days_remaining)

  abbrev pub cert_expiry : List (TargetMetrics W) → Family
  cert_expiry =
      last_family (codes "httprove_cert_expiry_days")
        (codes "Days until the last observed leaf certificate expires.")
        (λ t last. expiry_samples t (leaf_cert last))

  abbrev pub of_chain :
      (List CertInfo → Text) → TargetMetrics W → Option (HopResult W) → List Sample
  of_chain g t none = []
  of_chain g t (some hop) = one_sample t (g hop.cert_chain)

  abbrev pub chain_family : Text → Text → (List CertInfo → Text) → List (TargetMetrics W) → Family
  chain_family name help g = last_family name help (λ t last. of_chain g t (chain_hop last.hops))

  abbrev pub chain_depth : List (TargetMetrics W) → Family
  chain_depth =
      chain_family (codes "httprove_cert_chain_depth")
        (codes "Number of certificates in the last observed TLS chain (server-sent, leaf first).")
        (λ chain. fmt.number (length chain))

  abbrev pub chain_incomplete : List (TargetMetrics W) → Family
  chain_incomplete =
      chain_family (codes "httprove_cert_chain_incomplete")
        (codes
          "1 if the last observed chain is missing intermediate certificate(s) (server sent leaf only), else 0.")
        (λ chain. if (analyze chain).incomplete then codes "1" else codes "0")

  abbrev pub weakest_expiry : List (TargetMetrics W) → Family
  weakest_expiry =
      chain_family (codes "httprove_cert_weakest_expiry_days")
        (codes
          "Days until the soonest-expiring certificate in the whole chain expires (weakest link; negative if expired).")
        (λ chain. fmt.signed (analyze chain).weakest_days)

module _ {W : Type 0} where
  abbrev pub tls_samples : TargetMetrics W → Option TlsInfo → List Sample
  tls_samples t none = []
  tls_samples t (some tls) =
      record {
        labels =
            target_label t
            ∷ (codes "version", escaped tls.version)
            ∷ (codes "cipher", escaped tls.cipher)
            ∷ (codes "kx_group", escaped (or_blank tls.kx_group))
            ∷ (codes "alpn", escaped (or_blank tls.alpn))
            ∷ [];
        value = codes "1";
      }
      ∷ []

  abbrev pub tls_of : Option (HopResult W) → Option TlsInfo
  tls_of none = none
  tls_of (some hop) = hop.tls

  abbrev pub tls_info : List (TargetMetrics W) → Family
  tls_info =
      last_family (codes "httprove_tls_info")
        (codes "Negotiated TLS parameters of the last successful probe (value is always 1).")
        (λ t last. tls_samples t (tls_of (final_hop last)))

module _ {W : Type 0} where
  -- `BTreeMap::insert`: the names in order, and of one name the last duration.
  unfoldable pub insert_timing : Text → W → List (Text × W) → List (Text × W)
  unfolding same_text text_le
  insert_timing name ms [] = (name, ms) ∷ []
  insert_timing name ms ((n, m) ∷ l) =
      let rest = (n, m) ∷ insert_timing name ms l in
      if same_text name n
      then (name, ms) ∷ l
      else if text_le name n
      then (name, ms) ∷ (n, m) ∷ l
      else rest

module _ {W : Type 0} ⦃f : Float W⦄ where
  -- Durations that are missing, not finite or negative are left out.
  abbrev pub put_timing : Text → Option W → List (Text × W) → List (Text × W)
  put_timing name none l = l
  put_timing name (some ms) l =
      if f.is_finite ms && f.ge ms f.nought then insert_timing name ms l else l

  unfoldable pub timings_of : List (Text × W) → List (Text × Option W) → List (Text × W)
  unfolding insert_timing
  timings_of l [] = l
  timings_of l ((name, dur) ∷ rest) = timings_of (put_timing name dur l) rest

module _ {W : Type 0} ⦃f : Float W⦄ (fmt : Format W) (parse_f64 : Text → Option W) where
  abbrev pub timing_samples : TargetMetrics W → List (Text × W) → List Sample
  timing_samples t [] = []
  timing_samples t ((metric, ms) ∷ rest) =
      record {
        labels = target_label t ∷ (codes "metric", escaped metric) ∷ [];
        value = fmt.float ms;
      }
      ∷ timing_samples t rest

  abbrev pub of_headers : TargetMetrics W → Option (HopResult W) → List Sample
  of_headers t none = []
  of_headers t (some hop) =
      timing_samples t (timings_of [] (parse_server_timing parse_f64 hop.response_headers))

  abbrev pub server_timing : List (TargetMetrics W) → Family
  server_timing =
      last_family (codes "httprove_server_timing_milliseconds")
        (codes
          "Server-Timing durations reported by the server on the last successful probe, in milliseconds.")
        (λ t last. of_headers t (final_hop last))
