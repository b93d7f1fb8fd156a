-- ===== src/Prom/Render.antt =====
-- `render` and `render_exporter` of src/output/prom.rs: all the metrics in their order.
use httprove.Base.{List, [], ◌∷◌, ◌++◌, ℕ, Bool, true, false, Option}
use httprove.Base.Int.{pos}
use httprove.Text.{codes}
use httprove.Types.{Text}
use httprove.Types.Number.{Float}
use httprove.Prom.{Family, Sample, escaped, counter, gauge, Format, TargetMetrics, push_section}
use httprove.Prom.Traffic.{
  probes, failures, expect_failures, phases, throughput, apdex_satisfied, apdex_tolerating,
  statuses, hops_total, reused, reuse_ratio, versions,
}
use httprove.Prom.Last.{
  last_total, last_body, cert_expiry, chain_depth, chain_incomplete, weakest_expiry, tls_info,
  server_timing,
}
use httprove.Prom.Health.{
  dns_changed, dns_count, verdicts, fleet, target_up, targets_total, targets_down, slos, scalar,
}

pub record ExporterMetrics (W : Type 0) : Type 0 where
  pub up : Bool
  pub start_time_seconds : W
  pub metrics_requests_total : ℕ  -- u64
  pub configured_targets : ℕ
  pub probe_interval_seconds : W
  pub probe_timeout_seconds : W
  pub config_generation : ℕ  -- u64
  pub config_reload_supported : Bool
  pub last_attempts : List (Text × W)
  pub last_successes : List (Text × W)

-- `u8::from`
abbrev pub number_of_bool : Bool → ℕ
number_of_bool true = 1
number_of_bool false = 0

abbrev pub sections : List Family → Text
sections [] = []
sections (f ∷ fs) = push_section f ++ sections fs

module _ {W : Type 0} ⦃f : Float W⦄ (fmt : Format W) where
  module _ (parse_f64 : Text → Option W) where
    abbrev pub families : List (TargetMetrics W) → List Family
    families ts =
        probes fmt ts
        ∷ failures fmt ts
        ∷ expect_failures fmt ts
        ∷ phases fmt ts
        ∷ throughput fmt ts
        ∷ apdex_satisfied fmt ts
        ∷ apdex_tolerating fmt ts
        ∷ statuses fmt ts
        ∷ hops_total fmt ts
        ∷ reused fmt ts
        ∷ reuse_ratio fmt ts
        ∷ versions fmt ts
        ∷ last_total fmt ts
        ∷ last_body fmt ts
        ∷ cert_expiry fmt ts
        ∷ chain_depth fmt ts
        ∷ chain_incomplete fmt ts
        ∷ weakest_expiry fmt ts
        ∷ tls_info ts
        ∷ server_timing fmt parse_f64 ts
        ∷ dns_changed fmt ts
        ∷ dns_count fmt ts
        ∷ verdicts ts
        ∷ fleet fmt ts
        ∷ target_up ts
        ∷ targets_total fmt ts
        ∷ targets_down fmt ts
        ∷ slos fmt ts
        ∷ []

    unfoldable pub render : List (TargetMetrics W) → Text
    unfolding push_section
    render ts = sections (families ts)

  abbrev pub time_samples : List (Text × W) → List Sample
  time_samples [] = []
  time_samples ((target, value) ∷ rest) =
      record { labels = (codes "target", escaped target) ∷ []; value = fmt.float value }
      ∷ time_samples rest

  abbrev pub whole : ℕ → Text
  whole n = fmt.float (f.of_int (pos n))

  abbrev pub exporter_families : ExporterMetrics W → List Family
  exporter_families e =
      scalar (codes "httprove_exporter_up")
        (codes "Whether the exporter is serving metrics (1=yes).") (whole (number_of_bool e.up))
      ∷ scalar (codes "httprove_exporter_start_time_seconds")
          (codes "Unix timestamp when the exporter started.") (fmt.float e.start_time_seconds)
      ∷ scalar (codes "httprove_exporter_configured_targets")
          (codes "Number of configured probe targets.") (whole e.configured_targets)
      ∷ scalar (codes "httprove_exporter_probe_interval_seconds")
          (codes "Configured probe interval in seconds.") (fmt.float e.probe_interval_seconds)
      ∷ scalar (codes "httprove_exporter_probe_timeout_seconds")
          (codes "Configured probe timeout in seconds.") (fmt.float e.probe_timeout_seconds)
      ∷ scalar (codes "httprove_exporter_config_generation")
          (codes "Static exporter configuration generation.") (whole e.config_generation)
      ∷ scalar (codes "httprove_exporter_config_reload_supported")
          (codes "Whether runtime configuration reload is supported.")
          (whole (number_of_bool e.config_reload_supported))
      ∷ record {
        name = codes "httprove_exporter_metrics_requests_total";
        help = codes "Total /metrics requests served.";
        kind = counter;
        samples = record { labels = []; value = fmt.number e.metrics_requests_total } ∷ [];
      }
      ∷ record {
        name = codes "httprove_target_last_probe_attempt_timestamp_seconds";
        help = codes "Unix timestamp of the latest probe attempt; 0 before the first attempt.";
        kind = gauge;
        samples = time_samples e.last_attempts;
      }
      ∷ record {
        name = codes "httprove_target_last_probe_success_timestamp_seconds";
        help = codes "Unix timestamp of the latest successful probe; 0 before the first success.";
        kind = gauge;
        samples = time_samples e.last_successes;
      }
      ∷ []

  unfoldable pub render_exporter :
      (Text → Option W) → List (TargetMetrics W) → ExporterMetrics W → Text
  unfolding push_section render
  render_exporter parse_f64 ts e = sections (exporter_families e) ++ render parse_f64 ts
