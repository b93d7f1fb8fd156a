-- ===== src/Prom/Traffic.antt =====
-- The metrics of src/output/prom.rs that come from the counters and the phases of a target.
use httprove.Base.{ℕ, List, [], ◌∷◌, ◌++◌, Option, none, some, Bool, leb, ◌==◌, if◌then◌else◌}
use httprove.Base.Int.{pos}
use httprove.Text.{codes}
use httprove.Types.{Text}
use httprove.Types.Number.{Float}
use httprove.Diff.{text_le}
use httprove.Stats.{PhaseAccum}
use httprove.Stats.Recording.{StatsCollector, Phases}
use httprove.Stats.Summary.{PhaseStats, snapshot}
use httprove.Prom.{
  escaped, verbatim, Sample, Family, counter, gauge, Format, TargetMetrics, target_label,
  stat_order, stat_values, stat_samples, for_targets, one_sample,
}

module _ {W : Type 0} (fmt : Format W) where
  -- A counter with one sample for each target.
  abbrev pub counted : Text → Text → (StatsCollector W → ℕ) → List (TargetMetrics W) → Family
  counted name help get ts = record {
    name = name;
    help = help;
    kind = counter;
    samples = for_targets (λ t. one_sample t (fmt.number (get t.stats))) ts;
  }

  abbrev pub probes : List (TargetMetrics W) → Family
  probes = counted (codes "httprove_probes_total") (codes "Total probes sent.") (λ s. s.sent)

  abbrev pub failures : List (TargetMetrics W) → Family
  failures =
      counted (codes "httprove_probe_failures_total")
        (codes "Total probes that failed at the network level.") (λ s. s.failed)

  abbrev pub expect_failures : List (TargetMetrics W) → Family
  expect_failures =
      counted (codes "httprove_expect_failures_total")
        (codes "Total probes that succeeded but violated --expect assertions.")
        (λ s. s.expect_failed)

  abbrev pub hops_total : List (TargetMetrics W) → Family
  hops_total =
      counted (codes "httprove_hops_total")
        (codes "Total request hops observed across successful probes.") (λ s. s.hops_total)

  abbrev pub reused : List (TargetMetrics W) → Family
  reused =
      counted (codes "httprove_connection_reused_total")
        (codes "Total request hops that reused an existing keep-alive connection.")
        (λ s. s.hops_reused)

  abbrev pub apdex_samples : (StatsCollector W → ℕ) → TargetMetrics W → List Sample
  apdex_samples get t = elim t.stats.apdex_threshold [
    | none ↦ []
    | some threshold ↦ one_sample t (fmt.number (get t.stats))
  ]

  abbrev pub apdex_satisfied : List (TargetMetrics W) → Family
  apdex_satisfied ts = record {
    name = codes "httprove_apdex_satisfied_total";
    help = codes "Successful probes whose total time is within the Apdex threshold T (satisfied).";
    kind = counter;
    samples = for_targets (apdex_samples (λ s. s.apdex_satisfied)) ts;
  }

  abbrev pub apdex_tolerating : List (TargetMetrics W) → Family
  apdex_tolerating ts = record {
    name = codes "httprove_apdex_tolerating_total";
    help = codes "Successful probes whose total time is within 4T (tolerating; T < total <= 4T).";
    kind = counter;
    samples = for_targets (apdex_samples (λ s. s.apdex_tolerating)) ts;
  }

-- A `BTreeMap` is walked by its keys.
abbrev pub key_le : ℕ × ℕ → ℕ × ℕ → Bool
key_le (a, m) (b, n) = leb a b

abbrev pub name_le : Text × ℕ → Text × ℕ → Bool
name_le (a, m) (b, n) = text_le a b

unfoldable pub insert_key : {K : Type 0} → (K → K → Bool) → K → List K → List K
insert_key le k [] = k ∷ []
insert_key le k (l ∷ ls) = let rest = l ∷ insert_key le k ls in if le k l then k ∷ l ∷ ls else rest

unfoldable pub by_key : {K : Type 0} → (K → K → Bool) → List K → List K
unfolding insert_key
by_key le [] = []
by_key le (k ∷ ks) = insert_key le k (by_key le ks)

module _ {W : Type 0} (fmt : Format W) where
  abbrev pub status_samples : TargetMetrics W → List (ℕ × ℕ) → List Sample
  status_samples t [] = []
  status_samples t ((code, count) ∷ counts) =
      record {
        labels = target_label t ∷ (codes "code", verbatim (fmt.number code)) ∷ [];
        value = fmt.number count;
      }
      ∷ status_samples t counts

  abbrev pub statuses : List (TargetMetrics W) → Family
  statuses ts = record {
    name = codes "httprove_status_total";
    help = codes "Final-hop HTTP status code distribution.";
    kind = counter;
    samples = for_targets (λ t. status_samples t (by_key key_le t.stats.status_counts)) ts;
  }

  abbrev pub version_samples : TargetMetrics W → List (Text × ℕ) → List Sample
  version_samples t [] = []
  version_samples t ((version, count) ∷ counts) =
      record {
        labels = target_label t ∷ (codes "version", escaped version) ∷ [];
        value = fmt.number count;
      }
      ∷ version_samples t counts

  abbrev pub versions : List (TargetMetrics W) → Family
  versions ts = record {
    name = codes "httprove_http_version_total";
    help = codes "Per-hop HTTP version distribution across successful probes.";
    kind = counter;
    samples = for_targets (λ t. version_samples t (by_key name_le t.stats.http_version_counts)) ts;
  }

-- `Phase::ALL` with the labels and the places in the array.
abbrev pub all_phases : {W : Type 0} → List (Text × (Phases W → PhaseAccum W))
all_phases =
    (codes "dns", λ p. p.dns)
    ∷ (codes "tcp", λ p. p.tcp)
    ∷ (codes "tls", λ p. p.tls)
    ∷ (codes "ttfb", λ p. p.ttfb)
    ∷ (codes "download", λ p. p.download)
    ∷ (codes "total", λ p. p.total)
    ∷ []

module _ {W : Type 0} ⦃f : Float W⦄ (fmt : Format W) where
  abbrev pub summary_samples : TargetMetrics W → Text → Option (PhaseStats W) → List Sample
  summary_samples t phase none = []
  summary_samples t phase (some s) =
      stat_samples fmt.float (target_label t ∷ (codes "phase", verbatim phase) ∷ []) stat_order
        (stat_values s)

  abbrev pub phase_samples : TargetMetrics W → List (Text × (Phases W → PhaseAccum W)) → List Sample
  phase_samples t [] = []
  phase_samples t ((phase, get) ∷ rest) =
      summary_samples t phase (snapshot (get t.stats.phases)) ++ phase_samples t rest

  abbrev pub phases : List (TargetMetrics W) → Family
  phases ts = record {
    name = codes "httprove_phase_milliseconds";
    help = codes "Per-phase timing statistics in milliseconds (summed over redirect hops).";
    kind = gauge;
    samples = for_targets (λ t. phase_samples t all_phases) ts;
  }

  abbrev pub throughput_samples : TargetMetrics W → Option (PhaseStats W) → List Sample
  throughput_samples t none = []
  throughput_samples t (some s) =
      stat_samples fmt.float (target_label t ∷ []) stat_order (stat_values s)

  abbrev pub throughput : List (TargetMetrics W) → Family
  throughput ts = record {
    name = codes "httprove_throughput_bytes_per_second";
    help =
        codes
          "Download goodput in bytes/s (sum of hop body_bytes / sum of hop download_seconds) for successful probes whose total body >= 4096 bytes.";
    kind = gauge;
    samples = for_targets (λ t. throughput_samples t (snapshot t.stats.throughput)) ts;
  }

  abbrev pub ratio_samples : TargetMetrics W → List Sample
  ratio_samples t =
      let total = t.stats.hops_total in
      if total == 0
      then []
      else one_sample t
          (fmt.float (f.over (f.of_int (pos t.stats.hops_reused)) (f.of_int (pos total))))

  abbrev pub reuse_ratio : List (TargetMetrics W) → Family
  reuse_ratio ts = record {
    name = codes "httprove_connection_reuse_ratio";
    help = codes "Fraction of probe hops that reused a keep-alive connection (0-1).";
    kind = gauge;
    samples = for_targets ratio_samples ts;
  }
