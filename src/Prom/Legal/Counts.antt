-- ===== src/Prom/Legal/Counts.antt =====
-- The families of counters and of phases in src/output/prom.rs are legal.
use httprove.Base.{ℕ, List, [], ◌∷◌, Option, none, some, ◌==◌, refl, arith, All, All-append}
use httprove.Text.{codes}
use httprove.Types.{Text}
use httprove.Types.Number.{Float}
use httprove.Stats.{PhaseAccum}
use httprove.Stats.Recording.{StatsCollector, Phases}
use httprove.Stats.Summary.{PhaseStats, snapshot}
use httprove.Prom.{
  verbatim, escaped, Format, TargetMetrics, target_label, stat_order, stat_values, for_targets,
  one_sample,
}
use httprove.Prom.Traffic.{
  probes, failures, expect_failures, phases, throughput, apdex_samples, apdex_satisfied,
  apdex_tolerating, status_samples, statuses, hops_total, reused, ratio_samples, reuse_ratio,
  version_samples, versions, summary_samples, phase_samples, all_phases, throughput_samples, by_key,
  key_le, name_le,
}
use httprove.Prom.Reading.{IsPlain, IsLegalSample, IsLegal}
use httprove.Prom.Labels.{IsPlain-IsLine}
use httprove.Prom.Legal.{
  IsPlainFormat, every-IsName, never-IsPlain, family-IsLegal, for_targets-IsLegal,
  one_sample-IsLegal, two_labels-IsLegal, All-if, target_label-IsName, stat_samples-IsLegal,
}

pub stat_order-IsPlain : All IsPlain stat_order
stat_order-IsPlain = (
  never-IsPlain (codes "min") refl,
  (
    never-IsPlain (codes "mean") refl,
    (
      never-IsPlain (codes "stddev") refl,
      (
        never-IsPlain (codes "p50") refl,
        (
          never-IsPlain (codes "p95") refl,
          (never-IsPlain (codes "p99") refl, (never-IsPlain (codes "max") refl, tt)),
        ),
      ),
    ),
  ),
)

abbrev pub AreNamed : {W : Type 0} → List (Text × (Phases W → PhaseAccum W)) → Type 0
AreNamed ps = All (λ p. IsPlain p.0) ps

pub all_phases-AreNamed : (W : Type 0) → AreNamed {W = W} all_phases
all_phases-AreNamed W = (
  never-IsPlain (codes "dns") refl,
  (
    never-IsPlain (codes "tcp") refl,
    (
      never-IsPlain (codes "tls") refl,
      (
        never-IsPlain (codes "ttfb") refl,
        (never-IsPlain (codes "download") refl, (never-IsPlain (codes "total") refl, tt)),
      ),
    ),
  ),
)

module _ {W : Type 0} (fmt : Format W) (plain : IsPlainFormat fmt) where
  apdex_samples-IsLegal :
      (get : StatsCollector W → ℕ) (t : TargetMetrics W)
      → All IsLegalSample (apdex_samples fmt get t)
  apdex_samples-IsLegal get t =
      elim t.stats.apdex_threshold
        as (λ o.
          All IsLegalSample
            (elim o [ none ↦ [] | some threshold ↦ one_sample t (fmt.number (get t.stats)) ])) [
              | none ↦ tt
              | some threshold ↦ one_sample-IsLegal t _ (IsPlain-IsLine _ (plain.0 (get t.stats)))
            ]

  pub counted-IsLegal :
      (get : StatsCollector W → ℕ) (ts : List (TargetMetrics W))
      → All IsLegalSample (for_targets (λ t. one_sample t (fmt.number (get t.stats))) ts)
  counted-IsLegal get ts =
      for_targets-IsLegal (λ t. one_sample t (fmt.number (get t.stats)))
        (λ t. one_sample-IsLegal t _ (IsPlain-IsLine _ (plain.0 (get t.stats)))) ts

  status_samples-IsLegal :
      (t : TargetMetrics W) (counts : List (ℕ × ℕ))
      → All IsLegalSample (status_samples fmt t counts)
  status_samples-IsLegal t [] = tt
  status_samples-IsLegal t ((code, count) ∷ counts) = (
    (
      two_labels-IsLegal t (codes "code") (verbatim (fmt.number code))
          (every-IsName (codes "code") refl) (plain.0 code),
      IsPlain-IsLine _ (plain.0 count),
      omega arith,
    ),
    status_samples-IsLegal t counts,
  )

  version_samples-IsLegal :
      (t : TargetMetrics W) (counts : List (Text × ℕ))
      → All IsLegalSample (version_samples fmt t counts)
  version_samples-IsLegal t [] = tt
  version_samples-IsLegal t ((version, count) ∷ counts) = (
    (
      two_labels-IsLegal t (codes "version") (escaped version) (every-IsName (codes "version") refl)
          tt,
      IsPlain-IsLine _ (plain.0 count),
      omega arith,
    ),
    version_samples-IsLegal t counts,
  )

module _ {W : Type 0} ⦃f : Float W⦄ (fmt : Format W) (plain : IsPlainFormat fmt) where
  summary_samples-IsLegal :
      (t : TargetMetrics W) (phase : Text) (s : Option (PhaseStats W))
      → IsPlain phase
      → All IsLegalSample (summary_samples fmt t phase s)
  summary_samples-IsLegal t phase none p = tt
  summary_samples-IsLegal t phase (some s) p =
      stat_samples-IsLegal fmt.float (target_label t ∷ (codes "phase", verbatim phase) ∷ [])
        stat_order (stat_values s) plain.2
        (two_labels-IsLegal t (codes "phase") (verbatim phase) (every-IsName (codes "phase") refl)
          p)
        (omega arith) stat_order-IsPlain

  phase_samples-IsLegal :
      (t : TargetMetrics W) (ps : List (Text × (Phases W → PhaseAccum W)))
      → AreNamed ps
      → All IsLegalSample (phase_samples fmt t ps)
  phase_samples-IsLegal t [] h = tt
  phase_samples-IsLegal t ((phase, get) ∷ ps) (h, hs) =
      All-append _ (summary_samples fmt t phase (snapshot (get t.stats.phases))) _
        (summary_samples-IsLegal t phase (snapshot (get t.stats.phases)) h)
        (phase_samples-IsLegal t ps hs)

  throughput_samples-IsLegal :
      (t : TargetMetrics W) (s : Option (PhaseStats W))
      → All IsLegalSample (throughput_samples fmt t s)
  throughput_samples-IsLegal t none = tt
  throughput_samples-IsLegal t (some s) =
      stat_samples-IsLegal fmt.float (target_label t ∷ []) stat_order (stat_values s) plain.2
        (target_label-IsName t, tt, tt) (omega arith) stat_order-IsPlain

  ratio_samples-IsLegal : (t : TargetMetrics W) → All IsLegalSample (ratio_samples fmt t)
  ratio_samples-IsLegal t =
      All-if _ (t.stats.hops_total == 0) [] _ tt
        (one_sample-IsLegal t _ (IsPlain-IsLine _ (plain.2 _)))

  pub probes-IsLegal : (ts : List (TargetMetrics W)) → IsLegal (probes fmt ts)
  probes-IsLegal ts =
      family-IsLegal (probes fmt ts) (refl, refl) refl (counted-IsLegal fmt plain (λ s. s.sent) ts)

  pub failures-IsLegal : (ts : List (TargetMetrics W)) → IsLegal (failures fmt ts)
  failures-IsLegal ts =
      family-IsLegal (failures fmt ts) (refl, refl) refl
        (counted-IsLegal fmt plain (λ s. s.failed) ts)

  pub expect_failures-IsLegal : (ts : List (TargetMetrics W)) → IsLegal (expect_failures fmt ts)
  expect_failures-IsLegal ts =
      family-IsLegal (expect_failures fmt ts) (refl, refl) refl
        (counted-IsLegal fmt plain (λ s. s.expect_failed) ts)

  pub hops_total-IsLegal : (ts : List (TargetMetrics W)) → IsLegal (hops_total fmt ts)
  hops_total-IsLegal ts =
      family-IsLegal (hops_total fmt ts) (refl, refl) refl
        (counted-IsLegal fmt plain (λ s. s.hops_total) ts)

  pub reused-IsLegal : (ts : List (TargetMetrics W)) → IsLegal (reused fmt ts)
  reused-IsLegal ts =
      family-IsLegal (reused fmt ts) (refl, refl) refl
        (counted-IsLegal fmt plain (λ s. s.hops_reused) ts)

  pub phases-IsLegal : (ts : List (TargetMetrics W)) → IsLegal (phases fmt ts)
  phases-IsLegal ts =
      family-IsLegal (phases fmt ts) (refl, refl) refl
        (for_targets-IsLegal (λ t. phase_samples fmt t all_phases)
          (λ t. phase_samples-IsLegal t all_phases (all_phases-AreNamed W)) ts)

  pub throughput-IsLegal : (ts : List (TargetMetrics W)) → IsLegal (throughput fmt ts)
  throughput-IsLegal ts =
      family-IsLegal (throughput fmt ts) (refl, refl) refl
        (for_targets-IsLegal (λ t. throughput_samples fmt t (snapshot t.stats.throughput))
          (λ t. throughput_samples-IsLegal t (snapshot t.stats.throughput)) ts)

  pub apdex_satisfied-IsLegal : (ts : List (TargetMetrics W)) → IsLegal (apdex_satisfied fmt ts)
  apdex_satisfied-IsLegal ts =
      family-IsLegal (apdex_satisfied fmt ts) (refl, refl) refl
        (for_targets-IsLegal (apdex_samples fmt (λ s. s.apdex_satisfied))
          (apdex_samples-IsLegal fmt plain (λ s. s.apdex_satisfied)) ts)

  pub apdex_tolerating-IsLegal : (ts : List (TargetMetrics W)) → IsLegal (apdex_tolerating fmt ts)
  apdex_tolerating-IsLegal ts =
      family-IsLegal (apdex_tolerating fmt ts) (refl, refl) refl
        (for_targets-IsLegal (apdex_samples fmt (λ s. s.apdex_tolerating))
          (apdex_samples-IsLegal fmt plain (λ s. s.apdex_tolerating)) ts)

  pub statuses-IsLegal : (ts : List (TargetMetrics W)) → IsLegal (statuses fmt ts)
  statuses-IsLegal ts =
      family-IsLegal (statuses fmt ts) (refl, refl) refl
        (for_targets-IsLegal (λ t. status_samples fmt t (by_key key_le t.stats.status_counts))
          (λ t. status_samples-IsLegal fmt plain t (by_key key_le t.stats.status_counts)) ts)

  pub versions-IsLegal : (ts : List (TargetMetrics W)) → IsLegal (versions fmt ts)
  versions-IsLegal ts =
      family-IsLegal (versions fmt ts) (refl, refl) refl
        (for_targets-IsLegal
          (λ t. version_samples fmt t (by_key name_le t.stats.http_version_counts))
          (λ t. version_samples-IsLegal fmt plain t (by_key name_le t.stats.http_version_counts))
          ts)

  pub reuse_ratio-IsLegal : (ts : List (TargetMetrics W)) → IsLegal (reuse_ratio fmt ts)
  reuse_ratio-IsLegal ts =
      family-IsLegal (reuse_ratio fmt ts) (refl, refl) refl
        (for_targets-IsLegal (ratio_samples fmt) ratio_samples-IsLegal ts)
