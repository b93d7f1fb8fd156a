-- ===== src/Prom/Legal/Health.antt =====
-- The metrics on names, timings, verdicts, objectives and all targets in src/output/prom.rs are legal.
use httprove.Base.{
  List, [], ◌∷◌, Option, none, some, Bool, true, false, length, if◌then◌else◌, refl, arith, All,
  All-append,
}
use httprove.Text.{codes}
use httprove.Types.{Text, HopResult, final_hop}
use httprove.Types.Number.{Float}
use httprove.Verdict.{State, pass, degraded, down}
use httprove.Stats.{PhaseAccum}
use httprove.Stats.Recording.{Phases}
use httprove.Prom.{verbatim, escaped, Format, TargetMetrics, stat_order, one_sample}
use httprove.Prom.Traffic.{all_phases}
use httprove.Prom.Last.{timing_samples, of_headers, server_timing}
use httprove.Prom.Health.{
  verdict_label, same_state, one_or_zero, is_down, count_down, dns_changed, ip_count_samples,
  dns_count, targets_total, targets_down, slo_samples, slos, state_sample, verdict_samples,
  verdicts, target_up, tails, agg_sample, agg_samples, phase_rows, unless_none, fleet_samples,
  fleet,
}
use httprove.Prom.Reading.{IsLine, IsPlain, IsLegalSample, IsLegal}
use httprove.Prom.Legal.{
  IsPlainFormat, every-IsName, never-IsPlain, never-IsLine, flag-IsLine, family-IsLegal,
  for_targets-IsLegal, one_sample-IsLegal, two_labels-IsLegal,
}
use httprove.Prom.Legal.Counts.{counted-IsLegal, stat_order-IsPlain, AreNamed, all_phases-AreNamed}
use httprove.Prom.Legal.Gauges.{last_family-IsLegal, number-IsLine, float-IsLine}

verdict_label-IsPlain : (state : State) → IsPlain (verdict_label state)
verdict_label-IsPlain pass = never-IsPlain (codes "pass") refl
verdict_label-IsPlain degraded = never-IsPlain (codes "degraded") refl
verdict_label-IsPlain down = never-IsPlain (codes "down") refl

one_or_zero-IsLine : (b : Bool) → IsLine (one_or_zero b)
one_or_zero-IsLine true = never-IsLine (codes "1") refl
one_or_zero-IsLine false = never-IsLine (codes "0") refl

module _ {W : Type 0} where
  state_sample-IsLegal :
      (t : TargetMetrics W) (state candidate : State)
      → IsLegalSample (state_sample t state candidate)
  state_sample-IsLegal t state candidate = (
    two_labels-IsLegal t (codes "state") (verbatim (verdict_label candidate))
        (every-IsName (codes "state") refl) (verdict_label-IsPlain candidate),
    one_or_zero-IsLine (same_state candidate state),
    omega arith,
  )

  verdict_samples-IsLegal :
      (t : TargetMetrics W) (state : Option State) → All IsLegalSample (verdict_samples t state)
  verdict_samples-IsLegal t none = tt
  verdict_samples-IsLegal t (some state) = (
    state_sample-IsLegal t state pass,
    (state_sample-IsLegal t state degraded, (state_sample-IsLegal t state down, tt)),
  )

  pub verdicts-IsLegal : (ts : List (TargetMetrics W)) → IsLegal (verdicts ts)
  verdicts-IsLegal ts =
      family-IsLegal (verdicts ts) (refl, refl) refl
        (for_targets-IsLegal (λ t. verdict_samples t t.verdict_state)
          (λ t. verdict_samples-IsLegal t t.verdict_state) ts)

  pub target_up-IsLegal : (ts : List (TargetMetrics W)) → IsLegal (target_up ts)
  target_up-IsLegal ts =
      family-IsLegal (target_up ts) (refl, refl) refl
        (for_targets-IsLegal
          (λ t. one_sample t (if is_down t.verdict_state then codes "0" else codes "1"))
          (λ t. one_sample-IsLegal t _ (
            flag-IsLine (is_down t.verdict_state) (codes "0") (codes "1")
              (never-IsLine (codes "0") refl) (never-IsLine (codes "1") refl)))
          ts)

module _ {W : Type 0} (fmt : Format W) (plain : IsPlainFormat fmt) where
  ip_count_samples-IsLegal :
      (t : TargetMetrics W) (hop : Option (HopResult W))
      → All IsLegalSample (ip_count_samples fmt t hop)
  ip_count_samples-IsLegal t none = tt
  ip_count_samples-IsLegal t (some hop) =
      one_sample-IsLegal t _ (number-IsLine fmt plain (length hop.resolved_ips))

  pub dns_changed-IsLegal : (ts : List (TargetMetrics W)) → IsLegal (dns_changed fmt ts)
  dns_changed-IsLegal ts =
      family-IsLegal (dns_changed fmt ts) (refl, refl) refl
        (counted-IsLegal fmt plain (λ s. s.dns_answer_changes) ts)

  pub dns_count-IsLegal : (ts : List (TargetMetrics W)) → IsLegal (dns_count fmt ts)
  dns_count-IsLegal ts =
      family-IsLegal (dns_count fmt ts) (refl, refl) refl
        (last_family-IsLegal (λ t last. ip_count_samples fmt t (final_hop last))
          (λ t last. ip_count_samples-IsLegal t (final_hop last)) ts)

  slo_samples-IsLegal :
      (t : TargetMetrics W) (slo : Option W) → All IsLegalSample (slo_samples fmt t slo)
  slo_samples-IsLegal t none = tt
  slo_samples-IsLegal t (some slo) = one_sample-IsLegal t _ (float-IsLine fmt plain slo)

  pub slos-IsLegal : (ts : List (TargetMetrics W)) → IsLegal (slos fmt ts)
  slos-IsLegal ts =
      family-IsLegal (slos fmt ts) (refl, refl) refl
        (for_targets-IsLegal (λ t. slo_samples fmt t t.slo) (λ t. slo_samples-IsLegal t t.slo) ts)

  pub targets_total-IsLegal : (ts : List (TargetMetrics W)) → IsLegal (targets_total fmt ts)
  targets_total-IsLegal ts =
      family-IsLegal (targets_total fmt ts) (refl, refl) refl
        ((tt, number-IsLine fmt plain (length ts), omega arith), tt)

  pub targets_down-IsLegal : (ts : List (TargetMetrics W)) → IsLegal (targets_down fmt ts)
  targets_down-IsLegal ts =
      family-IsLegal (targets_down fmt ts) (refl, refl) refl
        ((tt, number-IsLine fmt plain (count_down ts), omega arith), tt)

module _ {W : Type 0} ⦃f : Float W⦄ (fmt : Format W) (plain : IsPlainFormat fmt) where
  agg_sample-IsLegal :
      (phase stat agg : Text) (value : W)
      → IsPlain phase
      → IsPlain stat
      → IsPlain agg
      → IsLegalSample (agg_sample fmt phase stat agg value)
  agg_sample-IsLegal phase stat agg value p s a = (
    (
      every-IsName (codes "phase") refl,
      p,
      (every-IsName (codes "stat") refl, s, (every-IsName (codes "agg") refl, a, tt)),
    ),
    float-IsLine fmt plain value,
    omega arith,
  )

  agg_samples-IsLegal :
      (phase : Text) (stats : List Text) (rows : List (List W))
      → IsPlain phase
      → All IsPlain stats
      → All IsLegalSample (agg_samples fmt phase stats rows)
  agg_samples-IsLegal phase [] rows p h = tt
  agg_samples-IsLegal phase (stat ∷ stats) rows p (h, hs) = (
    agg_sample-IsLegal phase stat (codes "worst") _ p h (never-IsPlain (codes "worst") refl),
    (
      agg_sample-IsLegal phase stat (codes "best") _ p h (never-IsPlain (codes "best") refl),
      agg_samples-IsLegal phase stats (tails fmt rows) p hs,
    ),
  )

  unless_none-IsLegal :
      (phase : Text) (rows : List (List W))
      → IsPlain phase
      → All IsLegalSample (unless_none fmt phase rows)
  unless_none-IsLegal phase [] p = tt
  unless_none-IsLegal phase (row ∷ rows) p =
      agg_samples-IsLegal phase stat_order (row ∷ rows) p stat_order-IsPlain

  fleet_samples-IsLegal :
      (ps : List (Text × (Phases W → PhaseAccum W))) (ts : List (TargetMetrics W))
      → AreNamed ps
      → All IsLegalSample (fleet_samples fmt ps ts)
  fleet_samples-IsLegal [] ts h = tt
  fleet_samples-IsLegal ((phase, get) ∷ rest) ts (h, hs) =
      All-append _ (unless_none fmt phase (phase_rows fmt get ts)) _
        (unless_none-IsLegal phase (phase_rows fmt get ts) h) (fleet_samples-IsLegal rest ts hs)

  pub fleet-IsLegal : (ts : List (TargetMetrics W)) → IsLegal (fleet fmt ts)
  fleet-IsLegal ts =
      family-IsLegal (fleet fmt ts) (refl, refl) refl
        (fleet_samples-IsLegal all_phases ts (all_phases-AreNamed W))

  timing_samples-IsLegal :
      (parse_f64 : Text → Option W) (t : TargetMetrics W) (ms : List (Text × W))
      → All IsLegalSample (timing_samples fmt parse_f64 t ms)
  timing_samples-IsLegal parse_f64 t [] = tt
  timing_samples-IsLegal parse_f64 t ((metric, ms) ∷ rest) = (
    (
      two_labels-IsLegal t (codes "metric") (escaped metric) (every-IsName (codes "metric") refl)
          tt,
      float-IsLine fmt plain ms,
      omega arith,
    ),
    timing_samples-IsLegal parse_f64 t rest,
  )

  of_headers-IsLegal :
      (parse_f64 : Text → Option W) (t : TargetMetrics W) (hop : Option (HopResult W))
      → All IsLegalSample (of_headers fmt parse_f64 t hop)
  of_headers-IsLegal parse_f64 t none = tt
  of_headers-IsLegal parse_f64 t (some hop) = timing_samples-IsLegal parse_f64 t _

  pub server_timing-IsLegal :
      (parse_f64 : Text → Option W) (ts : List (TargetMetrics W))
      → IsLegal (server_timing fmt parse_f64 ts)
  server_timing-IsLegal parse_f64 ts =
      family-IsLegal (server_timing fmt parse_f64 ts) (refl, refl) refl
        (last_family-IsLegal (λ t last. of_headers fmt parse_f64 t (final_hop last))
          (λ t last. of_headers-IsLegal parse_f64 t (final_hop last)) ts)
