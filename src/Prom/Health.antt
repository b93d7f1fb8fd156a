-- ===== src/Prom/Health.antt =====
-- The metrics of src/output/prom.rs on the resolution of names, on verdicts, on all targets together
-- and on the objective.
use httprove.Base.{
  ℕ, ◌+◌, List, [], ◌∷◌, ◌++◌, Option, none, some, Bool, true, false, if◌then◌else◌, length,
}
use httprove.Text.{codes}
use httprove.Types.{Text, HopResult, final_hop}
use httprove.Types.Number.{Float}
use httprove.Verdict.{State, pass, degraded, down}
use httprove.Stats.{PhaseAccum}
use httprove.Stats.Recording.{Phases}
use httprove.Stats.Summary.{PhaseStats, snapshot}
use httprove.Prom.{
  verbatim, Sample, Family, gauge, Format, TargetMetrics, target_label, stat_order, stat_values,
  for_targets, one_sample,
}
use httprove.Prom.Traffic.{counted, all_phases}
use httprove.Prom.Last.{last_family}

abbrev pub verdict_label : State → Text
verdict_label pass = codes "pass"
verdict_label degraded = codes "degraded"
verdict_label down = codes "down"

abbrev pub same_state : State → State → Bool
same_state pass pass = true
same_state degraded degraded = true
same_state down down = true
same_state _ _ = false

abbrev pub one_or_zero : Bool → Text
one_or_zero true = codes "1"
one_or_zero false = codes "0"

abbrev pub is_down : Option State → Bool
is_down none = false
is_down (some state) = same_state state down

abbrev pub scalar : Text → Text → Text → Family
scalar name help value = record {
  name = name;
  help = help;
  kind = gauge;
  samples = record { labels = []; value = value } ∷ [];
}

module _ {W : Type 0} where
  unfoldable pub count_down : List (TargetMetrics W) → ℕ
  count_down [] = 0
  count_down (t ∷ ts) = (if is_down t.verdict_state then 1 else 0) + count_down ts

module _ {W : Type 0} (fmt : Format W) where
  abbrev pub dns_changed : List (TargetMetrics W) → Family
  dns_changed =
      counted fmt (codes "httprove_dns_answer_changed_total")
        (codes
          "Total number of times the resolved IP set changed between consecutive successful probes.")
        (λ s. s.dns_answer_changes)

  abbrev pub ip_count_samples : TargetMetrics W → Option (HopResult W) → List Sample
  ip_count_samples t none = []
  ip_count_samples t (some hop) = one_sample t (fmt.number (length hop.resolved_ips))

  abbrev pub dns_count : List (TargetMetrics W) → Family
  dns_count =
      last_family (codes "httprove_dns_resolved_ip_count")
        (codes "Number of IP addresses returned by DNS for the last successful probe (final hop).")
        (λ t last. ip_count_samples t (final_hop last))

  abbrev pub targets_total : List (TargetMetrics W) → Family
  targets_total ts =
      scalar (codes "httprove_targets_total") (codes "Total number of monitored targets.")
        (fmt.number (length ts))

  abbrev pub targets_down : List (TargetMetrics W) → Family
  targets_down ts =
      scalar (codes "httprove_targets_down")
        (codes "Number of monitored targets whose latest probe is judged DOWN.")
        (fmt.number (count_down ts))

  abbrev pub slo_samples : TargetMetrics W → Option W → List Sample
  slo_samples t none = []
  slo_samples t (some slo) = one_sample t (fmt.float slo)

  abbrev pub slos : List (TargetMetrics W) → Family
  slos ts = record {
    name = codes "httprove_slo_target_ratio";
    help =
        codes
          "Configured SLO target ratio (e.g. 0.999); a static setting for parameterizing burn-rate alert rules.";
    kind = gauge;
    samples = for_targets (λ t. slo_samples t t.slo) ts;
  }

module _ {W : Type 0} where
  abbrev pub state_sample : TargetMetrics W → State → State → Sample
  state_sample t state candidate = record {
    labels = target_label t ∷ (codes "state", verbatim (verdict_label candidate)) ∷ [];
    value = one_or_zero (same_state candidate state);
  }

  abbrev pub verdict_samples : TargetMetrics W → Option State → List Sample
  verdict_samples t none = []
  verdict_samples t (some state) =
      state_sample t state pass ∷ state_sample t state degraded ∷ state_sample t state down ∷ []

  abbrev pub verdicts : List (TargetMetrics W) → Family
  verdicts ts = record {
    name = codes "httprove_verdict_state";
    help =
        codes
          "Current service-health verdict of the latest probe (1 for the active state, 0 otherwise).";
    kind = gauge;
    samples = for_targets (λ t. verdict_samples t t.verdict_state) ts;
  }

  abbrev pub target_up : List (TargetMetrics W) → Family
  target_up ts = record {
    name = codes "httprove_target_up";
    help = codes "Per-target health from the latest probe (1=up/degraded, 0=down).";
    kind = gauge;
    samples =
        for_targets (λ t. one_sample t (if is_down t.verdict_state then codes "0" else codes "1"))
          ts;
  }

module _ {W : Type 0} ⦃f : Float W⦄ (fmt : Format W) where
  -- `fold(f64::MIN, f64::max)`, and with the least.
  abbrev pub worst_of : W → List W → W
  worst_of worst [] = worst
  worst_of worst (v ∷ values) = worst_of (f.greatest worst v) values

  abbrev pub best_of : W → List W → W
  best_of best [] = best
  best_of best (v ∷ values) = best_of (f.least best v) values

  -- One statistic of all the targets, and those that are behind it.
  abbrev pub heads : List (List W) → List W
  heads [] = []
  heads ([] ∷ rows) = heads rows
  heads ((v ∷ values) ∷ rows) = v ∷ heads rows

  abbrev pub tails : List (List W) → List (List W)
  tails [] = []
  tails ([] ∷ rows) = tails rows
  tails ((v ∷ values) ∷ rows) = values ∷ tails rows

  abbrev pub agg_sample : Text → Text → Text → W → Sample
  agg_sample phase stat agg value = record {
    labels =
        (codes "phase", verbatim phase)
        ∷ (codes "stat", verbatim stat)
        ∷ (codes "agg", verbatim agg)
        ∷ [];
    value = fmt.float value;
  }

  abbrev pub agg_samples : Text → List Text → List (List W) → List Sample
  agg_samples phase [] rows = []
  agg_samples phase (stat ∷ stats) rows =
      agg_sample phase stat (codes "worst") (worst_of f.smallest (heads rows))
      ∷ agg_sample phase stat (codes "best") (best_of f.largest (heads rows))
      ∷ agg_samples phase stats (tails rows)

  -- The statistics of the targets that have samples of the phase.
  abbrev pub keep_stats : Option (PhaseStats W) → List (List W) → List (List W)
  keep_stats none rows = rows
  keep_stats (some s) rows = stat_values s ∷ rows

  abbrev pub phase_rows : (Phases W → PhaseAccum W) → List (TargetMetrics W) → List (List W)
  phase_rows get [] = []
  phase_rows get (t ∷ ts) = keep_stats (snapshot (get t.stats.phases)) (phase_rows get ts)

  abbrev pub unless_none : Text → List (List W) → List Sample
  unless_none phase [] = []
  unless_none phase (row ∷ rows) = agg_samples phase stat_order (row ∷ rows)

  abbrev pub fleet_samples :
      List (Text × (Phases W → PhaseAccum W)) → List (TargetMetrics W) → List Sample
  fleet_samples [] ts = []
  fleet_samples ((phase, get) ∷ rest) ts =
      unless_none phase (phase_rows get ts) ++ fleet_samples rest ts

  abbrev pub fleet : List (TargetMetrics W) → Family
  fleet ts = record {
    name = codes "httprove_fleet_phase_milliseconds";
    help =
        codes
          "Fleet rollup of per-phase timing across all targets in milliseconds (agg=worst|best).";
    kind = gauge;
    samples = fleet_samples all_phases ts;
  }
