-- ===== src/Verdict/Tests.antt =====
-- Probes judged by `assess` of src/verdict.rs, and the theorems of its modules at them.
use httprove.Base.{ℕ, ◌≡◌, ◌≢◌, ◌↔◌, refl, [], none, some}
use httprove.Base.Int.{pos}
use httprove.Types.{warn_level, leaf_cert, find_leaf, summed_timings, sum_hops}
use httprove.Types.Examples.{hundredths, hundredths-IsTotalOrder, slow}
use httprove.Verdict.{
  pass, Signal, VerdictContext, WarnThresholds, exceeds, assess, signals, Phase, verdict_of, judge,
  worst, texts, expect_signals, phase_signal, phase_signals, cert_signal, baseline_signal,
}
use httprove.Verdict.Signals.{IsQuiet}
use httprove.Verdict.Worst.{IsLastMax}
use httprove.Verdict.States.{assess-pass_iff, assess-headline}

abbrev no_thresholds : WarnThresholds ℕ
no_thresholds = record {
  dns = none;
  tcp = none;
  tls = none;
  ttfb = none;
  download = none;
  total = none;
}

abbrev patient : VerdictContext ℕ
patient = record { warn = no_thresholds; cert_warn_days = pos 0; baseline_total_ms = none }

abbrev strict : VerdictContext ℕ
strict = record {
  warn = record no_thresholds { ttfb = some 27450 };
  cert_warn_days = pos 0;
  baseline_total_ms = none;
}

-- Of two equally grave signals the one collected last makes the headline.
tie_goes_to_last : (assess slow strict).headline ≡ exceeds Phase.ttfb 41200 27450 150
unfolding assess verdict_of judge worst texts signals expect_signals phase_signals phase_signal
    warn_level cert_signal baseline_signal leaf_cert find_leaf summed_timings sum_hops
tie_goes_to_last = refl

assess-pass_iff_example :
    ((assess slow patient).state ≡ pass)
    ↔ ((slow.error ≡ none) × (slow.hops ≢ []) × IsQuiet slow patient)
assess-pass_iff_example = assess-pass_iff slow patient

assess-headline_example :
    (s : Signal ℕ) × ((assess slow strict).headline ≡ s.text)
    × IsLastMax s (signals slow strict)
    × ((assess slow strict).reasons ≡ texts (signals slow strict))
unfolding assess verdict_of judge worst texts signals expect_signals phase_signals phase_signal
    warn_level cert_signal baseline_signal leaf_cert find_leaf summed_timings sum_hops
assess-headline_example = assess-headline slow strict hundredths-IsTotalOrder refl
