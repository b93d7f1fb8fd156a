-- ===== src/Verdict.antt =====
-- src/verdict.rs: `assess`, the verdict on one probe. The lines of text that `format!` makes are values
-- of `Line`, which hold what is written into them.
pub mod Signals
pub mod Worst
pub mod States
mod Tests
use httprove.Base.{
  ℕ, zero, suc, List, [], ◌∷◌, ◌++◌, Option, none, some, Bool, true, false, not, ◌&&◌, map,
  if◌then◌else◌,
}
use httprove.Base.Int.{ℤ, pos, ltb_ℤ, ◌-ℤ◌}
use httprove.Types.{
  Text, WarnLevel, ok, warn_level, PhaseTimings, ErrorPhase, ProbeError, ProbeResult, HopResult,
  final_hop, leaf_cert, summed_timings,
}
use httprove.Types.Number.{Float}

pub data State : Type 0 where
  pass degraded down : State

pub data Phase : Type 0 where
  dns tcp tls ttfb download total : Phase

pub data Line (W : Type 0) : Type 0 where
  failed : ErrorPhase → Bool → Text → Line W
  failed_during : ErrorPhase → Text → Line W
  hint_line : Text → Line W
  no_response no_hops : Line W
  expectation : Text → Line W
  exceeds : Phase → W → W → W → Line W  -- value, threshold, ratio
  cert_expired cert_expires : ℤ → ℤ → Line W  -- days, the limit in days
  slower : W → W → W → Line W  -- total, baseline, percent
  passed : ℕ → W → Text → Line W  -- status, total, protocol
  ok_total : W → Line W

pub record Verdict (W : Type 0) : Type 0 where
  pub state : State
  pub headline : Line W
  pub reasons : List (Line W)

pub record WarnThresholds (W : Type 0) : Type 0 where
  pub dns : Option W
  pub tcp : Option W
  pub tls : Option W
  pub ttfb : Option W
  pub download : Option W
  pub total : Option W

pub record VerdictContext (W : Type 0) : Type 0 where
  pub warn : WarnThresholds W
  pub cert_warn_days : ℤ  -- i64
  pub baseline_total_ms : Option W

pub record Signal (W : Type 0) : Type 0 where
  pub text : Line W
  pub severity : W

abbrev pub is_over : WarnLevel → Bool
is_over ok = false
is_over _ = true

abbrev pub reasons_of : {W : Type 0} → ErrorPhase → Text → Option Text → List (Line W)
reasons_of phase message none = failed_during phase message ∷ []
reasons_of phase message (some hint) = failed_during phase message ∷ hint_line hint ∷ []

module _ {W : Type 0} ⦃f : Float W⦄ where
  unfoldable pub expect_signals : List Text → List (Signal W)
  expect_signals [] = []
  expect_signals (reason ∷ rest) =
      record { text = expectation reason; severity = f.one_half } ∷ expect_signals rest

  -- One round of the loop over `phase_checks`.
  unfoldable pub phase_signal : Phase → Option W → Option W → List (Signal W)
  phase_signal label none threshold = []
  phase_signal label (some value) none = []
  phase_signal label (some value) (some threshold) =
      if f.gt threshold f.nought && is_over (warn_level value (some threshold))
      then (let ratio = f.over value threshold in
          record { text = exceeds label value threshold ratio; severity = ratio } ∷ [])
      else []

  unfoldable pub phase_signals : PhaseTimings W → WarnThresholds W → List (Signal W)
  unfolding phase_signal
  phase_signals t w =
      phase_signal dns t.dns_ms w.dns
      ++ (phase_signal tcp (some t.tcp_ms) w.tcp
          ++ (phase_signal tls t.tls_ms w.tls
              ++ (phase_signal ttfb (some t.ttfb_ms) w.ttfb
                  ++ (phase_signal download (some t.download_ms) w.download
                      ++ phase_signal total (some t.total_ms) w.total))))

  abbrev pub cert_severity : ℤ → ℤ → W
  cert_severity days limit =
      if ltb_ℤ (pos 0) limit
      then f.plus (f.over (f.of_int (limit -ℤ days)) (f.of_int limit)) f.one
      else f.two

  abbrev pub cert_text : ℤ → ℤ → Line W
  cert_text days limit =
      if ltb_ℤ days (pos 0) then cert_expired (pos 0 -ℤ days) limit else cert_expires days limit

  -- From the days that the leaf certificate has left, if there is one.
  unfoldable pub cert_signal : Option ℤ → ℤ → List (Signal W)
  cert_signal none limit = []
  cert_signal (some days) limit =
      if ltb_ℤ days limit
      then record { text = cert_text days limit; severity = cert_severity days limit } ∷ []
      else []

  unfoldable pub baseline_signal : W → Option W → List (Signal W)
  baseline_signal total_ms none = []
  baseline_signal total_ms (some base) =
      if f.gt base f.nought && f.gt total_ms (f.times f.one_half base)
      then (let pct = f.times (f.minus (f.over total_ms base) f.one) f.hundred in
          record { text = slower total_ms base pct; severity = f.over total_ms base } ∷ [])
      else []

  abbrev pub leaf_days : ProbeResult W → Option ℤ
  leaf_days r = elim (leaf_cert r) [ none ↦ none | some cert ↦ some cert.days_remaining ]

  unfoldable pub signals : ProbeResult W → VerdictContext W → List (Signal W)
  unfolding expect_signals phase_signals cert_signal baseline_signal
  signals r ctx =
      expect_signals r.expect_failures
      ++ (phase_signals (summed_timings r) ctx.warn
          ++ (cert_signal (leaf_days r) ctx.cert_warn_days
              ++ baseline_signal r.total_ms ctx.baseline_total_ms))

  -- `max_by(|a, b| a.severity.total_cmp(&b.severity))`, which keeps the later of two that are equal.
  unfoldable pub worst : Signal W → List (Signal W) → Signal W
  worst best [] = best
  worst best (s ∷ rest) = worst (if f.total_gt best.severity s.severity then best else s) rest

  unfoldable pub texts : List (Signal W) → List (Line W)
  texts [] = []
  texts (s ∷ rest) = s.text ∷ texts rest

  abbrev pub pass_headline : W → Option (HopResult W) → Line W
  pass_headline total_ms none = ok_total total_ms
  pass_headline total_ms (some hop) = passed hop.status total_ms hop.http_version

  -- The verdict on a probe that reached a server.
  unfoldable pub judge : W → Option (HopResult W) → List (Signal W) → Verdict W
  unfolding worst texts
  judge total_ms hop [] = record {
    state = pass;
    headline = pass_headline total_ms hop;
    reasons = [];
  }
  judge total_ms hop (s ∷ rest) = record {
    state = degraded;
    headline = (worst s rest).text;
    reasons = texts (s ∷ rest);
  }

  -- The returns of `assess`, in their order: from the error, the last hop and the signals.
  unfoldable pub verdict_of :
      Option ProbeError → Option (HopResult W) → W → List (Signal W) → Verdict W
  unfolding judge
  verdict_of (some e) hop total_ms ss = record {
    state = down;
    headline = failed e.phase e.timed_out e.message;
    reasons = reasons_of e.phase e.message e.hint;
  }
  verdict_of none none total_ms ss = record {
    state = down;
    headline = no_response;
    reasons = no_hops ∷ [];
  }
  verdict_of none (some hop) total_ms ss = judge total_ms (some hop) ss

  unfoldable pub assess : ProbeResult W → VerdictContext W → Verdict W
  unfolding verdict_of signals
  assess r ctx = verdict_of r.error (final_hop r) r.total_ms (signals r ctx)
