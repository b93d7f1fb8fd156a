-- ===== src/Verdict/Signals.antt =====
-- When `assess` of src/verdict.rs collects no signal.
use httprove.Base.{List, [], ◌∷◌, ◌++◌, Option, none, some, true, false, ◌≡◌, refl, arith, ◌↔◌}
use httprove.Base.Int.{ℤ, ltb_ℤ}
use httprove.Types.{Text, warn_level, PhaseTimings, ProbeResult, summed_timings}
use httprove.Types.Number.{Float}
use httprove.Verdict.{
  Signal, WarnThresholds, VerdictContext, Phase, expect_signals, phase_signal, phase_signals,
  cert_signal, baseline_signal, leaf_days, signals,
}

-- The list has no element.
abbrev pub IsNil : {A : Type 0} → List A → Type 0
IsNil [] = Unit
IsNil (x ∷ xs) = ⊥

IsNil-append : {A : Type 0} (xs ys : List A) → IsNil (xs ++ ys) ↔ (IsNil xs × IsNil ys)
IsNil-append [] ys = (λ n. (tt, n), λ n. n.1)
IsNil-append (x ∷ xs) ys = (λ n. absurd n, λ n. absurd n.0)

abbrev pub WithinDays : Option ℤ → ℤ → Type 0
WithinDays none limit = Unit
WithinDays (some days) limit = ltb_ℤ days limit ≡ false

expect_signals-IsNil :
    (W : Type 0) ⦃f : Float W⦄ (reasons : List Text)
    → IsNil (expect_signals {W = W} reasons) ↔ (reasons ≡ [])
unfolding expect_signals
expect_signals-IsNil W [] = (λ n. refl, λ e. tt)
expect_signals-IsNil W (x ∷ xs) = (λ n. absurd n, λ e. cc)

cert_signal-IsNil :
    (W : Type 0) ⦃f : Float W⦄ (days : Option ℤ) (limit : ℤ)
    → IsNil (cert_signal {W = W} days limit) ↔ WithinDays days limit
unfolding cert_signal
cert_signal-IsNil W none limit = (λ n. tt, λ n. tt)
cert_signal-IsNil W (some days) limit = ground arith

module _ {W : Type 0} ⦃f : Float W⦄ where
  -- A value is below its threshold, or one of the two is missing, or the threshold is not positive.
  abbrev pub Within : Option W → Option W → Type 0
  Within (some value) (some threshold) =
      f.gt threshold f.nought ≡ true
      → (f.ge value threshold ≡ false) × (f.ge value (f.times threshold f.two) ≡ false)
  Within _ _ = Unit

  abbrev pub WithinBaseline : W → Option W → Type 0
  WithinBaseline total_ms none = Unit
  WithinBaseline total_ms (some base) =
      f.gt base f.nought ≡ true → f.gt total_ms (f.times f.one_half base) ≡ false

  -- Nothing that a verdict could complain of.
  pub record IsQuiet (r : ProbeResult W) (ctx : VerdictContext W) : Type 0 where
    pub expectations : r.expect_failures ≡ []
    pub dns_within : Within (summed_timings r).dns_ms ctx.warn.dns
    pub tcp_within : Within (some (summed_timings r).tcp_ms) ctx.warn.tcp
    pub tls_within : Within (summed_timings r).tls_ms ctx.warn.tls
    pub ttfb_within : Within (some (summed_timings r).ttfb_ms) ctx.warn.ttfb
    pub download_within : Within (some (summed_timings r).download_ms) ctx.warn.download
    pub total_within : Within (some (summed_timings r).total_ms) ctx.warn.total
    pub cert_within : WithinDays (leaf_days r) ctx.cert_warn_days
    pub baseline_within : WithinBaseline r.total_ms ctx.baseline_total_ms

  phase_signal-IsNil :
      (label : Phase) (value threshold : Option W)
      → IsNil (phase_signal label value threshold) ↔ Within value threshold
  unfolding phase_signal warn_level
  phase_signal-IsNil label none threshold = (λ n. tt, λ n. tt)
  phase_signal-IsNil label (some value) none = (λ n. tt, λ n. tt)
  phase_signal-IsNil label (some value) (some threshold) = ground arith

  baseline_signal-IsNil :
      (total_ms : W) (base : Option W)
      → IsNil (baseline_signal total_ms base) ↔ WithinBaseline total_ms base
  unfolding baseline_signal
  baseline_signal-IsNil total_ms none = (λ n. tt, λ n. tt)
  baseline_signal-IsNil total_ms (some base) = ground arith

  append_iff :
      {P Q : Type 0} (xs ys : List (Signal W))
      → (IsNil xs ↔ P)
      → (IsNil ys ↔ Q)
      → IsNil (xs ++ ys) ↔ (P × Q)
  append_iff xs ys p q = (
    λ n. let (a, b) = (IsNil-append xs ys).0 n in (p.0 a, q.0 b),
    λ (a, b). (IsNil-append xs ys).1 (p.1 a, q.1 b),
  )

  PhasesWithin : PhaseTimings W → WarnThresholds W → Type 0
  PhasesWithin t w =
      Within t.dns_ms w.dns
      × (Within (some t.tcp_ms) w.tcp
          × (Within t.tls_ms w.tls
              × (Within (some t.ttfb_ms) w.ttfb
                  × (Within (some t.download_ms) w.download × Within (some t.total_ms) w.total))))

  phase_signals-IsNil :
      (t : PhaseTimings W) (w : WarnThresholds W) → IsNil (phase_signals t w) ↔ PhasesWithin t w
  unfolding phase_signals PhasesWithin
  phase_signals-IsNil t w = append_iff _ _ (phase_signal-IsNil Phase.dns t.dns_ms w.dns) (
      append_iff _ _ (phase_signal-IsNil Phase.tcp (some t.tcp_ms) w.tcp) (
        append_iff _ _ (phase_signal-IsNil Phase.tls t.tls_ms w.tls) (
          append_iff _ _ (phase_signal-IsNil Phase.ttfb (some t.ttfb_ms) w.ttfb) (
            append_iff _ _ (phase_signal-IsNil Phase.download (some t.download_ms) w.download)
              (phase_signal-IsNil Phase.total (some t.total_ms) w.total)))))

  -- No signal is collected exactly if there is nothing to complain of.
  pub signals-IsNil :
      (r : ProbeResult W) (ctx : VerdictContext W) → IsNil (signals r ctx) ↔ IsQuiet r ctx
  unfolding signals PhasesWithin
  signals-IsNil r ctx =
      let parts = append_iff _ _ (expect_signals-IsNil W r.expect_failures) (
        append_iff _ _ (phase_signals-IsNil (summed_timings r) ctx.warn) (
          append_iff _ _ (cert_signal-IsNil W (leaf_days r) ctx.cert_warn_days)
            (baseline_signal-IsNil r.total_ms ctx.baseline_total_ms))) in
      (
        λ n.
            let (e, ((d, (tc, (tl, (tt', (dl, to))))), (c, b))) = parts.0 n in
            record {
              expectations = e;
              dns_within = d;
              tcp_within = tc;
              tls_within = tl;
              ttfb_within = tt';
              download_within = dl;
              total_within = to;
              cert_within = c;
              baseline_within = b;
            },
        λ q. parts.1 (
          q.expectations,
          (
            (
              q.dns_within,
              (q.tcp_within, (q.tls_within, (q.ttfb_within, (q.download_within, q.total_within)))),
            ),
            (q.cert_within, q.baseline_within),
          ),
        ),
      )
