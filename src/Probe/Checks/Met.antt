-- ===== src/Probe/Checks/Met.antt =====
-- When `evaluate_expectations` of src/probe.rs finds no violation.
use httprove.Base.{
  ℕ, ◌+◌, ◌*◌, List, [], ◌∷◌, Option, none, some, true, false, not, ◌&&◌, map, arith, Bool-cases,
  inl, inr, subst, nil-append_both, ◌≡◌, ◌↔◌, refl, sym,
}
use httprove.Base.Options.{Has, Each}
use httprove.Base.Int.{ℤ, pos, negsuc, ltb_ℤ}
use httprove.Text.{contains, is_some}
use httprove.Types.{
  Text, StatusExpect, ProbeResult, HopResult, CertInfo, final_hop, leaf_cert, summed_timings,
}
use httprove.Types.Number.{Float}
use httprove.Probe.{Expectations}
use httprove.Probe.Checks.{
  days_remaining_from, Violation, any_matches, Surroundings, is_unset, bytes_or_empty, check_status,
  check_body, check_cert, check_most, violations, evaluate_from, evaluate_expectations, slow_ttfb,
  slow_total,
}

-- A number of days, in seconds.
abbrev pub in_seconds : ℤ → ℤ
in_seconds (pos days) = pos (days * 86400)
in_seconds (negsuc days) = negsuc (days * 86400 + 86399)

days_remaining_from-lt :
    (left days : ℤ) → ltb_ℤ (days_remaining_from left) days ≡ ltb_ℤ left (in_seconds days)
unfolding days_remaining_from
days_remaining_from-lt (pos s) (pos d) = ground arith
days_remaining_from-lt (pos s) (negsuc d) = ground arith
days_remaining_from-lt (negsuc s) (pos d) = ground arith
days_remaining_from-lt (negsuc s) (negsuc d) = ground arith

module _ {W : Type 0} where
  check_status-nil :
      (expect : Option (List StatusExpect)) (last : Option (HopResult W))
      → (check_status expect last ≡ [])
        ↔ Each (λ allowed. Each (λ hop. any_matches allowed hop.status ≡ true) last) expect
  check_status-nil none last = (λ h. tt, λ h. refl)
  check_status-nil (some allowed) none = (λ h. tt, λ h. refl)
  check_status-nil (some allowed) (some hop) = ground arith

module _ (W : Type 0) where
  check_body-nil :
      (expect : Option Text) (text : Text)
      → (check_body {W = W} expect text ≡ []) ↔ Each (λ needle. contains needle text ≡ true) expect
  check_body-nil none text = (λ h. tt, λ h. refl)
  check_body-nil (some needle) text = ground arith

  check_cert-nil :
      (left : ℤ → ℤ) (expect : Option ℤ) (leaf : Option CertInfo)
      → (check_cert {W = W} left expect leaf ≡ [])
        ↔ Each (λ days. Has (λ c. ltb_ℤ (left c.not_after) (in_seconds days) ≡ false) leaf) expect
  check_cert-nil left none leaf = (λ h. tt, λ h. refl)
  check_cert-nil left (some days) none = (λ h. cc, λ h. absurd h)
  check_cert-nil left (some days) (some cert) =
      rw (sym (days_remaining_from-lt (left cert.not_after) days)) (ground arith)

unset-none {ℓ} :
    {A B C D E : Type ℓ} (a : Option A) (b : Option B) (c : Option C) (d : Option D) (e : Option E)
    → (not (is_some a)
        && (not (is_some b) && (not (is_some c) && (not (is_some d) && not (is_some e)))))
      ≡ true
    → (a ≡ none) × (b ≡ none) × (c ≡ none) × (d ≡ none) × (e ≡ none)
unset-none none none none none none h = (refl, refl, refl, refl, refl)
unset-none none none none none (some x) h = absurd (let e = h in cc)
unset-none none none none (some x) e h = absurd (let e = h in cc)
unset-none none none (some x) d e h = absurd (let e = h in cc)
unset-none none (some x) c d e h = absurd (let e = h in cc)
unset-none (some x) b c d e h = absurd (let e = h in cc)

map-nil {ℓ κ} : {A : Type ℓ} {B : Type κ} (f : A → B) (xs : List A) → (map f xs ≡ []) ↔ (xs ≡ [])
map-nil f [] = (λ h. refl, λ h. refl)
map-nil f (x ∷ xs) = (λ h. cc, λ h. cc)

module _ {W : Type 0} ⦃f : Float W⦄ where
  check_most-nil :
      (violation : W → W → Violation W) (expect : Option W) (value : W)
      → (check_most violation expect value ≡ []) ↔ Each (λ most. f.gt value most ≡ false) expect
  check_most-nil violation none value = (λ h. tt, λ h. refl)
  check_most-nil violation (some most) value = ground arith

  -- The answer is what was expected of it, in each respect that an expectation was set for.
  pub record Meets (env : Surroundings W) (expect : Expectations W) (captured : Option (List ℕ))
      (r : ProbeResult W) : Type 0 where
    pub status :
        Each
          (λ allowed. Each (λ hop. any_matches allowed hop.status ≡ true) (final_hop r))
          expect.status
    pub body :
        Each
          (λ needle. contains needle (env.from_utf8_lossy (bytes_or_empty captured)) ≡ true)
          expect.body_contains
    pub ttfb : Each (λ most. f.gt (summed_timings r).ttfb_ms most ≡ false) expect.max_ttfb_ms
    pub total : Each (λ most. f.gt r.total_ms most ≡ false) expect.max_total_ms
    pub cert :
        Each
          (λ days.
            Has (λ c. ltb_ℤ (env.seconds_left c.not_after) (in_seconds days) ≡ false) (leaf_cert r))
          expect.min_cert_days

  violations-Meets :
      (env : Surroundings W) (expect : Expectations W) (captured : Option (List ℕ))
      (r : ProbeResult W)
      → (violations env expect captured r ≡ []) ↔ Meets env expect captured r
  unfolding violations
  violations-Meets env expect captured r =
      let text = env.from_utf8_lossy (bytes_or_empty captured) in
      let whole = nil-append_both _ _ (check_status-nil expect.status (final_hop r)) (
        nil-append_both _ _ (check_body-nil W expect.body_contains text) (
          nil-append_both _ _
            (check_most-nil slow_ttfb expect.max_ttfb_ms (summed_timings r).ttfb_ms)
            (nil-append_both _ _ (check_most-nil slow_total expect.max_total_ms r.total_ms)
              (check_cert-nil W env.seconds_left expect.min_cert_days (leaf_cert r))))) in
      (
        λ h.
            let (s, (b, (t, (m, c)))) = whole.0 h in
            record { status = s; body = b; ttfb = t; total = m; cert = c },
        λ x. whole.1 (x.status, (x.body, (x.ttfb, (x.total, x.cert)))),
      )

  is_unset-Meets :
      (env : Surroundings W) (expect : Expectations W) (captured : Option (List ℕ))
      (r : ProbeResult W)
      → is_unset expect ≡ true
      → Meets env expect captured r
  is_unset-Meets env expect captured r h =
      let (s, b, t, m, c) =
        unset-none expect.status expect.body_contains expect.max_ttfb_ms expect.max_total_ms
          expect.min_cert_days h in
      record { status = rw s tt; body = rw b tt; ttfb = rw t tt; total = rw m tt; cert = rw c tt }

  evaluate_from-Meets :
      (env : Surroundings W) (expect : Expectations W) (captured : Option (List ℕ))
      (r : ProbeResult W)
      → r.expect_failures ≡ []
      → ((evaluate_from env expect captured r none).expect_failures ≡ [])
        ↔ Meets env expect captured r
  unfolding evaluate_from
  evaluate_from-Meets env expect captured r fresh = elim (Bool-cases (is_unset expect)) [
    | inl e ↦ rw e (λ h. is_unset-Meets env expect captured r e, λ h. fresh)
    | inr e ↦
        let shown = map-nil env.shown (violations env expect captured r) in
        let met = violations-Meets env expect captured r in
        rw e (λ h. met.0 (shown.0 h), λ h. shown.1 (met.1 h))
  ]

  -- For a probe without an error and without violations so far, no violation is reported exactly if
  -- the answer is what was expected in each respect that an expectation was set for: the status,
  -- the body, the two times, and that the time left of the certificate is the asked number of whole
  -- days or more.
  pub evaluate_expectations-Meets :
      (env : Surroundings W) (expect : Expectations W) (captured : Option (List ℕ))
      (r : ProbeResult W)
      → r.expect_failures ≡ []
      → r.error ≡ none
      → ((evaluate_expectations env expect captured r).expect_failures ≡ [])
        ↔ Meets env expect captured r
  unfolding evaluate_expectations
  evaluate_expectations-Meets env expect captured r fresh fine =
      subst
        (λ e.
          ((evaluate_from env expect captured r e).expect_failures ≡ [])
          ↔ Meets env expect captured r)
        (sym fine) (evaluate_from-Meets env expect captured r fresh)
