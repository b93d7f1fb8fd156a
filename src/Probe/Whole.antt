-- ===== src/Probe/Whole.antt =====
-- `probe` of src/probe.rs as a whole: the loop, then the checks.
use mathlib.Core.Option
use httprove.Base.{
  ℕ, List, [], Option, none, some, ◌≡◌, inl, inr, refl, sym, ap, subst, ◌∙◌, Bool-cases,
}
use httprove.Base.Options.{Has, Has-map, Has-Option_map}
use httprove.Types.{ProbeError, ProbeResult, final_hop, last, last-append}
use httprove.Types.Number.{Float}
use httprove.Probe.{UrlOps, ProbeConfig, RunHop, Progress, follow_all}
use httprove.Probe.Checks.{Surroundings, evaluate_from, evaluate_expectations, is_unset}
use httprove.Probe.Redirects.{IsTrail, IsFinal, follow_all-IsTrail}

module _ {U W : Type 0} ⦃f : Float W⦄ where
  abbrev pub assemble : UrlOps U → ProbeConfig U W → ℕ → W → Progress U W → ProbeResult W
  assemble ops cfg seq elapsed p = record {
    target = ops.to_string cfg.url;
    seq = seq;
    hops = p.hops;
    error = p.error;
    expect_failures = [];
    total_ms = elapsed;
  }

  unfoldable pub conclude :
      UrlOps U → Surroundings W → ProbeConfig U W → ℕ → W → Progress U W → ProbeResult W
  unfolding evaluate_expectations
  conclude ops env cfg seq elapsed p =
      evaluate_expectations env cfg.expect p.final_capture (assemble ops cfg seq elapsed p)

  -- The time that has passed at the end is a parameter.
  unfoldable pub probe :
      UrlOps U → Surroundings W → ProbeConfig U W → RunHop U W → ℕ → W → Option (ProbeResult W)
  unfolding follow_all conclude
  probe ops env cfg run seq elapsed =
      Option.map (conclude ops env cfg seq elapsed) (follow_all ops cfg run)

  pub evaluate_from-hops :
      (env : Surroundings W) (cfg : ProbeConfig U W) (captured : Option (List ℕ))
      (r : ProbeResult W) (e : Option ProbeError)
      → ((evaluate_from env cfg.expect captured r e).hops ≡ r.hops)
        × ((evaluate_from env cfg.expect captured r e).error ≡ r.error)
  unfolding evaluate_from
  evaluate_from-hops env cfg captured r (some e) = (refl, refl)
  evaluate_from-hops env cfg captured r none = elim (Bool-cases (is_unset cfg.expect)) [
    | inl e ↦ rw e (refl, refl)
    | inr e ↦ rw e (refl, refl)
  ]

  IsTrail-last :
      (cfg : ProbeConfig U W) (p : Progress U W)
      → IsTrail cfg p
      → p.error ≡ none
      → Has (IsFinal cfg) (last p.hops)
  IsTrail-last cfg p t fine = elim t.end [
    | inl (e, failed) ↦ absurd (failed fine)
    | inr (h, e, inl failed) ↦ absurd (failed fine)
    | inr (h, e, inr final) ↦
        subst (Has (IsFinal cfg)) (sym (ap last e ∙ last-append t.prior h)) final
  ]

  conclude-IsFinal :
      (ops : UrlOps U) (env : Surroundings W) (cfg : ProbeConfig U W) (seq : ℕ) (elapsed : W)
      (p : Progress U W)
      → IsTrail cfg p
      → (conclude ops env cfg seq elapsed p).error ≡ none
      → Has (IsFinal cfg) (final_hop (conclude ops env cfg seq elapsed p))
  unfolding conclude evaluate_expectations
  conclude-IsFinal ops env cfg seq elapsed p t fine =
      let (hops, error) =
        evaluate_from-hops env cfg p.final_capture (assemble ops cfg seq elapsed p) p.error in
      subst (λ hs. Has (IsFinal cfg) (last hs)) (sym hops) (IsTrail-last cfg p t (sym error ∙ fine))

  pub probe-final_hop :
      (ops : UrlOps U) (env : Surroundings W) (cfg : ProbeConfig U W) (run : RunHop U W) (seq : ℕ)
      (elapsed : W)
      → Has
          (λ (r : ProbeResult W). r.error ≡ none → Has (IsFinal cfg) (final_hop r))
          (probe ops env cfg run seq elapsed)
  unfolding probe
  probe-final_hop ops env cfg run seq elapsed =
      Has-Option_map (λ (r : ProbeResult W). r.error ≡ none → Has (IsFinal cfg) (final_hop r))
        (conclude ops env cfg seq elapsed) (follow_all ops cfg run)
        (Has-map (IsTrail cfg)
          (λ p.
            (conclude ops env cfg seq elapsed p).error ≡ none
            → Has (IsFinal cfg) (final_hop (conclude ops env cfg seq elapsed p)))
          (follow_all ops cfg run) (λ p. conclude-IsFinal ops env cfg seq elapsed p)
          (follow_all-IsTrail ops cfg run))
