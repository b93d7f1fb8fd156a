-- ===== src/Verdict/States.antt =====
-- The state that `assess` of src/verdict.rs gives, and what stands in the headline.
use httprove.Base.{List, [], ◌∷◌, Option, none, some, ◌≡◌, ◌≢◌, refl, ◌↔◌, ◌⊎◌, inl, inr}
use httprove.Types.{last, ProbeError, ProbeResult, HopResult, final_hop}
use httprove.Types.Number.{Float}
use httprove.Verdict.{
  pass, degraded, down, Verdict, Signal, VerdictContext, worst, judge, texts, signals, verdict_of,
  assess,
}
use httprove.Verdict.Signals.{IsNil, IsQuiet, signals-IsNil}
use httprove.Types.Number.{IsTotalOrder}
use httprove.Verdict.Worst.{IsLastMax, worst-IsLastMax}

last-none : {A : Type 0} (xs : List A) → (last xs ≡ none) ↔ (xs ≡ [])
last-none [] = (λ h. refl, λ h. refl)
last-none (x ∷ []) = (λ h. cc, λ h. cc)
last-none (x ∷ y ∷ ys) = (λ h. let k = (last-none (y ∷ ys)).0 h in cc, λ h. cc)

module _ {W : Type 0} ⦃f : Float W⦄ where
  -- The probe reported an error, or it has no hop.
  abbrev pub IsUnreached : ProbeResult W → Type 0
  IsUnreached r = (r.error ≢ none) ⊎ (r.hops ≡ [])

  judge_state :
      (total_ms : W) (hop : Option (HopResult W)) (ss : List (Signal W))
      → ((judge total_ms hop ss).state ≡ pass) ↔ IsNil ss
  unfolding judge
  judge_state total_ms hop [] = (λ h. tt, λ n. refl)
  judge_state total_ms hop (s ∷ ss) = (λ h. cc, λ n. absurd n)

  judge-down :
      (total_ms : W) (hop : Option (HopResult W)) (ss : List (Signal W))
      → (judge total_ms hop ss).state ≢ down
  unfolding judge
  judge-down total_ms hop [] h = cc
  judge-down total_ms hop (s ∷ ss) h = cc

  verdict_of-down :
      (error : Option ProbeError) (hop : Option (HopResult W)) (total_ms : W) (ss : List (Signal W))
      → ((verdict_of error hop total_ms ss).state ≡ down) ↔ ((error ≢ none) ⊎ (hop ≡ none))
  unfolding verdict_of
  verdict_of-down (some e) hop total_ms ss = (λ h. inl (λ k. cc), λ u. refl)
  verdict_of-down none none total_ms ss = (λ h. inr refl, λ u. refl)
  verdict_of-down none (some hop) total_ms ss = (
    λ h. absurd (judge-down total_ms (some hop) ss h),
    λ u. elim u [ inl n ↦ absurd (n refl) | inr e ↦ cc ],
  )

  -- A probe is DOWN exactly if it reported an error or has no hop.
  pub assess-down_iff :
      (r : ProbeResult W) (ctx : VerdictContext W) → ((assess r ctx).state ≡ down) ↔ IsUnreached r
  unfolding assess
  assess-down_iff r ctx =
      let (to, from) = verdict_of-down r.error (final_hop r) r.total_ms (signals r ctx) in
      let (empty, missing) = last-none r.hops in
      (
        λ h. elim (to h) [ inl n ↦ inl n | inr e ↦ inr (empty e) ],
        λ u. from (elim u [ inl n ↦ inl n | inr e ↦ inr (missing e) ]),
      )

  verdict_of-pass :
      (error : Option ProbeError) (hop : Option (HopResult W)) (total_ms : W) (ss : List (Signal W))
      → ((verdict_of error hop total_ms ss).state ≡ pass)
        ↔ ((error ≡ none) × (hop ≢ none) × IsNil ss)
  unfolding verdict_of
  verdict_of-pass (some e) hop total_ms ss = (λ h. cc, λ (e, n, s). cc)
  verdict_of-pass none none total_ms ss = (λ h. cc, λ (e, n, s). absurd (n refl))
  verdict_of-pass none (some hop) total_ms ss =
      let (to, from) = judge_state total_ms (some hop) ss in
      (λ h. (refl, (λ k. cc), to h), λ (e, n, s). from s)

  -- A probe passes exactly if it reported no error and has a hop, no expectation failed, no
  -- measured phase reaches a positive threshold or twice it, the leaf certificate, if there is one,
  -- has as many days left as asked for, and the total is no more than 1.5 times a positive
  -- baseline.
  pub assess-pass_iff :
      (r : ProbeResult W) (ctx : VerdictContext W)
      → ((assess r ctx).state ≡ pass) ↔ ((r.error ≡ none) × (r.hops ≢ []) × IsQuiet r ctx)
  unfolding assess
  assess-pass_iff r ctx =
      let (to, from) = verdict_of-pass r.error (final_hop r) r.total_ms (signals r ctx) in
      let (quiet, nil) = signals-IsNil r ctx in
      let (empty, missing) = last-none r.hops in
      (
        λ h. let (e, n, s) = to h in (e, (λ k. n (missing k)), quiet s),
        λ (e, n, q). from (e, (λ k. n (empty k)), nil q),
      )

  IsHeadline : Verdict W → List (Signal W) → Type 0
  IsHeadline v ss = (s : Signal W) × (v.headline ≡ s.text) × IsLastMax s ss × (v.reasons ≡ texts ss)

  verdict_of-IsHeadline :
      (error : Option ProbeError) (hop : Option (HopResult W)) (total_ms : W) (ss : List (Signal W))
      → IsTotalOrder W f
      → (verdict_of error hop total_ms ss).state ≡ degraded
      → IsHeadline (verdict_of error hop total_ms ss) ss
  unfolding verdict_of judge IsHeadline
  verdict_of-IsHeadline (some e) hop total_ms ss o h = cc
  verdict_of-IsHeadline none none total_ms ss o h = cc
  verdict_of-IsHeadline none (some hop) total_ms [] o h = cc
  verdict_of-IsHeadline none (some hop) total_ms (s ∷ ss) o h =
      (worst s ss, refl, worst-IsLastMax s ss o, refl)

  -- If `total_cmp` is a total order, the headline of a DEGRADED verdict is the text of the last of
  -- the gravest signals, and its reasons are the texts of all the signals, in their order.
  pub assess-headline :
      (r : ProbeResult W) (ctx : VerdictContext W)
      → IsTotalOrder W f
      → (assess r ctx).state ≡ degraded
      → (s : Signal W) × ((assess r ctx).headline ≡ s.text)
        × IsLastMax s (signals r ctx)
        × ((assess r ctx).reasons ≡ texts (signals r ctx))
  unfolding assess IsHeadline
  assess-headline r ctx o h =
      verdict_of-IsHeadline r.error (final_hop r) r.total_ms (signals r ctx) o h
