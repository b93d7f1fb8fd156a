-- ===== src/Probe/Checks.antt =====
-- `evaluate_expectations` of src/probe.rs and `days_remaining_from` of src/cert.rs. What `format!`
-- makes of a violation, what is left of the time, and the lossy decoding of UTF-8 are parameters.
pub mod Met
use httprove.Base.{
  ℕ, ◌+◌, ◌*◌, ◌/◌, List, [], ◌∷◌, ◌++◌, Option, none, some, Bool, true, false, not, ◌&&◌, leb,
  if◌then◌else◌, map, length, take,
}
use httprove.Base.Int.{ℤ, pos, negsuc, ltb_ℤ}
use httprove.Text.{codes, contains, is_some}
use httprove.Types.{
  Text, StatusExpect, matches, ProbeError, ProbeResult, HopResult, CertInfo, final_hop, leaf_cert,
  summed_timings,
}
use httprove.Types.Number.{Float}
use httprove.Probe.{Expectations}

-- `num_seconds().div_euclid(86_400)`
unfoldable pub days_remaining_from : ℤ → ℤ
days_remaining_from (pos seconds) = pos (seconds / 86400)
days_remaining_from (negsuc seconds) = negsuc (seconds / 86400)

-- At most `max_chars` characters, and three dots in place of the others.
unfoldable pub truncate_display : Text → ℕ → Text
truncate_display s max_chars =
    if leb (length s) max_chars then s else take max_chars s ++ codes "..."

pub data Violation (W : Type 0) : Type 0 where
  status_not_in : ℕ → List StatusExpect → Violation W
  body_lacks : Text → Violation W
  slow_ttfb slow_total : W → W → Violation W
  cert_expires_in : ℤ → ℤ → Violation W
  no_certificate : Violation W

abbrev pub any_matches : List StatusExpect → ℕ → Bool
any_matches [] status = false
any_matches (e ∷ es) status = if matches e status then true else any_matches es status

-- What the formatting, the clock and the decoding give.
pub record Surroundings (W : Type 0) : Type 0 where
  pub shown : Violation W → Text
  pub seconds_left : ℤ → ℤ
  pub from_utf8_lossy : List ℕ → Text

abbrev pub is_unset : {W : Type 0} → Expectations W → Bool
is_unset e =
    not (is_some e.status)
    && (not (is_some e.body_contains)
        && (not (is_some e.max_ttfb_ms)
            && (not (is_some e.max_total_ms) && not (is_some e.min_cert_days))))

abbrev pub bytes_or_empty : Option (List ℕ) → List ℕ
bytes_or_empty none = []
bytes_or_empty (some bytes) = bytes

module _ {W : Type 0} where
  abbrev pub check_status : Option (List StatusExpect) → Option (HopResult W) → List (Violation W)
  check_status none hop = []
  check_status (some allowed) none = []
  check_status (some allowed) (some hop) =
      if any_matches allowed hop.status then [] else status_not_in hop.status allowed ∷ []

  abbrev pub check_body : Option Text → Text → List (Violation W)
  check_body none body = []
  check_body (some needle) body =
      if contains needle body then [] else body_lacks (truncate_display needle 40) ∷ []

  abbrev pub check_cert : (ℤ → ℤ) → Option ℤ → Option CertInfo → List (Violation W)
  check_cert left none cert = []
  check_cert left (some days) none = no_certificate ∷ []
  check_cert left (some days) (some cert) =
      if ltb_ℤ (days_remaining_from (left cert.not_after)) days
      then cert_expires_in (days_remaining_from (left cert.not_after)) days ∷ []
      else []

module _ {W : Type 0} ⦃f : Float W⦄ where
  abbrev pub check_most : (W → W → Violation W) → Option W → W → List (Violation W)
  check_most violation none value = []
  check_most violation (some most) value = if f.gt value most then violation value most ∷ [] else []

  unfoldable pub violations :
      Surroundings W → Expectations W → Option (List ℕ) → ProbeResult W → List (Violation W)
  unfolding days_remaining_from
  violations env expect final_body r =
      check_status expect.status (final_hop r)
      ++ (check_body expect.body_contains (env.from_utf8_lossy (bytes_or_empty final_body))
          ++ (check_most slow_ttfb expect.max_ttfb_ms (summed_timings r).ttfb_ms
              ++ (check_most slow_total expect.max_total_ms r.total_ms
                  ++ check_cert env.seconds_left expect.min_cert_days (leaf_cert r))))

  -- No check is made after an error.
  unfoldable pub evaluate_from :
      Surroundings W
      → Expectations W
      → Option (List ℕ)
      → ProbeResult W
      → Option ProbeError
      → ProbeResult W
  unfolding violations
  evaluate_from env expect final_body r (some e) = r
  evaluate_from env expect final_body r none =
      if is_unset expect
      then r
      else record r { expect_failures = map env.shown (violations env expect final_body r) }

  unfoldable pub evaluate_expectations :
      Surroundings W → Expectations W → Option (List ℕ) → ProbeResult W → ProbeResult W
  unfolding evaluate_from
  evaluate_expectations env expect final_body r = evaluate_from env expect final_body r r.error
