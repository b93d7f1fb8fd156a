-- ===== src/Stats/Tallies.antt =====
-- How many of everything `StatsCollector` of src/stats.rs counts over a sequence of probes, exactly.
use httprove.Base.{
  true, false, not, ◌&&◌, if◌then◌else◌, ℕ, ◌+◌, List, [], ◌∷◌, Option, none, some, Bool,
  Bool-cases, inl, inr, length, ◌≡◌, refl, ◌∙◌, arith,
}
use httprove.Text.{is_empty}
use httprove.Dns.Answers.{IpAddr}
use httprove.Types.{Text, ProbeResult, is_success, final_hop}
use httprove.Types.Number.{Float}
use httprove.Stats.Recording.{
  StatsCollector, same_texts, answer_change, resolved, record_success, record_probe, record_all,
}

-- How often a list of answers, of which the empty ones say nothing, differs from the one before.
abbrev pub changes : Option (List Text) → List (List Text) → ℕ
changes last [] = 0
changes last ([] ∷ answers) = changes last answers
changes none ((ip ∷ ips) ∷ answers) = changes (some (ip ∷ ips)) answers
changes (some before) ((ip ∷ ips) ∷ answers) =
    (if same_texts before (ip ∷ ips) then 0 else 1) + changes (some (ip ∷ ips)) answers

module _ {W : Type 0} where
  -- How many of the probes pass a test.
  abbrev pub how_many : (ProbeResult W → Bool) → List (ProbeResult W) → ℕ
  how_many p [] = 0
  how_many p (r ∷ rs) = (if p r then 1 else 0) + how_many p rs

module _ {W : Type 0} ⦃f : Float W⦄ where
  -- The addresses at the last hop of each probe that succeeded.
  abbrev pub answers_of : (List IpAddr → List Text) → List (ProbeResult W) → List (List Text)
  answers_of sorted_texts [] = []
  answers_of sorted_texts (r ∷ rs) =
      let later = answers_of sorted_texts rs in
      if is_success r then sorted_texts (resolved (final_hop r)) ∷ later else later

  -- What the collector counts after these probes: the probes, those that succeeded, those of them
  -- that violate an expectation, their hops, and the changes of the addresses.
  pub record Counts (sorted_texts : List IpAddr → List Text) (rs : List (ProbeResult W))
      (from s : StatsCollector W) : Type 0 where
    pub sent : s.sent ≡ from.sent + length rs
    pub succeeded : s.succeeded ≡ from.succeeded + how_many is_success rs
    pub violations :
        s.expect_failed
        ≡ from.expect_failed + how_many (λ r. is_success r && not (is_empty r.expect_failures)) rs
    pub answers :
        s.dns_answer_changes
        ≡ from.dns_answer_changes + changes from.last_sorted_ips (answers_of sorted_texts rs)

answer_change-changes :
    (last : Option (List Text)) (n : ℕ) (ips : List Text) (answers : List (List Text))
    → (answer_change last n ips).0 + changes (answer_change last n ips).1 answers
      ≡ n + changes last (ips ∷ answers)
unfolding answer_change
answer_change-changes last n [] answers = refl
answer_change-changes none n (ip ∷ ips) answers = refl
answer_change-changes (some before) n (ip ∷ ips) answers =
    elim (Bool-cases (same_texts before (ip ∷ ips))) [
      | inl e ↦ rw e (omega arith)
      | inr e ↦ rw e (omega arith)
    ]

module _ {W : Type 0} ⦃f : Float W⦄ where
  record_success-Counts :
      (sorted_texts : List IpAddr → List Text) (s t : StatsCollector W) (r : ProbeResult W)
      (rs : List (ProbeResult W))
      → is_success r ≡ true
      → Counts sorted_texts rs (record_success sorted_texts s r) t
      → Counts sorted_texts (r ∷ rs) s t
  unfolding record_success
  record_success-Counts sorted_texts s t r rs e c =
      let ips = sorted_texts (resolved (final_hop r)) in
      record {
        sent = omega (arith, c.sent);
        succeeded = rw e (omega (arith, c.succeeded));
        violations = rw e (ground (arith, c.violations));
        answers = rw e (
            c.answers
            ∙ answer_change-changes s.last_sorted_ips s.dns_answer_changes ips
                (answers_of sorted_texts rs));
      }

  record_failure-Counts :
      (sorted_texts : List IpAddr → List Text) (s t : StatsCollector W) (r : ProbeResult W)
      (rs : List (ProbeResult W))
      → is_success r ≡ false
      → Counts sorted_texts rs (record s { sent = s.sent + 1; failed = s.failed + 1 }) t
      → Counts sorted_texts (r ∷ rs) s t
  record_failure-Counts sorted_texts s t r rs e c = record {
    sent = omega (arith, c.sent);
    succeeded = rw e (omega (arith, c.succeeded));
    violations = rw e (omega (arith, c.violations));
    answers = rw e c.answers;
  }

  pub record_all-Counts :
      (sorted_texts : List IpAddr → List Text) (s : StatsCollector W) (rs : List (ProbeResult W))
      → Counts sorted_texts rs s (record_all sorted_texts s rs)
  unfolding record_all record_probe
  record_all-Counts sorted_texts s [] = record {
    sent = omega arith;
    succeeded = omega arith;
    violations = omega arith;
    answers = omega arith;
  }
  record_all-Counts sorted_texts s (r ∷ rs) = elim (Bool-cases (is_success r)) [
    | inl e ↦
        let next = record_success sorted_texts s r in
        record_success-Counts sorted_texts s _ r rs e
          (rw e (record_all-Counts sorted_texts next rs))
    | inr e ↦
        let next = record s { sent = s.sent + 1; failed = s.failed + 1 } in
        record_failure-Counts sorted_texts s _ r rs e
          (rw e (record_all-Counts sorted_texts next rs))
  ]
