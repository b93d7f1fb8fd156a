-- ===== src/Fanout/Tests.antt =====
-- The rows of three addresses, one of which answers as no other does.
use httprove.Base.{ℕ, zero, suc, ◌≡◌, ◌<◌, refl, arith, List, [], ◌∷◌, none, some, false}
use httprove.Types.{ProbeResult, summed_timings}
use httprove.Types.Examples.{hundredths, hop, slow}
use httprove.Dns.Answers.{IpAddr, v4, v6}
use httprove.Dns.Diverge.{same_ip}
use httprove.Fanout.{
  Row, only_v4, collect_ips, targets, from_result, bump_count, tally, highest, top, majority_status,
  median_total, sort_totals, insert_total, median_of, is_outlier, mark_all, probe_each, run_fanout,
}
use httprove.Fanout.Plurality.{count_ok, majority_status-lt}

abbrev one : IpAddr
one = v4 (192 ∷ 0 ∷ 2 ∷ 1 ∷ [])

abbrev two : IpAddr
two = v4 (192 ∷ 0 ∷ 2 ∷ 2 ∷ [])

abbrev far : IpAddr
far = v6 (32 ∷ 1 ∷ 13 ∷ 184 ∷ 0 ∷ 0 ∷ 0 ∷ 0 ∷ 0 ∷ 0 ∷ 0 ∷ 0 ∷ 0 ∷ 0 ∷ 0 ∷ 1 ∷ [])

abbrev odd : ProbeResult ℕ
odd = record slow { hops = record hop { status = 200 } ∷ [] }

abbrev rows : List (Row ℕ)
rows = from_result one slow ∷ from_result two odd ∷ from_result far slow ∷ []

abbrev odd_second : IpAddr → ℕ → ProbeResult ℕ
odd_second ip zero = slow
odd_second ip (suc zero) = odd
odd_second ip (suc (suc n)) = slow

found_once : targets none only_v4 (some (one ∷ far ∷ two ∷ one ∷ [])) ≡ some (one ∷ two ∷ [])
unfolding collect_ips same_ip
found_once = refl

most_say_503 : majority_status rows ≡ some 503
unfolding majority_status tally top highest bump_count from_result summed_timings
most_say_503 = refl

tied : majority_status (from_result one slow ∷ from_result two odd ∷ []) ≡ none
unfolding majority_status tally top highest bump_count from_result summed_timings
tied = refl

one_stands_out : run_fanout (λ l. l) odd_second (some (one ∷ two ∷ far ∷ [])) ≡ some false
unfolding run_fanout probe_each mark_all is_outlier majority_status tally top highest bump_count
    from_result summed_timings median_total sort_totals insert_total median_of
one_stands_out = refl

majority_status-lt_example : count_ok 200 rows < count_ok 503 rows
majority_status-lt_example = majority_status-lt rows 503 200 most_say_503 (λ e. omega arith)
