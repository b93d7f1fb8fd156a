-- ===== src/Stats/Tests.antt =====
-- The collector of src/stats.rs over a few probes, and the theorems of its modules at them.
use native.Mathlib.Nat.{mul-le-mul_right}
use httprove.Base.{ℕ, ◌*◌, ◌/◌, ◌≤◌, arith, ◌≡◌, refl, List, [], ◌∷◌, some, length}
use httprove.Text.{codes}
use httprove.Types.{ProbeResult}
use httprove.Types.Examples.{hundredths, hundredths-IsTotalOrder, slow}
use httprove.Stats.Summary.{snapshot, percentile, sort_samples, insert_sample}
use httprove.Stats.Percentiles.{rank_of, IsRanked, snapshot-IsRanked}
use httprove.Stats.{push, no_samples, normalize_http_version}
use httprove.Stats.Samples.{window, push_all, push_all-window}

slugs :
    (normalize_http_version (codes "HTTP/1.1") ≡ codes "http1.1")
    × (normalize_http_version (codes "HTTP/4") ≡ codes "http4")
    × (normalize_http_version (codes "SPDY") ≡ codes "unknown")
unfolding normalize_http_version httprove.Text.same_text
slugs = (refl, refl, refl)

abbrev samples : List ℕ
samples = 300 ∷ 100 ∷ 200 ∷ []

push_all-window_example :
    ((push_all no_samples samples).count ≡ length samples)
    × ((push_all no_samples samples).recent ≡ window samples)
push_all-window_example = push_all-window samples

abbrev probes : List (ProbeResult ℕ)
probes = slow ∷ slow ∷ []

-- Of `hundredths`.
rank_mono : (p q n : ℕ) → p ≤ q → rank_of hundredths p n ≤ rank_of hundredths q n
rank_mono p q n h =
    let p' = p * 100 * 100 / 10000 in
    let q' = q * 100 * 100 / 10000 in
    let le : p' ≤ q' = omega (arith, h) in
    let more : p' * (n * 100) ≤ q' * (n * 100) = mul-le-mul_right (n * 100) le in
    omega (arith, more)

summary_of_three :
    snapshot {W = ℕ} (push_all no_samples (100 ∷ 200 ∷ 300 ∷ []))
    ≡ some (record {
      count = 3;
      min = 100;
      max = 300;
      mean = 200;
      stddev = 81;
      p50 = 200;
      p95 = 300;
      p99 = 300;
    })
unfolding snapshot percentile sort_samples insert_sample push_all push
summary_of_three = refl

snapshot-IsRanked_example :
    IsRanked {W = ℕ} (snapshot {W = ℕ} (push_all no_samples (300 ∷ 100 ∷ 200 ∷ [])))
snapshot-IsRanked_example = snapshot-IsRanked hundredths-IsTotalOrder rank_mono 300 (100 ∷ 200 ∷ [])
