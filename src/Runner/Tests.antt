-- ===== src/Runner/Tests.antt =====
-- The loop of src/runner.rs over a few rounds, and the theorems of its modules at them.
use httprove.Base.{max, ◌≤◌, ◌≡◌, refl, List, [], ◌∷◌, none, some, true, length, arith}
use httprove.Runner.{Round, probed, probe_loop}
use httprove.Runner.Pacing.{Spaced, probe_loop-Spaced}
use httprove.Runner.Counting.{Undisturbed, probe_loop-counted}

-- The second probe takes longer than the interval of 10.
abbrev rounds : List Round
rounds = probed 0 0 true ∷ probed 3 0 true ∷ probed 37 0 true ∷ probed 40 0 true ∷ []

three_of_four :
    probe_loop max (some 3) 10 0 0 rounds
    ≡ record { seq = 0; started = 0 }
      ∷ record { seq = 1; started = 10 }
      ∷ record { seq = 2; started = 37 }
      ∷ []
unfolding probe_loop
three_of_four = refl

probe_loop-Spaced_example : Spaced 10 0 (probe_loop max none 10 0 0 rounds)
probe_loop-Spaced_example = probe_loop-Spaced max none 10 0 0 rounds (λ now time. omega arith)

probe_loop-counted_example :
    (length (probe_loop max (some 3) 10 0 0 rounds) ≤ 3)
    × (Undisturbed rounds → 3 ≤ length rounds → length (probe_loop max (some 3) 10 0 0 rounds) ≡ 3)
probe_loop-counted_example = probe_loop-counted max 3 10 0 rounds (omega arith)
