-- ===== src/Watch/Tests.antt =====
-- The tests of src/watch.rs, and the theorems of its modules at concrete inputs.
use mathlib.Core.Option
use httprove.Base.{◌≡◌, refl, true, false, List, [], ◌∷◌, arith}
use httprove.Watch.{none, breach, recover, Policy, Evaluation, default, evaluate, run}
use httprove.Watch.Cooldown.{Spaced, breach_times, breach_times-Spaced}
use httprove.Watch.History.{evaluate-run, run_recovers_unannounced}

abbrev patient : Policy
patient = record { breach_after = 2; cooldown = 60; on_recover = true }

abbrev outage : List Evaluation
outage = (true, 5) ∷ (true, 15) ∷ (true, 20) ∷ (true, 80) ∷ (false, 90) ∷ (false, 95) ∷ []

outage_fires : (run patient default outage).1 ≡ none ∷ breach ∷ none ∷ breach ∷ recover ∷ none ∷ []
unfolding run evaluate
outage_fires = refl

breach_times-Spaced_example :
    Spaced 60 Option.none (breach_times outage (run patient default outage).1)
breach_times-Spaced_example = breach_times-Spaced patient outage (omega arith)

evaluate-run_example : (evaluate patient (run patient default outage).0 true 200).1 ≡ none
unfolding run evaluate
evaluate-run_example = evaluate-run patient outage true 200 (omega arith)

run_recovers_unannounced_example :
    (run patient default ((true, 5) ∷ (false, 6) ∷ [])).1 ≡ none ∷ recover ∷ []
run_recovers_unannounced_example = run_recovers_unannounced patient 5 6 (omega arith) refl
