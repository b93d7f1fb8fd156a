-- ===== src/Watch/History.antt =====
-- The state of the tracker of src/watch.rs against the history of the calls.
use mathlib.Core.Option.{Option}
use httprove.Base.{
  ℕ, ◌+◌, ◌^◌, ◌≤◌, ◌<◌, max, ◌≡◌, refl, Bool, true, false, ◌&&◌, List, [], ◌∷◌, arith, length, leb,
  if◌then◌else◌,
}
use httprove.Watch.{
  Fire, none, breach, recover, BreachTracker, Policy, Evaluation, default, cooled, evaluate, run,
}

-- How many of the evaluations at the end were breaches.
abbrev pub streak : ℕ → List Evaluation → ℕ
streak n [] = n
streak n ((true, _) ∷ es) = streak (n + 1) es
streak n ((false, _) ∷ es) = streak 0 es

-- Whether the last evaluation was a breach.
abbrev pub was_breached : Bool → List Evaluation → Bool
was_breached b [] = b
was_breached b ((breached, _) ∷ es) = was_breached breached es

-- The time of the last breach event.
abbrev pub last_breach : Option ℕ → List Evaluation → List Fire → Option ℕ
last_breach t ((_, now) ∷ es) (breach ∷ fs) = last_breach (Option.some now) es fs
last_breach t (_ ∷ es) (_ ∷ fs) = last_breach t es fs
last_breach t _ _ = t

-- What is sent for a result, said from the history and with no state.
abbrev pub fire_after : Policy → List Evaluation → List Fire → Bool → ℕ → Fire
fire_after p es fs true now =
    if leb (max p.breach_after 1) (streak 0 es + 1)
      && cooled (last_breach Option.none es fs) p.cooldown now
    then breach
    else none
fire_after p es fs false now = if was_breached false es && p.on_recover then recover else none

streak-le : (n : ℕ) (es : List Evaluation) → streak n es ≤ n + length es
streak-le n [] = omega arith
streak-le n ((true, _) ∷ es) = omega (arith, streak-le (n + 1) es)
streak-le n ((false, _) ∷ es) = omega (arith, streak-le 0 es)

run-consecutive :
    (p : Policy) (b : BreachTracker) (es : List Evaluation)
    → b.consecutive + length es < 2 ^ 32
    → (run p b es).0.consecutive ≡ streak b.consecutive es
unfolding run evaluate
run-consecutive p b [] h = refl
run-consecutive p b ((true, now) ∷ es) h =
    ground (arith, run-consecutive p (evaluate p b true now).0 es)
run-consecutive p b ((false, now) ∷ es) h =
    ground (arith, run-consecutive p (evaluate p b false now).0 es)

run-breaching :
    (p : Policy) (b : BreachTracker) (es : List Evaluation)
    → (run p b es).0.breaching ≡ was_breached b.breaching es
unfolding run evaluate
run-breaching p b [] = refl
run-breaching p b ((true, now) ∷ es) = ground (arith, run-breaching p (evaluate p b true now).0 es)
run-breaching p b ((false, now) ∷ es) =
    ground (arith, run-breaching p (evaluate p b false now).0 es)

run-last_fire :
    (p : Policy) (b : BreachTracker) (es : List Evaluation)
    → (run p b es).0.last_fire ≡ last_breach b.last_fire es (run p b es).1
unfolding run evaluate
run-last_fire p b [] = refl
run-last_fire p b ((true, now) ∷ es) = ground (arith, run-last_fire p (evaluate p b true now).0 es)
run-last_fire p b ((false, now) ∷ es) =
    ground (arith, run-last_fire p (evaluate p b false now).0 es)

-- After any history of fewer than 2 ^ 32 - 1 results, the event for the next result is the one that
-- `fire_after` reads off the history: a breach exactly at a breached result that completes
-- `max(breach_after, 1)` in a row with the last breach event at least the cooldown back, a recovery
-- exactly at a good result right after a breached one if `on_recover` is set, and else nothing.
pub evaluate-run :
    (p : Policy) (es : List Evaluation) (breached : Bool) (now : ℕ)
    → length es + 1 < 2 ^ 32
    → let (b, fires) = run p default es in
      (evaluate p b breached now).1 ≡ fire_after p es fires breached now
unfolding evaluate
evaluate-run p es true now h =
    ground (arith, streak-le 0 es, run-consecutive p default es, run-last_fire p default es)
evaluate-run p es false now h = ground (arith, run-breaching p default es)

-- With `on_recover` set and a threshold of two or more, one breached result followed by a good one
-- sends a recovery, though no breach was ever sent.
pub run_recovers_unannounced :
    (p : Policy) (s t : ℕ)
    → 2 ≤ p.breach_after
    → p.on_recover ≡ true
    → (run p default ((true, s) ∷ (false, t) ∷ [])).1 ≡ none ∷ recover ∷ []
unfolding run evaluate
run_recovers_unannounced p s t h r = ground arith
