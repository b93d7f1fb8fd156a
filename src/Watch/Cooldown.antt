-- ===== src/Watch/Cooldown.antt =====
-- The cooldown of src/watch.rs: breach events keep their distance in time.
use mathlib.Core.Option.{Option}
use httprove.Base.{ℕ, ◌+◌, ◌≤◌, ◌≡◌, ◌≢◌, ◌⊎◌, inl, inr, refl, subst, Bool, List, [], ◌∷◌, arith}
use httprove.Watch.{Fire, breach, BreachTracker, Policy, Evaluation, default, evaluate, run}

-- The times of the breach events among the evaluations, in order.
abbrev pub breach_times : List Evaluation → List Fire → List ℕ
breach_times ((_, now) ∷ es) (breach ∷ fs) = now ∷ breach_times es fs
breach_times (_ ∷ es) (_ ∷ fs) = breach_times es fs
breach_times _ _ = []

abbrev pub IsAfter : Option ℕ → ℕ → ℕ → Type 0
IsAfter Option.none gap now = Unit {0}
IsAfter (Option.some t) gap now = t + gap ≤ now

-- Each time lies at least `gap` after the one before it, the first after `last`.
abbrev pub Spaced : ℕ → Option ℕ → List ℕ → Type 0
Spaced gap last [] = Unit {0}
Spaced gap last (t ∷ ts) = IsAfter last gap t × Spaced gap (Option.some t) ts

-- The clock that the calls read does not go back.
abbrev pub Rising : ℕ → List Evaluation → Type 0
Rising t [] = Unit {0}
Rising t ((_, now) ∷ es) = (t ≤ now) × Rising now es

abbrev pub IsPast : Option ℕ → ℕ → Type 0
IsPast Option.none now = Unit {0}
IsPast (Option.some t) now = t ≤ now

-- Either a breach is sent, and the last one is far enough back, or the last one stays the last.
evaluate_cases :
    (p : Policy) (b : BreachTracker) (breached : Bool) (now : ℕ)
    → IsPast b.last_fire now
    → let (b', fire) = evaluate p b breached now in
      ((fire ≡ breach) × (b'.last_fire ≡ Option.some now) × IsAfter b.last_fire p.cooldown now)
      ⊎ ((fire ≢ breach) × (b'.last_fire ≡ b.last_fire))
unfolding evaluate
evaluate_cases p b breached now h = ground arith

IsPast-mono : (last : Option ℕ) {s t : ℕ} → IsPast last s → s ≤ t → IsPast last t
IsPast-mono Option.none h q = tt
IsPast-mono (Option.some u) h q = omega arith

breach_times-skip :
    (f : Fire) (e : Evaluation) (es : List Evaluation) (fs : List Fire)
    → f ≢ breach
    → breach_times (e ∷ es) (f ∷ fs) ≡ breach_times es fs
breach_times-skip breach e es fs h = absurd (h refl)
breach_times-skip _ e es fs h = refl

Spaced-from :
    (p : Policy) (b : BreachTracker) (t : ℕ) (es : List Evaluation)
    → IsPast b.last_fire t
    → Rising t es
    → Spaced p.cooldown b.last_fire (breach_times es (run p b es).1)
unfolding run
Spaced-from p b t [] h r = tt
Spaced-from p b t ((breached, now) ∷ es) h (q, r) =
    let past : IsPast b.last_fire now = IsPast-mono b.last_fire h q in
    let b' : BreachTracker = (evaluate p b breached now).0 in
    let rest = Spaced-from p b' now es in
    let ts : List ℕ = breach_times es (run p b' es).1 in
    elim (evaluate_cases p b breached now past) [
      | inl (sent, last, after) ↦
          rw sent (after, subst (λ l. Spaced p.cooldown l ts) last (rest (rw last (omega arith)) r))
      | inr (quiet, last) ↦
          rw (breach_times-skip _ _ es _ quiet)
            (subst (λ l. Spaced p.cooldown l ts) last (rest (rw last past) r))
    ]

-- Over any sequence of results, the times of two consecutive breach events are at least the
-- cooldown apart, if the clock does not go back.
pub breach_times-Spaced :
    (p : Policy) (es : List Evaluation)
    → Rising 0 es
    → Spaced p.cooldown Option.none (breach_times es (run p default es).1)
breach_times-Spaced p es r = Spaced-from p default 0 es tt r
