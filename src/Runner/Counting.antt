-- ===== src/Runner/Counting.antt =====
-- How often the loop of src/runner.rs probes, and how it numbers the probes.
use httprove.Base.{
  ℕ, suc, ◌+◌, ◌-◌, ◌%◌, ◌^◌, ◌≤◌, ◌<◌, List, [], ◌∷◌, Option, some, true, false, arith, ◌≡◌,
  length,
}
use httprove.Runner.{
  Round, cancelled_asleep, cancelled_paused, cancelled_probing, probed, Sent, probe_loop,
}

-- The numbers go up by one from the given one.
abbrev pub Numbered : ℕ → List Sent → Type 0
Numbered seq [] = Unit
Numbered seq (s ∷ rest) = (s.seq ≡ seq) × Numbered (seq + 1) rest

-- Every probe runs to its end and its result is taken.
abbrev pub Undisturbed : List Round → Type 0
Undisturbed [] = Unit
Undisturbed (probed now paused true ∷ rounds) = Undisturbed rounds
Undisturbed (_ ∷ rounds) = ⊥

-- The probes are numbered one by one from the first number, if it and the rounds together stay
-- below 2 ^ 64.
pub probe_loop-Numbered :
    (sleep : ℕ → ℕ → ℕ) (count : Option ℕ) (interval seq next_start : ℕ) (rounds : List Round)
    → seq + length rounds < 2 ^ 64
    → Numbered seq (probe_loop sleep count interval seq next_start rounds)
unfolding probe_loop
probe_loop-Numbered sleep count interval seq next_start [] h = tt
probe_loop-Numbered sleep count interval seq next_start (cancelled_asleep ∷ rounds) h = tt
probe_loop-Numbered sleep count interval seq next_start (cancelled_paused ∷ rounds) h = tt
probe_loop-Numbered sleep count interval seq next_start (cancelled_probing ∷ rounds) h = tt
probe_loop-Numbered sleep count interval seq next_start (probed now paused taken ∷ rounds) h =
    ground (
      arith,
      probe_loop-Numbered sleep count interval (suc seq) (sleep now next_start + paused + interval)
          rounds,
    )

at_most :
    (sleep : ℕ → ℕ → ℕ) (n interval seq next_start : ℕ) (rounds : List Round)
    → n < 2 ^ 64
    → length (probe_loop sleep (some n) interval seq next_start rounds) ≤ n - seq
unfolding probe_loop
at_most sleep n interval seq next_start [] h = omega arith
at_most sleep n interval seq next_start (cancelled_asleep ∷ rounds) h = omega arith
at_most sleep n interval seq next_start (cancelled_paused ∷ rounds) h = omega arith
at_most sleep n interval seq next_start (cancelled_probing ∷ rounds) h = omega arith
at_most sleep n interval seq next_start (probed now paused taken ∷ rounds) h = ground (
  arith,
  at_most sleep n interval ((seq + 1) % 2 ^ 64) (sleep now next_start + paused + interval) rounds h,
)

exactly :
    (sleep : ℕ → ℕ → ℕ) (n interval seq next_start : ℕ) (rounds : List Round)
    → n < 2 ^ 64
    → seq ≤ n
    → Undisturbed rounds
    → n ≤ seq + length rounds
    → length (probe_loop sleep (some n) interval seq next_start rounds) ≡ n - seq
unfolding probe_loop
exactly sleep n interval seq next_start [] h k u l = omega arith
exactly sleep n interval seq next_start (cancelled_asleep ∷ rounds) h k u l = absurd u
exactly sleep n interval seq next_start (cancelled_paused ∷ rounds) h k u l = absurd u
exactly sleep n interval seq next_start (cancelled_probing ∷ rounds) h k u l = absurd u
exactly sleep n interval seq next_start (probed now paused false ∷ rounds) h k u l = absurd u
exactly sleep n interval seq next_start (probed now paused true ∷ rounds) h k u l =
    let later =
      exactly sleep n interval ((seq + 1) % 2 ^ 64) (sleep now next_start + paused + interval)
        rounds h in
    ground arith

-- With a count of `n` below 2 ^ 64, no more than `n` results are sent whatever happens, and exactly
-- `n` if nothing disturbs at least `n` rounds.
pub probe_loop-counted :
    (sleep : ℕ → ℕ → ℕ) (n interval next_start : ℕ) (rounds : List Round)
    → n < 2 ^ 64
    → (length (probe_loop sleep (some n) interval 0 next_start rounds) ≤ n)
      × (Undisturbed rounds
          → n ≤ length rounds
          → length (probe_loop sleep (some n) interval 0 next_start rounds) ≡ n)
probe_loop-counted sleep n interval next_start rounds h = (
  omega (arith, at_most sleep n interval 0 next_start rounds h),
  λ u l.
      omega (arith, exactly sleep n interval 0 next_start rounds h (omega arith) u (omega arith)),
)
