-- ===== src/Runner/Pacing.antt =====
-- When the loop of src/runner.rs starts its probes.
use native.Mathlib.Nat.{div-mul-le_self, div-lt_iff_lt-mul, le-div_iff_mul-le}
use httprove.Base.{ℕ, suc, ◌+◌, ◌*◌, ◌%◌, ◌^◌, ◌≤◌, ◌<◌, max, List, [], ◌∷◌, Option, arith, ◌≡◌}
use httprove.Runner.{
  Round, cancelled_asleep, cancelled_paused, cancelled_probing, probed, Sent, start_offset,
  probe_loop,
}

-- The first start is not before the time, and from each start to the next the interval passes.
abbrev pub Spaced : ℕ → ℕ → List Sent → Type 0
Spaced interval earliest [] = Unit
Spaced interval earliest (s ∷ rest) =
    (earliest ≤ s.started) × Spaced interval (s.started + interval) rest

-- If `sleep_until` never returns before the time that it is to wait for, the first probe starts at
-- `next_start` at the earliest, and each further one at least the interval after the start of the
-- one before it, whatever the clock shows and however long the loop is paused.
pub probe_loop-Spaced :
    (sleep : ℕ → ℕ → ℕ) (count : Option ℕ) (interval seq next_start : ℕ) (rounds : List Round)
    → ((now time : ℕ) → time ≤ sleep now time)
    → Spaced interval next_start (probe_loop sleep count interval seq next_start rounds)
unfolding probe_loop
probe_loop-Spaced sleep count interval seq next_start [] h = tt
probe_loop-Spaced sleep count interval seq next_start (cancelled_asleep ∷ rounds) h = tt
probe_loop-Spaced sleep count interval seq next_start (cancelled_paused ∷ rounds) h = tt
probe_loop-Spaced sleep count interval seq next_start (cancelled_probing ∷ rounds) h = tt
probe_loop-Spaced sleep count interval seq next_start (probed now paused taken ∷ rounds) h =
    let started = sleep now next_start + paused in
    let later =
      probe_loop-Spaced sleep count interval ((seq + 1) % 2 ^ 64) (started + interval) rounds h in
    let awake = h now next_start in ground arith

mul_lt : (a b c : ℕ) → 0 < a → b < c → a * b < a * c
mul_lt a b c h k = grind arith

mul_suc : (a b : ℕ) → a * suc b ≡ a * b + a
mul_suc a b = omega arith

-- If the interval is not zero, each of the `n` targets has a delay below the interval, and no
-- longer one than the next target.
pub start_offset_lem :
    (interval n i : ℕ)
    → i < n
    → 0 < interval
    → (start_offset interval n i < interval)
      × (start_offset interval n i ≤ start_offset interval n (suc i))
unfolding start_offset
start_offset_lem interval n i h k =
    let m = max n 1 in
    let some_targets : 0 < m = omega arith in
    let within : i < m = omega (arith, h) in
    let floor = div-mul-le_self (interval * i) m in
    let product : interval * i < interval * m = mul_lt interval i m k within in
    let next : interval * i ≤ interval * suc i = omega (arith, mul_suc interval i) in
    (
      (div-lt_iff_lt-mul some_targets).1 product,
      (le-div_iff_mul-le some_targets).1 (omega (arith, floor, next)),
    )
