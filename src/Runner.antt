-- ===== src/Runner.antt =====
-- src/runner.rs: the loop that probes one target again and again. Times are numbers of nanoseconds.
-- What the clock, the cancellation token, the pause, the probe and the channel do is one `Round` of
-- each turn; tokio's `sleep_until` is a parameter.
pub mod Pacing
pub mod Counting
mod Tests
use httprove.Base.{
  ℕ, zero, suc, ◌+◌, ◌*◌, ◌/◌, ◌%◌, ◌^◌, max, List, [], ◌∷◌, Option, none, some, Bool, true, false,
  leb, if◌then◌else◌,
}

pub data Round : Type 0 where
  -- Cancelled while it slept, while it was paused, or while the probe ran.
  cancelled_asleep cancelled_paused cancelled_probing : Round
  -- The time on the clock when the loop goes to sleep, how long it is paused behind its sleep, and
  -- whether the channel took the result, or the receiver was gone.
  probed : ℕ → ℕ → Bool → Round

-- A probe that ran to its end: its number and the time of its start.
pub record Sent : Type 0 where
  pub seq : ℕ  -- u64
  pub started : ℕ

-- `interval * i / n`, the delay of the first probe of the target `i`.
unfoldable pub start_offset : ℕ → ℕ → ℕ → ℕ
start_offset interval n i = interval * i / max n 1

-- `if let Some(n) = count && seq >= n { return }`
abbrev pub is_done : Option ℕ → ℕ → Bool
is_done none seq = false
is_done (some n) seq = leb n seq

-- `sleep_until` gives the time on the clock when it returns, from the time when it is called and the
-- time that it is to wait for.
module _ (sleep_until : ℕ → ℕ → ℕ) where
  -- The loop, from the number and the time of the next start on. It returns the probes whose results
  -- it sent. Behind the end of the rounds it goes on.
  unfoldable pub probe_loop : Option ℕ → ℕ → ℕ → ℕ → List Round → List Sent
  probe_loop count interval seq next_start [] = []
  probe_loop count interval seq next_start (cancelled_asleep ∷ rounds) = []
  probe_loop count interval seq next_start (cancelled_paused ∷ rounds) = []
  probe_loop count interval seq next_start (cancelled_probing ∷ rounds) = []
  probe_loop count interval seq next_start (probed now paused taken ∷ rounds) =
      let started = sleep_until now next_start + paused in
      let later = probe_loop count interval ((seq + 1) % 2 ^ 64) (started + interval) rounds in
      if is_done count seq
      then []
      else if taken
      then record { seq = seq; started = started } ∷ later
      else []
