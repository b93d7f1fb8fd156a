-- ===== src/Watch.antt =====
-- src/watch.rs: the breach tracker behind `--on-breach`. An `Instant` is a number of nanoseconds,
-- and `duration_since` stops at zero, as `-` does. A `u32` wraps, as in a release build.
pub mod Cooldown
pub mod History
mod Tests
use mathlib.Core.Option
use mathlib.Core.Option.{Option}
use httprove.Base.{
  ℕ, ◌+◌, ◌-◌, ◌%◌, ◌^◌, max, Bool, true, false, ◌&&◌, List, [], ◌∷◌, leb, if◌then◌else◌,
}

pub data Fire : Type 0 where
  none breach recover : Fire

pub record BreachTracker : Type 0 where
  pub consecutive : ℕ  -- u32
  pub breaching : Bool
  pub last_fire : Option ℕ

-- `BreachTracker::default()`
abbrev pub default : BreachTracker
default = record { consecutive = 0; breaching = false; last_fire = Option.none }

abbrev pub u32 : ℕ → ℕ
u32 n = n % 2 ^ 32

-- `self.last_fire.map(|t| now.duration_since(t) >= cooldown).unwrap_or(true)`
abbrev pub cooled : Option ℕ → ℕ → ℕ → Bool
cooled Option.none cooldown now = true
cooled (Option.some t) cooldown now = leb cooldown (now - t)

-- The options of the command line that `evaluate` is called with.
pub record Policy : Type 0 where
  pub breach_after : ℕ  -- u32
  pub cooldown : ℕ
  pub on_recover : Bool

on_breach : Policy → ℕ → BreachTracker → BreachTracker × Fire
on_breach p now b =
    if leb (max p.breach_after 1) b.consecutive && cooled b.last_fire p.cooldown now
    then (record b { last_fire = Option.some now }, breach)
    else (b, none)

unfoldable pub evaluate : Policy → BreachTracker → Bool → ℕ → BreachTracker × Fire
unfolding on_breach
evaluate p b true now =
    on_breach p now (record b { consecutive = u32 (b.consecutive + 1); breaching = true })
evaluate p b false now = (
  record b { breaching = false; consecutive = 0 },
  (if b.breaching && p.on_recover then recover else none),
)

-- One tracker over a sequence of probe results: what `run_cli_mode` does for each target. An entry
-- says whether the verdict is not PASS, and the time of the call.
abbrev pub Evaluation : Type 0
Evaluation = Bool × ℕ

unfoldable pub run : Policy → BreachTracker → List Evaluation → BreachTracker × List Fire
run p b [] = (b, [])
run p b ((breached, now) ∷ es) =
    let (b', fire) = evaluate p b breached now in
    let (b'', fires) = run p b' es in (b'', fire ∷ fires)
