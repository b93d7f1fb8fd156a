-- ===== src/Stats/Summary.antt =====
-- `PhaseAccum::snapshot` of src/stats.rs: the summary of a phase, with its percentiles.
use httprove.Base.{
  ℕ, ◌-◌, List, [], ◌∷◌, Option, none, some, length, get_elem?, min, max, ◌==◌, if◌then◌else◌,
}
use httprove.Base.Int.{pos}
use httprove.Types.Number.{Float}
use httprove.Stats.{PhaseAccum}

pub record PhaseStats (W : Type 0) : Type 0 where
  pub count : ℕ  -- u64
  pub min : W
  pub max : W
  pub mean : W
  pub stddev : W
  pub p50 : W
  pub p95 : W
  pub p99 : W

-- `rank.clamp(1, n) - 1`; the list is not empty.
abbrev pub clamped : ℕ → ℕ → ℕ
clamped rank n = min (max rank 1) n - 1

module _ {W : Type 0} ⦃f : Float W⦄ where
  unfoldable pub insert_sample : W → List W → List W
  insert_sample v [] = v ∷ []
  insert_sample v (w ∷ l) =
      let rest = w ∷ insert_sample v l in if f.total_gt v w then rest else v ∷ w ∷ l

  -- `sort_by` with `total_cmp`
  unfoldable pub sort_samples : List W → List W
  unfolding insert_sample
  sort_samples [] = []
  sort_samples (v ∷ l) = insert_sample v (sort_samples l)

  -- None where the index is out of bounds, or the bounds of `clamp` are not in order.
  unfoldable pub percentile : List W → ℕ → Option W
  percentile sorted p =
      let n = length sorted in
      let rank = f.ceil (f.times (f.over (f.of_int (pos p)) f.hundred) (f.of_int (pos n))) in
      get_elem? sorted (clamped rank n)

  abbrev pub stats_of : PhaseAccum W → Option W → Option W → Option W → Option (PhaseStats W)
  stats_of a (some p50) (some p95) (some p99) = some (record {
    count = a.count;
    min = a.min;
    max = a.max;
    mean = a.mean;
    stddev = f.root (f.over a.m2 (f.of_int (pos a.count)));
    p50 = p50;
    p95 = p95;
    p99 = p99;
  })
  stats_of a _ _ _ = none

  unfoldable pub snapshot : PhaseAccum W → Option (PhaseStats W)
  unfolding percentile sort_samples
  snapshot a =
      let sorted = sort_samples a.recent in
      if a.count == 0
      then none
      else stats_of a (percentile sorted 50) (percentile sorted 95) (percentile sorted 99)
