-- ===== src/Stats.antt =====
-- src/stats.rs: what is accumulated over the probes of a target. Counters are exact numbers: a u64
-- does not reach its bound.
pub mod Samples
pub mod Summary
pub mod Percentiles
pub mod Recording
pub mod Tallies
pub mod Counters
mod Tests
use httprove.Base.{
  ℕ, ◌+◌, List, [], ◌∷◌, ◌++◌, Option, none, some, Bool, true, false, not, ◌&&◌, length, drop, leb,
  ◌==◌, if◌then◌else◌,
}
use httprove.Base.Int.{ℤ, pos}
use httprove.Text.{codes, same_text}
use httprove.Types.{Text}
use httprove.Types.Number.{Float}

abbrev pub ring_cap : ℕ
ring_cap = 8192

pub record PhaseAccum (W : Type 0) : Type 0 where
  pub count : ℕ  -- u64
  pub mean : W
  pub m2 : W
  pub min : W
  pub max : W
  pub recent : List W

-- The ring: full, it loses its oldest sample.
abbrev pub push_recent : {W : Type 0} → List W → W → List W
push_recent recent v = (if length recent == ring_cap then drop 1 recent else recent) ++ v ∷ []

module _ {W : Type 0} ⦃f : Float W⦄ where
  abbrev pub no_samples : PhaseAccum W
  no_samples = record {
    count = 0;
    mean = f.nought;
    m2 = f.nought;
    min = f.nought;
    max = f.nought;
    recent = [];
  }

  unfoldable pub push : PhaseAccum W → W → PhaseAccum W
  push a v =
      let count = a.count + 1 in
      let delta = f.minus v a.mean in
      let mean = f.plus a.mean (f.over delta (f.of_int (pos count))) in
      record {
        count = count;
        mean = mean;
        m2 = f.plus a.m2 (f.times delta (f.minus v mean));
        min = if a.count == 0 then v else f.least a.min v;
        max = if a.count == 0 then v else f.greatest a.max v;
        recent = push_recent a.recent v;
      }

  unfoldable pub push_opt : PhaseAccum W → Option W → PhaseAccum W
  unfolding push
  push_opt a none = a
  push_opt a (some v) = push a v

-- One more for the key.
unfoldable pub bump : {K : Type 0} → (K → K → Bool) → K → List (K × ℕ) → List (K × ℕ)
bump same k [] = (k, 1) ∷ []
bump same k ((l, n) ∷ rest) =
    let later = bump same k rest in if same k l then (l, n + 1) ∷ rest else (l, n) ∷ later

abbrev pub strip_http : Text → Option Text
strip_http (h ∷ t ∷ u ∷ p ∷ slash ∷ rest) =
    if same_text (h ∷ t ∷ u ∷ p ∷ slash ∷ []) (codes "HTTP/") then some rest else none
strip_http _ = none

unfoldable pub normalize_http_version : Text → Text
normalize_http_version v =
    if same_text v (codes "HTTP/2")
    then codes "http2"
    else if same_text v (codes "HTTP/1.1")
    then codes "http1.1"
    else if same_text v (codes "HTTP/1.0")
    then codes "http1.0"
    else if same_text v (codes "HTTP/3")
    then codes "http3"
    else if same_text v (codes "HTTP/0.9")
    then codes "http0.9"
    else if same_text v (codes "HTTP/?")
    then codes "unknown"
    else elim (strip_http v) [ none ↦ codes "unknown" | some rest ↦ codes "http" ++ rest ]
