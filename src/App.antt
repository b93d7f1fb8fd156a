-- ===== src/App.antt =====
-- src/tui/app.rs: the state of the terminal interface. Its settings, which no operation changes, are
-- left out; the label of a host (`short_host_label`, by the `url` crate) is a parameter.
pub mod Owners
pub mod Routing
mod Tests
use mathlib.Core.Option
use httprove.Base.{
  ℕ, zero, suc, ◌+◌, ◌%◌, List, [], ◌∷◌, ◌++◌, Option, none, some, Bool, true, false, ltb,
  if◌then◌else◌, length, get_elem?, map,
}
use httprove.Base.Deque.{trim_front}
use httprove.Text.{same_text}
use httprove.Types.{Text, ProbeResult, is_success, or_else}
use httprove.Types.Number.{Float}
use httprove.Dns.Answers.{IpAddr}
use httprove.Stats.Recording.{StatsCollector, with_apdex_threshold, record_probe, reset}

abbrev pub history_cap : ℕ
history_cap = 512

pub record TargetState (W : Type 0) : Type 0 where
  pub name : Text
  pub short : Text
  pub stats : StatsCollector W
  pub last_success : Option (ProbeResult W)

pub record App (W : Type 0) : Type 0 where
  pub targets : List (TargetState W)
  pub index : List (Text × ℕ)
  pub selected : ℕ
  pub history : List (ProbeResult W)
  pub paused : Bool
  pub finished : Bool

-- The map from names to positions; of two targets of one name the later one stands in it.
unfoldable pub find_index : Text → List (Text × ℕ) → Option ℕ
find_index name [] = none
find_index name ((n, i) ∷ rest) =
    or_else (find_index name rest) (if same_text n name then some i else none)

module _ {A : Type 0} where
  -- `self.targets.get_mut(i)`, with what is done to the element.
  unfoldable pub modify_at : ℕ → (A → A) → List A → List A
  modify_at i g [] = []
  modify_at zero g (x ∷ xs) = g x ∷ xs
  modify_at (suc i) g (x ∷ xs) = x ∷ modify_at i g xs

-- `.enumerate()`, with the names
unfoldable pub numbered : ℕ → List Text → List (Text × ℕ)
numbered i [] = []
numbered i (name ∷ names) = (name, i) ∷ numbered (i + 1) names

module _ {W : Type 0} ⦃f : Float W⦄ where
  unfoldable pub new : (Text → Text) → List Text → App W
  unfolding numbered
  new short names = record {
    targets =
        map
          (λ name. record {
            name = name;
            short = short name;
            stats = with_apdex_threshold none;
            last_success = none;
          })
          names;
    index = numbered 0 names;
    selected = 0;
    history = [];
    paused = false;
    finished = false;
  }

  unfoldable pub record_target :
      (List IpAddr → List Text) → ProbeResult W → TargetState W → TargetState W
  unfolding record_probe
  record_target sorted_texts r t = record t {
    stats = record_probe sorted_texts t.stats r;
    last_success = if is_success r then some r else t.last_success;
  }

  -- What `update` does to the targets, by where the name of the result stands.
  abbrev pub route :
      (List IpAddr → List Text)
      → ProbeResult W
      → Option ℕ
      → List (TargetState W)
      → List (TargetState W)
  route sorted_texts r none targets = targets
  route sorted_texts r (some i) targets = modify_at i (record_target sorted_texts r) targets

  unfoldable pub update : (List IpAddr → List Text) → App W → ProbeResult W → App W
  unfolding find_index modify_at trim_front record_target
  update sorted_texts a r = record a {
    targets = route sorted_texts r (find_index r.target a.index) a.targets;
    history = trim_front history_cap (a.history ++ (r ∷ []));
  }

  unfoldable pub update_all : (List IpAddr → List Text) → App W → List (ProbeResult W) → App W
  unfolding update
  update_all sorted_texts a [] = a
  update_all sorted_texts a (r ∷ rs) = update_all sorted_texts (update sorted_texts a r) rs

  -- The key `r`.
  unfoldable pub reset_all : App W → App W
  reset_all a = record a {
    targets =
        map (λ (t : TargetState W). record t { stats = reset t.stats; last_success = none })
          a.targets;
    history = [];
  }

module _ {W : Type 0} where
  -- The tabulator key.
  unfoldable pub next_target : App W → App W
  next_target a =
      if ltb 1 (length a.targets)
      then record a { selected = (a.selected + 1) % length a.targets }
      else a

  abbrev pub finish : App W → App W
  finish a = record a { finished = true }

  abbrev pub selected_target : App W → Option (TargetState W)
  selected_target a = get_elem? a.targets a.selected

  abbrev pub short_label : App W → Text → Option Text
  short_label a name = elim (find_index name a.index) [
    | none ↦ none
    | some i ↦ Option.map (λ (t : TargetState W). t.short) (get_elem? a.targets i)
  ]

  -- The sum of what was sent to all targets.
  unfoldable pub total_sent : List (TargetState W) → ℕ
  total_sent [] = 0
  total_sent (t ∷ ts) = t.stats.sent + total_sent ts
