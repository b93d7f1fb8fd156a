-- ===== src/Prom.antt =====
-- src/output/prom.rs: the metrics as text. Each metric is a family of samples, which `push_section`
-- prints. How `format!` writes a number is a parameter.
pub mod Traffic
pub mod Last
pub mod Health
pub mod Render
pub mod Reading
pub mod Labels
pub mod Sound
pub mod Legal
pub mod Complete
mod Tests
use mathlib.Core.Option
use httprove.Base.{
  ℕ, List, [], ◌∷◌, ◌++◌, Option, none, some, Bool, true, false, if◌then◌else◌, map,
}
use httprove.Base.Int.{ℤ}
use httprove.Text.{codes}
use httprove.Types.{Text, ProbeResult}
use httprove.Verdict.{State}
use httprove.Stats.Recording.{StatsCollector}
use httprove.Stats.Summary.{PhaseStats}
use httprove.Output.{escape_label}

-- The value of a label, which is escaped or stands as it is.
pub data Value : Type 0 where
  escaped verbatim : Text → Value

abbrev pub value_text : Value → Text
value_text (escaped t) = escape_label t
value_text (verbatim t) = t

pub record Sample : Type 0 where
  pub labels : List (Text × Value)
  pub value : Text

pub data Kind : Type 0 where
  counter gauge : Kind

abbrev pub kind_text : Kind → Text
kind_text counter = codes "counter"
kind_text gauge = codes "gauge"

pub record Family : Type 0 where
  pub name : Text
  pub help : Text
  pub kind : Kind
  pub samples : List Sample

-- The labels up to the closing brace, and what follows it.
abbrev pub print_labels : Text × Value → List (Text × Value) → Text → Text
print_labels (key, value) [] end = key ++ (b'=' ∷ 34 ∷ (value_text value ++ (34 ∷ b'}' ∷ end)))
print_labels (key, value) (l ∷ ls) end =
    key ++ (b'=' ∷ 34 ∷ (value_text value ++ (34 ∷ b',' ∷ print_labels l ls end)))

abbrev pub with_labels : List (Text × Value) → Text → Text
with_labels [] end = end
with_labels (l ∷ ls) end = b'{' ∷ print_labels l ls end

abbrev pub sample_line : Text → Sample → Text
sample_line name s = name ++ with_labels s.labels (32 ∷ s.value)

abbrev pub sample_lines : Text → List Sample → List Text
sample_lines name [] = []
sample_lines name (s ∷ samples) = sample_line name s ∷ sample_lines name samples

abbrev pub help_line : Family → Text
help_line f = codes "# HELP " ++ (f.name ++ (32 ∷ f.help))

abbrev pub type_line : Family → Text
type_line f = codes "# TYPE " ++ (f.name ++ (32 ∷ kind_text f.kind))

-- The lines of `push_section`: none if there is no sample.
abbrev pub family_lines : Family → List Sample → List Text
family_lines f [] = []
family_lines f (s ∷ samples) = help_line f ∷ type_line f ∷ sample_lines f.name (s ∷ samples)

abbrev pub text_of : List Text → Text
text_of [] = []
text_of (line ∷ rest) = line ++ (10 ∷ text_of rest)

unfoldable pub push_section : Family → Text
push_section f = text_of (family_lines f f.samples)

-- How numbers are written: an unsigned and a signed integer, and an `f64`.
pub record Format (W : Type 0) : Type 0 where
  pub number : ℕ → Text
  pub signed : ℤ → Text
  pub float : W → Text

pub record TargetMetrics (W : Type 0) : Type 0 where
  pub target : Text
  pub stats : StatsCollector W
  pub last_success : Option (ProbeResult W)
  pub verdict_state : Option State
  pub slo : Option W

abbrev pub stat_order : List Text
stat_order =
    codes "min"
    ∷ codes "mean"
    ∷ codes "stddev"
    ∷ codes "p50"
    ∷ codes "p95"
    ∷ codes "p99"
    ∷ codes "max"
    ∷ []

module _ {W : Type 0} where
  abbrev pub target_label : TargetMetrics W → Text × Value
  target_label t = (codes "target", escaped t.target)

  abbrev pub stat_values : PhaseStats W → List W
  stat_values s = s.min ∷ s.mean ∷ s.stddev ∷ s.p50 ∷ s.p95 ∷ s.p99 ∷ s.max ∷ []

  -- One sample for each statistic, behind these labels.
  abbrev pub stat_samples : (W → Text) → List (Text × Value) → List Text → List W → List Sample
  stat_samples float labels [] values = []
  stat_samples float labels (stat ∷ stats) [] = []
  stat_samples float labels (stat ∷ stats) (v ∷ values) =
      record { labels = labels ++ ((codes "stat", verbatim stat) ∷ []); value = float v }
      ∷ stat_samples float labels stats values

  -- `flat_map` over the targets.
  abbrev pub for_targets : (TargetMetrics W → List Sample) → List (TargetMetrics W) → List Sample
  for_targets g [] = []
  for_targets g (t ∷ ts) = g t ++ for_targets g ts

  -- One sample with the target's label.
  abbrev pub one_sample : TargetMetrics W → Text → List Sample
  one_sample t value = record { labels = target_label t ∷ []; value = value } ∷ []
