-- ===== src/Prom/Legal.antt =====
-- When the families of src/output/prom.rs are legal: their constant texts are checked by running, and
-- their samples from those of one target.
pub mod Counts
pub mod Gauges
pub mod Health
use httprove.Base.{
  ℕ, suc, ◌≤◌, List, [], ◌∷◌, ◌++◌, Option, none, some, Bool, true, false, ◌||◌, ◌&&◌, ◌==◌, leb,
  if◌then◌else◌, length, length-append, ◌≡◌, refl, arith, All, All-append,
}
use httprove.Base.Int.{ℤ}
use httprove.Text.{codes, is_empty}
use httprove.Types.{Text}
use httprove.Prom.{
  Value, escaped, verbatim, Sample, Family, Format, TargetMetrics, target_label, stat_samples,
  for_targets, one_sample,
}
use httprove.Prom.Reading.{
  is_name_char, IsLine, IsPlain, IsName, IsLegalValue, AreLegalLabels, IsLegalSample, IsHead,
  IsLegal,
}
use httprove.Prom.Labels.{IsPlain-IsLine}

abbrev pub every : (ℕ → Bool) → Text → Bool
every p [] = true
every p (c ∷ cs) = if p c then every p cs else false

abbrev pub never : (ℕ → Bool) → Text → Bool
never p [] = true
never p (c ∷ cs) = if p c then false else never p cs

if_both : (b x : Bool) → (if b then x else false) ≡ true → (b ≡ true) × (x ≡ true)
if_both true x h = (refl, h)
if_both false x h = absurd (ground (arith, h))

if_neither : (b x : Bool) → (if b then false else x) ≡ true → (b ≡ false) × (x ≡ true)
if_neither true x h = absurd (ground (arith, h))
if_neither false x h = (refl, h)

every-All : (p : ℕ → Bool) (t : Text) → every p t ≡ true → All (λ c. p c ≡ true) t
every-All p [] h = tt
every-All p (c ∷ cs) h = let both = if_both (p c) (every p cs) h in (both.0, every-All p cs both.1)

never-All : (p : ℕ → Bool) (t : Text) → never p t ≡ true → All (λ c. p c ≡ false) t
never-All p [] h = tt
never-All p (c ∷ cs) h =
    let both = if_neither (p c) (never p cs) h in (both.0, never-All p cs both.1)

pub every-IsName : (t : Text) → every is_name_char t ≡ true → IsName t
every-IsName t h = every-All is_name_char t h

pub never-IsPlain :
    (t : Text) → never (λ c. (c == 10) || ((c == 34) || (c == 92))) t ≡ true → IsPlain t
never-IsPlain t h = never-All (λ c. (c == 10) || ((c == 34) || (c == 92))) t h

pub never-IsLine : (t : Text) → never (λ c. c == 10) t ≡ true → IsLine t
never-IsLine t h = never-All (λ c. c == 10) t h

pub family-IsLegal :
    (f : Family)
    → (is_empty f.name ≡ false) × (every is_name_char f.name ≡ true)
    → never (λ c. c == 10) f.help ≡ true
    → All IsLegalSample f.samples
    → IsLegal f
family-IsLegal f (e, n) h samples = (head f.name e n, never-IsLine f.help h, samples)
  where
    head : (t : Text) → is_empty t ≡ false → every is_name_char t ≡ true → IsHead t
    head [] e n = absurd (ground (arith, e))
    head (c ∷ cs) e n = every-All is_name_char (c ∷ cs) n

pub All-if {ℓ} :
    {A : Type ℓ} (P : A → Type 0) (b : Bool) (xs ys : List A)
    → All P xs
    → All P ys
    → All P (if b then xs else ys)
All-if P true xs ys h k = h
All-if P false xs ys h k = k

-- Numbers and durations are written without a quote, a backslash or the end of a line.
abbrev pub IsPlainFormat : {W : Type 0} → Format W → Type 0
IsPlainFormat {W} fmt =
    ((n : ℕ) → IsPlain (fmt.number n))
    × ((z : ℤ) → IsPlain (fmt.signed z))
    × ((w : W) → IsPlain (fmt.float w))

AreLegalLabels-append :
    (ls more : List (Text × Value))
    → AreLegalLabels ls
    → AreLegalLabels more
    → AreLegalLabels (ls ++ more)
AreLegalLabels-append [] more h k = k
AreLegalLabels-append ((key, value) ∷ ls) more (n, v, h) k =
    (n, v, AreLegalLabels-append ls more h k)

module _ {W : Type 0} where
  pub for_targets-IsLegal :
      (g : TargetMetrics W → List Sample)
      → ((t : TargetMetrics W) → All IsLegalSample (g t))
      → (ts : List (TargetMetrics W)) → All IsLegalSample (for_targets g ts)
  for_targets-IsLegal g h [] = tt
  for_targets-IsLegal g h (t ∷ ts) =
      All-append _ (g t) (for_targets g ts) (h t) (for_targets-IsLegal g h ts)

  pub target_label-IsName : (t : TargetMetrics W) → IsName (target_label t).0
  target_label-IsName t = every-IsName (codes "target") refl

  pub one_sample-IsLegal :
      (t : TargetMetrics W) (value : Text) → IsLine value → All IsLegalSample (one_sample t value)
  one_sample-IsLegal t value h = (((target_label-IsName t, tt, tt), h, omega arith), tt)

  -- A second label.
  pub two_labels-IsLegal :
      (t : TargetMetrics W) (key : Text) (v : Value)
      → IsName key
      → IsLegalValue v
      → AreLegalLabels (target_label t ∷ (key, v) ∷ [])
  two_labels-IsLegal t key v k h = (target_label-IsName t, tt, (k, h, tt))

  pub stat_samples-IsLegal :
      (float : W → Text) (labels : List (Text × Value)) (stats : List Text) (values : List W)
      → ((w : W) → IsPlain (float w))
      → AreLegalLabels labels
      → length labels ≤ 7
      → All IsPlain stats
      → All IsLegalSample (stat_samples float labels stats values)
  stat_samples-IsLegal float labels [] values f h b p = tt
  stat_samples-IsLegal float labels (stat ∷ stats) [] f h b p = tt
  stat_samples-IsLegal float labels (stat ∷ stats) (v ∷ values) f h b (p, ps) =
      let last : AreLegalLabels ((codes "stat", verbatim stat) ∷ []) =
        (every-IsName (codes "stat") refl, p, tt) in
      let size = length-append labels ((codes "stat", verbatim stat) ∷ []) in
      (
        (
          AreLegalLabels-append labels _ h last,
          IsPlain-IsLine (float v) (f v),
          omega (arith, b, size),
        ),
        stat_samples-IsLegal float labels stats values f h b ps,
      )

pub flag-IsLine :
    (b : Bool) (yes_text no_text : Text)
    → IsLine yes_text
    → IsLine no_text
    → IsLine (if b then yes_text else no_text)
flag-IsLine true a b h k = h
flag-IsLine false a b h k = k
