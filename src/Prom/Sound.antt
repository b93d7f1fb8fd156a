-- ===== src/Prom/Sound.antt =====
-- What src/output/prom.rs prints of legal metrics is read as what they mean.
use mathlib.Core.List.{append_assoc}
use httprove.Base.{List, [], ◌∷◌, ◌++◌, false, ◌==◌, ◌≡◌, refl, ap, ◌∙◌, All, All-append}
use httprove.Text.{codes, push_head}
use httprove.Types.{Text}
use httprove.Prom.{
  Sample, Family, sample_lines, help_line, type_line, kind_text, Kind, counter, gauge, family_lines,
  text_of, push_section,
}
use httprove.Prom.Render.{sections}
use httprove.Prom.Reading.{
  read_line, cut_lines, read_lines, read_metrics, meant_samples, meant_family, meant_all, IsLine,
  IsName, IsLegalSample, IsHead, IsLegal,
}
use httprove.Prom.Labels.{with_labels-IsLine, read_line-labelled, IsName-IsLine}

-- The lines of what is printed.
cut_lines-line :
    (line rest : Text) → IsLine line → cut_lines (line ++ (10 ∷ rest)) ≡ line ∷ cut_lines rest
unfolding cut_lines push_head
cut_lines-line [] rest h = refl
cut_lines-line (c ∷ cs) rest (h, hs) = rw h (ap (push_head c) (cut_lines-line cs rest hs))

cut_lines-text_of :
    (ls : List Text) (rest : Text)
    → All IsLine ls
    → cut_lines (text_of ls ++ rest) ≡ ls ++ cut_lines rest
cut_lines-text_of [] rest h = refl
cut_lines-text_of (l ∷ ls) rest (h, hs) =
    ap cut_lines (append_assoc l (10 ∷ text_of ls) rest)
    ∙ cut_lines-line l (text_of ls ++ rest) h
    ∙ ap (◌∷◌ l) (cut_lines-text_of ls rest hs)

sample_lines-IsLine :
    (name : Text) (samples : List Sample)
    → IsName name
    → All IsLegalSample samples
    → All IsLine (sample_lines name samples)
sample_lines-IsLine name [] n h = tt
sample_lines-IsLine name (s ∷ samples) n (h, hs) = (
  All-append _ name _ (IsName-IsLine name n) (with_labels-IsLine s.labels _ h.0 (refl, h.1)),
  sample_lines-IsLine name samples n hs,
)

kind_text-IsLine : (k : Kind) → IsLine (kind_text k)
kind_text-IsLine counter = (refl, (refl, (refl, (refl, (refl, (refl, (refl, tt)))))))
kind_text-IsLine gauge = (refl, (refl, (refl, (refl, (refl, tt)))))

IsHead-IsName : (t : Text) → IsHead t → IsName t
IsHead-IsName [] h = tt
IsHead-IsName (c ∷ cs) h = h

about-IsLine : (name what : Text) → IsName name → IsLine what → IsLine (name ++ (32 ∷ what))
about-IsLine name what n h = All-append _ name _ (IsName-IsLine name n) (refl, h)

family_lines-IsLine :
    (f : Family) (samples : List Sample)
    → IsHead f.name
    → IsLine f.help
    → All IsLegalSample samples
    → All IsLine (family_lines f samples)
family_lines-IsLine f [] n h hs = tt
family_lines-IsLine f (s ∷ samples) n h hs =
    let name = IsHead-IsName f.name n in
    let help = about-IsLine f.name f.help name h in
    let type = about-IsLine f.name (kind_text f.kind) name (kind_text-IsLine f.kind) in
    (
      All-append _ (codes "# HELP ") _ hash help,
      (
        All-append _ (codes "# TYPE ") _ hash type,
        sample_lines-IsLine f.name (s ∷ samples) name hs,
      ),
    )
  where
    hash : All (λ c. (c == 10) ≡ false) (codes "# HELP ")
    hash = (refl, (refl, (refl, (refl, (refl, (refl, (refl, tt)))))))

read_lines-append :
    (ls more : List Text) → read_lines (ls ++ more) ≡ read_lines ls ++ read_lines more
read_lines-append [] more = refl
read_lines-append (l ∷ ls) more = ap (◌∷◌ (read_line l)) (read_lines-append ls more)

read_lines-sample_lines :
    (name : Text) (samples : List Sample)
    → IsHead name
    → All IsLegalSample samples
    → read_lines (sample_lines name samples) ≡ meant_samples name samples
read_lines-sample_lines name [] n h = refl
read_lines-sample_lines name (s ∷ samples) n ((l, _, b), hs) =
    let one = read_line-labelled name s.labels s.value n l b in
    let more = read_lines-sample_lines name samples n hs in cc

read_lines-family_lines :
    (f : Family) (samples : List Sample)
    → IsHead f.name
    → All IsLegalSample samples
    → read_lines (family_lines f samples) ≡ meant_family f samples
unfolding read_line
read_lines-family_lines f [] n h = refl
read_lines-family_lines f (s ∷ samples) n h =
    ap (λ es. read_line (help_line f) ∷ read_line (type_line f) ∷ es)
      (read_lines-sample_lines f.name (s ∷ samples) n h)

-- What the sections of legal families hold is read, family by family, as what the families mean.
pub read_metrics-sections :
    (fs : List Family) → All IsLegal fs → read_metrics (sections fs) ≡ meant_all fs
unfolding read_metrics cut_lines push_section
read_metrics-sections [] h = refl
read_metrics-sections (f ∷ fs) ((n, h, hs), rest) =
    ap read_lines (
      cut_lines-text_of (family_lines f f.samples) (sections fs)
        (family_lines-IsLine f f.samples n h hs))
    ∙ read_lines-append (family_lines f f.samples) (cut_lines (sections fs))
    ∙ ap (λ es. es ++ read_lines (cut_lines (sections fs)))
        (read_lines-family_lines f f.samples n hs)
    ∙ ap (λ es. meant_family f f.samples ++ es) (read_metrics-sections fs rest)
