-- ===== src/Prom/Reading.antt =====
-- A reader of the text format of Prometheus, said apart from the code, reads what src/output/prom.rs
-- prints.
use mathlib.Core.Option
use httprove.Base.{
  ℕ, zero, suc, ◌≤◌, List, [], ◌∷◌, ◌++◌, Option, none, some, Bool, true, false, ◌||◌, ◌&&◌, ◌==◌,
  leb, if◌then◌else◌, length, ◌≡◌, All,
}
use httprove.Text.{codes, push_head}
use httprove.Types.{Text}
use httprove.Output.Escapes.{read_label}
use httprove.Prom.{Value, escaped, verbatim, Sample, Family, kind_text}

abbrev pub is_name_char : ℕ → Bool
is_name_char c =
    (leb b'a' c && leb c b'z')
    || ((leb b'A' c && leb c b'Z') || ((leb b'0' c && leb c b'9') || c == b'_'))

unfoldable pub span_name : Text → Text × Text
span_name [] = ([], [])
span_name (c ∷ cs) =
    let rest = span_name cs in if is_name_char c then (c ∷ rest.0, rest.1) else ([], c ∷ cs)

-- A line: what stands after `#`, or a name with its labels and its value.
pub data Entry : Type 0 where
  comment : Text → Entry
  sampled : Text → List (Text × Text) → Text → Entry
  unreadable : Entry

abbrev pub Labels : Type 0
Labels = List (Text × Text) × Text

abbrev pub behind_space : Text → Option Text
behind_space [] = none
behind_space (c ∷ rest) = if c == 32 then some rest else none

-- What follows a label's closing quote.
abbrev pub after_quote : (Text → Option Labels) → Text → Text → Text → Option Labels
after_quote again key value [] = none
after_quote again key value (c ∷ rest) =
    if c == b','
    then Option.map (λ (l : Labels). ((key, value) ∷ l.0, l.1)) (again rest)
    else if c == b'}'
    then Option.map (λ (t : Text). ((key, value) ∷ [], t)) (behind_space rest)
    else none

abbrev pub after_value : (Text → Option Labels) → Text → Option (Text × Text) → Option Labels
after_value again key none = none
after_value again key (some (value, rest)) = after_quote again key value rest

-- What follows a label's name.
abbrev pub after_key : (Text → Option Labels) → Text × Text → Option Labels
after_key again (key, []) = none
after_key again (key, c ∷ []) = none
after_key again (key, c ∷ d ∷ rest) =
    if c == b'=' && d == 34 then after_value again key (read_label false rest) else none

-- Up to so many labels, and the value behind them.
unfoldable pub read_labels : ℕ → Text → Option Labels
unfolding span_name read_label
read_labels zero text = none
read_labels (suc n) text = after_key (read_labels n) (span_name text)

abbrev pub entry_of : Text → Option Labels → Entry
entry_of name none = unreadable
entry_of name (some (labels, value)) = sampled name labels value

abbrev pub max_labels : ℕ
max_labels = 8

abbrev pub after_name : Text × Text → Entry
after_name (name, []) = unreadable
after_name (name, c ∷ rest) =
    if c == 32
    then sampled name [] rest
    else if c == b'{'
    then entry_of name (read_labels max_labels rest)
    else unreadable

unfoldable pub read_line : Text → Entry
unfolding span_name read_labels
read_line [] = unreadable
read_line (c ∷ cs) = if c == b'#' then comment cs else after_name (span_name (c ∷ cs))

unfoldable pub cut_lines : Text → List Text
unfolding push_head
cut_lines [] = []
cut_lines (c ∷ cs) = let rest = cut_lines cs in if c == 10 then [] ∷ rest else push_head c rest

abbrev pub read_lines : List Text → List Entry
read_lines [] = []
read_lines (line ∷ rest) = read_line line ∷ read_lines rest

unfoldable pub read_metrics : Text → List Entry
unfolding cut_lines read_line
read_metrics text = read_lines (cut_lines text)

-- What the families mean.
abbrev pub meant : Value → Text
meant (escaped t) = t
meant (verbatim t) = t

abbrev pub meant_labels : List (Text × Value) → List (Text × Text)
meant_labels [] = []
meant_labels ((key, value) ∷ ls) = (key, meant value) ∷ meant_labels ls

abbrev pub meant_samples : Text → List Sample → List Entry
meant_samples name [] = []
meant_samples name (s ∷ samples) =
    sampled name (meant_labels s.labels) s.value ∷ meant_samples name samples

abbrev pub meant_family : Family → List Sample → List Entry
meant_family f [] = []
meant_family f (s ∷ samples) =
    comment (codes " HELP " ++ (f.name ++ (32 ∷ f.help)))
    ∷ comment (codes " TYPE " ++ (f.name ++ (32 ∷ kind_text f.kind)))
    ∷ meant_samples f.name (s ∷ samples)

abbrev pub meant_all : List Family → List Entry
meant_all [] = []
meant_all (f ∷ fs) = meant_family f f.samples ++ meant_all fs

-- The texts that need no escape.
abbrev pub IsLine : Text → Type 0
IsLine t = All (λ c. (c == 10) ≡ false) t

abbrev pub IsPlain : Text → Type 0
IsPlain t = All (λ c. ((c == 10) || ((c == 34) || (c == 92))) ≡ false) t

abbrev pub IsName : Text → Type 0
IsName t = All (λ c. is_name_char c ≡ true) t

abbrev pub IsLegalValue : Value → Type 0
IsLegalValue (escaped t) = Unit
IsLegalValue (verbatim t) = IsPlain t

abbrev pub AreLegalLabels : List (Text × Value) → Type 0
AreLegalLabels [] = Unit
AreLegalLabels ((key, value) ∷ ls) = IsName key × IsLegalValue value × AreLegalLabels ls

abbrev pub IsLegalSample : Sample → Type 0
IsLegalSample s = AreLegalLabels s.labels × IsLine s.value × (length s.labels ≤ max_labels)

abbrev pub IsHead : Text → Type 0
IsHead [] = ⊥
IsHead (c ∷ cs) = IsName (c ∷ cs)

abbrev pub IsLegal : Family → Type 0
IsLegal f = IsHead f.name × IsLine f.help × All IsLegalSample f.samples
