-- ===== src/Output/Escapes.antt =====
-- What src/output/prom.rs and src/output/html.rs escape comes back, or stays harmless.
use mathlib.Core.List.{append_assoc}
use httprove.Base.{
  ℕ, [], ◌∷◌, ◌++◌, Option, none, some, Bool, true, false, ◌||◌, ◌==◌, if◌then◌else◌, ◌≡◌, refl,
  arith, ap, ◌∙◌,
}
use httprove.Types.{Text}
use httprove.Output.{label_char, escape_label, html_char, escape}

-- A character in front of what was read.
abbrev pub put : ℕ → Option (Text × Text) → Option (Text × Text)
put c none = none
put c (some (value, rest)) = some (c ∷ value, rest)

-- The value of a label up to its closing quote, as the text format of Prometheus says, and what
-- follows it. The first argument says that a backslash stands before.
unfoldable pub read_label : Bool → Text → Option (Text × Text)
read_label escaped [] = none
read_label true (c ∷ cs) =
    let rest = read_label false cs in
    if c == b'n' then put 10 rest else if c == 92 || c == 34 then put c rest else none
read_label false (c ∷ cs) =
    let after = read_label true cs in
    let rest = read_label false cs in
    if c == 92
    then after
    else if c == 34
    then some ([], cs)
    else if c == 10
    then none
    else put c rest

read_label-label_char :
    (c : ℕ) (more : Text) → read_label false (label_char c ++ more) ≡ put c (read_label false more)
unfolding read_label
read_label-label_char c more = ground arith

-- A reader of labels as the text format of Prometheus describes them reads an escaped value up to
-- its closing quote as the value that was escaped, and nothing of what follows.
pub read_label-escape_label :
    (value rest : Text) → read_label false (escape_label value ++ (34 ∷ rest)) ≡ some (value, rest)
unfolding read_label escape_label
read_label-escape_label [] rest = refl
read_label-escape_label (c ∷ cs) rest =
    ap (read_label false) (append_assoc (label_char c) (escape_label cs) (34 ∷ rest))
    ∙ (read_label-label_char c (escape_label cs ++ 34 ∷ rest)
        ∙ ap (put c) (read_label-escape_label cs rest))

-- Whether no character ends a text in HTML or a quoted attribute.
abbrev pub is_inert : Text → Bool
is_inert [] = true
is_inert (c ∷ cs) = if c == b'<' || (c == b'>' || (c == 34 || c == 39)) then false else is_inert cs

html_char-is_inert : (c : ℕ) (more : Text) → is_inert (html_char c ++ more) ≡ is_inert more
html_char-is_inert c more = ground arith

escape-is_inert : (text : Text) → is_inert (escape text) ≡ true
unfolding escape
escape-is_inert [] = refl
escape-is_inert (c ∷ cs) = html_char-is_inert c (escape cs) ∙ escape-is_inert cs
