-- ===== src/Output.antt =====
-- What src/output/prom.rs, src/output/html.rs and src/otlp.rs write and read as text: escapes,
-- hexadecimal digits and the header `Server-Timing`. The parser of `f64` is a parameter.
pub mod Escapes
pub mod Hexadecimal
mod Tests
use mathlib.Core.Option
use httprove.Base.{
  ℕ, ◌+◌, ◌-◌, ◌*◌, ◌/◌, ◌%◌, List, [], ◌∷◌, ◌++◌, Option, none, some, Bool, true, false, ltb, leb,
  ◌&&◌, ◌==◌, if◌then◌else◌, reverse,
}
use httprove.Text.{
  codes, trim, split, split_once, strip_prefix, is_some, is_empty, same_text, to_ascii_lowercase,
  drop_char, trim_end_char,
}
use httprove.Types.{Text}
use httprove.Hash.{hex_digit}

abbrev pub label_char : ℕ → Text
label_char c =
    if c == 92
    then codes "\\\\"
    else if c == 34
    then codes "\\\""
    else if c == 10
    then codes "\\n"
    else c ∷ []

unfoldable pub escape_label : Text → Text
escape_label [] = []
escape_label (c ∷ cs) = label_char c ++ escape_label cs

abbrev pub html_char : ℕ → Text
html_char c =
    if c == b'&'
    then codes "&amp;"
    else if c == b'<'
    then codes "&lt;"
    else if c == b'>'
    then codes "&gt;"
    else if c == 34
    then codes "&quot;"
    else if c == 39
    then codes "&#39;"
    else c ∷ []

-- `escape` of src/output/html.rs
unfoldable pub escape : Text → Text
escape [] = []
escape (c ∷ cs) = html_char c ++ escape cs

-- `{b:02x}` of each byte.
unfoldable pub hex16 : List ℕ → Text
hex16 [] = []
hex16 (b ∷ bs) = hex_digit (b / 16) ∷ hex_digit (b % 16) ∷ hex16 bs

-- `c.to_digit(16).unwrap_or(0)`
abbrev pub digit_or_0 : ℕ → ℕ
digit_or_0 c =
    if leb b'0' c && leb c b'9'
    then c - b'0'
    else if leb b'a' c && leb c b'f'
    then c - b'a' + 10
    else if leb b'A' c && leb c b'F'
    then c - b'A' + 10
    else 0

unfoldable pub hex_to_bytes : Text → List ℕ
hex_to_bytes [] = []
hex_to_bytes (hi ∷ []) = []
hex_to_bytes (hi ∷ lo ∷ cs) = (digit_or_0 hi * 16 + digit_or_0 lo) ∷ hex_to_bytes cs

abbrev pub ends_with : Text → Text → Bool
ends_with end s = is_some (strip_prefix (reverse end) (reverse s))

unfoldable pub build_traces_url : Text → Text
unfolding drop_char strip_prefix
build_traces_url endpoint =
    let trimmed = trim_end_char b'/' endpoint in
    if ends_with (codes "/v1/traces") trimmed then trimmed else trimmed ++ codes "/v1/traces"

abbrev pub eq_ignore_ascii_case : Text → Text → Bool
eq_ignore_ascii_case a b = same_text (to_ascii_lowercase a) (to_ascii_lowercase b)

module _ {W : Type 0} (parse_f64 : Text → Option W) where
  -- The parameters of an entry: the last `dur` counts.
  unfoldable pub find_dur : Option W → List Text → Option W
  unfolding trim split_once same_text drop_char
  find_dur dur [] = dur
  find_dur dur (param ∷ params) = elim (split_once b'=' (trim param)) [
    | none ↦ find_dur dur params
    | some (key, value) ↦
        find_dur
          (if eq_ignore_ascii_case (trim key) (codes "dur")
            then parse_f64 (trim_end_char 34 (drop_char 34 (trim value)))
            else dur)
          params
  ]

  -- The parts of an entry between semicolons.
  abbrev pub read_metric : List Text → List (Text × Option W)
  read_metric [] = []
  read_metric (name ∷ params) =
      if is_empty (trim name) then [] else (trim name, find_dur none params) ∷ []

  unfoldable pub read_entries : List Text → List (Text × Option W)
  unfolding trim split find_dur
  read_entries [] = []
  read_entries (entry ∷ entries) =
      let rest = read_entries entries in
      if is_empty (trim entry) then rest else read_metric (split b';' (trim entry)) ++ rest

  unfoldable pub parse_server_timing : List (Text × Text) → List (Text × Option W)
  unfolding read_entries same_text split
  parse_server_timing [] = []
  parse_server_timing ((name, value) ∷ headers) =
      let rest = parse_server_timing headers in
      if eq_ignore_ascii_case name (codes "server-timing")
      then read_entries (split b',' value) ++ rest
      else rest
