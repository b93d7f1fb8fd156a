-- ===== src/Text.antt =====
-- The operations of Rust's `str` that the sources use, on lists of code points or of bytes.
pub mod Equal
pub mod Parts
use Prim.Native.Char.{code}
use Prim.Native.String.{String}
use mathlib.Core.Option
use httprove.Base.{
  ℕ, ◌+◌, ◌-◌, ◌*◌, ltb, leb, ◌&&◌, ◌||◌, reverse, Bool, true, false, not, List, [], ◌∷◌, Option,
  none, some, map, ◌==◌, if◌then◌else◌,
}

-- The code points of a text literal.
abbrev pub codes : String → List ℕ
codes String.[] = []
codes (String.◌∷◌ c s) = code c ∷ codes s

abbrev pub is_empty {ℓ} : {A : Type ℓ} → List A → Bool
is_empty [] = true
is_empty (x ∷ xs) = false

unfoldable pub push_head : ℕ → List (List ℕ) → List (List ℕ)
push_head c [] = (c ∷ []) ∷ []
push_head c (w ∷ ws) = (c ∷ w) ∷ ws

-- `s.split(sep)`: never empty, and an empty text is one empty part.
unfoldable pub split : ℕ → List ℕ → List (List ℕ)
unfolding push_head
split sep [] = [] ∷ []
split sep (c ∷ cs) = let parts = split sep cs in if c == sep then [] ∷ parts else push_head c parts

-- `s.strip_suffix(c)`
unfoldable pub strip_suffix : ℕ → List ℕ → Option (List ℕ)
strip_suffix c [] = none
strip_suffix c (x ∷ []) = if x == c then some [] else none
strip_suffix c (x ∷ y ∷ ys) = Option.map (λ s. x ∷ s) (strip_suffix c (y ∷ ys))

-- `char::is_whitespace`
abbrev pub is_whitespace : ℕ → Bool
is_whitespace c =
    (leb 9 c && leb c 13)
    || c == 32
    || c == 0x85
    || c == 0xA0
    || c == 0x1680
    || (leb 0x2000 c && leb c 0x200A)
    || c == 0x2028
    || c == 0x2029
    || c == 0x202F
    || c == 0x205F
    || c == 0x3000

unfoldable pub trim_start : List ℕ → List ℕ
trim_start [] = []
trim_start (c ∷ cs) = let rest = trim_start cs in if is_whitespace c then rest else c ∷ cs

-- `s.trim()`
unfoldable pub trim : List ℕ → List ℕ
unfolding trim_start
trim s = reverse (trim_start (reverse (trim_start s)))

-- `s.split_once(sep)`
unfoldable pub split_once : ℕ → List ℕ → Option (List ℕ × List ℕ)
split_once sep [] = none
split_once sep (c ∷ cs) =
    let rest = Option.map {B = List ℕ × List ℕ} (λ (a, b). (c ∷ a, b)) (split_once sep cs) in
    if c == sep then some ([], cs) else rest

abbrev pub is_digit : ℕ → Bool
is_digit c = leb b'0' c && leb c b'9'

-- The digits of an integer type with the largest value `max`, behind those that made `acc`.
unfoldable pub parse_digits : ℕ → ℕ → List ℕ → Option ℕ
parse_digits max acc [] = some acc
parse_digits max acc (c ∷ cs) =
    let value = acc * 10 + (c - b'0') in
    let rest = parse_digits max value cs in
    if is_digit c then (if ltb max value then none else rest) else none

-- `s.parse()` at an unsigned integer type: one `+` may stand in front, and a digit must follow.
unfoldable pub parse_unsigned : ℕ → List ℕ → Option ℕ
unfolding parse_digits
parse_unsigned max [] = none
parse_unsigned max (c ∷ []) = parse_digits max 0 (c ∷ [])
parse_unsigned max (c ∷ d ∷ cs) =
    if c == b'+' then parse_digits max 0 (d ∷ cs) else parse_digits max 0 (c ∷ d ∷ cs)

-- `==` on texts.
unfoldable pub same_text : List ℕ → List ℕ → Bool
same_text [] [] = true
same_text (a ∷ xs) (b ∷ ys) = let rest = same_text xs ys in if a == b then rest else false
same_text _ _ = false

abbrev pub upper : ℕ → ℕ
upper c = if leb b'a' c && leb c b'z' then c - 32 else c

abbrev pub lower : ℕ → ℕ
lower c = if leb b'A' c && leb c b'Z' then c + 32 else c

-- `s.to_ascii_uppercase()`, `s.to_ascii_lowercase()`
abbrev pub to_ascii_uppercase : List ℕ → List ℕ
to_ascii_uppercase s = map upper s

abbrev pub to_ascii_lowercase : List ℕ → List ℕ
to_ascii_lowercase s = map lower s

-- `s.strip_prefix(prefix)`
unfoldable pub strip_prefix : List ℕ → List ℕ → Option (List ℕ)
strip_prefix [] s = some s
strip_prefix (p ∷ ps) [] = none
strip_prefix (p ∷ ps) (c ∷ cs) = let rest = strip_prefix ps cs in if p == c then rest else none

abbrev pub is_some {ℓ} : {A : Type ℓ} → Option A → Bool
is_some none = false
is_some (some a) = true

-- `s.contains(needle)`
unfoldable pub contains : List ℕ → List ℕ → Bool
unfolding strip_prefix
contains needle [] = is_some (strip_prefix needle [])
contains needle (c ∷ cs) = is_some (strip_prefix needle (c ∷ cs)) || contains needle cs

abbrev pub starts_with : ℕ → List ℕ → Bool
starts_with x [] = false
starts_with x (c ∷ cs) = c == x

-- `s.lines()`: a line ends with a line feed, of which a carriage return before it is a part.
unfoldable pub lines : List ℕ → List (List ℕ)
unfolding push_head
lines [] = []
lines (c ∷ cs) =
    let rest = lines cs in
    if c == 10 then [] ∷ rest else if c == 13 && starts_with 10 cs then rest else push_head c rest

-- `trim_start_matches(x)`, `trim_end_matches(x)`
unfoldable pub drop_char : ℕ → List ℕ → List ℕ
drop_char x [] = []
drop_char x (c ∷ cs) = let rest = drop_char x cs in if c == x then rest else c ∷ cs

abbrev pub trim_end_char : ℕ → List ℕ → List ℕ
trim_end_char x s = reverse (drop_char x (reverse s))

-- Whether a word begins here.
abbrev pub starts_word : List ℕ → Bool
starts_word [] = false
starts_word (c ∷ cs) = not (is_whitespace c)

-- `s.split_whitespace()`
unfoldable pub split_whitespace : List ℕ → List (List ℕ)
unfolding push_head
split_whitespace [] = []
split_whitespace (c ∷ cs) =
    let rest = split_whitespace cs in
    if is_whitespace c then rest else if starts_word cs then push_head c rest else (c ∷ []) ∷ rest
