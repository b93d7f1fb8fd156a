-- ===== src/Version.antt =====
-- src/update/version.rs: the versions that the self-update compares. A tag is a list of code points.
pub mod Order
pub mod Grammar
mod Tests
use httprove.Base.{
  ℕ, ◌-◌, ◌^◌, Bool, true, false, ◌&&◌, ◌||◌, List, [], ◌∷◌, Option, none, some, ltb, ◌==◌,
  if◌then◌else◌,
}
use httprove.Base.Options.{◌>>=◌}
use httprove.Text.{trim, split, parse_unsigned}

-- Major, minor, patch, each a u64.
abbrev pub Triple : Type 0
Triple = ℕ × ℕ × ℕ

-- `s.trim_start_matches(c)`
unfoldable pub trim_start_matches : ℕ → List ℕ → List ℕ
trim_start_matches c [] = []
trim_start_matches c (x ∷ xs) =
    let rest = trim_start_matches c xs in if x == c then rest else x ∷ xs

-- `s.split(['-', '+']).next()`
unfoldable pub core_of : List ℕ → List ℕ
core_of [] = []
core_of (x ∷ xs) = let rest = core_of xs in if x == b'-' || x == b'+' then [] else x ∷ rest

abbrev pub parse_u64 : List ℕ → Option ℕ
parse_u64 s = parse_unsigned (2 ^ 64 - 1) s

-- `it.next().unwrap_or("0")`, and what is left of the iterator.
abbrev pub next_or_zero : List (List ℕ) → List ℕ × List (List ℕ)
next_or_zero [] = (b'0' ∷ [], [])
next_or_zero (p ∷ ps) = (p, ps)

unfoldable pub parse_parts : List (List ℕ) → Option Triple
parse_parts [] = none
parse_parts (p ∷ ps) = do
  major ← parse_u64 p
  let (q, qs) = next_or_zero ps
  minor ← parse_u64 q
  let (r, rs) = next_or_zero qs
  patch ← parse_u64 r
  some (major, minor, patch)

unfoldable pub parse : List ℕ → Option Triple
unfolding parse_parts
parse tag =
    let s = trim_start_matches b'V' (trim_start_matches b'v' (trim tag)) in
    parse_parts (split b'.' (core_of s))

-- `l > c` on triples.
abbrev pub gt : Triple → Triple → Bool
gt (a, b, c) (a', b', c') = ltb a' a || (a == a' && (ltb b' b || (b == b' && ltb c' c)))

abbrev pub newer : Option Triple → Option Triple → Bool
newer (some l) (some c) = gt l c
newer _ _ = false

unfoldable pub is_newer : List ℕ → List ℕ → Bool
is_newer latest current = newer (parse latest) (parse current)
