-- ===== src/Version/Tests.antt =====
-- The tests of src/update/version.rs, and the theorems of its modules at concrete tags.
use httprove.Base.{ℕ, ◌≡◌, refl, true, false, inl, List, none, some, arith}
use httprove.Text.{codes, split, trim, parse_unsigned}
use httprove.Version.{parse, is_newer, core_of, trim_start_matches}
use httprove.Version.Grammar.{number, parse-dotted}

abbrev latest : List ℕ
latest = codes "v0.1.10"

abbrev current : List ℕ
current = codes "v0.1.9"

abbrev next : List ℕ
next = codes " vvV0.01.0-next"

abbrev garbage : List ℕ
garbage = codes "garbage"

parses :
    (parse next ≡ some (0, 1, 0)) × (parse (codes "2") ≡ some (2, 0, 0)) × (parse garbage ≡ none)
unfolding parse split core_of trim_start_matches trim parse_unsigned
parses = (refl, refl, refl)

compares :
    (is_newer latest current ≡ true)
    × (is_newer current latest ≡ false)
    × (is_newer garbage current ≡ false)
    × (is_newer latest garbage ≡ false)
unfolding is_newer parse split core_of trim_start_matches trim parse_unsigned
compares = (refl, refl, refl, refl)

parse-dotted_example :
    parse next ≡ some (number (codes "0"), number (codes "01"), number (codes "0"))
unfolding trim
parse-dotted_example =
    parse-dotted 2 1 next (codes "0") (codes "01") (codes "0") (codes "-next") refl
      (omega arith, (refl, tt)) (omega arith, (refl, (refl, tt))) (omega arith, (refl, tt))
      (inl refl) (omega arith) (omega arith) (omega arith)
