-- ===== src/Version/Grammar.antt =====
-- src/update/version.rs: `parse` on the tags of a grammar, digits between dots.
use httprove.Base.{
  ◌⊎◌, inl, inr, ℕ, zero, suc, replicate, ◌+◌, ◌-◌, ◌*◌, ◌^◌, ◌≤◌, ◌<◌, ◌≡◌, refl, ap, ◌∙◌, true,
  false, List, [], ◌∷◌, ◌++◌, some, All, All-append, length, ltb, ◌==◌, arith,
}
use httprove.Text.{split, is_digit, parse_digits, parse_unsigned, trim, push_head}
use httprove.Version.{trim_start_matches, core_of, parse, parse_parts}

-- The number that digits denote, by the place of each.
abbrev pub number : List ℕ → ℕ
number [] = 0
number (c ∷ cs) = (c - b'0') * 10 ^ length cs + number cs

abbrev pub IsDigit : ℕ → Type 0
IsDigit c = is_digit c ≡ true

pow_suc : (n : ℕ) → 10 ^ suc n ≡ 10 * 10 ^ n
pow_suc n = omega arith

pow_pos : (n : ℕ) → 1 ≤ 10 ^ n
pow_pos zero = omega arith
pow_pos (suc n) = omega (arith, pow_pos n, pow_suc n)

shift : (acc d p : ℕ) → (acc * 10 + d) * p ≡ acc * (10 * p) + d * p
shift acc d p = omega arith

le_mul : (a p : ℕ) → 1 ≤ p → a ≤ a * p
le_mul a p h = grind arith

parse_digits-number :
    (max acc : ℕ) (cs : List ℕ)
    → All IsDigit cs
    → acc * 10 ^ length cs + number cs ≤ max
    → parse_digits max acc cs ≡ some (acc * 10 ^ length cs + number cs)
unfolding parse_digits
parse_digits-number max acc [] v h = ap some (omega arith)
parse_digits-number max acc (c ∷ cs) (digit, v) h =
    let d = c - b'0' in
    let p = 10 ^ length cs in
    let value = acc * 10 + d in
    let same : value * p + number cs ≡ acc * 10 ^ suc (length cs) + (d * p + number cs) =
      omega (arith, shift acc d p, ap (λ q. acc * q) (pow_suc (length cs))) in
    let fits : value * p + number cs ≤ max = omega (arith, same) in
    let small : ltb max value ≡ false = ground (arith, le_mul value p (pow_pos (length cs))) in
    rw digit (rw small (parse_digits-number max value cs v fits ∙ ap some same))

-- A run of digits, at least one.
abbrev pub IsNumeral : List ℕ → Type 0
IsNumeral s = (1 ≤ length s) × All IsDigit s

parse_numeral :
    (max : ℕ) (cs : List ℕ)
    → All IsDigit cs
    → number cs ≤ max
    → parse_digits max 0 cs ≡ some (number cs)
parse_numeral max cs v h = parse_digits-number max 0 cs v (omega (arith, h)) ∙ ap some (omega arith)

-- A digit is none of the marks of a tag.
digit-not : (c mark : ℕ) → IsDigit c → (mark < b'0') ⊎ (b'9' < mark) → (c == mark) ≡ false
digit-not c mark h k = ground arith

parse_unsigned-number :
    (max : ℕ) (s : List ℕ) → IsNumeral s → number s ≤ max → parse_unsigned max s ≡ some (number s)
unfolding parse_unsigned
parse_unsigned-number max [] v h = absurd (omega (arith, v.0))
parse_unsigned-number max (c ∷ []) v h = parse_numeral max (c ∷ []) v.1 h
parse_unsigned-number max (c ∷ d ∷ cs) v h =
    rw (digit-not c b'+' v.1.0 (inl (omega arith))) (parse_numeral max (c ∷ d ∷ cs) v.1 h)

split-digits : (ds : List ℕ) → All IsDigit ds → split b'.' ds ≡ ds ∷ []
unfolding split push_head
split-digits [] v = refl
split-digits (c ∷ cs) (digit, v) =
    rw (digit-not c b'.' digit (inl (omega arith))) (rw (split-digits cs v) refl)

split-digits_dot :
    (ds rest : List ℕ) → All IsDigit ds → split b'.' (ds ++ b'.' ∷ rest) ≡ ds ∷ split b'.' rest
unfolding split push_head
split-digits_dot [] rest v = refl
split-digits_dot (c ∷ cs) rest (digit, v) =
    rw (digit-not c b'.' digit (inl (omega arith))) (rw (split-digits_dot cs rest v) refl)

-- What may follow the numbers: nothing, or a text that a `-` or a `+` begins.
abbrev pub IsSuffix : List ℕ → Type 0
IsSuffix [] = Unit
IsSuffix (c ∷ cs) = (c ≡ b'-') ⊎ (c ≡ b'+')

-- A digit or a dot.
abbrev IsCore : ℕ → Type 0
IsCore c = IsDigit c ⊎ (c ≡ b'.')

core_of-suffix :
    (body suffix : List ℕ) → All IsCore body → IsSuffix suffix → core_of (body ++ suffix) ≡ body
unfolding core_of
core_of-suffix [] [] v w = refl
core_of-suffix [] (c ∷ cs) v w = ground arith
core_of-suffix (c ∷ cs) suffix (core, v) w = ground (arith, core_of-suffix cs suffix v w)

IsCore-digits : (ds : List ℕ) → All IsDigit ds → All IsCore ds
IsCore-digits [] v = tt
IsCore-digits (c ∷ cs) (digit, v) = (inl digit, IsCore-digits cs v)

trim_start_matches-replicate :
    (c n : ℕ) (s : List ℕ) → trim_start_matches c (replicate n c ++ s) ≡ trim_start_matches c s
unfolding trim_start_matches
trim_start_matches-replicate c zero s = refl
trim_start_matches-replicate c (suc n) s = ground (arith, trim_start_matches-replicate c n s)

trim_start_matches-other :
    (c x : ℕ) (s : List ℕ) → (x == c) ≡ false → trim_start_matches c (x ∷ s) ≡ x ∷ s
unfolding trim_start_matches
trim_start_matches-other c x s h = rw h refl

trim_marks :
    (n m : ℕ) (c : ℕ) (s : List ℕ)
    → IsDigit c
    → trim_start_matches b'V'
        (trim_start_matches b'v' (replicate n b'v' ++ (replicate m b'V' ++ c ∷ s)))
      ≡ c ∷ s
trim_marks n zero c s digit =
    ap (trim_start_matches b'V') (
      trim_start_matches-replicate b'v' n (c ∷ s)
      ∙ trim_start_matches-other b'v' c s (digit-not c b'v' digit (inr (omega arith))))
    ∙ trim_start_matches-other b'V' c s (digit-not c b'V' digit (inr (omega arith)))
trim_marks n (suc m) c s digit =
    ap (trim_start_matches b'V') (
      trim_start_matches-replicate b'v' n (replicate (suc m) b'V' ++ c ∷ s)
      ∙ trim_start_matches-other b'v' b'V' (replicate m b'V' ++ c ∷ s) refl)
    ∙ (trim_start_matches-replicate b'V' (suc m) (c ∷ s)
        ∙ trim_start_matches-other b'V' c s (digit-not c b'V' digit (inr (omega arith))))

abbrev pub dotted : List ℕ → List ℕ → List ℕ → List ℕ
dotted major minor patch = major ++ b'.' ∷ (minor ++ b'.' ∷ patch)

parse_parts-dotted :
    (major minor patch : List ℕ)
    → IsNumeral major
    → IsNumeral minor
    → IsNumeral patch
    → number major < 2 ^ 64
    → number minor < 2 ^ 64
    → number patch < 2 ^ 64
    → parse_parts (split b'.' (dotted major minor patch))
      ≡ some (number major, number minor, number patch)
unfolding parse_parts
parse_parts-dotted major minor patch u v w h k l =
    rw (split-digits_dot major (minor ++ b'.' ∷ patch) u.1) (
      rw (split-digits_dot minor patch v.1) (
        rw (split-digits patch w.1) (
          rw (parse_unsigned-number (2 ^ 64 - 1) major u (omega arith)) (
            rw (parse_unsigned-number (2 ^ 64 - 1) minor v (omega arith))
              (rw (parse_unsigned-number (2 ^ 64 - 1) patch w (omega arith)) refl)))))

IsCore-dotted :
    (major minor patch : List ℕ)
    → All IsDigit major
    → All IsDigit minor
    → All IsDigit patch
    → All IsCore (dotted major minor patch)
IsCore-dotted major minor patch u v w =
    All-append IsCore major (b'.' ∷ (minor ++ b'.' ∷ patch)) (IsCore-digits major u) (
      inr refl,
      All-append IsCore minor (b'.' ∷ patch) (IsCore-digits minor v)
          (inr refl, IsCore-digits patch w),
    )

-- A tag is read as the three numbers that its digits denote, in whatever number of leading zeros,
-- if around it stand only white space, before it any number of `v` and then of `V`, and behind it
-- nothing or a text that starts with `-` or `+`, and if each number fits in 64 bits.
pub parse-dotted :
    (n m : ℕ) (tag major minor patch suffix : List ℕ)
    → trim tag ≡ replicate n b'v' ++ (replicate m b'V' ++ (dotted major minor patch ++ suffix))
    → IsNumeral major
    → IsNumeral minor
    → IsNumeral patch
    → IsSuffix suffix
    → number major < 2 ^ 64
    → number minor < 2 ^ 64
    → number patch < 2 ^ 64
    → parse tag ≡ some (number major, number minor, number patch)
unfolding parse
parse-dotted n m tag [] minor patch suffix t u v w x h k l = absurd (omega (arith, u.0))
parse-dotted n m tag (c ∷ cs) minor patch suffix t u v w x h k l = rw t (
    rw (trim_marks n m c ((cs ++ b'.' ∷ (minor ++ b'.' ∷ patch)) ++ suffix) u.1.0) (
      rw
        (core_of-suffix (dotted (c ∷ cs) minor patch) suffix
          (IsCore-dotted (c ∷ cs) minor patch u.1 v.1 w.1) x)
        (parse_parts-dotted (c ∷ cs) minor patch u v w h k l)))
