-- ===== src/Grade/Score.antt =====
-- The score of src/tls_grade.rs against its own list of deductions.
use httprove.Base.{
  ℕ, ◌+◌, ◌-◌, ◌≤◌, List, [], ◌∷◌, ◌++◌, Option, none, some, Bool, ◌≡◌, refl, ◌↔◌, arith, All,
}
use httprove.Base.Int.{ℤ, pos, negsuc, pos_part, neg_part, ◌-ℤ◌}
use httprove.Types.{Text, TlsInfo}
use httprove.Headers.{Headers}
use httprove.Chain.{ChainAnalysis}
use httprove.Grade.{
  Deduction, tls12, obsolete, no_forward_secrecy, non_aead, weak_kx, no_hsts, short_hsts,
  hsts_without_max_age, incomplete_chain, chain_expired, chain_expires, Penalty, letter_a,
  letter_for, version_rule, secrecy_rule, aead_rule, kx_rule, max_age_rule, hsts_rule,
  parse_hsts_max_age, complete_rule, expiry_rule, rules, deduct, grade,
}

-- The points that the line of a deduction states at its end.
abbrev pub stated : Deduction → ℕ
stated tls12 = 10
stated (obsolete version) = 40
stated (no_forward_secrecy cipher) = 30
stated (non_aead cipher) = 20
stated (weak_kx g) = 15
stated no_hsts = 10
stated (short_hsts age) = 5
stated hsts_without_max_age = 5
stated incomplete_chain = 10
stated (chain_expired days) = 40
stated (chain_expires days) = 10

abbrev pub total : List Deduction → ℕ
total [] = 0
total (d ∷ ds) = stated d + total ds

-- A rule takes off what its lines state.
abbrev Honest : Penalty → Type 0
Honest (points, lines) = points ≡ total lines

version_rule-Honest : (version : Text) → Honest (version_rule version)
unfolding version_rule
version_rule-Honest version = ground arith

secrecy_rule-Honest : (cipher : Text) → Honest (secrecy_rule cipher)
unfolding secrecy_rule
secrecy_rule-Honest cipher = ground arith

aead_rule-Honest : (cipher : Text) → Honest (aead_rule cipher)
unfolding aead_rule
aead_rule-Honest cipher = ground arith

kx_rule-Honest : (g : Option Text) → Honest (kx_rule g)
unfolding kx_rule
kx_rule-Honest none = refl
kx_rule-Honest (some g) = ground arith

max_age_rule-Honest : (age : Option ℕ) → Honest (max_age_rule age)
max_age_rule-Honest none = refl
max_age_rule-Honest (some age) = ground arith

hsts_rule-Honest : (v : Option Text) → Honest (hsts_rule v)
unfolding hsts_rule
hsts_rule-Honest none = refl
hsts_rule-Honest (some v) = max_age_rule-Honest (parse_hsts_max_age v)

complete_rule-Honest : (incomplete : Bool) → Honest (complete_rule incomplete)
unfolding complete_rule
complete_rule-Honest incomplete = ground arith

expiry_rule-Honest : (d : ℤ) → Honest (expiry_rule d)
unfolding expiry_rule
expiry_rule-Honest d = ground arith

total-append : (xs ys : List Deduction) → total (xs ++ ys) ≡ total xs + total ys
total-append [] ys = omega arith
total-append (x ∷ xs) ys = omega (arith, total-append xs ys)

-- The score so far, and what the lines state, make up the start.
deduct_lem :
    (score : ℤ) (lines : List Deduction) (ps : List Penalty)
    → pos_part score + total lines ≡ 100 + neg_part score
    → All Honest ps
    → pos_part (deduct score lines ps).0 + total (deduct score lines ps).1
      ≡ 100 + neg_part (deduct score lines ps).0
unfolding deduct
deduct_lem score lines [] h v = h
deduct_lem score lines ((points, line) ∷ rest) h (honest, v) =
    deduct_lem (score -ℤ pos points) (lines ++ line) rest
      (ground (arith, total-append lines line, honest, h)) v

score_left : (z : ℤ) (t : ℕ) → pos_part z + t ≡ 100 + neg_part z → pos_part z ≡ 100 - t
score_left (pos n) t h = omega (arith, h)
score_left (negsuc n) t h = omega (arith, h)

within : (z : ℤ) (t : ℕ) → pos_part z ≡ 100 - t → 90 ≤ pos_part z → t ≤ 10
within z t h k = omega (arith, h, k)

letter_a_iff : (score : ℕ) → (letter_for score ≡ letter_a) ↔ (90 ≤ score)
unfolding letter_for
letter_a_iff score = ground arith

-- The score is what is left of 100 after the points that the listed deductions state, and never
-- negative; the letter is A exactly if they state no more than 10 points.
pub grade-stated :
    (tls : TlsInfo) (headers : Headers) (chain : ChainAnalysis)
    → ((grade tls headers chain).score ≡ 100 - total (grade tls headers chain).deductions)
      × (((grade tls headers chain).letter ≡ letter_a)
          ↔ (total (grade tls headers chain).deductions ≤ 10))
unfolding grade rules
grade-stated tls headers chain =
    let result = deduct (pos 100) [] (rules tls headers chain) in
    let sum = deduct_lem (pos 100) [] (rules tls headers chain) refl (
      version_rule-Honest tls.version,
      (
        secrecy_rule-Honest tls.cipher,
        (
          aead_rule-Honest tls.cipher,
          (
            kx_rule-Honest tls.kx_group,
            (
              hsts_rule-Honest _,
              (complete_rule-Honest chain.incomplete, (expiry_rule-Honest chain.weakest_days, tt)),
            ),
          ),
        ),
      ),
    ) in
    let left = score_left result.0 (total result.1) sum in
    let (to, from) = letter_a_iff (pos_part result.0) in
    (left, ((λ h. within result.0 _ left (to h)), λ h. from (omega (arith, left, h))))
