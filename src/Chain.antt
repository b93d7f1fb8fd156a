-- ===== src/Chain.antt =====
-- src/chain.rs: the analysis of a certificate chain. The issues are values of `Issue`, which hold what
-- `format!` writes into them.
pub mod Weakest
pub mod Base64
pub mod Handshake
mod Tests
use httprove.Base.{
  ℕ, zero, suc, ◌+◌, ◌-◌, ◌*◌, ◌/◌, ◌%◌, List, [], ◌∷◌, ◌++◌, reverse, Option, none, some, Bool,
  true, false, not, ◌&&◌, ◌||◌, length, get_or, ltb, leb, ◌==◌, if◌then◌else◌,
}
use httprove.Base.Int.{ℤ, pos, neg_part, ltb_ℤ}
use httprove.Text.{same_text, trim, trim_start, is_empty}
use httprove.Types.{Text, CertInfo, or_else}

pub data Issue : Type 0 where
  missing : Issue
  mismatch : Text → Issue  -- the common name
  expires_before_leaf : Text → ℤ → Issue
  expired : Text → ℤ → Issue

pub record ChainAnalysis : Type 0 where
  pub incomplete : Bool
  pub aia_repairable : Option Bool
  pub weakest_days : ℤ  -- i64
  pub weakest_subject : Text
  pub issues : List Issue

-- `ChainAnalysis::default()`
abbrev pub default : ChainAnalysis
default = record {
  incomplete = false;
  aia_repairable = none;
  weakest_days = pos 0;
  weakest_subject = [];
  issues = [];
}

abbrev pub upper_cn : Text → Option Text
upper_cn (c ∷ n ∷ rest) = if c == b'C' && n == b'N' then some rest else none
upper_cn _ = none

abbrev pub lower_cn : Text → Option Text
lower_cn (c ∷ n ∷ rest) = if c == b'c' && n == b'n' then some rest else none
lower_cn _ = none

-- `rest.strip_prefix('=').map(str::trim_start)`
abbrev pub behind_equals : Text → Option Text
behind_equals [] = none
behind_equals (c ∷ rest) = if c == b'=' then some (trim_start rest) else none

unfoldable pub strip_cn_prefix : Text → Option Text
strip_cn_prefix rdn = elim (or_else (upper_cn rdn) (lower_cn rdn)) [
  | none ↦ none
  | some rest ↦ behind_equals (trim_start rest)
]

abbrev pub non_empty : Text → Option Text
non_empty [] = none
non_empty (c ∷ cs) = some (c ∷ cs)

-- The common name in one part of the subject.
unfoldable pub common_name : Text → Option Text
unfolding strip_cn_prefix
common_name part = elim (strip_cn_prefix (trim part)) [
  | none ↦ none
  | some cn ↦ non_empty (trim cn)
]

-- The loop over the subject: the part so far, read backwards; a comma ends it unless a backslash
-- stands before the comma.
unfoldable pub scan_parts : Bool → Text → Text → Option Text
unfolding common_name
scan_parts escaped part [] = common_name (reverse part)
scan_parts escaped part (c ∷ cs) =
    let ended = or_else (common_name (reverse part)) (scan_parts false [] cs) in
    let longer = scan_parts (c == b'\\') (c ∷ part) cs in
    if c == b',' && not escaped then ended else longer

unfoldable pub cn_of : Text → Text
unfolding scan_parts
cn_of subject = elim (scan_parts false [] subject) [ none ↦ subject | some cn ↦ cn ]

-- The loop that looks for the least number of days; the earlier of two equal ones stays.
unfoldable pub weakest : CertInfo → List CertInfo → CertInfo
weakest best [] = best
weakest best (cert ∷ rest) =
    weakest (if ltb_ℤ cert.days_remaining best.days_remaining then cert else best) rest

-- The server sent the leaf alone, which is neither an authority nor signed by itself.
unfoldable pub is_incomplete : CertInfo → List CertInfo → Bool
unfolding same_text
is_incomplete leaf [] = not leaf.is_ca && not (same_text leaf.issuer leaf.subject)
is_incomplete leaf (c ∷ rest) = false

unfoldable pub mismatches : CertInfo → List CertInfo → List Issue
unfolding same_text cn_of
mismatches cur [] = []
mismatches cur (next ∷ rest) =
    let later = mismatches next rest in
    if is_empty cur.issuer || is_empty next.subject
    then later
    else if same_text cur.issuer next.subject
    then later
    else mismatch (cn_of cur.subject) ∷ later

unfoldable pub early : ℤ → List CertInfo → List Issue
unfolding cn_of
early leaf_days [] = []
early leaf_days (cert ∷ rest) =
    let later = early leaf_days rest in
    if ltb_ℤ cert.days_remaining leaf_days
    then expires_before_leaf (cn_of cert.subject) cert.days_remaining ∷ later
    else later

unfoldable pub dead : List CertInfo → List Issue
unfolding cn_of
dead [] = []
dead (cert ∷ rest) =
    let later = dead rest in
    if ltb_ℤ cert.days_remaining (pos 0)
    then expired (cn_of cert.subject) (pos (neg_part cert.days_remaining)) ∷ later
    else later

unfoldable pub analyze : List CertInfo → ChainAnalysis
unfolding weakest is_incomplete mismatches early dead cn_of
analyze [] = default
analyze (leaf ∷ rest) =
    let w = weakest leaf (leaf ∷ rest) in
    let incomplete = is_incomplete leaf rest in
    record {
      incomplete = incomplete;
      aia_repairable = none;
      weakest_days = w.days_remaining;
      weakest_subject = cn_of w.subject;
      issues =
          (if incomplete then missing ∷ [] else [])
          ++ (mismatches leaf rest ++ (early leaf.days_remaining rest ++ dead (leaf ∷ rest)));
    }
