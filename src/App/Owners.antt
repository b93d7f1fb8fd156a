-- ===== src/App/Owners.antt =====
-- Where the index of src/tui/app.rs finds a name: at the last of the targets that have it.
use httprove.Base.{
  ℕ, zero, suc, ◌+◌, ◌==◌, ◌≤◌, List, [], ◌∷◌, Option, none, some, Bool, true, false, not, ◌||◌,
  ◌&&◌, if◌then◌else◌, ◌≡◌, refl, sym, ap, ◌∙◌, arith, Bool-cases, inl, inr,
}
use httprove.Text.{same_text}
use httprove.Types.{Text}
use httprove.App.{find_index, numbered}

abbrev pub is_at : ℕ → Option ℕ → Bool
is_at i none = false
is_at i (some j) = i == j

-- Whether one of the names is this one.
abbrev pub occurs : Text → List Text → Bool
occurs t [] = false
occurs t (n ∷ ns) = same_text n t || occurs t ns

-- Whether the target at position `i` is the one of this name: the last one, if several have it.
abbrev pub is_owner : List Text → ℕ → Text → Bool
is_owner [] i t = false
is_owner (n ∷ ns) zero t = same_text n t && not (occurs t ns)
is_owner (n ∷ ns) (suc i) t = is_owner ns i t

none_found :
    (t : Text) (k : ℕ) (ns : List Text) → occurs t ns ≡ false → find_index t (numbered k ns) ≡ none
unfolding find_index numbered
none_found t k [] h = refl
none_found t k (n ∷ ns) h =
    let later = none_found t (k + 1) ns (ground (arith, h)) in
    let other : same_text n t ≡ false = ground (arith, h) in rw (later, other) refl

-- A name that occurs is found at or behind the first number.
found_behind :
    (t : Text) (k : ℕ) (ns : List Text)
    → occurs t ns ≡ true
    → (j : ℕ) × (find_index t (numbered k ns) ≡ some j) × (k ≤ j)
unfolding find_index numbered
found_behind t k [] h = absurd (let e = h in cc)
found_behind t k (n ∷ ns) h = elim (Bool-cases (occurs t ns)) [
  | inl e ↦
      let (j, found, behind) = found_behind t (k + 1) ns e in
      (j, rw found refl, omega (arith, behind))
  | inr e ↦
      let here : same_text n t ≡ true = ground (arith, h, e) in
      (k, rw (none_found t (k + 1) ns e, here) refl, omega arith)
]

-- The index finds the owner of a name.
pub find_index-is_owner :
    (t : Text) (k i : ℕ) (ns : List Text)
    → is_at (k + i) (find_index t (numbered k ns)) ≡ is_owner ns i t
unfolding find_index numbered
find_index-is_owner t k i [] = refl
find_index-is_owner t k zero (n ∷ ns) = elim (Bool-cases (occurs t ns)) [
  | inl e ↦
      let (j, found, behind) = found_behind t (k + 1) ns e in rw (found, e) (ground (arith, behind))
  | inr e ↦ rw (none_found t (k + 1) ns e, e) (alone t k n)
]
  where
    alone :
        (t : Text) (k : ℕ) (n : Text)
        → is_at (k + 0) (if same_text n t then some k else none) ≡ (same_text n t && true)
    alone t k n = elim (Bool-cases (same_text n t)) [
      | inl e ↦ rw e (ground arith)
      | inr e ↦ rw e refl
    ]
find_index-is_owner t k (suc i) (n ∷ ns) =
    let later = find_index-is_owner t (k + 1) i ns in
    elim (Bool-cases (occurs t ns)) [
      | inl e ↦
          let (j, found, behind) = found_behind t (k + 1) ns e in
          rw found (ap (λ m. m == j) (omega arith) ∙ (sym (ap (is_at (k + 1 + i)) found) ∙ later))
      | inr e ↦
          let absent = none_found t (k + 1) ns e in
          rw absent (not_here (same_text n t) ∙ (sym (ap (is_at (k + 1 + i)) absent) ∙ later))
    ]
  where
    not_here : (b : Bool) → is_at (k + suc i) (if b then some k else none) ≡ false
    not_here true = ground arith
    not_here false = refl
