-- ===== src/Text/Parts.antt =====
-- What the parts are that `split_once` and `strip_suffix` give.
use mathlib.Core.Option
use httprove.Base.{
  ℕ, List, [], ◌∷◌, ◌++◌, Option, none, some, false, ◌==◌, ◌≡◌, ap, arith, All, Bool-cases, inl,
  inr,
}
use httprove.Text.{split_once, strip_suffix}

-- No such character.
abbrev pub IsWithout : ℕ → List ℕ → Type 0
IsWithout sep t = All (λ c. (c == sep) ≡ false) t

abbrev pub IsSplit : ℕ → List ℕ → Option (List ℕ × List ℕ) → Type 0
IsSplit sep s none = Unit
IsSplit sep s (some (a, b)) = (s ≡ a ++ (sep ∷ b)) × IsWithout sep a

push-IsSplit :
    (sep c : ℕ) (cs : List ℕ) (o : Option (List ℕ × List ℕ))
    → (c == sep) ≡ false
    → IsSplit sep cs o
    → IsSplit sep (c ∷ cs) (Option.map {B = List ℕ × List ℕ} (λ (a, b). (c ∷ a, b)) o)
push-IsSplit sep c cs none h k = tt
push-IsSplit sep c cs (some (a, b)) h (e, w) = (ap (◌∷◌ c) e, (h, w))

pub split_once-IsSplit : (sep : ℕ) (s : List ℕ) → IsSplit sep s (split_once sep s)
unfolding split_once
split_once-IsSplit sep [] = tt
split_once-IsSplit sep (c ∷ cs) = elim (Bool-cases (c == sep)) [
  | inl h ↦ let same : c ≡ sep = ground (arith, h) in rw h (ap (λ x. x ∷ cs) same, tt)
  | inr h ↦ rw h (push-IsSplit sep c cs (split_once sep cs) h (split_once-IsSplit sep cs))
]

abbrev pub Ends : ℕ → List ℕ → Option (List ℕ) → Type 0
Ends c s none = Unit
Ends c s (some t) = s ≡ t ++ (c ∷ [])

push-Ends :
    (c x : ℕ) (s : List ℕ) (o : Option (List ℕ))
    → Ends c s o
    → Ends c (x ∷ s) (Option.map (λ t. x ∷ t) o)
push-Ends c x s none h = tt
push-Ends c x s (some t) h = ap (◌∷◌ x) h

pub strip_suffix-Ends : (c : ℕ) (s : List ℕ) → Ends c s (strip_suffix c s)
unfolding strip_suffix
strip_suffix-Ends c [] = tt
strip_suffix-Ends c (x ∷ []) = elim (Bool-cases (x == c)) [
  | inl h ↦ let same : x ≡ c = ground (arith, h) in rw h (ap (λ y. y ∷ []) same)
  | inr h ↦ rw h tt
]
strip_suffix-Ends c (x ∷ y ∷ ys) =
    push-Ends c x (y ∷ ys) (strip_suffix c (y ∷ ys)) (strip_suffix-Ends c (y ∷ ys))
