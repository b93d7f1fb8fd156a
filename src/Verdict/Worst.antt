-- ===== src/Verdict/Worst.antt =====
-- The signal that `assess` of src/verdict.rs puts in the headline.
use httprove.Base.{
  List, [], ◌∷◌, true, false, Bool-cases, ◌≡◌, refl, sym, ap, subst, ◌⊎◌, inl, inr, All,
  if◌then◌else◌,
}
use httprove.Types.Number.{Float, IsTotalOrder}
use httprove.Verdict.{Signal, worst}

module _ {W : Type 0} ⦃f : Float W⦄ where
  -- The signal is the last of the greatest: none before it is greater, and all behind it are less.
  abbrev pub IsLastMax : Signal W → List (Signal W) → Type 0
  IsLastMax s [] = ⊥
  IsLastMax s (x ∷ rest) =
      ((x ≡ s) × All (λ y. f.total_gt s.severity y.severity ≡ true) rest)
      ⊎ ((f.total_gt x.severity s.severity ≡ false) × IsLastMax s rest)

  skip_less :
      (m x y : Signal W) (rest : List (Signal W))
      → IsTotalOrder W f
      → f.total_gt x.severity y.severity ≡ true
      → IsLastMax m (x ∷ rest)
      → IsLastMax m (x ∷ y ∷ rest)
  skip_less m x y rest o h (inl (e, a)) =
      inl (e, (subst (λ (t : Signal W). f.total_gt t.severity y.severity ≡ true) e h, a))
  skip_less m x y rest o h (inr (le, l)) = inr (
    le,
    inr (o.le_trans y.severity x.severity m.severity (o.gt_asymm x.severity y.severity h) le, l),
  )

  less_than_first :
      (m x y : Signal W) (rest : List (Signal W))
      → IsTotalOrder W f
      → f.total_gt x.severity y.severity ≡ false
      → IsLastMax m (y ∷ rest)
      → IsLastMax m (x ∷ y ∷ rest)
  less_than_first m x y rest o h (inl (e, a)) =
      inr (subst (λ (t : Signal W). f.total_gt x.severity t.severity ≡ false) e h, inl (e, a))
  less_than_first m x y rest o h (inr (le, l)) =
      inr (o.le_trans x.severity y.severity m.severity h le, inr (le, l))

  pub worst-IsLastMax :
      (best : Signal W) (rest : List (Signal W))
      → IsTotalOrder W f
      → IsLastMax (worst best rest) (best ∷ rest)
  unfolding worst
  worst-IsLastMax best [] o = inl (refl, tt)
  worst-IsLastMax best (s ∷ rest) o = elim (Bool-cases (f.total_gt best.severity s.severity)) [
    | inl e ↦
        subst (λ m. IsLastMax m (best ∷ s ∷ rest))
          (sym (ap (λ b. worst (if b then best else s) rest) e))
          (skip_less (worst best rest) best s rest o e (worst-IsLastMax best rest o))
    | inr e ↦
        subst (λ m. IsLastMax m (best ∷ s ∷ rest))
          (sym (ap (λ b. worst (if b then best else s) rest) e))
          (less_than_first (worst s rest) best s rest o e (worst-IsLastMax s rest o))
  ]
