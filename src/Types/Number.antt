-- ===== src/Types/Number.antt =====
-- The `f64` that the other modules compute with: the operations of the language that they use.
use httprove.Base.{ℕ, Bool, true, false, ◌≡◌}
use httprove.Base.Int.{ℤ}

pub record Float (W : Type 0) : Type 0 where
  pub nought : W
  pub one : W
  pub one_half : W  -- 1.5
  pub two : W
  pub hundred : W
  pub plus : W → W → W
  pub minus : W → W → W
  pub times : W → W → W
  pub over : W → W → W
  pub least : W → W → W  -- `f64::min`
  pub greatest : W → W → W  -- `f64::max`
  pub of_int : ℤ → W  -- `n as f64`
  pub root : W → W  -- `sqrt`
  pub ceil : W → ℕ  -- `v.ceil() as usize`
  pub smallest : W  -- `f64::MIN`
  pub largest : W  -- `f64::MAX`
  pub is_finite : W → Bool
  pub ge : W → W → Bool  -- `>=`
  pub gt : W → W → Bool  -- `>`
  pub total_gt : W → W → Bool  -- `a.total_cmp(&b) == Ordering::Greater`

-- What `f64::total_cmp` promises: "greater" is the strict part of a total order.
pub record IsTotalOrder (W : Type 0) (f : Float W) : Type 0 where
  pub gt_trans : (a b c : W) → f.total_gt a b ≡ true → f.total_gt b c ≡ true → f.total_gt a c ≡ true
  pub le_trans :
      (a b c : W) → f.total_gt a b ≡ false → f.total_gt b c ≡ false → f.total_gt a c ≡ false
  pub gt_asymm : (a b : W) → f.total_gt a b ≡ true → f.total_gt b a ≡ false
