-- ===== src/Text/Equal.antt =====
-- `==` on texts decides their equality, and two names that differ in case alone are found alike.
use httprove.Base.{ℕ, List, [], ◌∷◌, true, false, ◌≡◌, ◌↔◌, refl, arith, ◌≢◌}
use httprove.Text.{same_text}

pub same_text-eq : (xs ys : List ℕ) → (same_text xs ys ≡ true) ↔ (xs ≡ ys)
unfolding same_text
same_text-eq [] [] = (λ h. refl, λ h. refl)
same_text-eq [] (y ∷ ys) = (λ h. cc, λ h. cc)
same_text-eq (x ∷ xs) [] = (λ h. cc, λ h. cc)
same_text-eq (x ∷ xs) (y ∷ ys) = ground (arith, same_text-eq xs ys)

pub same_text_refl : (xs : List ℕ) → same_text xs xs ≡ true
same_text_refl xs = (same_text-eq xs xs).1 refl

pub same_text_ne : (xs ys : List ℕ) → (same_text xs ys ≡ false) ↔ (xs ≢ ys)
same_text_ne xs ys = ground (arith, same_text-eq xs ys)
