-- ===== src/Base/Deque.antt =====
-- A `VecDeque` that gives up its oldest elements.
use Prim.Native.Nat.{ℕ, zero, suc, ◌-◌}
use mathlib.Core.Bool.{true}
use mathlib.Core.List.{List, [], ◌∷◌, ◌++◌}
use mathlib.Core.Logic.{inl, inr}
use mathlib.Core.Path.{◌≡◌, refl, sym}
use native.Mathlib.Omega.{arith}
use httprove.Base.Lists.{length, length-append, drop}
use httprove.Base.Tests.{ltb, if◌then◌else◌, Bool-cases, ltb→lt}

module _ {A : Type 0} where
  -- `while history.len() > cap { history.pop_front() }`
  unfoldable pub trim_front : ℕ → List A → List A
  trim_front cap [] = []
  trim_front cap (x ∷ xs) =
      let rest = trim_front cap xs in if ltb cap (length (x ∷ xs)) then rest else x ∷ xs

  drop-nil : (n : ℕ) → drop {A = A} n [] ≡ []
  drop-nil zero = refl
  drop-nil (suc n) = refl

  pub trim_front-drop : (cap : ℕ) (l : List A) → trim_front cap l ≡ drop (length l - cap) l
  unfolding trim_front
  trim_front-drop cap [] = sym (drop-nil (0 - cap))
  trim_front-drop cap (x ∷ xs) = elim (Bool-cases (ltb cap (suc (length xs)))) [
    | inl e ↦
        let more : suc (length xs) - cap ≡ suc (length xs - cap) =
          omega (arith, ltb→lt cap (suc (length xs)) e) in
        rw (e, more) (trim_front-drop cap xs)
    | inr e ↦
        let none_over : suc (length xs) - cap ≡ 0 = ground (arith, e) in rw (e, none_over) refl
  ]

  pub trim_front-append :
      (cap : ℕ) (l : List A) (a : A)
      → trim_front cap (trim_front cap l ++ (a ∷ [])) ≡ trim_front cap (l ++ (a ∷ []))
  unfolding trim_front
  trim_front-append cap [] a = refl
  trim_front-append cap (x ∷ xs) a = elim (Bool-cases (ltb cap (suc (length xs)))) [
    | inl e ↦
        let longer : ltb cap (suc (length (xs ++ (a ∷ [])))) ≡ true =
          ground (arith, e, length-append xs (a ∷ [])) in
        rw (e, longer) (trim_front-append cap xs a)
    | inr e ↦ rw e refl
  ]
