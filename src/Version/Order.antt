-- ===== src/Version/Order.antt =====
-- src/update/version.rs: `is_newer` as an order on tags.
use httprove.Base.{ℕ, ◌≡◌, ◌⊎◌, true, false, List, Option, none, some, arith}
use httprove.Version.{Triple, parse, gt, newer, is_newer}

newer_trans : (l m r : Option Triple) → newer l m ≡ true → newer m r ≡ true → newer l r ≡ true
newer_trans (some l) (some m) (some r) h k = ground arith
newer_trans none m r h k = cc
newer_trans (some l) none r h k = cc
newer_trans (some l) (some m) none h k = cc

newer_asymm : (l m : Option Triple) → newer l m ≡ true → newer m l ≡ false
newer_asymm (some l) (some m) h = ground arith
newer_asymm none m h = cc
newer_asymm (some l) none h = cc

gt-total :
    (a b c a' b' c' : ℕ)
    → (gt (a, b, c) (a', b', c') ≡ true)
      ⊎ (gt (a', b', c') (a, b, c) ≡ true)
      ⊎ ((a ≡ a') × (b ≡ b') × (c ≡ c'))
gt-total a b c a' b' c' = ground arith

-- `is_newer` is a strict order on tags: a tag is not newer than one that is newer than it, and
-- newer than newer is newer.
pub is_newer-strict :
    (x y z : List ℕ)
    → is_newer x y ≡ true
    → (is_newer y x ≡ false) × (is_newer y z ≡ true → is_newer x z ≡ true)
unfolding is_newer
is_newer-strict x y z h =
    (newer_asymm (parse x) (parse y) h, λ k. newer_trans (parse x) (parse y) (parse z) h k)

-- Of two tags that can be parsed, one is newer, or they have the same three numbers.
pub is_newer-total :
    (x y : List ℕ) (a b c a' b' c' : ℕ)
    → parse x ≡ some (a, b, c)
    → parse y ≡ some (a', b', c')
    → (is_newer x y ≡ true) ⊎ (is_newer y x ≡ true) ⊎ ((a ≡ a') × (b ≡ b') × (c ≡ c'))
unfolding is_newer
is_newer-total x y a b c a' b' c' e f = rw e (rw f (gt-total a b c a' b' c'))
