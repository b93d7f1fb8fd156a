-- ===== src/Dns/Bits.antt =====
-- The two top bits of a length byte (src/dns.rs, `len & 0xC0`).
use Prim.Native.Nat.{bit_and}
use httprove.Base.Tables.{holds_below, holds_below_at}
use httprove.Base.{ℕ, ◌<◌, ◌≡◌, refl, Bool, true, false, arith, ltb, leb, ◌==◌}

abbrev same : Bool → Bool → Bool
same true b = b
same false true = false
same false false = true

same-eq : (a b : Bool) → same a b ≡ true → a ≡ b
same-eq true b h = ground arith
same-eq false true h = cc
same-eq false false h = refl

plain_table : holds_below (λ b. same (bit_and b 0xC0 == 0) (ltb b 64)) 256 ≡ true
unfolding holds_below
plain_table = refl

pointer_table : holds_below (λ b. same (bit_and b 0xC0 == 0xC0) (leb 192 b)) 256 ≡ true
unfolding holds_below
pointer_table = refl

-- A byte below 64 is the length of a label.
pub plain_class : (b : ℕ) → b < 256 → (bit_and b 0xC0 == 0) ≡ ltb b 64
plain_class b h =
    same-eq _ _ (holds_below_at (λ b. same (bit_and b 0xC0 == 0) (ltb b 64)) 256 b plain_table h)

-- A byte of 192 or more starts a compression pointer.
pub pointer_class : (b : ℕ) → b < 256 → (bit_and b 0xC0 == 0xC0) ≡ leb 192 b
pointer_class b h =
    same-eq _ _
      (holds_below_at (λ b. same (bit_and b 0xC0 == 0xC0) (leb 192 b)) 256 b pointer_table h)
