-- ===== src/Dns/Subnet/Mask.antt =====
-- What is left of an address in a client subnet of src/dns.rs.
use httprove.Base.{
  ℕ, true, Bool-cases, inl, inr, zero, suc, ◌-◌, ◌*◌, ◌/◌, ◌%◌, ◌^◌, ◌≤◌, ◌<◌, ◌≡◌, refl, sym, ap,
  ◌∙◌, [], ◌∷◌, take, All, length, arith, ltb, ◌==◌, ==_iff, if◌then◌else◌,
}
use httprove.Dns.Wire.{Bytes}
use httprove.Base.Tables.{holds_below, holds_below_at}
use httprove.Dns.Names.{IsByte}
use httprove.Dns.Subnet.{mask_byte, mask_last, byte_count, cut_octets}

-- The first `prefix` bits of a sequence of octets, the last octet filled up with zeros.
abbrev pub masked : ℕ → Bytes → Bytes
masked prefix [] = []
masked prefix (b ∷ bs) =
    let rest = masked (prefix - 8) bs in
    if prefix == 0
    then []
    else if ltb prefix 8
    then b / 2 ^ (8 - prefix) * 2 ^ (8 - prefix) ∷ []
    else b ∷ rest

mask_table :
    holds_below
      (λ used. holds_below (λ b. mask_byte used b == b / 2 ^ (8 - used) * 2 ^ (8 - used)) 256)
      9
    ≡ true
unfolding holds_below
mask_table = refl

mask_byte_lem :
    (used b : ℕ) → used < 9 → IsByte b → mask_byte used b ≡ b / 2 ^ (8 - used) * 2 ^ (8 - used)
mask_byte_lem used b h k = (==_iff _ _).0 (
    holds_below_at (λ x. mask_byte used x == x / 2 ^ (8 - used) * 2 ^ (8 - used)) 256 b
      (holds_below_at (λ u. holds_below (λ x. mask_byte u x == x / 2 ^ (8 - u) * 2 ^ (8 - u)) 256) 9
        used mask_table h)
      k)

abbrev cut : ℕ → ℕ → Bytes → Bytes
cut n used full = if used == 0 then take n full else mask_last used (take n full)

cut-cons :
    (n used b c : ℕ) (bs : Bytes)
    → cut (suc (suc n)) used (b ∷ c ∷ bs) ≡ b ∷ cut (suc n) used (c ∷ bs)
unfolding mask_last
cut-cons n used b c bs = ground arith

cut_octets-long :
    (prefix b : ℕ) (bs : Bytes)
    → 8 < prefix
    → prefix - 8 ≤ 8 * length bs
    → cut_octets prefix (b ∷ bs) ≡ b ∷ cut_octets (prefix - 8) bs
unfolding cut_octets
cut_octets-long prefix b [] long room = absurd (omega arith)
cut_octets-long prefix b (c ∷ bs) long room =
    let n : ℕ = byte_count (prefix - 8) - 1 in
    let more : byte_count prefix ≡ suc (suc n) = omega arith in
    let fewer : suc n ≡ byte_count (prefix - 8) = omega arith in
    let used : prefix % 8 ≡ (prefix - 8) % 8 = omega arith in
    ap (λ k. cut k (prefix % 8) (b ∷ c ∷ bs)) more
    ∙ ap (λ u. cut (suc (suc n)) u (b ∷ c ∷ bs)) used
    ∙ cut-cons n ((prefix - 8) % 8) b c bs
    ∙ ap (λ k. b ∷ cut k ((prefix - 8) % 8) (c ∷ bs)) fewer

masked-zero : (bs : Bytes) → masked 0 bs ≡ []
masked-zero [] = refl
masked-zero (b ∷ bs) = refl

-- Where one octet or less is kept.
cut_octets-short :
    (prefix b : ℕ) (bs : Bytes)
    → IsByte b
    → 0 < prefix
    → prefix < 8
    → cut_octets prefix (b ∷ bs) ≡ masked prefix (b ∷ bs)
unfolding cut_octets mask_last
cut_octets-short prefix b bs byte some_bits h =
    let one : byte_count prefix ≡ 1 = omega arith in
    let used : prefix % 8 ≡ prefix = omega arith in
    let cleared = mask_byte_lem prefix b (omega arith) byte in
    ap (λ n. cut n (prefix % 8) (b ∷ bs)) one ∙ ap (λ u. cut 1 u (b ∷ bs)) used ∙ ground arith

cut_octets-one :
    (prefix b : ℕ) (bs : Bytes)
    → IsByte b
    → prefix ≤ 8
    → cut_octets prefix (b ∷ bs) ≡ masked prefix (b ∷ bs)
unfolding cut_octets
cut_octets-one zero b bs byte h = refl
cut_octets-one (suc zero) b bs byte h = cut_octets-short 1 b bs byte (omega arith) (omega arith)
cut_octets-one (suc (suc p)) b bs byte h = elim (Bool-cases (suc (suc p) == 8)) [
  | inl eight ↦
      let e : suc (suc p) ≡ 8 = ground arith in rw e (ap (λ l. b ∷ l) (sym (masked-zero bs)))
  | inr less ↦ cut_octets-short (suc (suc p)) b bs byte (omega arith) (ground arith)
]

pub cut_octets-masked :
    (prefix : ℕ) (full : Bytes)
    → All IsByte full
    → prefix ≤ 8 * length full
    → cut_octets prefix full ≡ masked prefix full
unfolding cut_octets
cut_octets-masked prefix [] bytes room = let none_left : prefix ≡ 0 = omega arith in rw none_left
cut_octets-masked prefix (b ∷ bs) (byte, bytes) room = elim (Bool-cases (ltb 8 prefix)) [
  | inl long ↦
      cut_octets-long prefix b bs (ground arith) (omega arith)
      ∙ ground (arith, cut_octets-masked (prefix - 8) bs bytes (omega arith))
  | inr short ↦ cut_octets-one prefix b bs byte (ground arith)
]
