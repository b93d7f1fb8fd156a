-- ===== src/Hash/Standard.antt =====
-- The padding of src/hash.rs is the one that FIPS 180-4 describes, said apart from the code.
use httprove.Base.{
  ℕ, ◌+◌, ◌*◌, ◌%◌, ◌^◌, ◌<◌, ◌≡◌, refl, ◌∙◌, List, [], ◌∷◌, ◌++◌, length, All, replicate, arith,
}
use httprove.Hash.{be64, pad}
use httprove.Hash.Padding.{gap, pad-shape}

-- The number that bytes denote, the first the most significant, behind those that made `acc`.
abbrev pub big_endian : ℕ → List ℕ → ℕ
big_endian acc [] = acc
big_endian acc (b ∷ bs) = big_endian (acc * 256 + b) bs

-- The message, a bit 1, as few zeros as fill the last block, and eight bytes with the number of bits.
pub record IsPadded (bytes padded : List ℕ) : Type 0 where
  pub zeros : ℕ
  pub count : List ℕ
  pub parts : padded ≡ (bytes ++ 128 ∷ replicate zeros 0) ++ count
  pub fewest : zeros < 64
  pub filled : length padded % 64 ≡ 0
  pub eight : length count ≡ 8
  pub octets : All (λ b. b < 256) count
  pub bits : big_endian 0 count ≡ 8 * length bytes

big_endian-be64 : (n : ℕ) → n < 2 ^ 64 → big_endian 0 (be64 n) ≡ n
big_endian-be64 n h = omega (arith, h)

be64-octets : (n : ℕ) → All (λ b. b < 256) (be64 n)
be64-octets n = (
  omega arith,
  (
    omega arith,
    (omega arith, (omega arith, (omega arith, (omega arith, (omega arith, (omega arith, tt)))))),
  ),
)

-- A message of fewer than 2 ^ 61 bytes is padded as the standard says: behind it stand the byte
-- 128, the fewest zeros, fewer than 64, that make the whole a multiple of 64 bytes, and in eight
-- bytes, the most significant first, the number of its bits.
pub pad-IsPadded : (bytes : List ℕ) → length bytes < 2 ^ 61 → IsPadded bytes (pad bytes)
pad-IsPadded bytes h =
    let (shape, few, full) = pad-shape bytes in
    record {
      zeros = gap (length bytes + 1);
      count = be64 (length bytes * 8 % 2 ^ 64);
      parts = shape;
      fewest = few;
      filled = full;
      eight = refl;
      octets = be64-octets (length bytes * 8 % 2 ^ 64);
      bits = big_endian-be64 (length bytes * 8 % 2 ^ 64) (omega arith) ∙ omega (arith, h);
    }
