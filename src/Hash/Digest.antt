-- ===== src/Hash/Digest.antt =====
-- The digest of src/hash.rs: that it reads every byte of the padded message, and what it looks like.
use httprove.Base.{
  ℕ, zero, suc, ◌*◌, ◌/◌, ◌%◌, ◌≤◌, ◌<◌, ◌≡◌, refl, sym, ap, ◌∙◌, ◌⊎◌, inl, inr, List, [], ◌∷◌,
  ◌++◌, length, length-drop, length-take, Bool-cases, ltb→lt, take, drop, All, arith, ltb,
}
use httprove.Hash.Words.{initial, word_list}
use httprove.Hash.{pad, chunks_exact, absorb, words_bytes, sha256, hex_digit, hex, sha256_hex}
use httprove.Hash.Padding.{pad-shape}

-- The chunks, one behind the other.
abbrev pub joined : List (List ℕ) → List ℕ
joined [] = []
joined (c ∷ cs) = c ++ joined cs

take-drop : {A : Type 0} (n : ℕ) (xs : List A) → take n xs ++ drop n xs ≡ xs
take-drop zero xs = refl
take-drop (suc n) [] = refl
take-drop (suc n) (x ∷ xs) = ap (λ t. x ∷ t) (take-drop n xs)

empty : {A : Type 0} (xs : List A) → length xs ≡ 0 → xs ≡ []
empty [] h = refl
empty (x ∷ xs) h = absurd (omega (arith, h))

chunks_exact-joined :
    (fuel : ℕ) (msg : List ℕ)
    → length msg ≤ fuel
    → length msg % 64 ≡ 0
    → joined (chunks_exact fuel msg) ≡ msg
unfolding chunks_exact
chunks_exact-joined zero msg h k = sym (empty msg (omega (arith, h)))
chunks_exact-joined (suc fuel) msg h k = elim (Bool-cases (ltb (length msg) 64)) [
  | inl e ↦ let short = ltb→lt (length msg) 64 e in rw e (sym (empty msg (omega (arith, k, short))))
  | inr e ↦
      let long : 64 ≤ length msg = ground arith in
      let left = length-drop 64 msg in
      let rest =
        chunks_exact-joined fuel (drop 64 msg) (omega (arith, left, long, h))
          (omega (arith, left, long, k)) in
      rw e (ap (λ t. take 64 msg ++ t) rest ∙ take-drop 64 msg)
]

chunks_exact-full : (fuel : ℕ) (msg : List ℕ) → All (λ c. length c ≡ 64) (chunks_exact fuel msg)
unfolding chunks_exact
chunks_exact-full zero msg = tt
chunks_exact-full (suc fuel) msg = elim (Bool-cases (ltb (length msg) 64)) [
  | inl e ↦ rw e tt
  | inr e ↦
      let long : 64 ≤ length msg = ground arith in
      rw e (omega (arith, length-take 64 msg, long), chunks_exact-full fuel (drop 64 msg))
]

-- The chunks that the digest absorbs have 64 bytes each, and together they are the padded message.
pub chunks_exact-pad :
    (bytes : List ℕ)
    → (joined (chunks_exact (length (pad bytes)) (pad bytes)) ≡ pad bytes)
      × All (λ c. length c ≡ 64) (chunks_exact (length (pad bytes)) (pad bytes))
chunks_exact-pad bytes = (
  chunks_exact-joined (length (pad bytes)) (pad bytes) (omega arith) (pad-shape bytes).2,
  chunks_exact-full (length (pad bytes)) (pad bytes),
)

abbrev pub IsByte : ℕ → Type 0
IsByte b = b < 256

-- A digit of a lower-case hexadecimal number.
abbrev pub IsLowerHex : ℕ → Type 0
IsLowerHex c = ((48 ≤ c) × (c ≤ 57)) ⊎ ((97 ≤ c) × (c ≤ 102))

hex_digit_lem : (n : ℕ) → n < 16 → IsLowerHex (hex_digit n)
hex_digit_lem n h = ground arith

hex_lem :
    (bs : List ℕ) → All IsByte bs → (length (hex bs) ≡ 2 * length bs) × All IsLowerHex (hex bs)
unfolding hex
hex_lem [] v = (refl, tt)
hex_lem (b ∷ bs) (byte, v) =
    let (size, digits) = hex_lem bs v in
    (
      omega (arith, size),
      (
        hex_digit_lem (b / 16) (omega (arith, byte)),
        (hex_digit_lem (b % 16) (omega arith), digits),
      ),
    )

words_bytes_lem :
    (ws : List ℕ) → (length (words_bytes ws) ≡ 4 * length ws) × All IsByte (words_bytes ws)
unfolding words_bytes
words_bytes_lem [] = (refl, tt)
words_bytes_lem (w ∷ ws) =
    let (size, bytes) = words_bytes_lem ws in
    (omega (arith, size), (omega arith, (omega arith, (omega arith, (omega arith, bytes)))))

-- The digest of any bytes is a text of 64 lower-case hexadecimal digits.
pub sha256_hex-IsLowerHex :
    (bytes : List ℕ) → (length (sha256_hex bytes) ≡ 64) × All IsLowerHex (sha256_hex bytes)
unfolding sha256_hex sha256
sha256_hex-IsLowerHex bytes =
    let msg = pad bytes in
    let ws = word_list (absorb initial (chunks_exact (length msg) msg)) in
    let (size, valid) = words_bytes_lem ws in
    let (digits, lower) = hex_lem (words_bytes ws) valid in (omega (arith, digits, size), lower)
