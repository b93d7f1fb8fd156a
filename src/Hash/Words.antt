-- ===== src/Hash/Words.antt =====
-- The compression function of SHA-256 (src/hash.rs): the schedule and the 64 rounds on eight words.
use Prim.Native.Nat.{bit_and, bit_xor}
use httprove.Base.{ℕ, zero, suc, ◌+◌, ◌-◌, ◌*◌, ◌/◌, ◌%◌, ◌^◌, List, [], ◌∷◌, ◌++◌, get_or}

-- The array `[u32; 8]`, of `h` and of `v`.
pub record State : Type 0 where
  pub w0 : ℕ
  pub w1 : ℕ
  pub w2 : ℕ
  pub w3 : ℕ
  pub w4 : ℕ
  pub w5 : ℕ
  pub w6 : ℕ
  pub w7 : ℕ

abbrev pub word_list : State → List ℕ
word_list v = v.w0 ∷ v.w1 ∷ v.w2 ∷ v.w3 ∷ v.w4 ∷ v.w5 ∷ v.w6 ∷ v.w7 ∷ []

-- `wrapping_add`
abbrev pub add : ℕ → ℕ → ℕ
add a b = (a + b) % 2 ^ 32

-- `x.rotate_right(n)`
abbrev rotate_right : ℕ → ℕ → ℕ
rotate_right x n = x / 2 ^ n + x % 2 ^ n * 2 ^ (32 - n)

-- `!x`
abbrev complement : ℕ → ℕ
complement x = 2 ^ 32 - 1 - x

abbrev xor3 : ℕ → ℕ → ℕ → ℕ
xor3 a b c = bit_xor (bit_xor a b) c

abbrev pub k : List ℕ
k =
    0x428a2f98 ∷ 0x71374491 ∷ 0xb5c0fbcf ∷ 0xe9b5dba5 ∷ 0x3956c25b ∷ 0x59f111f1 ∷ 0x923f82a4
    ∷ 0xab1c5ed5 ∷ 0xd807aa98 ∷ 0x12835b01 ∷ 0x243185be ∷ 0x550c7dc3 ∷ 0x72be5d74 ∷ 0x80deb1fe
    ∷ 0x9bdc06a7 ∷ 0xc19bf174 ∷ 0xe49b69c1 ∷ 0xefbe4786 ∷ 0x0fc19dc6 ∷ 0x240ca1cc ∷ 0x2de92c6f
    ∷ 0x4a7484aa ∷ 0x5cb0a9dc ∷ 0x76f988da ∷ 0x983e5152 ∷ 0xa831c66d ∷ 0xb00327c8 ∷ 0xbf597fc7
    ∷ 0xc6e00bf3 ∷ 0xd5a79147 ∷ 0x06ca6351 ∷ 0x14292967 ∷ 0x27b70a85 ∷ 0x2e1b2138 ∷ 0x4d2c6dfc
    ∷ 0x53380d13 ∷ 0x650a7354 ∷ 0x766a0abb ∷ 0x81c2c92e ∷ 0x92722c85 ∷ 0xa2bfe8a1 ∷ 0xa81a664b
    ∷ 0xc24b8b70 ∷ 0xc76c51a3 ∷ 0xd192e819 ∷ 0xd6990624 ∷ 0xf40e3585 ∷ 0x106aa070 ∷ 0x19a4c116
    ∷ 0x1e376c08 ∷ 0x2748774c ∷ 0x34b0bcb5 ∷ 0x391c0cb3 ∷ 0x4ed8aa4a ∷ 0x5b9cca4f ∷ 0x682e6ff3
    ∷ 0x748f82ee ∷ 0x78a5636f ∷ 0x84c87814 ∷ 0x8cc70208 ∷ 0x90befffa ∷ 0xa4506ceb ∷ 0xbef9a3f7
    ∷ 0xc67178f2 ∷ []

abbrev pub initial : State
initial = record {
  w0 = 0x6a09e667;
  w1 = 0xbb67ae85;
  w2 = 0x3c6ef372;
  w3 = 0xa54ff53a;
  w4 = 0x510e527f;
  w5 = 0x9b05688c;
  w6 = 0x1f83d9ab;
  w7 = 0x5be0cd19;
}

-- The first so many words of the chunk.
unfoldable pub chunk_words : ℕ → List ℕ → List ℕ
chunk_words (suc n) (a ∷ b ∷ c ∷ d ∷ rest) =
    (a * 2 ^ 24 + b * 2 ^ 16 + c * 2 ^ 8 + d) ∷ chunk_words n rest
chunk_words _ _ = []

-- `w[i]` from the words before it.
unfoldable pub next_word : List ℕ → ℕ → ℕ
next_word w i =
    let x = get_or w (i - 15) 0 in
    let y = get_or w (i - 2) 0 in
    let s0 = xor3 (rotate_right x 7) (rotate_right x 18) (x / 2 ^ 3) in
    let s1 = xor3 (rotate_right y 17) (rotate_right y 19) (y / 2 ^ 10) in
    add (add (add (get_or w (i - 16) 0) s0) (get_or w (i - 7) 0)) s1

-- `for i in 16..64`: the next so many words, from the index on.
unfoldable pub extend : ℕ → ℕ → List ℕ → List ℕ
unfolding next_word
extend zero i w = w
extend (suc n) i w = extend n (suc i) (w ++ next_word w i ∷ [])

unfoldable pub round : State → ℕ → ℕ → State
round v ki wi =
    let s1 = xor3 (rotate_right v.w4 6) (rotate_right v.w4 11) (rotate_right v.w4 25) in
    let ch = bit_xor (bit_and v.w4 v.w5) (bit_and (complement v.w4) v.w6) in
    let t1 = add (add (add (add v.w7 s1) ch) ki) wi in
    let s0 = xor3 (rotate_right v.w0 2) (rotate_right v.w0 13) (rotate_right v.w0 22) in
    let maj = xor3 (bit_and v.w0 v.w1) (bit_and v.w0 v.w2) (bit_and v.w1 v.w2) in
    let t2 = add s0 maj in
    record {
      w0 = add t1 t2;
      w1 = v.w0;
      w2 = v.w1;
      w3 = v.w2;
      w4 = add v.w3 t1;
      w5 = v.w4;
      w6 = v.w5;
      w7 = v.w6;
    }

unfoldable pub rounds : State → List ℕ → List ℕ → State
unfolding round
rounds v (ki ∷ ks) (wi ∷ ws) = rounds (round v ki wi) ks ws
rounds v _ _ = v

unfoldable pub compress : State → List ℕ → State
unfolding rounds extend chunk_words
compress h chunk = rounds h k (extend 48 16 (chunk_words 16 chunk))

-- `h[i] = h[i].wrapping_add(v[i])`
abbrev pub add_words : State → State → State
add_words h v = record {
  w0 = add h.w0 v.w0;
  w1 = add h.w1 v.w1;
  w2 = add h.w2 v.w2;
  w3 = add h.w3 v.w3;
  w4 = add h.w4 v.w4;
  w5 = add h.w5 v.w5;
  w6 = add h.w6 v.w6;
  w7 = add h.w7 v.w7;
}
