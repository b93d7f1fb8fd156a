-- ===== src/Hash.antt =====
-- src/hash.rs: SHA-256. A byte is a number below 256, a u32 one below 2 ^ 32, a `usize` has 64 bits.
pub mod Words
pub mod Padding
pub mod Standard
pub mod Digest
mod Tests
use httprove.Base.{
  ℕ, zero, suc, ◌+◌, ◌*◌, ◌/◌, ◌%◌, ◌^◌, List, [], ◌∷◌, ◌++◌, map, length, take, drop, ltb, ◌==◌,
  if◌then◌else◌,
}
use httprove.Hash.Words.{State, initial, compress, add_words, word_list}

-- `n.to_be_bytes()` of a u64 and of a u32.
abbrev pub be64 : ℕ → List ℕ
be64 n =
    n / 2 ^ 56 % 256
    ∷ n / 2 ^ 48 % 256
    ∷ n / 2 ^ 40 % 256
    ∷ n / 2 ^ 32 % 256
    ∷ n / 2 ^ 24 % 256
    ∷ n / 2 ^ 16 % 256
    ∷ n / 2 ^ 8 % 256
    ∷ n % 256
    ∷ []

abbrev pub be32 : ℕ → List ℕ
be32 n = n / 2 ^ 24 % 256 ∷ n / 2 ^ 16 % 256 ∷ n / 2 ^ 8 % 256 ∷ n % 256 ∷ []

-- `while msg.len() % 64 != 56 { msg.push(0) }`, for at most so many rounds.
unfoldable pub pad_loop : ℕ → List ℕ → List ℕ
pad_loop zero msg = msg
pad_loop (suc fuel) msg =
    let rest = pad_loop fuel (msg ++ 0 ∷ []) in if length msg % 64 == 56 then msg else rest

-- The message, the byte 0x80, the zeros, the number of bits; 64 rounds are enough for the loop.
unfoldable pub pad : List ℕ → List ℕ
unfolding pad_loop
pad bytes = pad_loop 64 (bytes ++ 0x80 ∷ []) ++ be64 (length bytes * 8 % 2 ^ 64)

-- `msg.chunks_exact(64)`, for at most so many chunks.
unfoldable pub chunks_exact : ℕ → List ℕ → List (List ℕ)
chunks_exact zero msg = []
chunks_exact (suc fuel) msg =
    let rest = chunks_exact fuel (drop 64 msg) in
    if ltb (length msg) 64 then [] else take 64 msg ∷ rest

-- The loop over the chunks.
unfoldable pub absorb : State → List (List ℕ) → State
absorb h [] = h
absorb h (chunk ∷ chunks) = absorb (add_words h (compress h chunk)) chunks

unfoldable pub words_bytes : List ℕ → List ℕ
words_bytes [] = []
words_bytes (w ∷ ws) = be32 w ++ words_bytes ws

unfoldable pub sha256 : List ℕ → List ℕ
unfolding absorb words_bytes pad chunks_exact
sha256 bytes =
    let msg = pad bytes in words_bytes (word_list (absorb initial (chunks_exact (length msg) msg)))

-- The digit of `{b:02x}`.
abbrev pub hex_digit : ℕ → ℕ
hex_digit n = if ltb n 10 then 48 + n else 87 + n

unfoldable pub hex : List ℕ → List ℕ
hex [] = []
hex (b ∷ bs) = hex_digit (b / 16) ∷ hex_digit (b % 16) ∷ hex bs

unfoldable pub sha256_hex : List ℕ → List ℕ
unfolding hex
sha256_hex bytes = hex (sha256 bytes)
