-- ===== src/Chain/Base64.antt =====
-- `base64_decode` of src/chain.rs. A shift of a byte drops what leaves the eight bits.
pub mod RoundTrip
use Prim.Native.Nat.{bit_or}
use httprove.Base.{
  ℕ, ◌+◌, ◌-◌, ◌*◌, ◌/◌, ◌%◌, List, [], ◌∷◌, Option, none, some, ◌&&◌, ◌||◌, not, Bool, leb, ◌==◌,
  if◌then◌else◌,
}
use httprove.Base.Options.{◌>>=◌}

-- A character of base64, as the number that it denotes.
abbrev pub val : ℕ → Option ℕ
val c =
    if leb b'A' c && leb c b'Z'
    then some (c - b'A')
    else if leb b'a' c && leb c b'z'
    then some (c - b'a' + 26)
    else if leb b'0' c && leb c b'9'
    then some (c - b'0' + 52)
    else if c == b'+'
    then some 62
    else if c == b'/'
    then some 63
    else none

-- `b.is_ascii_whitespace()`
abbrev pub is_ascii_whitespace : ℕ → Bool
is_ascii_whitespace b = b == 32 || b == 9 || b == 10 || b == 12 || b == 13

-- The bytes without padding and white space.
unfoldable pub kept : List ℕ → List ℕ
kept [] = []
kept (b ∷ bs) =
    let rest = kept bs in if not (b == b'=') && not (is_ascii_whitespace b) then b ∷ rest else rest

-- The three bytes of four numbers below 64.
abbrev pub byte0 : ℕ → ℕ → ℕ
byte0 a b = bit_or (a * 4 % 256) (b / 16)

abbrev pub byte1 : ℕ → ℕ → ℕ
byte1 b c = bit_or (b * 16 % 256) (c / 4)

abbrev pub byte2 : ℕ → ℕ → ℕ
byte2 c d = bit_or (c * 64 % 256) d

-- The loop over the chunks of four bytes, the last of which may be shorter.
unfoldable pub decode_chunks : List ℕ → Option (List ℕ)
decode_chunks [] = some []
decode_chunks (w ∷ []) = none
decode_chunks (w ∷ x ∷ []) = do a ← val w; b ← val x; some (byte0 a b ∷ [])
decode_chunks (w ∷ x ∷ y ∷ []) = do
  a ← val w
  b ← val x
  c ← val y
  some (byte0 a b ∷ byte1 b c ∷ [])
decode_chunks (w ∷ x ∷ y ∷ z ∷ rest) = do
  a ← val w
  b ← val x
  c ← val y
  d ← val z
  out ← decode_chunks rest
  some (byte0 a b ∷ byte1 b c ∷ byte2 c d ∷ out)

unfoldable pub base64_decode : List ℕ → Option (List ℕ)
unfolding kept decode_chunks
base64_decode s = decode_chunks (kept s)
