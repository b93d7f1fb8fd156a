-- ===== src/Chain/Base64/RoundTrip.antt =====
-- `base64_decode` of src/chain.rs on what an encoder of base64 (RFC 4648) writes.
use httprove.Base.{
  ℕ, ◌+◌, ◌-◌, ◌*◌, ◌/◌, ◌%◌, ◌<◌, ◌≡◌, refl, ap, ◌∙◌, List, [], ◌∷◌, some, All, ltb, ◌==◌, ==_iff,
  ◌&&◌, not, Bool, true, arith, if◌then◌else◌,
}
use httprove.Base.Tables.{holds_below, holds_below_at}
use httprove.Chain.Base64.{
  val, is_ascii_whitespace, kept, byte0, byte1, byte2, decode_chunks, base64_decode,
}

-- The character of a number below 64.
abbrev pub character : ℕ → ℕ
character n =
    if ltb n 26
    then n + b'A'
    else if ltb n 52
    then n - 26 + b'a'
    else if ltb n 62
    then n - 52 + b'0'
    else if n == 62
    then b'+'
    else b'/'

-- The encoder: three bytes make four characters, and `=` fills the last four.
unfoldable pub encode : List ℕ → List ℕ
encode [] = []
encode (p ∷ []) = character (p / 4) ∷ character (p % 4 * 16) ∷ b'=' ∷ b'=' ∷ []
encode (p ∷ q ∷ []) =
    character (p / 4) ∷ character (p % 4 * 16 + q / 16) ∷ character (q % 16 * 4) ∷ b'=' ∷ []
encode (p ∷ q ∷ r ∷ rest) =
    character (p / 4)
    ∷ character (p % 4 * 16 + q / 16)
    ∷ character (q % 16 * 4 + r / 64)
    ∷ character (r % 64)
    ∷ encode rest

abbrev pub IsByte : ℕ → Type 0
IsByte b = b < 256

val-character : (n : ℕ) → n < 64 → val (character n) ≡ some n
val-character n h = ground arith

is_plain : ℕ → Bool
is_plain c = not (c == b'=') && not (is_ascii_whitespace c)

character_plain : (n : ℕ) → n < 64 → is_plain (character n) ≡ true
unfolding is_plain
character_plain n h = ground arith

table0 : holds_below (λ a. holds_below (λ b. byte0 a b == a * 4 + b / 16) 64) 64 ≡ true
unfolding holds_below
table0 = refl

table1 : holds_below (λ b. holds_below (λ c. byte1 b c == b % 16 * 16 + c / 4) 64) 64 ≡ true
unfolding holds_below
table1 = refl

table2 : holds_below (λ c. holds_below (λ d. byte2 c d == c % 4 * 64 + d) 64) 64 ≡ true
unfolding holds_below
table2 = refl

byte0_lem : (a b : ℕ) → a < 64 → b < 64 → byte0 a b ≡ a * 4 + b / 16
byte0_lem a b h k = (==_iff _ _).0 (
    holds_below_at (λ y. byte0 a y == a * 4 + y / 16) 64 b
      (holds_below_at (λ x. holds_below (λ y. byte0 x y == x * 4 + y / 16) 64) 64 a table0 h) k)

byte1_lem : (b c : ℕ) → b < 64 → c < 64 → byte1 b c ≡ b % 16 * 16 + c / 4
byte1_lem b c h k = (==_iff _ _).0 (
    holds_below_at (λ y. byte1 b y == b % 16 * 16 + y / 4) 64 c
      (holds_below_at (λ x. holds_below (λ y. byte1 x y == x % 16 * 16 + y / 4) 64) 64 b table1 h)
      k)

byte2_lem : (c d : ℕ) → c < 64 → d < 64 → byte2 c d ≡ c % 4 * 64 + d
byte2_lem c d h k = (==_iff _ _).0 (
    holds_below_at (λ y. byte2 c y == c % 4 * 64 + y) 64 d
      (holds_below_at (λ x. holds_below (λ y. byte2 x y == x % 4 * 64 + y) 64) 64 c table2 h) k)

kept-character :
    (n : ℕ) (rest : List ℕ) → n < 64 → kept (character n ∷ rest) ≡ character n ∷ kept rest
unfolding kept is_plain
kept-character n rest h =
    ap (λ b. if b then character n ∷ kept rest else kept rest) (character_plain n h)

first_byte : (p q : ℕ) → p < 256 → q < 256 → byte0 (p / 4) (p % 4 * 16 + q / 16) ≡ p
first_byte p q h k = byte0_lem _ _ (omega arith) (omega arith) ∙ omega arith

second_byte :
    (p q r : ℕ)
    → p < 256
    → q < 256
    → r < 256
    → byte1 (p % 4 * 16 + q / 16) (q % 16 * 4 + r / 64) ≡ q
second_byte p q r h k l = byte1_lem _ _ (omega arith) (omega arith) ∙ omega arith

third_byte : (q r : ℕ) → q < 256 → r < 256 → byte2 (q % 16 * 4 + r / 64) (r % 64) ≡ r
third_byte q r k l = byte2_lem _ _ (omega arith) (omega arith) ∙ omega arith

decode_two :
    (a b : ℕ)
    → a < 64
    → b < 64
    → decode_chunks (character a ∷ character b ∷ []) ≡ some (byte0 a b ∷ [])
unfolding decode_chunks
decode_two a b h k = rw (val-character a h) (rw (val-character b k) refl)

decode_three :
    (a b c : ℕ)
    → a < 64
    → b < 64
    → c < 64
    → decode_chunks (character a ∷ character b ∷ character c ∷ [])
      ≡ some (byte0 a b ∷ byte1 b c ∷ [])
unfolding decode_chunks
decode_three a b c h k l =
    rw (val-character a h) (rw (val-character b k) (rw (val-character c l) refl))

decode_four :
    (a b c d : ℕ) (rest : List ℕ) {out : List ℕ}
    → a < 64
    → b < 64
    → c < 64
    → d < 64
    → decode_chunks rest ≡ some out
    → decode_chunks (character a ∷ character b ∷ character c ∷ character d ∷ rest)
      ≡ some (byte0 a b ∷ byte1 b c ∷ byte2 c d ∷ out)
unfolding decode_chunks
decode_four a b c d rest h k l m e =
    rw (val-character a h)
      (rw (val-character b k) (rw (val-character c l) (rw (val-character d m) (rw e refl))))

kept_two :
    (a b : ℕ) (rest : List ℕ)
    → a < 64
    → b < 64
    → kept (character a ∷ character b ∷ rest) ≡ character a ∷ character b ∷ kept rest
kept_two a b rest h k =
    kept-character a (character b ∷ rest) h ∙ ap (λ t. character a ∷ t) (kept-character b rest k)

decode-encode :
    (bytes : List ℕ) → All IsByte bytes → decode_chunks (kept (encode bytes)) ≡ some bytes
unfolding encode kept decode_chunks
decode-encode [] v = refl
decode-encode (p ∷ []) (hp, v) =
    let a = p / 4 in
    let b = p % 4 * 16 in
    let ha : a < 64 = omega arith in
    let hb : b < 64 = omega arith in
    let first : byte0 a b ≡ p = byte0_lem a b ha hb ∙ omega arith in
    ap decode_chunks (kept_two a b (b'=' ∷ b'=' ∷ []) ha hb)
    ∙ (decode_two a b ha hb ∙ ap (λ x. some (x ∷ [])) first)
decode-encode (p ∷ q ∷ []) (hp, (hq, v)) =
    let a = p / 4 in
    let b = p % 4 * 16 + q / 16 in
    let c = q % 16 * 4 in
    let ha : a < 64 = omega arith in
    let hb : b < 64 = omega arith in
    let hc : c < 64 = omega arith in
    let second : byte1 b c ≡ q = byte1_lem b c hb hc ∙ omega arith in
    ap decode_chunks (
      kept_two a b (character c ∷ b'=' ∷ []) ha hb
      ∙ ap (λ t. character a ∷ character b ∷ t) (kept-character c (b'=' ∷ []) hc))
    ∙ (decode_three a b c ha hb hc
        ∙ (ap (λ x. some (x ∷ byte1 b c ∷ [])) (first_byte p q hp hq)
            ∙ ap (λ x. some (p ∷ x ∷ [])) second))
decode-encode (p ∷ q ∷ r ∷ rest) (hp, (hq, (hr, v))) =
    let a = p / 4 in
    let b = p % 4 * 16 + q / 16 in
    let c = q % 16 * 4 + r / 64 in
    let d = r % 64 in
    let ha : a < 64 = omega arith in
    let hb : b < 64 = omega arith in
    let hc : c < 64 = omega arith in
    let hd : d < 64 = omega arith in
    ap decode_chunks (
      kept_two a b (character c ∷ character d ∷ encode rest) ha hb
      ∙ ap (λ t. character a ∷ character b ∷ t) (kept_two c d (encode rest) hc hd))
    ∙ (decode_four a b c d (kept (encode rest)) ha hb hc hd (decode-encode rest v)
        ∙ (ap (λ x. some (x ∷ byte1 b c ∷ byte2 c d ∷ rest)) (first_byte p q hp hq)
            ∙ (ap (λ x. some (p ∷ x ∷ byte2 c d ∷ rest)) (second_byte p q r hp hq hr)
                ∙ ap (λ x. some (p ∷ q ∷ x ∷ rest)) (third_byte q r hq hr))))

-- `base64_decode` undoes the encoder of RFC 4648, on every sequence of bytes.
pub base64_decode-encode :
    (bytes : List ℕ) → All IsByte bytes → base64_decode (encode bytes) ≡ some bytes
unfolding base64_decode
base64_decode-encode bytes v = decode-encode bytes v
