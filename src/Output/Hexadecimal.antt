-- ===== src/Output/Hexadecimal.antt =====
-- `hex_to_bytes` of src/otlp.rs undoes `hex16`.
use httprove.Base.{ℕ, List, [], ◌∷◌, ◌≡◌, ◌<◌, ◌+◌, ◌*◌, ◌/◌, ◌%◌, refl, arith, All}
use httprove.Hash.{hex_digit}
use httprove.Output.{digit_or_0, hex16, hex_to_bytes}

abbrev pub IsByte : ℕ → Type 0
IsByte b = b < 256

digit_or_0-hex_digit : (n : ℕ) → n < 16 → digit_or_0 (hex_digit n) ≡ n
digit_or_0-hex_digit n h = ground (arith, h)

hex_to_bytes-hex16 : (bs : List ℕ) → All IsByte bs → hex_to_bytes (hex16 bs) ≡ bs
unfolding hex16 hex_to_bytes
hex_to_bytes-hex16 [] h = refl
hex_to_bytes-hex16 (b ∷ bs) (byte, h) =
    let hi = digit_or_0-hex_digit (b / 16) (omega (arith, byte)) in
    let lo = digit_or_0-hex_digit (b % 16) (omega arith) in
    let whole : b / 16 * 16 + b % 16 ≡ b = omega arith in
    rw (hi, lo, whole, hex_to_bytes-hex16 bs h) refl
