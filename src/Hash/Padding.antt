-- ===== src/Hash/Padding.antt =====
-- The padding of SHA-256 (src/hash.rs): its shape, that it fills whole chunks, that no two messages share it.
use mathlib.Core.List.{append_assoc, append-nil}
use httprove.Base.{
  ℕ, Bool-cases, true, false, inl, inr, zero, suc, ◌+◌, ◌-◌, ◌*◌, ◌%◌, ◌^◌, ◌≤◌, ◌<◌, ◌≡◌, refl,
  sym, ap, ◌∙◌, List, [], ◌∷◌, ◌++◌, length, drop, length-append, length-replicate, replicate,
  arith, ◌==◌,
}
use httprove.Hash.{be64, pad_loop, pad}

-- The number of zeros that leave 56 bytes in the last chunk.
abbrev pub gap : ℕ → ℕ
gap n = (120 - n % 64) % 64

gap_none : (n : ℕ) → gap n ≤ 0 → gap n ≡ 0
gap_none n h = omega (arith, h)

gap_full : (n : ℕ) → (n % 64 == 56) ≡ true → gap n ≡ 0
gap_full n h = ground arith

gap_step : (n : ℕ) → (n % 64 == 56) ≡ false → gap n ≡ suc (gap (n + 1))
gap_step n h = ground arith

pad_loop_lem :
    (fuel : ℕ) (msg : List ℕ)
    → gap (length msg) ≤ fuel
    → pad_loop fuel msg ≡ msg ++ replicate (gap (length msg)) 0
unfolding pad_loop
pad_loop_lem zero msg h = rw (gap_none (length msg) (omega arith)) (sym (append-nil msg))
pad_loop_lem (suc fuel) msg h = elim (Bool-cases (length msg % 64 == 56)) [
  | inl e ↦ rw e (rw (gap_full (length msg) e) (sym (append-nil msg)))
  | inr e ↦
      let step = gap_step (length msg) e in
      let grown : length (msg ++ 0 ∷ []) ≡ length msg + 1 = length-append msg (0 ∷ []) in
      let rest = pad_loop_lem fuel (msg ++ 0 ∷ []) (rw grown (omega (arith, h, step))) in
      rw e (
        rest
        ∙ (rw grown (rw step (append_assoc msg (0 ∷ []) (replicate (gap (length msg + 1)) 0)))))
]

-- The padded message is the message, 0x80, the fewest zeros that let the eight bytes behind them,
-- the number of bits, end a chunk of 64 bytes.
pub pad-shape :
    (bytes : List ℕ)
    → (pad bytes
        ≡ (bytes ++ 0x80 ∷ replicate (gap (length bytes + 1)) 0)
          ++ be64 (length bytes * 8 % 2 ^ 64))
      × (gap (length bytes + 1) < 64)
      × (length (pad bytes) % 64 ≡ 0)
unfolding pad
pad-shape bytes =
    let marked = length-append bytes (0x80 ∷ []) in
    let n = length bytes + 1 in
    let looped : pad_loop 64 (bytes ++ 0x80 ∷ []) ≡ bytes ++ 0x80 ∷ replicate (gap n) 0 =
      pad_loop_lem 64 (bytes ++ 0x80 ∷ []) (omega arith)
      ∙ (rw marked (append_assoc bytes (0x80 ∷ []) (replicate (gap n) 0))) in
    let tail = be64 (length bytes * 8 % 2 ^ 64) in
    let body = bytes ++ 0x80 ∷ replicate (gap n) 0 in
    let shape : pad bytes ≡ body ++ tail = ap (λ m. m ++ tail) looped in
    let size : length (pad bytes) ≡ length bytes + (1 + gap n) + 8 =
      ap length shape
      ∙ omega (
        arith,
        length-append body tail,
        length-append bytes (0x80 ∷ replicate (gap n) 0),
        length-replicate {A = ℕ} (gap n) 0,
      ) in
    (shape, omega arith, omega (arith, size))

-- Two texts that are put together alike, the last parts equally long, have equal parts.
parts_equal :
    {A : Type 0} (xs ys us vs : List A)
    → length xs ≡ length ys
    → xs ++ us ≡ ys ++ vs
    → (xs ≡ ys) × (us ≡ vs)
parts_equal [] [] us vs h e = (refl, e)
parts_equal [] (y ∷ ys) us vs h e = absurd (omega (arith, h))
parts_equal (x ∷ xs) [] us vs h e = absurd (omega (arith, h))
parts_equal (x ∷ xs) (y ∷ ys) us vs h e =
    let (a, b) = parts_equal xs ys us vs (omega (arith, h)) (ap (drop 1) e) in (cc, b)

be64_inj : (m n : ℕ) → m < 2 ^ 64 → n < 2 ^ 64 → be64 m ≡ be64 n → m ≡ n
be64_inj m n h k e = ground arith

-- No two messages, each of fewer than 2 ^ 61 bytes, have the same padded message.
pub pad-injective :
    (xs ys : List ℕ) → length xs < 2 ^ 61 → length ys < 2 ^ 61 → pad xs ≡ pad ys → xs ≡ ys
pad-injective xs ys h k e =
    let (shape_x, gap_x, size_x) = pad-shape xs in
    let (shape_y, gap_y, size_y) = pad-shape ys in
    let zeros = λ (bytes : List ℕ). replicate {A = ℕ} (gap (length bytes + 1)) 0 in
    let body = λ (bytes : List ℕ). bytes ++ 0x80 ∷ zeros bytes in
    let bits = λ (bytes : List ℕ). be64 (length bytes * 8 % 2 ^ 64) in
    let same : body xs ++ bits xs ≡ body ys ++ bits ys = sym shape_x ∙ (e ∙ shape_y) in
    let total : length (body xs) ≡ length (body ys) = omega (
      arith,
      ap length same,
      length-append (body xs) (bits xs),
      length-append (body ys) (bits ys),
    ) in
    let (bodies, counts) = parts_equal (body xs) (body ys) (bits xs) (bits ys) total same in
    let equal =
      be64_inj (length xs * 8 % 2 ^ 64) (length ys * 8 % 2 ^ 64) (omega arith) (omega arith)
        counts in
    (parts_equal xs ys (0x80 ∷ zeros xs) (0x80 ∷ zeros ys) (omega (arith, equal)) bodies).0
