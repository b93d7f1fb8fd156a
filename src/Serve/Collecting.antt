-- ===== src/Serve/Collecting.antt =====
-- What src/serve.rs collects of a body.
use httprove.Base.{
  ℕ, zero, suc, ◌+◌, ◌-◌, ◌≤◌, List, [], ◌∷◌, ◌++◌, true, false, ltb, length, length-append, take,
  ◌≡◌, refl, sym, ap, ◌∙◌, arith, Bool-cases, inl, inr,
}
use mathlib.Core.List.{append_assoc, append-nil}
use httprove.Serve.{Frame, chunk, trailers, broken, collect_from, collect_body}

-- The bytes that come before the end of the stream or its first failure.
abbrev pub bytes_of : List Frame → List ℕ
bytes_of [] = []
bytes_of (chunk bytes ∷ frames) = bytes ++ bytes_of frames
bytes_of (trailers ∷ frames) = bytes_of frames
bytes_of (broken ∷ frames) = []

take-inside : (n : ℕ) (xs ys : List ℕ) → n ≤ length xs → take n (xs ++ ys) ≡ take n xs
take-inside zero xs ys h = refl
take-inside (suc n) [] ys h = absurd (omega (arith, h))
take-inside (suc n) (x ∷ xs) ys h = ap (◌∷◌ x) (take-inside n xs ys (omega (arith, h)))

take-outside :
    (n : ℕ) (xs ys : List ℕ) → length xs ≤ n → take n (xs ++ ys) ≡ xs ++ take (n - length xs) ys
take-outside n [] ys h = let e : n - 0 ≡ n = omega arith in rw e refl
take-outside zero (x ∷ xs) ys h = absurd (omega (arith, h))
take-outside (suc n) (x ∷ xs) ys h =
    let e : suc n - suc (length xs) ≡ n - length xs = omega arith in
    rw e (ap (◌∷◌ x) (take-outside n xs ys (omega (arith, h))))

take-nil : (n : ℕ) → take {A = ℕ} n [] ≡ []
take-nil zero = refl
take-nil (suc n) = refl

take-whole : (n : ℕ) (xs : List ℕ) → length xs ≤ n → take n (xs ++ []) ≡ xs
take-whole n xs h =
    take-outside n xs [] h ∙ (ap (◌++◌ xs) (take-nil (n - length xs)) ∙ append-nil xs)

pair_eq : {A B : Type 0} {a a' : A} {b b' : B} → a ≡ a' → b ≡ b' → ◌≡◌ {A = A × B} (a, b) (a', b')
pair_eq p q = λ i. (p i, q i)

-- Nothing is left out of what fits.
fits : (max : ℕ) (read : List ℕ) → length read ≤ max → false ≡ ltb max (length (read ++ []))
fits max read h = ground (arith, h, length-append read [])

collect_from-take :
    (max : ℕ) (read : List ℕ) (frames : List Frame)
    → length read ≤ max
    → collect_from max read frames
      ≡ (take max (read ++ bytes_of frames), ltb max (length (read ++ bytes_of frames)))
unfolding collect_from
collect_from-take max read [] h = pair_eq (sym (take-whole max read h)) (fits max read h)
collect_from-take max read (broken ∷ frames) h =
    pair_eq (sym (take-whole max read h)) (fits max read h)
collect_from-take max read (trailers ∷ frames) h = collect_from-take max read frames h
collect_from-take max read (chunk c ∷ frames) h =
    elim (Bool-cases (ltb max (length read + length c))) [
      | inl e ↦
          let rest = c ++ bytes_of frames in
          let short : max - length read ≤ length c = ground (arith, e) in
          let over : true ≡ ltb max (length (read ++ rest)) =
            ground (arith, e, length-append read rest, length-append c (bytes_of frames)) in
          rw e (
            pair_eq
              (ap (◌++◌ read) (sym (take-inside (max - length read) c (bytes_of frames) short))
                ∙ sym (take-outside max read rest h))
              over)
      | inr e ↦
          let more : length (read ++ c) ≤ max = ground (arith, e, length-append read c) in
          rw e (
            collect_from-take max (read ++ c) frames more
            ∙ ap (λ l. (take max l, ltb max (length l))) (append_assoc read c (bytes_of frames)))
    ]

-- Of a body `collect_body` returns the first `max` bytes that come before the end or the first
-- failure of the stream, and says that it is truncated exactly if there were more.
pub collect_body-take :
    (max : ℕ) (frames : List Frame)
    → collect_body max frames ≡ (take max (bytes_of frames), ltb max (length (bytes_of frames)))
unfolding collect_body
collect_body-take max frames = collect_from-take max [] frames (omega arith)
