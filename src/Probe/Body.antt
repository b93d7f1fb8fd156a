-- ===== src/Probe/Body.antt =====
-- What src/probe.rs keeps of a body.
use httprove.Base.{
  ℕ, zero, suc, ◌-◌, ◌<◌, List, [], ◌∷◌, ◌++◌, Option, none, some, Bool, true, false, ltb,
  if◌then◌else◌, Result, ok, err, length, take, length-append, ◌≡◌, refl, sym, ap, ◌∙◌, arith,
  Bool-cases, inl, inr, length-take, ltb→lt,
}
use mathlib.Core.List.{append_assoc, append-nil}
use httprove.Types.{ProbeError}
use httprove.Probe.Exchange.{
  Frame, chunk, trailers, broken, capture_chunk, read_frames, read_body, body_capture_cap,
}

-- The bytes of the body.
abbrev pub bytes_of : List Frame → List ℕ
bytes_of [] = []
bytes_of (chunk bytes ∷ frames) = bytes ++ bytes_of frames
bytes_of (trailers ∷ frames) = bytes_of frames
bytes_of (broken e ∷ frames) = bytes_of frames

-- The first failure of the stream.
abbrev pub failure_of : List Frame → Option ProbeError
failure_of [] = none
failure_of (chunk bytes ∷ frames) = failure_of frames
failure_of (trailers ∷ frames) = failure_of frames
failure_of (broken e ∷ frames) = some e

take-append :
    {A : Type 0} (n : ℕ) (xs ys : List A) → take n (xs ++ ys) ≡ take n xs ++ take (n - length xs) ys
take-append zero [] ys = refl
take-append (suc n) [] ys = let e : suc n - 0 ≡ suc n = omega arith in rw e refl
take-append zero (x ∷ xs) ys = let e : 0 - suc (length xs) ≡ 0 = omega arith in rw e refl
take-append (suc n) (x ∷ xs) ys = ap (◌∷◌ x) (
    take-append n xs ys
    ∙ (let e : n - length xs ≡ suc n - suc (length xs) = omega arith in
        ap (λ (k : ℕ). take n xs ++ take k ys) e))

take-short : {A : Type 0} (n : ℕ) (xs : List A) → length (take n xs) < n → take n xs ≡ xs
take-short zero xs h = absurd (omega (arith, h))
take-short (suc n) [] h = refl
take-short (suc n) (x ∷ xs) h = ap (◌∷◌ x) (take-short n xs (omega (arith, h)))

-- The first `cap` bytes of what was read, if they are asked for.
abbrev kept : ℕ → Bool → List ℕ → Option (List ℕ)
kept cap capture bytes = if capture then some (take cap bytes) else none

empty_capture :
    (cap : ℕ) (capture : Bool) → (if capture then some [] else none) ≡ kept cap capture []
empty_capture cap false = refl
empty_capture zero true = refl
empty_capture (suc cap) true = refl

capture_chunk-kept :
    (cap : ℕ) (capture : Bool) (read bytes : List ℕ)
    → capture_chunk cap (kept cap capture read) bytes ≡ kept cap capture (read ++ bytes)
capture_chunk-kept cap false read bytes = refl
capture_chunk-kept cap true read bytes = elim (Bool-cases (ltb (length (take cap read)) cap)) [
  | inl e ↦
      let whole = take-short cap read (ltb→lt (length (take cap read)) cap e) in
      rw e (
        ap some (
          ap (λ t. t ++ take (cap - length t) bytes) whole
          ∙ (ap (λ t. t ++ take (cap - length read) bytes) (sym whole)
              ∙ sym (take-append cap read bytes))))
  | inr e ↦
      let full : cap - length read ≡ 0 = ground (arith, e, length-take cap read) in
      rw e (
        ap some (
          sym (append-nil (take cap read))
          ∙ (ap (λ k. take cap read ++ take k bytes) (sym full)
              ∙ sym (take-append cap read bytes))))
]

-- What reading gives, for the first failure and for the bytes of a body.
abbrev pub body_outcome :
    ℕ → Bool → Option ProbeError → List ℕ → Result ProbeError (ℕ × Option (List ℕ))
body_outcome cap capture (some e) bytes = err e
body_outcome cap capture none bytes = ok (length bytes, kept cap capture bytes)

read_frames-from :
    (cap : ℕ) (capture : Bool) (frames : List Frame) (read : List ℕ)
    → read_frames cap frames (length read) (kept cap capture read)
      ≡ body_outcome cap capture (failure_of frames) (read ++ bytes_of frames)
unfolding read_frames
read_frames-from cap capture [] read = ap (body_outcome cap capture none) (sym (append-nil read))
read_frames-from cap capture (chunk bytes ∷ frames) read =
    ap (λ (n : ℕ). read_frames cap frames n (capture_chunk cap (kept cap capture read) bytes))
      (sym (length-append read bytes))
    ∙ (ap (read_frames cap frames (length (read ++ bytes)))
          (capture_chunk-kept cap capture read bytes)
        ∙ (read_frames-from cap capture frames (read ++ bytes)
            ∙ ap (body_outcome cap capture (failure_of frames))
                (append_assoc read bytes (bytes_of frames))))
read_frames-from cap capture (trailers ∷ frames) read = read_frames-from cap capture frames read
read_frames-from cap capture (broken e ∷ frames) read = refl

-- Reading a body gives the first failure of its stream, if there is one, and otherwise the number
-- of all its bytes and, if they are asked for, the first 2 ^ 20 of them.
pub read_body-outcome :
    (capture : Bool) (frames : List Frame)
    → read_body capture frames
      ≡ body_outcome body_capture_cap capture (failure_of frames) (bytes_of frames)
unfolding read_body
read_body-outcome capture frames =
    ap (read_frames body_capture_cap frames 0) (empty_capture body_capture_cap capture)
    ∙ read_frames-from body_capture_cap capture frames []
