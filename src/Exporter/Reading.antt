-- ===== src/Exporter/Reading.antt =====
-- However the bytes of a request come in, src/exporter.rs reads the same line of them.
use mathlib.Core.List.{append_assoc, append-nil}
use httprove.Base.{
  ℕ, zero, suc, ◌≤◌, List, [], ◌∷◌, ◌++◌, Bool, true, false, ◌||◌, ◌==◌, take, if◌then◌else◌,
  length, ◌≡◌, refl, ap, ◌∙◌, arith, Bool-cases, inl, inr,
}
use httprove.Text.{codes, contains, strip_prefix, is_some}
use httprove.Types.{Text}
use httprove.Exporter.{
  Read, received, failed, line_of, first_line, has_enough, headers_complete, max_request_head,
  read_from, ExporterState, handle_connection, on_line,
}

-- The bytes of the stream.
abbrev pub bytes_of : List Read → List ℕ
bytes_of [] = []
bytes_of (failed ∷ reads) = []
bytes_of (received [] ∷ reads) = []
bytes_of (received (b ∷ bs) ∷ reads) = (b ∷ bs) ++ bytes_of reads

-- No read fails before the end.
abbrev pub IsUnbroken : List Read → Type 0
IsUnbroken [] = Unit
IsUnbroken (failed ∷ reads) = ⊥
IsUnbroken (received [] ∷ reads) = Unit
IsUnbroken (received (b ∷ bs) ∷ reads) = IsUnbroken reads

-- Whether there is a line feed among the bytes.
abbrev has_line : List ℕ → Bool
has_line [] = false
has_line (b ∷ bs) = if b == 10 then true else has_line bs

line_of-append : (xs ys : List ℕ) → has_line xs ≡ true → line_of (xs ++ ys) ≡ line_of xs
unfolding line_of
line_of-append [] ys h = absurd (let e = h in cc)
line_of-append (x ∷ xs) ys h = elim (Bool-cases (x == 10)) [
  | inl e ↦ rw e refl
  | inr e ↦
      let found : has_line xs ≡ true = ground (arith, h, e) in
      rw (e, line_of-append xs ys found) refl
]

strip_prefix-has_line :
    (needle buf : List ℕ)
    → has_line needle ≡ true
    → is_some (strip_prefix needle buf) ≡ true
    → has_line buf ≡ true
unfolding strip_prefix
strip_prefix-has_line [] buf h e = absurd (let e1 = h in cc)
strip_prefix-has_line (p ∷ ps) [] h e = absurd (let e1 = e in cc)
strip_prefix-has_line (p ∷ ps) (b ∷ bs) h e = ground (arith, h, e, strip_prefix-has_line ps bs)

contains-has_line :
    (needle buf : List ℕ)
    → has_line needle ≡ true
    → contains needle buf ≡ true
    → has_line buf ≡ true
unfolding contains
contains-has_line needle [] h e = strip_prefix-has_line needle [] h e
contains-has_line needle (b ∷ bs) h e =
    ground (arith, h, e, strip_prefix-has_line needle (b ∷ bs), contains-has_line needle bs)

or_right : {a b : Bool} → a ≡ false → (a || b) ≡ true → b ≡ true
or_right {a} {b} p e = ground (arith, p, e)

headers_complete-has_line : (buf : List ℕ) → headers_complete buf ≡ true → has_line buf ≡ true
headers_complete-has_line buf e = elim (Bool-cases (contains (codes "\r\n\r\n") buf)) [
  | inl e1 ↦ contains-has_line (codes "\r\n\r\n") buf refl e1
  | inr e1 ↦ contains-has_line (codes "\n\n") buf refl (or_right e1 e)
]

take-has_line :
    (n : ℕ) (xs ys : List ℕ)
    → n ≤ length xs
    → has_line (take n (xs ++ ys)) ≡ true
    → has_line xs ≡ true
take-has_line zero xs ys b h = absurd (let e = h in cc)
take-has_line (suc n) [] ys b h = absurd (omega (arith, b))
take-has_line (suc n) (x ∷ xs) ys b h = ground (arith, b, h, take-has_line n xs ys)

-- The loop stops only where the line is complete, if it lies in the first 8192 bytes.
has_enough-has_line :
    (buf more : List ℕ)
    → has_line (take max_request_head (buf ++ more)) ≡ true
    → has_enough buf ≡ true
    → has_line buf ≡ true
unfolding has_enough
has_enough-has_line buf more h e = elim (Bool-cases (headers_complete buf)) [
  | inl e1 ↦ headers_complete-has_line buf e1
  | inr e1 ↦ take-has_line max_request_head buf more (ground (arith, e1, e)) h
]

module _ (lossy : List ℕ → Text) where
  first_line-append :
      (buf more : List ℕ)
      → has_line buf ≡ true
      → first_line lossy buf ≡ first_line lossy (buf ++ more)
  first_line-append buf more h = rw (line_of-append buf more h) refl

  read_from-whole :
      (buf : List ℕ) (reads : List Read)
      → IsUnbroken reads
      → has_line (take max_request_head (buf ++ bytes_of reads)) ≡ true
      → read_from lossy buf reads ≡ first_line lossy (buf ++ bytes_of reads)
  unfolding read_from
  read_from-whole buf [] u h = rw (append-nil buf) refl
  read_from-whole buf (failed ∷ reads) u h = absurd u
  read_from-whole buf (received [] ∷ reads) u h = rw (append-nil buf) refl
  read_from-whole buf (received (b ∷ bs) ∷ reads) u h = elim (Bool-cases (has_enough buf)) [
    | inl e ↦
        let more = (b ∷ bs) ++ bytes_of reads in
        rw e (first_line-append buf more (has_enough-has_line buf more h e))
    | inr e ↦
        let a = append_assoc buf (b ∷ bs) (bytes_of reads) in
        rw e (
          read_from-whole (buf ++ b ∷ bs) reads u
            (ap (λ l. has_line (take max_request_head l)) a ∙ h)
          ∙ ap (first_line lossy) a)
  ]

  -- If no read fails before the end and there is a line feed among the first 8192 bytes, then a
  -- connection is answered as the first line of all its bytes says, however they are cut into
  -- reads.
  pub handle_connection-first_line :
      {W : Type 0} (s : ExporterState W) (reads : List Read)
      → IsUnbroken reads
      → has_line (take max_request_head (bytes_of reads)) ≡ true
      → handle_connection lossy s reads ≡ on_line s (first_line lossy (bytes_of reads))
  handle_connection-first_line s reads u h = ap (on_line s) (read_from-whole [] reads u h)
