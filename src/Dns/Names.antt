-- ===== src/Dns/Names.antt =====
-- `skip_name` of src/dns.rs ends, stays in the buffer and goes forward.
use httprove.Base.{
  ℕ, zero, suc, ◌+◌, ◌-◌, ◌≤◌, ◌<◌, ◌≡◌, inl, inr, List, [], ◌∷◌, some, arith, length, get_elem?,
  ok, err, Option-cases,
}
use httprove.Dns.Wire.{
  Bytes, Parsed, WireError, out_of_fuel, panicked, skip_label, skip_name_loop, skip_name,
}

abbrev pub IsByte : ℕ → Type 0
IsByte b = b < 256

pub get_elem?-bound {ℓ} :
    {A : Type ℓ} (xs : List A) (i : ℕ) {x : A} → get_elem? xs i ≡ some x → i < length xs
get_elem?-bound [] i h = cc
get_elem?-bound (x ∷ xs) zero h = omega arith
get_elem?-bound (x ∷ xs) (suc i) h = omega (arith, get_elem?-bound xs i h)

-- An error that the source has.
abbrev pub IsSourceError : WireError → Type 0
IsSourceError out_of_fuel = ⊥
IsSourceError panicked = ⊥
IsSourceError _ = Unit {0}

-- What a parser promises of the position that it returns.
abbrev pub Advances : Bytes → ℕ → Parsed ℕ → Type 0
Advances buf pos (ok next) = (pos < next) × (next ≤ length buf)
Advances buf pos (err e) = IsSourceError e

Advances-mono : (buf : Bytes) (p q : ℕ) (r : Parsed ℕ) → p < q → Advances buf q r → Advances buf p r
Advances-mono buf p q (ok next) h a = omega arith
Advances-mono buf p q (err e) h a = a

skip_label-Advances :
    (buf : Bytes) (pos len : ℕ) (again : ℕ → Parsed ℕ)
    → pos < length buf
    → ((next : ℕ) → pos < next → Advances buf next (again next))
    → Advances buf pos (skip_label buf pos len again)
unfolding skip_label
skip_label-Advances buf pos len again h rec =
    let next : ℕ = pos + (1 + len) in
    ground (arith, Advances-mono buf pos next (again next), rec next)

skip_name_loop-Advances :
    (fuel : ℕ) (buf : Bytes) (pos : ℕ)
    → length buf - pos < fuel
    → Advances buf pos (skip_name_loop fuel buf pos)
unfolding skip_name_loop
skip_name_loop-Advances zero buf pos h = absurd (omega arith)
skip_name_loop-Advances (suc fuel) buf pos h = elim (Option-cases (get_elem? buf pos)) [
  | inl e ↦ rw e tt
  | inr (len, e) ↦
      let inside = get_elem?-bound buf pos e in
      rw e (
        skip_label-Advances buf pos len (skip_name_loop fuel buf) inside
          (λ next lt. skip_name_loop-Advances fuel buf next (omega arith)))
]

-- On every buffer and from every position `skip_name` returns: its loop does not run out of rounds,
-- and either it gives one of the errors of the source, or a position that lies behind the start and
-- not behind the end of the buffer.
pub skip_name-Advances : (buf : Bytes) (start : ℕ) → Advances buf start (skip_name buf start)
unfolding skip_name
skip_name-Advances buf start = skip_name_loop-Advances (suc (length buf)) buf start (omega arith)
