-- ===== src/Dns/Wire.antt =====
-- The names of the DNS wire format (src/dns.rs): `encode_qname`, `skip_name`, `parse_name`. A byte
-- is a number below 256, a host name the list of its bytes, a `usize` has 64 bits.
use Prim.Native.Nat.{bit_and}
use httprove.Text.{is_empty, split, strip_suffix}
use httprove.Base.{
  ℕ, zero, suc, ◌+◌, ◌/◌, ◌%◌, ◌^◌, List, [], ◌∷◌, ◌++◌, Option, none, some, length, get_elem?, ltb,
  ◌==◌, if◌then◌else◌, Result, ok, err, ◌>>=◌, ok_or,
}

-- The messages of the errors. `out_of_fuel` is no error of the source: it stands for a loop of the
-- model that was given too few rounds. Nor is `panicked`, which stands for an index or a slice out
-- of bounds, where the source would panic.
pub data WireError : Type 0 where
  too_short : ℕ → WireError
  name_out_of_bounds terminator_overflow label_overflow label_exceeds : WireError
  pointer_overflow pointer_truncated : WireError
  reserved_label : ℕ → WireError
  question_overflow question_truncated : WireError
  header_overflow header_truncated rdata_overflow rdata_truncated : WireError
  compression_loop length_out_of_bounds label_out_of_bounds : WireError
  pointer_out_of_bounds invalid_label : WireError
  empty_label : List ℕ → WireError
  label_too_long : List ℕ → WireError
  out_of_fuel panicked : WireError

abbrev pub Bytes : Type 0
Bytes = List ℕ

-- `n.to_be_bytes()` of a `u16`.
abbrev pub be16 : ℕ → Bytes
be16 n = n / 256 % 256 ∷ n % 256 ∷ []

abbrev pub Parsed : Type 0 → Type 0
Parsed = Result WireError

-- `usize::checked_add`
abbrev pub checked_add : ℕ → ℕ → Option ℕ
checked_add a b = if ltb (a + b) (2 ^ 64) then some (a + b) else none

-- One round of the loop of `skip_name` at the length byte `len`; `again` is the next round.
unfoldable pub skip_label : Bytes → ℕ → ℕ → (ℕ → Parsed ℕ) → Parsed ℕ
skip_label buf pos len again =
    if bit_and len 0xC0 == 0
    then (if len == 0 then ok_or (checked_add pos 1) terminator_overflow else (do
      next ← ok_or (checked_add pos (1 + len)) label_overflow
      if ltb (length buf) next then err label_exceeds else again next))
    else if bit_and len 0xC0 == 0xC0
    then (do
      after ← ok_or (checked_add pos 2) pointer_overflow
      if ltb (length buf) after then err pointer_truncated else ok after)
    else err (reserved_label len)

unfoldable pub skip_name_loop : ℕ → Bytes → ℕ → Parsed ℕ
skip_name_loop zero buf pos = err out_of_fuel
skip_name_loop (suc fuel) buf pos = do
  len ← ok_or (get_elem? buf pos) name_out_of_bounds
  skip_label buf pos len (skip_name_loop fuel buf)

-- Each round goes past a length byte at least, so one round for each byte is enough.
unfoldable pub skip_name : Bytes → ℕ → Parsed ℕ
unfolding skip_name_loop skip_label
skip_name buf start = skip_name_loop (suc (length buf)) buf start

abbrev pub dot : ℕ
dot = 46

-- The loop of `encode_qname` over the labels of the host, and the closing zero.
unfoldable pub encode_labels : Bytes → Bytes → List Bytes → Parsed Bytes
encode_labels host pkt [] = ok (pkt ++ 0 ∷ [])
encode_labels host pkt (label ∷ labels) =
    let rest = encode_labels host (pkt ++ length label ∷ label) labels in
    if is_empty label
    then err (empty_label host)
    else if ltb 63 (length label)
    then err (label_too_long label)
    else rest

-- `host.strip_suffix('.').unwrap_or(host)`
abbrev pub host_name : Bytes → Bytes
host_name host = elim (strip_suffix dot host) [ none ↦ host | some h ↦ h ]

unfoldable pub encode_qname : Bytes → Bytes → Parsed Bytes
unfolding encode_labels
encode_qname pkt host =
    let host' = host_name host in
    if is_empty host' then ok (pkt ++ 0 ∷ []) else encode_labels host' pkt (split dot host')
