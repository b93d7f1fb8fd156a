-- ===== src/Dns/Grammar.antt =====
-- The grammar of names in a DNS message, said apart from the parsers of src/dns.rs, and what
-- `encode_qname` and `skip_name` do with it.
use mathlib.Core.List.{append_assoc}
use httprove.Text.{is_empty, split}
use httprove.Base.{
  ℕ, zero, suc, ◌+◌, ◌^◌, ◌≤◌, ◌<◌, ◌≡◌, refl, sym, ap, ◌∙◌, List, [], ◌∷◌, ◌++◌, some, arith,
  length, length-append, get_elem?, ok, ◌↔◌, if◌then◌else◌,
}
use httprove.Dns.Bits.{plain_class, pointer_class}
use httprove.Dns.Wire.{
  Bytes, Parsed, skip_label, skip_name_loop, skip_name, encode_labels, encode_qname, dot, host_name,
}

-- A sequence of labels that ends in a zero byte or in a compression pointer.
pub data Name : Type 0 where
  root : Name
  pointer : ℕ → ℕ → Name
  label : Bytes → Name → Name

abbrev pub name_wire : Name → Bytes
name_wire root = 0 ∷ []
name_wire (pointer hi lo) = hi ∷ lo ∷ []
name_wire (label l n) = length l ∷ (l ++ name_wire n)

abbrev pub IsName : Name → Type 0
IsName root = Unit {0}
IsName (pointer hi lo) = (192 ≤ hi) × (hi < 256)
IsName (label l n) = (0 < length l) × (length l ≤ 63) × IsName n

pub get_elem?-append {ℓ} :
    {A : Type ℓ} (pre : List A) (x : A) (post : List A) {i : ℕ}
    → i ≡ length pre
    → get_elem? (pre ++ x ∷ post) i ≡ some x
get_elem?-append [] x post {i} h = rw h
get_elem?-append (y ∷ pre) x post {i} h = rw h (get_elem?-append pre x post refl)

depth : Name → ℕ
depth root = 1
depth (pointer hi lo) = 1
depth (label l n) = depth n + 1

skip_label-root :
    (buf : Bytes) (pos : ℕ) (again : ℕ → Parsed ℕ)
    → pos + 1 < 2 ^ 64
    → skip_label buf pos 0 again ≡ ok (pos + 1)
unfolding skip_label
skip_label-root buf pos again h = ground arith

skip_label-pointer :
    (buf : Bytes) (pos hi : ℕ) (again : ℕ → Parsed ℕ)
    → IsName (pointer hi 0)
    → pos + 2 ≤ length buf
    → length buf < 2 ^ 64
    → skip_label buf pos hi again ≡ ok (pos + 2)
unfolding skip_label
skip_label-pointer buf pos hi again v h b = ground (arith, plain_class hi v.1, pointer_class hi v.1)

skip_label-plain :
    (buf : Bytes) (pos len : ℕ) (again : ℕ → Parsed ℕ)
    → 0 < len
    → len ≤ 63
    → pos + (1 + len) ≤ length buf
    → length buf < 2 ^ 64
    → skip_label buf pos len again ≡ again (pos + (1 + len))
unfolding skip_label
skip_label-plain buf pos len again some_len short h b =
    ground (arith, plain_class len (omega arith))

-- Past the length byte and the label, the buffer reads as a longer prefix and the rest.
regroup :
    (pre l rest post : Bytes)
    → pre ++ ((length l ∷ (l ++ rest)) ++ post) ≡ (pre ++ length l ∷ l) ++ (rest ++ post)
regroup pre l rest post = simp append_assoc

skip_name_loop-wire :
    (n : Name) (fuel : ℕ) (pre post : Bytes) {pos : ℕ}
    → IsName n
    → pos ≡ length pre
    → depth n ≤ fuel
    → length (pre ++ (name_wire n ++ post)) < 2 ^ 64
    → skip_name_loop fuel (pre ++ (name_wire n ++ post)) pos ≡ ok (pos + length (name_wire n))
unfolding skip_name_loop depth
skip_name_loop-wire root zero pre post v h d b = absurd (omega arith)
skip_name_loop-wire (pointer hi lo) zero pre post v h d b = absurd (omega arith)
skip_name_loop-wire (label l n) zero pre post v h d b = absurd (omega arith)
skip_name_loop-wire root (suc fuel) pre post {pos} v h d b =
    let long = length-append pre (0 ∷ post) in
    rw (get_elem?-append pre 0 post h) (skip_label-root _ pos _ (omega arith))
skip_name_loop-wire (pointer hi lo) (suc fuel) pre post {pos} v h d b =
    let long = length-append pre (hi ∷ lo ∷ post) in
    rw (get_elem?-append pre hi (lo ∷ post) h)
      (skip_label-pointer _ pos hi _ v (omega arith) (omega arith))
skip_name_loop-wire (label l n) (suc fuel) pre post {pos} v h d b =
    let rest = (l ++ name_wire n) ++ post in
    let long = length-append pre (length l ∷ rest) in
    let long_rest = length-append (l ++ name_wire n) post in
    let long_label = length-append l (name_wire n) in
    let long_pre = length-append pre (length l ∷ l) in
    rw (get_elem?-append pre (length l) rest h) (
      skip_label-plain _ pos (length l) _ v.0 v.1 (omega arith) b
      ∙ (rw (regroup pre l (name_wire n) post) (
          skip_name_loop-wire n fuel (pre ++ length l ∷ l) post {pos = pos + (1 + length l)} v.2
            (omega arith) (omega arith) (rw (← regroup pre l (name_wire n) post) b)
          ∙ ap ok (omega arith))))

depth-le : (n : Name) → depth n ≤ length (name_wire n)
unfolding depth
depth-le root = omega arith
depth-le (pointer hi lo) = omega arith
depth-le (label l n) = omega (arith, depth-le n, length-append l (name_wire n))

-- `skip_name` on a name of the grammar that stands behind `pre` stops just behind the name.
pub skip_name-wire :
    (n : Name) (pre post : Bytes) {pos : ℕ}
    → IsName n
    → pos ≡ length pre
    → length (pre ++ (name_wire n ++ post)) < 2 ^ 64
    → skip_name (pre ++ (name_wire n ++ post)) pos ≡ ok (pos + length (name_wire n))
unfolding skip_name
skip_name-wire n pre post v h b =
    let long = length-append pre (name_wire n ++ post) in
    let long_name = length-append (name_wire n) post in
    skip_name_loop-wire n (suc (length (pre ++ (name_wire n ++ post)))) pre post v h
      (omega (arith, depth-le n)) b

-- The name of a sequence of labels.
abbrev pub name_of : List Bytes → Name
name_of [] = root
name_of (l ∷ ls) = label l (name_of ls)

-- The labels of a host name: what stands between its dots, a dot at its end left out.
abbrev pub host_labels : Bytes → List Bytes
host_labels host = if is_empty (host_name host) then [] else split dot (host_name host)

encode_labels-wire :
    (host pkt : Bytes) (ls : List Bytes) {out : Bytes}
    → encode_labels host pkt ls ≡ ok out
    → (out ≡ pkt ++ name_wire (name_of ls)) × IsName (name_of ls)
unfolding encode_labels
encode_labels-wire host pkt [] h = ground arith
encode_labels-wire host pkt ([] ∷ ls) h = cc
encode_labels-wire host pkt ((c ∷ cs) ∷ ls) {out} h = ground (
  arith,
  encode_labels-wire host (pkt ++ length (c ∷ cs) ∷ c ∷ cs) ls {out = out},
  append_assoc pkt (length (c ∷ cs) ∷ c ∷ cs) (name_wire (name_of ls)),
)

encode_labels-ok :
    (host pkt : Bytes) (ls : List Bytes)
    → IsName (name_of ls)
    → encode_labels host pkt ls ≡ ok (pkt ++ name_wire (name_of ls))
unfolding encode_labels
encode_labels-ok host pkt [] v = refl
encode_labels-ok host pkt ([] ∷ ls) v = absurd (omega arith)
encode_labels-ok host pkt ((c ∷ cs) ∷ ls) v = ground (
  arith,
  encode_labels-ok host (pkt ++ length (c ∷ cs) ∷ c ∷ cs) ls v.2,
  append_assoc pkt (length (c ∷ cs) ∷ c ∷ cs) (name_wire (name_of ls)),
)

-- `encode_qname` succeeds exactly if every label of the host has 1 to 63 bytes, and then it has
-- written the name of these labels behind what was there.
pub encode_qname-ok_iff :
    (pkt host out : Bytes)
    → (encode_qname pkt host ≡ ok out) ↔ (
        IsName (name_of (host_labels host)) × (out ≡ pkt ++ name_wire (name_of (host_labels host))))
unfolding encode_qname
encode_qname-ok_iff pkt host out = (
  λ h.
      ground
        (arith, encode_labels-wire (host_name host) pkt (split dot (host_name host)) {out = out}),
  λ h. ground (arith, encode_labels-ok (host_name host) pkt (split dot (host_name host))),
)

-- What `encode_qname` wrote is a name that `skip_name` skips whole, whatever follows it, in a
-- buffer shorter than 2 ^ 64 bytes.
pub skip_name-encode_qname :
    (pkt host out post : Bytes)
    → encode_qname pkt host ≡ ok out
    → length (out ++ post) < 2 ^ 64
    → skip_name (out ++ post) (length pkt) ≡ ok (length out)
skip_name-encode_qname pkt host out post h b =
    let (v, e) = (encode_qname-ok_iff pkt host out).0 h in
    let n = name_of (host_labels host) in
    let same : out ++ post ≡ pkt ++ (name_wire n ++ post) =
      ap (λ o. o ++ post) e ∙ append_assoc pkt (name_wire n) post in
    rw same (
      skip_name-wire n pkt post v refl (rw (← same) b)
      ∙ ap ok (sym (ap length e ∙ length-append pkt (name_wire n))))
