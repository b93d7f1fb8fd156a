-- ===== src/Ipinfo/Names.antt =====
-- The names that src/ipinfo.rs asks for are names that src/dns.rs can send.
use mathlib.Core.Option
use httprove.Base.{
  ℕ, zero, suc, ◌/◌, ◌%◌, ◌≤◌, ◌<◌, List, [], ◌∷◌, ◌++◌, Option, none, some, false, ◌==◌, get_or,
  length, reverse, ok, All, ◌≡◌, refl, ap, ◌∙◌, arith,
}
use httprove.Text.{codes, split, push_head, strip_suffix, is_empty}
use httprove.Types.{Text}
use httprove.Hash.{hex_digit}
use httprove.Dns.Answers.{IpAddr, v4, v6}
use httprove.Dns.Wire.{Bytes, dot, host_name, encode_qname}
use httprove.Dns.Grammar.{name_of, name_wire, host_labels, IsName, encode_qname-ok_iff}
use httprove.Ipinfo.{nibbles_of, nibbles_reversed, dotted, reverse_arpa}

-- What a label holds: up to 63 characters, and no dot.
abbrev pub IsLabel : Text → Type 0
IsLabel t = All (λ c. (c == dot) ≡ false) t × (0 < length t) × (length t ≤ 63)

split-dot :
    (t rest : Text)
    → All (λ c. (c == dot) ≡ false) t
    → split dot (t ++ (dot ∷ rest)) ≡ t ∷ split dot rest
unfolding split push_head
split-dot [] rest h = refl
split-dot (c ∷ cs) rest (h, hs) = rw h (ap (push_head c) (split-dot cs rest hs))

strip_suffix-append_none :
    (c x : ℕ) (xs ys : Text)
    → strip_suffix c (x ∷ xs) ≡ none
    → strip_suffix c (ys ++ (x ∷ xs)) ≡ none
unfolding strip_suffix
strip_suffix-append_none c x xs [] h = h
strip_suffix-append_none c x xs (y ∷ []) h = ap (Option.map (λ s. y ∷ s)) h
strip_suffix-append_none c x xs (y ∷ z ∷ ys) h =
    ap (Option.map (λ s. y ∷ s)) (strip_suffix-append_none c x xs (z ∷ ys) h)

is_empty-append : (x : ℕ) (xs ys : Text) → is_empty (ys ++ (x ∷ xs)) ≡ false
is_empty-append x xs [] = refl
is_empty-append x xs (y ∷ ys) = refl

name_at : Bytes → Option Bytes → Bytes
name_at host none = host
name_at host (some h) = h

-- A host that does not end in a dot is split as it stands.
host_labels-split :
    (host : Bytes)
    → strip_suffix dot host ≡ none
    → is_empty host ≡ false
    → host_labels host ≡ split dot host
unfolding strip_suffix name_at
host_labels-split host e n =
    let same : host_name host ≡ host = ap (name_at host) e in rw (same, n) refl

-- The halves of the octets, each a label.
abbrev pub nibble_labels : List ℕ → List Text
nibble_labels [] = []
nibble_labels (b ∷ octets) =
    (hex_digit (b % 16) ∷ []) ∷ (hex_digit (b / 16) ∷ []) ∷ nibble_labels octets

hex_digit-ne_dot : (n : ℕ) → (hex_digit n == dot) ≡ false
hex_digit-ne_dot n = ground arith

split-nibbles_of :
    (octets : List ℕ) (rest : Text)
    → split dot (nibbles_of octets ++ rest) ≡ nibble_labels octets ++ split dot rest
split-nibbles_of [] rest = refl
split-nibbles_of (b ∷ octets) rest =
    let lo = hex_digit (b % 16) in
    let hi = hex_digit (b / 16) in
    split-dot (lo ∷ []) (hi ∷ dot ∷ (nibbles_of octets ++ rest)) (hex_digit-ne_dot (b % 16), tt)
    ∙ ap (◌∷◌ (lo ∷ [])) (
        split-dot (hi ∷ []) (nibbles_of octets ++ rest) (hex_digit-ne_dot (b / 16), tt)
        ∙ ap (◌∷◌ (hi ∷ [])) (split-nibbles_of octets rest))

nibble_labels-IsName :
    (octets : List ℕ) (rest : List Text)
    → IsName (name_of rest)
    → IsName (name_of (nibble_labels octets ++ rest))
nibble_labels-IsName [] rest h = h
nibble_labels-IsName (b ∷ octets) rest h =
    (omega arith, omega arith, (omega arith, omega arith, nibble_labels-IsName octets rest h))

abbrev pub arpa_labels : (ℕ → Text) → IpAddr → List Text
arpa_labels number (v4 o) =
    number (get_or o 3 0)
    ∷ number (get_or o 2 0)
    ∷ number (get_or o 1 0)
    ∷ number (get_or o 0 0)
    ∷ codes "in-addr"
    ∷ codes "arpa"
    ∷ []
arpa_labels number (v6 o) = nibble_labels (reverse o) ++ (codes "ip6" ∷ codes "arpa" ∷ [])

-- The octets of an address are bytes.
abbrev pub AreBytes : IpAddr → Type 0
AreBytes (v4 o) = All (λ b. b < 256) o
AreBytes (v6 o) = All (λ b. b < 256) o

get_or-byte : (o : List ℕ) (i : ℕ) → All (λ b. b < 256) o → get_or o i 0 < 256
get_or-byte [] i h = omega arith
get_or-byte (b ∷ o) zero (h, hs) = h
get_or-byte (b ∷ o) (suc i) (h, hs) = get_or-byte o i hs

module _ (number : ℕ → Text) (labels : (n : ℕ) → n < 256 → IsLabel (number n)) where
  dotted-none :
      (o : List ℕ) (x : ℕ) (xs : Text)
      → strip_suffix dot (x ∷ xs) ≡ none
      → strip_suffix dot (dotted number o (x ∷ xs)) ≡ none
  dotted-none o x xs e =
      let d = λ (i : ℕ). number (get_or o i 0) in
      let m0 = d 0 ++ (x ∷ xs) in
      let m1 = d 1 ++ (dot ∷ m0) in
      let m2 = d 2 ++ (dot ∷ m1) in
      let h0 = strip_suffix-append_none dot x xs (dot ∷ d 0) e in
      let h1 = strip_suffix-append_none dot dot m0 (dot ∷ d 1) h0 in
      let h2 = strip_suffix-append_none dot dot m1 (dot ∷ d 2) h1 in
      strip_suffix-append_none dot dot m2 (d 3) h2

  octet-IsLabel : (o : List ℕ) (i : ℕ) → All (λ b. b < 256) o → IsLabel (number (get_or o i 0))
  octet-IsLabel o i h = labels (get_or o i 0) (get_or-byte o i h)

  dotted-split :
      (o : List ℕ) (rest : Text)
      → All (λ b. b < 256) o
      → split dot (dotted number o (dot ∷ rest))
        ≡ number (get_or o 3 0)
          ∷ number (get_or o 2 0)
          ∷ number (get_or o 1 0)
          ∷ number (get_or o 0 0)
          ∷ split dot rest
  dotted-split o rest h =
      let d = λ (i : ℕ). number (get_or o i 0) in
      let next = λ (i : ℕ) (l : Text). split-dot (d i) l (octet-IsLabel o i h).0 in
      next 3 (d 2 ++ (dot ∷ (d 1 ++ (dot ∷ (d 0 ++ (dot ∷ rest))))))
      ∙ ap (◌∷◌ (d 3)) (
          next 2 (d 1 ++ (dot ∷ (d 0 ++ (dot ∷ rest))))
          ∙ ap (◌∷◌ (d 2)) (next 1 (d 0 ++ (dot ∷ rest)) ∙ ap (◌∷◌ (d 1)) (next 0 rest)))

  reverse_arpa-split :
      (ip : IpAddr) → AreBytes ip → host_labels (reverse_arpa number ip) ≡ arpa_labels number ip
  unfolding reverse_arpa split push_head strip_suffix
  reverse_arpa-split (v4 o) h =
      host_labels-split (dotted number o (codes ".in-addr.arpa"))
        (dotted-none o dot (codes "in-addr.arpa") refl)
        (is_empty-append dot _ (number (get_or o 3 0)))
      ∙ dotted-split o (codes "in-addr.arpa") h
  reverse_arpa-split (v6 o) h =
      host_labels-split (nibbles_reversed o ++ codes "ip6.arpa")
        (strip_suffix-append_none dot b'i' (codes "p6.arpa") (nibbles_reversed o) refl)
        (is_empty-append b'i' (codes "p6.arpa") (nibbles_reversed o))
      ∙ split-nibbles_of (reverse o) (codes "ip6.arpa")

  arpa_labels-IsName : (ip : IpAddr) → AreBytes ip → IsName (name_of (arpa_labels number ip))
  arpa_labels-IsName (v4 o) h =
      let size = λ (i : ℕ). (octet-IsLabel o i h).1 in
      let bound = λ (i : ℕ). (octet-IsLabel o i h).2 in
      (
        size 3,
        bound 3,
        (
          size 2,
          bound 2,
          (
            size 1,
            bound 1,
            (size 0, bound 0, (omega arith, omega arith, (omega arith, omega arith, tt))),
          ),
        ),
      )
  arpa_labels-IsName (v6 o) h =
      nibble_labels-IsName (reverse o) (codes "ip6" ∷ codes "arpa" ∷ [])
        (omega arith, omega arith, (omega arith, omega arith, tt))

  -- If the decimal numbers below 256 are written without a dot and in 1 to 63 characters, the
  -- reverse name of every address whose octets are bytes is one that `encode_qname` accepts, and it
  -- writes the labels of that name: the octets of an IPv4 address or the half-bytes of an IPv6
  -- address, the last first.
  pub encode_qname-reverse_arpa :
      (pkt : Bytes) (ip : IpAddr)
      → AreBytes ip
      → encode_qname pkt (reverse_arpa number ip)
        ≡ ok (pkt ++ name_wire (name_of (arpa_labels number ip)))
  encode_qname-reverse_arpa pkt ip h =
      let e = reverse_arpa-split ip h in
      (encode_qname-ok_iff pkt (reverse_arpa number ip)
          (pkt ++ name_wire (name_of (arpa_labels number ip)))).1
        (rw e (arpa_labels-IsName ip h, refl))
