-- ===== src/Cli/Pinned.antt =====
-- How the arguments of `--resolve` are written that src/cli.rs accepts.
use mathlib.Core.Option
use httprove.Base.{
  ℕ, [], ◌∷◌, ◌++◌, Option, none, some, Bool, true, false, ◌==◌, if◌then◌else◌, Result, ok, err,
  >>=-eq-ok, ok_or, ◌≡◌, ◌⊎◌, inl, inr, refl, sym, subst, ap, ◌∙◌, arith,
}
use httprove.Text.{
  split_once, strip_prefix, strip_suffix, trim, is_empty, parse_unsigned, to_ascii_lowercase,
}
use httprove.Text.Parts.{IsWithout, IsSplit, split_once-IsSplit, Ends, strip_suffix-Ends}
use httprove.Types.{Text}
use httprove.Dns.Answers.{IpAddr}
use httprove.Cli.{max_u16, empty_resolve}
use httprove.Cli.Resolve.{
  ResolveOverrides, lookup, unbracket, split_three, read_pinned, read_override, Override,
  everywhere, pinned,
}

-- The address in brackets, or alone.
abbrev pub IsBracketed : Text → Text → Type 0
IsBracketed s inner = (s ≡ b'[' ∷ (inner ++ (b']' ∷ []))) ⊎ (s ≡ inner)

or_whole-IsBracketed :
    (s : Text) (o : Option Text)
    → Ends b']' s o
    → IsBracketed (b'[' ∷ s) (elim o [ some inner ↦ inner | none ↦ b'[' ∷ s ])
or_whole-IsBracketed s none h = inr refl
or_whole-IsBracketed s (some inner) h = inl (ap (◌∷◌ b'[') h)

unbracket-IsBracketed : (s : Text) → IsBracketed s (unbracket s)
unfolding unbracket strip_prefix Option.bind
unbracket-IsBracketed [] = inr refl
unbracket-IsBracketed (c ∷ cs) = opened (b'[' == c) (λ h. ground (arith, h))
  where
    opened :
        (b : Bool)
        → (b ≡ true → b'[' ≡ c)
        → IsBracketed
            (c ∷ cs)
            (elim (Option.bind (if b then some cs else none) (strip_suffix b']')) [
              | some inner ↦ inner
              | none ↦ c ∷ cs
            ])
    opened true k =
        subst
          (λ x.
            IsBracketed (x ∷ cs)
              (elim (strip_suffix b']' cs) [ some inner ↦ inner | none ↦ x ∷ cs ]))
          (k refl) (or_whole-IsBracketed cs (strip_suffix b']' cs) (strip_suffix-Ends b']' cs))
    opened false k = inr refl

ok_or-some : {A E : Type 0} (o : Option A) (e : E) (a : A) → ok_or o e ≡ ok a → o ≡ some a
ok_or-some none e a h = absurd (let k = h in cc)
ok_or-some (some b) e a h = cc

-- The three parts of an argument.
abbrev pub AreParts : Text → Text → Text → Text → Type 0
AreParts s host port addr =
    (s ≡ host ++ (b':' ∷ (port ++ (b':' ∷ addr)))) × IsWithout b':' host × IsWithout b':' port

split_three-AreParts :
    (s host port addr : Text) → split_three s ≡ some (host, port, addr) → AreParts s host port addr
split_three-AreParts s host port addr e = first (split_once b':' s) (split_once-IsSplit b':' s) e
  where
    second :
        (h rest : Text) (o : Option (Text × Text))
        → (s ≡ h ++ (b':' ∷ rest)) × IsWithout b':' h
        → IsSplit b':' rest o
        → ◌≡◌ {A = Option (Text × Text × Text)}
            (elim o [ none ↦ none | some (p, a) ↦ some (h, p, a) ])
            (some (host, port, addr))
        → AreParts s host port addr
    second h rest none k l e = absurd (let q = e in cc)
    second h rest (some (p, a)) (k, w) (l, v) e =
        let same : (h, p, a) ≡ (host, port, addr) = cc in
        subst (λ (t : Text × Text × Text). AreParts s t.0 t.1 t.2) same
          (k ∙ ap (λ r. h ++ (b':' ∷ r)) l, w, v)

    first :
        (o : Option (Text × Text))
        → IsSplit b':' s o
        → ◌≡◌ {A = Option (Text × Text × Text)}
            (elim o [
              | none ↦ none
              | some (h, rest) ↦ elim (split_once b':' rest) [
                | none ↦ none
                | some (p, a) ↦ some (h, p, a)
              ]
            ])
            (some (host, port, addr))
        → AreParts s host port addr
    first none k e = absurd (let q = e in cc)
    first (some (h, rest)) k e =
        second h rest (split_once b':' rest) k (split_once-IsSplit b':' rest) e

-- What an argument asks for, the overrides give.
abbrev pub Gives : ResolveOverrides → Override → Type 0
Gives o (everywhere ip) = o.global ≡ some ip
Gives o (pinned (h, port) ip) =
    (host : Text) → to_ascii_lowercase host ≡ h → lookup o (some host) port ≡ some ip

-- The argument is a host, a port and an address behind colons, and the look-up of that host, in
-- whatever case, and that port gives that address.
pub record Pins (parse_ip : Text → Option IpAddr) (o : ResolveOverrides) (raw : Text) : Type 0 where
  pub host : Text
  pub port_text : Text
  pub addr : Text
  pub inner : Text
  pub port : ℕ
  pub ip : IpAddr
  pub parts : AreParts (trim raw) host port_text addr
  pub named : is_empty (trim host) ≡ false
  pub number : parse_unsigned max_u16 (trim port_text) ≡ some port
  pub bracketed : IsBracketed (trim addr) inner
  pub address : parse_ip inner ≡ some ip
  pub found :
      (name : Text)
      → to_ascii_lowercase name ≡ to_ascii_lowercase (trim host)
      → lookup o (some name) port ≡ some ip

if-ok :
    {E : Type 0} (b : Bool) (e : E) (x : Bool)
    → ◌≡◌ {A = Result E Bool} (if b then err e else ok true) (ok x)
    → b ≡ false
if-ok true e x h = absurd (let k = h in cc)
if-ok false e x h = refl

pub read_pinned-Pins :
    (parse_ip : Text → Option IpAddr) (o : ResolveOverrides) (raw : Text) (asked : Override)
    → read_pinned parse_ip raw ≡ ok asked
    → Gives o asked
    → Pins parse_ip o raw
unfolding read_pinned
read_pinned-Pins parse_ip o raw asked h gives =
    let ((host, port_text, addr), split, h1) = >>=-eq-ok _ _ h in
    let (fine, some_host, h2) = >>=-eq-ok _ _ h1 in
    let (port, number, h3) = >>=-eq-ok _ _ h2 in
    let (ip, address, h4) = >>=-eq-ok _ _ h3 in
    let same : pinned (to_ascii_lowercase (trim host), port) ip ≡ asked = cc in
    record {
      host = host;
      port_text = port_text;
      addr = addr;
      inner = unbracket (trim addr);
      port = port;
      ip = ip;
      parts = split_three-AreParts (trim raw) host port_text addr (ok_or-some _ _ _ split);
      named = if-ok (is_empty (trim host)) _ fine some_host;
      number = ok_or-some _ _ _ number;
      bracketed = unbracket-IsBracketed (trim addr);
      address = ok_or-some _ _ _ address;
      found = subst (Gives o) (sym same) gives;
    }

-- The argument is an address for all hosts, or one for a host and a port.
abbrev pub Honours : (Text → Option IpAddr) → ResolveOverrides → Text → Type 0
Honours parse_ip o raw =
    ((ip : IpAddr) × (parse_ip (trim raw) ≡ some ip) × (o.global ≡ some ip)) ⊎ Pins parse_ip o raw

pub read_override-Honours :
    (parse_ip : Text → Option IpAddr) (o : ResolveOverrides) (raw : Text) (asked : Override)
    → read_override parse_ip raw ≡ ok asked
    → Gives o asked
    → Honours parse_ip o raw
unfolding read_override
read_override-Honours parse_ip o raw asked h gives =
    filled (is_empty (trim raw)) (parse_ip (trim raw)) refl h
  where
    filled :
        (b : Bool) (global : Option IpAddr)
        → parse_ip (trim raw) ≡ global
        → (if b
            then err empty_resolve
            else elim global [ some ip ↦ ok (everywhere ip) | none ↦ read_pinned parse_ip raw ])
          ≡ ok asked
        → Honours parse_ip o raw
    filled true global e h = absurd (let k = h in cc)
    filled false (some ip) e h =
        let same : everywhere ip ≡ asked = cc in inl (ip, e, subst (Gives o) (sym same) gives)
    filled false none e h = inr (read_pinned-Pins parse_ip o raw asked h gives)
