-- ===== src/Trace/Reading.antt =====
-- `parse_hop_line` of src/trace.rs reads a line as `traceroute` prints it.
use mathlib.Core.Option
use httprove.Base.{
  ℕ, ◌-◌, ◌^◌, List, [], ◌∷◌, ◌++◌, Option, some, true, false, not, All, All-append, ◌≡◌, refl, ap,
  ◌∙◌, arith,
}
use httprove.Text.{
  codes, same_text, strip_prefix, strip_suffix, split_whitespace, starts_word, is_whitespace,
  push_head, parse_unsigned,
}
use httprove.Types.{Text, or_else}
use httprove.Dns.Answers.{IpAddr}
use httprove.Trace.{
  parse_hop_line, parse_host_ip, parse_first_rtt, parse_tokens, hop_of, inside, inner_of,
  parse_inner,
}

-- A text without white space.
abbrev pub IsSolid : Text → Type 0
IsSolid t = All (λ c. is_whitespace c ≡ false) t

split_whitespace-next :
    (c : ℕ) (cs : Text)
    → is_whitespace c ≡ false
    → starts_word cs ≡ true
    → split_whitespace (c ∷ cs) ≡ push_head c (split_whitespace cs)
unfolding split_whitespace
split_whitespace-next c cs h e = rw (h, e) refl

split_whitespace-last :
    (c : ℕ) (cs : Text)
    → is_whitespace c ≡ false
    → starts_word cs ≡ false
    → split_whitespace (c ∷ cs) ≡ (c ∷ []) ∷ split_whitespace cs
unfolding split_whitespace
split_whitespace-last c cs h e = rw (h, e) refl

split_whitespace-solid :
    (c : ℕ) (cs rest : Text)
    → IsSolid (c ∷ cs)
    → starts_word rest ≡ false
    → split_whitespace ((c ∷ cs) ++ rest) ≡ (c ∷ cs) ∷ split_whitespace rest
unfolding push_head
split_whitespace-solid c [] rest (h, s) e = split_whitespace-last c rest h e
split_whitespace-solid c (d ∷ ds) rest (h, (k, s)) e =
    split_whitespace-next c ((d ∷ ds) ++ rest) h (ap not k)
    ∙ ap (push_head c) (split_whitespace-solid d ds rest (k, s) e)

strip_suffix-append : (c : ℕ) (s : Text) → strip_suffix c (s ++ (c ∷ [])) ≡ some s
unfolding strip_suffix
strip_suffix-append c [] = ground arith
strip_suffix-append c (x ∷ []) = ground arith
strip_suffix-append c (x ∷ y ∷ ys) = ap (Option.map (λ s. x ∷ s)) (strip_suffix-append c (y ∷ ys))

inner_of-parentheses : (s : Text) → inner_of (b'(' ∷ (s ++ (b')' ∷ []))) ≡ some s
unfolding strip_prefix
inner_of-parentheses s = ap (λ o. some (inside (s ++ (b')' ∷ [])) o)) (strip_suffix-append b')' s)

-- A line: the number, two spaces, the host, its address in parentheses, two spaces, the time and `ms`.
abbrev pub hop_line : Text → Text → Text → Text → Text
hop_line number host address time =
    number
    ++ (codes "  "
        ++ (host
            ++ (codes " "
                ++ ((b'(' ∷ (address ++ (b')' ∷ []))) ++ (codes "  " ++ (time ++ codes " ms"))))))

abbrev tokens : Text → Text → Text → List Text
tokens host address time = host ∷ (b'(' ∷ (address ++ (b')' ∷ []))) ∷ time ∷ codes "ms" ∷ []

abbrev pub IsToken : Text → Type 0
IsToken [] = ⊥
IsToken (c ∷ cs) = IsSolid (c ∷ cs)

split_token :
    (t rest : Text)
    → IsToken t
    → starts_word rest ≡ false
    → split_whitespace (t ++ rest) ≡ t ∷ split_whitespace rest
split_token [] rest h e = absurd h
split_token (c ∷ cs) rest h e = split_whitespace-solid c cs rest h e

split-hop_line :
    (number host address time : Text)
    → IsToken number
    → IsToken host
    → IsSolid address
    → IsToken time
    → split_whitespace (hop_line number host address time) ≡ number ∷ tokens host address time
unfolding split_whitespace push_head
split-hop_line number host address time n h a t =
    let paren : Text = b'(' ∷ (address ++ (b')' ∷ [])) in
    let solid : IsToken paren =
      (refl, All-append (λ c. is_whitespace c ≡ false) address (b')' ∷ []) a (refl, tt)) in
    let last = codes "  " ++ (time ++ codes " ms") in
    let after = codes " " ++ (paren ++ last) in
    split_token number (codes "  " ++ (host ++ after)) n refl
    ∙ ap (◌∷◌ number) (
        split_token host after h refl
        ∙ ap (◌∷◌ host) (
            split_token paren last solid refl
            ∙ ap (◌∷◌ paren) (split_token time (codes " ms") t refl)))

module _ {W : Type 0} (parse_ip : Text → Option IpAddr) (parse_f64 : Text → Option W) where
  tokens-host_ip :
      (host address time : Text) (ip : IpAddr)
      → same_text host (codes "*") ≡ false
      → parse_ip address ≡ some ip
      → parse_host_ip parse_ip (tokens host address time) ≡ (some host, some ip)
  unfolding parse_host_ip
  tokens-host_ip host address time ip e1 e2 =
      let found = ap (parse_inner parse_ip) (inner_of-parentheses address) ∙ e2 in
      rw e1 (ap (λ (o : Option IpAddr). (some host, or_else o (parse_ip host))) found)

  tokens-first_rtt :
      (host address time : Text) (rtt : W)
      → same_text time (codes "ms") ≡ false
      → parse_f64 time ≡ some rtt
      → parse_first_rtt parse_f64 (tokens host address time) ≡ some rtt
  unfolding parse_first_rtt same_text
  tokens-first_rtt host address time rtt e1 e2 = rw (e1, e2) refl

  hop_of-tokens :
      (host address time : Text) (ttl : ℕ) (ip : IpAddr) (rtt : W)
      → same_text host (codes "*") ≡ false
      → parse_ip address ≡ some ip
      → same_text time (codes "ms") ≡ false
      → parse_f64 time ≡ some rtt
      → hop_of parse_ip parse_f64 ttl (tokens host address time)
        ≡ record { ttl = ttl; host = some host; ip = some ip; rtt_ms = some rtt }
  hop_of-tokens host address time ttl ip rtt e2 e3 e4 e5 =
      let found = tokens-host_ip host address time ip e2 e3 in
      let first = tokens-first_rtt host address time rtt e4 e5 in
      rw e2 (λ i. record { ttl = ttl; host = (found i).0; ip = (found i).1; rtt_ms = first i })

  -- A line with a number, a host that is not an asterisk, an address in parentheses and a time with
  -- its unit is read as these four, if none of them holds white space, number, address and time are
  -- read as such, and the time is not itself the unit.
  pub parse_hop_line-hop_line :
      (number host address time : Text) (ttl : ℕ) (ip : IpAddr) (rtt : W)
      → IsToken number
      → IsToken host
      → IsSolid address
      → IsToken time
      → parse_unsigned (2 ^ 32 - 1) number ≡ some ttl
      → same_text host (codes "*") ≡ false
      → parse_ip address ≡ some ip
      → same_text time (codes "ms") ≡ false
      → parse_f64 time ≡ some rtt
      → parse_hop_line parse_ip parse_f64 (hop_line number host address time)
        ≡ some (record { ttl = ttl; host = some host; ip = some ip; rtt_ms = some rtt })
  unfolding parse_hop_line
  parse_hop_line-hop_line number host address time ttl ip rtt n h a t e1 e2 e3 e4 e5 =
      ap (parse_tokens parse_ip parse_f64) (split-hop_line number host address time n h a t)
      ∙ (ap (Option.map (λ k. hop_of parse_ip parse_f64 k (tokens host address time))) e1
          ∙ ap some (hop_of-tokens host address time ttl ip rtt e2 e3 e4 e5))
