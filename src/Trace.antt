-- ===== src/Trace.antt =====
-- src/trace.rs: what `traceroute` prints, and how it is shown beside the probe. The parsers of
-- addresses and of `f64`, and the printing of addresses, are parameters.
pub mod Reading
mod Tests
use mathlib.Core.Option
use httprove.Base.{
  ℕ, ◌+◌, ◌-◌, ◌^◌, List, [], ◌∷◌, ◌++◌, Option, none, some, Bool, true, false, ◌||◌, ◌&&◌, not,
  if◌then◌else◌,
}
use httprove.Text.{
  codes, trim, lines, is_empty, same_text, strip_prefix, strip_suffix, trim_end_char, drop_char,
  split_whitespace, parse_unsigned,
}
use httprove.Types.{Text, TlsInfo, or_else}
use httprove.Dns.Answers.{IpAddr}
use httprove.Dns.Diverge.{same_ip}

pub record TraceHop (W : Type 0) : Type 0 where
  pub ttl : ℕ  -- u32
  pub host : Option Text
  pub ip : Option IpAddr
  pub rtt_ms : Option W

abbrev pub all_stars : List Text → Bool
all_stars [] = true
all_stars (t ∷ tokens) = same_text t (codes "*") && all_stars tokens

-- What stands in the parentheses of the second token, the closing one missing or not.
abbrev pub inside : Text → Option Text → Text
inside s (some inner) = inner
inside s none = trim_end_char b')' s

abbrev pub inner_of : Text → Option Text
inner_of paren = Option.map (λ s. inside s (strip_suffix b')' s)) (strip_prefix (codes "(") paren)

module _ (parse_ip : Text → Option IpAddr) where
  abbrev pub parse_inner : Option Text → Option IpAddr
  parse_inner none = none
  parse_inner (some inner) = parse_ip inner

  abbrev pub paren_ip : List Text → Option IpAddr
  paren_ip [] = none
  paren_ip (paren ∷ rest) = parse_inner (inner_of paren)

  -- The host and its address: the one in parentheses, or the first token itself.
  unfoldable pub parse_host_ip : List Text → Option Text × Option IpAddr
  unfolding same_text strip_prefix strip_suffix drop_char
  parse_host_ip [] = (none, none)
  parse_host_ip (first ∷ rest) =
      if same_text first (codes "*")
      then (none, none)
      else (some first, or_else (paren_ip rest) (parse_ip first))

module _ {W : Type 0} (parse_f64 : Text → Option W) where
  -- The first number that stands before `ms`.
  unfoldable pub parse_first_rtt : List Text → Option W
  unfolding same_text
  parse_first_rtt [] = none
  parse_first_rtt (value ∷ []) = none
  parse_first_rtt (value ∷ unit ∷ rest) =
      let later = parse_first_rtt (unit ∷ rest) in
      if same_text unit (codes "ms") then or_else (parse_f64 value) later else later

module _ {W : Type 0} (parse_ip : Text → Option IpAddr) (parse_f64 : Text → Option W) where
  abbrev pub hop_of : ℕ → List Text → TraceHop W
  hop_of ttl tokens =
      if is_empty tokens || all_stars tokens
      then record { ttl = ttl; host = none; ip = none; rtt_ms = none }
      else record {
        ttl = ttl;
        host = (parse_host_ip parse_ip tokens).0;
        ip = (parse_host_ip parse_ip tokens).1;
        rtt_ms = parse_first_rtt parse_f64 tokens;
      }

  abbrev pub parse_tokens : List Text → Option (TraceHop W)
  parse_tokens [] = none
  parse_tokens (t ∷ tokens) = Option.map (λ ttl. hop_of ttl tokens) (parse_unsigned (2 ^ 32 - 1) t)

  unfoldable pub parse_hop_line : Text → Option (TraceHop W)
  unfolding split_whitespace parse_unsigned same_text parse_host_ip parse_first_rtt
  parse_hop_line line = parse_tokens (split_whitespace line)

  -- The lines that begin with a number.
  abbrev pub keep_hop : Option (TraceHop W) → List (TraceHop W) → List (TraceHop W)
  keep_hop none hops = hops
  keep_hop (some hop) hops = hop ∷ hops

  unfoldable pub hops_of : List Text → List (TraceHop W)
  unfolding parse_hop_line
  hops_of [] = []
  hops_of (line ∷ rest) = keep_hop (parse_hop_line line) (hops_of rest)

  unfoldable pub parse_hops : Text → List (TraceHop W)
  unfolding hops_of lines
  parse_hops stdout = hops_of (lines stdout)

-- `first_nonempty_line`
unfoldable pub first_of : List Text → Option Text
unfolding trim
first_of [] = none
first_of (line ∷ rest) =
    let later = first_of rest in if is_empty (trim line) then later else some (trim line)

abbrev pub first_nonempty_line : Text → Option Text
first_nonempty_line s = first_of (lines s)

-- The line under the route, if there is one.
pub data Footer : Type 0 where
  unseen : IpAddr → Footer
  undetermined : Text → Footer

abbrev pub is_at : IpAddr → Option IpAddr → Bool
is_at e none = false
is_at e (some ip) = same_ip e ip

module _ {W : Type 0} where
  unfoldable pub seen : IpAddr → List (TraceHop W) → Bool
  unfolding same_ip
  seen e [] = false
  seen e (hop ∷ hops) = is_at e hop.ip || seen e hops

  unfoldable pub endpoint_footer : Option IpAddr → List (TraceHop W) → Option Text → Option Footer
  unfolding seen
  endpoint_footer endpoint hops (some e) = some (undetermined e)
  endpoint_footer none hops none = none
  endpoint_footer (some ip) hops none = if seen ip hops then none else some (unseen ip)

  abbrev pub display_host : (IpAddr → Text) → TraceHop W → Text
  display_host shown hop = elim hop.host [
    | some host ↦ host
    | none ↦ elim hop.ip [ some ip ↦ shown ip | none ↦ codes "*" ]
  ]

-- The version of TLS, and the protocol that was negotiated.
abbrev pub tls_label : TlsInfo → Text
tls_label t = elim t.alpn [ none ↦ t.version | some alpn ↦ t.version ++ (codes " " ++ alpn) ]
