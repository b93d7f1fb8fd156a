-- ===== src/Cli/Tests.antt =====
-- The tests of src/cli.rs, and its theorems at some arguments.
use mathlib.Core.Option
use httprove.Base.{
  ℕ, ◌≡◌, ◌↔◌, ◌&&◌, ◌==◌, refl, [], ◌∷◌, Option, none, some, ok, err, All, if◌then◌else◌,
}
use httprove.Text.{
  codes, split, split_once, push_head, trim, trim_start, same_text, strip_prefix, strip_suffix,
  parse_unsigned, parse_digits,
}
use httprove.Types.{Text, exact, class}
use httprove.Types.Examples.{hundredths}
use httprove.Dns.Answers.{IpAddr, v4}
use httprove.Dns.Diverge.{same_ip}
use httprove.Cli.{
  AddrOps, read_parts, read_status, parse_status, read_server, parse_dns_servers,
  invalid_status_class, invalid_dns, second_global,
}
use httprove.Cli.Resolve.{
  ResolveOverrides, find_key, read_override, read_pinned, unbracket, add_override, add_all,
  parse_resolve_overrides,
}
use httprove.Cli.Warn.{read_warn, set_slot, parse_warn, no_thresholds}
use httprove.Cli.Pinned.{Honours}
use httprove.Cli.Overrides.{parse_resolve_overrides-Honours}
use httprove.Cli.Lists.{Refused, parse_dns_servers-Refused}

abbrev address : IpAddr
address = v4 (203 ∷ 0 ∷ 113 ∷ 5 ∷ [])

-- One address is all that this parser knows.
unfoldable parse_ip : Text → Option IpAddr
parse_ip t = if same_text t (codes "203.0.113.5") then some address else none

abbrev ops : AddrOps
ops = record {
  parse_socket = λ t. none;
  parse_ip = parse_ip;
  same = λ (a, p) (b, q). same_ip a b && p == q;
}

status_list : parse_status (some (codes "2xx, 404 ,")) ≡ ok (some (class 2 ∷ exact 404 ∷ []))
unfolding parse_status read_parts read_status split push_head trim trim_start strip_suffix
    parse_unsigned parse_digits Option.bind
status_list = refl

status_refused : parse_status (some (codes "9xx")) ≡ err (invalid_status_class (codes "9xx"))
unfolding parse_status read_parts read_status split push_head trim trim_start strip_suffix
    parse_unsigned parse_digits Option.bind
status_refused = refl

servers_once :
    parse_dns_servers ops (some (codes "203.0.113.5, 203.0.113.5 ,")) ≡ ok ((address, 53) ∷ [])
unfolding parse_dns_servers read_parts read_server parse_ip split push_head trim trim_start
    same_text same_ip
servers_once = refl

servers_refused : parse_dns_servers ops (some (codes "x")) ≡ err (invalid_dns (codes "x"))
unfolding parse_dns_servers read_parts read_server parse_ip split push_head trim trim_start
    same_text Option.bind
servers_refused = refl

abbrev overrides : ResolveOverrides
overrides = record { global = none; per_host = ((codes "ex.com", 443), address) ∷ [] }

resolve_pinned :
    parse_resolve_overrides parse_ip (codes "EX.com:443:[203.0.113.5]" ∷ []) ≡ ok overrides
unfolding parse_resolve_overrides add_all read_override read_pinned unbracket add_override find_key
    parse_ip split_once trim trim_start strip_prefix strip_suffix parse_unsigned parse_digits
    same_text Option.bind
resolve_pinned = refl

resolve_twice :
    parse_resolve_overrides parse_ip (codes "203.0.113.5" ∷ codes "203.0.113.5" ∷ [])
    ≡ err second_global
unfolding parse_resolve_overrides add_all read_override add_override parse_ip trim trim_start
    same_text Option.bind
resolve_twice = refl

warn_total :
    parse_warn {W = ℕ} (λ t. some 50000) (codes "total = 500" ∷ []) no_thresholds
    ≡ ok (record no_thresholds { total = some 50000 })
unfolding parse_warn read_warn set_slot split_once trim trim_start same_text
warn_total = refl

parse_resolve_overrides-Honours_example :
    All (Honours parse_ip overrides) (codes "EX.com:443:[203.0.113.5]" ∷ [])
parse_resolve_overrides-Honours_example =
    parse_resolve_overrides-Honours parse_ip (codes "EX.com:443:[203.0.113.5]" ∷ []) overrides
      resolve_pinned

parse_dns_servers-Refused_example :
    (parse_dns_servers ops (some (codes "x")) ≡ err (invalid_dns (codes "x")))
    ↔ Refused ops (codes "x") (invalid_dns (codes "x"))
parse_dns_servers-Refused_example =
    parse_dns_servers-Refused ops (codes "x") (invalid_dns (codes "x"))
