-- ===== src/Trace/Tests.antt =====
-- The tests of src/trace.rs, and its theorem at one line.
use httprove.Base.{ℕ, ◌-◌, ◌^◌, ◌≡◌, refl, [], ◌∷◌, Option, none, some, false, if◌then◌else◌}
use httprove.Text.{
  codes, same_text, strip_prefix, strip_suffix, drop_char, split_whitespace, push_head,
  parse_unsigned, parse_digits, lines,
}
use httprove.Types.{Text}
use httprove.Dns.Answers.{IpAddr, v4}
use httprove.Dns.Diverge.{same_ip}
use httprove.Trace.{
  parse_hop_line, parse_hops, hops_of, parse_host_ip, parse_first_rtt, endpoint_footer, unseen,
  seen,
}
use httprove.Trace.Reading.{hop_line, parse_hop_line-hop_line}

abbrev router : IpAddr
router = v4 (10 ∷ 0 ∷ 0 ∷ 1 ∷ [])

abbrev parse_ip : Text → Option IpAddr
parse_ip text = if same_text text (codes "10.0.0.1") then some router else none

abbrev parse_f64 : Text → Option ℕ
parse_f64 text = parse_unsigned (2 ^ 32 - 1) text

abbrev printed : Text
printed =
    codes
      "traceroute to a (10.0.0.9), 30 hops max\n 1  gw (10.0.0.1)  12 ms\n    alt (10.0.0.2)  3 ms\n 2  * *\n"

route_read :
    parse_hops parse_ip parse_f64 printed
    ≡ record { ttl = 1; host = some (codes "gw"); ip = some router; rtt_ms = some 12 }
      ∷ record { ttl = 2; host = none; ip = none; rtt_ms = none }
      ∷ []
unfolding parse_hops hops_of lines parse_hop_line parse_host_ip parse_first_rtt split_whitespace
    push_head parse_unsigned parse_digits same_text strip_prefix strip_suffix drop_char
route_read = refl

endpoint_not_on_route :
    endpoint_footer {W = ℕ}
      (some (v4 (10 ∷ 0 ∷ 0 ∷ 9 ∷ [])))
      (parse_hops parse_ip parse_f64 printed)
      none
    ≡ some (unseen (v4 (10 ∷ 0 ∷ 0 ∷ 9 ∷ [])))
unfolding endpoint_footer seen same_ip parse_hops hops_of lines parse_hop_line parse_host_ip
    parse_first_rtt split_whitespace push_head parse_unsigned parse_digits same_text strip_prefix
    strip_suffix drop_char
endpoint_not_on_route = refl

twelve : parse_unsigned (2 ^ 32 - 1) (codes "12") ≡ some 12
unfolding parse_unsigned parse_digits
twelve = refl

three : parse_unsigned (2 ^ 32 - 1) (codes "3") ≡ some 3
unfolding parse_unsigned parse_digits
three = refl

gateway_named : same_text (codes "gw") (codes "*") ≡ false
unfolding same_text
gateway_named = refl

time_is_no_unit : same_text (codes "12") (codes "ms") ≡ false
unfolding same_text
time_is_no_unit = refl

address_read : parse_ip (codes "10.0.0.1") ≡ some router
unfolding same_text
address_read = refl

parse_hop_line-hop_line_example :
    parse_hop_line parse_ip parse_f64
      (hop_line (codes "3") (codes "gw") (codes "10.0.0.1") (codes "12"))
    ≡ some (record { ttl = 3; host = some (codes "gw"); ip = some router; rtt_ms = some 12 })
parse_hop_line-hop_line_example =
    parse_hop_line-hop_line parse_ip parse_f64 (codes "3") (codes "gw") (codes "10.0.0.1")
      (codes "12") 3 router 12 (refl, tt) (refl, (refl, tt))
      (refl, (refl, (refl, (refl, (refl, (refl, (refl, (refl, tt)))))))) (refl, (refl, tt)) three
      gateway_named address_read time_is_no_unit twelve
