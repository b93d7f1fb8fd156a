-- ===== src/Dns/Scenarios.antt =====
-- Two servers asked by `resolve_via_servers` (src/dns.rs), of which the first has no address, and the answers of
-- three resolvers; two queries of one server.
use mathlib.Core.Option
use httprove.Base.{
  true, Option, none, some, ℕ, ◌≡◌, refl, List, [], ◌∷◌, Result, ok, err, arith, ◌==◌,
  if◌then◌else◌,
}
use httprove.Dns.Answers.{IpAddr, v4, v6}
use httprove.Text.{codes, same_text}
use httprove.Dns.Diverge.{ip_sets_diverge, diverge_from, same_ips, same_ip}
use httprove.Dns.Wire.{Bytes, compression_loop, skip_name, skip_name_loop, skip_label}
use httprove.Dns.Answers.{answer_section_start, skip_questions, record_head}
use httprove.Dns.Texts.{parse_ptr, read_ptr, parse_name, name_loop}
use httprove.Diff.{text_le}
use httprove.Fanout.{auto}
use httprove.Dns.Family.{
  Race, aaaa_first, query_server_family, tidy, merge_ips, has_ip, dedup, sort_ips, insert_ip, ip_le,
  retain,
}
use httprove.Dns.Merging.{IsMerged, replies, query_server_family-IsMerged}
use httprove.Dns.Subnet.{EcsSubnet, parse_ecs}
use httprove.Dns.Failover.{resolve_via_servers, ask_servers, on_answer}
use httprove.Dns.Promise.{IsResolved, resolve_via_servers-IsResolved}

-- The address of a subnet, which this parser knows.
unfoldable parse_ip : Bytes → Option IpAddr
parse_ip t = if same_text t (codes "192.0.2.0") then some (v4 (192 ∷ 0 ∷ 2 ∷ 0 ∷ [])) else none

abbrev ecs : Option Bytes
ecs = some (codes "192.0.2.0/24")

-- The first server has no address.
abbrev query : Option EcsSubnet → ℕ → ℕ → Result ℕ (List IpAddr)
query subnet server budget = if server == 1 then ok [] else ok (v4 (192 ∷ 0 ∷ 2 ∷ 1 ∷ []) ∷ [])

-- The first query uses up its share, half of the time to the deadline.
abbrev turns : List (ℕ × ℕ)
turns = (1, 0) ∷ (2, 500) ∷ []

second_answers :
    resolve_via_servers parse_ip query none 1000 turns ≡ ok (v4 (192 ∷ 0 ∷ 2 ∷ 1 ∷ []) ∷ [])
unfolding resolve_via_servers ask_servers on_answer
second_answers = refl

resolve_via_servers-IsResolved_example :
    IsResolved query 1000 turns
      (Option.map (parse_ecs parse_ip) ecs)
      (resolve_via_servers parse_ip query ecs 1000 turns)
resolve_via_servers-IsResolved_example =
    resolve_via_servers-IsResolved parse_ip query ecs 1000 1 0 ((2, 500) ∷ []) (omega arith)
      (omega arith, tt)

-- Three resolvers, of which one did not answer and two disagree.
abbrev answers : List (List IpAddr)
answers = (v4 (192 ∷ 0 ∷ 2 ∷ 1 ∷ []) ∷ []) ∷ [] ∷ (v4 (192 ∷ 0 ∷ 2 ∷ 2 ∷ []) ∷ []) ∷ []

they_diverge : ip_sets_diverge answers ≡ true
unfolding ip_sets_diverge diverge_from same_ips same_ip same_text
they_diverge = refl

-- A response with one PTR record whose name is a pointer to itself.
abbrev looping : Bytes
looping =
    0 ∷ 1 ∷ 0x81 ∷ 0x80 ∷ 0 ∷ 0 ∷ 0 ∷ 1 ∷ 0 ∷ 0 ∷ 0 ∷ 0 ∷ 0 ∷ 0 ∷ 12 ∷ 0 ∷ 1 ∷ 0 ∷ 0 ∷ 0 ∷ 60 ∷ 0
    ∷ 2 ∷ 0xC0 ∷ 23 ∷ []

loop_is_refused : parse_ptr (λ bs. bs) looping ≡ err compression_loop
unfolding parse_ptr read_ptr parse_name name_loop answer_section_start skip_questions record_head
    skip_name skip_name_loop skip_label
loop_is_refused = refl

-- The reply for AAAA is there first, out of order and with a double.
abbrev race : Race ℕ
race =
    aaaa_first (ok (v6 (2 ∷ []) ∷ v6 (1 ∷ []) ∷ v6 (2 ∷ []) ∷ []))
      (some (ok (v4 (9 ∷ []) ∷ v6 (3 ∷ []) ∷ [])))

abbrev no_query : ℕ → Result ℕ (List IpAddr)
no_query qtype = err 5

four_first :
    query_server_family no_query race auto ≡ ok (v4 (9 ∷ []) ∷ v6 (1 ∷ []) ∷ v6 (2 ∷ []) ∷ [])
unfolding query_server_family tidy merge_ips has_ip dedup sort_ips insert_ip ip_le text_le retain
    same_ip same_text
four_first = refl

query_server_family-IsMerged_example :
    IsMerged (replies no_query race auto) (query_server_family no_query race auto)
query_server_family-IsMerged_example = query_server_family-IsMerged no_query race auto
