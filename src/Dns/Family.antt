-- ===== src/Dns/Family.antt =====
-- `query_server_family` of src/dns.rs: the addresses of one server, those of version 4 first. What a
-- query gives is a parameter, and so is which of two queries is over first.
use httprove.Base.{
  ℕ, List, [], ◌∷◌, ◌++◌, Option, none, some, Bool, true, false, ◌||◌, Result, ok, err,
  if◌then◌else◌,
}
use httprove.Diff.{text_le}
use httprove.Dns.Answers.{IpAddr, v4, v6, qtype_a, qtype_aaaa}
use httprove.Dns.Diverge.{same_ip}
use httprove.Fanout.{IpFamily, auto, only_v4, only_v6}

abbrev pub is_ipv4 : IpAddr → Bool
is_ipv4 (v4 a) = true
is_ipv4 (v6 a) = false

abbrev pub is_ipv6 : IpAddr → Bool
is_ipv6 (v4 a) = false
is_ipv6 (v6 a) = true

unfoldable pub retain : (IpAddr → Bool) → List IpAddr → List IpAddr
retain p [] = []
retain p (ip ∷ ips) = let rest = retain p ips in if p ip then ip ∷ rest else rest

-- The order of `IpAddr`.
unfoldable pub ip_le : IpAddr → IpAddr → Bool
unfolding text_le
ip_le (v4 a) (v4 b) = text_le a b
ip_le (v4 a) (v6 b) = true
ip_le (v6 a) (v4 b) = false
ip_le (v6 a) (v6 b) = text_le a b

unfoldable pub insert_ip : IpAddr → List IpAddr → List IpAddr
unfolding ip_le
insert_ip x [] = x ∷ []
insert_ip x (y ∷ l) = let rest = y ∷ insert_ip x l in if ip_le x y then x ∷ y ∷ l else rest

unfoldable pub sort_ips : List IpAddr → List IpAddr
unfolding insert_ip
sort_ips [] = []
sort_ips (x ∷ l) = insert_ip x (sort_ips l)

-- Of neighbours that are the same, one stays.
abbrev pub keep_ip : IpAddr → List IpAddr → List IpAddr
keep_ip x [] = x ∷ []
keep_ip x (y ∷ l) = if same_ip x y then y ∷ l else x ∷ y ∷ l

unfoldable pub dedup : List IpAddr → List IpAddr
unfolding same_ip
dedup [] = []
dedup (x ∷ l) = keep_ip x (dedup l)

unfoldable pub has_ip : IpAddr → List IpAddr → Bool
unfolding same_ip
has_ip x [] = false
has_ip x (y ∷ l) = same_ip x y || has_ip x l

-- `for ip in v6 { if !ips.contains(&ip) { ips.push(ip) } }`
unfoldable pub merge_ips : List IpAddr → List IpAddr → List IpAddr
unfolding has_ip
merge_ips ips [] = ips
merge_ips ips (x ∷ l) =
    let kept = merge_ips ips l in
    let pushed = merge_ips (ips ++ (x ∷ [])) l in if has_ip x ips then kept else pushed

-- `retain`, `sort` and `dedup`.
unfoldable pub tidy : (IpAddr → Bool) → List IpAddr → List IpAddr
unfolding retain sort_ips dedup
tidy p ips = dedup (sort_ips (retain p ips))

-- Which query is over first, with what, and what the other gives within the time of grace.
pub data Race (E : Type 0) : Type 0 where
  a_first aaaa_first : Result E (List IpAddr) → Option (Result E (List IpAddr)) → Race E

module _ {E : Type 0} where
  abbrev pub collect : Result E (List IpAddr) → List IpAddr → Option E → List IpAddr × Option E
  collect (ok ips) dst error = (dst ++ ips, error)
  collect (err e) dst none = (dst, some e)
  collect (err e) dst (some e0) = (dst, some e0)

  -- The second query, if it is over in time.
  abbrev pub collect_second : Option (Result E (List IpAddr)) → Option E → List IpAddr × Option E
  collect_second none error = ([], error)
  collect_second (some r) error = collect r [] error

  -- The addresses of both queries, and what went wrong first.
  abbrev pub collected : Race E → List IpAddr × List IpAddr × Option E
  collected (a_first r second) =
      let (a, error) = collect r [] none in
      let (aaaa, last) = collect_second second error in (a, aaaa, last)
  collected (aaaa_first r second) =
      let (aaaa, error) = collect r [] none in
      let (a, last) = collect_second second error in (a, aaaa, last)

  abbrev pub or_failure : List IpAddr → Option E → Result E (List IpAddr)
  or_failure [] (some e) = err e
  or_failure [] none = ok []
  or_failure (ip ∷ ips) error = ok (ip ∷ ips)

  abbrev pub tidied : (IpAddr → Bool) → Result E (List IpAddr) → Result E (List IpAddr)
  tidied p (err e) = err e
  tidied p (ok ips) = ok (tidy p ips)

  abbrev pub merged : List IpAddr × List IpAddr × Option E → Result E (List IpAddr)
  merged (a, aaaa, error) = or_failure (merge_ips (tidy is_ipv4 a) (tidy is_ipv6 aaaa)) error

  unfoldable pub query_server_family :
      (ℕ → Result E (List IpAddr)) → Race E → IpFamily → Result E (List IpAddr)
  unfolding tidy merge_ips
  query_server_family query race only_v4 = tidied is_ipv4 (query qtype_a)
  query_server_family query race only_v6 = tidied is_ipv6 (query qtype_aaaa)
  query_server_family query race auto = merged (collected race)
