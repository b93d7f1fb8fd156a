-- ===== src/Dns/Failover.antt =====
-- `resolve_via_servers` of src/dns.rs: one server after the other, each with its share of the time.
-- Times are numbers of nanoseconds. `query` is the query of one server, from its budget; behind each
-- server stands the time that the clock shows when its turn comes.
use native.Mathlib.Nat.{div-lt_self}
use httprove.Base.{
  ℕ, suc, ◌+◌, ◌-◌, ◌/◌, ◌≤◌, ◌<◌, min, List, [], ◌∷◌, Option, none, some, false, length, leb,
  arith, ◌≡◌, refl, ◌>>=◌, Result, ok, err, if◌then◌else◌,
}
use httprove.Dns.Wire.{Bytes}
use httprove.Dns.Answers.{IpAddr}
use httprove.Dns.Subnet.{EcsSubnet, EcsError, parse_ecs}

abbrev pub dns_query_cap : ℕ
dns_query_cap = 3000000000

pub data ResolveError (S E : Type 0) : Type 0 where
  no_servers all_failed deadline_exceeded : ResolveError S E
  bad_subnet : EcsError → ResolveError S E
  no_addresses : S → ResolveError S E
  query_failed : E → ResolveError S E

abbrev pub budget : ℕ → ℕ → ℕ → ℕ
budget deadline now slots = min ((deadline - now) / slots) dns_query_cap

-- Each query is over within its budget.
abbrev pub KeepsBudget : {S : Type 0} → ℕ → List (S × ℕ) → Type 0
KeepsBudget deadline [] = Unit
KeepsBudget deadline ((server, now) ∷ []) = Unit
KeepsBudget deadline ((server, now) ∷ (next, later) ∷ rest) =
    (later ≤ now + budget deadline now (suc (suc (length rest))))
    × KeepsBudget deadline ((next, later) ∷ rest)

share_lt : (t k : ℕ) → 0 < t → t / suc (suc k) < t
share_lt t k h = div-lt_self h (omega arith)

still_in_time :
    (deadline now later k : ℕ)
    → now < deadline
    → later ≤ now + budget deadline now (suc (suc k))
    → later < deadline
still_in_time deadline now later k h l =
    omega (arith, share_lt (deadline - now) k (omega arith), h, l)

in_time : (deadline now : ℕ) → now < deadline → leb deadline now ≡ false
in_time deadline now h = ground arith

module _ {S E : Type 0} where
  -- `last_err.get_or_insert_with`, and `last_err.unwrap_or_else`.
  abbrev pub or_reason : Option (ResolveError S E) → ResolveError S E → ResolveError S E
  or_reason none e = e
  or_reason (some l) e = l

  -- The `match` on the answer of a server; `again` goes on to the next with the reason.
  unfoldable pub on_answer :
      S
      → Result E (List IpAddr)
      → (ResolveError S E → Result (ResolveError S E) (List IpAddr))
      → Result (ResolveError S E) (List IpAddr)
  on_answer server (ok []) again = again (no_addresses server)
  on_answer server (ok (ip ∷ ips)) again = ok (ip ∷ ips)
  on_answer server (err e) again = again (query_failed e)

  -- The loop over the servers.
  unfoldable pub ask_servers :
      (S → ℕ → Result E (List IpAddr))
      → ℕ
      → Option (ResolveError S E)
      → List (S × ℕ)
      → Result (ResolveError S E) (List IpAddr)
  unfolding on_answer
  ask_servers query deadline last [] = err (or_reason last all_failed)
  ask_servers query deadline last ((server, now) ∷ rest) =
      if leb deadline now
      then err (or_reason last deadline_exceeded)
      else on_answer server (query server (budget deadline now (suc (length rest))))
          (λ e. ask_servers query deadline (some e) rest)

  abbrev pub subnet_or_error :
      Result EcsError EcsSubnet → Result (ResolveError S E) (Option EcsSubnet)
  subnet_or_error (ok subnet) = ok (some subnet)
  subnet_or_error (err e) = err (bad_subnet e)

  -- The subnet of `--ecs`, if there is one.
  abbrev pub read_subnet :
      (Bytes → Option IpAddr) → Option Bytes → Result (ResolveError S E) (Option EcsSubnet)
  read_subnet parse_ip none = ok none
  read_subnet parse_ip (some cidr) = subnet_or_error (parse_ecs parse_ip cidr)

  unfoldable pub resolve_via_servers :
      (Bytes → Option IpAddr)
      → (Option EcsSubnet → S → ℕ → Result E (List IpAddr))
      → Option Bytes
      → ℕ
      → List (S × ℕ)
      → Result (ResolveError S E) (List IpAddr)
  unfolding ask_servers
  resolve_via_servers parse_ip query ecs deadline [] = err no_servers
  resolve_via_servers parse_ip query ecs deadline (s ∷ rest) =
      read_subnet parse_ip ecs >>= λ subnet. ask_servers (query subnet) deadline none (s ∷ rest)

  -- The loop without a look at the deadline.
  unfoldable pub first_answer :
      (S → ℕ → Result E (List IpAddr))
      → ℕ
      → ResolveError S E
      → List (S × ℕ)
      → Result (ResolveError S E) (List IpAddr)
  first_answer query deadline reason [] = err reason
  first_answer query deadline reason ((server, now) ∷ rest) =
      on_answer server (query server (budget deadline now (suc (length rest))))
        (λ e. first_answer query deadline e rest)

  on_answer-same :
      (server : S) (answer : Result E (List IpAddr))
      {f g : ResolveError S E → Result (ResolveError S E) (List IpAddr)}
      → ((e : ResolveError S E) → f e ≡ g e)
      → on_answer server answer f ≡ on_answer server answer g
  unfolding on_answer
  on_answer-same server (ok []) h = h (no_addresses server)
  on_answer-same server (ok (ip ∷ ips)) h = refl
  on_answer-same server (err e) h = h (query_failed e)

  pub ask_servers-first_answer :
      (query : S → ℕ → Result E (List IpAddr)) (deadline : ℕ) (last : Option (ResolveError S E))
      (reason : ResolveError S E) (server : S) (now : ℕ) (rest : List (S × ℕ))
      → now < deadline
      → KeepsBudget deadline ((server, now) ∷ rest)
      → ask_servers query deadline last ((server, now) ∷ rest)
        ≡ first_answer query deadline reason ((server, now) ∷ rest)
  unfolding ask_servers first_answer
  ask_servers-first_answer query deadline last reason server now [] h v =
      rw (in_time deadline now h)
        (on_answer-same server (query server (budget deadline now 1)) λ e. refl)
  ask_servers-first_answer query deadline last reason server now ((next, later) ∷ rest) h (l, v) =
      let inside = still_in_time deadline now later (length rest) h l in
      rw (in_time deadline now h) (
        on_answer-same server (query server (budget deadline now (suc (suc (length rest)))))
          λ e. ask_servers-first_answer query deadline (some e) e next later rest inside v)
