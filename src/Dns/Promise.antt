-- ===== src/Dns/Promise.antt =====
-- What `resolve_via_servers` of src/dns.rs promises, said apart from its loop.
use mathlib.Core.Option
use httprove.Base.{
  ℕ, suc, ◌<◌, List, [], ◌∷◌, Option, none, some, length, ◌≡◌, ◌≢◌, ◌⊎◌, inl, inr, refl, sym, subst,
  Result, ok, err, ◌>>=◌,
}
use httprove.Dns.Wire.{Bytes}
use httprove.Dns.Answers.{IpAddr}
use httprove.Dns.Subnet.{EcsSubnet, EcsError, parse_ecs}
use httprove.Dns.Failover.{
  ResolveError, all_failed, bad_subnet, no_addresses, query_failed, budget, KeepsBudget, on_answer,
  ask_servers, subnet_or_error, resolve_via_servers, first_answer, ask_servers-first_answer,
}

module _ {S E : Type 0} where
  -- The addresses are those of a server that gave some, and every one before it gave none or failed.
  abbrev pub AnswersFirst :
      (S → ℕ → Result E (List IpAddr)) → ℕ → List IpAddr → List (S × ℕ) → Type 0
  AnswersFirst query deadline ips [] = ⊥
  AnswersFirst query deadline ips ((server, now) ∷ rest) =
      let answer = query server (budget deadline now (suc (length rest))) in
      ((answer ≡ ok ips) × (ips ≢ []))
      ⊎ (((answer ≡ ok []) ⊎ ((e : E) × (answer ≡ err e))) × AnswersFirst query deadline ips rest)

  -- Every server gave no address or failed, and the reason is that of the last, or else the given one.
  abbrev pub FailsLast :
      (S → ℕ → Result E (List IpAddr))
      → ℕ
      → ResolveError S E
      → ResolveError S E
      → List (S × ℕ)
      → Type 0
  FailsLast query deadline given reason [] = reason ≡ given
  FailsLast query deadline given reason ((server, now) ∷ rest) =
      let answer = query server (budget deadline now (suc (length rest))) in
      ((answer ≡ ok []) × FailsLast query deadline (no_addresses server) reason rest)
      ⊎ ((e : E) × (answer ≡ err e) × FailsLast query deadline (query_failed e) reason rest)

  abbrev pub IsFirstAnswer :
      (S → ℕ → Result E (List IpAddr))
      → ℕ
      → ResolveError S E
      → List (S × ℕ)
      → Result (ResolveError S E) (List IpAddr)
      → Type 0
  IsFirstAnswer query deadline given turns (ok ips) = AnswersFirst query deadline ips turns
  IsFirstAnswer query deadline given turns (err reason) =
      FailsLast query deadline given reason turns

  -- A server that gave no address or failed, before the others.
  passed_empty :
      (query : S → ℕ → Result E (List IpAddr)) (deadline : ℕ) (given : ResolveError S E)
      (server : S) (now : ℕ) (rest : List (S × ℕ))
      (result : Result (ResolveError S E) (List IpAddr))
      → query server (budget deadline now (suc (length rest))) ≡ ok []
      → IsFirstAnswer query deadline (no_addresses server) rest result
      → IsFirstAnswer query deadline given ((server, now) ∷ rest) result
  passed_empty query deadline given server now rest (ok ips) e h = inr (inl e, h)
  passed_empty query deadline given server now rest (err reason) e h = inl (e, h)

  passed_failed :
      (query : S → ℕ → Result E (List IpAddr)) (deadline : ℕ) (given : ResolveError S E)
      (server : S) (now : ℕ) (rest : List (S × ℕ))
      (result : Result (ResolveError S E) (List IpAddr)) (x : E)
      → query server (budget deadline now (suc (length rest))) ≡ err x
      → IsFirstAnswer query deadline (query_failed x) rest result
      → IsFirstAnswer query deadline given ((server, now) ∷ rest) result
  passed_failed query deadline given server now rest (ok ips) x e h = inr (inr (x, e), h)
  passed_failed query deadline given server now rest (err reason) x e h = inr (x, e, h)

  first_answer-IsFirstAnswer :
      (query : S → ℕ → Result E (List IpAddr)) (deadline : ℕ) (given : ResolveError S E)
      (turns : List (S × ℕ))
      → IsFirstAnswer query deadline given turns (first_answer query deadline given turns)
  unfolding first_answer on_answer
  first_answer-IsFirstAnswer query deadline given [] = refl
  first_answer-IsFirstAnswer query deadline given ((server, now) ∷ rest) =
      by_answer (query server (budget deadline now (suc (length rest)))) refl
        (λ given. first_answer-IsFirstAnswer query deadline given rest)
    where
      by_answer :
          (answer : Result E (List IpAddr))
          → query server (budget deadline now (suc (length rest))) ≡ answer
          → ((next : ResolveError S E)
              → IsFirstAnswer query deadline next rest (first_answer query deadline next rest))
          → IsFirstAnswer query deadline given
              ((server, now) ∷ rest)
              (on_answer server answer (λ e. first_answer query deadline e rest))
      by_answer (ok []) e later =
          passed_empty query deadline given server now rest
            (first_answer query deadline (no_addresses server) rest) e (later (no_addresses server))
      by_answer (ok (ip ∷ ips)) e later = inl (e, λ k. cc)
      by_answer (err x) e later =
          passed_failed query deadline given server now rest
            (first_answer query deadline (query_failed x) rest) x e (later (query_failed x))

  -- What the caller gets, by what the subnet of `--ecs` is read as, if there is one.
  abbrev pub IsResolved :
      (Option EcsSubnet → S → ℕ → Result E (List IpAddr))
      → ℕ
      → List (S × ℕ)
      → Option (Result EcsError EcsSubnet)
      → Result (ResolveError S E) (List IpAddr)
      → Type 0
  IsResolved query deadline turns none result =
      IsFirstAnswer (query none) deadline all_failed turns result
  IsResolved query deadline turns (some (ok subnet)) result =
      IsFirstAnswer (query (some subnet)) deadline all_failed turns result
  IsResolved query deadline turns (some (err e)) result = result ≡ err (bad_subnet e)

  ask_servers-IsFirstAnswer :
      (query : S → ℕ → Result E (List IpAddr)) (deadline : ℕ) (server : S) (now : ℕ)
      (rest : List (S × ℕ))
      → now < deadline
      → KeepsBudget deadline ((server, now) ∷ rest)
      → IsFirstAnswer query deadline all_failed
          ((server, now) ∷ rest)
          (ask_servers query deadline none ((server, now) ∷ rest))
  ask_servers-IsFirstAnswer query deadline server now rest h v =
      subst (IsFirstAnswer query deadline all_failed ((server, now) ∷ rest))
        (sym (ask_servers-first_answer query deadline none all_failed server now rest h v))
        (first_answer-IsFirstAnswer query deadline all_failed ((server, now) ∷ rest))

  -- If the first query starts before the deadline and each is over within its budget, the caller of
  -- `resolve_via_servers` gets the error of the subnet if that cannot be read, and else, no server
  -- being left out for lack of time, the addresses of the first server that gives some, all before
  -- it having given none or failed, or, if none gives any, what went wrong at the last one.
  pub resolve_via_servers-IsResolved :
      (parse_ip : Bytes → Option IpAddr) (query : Option EcsSubnet → S → ℕ → Result E (List IpAddr))
      (ecs : Option Bytes) (deadline : ℕ) (server : S) (now : ℕ) (rest : List (S × ℕ))
      → now < deadline
      → KeepsBudget deadline ((server, now) ∷ rest)
      → IsResolved query deadline
          ((server, now) ∷ rest)
          (Option.map (parse_ecs parse_ip) ecs)
          (resolve_via_servers parse_ip query ecs deadline ((server, now) ∷ rest))
  unfolding resolve_via_servers
  resolve_via_servers-IsResolved parse_ip query none deadline server now rest h v =
      ask_servers-IsFirstAnswer (query none) deadline server now rest h v
  resolve_via_servers-IsResolved parse_ip query (some cidr) deadline server now rest h v =
      by_subnet (parse_ecs parse_ip cidr)
    where
      by_subnet :
          (read : Result EcsError EcsSubnet)
          → IsResolved query deadline ((server, now) ∷ rest) (some read) (
              subnet_or_error read >>= λ s.
              ask_servers (query s) deadline none ((server, now) ∷ rest))
      by_subnet (err e) = refl
      by_subnet (ok s) = ask_servers-IsFirstAnswer (query (some s)) deadline server now rest h v
