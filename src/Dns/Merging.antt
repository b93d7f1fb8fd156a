-- ===== src/Dns/Merging.antt =====
-- What `query_server_family` of src/dns.rs gives: every address once, in order, and none is lost.
use httprove.Base.{
  ℕ, List, [], ◌∷◌, Option, none, some, Bool, false, ◌&&◌, ◌||◌, ◌≡◌, refl, sym, subst, ap, ◌∙◌,
  arith, Result, ok, err,
}
use httprove.Dns.Answers.{IpAddr, qtype_a, qtype_aaaa}
use httprove.Dns.Family.{
  is_ipv4, is_ipv6, has_ip, merge_ips, tidy, Race, a_first, aaaa_first, collected, or_failure,
  tidied, merged, query_server_family,
}
use httprove.Dns.Ascending.{IsAscending, tidy-All, tidy-IsAscending}
use httprove.Fanout.{IpFamily, auto, only_v4, only_v6}
use httprove.Dns.Members.{has_ip-tidy, has_ip-append}
use httprove.Dns.Joining.{IsAscending-append, merge_ips-append, none_there}

-- An address of version 4 in an A reply, or one of version 6 in an AAAA reply.
abbrev pub is_found : List IpAddr → List IpAddr → IpAddr → Bool
is_found a aaaa z = (is_ipv4 z && has_ip z a) || (is_ipv6 z && has_ip z aaaa)

abbrev pub IsExcused : {E : Type 0} → List IpAddr → Option E → Type 0
IsExcused [] (some e) = ⊥
IsExcused [] none = Unit
IsExcused (ip ∷ ips) error = Unit

no_failure-IsExcused : (E : Type 0) (ips : List IpAddr) → IsExcused {E = E} ips none
no_failure-IsExcused E [] = tt
no_failure-IsExcused E (ip ∷ ips) = tt

module _ {E : Type 0} where
  -- The addresses that the queries for A and for AAAA gave in time, and what went wrong first.
  abbrev pub alone_v4 : Result E (List IpAddr) → List IpAddr × List IpAddr × Option E
  alone_v4 (ok ips) = (ips, [], none)
  alone_v4 (err e) = ([], [], some e)

  abbrev pub alone_v6 : Result E (List IpAddr) → List IpAddr × List IpAddr × Option E
  alone_v6 (ok ips) = ([], ips, none)
  alone_v6 (err e) = ([], [], some e)

  abbrev addresses : Option (Result E (List IpAddr)) → List IpAddr
  addresses none = []
  addresses (some (err e)) = []
  addresses (some (ok ips)) = ips

  -- Of the replies in the order in which they came, the first that is a failure.
  abbrev first_failure : List (Result E (List IpAddr)) → Option E
  first_failure [] = none
  first_failure (err e ∷ rs) = some e
  first_failure (ok ips ∷ rs) = first_failure rs

  abbrev in_time : Option (Result E (List IpAddr)) → List (Result E (List IpAddr))
  in_time none = []
  in_time (some r) = r ∷ []

  abbrev a_reply : Race E → Option (Result E (List IpAddr))
  a_reply (a_first r second) = some r
  a_reply (aaaa_first r second) = second

  abbrev aaaa_reply : Race E → Option (Result E (List IpAddr))
  aaaa_reply (a_first r second) = second
  aaaa_reply (aaaa_first r second) = some r

  abbrev came : Race E → List (Result E (List IpAddr))
  came (a_first r second) = r ∷ in_time second
  came (aaaa_first r second) = r ∷ in_time second

  abbrev pub replies :
      (ℕ → Result E (List IpAddr)) → Race E → IpFamily → List IpAddr × List IpAddr × Option E
  replies query race only_v4 = alone_v4 (query qtype_a)
  replies query race only_v6 = alone_v6 (query qtype_aaaa)
  replies query race auto =
      (addresses (a_reply race), addresses (aaaa_reply race), first_failure (came race))

  collected-replies :
      (query : ℕ → Result E (List IpAddr)) (race : Race E)
      → collected race ≡ replies query race auto
  collected-replies query (a_first (ok ips) none) = refl
  collected-replies query (a_first (err e) none) = refl
  collected-replies query (a_first (ok ips) (some (ok more))) = refl
  collected-replies query (a_first (ok ips) (some (err e))) = refl
  collected-replies query (a_first (err e) (some (ok more))) = refl
  collected-replies query (a_first (err e) (some (err e'))) = refl
  collected-replies query (aaaa_first (ok ips) none) = refl
  collected-replies query (aaaa_first (err e) none) = refl
  collected-replies query (aaaa_first (ok ips) (some (ok more))) = refl
  collected-replies query (aaaa_first (ok ips) (some (err e))) = refl
  collected-replies query (aaaa_first (err e) (some (ok more))) = refl
  collected-replies query (aaaa_first (err e) (some (err e'))) = refl

  abbrev pub IsMerged : List IpAddr × List IpAddr × Option E → Result E (List IpAddr) → Type 0
  IsMerged (a, aaaa, error) (ok ips) =
      IsAscending ips × ((z : IpAddr) → has_ip z ips ≡ is_found a aaaa z) × IsExcused ips error
  IsMerged (a, aaaa, error) (err e) = (error ≡ some e) × ((z : IpAddr) → is_found a aaaa z ≡ false)

  or_failure-IsMerged :
      (a aaaa ips : List IpAddr) (error : Option E)
      → IsAscending ips
      → ((z : IpAddr) → has_ip z ips ≡ is_found a aaaa z)
      → IsMerged (a, aaaa, error) (or_failure ips error)
  unfolding has_ip
  or_failure-IsMerged a aaaa [] none h k = (h, k, tt)
  or_failure-IsMerged a aaaa [] (some e) h k = (refl, λ z. sym (k z))
  or_failure-IsMerged a aaaa (ip ∷ ips) error h k = (h, k, tt)

  merged-IsMerged :
      (a aaaa : List IpAddr) (error : Option E)
      → IsMerged (a, aaaa, error) (merged (a, aaaa, error))
  merged-IsMerged a aaaa error =
      let four = tidy is_ipv4 a in
      let six = tidy is_ipv6 aaaa in
      let joined =
        merge_ips-append four six (tidy-IsAscending is_ipv6 aaaa)
          (none_there four six (tidy-All is_ipv4 a) (tidy-All is_ipv6 aaaa)) in
      or_failure-IsMerged a aaaa (merge_ips four six) error
        (subst IsAscending (sym joined) (
          IsAscending-append four six (tidy-IsAscending is_ipv4 a) (tidy-IsAscending is_ipv6 aaaa)
            (tidy-All is_ipv4 a) (tidy-All is_ipv6 aaaa)))
        (λ z.
          ap (has_ip z) joined
          ∙ has_ip-append z four six
          ∙ rw (has_ip-tidy is_ipv4 z a, has_ip-tidy is_ipv6 z aaaa) refl)

  tidied-IsMerged_v4 : (r : Result E (List IpAddr)) → IsMerged (alone_v4 r) (tidied is_ipv4 r)
  unfolding has_ip
  tidied-IsMerged_v4 (ok ips) = (
    tidy-IsAscending is_ipv4 ips,
    λ z. has_ip-tidy is_ipv4 z ips ∙ ground arith,
    no_failure-IsExcused E (tidy is_ipv4 ips),
  )
  tidied-IsMerged_v4 (err e) = (refl, λ z. ground arith)

  tidied-IsMerged_v6 : (r : Result E (List IpAddr)) → IsMerged (alone_v6 r) (tidied is_ipv6 r)
  unfolding has_ip
  tidied-IsMerged_v6 (ok ips) = (
    tidy-IsAscending is_ipv6 ips,
    λ z. has_ip-tidy is_ipv6 z ips ∙ ground arith,
    no_failure-IsExcused E (tidy is_ipv6 ips),
  )
  tidied-IsMerged_v6 (err e) = (refl, λ z. ground arith)

  -- Whatever the queries of a server give, for one version or for both, and whichever of the two is
  -- over first, with the other in time or not: if `query_server_family` gives addresses, they are
  -- exactly those of version 4 in the A reply and of version 6 in the AAAA reply, as far as these
  -- came in time, each once, those of version 4 first and each version in order, and if there are
  -- none, no query that was over had failed; if it gives an error, that is the failure that came
  -- first, and there was no such address.
  pub query_server_family-IsMerged :
      (query : ℕ → Result E (List IpAddr)) (race : Race E) (family : IpFamily)
      → IsMerged (replies query race family) (query_server_family query race family)
  unfolding query_server_family
  query_server_family-IsMerged query race only_v4 = tidied-IsMerged_v4 (query qtype_a)
  query_server_family-IsMerged query race only_v6 = tidied-IsMerged_v6 (query qtype_aaaa)
  query_server_family-IsMerged query race auto =
      let (a, aaaa, error) = replies query race auto in
      subst (λ c. IsMerged (a, aaaa, error) (merged c)) (sym (collected-replies query race))
        (merged-IsMerged a aaaa error)
