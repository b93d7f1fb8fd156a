-- ===== src/Diff/Reorder.antt =====
-- The fingerprint of src/diff.rs does not hang on the order in which the addresses were resolved.
use mathlib.Core.List.{Perm}
use httprove.Base.{List, [], ◌∷◌, ◌++◌, Option, ◌≡◌, refl, sym, ap, ◌∙◌}
use httprove.Types.{
  Text, CertInfo, HopResult, ProbeResult, leaf_cert, find_leaf, last-append, or_else, first,
}
use httprove.Dns.Answers.{IpAddr}
use httprove.Diff.{Display, fingerprint, fingerprint_of, fingerprint_at}
use httprove.Diff.Sorting.{sort-map-perm}

module _ {W : Type 0} where
  abbrev pub with_ips : HopResult W → List IpAddr → HopResult W
  with_ips hop ips = record hop { resolved_ips = ips }

  -- The probe with these hops.
  abbrev pub with_hops : ProbeResult W → List (HopResult W) → ProbeResult W
  with_hops r hops = record r { hops = hops }

  find_leaf-with_ips :
      (prior : List (HopResult W)) (hop : HopResult W) (ips : List IpAddr)
      → find_leaf (prior ++ (hop ∷ [])) ≡ find_leaf (prior ++ (with_ips hop ips ∷ []))
  unfolding find_leaf
  find_leaf-with_ips [] hop ips = refl
  find_leaf-with_ips (h ∷ prior) hop ips =
      ap (λ leaf. or_else leaf (first h.cert_chain)) (find_leaf-with_ips prior hop ips)

  fingerprint_of-with_ips :
      (d : Display) (hop : HopResult W) (ips : List IpAddr) (leaf : Option CertInfo)
      → Perm hop.resolved_ips ips
      → fingerprint_of d hop leaf ≡ fingerprint_of d (with_ips hop ips) leaf
  unfolding fingerprint_of
  fingerprint_of-with_ips d hop ips leaf p =
      ap (λ (t : List Text). record (fingerprint_of d hop leaf) { resolved_ips = t })
        (sort-map-perm d.ip hop.resolved_ips ips p)

  -- The fingerprint of a probe does not change if the addresses of its last hop were resolved in
  -- another order.
  pub fingerprint-perm :
      (d : Display) (r : ProbeResult W) (prior : List (HopResult W)) (hop : HopResult W)
      (ips : List IpAddr)
      → Perm hop.resolved_ips ips
      → fingerprint d (with_hops r (prior ++ (hop ∷ [])))
        ≡ fingerprint d (with_hops r (prior ++ (with_ips hop ips ∷ [])))
  unfolding fingerprint leaf_cert
  fingerprint-perm d r prior hop ips p =
      let leaf = find_leaf (prior ++ (hop ∷ [])) in
      let hop' = with_ips hop ips in
      ap (fingerprint_at d leaf) (last-append prior hop)
      ∙ (fingerprint_of-with_ips d hop ips leaf p
          ∙ (ap (fingerprint_of d hop') (find_leaf-with_ips prior hop ips)
              ∙ ap (fingerprint_at d (find_leaf (prior ++ (hop' ∷ []))))
                  (sym (last-append prior hop'))))
