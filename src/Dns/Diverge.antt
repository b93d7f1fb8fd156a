-- ===== src/Dns/Diverge.antt =====
-- `ip_sets_diverge` of src/dns.rs, on what the rows of `--via` resolved to.
use httprove.Base.{
  List, [], ◌∷◌, Option, none, some, Bool, true, false, inl, inr, ◌⊎◌, ◌≡◌, ◌↔◌, refl, sym, subst,
  All, arith, if◌then◌else◌,
}
use httprove.Text.{same_text}
use httprove.Text.Equal.{same_text-eq}
use httprove.Dns.Answers.{IpAddr, v4, v6}

unfoldable pub same_ip : IpAddr → IpAddr → Bool
unfolding same_text
same_ip (v4 a) (v4 b) = same_text a b
same_ip (v6 a) (v6 b) = same_text a b
same_ip _ _ = false

unfoldable pub same_ips : List IpAddr → List IpAddr → Bool
unfolding same_ip
same_ips [] [] = true
same_ips (a ∷ xs) (b ∷ ys) = let rest = same_ips xs ys in if same_ip a b then rest else false
same_ips _ _ = false

-- The loop, with the first set that is not empty.
unfoldable pub diverge_from : Option (List IpAddr) → List (List IpAddr) → Bool
unfolding same_ips
diverge_from first [] = false
diverge_from first ([] ∷ rows) = diverge_from first rows
diverge_from none ((ip ∷ ips) ∷ rows) = diverge_from (some (ip ∷ ips)) rows
diverge_from (some f) ((ip ∷ ips) ∷ rows) =
    let rest = diverge_from (some f) rows in if same_ips f (ip ∷ ips) then rest else true

unfoldable pub ip_sets_diverge : List (List IpAddr) → Bool
unfolding diverge_from
ip_sets_diverge rows = diverge_from none rows

pub same_ip-eq : (a b : IpAddr) → (same_ip a b ≡ true) ↔ (a ≡ b)
unfolding same_ip
same_ip-eq (v4 a) (v4 b) = ground (arith, same_text-eq a b)
same_ip-eq (v6 a) (v6 b) = ground (arith, same_text-eq a b)
same_ip-eq (v4 a) (v6 b) = (λ h. cc, λ h. cc)
same_ip-eq (v6 a) (v4 b) = (λ h. cc, λ h. cc)

same_ips-eq : (xs ys : List IpAddr) → (same_ips xs ys ≡ true) ↔ (xs ≡ ys)
unfolding same_ips
same_ips-eq [] [] = (λ h. refl, λ h. refl)
same_ips-eq [] (y ∷ ys) = (λ h. cc, λ h. cc)
same_ips-eq (x ∷ xs) [] = (λ h. cc, λ h. cc)
same_ips-eq (x ∷ xs) (y ∷ ys) = ground (arith, same_ips-eq xs ys, same_ip-eq x y)

-- Every set is empty or the given one.
abbrev pub Agree : List IpAddr → List (List IpAddr) → Type 0
Agree ips rows = All (λ r. (r ≡ []) ⊎ (r ≡ ips)) rows

diverge_from-Agree :
    (f : List IpAddr) (rows : List (List IpAddr))
    → (diverge_from (some f) rows ≡ false) ↔ Agree f rows
unfolding diverge_from
diverge_from-Agree f [] = (λ h. tt, λ v. refl)
diverge_from-Agree f ([] ∷ rows) = ground (arith, diverge_from-Agree f rows)
diverge_from-Agree f ((ip ∷ ips) ∷ rows) =
    ground (arith, diverge_from-Agree f rows, same_ips-eq f (ip ∷ ips))

-- The sets do not diverge exactly if there is one such that each of them is empty or that one.
pub ip_sets_diverge-Agree :
    (rows : List (List IpAddr))
    → (ip_sets_diverge rows ≡ false) ↔ ((ips : List IpAddr) × Agree ips rows)
unfolding ip_sets_diverge diverge_from
ip_sets_diverge-Agree [] = (λ h. ([], tt), λ v. refl)
ip_sets_diverge-Agree ([] ∷ rows) =
    let (to, from) = ip_sets_diverge-Agree rows in
    (λ h. let (ips, v) = to h in (ips, (inl refl, v)), λ (ips, (e, v)). from (ips, v))
ip_sets_diverge-Agree ((ip ∷ ips) ∷ rows) =
    let (to, from) = diverge_from-Agree (ip ∷ ips) rows in
    (
      λ h. (ip ∷ ips, (inr refl, to h)),
      λ (f, (e, v)). elim e [
        | inl n ↦ cc
        | inr same ↦ from (subst (λ g. Agree g rows) (sym same) v)
      ],
    )
