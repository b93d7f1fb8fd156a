-- ===== src/Dns/Joining.antt =====
-- The addresses of version 6 behind those of version 4, in `query_server_family` of src/dns.rs.
use mathlib.Core.List.{append_assoc, append-nil}
use httprove.Base.{
  List, [], ◌∷◌, ◌++◌, true, false, inl, inr, ◌≡◌, refl, sym, ◌∙◌, All, All-append, Bool-cases,
}
use httprove.Dns.Answers.{IpAddr, v4, v6}
use httprove.Dns.Diverge.{same_ip, same_ip-eq}
use httprove.Dns.Family.{is_ipv4, is_ipv6, ip_le, has_ip, merge_ips}
use httprove.Dns.Ascending.{IsAscending, same_ip_refl}
use httprove.Dns.Members.{has_ip-append}

four_before_six :
    (x y : IpAddr)
    → is_ipv4 x ≡ true
    → is_ipv6 y ≡ true
    → (ip_le x y ≡ true) × (same_ip x y ≡ false)
unfolding ip_le same_ip
four_before_six (v4 c) (v4 d) h k = cc
four_before_six (v4 c) (v6 d) h k = (refl, refl)
four_before_six (v6 c) y h k = cc

before_all :
    (x : IpAddr) (l : List IpAddr)
    → is_ipv4 x ≡ true
    → All (λ ip. is_ipv6 ip ≡ true) l
    → All (λ y. (ip_le x y ≡ true) × (same_ip x y ≡ false)) l
before_all x [] h k = tt
before_all x (y ∷ l) h (k, ks) = (four_before_six x y h k, before_all x l h ks)

pub IsAscending-append :
    (xs ys : List IpAddr)
    → IsAscending xs
    → IsAscending ys
    → All (λ ip. is_ipv4 ip ≡ true) xs
    → All (λ ip. is_ipv6 ip ≡ true) ys
    → IsAscending (xs ++ ys)
IsAscending-append [] ys h k a b = k
IsAscending-append (x ∷ xs) ys (h, hs) k (a, more) b =
    (All-append _ xs ys h (before_all x ys a b), IsAscending-append xs ys hs k more b)

same_ip-sym : (x y : IpAddr) → same_ip x y ≡ false → same_ip y x ≡ false
same_ip-sym x y h = elim (Bool-cases (same_ip y x)) [
  | inl e ↦ absurd (same_ip_refl x y (sym ((same_ip-eq y x).0 e)) h)
  | inr e ↦ e
]

still_missing :
    (ips : List IpAddr) (x : IpAddr) (l : List IpAddr)
    → All (λ y. (ip_le x y ≡ true) × (same_ip x y ≡ false)) l
    → All (λ ip. has_ip ip ips ≡ false) l
    → All (λ ip. has_ip ip (ips ++ (x ∷ [])) ≡ false) l
unfolding has_ip
still_missing ips x [] h k = tt
still_missing ips x (y ∷ l) ((_, d), hs) (k, ks) =
    (has_ip-append y ips (x ∷ []) ∙ rw (k, same_ip-sym x y d) refl, still_missing ips x l hs ks)

-- Nothing is there twice, so that all is pushed.
pub merge_ips-append :
    (ips l : List IpAddr)
    → IsAscending l
    → All (λ ip. has_ip ip ips ≡ false) l
    → merge_ips ips l ≡ ips ++ l
unfolding merge_ips
merge_ips-append ips [] h k = sym (append-nil ips)
merge_ips-append ips (x ∷ l) (h, hs) (k, ks) = rw k (
    merge_ips-append (ips ++ (x ∷ [])) l hs (still_missing ips x l h ks)
    ∙ append_assoc ips (x ∷ []) l)

apart_families :
    (xs : List IpAddr) (y : IpAddr)
    → All (λ ip. is_ipv4 ip ≡ true) xs
    → is_ipv6 y ≡ true
    → has_ip y xs ≡ false
unfolding has_ip
apart_families [] y h k = refl
apart_families (x ∷ xs) y (h, hs) k =
    let differs = same_ip-sym x y (four_before_six x y h k).1 in
    rw (differs, apart_families xs y hs k) refl

pub none_there :
    (xs ys : List IpAddr)
    → All (λ ip. is_ipv4 ip ≡ true) xs
    → All (λ ip. is_ipv6 ip ≡ true) ys
    → All (λ ip. has_ip ip xs ≡ false) ys
none_there xs [] h k = tt
none_there xs (y ∷ ys) h (k, ks) = (apart_families xs y h k, none_there xs ys h ks)
