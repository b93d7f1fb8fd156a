-- ===== src/Dns/Members.antt =====
-- The addresses in what `query_server_family` of src/dns.rs retains, sorts and rids of doubles.
use httprove.Base.{
  List, [], ◌∷◌, ◌++◌, Bool, ◌&&◌, ◌||◌, inl, inr, ◌≡◌, refl, ap, ◌∙◌, arith, Bool-cases,
}
use httprove.Dns.Answers.{IpAddr}
use httprove.Dns.Diverge.{same_ip, same_ip-eq}
use httprove.Dns.Family.{retain, insert_ip, sort_ips, keep_ip, dedup, has_ip, tidy}

has_ip-insert_ip :
    (z x : IpAddr) (l : List IpAddr) → has_ip z (insert_ip x l) ≡ (same_ip z x || has_ip z l)
unfolding has_ip insert_ip
has_ip-insert_ip z x [] = refl
has_ip-insert_ip z x (y ∷ l) = ground (arith, has_ip-insert_ip z x l)

has_ip-sort_ips : (z : IpAddr) (l : List IpAddr) → has_ip z (sort_ips l) ≡ has_ip z l
unfolding has_ip sort_ips
has_ip-sort_ips z [] = refl
has_ip-sort_ips z (x ∷ l) =
    has_ip-insert_ip z x (sort_ips l) ∙ ap (λ b. same_ip z x || b) (has_ip-sort_ips z l)

has_ip-keep_ip :
    (z x : IpAddr) (l : List IpAddr) → has_ip z (keep_ip x l) ≡ (same_ip z x || has_ip z l)
unfolding has_ip
has_ip-keep_ip z x [] = refl
has_ip-keep_ip z x (y ∷ l) = elim (Bool-cases (same_ip x y)) [
  | inl e ↦ let x_is_y = (same_ip-eq x y).0 e in rw (e, x_is_y) (ground arith)
  | inr e ↦ rw e refl
]

has_ip-dedup : (z : IpAddr) (l : List IpAddr) → has_ip z (dedup l) ≡ has_ip z l
unfolding has_ip dedup
has_ip-dedup z [] = refl
has_ip-dedup z (x ∷ l) =
    has_ip-keep_ip z x (dedup l) ∙ ap (λ b. same_ip z x || b) (has_ip-dedup z l)

has_ip-retain :
    (p : IpAddr → Bool) (z : IpAddr) (l : List IpAddr) → has_ip z (retain p l) ≡ (p z && has_ip z l)
unfolding has_ip retain
has_ip-retain p z [] = ground arith
has_ip-retain p z (x ∷ l) = elim (Bool-cases (same_ip z x)) [
  | inl e ↦
      let same : p z ≡ p x = ap p ((same_ip-eq z x).0 e) in
      ground (arith, has_ip-retain p z l, same, e)
  | inr e ↦ ground (arith, has_ip-retain p z l, e)
]

pub has_ip-tidy :
    (p : IpAddr → Bool) (z : IpAddr) (l : List IpAddr) → has_ip z (tidy p l) ≡ (p z && has_ip z l)
unfolding tidy
has_ip-tidy p z l =
    has_ip-dedup z (sort_ips (retain p l)) ∙ has_ip-sort_ips z (retain p l) ∙ has_ip-retain p z l

pub has_ip-append :
    (z : IpAddr) (xs ys : List IpAddr) → has_ip z (xs ++ ys) ≡ (has_ip z xs || has_ip z ys)
unfolding has_ip
has_ip-append z [] ys = refl
has_ip-append z (x ∷ xs) ys = ground (arith, has_ip-append z xs ys)
