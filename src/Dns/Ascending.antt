-- ===== src/Dns/Ascending.antt =====
-- `retain`, `sort` and `dedup` in `query_server_family` of src/dns.rs leave every address once, in order.
use httprove.Base.{
  List, [], ◌∷◌, Bool, true, false, inl, inr, ◌≡◌, refl, sym, subst, ap, All, Bool-cases,
}
use httprove.Diff.Sorting.{text_le_total, text_le_antisym, text_le_trans}
use httprove.Dns.Answers.{IpAddr, v4, v6}
use httprove.Dns.Diverge.{same_ip, same_ip-eq}
use httprove.Dns.Family.{retain, ip_le, insert_ip, sort_ips, keep_ip, dedup, tidy}

ip_le_total : (a b : IpAddr) → ip_le a b ≡ false → ip_le b a ≡ true
unfolding ip_le
ip_le_total (v4 a) (v4 b) h = text_le_total a b h
ip_le_total (v4 a) (v6 b) h = cc
ip_le_total (v6 a) (v4 b) h = refl
ip_le_total (v6 a) (v6 b) h = text_le_total a b h

ip_le_antisym : (a b : IpAddr) → ip_le a b ≡ true → ip_le b a ≡ true → a ≡ b
unfolding ip_le
ip_le_antisym (v4 a) (v4 b) h k = ap v4 (text_le_antisym a b h k)
ip_le_antisym (v4 a) (v6 b) h k = cc
ip_le_antisym (v6 a) (v4 b) h k = cc
ip_le_antisym (v6 a) (v6 b) h k = ap v6 (text_le_antisym a b h k)

pub ip_le_trans : (a b c : IpAddr) → ip_le a b ≡ true → ip_le b c ≡ true → ip_le a c ≡ true
unfolding ip_le
ip_le_trans (v4 a) (v4 b) (v4 c) h k = text_le_trans a b c h k
ip_le_trans (v4 a) (v4 b) (v6 c) h k = refl
ip_le_trans (v4 a) (v6 b) (v4 c) h k = cc
ip_le_trans (v4 a) (v6 b) (v6 c) h k = refl
ip_le_trans (v6 a) (v4 b) c h k = cc
ip_le_trans (v6 a) (v6 b) (v4 c) h k = cc
ip_le_trans (v6 a) (v6 b) (v6 c) h k = text_le_trans a b c h k

module _ (P : IpAddr → Type 0) where
  insert_ip-All : (x : IpAddr) (l : List IpAddr) → P x → All P l → All P (insert_ip x l)
  unfolding insert_ip
  insert_ip-All x [] h k = (h, tt)
  insert_ip-All x (y ∷ l) h (k, ks) = elim (Bool-cases (ip_le x y)) [
    | inl e ↦ rw e (h, (k, ks))
    | inr e ↦ rw e (k, insert_ip-All x l h ks)
  ]

  sort_ips-All : (l : List IpAddr) → All P l → All P (sort_ips l)
  unfolding sort_ips
  sort_ips-All [] h = tt
  sort_ips-All (x ∷ l) (h, hs) = insert_ip-All x (sort_ips l) h (sort_ips-All l hs)

  keep_ip-All : (x : IpAddr) (l : List IpAddr) → P x → All P l → All P (keep_ip x l)
  keep_ip-All x [] h k = (h, tt)
  keep_ip-All x (y ∷ l) h k = elim (Bool-cases (same_ip x y)) [
    | inl e ↦ rw e k
    | inr e ↦ rw e (h, k)
  ]

  dedup-All : (l : List IpAddr) → All P l → All P (dedup l)
  unfolding dedup
  dedup-All [] h = tt
  dedup-All (x ∷ l) (h, hs) = keep_ip-All x (dedup l) h (dedup-All l hs)

retain-All : (p : IpAddr → Bool) (l : List IpAddr) → All (λ ip. p ip ≡ true) (retain p l)
unfolding retain
retain-All p [] = tt
retain-All p (x ∷ l) = elim (Bool-cases (p x)) [
  | inl e ↦ rw e (e, retain-All p l)
  | inr e ↦ rw e (retain-All p l)
]

pub tidy-All : (p : IpAddr → Bool) (l : List IpAddr) → All (λ ip. p ip ≡ true) (tidy p l)
unfolding tidy
tidy-All p l = dedup-All _ (sort_ips (retain p l)) (sort_ips-All _ (retain p l) (retain-All p l))

abbrev IsSorted : List IpAddr → Type 0
IsSorted [] = Unit
IsSorted (x ∷ l) = All (λ y. ip_le x y ≡ true) l × IsSorted l

-- In order, and all different.
abbrev pub IsAscending : List IpAddr → Type 0
IsAscending [] = Unit
IsAscending (x ∷ l) = All (λ y. (ip_le x y ≡ true) × (same_ip x y ≡ false)) l × IsAscending l

above :
    (x y : IpAddr) (l : List IpAddr)
    → ip_le x y ≡ true
    → All (λ z. ip_le y z ≡ true) l
    → All (λ z. ip_le x z ≡ true) l
above x y [] h k = tt
above x y (z ∷ l) h (k, ks) = (ip_le_trans x y z h k, above x y l h ks)

insert_ip-IsSorted : (x : IpAddr) (l : List IpAddr) → IsSorted l → IsSorted (insert_ip x l)
unfolding insert_ip
insert_ip-IsSorted x [] h = (tt, tt)
insert_ip-IsSorted x (y ∷ l) (h, hs) = elim (Bool-cases (ip_le x y)) [
  | inl e ↦ rw e ((e, above x y l e h), (h, hs))
  | inr e ↦ rw e (insert_ip-All _ x l (ip_le_total x y e) h, insert_ip-IsSorted x l hs)
]

sort_ips-IsSorted : (l : List IpAddr) → IsSorted (sort_ips l)
unfolding sort_ips
sort_ips-IsSorted [] = tt
sort_ips-IsSorted (x ∷ l) = insert_ip-IsSorted x (sort_ips l) (sort_ips-IsSorted l)

pub same_ip_refl : (x y : IpAddr) → x ≡ y → same_ip x y ≡ false → ⊥
same_ip_refl x y e h = let k = (same_ip-eq x y).1 e in cc

-- What is above an address that differs from `x` and is not below it, differs from `x`.
apart :
    (x y : IpAddr) (l : List IpAddr)
    → ip_le x y ≡ true
    → same_ip x y ≡ false
    → All (λ z. (ip_le y z ≡ true) × (same_ip y z ≡ false)) l
    → All (λ z. (ip_le x z ≡ true) × (same_ip x z ≡ false)) l
apart x y [] h d k = tt
apart x y (z ∷ l) h d ((k, _), ks) = ((ip_le_trans x y z h k, differs), apart x y l h d ks)
  where
    differs : same_ip x z ≡ false
    differs = elim (Bool-cases (same_ip x z)) [
      | inl e ↦
          let x_is_z = (same_ip-eq x z).0 e in
          absurd (
            same_ip_refl x y (ip_le_antisym x y h (subst (λ w. ip_le y w ≡ true) (sym x_is_z) k)) d)
      | inr e ↦ e
    ]

keep_ip-IsAscending :
    (x : IpAddr) (l : List IpAddr)
    → All (λ y. ip_le x y ≡ true) l
    → IsAscending l
    → IsAscending (keep_ip x l)
keep_ip-IsAscending x [] h k = (tt, tt)
keep_ip-IsAscending x (y ∷ l) (h, hs) (k, ks) = elim (Bool-cases (same_ip x y)) [
  | inl e ↦ rw e (k, ks)
  | inr e ↦ rw e (((h, e), apart x y l h e k), (k, ks))
]

dedup-IsAscending : (l : List IpAddr) → IsSorted l → IsAscending (dedup l)
unfolding dedup
dedup-IsAscending [] h = tt
dedup-IsAscending (x ∷ l) (h, hs) =
    keep_ip-IsAscending x (dedup l) (dedup-All _ l h) (dedup-IsAscending l hs)

pub tidy-IsAscending : (p : IpAddr → Bool) (l : List IpAddr) → IsAscending (tidy p l)
unfolding tidy
tidy-IsAscending p l = dedup-IsAscending (sort_ips (retain p l)) (sort_ips-IsSorted (retain p l))
