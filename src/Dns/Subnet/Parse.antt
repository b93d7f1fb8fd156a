-- ===== src/Dns/Subnet/Parse.antt =====
-- `parse_ecs` of src/dns.rs: what an accepted client subnet has to do with the text.
use httprove.Base.{
  ℕ, ◌*◌, ◌≤◌, ◌≡◌, refl, ap, subst, ◌∙◌, List, Option, none, some, All, length, arith, Result, ok,
  ok_or, >>=-eq-ok,
}
use httprove.Text.{trim, split_once, parse_unsigned}
use httprove.Dns.Wire.{Bytes}
use httprove.Dns.Names.{IsByte}
use httprove.Dns.Answers.{IpAddr, v4, v6}
use httprove.Dns.Subnet.{EcsSubnet, EcsError, checked_octets, cut_octets, parse_ecs}
use httprove.Dns.Subnet.Mask.{masked, cut_octets-masked}
use httprove.Dns.Subnet.{slash, no_slash, invalid_ip, invalid_prefix}

abbrev pub octets : IpAddr → Bytes
octets (v4 bs) = bs
octets (v6 bs) = bs

abbrev pub family_of : IpAddr → ℕ
family_of (v4 bs) = 1
family_of (v6 bs) = 2

-- An address of four octets or of sixteen.
abbrev pub IsAddress : IpAddr → Type 0
IsAddress (v4 bs) = (length bs ≡ 4) × All IsByte bs
IsAddress (v6 bs) = (length bs ≡ 16) × All IsByte bs

-- What a parsed subnet has to do with the text: it is the address before the slash, cut down to the
-- prefix length behind the slash.
pub record Describes (parse_ip : List ℕ → Option IpAddr) (cidr : List ℕ) (s : EcsSubnet)
    : Type 0 where
  pub parts : List ℕ × List ℕ
  pub ip : IpAddr
  pub split_at : split_once slash cidr ≡ some parts
  pub ip_text : parse_ip (trim parts.0) ≡ some ip
  pub prefix_text : parse_unsigned 255 (trim parts.1) ≡ some s.source_prefix
  pub family_eq : s.family ≡ family_of ip
  pub prefix_fits : s.source_prefix ≤ 8 * length (octets ip)
  pub bytes_eq : s.addr_bytes ≡ masked s.source_prefix (octets ip)

ok_or-eq-ok {ℓ} : {E A : Type ℓ} (o : Option A) (e : E) {a : A} → ok_or o e ≡ ok a → o ≡ some a
ok_or-eq-ok none e h = cc
ok_or-eq-ok (some a) e h = cc

checked_octets-ok :
    (ip : IpAddr) (prefix : ℕ) (r : ℕ × Bytes)
    → IsAddress ip
    → checked_octets ip prefix ≡ ok r
    → (r.0 ≡ family_of ip) × (r.1 ≡ octets ip) × (prefix ≤ 8 * length (octets ip))
unfolding checked_octets
checked_octets-ok (v4 bs) prefix r v h = ground arith
checked_octets-ok (v6 bs) prefix r v h = ground arith

bytes_of : (ip : IpAddr) → IsAddress ip → All IsByte (octets ip)
bytes_of (v4 bs) v = v.1
bytes_of (v6 bs) v = v.1

assembled :
    (parse_ip : List ℕ → Option IpAddr) (cidr : List ℕ) (s : EcsSubnet) (parts : List ℕ × List ℕ)
    (ip : IpAddr) (prefix : ℕ) (checked : ℕ × Bytes)
    → split_once slash cidr ≡ some parts
    → parse_ip (trim parts.0) ≡ some ip
    → parse_unsigned 255 (trim parts.1) ≡ some prefix
    → (checked.0 ≡ family_of ip) × (checked.1 ≡ octets ip) × (prefix ≤ 8 * length (octets ip))
    → IsAddress ip
    → record {
      family = checked.0;
      source_prefix = prefix;
      addr_bytes = cut_octets prefix checked.1;
    }
      ≡ s
    → Describes parse_ip cidr s
assembled parse_ip cidr s parts ip prefix checked e₁ e₂ e₃ (f, o, room) address h =
    subst (Describes parse_ip cidr) h (record {
      parts = parts;
      ip = ip;
      split_at = e₁;
      ip_text = e₂;
      prefix_text = e₃;
      family_eq = f;
      prefix_fits = room;
      bytes_eq =
          ap (cut_octets prefix) o
          ∙ cut_octets-masked prefix (octets ip) (bytes_of ip address) room;
    })

ok_unique : (m : Result EcsError EcsSubnet) {a b : EcsSubnet} → m ≡ ok a → m ≡ ok b → a ≡ b
ok_unique m h k = cc

-- If `parse_ip` gives addresses of four octets or of sixteen, a subnet that `parse_ecs` accepts is
-- the address before the slash, cut down to its first bits, as many as the number behind the slash
-- says, and this number is at most the number of bits of the address.
pub parse_ecs-Describes :
    (parse_ip : List ℕ → Option IpAddr) (cidr : List ℕ) (s : EcsSubnet)
    → ((t : List ℕ) (ip : IpAddr) → parse_ip t ≡ some ip → IsAddress ip)
    → parse_ecs parse_ip cidr ≡ ok s
    → Describes parse_ip cidr s
unfolding parse_ecs
parse_ecs-Describes parse_ip cidr s addresses h =
    let (parts, e₁, h₁) = >>=-eq-ok (ok_or (split_once slash cidr) no_slash) _ h in
    let (ip, e₂, h₂) = >>=-eq-ok (ok_or (parse_ip (trim parts.0)) invalid_ip) _ h₁ in
    let (prefix, e₃, h₃) =
      >>=-eq-ok (ok_or (parse_unsigned 255 (trim parts.1)) invalid_prefix) _ h₂ in
    let (checked, e₄, h₄) = >>=-eq-ok (checked_octets ip prefix) _ h₃ in
    let ip_eq = ok_or-eq-ok (parse_ip (trim parts.0)) invalid_ip e₂ in
    let address = addresses (trim parts.0) ip ip_eq in
    assembled parse_ip cidr s parts ip prefix checked (ok_or-eq-ok _ no_slash e₁) ip_eq
      (ok_or-eq-ok _ invalid_prefix e₃) (checked_octets-ok ip prefix checked address e₄) address
      (ok_unique _ refl h₄)
