-- ===== src/Dns/Subnet.antt =====
-- The client subnet of `--ecs` (`EcsSubnet` and `parse_ecs` of src/dns.rs).
pub mod Mask
pub mod Parse
use Prim.Native.Nat.{bit_and}
use httprove.Base.{
  ℕ, ◌+◌, ◌-◌, ◌*◌, ◌/◌, ◌%◌, ◌^◌, List, [], ◌∷◌, Option, none, some, take, ltb, ◌==◌,
  if◌then◌else◌, Result, ok, err, ◌>>=◌, ok_or,
}
use httprove.Text.{trim, split_once, parse_unsigned}
use httprove.Dns.Wire.{Bytes}
use httprove.Dns.Answers.{IpAddr, v4, v6}

pub record EcsSubnet : Type 0 where
  pub family : ℕ  -- u16
  pub source_prefix : ℕ  -- u8
  pub addr_bytes : Bytes

pub data EcsError : Type 0 where
  no_slash invalid_ip invalid_prefix : EcsError
  v4_prefix v6_prefix : ℕ → EcsError

abbrev pub slash : ℕ
slash = 47

-- `*last &= 0xFF << (8 - used_bits)`, in eight bits.
abbrev pub mask_byte : ℕ → ℕ → ℕ
mask_byte used b = bit_and b (255 * 2 ^ (8 - used) % 256)

-- The same on the last byte, if there is one.
unfoldable pub mask_last : ℕ → Bytes → Bytes
mask_last used [] = []
mask_last used (b ∷ []) = mask_byte used b ∷ []
mask_last used (b ∷ c ∷ bs) = b ∷ mask_last used (c ∷ bs)

-- The family and the octets of an address whose prefix length fits.
unfoldable pub checked_octets : IpAddr → ℕ → Result EcsError (ℕ × Bytes)
checked_octets (v4 octets) prefix = if ltb 32 prefix then err (v4_prefix prefix) else ok (1, octets)
checked_octets (v6 octets) prefix =
    if ltb 128 prefix then err (v6_prefix prefix) else ok (2, octets)

-- `prefix.div_ceil(8)`
abbrev pub byte_count : ℕ → ℕ
byte_count prefix = (prefix + 7) / 8

unfoldable pub cut_octets : ℕ → Bytes → Bytes
unfolding mask_last
cut_octets prefix full =
    let kept = take (byte_count prefix) full in
    if prefix % 8 == 0 then kept else mask_last (prefix % 8) kept

-- `parse_ip` is the standard library's parser of addresses.
unfoldable pub parse_ecs : (List ℕ → Option IpAddr) → List ℕ → Result EcsError EcsSubnet
unfolding checked_octets cut_octets
parse_ecs parse_ip cidr = do
  (ip_part, prefix_part) ← ok_or (split_once slash cidr) no_slash
  ip ← ok_or (parse_ip (trim ip_part)) invalid_ip
  prefix ← ok_or (parse_unsigned 255 (trim prefix_part)) invalid_prefix
  (family, full) ← checked_octets ip prefix
  ok (record { family = family; source_prefix = prefix; addr_bytes = cut_octets prefix full })
