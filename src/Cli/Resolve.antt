-- ===== src/Cli/Resolve.antt =====
-- `ResolveOverrides` and `parse_resolve_overrides` of src/cli.rs.
use mathlib.Core.Option
use httprove.Base.{
  ℕ, List, [], ◌∷◌, ◌++◌, Option, none, some, Bool, true, ◌&&◌, ◌==◌, if◌then◌else◌, ok, err, ◌>>=◌,
  ok_or,
}
use httprove.Text.{
  split_once, trim, same_text, to_ascii_lowercase, strip_prefix, strip_suffix, is_some, is_empty,
  parse_unsigned,
}
use httprove.Types.{Text}
use httprove.Dns.Answers.{IpAddr}
use httprove.Cli.{
  Parsed, empty_resolve, second_global, invalid_resolve, empty_host, invalid_port, invalid_address,
  duplicate, max_u16,
}

-- A host in small letters, and a port.
abbrev pub Key : Type 0
Key = Text × ℕ

pub record ResolveOverrides : Type 0 where
  pub global : Option IpAddr
  pub per_host : List (Key × IpAddr)

abbrev pub same_key : Key → Key → Bool
same_key (h, p) (k, q) = same_text h k && p == q

unfoldable pub find_key : Key → List (Key × IpAddr) → Option IpAddr
find_key key [] = none
find_key key ((k, ip) ∷ rest) =
    let later = find_key key rest in if same_key k key then some ip else later

unfoldable pub lookup : ResolveOverrides → Option Text → ℕ → Option IpAddr
unfolding find_key
lookup o none port = o.global
lookup o (some host) port = elim (find_key (to_ascii_lowercase host, port) o.per_host) [
  | some ip ↦ some ip
  | none ↦ o.global
]

-- What one argument asks for.
pub data Override : Type 0 where
  everywhere : IpAddr → Override
  pinned : Key → IpAddr → Override

-- `s.strip_prefix('[').and_then(|s| s.strip_suffix(']')).unwrap_or(s)`
unfoldable pub unbracket : Text → Text
unbracket s = elim (Option.bind (strip_prefix (b'[' ∷ []) s) (strip_suffix b']')) [
  | some inner ↦ inner
  | none ↦ s
]

-- `s.splitn(3, ':')`, of which all three parts must be there.
abbrev pub split_three : Text → Option (Text × Text × Text)
split_three s = elim (split_once b':' s) [
  | none ↦ none
  | some (host, rest) ↦ elim (split_once b':' rest) [
    | none ↦ none
    | some (port, addr) ↦ some (host, port, addr)
  ]
]

unfoldable pub read_pinned : (Text → Option IpAddr) → Text → Parsed Override
unfolding unbracket
read_pinned parse_ip raw = do
  (host, port_text, addr) ← ok_or (split_three (trim raw)) (invalid_resolve raw)
  _ ← (if is_empty (trim host) then err (empty_host raw) else ok true)
  port ← ok_or (parse_unsigned max_u16 (trim port_text)) (invalid_port raw)
  ip ← ok_or (parse_ip (unbracket (trim addr))) (invalid_address raw)
  ok (pinned (to_ascii_lowercase (trim host), port) ip)

unfoldable pub read_override : (Text → Option IpAddr) → Text → Parsed Override
unfolding read_pinned
read_override parse_ip raw =
    if is_empty (trim raw) then err empty_resolve else elim (parse_ip (trim raw)) [
      | some ip ↦ ok (everywhere ip)
      | none ↦ read_pinned parse_ip raw
    ]

-- A second global address and a second entry for a key are refused.
unfoldable pub add_override : ResolveOverrides → Override → Parsed ResolveOverrides
unfolding find_key
add_override o (everywhere ip) =
    if is_some o.global then err second_global else ok (record o { global = some ip })
add_override o (pinned key ip) =
    if is_some (find_key key o.per_host)
    then err (duplicate key.0)
    else ok (record o { per_host = o.per_host ++ ((key, ip) ∷ []) })

unfoldable pub add_all :
    (Text → Option IpAddr) → List Text → ResolveOverrides → Parsed ResolveOverrides
unfolding read_override add_override
add_all parse_ip [] o = ok o
add_all parse_ip (raw ∷ raws) o =
    read_override parse_ip raw >>= add_override o >>= add_all parse_ip raws

abbrev pub no_overrides : ResolveOverrides
no_overrides = record { global = none; per_host = [] }

unfoldable pub parse_resolve_overrides :
    (Text → Option IpAddr) → List Text → Parsed ResolveOverrides
unfolding add_all
parse_resolve_overrides parse_ip raws = add_all parse_ip raws no_overrides
