-- ===== src/Cli.antt =====
-- src/cli.rs: how the arguments that hold lists are read. The standard library's parsers of addresses
-- and of floating-point numbers are parameters.
pub mod Resolve
pub mod Warn
pub mod Pinned
pub mod Overrides
pub mod Lists
mod Tests
use mathlib.Core.Option
use httprove.Base.{
  ℕ, ◌^◌, ◌-◌, List, [], ◌∷◌, ◌++◌, Option, none, some, Bool, true, false, not, ◌&&◌, ◌||◌, leb,
  ◌==◌, if◌then◌else◌, Result, ok, err, ◌>>=◌, ok_or, map,
}
use httprove.Base.Int.{ℤ}
use httprove.Text.{
  codes, split, split_once, trim, same_text, to_ascii_lowercase, strip_prefix, strip_suffix,
  is_some, is_empty, parse_unsigned,
}
use httprove.Types.{Text, StatusExpect, exact, class}
use httprove.Types.Number.{Float}
use httprove.Dns.Answers.{IpAddr}
use httprove.Verdict.{WarnThresholds}
use httprove.Probe.{Expectations}

-- The message of each `bail!` and `with_context`, with the text that it quotes.
pub data CliError : Type 0 where
  invalid_status_class invalid_status_code no_status_codes not_positive : Text → CliError
  invalid_via no_via invalid_dns no_dns : Text → CliError
  empty_resolve second_global : CliError
  invalid_resolve empty_host invalid_port invalid_address duplicate : Text → CliError
  invalid_warn invalid_threshold unknown_phase : Text → CliError

abbrev pub Parsed : Type 0 → Type 0
Parsed A = Result CliError A

-- `.ok().filter(test)`
abbrev pub filter_some : (ℕ → Bool) → Option ℕ → Option ℕ
filter_some test none = none
filter_some test (some n) = if test n then some n else none

-- The loop over the parts between commas, of which the blank ones are skipped.
unfoldable pub read_parts :
    {A : Type 0} → (Text → Parsed A) → (List A → A → List A) → List Text → List A → Parsed (List A)
read_parts read push [] acc = ok acc
read_parts read push (part ∷ parts) acc =
    if is_empty (trim part)
    then read_parts read push parts acc
    else read (trim part) >>= λ a. read_parts read push parts (push acc a)

abbrev pub push_back : {A : Type 0} → List A → A → List A
push_back acc a = acc ++ (a ∷ [])

-- `if list.is_empty() { bail!(..) }`
abbrev pub refuse_empty : {A : Type 0} → CliError → List A → Parsed (List A)
refuse_empty e [] = err e
refuse_empty e (a ∷ l) = ok (a ∷ l)

abbrev pub max_u16 : ℕ
max_u16 = 2 ^ 16 - 1

unfoldable pub read_status : Text → Parsed StatusExpect
read_status part =
    elim (Option.bind (strip_suffix b'x' (to_ascii_lowercase part)) (strip_suffix b'x')) [
      | some digits ↦
          ok_or (filter_some (λ c. leb 1 c && leb c 5) (parse_unsigned max_u16 digits))
            (invalid_status_class part)
          >>= λ c. ok (class c)
      | none ↦
          ok_or (filter_some (λ c. leb 100 c && leb c 599) (parse_unsigned max_u16 part))
            (invalid_status_code part)
          >>= λ c. ok (exact c)
    ]

unfoldable pub parse_status : Option Text → Parsed (Option (List StatusExpect))
unfolding read_parts read_status
parse_status none = ok none
parse_status (some spec) =
    read_parts read_status push_back (split b',' spec) []
    >>= refuse_empty (no_status_codes spec)
    >>= λ list. ok (some list)

-- The arguments `--expect-*`.
pub record ExpectArgs (W : Type 0) : Type 0 where
  pub expect_status : Option Text
  pub expect_body : Option Text
  pub expect_ttfb : Option W
  pub expect_total : Option W
  pub expect_cert_days : Option ℤ

module _ {W : Type 0} ⦃f : Float W⦄ where
  abbrev pub check_positive : Text → Option W → Parsed (Option W)
  check_positive name none = ok none
  check_positive name (some v) =
      if f.ge f.nought v || not (f.is_finite v) then err (not_positive name) else ok (some v)

  unfoldable pub parse_expectations : ExpectArgs W → Parsed (Expectations W)
  unfolding parse_status
  parse_expectations args = do
    status ← parse_status args.expect_status
    ttfb ← check_positive (codes "--expect-ttfb") args.expect_ttfb
    total ← check_positive (codes "--expect-total") args.expect_total
    ok (record {
      status = status;
      body_contains = args.expect_body;
      max_ttfb_ms = ttfb;
      max_total_ms = total;
      min_cert_days = args.expect_cert_days;
    })

unfoldable pub parse_via_resolvers : (Text → Option IpAddr) → Option Text → Parsed (List IpAddr)
unfolding read_parts
parse_via_resolvers parse_ip none = ok []
parse_via_resolvers parse_ip (some spec) =
    read_parts (λ part. ok_or (parse_ip part) (invalid_via part)) push_back (split b',' spec) []
    >>= refuse_empty (no_via spec)

-- A socket address is an address and a port.
abbrev pub SocketAddr : Type 0
SocketAddr = IpAddr × ℕ

-- The standard library's parsers of addresses, and their equality.
pub record AddrOps : Type 0 where
  pub parse_socket : Text → Option SocketAddr
  pub parse_ip : Text → Option IpAddr
  pub same : SocketAddr → SocketAddr → Bool

unfoldable pub read_server : AddrOps → Text → Parsed SocketAddr
read_server ops part = elim (ops.parse_socket part) [
  | some addr ↦ ok addr
  | none ↦ elim (ops.parse_ip part) [ some ip ↦ ok (ip, 53) | none ↦ err (invalid_dns part) ]
]

abbrev pub any_same : AddrOps → List SocketAddr → SocketAddr → Bool
any_same ops [] a = false
any_same ops (b ∷ l) a = if ops.same b a then true else any_same ops l a

abbrev pub push_new : AddrOps → List SocketAddr → SocketAddr → List SocketAddr
push_new ops servers a = if any_same ops servers a then servers else servers ++ (a ∷ [])

unfoldable pub parse_dns_servers : AddrOps → Option Text → Parsed (List SocketAddr)
unfolding read_parts read_server
parse_dns_servers ops none = ok []
parse_dns_servers ops (some spec) =
    read_parts (read_server ops) (push_new ops) (split b',' spec) [] >>= refuse_empty (no_dns spec)
