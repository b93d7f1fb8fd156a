-- ===== src/Types.antt =====
-- src/types.rs: what a probe returns, and what is read off it. A text is a list of code points. The
-- time stamps and the fields of a certificate that no modelled function reads are left out.
pub mod Number
pub mod Examples
use httprove.Base.{
  ℕ, ◌/◌, List, [], ◌∷◌, Option, none, some, Bool, true, false, ◌==◌, if◌then◌else◌, ◌&&◌, ◌++◌,
  ◌≡◌, refl,
}
use httprove.Base.Int.{ℤ}
use httprove.Types.Number.{Float}
use httprove.Dns.Answers.{IpAddr}

abbrev pub Text : Type 0
Text = List ℕ

pub data StatusExpect : Type 0 where
  exact class : ℕ → StatusExpect

unfoldable pub matches : StatusExpect → ℕ → Bool
matches (exact code) status = status == code
matches (class hundreds) status = status / 100 == hundreds

pub data WarnLevel : Type 0 where
  ok warn crit : WarnLevel

pub record PhaseTimings (W : Type 0) : Type 0 where
  pub dns_ms : Option W
  pub tcp_ms : W
  pub tls_ms : Option W
  pub ttfb_ms : W
  pub download_ms : W
  pub total_ms : W

pub record TlsInfo : Type 0 where
  pub version : Text
  pub cipher : Text
  pub alpn : Option Text
  pub kx_group : Option Text

pub record CertInfo : Type 0 where
  pub subject : Text
  pub issuer : Text
  pub not_after : ℤ  -- in seconds
  pub days_remaining : ℤ  -- i64
  pub serial : Text
  pub is_ca : Bool
  pub spki_sha256 : Text

pub record HopResult (W : Type 0) : Type 0 where
  pub url : Text
  pub ip : IpAddr
  pub reused_conn : Bool
  pub resolved_ips : List IpAddr
  pub http_version : Text
  pub status : ℕ  -- u16
  pub timings : PhaseTimings W
  pub tls : Option TlsInfo
  pub cert_chain : List CertInfo
  pub response_headers : List (Text × Text)
  pub body_bytes : ℕ  -- u64
  pub redirect_to : Option Text

pub data ErrorPhase : Type 0 where
  setup dns tcp tls request download redirect : ErrorPhase

pub record ProbeError : Type 0 where
  pub phase : ErrorPhase
  pub message : Text
  pub timed_out : Bool
  pub hint : Option Text

pub record ProbeResult (W : Type 0) : Type 0 where
  pub target : Text
  pub seq : ℕ  -- u64
  pub hops : List (HopResult W)
  pub error : Option ProbeError
  pub expect_failures : List Text
  pub total_ms : W

abbrev pub last {ℓ} : {A : Type ℓ} → List A → Option A
last [] = none
last (x ∷ []) = some x
last (x ∷ y ∷ ys) = last (y ∷ ys)

pub last-append {ℓ} : {A : Type ℓ} (xs : List A) (x : A) → last (xs ++ (x ∷ [])) ≡ some x
last-append [] x = refl
last-append (y ∷ []) x = refl
last-append (y ∷ z ∷ xs) x = last-append (z ∷ xs) x

abbrev pub first {ℓ} : {A : Type ℓ} → List A → Option A
first [] = none
first (x ∷ xs) = some x

abbrev pub or_else {ℓ} : {A : Type ℓ} → Option A → Option A → Option A
or_else none b = b
or_else (some a) b = some a

-- `hops.iter().rev().find_map(|h| h.cert_chain.first())`
unfoldable pub find_leaf : {W : Type 0} → List (HopResult W) → Option CertInfo
find_leaf [] = none
find_leaf (h ∷ hs) = or_else (find_leaf hs) (first h.cert_chain)

module _ {W : Type 0} where
  abbrev pub is_success : ProbeResult W → Bool
  is_success r = elim r.error [ none ↦ true | some e ↦ false ]

  abbrev pub final_hop : ProbeResult W → Option (HopResult W)
  final_hop r = last r.hops

  abbrev pub status : ProbeResult W → Option ℕ
  status r = elim (final_hop r) [ none ↦ none | some h ↦ some h.status ]

  unfoldable pub leaf_cert : ProbeResult W → Option CertInfo
  unfolding find_leaf
  leaf_cert r = find_leaf r.hops

module _ {W : Type 0} ⦃f : Float W⦄ where
  -- `WarnLevel::of`
  unfoldable pub warn_level : W → Option W → WarnLevel
  warn_level value none = ok
  warn_level value (some t) =
      if f.ge value (f.times t f.two) then crit else if f.ge value t then warn else ok

  -- `*sum.get_or_insert(0.0) += d`, if there is a `d`.
  abbrev pub add_phase : Option W → Option W → Option W
  add_phase sum none = sum
  add_phase none (some d) = some (f.plus f.nought d)
  add_phase (some s) (some d) = some (f.plus s d)

  abbrev pub add_timings : PhaseTimings W → PhaseTimings W → PhaseTimings W
  add_timings sum t = record {
    dns_ms = add_phase sum.dns_ms t.dns_ms;
    tcp_ms = f.plus sum.tcp_ms t.tcp_ms;
    tls_ms = add_phase sum.tls_ms t.tls_ms;
    ttfb_ms = f.plus sum.ttfb_ms t.ttfb_ms;
    download_ms = f.plus sum.download_ms t.download_ms;
    total_ms = f.plus sum.total_ms t.total_ms;
  }

  abbrev pub no_timings : PhaseTimings W
  no_timings = record {
    dns_ms = none;
    tcp_ms = f.nought;
    tls_ms = none;
    ttfb_ms = f.nought;
    download_ms = f.nought;
    total_ms = f.nought;
  }

  unfoldable pub sum_hops : PhaseTimings W → List (HopResult W) → PhaseTimings W
  sum_hops sum [] = sum
  sum_hops sum (h ∷ hs) = sum_hops (add_timings sum h.timings) hs

  unfoldable pub summed_timings : ProbeResult W → PhaseTimings W
  unfolding sum_hops
  summed_timings r = sum_hops no_timings r.hops
