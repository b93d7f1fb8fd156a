-- ===== src/Probe.antt =====
-- src/probe.rs: a probe follows redirects and then checks what was expected of the answer. One
-- exchange (`run_hop`) is a parameter, which may hang on all requests sent before.
pub mod Redirects
pub mod Requests
pub mod Checks
pub mod Whole
pub mod Exchange
pub mod Body
pub mod KeepAlive
pub mod Reuse
mod Sessions
mod Tests
use httprove.Base.{
  ℕ, zero, suc, ◌+◌, List, [], ◌∷◌, ◌++◌, Option, none, some, Bool, true, false, ◌&&◌, ◌||◌, leb,
  ltb, ◌==◌, if◌then◌else◌, map, Result, ok, err, length,
}
use httprove.Base.Int.{ℤ, ltb_ℤ, ◌-ℤ◌}
use httprove.Text.{codes, same_text, contains}
use httprove.Types.{
  Text, StatusExpect, matches, ErrorPhase, redirect, ProbeError, HopResult, ProbeResult, final_hop,
  leaf_cert, summed_timings,
}
use httprove.Types.Number.{Float}
use httprove.Headers.{find_header}
use httprove.Dns.Answers.{IpAddr}

-- What the code uses of the `url` crate and of `{:?}`.
pub record UrlOps (U : Type 0) : Type 0 where
  pub join : U → Text → Result Text U
  pub to_string : U → Text
  pub scheme : U → Text
  pub debug : Text → Text

pub record Expectations (W : Type 0) : Type 0 where
  pub status : Option (List StatusExpect)
  pub body_contains : Option Text
  pub max_ttfb_ms : Option W
  pub max_total_ms : Option W
  pub min_cert_days : Option ℤ  -- i64

-- The fields that only an exchange reads are left out.
pub record ProbeConfig (U W : Type 0) : Type 0 where
  pub url : U
  pub method : Text
  pub body : Option Text
  pub resolve : Option IpAddr
  pub max_redirects : ℕ  -- u32
  pub expect : Expectations W

-- `current_url`, `current_method` and `current_body`.
pub record Target (U : Type 0) : Type 0 where
  pub url : U
  pub method : Text
  pub body : Option Text

-- The arguments of one call of `run_hop`.
pub record Request (U : Type 0) : Type 0 where
  pub target : Target U
  pub resolve : Option IpAddr

-- One exchange, given the requests sent before: a hop with the captured body, or a failure.
abbrev pub RunHop : Type 0 → Type 0 → Type 0
RunHop U W = List (Request U) → Request U → Result ProbeError (HopResult W × Option (List ℕ))

-- What the loop has gathered, with the requests that it has sent.
pub record Progress (U W : Type 0) : Type 0 where
  pub hops : List (HopResult W)
  pub error : Option ProbeError
  pub final_capture : Option (List ℕ)
  pub sent : List (Request U)

-- How an exchange leaves the loop, or the address that it goes on to.
pub data Next (U : Type 0) : Type 0 where
  ended : Option ProbeError → Next U
  onward : U → Next U

-- What a round of the loop ends in.
pub data Turn (U W : Type 0) : Type 0 where
  leave : Progress U W → Turn U W
  again : Target U → Progress U W → Turn U W

abbrev pub redirect_error : Text → ProbeError
redirect_error message = record {
  phase = redirect;
  message = message;
  timed_out = false;
  hint = none;
}

abbrev pub is_redirect_status : ℕ → Bool
is_redirect_status status = leb 300 status && ltb status 400

module _ {W : Type 0} where
  unfoldable pub location : HopResult W → Option Text
  location hop =
      if is_redirect_status hop.status
      then find_header (codes "location") hop.response_headers
      else none

module _ {U : Type 0} where
  abbrev pub invalid_location : UrlOps U → Text → Text → ProbeError
  invalid_location ops loc e =
      redirect_error (codes "invalid redirect location " ++ (ops.debug loc ++ (codes ": " ++ e)))

  -- After 301, 302 and 303 the next request is a GET without a body.
  unfoldable pub redirected : Target U → ℕ → U → Target U
  redirected t status next =
      if leb 301 status && leb status 303
      then record { url = next; method = codes "GET"; body = none }
      else record { url = next; method = t.method; body = t.body }

module _ {U W : Type 0} where
  -- The tests between a resolved `Location` and the next round.
  unfoldable pub pursue : UrlOps U → ProbeConfig U W → ℕ → U → Next U
  pursue ops cfg hop_index next =
      if cfg.max_redirects == 0
      then ended none
      else if leb cfg.max_redirects hop_index
      then ended (some (redirect_error (codes "too many redirects")))
      else if same_text (ops.scheme next) (codes "http")
          || same_text (ops.scheme next) (codes "https")
      then onward next
      else ended (some (redirect_error (codes "unsupported redirect scheme: " ++ ops.scheme next)))

  -- What becomes of the hop and of the loop, by what the `Location` resolves to.
  unfoldable pub on_join :
      UrlOps U → ProbeConfig U W → ℕ → HopResult W → Text → Result Text U → HopResult W × Next U
  unfolding pursue
  on_join ops cfg hop_index hop loc (err e) =
      (hop, ended (if ltb 0 cfg.max_redirects then some (invalid_location ops loc e) else none))
  on_join ops cfg hop_index hop loc (ok next) =
      (record hop { redirect_to = some (ops.to_string next) }, pursue ops cfg hop_index next)

  unfoldable pub on_location :
      UrlOps U → ProbeConfig U W → U → ℕ → HopResult W → Option Text → HopResult W × Next U
  unfolding on_join
  on_location ops cfg url hop_index hop none = (hop, ended none)
  on_location ops cfg url hop_index hop (some loc) =
      on_join ops cfg hop_index hop loc (ops.join url loc)

  -- The hop as it is kept, and what follows it.
  unfoldable pub after_hop : UrlOps U → ProbeConfig U W → U → ℕ → HopResult W → HopResult W × Next U
  unfolding location on_location
  after_hop ops cfg url hop_index hop = on_location ops cfg url hop_index hop (location hop)

  -- The address that `--resolve` gives holds for the first hop only.
  unfoldable pub request_at : ProbeConfig U W → ℕ → Target U → Request U
  request_at cfg hop_index t = record {
    target = t;
    resolve = if hop_index == 0 then cfg.resolve else none;
  }

  abbrev pub failed : Progress U W → Request U → ProbeError → Progress U W
  failed s req e = record s { error = some e; sent = s.sent ++ (req ∷ []) }

  abbrev pub arrived :
      Progress U W → Request U → HopResult W → Option (List ℕ) → Option ProbeError → Progress U W
  arrived s req hop capture e = record {
    hops = s.hops ++ (hop ∷ []);
    error = e;
    final_capture = capture;
    sent = s.sent ++ (req ∷ []);
  }

  unfoldable pub on_next :
      ℕ → Target U → Progress U W → Request U → Option (List ℕ) → HopResult W × Next U → Turn U W
  unfolding redirected
  on_next status t s req capture (kept, ended e) = leave (arrived s req kept capture e)
  on_next status t s req capture (kept, onward u) =
      again (redirected t status u) (arrived s req kept capture none)

  -- One round of the loop, once the exchange is over.
  unfoldable pub settle :
      UrlOps U
      → ProbeConfig U W
      → ℕ
      → Target U
      → Progress U W
      → Result ProbeError (HopResult W × Option (List ℕ))
      → Turn U W
  unfolding request_at after_hop on_next
  settle ops cfg hop_index t s (err e) = leave (failed s (request_at cfg hop_index t) e)
  settle ops cfg hop_index t s (ok (hop, capture)) =
      on_next hop.status t s (request_at cfg hop_index t) capture
        (after_hop ops cfg t.url hop_index hop)

  -- The loop of `probe`, on fuel for its rounds.
  unfoldable pub follow :
      UrlOps U
      → ProbeConfig U W
      → RunHop U W
      → (fuel hop_index : ℕ) → Target U
      → Progress U W
      → Option (Progress U W)
  unfolding request_at settle
  follow ops cfg run zero hop_index t s = none
  follow ops cfg run (suc fuel) hop_index t s =
      elim (settle ops cfg hop_index t s (run s.sent (request_at cfg hop_index t))) [
        | leave r ↦ some r
        | again t' s' ↦ follow ops cfg run fuel (hop_index + 1) t' s'
      ]

  abbrev pub start : Progress U W
  start = record { hops = []; error = none; final_capture = none; sent = [] }

  abbrev pub first_target : ProbeConfig U W → Target U
  first_target cfg = record { url = cfg.url; method = cfg.method; body = cfg.body }

  -- At most `max_redirects` redirects are followed, so that one round more is enough.
  unfoldable pub follow_all : UrlOps U → ProbeConfig U W → RunHop U W → Option (Progress U W)
  unfolding follow
  follow_all ops cfg run = follow ops cfg run (suc cfg.max_redirects) 0 (first_target cfg) start
