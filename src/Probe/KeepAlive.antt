-- ===== src/Probe/KeepAlive.antt =====
-- `KeepAliveProber` of src/probe.rs: the connection is kept from one probe to the next. What the network
-- does during one call is a value of `Session`.
use mathlib.Core.Option
use httprove.Base.{ℕ, List, [], ◌∷◌, Option, none, some, Bool, true, if◌then◌else◌, Result, ok, err}
use httprove.Types.{Text, TlsInfo, CertInfo, HopResult, ProbeError, ProbeResult}
use httprove.Types.Number.{Float}
use httprove.Dns.Answers.{IpAddr}
use httprove.Probe.{UrlOps, ProbeConfig, location}
use httprove.Probe.Checks.{Surroundings, evaluate_expectations}
use httprove.Probe.Exchange.{ConnectedHop, RequestOutcome, fresh_hop}

pub record Established (C : Type 0) : Type 0 where
  pub sender : C
  pub ip : IpAddr
  pub resolved_ips : List IpAddr
  pub http_version : Text
  pub tls : Option TlsInfo
  pub cert_chain : List CertInfo

pub record Session (C W : Type 0) : Type 0 where
  pub is_closed : C → Bool
  pub ready : C → Option ProbeError
  pub send : C → Result ProbeError (RequestOutcome W)
  pub connect : Result ProbeError (ConnectedHop C W)
  pub hop_ms : W
  pub total_ms : W

-- What one call leaves: the connection that is kept, and a hop with the captured body or a failure.
abbrev pub Outcome : Type 0 → Type 0 → Type 0
Outcome C W = Option (Established C) × Result ProbeError (HopResult W × Option (List ℕ))

-- A connection that the peer has closed is thrown away.
unfoldable pub still_open :
    {C : Type 0} → (C → Bool) → Option (Established C) → Option (Established C)
still_open is_closed none = none
still_open is_closed (some est) = if is_closed est.sender then none else some est

module _ {U : Type 0} where
  -- `base.join(&loc).ok().map(|u| u.to_string())`
  abbrev pub joined : UrlOps U → U → Text → Option Text
  joined ops base loc = elim (ops.join base loc) [ ok u ↦ some (ops.to_string u) | err e ↦ none ]

module _ {U W : Type 0} where
  -- The address that a 3xx hop names; it is not gone to.
  unfoldable pub resolve_redirect_to : UrlOps U → U → HopResult W → Option Text
  unfolding location
  resolve_redirect_to ops base hop = Option.bind (location hop) (joined ops base)

  abbrev pub with_redirect : UrlOps U → U → HopResult W → HopResult W
  with_redirect ops url hop = record hop { redirect_to = resolve_redirect_to ops url hop }

module _ {C W : Type 0} where
  abbrev pub request_over : Session C W → C → Result ProbeError (RequestOutcome W)
  request_over session sender = elim (session.ready sender) [
    | some e ↦ err e
    | none ↦ session.send sender
  ]

  abbrev pub establish : ConnectedHop C W → RequestOutcome W → Established C
  establish conn out = record {
    sender = conn.sender;
    ip = conn.ip;
    resolved_ips = conn.resolved_ips;
    http_version = out.http_version;
    tls = conn.tls_info;
    cert_chain = conn.cert_chain;
  }

module _ {C U W : Type 0} ⦃f : Float W⦄ where
  -- The hop of a connection that is used again: nothing was resolved and nothing connected.
  unfoldable pub reused_hop : UrlOps U → U → Established C → RequestOutcome W → W → HopResult W
  reused_hop ops url est out total_ms = record {
    url = ops.to_string url;
    ip = est.ip;
    reused_conn = true;
    resolved_ips = est.resolved_ips;
    http_version = est.http_version;
    status = out.status;
    timings = record {
      dns_ms = none;
      tcp_ms = f.nought;
      tls_ms = none;
      ttfb_ms = out.ttfb_ms;
      download_ms = out.download_ms;
      total_ms = total_ms;
    };
    tls = est.tls;
    cert_chain = est.cert_chain;
    response_headers = out.response_headers;
    body_bytes = out.body_bytes;
    redirect_to = none;
  }

  unfoldable pub on_reply :
      UrlOps U
      → U
      → Session C W
      → Established C
      → Result ProbeError (RequestOutcome W)
      → Outcome C W
  unfolding resolve_redirect_to reused_hop
  on_reply ops url session est (err e) = (none, err e)
  on_reply ops url session est (ok out) = (
    some est,
    ok (with_redirect ops url (reused_hop ops url est out session.hop_ms), out.body_capture),
  )

  -- Whatever fails, the connection is thrown away.
  unfoldable pub probe_reused : UrlOps U → U → Session C W → Established C → Outcome C W
  unfolding on_reply
  probe_reused ops url session est = on_reply ops url session est (request_over session est.sender)

  unfoldable pub on_first_reply :
      UrlOps U
      → U
      → Session C W
      → ConnectedHop C W
      → Result ProbeError (RequestOutcome W)
      → Outcome C W
  unfolding resolve_redirect_to fresh_hop
  on_first_reply ops url session conn (err e) = (none, err e)
  on_first_reply ops url session conn (ok out) = (
    some (establish conn out),
    ok (
      with_redirect ops url (fresh_hop (ops.to_string url) conn out session.hop_ms),
      out.body_capture,
    ),
  )

  unfoldable pub on_connected :
      UrlOps U → U → Session C W → Result ProbeError (ConnectedHop C W) → Outcome C W
  unfolding on_first_reply
  on_connected ops url session (err e) = (none, err e)
  on_connected ops url session (ok conn) =
      on_first_reply ops url session conn (session.send conn.sender)

  -- The connection is kept only if the first request over it succeeds.
  unfoldable pub probe_connect : UrlOps U → U → Session C W → Outcome C W
  unfolding on_connected
  probe_connect ops url session = on_connected ops url session session.connect

  abbrev pub attempt : UrlOps U → U → Session C W → Option (Established C) → Outcome C W
  attempt ops url session none = probe_connect ops url session
  attempt ops url session (some est) = probe_reused ops url session est

module _ {U W : Type 0} ⦃f : Float W⦄ where
  abbrev pub bare_result :
      UrlOps U → ProbeConfig U W → ℕ → W → List (HopResult W) → Option ProbeError → ProbeResult W
  bare_result ops cfg seq total_ms hops error = record {
    target = ops.to_string cfg.url;
    seq = seq;
    hops = hops;
    error = error;
    expect_failures = [];
    total_ms = total_ms;
  }

  unfoldable pub result_of :
      UrlOps U
      → Surroundings W
      → ProbeConfig U W
      → ℕ
      → W
      → Result ProbeError (HopResult W × Option (List ℕ))
      → ProbeResult W
  unfolding evaluate_expectations
  result_of ops env cfg seq total_ms (ok (hop, capture)) =
      evaluate_expectations env cfg.expect capture
        (bare_result ops cfg seq total_ms (hop ∷ []) none)
  result_of ops env cfg seq total_ms (err e) =
      evaluate_expectations env cfg.expect none (bare_result ops cfg seq total_ms [] (some e))

module _ {C U W : Type 0} ⦃f : Float W⦄ where
  -- One call of `probe`.
  unfoldable pub probe_kept :
      UrlOps U
      → Surroundings W
      → ProbeConfig U W
      → Option (Established C)
      → ℕ
      → Session C W
      → Option (Established C) × ProbeResult W
  unfolding still_open probe_reused probe_connect result_of
  probe_kept ops env cfg kept seq session =
      let (next, outcome) = attempt ops cfg.url session (still_open session.is_closed kept) in
      (next, result_of ops env cfg seq session.total_ms outcome)
