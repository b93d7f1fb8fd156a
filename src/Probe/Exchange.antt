-- ===== src/Probe/Exchange.antt =====
-- `run_hop` of src/probe.rs and the reading of a body in `send_and_read`. What a connection and a
-- request give is a parameter.
use httprove.Base.{
  ℕ, ◌+◌, ◌-◌, ◌*◌, List, [], ◌∷◌, ◌++◌, Option, none, some, Bool, false, ltb, if◌then◌else◌,
  Result, ok, err, ◌>>=◌, length, take,
}
use httprove.Types.{Text, TlsInfo, CertInfo, HopResult, ProbeError}
use httprove.Dns.Answers.{IpAddr}

-- The sender is of a type `C`.
pub record ConnectedHop (C W : Type 0) : Type 0 where
  pub sender : C
  pub ip : IpAddr
  pub resolved_ips : List IpAddr
  pub dns_ms : Option W
  pub tcp_ms : W
  pub tls_ms : Option W
  pub tls_info : Option TlsInfo
  pub cert_chain : List CertInfo

pub record RequestOutcome (W : Type 0) : Type 0 where
  pub status : ℕ  -- u16
  pub http_version : Text
  pub response_headers : List (Text × Text)
  pub body_bytes : ℕ  -- u64
  pub body_capture : Option (List ℕ)
  pub ttfb_ms : W
  pub download_ms : W

abbrev pub body_capture_cap : ℕ
body_capture_cap = 1024 * 1024

-- What the stream of a body gives.
pub data Frame : Type 0 where
  chunk : List ℕ → Frame
  trailers : Frame
  broken : ProbeError → Frame

abbrev pub capture_chunk : ℕ → Option (List ℕ) → List ℕ → Option (List ℕ)
capture_chunk cap none bytes = none
capture_chunk cap (some buf) bytes =
    some (if ltb (length buf) cap then buf ++ take (cap - length buf) bytes else buf)

-- All bytes are counted, and the first `cap` are kept, if they are asked for.
unfoldable pub read_frames :
    ℕ → List Frame → ℕ → Option (List ℕ) → Result ProbeError (ℕ × Option (List ℕ))
read_frames cap [] total capture = ok (total, capture)
read_frames cap (chunk bytes ∷ frames) total capture =
    read_frames cap frames (total + length bytes) (capture_chunk cap capture bytes)
read_frames cap (trailers ∷ frames) total capture = read_frames cap frames total capture
read_frames cap (broken e ∷ frames) total capture = err e

-- `capture_body.then(Vec::new)`
unfoldable pub read_body : Bool → List Frame → Result ProbeError (ℕ × Option (List ℕ))
unfolding read_frames
read_body capture frames = read_frames body_capture_cap frames 0 (if capture then some [] else none)

module _ {C W : Type 0} where
  -- The hop of a new connection.
  unfoldable pub fresh_hop : Text → ConnectedHop C W → RequestOutcome W → W → HopResult W
  fresh_hop url conn out total_ms = record {
    url = url;
    ip = conn.ip;
    reused_conn = false;
    resolved_ips = conn.resolved_ips;
    http_version = out.http_version;
    status = out.status;
    timings = record {
      dns_ms = conn.dns_ms;
      tcp_ms = conn.tcp_ms;
      tls_ms = conn.tls_ms;
      ttfb_ms = out.ttfb_ms;
      download_ms = out.download_ms;
      total_ms = total_ms;
    };
    tls = conn.tls_info;
    cert_chain = conn.cert_chain;
    response_headers = out.response_headers;
    body_bytes = out.body_bytes;
    redirect_to = none;
  }

  -- The connection, then the request over it.
  unfoldable pub run_hop :
      Result ProbeError (ConnectedHop C W)
      → (C → Result ProbeError (RequestOutcome W))
      → Text
      → W
      → Result ProbeError (HopResult W × Option (List ℕ))
  unfolding fresh_hop
  run_hop connected send url total_ms = do
    conn ← connected
    out ← send conn.sender
    ok (fresh_hop url conn out total_ms, out.body_capture)
