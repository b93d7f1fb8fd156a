-- ===== src/Probe/Sessions.antt =====
-- Calls of the keep-alive prober and a body in three frames, and the theorems of src/probe.rs at them.
use httprove.Base.{ℕ, ◌≡◌, refl, List, [], ◌∷◌, none, some, Bool, true, false, ok}
use httprove.Text.{codes}
use httprove.Types.{HopResult}
use httprove.Types.Examples.{hundredths, leaf}
use httprove.Dns.Answers.{v4}
use httprove.Probe.Tests.{ops, env, cfg}
use httprove.Probe.Checks.{evaluate_expectations, evaluate_from}
use httprove.Probe.Exchange.{ConnectedHop, RequestOutcome, Frame, chunk, trailers, fresh_hop}
use httprove.Probe.KeepAlive.{
  Established, Session, probe_kept, probe_reused, probe_connect, on_reply, on_first_reply,
  on_connected, reused_hop, result_of, still_open,
}
use httprove.Probe.Reuse.{IsKeptCall, probe_kept-IsKeptCall}

-- A connection is known by a number.
abbrev connected : ConnectedHop ℕ ℕ
connected = record {
  sender = 7;
  ip = v4 (192 ∷ 0 ∷ 2 ∷ 1 ∷ []);
  resolved_ips = [];
  dns_ms = some 100;
  tcp_ms = 200;
  tls_ms = none;
  tls_info = none;
  cert_chain = leaf ∷ [];
}

abbrev reply : RequestOutcome ℕ
reply = record {
  status = 200;
  http_version = codes "HTTP/1.1";
  response_headers = [];
  body_bytes = 0;
  body_capture = none;
  ttfb_ms = 300;
  download_ms = 0;
}

abbrev quiet : Session ℕ ℕ
quiet = record {
  is_closed = λ c. false;
  ready = λ c. none;
  send = λ c. ok reply;
  connect = ok connected;
  hop_ms = 600;
  total_ms = 600;
}

-- The peer has closed the connection.
abbrev closed : Session ℕ ℕ
closed = record quiet { is_closed = λ c. true }

abbrev kept : Established ℕ
kept = record {
  sender = 7;
  ip = v4 (192 ∷ 0 ∷ 2 ∷ 1 ∷ []);
  resolved_ips = [];
  http_version = codes "HTTP/1.1";
  tls = none;
  cert_chain = leaf ∷ [];
}

abbrev reuses : List (HopResult ℕ) → List Bool
reuses [] = []
reuses (h ∷ hs) = h.reused_conn ∷ reuses hs

reuses_open : reuses (probe_kept ops env cfg (some kept) 1 quiet).1.hops ≡ true ∷ []
unfolding probe_kept probe_reused on_reply reused_hop result_of still_open evaluate_expectations
    evaluate_from
reuses_open = refl

connects_anew : reuses (probe_kept ops env cfg (some kept) 1 closed).1.hops ≡ false ∷ []
unfolding probe_kept probe_connect on_connected on_first_reply fresh_hop result_of still_open
    evaluate_expectations evaluate_from
connects_anew = refl

probe_kept-IsKeptCall_example :
    IsKeptCall closed (some kept) (probe_kept ops env cfg (some kept) 1 closed)
probe_kept-IsKeptCall_example = probe_kept-IsKeptCall ops env cfg (some kept) 1 closed

abbrev frames : List Frame
frames = chunk (codes "ab") ∷ trailers ∷ chunk (codes "c") ∷ []
