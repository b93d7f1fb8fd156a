-- ===== src/Probe/Reuse.antt =====
-- When the keep-alive prober of src/probe.rs uses its connection again.
use httprove.Base.{
  ℕ, [], ◌∷◌, Option, none, some, true, false, Result, ok, err, ◌≡◌, ◌≢◌, ◌⊎◌, inl, inr, refl,
  arith,
}
use httprove.Base.Options.{Has}
use httprove.Types.{HopResult, ProbeError, ProbeResult}
use httprove.Types.Number.{Float}
use httprove.Probe.{UrlOps, ProbeConfig}
use httprove.Probe.Checks.{Surroundings, evaluate_expectations}
use httprove.Probe.Exchange.{ConnectedHop, RequestOutcome, fresh_hop}
use httprove.Probe.KeepAlive.{
  Established, Session, Outcome, still_open, request_over, reused_hop, on_reply, on_first_reply,
  on_connected, probe_reused, probe_connect, bare_result, attempt, result_of, probe_kept,
}
use httprove.Probe.Whole.{evaluate_from-hops}

module _ {C W : Type 0} where
  -- There is a connection, and the peer has not closed it.
  abbrev pub IsUsable : Session C W → Option (Established C) → Type 0
  IsUsable session kept = Has (λ est. session.is_closed est.sender ≡ false) kept

  -- The kept connection was open: it is kept on, and what the hop says of it is from the time when it
  -- was made.
  pub record IsReused (session : Session C W) (kept next : Option (Established C))
      (hop : HopResult W) : Type 0 where
    pub marked : hop.reused_conn ≡ true
    pub usable : IsUsable session kept
    pub kept_on : next ≡ kept
    pub same_peer : Has (λ est. (hop.ip ≡ est.ip) × (hop.cert_chain ≡ est.cert_chain)) kept
    pub not_resolved : hop.timings.dns_ms ≡ none
    pub no_handshake : hop.timings.tls_ms ≡ none

  -- There was none to use: a new one was made, and is kept.
  pub record IsFresh (session : Session C W) (kept next : Option (Established C))
      (hop : HopResult W) : Type 0 where
    pub marked : hop.reused_conn ≡ false
    pub unusable : ¬ IsUsable session kept
    pub kept_now : Has (λ est. (hop.ip ≡ est.ip) × (hop.cert_chain ≡ est.cert_chain)) next

  abbrev Explained : Session C W → Option (Established C) → Outcome C W → Type 0
  Explained session kept (next, ok (hop, capture)) =
      IsReused session kept next hop ⊎ IsFresh session kept next hop
  Explained session kept (next, err e) = next ≡ none

  still_open-IsUsable :
      (session : Session C W) (est : Established C)
      → (IsUsable session (some est) × (still_open session.is_closed (some est) ≡ some est))
        ⊎ ((¬ IsUsable session (some est)) × (still_open session.is_closed (some est) ≡ none))
  unfolding still_open
  still_open-IsUsable session est = ground arith

  -- A call that fails keeps no connection, and one that succeeds has one hop, which is explained.
  abbrev pub IsKeptCall :
      Session C W → Option (Established C) → Option (Established C) × ProbeResult W → Type 0
  IsKeptCall session kept (next, r) =
      ((r.error ≢ none) × (r.hops ≡ []) × (next ≡ none))
      ⊎ ((hop : HopResult W) × (r.error ≡ none)
          × (r.hops ≡ hop ∷ [])
          × (IsReused session kept next hop ⊎ IsFresh session kept next hop))

module _ {C U W : Type 0} ⦃f : Float W⦄ where
  on_first_reply-Explained :
      (ops : UrlOps U) (url : U) (session : Session C W) (kept : Option (Established C))
      (conn : ConnectedHop C W) (r : Result ProbeError (RequestOutcome W))
      → ¬ IsUsable session kept
      → Explained session kept (on_first_reply ops url session conn r)
  unfolding on_first_reply fresh_hop
  on_first_reply-Explained ops url session kept conn (err e) h = refl
  on_first_reply-Explained ops url session kept conn (ok out) h =
      inr (record { marked = refl; unusable = h; kept_now = (refl, refl) })

  on_connected-Explained :
      (ops : UrlOps U) (url : U) (session : Session C W) (kept : Option (Established C))
      (r : Result ProbeError (ConnectedHop C W))
      → ¬ IsUsable session kept
      → Explained session kept (on_connected ops url session r)
  unfolding on_connected
  on_connected-Explained ops url session kept (err e) h = refl
  on_connected-Explained ops url session kept (ok conn) h =
      on_first_reply-Explained ops url session kept conn (session.send conn.sender) h

  on_reply-Explained :
      (ops : UrlOps U) (url : U) (session : Session C W) (est : Established C)
      (r : Result ProbeError (RequestOutcome W))
      → IsUsable session (some est)
      → Explained session (some est) (on_reply ops url session est r)
  unfolding on_reply reused_hop
  on_reply-Explained ops url session est (err e) h = refl
  on_reply-Explained ops url session est (ok out) h = inl (record {
    marked = refl;
    usable = h;
    kept_on = refl;
    same_peer = (refl, refl);
    not_resolved = refl;
    no_handshake = refl;
  })

  attempt-Explained :
      (ops : UrlOps U) (url : U) (session : Session C W) (kept : Option (Established C))
      → Explained session kept (attempt ops url session (still_open session.is_closed kept))
  unfolding probe_connect probe_reused
  attempt-Explained ops url session none =
      unfold still_open in on_connected-Explained ops url session none session.connect (λ h. h)
  attempt-Explained ops url session (some est) = elim (still_open-IsUsable session est) [
    | inl (usable, e) ↦
        rw e (on_reply-Explained ops url session est (request_over session est.sender) usable)
    | inr (unusable, e) ↦
        rw e (on_connected-Explained ops url session (some est) session.connect unusable)
  ]

  result_of-IsKeptCall :
      (ops : UrlOps U) (env : Surroundings W) (cfg : ProbeConfig U W) (seq : ℕ)
      (session : Session C W) (kept : Option (Established C)) (out : Outcome C W)
      → Explained session kept out
      → IsKeptCall session kept (out.0, result_of ops env cfg seq session.total_ms out.1)
  unfolding result_of evaluate_expectations
  result_of-IsKeptCall ops env cfg seq session kept (next, ok (hop, capture)) h =
      let bare = bare_result ops cfg seq session.total_ms (hop ∷ []) none in
      let (hops, error) = evaluate_from-hops env cfg capture bare none in inr (hop, error, hops, h)
  result_of-IsKeptCall ops env cfg seq session kept (next, err e) h =
      let bare = bare_result ops cfg seq session.total_ms [] (some e) in
      let (hops, error) = evaluate_from-hops env cfg none bare (some e) in inl (λ n. cc, hops, h)

  -- A call of the keep-alive prober that fails has no hop and keeps no connection. One that
  -- succeeds has one hop: over the kept connection exactly if there is one that the peer has not
  -- closed, which is kept on, with its address and certificates and neither resolution nor
  -- handshake; otherwise over a new connection, which is kept now.
  pub probe_kept-IsKeptCall :
      (ops : UrlOps U) (env : Surroundings W) (cfg : ProbeConfig U W)
      (kept : Option (Established C)) (seq : ℕ) (session : Session C W)
      → IsKeptCall session kept (probe_kept ops env cfg kept seq session)
  unfolding probe_kept
  probe_kept-IsKeptCall ops env cfg kept seq session =
      result_of-IsKeptCall ops env cfg seq session kept
        (attempt ops cfg.url session (still_open session.is_closed kept))
        (attempt-Explained ops cfg.url session kept)
