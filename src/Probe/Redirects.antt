-- ===== src/Probe/Redirects.antt =====
-- The loop of `probe` in src/probe.rs ends, and what it leaves of the redirects.
use httprove.Base.{
  ℕ, zero, suc, ◌+◌, ◌≤◌, ◌<◌, List, [], ◌∷◌, ◌++◌, Option, none, some, true, ltb, Result, ok, err,
  length, length-append, All, All-append, arith, ◌≡◌, ◌≢◌, ◌⊎◌, inl, inr, refl, Bool-cases,
}
use httprove.Base.Options.{Has}
use httprove.Text.{codes}
use httprove.Text.Equal.{same_text-eq}
use httprove.Types.{Text, ProbeError, HopResult}
use httprove.Probe.{
  UrlOps, ProbeConfig, Target, Progress, RunHop, Next, ended, onward, Turn, leave, again, location,
  is_redirect_status, Request, on_next, pursue, on_join, on_location, after_hop, settle, request_at,
  follow, follow_all, start, first_target,
}

module _ {W : Type 0} where
  -- A hop that was gone on from: its status is 3xx, and it names the address.
  abbrev pub IsFollowed : HopResult W → Type 0
  IsFollowed h = (is_redirect_status h.status ≡ true) × (h.redirect_to ≢ none)

  is_redirect_status-of-location :
      (h : HopResult W) (loc : Text) → location h ≡ some loc → is_redirect_status h.status ≡ true
  unfolding location
  is_redirect_status-of-location h loc e = ground arith

module _ {U : Type 0} where
  abbrev pub IsWeb : UrlOps U → U → Type 0
  IsWeb ops u = (ops.scheme u ≡ codes "http") ⊎ (ops.scheme u ≡ codes "https")

module _ {U W : Type 0} where
  -- A hop that there is no need to go on from.
  abbrev pub IsFinal : ProbeConfig U W → HopResult W → Type 0
  IsFinal cfg h = (cfg.max_redirects ≡ 0) ⊎ (location h ≡ none)

  -- Behind the hops that were gone on from stands a failed exchange, or one hop more, which is final
  -- or has an error behind it.
  pub record IsTrail (cfg : ProbeConfig U W) (r : Progress U W) : Type 0 where
    pub prior : List (HopResult W)
    pub followed : All IsFollowed prior
    pub bounded : length prior ≤ cfg.max_redirects
    pub end :
        ((r.hops ≡ prior) × (r.error ≢ none))
        ⊎ ((h : HopResult W) × (r.hops ≡ prior ++ (h ∷ [])) × ((r.error ≢ none) ⊎ IsFinal cfg h))

  -- What the tests of a round say of the hop that is kept, and of the address to go on to.
  abbrev pub Judged : UrlOps U → ProbeConfig U W → ℕ → ℕ → HopResult W × Next U → Type 0
  Judged ops cfg i status (h, ended e) = (e ≢ none) ⊎ IsFinal cfg h
  Judged ops cfg i status (h, onward u) =
      (is_redirect_status h.status ≡ true)
      × (h.status ≡ status)
      × (h.redirect_to ≡ some (ops.to_string u))
      × IsWeb ops u
      × (i < cfg.max_redirects)

  pursue-Judged :
      (ops : UrlOps U) (cfg : ProbeConfig U W) (i : ℕ) (h : HopResult W) (next : U)
      → is_redirect_status h.status ≡ true
      → h.redirect_to ≡ some (ops.to_string next)
      → Judged ops cfg i h.status (h, pursue ops cfg i next)
  unfolding pursue
  pursue-Judged ops cfg i h next f e = ground (
    arith,
    f,
    e,
    same_text-eq (ops.scheme next) (codes "http"),
    same_text-eq (ops.scheme next) (codes "https"),
  )

  on_join-Judged :
      (ops : UrlOps U) (cfg : ProbeConfig U W) (i : ℕ) (h : HopResult W) (loc : Text)
      (joined : Result Text U)
      → is_redirect_status h.status ≡ true
      → Judged ops cfg i h.status (on_join ops cfg i h loc joined)
  unfolding on_join
  on_join-Judged ops cfg i h loc (err e) f = elim (Bool-cases (ltb 0 cfg.max_redirects)) [
    | inl b ↦ rw b (inl (λ n. cc))
    | inr b ↦ rw b (inr (inl (ground arith)))
  ]
  on_join-Judged ops cfg i h loc (ok next) f =
      pursue-Judged ops cfg i (record h { redirect_to = some (ops.to_string next) }) next f refl

  on_location-Judged :
      (ops : UrlOps U) (cfg : ProbeConfig U W) (url : U) (i : ℕ) (h : HopResult W)
      (found : Option Text)
      → location h ≡ found
      → Judged ops cfg i h.status (on_location ops cfg url i h found)
  unfolding on_location
  on_location-Judged ops cfg url i h none e = inr (inr e)
  on_location-Judged ops cfg url i h (some loc) e =
      on_join-Judged ops cfg i h loc (ops.join url loc) (is_redirect_status-of-location h loc e)

  pub after_hop-Judged :
      (ops : UrlOps U) (cfg : ProbeConfig U W) (url : U) (i : ℕ) (hop : HopResult W)
      → Judged ops cfg i hop.status (after_hop ops cfg url i hop)
  unfolding after_hop
  after_hop-Judged ops cfg url i hop = on_location-Judged ops cfg url i hop (location hop) refl

  -- All hops so far were gone on from, one in each round.
  abbrev IsUnderway : ProbeConfig U W → ℕ → Progress U W → Type 0
  IsUnderway cfg i s = All IsFollowed s.hops × (length s.hops ≡ i) × (i ≤ cfg.max_redirects)

  abbrev Settled : ProbeConfig U W → ℕ → Turn U W → Type 0
  Settled cfg i (leave r) = IsTrail cfg r
  Settled cfg i (again t s) = IsUnderway cfg (i + 1) s

  on_next-Settled :
      (ops : UrlOps U) (cfg : ProbeConfig U W) (i status : ℕ) (t : Target U) (s : Progress U W)
      (req : Request U) (capture : Option (List ℕ)) (judged : HopResult W × Next U)
      → IsUnderway cfg i s
      → Judged ops cfg i status judged
      → Settled cfg i (on_next status t s req capture judged)
  unfolding on_next
  on_next-Settled ops cfg i status t s req capture (h, ended e) (f, n, b) j = record {
    prior = s.hops;
    followed = f;
    bounded = omega (arith, n);
    end = inr (h, refl, j);
  }
  on_next-Settled ops cfg i status t s req capture (h, onward u) (f, n, b)
        (g, same, to, web, less) =
      (
        All-append IsFollowed s.hops (h ∷ []) f ((g, λ x. cc), tt),
        omega (arith, length-append s.hops (h ∷ []), n),
        omega (arith, less),
      )

  settle-Settled :
      (ops : UrlOps U) (cfg : ProbeConfig U W) (i : ℕ) (t : Target U) (s : Progress U W)
      (outcome : Result ProbeError (HopResult W × Option (List ℕ)))
      → IsUnderway cfg i s
      → Settled cfg i (settle ops cfg i t s outcome)
  unfolding settle
  settle-Settled ops cfg i t s (err e) (f, n, b) = record {
    prior = s.hops;
    followed = f;
    bounded = omega (arith, n);
    end = inl (refl, λ x. cc);
  }
  settle-Settled ops cfg i t s (ok (hop, capture)) u =
      on_next-Settled ops cfg i hop.status t s (request_at cfg i t) capture
        (after_hop ops cfg t.url i hop) u (after_hop-Judged ops cfg t.url i hop)

  turn-Has :
      (cfg : ProbeConfig U W) (i : ℕ) (next : Target U → Progress U W → Option (Progress U W))
      (r : Turn U W)
      → Settled cfg i r
      → ((t : Target U) (s : Progress U W)
          → IsUnderway cfg (i + 1) s
          → Has (IsTrail cfg) (next t s))
      → Has (IsTrail cfg) (elim r [ leave x ↦ some x | again t s ↦ next t s ])
  turn-Has cfg i next (leave x) h rest = h
  turn-Has cfg i next (again t s) h rest = rest t s h

  follow-IsTrail :
      (ops : UrlOps U) (cfg : ProbeConfig U W) (run : RunHop U W) (fuel i : ℕ) (t : Target U)
      (s : Progress U W)
      → IsUnderway cfg i s
      → cfg.max_redirects < i + fuel
      → Has (IsTrail cfg) (follow ops cfg run fuel i t s)
  unfolding follow
  follow-IsTrail ops cfg run zero i t s u enough = omega (arith, u, enough)
  follow-IsTrail ops cfg run (suc fuel) i t s (f, n, b) enough =
      turn-Has cfg i (follow ops cfg run fuel (i + 1))
        (settle ops cfg i t s (run s.sent (request_at cfg i t)))
        (settle-Settled ops cfg i t s (run s.sent (request_at cfg i t)) (f, n, b))
        (λ t' s' u. follow-IsTrail ops cfg run fuel (i + 1) t' s' u (omega (arith, enough)))

  -- Whatever the exchanges give, the loop of `probe` ends, after at most `max_redirects` hops that
  -- were gone on from, each with a status 3xx and an address; behind them stands a failed exchange
  -- with its error, or one hop more, which has an error behind it, or no `Location` to follow, or
  -- redirects are not followed at all.
  pub follow_all-IsTrail :
      (ops : UrlOps U) (cfg : ProbeConfig U W) (run : RunHop U W)
      → Has (IsTrail cfg) (follow_all ops cfg run)
  unfolding follow_all
  follow_all-IsTrail ops cfg run =
      follow-IsTrail ops cfg run (suc cfg.max_redirects) 0 (first_target cfg) start
        (tt, refl, omega arith) (omega arith)
