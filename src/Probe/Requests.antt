-- ===== src/Probe/Requests.antt =====
-- The requests that the loop of `probe` in src/probe.rs sends.
use mathlib.Core.List.{append_assoc, append-nil}
use httprove.Base.{
  ℕ, zero, suc, ◌+◌, ◌≤◌, ◌<◌, List, [], ◌∷◌, ◌++◌, Option, none, some, Result, ok, err, arith, ◌≡◌,
  ◌⊎◌, refl, sym, ap, subst, ◌∙◌,
}
use httprove.Base.Options.{Has, Has-map}
use httprove.Text.{codes}
use httprove.Types.{ProbeError, HopResult}
use httprove.Probe.{
  UrlOps, ProbeConfig, Target, Request, Progress, RunHop, Next, ended, onward, Turn, leave, again,
  on_next, after_hop, settle, request_at, redirected, follow, follow_all, start, first_target,
}
use httprove.Probe.Redirects.{IsWeb, Judged, after_hop-Judged}

module _ {U : Type 0} where
  -- After 301, 302 and 303 a GET without a body, after another status what was sent before.
  abbrev pub Repeats : ℕ → Target U → Target U → Type 0
  Repeats status old new =
      ((301 ≤ status) × (status ≤ 303) × (new.method ≡ codes "GET") × (new.body ≡ none))
      ⊎ (((status < 301) ⊎ (303 < status)) × (new.method ≡ old.method) × (new.body ≡ old.body))

  redirected-Repeats :
      (t : Target U) (status : ℕ) (u : U) → Repeats status t (redirected t status u)
  unfolding redirected
  redirected-Repeats t status u = ground arith

  redirected-url : (t : Target U) (status : ℕ) (u : U) → (redirected t status u).url ≡ u
  unfolding redirected
  redirected-url t status u = ground arith

module _ {U W : Type 0} where
  -- Each request follows the redirect of the hop before it, to a web address and with no address of
  -- `--resolve`.
  abbrev pub IsLinked : UrlOps U → Request U → List (Request U) → List (HopResult W) → Type 0
  IsLinked ops req [] hops = Unit
  IsLinked ops req (q ∷ qs) [] = ⊥
  IsLinked ops req (q ∷ qs) (h ∷ hops) =
      (h.redirect_to ≡ some (ops.to_string q.target.url))
      × IsWeb ops q.target.url
      × (q.resolve ≡ none)
      × Repeats h.status req.target q.target
      × IsLinked ops q qs hops

  -- What the loop adds to its progress, from a request on.
  pub record Extends (ops : UrlOps U) (s : Progress U W) (req : Request U) (r : Progress U W)
      : Type 0 where
    pub later : List (Request U)
    pub hops : List (HopResult W)
    pub sent : r.sent ≡ s.sent ++ (req ∷ later)
    pub hops_kept : r.hops ≡ s.hops ++ hops
    pub linked : IsLinked ops req later hops

  -- What a round leaves for the rest of the loop.
  pub record Continues (ops : UrlOps U) (cfg : ProbeConfig U W) (i : ℕ) (s : Progress U W)
      (req : Request U) (t : Target U) (s' : Progress U W) : Type 0 where
    hop : HopResult W
    sent : s'.sent ≡ s.sent ++ (req ∷ [])
    hops_kept : s'.hops ≡ s.hops ++ (hop ∷ [])
    to : hop.redirect_to ≡ some (ops.to_string t.url)
    web : IsWeb ops t.url
    repeats : Repeats hop.status req.target t
    below : i < cfg.max_redirects

  abbrev Carries : UrlOps U → ProbeConfig U W → ℕ → Progress U W → Request U → Turn U W → Type 0
  Carries ops cfg i s req (leave r) = Extends ops s req r
  Carries ops cfg i s req (again t s') = Continues ops cfg i s req t s'

  on_next-Carries :
      (ops : UrlOps U) (cfg : ProbeConfig U W) (i status : ℕ) (s : Progress U W) (req : Request U)
      (capture : Option (List ℕ)) (judged : HopResult W × Next U)
      → Judged ops cfg i status judged
      → Carries ops cfg i s req (on_next status req.target s req capture judged)
  unfolding on_next
  on_next-Carries ops cfg i status s req capture (h, ended e) j = record {
    later = [];
    hops = h ∷ [];
    sent = refl;
    hops_kept = refl;
    linked = tt;
  }
  on_next-Carries ops cfg i status s req capture (h, onward u) (f, same, to, web, less) = record {
    hop = h;
    sent = refl;
    hops_kept = refl;
    to = rw (redirected-url req.target status u) to;
    web = rw (redirected-url req.target status u) web;
    repeats = rw same (redirected-Repeats req.target status u);
    below = less;
  }

  settle-Carries :
      (ops : UrlOps U) (cfg : ProbeConfig U W) (i : ℕ) (t : Target U) (s : Progress U W)
      (outcome : Result ProbeError (HopResult W × Option (List ℕ)))
      → Carries ops cfg i s (request_at cfg i t) (settle ops cfg i t s outcome)
  unfolding settle request_at
  settle-Carries ops cfg i t s (err e) = record {
    later = [];
    hops = [];
    sent = refl;
    hops_kept = sym (append-nil s.hops);
    linked = tt;
  }
  settle-Carries ops cfg i t s (ok (hop, capture)) =
      on_next-Carries ops cfg i hop.status s (request_at cfg i t) capture
        (after_hop ops cfg t.url i hop) (after_hop-Judged ops cfg t.url i hop)

  Continues-Extends :
      (ops : UrlOps U) (cfg : ProbeConfig U W) (i : ℕ) (s : Progress U W) (req : Request U)
      (t : Target U) (s' r : Progress U W)
      → Continues ops cfg i s req t s'
      → Extends ops s' (request_at cfg (i + 1) t) r
      → Extends ops s req r
  unfolding request_at
  Continues-Extends ops cfg i s req t s' r c x = record {
    later = request_at cfg (i + 1) t ∷ x.later;
    hops = c.hop ∷ x.hops;
    sent =
        x.sent
        ∙ (ap (λ l. l ++ (request_at cfg (i + 1) t ∷ x.later)) c.sent
            ∙ append_assoc s.sent (req ∷ []) (request_at cfg (i + 1) t ∷ x.later));
    hops_kept =
        x.hops_kept ∙ (ap (λ l. l ++ x.hops) c.hops_kept ∙ append_assoc s.hops (c.hop ∷ []) x.hops);
    linked = (c.to, c.web, ground arith, c.repeats, x.linked);
  }

  turn-Extends :
      (ops : UrlOps U) (cfg : ProbeConfig U W) (i : ℕ) (s : Progress U W) (req : Request U)
      (next : Target U → Progress U W → Option (Progress U W)) (r : Turn U W)
      → Carries ops cfg i s req r
      → ((t : Target U) (s' : Progress U W)
          → i < cfg.max_redirects
          → Has (Extends ops s' (request_at cfg (i + 1) t)) (next t s'))
      → Has (Extends ops s req) (elim r [ leave x ↦ some x | again t s' ↦ next t s' ])
  turn-Extends ops cfg i s req next (leave x) h rest = h
  turn-Extends ops cfg i s req next (again t s') h rest =
      Has-map (Extends ops s' (request_at cfg (i + 1) t)) (Extends ops s req) (next t s')
        (λ r x. Continues-Extends ops cfg i s req t s' r h x) (rest t s' h.below)

  follow-Extends :
      (ops : UrlOps U) (cfg : ProbeConfig U W) (run : RunHop U W) (fuel i : ℕ) (t : Target U)
      (s : Progress U W)
      → i ≤ cfg.max_redirects
      → cfg.max_redirects < i + fuel
      → Has (Extends ops s (request_at cfg i t)) (follow ops cfg run fuel i t s)
  unfolding follow
  follow-Extends ops cfg run zero i t s b enough = omega (arith, b, enough)
  follow-Extends ops cfg run (suc fuel) i t s b enough =
      turn-Extends ops cfg i s (request_at cfg i t) (follow ops cfg run fuel (i + 1))
        (settle ops cfg i t s (run s.sent (request_at cfg i t)))
        (settle-Carries ops cfg i t s (run s.sent (request_at cfg i t)))
        (λ t' s' less.
          follow-Extends ops cfg run fuel (i + 1) t' s' (omega (arith, less))
            (omega (arith, enough)))

  -- The first request is the configured one, and each further one is linked to the hop before it.
  pub record AreLinked (ops : UrlOps U) (cfg : ProbeConfig U W) (r : Progress U W) : Type 0 where
    pub later : List (Request U)
    pub sent : r.sent ≡ request_at cfg 0 (first_target cfg) ∷ later
    pub linked : IsLinked ops (request_at cfg 0 (first_target cfg)) later r.hops

  Extends-AreLinked :
      (ops : UrlOps U) (cfg : ProbeConfig U W) (r : Progress U W)
      → Extends ops start (request_at cfg 0 (first_target cfg)) r
      → AreLinked ops cfg r
  Extends-AreLinked ops cfg r x = record {
    later = x.later;
    sent = x.sent;
    linked =
        subst (IsLinked ops (request_at cfg 0 (first_target cfg)) x.later) (sym x.hops_kept)
          x.linked;
  }

  -- Whatever the exchanges give, the first request of `probe` is the configured one, and each
  -- further one goes to the address that the hop before it redirects to, by `http` or `https`,
  -- without the address of `--resolve`: after 301, 302 and 303 as a GET without a body, otherwise
  -- with the method and the body as before.
  pub follow_all-AreLinked :
      (ops : UrlOps U) (cfg : ProbeConfig U W) (run : RunHop U W)
      → Has (AreLinked ops cfg) (follow_all ops cfg run)
  unfolding follow_all
  follow_all-AreLinked ops cfg run =
      Has-map (Extends ops start (request_at cfg 0 (first_target cfg))) (AreLinked ops cfg)
        (follow ops cfg run (suc cfg.max_redirects) 0 (first_target cfg) start)
        (Extends-AreLinked ops cfg)
        (follow-Extends ops cfg run (suc cfg.max_redirects) 0 (first_target cfg) start (omega arith)
          (omega arith))
