-- ===== src/Stats/Recording.antt =====
-- `StatsCollector::record` of src/stats.rs. `sorted_texts` stands for the standard library's printing
-- and sorting of addresses.
use httprove.Base.{
  ℕ, ◌+◌, List, [], ◌∷◌, Option, none, some, Bool, true, false, not, ◌&&◌, length, leb, ◌==◌,
  if◌then◌else◌,
}
use httprove.Base.Int.{pos}
use httprove.Text.{is_empty, same_text}
use httprove.Dns.Answers.{IpAddr}
use httprove.Types.{
  Text, ProbeResult, HopResult, PhaseTimings, is_success, final_hop, status, summed_timings,
}
use httprove.Types.Number.{Float}
use httprove.Stats.{PhaseAccum, no_samples, push, push_opt, bump, normalize_http_version}

-- The array of accumulators, by phase.
pub record Phases (W : Type 0) : Type 0 where
  pub dns : PhaseAccum W
  pub tcp : PhaseAccum W
  pub tls : PhaseAccum W
  pub ttfb : PhaseAccum W
  pub download : PhaseAccum W
  pub total : PhaseAccum W

pub record StatsCollector (W : Type 0) : Type 0 where
  pub sent : ℕ  -- u64, as are the other counters
  pub succeeded : ℕ
  pub failed : ℕ
  pub expect_failed : ℕ
  pub phases : Phases W
  pub status_counts : List (ℕ × ℕ)
  pub throughput : PhaseAccum W
  pub hops_total : ℕ
  pub hops_reused : ℕ
  pub http_version_counts : List (Text × ℕ)
  pub last_sorted_ips : Option (List Text)
  pub dns_answer_changes : ℕ
  pub apdex_threshold : Option W
  pub apdex_satisfied : ℕ
  pub apdex_tolerating : ℕ

unfoldable pub same_texts : List Text → List Text → Bool
unfolding same_text
same_texts [] [] = true
same_texts (a ∷ xs) (b ∷ ys) = let rest = same_texts xs ys in if same_text a b then rest else false
same_texts _ _ = false

-- The count of changes and the addresses to compare with next.
unfoldable pub answer_change : Option (List Text) → ℕ → List Text → ℕ × Option (List Text)
unfolding same_texts
answer_change last changes [] = (changes, last)
answer_change none changes (ip ∷ ips) = (changes, some (ip ∷ ips))
answer_change (some prev) changes (ip ∷ ips) =
    ((if same_texts prev (ip ∷ ips) then changes else changes + 1), some (ip ∷ ips))

module _ {W : Type 0} where
  unfoldable pub reused_hops : List (HopResult W) → ℕ
  reused_hops [] = 0
  reused_hops (h ∷ hs) = (if h.reused_conn then 1 else 0) + reused_hops hs

  unfoldable pub count_versions : List (Text × ℕ) → List (HopResult W) → List (Text × ℕ)
  count_versions counts [] = counts
  count_versions counts (h ∷ hs) =
      count_versions (bump same_text (normalize_http_version h.http_version) counts) hs

  unfoldable pub all_reused : List (HopResult W) → Bool
  all_reused [] = true
  all_reused (h ∷ hs) = h.reused_conn && all_reused hs

  unfoldable pub conn_reused : List (HopResult W) → Bool
  unfolding all_reused
  conn_reused hops = not (is_empty hops) && all_reused hops

  unfoldable pub body_sum : List (HopResult W) → ℕ
  body_sum [] = 0
  body_sum (h ∷ hs) = h.body_bytes + body_sum hs

abbrev pub count_status : Option ℕ → List (ℕ × ℕ) → List (ℕ × ℕ)
count_status none counts = counts
count_status (some code) counts = bump (λ a b. a == b) code counts

module _ {W : Type 0} ⦃f : Float W⦄ where
  abbrev pub no_phases : Phases W
  no_phases = record {
    dns = no_samples;
    tcp = no_samples;
    tls = no_samples;
    ttfb = no_samples;
    download = no_samples;
    total = no_samples;
  }

  -- `StatsCollector::with_apdex_threshold`
  abbrev pub with_apdex_threshold : Option W → StatsCollector W
  with_apdex_threshold threshold = record {
    sent = 0;
    succeeded = 0;
    failed = 0;
    expect_failed = 0;
    phases = no_phases;
    status_counts = [];
    throughput = no_samples;
    hops_total = 0;
    hops_reused = 0;
    http_version_counts = [];
    last_sorted_ips = none;
    dns_answer_changes = 0;
    apdex_threshold = threshold;
    apdex_satisfied = 0;
    apdex_tolerating = 0;
  }

  abbrev pub reset : StatsCollector W → StatsCollector W
  reset s = with_apdex_threshold s.apdex_threshold

  unfoldable pub push_phases : Phases W → PhaseTimings W → Bool → Phases W
  push_phases p t reused = record {
    dns = push_opt p.dns t.dns_ms;
    tcp = if reused then p.tcp else push p.tcp t.tcp_ms;
    tls = push_opt p.tls t.tls_ms;
    ttfb = push p.ttfb t.ttfb_ms;
    download = push p.download t.download_ms;
    total = push p.total t.total_ms;
  }

  -- The bytes of the body in a second, if there are enough of them.
  unfoldable pub goodput : ℕ → W → Option W
  goodput body download_ms =
      if leb 4096 body && f.gt download_ms f.nought
      then some (f.over (f.of_int (pos body)) (f.over download_ms (f.of_int (pos 1000))))
      else none

  -- The two counters of Apdex, from the total time.
  unfoldable pub classify : Option W → W → ℕ × ℕ → ℕ × ℕ
  classify none total counts = counts
  classify (some threshold) total (satisfied, tolerating) =
      if f.ge threshold total
      then (satisfied + 1, tolerating)
      else if f.ge (f.times (f.of_int (pos 4)) threshold) total
      then (satisfied, tolerating + 1)
      else (satisfied, tolerating)

  abbrev pub resolved : Option (HopResult W) → List IpAddr
  resolved none = []
  resolved (some hop) = hop.resolved_ips

  -- What `record` does with a probe that succeeded.
  unfoldable pub record_success :
      (List IpAddr → List Text) → StatsCollector W → ProbeResult W → StatsCollector W
  unfolding push_phases goodput classify conn_reused reused_hops count_versions body_sum
      answer_change
  record_success sorted_texts s r =
      let t = summed_timings r in
      let change =
        answer_change s.last_sorted_ips s.dns_answer_changes
          (sorted_texts (resolved (final_hop r))) in
      let apdex = classify s.apdex_threshold t.total_ms (s.apdex_satisfied, s.apdex_tolerating) in
      record {
        sent = s.sent + 1;
        succeeded = s.succeeded + 1;
        failed = s.failed;
        expect_failed = if is_empty r.expect_failures then s.expect_failed else s.expect_failed + 1;
        phases = push_phases s.phases t (conn_reused r.hops);
        status_counts = count_status (status r) s.status_counts;
        throughput = push_opt s.throughput (goodput (body_sum r.hops) t.download_ms);
        hops_total = s.hops_total + length r.hops;
        hops_reused = s.hops_reused + reused_hops r.hops;
        http_version_counts = count_versions s.http_version_counts r.hops;
        last_sorted_ips = change.1;
        dns_answer_changes = change.0;
        apdex_threshold = s.apdex_threshold;
        apdex_satisfied = apdex.0;
        apdex_tolerating = apdex.1;
      }

  -- `StatsCollector::record`
  unfoldable pub record_probe :
      (List IpAddr → List Text) → StatsCollector W → ProbeResult W → StatsCollector W
  unfolding record_success
  record_probe sorted_texts s r =
      if is_success r
      then record_success sorted_texts s r
      else record s { sent = s.sent + 1; failed = s.failed + 1 }

  unfoldable pub record_all :
      (List IpAddr → List Text) → StatsCollector W → List (ProbeResult W) → StatsCollector W
  unfolding record_probe
  record_all sorted_texts s [] = s
  record_all sorted_texts s (r ∷ rs) = record_all sorted_texts (record_probe sorted_texts s r) rs
